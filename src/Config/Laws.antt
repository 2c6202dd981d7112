-- ===== src/Config/Laws.antt =====
-- config.go and validate.go: what the validated configurations mean.
use personal_context.Base.{
  ℕ, ◌*◌, ◌≤◌, ◌<◌, ◌≡◌, ◌↔◌, refl, Bool, true, false, not, ◌&&◌, ◌||◌, Option, none, some, [],
  arith, ◌==◌, nat_eq, list_eq, ok, passed,
}
use personal_context.Text.{Text, trim_space}
use personal_context.Config.{
  ℤ, pos, negsuc, Config, local_only, cloud, count_set, mode, day, validate_gc_retention_days,
  gc_retention, days_or_default, times_day,
}

-- The value is not blank.
abbrev pub is_given : Text → Bool
is_given value = not (trim_space value == [])

-- A configuration is a cloud configuration exactly if none of the four core values is blank, and a
-- local one exactly if these and the API key are all blank.
pub mode_iff :
    (c : Config)
    → ((mode c ≡ ok cloud) ↔ (
        (is_given c.neon_url
          && is_given c.s3_bucket
          && is_given c.s3_region
          && is_given c.aws_profile)
        ≡ true))
      × ((mode c ≡ ok local_only) ↔ (
          (is_given c.neon_url
            || is_given c.s3_bucket
            || is_given c.s3_region
            || is_given c.aws_profile
            || is_given c.api_key)
          ≡ false))
unfolding mode count_set nat_eq
mode_iff c = ((λ h. ground arith, λ h. ground arith), (λ h. ground arith, λ h. ground arith))

times_day-pos :
    (n : ℕ)
    → 1 ≤ n
    → n ≤ 36500
    → (times_day (pos n) ≡ n * day)
      × (day ≤ times_day (pos n))
      × (times_day (pos n) < 9223372036854775808)
times_day-pos n h k = (omega arith, omega arith, omega arith)

retention_of :
    (days : Option ℤ)
    → validate_gc_retention_days days ≡ passed
    → (n : ℕ) × (days_or_default days ≡ pos n) × (1 ≤ n) × (n ≤ 36500)
unfolding validate_gc_retention_days
retention_of none h = (30, refl, omega arith, omega arith)
retention_of (some (pos n)) h = (n, refl, ground arith, ground arith)
retention_of (some (negsuc n)) h = cc

-- A retention that passes the check is at least a day, and its product in nanoseconds does not
-- overflow: it is the number of days, 30 by default, times a day, and not negative.
pub gc_retention-validate :
    (c : Config)
    → validate_gc_retention_days c.gc_retention_days ≡ passed
    → (n : ℕ) × (days_or_default c.gc_retention_days ≡ pos n)
      × (gc_retention c ≡ n * day)
      × (day ≤ gc_retention c)
      × (gc_retention c < 9223372036854775808)
unfolding gc_retention
gc_retention-validate c h =
    let (n, days, low, high) = retention_of c.gc_retention_days h in
    let (product, least, most) = times_day-pos n low high in
    (n, days, rw days product, rw days least, rw days most)
