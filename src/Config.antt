-- ===== src/Config.antt =====
-- cli/internal/config: the mode of a configuration (config.go), and how long the trash is kept
-- (config.go and validate.go).
pub mod Laws
use personal_context.Base.{
  ℕ, suc, ◌+◌, ◌-◌, ◌*◌, ◌%◌, Bool, true, false, not, ◌&&◌, Option, none, some, List, [], ◌∷◌, ◌==◌,
  nat_eq, list_eq, ltb, length, if◌then◌else◌, Result, ok, err, Checked, passed,
}
use personal_context.Text.{Text, trim_space}

-- Go's signed integers.
pub data ℤ : Type 0 where
  pos negsuc : ℕ → ℤ

pub record Config : Type 0 where
  pub neon_url : Text
  pub s3_bucket : Text
  pub s3_region : Text
  pub aws_profile : Text
  pub active_project : Text
  pub s3_endpoint : Text
  pub s3_force_path_style : Bool
  pub api_key : Text
  pub gc_retention_days : Option ℤ

pub data Mode : Type 0 where
  local_only cloud : Mode

pub data ConfigError : Type 0 where
  key_without_cloud partial_cloud : ConfigError
  days_not_positive days_too_many : ℤ → ConfigError

-- The loop over `coreValues`.
unfoldable pub count_set : List Text → ℕ
count_set [] = 0
count_set (value ∷ values) =
    let rest = count_set values in if not (trim_space value == []) then suc rest else rest

abbrev pub core_values : Config → List Text
core_values c = c.neon_url ∷ c.s3_bucket ∷ c.s3_region ∷ c.aws_profile ∷ []

unfoldable pub mode : Config → Result ConfigError Mode
mode c =
    let core_set_count = count_set (core_values c) in
    let api_key_set = not (trim_space c.api_key == []) in
    if core_set_count == 0 && not api_key_set
    then ok local_only
    else if core_set_count == length (core_values c)
    then ok cloud
    else if core_set_count == 0 && api_key_set
    then err key_without_cloud
    else err partial_cloud

abbrev pub max_gc_retention_days : ℕ
max_gc_retention_days = 36500

abbrev pub default_gc_retention_days : ℤ
default_gc_retention_days = pos 30

-- `days < 1` and `days > MaxGCRetentionDays`.
abbrev pub is_below_one : ℤ → Bool
is_below_one (pos n) = ltb n 1
is_below_one (negsuc n) = true

abbrev pub is_above_max : ℤ → Bool
is_above_max (pos n) = ltb max_gc_retention_days n
is_above_max (negsuc n) = false

unfoldable pub validate_gc_retention_days : Option ℤ → Checked ConfigError
validate_gc_retention_days none = passed
validate_gc_retention_days (some days) =
    if is_below_one days
    then err (days_not_positive days)
    else if is_above_max days
    then err (days_too_many days)
    else passed

-- `24 * time.Hour`, in nanoseconds.
abbrev pub day : ℕ
day = 86400000000000

abbrev pub word : ℕ
word = 18446744073709551616

-- A product of 64 bits, which wraps around, as the word that holds it: a word from 2 ^ 63 up stands
-- for a negative duration.
abbrev pub times_day : ℤ → ℕ
times_day (pos n) = n * day % word
times_day (negsuc n) = (word - suc n * day % word) % word

abbrev pub days_or_default : Option ℤ → ℤ
days_or_default none = default_gc_retention_days
days_or_default (some days) = days

unfoldable pub gc_retention : Config → ℕ
gc_retention c = times_day (days_or_default c.gc_retention_days)
