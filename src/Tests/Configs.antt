-- ===== src/Tests/Configs.antt =====
-- Runs of the configuration checks, and the examples of their theorems.
use personal_context.Base.{
  ℕ, ◌≡◌, ◌↔◌, ◌≤◌, ◌<◌, ◌*◌, refl, true, false, ◌&&◌, ◌||◌, some, [], nat_eq, list_eq, ok, err,
  passed,
}
use personal_context.Text.{codes, trim_space, is_space}
use personal_context.Config.{
  pos, negsuc, Config, local_only, cloud, key_without_cloud, days_not_positive, count_set, mode,
  day, validate_gc_retention_days, gc_retention, days_or_default,
}
use personal_context.Config.Laws.{is_given, mode_iff, gc_retention-validate}

abbrev key_only : Config
key_only = record {
  neon_url = [];
  s3_bucket = codes " ";
  s3_region = [];
  aws_profile = [];
  active_project = [];
  s3_endpoint = [];
  s3_force_path_style = false;
  api_key = codes "k";
  gc_retention_days = some (pos 90);
}

refuses_key : mode key_only ≡ err key_without_cloud
unfolding mode count_set trim_space is_space nat_eq list_eq
refuses_key = refl

refuses_negative : validate_gc_retention_days (some (negsuc 4)) ≡ err (days_not_positive (negsuc 4))
unfolding validate_gc_retention_days
refuses_negative = refl

accepts_ninety : validate_gc_retention_days key_only.gc_retention_days ≡ passed
unfolding validate_gc_retention_days
accepts_ninety = refl

mode_iff_example :
    ((mode key_only ≡ ok cloud)
      ↔ ((is_given [] && is_given (codes " ") && is_given [] && is_given []) ≡ true))
    × ((mode key_only ≡ ok local_only) ↔ (
        (is_given [] || is_given (codes " ") || is_given [] || is_given [] || is_given (codes "k"))
        ≡ false))
mode_iff_example = mode_iff key_only

gc_retention-validate_example :
    (n : ℕ) × (days_or_default key_only.gc_retention_days ≡ pos n)
    × (gc_retention key_only ≡ n * day)
    × (day ≤ gc_retention key_only)
    × (gc_retention key_only < 9223372036854775808)
gc_retention-validate_example = gc_retention-validate key_only accepts_ninety
