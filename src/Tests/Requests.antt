-- ===== src/Tests/Requests.antt =====
-- Runs of the server's checks, and the examples of their theorems.
use personal_context.Base.{
  not, ◌&&◌, ◌∷◌, ◌++◌, ◌≡◌, refl, true, false, some, nat_eq, list_eq, passed,
}
use personal_context.Text.{Text, codes, contains, trim_space, is_space}
use personal_context.Repository.AssetKey.{validate_asset_path_segment, filename}
use personal_context.Repository.Columns.{is_record_id, is_git_hash, glob, times}
use personal_context.Serve.{is_valid_record_id, is_valid_git_hash, is_valid_filename, none_fails}
use personal_context.Serve.Columns.{is_valid_record_id-column}
use personal_context.Serve.Filenames.{is_valid_filename-segment}

accepts : is_valid_record_id (codes "20260510-0123abcd") ≡ true
unfolding is_valid_record_id none_fails nat_eq
accepts = refl

refuses_capitals : is_valid_record_id (codes "20260510-0123ABCD") ≡ false
unfolding is_valid_record_id none_fails nat_eq
refuses_capitals = refl

refuses_parent : is_valid_filename (codes "..") ≡ false
unfolding is_valid_filename nat_eq list_eq
refuses_parent = refl

-- The column reads the text as far as the NUL.
abbrev cut_short : Text
cut_short = codes "20260510-0123abcd" ++ 0 ∷ codes "x"

column_accepts : is_record_id cut_short ≡ true
unfolding is_record_id glob times nat_eq
column_accepts = refl

is_valid_record_id-column_example :
    (is_valid_record_id cut_short ≡ (is_record_id cut_short && not (contains 0 cut_short)))
    × (is_valid_git_hash cut_short ≡ (is_git_hash (some cut_short) && not (contains 0 cut_short)))
is_valid_record_id-column_example = is_valid_record_id-column cut_short

is_segment : validate_asset_path_segment filename (codes "a.png") ≡ passed
unfolding validate_asset_path_segment contains trim_space is_space nat_eq list_eq
is_segment = refl

has_no_nul : contains 0 (codes "a.png") ≡ false
unfolding contains nat_eq
has_no_nul = refl

is_valid_filename-segment_example : is_valid_filename (codes "a.png") ≡ true
is_valid_filename-segment_example = is_valid_filename-segment (codes "a.png") is_segment has_no_nul
