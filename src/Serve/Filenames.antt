-- ===== src/Serve/Filenames.antt =====
-- server.go and asset_key.go: the server serves the files that the repository stores.
use personal_context.Base.{
  ◌≡◌, Bool, true, false, not, ◌||◌, [], arith, ◌==◌, nat_eq, list_eq, ≢→==, if◌then◌else◌, err,
  passed,
}
use personal_context.Text.{Text, codes, trim_space, contains}
use personal_context.Repository.AssetKey.{
  AssetField, filename, slash, backslash, validate_asset_path_segment, segment_required,
  segment_whitespace, segment_not_single,
}
use personal_context.Repository.AssetKey.Segment.{validate_asset_path_segment-IsSegment}
use personal_context.Serve.{is_valid_filename}

dot_tests :
    (field : AssetField) (blank same dot dots sl bs : Bool)
    → (if blank
        then err (segment_required field)
        else if not same
        then err (segment_whitespace field)
        else if dot || dots || sl || bs
        then err (segment_not_single field)
        else passed)
      ≡ passed
    → (dot ≡ false) × (dots ≡ false)
dot_tests field blank same dot dots sl bs h = ground arith

-- A filename that passes as a segment of an object key and has no NUL is a valid filename for the
-- server.
pub is_valid_filename-segment :
    (name : Text)
    → validate_asset_path_segment filename name ≡ passed
    → contains 0 name ≡ false
    → is_valid_filename name ≡ true
unfolding is_valid_filename validate_asset_path_segment
is_valid_filename-segment name h no_nul =
    let s = validate_asset_path_segment-IsSegment filename name h in
    let (dot, dots) =
      dot_tests filename (trim_space name == []) (name == trim_space name) (name == codes ".")
        (name == codes "..") (contains slash name) (contains backslash name) h in
    rw (≢→== name [] s.ne_nil, dot, dots, s.no_slash, s.no_backslash, no_nul)
