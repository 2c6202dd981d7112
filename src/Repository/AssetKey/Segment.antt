-- ===== src/Repository/AssetKey/Segment.antt =====
-- asset_key.go: one segment of an object key.
use personal_context.Base.{
  ◌≡◌, ◌≢◌, sym, ap, ◌∙◌, Bool, false, true, [], arith, ◌==◌, nat_eq, list_eq, ==→≡, ==→≢, not,
  ◌||◌, ok, err, passed, if◌then◌else◌,
}
use personal_context.Text.{Text, codes, is_space, trim_left, trim_right, trim_space, contains}
use personal_context.Text.Trim.{trim_right_idem}
use personal_context.Repository.AssetKey.{
  AssetField, slash, backslash, validate_asset_path_segment, segment_required, segment_whitespace,
  segment_not_single,
}

-- One path segment: not blank, no surrounding whitespace, no separator, and no dot name.
pub record IsSegment (value : Text) : Type 0 where
  pub ne_nil : value ≢ []
  pub trimmed : trim_space value ≡ value
  pub no_slash : contains slash value ≡ false
  pub no_backslash : contains backslash value ≡ false

-- The tests of `validate_asset_path_segment`, apart from the texts that they are made on.
segment_tests :
    (field : AssetField) (blank same dot dots sl bs : Bool)
    → (if blank
        then err (segment_required field)
        else if not same
        then err (segment_whitespace field)
        else if dot || dots || sl || bs
        then err (segment_not_single field)
        else passed)
      ≡ passed
    → (blank ≡ false) × (same ≡ true) × (sl ≡ false) × (bs ≡ false)
segment_tests field blank same dot dots sl bs h = ground arith

pub validate_asset_path_segment-IsSegment :
    (field : AssetField) (value : Text)
    → validate_asset_path_segment field value ≡ ok tt
    → IsSegment value
unfolding validate_asset_path_segment
validate_asset_path_segment-IsSegment field value h =
    let (blank, same, sl, bs) =
      segment_tests field (trim_space value == []) (value == trim_space value) (value == codes ".")
        (value == codes "..") (contains slash value) (contains backslash value) h in
    let trim : value ≡ trim_space value = ==→≡ value (trim_space value) same in
    record {
      ne_nil = λ e. ==→≢ (trim_space value) [] blank (sym trim ∙ e);
      trimmed = sym trim;
      no_slash = sl;
      no_backslash = bs;
    }

pub segment_end : (value : Text) → trim_space value ≡ value → trim_right is_space value ≡ value
unfolding trim_space
segment_end value h =
    ap (trim_right is_space) (sym h) ∙ trim_right_idem is_space (trim_left is_space value) ∙ h
