-- ===== src/Repository/AssetKey.antt =====
-- cli/internal/repository/asset_key.go: the canonical object key of a figure or a data file.
pub mod Segment
pub mod Laws
use personal_context.Base.{
  ℕ, String, Bool, false, true, not, ◌&&◌, ◌||◌, List, [], ◌∷◌, ◌++◌, ◌==◌, nat_eq, list_eq, length,
  if◌then◌else◌, Result, ok, err, Checked, passed, ◌>>=◌, ◌>>◌,
}
use personal_context.Text.{Text, codes, trim_space, contains, has_first, split}

pub data AssetField : Type 0 where
  record_id filename : AssetField

-- One constructor for each message. All of them wrap `ErrInvalidArgument`.
pub data AssetKeyError : Type 0 where
  unsupported_kind : Text → AssetKeyError
  segment_required : AssetField → AssetKeyError
  segment_whitespace : AssetField → AssetKeyError
  segment_not_single : AssetField → AssetKeyError
  key_required : AssetKeyError
  key_whitespace : AssetKeyError
  key_not_relative : AssetKeyError
  key_shape : Text → AssetKeyError
  key_mismatch : Text → Text → AssetKeyError

abbrev pub slash : ℕ
slash = b'/'

abbrev pub backslash : ℕ
backslash = 0x5c

unfoldable pub validate_asset_path_segment : AssetField → Text → Checked AssetKeyError
validate_asset_path_segment field value =
    if trim_space value == []
    then err (segment_required field)
    else if not (value == trim_space value)
    then err (segment_whitespace field)
    else if value == codes "."
        || value == codes ".."
        || contains slash value
        || contains backslash value
    then err (segment_not_single field)
    else passed

unfoldable pub canonical_record_asset_key : Text → Text → Text → Result AssetKeyError Text
canonical_record_asset_key kind id name =
    if not (kind == codes "figures") && not (kind == codes "data")
    then err (unsupported_kind kind)
    else do
      validate_asset_path_segment record_id id
      validate_asset_path_segment filename name
      ok (kind ++ slash ∷ (id ++ slash ∷ name))

-- The checks on the key itself, in the order of the code.
unfoldable pub check_asset_key : Text → Text → Text → Checked AssetKeyError
check_asset_key kind s3_key expected =
    if trim_space s3_key == []
    then err key_required
    else if not (s3_key == trim_space s3_key)
    then err key_whitespace
    else if has_first slash s3_key || contains backslash s3_key
    then err key_not_relative
    else if not (length (split slash s3_key) == 3)
    then err (key_shape kind)
    else if not (s3_key == expected)
    then err (key_mismatch s3_key expected)
    else passed

unfoldable pub validate_record_asset_key : Text → Text → Text → Text → Checked AssetKeyError
validate_record_asset_key kind id name s3_key = do
  expected ← canonical_record_asset_key kind id name
  check_asset_key kind s3_key expected
