-- ===== src/Tests/Keys.antt =====
-- repository/asset_key.go.
use personal_context.Base.{◌≡◌, ◌↔◌, refl, ok, err, passed, nat_eq, list_eq}
use personal_context.Text.{codes, trim_space, is_space, contains, has_first, split}
use personal_context.Repository.AssetKey.{
  filename, segment_not_single, key_mismatch, validate_record_asset_key, canonical_record_asset_key,
  validate_asset_path_segment, check_asset_key,
}
use personal_context.Repository.AssetKey.Laws.{
  validate_record_asset_key_iff, canonical_record_asset_key-injective,
}

made :
    canonical_record_asset_key (codes "data") (codes "r1") (codes "x y.csv")
    ≡ ok (codes "data/r1/x y.csv")
unfolding canonical_record_asset_key validate_asset_path_segment trim_space is_space contains nat_eq
    list_eq
made = refl

parent_is_refused :
    canonical_record_asset_key (codes "data") (codes "r1") (codes "..")
    ≡ err (segment_not_single filename)
unfolding canonical_record_asset_key validate_asset_path_segment trim_space is_space contains nat_eq
    list_eq
parent_is_refused = refl

other_record_is_refused :
    validate_record_asset_key (codes "data") (codes "r1") (codes "x") (codes "data/r2/x")
    ≡ err (key_mismatch (codes "data/r2/x") (codes "data/r1/x"))
unfolding validate_record_asset_key canonical_record_asset_key validate_asset_path_segment
    check_asset_key trim_space is_space contains has_first split nat_eq list_eq
other_record_is_refused = refl

validate_record_asset_key_iff_example :
    (validate_record_asset_key
        (codes "data")
        (codes "r1")
        (codes "x y.csv")
        (codes "data/r1/x y.csv")
      ≡ passed)
    ↔ (canonical_record_asset_key (codes "data") (codes "r1") (codes "x y.csv")
        ≡ ok (codes "data/r1/x y.csv"))
validate_record_asset_key_iff_example =
    validate_record_asset_key_iff (codes "data") (codes "r1") (codes "x y.csv")
      (codes "data/r1/x y.csv")

canonical_record_asset_key-injective_example :
    (codes "data" ≡ codes "data") × (codes "r1" ≡ codes "r1") × (codes "x y.csv" ≡ codes "x y.csv")
canonical_record_asset_key-injective_example =
    canonical_record_asset_key-injective (codes "data") (codes "r1") (codes "x y.csv")
      (codes "data") (codes "r1") (codes "x y.csv") (codes "data/r1/x y.csv") made made
