-- ===== src/Repository/Replace.antt =====
-- cli/internal/repository/types.go: the check of an input that replaces a record and its children.
use personal_context.Base.{
  ◌≡◌, ap, ◌∙◌, sym, Bool, true, not, ◌||◌, List, [], ◌∷◌, arith, ◌==◌, nat_eq, list_eq, ==→≡,
  if◌then◌else◌, ok, err, Checked, passed, map_err, map_err-eq-ok, ◌>>◌,
}
use personal_context.Text.{Text, codes, trim_space}
use personal_context.Repository.AssetKey.{validate_record_asset_key, canonical_record_asset_key}
use personal_context.Repository.AssetKey.Laws.{validate_record_asset_key_iff}
use personal_context.Repository.Errors.{RepositoryError, invalid_argument, invalid_key}
use personal_context.Repository.Inputs.{
  CreateRecordInput, CreateRecordFigureInput, CreateRecordDataFileInput,
}

pub record ReplaceRecordChildrenInput : Type 0 where
  pub row : CreateRecordInput
  pub set_deleted_at : Bool
  pub figures : List CreateRecordFigureInput
  pub data_files : List CreateRecordDataFileInput

-- The key of a child row.
unfoldable pub check_child_key : Text → Text → Text → Text → Checked RepositoryError
check_child_key kind rid name key =
    map_err invalid_key (validate_record_asset_key kind rid name key)

-- The two loops. A size is a natural number, so that it is not negative.
unfoldable pub validate_figures : Text → List CreateRecordFigureInput → Checked RepositoryError
validate_figures rid [] = passed
validate_figures rid (f ∷ fs) =
    let rest = validate_figures rid fs in
    if not (f.record_id == rid)
    then err invalid_argument
    else do check_child_key (codes "figures") f.record_id f.filename f.s3_key; rest

unfoldable pub validate_data_files : Text → List CreateRecordDataFileInput → Checked RepositoryError
validate_data_files rid [] = passed
validate_data_files rid (f ∷ fs) =
    let rest = validate_data_files rid fs in
    if not (f.record_id == rid) || trim_space f.hash == []
    then err invalid_argument
    else do check_child_key (codes "data") f.record_id f.filename f.s3_key; rest

unfoldable pub validate_replacement : ReplaceRecordChildrenInput → Checked RepositoryError
validate_replacement input =
    if trim_space input.row.id == []
      || trim_space input.row.date == []
      || trim_space input.row.project_id == []
      || trim_space input.row.source_device_id == []
    then err invalid_argument
    else do
      validate_figures input.row.id input.figures
      validate_data_files input.row.id input.data_files

-- A child of the record under its canonical key.
abbrev pub IsOwned : Text → Text → Text → Text → Text → Type 0
IsOwned kind rid owner name key =
    (owner ≡ rid) × (canonical_record_asset_key kind rid name ≡ ok key)

abbrev pub AllFiguresOwned : Text → List CreateRecordFigureInput → Type 0
AllFiguresOwned rid [] = Unit
AllFiguresOwned rid (f ∷ fs) =
    IsOwned (codes "figures") rid f.record_id f.filename f.s3_key × AllFiguresOwned rid fs

abbrev pub AllDataFilesOwned : Text → List CreateRecordDataFileInput → Type 0
AllDataFilesOwned rid [] = Unit
AllDataFilesOwned rid (f ∷ fs) =
    IsOwned (codes "data") rid f.record_id f.filename f.s3_key × AllDataFilesOwned rid fs

check_child_key-IsOwned :
    (kind rid owner name key : Text)
    → (owner == rid) ≡ true
    → check_child_key kind owner name key ≡ passed
    → IsOwned kind rid owner name key
unfolding check_child_key
check_child_key-IsOwned kind rid owner name key same h =
    let e : owner ≡ rid = ==→≡ owner rid same in
    (
      e,
      sym (ap (λ o. canonical_record_asset_key kind o name) e)
          ∙ (validate_record_asset_key_iff kind owner name key).0
              (map_err-eq-ok invalid_key (validate_record_asset_key kind owner name key) h),
    )

validate_figures-AllFiguresOwned :
    (rid : Text) (fs : List CreateRecordFigureInput)
    → validate_figures rid fs ≡ passed
    → AllFiguresOwned rid fs
unfolding validate_figures
validate_figures-AllFiguresOwned rid [] h = tt
validate_figures-AllFiguresOwned rid (f ∷ fs) h = (
  check_child_key-IsOwned (codes "figures") rid f.record_id f.filename f.s3_key (ground arith)
      (ground arith),
  validate_figures-AllFiguresOwned rid fs (ground arith),
)

validate_data_files-AllDataFilesOwned :
    (rid : Text) (fs : List CreateRecordDataFileInput)
    → validate_data_files rid fs ≡ passed
    → AllDataFilesOwned rid fs
unfolding validate_data_files
validate_data_files-AllDataFilesOwned rid [] h = tt
validate_data_files-AllDataFilesOwned rid (f ∷ fs) h = (
  check_child_key-IsOwned (codes "data") rid f.record_id f.filename f.s3_key (ground arith)
      (ground arith),
  validate_data_files-AllDataFilesOwned rid fs (ground arith),
)

-- In an input that passes the check, every figure and every data file belongs to the record, under
-- the canonical key of the record and its filename.
pub validate_replacement-owned :
    (input : ReplaceRecordChildrenInput)
    → validate_replacement input ≡ passed
    → AllFiguresOwned input.row.id input.figures × AllDataFilesOwned input.row.id input.data_files
unfolding validate_replacement
validate_replacement-owned input h = (
  validate_figures-AllFiguresOwned input.row.id input.figures (ground arith),
  validate_data_files-AllDataFilesOwned input.row.id input.data_files (ground arith),
)
