-- ===== src/Sync/Children.antt =====
-- The child rows of a record, figures and data files, as the reconciliation of sync/conflict.go
-- handles them: how it checks, compares and copies a row. `PlanFigureReconciliation` and
-- `PlanDataFileReconciliation` are one text but for that.
use personal_context.Base.{
  ℕ, Bool, not, ◌||◌, Option, none, some, ◌==◌, nat_eq, list_eq, [], if◌then◌else◌, err, Checked,
  passed, map_err, ◌>>◌,
}
use personal_context.Text.{Text, codes, trim_space}
use personal_context.Repository.Types.{RecordFigure, RecordDataFile}
use personal_context.Repository.Inputs.{
  CreateRecordFigureInput, UpdateRecordFigureInput, CreateRecordDataFileInput,
  UpdateRecordDataFileInput,
}
use personal_context.Repository.AssetKey.{AssetKeyError, validate_record_asset_key}
use personal_context.SyncEngine.Resolve.{IndexError}

pub data PlanError : Type 0 where
  record_id_required : PlanError
  existing_rows : IndexError → PlanError
  asset_key : AssetKeyError → PlanError
  hash_required : PlanError
  duplicate_desired : Text → PlanError

-- `nullableStringValue`.
unfoldable pub nullable_string_value : Option Text → Text
nullable_string_value none = []
nullable_string_value (some s) = s

-- What the two reconciliations differ in.
pub record Children : Type 1 where
  pub Row : Type 0
  pub Create : Type 0
  pub Update : Type 0
  pub id : Row → ℕ
  pub filename : Row → Text
  -- The checks on a desired row, by the id of its record.
  pub check : Text → Row → Checked PlanError
  -- Whether the existing row is to be updated to the desired one.
  pub differs : Row → Row → Bool
  pub create_input : Text → Row → Create
  pub update_input : Row → Row → Update

unfoldable pub check_figure : Text → RecordFigure → Checked PlanError
check_figure rid f =
    map_err asset_key (validate_record_asset_key (codes "figures") rid f.filename f.s3_key)

unfoldable pub figure_differs : RecordFigure → RecordFigure → Bool
unfolding nullable_string_value
figure_differs e f =
    not (e.s3_key == f.s3_key)
    || not (nullable_string_value e.alt_text == nullable_string_value f.alt_text)

abbrev pub figures : Children
figures = record {
  Row = RecordFigure;
  Create = CreateRecordFigureInput;
  Update = UpdateRecordFigureInput;
  id = λ f. f.id;
  filename = λ f. f.filename;
  check = check_figure;
  differs = figure_differs;
  create_input = λ rid f. record {
    record_id = rid;
    filename = f.filename;
    s3_key = f.s3_key;
    alt_text = f.alt_text;
  };
  update_input =
      λ e f. record { id = e.id; filename = f.filename; s3_key = f.s3_key; alt_text = f.alt_text };
}

unfoldable pub check_data_file : Text → RecordDataFile → Checked PlanError
check_data_file rid f = do
  map_err asset_key (validate_record_asset_key (codes "data") rid f.filename f.s3_key)
  if trim_space f.hash == [] then err hash_required else passed

unfoldable pub data_file_differs : RecordDataFile → RecordDataFile → Bool
unfolding nullable_string_value
data_file_differs e f =
    not (e.s3_key == f.s3_key)
    || not (e.size == f.size)
    || not (e.hash == f.hash)
    || not (nullable_string_value e.description == nullable_string_value f.description)

abbrev pub data_files : Children
data_files = record {
  Row = RecordDataFile;
  Create = CreateRecordDataFileInput;
  Update = UpdateRecordDataFileInput;
  id = λ f. f.id;
  filename = λ f. f.filename;
  check = check_data_file;
  differs = data_file_differs;
  create_input = λ rid f. record {
    record_id = rid;
    filename = f.filename;
    s3_key = f.s3_key;
    size = f.size;
    hash = f.hash;
    description = f.description;
  };
  update_input = λ e f. record {
    id = e.id;
    filename = f.filename;
    s3_key = f.s3_key;
    size = some f.size;
    hash = some f.hash;
    description = f.description;
  };
}
