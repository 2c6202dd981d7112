-- ===== src/Tests/Replacements.antt =====
-- Runs of replacements and of their check, and the example of the theorem.
use personal_context.Base.{
  ℕ, ◌≡◌, refl, true, none, some, [], ◌∷◌, ◌++◌, nat_eq, list_eq, option_eq, ok, err, passed,
}
use personal_context.Text.{Text, codes, trim_space, is_space, contains, has_first, split}
use personal_context.Repository.AssetKey.{
  validate_record_asset_key, canonical_record_asset_key, validate_asset_path_segment,
  check_asset_key,
}
use personal_context.Repository.Inputs.{CreateRecordFigureInput}
use personal_context.Repository.Errors.{invalid_argument}
use personal_context.Repository.Replace.{
  ReplaceRecordChildrenInput, check_child_key, validate_figures, validate_data_files,
  validate_replacement,
}
use personal_context.Time.{Time, truncate_to_millisecond, truncate}
use personal_context.Repository.Types.{Record, RecordFigure}
use personal_context.Repository.Columns.{has_length, is_record_id, is_date, is_git_hash}
use personal_context.Repository.Registries.{RegistryRow}
use personal_context.Repository.Records.{select_record, is_stored, check_values, check_references}
use personal_context.Repository.Figures.{is_taken}
use personal_context.Repository.Database.{Database, after_triggers, record_counts}
use personal_context.Repository.Replacement.{
  replace_record_children, replace_record_row, replace_children,
}
use personal_context.Repository.Replacement.Exact.{
  figure_input, IsReplaced, replace_record_children-IsReplaced,
}
use personal_context.Sync.Service.{create_input_of}
use personal_context.Tests.Data.{note_at}

abbrev plot_input : CreateRecordFigureInput
plot_input = record {
  record_id = codes "r1";
  filename = codes "a.png";
  s3_key = codes "figures/r1/a.png";
  alt_text = none;
}

abbrev replacement : ReplaceRecordChildrenInput
replacement = record {
  row = create_input_of (note_at 1 none);
  set_deleted_at = true;
  figures = plot_input ∷ [];
  data_files = [];
}

accepts_replacement : validate_replacement replacement ≡ passed
unfolding validate_replacement validate_figures validate_data_files check_child_key
    validate_record_asset_key canonical_record_asset_key validate_asset_path_segment check_asset_key
    trim_space is_space contains has_first split nat_eq list_eq
accepts_replacement = refl

refuses_stranger :
    validate_replacement
      (record replacement { figures = record plot_input { record_id = codes "r2" } ∷ [] })
    ≡ err invalid_argument
unfolding validate_replacement validate_figures validate_data_files trim_space is_space nat_eq
    list_eq
refuses_stranger = refl

abbrev stored : Record
stored = record (note_at 1000000 none) {
  id = codes "20260510-0123abcd";
  date = codes "2026-05-10";
  project_id = codes "p";
  source_device_id = codes "d";
}

abbrev plot_of : ℕ → Text → Text → Time → RecordFigure
plot_of id rid name at = record {
  id = id;
  record_id = rid;
  filename = name;
  s3_key = codes "figures/" ++ rid ++ codes "/" ++ name;
  alt_text = none;
  created_at = at;
}

abbrev registered : Text → RegistryRow
registered id = record { id = id; created_at = 0; updated_at = 0; archived_at = none }

-- A database with one record and its old plot, and the plot of another record.
abbrev before : Database
before = record {
  records = stored ∷ [];
  figures = plot_of 1 stored.id (codes "old.png") 0 ∷ plot_of 2 (codes "r2") (codes "b.png") 0 ∷ [];
  next_figure = 3;
  data_files = [];
  next_data_file = 1;
  projects = registered (codes "p") ∷ [];
  devices = registered (codes "d") ∷ [];
  paths = [];
  next_path = 1;
  chat_session_ids = [];
  version = record { version = 5; updated_at = 0 };
}

abbrev changed : Record
changed = record stored { notes = some (codes "new"); updated_at = 7000000 }

abbrev input : ReplaceRecordChildrenInput
input = record {
  row = create_input_of changed;
  set_deleted_at = true;
  figures = figure_input (plot_of 3 stored.id (codes "new.png") 9000000) ∷ [];
  data_files = [];
}

abbrev after : Database
after = record before {
  records = changed ∷ [];
  figures =
      plot_of 2 (codes "r2") (codes "b.png") 0 ∷ plot_of 3 stored.id (codes "new.png") 9000000 ∷ [];
  next_figure = 4;
  version = record { version = 8; updated_at = 9000000 };
}

replaces : replace_record_children 9000000 input before ≡ ok (after, changed)
unfolding replace_record_children replace_record_row replace_children check_values check_references
    has_length is_record_id is_date is_git_hash validate_replacement validate_figures
    validate_data_files check_child_key validate_record_asset_key canonical_record_asset_key
    validate_asset_path_segment check_asset_key trim_space is_space contains has_first split nat_eq
    list_eq option_eq is_stored select_record after_triggers record_counts is_taken
    truncate_to_millisecond truncate
replaces = refl

replace_record_children-IsReplaced_example : IsReplaced input before after changed
replace_record_children-IsReplaced_example =
    replace_record_children-IsReplaced 9000000 input before after changed replaces
