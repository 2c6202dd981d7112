-- ===== src/Repository/Replacement.antt =====
-- cli/internal/repository/sqlite/repository.go: `ReplaceRecordChildren`, which writes a record and
-- replaces its child rows in one transaction. A transaction that fails leaves the database as it
-- was. Of the checks of the columns of the child rows, those of the hash and of the length of the
-- filename are part of the insertions; the others hold of every input that passes `Validate`.
pub mod Children
pub mod Exact
use mathlib.Core.Option
use personal_context.Base.{
  ℕ, ◌+◌, zero, suc, Bool, true, false, not, ◌&&◌, Option, none, some, List, [], ◌∷◌, ◌++◌, map,
  length, ◌==◌, nat_eq, list_eq, if◌then◌else◌, Result, ok, err, Checked, passed, ◌>>=◌, ◌>>◌,
}
use personal_context.Text.{Text}
use personal_context.Time.{Time, truncate_to_millisecond}
use personal_context.Repository.Types.{Record, RecordFigure, RecordDataFile}
use personal_context.Repository.Errors.{RepositoryError, conflict}
use personal_context.Repository.Inputs.{
  CreateRecordInput, CreateRecordFigureInput, CreateRecordDataFileInput,
}
use personal_context.Repository.Records.{
  RecordTable, record_of, touched, change_rows, is_stored, has_text, check_values, check_references,
  select_record,
}
use personal_context.Repository.Figures.{FigureTable, figure_of, insert_row, rows_of_record}
use personal_context.Repository.DataFiles.{
  DataFileTable, data_file_of, insert_data_file, data_files_of,
}
use personal_context.Repository.Interface.{SyncVersion}
use personal_context.Repository.Replace.{ReplaceRecordChildrenInput, validate_replacement}
use personal_context.Repository.Database.{
  Database, record_table, figure_table, data_file_table, record_counts, after_triggers,
}

-- The assignments of `ON CONFLICT(id) DO UPDATE`, from the row that was to be inserted.
abbrev pub replaced : Record → Bool → Record → Record
replaced given set_deleted_at r = record r {
  date = given.date;
  day_order = given.day_order;
  html_content = given.html_content;
  notes = given.notes;
  project_id = given.project_id;
  source_device_id = given.source_device_id;
  source_ref = given.source_ref;
  git_remote_url = given.git_remote_url;
  git_hash = given.git_hash;
  updated_at = given.updated_at;
  deleted_at = if set_deleted_at then given.deleted_at else r.deleted_at;
}

unfoldable pub replace_record_row :
    Time → CreateRecordInput → Bool → RecordTable → Result RepositoryError RecordTable
unfolding change_rows
replace_record_row now input set_deleted_at t = do
  check_values (record_of now input)
  check_references (record_of now input) t
  ok (record t {
    rows =
        if is_stored input.id t.rows
        then change_rows input.id (touched now (replaced (record_of now input) set_deleted_at))
            t.rows
        else t.rows ++ record_of now input ∷ [];
  })

-- `DELETE FROM record_figures WHERE record_id = ?`.
unfoldable pub figures_without : Text → List RecordFigure → List RecordFigure
figures_without rid [] = []
figures_without rid (f ∷ fs) =
    let rest = figures_without rid fs in if f.record_id == rid then rest else f ∷ rest

unfoldable pub data_files_without : Text → List RecordDataFile → List RecordDataFile
data_files_without rid [] = []
data_files_without rid (f ∷ fs) =
    let rest = data_files_without rid fs in if f.record_id == rid then rest else f ∷ rest

unfoldable pub insert_figures :
    Time → List CreateRecordFigureInput → FigureTable → Result RepositoryError FigureTable
unfolding insert_row
insert_figures now [] t = ok t
insert_figures now (f ∷ fs) t = do
  t' ← insert_row (figure_of now f t.next_id) t
  insert_figures now fs t'

unfoldable pub insert_data_files :
    Time → List CreateRecordDataFileInput → DataFileTable → Result RepositoryError DataFileTable
unfolding insert_data_file
insert_data_files now [] t = ok t
insert_data_files now (f ∷ fs) t = do
  t' ← insert_data_file (data_file_of now f t.next_id) t
  insert_data_files now fs t'

-- The triggers of a number of rows that are inserted or deleted.
unfoldable pub bumped_by : Time → ℕ → SyncVersion → SyncVersion
bumped_by now zero v = v
bumped_by now (suc n) v = record {
  version = v.version + suc n;
  updated_at = truncate_to_millisecond now;
}

-- The child rows that go and those that come.
abbrev moved_children : ReplaceRecordChildrenInput → Database → ℕ
moved_children input db =
    length (rows_of_record input.row.id db.figures)
    + length (data_files_of input.row.id db.data_files)
    + length input.figures
    + length input.data_files

abbrev replaced_version : Time → ReplaceRecordChildrenInput → Database → List Record → SyncVersion
replaced_version now input db rows = bumped_by now (moved_children input db) (
    after_triggers now record_counts (select_record db.records input.row.id)
      (select_record rows input.row.id) db.version)

-- The tables without the child rows of the record, whose row is written.
abbrev pub emptied_figures : Text → Database → RecordTable → FigureTable
emptied_figures rid db t = record (figure_table db) {
  rows = figures_without rid db.figures;
  record_ids = map (λ r. r.id) t.rows;
}

abbrev pub emptied_data_files : Text → Database → RecordTable → DataFileTable
emptied_data_files rid db t = record (data_file_table db) {
  rows = data_files_without rid db.data_files;
  record_ids = map (λ r. r.id) t.rows;
}

abbrev pub replaced_database :
    Time
    → ReplaceRecordChildrenInput
    → Database
    → RecordTable
    → FigureTable
    → DataFileTable
    → Database
replaced_database now input db t f d = record db {
  records = t.rows;
  figures = f.rows;
  next_figure = f.next_id;
  data_files = d.rows;
  next_data_file = d.next_id;
  version = replaced_version now input db t.rows;
}

-- The rest of the transaction, once the row of the record is written.
unfoldable pub replace_children :
    Time
    → ReplaceRecordChildrenInput
    → Database
    → RecordTable
    → Result RepositoryError (Database × Record)
unfolding figures_without data_files_without insert_figures insert_data_files bumped_by
    rows_of_record data_files_of
replace_children now input db t = do
  f ← insert_figures (truncate_to_millisecond now) input.figures (emptied_figures input.row.id db t)
  d ←
      insert_data_files (truncate_to_millisecond now) input.data_files
        (emptied_data_files input.row.id db t)
  row ← select_record t.rows input.row.id
  ok (replaced_database now input db t f d, row)

unfoldable pub replace_record_children :
    Time → ReplaceRecordChildrenInput → Database → Result RepositoryError (Database × Record)
unfolding validate_replacement replace_record_row replace_children
replace_record_children now input db = do
  validate_replacement input
  if not (is_stored input.row.id db.records) && has_text input.row.id db.chat_session_ids
      then err conflict
      else do
        t ← replace_record_row now input.row input.set_deleted_at (record_table db)
        replace_children now input db t
