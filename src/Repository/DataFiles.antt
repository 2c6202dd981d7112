-- ===== src/Repository/DataFiles.antt =====
-- cli/internal/repository/sqlite/repository.go: the table `record_data_files` of the local database.
-- Rows stand in the order of their ids, as the listing returns them. Creating and updating also
-- return the row that `select_data_file` then finds. A size is a natural number, which is what the
-- checks for a negative one leave.
pub mod Laws
use personal_context.Base.{
  ℕ, ◌+◌, Bool, true, false, not, ◌&&◌, ◌||◌, Option, none, some, List, [], ◌∷◌, ◌++◌, ◌==◌, nat_eq,
  list_eq, if◌then◌else◌, Result, ok, err, Checked, passed, map_err, ◌>>=◌, ◌>>◌,
}
use personal_context.Text.{Text, codes, trim_space}
use personal_context.Time.{Time}
use personal_context.Repository.Types.{RecordDataFile}
use personal_context.Repository.AssetKey.{
  AssetKeyError, canonical_record_asset_key, validate_record_asset_key,
}
use personal_context.Repository.Columns.{glob, times, is_hex, has_length}
use personal_context.Repository.Errors.{
  RepositoryError, not_found, conflict, foreign_key, invalid_argument, invalid_key, check_failed,
}
use personal_context.Repository.Figures.{has_record, patch, patch_option}
use personal_context.Repository.Inputs.{CreateRecordDataFileInput, UpdateRecordDataFileInput}

-- The table, the id that `AUTOINCREMENT` gives out next, and the ids of the table `records`.
pub record DataFileTable : Type 0 where
  pub rows : List RecordDataFile
  pub next_id : ℕ
  pub record_ids : List Text

-- `UNIQUE (record_id, filename)`, for the row that is to have the id.
unfoldable pub is_name_taken : ℕ → Text → Text → List RecordDataFile → Bool
is_name_taken id rid name [] = false
is_name_taken id rid name (f ∷ fs) =
    not (f.id == id) && f.record_id == rid && f.filename == name || is_name_taken id rid name fs

-- `SELECT ... WHERE id = ?`, which returns one row or none.
unfoldable pub select_data_file : List RecordDataFile → ℕ → Result RepositoryError RecordDataFile
select_data_file [] id = err not_found
select_data_file (f ∷ fs) id = if f.id == id then ok f else select_data_file fs id

unfoldable pub get_record_data_file_by_id :
    ℕ → DataFileTable → Result RepositoryError RecordDataFile
get_record_data_file_by_id id t =
    if id == 0 then err invalid_argument else select_data_file t.rows id

abbrev pub data_file_of : Time → CreateRecordDataFileInput → ℕ → RecordDataFile
data_file_of now input id = record {
  id = id;
  record_id = input.record_id;
  filename = input.filename;
  s3_key = input.s3_key;
  size = input.size;
  hash = input.hash;
  description = input.description;
  created_at = now;
}

-- The CHECK constraint of the column `hash`. That of `size` holds of every natural number, that of
-- `filename` is its length, and those of the other columns hold of every row that passes the check
-- of its key.
unfoldable pub is_hash : Text → Bool
unfolding glob times
is_hash hash = glob (times 64 is_hex) hash

-- The constraints of the table on a new row, and the row at the end of the table.
unfoldable pub insert_data_file :
    RecordDataFile → DataFileTable → Result RepositoryError DataFileTable
insert_data_file row t =
    if not (has_length row.filename && is_hash row.hash)
    then err check_failed
    else if is_name_taken row.id row.record_id row.filename t.rows
    then err conflict
    else if not (has_record row.record_id t.record_ids)
    then err foreign_key
    else ok (record t { rows = t.rows ++ row ∷ []; next_id = t.next_id + 1 })

unfoldable pub create_record_data_file :
    Time → CreateRecordDataFileInput → DataFileTable → Result RepositoryError DataFileTable
create_record_data_file now input t =
    if trim_space input.hash == [] then err invalid_argument else do
      map_err invalid_key
          (validate_record_asset_key (codes "data") input.record_id input.filename input.s3_key)
      insert_data_file (data_file_of now input t.next_id) t

-- `COALESCE(?, size)` and `COALESCE(NULLIF(?, ''), hash)`.
abbrev pub patch_size : Option ℕ → ℕ → ℕ
patch_size none old = old
patch_size (some new) old = new

abbrev pub patch_hash : Option Text → Text → Text
patch_hash none old = old
patch_hash (some new) old = patch new old

abbrev pub patch_data_file : UpdateRecordDataFileInput → Text → RecordDataFile → RecordDataFile
patch_data_file input s3_key f = record f {
  filename = patch input.filename f.filename;
  s3_key = patch s3_key f.s3_key;
  size = patch_size input.size f.size;
  hash = patch_hash input.hash f.hash;
  description = patch_option input.description f.description;
}

-- `WHERE id = ?`.
unfoldable pub change_data_files :
    ℕ → (RecordDataFile → RecordDataFile) → List RecordDataFile → List RecordDataFile
change_data_files id change [] = []
change_data_files id change (f ∷ fs) =
    let rest = change_data_files id change fs in if f.id == id then change f ∷ rest else f ∷ rest

-- The key that a renamed data file gets if the input has none.
unfoldable pub data_key_patch :
    UpdateRecordDataFileInput → RecordDataFile → Result RepositoryError Text
data_key_patch input existing =
    if input.s3_key == [] && not (input.filename == [])
    then map_err invalid_key (
        canonical_record_asset_key (codes "data") existing.record_id
          (patch input.filename existing.filename))
    else ok input.s3_key

-- The check of an update that names a file or a key, and the key to store. The id is known not to
-- be 0 here, so that `GetRecordDataFileByID` is the selection of the row.
unfoldable pub check_data_file_update :
    UpdateRecordDataFileInput → List RecordDataFile → Result RepositoryError Text
check_data_file_update input rows =
    if input.filename == [] && input.s3_key == [] then ok input.s3_key else do
      existing ← select_data_file rows input.id
      key ← data_key_patch input existing
      map_err invalid_key (
          validate_record_asset_key (codes "data") existing.record_id
            (patch input.filename existing.filename) (patch key existing.s3_key))
      ok key

-- The constraints of the table on a changed row, and the change.
unfoldable pub store_data_file :
    RecordDataFile
    → (RecordDataFile → RecordDataFile)
    → DataFileTable
    → Result RepositoryError DataFileTable
store_data_file row change t =
    if not (has_length row.filename && is_hash row.hash)
    then err check_failed
    else if is_name_taken row.id row.record_id row.filename t.rows
    then err conflict
    else ok (record t { rows = change_data_files row.id change t.rows })

unfoldable pub update_record_data_file :
    UpdateRecordDataFileInput → DataFileTable → Result RepositoryError DataFileTable
update_record_data_file input t = if input.id == 0 then err invalid_argument else do
  key ← check_data_file_update input t.rows
  existing ← select_data_file t.rows input.id
  store_data_file (patch_data_file input key existing) (patch_data_file input key) t

unfoldable pub drop_data_files : ℕ → List RecordDataFile → List RecordDataFile
drop_data_files id [] = []
drop_data_files id (f ∷ fs) =
    let rest = drop_data_files id fs in if f.id == id then rest else f ∷ rest

unfoldable pub delete_record_data_file : ℕ → DataFileTable → Result RepositoryError DataFileTable
delete_record_data_file id t =
    if id == 0
    then err invalid_argument
    else do _ ← select_data_file t.rows id; ok (record t { rows = drop_data_files id t.rows })

unfoldable pub data_files_of : Text → List RecordDataFile → List RecordDataFile
data_files_of rid [] = []
data_files_of rid (f ∷ fs) =
    let rest = data_files_of rid fs in if f.record_id == rid then f ∷ rest else rest

unfoldable pub list_record_data_files_by_record_id :
    Text → DataFileTable → Result RepositoryError (List RecordDataFile)
unfolding data_files_of
list_record_data_files_by_record_id rid t =
    if trim_space rid == [] then err invalid_argument else ok (data_files_of rid t.rows)
