-- ===== src/Repository/Records.antt =====
-- cli/internal/repository/sqlite/repository.go: the table `records` of the local database.
-- Rows stand in the order of insertion. Creating and updating also return the row that
-- `select_record` then finds. Of the triggers of the schema, one sets the time of an update, and the
-- others write other tables only; the child rows that go with a deleted record stand in tables of their own.
pub mod Laws
pub mod Written
pub mod Reachable
pub mod Trash
use mathlib.Core.Option
use personal_context.Base.{
  ℕ, zero, suc, Bool, true, false, not, ◌&&◌, ◌||◌, Option, none, some, List, [], ◌∷◌, ◌++◌, ◌==◌,
  nat_eq, leb, list_eq, if◌then◌else◌, Result, ok, err, Checked, passed, ◌>>=◌, ◌>>◌,
}
use personal_context.Text.{Text, codes, trim_space}
use personal_context.Time.{Time, truncate_to_millisecond}
use personal_context.Repository.Types.{Record}
use personal_context.Repository.Columns.{is_record_id, is_date, is_git_hash}
use personal_context.Repository.Inputs.{CreateRecordInput, UpdateRecordInput}
use personal_context.Repository.Errors.{
  RepositoryError, not_found, conflict, foreign_key, invalid_argument, check_failed,
}

-- The table, and the keys of the tables that its constraints and `CreateRecord` look at.
pub record RecordTable : Type 0 where
  pub rows : List Record
  pub project_ids : List Text
  pub device_ids : List Text
  pub chat_session_ids : List Text

abbrev pub has_text : Text → List Text → Bool
has_text key [] = false
has_text key (k ∷ ks) = k == key || has_text key ks

unfoldable pub check_values : Record → Checked RepositoryError
unfolding is_record_id is_date is_git_hash
check_values row =
    if is_record_id row.id && is_date row.date && is_git_hash row.git_hash
    then passed
    else err check_failed

-- The FOREIGN KEY constraints of `project_id` and `source_device_id`.
unfoldable pub check_references : Record → RecordTable → Checked RepositoryError
check_references row t =
    if has_text row.project_id t.project_ids && has_text row.source_device_id t.device_ids
    then passed
    else err foreign_key

unfoldable pub is_stored : Text → List Record → Bool
is_stored id [] = false
is_stored id (r ∷ rs) = r.id == id || is_stored id rs

-- `SELECT ... WHERE id = ?`, which returns one row or none.
unfoldable pub select_record : List Record → Text → Result RepositoryError Record
select_record [] id = err not_found
select_record (r ∷ rs) id = if r.id == id then ok r else select_record rs id

unfoldable pub get_record_by_id : Text → RecordTable → Result RepositoryError Record
get_record_by_id id t =
    if trim_space id == [] then err invalid_argument else select_record t.rows id

-- Times are stored as text with milliseconds; `COALESCE(?, STRFTIME(..., 'now'))` at a new row.
abbrev pub time_or : Time → Option Time → Time
time_or now none = truncate_to_millisecond now
time_or now (some t) = truncate_to_millisecond t

abbrev pub record_of : Time → CreateRecordInput → Record
record_of now input = record {
  id = input.id;
  user_id = [];
  date = input.date;
  day_order = if trim_space input.day_order == [] then codes "n" else input.day_order;
  html_content = input.html_content;
  notes = input.notes;
  project_id = input.project_id;
  source_device_id = input.source_device_id;
  source_ref = input.source_ref;
  git_remote_url = input.git_remote_url;
  git_hash = input.git_hash;
  created_at = time_or now input.created_at;
  updated_at = time_or now input.updated_at;
  deleted_at = Option.map truncate_to_millisecond input.deleted_at;
}

unfoldable pub insert_record : Record → RecordTable → Result RepositoryError RecordTable
insert_record row t = do
  check_values row
  if is_stored row.id t.rows
      then err conflict
      else do check_references row t; ok (record t { rows = t.rows ++ row ∷ [] })

-- A field that has to be given is blank.
unfoldable pub create_lacks : CreateRecordInput → Bool
create_lacks input =
    trim_space input.id == []
    || trim_space input.date == []
    || trim_space input.project_id == []
    || trim_space input.source_device_id == []

unfoldable pub create_record :
    Time → CreateRecordInput → RecordTable → Result RepositoryError RecordTable
create_record now input t =
    if create_lacks input
    then err invalid_argument
    else if has_text input.id t.chat_session_ids
    then err conflict
    else insert_record (record_of now input) t

abbrev pub kept_or : Time → Option Time → Time
kept_or old none = old
kept_or old (some t) = truncate_to_millisecond t

-- `COALESCE(?, updated_at)`, and the assignment of `deleted_at` if `SetDeletedAt`.
abbrev pub change_record : UpdateRecordInput → Record → Record
change_record input r = record r {
  date = input.date;
  day_order = input.day_order;
  html_content = input.html_content;
  notes = input.notes;
  project_id = input.project_id;
  source_device_id = input.source_device_id;
  source_ref = input.source_ref;
  git_remote_url = input.git_remote_url;
  git_hash = input.git_hash;
  updated_at = kept_or r.updated_at input.updated_at;
  deleted_at =
      if input.set_deleted_at
      then Option.map truncate_to_millisecond input.deleted_at
      else r.deleted_at;
}

-- The trigger `records_auto_update_updated_at`: an update that leaves the time, or sets it to the
-- value that it had, sets it to now.
abbrev pub restamp : Time → Time → Time → Time
restamp now old new = if new == old then truncate_to_millisecond now else new

abbrev pub touched : Time → (Record → Record) → Record → Record
touched now change r = record (change r) {
  updated_at = restamp now r.updated_at (change r).updated_at;
}

-- `WHERE id = ?`.
unfoldable pub change_rows : Text → (Record → Record) → List Record → List Record
change_rows id change [] = []
change_rows id change (r ∷ rs) =
    let rest = change_rows id change rs in if r.id == id then change r ∷ rest else r ∷ rest

-- A field that has to be given is blank.
unfoldable pub update_lacks : UpdateRecordInput → Bool
update_lacks input =
    trim_space input.id == []
    || trim_space input.date == []
    || trim_space input.day_order == []
    || trim_space input.project_id == []
    || trim_space input.source_device_id == []

unfoldable pub update_record :
    Time → UpdateRecordInput → RecordTable → Result RepositoryError RecordTable
update_record now input t = if update_lacks input then err invalid_argument else do
  existing ← select_record t.rows input.id
  check_values (change_record input existing)
  check_references (change_record input existing) t
  ok (record t { rows = change_rows input.id (touched now (change_record input)) t.rows })

-- A change of one row that no constraint is about, and `ensureRowsAffected`.
unfoldable pub change_one :
    Time → Text → (Record → Record) → RecordTable → Result RepositoryError RecordTable
change_one now id change t =
    if trim_space id == []
    then err invalid_argument
    else if not (is_stored id t.rows)
    then err not_found
    else ok (record t { rows = change_rows id (touched now change) t.rows })

abbrev pub mark_deleted : Time → Record → Record
mark_deleted now r = record r {
  deleted_at = elim r.deleted_at [ none ↦ some (truncate_to_millisecond now) | some t ↦ some t ];
}

unfoldable pub soft_delete_record : Time → Text → RecordTable → Result RepositoryError RecordTable
soft_delete_record now id t = change_one now id (mark_deleted now) t

abbrev pub clear_deleted : Record → Record
clear_deleted r = record r { deleted_at = none }

unfoldable pub restore_record : Time → Text → RecordTable → Result RepositoryError RecordTable
restore_record now id t = change_one now id clear_deleted t

unfoldable pub drop_rows : Text → List Record → List Record
drop_rows id [] = []
drop_rows id (r ∷ rs) = let rest = drop_rows id rs in if r.id == id then rest else r ∷ rest

unfoldable pub delete_record : Text → RecordTable → Result RepositoryError RecordTable
delete_record id t =
    if trim_space id == []
    then err invalid_argument
    else if not (is_stored id t.rows)
    then err not_found
    else ok (record t { rows = drop_rows id t.rows })

abbrev pub is_deleted : Record → Bool
is_deleted r = elim r.deleted_at [ none ↦ false | some t ↦ true ]

unfoldable pub active_rows : List Record → List Record
active_rows [] = []
active_rows (r ∷ rs) = let rest = active_rows rs in if is_deleted r then rest else r ∷ rest

unfoldable pub deleted_ids : List Record → List Text
deleted_ids [] = []
deleted_ids (r ∷ rs) = let rest = deleted_ids rs in if is_deleted r then r.id ∷ rest else rest

-- The early return when there are no deleted rows, and the bulk deletion.
unfoldable pub purge : List Text → RecordTable → RecordTable × List Text
purge [] t = (t, [])
purge (id ∷ ids) t = (record t { rows = active_rows t.rows }, id ∷ ids)

-- Returns the ids of the purged records.
unfoldable pub purge_deleted_records : RecordTable → RecordTable × List Text
unfolding purge
purge_deleted_records t = purge (deleted_ids t.rows) t
