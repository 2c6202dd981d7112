-- ===== src/Repository/Registries.antt =====
-- cli/internal/repository/sqlite/repository.go: the registries of projects and devices.
-- The operations on `projects` and `devices` are one text but for the name of the
-- table, so that both are tables of `RegistryRow`. Rows stand in the order in which they are listed.
-- Creating, archiving and restoring also return the row that `select_registry_row` then finds.
pub mod Rows
pub mod Import
use personal_context.Base.{
  ℕ, ◌+◌, Bool, true, false, not, ◌&&◌, ◌||◌, Option, none, some, List, [], ◌∷◌, ◌==◌, nat_eq,
  list_eq, if◌then◌else◌, Result, ok, err, ◌>>=◌,
}
use mathlib.Core.Option
use personal_context.Text.{Text, trim_space, text_lt}
use personal_context.Time.{Time, truncate_to_millisecond, after, is_zero}
use personal_context.Repository.Columns.{has_length}
use personal_context.Repository.Errors.{
  RepositoryError, not_found, conflict, foreign_key, invalid_argument, check_failed,
}
use personal_context.Repository.Records.{time_or, restamp}

-- `Project` and `Device`.
pub record RegistryRow : Type 0 where
  pub id : Text
  pub created_at : Time
  pub updated_at : Time
  pub archived_at : Option Time

pub record CreateRegistryInput : Type 0 where
  pub id : Text
  pub created_at : Option Time
  pub updated_at : Option Time
  pub archived_at : Option Time

-- `SELECT ... WHERE id = ?`.
unfoldable pub select_registry_row : List RegistryRow → Text → Result RepositoryError RegistryRow
select_registry_row [] id = err not_found
select_registry_row (p ∷ ps) id = if p.id == id then ok p else select_registry_row ps id

unfoldable pub get_registry_row : Text → List RegistryRow → Result RepositoryError RegistryRow
get_registry_row id rows =
    if trim_space id == [] then err invalid_argument else select_registry_row rows id

-- The row among the others, in the order of their ids; the key is unique.
unfoldable pub insert_registry_row :
    RegistryRow → List RegistryRow → Result RepositoryError (List RegistryRow)
insert_registry_row row [] = ok (row ∷ [])
insert_registry_row row (p ∷ ps) =
    let rest = insert_registry_row row ps in
    if p.id == row.id
    then err conflict
    else if text_lt row.id p.id
    then ok (row ∷ p ∷ ps)
    else do others ← rest; ok (p ∷ others)

abbrev pub registry_row_of : Time → CreateRegistryInput → RegistryRow
registry_row_of now input = record {
  id = input.id;
  created_at = time_or now input.created_at;
  updated_at = time_or now input.updated_at;
  archived_at = Option.map truncate_to_millisecond input.archived_at;
}

unfoldable pub create_registry_row :
    Time → CreateRegistryInput → List RegistryRow → Result RepositoryError (List RegistryRow)
create_registry_row now input rows =
    if trim_space input.id == []
    then err invalid_argument
    else if not (has_length input.id)
    then err check_failed
    else insert_registry_row (registry_row_of now input) rows

-- The triggers `projects_auto_update_updated_at` and `devices_auto_update_updated_at`.
abbrev pub touched_row : Time → (RegistryRow → RegistryRow) → RegistryRow → RegistryRow
touched_row now change p = record (change p) {
  updated_at = restamp now p.updated_at (change p).updated_at;
}

-- `WHERE id = ?`.
unfoldable pub change_registry_rows :
    Text → (RegistryRow → RegistryRow) → List RegistryRow → List RegistryRow
change_registry_rows id change [] = []
change_registry_rows id change (p ∷ ps) =
    let rest = change_registry_rows id change ps in if p.id == id then change p ∷ rest else p ∷ rest

abbrev pub with_archived_at : Option Time → RegistryRow → RegistryRow
with_archived_at archived p = record p { archived_at = archived }

unfoldable pub set_archived_at :
    Time → Option Time → Text → List RegistryRow → Result RepositoryError (List RegistryRow)
set_archived_at now archived id rows = if trim_space id == [] then err invalid_argument else do
  _ ← select_registry_row rows id
  ok (change_registry_rows id (touched_row now (with_archived_at archived)) rows)

unfoldable pub archive_registry_row :
    Time → Text → List RegistryRow → Result RepositoryError (List RegistryRow)
unfolding set_archived_at
archive_registry_row now = set_archived_at now (some (truncate_to_millisecond now))

unfoldable pub restore_registry_row :
    Time → Text → List RegistryRow → Result RepositoryError (List RegistryRow)
unfolding set_archived_at
restore_registry_row now = set_archived_at now none

-- Archived rows are left out unless they are asked for.
unfoldable pub list_registry_rows : Bool → List RegistryRow → List RegistryRow
list_registry_rows include_archived [] = []
list_registry_rows include_archived (p ∷ ps) =
    let rest = list_registry_rows include_archived ps in
    if include_archived then p ∷ rest else elim p.archived_at [ none ↦ p ∷ rest | some t ↦ rest ]

abbrev pub import_input_of : RegistryRow → CreateRegistryInput
import_input_of p = record {
  id = p.id;
  created_at = some p.created_at;
  updated_at = some p.updated_at;
  archived_at = p.archived_at;
}

-- The UPDATE of an import: the times are those of the imported row, in milliseconds.
abbrev pub imported : RegistryRow → RegistryRow → RegistryRow
imported p old = record old {
  created_at = truncate_to_millisecond p.created_at;
  updated_at = truncate_to_millisecond p.updated_at;
  archived_at = Option.map truncate_to_millisecond p.archived_at;
}

-- The import at what the table has under the id: the rows, and whether they are written.
unfoldable pub import_over :
    Time
    → RegistryRow
    → List RegistryRow
    → Result RepositoryError RegistryRow
    → Result RepositoryError (List RegistryRow × Bool)
import_over now p rows (ok existing) =
    if not (after p.updated_at existing.updated_at)
    then ok (rows, false)
    else ok (change_registry_rows p.id (touched_row now (imported p)) rows, true)
import_over now p rows (err not_found) = do
  rows' ← create_registry_row now (import_input_of p) rows
  ok (rows', true)
import_over now p rows (err e) = err e

-- `upsertProjectForImport` and `upsertDeviceForImport`.
unfoldable pub upsert_for_import :
    Time → RegistryRow → List RegistryRow → Result RepositoryError (List RegistryRow × Bool)
unfolding import_over
upsert_for_import now p rows =
    if trim_space p.id == [] || is_zero p.created_at || is_zero p.updated_at
    then err invalid_argument
    else import_over now p rows (get_registry_row p.id rows)
