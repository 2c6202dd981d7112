-- ===== src/Repository/Figures.antt =====
-- cli/internal/repository/sqlite/repository.go: the table `record_figures` of the local database.
-- Rows stand in the order of their ids, as the listing returns them. Creating and updating also
-- return the row that `select_figure` then finds.
pub mod Laws
use personal_context.Base.{
  ℕ, ◌+◌, Bool, true, false, not, ◌&&◌, ◌||◌, Option, none, some, List, [], ◌∷◌, ◌++◌, ◌==◌, nat_eq,
  list_eq, if◌then◌else◌, Result, ok, err, Checked, passed, map_err, ◌>>=◌, ◌>>◌,
}
use personal_context.Text.{Text, codes, trim_space}
use personal_context.Time.{Time}
use personal_context.Repository.Types.{RecordFigure}
use personal_context.Repository.AssetKey.{
  AssetKeyError, canonical_record_asset_key, validate_record_asset_key,
}
use personal_context.Repository.Columns.{has_length}
use personal_context.Repository.Errors.{
  RepositoryError, not_found, conflict, foreign_key, invalid_argument, invalid_key, check_failed,
}
use personal_context.Repository.Inputs.{CreateRecordFigureInput, UpdateRecordFigureInput}

-- The table, the id that `AUTOINCREMENT` gives out next, and the ids of the table `records`.
pub record FigureTable : Type 0 where
  pub rows : List RecordFigure
  pub next_id : ℕ
  pub record_ids : List Text

abbrev pub has_record : Text → List Text → Bool
has_record rid [] = false
has_record rid (r ∷ rs) = r == rid || has_record rid rs

-- `UNIQUE (record_id, filename)`, for the row that is to have the id.
unfoldable pub is_taken : ℕ → Text → Text → List RecordFigure → Bool
is_taken id rid name [] = false
is_taken id rid name (f ∷ fs) =
    not (f.id == id) && f.record_id == rid && f.filename == name || is_taken id rid name fs

-- `SELECT ... WHERE id = ?`, which returns one row or none.
unfoldable pub select_figure : List RecordFigure → ℕ → Result RepositoryError RecordFigure
select_figure [] id = err not_found
select_figure (f ∷ fs) id = if f.id == id then ok f else select_figure fs id

unfoldable pub get_record_figure_by_id : ℕ → FigureTable → Result RepositoryError RecordFigure
get_record_figure_by_id id t = if id == 0 then err invalid_argument else select_figure t.rows id

abbrev pub figure_of : Time → CreateRecordFigureInput → ℕ → RecordFigure
figure_of now input id = record {
  id = id;
  record_id = input.record_id;
  filename = input.filename;
  s3_key = input.s3_key;
  alt_text = input.alt_text;
  created_at = now;
}

-- The constraints of the table on a new row, and the row at the end of the table.
unfoldable pub insert_row : RecordFigure → FigureTable → Result RepositoryError FigureTable
insert_row row t =
    if not (has_length row.filename)
    then err check_failed
    else if is_taken row.id row.record_id row.filename t.rows
    then err conflict
    else if not (has_record row.record_id t.record_ids)
    then err foreign_key
    else ok (record t { rows = t.rows ++ row ∷ []; next_id = t.next_id + 1 })

unfoldable pub create_record_figure :
    Time → CreateRecordFigureInput → FigureTable → Result RepositoryError FigureTable
unfolding insert_row
create_record_figure now input t = do
  map_err invalid_key
      (validate_record_asset_key (codes "figures") input.record_id input.filename input.s3_key)
  insert_row (figure_of now input t.next_id) t

-- `COALESCE(NULLIF(?, ''), column)`.
abbrev pub patch : Text → Text → Text
patch new old = if new == [] then old else new

-- The column is set only if the input has a value for it.
abbrev pub patch_option : Option Text → Option Text → Option Text
patch_option none old = old
patch_option (some new) old = some new

abbrev pub patch_figure : UpdateRecordFigureInput → Text → RecordFigure → RecordFigure
patch_figure input s3_key f = record f {
  filename = patch input.filename f.filename;
  s3_key = patch s3_key f.s3_key;
  alt_text = patch_option input.alt_text f.alt_text;
}

-- `WHERE id = ?`.
unfoldable pub update_row :
    ℕ → (RecordFigure → RecordFigure) → List RecordFigure → List RecordFigure
update_row id change [] = []
update_row id change (f ∷ fs) =
    let rest = update_row id change fs in if f.id == id then change f ∷ rest else f ∷ rest

-- The key that a renamed figure gets if the input has none.
pub s3_key_patch : UpdateRecordFigureInput → RecordFigure → Result RepositoryError Text
s3_key_patch input existing =
    if input.s3_key == [] && not (input.filename == [])
    then map_err invalid_key (
        canonical_record_asset_key (codes "figures") existing.record_id
          (patch input.filename existing.filename))
    else ok input.s3_key

-- The check of an update that names a file or a key, and the key to store. The id is known not to
-- be 0 here, so that `GetRecordFigureByID` is the selection of the row.
pub check_update : UpdateRecordFigureInput → List RecordFigure → Result RepositoryError Text
unfolding s3_key_patch
check_update input rows = if input.filename == [] && input.s3_key == [] then ok input.s3_key else do
  existing ← select_figure rows input.id
  key ← s3_key_patch input existing
  map_err invalid_key (
      validate_record_asset_key (codes "figures") existing.record_id
        (patch input.filename existing.filename) (patch key existing.s3_key))
  ok key

-- The constraints of the table on a changed row, and the change.
pub store_row :
    RecordFigure → (RecordFigure → RecordFigure) → FigureTable → Result RepositoryError FigureTable
store_row row change t =
    if not (has_length row.filename)
    then err check_failed
    else if is_taken row.id row.record_id row.filename t.rows
    then err conflict
    else ok (record t { rows = update_row row.id change t.rows })

unfoldable pub update_record_figure :
    UpdateRecordFigureInput → FigureTable → Result RepositoryError FigureTable
unfolding check_update store_row
update_record_figure input t = if input.id == 0 then err invalid_argument else do
  key ← check_update input t.rows
  existing ← select_figure t.rows input.id
  store_row (patch_figure input key existing) (patch_figure input key) t

unfoldable pub remove_row : ℕ → List RecordFigure → List RecordFigure
remove_row id [] = []
remove_row id (f ∷ fs) = let rest = remove_row id fs in if f.id == id then rest else f ∷ rest

unfoldable pub delete_record_figure : ℕ → FigureTable → Result RepositoryError FigureTable
delete_record_figure id t =
    if id == 0
    then err invalid_argument
    else do _ ← select_figure t.rows id; ok (record t { rows = remove_row id t.rows })

unfoldable pub rows_of_record : Text → List RecordFigure → List RecordFigure
rows_of_record rid [] = []
rows_of_record rid (f ∷ fs) =
    let rest = rows_of_record rid fs in if f.record_id == rid then f ∷ rest else rest

unfoldable pub list_record_figures_by_record_id :
    Text → FigureTable → Result RepositoryError (List RecordFigure)
unfolding rows_of_record
list_record_figures_by_record_id rid t =
    if trim_space rid == [] then err invalid_argument else ok (rows_of_record rid t.rows)
