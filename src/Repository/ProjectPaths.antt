-- ===== src/Repository/ProjectPaths.antt =====
-- cli/internal/repository/sqlite/chat.go: the table `project_paths`. Rows stand in the order in
-- which they are listed, by path, project and device.
use personal_context.Base.{
  ℕ, ◌+◌, Bool, true, false, not, ◌&&◌, ◌||◌, Option, none, some, List, [], ◌∷◌, ◌==◌, nat_eq,
  list_eq, if◌then◌else◌, Result, ok, err,
}
use personal_context.Text.{Text, trim_space, text_lt}
use personal_context.Time.{Time}
use personal_context.Repository.Errors.{RepositoryError, not_found, foreign_key, invalid_argument}
use personal_context.Repository.Columns.{has_length}
use personal_context.Repository.Records.{time_or, has_text}

pub record ProjectPath : Type 0 where
  pub id : ℕ
  pub project_id : Text
  pub path : Text
  pub device_id : Text
  pub created_at : Time
  pub updated_at : Time

pub record CreateProjectPathInput : Type 0 where
  pub project_id : Text
  pub path : Text
  pub device_id : Text
  pub created_at : Option Time
  pub updated_at : Option Time

-- The table, the id that comes next, and the keys of the tables that it refers to.
pub record ProjectPathTable : Type 0 where
  pub rows : List ProjectPath
  pub next_id : ℕ
  pub project_ids : List Text
  pub device_ids : List Text

abbrev pub is_path : CreateProjectPathInput → ProjectPath → Bool
is_path input p =
    p.project_id == input.project_id && p.path == input.path && p.device_id == input.device_id

-- `UNIQUE (project_id, path, device_id)`.
unfoldable pub has_path : CreateProjectPathInput → List ProjectPath → Bool
has_path input [] = false
has_path input (p ∷ ps) = is_path input p || has_path input ps

unfoldable pub path_lt : ProjectPath → ProjectPath → Bool
path_lt p q =
    if not (p.path == q.path)
    then text_lt p.path q.path
    else if not (p.project_id == q.project_id)
    then text_lt p.project_id q.project_id
    else text_lt p.device_id q.device_id

unfoldable pub insert_path : ProjectPath → List ProjectPath → List ProjectPath
insert_path row [] = row ∷ []
insert_path row (p ∷ ps) =
    let rest = insert_path row ps in if path_lt row p then row ∷ p ∷ ps else p ∷ rest

abbrev pub path_of : Time → CreateProjectPathInput → ℕ → ProjectPath
path_of now input id = record {
  id = id;
  project_id = input.project_id;
  path = input.path;
  device_id = input.device_id;
  created_at = time_or now input.created_at;
  updated_at = time_or now input.updated_at;
}

-- `INSERT OR IGNORE`: a path that is there is left as it is, and one that fails the CHECK of its
-- length is not stored, nor found afterwards. Whether a row was inserted.
unfoldable pub upsert_project_path :
    Time
    → CreateProjectPathInput
    → ProjectPathTable
    → Result RepositoryError (ProjectPathTable × Bool)
unfolding has_path insert_path
upsert_project_path now input t =
    if trim_space input.project_id == []
      || trim_space input.path == []
      || trim_space input.device_id == []
    then err invalid_argument
    else if has_path input t.rows
    then ok (t, false)
    else if not (has_length input.path)
    then err not_found
    else if not (has_text input.project_id t.project_ids && has_text input.device_id t.device_ids)
    then err foreign_key
    else ok (
      record t { rows = insert_path (path_of now input t.next_id) t.rows; next_id = t.next_id + 1 },
      true,
    )

abbrev is_in_project : Option Text → ProjectPath → Bool
is_in_project none p = true
is_in_project (some id) p = p.project_id == id

unfoldable pub list_project_paths : Option Text → List ProjectPath → List ProjectPath
list_project_paths project [] = []
list_project_paths project (p ∷ ps) =
    let rest = list_project_paths project ps in if is_in_project project p then p ∷ rest else rest
