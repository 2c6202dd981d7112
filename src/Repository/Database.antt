-- ===== src/Repository/Database.antt =====
-- cli/internal/repository/sqlite/repository.go: the local database, as an implementation of
-- `Repository`. The times of a run are those of one instant. An error of the database file itself
-- does not occur. cli/internal/sqlite/sqlite_schema.sql: the triggers that count `sync_version`.
use personal_context.Base.{
  ℕ, ◌+◌, Bool, not, ◌||◌, Option, none, some, List, [], map, ◌==◌, nat_eq, list_eq, option_eq,
  if◌then◌else◌, Result, ok, err, map_result,
}
use personal_context.Text.{Text}
use personal_context.Time.{Time, truncate_to_millisecond}
use personal_context.Repository.Types.{Record, RecordFigure, RecordDataFile}
use personal_context.Repository.Errors.{RepositoryError}
use personal_context.Repository.Records.{
  RecordTable, create_record, update_record, get_record_by_id, select_record,
}
use personal_context.Repository.Figures.{
  FigureTable, create_record_figure, update_record_figure, delete_record_figure,
  list_record_figures_by_record_id, select_figure,
}
use personal_context.Repository.DataFiles.{
  DataFileTable, create_record_data_file, update_record_data_file, delete_record_data_file,
  list_record_data_files_by_record_id, select_data_file,
}
use personal_context.Repository.RecordFilter.Listing.{list_records}
use personal_context.Repository.Registries.{
  RegistryRow, upsert_for_import, imported, list_registry_rows, select_registry_row,
}
use personal_context.Repository.ProjectPaths.{
  ProjectPath, ProjectPathTable, upsert_project_path, list_project_paths,
}
use personal_context.Repository.Interface.{Repository, SyncVersion}

pub record Database : Type 0 where
  pub records : List Record
  pub figures : List RecordFigure
  pub next_figure : ℕ
  pub data_files : List RecordDataFile
  pub next_data_file : ℕ
  pub projects : List RegistryRow
  pub devices : List RegistryRow
  pub paths : List ProjectPath
  pub next_path : ℕ
  pub chat_session_ids : List Text
  pub version : SyncVersion

-- The tables, with the keys of the tables that their constraints look at.
abbrev pub record_table : Database → RecordTable
record_table db = record {
  rows = db.records;
  project_ids = map (λ p. p.id) db.projects;
  device_ids = map (λ d. d.id) db.devices;
  chat_session_ids = db.chat_session_ids;
}

abbrev pub figure_table : Database → FigureTable
figure_table db = record {
  rows = db.figures;
  next_id = db.next_figure;
  record_ids = map (λ r. r.id) db.records;
}

abbrev pub data_file_table : Database → DataFileTable
data_file_table db = record {
  rows = db.data_files;
  next_id = db.next_data_file;
  record_ids = map (λ r. r.id) db.records;
}

abbrev pub path_table : Database → ProjectPathTable
path_table db = record {
  rows = db.paths;
  next_id = db.next_path;
  project_ids = map (λ p. p.id) db.projects;
  device_ids = map (λ d. d.id) db.devices;
}

-- The single row of `sync_version`.
abbrev get_sync_version : Database → Result RepositoryError SyncVersion
get_sync_version db = ok db.version

-- The conditions of the triggers on updates, on the row before and the one after.
unfoldable pub record_counts : Record → Record → Bool
record_counts old new =
    not (old.id == new.id)
    || not (old.date == new.date)
    || not (old.day_order == new.day_order)
    || not (old.html_content == new.html_content)
    || not (old.notes == new.notes)
    || not (old.project_id == new.project_id)
    || not (old.source_device_id == new.source_device_id)
    || not (old.source_ref == new.source_ref)
    || not (old.git_remote_url == new.git_remote_url)
    || not (old.git_hash == new.git_hash)
    || not (old.deleted_at == new.deleted_at)

-- `COALESCE(column, '')`.
abbrev or_blank : Option Text → Text
or_blank none = []
or_blank (some s) = s

unfoldable pub figure_counts : RecordFigure → RecordFigure → Bool
figure_counts old new =
    not (old.record_id == new.record_id)
    || not (old.filename == new.filename)
    || not (old.s3_key == new.s3_key)
    || not (or_blank old.alt_text == or_blank new.alt_text)

unfoldable pub data_file_counts : RecordDataFile → RecordDataFile → Bool
data_file_counts old new =
    not (old.record_id == new.record_id)
    || not (old.filename == new.filename)
    || not (old.s3_key == new.s3_key)
    || not (old.size == new.size)
    || not (old.hash == new.hash)
    || not (or_blank old.description == or_blank new.description)

unfoldable pub registry_counts : RegistryRow → RegistryRow → Bool
registry_counts old new =
    not (old.id == new.id)
    || not (old.created_at == new.created_at)
    || not (old.updated_at == new.updated_at)
    || not (old.archived_at == new.archived_at)

abbrev bumped : Time → SyncVersion → SyncVersion
bumped now v = record { version = v.version + 1; updated_at = truncate_to_millisecond now }

-- The triggers after a statement, by what it finds under the key of its row before and after.
unfoldable pub after_triggers :
    {A : Type 0}
    → Time
    → (A → A → Bool)
    → Result RepositoryError A
    → Result RepositoryError A
    → SyncVersion
    → SyncVersion
after_triggers now counts (ok old) (ok new) v = if counts old new then bumped now v else v
after_triggers now counts (ok old) (err _) v = bumped now v
after_triggers now counts (err _) (ok new) v = bumped now v
after_triggers now counts (err _) (err _) v = v

module _ (search : Text → List Record → List Record) (now : Time) where
  abbrev pub with_records : Text → Database → RecordTable → Database
  with_records id db t = record db {
    records = t.rows;
    version =
        after_triggers now record_counts (select_record db.records id) (select_record t.rows id)
          db.version;
  }

  abbrev with_figures : ℕ → Database → FigureTable → Database
  with_figures id db t = record db {
    figures = t.rows;
    next_figure = t.next_id;
    version =
        after_triggers now figure_counts (select_figure db.figures id) (select_figure t.rows id)
          db.version;
  }

  abbrev with_data_files : ℕ → Database → DataFileTable → Database
  with_data_files id db t = record db {
    data_files = t.rows;
    next_data_file = t.next_id;
    version =
        after_triggers now data_file_counts (select_data_file db.data_files id)
          (select_data_file t.rows id) db.version;
  }

  -- An import that writes: the row that the statement leaves counts against the one before it, and
  -- the row that the trigger on `updated_at` leaves against that.
  abbrev registry_version :
      Bool → RegistryRow → List RegistryRow → List RegistryRow → SyncVersion → SyncVersion
  registry_version wrote p before after v =
      let found = select_registry_row before p.id in
      let given = map_result (imported p) found in
      if wrote
      then after_triggers now registry_counts given (select_registry_row after p.id)
          (after_triggers now registry_counts found given v)
      else v

  abbrev with_projects : RegistryRow → Database → List RegistryRow × Bool → Database
  with_projects p db (rows, wrote) = record db {
    projects = rows;
    version = registry_version wrote p db.projects rows db.version;
  }

  abbrev with_devices : RegistryRow → Database → List RegistryRow × Bool → Database
  with_devices p db (rows, wrote) = record db {
    devices = rows;
    version = registry_version wrote p db.devices rows db.version;
  }

  abbrev with_paths : Database → ProjectPathTable × Bool → Database
  with_paths db (t, inserted) = record db {
    paths = t.rows;
    next_path = t.next_id;
    version = if inserted then bumped now db.version else db.version;
  }

  -- `NewRepository` on a database.
  unfoldable pub sqlite_repository : Repository Database
  sqlite_repository = record {
    now = now;
    create_record =
        λ i db. map_result (with_records i.id db) (create_record now i (record_table db));
    get_record_by_id = λ id db. get_record_by_id id (record_table db);
    update_record =
        λ i db. map_result (with_records i.id db) (update_record now i (record_table db));
    list_records = λ f db. list_records search (map (λ d. d.record_id) db.data_files) f db.records;
    create_record_figure = λ i db.
        map_result (with_figures db.next_figure db)
          (create_record_figure (truncate_to_millisecond now) i (figure_table db));
    update_record_figure =
        λ i db. map_result (with_figures i.id db) (update_record_figure i (figure_table db));
    list_record_figures = λ id db. list_record_figures_by_record_id id (figure_table db);
    delete_record_figure =
        λ id db. map_result (with_figures id db) (delete_record_figure id (figure_table db));
    create_record_data_file = λ i db.
        map_result (with_data_files db.next_data_file db)
          (create_record_data_file (truncate_to_millisecond now) i (data_file_table db));
    update_record_data_file = λ i db.
        map_result (with_data_files i.id db) (update_record_data_file i (data_file_table db));
    list_record_data_files = λ id db. list_record_data_files_by_record_id id (data_file_table db);
    delete_record_data_file = λ id db.
        map_result (with_data_files id db) (delete_record_data_file id (data_file_table db));
    get_sync_version = get_sync_version;
    list_projects = λ archived db. ok (list_registry_rows archived db.projects);
    upsert_project_for_import =
        λ p db. map_result (with_projects p db) (upsert_for_import now p db.projects);
    list_devices = λ archived db. ok (list_registry_rows archived db.devices);
    upsert_device_for_import =
        λ p db. map_result (with_devices p db) (upsert_for_import now p db.devices);
    list_project_paths = λ project db. ok (list_project_paths project db.paths);
    upsert_project_path =
        λ i db. map_result (with_paths db) (upsert_project_path now i (path_table db));
  }
