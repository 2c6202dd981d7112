-- ===== src/Tests/Syncs.antt =====
-- Runs of a whole sync between two databases, and the examples of its theorems.
use personal_context.Base.{
  inl, ◌≡◌, refl, ap, sym, nat_eq, list_eq, Result, Option, map, ◌∙◌, ≢→==, ≡→==, none, some, List,
  [], ◌∷◌, ok, err, passed,
}
use personal_context.Text.{Text, codes, trim_space, is_space}
use personal_context.Time.{Time, truncate_to_millisecond, truncate}
use personal_context.Repository.Types.{Record}
use personal_context.Repository.Errors.{RepositoryError, not_found}
use personal_context.Repository.Inputs.{CreateRecordInput, UpdateRecordInput}
use personal_context.Repository.Records.{select_record}
use personal_context.Repository.Interface.{Repository, ChatRepository}
use personal_context.SyncEngine.Resolve.{
  filter_records_updated_since, resolve_record_winner, resolve_records, latest_record_action,
  action_at, map_by_filename, lookup,
}
use personal_context.Sync.Bundle.{
  resolve_bundle, source_bundle_can_repair_target_children, record_payloads_equal,
  nullable_strings_equal, source_has_exact_figure_superset, source_has_exact_data_file_superset,
}
use personal_context.Repository.Database.{sqlite_repository}
use personal_context.SyncEngine.Resolve.Rank.{rank}
use personal_context.Sync.Service.{create_input_of, update_input_of}
use personal_context.Tests.Data.{note_at}
use personal_context.Sync.Outside.{Outside, SyncWindow}
use personal_context.Sync.World.{
  World, on_local, on_cloud, repository_on, local_chats_of, cloud_chats_of, chats_on,
}
use personal_context.Sync.Laws.{SameRecords, IsPut, RepositoryLaws}
use personal_context.Sync.LocalDatabase.{sqlite_repository-RepositoryLaws}
use personal_context.Sync.ChatPass.Keeps.{ChatWrites}
use personal_context.Sync.Cycle.{Service, sync}
use personal_context.Sync.Cycle.Sides.{LocalGrows, CloudGrows}
use personal_context.Sync.Cycle.Grows.{ServiceLaws, sync-grows}
use personal_context.Sync.Cycle.Covers.{IsSynced, begun, pushed_world, sync-covers}

-- A repository of records only, the latest write of a record first.
abbrev given_time : Option Time → Time
given_time none = 0
given_time (some t) = t

abbrev created : CreateRecordInput → Record
created i = record {
  id = i.id;
  user_id = [];
  date = i.date;
  day_order = i.day_order;
  html_content = i.html_content;
  notes = i.notes;
  project_id = i.project_id;
  source_device_id = i.source_device_id;
  source_ref = i.source_ref;
  git_remote_url = i.git_remote_url;
  git_hash = i.git_hash;
  created_at = given_time i.created_at;
  updated_at = given_time i.updated_at;
  deleted_at = i.deleted_at;
}

abbrev updated : UpdateRecordInput → Record
updated i = record {
  id = i.id;
  user_id = [];
  date = i.date;
  day_order = i.day_order;
  html_content = i.html_content;
  notes = i.notes;
  project_id = i.project_id;
  source_device_id = i.source_device_id;
  source_ref = i.source_ref;
  git_remote_url = i.git_remote_url;
  git_hash = i.git_hash;
  created_at = 0;
  updated_at = given_time i.updated_at;
  deleted_at = i.deleted_at;
}

in_memory : Repository (List Record)
in_memory = record {
  now = 0;
  create_record = λ i s. ok (created i ∷ s);
  get_record_by_id = λ id s. select_record s id;
  update_record = λ i s. ok (updated i ∷ s);
  list_records = λ f s. ok s;
  create_record_figure = λ i s. ok s;
  update_record_figure = λ i s. ok s;
  list_record_figures = λ id s. ok [];
  delete_record_figure = λ id s. ok s;
  create_record_data_file = λ i s. ok s;
  update_record_data_file = λ i s. ok s;
  list_record_data_files = λ id s. ok [];
  delete_record_data_file = λ id s. ok s;
  get_sync_version = λ s. ok (record { version = 1; updated_at = 5000000 });
  list_projects = λ archived s. ok [];
  upsert_project_for_import = λ p s. ok s;
  list_devices = λ archived s. ok [];
  upsert_device_for_import = λ p s. ok s;
  list_project_paths = λ id s. ok [];
  upsert_project_path = λ i s. ok s;
}

IsPut-first :
    (r row : Record) (s s' : List Record)
    → row.id ≡ r.id
    → rank row ≡ rank r
    → ◌≡◌ {A = Result RepositoryError (List Record)} (ok (row ∷ s)) (ok s')
    → IsPut in_memory r s s'
unfolding in_memory select_record
IsPut-first r row s s' same_id same_rank h =
    let e : s' ≡ row ∷ s = cc h in
    record {
      row = row;
      there = rw (e, ≡→== row.id r.id same_id) refl;
      times = inl same_rank;
      others = λ id n. rw (e, ≢→== row.id id (λ q. n (sym q ∙ same_id))) refl;
    }

unchanged :
    (s s' : List Record)
    → ◌≡◌ {A = Result RepositoryError (List Record)} (ok s) (ok s')
    → SameRecords in_memory s s'
unfolding SameRecords in_memory
unchanged s s' h id = ap (λ l. select_record l id) (sym (cc h))

keeps_laws : RepositoryLaws in_memory
unfolding in_memory rank
keeps_laws = record {
  create_puts = λ r s s'. IsPut-first r (created (create_input_of r)) s s' refl refl;
  update_puts = λ r s s'. IsPut-first r (updated (update_input_of r)) s s' refl refl;
  create_figure_same = λ i. unchanged;
  update_figure_same = λ i. unchanged;
  delete_figure_same = λ i. unchanged;
  create_data_file_same = λ i. unchanged;
  update_data_file_same = λ i. unchanged;
  delete_data_file_same = λ i. unchanged;
  upsert_project_same = λ i. unchanged;
  upsert_device_same = λ i. unchanged;
  upsert_path_same = λ i. unchanged;
}

-- No chats.
abbrev no_chats : ChatRepository (List Record)
no_chats = record {
  list_chat_sessions = λ f db. ok [];
  get_chat_session_by_id = λ id db. err not_found;
  get_chat_session_by_source = λ source id db. err not_found;
  list_chat_items = λ id db. ok [];
  upsert_chat_session_with_items = λ i items db. ok db;
}

-- Calls that all succeed, and the keys of the objects.
abbrev calls : Outside (List Text)
calls = record {
  resolve_figure_path = λ rid name o. ok name;
  resolve_data_file_path = λ rid name o. ok name;
  resolve_chat_source_path = λ id key o. ok key;
  upload = λ key body o. (key ∷ o, passed);
  download = λ key o. (o, ok []);
  delete = λ key o. (o, passed);
  update_version = λ version at o. (o, passed);
  begin = λ o. (o, ok (record { last_sync = 0; started_at = 5000000 }));
  complete = λ window o. (o, passed);
  release = λ o. (o, passed);
  stat = λ path o. passed;
  open_file = λ path o. ok [];
  remove = λ path o. (o, passed);
  mkdir_all = λ path o. (o, passed);
  create_temp = λ path o. (o, ok path);
  chmod = λ path perm o. (o, passed);
  copy = λ path body o. (o, passed);
  sync_file = λ path o. (o, passed);
  close = λ path o. (o, passed);
  rename = λ from to o. (o, passed);
  dir = λ path. path;
  warn_missing_local = λ n o. (o, passed);
  warn_missing_cloud = λ n o. (o, passed);
}

abbrev note_of : Text → Time → Record
note_of id at = record (note_at at none) { id = id }

abbrev service : Service (List Record) (List Record) (List Text)
service = record {
  local_repo = in_memory;
  cloud_repo = in_memory;
  local_chats = no_chats;
  cloud_chats = no_chats;
  os = calls;
}

-- Of two notes, the local side has a newer first one, and the cloud the second one alone.
abbrev before : World (List Record) (List Record) (List Text)
before = record {
  local = note_of (codes "a") 3000000 ∷ [];
  cloud = note_of (codes "a") 2000000 ∷ note_of (codes "b") 1000000 ∷ [];
  outside = [];
}

succeeds : (sync service before).1 ≡ passed
unfolding sync in_memory on_local on_cloud repository_on local_chats_of cloud_chats_of chats_on
    filter_records_updated_since nat_eq list_eq select_record resolve_bundle trim_space is_space
    resolve_record_winner latest_record_action action_at truncate_to_millisecond map_by_filename
    resolve_records truncate lookup source_bundle_can_repair_target_children record_payloads_equal
    nullable_strings_equal source_has_exact_figure_superset source_has_exact_data_file_superset
succeeds = refl

local_ids : map (λ r. r.id) (sync service before).0.local ≡ codes "b" ∷ codes "a" ∷ []
unfolding sync in_memory on_local on_cloud repository_on local_chats_of cloud_chats_of chats_on
    filter_records_updated_since nat_eq list_eq select_record resolve_bundle trim_space is_space
    resolve_record_winner latest_record_action action_at truncate_to_millisecond map_by_filename
    resolve_records truncate lookup source_bundle_can_repair_target_children record_payloads_equal
    nullable_strings_equal source_has_exact_figure_superset source_has_exact_data_file_superset
local_ids = refl

service_laws : ServiceLaws service
unfolding ChatWrites
service_laws = record {
  local_laws = keeps_laws;
  cloud_laws = keeps_laws;
  local_chats_apart = λ i items. unchanged;
  cloud_chats_apart = λ i items. unchanged;
}

abbrev after : World (List Record) (List Record) (List Text)
after = (sync service before).0

sync-grows_example : LocalGrows service before after × CloudGrows service before after
sync-grows_example = sync-grows service service_laws before

sync-covers_example :
    (window : SyncWindow) × ((calls.begin []).1 ≡ ok window)
    × IsSynced service window before (pushed_world service window (begun service before)) after
sync-covers_example = sync-covers service service_laws before after (ap (λ r. (after, r)) succeeds)

sqlite_repository-RepositoryLaws_example :
    RepositoryLaws (sqlite_repository (λ q rows. rows) 5000000)
sqlite_repository-RepositoryLaws_example = sqlite_repository-RepositoryLaws (λ q rows. rows) 5000000
