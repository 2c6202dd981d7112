-- ===== src/Sync/World.antt =====
-- cli/internal/sync/service.go: `Service`. The world that a sync acts on is the local database, the
-- cloud's, and what lies outside both.
use personal_context.Base.{Result, map_result}
use personal_context.Repository.Errors.{RepositoryError}
use personal_context.Repository.Interface.{Repository, ChatRepository}
use personal_context.Sync.Outside.{OutsideError}
use personal_context.Sync.Run.{Run, SyncError, outside_failed}
use personal_context.Base.{map_err}

pub record World (L C O : Type 0) : Type 0 where
  pub local : L
  pub cloud : C
  pub outside : O

-- A repository on a part of a greater state.
module _ {S W : Type 0} (part : W → S) (put : W → S → W) where
  abbrev change : (S → Result RepositoryError S) → W → Result RepositoryError W
  change call w = map_result (put w) (call (part w))

  unfoldable pub repository_on : Repository S → Repository W
  repository_on repo = record {
    now = repo.now;
    create_record = λ input. change (repo.create_record input);
    get_record_by_id = λ id w. repo.get_record_by_id id (part w);
    update_record = λ input. change (repo.update_record input);
    list_records = λ filter w. repo.list_records filter (part w);
    create_record_figure = λ input. change (repo.create_record_figure input);
    update_record_figure = λ input. change (repo.update_record_figure input);
    list_record_figures = λ id w. repo.list_record_figures id (part w);
    delete_record_figure = λ id. change (repo.delete_record_figure id);
    create_record_data_file = λ input. change (repo.create_record_data_file input);
    update_record_data_file = λ input. change (repo.update_record_data_file input);
    list_record_data_files = λ id w. repo.list_record_data_files id (part w);
    delete_record_data_file = λ id. change (repo.delete_record_data_file id);
    get_sync_version = λ w. repo.get_sync_version (part w);
    list_projects = λ archived w. repo.list_projects archived (part w);
    upsert_project_for_import = λ p. change (repo.upsert_project_for_import p);
    list_devices = λ archived w. repo.list_devices archived (part w);
    upsert_device_for_import = λ d. change (repo.upsert_device_for_import d);
    list_project_paths = λ id w. repo.list_project_paths id (part w);
    upsert_project_path = λ input. change (repo.upsert_project_path input);
  }

  unfoldable pub chats_on : ChatRepository S → ChatRepository W
  chats_on repo = record {
    list_chat_sessions = λ filter w. repo.list_chat_sessions filter (part w);
    get_chat_session_by_id = λ id w. repo.get_chat_session_by_id id (part w);
    get_chat_session_by_source = λ source id w. repo.get_chat_session_by_source source id (part w);
    list_chat_items = λ id w. repo.list_chat_items id (part w);
    upsert_chat_session_with_items =
        λ input items. change (repo.upsert_chat_session_with_items input items);
  }

module _ {L C O : Type 0} where
  unfoldable pub on_local : Repository L → Repository (World L C O)
  on_local = repository_on (λ w. w.local) (λ w s. record w { local = s })

  unfoldable pub on_cloud : Repository C → Repository (World L C O)
  on_cloud = repository_on (λ w. w.cloud) (λ w s. record w { cloud = s })

  unfoldable pub local_chats_of : ChatRepository L → ChatRepository (World L C O)
  local_chats_of = chats_on (λ w. w.local) (λ w s. record w { local = s })

  unfoldable pub cloud_chats_of : ChatRepository C → ChatRepository (World L C O)
  cloud_chats_of = chats_on (λ w. w.cloud) (λ w s. record w { cloud = s })

  abbrev back :
      {A : Type 0} → World L C O → O × Result OutsideError A → World L C O × Result SyncError A
  back w (o, result) = (record w { outside = o }, map_err outside_failed result)

  -- A call that may change what is outside.
  abbrev pub acting : {A : Type 0} → (O → O × Result OutsideError A) → Run (World L C O) A
  acting call w = back w (call w.outside)

  -- A call that only looks at what is outside.
  abbrev pub looking : {A : Type 0} → (O → Result OutsideError A) → Run (World L C O) A
  looking call w = (w, map_err outside_failed (call w.outside))
