-- ===== src/Sync/ChatPass.antt =====
-- cli/internal/sync/service.go: one pass over the changed chat sessions. The pass's context is not
-- cancelled, and the transfer of raw sources is that of `Service`.
pub mod Keeps
use personal_context.Base.{
  ℕ, Bool, true, false, not, ◌&&◌, ◌++◌, List, [], ◌∷◌, map, ◌==◌, nat_eq, list_eq, length, ltb,
  if◌then◌else◌, Option, none, some, Result, ok, err, map_result,
}
use personal_context.Text.{Text}
use personal_context.Time.{Time}
use personal_context.Repository.Types.{Record}
use personal_context.Repository.Errors.{RepositoryError, not_found}
use personal_context.Repository.Chats.{
  ChatSession, ChatItem, UpsertChatSessionInput, CreateChatItemInput, ListChatSessionsFilter,
}
use personal_context.Repository.Interface.{ChatRepository}
use personal_context.SyncEngine.Resolve.{Outcome, ResolveError, resolve_record_winner, is_set}
use personal_context.SyncEngine.Resolve
use personal_context.Sync.Bundle.{Winner, local, cloud, neither}
use personal_context.Sync.Outside.{Outside, OutsideError, absent, Content}
use personal_context.Sync.Run.{
  Run, SyncError, stored, chat_resolved, chat_source_taken, outside_failed, and_then, ◌>>=◌, ◌>>◌,
  give, done, fail, reading, writing, pure_call,
}
use personal_context.Sync.World.{World, acting, looking}
use personal_context.Sync.Files.{
  upload_data_file_if_present, write_reader_to_path_with_perm, synced_chat_raw_file_permission,
}
use personal_context.Sync.Pass.{same_winner, found_or_none}

-- `chatRawSyncReport`.
pub record ChatRawSyncReport : Type 0 where
  pub missing_local : List Text
  pub missing_cloud : List Text

-- A file or an object that was not there is noted.
unfoldable pub note_local : Text → Bool → ChatRawSyncReport → ChatRawSyncReport
note_local id there r = if there then r else record r { missing_local = r.missing_local ++ id ∷ [] }

unfoldable pub note_cloud : Text → Bool → ChatRawSyncReport → ChatRawSyncReport
note_cloud id there r = if there then r else record r { missing_cloud = r.missing_cloud ++ id ∷ [] }

-- The record that stands for a session among the conflict rules.
abbrev pub as_record : ChatSession → Record
as_record s = record {
  id = s.id;
  user_id = [];
  date = [];
  day_order = [];
  html_content = none;
  notes = none;
  project_id = [];
  source_device_id = [];
  source_ref = none;
  git_remote_url = none;
  git_hash = none;
  created_at = 0;
  updated_at = s.updated_at;
  deleted_at = s.deleted_at;
}

abbrev winner_of : Outcome → Winner
winner_of Outcome.local = local
winner_of Outcome.remote = cloud
winner_of Outcome.equal = neither

unfoldable pub resolve_chat_winner_for_direction :
    ChatSession → ChatSession → Winner → Result ResolveError Winner
resolve_chat_winner_for_direction source target cloud =
    map_result winner_of (resolve_record_winner (some (as_record target)) (some (as_record source)))
resolve_chat_winner_for_direction source target _ =
    map_result winner_of (resolve_record_winner (some (as_record source)) (some (as_record target)))

abbrev pub item_input_of : Text → ChatItem → CreateChatItemInput
item_input_of session_id i = record {
  session_id = session_id;
  ordinal = i.ordinal;
  role = i.role;
  item_type = i.item_type;
  text = i.text;
  search_text = i.search_text;
  raw_json = i.raw_json;
  created_at = some i.created_at;
}

abbrev pub session_input_of : ChatSession → UpsertChatSessionInput
session_input_of s = record {
  id = s.id;
  source = s.source;
  source_session_id = s.source_session_id;
  parent_source_session_id = s.parent_source_session_id;
  source_device_id = s.source_device_id;
  project_id = s.project_id;
  cwd = s.cwd;
  title = s.title;
  started_at = s.started_at;
  last_activity_at = s.last_activity_at;
  original_source_path = s.original_source_path;
  raw_source_key = s.raw_source_key;
  created_at = some s.created_at;
  updated_at = some s.updated_at;
  deleted_at = s.deleted_at;
  clear_deleted = not (is_set s.deleted_at);
}

abbrev changed_sessions : Time → ListChatSessionsFilter
changed_sessions since = record {
  include_deleted = true;
  only_deleted = false;
  project_id = none;
  unassigned = false;
  source = none;
  device_id = none;
  parent_source_session_id = none;
  date_from = none;
  date_to = none;
  limit = 0;
  offset = 0;
  updated_after = some since;
}

unfoldable pub should_transfer_raw : ChatSession → Bool
should_transfer_raw s = is_set s.raw_source_key && not (is_set s.deleted_at)

-- The target has the session's source under another id.
unfoldable pub is_taken_by : ChatSession → Option ChatSession → Option Text
is_taken_by s none = none
is_taken_by s (some t) = if not (t.id == s.id) then some t.id else none

-- The body of the object, if there is one.
abbrev object_or_none : Result OutsideError Content → Result OutsideError (Option Content)
object_or_none (ok body) = ok (some body)
object_or_none (err absent) = ok none
object_or_none (err e) = err e

abbrev download_or_none :
    {O : Type 0} → Outside O → Text → O → O × Result OutsideError (Option Content)
download_or_none os key o = ((os.download key o).0, object_or_none (os.download key o).1)

module _ {L C O : Type 0} (os : Outside O) where
  abbrev store_downloaded : Text → Option Content → Run (World L C O) Bool
  store_downloaded path none = give false
  store_downloaded path (some body) = do
    write_reader_to_path_with_perm os path body synced_chat_raw_file_permission
    give true

  -- Whether there was an object.
  unfoldable pub download_chat_source_if_present : Text → Text → Run (World L C O) Bool
  unfolding write_reader_to_path_with_perm
  download_chat_source_if_present key path = do
    body ← acting (download_or_none os key)
    store_downloaded path body

  abbrev transfer_key :
      Winner → ChatSession → ChatRawSyncReport → Option Text → Run (World L C O) ChatRawSyncReport
  transfer_key side s report none = give report
  transfer_key cloud s report (some key) = do
    path ← looking (os.resolve_chat_source_path s.id key)
    there ← download_chat_source_if_present key path
    give (note_cloud s.id there report)
  transfer_key _ s report (some key) = do
    path ← looking (os.resolve_chat_source_path s.id key)
    uploaded ← upload_data_file_if_present os key path
    give (note_local s.id uploaded report)

  -- A push, or a pull if the cloud is to win.
  unfoldable pub transfer_chat_raw_source :
      Winner → ChatSession → ChatRawSyncReport → Run (World L C O) ChatRawSyncReport
  unfolding download_chat_source_if_present upload_data_file_if_present note_local note_cloud
  transfer_chat_raw_source side s report = transfer_key side s report s.raw_source_key

  module _ (source target : ChatRepository (World L C O)) (side : Winner) where
    abbrev transfer_if :
        Bool → ChatSession → ChatRawSyncReport → Run (World L C O) ChatRawSyncReport
    transfer_if wanted s report =
        if wanted then transfer_chat_raw_source side s report else give report

    -- Raw source before the rows on a push, and after them on a pull.
    unfoldable pub write_chat :
        ChatSession → ChatRawSyncReport → Run (World L C O) ChatRawSyncReport
    unfolding transfer_chat_raw_source should_transfer_raw same_winner
    write_chat s report = do
      report' ← transfer_if (should_transfer_raw s && not (same_winner side cloud)) s report
      items ← reading stored (source.list_chat_items s.id)
      writing stored (
          target.upsert_chat_session_with_items (session_input_of s)
            (map (item_input_of s.id) items))
      transfer_if (should_transfer_raw s && same_winner side cloud) s report'

    unfoldable pub write_chat_if_won :
        ChatSession → ChatRawSyncReport → Winner → Run (World L C O) ChatRawSyncReport
    unfolding write_chat
    write_chat_if_won s report winner =
        if not (same_winner winner side)
        then transfer_if
            (same_winner winner neither && same_winner side cloud && should_transfer_raw s) s report
        else write_chat s report

    abbrev sync_chat_at :
        ChatSession → ChatRawSyncReport → Option ChatSession → Run (World L C O) ChatRawSyncReport
    sync_chat_at s report none = write_chat s report
    sync_chat_at s report (some t) = do
      winner ← pure_call chat_resolved (resolve_chat_winner_for_direction s t side)
      write_chat_if_won s report winner

    abbrev check_not_taken : ChatSession → Option Text → Run (World L C O) (Unit {0})
    check_not_taken s none = done
    check_not_taken s (some other) = fail (chat_source_taken other s.id)

    -- The body of the loop.
    unfoldable pub sync_chat : ChatSession → ChatRawSyncReport → Run (World L C O) ChatRawSyncReport
    unfolding write_chat_if_won resolve_chat_winner_for_direction is_taken_by found_or_none
    sync_chat s report = do
      found ← reading stored (λ w. found_or_none (target.get_chat_session_by_id s.id w))
      by_source ←
          reading stored
            (λ w. found_or_none (target.get_chat_session_by_source s.source s.source_session_id w))
      check_not_taken s (is_taken_by s by_source)
      sync_chat_at s report found

    unfoldable pub sync_chats :
        List ChatSession → ChatRawSyncReport → Run (World L C O) ChatRawSyncReport
    sync_chats [] report w = (w, ok report)
    sync_chats (s ∷ ss) report w = and_then (sync_chat s report w) (sync_chats ss)

    unfoldable pub sync_changed_chats_directed : Time → Run (World L C O) (Unit {0})
    unfolding sync_chats sync_chat
    sync_changed_chats_directed since = do
      sessions ← reading stored (source.list_chat_sessions (changed_sessions since))
      report ← sync_chats sessions (record { missing_local = []; missing_cloud = [] })
      if ltb 0 (length report.missing_local)
          then acting (os.warn_missing_local (length report.missing_local))
          else done
      if ltb 0 (length report.missing_cloud)
          then acting (os.warn_missing_cloud (length report.missing_cloud))
          else done
