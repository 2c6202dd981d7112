-- ===== src/Sync/Cycle.antt =====
-- cli/internal/sync/service.go: `Sync`, the push and the pull under the session's lock.
pub mod Sound
pub mod Sides
pub mod Grows
pub mod Covers
use personal_context.Base.{ok, err, Checked, passed}
use personal_context.Time.{Time, truncate_to_millisecond}
use personal_context.Repository.Interface.{Repository, ChatRepository}
use personal_context.Sync.Bundle.{local, cloud}
use personal_context.Sync.Outside.{Outside, SyncWindow}
use personal_context.Sync.Run.{Run, SyncError, stored, joined, and_then, ◌>>=◌, ◌>>◌, reading}
use personal_context.Sync.World.{World, on_local, on_cloud, acting, local_chats_of, cloud_chats_of}
use personal_context.Sync.Apply.{apply_bundle_to_cloud, apply_bundle_to_local}
use personal_context.Sync.Pass.{SyncDirection, sync_changed_records}
use personal_context.Sync.ChatPass.{sync_changed_chats_directed}

-- The error of the sync joined with that of the release of the lock.
unfoldable pub join_errors : Checked SyncError → Checked SyncError → Checked SyncError
join_errors (ok _) released = released
join_errors (err e) (ok _) = err e
join_errors (err e) (err f) = err (joined e f)

module _ {L C O : Type 0} (local_repo : Repository L) (cloud_repo : Repository C)
    (os : Outside O) where
  abbrev pub push : SyncDirection (World L C O)
  push = record {
    source = on_local local_repo;
    target = on_cloud cloud_repo;
    winning_side = local;
    apply = apply_bundle_to_cloud local_repo cloud_repo os;
  }

  abbrev pub pull : SyncDirection (World L C O)
  pull = record {
    source = on_cloud cloud_repo;
    target = on_local local_repo;
    winning_side = cloud;
    apply = apply_bundle_to_local local_repo cloud_repo os;
  }

  unfoldable pub push_changed_records : Time → Run (World L C O) (Unit {0})
  unfolding sync_changed_records apply_bundle_to_cloud
  push_changed_records = sync_changed_records push

  unfoldable pub pull_changed_records : Time → Run (World L C O) (Unit {0})
  unfolding sync_changed_records apply_bundle_to_local
  pull_changed_records = sync_changed_records pull

  -- The version's time is written in milliseconds.
  unfoldable pub update_cloud_version : Run (World L C O) (Unit {0})
  update_cloud_version = do
    version ← reading stored (λ w. cloud_repo.get_sync_version w.cloud)
    acting (os.update_version version.version (truncate_to_millisecond version.updated_at))

module _ {L C O : Type 0} (local_chats : ChatRepository L) (cloud_chats : ChatRepository C)
    (os : Outside O) where
  unfoldable pub push_changed_chats : Time → Run (World L C O) (Unit {0})
  unfolding sync_changed_chats_directed
  push_changed_chats =
      sync_changed_chats_directed os (local_chats_of local_chats) (cloud_chats_of cloud_chats) local

  unfoldable pub pull_changed_chats : Time → Run (World L C O) (Unit {0})
  unfolding sync_changed_chats_directed
  pull_changed_chats =
      sync_changed_chats_directed os (cloud_chats_of cloud_chats) (local_chats_of local_chats) cloud

-- `Service`, with the two repositories, their chats, and what is outside.
pub record Service (L C O : Type 0) : Type 0 where
  pub local_repo : Repository L
  pub cloud_repo : Repository C
  pub local_chats : ChatRepository L
  pub cloud_chats : ChatRepository C
  pub os : Outside O

module _ {L C O : Type 0} (s : Service L C O) where
  -- What is done under the lock.
  unfoldable pub sync_window : SyncWindow → Run (World L C O) (Unit {0})
  unfolding push_changed_records push_changed_chats pull_changed_records pull_changed_chats
      update_cloud_version
  sync_window window = do
    push_changed_records s.local_repo s.cloud_repo s.os window.last_sync
    push_changed_chats s.local_chats s.cloud_chats s.os window.last_sync
    pull_changed_records s.local_repo s.cloud_repo s.os window.last_sync
    pull_changed_chats s.local_chats s.cloud_chats s.os window.last_sync
    update_cloud_version s.local_repo s.cloud_repo s.os
    acting (s.os.complete window)

  -- `defer lock.Release()`.
  abbrev pub release_after : World L C O × Checked SyncError → World L C O × Checked SyncError
  release_after (w, result) =
      let (w', released) = acting s.os.release w in (w', join_errors result released)

  unfoldable pub sync : Run (World L C O) (Unit {0})
  unfolding sync_window join_errors
  sync w = and_then (acting s.os.begin w) (λ window w'. release_after (sync_window window w'))
