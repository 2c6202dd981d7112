-- ===== src/Sync/Cycle/Grows.antt =====
-- service.go: what a whole sync does to the records of both sides.
use personal_context.Base.{refl}
use personal_context.Time.{Time}
use personal_context.Sync.Bundle.{local, cloud}
use personal_context.Sync.Outside.{SyncWindow}
use personal_context.Sync.Run.{Run, stored}
use personal_context.Sync.Run.Keeps.{Order, Keeps, bind-Keeps, reading-Keeps, and_then-keeps}
use personal_context.Sync.World.{
  World, on_local, on_cloud, local_chats_of, cloud_chats_of, chats_on,
}
use personal_context.Sync.Files.Keeps.{acting-Keeps}
use personal_context.Sync.Laws.{
  Grows-Order, Grows-SameRecords, SameRecords, SameRecords-Order, RepositoryLaws, change_same,
}
use personal_context.Sync.Apply.Keeps.{outside_same_local, outside_same_cloud}
use personal_context.Sync.Pass.Covers.{sync_changed_records-grows}
use personal_context.Sync.ChatPass.Keeps.{ChatWrites, sync_changed_chats_directed-Keeps}
use personal_context.Sync.Cycle.{
  Service, push, pull, push_changed_records, pull_changed_records, push_changed_chats,
  pull_changed_chats, update_cloud_version, sync_window, sync,
}
use personal_context.Sync.Cycle.Sound.{pull-IsSound, push-IsSound}
use personal_context.Sync.Cycle.Sides.{
  LocalSame, CloudSame, LocalGrows, CloudGrows, cloud_write, local_write, push-LocalSame,
  pull-CloudSame,
}

-- What the databases of a service are taken to do; the writes of chats leave the records.
pub record ServiceLaws {L C O : Type 0} (s : Service L C O) : Type 0 where
  pub local_laws : RepositoryLaws s.local_repo
  pub cloud_laws : RepositoryLaws s.cloud_repo
  pub local_chats_apart : ChatWrites (SameRecords s.local_repo) s.local_chats
  pub cloud_chats_apart : ChatWrites (SameRecords s.cloud_repo) s.cloud_chats

module _ {L C O : Type 0} (s : Service L C O) where
  module _ {R : World L C O → World L C O → Type 0} (o : Order R)
      (free : (w : World L C O) (outside : O) → R w (record w { outside = outside })) where
    -- The parts of a sync that move rows.
    pub record PartsKeep : Type 0 where
      pub push_records :
          (since : Time) → Keeps R (push_changed_records s.local_repo s.cloud_repo s.os since)
      pub push_chats :
          (since : Time) → Keeps R (push_changed_chats s.local_chats s.cloud_chats s.os since)
      pub pull_records :
          (since : Time) → Keeps R (pull_changed_records s.local_repo s.cloud_repo s.os since)
      pub pull_chats :
          (since : Time) → Keeps R (pull_changed_chats s.local_chats s.cloud_chats s.os since)

    pub update_cloud_version-Keeps : Keeps R (update_cloud_version s.local_repo s.cloud_repo s.os)
    unfolding update_cloud_version
    update_cloud_version-Keeps =
        bind-Keeps o (reading-Keeps o stored (λ w. s.cloud_repo.get_sync_version w.cloud))
          (λ version. acting-Keeps o free _)

    sync_window-Keeps : PartsKeep → (window : SyncWindow) → Keeps R (sync_window s window)
    unfolding sync_window
    sync_window-Keeps parts window = bind-Keeps o (parts.push_records window.last_sync) (λ _.
        bind-Keeps o (parts.push_chats window.last_sync) (λ _.
          bind-Keeps o (parts.pull_records window.last_sync) (λ _.
            bind-Keeps o (parts.pull_chats window.last_sync) (λ _.
              bind-Keeps o update_cloud_version-Keeps
                (λ _. acting-Keeps o free (s.os.complete window))))))

    sync-Keeps : PartsKeep → Keeps R (sync s)
    unfolding sync
    sync-Keeps parts = record {
      keeps = λ w. and_then-keeps o w _ _ (free w (s.os.begin w.outside).0) (λ window. record {
        keeps = λ v.
            o.both ((sync_window-Keeps parts window).keeps v)
              (free (sync_window s window v).0 (s.os.release (sync_window s window v).0.outside).0);
      });
    }

  same-Keeps-local :
      {A : Type 0} {call : Run (World L C O) A}
      → Keeps (LocalSame s) call
      → Keeps (LocalGrows s) call
  same-Keeps-local h = record {
    keeps = λ w. Grows-SameRecords (on_local s.local_repo) w _ (h.keeps w);
  }

  same-Keeps-cloud :
      {A : Type 0} {call : Run (World L C O) A}
      → Keeps (CloudSame s) call
      → Keeps (CloudGrows s) call
  same-Keeps-cloud h = record {
    keeps = λ w. Grows-SameRecords (on_cloud s.cloud_repo) w _ (h.keeps w);
  }

  module _ (laws : ServiceLaws s) where
    local_chats-LocalSame : ChatWrites (LocalSame s) (local_chats_of s.local_chats)
    unfolding ChatWrites local_chats_of chats_on on_local
    local_chats-LocalSame i items w w' h =
        change_same _ _ (λ v l. refl) s.local_repo w w' _ (laws.local_chats_apart i items w.local) h

    cloud_chats-CloudSame : ChatWrites (CloudSame s) (cloud_chats_of s.cloud_chats)
    unfolding ChatWrites cloud_chats_of chats_on on_cloud
    cloud_chats-CloudSame i items w w' h =
        change_same _ _ (λ v c. refl) s.cloud_repo w w' _ (laws.cloud_chats_apart i items w.cloud) h

    local_chats-CloudSame : ChatWrites (CloudSame s) (local_chats_of s.local_chats)
    unfolding ChatWrites local_chats_of chats_on
    local_chats-CloudSame i items w w' h = local_write s w w' _ h

    cloud_chats-LocalSame : ChatWrites (LocalSame s) (cloud_chats_of s.cloud_chats)
    unfolding ChatWrites cloud_chats_of chats_on
    cloud_chats-LocalSame i items w w' h = cloud_write s w w' _ h

    pub free_local :
        (w : World L C O) (outside : O) → LocalSame s w (record w { outside = outside })
    free_local = outside_same_local s.local_repo s.cloud_repo s.os

    pub free_cloud :
        (w : World L C O) (outside : O) → CloudSame s w (record w { outside = outside })
    free_cloud = outside_same_cloud s.local_repo s.cloud_repo s.os

    push_chats_local :
        (since : Time)
        → Keeps (LocalSame s) (push_changed_chats s.local_chats s.cloud_chats s.os since)
    unfolding push_changed_chats
    push_chats_local =
        sync_changed_chats_directed-Keeps (SameRecords-Order (on_local s.local_repo)) free_local
          s.os (local_chats_of s.local_chats) (cloud_chats_of s.cloud_chats) local
          cloud_chats-LocalSame

    push_chats_cloud :
        (since : Time)
        → Keeps (CloudSame s) (push_changed_chats s.local_chats s.cloud_chats s.os since)
    unfolding push_changed_chats
    push_chats_cloud =
        sync_changed_chats_directed-Keeps (SameRecords-Order (on_cloud s.cloud_repo)) free_cloud
          s.os (local_chats_of s.local_chats) (cloud_chats_of s.cloud_chats) local
          cloud_chats-CloudSame

    pull_chats_local :
        (since : Time)
        → Keeps (LocalSame s) (pull_changed_chats s.local_chats s.cloud_chats s.os since)
    unfolding pull_changed_chats
    pull_chats_local =
        sync_changed_chats_directed-Keeps (SameRecords-Order (on_local s.local_repo)) free_local
          s.os (cloud_chats_of s.cloud_chats) (local_chats_of s.local_chats) cloud
          local_chats-LocalSame

    pull_chats_cloud :
        (since : Time)
        → Keeps (CloudSame s) (pull_changed_chats s.local_chats s.cloud_chats s.os since)
    unfolding pull_changed_chats
    pull_chats_cloud =
        sync_changed_chats_directed-Keeps (SameRecords-Order (on_cloud s.cloud_repo)) free_cloud
          s.os (cloud_chats_of s.cloud_chats) (local_chats_of s.local_chats) cloud
          local_chats-CloudSame

    pub local_parts :
        PartsKeep
          (Grows-Order (on_local s.local_repo))
          (λ w o. Grows-SameRecords (on_local s.local_repo) w _ (free_local w o))
    unfolding pull_changed_records
    local_parts = record {
      push_records = λ since. same-Keeps-local (push-LocalSame s since);
      push_chats = λ since. same-Keeps-local (push_chats_local since);
      pull_records =
          sync_changed_records-grows (pull s.local_repo s.cloud_repo s.os)
            (pull-IsSound s.local_repo s.cloud_repo s.os laws.local_laws);
      pull_chats = λ since. same-Keeps-local (pull_chats_local since);
    }

    pub cloud_parts :
        PartsKeep
          (Grows-Order (on_cloud s.cloud_repo))
          (λ w o. Grows-SameRecords (on_cloud s.cloud_repo) w _ (free_cloud w o))
    unfolding push_changed_records
    cloud_parts = record {
      push_records =
          sync_changed_records-grows (push s.local_repo s.cloud_repo s.os)
            (push-IsSound s.local_repo s.cloud_repo s.os laws.cloud_laws);
      push_chats = λ since. same-Keeps-cloud (push_chats_cloud since);
      pull_records = λ since. same-Keeps-cloud (pull-CloudSame s since);
      pull_chats = λ since. same-Keeps-cloud (pull_chats_cloud since);
    }

    -- However a sync ends, and whatever the calls outside the databases return, no record of either
    -- side is lost, and none is older than it was: under an id that a side had, it has a record
    -- whose rank is at least that of the old one, or at least that of a deletion at the time of the
    -- run, if the databases of the service keep their laws.
    pub sync-grows : (w : World L C O) → LocalGrows s w (sync s w).0 × CloudGrows s w (sync s w).0
    sync-grows w = ((sync-Keeps _ _ local_parts).keeps w, (sync-Keeps _ _ cloud_parts).keeps w)
