-- ===== src/Sync/Cycle/Covers.antt =====
-- service.go: what a whole sync that succeeds has brought to each side.
use personal_context.Base.{
  ◌≡◌, refl, ap, subst, List, ok, err, Checked, passed, [], ◌∷◌, map_err-eq-ok,
}
use personal_context.Time.{Time}
use personal_context.Repository.Types.{Record}
use personal_context.Repository.Interface.{Repository}
use personal_context.SyncEngine.Resolve.Rank.{rank}
use personal_context.SyncEngine.Resolve.{filter_records_updated_since}
use personal_context.Sync.Outside.{SyncWindow}
use personal_context.Sync.Run.{Run, SyncError, outside_failed, ◌>>◌}
use personal_context.Sync.Run.Keeps.{Keeps, bind-Keeps, and_then-eq-ok}
use personal_context.Sync.World.{World, on_local, on_cloud, repository_on, acting}
use personal_context.Sync.Files.Keeps.{acting-Keeps}
use personal_context.Sync.Laws.{Grows, Grows-Order, AllCovered, Grows-SameRecords}
use personal_context.Sync.Pass.{every_record}
use personal_context.Sync.Pass.Covers.{sync_changed_records-covers}
use personal_context.Sync.Cycle.{
  Service, push, push_changed_records, pull_changed_records, push_changed_chats, pull_changed_chats,
  update_cloud_version, sync_window, release_after, join_errors, sync,
}
use personal_context.Sync.Cycle.Sound.{push-IsSound, pull_changed_records-covers}
use personal_context.Sync.Cycle.Sides.{LocalGrows, CloudGrows}
use personal_context.Sync.Cycle.Grows.{
  ServiceLaws, local_parts, cloud_parts, free_local, free_cloud, update_cloud_version-Keeps,
}

AllCovered-grows :
    {W : Type 0} (repo : Repository W) (records : List Record) (w w' : W)
    → Grows repo w w'
    → AllCovered repo records w
    → AllCovered repo records w'
unfolding Grows
AllCovered-grows repo [] w w' g c = tt
AllCovered-grows repo (r ∷ records) w w' g (c, cs) =
    (g r.id (rank r) c, AllCovered-grows repo records w w' g cs)

join_errors-passed :
    (result released : Checked SyncError) → join_errors result released ≡ passed → result ≡ passed
unfolding join_errors
join_errors-passed (ok _) released h = refl
join_errors-passed (err e) (ok _) h = h
join_errors-passed (err e) (err f) h = cc

module _ {L C O : Type 0} (s : Service L C O) where
  abbrev release_at : World L C O → World L C O
  release_at w = record w { outside = (s.os.release w.outside).0 }

  -- A sync that succeeds has succeeded under the lock.
  release_after-eq-ok :
      (p : World L C O × Checked SyncError) (w' : World L C O)
      → release_after s p ≡ (w', passed)
      → (p.1 ≡ passed) × (release_at p.0 ≡ w')
  release_after-eq-ok (v, result) w' h =
      (join_errors-passed result _ (ap (λ q. q.1) h), ap (λ q. q.0) h)

  abbrev after_pull : SyncWindow → Run (World L C O) (Unit {0})
  after_pull window = do
    pull_changed_chats s.local_chats s.cloud_chats s.os window.last_sync
    update_cloud_version s.local_repo s.cloud_repo s.os
    acting (s.os.complete window)

  abbrev after_push_chats : SyncWindow → Run (World L C O) (Unit {0})
  after_push_chats window = do
    pull_changed_records s.local_repo s.cloud_repo s.os window.last_sync
    after_pull window

  abbrev after_push : SyncWindow → Run (World L C O) (Unit {0})
  after_push window = do
    push_changed_chats s.local_chats s.cloud_chats s.os window.last_sync
    after_push_chats window

  -- The world in which a session has begun.
  abbrev pub begun : World L C O → World L C O
  begun w = record w { outside = (s.os.begin w.outside).0 }

  -- The world that the two pushes leave, from which the pull of the records begins.
  abbrev pub pushed_world : SyncWindow → World L C O → World L C O
  pushed_world window w =
      let u = (push_changed_records s.local_repo s.cloud_repo s.os window.last_sync w).0 in
      (push_changed_chats s.local_chats s.cloud_chats s.os window.last_sync u).0

  -- What a sync of the window, from a world by way of another one to a third, has brought to each
  -- side: the cloud has the changed local records of the first world, and the local side has the
  -- changed records of the cloud in the second.
  pub record IsSynced (window : SyncWindow) (w v w' : World L C O) : Type 0 where
    pub local_records : List Record
    pub local_listed : s.local_repo.list_records every_record w.local ≡ ok local_records
    pub pushed :
        AllCovered
          (on_cloud s.cloud_repo)
          (filter_records_updated_since local_records window.last_sync)
          w'
    pub cloud_grown : CloudGrows s w v
    pub cloud_records : List Record
    pub cloud_listed : s.cloud_repo.list_records every_record v.cloud ≡ ok cloud_records
    pub pulled :
        AllCovered
          (on_local s.local_repo)
          (filter_records_updated_since cloud_records window.last_sync)
          w'

  module _ (laws : ServiceLaws s) where
    after_pull-grows : (window : SyncWindow) → Keeps (LocalGrows s) (after_pull window)
    after_pull-grows window =
        let o = Grows-Order (on_local s.local_repo) in
        let free : (w : World L C O) (outside : O)
            → LocalGrows s w (record w { outside = outside }) =
          λ w u. Grows-SameRecords (on_local s.local_repo) w _ (free_local s laws w u) in
        let parts = local_parts s laws in
        bind-Keeps o (parts.pull_chats window.last_sync) (λ _.
          bind-Keeps o (update_cloud_version-Keeps s o free)
            (λ _. acting-Keeps o free (s.os.complete window)))

    after_push-grows : (window : SyncWindow) → Keeps (CloudGrows s) (after_push window)
    after_push-grows window =
        let o = Grows-Order (on_cloud s.cloud_repo) in
        let free : (w : World L C O) (outside : O)
            → CloudGrows s w (record w { outside = outside }) =
          λ w u. Grows-SameRecords (on_cloud s.cloud_repo) w _ (free_cloud s laws w u) in
        let parts = cloud_parts s laws in
        bind-Keeps o (parts.push_chats window.last_sync) (λ _.
          bind-Keeps o (parts.pull_records window.last_sync) (λ _.
            bind-Keeps o (parts.pull_chats window.last_sync) (λ _.
              bind-Keeps o (update_cloud_version-Keeps s o free)
                (λ _. acting-Keeps o free (s.os.complete window)))))

    push-covers :
        (since : Time) (w w' : World L C O)
        → push_changed_records s.local_repo s.cloud_repo s.os since w ≡ (w', passed)
        → (records : List Record) × (s.local_repo.list_records every_record w.local ≡ ok records)
          × AllCovered (on_cloud s.cloud_repo) (filter_records_updated_since records since) w'
    unfolding push_changed_records on_local repository_on
    push-covers since w w' =
        sync_changed_records-covers (push s.local_repo s.cloud_repo s.os)
          (push-IsSound s.local_repo s.cloud_repo s.os laws.cloud_laws) since w w'

    sync_window-IsSynced :
        (window : SyncWindow) (w w' : World L C O)
        → sync_window s window w ≡ (w', passed)
        → IsSynced window w (pushed_world window w) w'
    unfolding sync_window
    sync_window-IsSynced window w w' h =
        let since = window.last_sync in
        let pushing = push_changed_records s.local_repo s.cloud_repo s.os since in
        let chatting = push_changed_chats s.local_chats s.cloud_chats s.os since in
        let pulling = pull_changed_records s.local_repo s.cloud_repo s.os since in
        let parts = cloud_parts s laws in
        let u : World L C O = (pushing w).0 in
        let v : World L C O = (chatting u).0 in
        let (_, did_push, from_u) = and_then-eq-ok (pushing w) (λ _. after_push window) h in
        let (_, _, from_v) = and_then-eq-ok (chatting u) (λ _. after_push_chats window) from_u in
        let (_, did_pull, to_end) = and_then-eq-ok (pulling v) (λ _. after_pull window) from_v in
        let (mine, mine_listed, pushed) = push-covers since w u (ap (λ x. (u, x)) did_push) in
        let (others, others_listed, pulled) =
          pull_changed_records-covers s.local_repo s.cloud_repo s.os laws.local_laws since v
            (pulling v).0 (ap (λ x. ((pulling v).0, x)) did_pull) in
        record {
          local_records = mine;
          local_listed = mine_listed;
          pushed =
              AllCovered-grows (on_cloud s.cloud_repo) _ u w'
                (subst (CloudGrows s u) (ap (λ x. x.0) from_u) ((after_push-grows window).keeps u))
                pushed;
          cloud_grown =
              (Grows-Order (on_cloud s.cloud_repo)).both ((parts.push_records since).keeps w)
                ((parts.push_chats since).keeps u);
          cloud_records = others;
          cloud_listed = others_listed;
          pulled =
              AllCovered-grows (on_local s.local_repo) _ (pulling v).0 w'
                (subst (LocalGrows s (pulling v).0) (ap (λ x. x.0) to_end)
                  ((after_pull-grows window).keeps (pulling v).0))
                pulled;
        }

    -- The calls outside the databases, before and after, leave the rows.
    IsSynced-around :
        (window : SyncWindow) (w u v : World L C O) (o : O)
        → IsSynced window (record w { outside = o }) u v
        → IsSynced window w u (release_at v)
    IsSynced-around window w u v o synced = record {
      local_records = synced.local_records;
      local_listed = synced.local_listed;
      pushed =
          AllCovered-grows (on_cloud s.cloud_repo) _ v (release_at v)
            (Grows-SameRecords (on_cloud s.cloud_repo) v _ (free_cloud s laws v _)) synced.pushed;
      cloud_grown =
          (Grows-Order (on_cloud s.cloud_repo)).both
            (Grows-SameRecords (on_cloud s.cloud_repo) w _ (free_cloud s laws w o))
            synced.cloud_grown;
      cloud_records = synced.cloud_records;
      cloud_listed = synced.cloud_listed;
      pulled =
          AllCovered-grows (on_local s.local_repo) _ v (release_at v)
            (Grows-SameRecords (on_local s.local_repo) v _ (free_local s laws v _)) synced.pulled;
    }

    -- A sync that succeeds began with a window and has listed the records of both sides. At its end
    -- the cloud has, for each local record that was not updated before the window's cursor, a record
    -- of that id whose rank is at least that record's, or at least that of a deletion at the time of
    -- the run. So has the local side for the records that the cloud had once the pushes were done,
    -- from which the pull began; by then the cloud had lost none, and none was older than before
    -- (but for the same bound). The databases of the service are to keep their laws.
    pub sync-covers :
        (w w' : World L C O)
        → sync s w ≡ (w', passed)
        → (window : SyncWindow) × ((s.os.begin w.outside).1 ≡ ok window)
          × IsSynced window w (pushed_world window (begun w)) w'
    unfolding sync
    sync-covers w w' h =
        let (window, began, rest) = and_then-eq-ok (acting s.os.begin w) _ h in
        let w1 : World L C O = begun w in
        let v : World L C O = (sync_window s window w1).0 in
        let (succeeded, ended) = release_after-eq-ok (sync_window s window w1) w' rest in
        (
          window,
          map_err-eq-ok outside_failed (s.os.begin w.outside).1 began,
          subst (IsSynced window w (pushed_world window w1)) ended (
              IsSynced-around window w (pushed_world window w1) v (s.os.begin w.outside).0
                (sync_window-IsSynced window w1 v (ap (λ x. (v, x)) succeeded))),
        )
