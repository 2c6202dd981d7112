-- ===== src/Sync/Cycle/Sides.antt =====
-- service.go: a push leaves the local records, and a pull those of the cloud.
use personal_context.Base.{◌≡◌, sym, ap, Bool, Result, ok, err, map_result}
use personal_context.Time.{Time}
use personal_context.Repository.Types.{Record}
use personal_context.Repository.Errors.{RepositoryError}
use personal_context.Sync.Run.Keeps.{Keeps, bind-Keeps}
use personal_context.Sync.World.{World, on_local, on_cloud, repository_on}
use personal_context.Sync.Laws.{Grows, SameRecords, SameRecords-Order, Writes}
use personal_context.Sync.Apply.{
  apply_record_to, apply_bundle_to_local, apply_bundle_to_cloud, is_given,
}
use personal_context.Sync.Apply.Keeps.{outside_same_local, outside_same_cloud}
use personal_context.Sync.Apply.Records.{apply_record_to-Keeps}
use personal_context.Sync.Pass.Keeps.{sync_registries-Keeps, sync_changed_records-Keeps}
use personal_context.Sync.Cycle.{Service, push, pull, push_changed_records, pull_changed_records}
use personal_context.Sync.Cycle.Sound.{local_rest, cloud_rest, local_rest-Keeps, cloud_rest-Keeps}

module _ {L C O : Type 0} (s : Service L C O) where
  abbrev pub LocalSame : World L C O → World L C O → Type 0
  LocalSame = SameRecords (on_local s.local_repo)

  abbrev pub CloudSame : World L C O → World L C O → Type 0
  CloudSame = SameRecords (on_cloud s.cloud_repo)

  abbrev pub LocalGrows : World L C O → World L C O → Type 0
  LocalGrows = Grows (on_local s.local_repo)

  abbrev pub CloudGrows : World L C O → World L C O → Type 0
  CloudGrows = Grows (on_cloud s.cloud_repo)

  -- A write to one side leaves the records of the other.
  pub cloud_write :
      (w w' : World L C O) (r : Result RepositoryError C)
      → map_result (λ c. record w { cloud = c }) r ≡ ok w'
      → LocalSame w w'
  unfolding SameRecords on_local repository_on
  cloud_write w w' (ok c) h id =
      let e : record w { cloud = c } ≡ w' = cc h in
      ap (λ v. s.local_repo.get_record_by_id id v.local) (sym e)
  cloud_write w w' (err e) h id = cc

  pub local_write :
      (w w' : World L C O) (r : Result RepositoryError L)
      → map_result (λ l. record w { local = l }) r ≡ ok w'
      → CloudSame w w'
  unfolding SameRecords on_cloud repository_on
  local_write w w' (ok l) h id =
      let e : record w { local = l } ≡ w' = cc h in
      ap (λ v. s.cloud_repo.get_record_by_id id v.cloud) (sym e)
  local_write w w' (err e) h id = cc

  cloud_Writes : Writes LocalSame (on_cloud s.cloud_repo)
  unfolding on_cloud repository_on
  cloud_Writes = record {
    create_figure = λ i w w'. cloud_write w w' _;
    update_figure = λ i w w'. cloud_write w w' _;
    delete_figure = λ i w w'. cloud_write w w' _;
    create_data_file = λ i w w'. cloud_write w w' _;
    update_data_file = λ i w w'. cloud_write w w' _;
    delete_data_file = λ i w w'. cloud_write w w' _;
    upsert_project = λ i w w'. cloud_write w w' _;
    upsert_device = λ i w w'. cloud_write w w' _;
    upsert_path = λ i w w'. cloud_write w w' _;
  }

  local_Writes : Writes CloudSame (on_local s.local_repo)
  unfolding on_local repository_on
  local_Writes = record {
    create_figure = λ i w w'. local_write w w' _;
    update_figure = λ i w w'. local_write w w' _;
    delete_figure = λ i w w'. local_write w w' _;
    create_data_file = λ i w w'. local_write w w' _;
    update_data_file = λ i w w'. local_write w w' _;
    delete_data_file = λ i w w'. local_write w w' _;
    upsert_project = λ i w w'. local_write w w' _;
    upsert_device = λ i w w'. local_write w w' _;
    upsert_path = λ i w w'. local_write w w' _;
  }

  cloud_record :
      (r : Record) (exists : Bool)
      → Keeps LocalSame (apply_record_to (on_cloud s.cloud_repo) r exists)
  unfolding on_cloud repository_on
  cloud_record =
      apply_record_to-Keeps (SameRecords-Order (on_local s.local_repo)) (on_cloud s.cloud_repo)
        (λ i w w'. cloud_write w w' (s.cloud_repo.create_record i w.cloud))
        (λ i w w'. cloud_write w w' (s.cloud_repo.update_record i w.cloud))

  local_record :
      (r : Record) (exists : Bool)
      → Keeps CloudSame (apply_record_to (on_local s.local_repo) r exists)
  unfolding on_local repository_on
  local_record =
      apply_record_to-Keeps (SameRecords-Order (on_cloud s.cloud_repo)) (on_local s.local_repo)
        (λ i w w'. local_write w w' (s.local_repo.create_record i w.local))
        (λ i w w'. local_write w w' (s.local_repo.update_record i w.local))

  -- A push leaves the local records, and a pull the cloud's.
  pub push-LocalSame :
      (since : Time) → Keeps LocalSame (push_changed_records s.local_repo s.cloud_repo s.os since)
  unfolding push_changed_records apply_bundle_to_cloud cloud_rest
  push-LocalSame since =
      let o = SameRecords-Order (on_local s.local_repo) in
      let free = outside_same_local s.local_repo s.cloud_repo s.os in
      sync_changed_records-Keeps o (push s.local_repo s.cloud_repo s.os)
        (λ b e.
          bind-Keeps o (cloud_record b.row (is_given e))
            (λ _. cloud_rest-Keeps s.local_repo s.cloud_repo s.os o free cloud_Writes b e))
        (sync_registries-Keeps o (on_local s.local_repo) (on_cloud s.cloud_repo) cloud_Writes) since

  pub pull-CloudSame :
      (since : Time) → Keeps CloudSame (pull_changed_records s.local_repo s.cloud_repo s.os since)
  unfolding pull_changed_records apply_bundle_to_local local_rest
  pull-CloudSame since =
      let o = SameRecords-Order (on_cloud s.cloud_repo) in
      let free = outside_same_cloud s.local_repo s.cloud_repo s.os in
      sync_changed_records-Keeps o (pull s.local_repo s.cloud_repo s.os)
        (λ b e.
          bind-Keeps o (local_record b.row (is_given e))
            (λ _. local_rest-Keeps s.local_repo s.cloud_repo s.os o free local_Writes b e))
        (sync_registries-Keeps o (on_cloud s.cloud_repo) (on_local s.local_repo) local_Writes) since
