-- ===== src/Sync/Cycle/Sound.antt =====
-- service.go: what a push and a pull do to the records of their target.
use personal_context.Base.{
  ◌≡◌, refl, List, Option, ok, err, passed, inl, inr, Result, map_result, ap, sym,
}
use personal_context.Time.{Time}
use personal_context.Repository.Types.{Record}
use personal_context.Repository.Errors.{RepositoryError}
use personal_context.Repository.Interface.{Repository}
use personal_context.SyncEngine.Resolve.{filter_records_updated_since}
use personal_context.Sync.Bundle.{RecordBundle}
use personal_context.Sync.Outside.{Outside}
use personal_context.Sync.Run.{Run, ◌>>◌}
use personal_context.Sync.Run.Keeps.{Order, Keeps, bind-Keeps}
use personal_context.Sync.World.{World, on_local, on_cloud, repository_on}
use personal_context.Sync.Laws.{
  AllCovered, Grows-SameRecords, SameRecords, SameRecords-Order, RepositoryLaws,
  repository_on-RepositoryLaws, Writes, laws-Writes,
}
use personal_context.Sync.Apply.{
  is_given, figures_of, data_files_of_bundle, apply_bundle_to_local, apply_bundle_to_cloud,
  apply_figures_to_local, apply_data_files_to_local, apply_figures_to_cloud,
  apply_data_files_to_cloud,
}
use personal_context.Sync.Apply.Keeps.{
  outside_same_local, outside_same_cloud, apply_figures_to_local-Keeps,
  apply_data_files_to_local-Keeps, apply_figures_to_cloud-Keeps, apply_data_files_to_cloud-Keeps,
}
use personal_context.Sync.Apply.Records.{put_then-covers, put_then-grows}
use personal_context.Sync.Pass.{every_record}
use personal_context.Sync.Pass.Grows.{IsSound, Registers}
use personal_context.Sync.Pass.Covers.{sync_changed_records-covers}
use personal_context.Sync.Cycle.{push, pull, pull_changed_records}

module _ {L C O : Type 0} (local_repo : Repository L) (cloud_repo : Repository C)
    (os : Outside O) where
  pub on_local-RepositoryLaws :
      RepositoryLaws local_repo → RepositoryLaws (on_local {C = C} {O = O} local_repo)
  unfolding on_local
  on_local-RepositoryLaws laws = repository_on-RepositoryLaws _ _ (λ w s. refl) local_repo laws

  pub on_cloud-RepositoryLaws :
      RepositoryLaws cloud_repo → RepositoryLaws (on_cloud {L = L} {O = O} cloud_repo)
  unfolding on_cloud
  on_cloud-RepositoryLaws laws = repository_on-RepositoryLaws _ _ (λ w s. refl) cloud_repo laws

  -- What follows the record in the application of a bundle.
  unfoldable pub local_rest : RecordBundle → Option RecordBundle → Run (World L C O) (Unit {0})
  local_rest b e = do
    apply_figures_to_local local_repo cloud_repo os b.row.id b.figures (figures_of e)
    apply_data_files_to_local local_repo cloud_repo os b.row.id b.data_files
        (data_files_of_bundle e)

  unfoldable pub cloud_rest : RecordBundle → Option RecordBundle → Run (World L C O) (Unit {0})
  cloud_rest b e = do
    apply_figures_to_cloud local_repo cloud_repo os b.row.id b.figures (figures_of e)
    apply_data_files_to_cloud local_repo cloud_repo os b.row.id b.data_files
        (data_files_of_bundle e)

  module _ {R : World L C O → World L C O → Type 0} (o : Order R)
      (free : (w : World L C O) (outside : O) → R w (record w { outside = outside })) where
    pub local_rest-Keeps :
        Writes R (on_local {C = C} {O = O} local_repo)
        → (b : RecordBundle) (e : Option RecordBundle) → Keeps R (local_rest b e)
    unfolding local_rest
    local_rest-Keeps writes b e =
        bind-Keeps o
          (apply_figures_to_local-Keeps local_repo cloud_repo os o free writes b.row.id b.figures
            (figures_of e))
          (λ _.
            apply_data_files_to_local-Keeps local_repo cloud_repo os o free writes b.row.id
              b.data_files (data_files_of_bundle e))

    pub cloud_rest-Keeps :
        Writes R (on_cloud {L = L} {O = O} cloud_repo)
        → (b : RecordBundle) (e : Option RecordBundle) → Keeps R (cloud_rest b e)
    unfolding cloud_rest
    cloud_rest-Keeps writes b e =
        bind-Keeps o
          (apply_figures_to_cloud-Keeps local_repo cloud_repo os o free writes b.row.id b.figures
            (figures_of e))
          (λ _.
            apply_data_files_to_cloud-Keeps local_repo cloud_repo os o free writes b.row.id
              b.data_files (data_files_of_bundle e))

  local_rest_same :
      RepositoryLaws (on_local {C = C} {O = O} local_repo)
      → (b : RecordBundle) (e : Option RecordBundle)
      → Keeps (SameRecords (on_local local_repo)) (local_rest b e)
  local_rest_same laws =
      local_rest-Keeps (SameRecords-Order (on_local local_repo))
        (outside_same_local local_repo cloud_repo os) (laws-Writes (on_local local_repo) laws)

  cloud_rest_same :
      RepositoryLaws (on_cloud {L = L} {O = O} cloud_repo)
      → (b : RecordBundle) (e : Option RecordBundle)
      → Keeps (SameRecords (on_cloud cloud_repo)) (cloud_rest b e)
  cloud_rest_same laws =
      cloud_rest-Keeps (SameRecords-Order (on_cloud cloud_repo))
        (outside_same_cloud local_repo cloud_repo os) (laws-Writes (on_cloud cloud_repo) laws)

  local-Registers :
      (w w' : World L C O) (r : Result RepositoryError L)
      → SameRecords (on_local local_repo) w w'
      → map_result (λ s. record w { local = s }) r ≡ ok w'
      → Registers (pull local_repo cloud_repo os) w w'
  unfolding Registers on_cloud repository_on
  local-Registers w w' (ok s) same h =
      let e : record w { local = s } ≡ w' = cc h in
      (
        Grows-SameRecords (on_local local_repo) w w' same,
        λ f. ap (λ v. cloud_repo.list_records f v.cloud) (sym e),
      )
  local-Registers w w' (err e) same h = cc

  cloud-Registers :
      (w w' : World L C O) (r : Result RepositoryError C)
      → SameRecords (on_cloud cloud_repo) w w'
      → map_result (λ s. record w { cloud = s }) r ≡ ok w'
      → Registers (push local_repo cloud_repo os) w w'
  unfolding Registers on_local repository_on
  cloud-Registers w w' (ok s) same h =
      let e : record w { cloud = s } ≡ w' = cc h in
      (
        Grows-SameRecords (on_cloud cloud_repo) w w' same,
        λ f. ap (λ v. local_repo.list_records f v.local) (sym e),
      )
  cloud-Registers w w' (err e) same h = cc

  pub pull-IsSound : RepositoryLaws local_repo → IsSound (pull local_repo cloud_repo os)
  unfolding apply_bundle_to_local local_rest on_local repository_on
  pull-IsSound given =
      let laws = on_local-RepositoryLaws given in
      record {
        sided = inr refl;
        apply_covers = λ b e w w'.
            put_then-covers (on_local local_repo) laws (local_rest b e) (local_rest_same laws b e)
              b.row (is_given e) w w';
        apply_grows = λ b e w.
            put_then-grows (on_local local_repo) laws (local_rest b e) (local_rest_same laws b e)
              b.row (is_given e) w;
        project_registers =
            λ p w w' h. local-Registers w w' _ (laws.upsert_project_same p w w' h) h;
        device_registers = λ p w w' h. local-Registers w w' _ (laws.upsert_device_same p w w' h) h;
        path_registers = λ p w w' h. local-Registers w w' _ (laws.upsert_path_same p w w' h) h;
      }

  pub push-IsSound : RepositoryLaws cloud_repo → IsSound (push local_repo cloud_repo os)
  unfolding apply_bundle_to_cloud cloud_rest on_cloud repository_on
  push-IsSound given =
      let laws = on_cloud-RepositoryLaws given in
      record {
        sided = inl refl;
        apply_covers = λ b e w w'.
            put_then-covers (on_cloud cloud_repo) laws (cloud_rest b e) (cloud_rest_same laws b e)
              b.row (is_given e) w w';
        apply_grows = λ b e w.
            put_then-grows (on_cloud cloud_repo) laws (cloud_rest b e) (cloud_rest_same laws b e)
              b.row (is_given e) w;
        project_registers =
            λ p w w' h. cloud-Registers w w' _ (laws.upsert_project_same p w w' h) h;
        device_registers = λ p w w' h. cloud-Registers w w' _ (laws.upsert_device_same p w w' h) h;
        path_registers = λ p w w' h. cloud-Registers w w' _ (laws.upsert_path_same p w w' h) h;
      }

  -- If the local repository keeps the laws, a pull that succeeds has listed the records of the cloud
  -- and leaves, for each of them that was not updated before the cursor, a local record of that id
  -- whose rank is at least its own, or at least that of a deletion at the time of the run.
  pub pull_changed_records-covers :
      RepositoryLaws local_repo
      → (since : Time) (w w' : World L C O)
      → pull_changed_records local_repo cloud_repo os since w ≡ (w', passed)
      → (records : List Record) × (cloud_repo.list_records every_record w.cloud ≡ ok records)
        × AllCovered (on_local local_repo) (filter_records_updated_since records since) w'
  unfolding pull_changed_records on_cloud repository_on
  pull_changed_records-covers laws since w w' h =
      sync_changed_records-covers (pull local_repo cloud_repo os) (pull-IsSound laws) since w w' h
