-- ===== src/Sync/Laws.antt =====
-- cli/internal/repository/repository.go: what a sync relies on of a repository.
use personal_context.Base.{
  ◌⊎◌, inl, inr, List, All, ℕ, ◌*◌, ltb, if◌then◌else◌, ◌≤◌, ◌≡◌, ◌≢◌, refl, ap, subst, ◌∙◌, arith,
  Result, ok, err, map_result,
}
use personal_context.Text.{Text}
use personal_context.Time.{Time, truncate_to_millisecond}
use personal_context.Repository.Types.{Record}
use personal_context.Repository.Errors.{RepositoryError}
use personal_context.Repository.Inputs.{
  CreateRecordFigureInput, UpdateRecordFigureInput, CreateRecordDataFileInput,
  UpdateRecordDataFileInput,
}
use personal_context.Repository.Registries.{RegistryRow}
use personal_context.Repository.Interface.{Repository}
use personal_context.Repository.ProjectPaths.{CreateProjectPathInput}
use personal_context.SyncEngine.Resolve.Rank.{rank, rank_at-ge}
use personal_context.Sync.Service.{update_input_of, create_input_of}
use personal_context.Sync.Run.Keeps.{Order}
use personal_context.Sync.World.{repository_on}

-- The rank, but no more than that of a deletion at the time of the run: a record that is updated
-- during the run has that rank at least.
unfoldable pub capped : Time → ℕ → ℕ
capped now n =
    if ltb (truncate_to_millisecond now * 3) n then truncate_to_millisecond now * 3 else n

pub capped-le : (now : Time) (n : ℕ) → capped now n ≤ n
unfolding capped
capped-le now n = ground arith

pub capped_late : (now : Time) (n m : ℕ) → truncate_to_millisecond now * 3 ≤ m → capped now n ≤ m
unfolding capped
capped_late now n m h = ground arith

pub capped_trans : (now : Time) (n m k : ℕ) → capped now n ≤ m → capped now m ≤ k → capped now n ≤ k
unfolding capped
capped_trans now n m k h g = ground arith

-- A record of the rank, or one updated at the time of the run, is as new.
pub capped-rank :
    (now : Time) (r row : Record)
    → (rank row ≡ rank r) ⊎ (truncate_to_millisecond row.updated_at ≡ truncate_to_millisecond now)
    → capped now (rank r) ≤ rank row
unfolding rank
capped-rank now r row (inl same) = omega (arith, capped-le now (rank r), same)
capped-rank now r row (inr e) =
    capped_late now (rank r) (rank row)
      (omega (arith, rank_at-ge (truncate_to_millisecond row.updated_at) row.deleted_at, e))

module _ {W : Type 0} (target : Repository W) where
  -- The repository has a record of the id, of at least the rank, or one updated during the run.
  pub record IsCovered (id : Text) (n : ℕ) (w : W) : Type 0 where
    pub row : Record
    pub there : target.get_record_by_id id w ≡ ok row
    pub as_new : capped target.now n ≤ rank row

  abbrev pub AllCovered : List Record → W → Type 0
  AllCovered records w = All (λ r. IsCovered r.id (rank r) w) records

  -- No record is lost, and none becomes older.
  unfoldable pub Grows : W → W → Type 0
  Grows w w' = (id : Text) (n : ℕ) → IsCovered id n w → IsCovered id n w'

  pub Grows-Order : Order Grows
  unfolding Grows
  Grows-Order = record { here = λ w id n c. c; both = λ h k id n c. k id n (h id n c) }

  -- The records stay as they are.
  unfoldable pub SameRecords : W → W → Type 0
  SameRecords w w' = (id : Text) → target.get_record_by_id id w' ≡ target.get_record_by_id id w

  pub SameRecords-Order : Order SameRecords
  unfolding SameRecords
  SameRecords-Order = record { here = λ w id. refl; both = λ h k id. k id ∙ h id }

  pub Grows-SameRecords : (w w' : W) → SameRecords w w' → Grows w w'
  unfolding SameRecords Grows
  Grows-SameRecords w w' same id n c = record {
    row = c.row;
    there = same id ∙ c.there;
    as_new = c.as_new;
  }

  -- The record is there, of its rank or updated at the time of the run, and the others are as
  -- they were.
  pub record IsPut (r : Record) (w w' : W) : Type 0 where
    pub row : Record
    pub there : target.get_record_by_id r.id w' ≡ ok row
    pub times :
        (rank row ≡ rank r)
        ⊎ (truncate_to_millisecond row.updated_at ≡ truncate_to_millisecond target.now)
    pub others :
        (id : Text) → id ≢ r.id → target.get_record_by_id id w' ≡ target.get_record_by_id id w

-- The writes to records put the record of their input, and the other writes of a sync leave the
-- records as they are.
pub record RepositoryLaws {S : Type 0} (repo : Repository S) : Type 0 where
  pub create_puts :
      (r : Record) (s s' : S) → repo.create_record (create_input_of r) s ≡ ok s' → IsPut repo r s s'
  pub update_puts :
      (r : Record) (s s' : S) → repo.update_record (update_input_of r) s ≡ ok s' → IsPut repo r s s'
  pub create_figure_same :
      (i : CreateRecordFigureInput) (s s' : S)
      → repo.create_record_figure i s ≡ ok s'
      → SameRecords repo s s'
  pub update_figure_same :
      (i : UpdateRecordFigureInput) (s s' : S)
      → repo.update_record_figure i s ≡ ok s'
      → SameRecords repo s s'
  pub delete_figure_same :
      (id : ℕ) (s s' : S) → repo.delete_record_figure id s ≡ ok s' → SameRecords repo s s'
  pub create_data_file_same :
      (i : CreateRecordDataFileInput) (s s' : S)
      → repo.create_record_data_file i s ≡ ok s'
      → SameRecords repo s s'
  pub update_data_file_same :
      (i : UpdateRecordDataFileInput) (s s' : S)
      → repo.update_record_data_file i s ≡ ok s'
      → SameRecords repo s s'
  pub delete_data_file_same :
      (id : ℕ) (s s' : S) → repo.delete_record_data_file id s ≡ ok s' → SameRecords repo s s'
  pub upsert_project_same :
      (p : RegistryRow) (s s' : S)
      → repo.upsert_project_for_import p s ≡ ok s'
      → SameRecords repo s s'
  pub upsert_device_same :
      (p : RegistryRow) (s s' : S)
      → repo.upsert_device_for_import p s ≡ ok s'
      → SameRecords repo s s'
  pub upsert_path_same :
      (p : CreateProjectPathInput) (s s' : S)
      → repo.upsert_project_path p s ≡ ok s'
      → SameRecords repo s s'

-- The writes of a repository, but for those to records, stand in a relation to the state before.
pub record Writes {W : Type 0} (R : W → W → Type 0) (repo : Repository W) : Type 0 where
  pub create_figure :
      (i : CreateRecordFigureInput) (w w' : W) → repo.create_record_figure i w ≡ ok w' → R w w'
  pub update_figure :
      (i : UpdateRecordFigureInput) (w w' : W) → repo.update_record_figure i w ≡ ok w' → R w w'
  pub delete_figure : (id : ℕ) (w w' : W) → repo.delete_record_figure id w ≡ ok w' → R w w'
  pub create_data_file :
      (i : CreateRecordDataFileInput) (w w' : W) → repo.create_record_data_file i w ≡ ok w' → R w w'
  pub update_data_file :
      (i : UpdateRecordDataFileInput) (w w' : W) → repo.update_record_data_file i w ≡ ok w' → R w w'
  pub delete_data_file : (id : ℕ) (w w' : W) → repo.delete_record_data_file id w ≡ ok w' → R w w'
  pub upsert_project :
      (p : RegistryRow) (w w' : W) → repo.upsert_project_for_import p w ≡ ok w' → R w w'
  pub upsert_device :
      (p : RegistryRow) (w w' : W) → repo.upsert_device_for_import p w ≡ ok w' → R w w'
  pub upsert_path :
      (p : CreateProjectPathInput) (w w' : W) → repo.upsert_project_path p w ≡ ok w' → R w w'

pub laws-Writes :
    {W : Type 0} (repo : Repository W) → RepositoryLaws repo → Writes (SameRecords repo) repo
laws-Writes repo laws = record {
  create_figure = laws.create_figure_same;
  update_figure = laws.update_figure_same;
  delete_figure = laws.delete_figure_same;
  create_data_file = laws.create_data_file_same;
  update_data_file = laws.update_data_file_same;
  delete_data_file = laws.delete_data_file_same;
  upsert_project = laws.upsert_project_same;
  upsert_device = laws.upsert_device_same;
  upsert_path = laws.upsert_path_same;
}

-- The laws hold on a part of a greater state.
module _ {S W : Type 0} (part : W → S) (put : W → S → W)
    (part-put : (w : W) (s : S) → part (put w s) ≡ s) where
  change-eq-ok :
      (w w' : W) (r : Result RepositoryError S)
      → map_result (put w) r ≡ ok w'
      → (s : S) × (r ≡ ok s) × (part w' ≡ s)
  change-eq-ok w w' (ok s) h = (s, refl, subst (λ v. part v ≡ s) (cc h) (part-put w s))
  change-eq-ok w w' (err e) h = cc

  pub change_same :
      (repo : Repository S) (w w' : W) (r : Result RepositoryError S)
      → ((s : S) → r ≡ ok s → SameRecords repo (part w) s)
      → map_result (put w) r ≡ ok w'
      → SameRecords (repository_on part put repo) w w'
  unfolding repository_on SameRecords
  change_same repo w w' r law h id =
      let (s, e, p) = change-eq-ok w w' r h in ap (repo.get_record_by_id id) p ∙ law s e id

  change_puts :
      (repo : Repository S) (r : Record) (w w' : W) (result : Result RepositoryError S)
      → ((s : S) → result ≡ ok s → IsPut repo r (part w) s)
      → map_result (put w) result ≡ ok w'
      → IsPut (repository_on part put repo) r w w'
  unfolding repository_on
  change_puts repo r w w' result law h =
      let (s, e, p) = change-eq-ok w w' result h in
      let l = law s e in
      record {
        row = l.row;
        there = ap (repo.get_record_by_id r.id) p ∙ l.there;
        times = l.times;
        others = λ id n. ap (repo.get_record_by_id id) p ∙ l.others id n;
      }

  pub repository_on-RepositoryLaws :
      (repo : Repository S) → RepositoryLaws repo → RepositoryLaws (repository_on part put repo)
  unfolding repository_on
  repository_on-RepositoryLaws repo laws = record {
    create_puts = λ r w w'. change_puts repo r w w' _ (laws.create_puts r (part w));
    update_puts = λ r w w'. change_puts repo r w w' _ (laws.update_puts r (part w));
    create_figure_same = λ i w w'. change_same repo w w' _ (laws.create_figure_same i (part w));
    update_figure_same = λ i w w'. change_same repo w w' _ (laws.update_figure_same i (part w));
    delete_figure_same = λ i w w'. change_same repo w w' _ (laws.delete_figure_same i (part w));
    create_data_file_same =
        λ i w w'. change_same repo w w' _ (laws.create_data_file_same i (part w));
    update_data_file_same =
        λ i w w'. change_same repo w w' _ (laws.update_data_file_same i (part w));
    delete_data_file_same =
        λ i w w'. change_same repo w w' _ (laws.delete_data_file_same i (part w));
    upsert_project_same = λ p w w'. change_same repo w w' _ (laws.upsert_project_same p (part w));
    upsert_device_same = λ p w w'. change_same repo w w' _ (laws.upsert_device_same p (part w));
    upsert_path_same = λ p w w'. change_same repo w w' _ (laws.upsert_path_same p (part w));
  }
