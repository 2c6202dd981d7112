-- ===== src/Sync/LocalDatabase.antt =====
-- cli/internal/repository/sqlite/repository.go: the local database keeps the laws that a sync relies
-- on.
use personal_context.Base.{
  ◌≡◌, ◌≢◌, refl, sym, ap, subst, ◌∙◌, Bool, true, false, List, [], ok, err, Result, map_result,
  list_eq, nat_eq, ≢→==,
}
use personal_context.Text.{Text, trim_space}
use personal_context.Time.{Time}
use personal_context.Repository.Types.{Record}
use personal_context.Repository.Errors.{RepositoryError}
use personal_context.Repository.Records.{
  RecordTable, select_record, get_record_by_id, create_record, update_record,
}
use personal_context.Repository.Records.Laws.{select-record_of, select-touched}
use personal_context.Repository.Database.{Database, record_table, sqlite_repository, with_records}
use personal_context.Sync.Service.{
  write_record, write_record-IsWritten, create_input_of, update_input_of,
}
use personal_context.Sync.Laws.{SameRecords, IsPut, RepositoryLaws}

map_result-eq-ok :
    {E : Type 0} {A B : Type 0} (f : A → B) (r : Result E A) {b : B}
    → map_result f r ≡ ok b
    → (a : A) × (r ≡ ok a) × (f a ≡ b)
map_result-eq-ok f (ok a) h = (a, refl, cc h)
map_result-eq-ok f (err e) h = cc

module _ (search : Text → List Record → List Record) (now : Time) where
  abbrev db_get : Text → Database → Result RepositoryError Record
  db_get id db = get_record_by_id id (record_table db)

  same_rows :
      (id : Text) (db db' : Database) → db'.records ≡ db.records → db_get id db' ≡ db_get id db
  unfolding get_record_by_id
  same_rows id db db' e = rw e refl

  get-select :
      (id : Text) (db : Database) {r : Record}
      → trim_space id ≢ []
      → select_record db.records id ≡ ok r
      → db_get id db ≡ ok r
  unfolding get_record_by_id
  get-select id db given found = rw (≢→== (trim_space id) [] given) found

  same_select :
      (id : Text) (db db' : Database)
      → select_record db'.records id ≡ select_record db.records id
      → db_get id db' ≡ db_get id db
  unfolding get_record_by_id
  same_select id db db' e = rw e refl

  -- A write that leaves the rows of `records`.
  other_table :
      {A : Type 0} (db db' : Database) (put : A → Database) (r : Result RepositoryError A)
      → ((a : A) → (put a).records ≡ db.records)
      → map_result put r ≡ ok db'
      → SameRecords (sqlite_repository search now) db db'
  unfolding SameRecords sqlite_repository
  other_table db db' put r same h id =
      let (a, _, e) = map_result-eq-ok put r h in
      same_rows id db db' (subst (λ d. d.records ≡ db.records) e (same a))

  written-IsPut :
      (r : Record) (exists : Bool) (db db' : Database) (t : RecordTable)
      → write_record now r exists (record_table db) ≡ ok t
      → db'.records ≡ t.rows
      → ((j : Text) → j ≢ r.id → select_record t.rows j ≡ select_record db.records j)
      → IsPut (sqlite_repository search now) r db db'
  unfolding sqlite_repository
  written-IsPut r exists db db' t h rows others =
      let w = write_record-IsWritten now r exists (record_table db) t h in
      record {
        row = w.row;
        there = get-select r.id db' w.id_given (ap (λ l. select_record l r.id) rows ∙ w.stored);
        times = w.times;
        others = λ j n. same_select j db db' (ap (λ l. select_record l j) rows ∙ others j n);
      }

  create-others :
      (r : Record) (t t' : RecordTable) (j : Text)
      → create_record now (create_input_of r) t ≡ ok t'
      → j ≢ r.id
      → select_record t'.rows j ≡ select_record t.rows j
  create-others r t t' j h n =
      (select-record_of now (create_input_of r) t t' j h).1 ∙ rw (≢→== j r.id n) refl

  update-others :
      (r : Record) (t t' : RecordTable) (j : Text)
      → update_record now (update_input_of r) t ≡ ok t'
      → j ≢ r.id
      → select_record t'.rows j ≡ select_record t.rows j
  update-others r t t' j h n =
      select-touched now (update_input_of r) t t' j h ∙ rw (≢→== j r.id n) refl

  create-IsPut :
      (r : Record) (db db' : Database)
      → map_result
          (with_records search now r.id db)
          (create_record now (create_input_of r) (record_table db))
        ≡ ok db'
      → IsPut (sqlite_repository search now) r db db'
  unfolding write_record
  create-IsPut r db db' h =
      let (t, made, e) = map_result-eq-ok (with_records search now r.id db) _ h in
      written-IsPut r false db db' t made (sym (ap (λ d. d.records) e))
        (λ j. create-others r (record_table db) t j made)

  update-IsPut :
      (r : Record) (db db' : Database)
      → map_result
          (with_records search now r.id db)
          (update_record now (update_input_of r) (record_table db))
        ≡ ok db'
      → IsPut (sqlite_repository search now) r db db'
  unfolding write_record
  update-IsPut r db db' h =
      let (t, made, e) = map_result-eq-ok (with_records search now r.id db) _ h in
      written-IsPut r true db db' t made (sym (ap (λ d. d.records) e))
        (λ j. update-others r (record_table db) t j made)

  -- The local database, with any full-text search and at any time, keeps the laws: a write of a
  -- record leaves a record under its id, of its rank or with the millisecond of the write as
  -- the time of its update, and leaves the records of other ids; writes to the other tables leave the records as they are.
  pub sqlite_repository-RepositoryLaws : RepositoryLaws (sqlite_repository search now)
  unfolding sqlite_repository
  sqlite_repository-RepositoryLaws = record {
    create_puts = create-IsPut;
    update_puts = update-IsPut;
    create_figure_same = λ i db db'. other_table db db' _ _ (λ t. refl);
    update_figure_same = λ i db db'. other_table db db' _ _ (λ t. refl);
    delete_figure_same = λ i db db'. other_table db db' _ _ (λ t. refl);
    create_data_file_same = λ i db db'. other_table db db' _ _ (λ t. refl);
    update_data_file_same = λ i db db'. other_table db db' _ _ (λ t. refl);
    delete_data_file_same = λ i db db'. other_table db db' _ _ (λ t. refl);
    upsert_project_same = λ p db db'. other_table db db' _ _ (λ t. refl);
    upsert_device_same = λ p db db'. other_table db db' _ _ (λ t. refl);
    upsert_path_same = λ p db db'. other_table db db' _ _ (λ t. refl);
  }
