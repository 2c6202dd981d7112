-- ===== src/Repository/Records/Laws.antt =====
-- repository.go: what the writes to `records` leave in the table.
use personal_context.Base.{
  ◌≡◌, ◌≢◌, refl, ap, ◌∙◌, false, List, [], ◌∷◌, ◌++◌, arith, ◌==◌, nat_eq, list_eq, inl, inr, ==→≢,
  Result-cases, if◌then◌else◌, ok, err, ◌>>=◌,
}
use personal_context.Text.{Text, trim_space}
use personal_context.Time.{Time}
use personal_context.Repository.Types.{Record}
use personal_context.Repository.Inputs.{CreateRecordInput, UpdateRecordInput}
use personal_context.Repository.Errors.{not_found}
use personal_context.Repository.Records.{
  RecordTable, is_stored, select_record, change_record, touched, change_rows, drop_rows,
  update_record, update_lacks, create_lacks, create_record, insert_record, record_of,
}

pub select-id :
    (id : Text) (rows : List Record) {r : Record} → select_record rows id ≡ ok r → r.id ≡ id
unfolding select_record
select-id id [] h = cc
select-id id (r ∷ rows) {r = found} h = ground (arith, select-id id rows {r = found})

pub select-change_rows :
    (id j : Text) (change : Record → Record) (rows : List Record)
    → ((r : Record) → (change r).id ≡ r.id)
    → select_record (change_rows id change rows) j
      ≡ (if j == id then (do r ← select_record rows j; ok (change r)) else select_record rows j)
unfolding select_record change_rows
select-change_rows id j change [] keeps = ground arith
select-change_rows id j change (r ∷ rs) keeps =
    ground (arith, select-change_rows id j change rs keeps, keeps r)

pub select-drop_rows :
    (id j : Text) (rows : List Record)
    → select_record (drop_rows id rows) j
      ≡ (if j == id then err not_found else select_record rows j)
unfolding select_record drop_rows
select-drop_rows id j [] = ground arith
select-drop_rows id j (r ∷ rs) = ground (arith, select-drop_rows id j rs)

pub select-append :
    (row : Record) (rows : List Record) (j : Text)
    → is_stored row.id rows ≡ false
    → select_record (rows ++ row ∷ []) j ≡ (if j == row.id then ok row else select_record rows j)
unfolding select_record is_stored
select-append row [] j h = ground arith
select-append row (r ∷ rs) j h = ground (arith, select-append row rs j)

pub update_record-rows :
    (now : Time) (input : UpdateRecordInput) (t t' : RecordTable)
    → update_record now input t ≡ ok t'
    → t'.rows ≡ change_rows input.id (touched now (change_record input)) t.rows
unfolding update_record
update_record-rows now input t t' h = ground arith

-- A successful update changes the record of its id, and no other.
pub select-touched :
    (now : Time) (input : UpdateRecordInput) (t t' : RecordTable) (j : Text)
    → update_record now input t ≡ ok t'
    → select_record t'.rows j ≡ (
        if j == input.id
        then (do r ← select_record t.rows j; ok (touched now (change_record input) r))
        else select_record t.rows j)
select-touched now input t t' j h =
    ap (λ rows. select_record rows j) (update_record-rows now input t t' h)
    ∙ select-change_rows input.id j (touched now (change_record input)) t.rows (λ r. refl)

-- A successful creation, whose id was new.
pub record IsCreated (row : Record) (t t' : RecordTable) : Type 0 where
  pub fresh : is_stored row.id t.rows ≡ false
  pub added : t'.rows ≡ t.rows ++ row ∷ []

insert_record-IsCreated :
    (row : Record) (t t' : RecordTable) → insert_record row t ≡ ok t' → IsCreated row t t'
unfolding insert_record
insert_record-IsCreated row t t' h = record { fresh = ground arith; added = ground arith }

create_record-insert :
    (now : Time) (input : CreateRecordInput) (t t' : RecordTable)
    → create_record now input t ≡ ok t'
    → insert_record (record_of now input) t ≡ ok t'
unfolding create_record
create_record-insert now input t t' h = ground arith

pub create_record-IsCreated :
    (now : Time) (input : CreateRecordInput) (t t' : RecordTable)
    → create_record now input t ≡ ok t'
    → IsCreated (record_of now input) t t'
create_record-IsCreated now input t t' h =
    insert_record-IsCreated (record_of now input) t t' (create_record-insert now input t t' h)

-- A successful creation adds the row of its input, whose id was new.
pub select-record_of :
    (now : Time) (input : CreateRecordInput) (t t' : RecordTable) (j : Text)
    → create_record now input t ≡ ok t'
    → (is_stored input.id t.rows ≡ false)
      × (select_record t'.rows j
          ≡ (if j == input.id then ok (record_of now input) else select_record t.rows j))
select-record_of now input t t' j h =
    let c = create_record-IsCreated now input t t' h in
    (c.fresh, rw c.added (select-append (record_of now input) t.rows j c.fresh))

-- What a successful write has been given.
pub update_record-given :
    (now : Time) (input : UpdateRecordInput) (t t' : RecordTable)
    → update_record now input t ≡ ok t'
    → trim_space input.id ≢ []
unfolding update_record update_lacks
update_record-given now input t t' h = ==→≢ (trim_space input.id) [] (ground arith)

pub create_record-given :
    (now : Time) (input : CreateRecordInput) (t t' : RecordTable)
    → create_record now input t ≡ ok t'
    → trim_space input.id ≢ []
unfolding create_record create_lacks
create_record-given now input t t' h = ==→≢ (trim_space input.id) [] (ground arith)

pub update_record-found :
    (now : Time) (input : UpdateRecordInput) (t t' : RecordTable)
    → update_record now input t ≡ ok t'
    → (r : Record) × (select_record t.rows input.id ≡ ok r)
unfolding update_record
update_record-found now input t t' h = elim (Result-cases (select_record t.rows input.id)) [
  | inl found ↦ found
  | inr (e, missing) ↦ absurd (ground arith)
]
