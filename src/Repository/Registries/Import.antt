-- ===== src/Repository/Registries/Import.antt =====
-- repository.go: what the import of a project or device leaves in the table, and that it carries
-- the archiving.
use personal_context.Base.{
  ◌<◌, ◌≡◌, refl, sym, ap, ◌∙◌, Bool, true, false, ◌||◌, some, List, [], ◌∷◌, arith, ==→≡, ◌==◌,
  nat_eq, list_eq, ==-refl, inl, inr, Bool-cases, if◌then◌else◌, Result, ok, err, ◌>>=◌, >>=-eq-ok,
}
use personal_context.Text.{Text, trim_space}
use personal_context.Time.{
  Time, truncate_to_millisecond, truncate_to_millisecond_idem, after, is_zero,
}
use personal_context.Repository.Errors.{
  RepositoryError, not_found, conflict, foreign_key, invalid_argument, check_failed, invalid_key,
}
use personal_context.Repository.Columns.{has_length}
use personal_context.Repository.Registries.{
  RegistryRow, select_registry_row, get_registry_row, registry_row_of, create_registry_row,
  change_registry_rows, with_archived_at, touched_row, set_archived_at, archive_registry_row,
  import_input_of, imported, import_over, upsert_for_import,
}
use personal_context.Repository.Registries.Rows.{ltb-true, select-insert, select-change}

-- The row that an import leaves, by the row that there was.
unfoldable pub merged : Time → RegistryRow → Result RepositoryError RegistryRow → RegistryRow
merged now p (ok existing) =
    if after p.updated_at existing.updated_at
    then touched_row now (imported p) existing
    else existing
merged now p (err e) = registry_row_of now (import_input_of p)

create-merged :
    (now : Time) (p : RegistryRow) (rows rows' : List RegistryRow) (e : RepositoryError) (j : Text)
    → create_registry_row now (import_input_of p) rows ≡ ok rows'
    → select_registry_row rows' j
      ≡ (if j == p.id then ok (merged now p (err e)) else select_registry_row rows j)
unfolding create_registry_row merged
create-merged now p rows rows' e j h = elim (Bool-cases (trim_space p.id == [])) [
  | inl b ↦ cc (rw b at h)
  | inr b ↦ elim (Bool-cases (has_length p.id)) [
    | inl c ↦ select-insert (registry_row_of now (import_input_of p)) rows rows' j (rw (b, c) at h)
    | inr c ↦ cc (rw (b, c) at h)
  ]
]

-- Under the id, the row that was selected.
at_id :
    (j id : Text) (rows : List RegistryRow) (existing : RegistryRow) (f : RegistryRow → RegistryRow)
    → select_registry_row rows id ≡ ok existing
    → (if j == id
        then (do p ← select_registry_row rows j; ok (f p))
        else select_registry_row rows j)
      ≡ (if j == id then ok (f existing) else select_registry_row rows j)
at_id j id rows existing f found = elim (Bool-cases (j == id)) [
  | inl e ↦ rw (e, ==→≡ j id e, found) refl
  | inr e ↦ rw e refl
]

kept_at :
    (j id : Text) (rows : List RegistryRow) (existing : RegistryRow)
    → select_registry_row rows id ≡ ok existing
    → select_registry_row rows j ≡ (if j == id then ok existing else select_registry_row rows j)
kept_at j id rows existing found = elim (Bool-cases (j == id)) [
  | inl e ↦ rw (e, ==→≡ j id e, found) refl
  | inr e ↦ rw e refl
]

import_over-merged :
    (now : Time) (p : RegistryRow) (rows rows' : List RegistryRow)
    (found : Result RepositoryError RegistryRow) (wrote : Bool) (j : Text)
    → select_registry_row rows p.id ≡ found
    → import_over now p rows found ≡ ok (rows', wrote)
    → select_registry_row rows' j
      ≡ (if j == p.id then ok (merged now p found) else select_registry_row rows j)
unfolding import_over merged
import_over-merged now p rows rows' (ok existing) wrote j found h =
    elim (Bool-cases (after p.updated_at existing.updated_at)) [
      | inl newer ↦
          let e : rows' ≡ change_registry_rows p.id (touched_row now (imported p)) rows =
            cc (rw newer at h) in
          rw (e, newer)
            (select-change p.id j (touched_row now (imported p)) rows (λ q. refl)
              ∙ at_id j p.id rows existing (touched_row now (imported p)) found)
      | inr older ↦
          let e : rows' ≡ rows = cc (rw older at h) in
          rw (e, older) (kept_at j p.id rows existing found)
    ]
import_over-merged now p rows rows' (err not_found) wrote j found h =
    let (made, created, e) =
      >>=-eq-ok (create_registry_row now (import_input_of p) rows) (λ made. ok (made, true)) h in
    create-merged now p rows rows' not_found j (cc (created, e))
import_over-merged now p rows rows' (err conflict) wrote j found h = cc
import_over-merged now p rows rows' (err foreign_key) wrote j found h = cc
import_over-merged now p rows rows' (err invalid_argument) wrote j found h = cc
import_over-merged now p rows rows' (err check_failed) wrote j found h = cc
import_over-merged now p rows rows' (err (invalid_key k)) wrote j found h = cc

-- A project or device that may be imported: its id is not blank, and its times are set.
unfoldable pub IsImportable : RegistryRow → Type 0
IsImportable p = (trim_space p.id == [] || is_zero p.created_at || is_zero p.updated_at) ≡ false

get-select :
    (p : RegistryRow) (rows : List RegistryRow)
    → IsImportable p
    → get_registry_row p.id rows ≡ select_registry_row rows p.id
unfolding get_registry_row IsImportable
get-select p rows h = elim (Bool-cases (trim_space p.id == [])) [
  | inl e ↦ cc (rw e at h)
  | inr e ↦ rw e refl
]

importable :
    (now : Time) (p : RegistryRow) (rows rows' : List RegistryRow) (wrote : Bool)
    → upsert_for_import now p rows ≡ ok (rows', wrote)
    → IsImportable p
unfolding upsert_for_import IsImportable
importable now p rows rows' wrote h =
    elim (Bool-cases (trim_space p.id == [] || is_zero p.created_at || is_zero p.updated_at)) [
      | inl e ↦ cc (rw e at h)
      | inr e ↦ e
    ]

upsert-over :
    (now : Time) (p : RegistryRow) (rows : List RegistryRow)
    → IsImportable p
    → upsert_for_import now p rows ≡ import_over now p rows (select_registry_row rows p.id)
unfolding upsert_for_import IsImportable
upsert-over now p rows h = rw (h, get-select p rows h) refl

-- A successful import leaves under the row's id the row as it is stored, with its times in
-- milliseconds, if there was none or an older one, and else the row that was there; the rows under
-- the other ids stay. Over a row of the same millisecond the time of the update is the present.
pub select-upsert_for_import :
    (now : Time) (p : RegistryRow) (rows rows' : List RegistryRow) (wrote : Bool) (j : Text)
    → upsert_for_import now p rows ≡ ok (rows', wrote)
    → select_registry_row rows' j ≡ (
        if j == p.id
        then ok (merged now p (select_registry_row rows p.id))
        else select_registry_row rows j)
select-upsert_for_import now p rows rows' wrote j h =
    import_over-merged now p rows rows' (select_registry_row rows p.id) wrote j refl
      (sym (upsert-over now p rows (importable now p rows rows' wrote h)) ∙ h)

select-registry_id :
    (id : Text) (rows : List RegistryRow) {p : RegistryRow}
    → select_registry_row rows id ≡ ok p
    → p.id ≡ id
unfolding select_registry_row
select-registry_id id [] h = cc
select-registry_id id (r ∷ rows) {p} h = ground (arith, select-registry_id id rows {p = p})

-- An archived row that is newer than the one that was found is merged as it is.
merged-archived :
    (now now' : Time) (p : RegistryRow) (found : Result RepositoryError RegistryRow)
    → p.updated_at ≡ truncate_to_millisecond now
    → p.archived_at ≡ some (truncate_to_millisecond now)
    → ((old : RegistryRow) → found ≡ ok old → old.updated_at < truncate_to_millisecond now)
    → (merged now' p found).archived_at ≡ some (truncate_to_millisecond now)
unfolding merged
merged-archived now now' p (err e) updated marked older =
    rw (marked, truncate_to_millisecond_idem now) refl
merged-archived now now' p (ok old) updated marked older =
    let newer : after p.updated_at old.updated_at ≡ true =
      rw updated (ltb-true old.updated_at (truncate_to_millisecond now) (older old refl)) in
    rw (newer, marked, truncate_to_millisecond_idem now) refl

-- What archiving leaves under the id: the time of the update is that of the archiving.
select-archive :
    (now : Time) (id : Text) (rows rows' : List RegistryRow) (p : RegistryRow)
    → archive_registry_row now id rows ≡ ok rows'
    → select_registry_row rows' id ≡ ok p
    → (p.id ≡ id)
      × (p.updated_at ≡ truncate_to_millisecond now)
      × (p.archived_at ≡ some (truncate_to_millisecond now))
unfolding archive_registry_row set_archived_at
select-archive now id rows rows' p h found = elim (Bool-cases (trim_space id == [])) [
  | inl e ↦ cc (rw e at h)
  | inr e ↦
      let change = touched_row now (with_archived_at (some (truncate_to_millisecond now))) in
      let (q, was, put) =
        >>=-eq-ok (select_registry_row rows id) (λ _. ok (change_registry_rows id change rows))
          (rw e at h) in
      let changed : rows' ≡ change_registry_rows id change rows = cc put in
      let there : select_registry_row rows' id ≡ ok (change q) =
        rw changed (select-change id id change rows (λ r. refl) ∙ rw (==-refl id, was) refl) in
      let same : p ≡ change q = cc (there, found) in
      (
        select-registry_id id rows' found,
        ap (λ r. r.updated_at) same ∙ rw (==-refl q.updated_at) refl,
        ap (λ r. r.archived_at) same,
      )
]

-- An archived project or device is archived in every copy that imports it, if the copy has the row
-- as it was last updated before the millisecond of the archiving, or not at all.
pub archive-imported :
    (now now' : Time) (id : Text) (rows rows' target target' : List RegistryRow) (p : RegistryRow)
    (wrote : Bool)
    → archive_registry_row now id rows ≡ ok rows'
    → select_registry_row rows' id ≡ ok p
    → ((old : RegistryRow)
        → select_registry_row target p.id ≡ ok old
        → old.updated_at < truncate_to_millisecond now)
    → upsert_for_import now' p target ≡ ok (target', wrote)
    → (q : RegistryRow) × (select_registry_row target' p.id ≡ ok q)
      × (q.archived_at ≡ some (truncate_to_millisecond now))
archive-imported now now' id rows rows' target target' p wrote archived found older h =
    let (_, updated, marked) = select-archive now id rows rows' p archived found in
    (
      merged now' p (select_registry_row target p.id),
      select-upsert_for_import now' p target target' wrote p.id h ∙ rw (==-refl p.id) refl,
      merged-archived now now' p (select_registry_row target p.id) updated marked older,
    )
