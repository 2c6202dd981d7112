-- ===== src/Repository/Records/Trash.antt =====
-- repository.go: the trash: soft deletion, restoration and the purge.
use personal_context.Base.{
  ◌≡◌, refl, ap, ◌∙◌, Bool, true, false, none, List, [], ◌∷◌, arith, ◌==◌, nat_eq, list_eq, ==-refl,
  if◌then◌else◌, Result, ok, err, ◌>>=◌,
}
use personal_context.Text.{Text}
use personal_context.Time.{Time, truncate_to_millisecond}
use personal_context.Repository.Types.{Record}
use personal_context.Repository.Errors.{RepositoryError, not_found}
use personal_context.Repository.Records.{
  RecordTable, is_stored, select_record, active_rows, is_deleted, purge_deleted_records,
  soft_delete_record, restore_record, mark_deleted, clear_deleted, touched,
}
use personal_context.Repository.Records.Laws.{select-change_rows}
use personal_context.Repository.Records.Reachable.{
  distinct_ids, purge_deleted_records-rows, change_one-rows,
}

select-fresh :
    (rows : List Record) (j : Text)
    → is_stored j rows ≡ false
    → select_record rows j ≡ err not_found
unfolding select_record is_stored
select-fresh [] j h = refl
select-fresh (r ∷ rs) j h = ground (arith, select-fresh rs j)

abbrev if_active : Record → Result RepositoryError Record
if_active r = if is_deleted r then err not_found else ok r

select-active_rows :
    (rows : List Record) (j : Text)
    → distinct_ids rows ≡ true
    → select_record (active_rows rows) j ≡ (do r ← select_record rows j; if_active r)
unfolding select_record active_rows distinct_ids
select-active_rows [] j d = refl
select-active_rows (r ∷ rs) j d = ground (arith, select-active_rows rs j, select-fresh rs j)

-- In a table where no two records have one id, a purge removes the records that are marked deleted
-- and keeps the others as they are.
pub select-purge_deleted_records :
    (t : RecordTable) (j : Text)
    → distinct_ids t.rows ≡ true
    → select_record (purge_deleted_records t).0.rows j
      ≡ (do r ← select_record t.rows j; (if is_deleted r then err not_found else ok r))
select-purge_deleted_records t j d =
    ap (λ rows. select_record rows j) (purge_deleted_records-rows t) ∙ select-active_rows t.rows j d

-- What a restoration leaves.
abbrev pub restored_at : Time → Record → Record
restored_at now r = record r { updated_at = truncate_to_millisecond now; deleted_at = none }

-- Both changes leave the time of the update, so that each sets it to now.
restored_test :
    (same : Bool) (found : Result RepositoryError Record) (now later : Time)
    → (if same
        then (do
          r ← (if same then (do r ← found; ok (touched now (mark_deleted now) r)) else found)
          ok (touched later clear_deleted r))
        else (if same then (do r ← found; ok (touched now (mark_deleted now) r)) else found))
      ≡ (if same then (do r ← found; ok (restored_at later r)) else found)
restored_test false found now later = refl
restored_test true (ok r) now later =
    rw (==-refl r.updated_at, ==-refl (truncate_to_millisecond now)) refl
restored_test true (err e) now later = refl

-- Restoring a record after its soft deletion brings back the record as it was, now not marked
-- deleted and updated at the time of the restoration; both leave the others.
pub select-restore_record :
    (now later : Time) (id : Text) (t t' t'' : RecordTable) (j : Text)
    → soft_delete_record now id t ≡ ok t'
    → restore_record later id t' ≡ ok t''
    → select_record t''.rows j ≡ (
        if j == id
        then (do r ← select_record t.rows j; ok (restored_at later r))
        else select_record t.rows j)
unfolding soft_delete_record restore_record
select-restore_record now later id t t' t'' j h k =
    ap (λ rows. select_record rows j) (change_one-rows later id clear_deleted t' t'' k)
    ∙ select-change_rows id j (touched later clear_deleted) t'.rows (λ r. refl)
    ∙ rw
        (
          change_one-rows now id (mark_deleted now) t t' h,
          select-change_rows id j (touched now (mark_deleted now)) t.rows (λ r. refl),
        )
        (restored_test (j == id) (select_record t.rows j) now later)
