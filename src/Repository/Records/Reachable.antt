-- ===== src/Repository/Records/Reachable.antt =====
-- repository.go: the states of `records` that the writes lead to.
use personal_context.Base.{
  ◌≡◌, refl, sym, ap, ◌∙◌, Bool, true, false, not, ◌&&◌, ◌||◌, List, [], ◌∷◌, ◌++◌, arith, ◌==◌,
  nat_eq, list_eq, ok,
}
use personal_context.Text.{Text}
use personal_context.Time.{Time}
use personal_context.Repository.Types.{Record}
use personal_context.Repository.Inputs.{CreateRecordInput, UpdateRecordInput}
use personal_context.Repository.Records.{
  RecordTable, is_stored, change_record, touched, change_rows, drop_rows, update_record,
  create_record, record_of, active_rows, deleted_ids, purge, purge_deleted_records,
  soft_delete_record, restore_record, delete_record, mark_deleted, clear_deleted, change_one,
}
use personal_context.Repository.Records.Laws.{create_record-IsCreated, update_record-rows}

-- No two rows have one id.
unfoldable pub distinct_ids : List Record → Bool
distinct_ids [] = true
distinct_ids (r ∷ rs) = not (is_stored r.id rs) && distinct_ids rs

is_stored-append :
    (id : Text) (rows : List Record) (row : Record)
    → is_stored id (rows ++ row ∷ []) ≡ (is_stored id rows || row.id == id)
unfolding is_stored
is_stored-append id [] row = ground arith
is_stored-append id (r ∷ rs) row = ground (arith, is_stored-append id rs row)

distinct_ids-append :
    (rows : List Record) (row : Record)
    → distinct_ids rows ≡ true
    → is_stored row.id rows ≡ false
    → distinct_ids (rows ++ row ∷ []) ≡ true
unfolding distinct_ids is_stored
distinct_ids-append [] row d h = refl
distinct_ids-append (r ∷ rs) row d h =
    ground (arith, is_stored-append r.id rs row, distinct_ids-append rs row)

is_stored-change_rows :
    (id j : Text) (change : Record → Record) (rows : List Record)
    → ((r : Record) → (change r).id ≡ r.id)
    → is_stored j (change_rows id change rows) ≡ is_stored j rows
unfolding is_stored change_rows
is_stored-change_rows id j change [] keeps = refl
is_stored-change_rows id j change (r ∷ rs) keeps =
    ground (arith, is_stored-change_rows id j change rs keeps, keeps r)

distinct_ids-change_rows :
    (id : Text) (change : Record → Record) (rows : List Record)
    → ((r : Record) → (change r).id ≡ r.id)
    → distinct_ids (change_rows id change rows) ≡ distinct_ids rows
unfolding distinct_ids change_rows
distinct_ids-change_rows id change [] keeps = refl
distinct_ids-change_rows id change (r ∷ rs) keeps = ground (
  arith,
  is_stored-change_rows id r.id change rs keeps,
  distinct_ids-change_rows id change rs keeps,
  keeps r,
)

is_stored-drop_rows :
    (id j : Text) (rows : List Record)
    → is_stored j (drop_rows id rows) ≡ true
    → is_stored j rows ≡ true
unfolding is_stored drop_rows
is_stored-drop_rows id j [] h = h
is_stored-drop_rows id j (r ∷ rs) h = ground (arith, is_stored-drop_rows id j rs)

distinct_ids-drop_rows :
    (id : Text) (rows : List Record)
    → distinct_ids rows ≡ true
    → distinct_ids (drop_rows id rows) ≡ true
unfolding distinct_ids drop_rows
distinct_ids-drop_rows id [] d = d
distinct_ids-drop_rows id (r ∷ rs) d =
    ground (arith, is_stored-drop_rows id r.id rs, distinct_ids-drop_rows id rs)

is_stored-active_rows :
    (j : Text) (rows : List Record)
    → is_stored j (active_rows rows) ≡ true
    → is_stored j rows ≡ true
unfolding is_stored active_rows
is_stored-active_rows j [] h = h
is_stored-active_rows j (r ∷ rs) h = ground (arith, is_stored-active_rows j rs)

distinct_ids-active_rows :
    (rows : List Record) → distinct_ids rows ≡ true → distinct_ids (active_rows rows) ≡ true
unfolding distinct_ids active_rows
distinct_ids-active_rows [] d = d
distinct_ids-active_rows (r ∷ rs) d =
    ground (arith, is_stored-active_rows r.id rs, distinct_ids-active_rows rs)

-- Without deleted rows, all rows are active.
active_rows-none : (rows : List Record) → deleted_ids rows ≡ [] → active_rows rows ≡ rows
unfolding active_rows deleted_ids
active_rows-none [] h = refl
active_rows-none (r ∷ rs) h = ground (arith, active_rows-none rs)

purge-rows :
    (ids : List Text) (t : RecordTable)
    → ids ≡ deleted_ids t.rows
    → (purge ids t).0.rows ≡ active_rows t.rows
unfolding purge
purge-rows [] t h = sym (active_rows-none t.rows (sym h))
purge-rows (id ∷ ids) t h = refl

pub purge_deleted_records-rows :
    (t : RecordTable) → (purge_deleted_records t).0.rows ≡ active_rows t.rows
unfolding purge_deleted_records
purge_deleted_records-rows t = purge-rows (deleted_ids t.rows) t refl

pub change_one-rows :
    (now : Time) (id : Text) (change : Record → Record) (t t' : RecordTable)
    → change_one now id change t ≡ ok t'
    → t'.rows ≡ change_rows id (touched now change) t.rows
unfolding change_one
change_one-rows now id change t t' h = ground arith

pub delete_record-rows :
    (id : Text) (t t' : RecordTable) → delete_record id t ≡ ok t' → t'.rows ≡ drop_rows id t.rows
unfolding delete_record
delete_record-rows id t t' h = ground arith

-- One successful write.
pub data Step (t t' : RecordTable) : Type 0 where
  created : (now : Time) (input : CreateRecordInput) → create_record now input t ≡ ok t' → Step t t'
  updated : (now : Time) (input : UpdateRecordInput) → update_record now input t ≡ ok t' → Step t t'
  soft_deleted : (now : Time) (id : Text) → soft_delete_record now id t ≡ ok t' → Step t t'
  restored : (now : Time) (id : Text) → restore_record now id t ≡ ok t' → Step t t'
  deleted : (id : Text) → delete_record id t ≡ ok t' → Step t t'
  purged : t' ≡ (purge_deleted_records t).0 → Step t t'

pub data Steps (t : RecordTable) : RecordTable → Type 0 where
  done : Steps t t
  more : {u v : RecordTable} → Steps t u → Step u v → Steps t v

changed-distinct_ids :
    (id : Text) (change : Record → Record) (t t' : RecordTable)
    → ((r : Record) → (change r).id ≡ r.id)
    → t'.rows ≡ change_rows id change t.rows
    → distinct_ids t.rows ≡ true
    → distinct_ids t'.rows ≡ true
changed-distinct_ids id change t t' keeps e d =
    ap distinct_ids e ∙ distinct_ids-change_rows id change t.rows keeps ∙ d

Step-distinct_ids :
    {t t' : RecordTable} → Step t t' → distinct_ids t.rows ≡ true → distinct_ids t'.rows ≡ true
unfolding soft_delete_record restore_record
Step-distinct_ids {t} {t'} (created now input h) d =
    let c = create_record-IsCreated now input t t' h in
    ap distinct_ids c.added ∙ distinct_ids-append t.rows (record_of now input) d c.fresh
Step-distinct_ids {t} {t'} (updated now input h) d =
    changed-distinct_ids input.id (touched now (change_record input)) t t' (λ r. refl)
      (update_record-rows now input t t' h) d
Step-distinct_ids {t} {t'} (soft_deleted now id h) d =
    changed-distinct_ids id (touched now (mark_deleted now)) t t' (λ r. refl)
      (change_one-rows now id (mark_deleted now) t t' h) d
Step-distinct_ids {t} {t'} (restored now id h) d =
    changed-distinct_ids id (touched now clear_deleted) t t' (λ r. refl)
      (change_one-rows now id clear_deleted t t' h) d
Step-distinct_ids {t} {t'} (deleted id h) d =
    ap distinct_ids (delete_record-rows id t t' h) ∙ distinct_ids-drop_rows id t.rows d
Step-distinct_ids {t} {t'} (purged h) d =
    ap (λ u. distinct_ids u.rows) h
    ∙ ap distinct_ids (purge_deleted_records-rows t)
    ∙ distinct_ids-active_rows t.rows d

-- From a table where no two records have one id, every sequence of successful creations, updates,
-- soft deletions, restorations, deletions and purges leads to such a table.
pub Steps-distinct_ids :
    {t t' : RecordTable} → Steps t t' → distinct_ids t.rows ≡ true → distinct_ids t'.rows ≡ true
Steps-distinct_ids done d = d
Steps-distinct_ids (more steps step) d = Step-distinct_ids step (Steps-distinct_ids steps d)
