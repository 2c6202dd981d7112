-- ===== src/Tests/Records.antt =====
-- Runs of the table of records, and the examples of its theorems.
use personal_context.Base.{
  ◌≡◌, ◌<◌, arith, ap, sym, ◌∙◌, refl, true, false, none, some, List, [], ◌∷◌, ◌==◌, list_eq,
  nat_eq, if◌then◌else◌, ok, err, ◌>>=◌,
}
use personal_context.Text.{Text, codes, trim_space, is_space}
use personal_context.Time.{truncate_to_millisecond, truncate}
use personal_context.Repository.Types.{Record}
use personal_context.Repository.Errors.{not_found, conflict}
use personal_context.Repository.Records.{
  RecordTable, create_record, update_record, soft_delete_record, restore_record,
  purge_deleted_records, select_record, is_stored, is_deleted, create_lacks, update_lacks,
  insert_record, check_values, check_references, change_one, change_rows,
}
use personal_context.Repository.Records.Written.{
  updated_row, created_row, select-update_record, select-create_record,
}
use personal_context.Repository.Records.Reachable.{
  Steps, done, more, created, soft_deleted, purged, distinct_ids, Steps-distinct_ids,
}
use personal_context.Repository.Records.Trash.{
  restored_at, select-restore_record, select-purge_deleted_records,
}
use personal_context.Sync.Bundle.{RecordBundle, resolve_bundle, neither, local}
use personal_context.Sync.Service.{
  write_record, create_input_of, update_input_of, IsOtherTime, resolve_bundle-write_record,
  resolve_bundle-write_record_tie,
}

abbrev note_id : Text
note_id = codes "20260510-0123abcd"

abbrev note : Record
note = record {
  id = note_id;
  user_id = [];
  date = codes "2026-05-10";
  day_order = codes "a0";
  html_content = some (codes "<p>");
  notes = none;
  project_id = codes "p";
  source_device_id = codes "d";
  source_ref = none;
  git_remote_url = none;
  git_hash = none;
  created_at = 1000000;
  updated_at = 2000000;
  deleted_at = none;
}

abbrev moved : Record
moved = record note { date = codes "2026-05-11"; updated_at = 3000000 }

abbrev trashed : Record
trashed = record note { updated_at = 4000000; deleted_at = some 4000000 }

abbrev restored_note : Record
restored_note = record note { updated_at = 5000000 }

abbrev with : List Record → RecordTable
with rows = record {
  rows = rows;
  project_ids = codes "p" ∷ [];
  device_ids = codes "d" ∷ [];
  chat_session_ids = [];
}

creates : create_record 5000000 (create_input_of note) (with []) ≡ ok (with (note ∷ []))
unfolding create_record create_lacks insert_record check_values check_references trim_space is_space
    nat_eq list_eq is_stored truncate_to_millisecond
creates = refl

creates_once : create_record 5000000 (create_input_of moved) (with (note ∷ [])) ≡ err conflict
unfolding create_record create_lacks insert_record check_values check_references trim_space is_space
    nat_eq list_eq is_stored truncate_to_millisecond
creates_once = refl

updates : update_record 5000000 (update_input_of moved) (with (note ∷ [])) ≡ ok (with (moved ∷ []))
unfolding update_record update_lacks select_record change_rows check_values check_references
    trim_space is_space nat_eq list_eq is_stored truncate_to_millisecond
updates = refl

trashes : soft_delete_record 4000000 note_id (with (note ∷ [])) ≡ ok (with (trashed ∷ []))
unfolding soft_delete_record change_one change_rows is_stored trim_space is_space nat_eq list_eq
    truncate_to_millisecond
trashes = refl

restores : restore_record 5000000 note_id (with (trashed ∷ [])) ≡ ok (with (restored_note ∷ []))
unfolding restore_record change_one change_rows is_stored trim_space is_space nat_eq list_eq
    truncate_to_millisecond
restores = refl

select-update_record_example : select_record (moved ∷ []) note_id ≡ (
    if note_id == note_id
    then (do
      r ← select_record (note ∷ []) note_id
      ok (updated_row 5000000 (update_input_of moved) r))
    else select_record (note ∷ []) note_id)
select-update_record_example =
    select-update_record 5000000 (update_input_of moved) (with (note ∷ [])) (with (moved ∷ []))
      note_id updates

select-create_record_example :
    (is_stored note_id [] ≡ false)
    × (select_record (note ∷ []) note_id ≡ (
        if note_id == note_id
        then ok (created_row 5000000 (create_input_of note))
        else select_record [] note_id))
select-create_record_example =
    select-create_record 5000000 (create_input_of note) (with []) (with (note ∷ [])) note_id creates

select-restore_record_example : select_record (restored_note ∷ []) note_id ≡ (
    if note_id == note_id
    then (do r ← select_record (note ∷ []) note_id; ok (restored_at 5000000 r))
    else select_record (note ∷ []) note_id)
select-restore_record_example =
    select-restore_record 4000000 5000000 note_id (with (note ∷ [])) (with (trashed ∷ []))
      (with (restored_note ∷ [])) note_id trashes restores

one_id : distinct_ids (trashed ∷ []) ≡ true
unfolding distinct_ids is_stored
one_id = refl

no_ids : distinct_ids [] ≡ true
unfolding distinct_ids
no_ids = refl

select-purge_deleted_records_example :
    select_record (purge_deleted_records (with (trashed ∷ []))).0.rows note_id
    ≡ (do r ← select_record (trashed ∷ []) note_id; (if is_deleted r then err not_found else ok r))
select-purge_deleted_records_example =
    select-purge_deleted_records (with (trashed ∷ [])) note_id one_id

history : Steps (with []) (purge_deleted_records (with (trashed ∷ []))).0
history =
    more
      (more (more done (created 5000000 (create_input_of note) creates))
        (soft_deleted 4000000 note_id trashes))
      (purged refl)

Steps-distinct_ids_example :
    distinct_ids (purge_deleted_records (with (trashed ∷ []))).0.rows ≡ true
Steps-distinct_ids_example = Steps-distinct_ids history no_ids

abbrev source : RecordBundle
source = record { row = moved; figures = []; data_files = [] }

writes : write_record 5000000 moved true (with (note ∷ [])) ≡ ok (with (moved ∷ []))
unfolding write_record
writes = updates

other_time : IsOtherTime moved (with (note ∷ []))
unfolding IsOtherTime select_record truncate_to_millisecond truncate list_eq nat_eq
other_time old found same =
    let e : note ≡ old = cc found in
    let h : 3000000 ≡ 2000000 = same ∙ sym (ap (λ r. r.updated_at) e) in omega (arith, h)

resolve_bundle-write_record_example :
    (r : Record) × (select_record (moved ∷ []) note_id ≡ ok r)
    × (resolve_bundle source (record source { row = r }) ≡ ok (none, neither))
    × (resolve_bundle (record source { row = r }) source ≡ ok (none, neither))
resolve_bundle-write_record_example =
    resolve_bundle-write_record 5000000 source source true (with (note ∷ [])) (with (moved ∷ []))
      writes other_time

-- The same note again, whose row the update's trigger stamps.
abbrev rewritten : Record
rewritten = record note { updated_at = 5000000 }

abbrev original : RecordBundle
original = record { row = note; figures = []; data_files = [] }

rewrites : write_record 5000000 note true (with (note ∷ [])) ≡ ok (with (rewritten ∷ []))
unfolding write_record update_record update_lacks select_record change_rows check_values
    check_references trim_space is_space nat_eq list_eq is_stored truncate_to_millisecond
rewrites = refl

stored_note : select_record (note ∷ []) note_id ≡ ok note
unfolding select_record list_eq nat_eq
stored_note = refl

same_time : truncate_to_millisecond 2000000 ≡ 2000000
unfolding truncate_to_millisecond truncate
same_time = refl

later : 2000000 < truncate_to_millisecond 5000000
unfolding truncate_to_millisecond truncate
later = omega arith

resolve_bundle-write_record_tie_example :
    (r : Record) × (select_record (rewritten ∷ []) note_id ≡ ok r)
    × (resolve_bundle (record original { row = r }) original
        ≡ ok (some (record original { row = r }), local))
resolve_bundle-write_record_tie_example =
    resolve_bundle-write_record_tie 5000000 original original (with (note ∷ []))
      (with (rewritten ∷ [])) note rewrites stored_note same_time refl later
