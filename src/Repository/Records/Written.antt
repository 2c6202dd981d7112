-- ===== src/Repository/Records/Written.antt =====
-- repository.go: the row that a creation or an update of a record leaves, column by column.
use mathlib.Core.Option
use personal_context.Base.{
  ◌≡◌, ==-refl, refl, ap, ◌∙◌, false, Option, none, some, [], ◌==◌, nat_eq, list_eq, if◌then◌else◌,
  ok, ◌>>=◌,
}
use personal_context.Text.{Text, codes, trim_space}
use personal_context.Time.{Time, truncate_to_millisecond}
use personal_context.Repository.Types.{Record}
use personal_context.Repository.Inputs.{CreateRecordInput, UpdateRecordInput}
use personal_context.Repository.Records.{
  RecordTable, is_stored, select_record, change_record, touched, update_record, create_record,
  record_of, restamp, kept_or, time_or,
}
use personal_context.Repository.Records.Laws.{select-touched, select-record_of}

-- The time of update after an update: that of the input, in milliseconds, if it is another one than
-- before, and else the present.
abbrev pub time_after : Time → Time → Option Time → Time
time_after now old none = truncate_to_millisecond now
time_after now old (some t) =
    if truncate_to_millisecond t == old
    then truncate_to_millisecond now
    else truncate_to_millisecond t

-- A column of a time that may be missing.
abbrev pub milliseconds : Option Time → Option Time
milliseconds none = none
milliseconds (some t) = some (truncate_to_millisecond t)

-- A time that is given, or the present.
abbrev pub given_or_now : Time → Option Time → Time
given_or_now now none = truncate_to_millisecond now
given_or_now now (some t) = truncate_to_millisecond t

abbrev pub updated_row : Time → UpdateRecordInput → Record → Record
updated_row now input r = record {
  id = r.id;
  user_id = r.user_id;
  date = input.date;
  day_order = input.day_order;
  html_content = input.html_content;
  notes = input.notes;
  project_id = input.project_id;
  source_device_id = input.source_device_id;
  source_ref = input.source_ref;
  git_remote_url = input.git_remote_url;
  git_hash = input.git_hash;
  created_at = r.created_at;
  updated_at = time_after now r.updated_at input.updated_at;
  deleted_at = if input.set_deleted_at then milliseconds input.deleted_at else r.deleted_at;
}

abbrev pub created_row : Time → CreateRecordInput → Record
created_row now input = record {
  id = input.id;
  user_id = [];
  date = input.date;
  day_order = if trim_space input.day_order == [] then codes "n" else input.day_order;
  html_content = input.html_content;
  notes = input.notes;
  project_id = input.project_id;
  source_device_id = input.source_device_id;
  source_ref = input.source_ref;
  git_remote_url = input.git_remote_url;
  git_hash = input.git_hash;
  created_at = given_or_now now input.created_at;
  updated_at = given_or_now now input.updated_at;
  deleted_at = milliseconds input.deleted_at;
}

restamp-time_after :
    (now old : Time) (new : Option Time)
    → restamp now old (kept_or old new) ≡ time_after now old new
restamp-time_after now old none = rw (==-refl old) refl
restamp-time_after now old (some t) = refl

milliseconds-map : (t : Option Time) → Option.map truncate_to_millisecond t ≡ milliseconds t
milliseconds-map none = refl
milliseconds-map (some t) = refl

time_or-now : (now : Time) (t : Option Time) → time_or now t ≡ given_or_now now t
time_or-now now none = refl
time_or-now now (some t) = refl

touched-updated_row :
    (now : Time) (input : UpdateRecordInput) (r : Record)
    → touched now (change_record input) r ≡ updated_row now input r
touched-updated_row now input r =
    ap
      (λ (times : Time × Option Time). record (updated_row now input r) {
        updated_at = times.0;
        deleted_at = if input.set_deleted_at then times.1 else r.deleted_at;
      })
      (ap (λ u. (u, Option.map truncate_to_millisecond input.deleted_at))
          (restamp-time_after now r.updated_at input.updated_at)
        ∙ ap (λ d. (time_after now r.updated_at input.updated_at, d))
            (milliseconds-map input.deleted_at))

record_of-created_row :
    (now : Time) (input : CreateRecordInput) → record_of now input ≡ created_row now input
record_of-created_row now input =
    rw
      (
        time_or-now now input.created_at,
        time_or-now now input.updated_at,
        milliseconds-map input.deleted_at,
      )
      refl

-- A successful update writes every column that the input has, to the record of its id and to no
-- other. The record keeps its id and its time of creation; it is marked deleted as before unless the
-- input sets that. Its time of update is the input's if that is another one than before, and else
-- that of the update.
pub select-update_record :
    (now : Time) (input : UpdateRecordInput) (t t' : RecordTable) (j : Text)
    → update_record now input t ≡ ok t'
    → select_record t'.rows j ≡ (
        if j == input.id
        then (do r ← select_record t.rows j; ok (updated_row now input r))
        else select_record t.rows j)
select-update_record now input t t' j h =
    select-touched now input t t' j h
    ∙ ap
        (λ (change : Record → Record).
          if j == input.id
          then (do r ← select_record t.rows j; ok (change r))
          else select_record t.rows j)
        (λ i r. touched-updated_row now input r i)

-- A successful creation adds a record with the columns of the input, under an id that was new, and
-- changes no other record. A blank key of order is stored as "n", and a time that the input leaves
-- out as that of the creation, but for the time of a deletion.
pub select-create_record :
    (now : Time) (input : CreateRecordInput) (t t' : RecordTable) (j : Text)
    → create_record now input t ≡ ok t'
    → (is_stored input.id t.rows ≡ false)
      × (select_record t'.rows j
          ≡ (if j == input.id then ok (created_row now input) else select_record t.rows j))
select-create_record now input t t' j h =
    let (fresh, added) = select-record_of now input t t' j h in
    (
      fresh,
      added
          ∙ ap (λ row. if j == input.id then ok row else select_record t.rows j)
              (record_of-created_row now input),
    )
