-- ===== src/Sync/Service.antt =====
-- cli/internal/sync/service.go, applyRecord: the write of a winning record to the local database.
use personal_context.Base.{
  ◌≡◌, ◌≢◌, refl, sym, ap, ◌∙◌, ◌<◌, ◌⊎◌, inl, inr, arith, Bool, true, false, none, some, [],
  Bool-cases, ==→≢, ≡→==, ◌==◌, list_eq, nat_eq, ==-refl, Result, ok, if◌then◌else◌, ◌>>=◌,
}
use personal_context.Text.{Text, trim_space}
use personal_context.Time.{Time, truncate_to_millisecond, truncate_to_millisecond_idem}
use personal_context.Repository.Types.{Record}
use personal_context.Repository.Inputs.{CreateRecordInput, UpdateRecordInput}
use personal_context.Repository.Errors.{RepositoryError}
use personal_context.Repository.Records.{
  RecordTable, select_record, create_record, update_record, record_of,
}
use personal_context.Repository.Records.Laws.{
  select-id, select-touched, select-record_of, update_record-given, create_record-given,
  update_record-found,
}
use personal_context.Sync.Bundle.{RecordBundle, resolve_bundle, neither, local}
use personal_context.Sync.Bundle.Applied.{apply_record, rank-apply_record, rank_at-stored}
use personal_context.Sync.Bundle.Resolution.{IsSameRecord, resolve_bundle-rank}
use personal_context.SyncEngine.Resolve.Rank.{rank, rank_at, by_rank-newer, by_rank_self}

abbrev pub update_input_of : Record → UpdateRecordInput
update_input_of r = record {
  id = r.id;
  date = r.date;
  day_order = r.day_order;
  html_content = r.html_content;
  notes = r.notes;
  project_id = r.project_id;
  source_device_id = r.source_device_id;
  source_ref = r.source_ref;
  git_remote_url = r.git_remote_url;
  git_hash = r.git_hash;
  updated_at = some r.updated_at;
  set_deleted_at = true;
  deleted_at = r.deleted_at;
}

abbrev pub create_input_of : Record → CreateRecordInput
create_input_of r = record {
  id = r.id;
  date = r.date;
  day_order = r.day_order;
  html_content = r.html_content;
  notes = r.notes;
  project_id = r.project_id;
  source_device_id = r.source_device_id;
  source_ref = r.source_ref;
  git_remote_url = r.git_remote_url;
  git_hash = r.git_hash;
  created_at = some r.created_at;
  updated_at = some r.updated_at;
  deleted_at = r.deleted_at;
}

-- `applyRecord` on the local database, at a time.
unfoldable pub write_record :
    Time → Record → Bool → RecordTable → Result RepositoryError RecordTable
write_record now r exists t =
    if exists
    then update_record now (update_input_of r) t
    else create_record now (create_input_of r) t

-- The write of a record to a database that has it leaves there what `apply_record` says, and the
-- other records as they were.
pub select-write_record :
    (now : Time) (desired : Record) (t t' : RecordTable) (j : Text)
    → write_record now desired true t ≡ ok t'
    → select_record t'.rows j ≡ (
        if j == desired.id
        then (do
          r ← select_record t.rows j
          ok (apply_record truncate_to_millisecond now desired r))
        else select_record t.rows j)
unfolding write_record apply_record
select-write_record now desired t t' j h = select-touched now (update_input_of desired) t t' j h

-- The record that the database has under the id, if it has one, was updated at another time.
unfoldable pub IsOtherTime : Record → RecordTable → Type 0
IsOtherTime desired t =
    (old : Record)
    → select_record t.rows desired.id ≡ ok old
    → truncate_to_millisecond desired.updated_at ≢ old.updated_at

-- What is stored after a write, by its id and its rank.
pub record IsWritten (now : Time) (desired : Record) (t t' : RecordTable) : Type 0 where
  pub row : Record
  pub id_given : trim_space desired.id ≢ []
  pub stored : select_record t'.rows desired.id ≡ ok row
  pub same_id : row.id ≡ desired.id
  pub same_rank : IsOtherTime desired t → rank row ≡ rank desired
  pub times :
      (rank row ≡ rank desired)
      ⊎ (truncate_to_millisecond row.updated_at ≡ truncate_to_millisecond now)

-- Applied at another time than the update, the record keeps its rank, and else it is updated now.
rank-restamped :
    (now : Time) (desired existing : Record)
    → let row = apply_record truncate_to_millisecond now desired existing in
      (rank row ≡ rank desired)
      ⊎ (truncate_to_millisecond row.updated_at ≡ truncate_to_millisecond now)
unfolding apply_record
rank-restamped now desired existing =
    elim (Bool-cases (truncate_to_millisecond desired.updated_at == existing.updated_at)) [
      | inl e ↦ inr (rw e (truncate_to_millisecond_idem now))
      | inr e ↦ inl (
          rank-apply_record truncate_to_millisecond now truncate_to_millisecond_idem desired
            existing (==→≢ (truncate_to_millisecond desired.updated_at) existing.updated_at e))
    ]

pub write_record-IsWritten :
    (now : Time) (desired : Record) (exists : Bool) (t t' : RecordTable)
    → write_record now desired exists t ≡ ok t'
    → IsWritten now desired t t'
unfolding write_record IsOtherTime
write_record-IsWritten now desired true t t' h =
    let (existing, found) = update_record-found now (update_input_of desired) t t' h in
    record {
      row = apply_record truncate_to_millisecond now desired existing;
      id_given = update_record-given now (update_input_of desired) t t' h;
      stored = select-write_record now desired t t' desired.id h ∙ rw (==-refl desired.id, found);
      same_id = unfold apply_record in select-id desired.id t.rows found;
      same_rank = λ other.
          rank-apply_record truncate_to_millisecond now truncate_to_millisecond_idem desired
            existing (other existing found);
      times = rank-restamped now desired existing;
    }
write_record-IsWritten now desired false t t' h =
    let same : rank (record_of now (create_input_of desired)) ≡ rank desired =
      unfold rank in
      rank_at-stored truncate_to_millisecond now truncate_to_millisecond_idem desired.updated_at
        desired.deleted_at in
    record {
      row = record_of now (create_input_of desired);
      id_given = create_record-given now (create_input_of desired) t t' h;
      stored =
          (select-record_of now (create_input_of desired) t t' desired.id h).1
          ∙ rw (==-refl desired.id);
      same_id = refl;
      same_rank = λ other. same;
      times = inl same;
    }

abbrev with_row : RecordBundle → Record → RecordBundle
with_row b r = record b { row = r }

written-IsSameRecord :
    (now : Time) (source target : RecordBundle) (t t' : RecordTable)
    (w : IsWritten now source.row t t')
    → IsSameRecord source (with_row target w.row) × IsSameRecord (with_row target w.row) source
written-IsSameRecord now source target t t' w = (
  record { id_given = w.id_given; ids_match = ap trim_space (sym w.same_id) },
  record {
    id_given = λ e. w.id_given (ap trim_space (sym w.same_id) ∙ e);
    ids_match = ap trim_space w.same_id;
  },
)

-- After a successful write of a record to the local database, as a new one or over one that was
-- updated at another time, the database has a record of its id, and neither of the two wins over the
-- other: with any child rows, the bundles are resolved to no winner, whichever is called the local
-- one.
pub resolve_bundle-write_record :
    (now : Time) (source target : RecordBundle) (exists : Bool) (t t' : RecordTable)
    → write_record now source.row exists t ≡ ok t'
    → IsOtherTime source.row t
    → (r : Record) × (select_record t'.rows source.row.id ≡ ok r)
      × (resolve_bundle source (record target { row = r }) ≡ ok (none, neither))
      × (resolve_bundle (record target { row = r }) source ≡ ok (none, neither))
resolve_bundle-write_record now source target exists t t' h other =
    let w = write_record-IsWritten now source.row exists t t' h in
    let (s, c) = written-IsSameRecord now source target t t' w in
    (
      w.row,
      w.stored,
      resolve_bundle-rank source (with_row target w.row) s ∙ rw (w.same_rank other, by_rank_self),
      resolve_bundle-rank (with_row target w.row) source c ∙ rw (w.same_rank other, by_rank_self),
    )

rank-tie :
    (now : Time) (desired old : Record)
    → truncate_to_millisecond desired.updated_at ≡ old.updated_at
    → desired.deleted_at ≡ none
    → old.updated_at < truncate_to_millisecond now
    → rank desired < rank (apply_record truncate_to_millisecond now desired old)
unfolding rank rank_at apply_record
rank-tie now desired old tie active later =
    rw
      (
        ≡→== (truncate_to_millisecond desired.updated_at) old.updated_at tie,
        active,
        tie,
        truncate_to_millisecond_idem now,
      )
      (omega arith)

-- An active record that is written over one of the same time of update, at a later time, leaves a
-- record that wins over it: the time of update of the stored record is that of the write.
pub resolve_bundle-write_record_tie :
    (now : Time) (source target : RecordBundle) (t t' : RecordTable) (old : Record)
    → write_record now source.row true t ≡ ok t'
    → select_record t.rows source.row.id ≡ ok old
    → truncate_to_millisecond source.row.updated_at ≡ old.updated_at
    → source.row.deleted_at ≡ none
    → old.updated_at < truncate_to_millisecond now
    → (r : Record) × (select_record t'.rows source.row.id ≡ ok r)
      × (resolve_bundle (record target { row = r }) source
          ≡ ok (some (record target { row = r }), local))
resolve_bundle-write_record_tie now source target t t' old h found tie active later =
    let w = write_record-IsWritten now source.row true t t' h in
    let (s, c) = written-IsSameRecord now source target t t' w in
    let there : select_record t'.rows source.row.id
        ≡ ok (apply_record truncate_to_millisecond now source.row old) =
      select-write_record now source.row t t' source.row.id h ∙ rw (==-refl source.row.id, found) in
    let made : w.row ≡ apply_record truncate_to_millisecond now source.row old =
      cc (w.stored, there) in
    let newer : rank source.row < rank w.row =
      rw made (rank-tie now source.row old tie active later) in
    (
      w.row,
      w.stored,
      resolve_bundle-rank (with_row target w.row) source c
          ∙ rw (by_rank-newer (rank w.row) (rank source.row) newer) refl,
    )
