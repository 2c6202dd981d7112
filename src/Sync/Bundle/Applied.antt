-- ===== src/Sync/Bundle/Applied.antt =====
-- sync/service.go, applyRecord, on a record that the target already has: after the winner is
-- applied, the two sides are equal.
use mathlib.Core.Option
use personal_context.Base.{
  ◌≡◌, ◌≢◌, refl, sym, ap, ◌∙◌, true, Option, none, some, [], list_eq, nat_eq, ==-refl, ≡→==, ≢→==,
  ◌==◌, if◌then◌else◌, ok,
}
use personal_context.Text.{Text, trim_space}
use personal_context.Time.{Time, truncate_to_millisecond}
use personal_context.Repository.Types.{Record}
use personal_context.SyncEngine.Resolve.Rank.{rank, rank_at, by_rank_self}
use personal_context.Sync.Bundle.{
  neither, RecordBundle, resolve_bundle, record_payloads_equal, nullable_strings_equal,
}
use personal_context.Sync.Bundle.Resolution.{IsSameRecord, resolve_bundle-rank}

nullable_strings_equal_refl : (s : Option Text) → nullable_strings_equal s s ≡ true
unfolding nullable_strings_equal
nullable_strings_equal_refl none = refl
nullable_strings_equal_refl (some s) = ==-refl s

-- How the target's database rounds the times that it stores, and the time of the update, which it
-- stores if the record's own time of update stays.
module _ (stored : Time → Time) (now : Time) where
  -- `UpdateRecord` at the input of `applyRecord`: the row `id`, its owner and the time of its
  -- creation stay.
  unfoldable pub apply_record : Record → Record → Record
  apply_record desired existing = record existing {
    date = desired.date;
    day_order = desired.day_order;
    html_content = desired.html_content;
    notes = desired.notes;
    project_id = desired.project_id;
    source_device_id = desired.source_device_id;
    source_ref = desired.source_ref;
    git_remote_url = desired.git_remote_url;
    git_hash = desired.git_hash;
    updated_at =
        if stored desired.updated_at == existing.updated_at
        then stored now
        else stored desired.updated_at;
    deleted_at = Option.map stored desired.deleted_at;
  }

  -- Timestamps are kept to the millisecond at least.
  abbrev pub KeepsMillis : Type 0
  KeepsMillis = (t : Time) → truncate_to_millisecond (stored t) ≡ truncate_to_millisecond t

  pub rank_at-stored :
      KeepsMillis
      → (u : Time) (d : Option Time)
      → rank_at (truncate_to_millisecond (stored u)) (Option.map stored d)
        ≡ rank_at (truncate_to_millisecond u) d
  unfolding rank_at
  rank_at-stored keeps u none = rw keeps
  rank_at-stored keeps u (some d) = rw (keeps u, keeps d)

  pub rank-apply_record :
      KeepsMillis
      → (desired existing : Record) → stored desired.updated_at ≢ existing.updated_at
      → rank (apply_record desired existing) ≡ rank desired
  unfolding rank apply_record
  rank-apply_record keeps desired existing differs =
      rw (≢→== (stored desired.updated_at) existing.updated_at differs)
        (rank_at-stored keeps desired.updated_at desired.deleted_at)

  payloads-apply_record :
      (desired existing : Record)
      → desired.id ≡ existing.id
      → record_payloads_equal desired (apply_record desired existing) ≡ true
  unfolding record_payloads_equal apply_record
  payloads-apply_record desired existing same = rw (
    ≡→== desired.id existing.id same,
    ==-refl desired.date,
    ==-refl desired.day_order,
    nullable_strings_equal_refl desired.html_content,
    nullable_strings_equal_refl desired.notes,
    ==-refl desired.project_id,
    ==-refl desired.source_device_id,
    nullable_strings_equal_refl desired.source_ref,
    nullable_strings_equal_refl desired.git_remote_url,
    nullable_strings_equal_refl desired.git_hash,
  )

  -- Let the database keep times to the millisecond. Once a record, whose id is not blank, is applied
  -- to the one of the same id on the other side, which was updated at another time, the payloads are
  -- equal and neither side wins, whichever of the two is called the local one.
  pub resolve_bundle-apply_record :
      (source target : RecordBundle)
      → KeepsMillis
      → trim_space source.row.id ≢ []
      → source.row.id ≡ target.row.id
      → stored source.row.updated_at ≢ target.row.updated_at
      → let after = record target { row = apply_record source.row target.row } in
        (resolve_bundle source after ≡ ok (none, neither))
        × (resolve_bundle after source ≡ ok (none, neither))
        × (record_payloads_equal source.row after.row ≡ true)
  resolve_bundle-apply_record source target keeps given same differs =
      let after : RecordBundle = record target { row = apply_record source.row target.row } in
      let id_kept : source.row.id ≡ after.row.id = unfold apply_record in same in
      let s : IsSameRecord source after = record {
        id_given = given;
        ids_match = ap trim_space id_kept;
      } in
      let t : IsSameRecord after source = record {
        id_given = λ e. given (s.ids_match ∙ e);
        ids_match = sym s.ids_match;
      } in
      let level : rank after.row ≡ rank source.row =
        rank-apply_record keeps source.row target.row differs in
      (
        resolve_bundle-rank source after s ∙ rw (level, by_rank_self),
        resolve_bundle-rank after source t ∙ rw (level, by_rank_self),
        payloads-apply_record source.row target.row same,
      )
