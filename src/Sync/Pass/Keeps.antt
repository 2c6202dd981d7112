-- ===== src/Sync/Pass/Keeps.antt =====
-- service.go: what the registering and the application of bundles keep, a pass keeps.
use personal_context.Base.{sym, subst, true, ◌&&◌, Option, none, some, inl, inr, Bool-cases}
use personal_context.Time.{Time}
use personal_context.Repository.Types.{Record}
use personal_context.Repository.Interface.{Repository}
use personal_context.SyncEngine.Resolve.{filter_records_updated_since}
use personal_context.Sync.Bundle.{
  RecordBundle, Winner, neither, source_bundle_can_repair_target_children,
}
use personal_context.Sync.Run.{Run, stored}
use personal_context.Sync.Run.Keeps.{
  Order, Keeps, bind-Keeps, each-Keeps, writing-Keeps, reading-Keeps, give-Keeps,
}
use personal_context.Sync.Laws.{Writes}
use personal_context.Sync.Pass.{
  SyncDirection, same_winner, sync_registries, list_changed_records, apply_if_won, sync_loaded,
  sync_record, sync_changed_records, every_record, path_input_of,
}
use personal_context.Sync.Pass.Covers.{
  Reads, bundle_for_record-Reads, load_bundle-Reads, resolve_directed-still,
}

module _ {W : Type 0} {R : W → W → Type 0} (o : Order R) where
  Reads-Keeps : {A : Type 0} {call : Run W A} {P : A → W → Type 0} → Reads call P → Keeps R call
  Reads-Keeps r = record { keeps = λ w. subst (R w) (sym (r.still w)) (o.here w) }

  pub sync_registries-Keeps :
      (source target : Repository W) → Writes R target → Keeps R (sync_registries source target)
  unfolding sync_registries
  sync_registries-Keeps source target writes =
      bind-Keeps o (reading-Keeps o stored (source.list_projects true)) (λ projects.
        bind-Keeps o
          (each-Keeps o projects _ (λ p. writing-Keeps o stored _ (writes.upsert_project p)))
          (λ _. bind-Keeps o (reading-Keeps o stored (source.list_devices true)) (λ devices.
            bind-Keeps o
              (each-Keeps o devices _ (λ p. writing-Keeps o stored _ (writes.upsert_device p)))
              (λ _. bind-Keeps o (reading-Keeps o stored (source.list_project_paths none)) (λ paths.
                each-Keeps o paths _
                  (λ p. writing-Keeps o stored _ (writes.upsert_path (path_input_of p))))))))

  module _ (d : SyncDirection W)
      (applies : (source : RecordBundle) (target : Option RecordBundle)
        → Keeps R (d.apply source target)) where
    apply_if_won-Keeps :
        (source target : RecordBundle) (winner : Winner)
        → Keeps R (apply_if_won d source target winner)
    unfolding apply_if_won
    apply_if_won-Keeps source target winner =
        elim (Bool-cases (same_winner winner d.winning_side)) [
          | inl e ↦ rw e (applies source (some target))
          | inr e ↦
              elim (Bool-cases (
                same_winner winner neither
                && source_bundle_can_repair_target_children source target)) [
                  | inl t ↦ rw (e, t) (applies source (some target))
                  | inr t ↦ rw (e, t) (give-Keeps o tt)
                ]
        ]

    sync_loaded-Keeps :
        (source : RecordBundle) (target : Option RecordBundle)
        → Keeps R (sync_loaded d source target)
    sync_loaded-Keeps source none = applies source none
    sync_loaded-Keeps source (some target) =
        bind-Keeps o
          (record {
            keeps = λ w.
                subst (R w) (sym (resolve_directed-still d.winning_side source target w))
                  (o.here w);
          })
          (apply_if_won-Keeps source target)

    sync_record-Keeps : (r : Record) → Keeps R (sync_record d r)
    unfolding sync_record
    sync_record-Keeps r = bind-Keeps o (Reads-Keeps (bundle_for_record-Reads d.source r)) (λ source.
        bind-Keeps o (Reads-Keeps (load_bundle-Reads d.target r.id)) (sync_loaded-Keeps source))

    pub sync_changed_records-Keeps :
        Keeps R (sync_registries d.source d.target)
        → (since : Time) → Keeps R (sync_changed_records d since)
    unfolding sync_changed_records list_changed_records
    sync_changed_records-Keeps registers since = bind-Keeps o registers (λ _.
        bind-Keeps o
          (bind-Keeps o (reading-Keeps o stored (d.source.list_records every_record))
            (λ records. give-Keeps o (filter_records_updated_since records since)))
          (λ found. each-Keeps o found (sync_record d) sync_record-Keeps))
