-- ===== src/Sync/Pass/Grows.antt =====
-- service.go: what a pass does to the records of its target.
use personal_context.Base.{
  ℕ, ◌≤◌, ◌≡◌, refl, ap, subst, ◌∙◌, true, false, Option, some, arith, ◌&&◌, &&-true, Bool-cases,
  map_err, map_result, Result, ok, err, passed, ◌⊎◌, inl, inr,
}
use personal_context.Repository.Registries.{RegistryRow}
use personal_context.Repository.RecordFilter.{ListRecordsFilter}
use personal_context.Repository.ProjectPaths.{CreateProjectPathInput}
use personal_context.SyncEngine.Resolve.Rank.{rank, by_rank}
use personal_context.Sync.Bundle.{
  RecordBundle, Winner, local, cloud, neither, resolve_bundle, winning, BundleError,
  source_bundle_can_repair_target_children,
}
use personal_context.Sync.Bundle.Resolution.{resolve_bundle-rank, resolve_bundle-IsSameRecord}
use personal_context.Sync.Run.{resolved}
use personal_context.Sync.Run.Keeps.{Order}
use personal_context.Sync.Laws.{capped, capped-le, IsCovered, Grows, Grows-Order}
use personal_context.Sync.Pass.{SyncDirection, same_winner, resolve_directed, apply_if_won}

-- How the winner stands to the ranks of source and target.
pub record Standing (side winner : Winner) (s t : ℕ) : Type 0 where
  won : same_winner winner side ≡ true → t ≤ s
  lost : same_winner winner side ≡ false → s ≤ t
  tied : same_winner winner neither ≡ true → t ≤ s

Standing-local : (l c : RecordBundle) (s t : ℕ) → Standing local (winning l c (by_rank s t)).1 s t
unfolding same_winner by_rank
Standing-local l c s t = record {
  won = λ h. ground arith;
  lost = λ h. ground arith;
  tied = λ h. ground arith;
}

Standing-cloud : (l c : RecordBundle) (s t : ℕ) → Standing cloud (winning l c (by_rank t s)).1 s t
unfolding same_winner by_rank
Standing-cloud l c s t = record {
  won = λ h. ground arith;
  lost = λ h. ground arith;
  tied = λ h. ground arith;
}

abbrev Resolution : Type 0
Resolution = Result BundleError (Option RecordBundle × Winner)

map_result-eq-ok :
    (r : Resolution) (winner : Winner)
    → map_err resolved (map_result (λ won. won.1) r) ≡ ok winner
    → (bundle : Option RecordBundle) × (r ≡ ok (bundle, winner))
map_result-eq-ok (ok (bundle, side)) winner h = (bundle, cc)
map_result-eq-ok (err e) winner h = cc

resolve_bundle-winning :
    (l c : RecordBundle) (winner : Winner)
    → map_err resolved (map_result (λ won. won.1) (resolve_bundle l c)) ≡ ok winner
    → (winning l c (by_rank (rank l.row) (rank c.row))).1 ≡ winner
resolve_bundle-winning l c winner h =
    let (bundle, e) = map_result-eq-ok (resolve_bundle l c) winner h in
    cc (resolve_bundle-rank l c (resolve_bundle-IsSameRecord l c e), e)

pub resolve_directed-Standing :
    {W : Type 0} (side winner : Winner) (source target : RecordBundle) (w : W)
    → (side ≡ local) ⊎ (side ≡ cloud)
    → (resolve_directed side source target w).1 ≡ ok winner
    → Standing side winner (rank source.row) (rank target.row)
unfolding resolve_directed
resolve_directed-Standing local winner source target w given h =
    subst (λ s. Standing local s (rank source.row) (rank target.row))
      (resolve_bundle-winning source target winner h)
      (Standing-local source target (rank source.row) (rank target.row))
resolve_directed-Standing cloud winner source target w given h =
    subst (λ s. Standing cloud s (rank source.row) (rank target.row))
      (resolve_bundle-winning target source winner h)
      (Standing-cloud target source (rank source.row) (rank target.row))
resolve_directed-Standing neither winner source target w (inl e) h = cc
resolve_directed-Standing neither winner source target w (inr e) h = cc

-- Registering leaves the source's records, and loses none of the target's.
module _ {W : Type 0} (d : SyncDirection W) where
  unfoldable pub Registers : W → W → Type 0
  unfolding Grows
  Registers w w' =
      Grows d.target w w'
      × ((f : ListRecordsFilter) → d.source.list_records f w' ≡ d.source.list_records f w)

  pub Registers-Order : Order Registers
  unfolding Registers
  Registers-Order = record {
    here = λ w. ((Grows-Order d.target).here w, λ f. refl);
    both = λ h k. ((Grows-Order d.target).both h.0 k.0, λ f. k.1 f ∙ h.1 f);
  }

-- What the target and the application of a bundle are taken to do.
pub record IsSound {W : Type 0} (d : SyncDirection W) : Type 0 where
  pub sided : (d.winning_side ≡ local) ⊎ (d.winning_side ≡ cloud)
  pub apply_covers :
      (source : RecordBundle) (existing : Option RecordBundle) (w w' : W)
      → d.apply source existing w ≡ (w', passed)
      → IsCovered d.target source.row.id (rank source.row) w'
  pub apply_grows :
      (source : RecordBundle) (existing : Option RecordBundle) (w : W)
      → ((n : ℕ) → IsCovered d.target source.row.id n w → capped d.target.now n ≤ rank source.row)
      → Grows d.target w (d.apply source existing w).0
  pub project_registers :
      (p : RegistryRow) (w w' : W)
      → d.target.upsert_project_for_import p w ≡ ok w'
      → Registers d w w'
  pub device_registers :
      (p : RegistryRow) (w w' : W)
      → d.target.upsert_device_for_import p w ≡ ok w'
      → Registers d w w'
  pub path_registers :
      (p : CreateProjectPathInput) (w w' : W)
      → d.target.upsert_project_path p w ≡ ok w'
      → Registers d w w'

module _ {W : Type 0} (d : SyncDirection W) (sound : IsSound d) where
  -- The target's record, of the source's id, is not newer than the source's.
  not_newer :
      (source target : RecordBundle) (w : W)
      → d.target.get_record_by_id source.row.id w ≡ ok target.row
      → rank target.row ≤ rank source.row
      → (n : ℕ) → IsCovered d.target source.row.id n w
      → capped d.target.now n ≤ rank source.row
  not_newer source target w there h n c =
      let e : rank c.row ≡ rank target.row = cc (c.there, there) in omega (arith, e, h, c.as_new)

  apply_over-grows :
      (source target : RecordBundle) (w : W)
      → d.target.get_record_by_id source.row.id w ≡ ok target.row
      → rank target.row ≤ rank source.row
      → Grows d.target w (d.apply source (some target) w).0
  apply_over-grows source target w there h =
      sound.apply_grows source (some target) w (not_newer source target w there h)

  pub apply_if_won-grows :
      (source target : RecordBundle) (winner : Winner) (w : W)
      → Standing d.winning_side winner (rank source.row) (rank target.row)
      → d.target.get_record_by_id source.row.id w ≡ ok target.row
      → Grows d.target w (apply_if_won d source target winner w).0
  unfolding apply_if_won
  apply_if_won-grows source target winner w s there =
      elim (Bool-cases (same_winner winner d.winning_side)) [
        | inl e ↦ rw e (apply_over-grows source target w there (s.won e))
        | inr e ↦
            elim (Bool-cases (
              same_winner winner neither
              && source_bundle_can_repair_target_children source target)) [
                | inl t ↦
                    rw (e, t) (apply_over-grows source target w there (s.tied (&&-true _ _ t).0))
                | inr t ↦ rw (e, t) ((Grows-Order d.target).here w)
              ]
      ]

  kept-covers :
      (source target : RecordBundle) (w : W)
      → d.target.get_record_by_id source.row.id w ≡ ok target.row
      → rank source.row ≤ rank target.row
      → IsCovered d.target source.row.id (rank source.row) w
  kept-covers source target w there h = record {
    row = target.row;
    there = there;
    as_new = omega (arith, capped-le d.target.now (rank source.row), h);
  }

  pub apply_if_won-covers :
      (source target : RecordBundle) (winner : Winner) (w w' : W)
      → Standing d.winning_side winner (rank source.row) (rank target.row)
      → d.target.get_record_by_id source.row.id w ≡ ok target.row
      → apply_if_won d source target winner w ≡ (w', passed)
      → IsCovered d.target source.row.id (rank source.row) w'
  unfolding apply_if_won
  apply_if_won-covers source target winner w w' s there h =
      elim (Bool-cases (same_winner winner d.winning_side)) [
        | inl e ↦ sound.apply_covers source (some target) w w' (rw e at h)
        | inr e ↦
            elim (Bool-cases (
              same_winner winner neither
              && source_bundle_can_repair_target_children source target)) [
                | inl t ↦ sound.apply_covers source (some target) w w' (rw (e, t) at h)
                | inr t ↦
                    let still : (w, passed) ≡ (w', passed) = rw (e, t) at h in
                    subst (IsCovered d.target source.row.id (rank source.row)) (ap (λ p. p.0) still)
                      (kept-covers source target w there (s.lost e))
              ]
      ]
