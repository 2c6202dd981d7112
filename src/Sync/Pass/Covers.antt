-- ===== src/Sync/Pass/Covers.antt =====
-- service.go: a pass that succeeds has brought every changed record to its target.
use personal_context.Base.{
  Result-cases, ◌≡◌, refl, sym, ap, subst, ◌∙◌, true, List, [], ◌∷◌, Option, none, some, arith, ok,
  err, passed, inl, inr,
}
use personal_context.Text.{Text}
use personal_context.Time.{Time}
use personal_context.Repository.Types.{Record}
use personal_context.Repository.Errors.{not_found}
use personal_context.Repository.Interface.{Repository}
use personal_context.SyncEngine.Resolve.{filter_records_updated_since}
use personal_context.SyncEngine.Resolve.Rank.{rank}
use personal_context.Sync.Bundle.{RecordBundle, Winner, local, cloud, neither}
use personal_context.Sync.Run.{Run, stored, each, ◌>>=◌}
use personal_context.Sync.Run.Keeps.{
  Keeps, bind-Keeps, each-Keeps, writing-Keeps, reading-Keeps, give-Keeps, and_then-eq-ok,
  read-then,
}
use personal_context.Sync.Laws.{IsCovered, AllCovered, Grows, Grows-Order}
use personal_context.Sync.Pass.{
  SyncDirection, resolve_directed, apply_if_won, sync_loaded, sync_record, sync_changed_records,
  bundle_for_record, load_bundle, found_or_none, list_changed_records, sync_registries,
  every_record, path_input_of,
}
use personal_context.Sync.Pass.Grows.{
  Registers, Registers-Order, IsSound, apply_if_won-grows, apply_if_won-covers,
  resolve_directed-Standing,
}

-- A call that leaves the state as it is, and what its result says of it.
pub record Reads {W A : Type 0} (call : Run W A) (P : A → W → Type 0) : Type 0 where
  pub still : (w : W) → (call w).0 ≡ w
  pub says : (a : A) (w : W) → (call w).1 ≡ ok a → P a w

module _ {W : Type 0} where
  pub bundle_for_record-Reads :
      (repo : Repository W) (r : Record) → Reads (bundle_for_record repo r) (λ b w. b.row ≡ r)
  unfolding bundle_for_record
  bundle_for_record-Reads repo r = record {
    still = λ w. ground arith;
    says = λ b w h. ground arith;
  }

  -- What a repository has under an id, by the bundle that was loaded for it.
  abbrev pub IsLoaded : Repository W → Text → Option RecordBundle → W → Type 0
  IsLoaded repo id none w = repo.get_record_by_id id w ≡ err not_found
  IsLoaded repo id (some b) w = repo.get_record_by_id id w ≡ ok b.row

  load_bundle-IsLoaded :
      (repo : Repository W) (id : Text) (b : Option RecordBundle) (w : W)
      → (load_bundle repo id w).1 ≡ ok b
      → IsLoaded repo id b w
  unfolding load_bundle found_or_none bundle_for_record
  load_bundle-IsLoaded repo id none w h = ground arith
  load_bundle-IsLoaded repo id (some b) w h = ground arith

  pub load_bundle-Reads :
      (repo : Repository W) (id : Text) → Reads (load_bundle repo id) (IsLoaded repo id)
  unfolding load_bundle found_or_none bundle_for_record
  load_bundle-Reads repo id = record {
    still = λ w. ground arith;
    says = load_bundle-IsLoaded repo id;
  }

  pub resolve_directed-still :
      (side : Winner) (source target : RecordBundle) (w : W)
      → (resolve_directed side source target w).0 ≡ w
  unfolding resolve_directed
  resolve_directed-still local source target w = refl
  resolve_directed-still cloud source target w = refl
  resolve_directed-still neither source target w = refl

module _ {W : Type 0} (d : SyncDirection W) (sound : IsSound d) where
  -- The record under the id is the source's.
  sync_loaded-grows :
      (source : RecordBundle) (target : Option RecordBundle) (w : W)
      → IsLoaded d.target source.row.id target w
      → Grows d.target w (sync_loaded d source target w).0
  sync_loaded-grows source none w l = sound.apply_grows source none w (λ n c. cc (c.there, l))
  sync_loaded-grows source (some target) w l =
      read-then (Grows d.target) w (resolve_directed d.winning_side source target w)
        (apply_if_won d source target) ((Grows-Order d.target).here w)
        (resolve_directed-still d.winning_side source target w)
        (λ winner h.
          apply_if_won-grows d sound source target winner w
            (resolve_directed-Standing d.winning_side winner source target w sound.sided h) l)

  sync_loaded-covers :
      (source : RecordBundle) (target : Option RecordBundle) (w w' : W)
      → IsLoaded d.target source.row.id target w
      → sync_loaded d source target w ≡ (w', passed)
      → IsCovered d.target source.row.id (rank source.row) w'
  sync_loaded-covers source none w w' l h = sound.apply_covers source none w w' h
  sync_loaded-covers source (some target) w w' l h =
      let (winner, resolved, rest) =
        and_then-eq-ok (resolve_directed d.winning_side source target w)
          (apply_if_won d source target) h in
      apply_if_won-covers d sound source target winner w w'
        (resolve_directed-Standing d.winning_side winner source target w sound.sided resolved) l
        (rw (resolve_directed-still d.winning_side source target w) at rest)

  IsLoaded-at :
      (source : RecordBundle) (target : Option RecordBundle) (r : Record) (w : W)
      → source.row ≡ r
      → IsLoaded d.target r.id target w
      → IsLoaded d.target source.row.id target w
  IsLoaded-at source target r w e l = subst (λ row. IsLoaded d.target row.id target w) (sym e) l

  sync_record-grows : (r : Record) (w : W) → Grows d.target w (sync_record d r w).0
  unfolding sync_record
  sync_record-grows r w =
      read-then (Grows d.target) w (bundle_for_record d.source r w) _
        ((Grows-Order d.target).here w) ((bundle_for_record-Reads d.source r).still w)
        (λ source e.
          read-then (Grows d.target) w (load_bundle d.target r.id w) (sync_loaded d source)
            ((Grows-Order d.target).here w) ((load_bundle-Reads d.target r.id).still w)
            (λ target l. sync_loaded-grows source target w (
              IsLoaded-at source target r w ((bundle_for_record-Reads d.source r).says source w e)
                ((load_bundle-Reads d.target r.id).says target w l))))

  sync_record-covers :
      (r : Record) (w w' : W)
      → sync_record d r w ≡ (w', passed)
      → IsCovered d.target r.id (rank r) w'
  unfolding sync_record
  sync_record-covers r w w' h =
      let (source, e, rest) = and_then-eq-ok (bundle_for_record d.source r w) _ h in
      let same : source.row ≡ r = (bundle_for_record-Reads d.source r).says source w e in
      let (target, l, rest') =
        and_then-eq-ok (load_bundle d.target r.id w) (sync_loaded d source)
          (rw ((bundle_for_record-Reads d.source r).still w) at rest) in
      subst (λ row. IsCovered d.target row.id (rank row) w') same
        (sync_loaded-covers source target w w'
          (IsLoaded-at source target r w same ((load_bundle-Reads d.target r.id).says target w l))
          (rw ((load_bundle-Reads d.target r.id).still w) at rest'))

  sync_record-Keeps : (r : Record) → Keeps (Grows d.target) (sync_record d r)
  sync_record-Keeps r = record { keeps = sync_record-grows r }

  pub each-grows :
      (records : List Record) (w : W) → Grows d.target w (each records (sync_record d) w).0
  each-grows records w =
      (each-Keeps (Grows-Order d.target) records (sync_record d) sync_record-Keeps).keeps w

  -- What the first records are covered by, the later ones leave.
  pub each-covers :
      (records : List Record) (w w' : W)
      → each records (sync_record d) w ≡ (w', passed)
      → AllCovered d.target records w'
  unfolding each Grows
  each-covers [] w w' h = tt
  each-covers (q ∷ records) w w' h =
      let (_, first, rest) =
        and_then-eq-ok (sync_record d q w) (λ _. each records (sync_record d)) h in
      let v : W = (sync_record d q w).0 in
      let covered : IsCovered d.target q.id (rank q) v =
        sync_record-covers q w v (ap (λ x. (v, x)) first) in
      (
        subst (λ u. IsCovered d.target q.id (rank q) u) (ap (λ p. p.0) rest)
            (each-grows records v q.id (rank q) covered),
        each-covers records v w' rest,
      )

  sync_registries-Keeps : Keeps (Registers d) (sync_registries d.source d.target)
  unfolding sync_registries
  sync_registries-Keeps =
      let o = Registers-Order d in
      bind-Keeps o (reading-Keeps o stored (d.source.list_projects true)) (λ projects.
        bind-Keeps o
          (each-Keeps o projects _ (λ p. writing-Keeps o stored _ (sound.project_registers p)))
          (λ _. bind-Keeps o (reading-Keeps o stored (d.source.list_devices true)) (λ devices.
            bind-Keeps o
              (each-Keeps o devices _ (λ p. writing-Keeps o stored _ (sound.device_registers p)))
              (λ _.
                bind-Keeps o (reading-Keeps o stored (d.source.list_project_paths none)) (λ paths.
                  each-Keeps o paths _
                    (λ p. writing-Keeps o stored _ (sound.path_registers (path_input_of p))))))))

  -- What a pass covers, once the registries are synced.
  listed-covers :
      (since : Time) (w w' : W)
      → (do found ← list_changed_records d.source since; each found (sync_record d)) w
        ≡ (w', passed)
      → (records : List Record) × (d.source.list_records every_record w ≡ ok records)
        × AllCovered d.target (filter_records_updated_since records since) w'
  unfolding list_changed_records
  listed-covers since w w' h = elim (Result-cases (d.source.list_records every_record w)) [
    | inl (records, listed) ↦ (records, listed, each-covers _ w w' (rw listed at h))
    | inr (e, refused) ↦ cc (rw refused at h)
  ]

  -- A pass that succeeds has covered every record that the source had and the cursor lets through.
  pub sync_changed_records-covers :
      (since : Time) (w w' : W)
      → sync_changed_records d since w ≡ (w', passed)
      → (records : List Record) × (d.source.list_records every_record w ≡ ok records)
        × AllCovered d.target (filter_records_updated_since records since) w'
  unfolding sync_changed_records Registers
  sync_changed_records-covers since w w' h =
      let (_, _, rest) = and_then-eq-ok (sync_registries d.source d.target w) _ h in
      let v : W = (sync_registries d.source d.target w).0 in
      let (records, listed, covered) = listed-covers since v w' rest in
      (records, sym ((sync_registries-Keeps.keeps w).1 every_record) ∙ listed, covered)

  -- A pass, also one that fails, loses no record of the target and makes none older.
  pub sync_changed_records-grows :
      (since : Time) → Keeps (Grows d.target) (sync_changed_records d since)
  unfolding sync_changed_records list_changed_records Registers
  sync_changed_records-grows since =
      let o = Grows-Order d.target in
      bind-Keeps o (record { keeps = λ w. (sync_registries-Keeps.keeps w).0 })
        (λ _.
          bind-Keeps o
            (bind-Keeps o (reading-Keeps o stored (d.source.list_records every_record))
              (λ records. give-Keeps o (filter_records_updated_since records since)))
            (λ found. each-Keeps o found (sync_record d) sync_record-Keeps))
