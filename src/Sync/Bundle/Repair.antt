-- ===== src/Sync/Bundle/Repair.antt =====
-- conflict.go: a repair of equal records only adds child rows to the target.
use personal_context.Base.{
  ◌≡◌, refl, sym, ◌∙◌, Bool, true, false, Option, none, some, List, [], ◌∷◌, arith, ◌==◌, list_eq,
  nat_eq, ==-refl, ==→≡, inl, inr, Bool-cases, &&-true, ok,
}
use personal_context.Text.{Text}
use personal_context.SyncEngine.Resolve.{ByFilename, lookup, map_by_filename}
use personal_context.SyncEngine.Resolve.Index.{find, DistinctNames, Indexes, map_by_filename-ok}
use personal_context.Sync.Children.{Children, figures, data_files}
use personal_context.Sync.Plan.{
  Plan, FigurePlan, DataFilePlan, plan_figure_reconciliation, plan_data_file_reconciliation,
}
use personal_context.Sync.Plan.Spec.{changes, changed_rows, stale_ids}
use personal_context.Sync.Plan.Exact.{
  IsPlannable, planned, plan_figure_reconciliation_iff, plan_data_file_reconciliation_iff,
}
use personal_context.Sync.Bundle.{
  RecordBundle, index_rows, matches, all_match, has_exact_superset,
  source_has_exact_figure_superset, source_has_exact_data_file_superset,
  source_bundle_can_repair_target_children,
}

module _ {Row : Type 0} (filename : Row → Text) (differs : Row → Row → Bool) where
  map_by_filename-index_rows :
      (rows : List Row) (indexed : ByFilename Row) {m : ByFilename Row}
      → map_by_filename filename rows indexed ≡ ok m
      → index_rows filename differs rows indexed ≡ m
  unfolding map_by_filename index_rows
  map_by_filename-index_rows [] indexed h = cc
  map_by_filename-index_rows (row ∷ rows) indexed {m} h =
      map_by_filename-index_rows rows ((filename row, row) ∷ indexed) (ground arith)

  index_rows-Indexes :
      (rows : List Row)
      → DistinctNames filename rows
      → Indexes filename (index_rows filename differs rows []) rows
  index_rows-Indexes rows d n =
      let (m, made, ix) = map_by_filename-ok filename rows d in
      rw (map_by_filename-index_rows rows [] made) (ix n)

  matches-some :
      (row : Row) (o : Option Row)
      → matches filename differs row o ≡ true
      → (s : Row) × (o ≡ some s) × (differs row s ≡ false)
  matches-some row none h = cc
  matches-some row (some s) h = (s, refl, ground arith)

  -- Each target row has a source row of its name that does not differ from it.
  all_match-find :
      (m : ByFilename Row) (target : List Row) (n : Text) {e : Row}
      → all_match filename differs m target ≡ true
      → find filename n target ≡ some e
      → (s : Row) × (lookup n m ≡ some s) × (differs e s ≡ false)
  unfolding all_match find
  all_match-find m [] n h f = cc
  all_match-find m (row ∷ rows) n {e} h f =
      let (here, there) =
        &&-true (matches filename differs row (lookup (filename row) m))
          (all_match filename differs m rows) h in
      elim (Bool-cases (filename row == n)) [
        | inl same ↦
            let (s, found, alike) = matches-some row (lookup (filename row) m) here in
            let named : filename row ≡ n = ==→≡ (filename row) n same in
            let taken : some row ≡ some e = rw same at f in (s, cc, cc)
        | inr other ↦ all_match-find m rows n there (rw other at f)
      ]

  abbrev AllFound : List Row → List Row → Type 0
  AllFound source [] = Unit
  AllFound source (row ∷ rows) =
      (find filename (filename row) source ≡ some row) × AllFound source rows

  AllFound-cons :
      (row : Row) (source rows : List Row)
      → find filename (filename row) rows ≡ none
      → AllFound source rows
      → AllFound (row ∷ source) rows
  unfolding find
  AllFound-cons row source [] fresh h = tt
  AllFound-cons row source (r ∷ rows) fresh (f, h) =
      (ground (arith, ==-refl (filename row)), AllFound-cons row source rows (ground arith) h)

  AllFound-self : (rows : List Row) → DistinctNames filename rows → AllFound rows rows
  unfolding find
  AllFound-self [] d = tt
  AllFound-self (row ∷ rows) (fresh, d) = (
    ground (arith, ==-refl (filename row)),
    AllFound-cons row rows rows fresh (AllFound-self rows d),
  )

module _ (k : Children) where
  open k use {Row, filename, differs}

  abbrev Superset : List Row → List Row → Type 0
  Superset source target =
      all_match filename differs (index_rows filename differs source []) target ≡ true

  stale_ids-superset :
      (source target rows : List Row)
      → DistinctNames filename source
      → all_match filename differs (index_rows filename differs source []) rows ≡ true
      → stale_ids k source rows ≡ []
  unfolding stale_ids all_match
  stale_ids-superset source target [] d h = refl
  stale_ids-superset source target (row ∷ rows) d h =
      let m : ByFilename Row = index_rows filename differs source [] in
      let (s, found, _) =
        matches-some filename differs row (lookup (filename row) m) (ground arith) in
      let named : find filename (filename row) source ≡ some s =
        sym (index_rows-Indexes filename differs source d (filename row)) ∙ found in
      rw named (stale_ids-superset source target rows d (ground arith))

  changes-found :
      (source target : List Row) (row : Row) (o : Option Row)
      → DistinctNames filename source
      → Superset source target
      → find filename (filename row) source ≡ some row
      → find filename (filename row) target ≡ o
      → (rest : List (Children.Update k)) → changes k row rest o ≡ rest
  changes-found source target row none d h found looked rest = refl
  changes-found source target row (some e) d h found looked rest =
      let m : ByFilename Row = index_rows filename differs source [] in
      let (s, there, alike) = all_match-find filename differs m target (filename row) h looked in
      let same : some s ≡ some row =
        sym there ∙ index_rows-Indexes filename differs source d (filename row) ∙ found in
      ground arith

  changed_rows-Superset :
      (source target rows : List Row)
      → DistinctNames filename source
      → Superset source target
      → AllFound filename differs source rows
      → changed_rows k target rows ≡ []
  unfolding changed_rows
  changed_rows-Superset source target [] d h f = refl
  changed_rows-Superset source target (row ∷ rows) d h (found, f) =
      changes-found source target row (find filename (filename row) target) d h found refl _
      ∙ changed_rows-Superset source target rows d h f

has_exact_superset-Superset :
    (k : Children) (source target : List (Children.Row k))
    → has_exact_superset (Children.filename k) (Children.differs k) source target ≡ true
    → Superset k source target
unfolding has_exact_superset
has_exact_superset-Superset k source target h = ground arith

-- The plan of a repair changes and deletes nothing.
pub record IsAdditive (k : Children) (p : Plan k) : Type 0 where
  pub no_updates : p.updates ≡ []
  pub no_deletes : p.delete_ids ≡ []

planned-IsAdditive :
    (k : Children) (rid : Text) (source target : List (Children.Row k))
    → IsPlannable k rid target source
    → has_exact_superset (Children.filename k) (Children.differs k) source target ≡ true
    → IsAdditive k (planned k rid target source)
unfolding planned
planned-IsAdditive k rid source target valid h =
    let d = valid.desired_distinct in
    let all = has_exact_superset-Superset k source target h in
    record {
      no_updates =
          changed_rows-Superset k source target source d all
            (AllFound-self (Children.filename k) (Children.differs k) source d);
      no_deletes = stale_ids-superset k source target target d all;
    }

-- When a source may repair a target of equal payload, the plans for the target's figures and data
-- files, where there are such plans, add rows, and neither change nor delete any.
pub repair-IsAdditive :
    (rid : Text) (source target : RecordBundle) {p : FigurePlan} {q : DataFilePlan}
    → source_bundle_can_repair_target_children source target ≡ true
    → plan_figure_reconciliation rid target.figures source.figures ≡ ok p
    → plan_data_file_reconciliation rid target.data_files source.data_files ≡ ok q
    → IsAdditive figures p × IsAdditive data_files q
unfolding source_bundle_can_repair_target_children source_has_exact_figure_superset
    source_has_exact_data_file_superset
repair-IsAdditive rid source target {p} {q} h f g =
    let (valid, e) = (plan_figure_reconciliation_iff rid target.figures source.figures p).0 f in
    let (valid', e') =
      (plan_data_file_reconciliation_iff rid target.data_files source.data_files q).0 g in
    (
      rw e (planned-IsAdditive figures rid source.figures target.figures valid (ground arith)),
      rw e' (
          planned-IsAdditive data_files rid source.data_files target.data_files valid'
            (ground arith)),
    )
