-- ===== src/Sync/Plan/Exact.antt =====
-- conflict.go: a plan is exactly the spelled out one, and exists exactly for valid arguments.
use personal_context.Base.{
  ◌≡◌, ◌≢◌, ◌↔◌, refl, sym, ap, ◌∙◌, List, [], ◌∷◌, ◌==◌, nat_eq, list_eq, ==→≢, ≢→==, inl, inr,
  Bool-cases, map_err-eq-ok, arith, ok, map_err, >>=-eq-ok,
}
use personal_context.Text.{Text, trim_space}
use personal_context.SyncEngine.Resolve.{ByFilename, lookup, map_by_filename}
use personal_context.SyncEngine.Resolve.Index.{
  DistinctNames, Indexes, map_by_filename-Indexes, map_by_filename-ok,
}
use personal_context.Sync.Children.{Children, existing_rows}
use personal_context.Sync.Plan.{
  Plan, plan_rows, delete_ids_of, start, finish, plan_indexed, plan_reconciliation,
}
use personal_context.Repository.Types.{RecordFigure, RecordDataFile}
use personal_context.Sync.Children.{figures, data_files}
use personal_context.Sync.Plan.{
  FigurePlan, DataFilePlan, plan_figure_reconciliation, plan_data_file_reconciliation,
}
use personal_context.Sync.Plan.Spec.{
  new_rows, changed_rows, stale_ids, AllChecked, plan_rows-IsPlanned, plan_rows_total,
}

module _ (k : Children) where
  open k use {Row, Create, Update, id, filename, check}

  -- What the reconciliation asks of its arguments.
  pub record IsPlannable (rid : Text) (existing desired : List Row) : Type 0 where
    pub id_given : trim_space rid ≢ []
    pub existing_distinct : DistinctNames filename existing
    pub desired_checked : AllChecked k rid desired
    pub desired_distinct : DistinctNames filename desired

  unfoldable pub planned : Text → List Row → List Row → Plan k
  planned rid existing desired = record {
    creates = new_rows k rid existing desired;
    updates = changed_rows k existing desired;
    delete_ids = stale_ids k desired existing;
  }

  delete_ids_of-stale_ids :
      (desired : List Row) (m : ByFilename Row) (rows : List Row)
      → Indexes filename m desired
      → delete_ids_of k m rows ≡ stale_ids k desired rows
  unfolding delete_ids_of stale_ids
  delete_ids_of-stale_ids desired m [] ix = refl
  delete_ids_of-stale_ids desired m (row ∷ rows) ix =
      rw (ix (filename row), delete_ids_of-stale_ids desired m rows ix)

  plan_indexed-planned :
      (rid : Text) (existing desired : List Row) (m : ByFilename Row) (p : Plan k)
      → trim_space rid ≢ []
      → map_by_filename filename existing [] ≡ ok m
      → plan_indexed k rid existing desired m ≡ ok p
      → IsPlannable rid existing desired × (p ≡ planned rid existing desired)
  unfolding planned lookup
  plan_indexed-planned rid existing desired m p given indexed h =
      let (distinct, ix) = map_by_filename-Indexes filename existing indexed in
      let (q, looped, e) = >>=-eq-ok (plan_rows k rid m (start k) desired) (finish k existing) h in
      let r = plan_rows-IsPlanned k rid existing m (start k) q desired ix looped in
      (
        record {
          id_given = given;
          existing_distinct = distinct;
          desired_checked = r.checked;
          desired_distinct = r.seen.distinct;
        },
        ground (
          arith,
          r.creates,
          r.updates,
          delete_ids_of-stale_ids desired q.desired existing r.seen.entries,
        ),
      )

  pub plan_reconciliation-planned :
      (rid : Text) (existing desired : List Row) (p : Plan k)
      → plan_reconciliation k rid existing desired ≡ ok p
      → IsPlannable rid existing desired × (p ≡ planned rid existing desired)
  unfolding plan_reconciliation
  plan_reconciliation-planned rid existing desired p h = elim (Bool-cases (trim_space rid == [])) [
    | inl e ↦ cc (rw e at h)
    | inr e ↦
        let (m, mapped, rest) =
          >>=-eq-ok (map_err existing_rows (map_by_filename filename existing []))
            (plan_indexed k rid existing desired) (rw e at h) in
        plan_indexed-planned rid existing desired m p (==→≢ (trim_space rid) [] e)
          (map_err-eq-ok existing_rows (map_by_filename filename existing []) mapped) rest
  ]

  pub plan_reconciliation_total :
      (rid : Text) (existing desired : List Row)
      → IsPlannable rid existing desired
      → (p : Plan k) × (plan_reconciliation k rid existing desired ≡ ok p)
  unfolding plan_reconciliation lookup
  plan_reconciliation_total rid existing desired h =
      let (m, indexed, ix) = map_by_filename-ok filename existing h.existing_distinct in
      let (q, made) =
        plan_rows_total k rid m (start k) desired h.desired_checked h.desired_distinct
          (λ n p. cc) in
      (
        record {
          creates = q.creates;
          updates = q.updates;
          delete_ids = delete_ids_of k q.desired existing;
        },
        rw (≢→== (trim_space rid) [] h.id_given, indexed, made),
      )

  pub plan_reconciliation_iff :
      (rid : Text) (existing desired : List Row) (p : Plan k)
      → (plan_reconciliation k rid existing desired ≡ ok p)
        ↔ (IsPlannable rid existing desired × (p ≡ planned rid existing desired))
  plan_reconciliation_iff rid existing desired p = (
    plan_reconciliation-planned rid existing desired p,
    λ (valid, e).
        let (q, made) = plan_reconciliation_total rid existing desired valid in
        made ∙ ap ok ((plan_reconciliation-planned rid existing desired q made).1 ∙ sym e),
  )

-- The figures are planned exactly if the record id is not blank, each desired key is the canonical
-- one, and no filename stands twice among the existing or among the desired figures. The plan then
-- creates the figures without a counterpart, updates those that differ from theirs, and deletes
-- the existing ones that are not desired, each list in the order of the rows.
pub plan_figure_reconciliation_iff :
    (rid : Text) (existing desired : List RecordFigure) (p : FigurePlan)
    → (plan_figure_reconciliation rid existing desired ≡ ok p)
      ↔ (IsPlannable figures rid existing desired × (p ≡ planned figures rid existing desired))
unfolding plan_figure_reconciliation
plan_figure_reconciliation_iff = plan_reconciliation_iff figures

-- The data files are planned exactly if the record id is not blank, each desired key is the
-- canonical one, no desired hash is blank, and no filename stands twice among the existing or among
-- the desired data files. The plan then creates the data files without a counterpart, updates those
-- that differ from theirs, and deletes the existing ones that are not desired, each list in the
-- order of the rows.
pub plan_data_file_reconciliation_iff :
    (rid : Text) (existing desired : List RecordDataFile) (p : DataFilePlan)
    → (plan_data_file_reconciliation rid existing desired ≡ ok p) ↔ (
        IsPlannable data_files rid existing desired × (p ≡ planned data_files rid existing desired))
unfolding plan_data_file_reconciliation
plan_data_file_reconciliation_iff = plan_reconciliation_iff data_files
