-- ===== src/Sync/Plan.antt =====
-- cli/internal/sync/conflict.go: the plan that brings the child rows of one side to those of the
-- winning side, matched by filename.
pub mod Spec
pub mod Exact
pub mod Settle
use personal_context.Base.{
  ℕ, Bool, Option, none, some, List, [], ◌∷◌, ◌++◌, ◌==◌, nat_eq, list_eq, if◌then◌else◌, Result,
  ok, err, map_err, ◌>>=◌, ◌>>◌,
}
use personal_context.Text.{Text, trim_space}
use personal_context.Repository.Types.{RecordFigure, RecordDataFile}
use personal_context.SyncEngine.Resolve.{ByFilename, lookup, is_set, map_by_filename}
use personal_context.Sync.Children.{
  Children, PlanError, record_id_required, existing_rows, duplicate_desired, figures, data_files,
  check_figure, figure_differs, check_data_file, data_file_differs,
}

module _ (k : Children) where
  open k use {Row, Create, Update, id, filename, check, differs, create_input, update_input}

  pub record Plan : Type 0 where
    pub creates : List Create
    pub updates : List Update
    pub delete_ids : List ℕ

  -- The plan so far, and `desiredByFilename`.
  pub record Progress : Type 0 where
    pub creates : List Create
    pub updates : List Update
    pub desired : ByFilename Row

  -- The end of the loop's body, at what the index of the existing rows holds.
  abbrev match_row : Text → Row → Option Row → Progress → Progress
  match_row rid row none p = record p { creates = p.creates ++ create_input rid row ∷ [] }
  match_row rid row (some e) p =
      if differs e row then record p { updates = p.updates ++ update_input e row ∷ [] } else p

  pub plan_row : Text → ByFilename Row → Progress → Row → Result PlanError Progress
  plan_row rid existing p row = do
    check rid row
    if is_set (lookup (filename row) p.desired)
        then err (duplicate_desired (filename row))
        else ok (
            match_row rid row (lookup (filename row) existing)
              (record p { desired = (filename row, row) ∷ p.desired }))

  pub plan_rows : Text → ByFilename Row → Progress → List Row → Result PlanError Progress
  plan_rows rid existing p [] = ok p
  plan_rows rid existing p (row ∷ rows) = do
    p' ← plan_row rid existing p row
    plan_rows rid existing p' rows

  delete_ids_of : ByFilename Row → List Row → List ℕ
  delete_ids_of desired [] = []
  delete_ids_of desired (row ∷ rows) =
      let rest = delete_ids_of desired rows in
      if is_set (lookup (filename row) desired) then rest else id row ∷ rest

  abbrev start : Progress
  start = record { creates = []; updates = []; desired = [] }

  -- The plan, once the desired rows are read.
  abbrev finish : List Row → Progress → Result PlanError Plan
  finish existing p = ok (record {
    creates = p.creates;
    updates = p.updates;
    delete_ids = delete_ids_of p.desired existing;
  })

  -- The plan, once the existing rows are indexed.
  abbrev plan_indexed : Text → List Row → List Row → ByFilename Row → Result PlanError Plan
  plan_indexed rid existing desired by_filename = do
    p ← plan_rows rid by_filename start desired
    finish existing p

  unfoldable pub plan_reconciliation : Text → List Row → List Row → Result PlanError Plan
  unfolding plan_rows plan_row delete_ids_of
  plan_reconciliation rid existing desired =
      if trim_space rid == [] then err record_id_required else do
        by_filename ← map_err existing_rows (map_by_filename filename existing [])
        plan_indexed rid existing desired by_filename

abbrev pub FigurePlan : Type 0
FigurePlan = Plan figures

abbrev pub DataFilePlan : Type 0
DataFilePlan = Plan data_files

unfoldable pub plan_figure_reconciliation :
    Text → List RecordFigure → List RecordFigure → Result PlanError FigurePlan
unfolding plan_reconciliation check_figure figure_differs
plan_figure_reconciliation = plan_reconciliation figures

unfoldable pub plan_data_file_reconciliation :
    Text → List RecordDataFile → List RecordDataFile → Result PlanError DataFilePlan
unfolding plan_reconciliation check_data_file data_file_differs
plan_data_file_reconciliation = plan_reconciliation data_files
