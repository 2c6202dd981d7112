-- ===== src/Tests/Plan.antt =====
-- sync/conflict.go, the plans, and the figures of sqlite/repository.go.
use personal_context.Base.{
  ◌≡◌, ◌≢◌, ◌↔◌, refl, true, none, some, [], ◌∷◌, ok, err, Result, List, passed, nat_eq, list_eq,
  ◌==◌, if◌then◌else◌, ◌>>=◌,
}
use personal_context.Text.{codes, is_space, trim_space, contains, has_first, split}
use personal_context.Repository.Types.{RecordFigure}
use personal_context.Repository.Inputs.{UpdateRecordFigureInput}
use personal_context.Repository.AssetKey.{
  validate_record_asset_key, canonical_record_asset_key, validate_asset_path_segment,
  check_asset_key,
}
use personal_context.Repository.Errors.{RepositoryError}
use personal_context.Repository.Figures.{
  FigureTable, select_figure, update_record_figure, is_taken, update_row,
}
use personal_context.Repository.Figures.Laws.{figure_given, get-update_record_figure}
use personal_context.Repository.Columns.{has_length}
use personal_context.SyncEngine.Resolve.{map_by_filename}
use personal_context.Sync.Children.{
  figures, data_files, PlanError, duplicate_desired, check_figure, figure_differs,
  nullable_string_value,
}
use personal_context.Sync.Plan.{
  plan_figure_reconciliation, plan_data_file_reconciliation, FigurePlan, DataFilePlan,
}
use personal_context.Sync.Plan.Exact.{
  IsPlannable, planned, plan_figure_reconciliation_iff, plan_data_file_reconciliation_iff,
}
use personal_context.Sync.Plan.Settle.{is_clearing, figure_differs-update_record_figure}
use personal_context.Tests.Data.{plot, map_of, samples, table}

abbrev old_plot : RecordFigure
old_plot = plot 1 (some (codes "old"))

abbrev update_only : FigurePlan
update_only = record {
  creates = [];
  updates = figures.update_input old_plot (plot 7 (some (codes "new"))) ∷ [];
  delete_ids = 2 ∷ [];
}

plan : List RecordFigure → List RecordFigure → Result PlanError FigurePlan
unfolding plan_figure_reconciliation validate_record_asset_key canonical_record_asset_key
    validate_asset_path_segment check_asset_key trim_space is_space contains has_first split nat_eq
    list_eq map_by_filename
plan = plan_figure_reconciliation (codes "r1")

update : UpdateRecordFigureInput → FigureTable → Result RepositoryError FigureTable
unfolding update_record_figure validate_record_asset_key canonical_record_asset_key
    validate_asset_path_segment check_asset_key trim_space is_space contains has_first split nat_eq
    list_eq select_figure is_taken update_row has_length
update = update_record_figure

one_update_one_delete :
    plan (old_plot ∷ map_of 2 ∷ []) (plot 7 (some (codes "new")) ∷ []) ≡ ok update_only
unfolding plan
one_update_one_delete = refl

duplicate_is_refused : plan [] (map_of 1 ∷ map_of 2 ∷ []) ≡ err (duplicate_desired (codes "b.png"))
unfolding plan
duplicate_is_refused = refl

plan_figure_reconciliation_iff_example :
    (plan_figure_reconciliation
        (codes "r1")
        (old_plot ∷ map_of 2 ∷ [])
        (plot 7 (some (codes "new")) ∷ [])
      ≡ ok update_only)
    ↔ (IsPlannable figures
          (codes "r1")
          (old_plot ∷ map_of 2 ∷ [])
          (plot 7 (some (codes "new")) ∷ [])
        × (update_only
            ≡ planned figures
                (codes "r1")
                (old_plot ∷ map_of 2 ∷ [])
                (plot 7 (some (codes "new")) ∷ [])))
plan_figure_reconciliation_iff_example =
    plan_figure_reconciliation_iff (codes "r1") (old_plot ∷ map_of 2 ∷ [])
      (plot 7 (some (codes "new")) ∷ []) update_only

abbrev resize_only : DataFilePlan
resize_only = record {
  creates = [];
  updates = data_files.update_input (samples 1 10) (samples 4 20) ∷ [];
  delete_ids = [];
}

plan_data_file_reconciliation_iff_example :
    (plan_data_file_reconciliation (codes "r1") (samples 1 10 ∷ []) (samples 4 20 ∷ [])
      ≡ ok resize_only)
    ↔ (IsPlannable data_files (codes "r1") (samples 1 10 ∷ []) (samples 4 20 ∷ [])
        × (resize_only ≡ planned data_files (codes "r1") (samples 1 10 ∷ []) (samples 4 20 ∷ [])))
plan_data_file_reconciliation_iff_example =
    plan_data_file_reconciliation_iff (codes "r1") (samples 1 10 ∷ []) (samples 4 20 ∷ [])
      resize_only

-- The desired figure has no alternative text, and the stored one keeps its own.
abbrev clearing : UpdateRecordFigureInput
clearing = figures.update_input old_plot (plot 7 none)

clearing_changes_nothing : update clearing table ≡ ok table
unfolding update
clearing_changes_nothing = refl

-- The figure under a new name and with a new text.
abbrev renaming : UpdateRecordFigureInput
renaming = record {
  id = 1;
  filename = codes "c.png";
  s3_key = codes "figures/r1/c.png";
  alt_text = some (codes "new");
}

abbrev renamed_table : FigureTable
renamed_table = record table {
  rows =
      record old_plot {
        filename = codes "c.png";
        s3_key = codes "figures/r1/c.png";
        alt_text = some (codes "new");
      }
      ∷ map_of 2
      ∷ [];
}

renames : update renaming table ≡ ok renamed_table
unfolding update
renames = refl

renaming_key_given : renaming.s3_key ≢ []
renaming_key_given h = cc

get-update_record_figure_example : select_figure renamed_table.rows 1 ≡ (
    if 1 == renaming.id
    then (do f ← select_figure table.rows 1; ok (figure_given renaming f))
    else select_figure table.rows 1)
get-update_record_figure_example =
    get-update_record_figure renaming table renamed_table 1 renaming_key_given
      (unfold update in renames)

check_plot : check_figure (codes "r1") (plot 7 none) ≡ passed
unfolding check_figure plan
check_plot = refl

get_old_plot : select_figure table.rows 1 ≡ ok old_plot
unfolding select_figure nat_eq
get_old_plot = refl

figure_differs-update_record_figure_example :
    (f : RecordFigure) × (select_figure table.rows 1 ≡ ok f)
    × (f.filename ≡ codes "a.png")
    × (figure_differs f (plot 7 none) ≡ is_clearing old_plot (plot 7 none))
figure_differs-update_record_figure_example =
    figure_differs-update_record_figure (codes "r1") old_plot (plot 7 none) table table check_plot
      get_old_plot (unfold update in clearing_changes_nothing)

clearing_is_lost : is_clearing old_plot (plot 7 none) ≡ true
unfolding nullable_string_value list_eq
clearing_is_lost = refl
