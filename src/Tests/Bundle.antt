-- ===== src/Tests/Bundle.antt =====
-- sync/conflict.go, the bundles, and the records that sync/service.go applies.
use personal_context.Base.{arith, ◌≡◌, ◌≢◌, refl, true, none, some, [], ◌∷◌, ok, nat_eq, list_eq}
use personal_context.Text.{codes, trim_space, is_space, contains, has_first, split}
use personal_context.Time.{truncate, truncate_to_millisecond, truncate_to_millisecond_idem}
use personal_context.Repository.AssetKey.{
  validate_record_asset_key, canonical_record_asset_key, validate_asset_path_segment,
  check_asset_key,
}
use personal_context.SyncEngine.Resolve.{
  resolve_record_winner, latest_record_action, action_at, map_by_filename, lookup,
}
use personal_context.SyncEngine.Resolve.Rank.{rank, by_rank}
use personal_context.Sync.Children.{figures, data_files, figure_differs}
use personal_context.Sync.Plan.{
  FigurePlan, DataFilePlan, plan_figure_reconciliation, plan_data_file_reconciliation,
}
use personal_context.Sync.Bundle.{
  RecordBundle, local, neither, resolve_bundle, winning, record_payloads_equal,
  nullable_strings_equal, source_has_exact_figure_superset, source_has_exact_data_file_superset,
  source_bundle_can_repair_target_children,
}
use personal_context.Sync.Bundle.Resolution.{
  IsSameRecord, resolve_bundle-rank, other_side, resolve_bundle-other_side,
}
use personal_context.Sync.Bundle.Repair.{IsAdditive, repair-IsAdditive}
use personal_context.Sync.Bundle.Applied.{apply_record, resolve_bundle-apply_record}
use personal_context.Tests.Data.{note_at, plot, map_of}

abbrev newer : RecordBundle
newer = record {
  row = note_at 7000000 none;
  figures = plot 1 none ∷ map_of 2 ∷ [];
  data_files = [];
}

abbrev older : RecordBundle
older = record { row = note_at 4000000 (some 5000000); figures = plot 8 none ∷ []; data_files = [] }

-- The record of `newer`, with fewer figures.
abbrev partial : RecordBundle
partial = record { row = note_at 7000000 none; figures = plot 8 none ∷ []; data_files = [] }

id_given : trim_space newer.row.id ≢ []
unfolding trim_space is_space nat_eq
id_given h = cc

same_record : IsSameRecord newer older
same_record = record { id_given = id_given; ids_match = refl }

resolve_bundle-rank_example :
    resolve_bundle newer older
    ≡ ok (winning newer older (by_rank (rank newer.row) (rank older.row)))
resolve_bundle-rank_example = resolve_bundle-rank newer older same_record

newer_wins : resolve_bundle newer older ≡ ok (some newer, local)
unfolding resolve_bundle resolve_record_winner latest_record_action action_at
    truncate_to_millisecond trim_space is_space nat_eq list_eq
newer_wins = refl

resolve_bundle-other_side_example : resolve_bundle older newer ≡ ok (some newer, other_side local)
resolve_bundle-other_side_example = resolve_bundle-other_side newer older newer_wins

other_time : truncate_to_millisecond newer.row.updated_at ≢ older.row.updated_at
unfolding truncate_to_millisecond truncate
other_time h = let e : 7000000 ≡ 4000000 = h in omega (arith, e)

resolve_bundle-apply_record_example :
    let after = record older {
      row = apply_record truncate_to_millisecond 9000000 newer.row older.row;
    } in
    (resolve_bundle newer after ≡ ok (none, neither))
    × (resolve_bundle after newer ≡ ok (none, neither))
    × (record_payloads_equal newer.row after.row ≡ true)
resolve_bundle-apply_record_example =
    resolve_bundle-apply_record truncate_to_millisecond 9000000 newer older
      truncate_to_millisecond_idem id_given refl other_time

abbrev adding : FigurePlan
adding = record {
  creates = figures.create_input (codes "r1") (map_of 2) ∷ [];
  updates = [];
  delete_ids = [];
}

abbrev nothing : DataFilePlan
nothing = record { creates = []; updates = []; delete_ids = [] }

can_repair : source_bundle_can_repair_target_children newer partial ≡ true
unfolding source_bundle_can_repair_target_children source_has_exact_figure_superset
    source_has_exact_data_file_superset record_payloads_equal nullable_strings_equal list_eq nat_eq
    lookup figure_differs
can_repair = refl

figures_added : plan_figure_reconciliation (codes "r1") partial.figures newer.figures ≡ ok adding
unfolding plan_figure_reconciliation validate_record_asset_key canonical_record_asset_key
    validate_asset_path_segment check_asset_key trim_space is_space contains has_first split nat_eq
    list_eq map_by_filename
figures_added = refl

data_files_kept :
    plan_data_file_reconciliation (codes "r1") partial.data_files newer.data_files ≡ ok nothing
unfolding plan_data_file_reconciliation trim_space is_space nat_eq list_eq map_by_filename
data_files_kept = refl

repair-IsAdditive_example : IsAdditive figures adding × IsAdditive data_files nothing
repair-IsAdditive_example =
    repair-IsAdditive (codes "r1") newer partial can_repair figures_added data_files_kept
