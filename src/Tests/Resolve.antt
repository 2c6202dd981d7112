-- ===== src/Tests/Resolve.antt =====
-- syncengine/resolve.go.
use mathlib.Core.List.{Mem, mem-cons_self}
use personal_context.Base.{◌≡◌, ◌↔◌, refl, none, some, [], ◌∷◌, ok, arith, nat_eq}
use personal_context.Time.{truncate_to_millisecond}
use personal_context.Repository.Types.{Record, RecordFigure}
use personal_context.SyncEngine.Resolve.{
  ByFilename, local, remote, action_at, latest_record_action, resolve_records,
  resolve_record_winner, filter_records_updated_since, figure_map_by_filename,
}
use personal_context.SyncEngine.Resolve.Rank.{
  rank, by_rank, resolve_records-by_rank, resolve_record_winner_trans,
}
use personal_context.SyncEngine.Resolve.Cursor.{
  IsChanged, mem-filter_records_updated_since, filter_records_updated_since_complete,
}
use personal_context.SyncEngine.Resolve.Index.{DistinctNames, Indexes, figure_map_by_filename_iff}
use personal_context.Tests.Data.{note_at, plot, map_of}

abbrev edited : Record
edited = note_at 5000000 none

abbrev restored : Record
restored = note_at 5000000 (some 5000000)

abbrev removed : Record
removed = note_at 4000000 (some 5000000)

edit_beats_tie : resolve_records restored edited ≡ remote
unfolding resolve_records latest_record_action action_at truncate_to_millisecond
edit_beats_tie = refl

edit_beats_delete : resolve_record_winner (some edited) (some restored) ≡ ok local
unfolding resolve_record_winner latest_record_action action_at truncate_to_millisecond
edit_beats_delete = refl

tie_beats_delete : resolve_record_winner (some restored) (some removed) ≡ ok local
unfolding resolve_record_winner latest_record_action action_at truncate_to_millisecond
tie_beats_delete = refl

resolve_records-by_rank_example :
    resolve_records edited removed ≡ by_rank (rank edited) (rank removed)
resolve_records-by_rank_example = resolve_records-by_rank edited removed

resolve_record_winner_trans_example : resolve_record_winner (some edited) (some removed) ≡ ok local
resolve_record_winner_trans_example =
    resolve_record_winner_trans edited restored removed edit_beats_delete tie_beats_delete

mem-filter_records_updated_since_example :
    Mem edited (filter_records_updated_since (edited ∷ removed ∷ []) 4500000)
    ↔ (Mem edited (edited ∷ removed ∷ []) × IsChanged 4500000 edited)
mem-filter_records_updated_since_example =
    mem-filter_records_updated_since edited (edited ∷ removed ∷ []) 4500000

filter_keeps_millisecond :
    filter_records_updated_since (edited ∷ removed ∷ []) 5000999 ≡ edited ∷ []
unfolding filter_records_updated_since truncate_to_millisecond nat_eq
filter_keeps_millisecond = refl

filter_records_updated_since_complete_example :
    Mem edited (filter_records_updated_since (edited ∷ []) (truncate_to_millisecond 5000000))
filter_records_updated_since_complete_example =
    filter_records_updated_since_complete edited (edited ∷ []) 5000000 mem-cons_self (omega arith)

figure_map_by_filename_iff_example :
    DistinctNames RecordFigure.filename (plot 1 none ∷ map_of 2 ∷ []) ↔ (
      (m : ByFilename RecordFigure) × (figure_map_by_filename (plot 1 none ∷ map_of 2 ∷ []) ≡ ok m)
      × Indexes RecordFigure.filename m (plot 1 none ∷ map_of 2 ∷ []))
figure_map_by_filename_iff_example = figure_map_by_filename_iff (plot 1 none ∷ map_of 2 ∷ [])
