-- ===== src/Sync/Bundle.antt =====
-- cli/internal/sync/conflict.go: which bundle wins, and when an equal source may still repair the
-- child rows of its target. sync/service.go: the fields that applying a bundle copies.
pub mod Resolution
pub mod Applied
pub mod Repair
use personal_context.Base.{
  ℕ, Bool, true, false, not, ◌&&◌, ◌||◌, Option, none, some, List, [], ◌∷◌, ◌==◌, nat_eq, list_eq,
  option_eq, length, ltb, if◌then◌else◌, Result, ok, err, map_err, ◌>>=◌,
}
use personal_context.Text.{Text, trim_space}
use personal_context.Repository.Types.{Record, RecordFigure, RecordDataFile}
use personal_context.SyncEngine.Resolve.{
  Outcome, ResolveError, ByFilename, lookup, resolve_record_winner,
}
use personal_context.SyncEngine.Resolve
use personal_context.Sync.Children.{figure_differs, data_file_differs}

pub data Winner : Type 0 where
  local cloud neither : Winner

pub record RecordBundle : Type 0 where
  pub row : Record
  pub figures : List RecordFigure
  pub data_files : List RecordDataFile

pub data BundleError : Type 0 where
  local_id_required cloud_id_required : BundleError
  ids_differ : Text → Text → BundleError
  unresolved : ResolveError → BundleError

-- `RecordBundle{}`, which stands beside an error or `WinnerNone`, is `none`.
abbrev pub winning : RecordBundle → RecordBundle → Outcome → Option RecordBundle × Winner
winning l c Outcome.local = (some l, local)
winning l c Outcome.remote = (some c, cloud)
winning l c Outcome.equal = (none, neither)

unfoldable pub resolve_bundle :
    RecordBundle → RecordBundle → Result BundleError (Option RecordBundle × Winner)
resolve_bundle l c =
    let local_id = trim_space l.row.id in
    let cloud_id = trim_space c.row.id in
    if local_id == []
    then err local_id_required
    else if cloud_id == []
    then err cloud_id_required
    else if not (local_id == cloud_id)
    then err (ids_differ local_id cloud_id)
    else do
      outcome ← map_err unresolved (resolve_record_winner (some l.row) (some c.row))
      ok (winning l c outcome)

unfoldable pub nullable_strings_equal : Option Text → Option Text → Bool
nullable_strings_equal none none = true
nullable_strings_equal none (some s) = false
nullable_strings_equal (some s) none = false
nullable_strings_equal (some s) (some t) = s == t

unfoldable pub record_payloads_equal : Record → Record → Bool
record_payloads_equal l r =
    l.id == r.id
    && l.date == r.date
    && l.day_order == r.day_order
    && nullable_strings_equal l.html_content r.html_content
    && nullable_strings_equal l.notes r.notes
    && l.project_id == r.project_id
    && l.source_device_id == r.source_device_id
    && nullable_strings_equal l.source_ref r.source_ref
    && nullable_strings_equal l.git_remote_url r.git_remote_url
    && nullable_strings_equal l.git_hash r.git_hash

-- `sourceByFilename`: a later row takes the place of an earlier one of its name.
module _ {Row : Type 0} (filename : Row → Text) (differs : Row → Row → Bool) where
  pub index_rows : List Row → ByFilename Row → ByFilename Row
  index_rows [] indexed = indexed
  index_rows (row ∷ rows) indexed = index_rows rows ((filename row, row) ∷ indexed)

  abbrev matches : Row → Option Row → Bool
  matches row none = false
  matches row (some found) = not (differs row found)

  pub all_match : ByFilename Row → List Row → Bool
  all_match indexed [] = true
  all_match indexed (row ∷ rows) =
      matches row (lookup (filename row) indexed) && all_match indexed rows

  pub has_exact_superset : List Row → List Row → Bool
  unfolding index_rows all_match
  has_exact_superset source target =
      if ltb (length source) (length target) then false else all_match (index_rows source []) target

unfoldable pub source_has_exact_figure_superset : List RecordFigure → List RecordFigure → Bool
unfolding has_exact_superset
source_has_exact_figure_superset = has_exact_superset RecordFigure.filename figure_differs

unfoldable pub source_has_exact_data_file_superset :
    List RecordDataFile → List RecordDataFile → Bool
unfolding has_exact_superset
source_has_exact_data_file_superset = has_exact_superset RecordDataFile.filename data_file_differs

unfoldable pub source_bundle_can_repair_target_children : RecordBundle → RecordBundle → Bool
source_bundle_can_repair_target_children source target =
    if not (record_payloads_equal source.row target.row)
    then false
    else if not (source_has_exact_figure_superset source.figures target.figures)
        || not (source_has_exact_data_file_superset source.data_files target.data_files)
    then false
    else ltb (length target.figures) (length source.figures)
      || ltb (length target.data_files) (length source.data_files)
