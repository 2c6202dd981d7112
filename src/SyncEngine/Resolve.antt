-- ===== src/SyncEngine/Resolve.antt =====
-- cli/internal/syncengine/resolve.go: which side of a conflict wins, which records a sync looks
-- at, and the child rows by filename.
pub mod Rank
pub mod Cursor
pub mod Index
use mathlib.Core.Bool.{xor}
use personal_context.Base.{
  ℕ, Bool, true, false, not, ◌&&◌, Option, none, some, List, [], ◌∷◌, ◌==◌, list_eq, nat_eq,
  if◌then◌else◌, Result, ok, err,
}
use personal_context.Text.{Text}
use personal_context.Time.{Time, after, before, is_zero, truncate_to_millisecond}
use personal_context.Repository.Types.{Record, RecordFigure, RecordDataFile}

pub data Outcome : Type 0 where
  equal local remote : Outcome

-- `recordAction`.
pub record RecordAction : Type 0 where
  pub when : Time
  pub deleted : Bool

-- The two branches of `latestRecordAction` at the record's `DeletedAt`.
unfoldable pub action_at : Time → Option Time → RecordAction
action_at updated none = record { when = updated; deleted = false }
action_at updated (some d) =
    let deleted_at = truncate_to_millisecond d in
    if after deleted_at updated
    then record { when = deleted_at; deleted = true }
    else record { when = updated; deleted = false }

unfoldable pub latest_record_action : Record → RecordAction
latest_record_action r = action_at (truncate_to_millisecond r.updated_at) r.deleted_at

abbrev pub is_set {ℓ} : {A : Type ℓ} → Option A → Bool
is_set none = false
is_set (some a) = true

unfoldable pub record_is_more_active : Record → Record → Bool
record_is_more_active left right = not (is_set left.deleted_at) && is_set right.deleted_at

-- The second `switch` of `ResolveRecordWinner`.
unfoldable pub resolve_records : Record → Record → Outcome
unfolding record_is_more_active xor
resolve_records l r =
    let local_action = latest_record_action l in
    let remote_action = latest_record_action r in
    if after local_action.when remote_action.when
    then local
    else if after remote_action.when local_action.when
    then remote
    else if xor local_action.deleted remote_action.deleted
    then (if not local_action.deleted then local else remote)
    else if record_is_more_active l r
    then local
    else if record_is_more_active r l
    then remote
    else equal

pub data ResolveError : Type 0 where
  record_required : ResolveError

unfoldable pub resolve_record_winner : Option Record → Option Record → Result ResolveError Outcome
unfolding resolve_records
resolve_record_winner none none = err record_required
resolve_record_winner none (some r) = ok remote
resolve_record_winner (some l) none = ok local
resolve_record_winner (some l) (some r) = ok (resolve_records l r)

-- The loop of `FilterRecordsUpdatedSince`.
updated_from : Time → List Record → List Record
updated_from threshold [] = []
updated_from threshold (r ∷ records) =
    let rest = updated_from threshold records in
    if not (before (truncate_to_millisecond r.updated_at) threshold) then r ∷ rest else rest

unfoldable pub filter_records_updated_since : List Record → Time → List Record
unfolding updated_from
filter_records_updated_since records since =
    if is_zero since then records else updated_from (truncate_to_millisecond since) records

-- A Go map from filenames, as a list of its entries; the program reads it by key only.
abbrev pub ByFilename : Type 0 → Type 0
ByFilename Row = List (Text × Row)

module _ {Row : Type 0} where
  unfoldable pub lookup : Text → ByFilename Row → Option Row
  lookup name [] = none
  lookup name ((n, row) ∷ m) = if n == name then some row else lookup name m

pub data IndexError : Type 0 where
  duplicate_filename : Text → IndexError

-- `FigureMapByFilename` and `DataFileMapByFilename`, whose text is the same but for the row.
module _ {Row : Type 0} (filename : Row → Text) where
  unfoldable pub map_by_filename : List Row → ByFilename Row → Result IndexError (ByFilename Row)
  unfolding lookup
  map_by_filename [] indexed = ok indexed
  map_by_filename (row ∷ rows) indexed =
      let rest = map_by_filename rows ((filename row, row) ∷ indexed) in
      if is_set (lookup (filename row) indexed)
      then err (duplicate_filename (filename row))
      else rest

unfoldable pub figure_map_by_filename :
    List RecordFigure → Result IndexError (ByFilename RecordFigure)
unfolding map_by_filename
figure_map_by_filename figures = map_by_filename (λ (f : RecordFigure). f.filename) figures []

unfoldable pub data_file_map_by_filename :
    List RecordDataFile → Result IndexError (ByFilename RecordDataFile)
unfolding map_by_filename
data_file_map_by_filename files = map_by_filename (λ (f : RecordDataFile). f.filename) files []
