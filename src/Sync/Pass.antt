-- ===== src/Sync/Pass.antt =====
-- cli/internal/sync/service.go: one pass over the changed records, from a source to a target.
pub mod Grows
pub mod Covers
pub mod Keeps
use personal_context.Base.{
  ℕ, Bool, true, false, not, ◌&&◌, List, [], ◌∷◌, if◌then◌else◌, Option, none, some, Result, ok,
  err, map_result,
}
use personal_context.Text.{Text}
use personal_context.Time.{Time, truncate_to_millisecond}
use personal_context.Repository.Types.{Record}
use personal_context.Repository.Errors.{RepositoryError, not_found}
use personal_context.Repository.RecordFilter.{ListRecordsFilter, no_filter}
use personal_context.Repository.Interface.{Repository}
use personal_context.Repository.ProjectPaths.{ProjectPath, CreateProjectPathInput}
use personal_context.SyncEngine.Resolve.{filter_records_updated_since}
use personal_context.Sync.Bundle.{
  RecordBundle, Winner, local, cloud, neither, resolve_bundle,
  source_bundle_can_repair_target_children,
}
use personal_context.Sync.Run.{
  Run, SyncError, stored, resolved, ◌>>=◌, ◌>>◌, give, done, each, reading, writing, pure_call,
}

-- The names and labels are left out: they stand in errors only.
pub record SyncDirection (W : Type 0) : Type 0 where
  pub source : Repository W
  pub target : Repository W
  pub winning_side : Winner
  pub apply : RecordBundle → Option RecordBundle → Run W (Unit {0})

unfoldable pub same_winner : Winner → Winner → Bool
same_winner local local = true
same_winner cloud cloud = true
same_winner neither neither = true
same_winner _ _ = false

abbrev pub path_input_of : ProjectPath → CreateProjectPathInput
path_input_of p = record {
  project_id = p.project_id;
  path = p.path;
  device_id = p.device_id;
  created_at = some p.created_at;
  updated_at = some p.updated_at;
}

-- A record that is not there is no error.
unfoldable pub found_or_none :
    {A : Type 0} → Result RepositoryError A → Result RepositoryError (Option A)
found_or_none (ok r) = ok (some r)
found_or_none (err not_found) = ok none
found_or_none (err e) = err e

abbrev pub every_record : ListRecordsFilter
every_record = record no_filter { include_deleted = true }

module _ {W : Type 0} where
  unfoldable pub sync_registries : Repository W → Repository W → Run W (Unit {0})
  unfolding each
  sync_registries source target = do
    projects ← reading stored (source.list_projects true)
    each projects (λ p. writing stored (target.upsert_project_for_import p))
    devices ← reading stored (source.list_devices true)
    each devices (λ d. writing stored (target.upsert_device_for_import d))
    paths ← reading stored (source.list_project_paths none)
    each paths (λ p. writing stored (target.upsert_project_path (path_input_of p)))

  -- The records that the cursor lets through.
  unfoldable pub list_changed_records : Repository W → Time → Run W (List Record)
  list_changed_records repo since = do
    records ← reading stored (repo.list_records every_record)
    give (filter_records_updated_since records since)

  unfoldable pub bundle_for_record : Repository W → Record → Run W RecordBundle
  bundle_for_record repo r = do
    figures ← reading stored (repo.list_record_figures r.id)
    data_files ← reading stored (repo.list_record_data_files r.id)
    give (record { row = r; figures = figures; data_files = data_files })

  abbrev load_found : Repository W → Option Record → Run W (Option RecordBundle)
  load_found repo none = give none
  load_found repo (some r) = do bundle ← bundle_for_record repo r; give (some bundle)

  unfoldable pub load_bundle : Repository W → Text → Run W (Option RecordBundle)
  unfolding found_or_none bundle_for_record
  load_bundle repo id = do
    found ← reading stored (λ w. found_or_none (repo.get_record_by_id id w))
    load_found repo found

  -- The bundles as `ResolveBundle` takes them, the local one first.
  unfoldable pub resolve_directed : Winner → RecordBundle → RecordBundle → Run W Winner
  resolve_directed cloud source target =
      pure_call resolved (map_result (λ won. won.1) (resolve_bundle target source))
  resolve_directed _ source target =
      pure_call resolved (map_result (λ won. won.1) (resolve_bundle source target))

  -- What follows from the winner: the source is applied if it wins, or if it may repair the
  -- children of a target that is as new.
  unfoldable pub apply_if_won :
      SyncDirection W → RecordBundle → RecordBundle → Winner → Run W (Unit {0})
  unfolding same_winner
  apply_if_won d source target winner =
      if not (same_winner winner d.winning_side)
      then (if same_winner winner neither && source_bundle_can_repair_target_children source target
          then d.apply source (some target)
          else done)
      else d.apply source (some target)

  abbrev sync_loaded : SyncDirection W → RecordBundle → Option RecordBundle → Run W (Unit {0})
  sync_loaded d source none = d.apply source none
  sync_loaded d source (some target) = do
    winner ← resolve_directed d.winning_side source target
    apply_if_won d source target winner

  -- The body of the loop.
  unfoldable pub sync_record : SyncDirection W → Record → Run W (Unit {0})
  unfolding bundle_for_record load_bundle resolve_directed apply_if_won
  sync_record d r = do
    source ← bundle_for_record d.source r
    target ← load_bundle d.target r.id
    sync_loaded d source target

  unfoldable pub sync_changed_records : SyncDirection W → Time → Run W (Unit {0})
  unfolding sync_registries list_changed_records sync_record each
  sync_changed_records d since = do
    sync_registries d.source d.target
    records ← list_changed_records d.source since
    each records (sync_record d)
