-- ===== src/Sync/Apply.antt =====
-- cli/internal/sync/service.go: the application of a winning bundle to the cloud and to the local
-- side.
pub mod Keeps
pub mod Records
use personal_context.Base.{
  ℕ, Bool, true, false, not, ◌&&◌, List, [], ◌∷◌, ◌==◌, nat_eq, list_eq, if◌then◌else◌, Option,
  none, some,
}
use personal_context.Text.{Text}
use personal_context.Repository.Types.{Record, RecordFigure, RecordDataFile}
use personal_context.Repository.Inputs.{
  CreateRecordFigureInput, UpdateRecordFigureInput, CreateRecordDataFileInput,
  UpdateRecordDataFileInput,
}
use personal_context.Repository.Interface.{Repository}
use personal_context.Sync.Bundle.{RecordBundle}
use personal_context.Sync.Plan.{plan_figure_reconciliation, plan_data_file_reconciliation}
use personal_context.Sync.Service.{update_input_of, create_input_of}
use personal_context.Sync.Outside.{Outside}
use personal_context.Sync.Run.{
  Run, SyncError, stored, planned, local_file_required, ◌>>=◌, ◌>>◌, give, done, fail, each,
  writing, pure_call,
}
use personal_context.Sync.World.{World, on_local, on_cloud, acting, looking}
use personal_context.Sync.Files.{
  upload_data_file_if_present, upload_desired_figure_files, download_desired_figure_files,
  remove_local_figure_file_if_present, remove_local_data_file_if_present,
}

-- `indexFiguresByID(rows)[id]`: the last row of the id, or `RecordFigure{}`.
abbrev zero_figure : RecordFigure
zero_figure = record {
  id = 0;
  record_id = [];
  filename = [];
  s3_key = [];
  alt_text = none;
  created_at = 0;
}

unfoldable pub figure_by_id : ℕ → List RecordFigure → RecordFigure → RecordFigure
figure_by_id id [] found = found
figure_by_id id (f ∷ fs) found = figure_by_id id fs (if f.id == id then f else found)

abbrev zero_data_file : RecordDataFile
zero_data_file = record {
  id = 0;
  record_id = [];
  filename = [];
  s3_key = [];
  size = 0;
  hash = [];
  description = none;
  created_at = 0;
}

unfoldable pub data_file_by_id : ℕ → List RecordDataFile → RecordDataFile → RecordDataFile
data_file_by_id id [] found = found
data_file_by_id id (f ∷ fs) found = data_file_by_id id fs (if f.id == id then f else found)

-- `figuresOf` and `dataFilesOf`.
abbrev pub figures_of : Option RecordBundle → List RecordFigure
figures_of none = []
figures_of (some b) = b.figures

abbrev pub data_files_of_bundle : Option RecordBundle → List RecordDataFile
data_files_of_bundle none = []
data_files_of_bundle (some b) = b.data_files

abbrev pub is_given : {A : Type 0} → Option A → Bool
is_given none = false
is_given (some a) = true

-- `applyRecord`, on any repository.
unfoldable pub apply_record_to : {W : Type 0} → Repository W → Record → Bool → Run W (Unit {0})
apply_record_to repo r exists =
    if exists
    then writing stored (repo.update_record (update_input_of r))
    else writing stored (repo.create_record (create_input_of r))

module _ {L C O : Type 0} (local_repo : Repository L) (cloud_repo : Repository C)
    (os : Outside O) where
  abbrev at_local : Repository (World L C O)
  at_local = on_local local_repo

  abbrev at_cloud : Repository (World L C O)
  at_cloud = on_cloud cloud_repo

  -- `cloudObjects.Delete`, unless the object is the one that is still used.
  abbrev delete_replaced : Text → Text → Run (World L C O) (Unit {0})
  delete_replaced old new = if not (old == new) then acting (os.delete old) else done

  unfoldable pub apply_figures_to_cloud :
      Text → List RecordFigure → List RecordFigure → Run (World L C O) (Unit {0})
  unfolding upload_desired_figure_files plan_figure_reconciliation figure_by_id each
  apply_figures_to_cloud rid desired existing = do
    upload_desired_figure_files os rid desired
    plan ← pure_call planned (plan_figure_reconciliation rid existing desired)
    each plan.creates (λ c. writing stored (at_cloud.create_record_figure c))
    each plan.updates (λ u. do
      writing stored (at_cloud.update_record_figure u)
      delete_replaced (figure_by_id u.id existing zero_figure).s3_key u.s3_key)
    each plan.delete_ids (λ id. do
      writing stored (at_cloud.delete_record_figure id)
      acting (os.delete (figure_by_id id existing zero_figure).s3_key))

  -- The rest of an update of a data file, once its file is uploaded if there is one.
  abbrev update_cloud_data_file :
      UpdateRecordDataFileInput → Text → Text → Bool → Run (World L C O) (Unit {0})
  update_cloud_data_file u old_key path uploaded =
      if not uploaded && not (old_key == u.s3_key)
      then fail (local_file_required path old_key u.s3_key)
      else do
        writing stored (at_cloud.update_record_data_file u)
        if uploaded then delete_replaced old_key u.s3_key else done

  unfoldable pub apply_data_files_to_cloud :
      Text → List RecordDataFile → List RecordDataFile → Run (World L C O) (Unit {0})
  unfolding upload_data_file_if_present plan_data_file_reconciliation data_file_by_id each
  apply_data_files_to_cloud rid desired existing = do
    plan ← pure_call planned (plan_data_file_reconciliation rid existing desired)
    each plan.creates (λ c. do
      path ← looking (os.resolve_data_file_path rid c.filename)
      _ ← upload_data_file_if_present os c.s3_key path
      writing stored (at_cloud.create_record_data_file c))
    each plan.updates (λ u. do
      path ← looking (os.resolve_data_file_path rid u.filename)
      uploaded ← upload_data_file_if_present os u.s3_key path
      update_cloud_data_file u (data_file_by_id u.id existing zero_data_file).s3_key path uploaded)
    each plan.delete_ids (λ id. do
      writing stored (at_cloud.delete_record_data_file id)
      acting (os.delete (data_file_by_id id existing zero_data_file).s3_key))

  unfoldable pub apply_figures_to_local :
      Text → List RecordFigure → List RecordFigure → Run (World L C O) (Unit {0})
  unfolding download_desired_figure_files plan_figure_reconciliation figure_by_id each
      remove_local_figure_file_if_present
  apply_figures_to_local rid desired existing = do
    download_desired_figure_files os rid desired
    plan ← pure_call planned (plan_figure_reconciliation rid existing desired)
    each plan.creates (λ c. writing stored (at_local.create_record_figure c))
    each plan.updates (λ u. writing stored (at_local.update_record_figure u))
    each plan.delete_ids (λ id. do
      writing stored (at_local.delete_record_figure id)
      remove_local_figure_file_if_present os rid (figure_by_id id existing zero_figure).filename)

  unfoldable pub apply_data_files_to_local :
      Text → List RecordDataFile → List RecordDataFile → Run (World L C O) (Unit {0})
  unfolding plan_data_file_reconciliation data_file_by_id each remove_local_data_file_if_present
  apply_data_files_to_local rid desired existing = do
    plan ← pure_call planned (plan_data_file_reconciliation rid existing desired)
    each plan.creates (λ c. do
      writing stored (at_local.create_record_data_file c)
      remove_local_data_file_if_present os rid c.filename)
    each plan.updates (λ u. do
      writing stored (at_local.update_record_data_file u)
      remove_local_data_file_if_present os rid u.filename)
    each plan.delete_ids (λ id. do
      writing stored (at_local.delete_record_data_file id)
      remove_local_data_file_if_present os rid
          (data_file_by_id id existing zero_data_file).filename)

  unfoldable pub apply_bundle_to_cloud :
      RecordBundle → Option RecordBundle → Run (World L C O) (Unit {0})
  unfolding apply_record_to apply_figures_to_cloud apply_data_files_to_cloud
  apply_bundle_to_cloud desired existing = do
    apply_record_to at_cloud desired.row (is_given existing)
    apply_figures_to_cloud desired.row.id desired.figures (figures_of existing)
    apply_data_files_to_cloud desired.row.id desired.data_files (data_files_of_bundle existing)

  unfoldable pub apply_bundle_to_local :
      RecordBundle → Option RecordBundle → Run (World L C O) (Unit {0})
  unfolding apply_record_to apply_figures_to_local apply_data_files_to_local
  apply_bundle_to_local desired existing = do
    apply_record_to at_local desired.row (is_given existing)
    apply_figures_to_local desired.row.id desired.figures (figures_of existing)
    apply_data_files_to_local desired.row.id desired.data_files (data_files_of_bundle existing)
