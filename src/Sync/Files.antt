-- ===== src/Sync/Files.antt =====
-- cli/internal/sync/service.go: the files and objects that a sync moves.
pub mod Keeps
use personal_context.Base.{
  ℕ, Bool, true, false, List, [], ◌∷◌, Result, ok, err, Checked, passed, Option, none, some,
}
use personal_context.Text.{Text}
use personal_context.Repository.Types.{RecordFigure}
use personal_context.Sync.Outside.{Outside, OutsideError, absent, Content}
use personal_context.Sync.Run.{Run, SyncError, ◌>>=◌, ◌>>◌, give, done, each, reading}
use personal_context.Sync.World.{World, acting, looking}

-- On an error of the first call the second one follows, whose own error is dropped.
abbrev after_failure :
    {W : Type 0} → W × Checked SyncError → Run W (Unit {0}) → W × Checked SyncError
after_failure (w, ok _) cleanup = (w, passed)
after_failure (w, err e) cleanup = ((cleanup w).0, err e)

abbrev or_cleanup : {W : Type 0} → Run W (Unit {0}) → Run W (Unit {0}) → Run W (Unit {0})
or_cleanup call cleanup w = after_failure (call w) cleanup

-- `syncedFilePermission` and `syncedChatRawFilePermission`.
abbrev pub synced_file_permission : ℕ
synced_file_permission = 420

abbrev pub synced_chat_raw_file_permission : ℕ
synced_chat_raw_file_permission = 384

-- Whether a file is there, by the result of `os.Stat`.
abbrev presence : Checked OutsideError → Result OutsideError Bool
presence (ok _) = ok true
presence (err absent) = ok false
presence (err e) = err e

-- `os.IsNotExist` is no error of a removal.
abbrev unless_absent : {O : Type 0} → O × Checked OutsideError → O × Checked OutsideError
unless_absent (o, ok _) = (o, passed)
unless_absent (o, err absent) = (o, passed)
unless_absent (o, err e) = (o, err e)

module _ {L C O : Type 0} (os : Outside O) where
  -- What fills the temporary file and puts it in the place of the other.
  unfoldable pub fill_and_rename : Text → Text → Content → ℕ → Run (World L C O) (Unit {0})
  fill_and_rename temp path body perm = do
    or_cleanup (acting (os.chmod temp perm)) (acting (os.close temp))
    or_cleanup (acting (os.copy temp body)) (acting (os.close temp))
    or_cleanup (acting (os.sync_file temp)) (acting (os.close temp))
    acting (os.close temp)
    acting (os.rename temp path)

  unfoldable pub write_reader_to_path_with_perm : Text → Content → ℕ → Run (World L C O) (Unit {0})
  unfolding fill_and_rename
  write_reader_to_path_with_perm path body perm = do
    acting (os.mkdir_all (os.dir path))
    temp ← acting (os.create_temp (os.dir path))
    or_cleanup (fill_and_rename temp path body perm) (acting (os.remove temp))

  unfoldable pub upload_file : Text → Text → Run (World L C O) (Unit {0})
  upload_file key path = do body ← looking (os.open_file path); acting (os.upload key body)

  abbrev upload_present : Text → Text → Bool → Run (World L C O) Bool
  upload_present key path true = do upload_file key path; give true
  upload_present key path false = give false

  -- `uploadDataFileIfPresent` and `uploadChatSourceIfPresent`, which are one text.
  unfoldable pub upload_data_file_if_present : Text → Text → Run (World L C O) Bool
  unfolding upload_file
  upload_data_file_if_present key path = do
    present ← looking (λ o. presence (os.stat path o))
    upload_present key path present

  unfoldable pub download_file : Text → Text → Run (World L C O) (Unit {0})
  unfolding write_reader_to_path_with_perm
  download_file key path = do
    body ← acting (os.download key)
    write_reader_to_path_with_perm path body synced_file_permission

  unfoldable pub remove_file_if_present : Text → Run (World L C O) (Unit {0})
  remove_file_if_present path = acting (λ o. unless_absent (os.remove path o))

  unfoldable pub remove_local_figure_file_if_present : Text → Text → Run (World L C O) (Unit {0})
  unfolding remove_file_if_present
  remove_local_figure_file_if_present rid name = do
    path ← looking (os.resolve_figure_path rid name)
    remove_file_if_present path

  unfoldable pub remove_local_data_file_if_present : Text → Text → Run (World L C O) (Unit {0})
  unfolding remove_file_if_present
  remove_local_data_file_if_present rid name = do
    path ← looking (os.resolve_data_file_path rid name)
    remove_file_if_present path

  unfoldable pub upload_desired_figure_files :
      Text → List RecordFigure → Run (World L C O) (Unit {0})
  unfolding upload_file each
  upload_desired_figure_files rid desired =
      each desired
        (λ f. do path ← looking (os.resolve_figure_path rid f.filename); upload_file f.s3_key path)

  unfoldable pub download_desired_figure_files :
      Text → List RecordFigure → Run (World L C O) (Unit {0})
  unfolding download_file each
  download_desired_figure_files rid desired =
      each desired (λ f. do
        path ← looking (os.resolve_figure_path rid f.filename)
        download_file f.s3_key path)
