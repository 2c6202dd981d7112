-- ===== src/Sync/Files/Keeps.antt =====
-- service.go: the moves of files and objects change nothing but what is outside the databases.
use personal_context.Base.{Bool, true, false, List, Result, ok, err, Checked, ℕ}
use personal_context.Text.{Text}
use personal_context.Repository.Types.{RecordFigure}
use personal_context.Sync.Outside.{Outside, OutsideError, Content}
use personal_context.Sync.Run.{Run, SyncError}
use personal_context.Sync.Run.Keeps.{Order, Keeps, bind-Keeps, each-Keeps, give-Keeps}
use personal_context.Sync.World.{World, acting, looking}
use personal_context.Sync.Files.{
  after_failure, or_cleanup, fill_and_rename, write_reader_to_path_with_perm, upload_file,
  upload_data_file_if_present, upload_present, download_file, remove_file_if_present,
  remove_local_figure_file_if_present, remove_local_data_file_if_present,
  upload_desired_figure_files, download_desired_figure_files, synced_file_permission,
}

module _ {L C O : Type 0} {R : World L C O → World L C O → Type 0} (o : Order R)
    (free : (w : World L C O) (outside : O) → R w (record w { outside = outside })) where
  pub acting-Keeps : {A : Type 0} (call : O → O × Result OutsideError A) → Keeps R (acting call)
  acting-Keeps call = record { keeps = λ w. free w (call w.outside).0 }

  pub looking-Keeps : {A : Type 0} (call : O → Result OutsideError A) → Keeps R (looking call)
  looking-Keeps call = record { keeps = λ w. o.here w }

  after_failure-keeps :
      (w : World L C O) (p : World L C O × Checked SyncError)
      (cleanup : Run (World L C O) (Unit {0}))
      → R w p.0
      → Keeps R cleanup
      → R w (after_failure p cleanup).0
  after_failure-keeps w (v, ok _) cleanup h k = h
  after_failure-keeps w (v, err e) cleanup h k = o.both h (k.keeps v)

  or_cleanup-Keeps :
      {call cleanup : Run (World L C O) (Unit {0})}
      → Keeps R call
      → Keeps R cleanup
      → Keeps R (or_cleanup call cleanup)
  or_cleanup-Keeps {call} {cleanup} h k = record {
    keeps = λ w. after_failure-keeps w (call w) cleanup (h.keeps w) k;
  }

  module _ (os : Outside O) where
    closing_on_error :
        (temp : Text) (call : O → O × Checked OutsideError)
        → Keeps R (or_cleanup (acting call) (acting (os.close temp)))
    closing_on_error temp call = or_cleanup-Keeps (acting-Keeps call) (acting-Keeps (os.close temp))

    fill_and_rename-Keeps :
        (temp path : Text) (body : Content) (perm : ℕ)
        → Keeps R (fill_and_rename os temp path body perm)
    unfolding fill_and_rename
    fill_and_rename-Keeps temp path body perm =
        bind-Keeps o (closing_on_error temp (os.chmod temp perm)) (λ _.
          bind-Keeps o (closing_on_error temp (os.copy temp body)) (λ _.
            bind-Keeps o (closing_on_error temp (os.sync_file temp)) (λ _.
              bind-Keeps o (acting-Keeps (os.close temp))
                (λ _. acting-Keeps (os.rename temp path)))))

    pub write_reader_to_path_with_perm-Keeps :
        (path : Text) (body : Content) (perm : ℕ)
        → Keeps R (write_reader_to_path_with_perm os path body perm)
    unfolding write_reader_to_path_with_perm
    write_reader_to_path_with_perm-Keeps path body perm =
        bind-Keeps o (acting-Keeps (os.mkdir_all (os.dir path))) (λ _.
          bind-Keeps o (acting-Keeps (os.create_temp (os.dir path))) (λ temp.
            or_cleanup-Keeps (fill_and_rename-Keeps temp path body perm)
              (acting-Keeps (os.remove temp))))

    upload_file-Keeps : (key path : Text) → Keeps R (upload_file os key path)
    unfolding upload_file
    upload_file-Keeps key path =
        bind-Keeps o (looking-Keeps (os.open_file path)) (λ body. acting-Keeps (os.upload key body))

    upload_present-Keeps :
        (key path : Text) (present : Bool) → Keeps R (upload_present os key path present)
    upload_present-Keeps key path true =
        bind-Keeps o (upload_file-Keeps key path) (λ _. give-Keeps o true)
    upload_present-Keeps key path false = give-Keeps o false

    pub upload_data_file_if_present-Keeps :
        (key path : Text) → Keeps R (upload_data_file_if_present os key path)
    unfolding upload_data_file_if_present
    upload_data_file_if_present-Keeps key path =
        bind-Keeps o (looking-Keeps _) (upload_present-Keeps key path)

    download_file-Keeps : (key path : Text) → Keeps R (download_file os key path)
    unfolding download_file
    download_file-Keeps key path =
        bind-Keeps o (acting-Keeps (os.download key))
          (λ body. write_reader_to_path_with_perm-Keeps path body synced_file_permission)

    remove_file_if_present-Keeps : (path : Text) → Keeps R (remove_file_if_present os path)
    unfolding remove_file_if_present
    remove_file_if_present-Keeps path = acting-Keeps _

    pub remove_local_figure_file_if_present-Keeps :
        (rid name : Text) → Keeps R (remove_local_figure_file_if_present os rid name)
    unfolding remove_local_figure_file_if_present
    remove_local_figure_file_if_present-Keeps rid name =
        bind-Keeps o (looking-Keeps (os.resolve_figure_path rid name)) remove_file_if_present-Keeps

    pub remove_local_data_file_if_present-Keeps :
        (rid name : Text) → Keeps R (remove_local_data_file_if_present os rid name)
    unfolding remove_local_data_file_if_present
    remove_local_data_file_if_present-Keeps rid name =
        bind-Keeps o (looking-Keeps (os.resolve_data_file_path rid name))
          remove_file_if_present-Keeps

    pub upload_desired_figure_files-Keeps :
        (rid : Text) (desired : List RecordFigure)
        → Keeps R (upload_desired_figure_files os rid desired)
    unfolding upload_desired_figure_files
    upload_desired_figure_files-Keeps rid desired = each-Keeps o desired _ (λ f.
        bind-Keeps o (looking-Keeps (os.resolve_figure_path rid f.filename))
          (upload_file-Keeps f.s3_key))

    pub download_desired_figure_files-Keeps :
        (rid : Text) (desired : List RecordFigure)
        → Keeps R (download_desired_figure_files os rid desired)
    unfolding download_desired_figure_files
    download_desired_figure_files-Keeps rid desired = each-Keeps o desired _ (λ f.
        bind-Keeps o (looking-Keeps (os.resolve_figure_path rid f.filename))
          (download_file-Keeps f.s3_key))
