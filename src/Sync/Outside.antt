-- ===== src/Sync/Outside.antt =====
-- What a sync uses outside the two databases, as parameters: the interfaces `LocalFiles`,
-- `ObjectStore` and `SessionManager` of cli/internal/sync/service.go, the calls of the package `os`
-- in that file, and the writer of its warnings.
use personal_context.Base.{ℕ, List, Result, Checked}
use personal_context.Text.{Text}
use personal_context.Time.{Time}

-- A file or an object that is not there (`os.ErrNotExist`, `s3client.IsNotFound`), and any other
-- error.
pub data OutsideError : Type 0 where
  absent : OutsideError
  failed : Text → OutsideError

-- `syncengine.SyncWindow`.
pub record SyncWindow : Type 0 where
  pub last_sync : Time
  pub started_at : Time

abbrev pub Content : Type 0
Content = List ℕ

-- The operations on a state. One that fails may have changed the state. A reader is its content: a
-- body that breaks off is an error of `download`, or of `copy`.
pub record Outside (O : Type 0) : Type 0 where
  pub resolve_figure_path : Text → Text → O → Result OutsideError Text
  pub resolve_data_file_path : Text → Text → O → Result OutsideError Text
  pub resolve_chat_source_path : Text → Text → O → Result OutsideError Text
  pub upload : Text → Content → O → O × Checked OutsideError
  pub download : Text → O → O × Result OutsideError Content
  pub delete : Text → O → O × Checked OutsideError
  pub update_version : ℕ → Time → O → O × Checked OutsideError
  pub begin : O → O × Result OutsideError SyncWindow
  pub complete : SyncWindow → O → O × Checked OutsideError
  pub release : O → O × Checked OutsideError
  pub stat : Text → O → Checked OutsideError
  -- `os.Open` and the reading of the file.
  pub open_file : Text → O → Result OutsideError Content
  pub remove : Text → O → O × Checked OutsideError
  pub mkdir_all : Text → O → O × Checked OutsideError
  -- The path of the new file.
  pub create_temp : Text → O → O × Result OutsideError Text
  pub chmod : Text → ℕ → O → O × Checked OutsideError
  pub copy : Text → Content → O → O × Checked OutsideError
  pub sync_file : Text → O → O × Checked OutsideError
  pub close : Text → O → O × Checked OutsideError
  pub rename : Text → Text → O → O × Checked OutsideError
  -- `filepath.Dir`.
  pub dir : Text → Text
  -- A warning about a number of files or objects.
  pub warn_missing_local : ℕ → O → O × Checked OutsideError
  pub warn_missing_cloud : ℕ → O → O × Checked OutsideError
