-- ===== src/Sync/Run.antt =====
-- cli/internal/sync/service.go: a call that returns an error or a value and leaves a state, also
-- when it fails. The labels that `fmt.Errorf` puts around an error are left out.
pub mod Keeps
use personal_context.Base.{◌≡◌, refl, List, [], ◌∷◌, Result, ok, err, Checked, passed, map_err}
use personal_context.Text.{Text}
use personal_context.Repository.Errors.{RepositoryError}
use personal_context.Sync.Children.{PlanError}
use personal_context.Sync.Bundle.{BundleError}
use personal_context.SyncEngine.Resolve.{ResolveError}
use personal_context.Sync.Outside.{OutsideError}

pub data SyncError : Type 0 where
  stored : RepositoryError → SyncError
  planned : PlanError → SyncError
  resolved : BundleError → SyncError
  chat_resolved : ResolveError → SyncError
  outside_failed : OutsideError → SyncError
  -- The local path, and the keys before and after.
  local_file_required : Text → Text → Text → SyncError
  -- The ids of the target's and of the source's session.
  chat_source_taken : Text → Text → SyncError
  joined : SyncError → SyncError → SyncError

abbrev pub Run : Type 0 → Type 0 → Type 0
Run W A = W → W × Result SyncError A

abbrev pub and_then :
    {W A B : Type 0} → W × Result SyncError A → (A → Run W B) → W × Result SyncError B
and_then (w, ok a) rest = rest a w
and_then (w, err e) rest = (w, err e)

-- `if err != nil { return err }` between two calls.
infixl 5 ◌>>=◌ ◌>>◌
abbrev pub ◌>>=◌ : {W A B : Type 0} → Run W A → (A → Run W B) → Run W B
◌>>=◌ call rest w = and_then (call w) rest

abbrev pub ◌>>◌ : {W B : Type 0} → Run W (Unit {0}) → Run W B → Run W B
call >> rest = call >>= λ _. rest

abbrev pub give : {W A : Type 0} → A → Run W A
give a w = (w, ok a)

abbrev pub done : {W : Type 0} → Run W (Unit {0})
done w = (w, passed)

abbrev pub fail : {W A : Type 0} → SyncError → Run W A
fail e w = (w, err e)

-- A call that changes nothing.
abbrev pub reading : {W A E : Type 0} → (E → SyncError) → (W → Result E A) → Run W A
reading wrap call w = (w, map_err wrap (call w))

-- A computation without a state.
abbrev pub pure_call : {W A E : Type 0} → (E → SyncError) → Result E A → Run W A
pure_call wrap result w = (w, map_err wrap result)

-- A write to a database, which changes nothing if it fails.
abbrev pub written : {W E : Type 0} → (E → SyncError) → W → Result E W → W × Checked SyncError
written wrap w (ok w') = (w', passed)
written wrap w (err e) = (w, err (wrap e))

abbrev pub writing : {W E : Type 0} → (E → SyncError) → (W → Result E W) → Run W (Unit {0})
writing wrap call w = written wrap w (call w)

-- `for _, a := range list`, which an error ends.
unfoldable pub each : {W A : Type 0} → List A → (A → Run W (Unit {0})) → Run W (Unit {0})
each [] body w = (w, passed)
each (a ∷ list) body w = and_then (body a w) (λ _. each list body)
