-- ===== src/Repository/Errors.antt =====
-- cli/internal/repository/errors.go: what an operation of a repository fails with.
use personal_context.Repository.AssetKey.{AssetKeyError}

-- `check_failed` is a violated CHECK, whose error `mapSQLiteError` passes on as it is.
pub data RepositoryError : Type 0 where
  not_found conflict foreign_key invalid_argument check_failed : RepositoryError
  invalid_key : AssetKeyError → RepositoryError
