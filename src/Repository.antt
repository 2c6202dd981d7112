-- ===== src/Repository.antt =====
-- cli/internal/repository: the rows that both databases hold, and the checks on them that do not
-- depend on the database; and the tables of the local database.
pub mod Types
pub mod Columns
pub mod Errors
pub mod Inputs
pub mod AssetKey
pub mod Figures
pub mod DataFiles
pub mod Records
pub mod Replace
pub mod Registries
pub mod ProjectPaths
pub mod Chats
pub mod Database
pub mod Replacement
pub mod Interface
pub mod RecordFilter
