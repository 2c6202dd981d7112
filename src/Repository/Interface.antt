-- ===== src/Repository/Interface.antt =====
-- cli/internal/repository/repository.go: `Repository`, as much of it as a sync calls. An operation
-- that fails leaves the database as it was; one that writes and succeeds leaves a new one, and its
-- callers here do not use the row that it also returns.
use personal_context.Base.{ℕ, Bool, Option, List, Result}
use personal_context.Text.{Text}
use personal_context.Time.{Time}
use personal_context.Repository.Types.{Record, RecordFigure, RecordDataFile}
use personal_context.Repository.Errors.{RepositoryError}
use personal_context.Repository.Inputs.{
  CreateRecordInput, UpdateRecordInput, CreateRecordFigureInput, UpdateRecordFigureInput,
  CreateRecordDataFileInput, UpdateRecordDataFileInput,
}
use personal_context.Repository.RecordFilter.{ListRecordsFilter}
use personal_context.Repository.Registries.{RegistryRow}
use personal_context.Repository.ProjectPaths.{ProjectPath, CreateProjectPathInput}
use personal_context.Repository.Chats.{
  ChatSession, ChatItem, UpsertChatSessionInput, CreateChatItemInput, ListChatSessionsFilter,
}

-- The local database has one row, whose id and user say nothing.
pub record SyncVersion : Type 0 where
  pub version : ℕ
  pub updated_at : Time

pub record Repository (S : Type 0) : Type 0 where
  -- What the clock of the database shows during the run.
  pub now : Time
  pub create_record : CreateRecordInput → S → Result RepositoryError S
  pub get_record_by_id : Text → S → Result RepositoryError Record
  pub update_record : UpdateRecordInput → S → Result RepositoryError S
  pub list_records : ListRecordsFilter → S → Result RepositoryError (List Record)
  pub create_record_figure : CreateRecordFigureInput → S → Result RepositoryError S
  pub update_record_figure : UpdateRecordFigureInput → S → Result RepositoryError S
  pub list_record_figures : Text → S → Result RepositoryError (List RecordFigure)
  pub delete_record_figure : ℕ → S → Result RepositoryError S
  pub create_record_data_file : CreateRecordDataFileInput → S → Result RepositoryError S
  pub update_record_data_file : UpdateRecordDataFileInput → S → Result RepositoryError S
  pub list_record_data_files : Text → S → Result RepositoryError (List RecordDataFile)
  pub delete_record_data_file : ℕ → S → Result RepositoryError S
  pub get_sync_version : S → Result RepositoryError SyncVersion
  pub list_projects : Bool → S → Result RepositoryError (List RegistryRow)
  pub upsert_project_for_import : RegistryRow → S → Result RepositoryError S
  pub list_devices : Bool → S → Result RepositoryError (List RegistryRow)
  pub upsert_device_for_import : RegistryRow → S → Result RepositoryError S
  pub list_project_paths : Option Text → S → Result RepositoryError (List ProjectPath)
  pub upsert_project_path : CreateProjectPathInput → S → Result RepositoryError S

-- The operations on chats.
pub record ChatRepository (S : Type 0) : Type 0 where
  pub list_chat_sessions : ListChatSessionsFilter → S → Result RepositoryError (List ChatSession)
  pub get_chat_session_by_id : Text → S → Result RepositoryError ChatSession
  pub get_chat_session_by_source : Text → Text → S → Result RepositoryError ChatSession
  pub list_chat_items : Text → S → Result RepositoryError (List ChatItem)
  pub upsert_chat_session_with_items :
      UpsertChatSessionInput → List CreateChatItemInput → S → Result RepositoryError S
