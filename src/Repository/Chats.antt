-- ===== src/Repository/Chats.antt =====
-- cli/internal/repository/types.go: the rows of chats, and the inputs that write and list them.
use personal_context.Base.{ℕ, Bool, Option}
use personal_context.Text.{Text}
use personal_context.Time.{Time}

pub record ChatSession : Type 0 where
  pub id : Text
  pub user_id : Text
  pub source : Text
  pub source_session_id : Text
  pub parent_source_session_id : Option Text
  pub source_device_id : Text
  pub project_id : Option Text
  pub cwd : Option Text
  pub title : Option Text
  pub started_at : Time
  pub last_activity_at : Time
  pub original_source_path : Option Text
  pub raw_source_key : Option Text
  pub created_at : Time
  pub updated_at : Time
  pub deleted_at : Option Time

pub record ChatItem : Type 0 where
  pub id : ℕ
  pub session_id : Text
  pub ordinal : ℕ
  pub role : Text
  pub item_type : Text
  pub text : Option Text
  pub search_text : Text
  pub raw_json : Option Text
  pub created_at : Time

-- `UpsertChatSessionInput` with the fields of the `CreateChatSessionInput` in it.
pub record UpsertChatSessionInput : Type 0 where
  pub id : Text
  pub source : Text
  pub source_session_id : Text
  pub parent_source_session_id : Option Text
  pub source_device_id : Text
  pub project_id : Option Text
  pub cwd : Option Text
  pub title : Option Text
  pub started_at : Time
  pub last_activity_at : Time
  pub original_source_path : Option Text
  pub raw_source_key : Option Text
  pub created_at : Option Time
  pub updated_at : Option Time
  pub deleted_at : Option Time
  pub clear_deleted : Bool

pub record CreateChatItemInput : Type 0 where
  pub session_id : Text
  pub ordinal : ℕ
  pub role : Text
  pub item_type : Text
  pub text : Option Text
  pub search_text : Text
  pub raw_json : Option Text
  pub created_at : Option Time

pub record ListChatSessionsFilter : Type 0 where
  pub include_deleted : Bool
  pub only_deleted : Bool
  pub project_id : Option Text
  pub unassigned : Bool
  pub source : Option Text
  pub device_id : Option Text
  pub parent_source_session_id : Option Text
  pub date_from : Option Time
  pub date_to : Option Time
  pub limit : ℕ
  pub offset : ℕ
  pub updated_after : Option Time
