-- ===== src/Repository/Types.antt =====
-- cli/internal/repository/types.go: the rows of records and their children.
use personal_context.Base.{ℕ, Option}
use personal_context.Text.{Text}
use personal_context.Time.{Time}

pub record Record : Type 0 where
  pub id : Text
  pub user_id : Text
  pub date : Text
  pub day_order : Text
  pub html_content : Option Text
  pub notes : Option Text
  pub project_id : Text
  pub source_device_id : Text
  pub source_ref : Option Text
  pub git_remote_url : Option Text
  pub git_hash : Option Text
  pub created_at : Time
  pub updated_at : Time
  pub deleted_at : Option Time

pub record RecordFigure : Type 0 where
  pub id : ℕ
  pub record_id : Text
  pub filename : Text
  pub s3_key : Text
  pub alt_text : Option Text
  pub created_at : Time

pub record RecordDataFile : Type 0 where
  pub id : ℕ
  pub record_id : Text
  pub filename : Text
  pub s3_key : Text
  pub size : ℕ
  pub hash : Text
  pub description : Option Text
  pub created_at : Time
