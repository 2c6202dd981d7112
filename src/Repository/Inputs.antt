-- ===== src/Repository/Inputs.antt =====
-- cli/internal/repository/types.go: the inputs that write records and child rows.
use personal_context.Base.{ℕ, Bool, Option}
use personal_context.Text.{Text}
use personal_context.Time.{Time}

pub record CreateRecordInput : Type 0 where
  pub id : Text
  pub date : Text
  pub day_order : Text
  pub html_content : Option Text
  pub notes : Option Text
  pub project_id : Text
  pub source_device_id : Text
  pub source_ref : Option Text
  pub git_remote_url : Option Text
  pub git_hash : Option Text
  pub created_at : Option Time
  pub updated_at : Option Time
  pub deleted_at : Option Time

pub record UpdateRecordInput : Type 0 where
  pub id : Text
  pub date : Text
  pub day_order : Text
  pub html_content : Option Text
  pub notes : Option Text
  pub project_id : Text
  pub source_device_id : Text
  pub source_ref : Option Text
  pub git_remote_url : Option Text
  pub git_hash : Option Text
  pub updated_at : Option Time
  pub set_deleted_at : Bool
  pub deleted_at : Option Time

pub record CreateRecordFigureInput : Type 0 where
  pub record_id : Text
  pub filename : Text
  pub s3_key : Text
  pub alt_text : Option Text

pub record UpdateRecordFigureInput : Type 0 where
  pub id : ℕ
  pub filename : Text
  pub s3_key : Text
  pub alt_text : Option Text

pub record CreateRecordDataFileInput : Type 0 where
  pub record_id : Text
  pub filename : Text
  pub s3_key : Text
  pub size : ℕ
  pub hash : Text
  pub description : Option Text

pub record UpdateRecordDataFileInput : Type 0 where
  pub id : ℕ
  pub filename : Text
  pub s3_key : Text
  pub size : Option ℕ
  pub hash : Option Text
  pub description : Option Text
