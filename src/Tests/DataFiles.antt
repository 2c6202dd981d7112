-- ===== src/Tests/DataFiles.antt =====
-- Runs of the table of data files, and the example of its theorem.
use personal_context.Base.{
  ◌≡◌, ◌≢◌, refl, none, some, [], ◌∷◌, ◌==◌, nat_eq, list_eq, if◌then◌else◌, ok, err, ◌>>=◌,
}
use personal_context.Text.{Text, codes, trim_space, is_space, contains, has_first, split}
use personal_context.Repository.AssetKey.{
  validate_record_asset_key, canonical_record_asset_key, validate_asset_path_segment,
  check_asset_key,
}
use personal_context.Repository.Types.{RecordDataFile}
use personal_context.Repository.Inputs.{UpdateRecordDataFileInput}
use personal_context.Repository.Errors.{check_failed}
use personal_context.Repository.DataFiles.{
  DataFileTable, select_data_file, update_record_data_file, check_data_file_update, data_key_patch,
  store_data_file, change_data_files, is_name_taken, is_hash,
}
use personal_context.Repository.DataFiles.Laws.{data_file_given, get-update_record_data_file}
use personal_context.Repository.Columns.{has_length}
use personal_context.Tests.Data.{samples}

abbrev digest : Text
digest = codes "0123456789abcdef0123456789abcdef0123456789abcdef0123456789abcdef"

abbrev stored_samples : RecordDataFile
stored_samples = record (samples 1 10) { hash = digest }

abbrev files : RecordDataFile → DataFileTable
files f = record { rows = f ∷ []; next_id = 2; record_ids = codes "r1" ∷ [] }

abbrev resize : UpdateRecordDataFileInput
resize = record {
  id = 1;
  filename = codes "x.csv";
  s3_key = codes "data/r1/x.csv";
  size = some 12;
  hash = none;
  description = some (codes "more");
}

abbrev resized : RecordDataFile
resized = record stored_samples { size = 12; description = some (codes "more") }

resizes : update_record_data_file resize (files stored_samples) ≡ ok (files resized)
unfolding update_record_data_file check_data_file_update data_key_patch store_data_file
    change_data_files is_name_taken is_hash has_length select_data_file validate_record_asset_key
    canonical_record_asset_key validate_asset_path_segment check_asset_key trim_space is_space
    contains has_first split nat_eq list_eq
resizes = refl

refuses_hash :
    update_record_data_file (record resize { hash = some (codes "ab") }) (files stored_samples)
    ≡ err check_failed
unfolding update_record_data_file check_data_file_update data_key_patch store_data_file
    change_data_files is_name_taken is_hash has_length select_data_file validate_record_asset_key
    canonical_record_asset_key validate_asset_path_segment check_asset_key trim_space is_space
    contains has_first split nat_eq list_eq
refuses_hash = refl

resize_key_given : resize.s3_key ≢ []
resize_key_given h = cc

get-update_record_data_file_example : select_data_file (resized ∷ []) 1 ≡ (
    if 1 == resize.id
    then (do f ← select_data_file (stored_samples ∷ []) 1; ok (data_file_given resize f))
    else select_data_file (stored_samples ∷ []) 1)
get-update_record_data_file_example =
    get-update_record_data_file resize (files stored_samples) (files resized) 1 resize_key_given
      resizes
