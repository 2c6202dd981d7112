-- ===== src/Repository/DataFiles/Laws.antt =====
-- repository.go: what the writes to `record_data_files` leave in the table.
use personal_context.Base.{
  ≢→==, Option, none, some, ℕ, ◌≡◌, ◌≢◌, refl, List, [], ◌∷◌, arith, ◌==◌, nat_eq, list_eq, ap, ◌∙◌,
  inl, inr, Bool-cases, >>=-eq-ok, if◌then◌else◌, Result, ok, err, ◌>>=◌,
}
use personal_context.Text.{Text}
use personal_context.Repository.Types.{RecordDataFile}
use personal_context.Repository.Inputs.{UpdateRecordDataFileInput}
use personal_context.Repository.Figures.{patch_option}
use personal_context.Repository.DataFiles.{
  DataFileTable, RepositoryError, not_found, patch_data_file, patch_size, patch_hash,
  change_data_files, check_data_file_update, data_key_patch, store_data_file, select_data_file,
  update_record_data_file, drop_data_files,
}

pub get-id :
    (id : ℕ) (rows : List RecordDataFile) {f : RecordDataFile}
    → select_data_file rows id ≡ ok f
    → f.id ≡ id
unfolding select_data_file
get-id id [] h = cc
get-id id (r ∷ rows) {f} h = ground (arith, get-id id rows {f = f})

get-change_data_files :
    (id j : ℕ) (change : RecordDataFile → RecordDataFile) (rows : List RecordDataFile)
    → ((f : RecordDataFile) → (change f).id ≡ f.id)
    → select_data_file (change_data_files id change rows) j ≡ (
        if j == id
        then (do f ← select_data_file rows j; ok (change f))
        else select_data_file rows j)
unfolding select_data_file change_data_files
get-change_data_files id j change [] keeps = ground arith
get-change_data_files id j change (f ∷ fs) keeps =
    ground (arith, get-change_data_files id j change fs keeps, keeps f)

pub get-drop_data_files :
    (id j : ℕ) (rows : List RecordDataFile)
    → select_data_file (drop_data_files id rows) j
      ≡ (if j == id then err not_found else select_data_file rows j)
unfolding select_data_file drop_data_files
get-drop_data_files id j [] = ground arith
get-drop_data_files id j (f ∷ fs) = ground (arith, get-drop_data_files id j fs)

-- An input that names a key of its own is stored with that key.
check_update-key :
    (input : UpdateRecordDataFileInput) (rows : List RecordDataFile) {key : Text}
    → input.s3_key ≢ []
    → check_data_file_update input rows ≡ ok key
    → key ≡ input.s3_key
unfolding check_data_file_update data_key_patch
check_update-key input rows given h = ground arith

-- A successful update, whose input names a key.
record IsUpdated (input : UpdateRecordDataFileInput) (t t' : DataFileTable) : Type 0 where
  existing : RecordDataFile
  found : select_data_file t.rows input.id ≡ ok existing
  stored : t'.rows ≡ change_data_files input.id (patch_data_file input input.s3_key) t.rows

store_data_file-rows :
    (row : RecordDataFile) (change : RecordDataFile → RecordDataFile) (t t' : DataFileTable)
    → store_data_file row change t ≡ ok t'
    → t'.rows ≡ change_data_files row.id change t.rows
unfolding store_data_file
store_data_file-rows row change t t' h = ground arith

abbrev store_found :
    UpdateRecordDataFileInput
    → DataFileTable
    → Text
    → RecordDataFile
    → Result RepositoryError DataFileTable
store_found input t key existing =
    store_data_file (patch_data_file input key existing) (patch_data_file input key) t

update_record_data_file-IsUpdated :
    (input : UpdateRecordDataFileInput) (t t' : DataFileTable)
    → input.s3_key ≢ []
    → update_record_data_file input t ≡ ok t'
    → IsUpdated input t t'
unfolding update_record_data_file
update_record_data_file-IsUpdated input t t' given h = elim (Bool-cases (input.id == 0)) [
  | inl e ↦ cc (rw e at h)
  | inr e ↦
      let (key, checked, rest) =
        >>=-eq-ok (check_data_file_update input t.rows)
          (λ key. select_data_file t.rows input.id >>= store_found input t key) (rw e at h) in
      let (existing, found, put) =
        >>=-eq-ok (select_data_file t.rows input.id) (store_found input t key) rest in
      let own : key ≡ input.s3_key = check_update-key input t.rows given checked in
      record {
        existing = existing;
        found = found;
        stored =
            store_data_file-rows (patch_data_file input key existing) (patch_data_file input key) t
              t' put
            ∙ rw (own, get-id input.id t.rows found);
      }
]

-- An update by an input with a key patches the data file of its id.
get-patch_data_file :
    (input : UpdateRecordDataFileInput) (t t' : DataFileTable) (j : ℕ)
    → input.s3_key ≢ []
    → update_record_data_file input t ≡ ok t'
    → select_data_file t'.rows j ≡ (
        if j == input.id
        then (do f ← select_data_file t.rows j; ok (patch_data_file input input.s3_key f))
        else select_data_file t.rows j)
get-patch_data_file input t t' j given h =
    let u = update_record_data_file-IsUpdated input t t' given h in
    ap (λ rows. select_data_file rows j) u.stored
    ∙ get-change_data_files input.id j (patch_data_file input input.s3_key) t.rows (λ f. refl)

-- The value that an input gives, or the old one.
abbrev pub given_or : {A : Type 0} → A → Option A → A
given_or old none = old
given_or old (some a) = a

abbrev pub nonblank_or : Text → Text → Text
nonblank_or old new = if new == [] then old else new

-- The data file with the columns that an input gives, and the old values for those that it leaves
-- out.
abbrev pub data_file_given : UpdateRecordDataFileInput → RecordDataFile → RecordDataFile
data_file_given input f = record {
  id = f.id;
  record_id = f.record_id;
  filename = nonblank_or f.filename input.filename;
  s3_key = input.s3_key;
  size = given_or f.size input.size;
  hash = nonblank_or f.hash (given_or [] input.hash);
  description = elim input.description [ none ↦ f.description | some text ↦ some text ];
  created_at = f.created_at;
}

patch_size-given : (new : Option ℕ) (old : ℕ) → patch_size new old ≡ given_or old new
patch_size-given none old = refl
patch_size-given (some n) old = refl

patch_hash-given :
    (new : Option Text) (old : Text) → patch_hash new old ≡ nonblank_or old (given_or [] new)
unfolding list_eq
patch_hash-given none old = refl
patch_hash-given (some h) old = refl

patch_option-given :
    (new old : Option Text) → patch_option new old ≡ elim new [ none ↦ old | some text ↦ some text ]
patch_option-given none old = refl
patch_option-given (some text) old = refl

patch_data_file-given :
    (input : UpdateRecordDataFileInput) (f : RecordDataFile)
    → input.s3_key ≢ []
    → patch_data_file input input.s3_key f ≡ data_file_given input f
patch_data_file-given input f given =
    rw
      (
        ≢→== input.s3_key [] given,
        patch_size-given input.size f.size,
        patch_hash-given input.hash f.hash,
        patch_option-given input.description f.description,
      )
      refl

-- A successful update by an input with a key changes the data file of its id: the filename and the
-- key are those of the input, a blank filename keeping the old one, and so are the size, the hash
-- and the description, each unless the input has none, a blank hash keeping the old one. The other
-- columns, and all other data files, stay.
pub get-update_record_data_file :
    (input : UpdateRecordDataFileInput) (t t' : DataFileTable) (j : ℕ)
    → input.s3_key ≢ []
    → update_record_data_file input t ≡ ok t'
    → select_data_file t'.rows j ≡ (
        if j == input.id
        then (do f ← select_data_file t.rows j; ok (data_file_given input f))
        else select_data_file t.rows j)
get-update_record_data_file input t t' j given h =
    get-patch_data_file input t t' j given h
    ∙ ap
        (λ (change : RecordDataFile → RecordDataFile).
          if j == input.id
          then (do f ← select_data_file t.rows j; ok (change f))
          else select_data_file t.rows j)
        (λ i f. patch_data_file-given input f given i)
