-- ===== src/Repository/Replacement/Exact.antt =====
-- repository.go: what a replacement leaves.
use mathlib.Core.List.{append_assoc, append-nil}
use personal_context.Base.{
  arith, ◌&&◌, ◌≡◌, refl, sym, ap, subst, ◌∙◌, not, List, [], ◌∷◌, ◌++◌, map, ok, Bool-cases, inl,
  inr, >>=-eq-ok, if◌then◌else◌, ◌==◌, nat_eq, list_eq,
}
use personal_context.Text.{Text}
use personal_context.Time.{Time, truncate_to_millisecond}
use personal_context.Repository.Types.{Record, RecordFigure, RecordDataFile}
use personal_context.Repository.Inputs.{CreateRecordFigureInput, CreateRecordDataFileInput}
use personal_context.Repository.Records.{RecordTable, select_record, is_stored, has_text}
use personal_context.Repository.Figures.{FigureTable, figure_of, insert_row, rows_of_record}
use personal_context.Repository.DataFiles.{
  DataFileTable, data_file_of, insert_data_file, data_files_of,
}
use personal_context.Repository.Replace.{
  ReplaceRecordChildrenInput, validate_replacement, validate_replacement-owned, AllFiguresOwned,
  AllDataFilesOwned,
}
use personal_context.Repository.Database.{Database, record_table}
use personal_context.Repository.Replacement.{
  figures_without, data_files_without, insert_figures, insert_data_files, emptied_figures,
  emptied_data_files, replaced_database, replace_children, replace_record_row,
  replace_record_children,
}
use personal_context.Repository.Replacement.Children.{ChildTable, AllOwned, children-replaced}

-- What a row holds of the input that made it.
abbrev pub figure_input : RecordFigure → CreateRecordFigureInput
figure_input f = record {
  record_id = f.record_id;
  filename = f.filename;
  s3_key = f.s3_key;
  alt_text = f.alt_text;
}

abbrev pub data_file_input : RecordDataFile → CreateRecordDataFileInput
data_file_input f = record {
  record_id = f.record_id;
  filename = f.filename;
  s3_key = f.s3_key;
  size = f.size;
  hash = f.hash;
  description = f.description;
}

unfoldable figure_children : ChildTable RecordFigure
unfolding rows_of_record figures_without
figure_children = record {
  owner = λ f. f.record_id;
  of_record = rows_of_record;
  without = figures_without;
  of_nil = λ rid. refl;
  of_cons = λ rid f fs. refl;
  without_nil = λ rid. refl;
  without_cons = λ rid f fs. refl;
}

unfoldable data_file_children : ChildTable RecordDataFile
unfolding data_files_of data_files_without
data_file_children = record {
  owner = λ f. f.record_id;
  of_record = data_files_of;
  without = data_files_without;
  of_nil = λ rid. refl;
  of_cons = λ rid f fs. refl;
  without_nil = λ rid. refl;
  without_cons = λ rid f fs. refl;
}

-- An insertion that succeeds puts the row at the end.
insert_row-rows :
    (row : RecordFigure) (t t' : FigureTable)
    → insert_row row t ≡ ok t'
    → t'.rows ≡ t.rows ++ row ∷ []
unfolding insert_row
insert_row-rows row t t' h = ground arith

-- The new rows are the inputs, in their order.
insert_figures-rows :
    (now : Time) (fs : List CreateRecordFigureInput) (t t' : FigureTable)
    → insert_figures now fs t ≡ ok t'
    → (news : List RecordFigure) × (t'.rows ≡ t.rows ++ news) × (map figure_input news ≡ fs)
unfolding insert_figures
insert_figures-rows now [] t t' h =
    let same : t ≡ t' = cc h in ([], sym (ap (λ u. u.rows) same) ∙ sym (append-nil t.rows), refl)
insert_figures-rows now (f ∷ fs) t t' h =
    let (u, first, rest) =
      >>=-eq-ok (insert_row (figure_of now f t.next_id) t) (λ u. insert_figures now fs u) h in
    let (news, rows, inputs) = insert_figures-rows now fs u t' rest in
    (
      figure_of now f t.next_id ∷ news,
      rows
          ∙ ap (λ l. l ++ news) (insert_row-rows (figure_of now f t.next_id) t u first)
          ∙ append_assoc t.rows (figure_of now f t.next_id ∷ []) news,
      ap (λ l. f ∷ l) inputs,
    )

insert_data_file-rows :
    (row : RecordDataFile) (t t' : DataFileTable)
    → insert_data_file row t ≡ ok t'
    → t'.rows ≡ t.rows ++ row ∷ []
unfolding insert_data_file
insert_data_file-rows row t t' h = ground arith

insert_data_files-rows :
    (now : Time) (fs : List CreateRecordDataFileInput) (t t' : DataFileTable)
    → insert_data_files now fs t ≡ ok t'
    → (news : List RecordDataFile) × (t'.rows ≡ t.rows ++ news) × (map data_file_input news ≡ fs)
unfolding insert_data_files
insert_data_files-rows now [] t t' h =
    let same : t ≡ t' = cc h in ([], sym (ap (λ u. u.rows) same) ∙ sym (append-nil t.rows), refl)
insert_data_files-rows now (f ∷ fs) t t' h =
    let (u, first, rest) =
      >>=-eq-ok (insert_data_file (data_file_of now f t.next_id) t)
        (λ u. insert_data_files now fs u) h in
    let (news, rows, inputs) = insert_data_files-rows now fs u t' rest in
    (
      data_file_of now f t.next_id ∷ news,
      rows
          ∙ ap (λ l. l ++ news) (insert_data_file-rows (data_file_of now f t.next_id) t u first)
          ∙ append_assoc t.rows (data_file_of now f t.next_id ∷ []) news,
      ap (λ l. f ∷ l) inputs,
    )

-- The inputs that the check lets through belong to the record.
figures-AllOwned :
    (rid : Text) (fs : List CreateRecordFigureInput)
    → AllFiguresOwned rid fs
    → AllOwned (λ (i : CreateRecordFigureInput). i.record_id) rid fs
figures-AllOwned rid [] owned = tt
figures-AllOwned rid (f ∷ fs) ((mine, key), owned) = (mine, figures-AllOwned rid fs owned)

data_files-AllOwned :
    (rid : Text) (fs : List CreateRecordDataFileInput)
    → AllDataFilesOwned rid fs
    → AllOwned (λ (i : CreateRecordDataFileInput). i.record_id) rid fs
data_files-AllOwned rid [] owned = tt
data_files-AllOwned rid (f ∷ fs) ((mine, key), owned) = (mine, data_files-AllOwned rid fs owned)

-- The record that is returned is stored, the child rows are those of the input, and those of the
-- other records are as they were.
pub record IsReplaced (input : ReplaceRecordChildrenInput) (db db' : Database) (row : Record)
    : Type 0 where
  pub stored : select_record db'.records input.row.id ≡ ok row
  pub own_figures : map figure_input (rows_of_record input.row.id db'.figures) ≡ input.figures
  pub other_figures :
      (other : Text)
      → rows_of_record other db'.figures ≡ (
          if other == input.row.id
          then rows_of_record input.row.id db'.figures
          else rows_of_record other db.figures)
  pub own_data_files :
      map data_file_input (data_files_of input.row.id db'.data_files) ≡ input.data_files
  pub other_data_files :
      (other : Text)
      → data_files_of other db'.data_files ≡ (
          if other == input.row.id
          then data_files_of input.row.id db'.data_files
          else data_files_of other db.data_files)

replace_children-IsReplaced :
    (now : Time) (input : ReplaceRecordChildrenInput) (db db' : Database) (row : Record)
    (t : RecordTable)
    → AllFiguresOwned input.row.id input.figures
    → AllDataFilesOwned input.row.id input.data_files
    → replace_children now input db t ≡ ok (db', row)
    → IsReplaced input db db' row
unfolding replace_children figure_children data_file_children
replace_children-IsReplaced now input db db' row t owned owned' h =
    let at = truncate_to_millisecond now in
    let rid = input.row.id in
    let (f, figures, rest) =
      >>=-eq-ok (insert_figures at input.figures (emptied_figures rid db t)) _ h in
    let (d, files, rest') =
      >>=-eq-ok (insert_data_files at input.data_files (emptied_data_files rid db t)) _ rest in
    let (r, found, made) =
      >>=-eq-ok (select_record t.rows rid) (λ r. ok (replaced_database now input db t f d, r))
        rest' in
    let database : replaced_database now input db t f d ≡ db' = cc made in
    let same : r ≡ row = cc made in
    let (news, rows, inputs) =
      insert_figures-rows at input.figures (emptied_figures rid db t) f figures in
    let (news', rows', inputs') =
      insert_data_files-rows at input.data_files (emptied_data_files rid db t) d files in
    let (own, others) =
      children-replaced figure_children figure_input (λ i. i.record_id) (λ g. refl) rid
        input.figures db.figures f.rows news rows inputs
        (figures-AllOwned rid input.figures owned) in
    let (own', others') =
      children-replaced data_file_children data_file_input (λ i. i.record_id) (λ g. refl) rid
        input.data_files db.data_files d.rows news' rows' inputs'
        (data_files-AllOwned rid input.data_files owned') in
    subst (λ b. IsReplaced input db b row) database
      (record {
        stored = found ∙ ap ok same;
        own_figures = own;
        other_figures = others;
        own_data_files = own';
        other_data_files = others';
      })

-- A replacement that succeeds returns the record that is then stored. The record's figures and data
-- files are those of the input, in its order and with its keys, and every other record has the
-- figures and data files that it had.
pub replace_record_children-IsReplaced :
    (now : Time) (input : ReplaceRecordChildrenInput) (db db' : Database) (row : Record)
    → replace_record_children now input db ≡ ok (db', row)
    → IsReplaced input db db' row
unfolding replace_record_children
replace_record_children-IsReplaced now input db db' row h =
    let (_, valid, rest) = >>=-eq-ok (validate_replacement input) _ h in
    let (owned, owned') = validate_replacement-owned input valid in
    elim (Bool-cases
      (not (is_stored input.row.id db.records) && has_text input.row.id db.chat_session_ids)) [
        | inl taken ↦ cc (rw taken at rest)
        | inr free ↦
            let (t, _, children) =
              >>=-eq-ok (replace_record_row now input.row input.set_deleted_at (record_table db))
                (replace_children now input db) (rw free at rest) in
            replace_children-IsReplaced now input db db' row t owned owned' children
      ]
