-- ===== src/Repository/Figures/Laws.antt =====
-- repository.go: what the writes to `record_figures` leave in the table.
use personal_context.Base.{
  ≢→==, Option-cases, none, some, ℕ, ◌≡◌, ◌≢◌, refl, List, [], ◌∷◌, arith, ◌==◌, nat_eq, list_eq,
  ap, ◌∙◌, inl, inr, Bool-cases, >>=-eq-ok, if◌then◌else◌, Result, ok, err, ◌>>=◌,
}
use personal_context.Text.{Text}
use personal_context.Repository.Types.{RecordFigure}
use personal_context.Repository.Inputs.{UpdateRecordFigureInput}
use personal_context.Repository.Figures.{
  FigureTable, RepositoryError, not_found, patch_figure, update_row, check_update, store_row,
  select_figure, update_record_figure, remove_row,
}

pub get-id :
    (id : ℕ) (rows : List RecordFigure) {f : RecordFigure}
    → select_figure rows id ≡ ok f
    → f.id ≡ id
unfolding select_figure
get-id id [] h = cc
get-id id (r ∷ rows) {f} h = ground (arith, get-id id rows {f = f})

get-update_row :
    (id j : ℕ) (change : RecordFigure → RecordFigure) (rows : List RecordFigure)
    → ((f : RecordFigure) → (change f).id ≡ f.id)
    → select_figure (update_row id change rows) j
      ≡ (if j == id then (do f ← select_figure rows j; ok (change f)) else select_figure rows j)
unfolding select_figure update_row
get-update_row id j change [] keeps = ground arith
get-update_row id j change (f ∷ fs) keeps =
    ground (arith, get-update_row id j change fs keeps, keeps f)

pub get-remove_row :
    (id j : ℕ) (rows : List RecordFigure)
    → select_figure (remove_row id rows) j
      ≡ (if j == id then err not_found else select_figure rows j)
unfolding select_figure remove_row
get-remove_row id j [] = ground arith
get-remove_row id j (f ∷ fs) = ground (arith, get-remove_row id j fs)

-- An input that names a key of its own is stored with that key.
check_update-key :
    (input : UpdateRecordFigureInput) (rows : List RecordFigure) {key : Text}
    → input.s3_key ≢ []
    → check_update input rows ≡ ok key
    → key ≡ input.s3_key
unfolding check_update
check_update-key input rows given h = ground arith

-- A successful update, whose input names a key.
record IsUpdated (input : UpdateRecordFigureInput) (t t' : FigureTable) : Type 0 where
  existing : RecordFigure
  found : select_figure t.rows input.id ≡ ok existing
  stored : t'.rows ≡ update_row input.id (patch_figure input input.s3_key) t.rows

store_row-rows :
    (row : RecordFigure) (change : RecordFigure → RecordFigure) (t t' : FigureTable)
    → store_row row change t ≡ ok t'
    → t'.rows ≡ update_row row.id change t.rows
unfolding store_row
store_row-rows row change t t' h = ground arith

abbrev store_found :
    UpdateRecordFigureInput → FigureTable → Text → RecordFigure → Result RepositoryError FigureTable
store_found input t key existing =
    store_row (patch_figure input key existing) (patch_figure input key) t

update_record_figure-IsUpdated :
    (input : UpdateRecordFigureInput) (t t' : FigureTable)
    → input.s3_key ≢ []
    → update_record_figure input t ≡ ok t'
    → IsUpdated input t t'
unfolding update_record_figure
update_record_figure-IsUpdated input t t' given h = elim (Bool-cases (input.id == 0)) [
  | inl e ↦ cc (rw e at h)
  | inr e ↦
      let (key, checked, rest) =
        >>=-eq-ok (check_update input t.rows)
          (λ key. select_figure t.rows input.id >>= store_found input t key) (rw e at h) in
      let (existing, found, put) =
        >>=-eq-ok (select_figure t.rows input.id) (store_found input t key) rest in
      let own : key ≡ input.s3_key = check_update-key input t.rows given checked in
      record {
        existing = existing;
        found = found;
        stored =
            store_row-rows (patch_figure input key existing) (patch_figure input key) t t' put
            ∙ rw (own, get-id input.id t.rows found);
      }
]

-- An update by an input with a key patches the figure of its id.
pub get-patch_figure :
    (input : UpdateRecordFigureInput) (t t' : FigureTable) (j : ℕ)
    → input.s3_key ≢ []
    → update_record_figure input t ≡ ok t'
    → select_figure t'.rows j ≡ (
        if j == input.id
        then (do f ← select_figure t.rows j; ok (patch_figure input input.s3_key f))
        else select_figure t.rows j)
get-patch_figure input t t' j given h =
    let u = update_record_figure-IsUpdated input t t' given h in
    ap (λ rows. select_figure rows j) u.stored
    ∙ get-update_row input.id j (patch_figure input input.s3_key) t.rows (λ f. refl)

-- The figure with the columns that an input gives, and the old values for those that it leaves out.
abbrev pub figure_given : UpdateRecordFigureInput → RecordFigure → RecordFigure
figure_given input f = record {
  id = f.id;
  record_id = f.record_id;
  filename = if input.filename == [] then f.filename else input.filename;
  s3_key = input.s3_key;
  alt_text = elim input.alt_text [ none ↦ f.alt_text | some text ↦ some text ];
  created_at = f.created_at;
}

patch_figure-given :
    (input : UpdateRecordFigureInput) (f : RecordFigure)
    → input.s3_key ≢ []
    → patch_figure input input.s3_key f ≡ figure_given input f
patch_figure-given input f given = elim (Option-cases input.alt_text) [
  | inl e ↦ rw (e, ≢→== input.s3_key [] given) refl
  | inr (text, e) ↦ rw (e, ≢→== input.s3_key [] given) refl
]

-- A successful update by an input with a key changes the figure of its id: the filename and the
-- key are those of the input, a blank filename keeping the old one, and so is the alternative
-- text, unless the input has none. The other columns, and all other figures, stay.
pub get-update_record_figure :
    (input : UpdateRecordFigureInput) (t t' : FigureTable) (j : ℕ)
    → input.s3_key ≢ []
    → update_record_figure input t ≡ ok t'
    → select_figure t'.rows j ≡ (
        if j == input.id
        then (do f ← select_figure t.rows j; ok (figure_given input f))
        else select_figure t.rows j)
get-update_record_figure input t t' j given h =
    get-patch_figure input t t' j given h
    ∙ ap
        (λ (change : RecordFigure → RecordFigure).
          if j == input.id
          then (do f ← select_figure t.rows j; ok (change f))
          else select_figure t.rows j)
        (λ i f. patch_figure-given input f given i)
