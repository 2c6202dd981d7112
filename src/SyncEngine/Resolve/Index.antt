-- ===== src/SyncEngine/Resolve/Index.antt =====
-- resolve.go: what an index by filename holds, and when there is one.
use personal_context.Base.{
  ◌≡◌, ◌↔◌, refl, subst, true, false, Option, none, some, List, [], ◌∷◌, ◌==◌, list_eq, nat_eq,
  ==-refl, arith, if◌then◌else◌, ok,
}
use personal_context.Text.{Text}
use personal_context.SyncEngine.Resolve.{
  ByFilename, lookup, map_by_filename, figure_map_by_filename, is_set,
}
use personal_context.Repository.Types.{RecordFigure}

module _ {Row : Type 0} (filename : Row → Text) where
  -- The first row with a filename.
  unfoldable pub find : Text → List Row → Option Row
  find n [] = none
  find n (row ∷ rows) = if filename row == n then some row else find n rows

  abbrev pub DistinctNames : List Row → Type 0
  DistinctNames [] = Unit
  DistinctNames (row ∷ rows) = (find (filename row) rows ≡ none) × DistinctNames rows

  abbrev pub Indexes : ByFilename Row → List Row → Type 0
  Indexes m rows = (n : Text) → lookup n m ≡ find n rows

  pub find-filename :
      (n : Text) (rows : List Row) {row : Row} → find n rows ≡ some row → filename row ≡ n
  unfolding find
  find-filename n [] h = cc
  find-filename n (r ∷ rows) {row} h = ground (arith, find-filename n rows {row = row})

  abbrev pub or_find : Text → List Row → Option Row → Option Row
  or_find n rows none = find n rows
  or_find n rows (some row) = some row

  -- What the loop has checked and built, from any map that it starts with.
  pub record IsIndexed (rows : List Row) (indexed m : ByFilename Row) : Type 0 where
    pub distinct : DistinctNames rows
    pub apart : (n : Text) → is_set (lookup n indexed) ≡ true → find n rows ≡ none
    pub entries : (n : Text) → lookup n m ≡ or_find n rows (lookup n indexed)

  pub IsIndexed-nil : (indexed : ByFilename Row) → IsIndexed [] indexed indexed
  unfolding find
  IsIndexed-nil indexed = record { distinct = tt; apart = λ n _. refl; entries = λ n. ground arith }

  -- A row whose filename is new, put in before the other rows.
  pub IsIndexed-cons :
      (row : Row) (rows : List Row) (indexed m : ByFilename Row)
      → is_set (lookup (filename row) indexed) ≡ false
      → IsIndexed rows ((filename row, row) ∷ indexed) m
      → IsIndexed (row ∷ rows) indexed m
  unfolding lookup find
  IsIndexed-cons row rows indexed m fresh rest =
      let name : Text = filename row in
      record {
        distinct = (rest.apart name (ground (arith, ==-refl name)), rest.distinct);
        apart = λ n p. ground (arith, rest.apart n);
        entries = λ n. ground (arith, rest.entries n);
      }

  -- Names of the rows to come, none of which is in the index.
  abbrev pub IsApart : List Row → ByFilename Row → Type 0
  IsApart rows indexed = (n : Text) → is_set (lookup n indexed) ≡ true → find n rows ≡ none

  pub IsApart-fresh :
      (row : Row) (rows : List Row) (indexed : ByFilename Row)
      → IsApart (row ∷ rows) indexed
      → is_set (lookup (filename row) indexed) ≡ false
  unfolding find
  IsApart-fresh row rows indexed apart =
      ground (arith, apart (filename row), ==-refl (filename row))

  pub IsApart-tail :
      (row : Row) (rows : List Row) (indexed : ByFilename Row)
      → find (filename row) rows ≡ none
      → IsApart (row ∷ rows) indexed
      → IsApart rows ((filename row, row) ∷ indexed)
  unfolding find lookup
  IsApart-tail row rows indexed fresh apart n h = ground (arith, apart n)

  map_by_filename-IsIndexed :
      (rows : List Row) (indexed : ByFilename Row) {m : ByFilename Row}
      → map_by_filename filename rows indexed ≡ ok m
      → IsIndexed rows indexed m
  unfolding map_by_filename
  map_by_filename-IsIndexed [] indexed {m} h =
      subst (IsIndexed [] indexed) (ground arith) (IsIndexed-nil indexed)
  map_by_filename-IsIndexed (row ∷ rows) indexed {m} h =
      IsIndexed-cons row rows indexed m (ground arith)
        (map_by_filename-IsIndexed rows ((filename row, row) ∷ indexed) (ground arith))

  map_by_filename_total :
      (rows : List Row) (indexed : ByFilename Row)
      → DistinctNames rows
      → IsApart rows indexed
      → (m : ByFilename Row) × (map_by_filename filename rows indexed ≡ ok m)
  unfolding map_by_filename
  map_by_filename_total [] indexed d apart = (indexed, refl)
  map_by_filename_total (row ∷ rows) indexed (fresh, d) apart =
      let rest =
        map_by_filename_total rows ((filename row, row) ∷ indexed) d
          (IsApart-tail row rows indexed fresh apart) in
      (rest.0, rw (IsApart-fresh row rows indexed apart) rest.1)

  pub map_by_filename-Indexes :
      (rows : List Row) {m : ByFilename Row}
      → map_by_filename filename rows [] ≡ ok m
      → DistinctNames rows × Indexes m rows
  unfolding lookup
  map_by_filename-Indexes rows h =
      let built = map_by_filename-IsIndexed rows [] h in (built.distinct, built.entries)

  pub map_by_filename-ok :
      (rows : List Row)
      → DistinctNames rows
      → (m : ByFilename Row) × (map_by_filename filename rows [] ≡ ok m) × Indexes m rows
  unfolding lookup
  map_by_filename-ok rows d =
      let (m, made) = map_by_filename_total rows [] d (λ n h. cc) in
      (m, made, (map_by_filename-Indexes rows made).1)

-- Figures are indexed exactly when no two of them share a filename, and then each filename leads
-- to its figure.
pub figure_map_by_filename_iff :
    (figures : List RecordFigure)
    → DistinctNames RecordFigure.filename figures ↔ (
        (m : ByFilename RecordFigure) × (figure_map_by_filename figures ≡ ok m)
        × Indexes RecordFigure.filename m figures)
unfolding figure_map_by_filename
figure_map_by_filename_iff figures =
    (map_by_filename-ok _ figures, λ (m, made, _). (map_by_filename-Indexes _ figures made).0)
