-- ===== src/Repository/RecordFilter/Listing.antt =====
-- cli/internal/repository/sqlite/repository.go: `ListRecords` and `CountRecords`. The rows that the
-- full-text index matches, the best first, are a parameter.
use personal_context.Base.{
  ℕ, Bool, not, Option, none, some, List, [], ◌∷◌, ◌==◌, nat_eq, list_eq, if◌then◌else◌, Result, ok,
  ◌>>=◌, length, take,
}
use personal_context.Text.{Text, text_lt}
use personal_context.Repository.Types.{Record}
use personal_context.Repository.Errors.{RepositoryError}
use personal_context.Repository.RecordFilter.{ListRecordsFilter, list_records_predicate}

-- `ORDER BY date, day_order, id`.
unfoldable pub record_lt : Record → Record → Bool
record_lt r s =
    if not (r.date == s.date)
    then text_lt r.date s.date
    else if not (r.day_order == s.day_order)
    then text_lt r.day_order s.day_order
    else text_lt r.id s.id

unfoldable pub insert_sorted : Record → List Record → List Record
insert_sorted r [] = r ∷ []
insert_sorted r (s ∷ ss) =
    let rest = insert_sorted r ss in if record_lt r s then r ∷ s ∷ ss else s ∷ rest

unfoldable pub sort_records : List Record → List Record
sort_records [] = []
sort_records (r ∷ rs) = insert_sorted r (sort_records rs)

unfoldable pub where_true : (Record → Bool) → List Record → List Record
where_true holds [] = []
where_true holds (r ∷ rs) = let rest = where_true holds rs in if holds r then r ∷ rest else rest

-- `LIMIT`, which 0 leaves out.
abbrev pub limited : ℕ → List Record → List Record
limited limit rows = if limit == 0 then rows else take limit rows

module _ (search : Text → List Record → List Record) where
  abbrev ordered : Option Text → List Record → List Record
  ordered none rows = sort_records rows
  ordered (some q) rows = search q rows

  -- By the ids of the records with data files. A limit is a natural number, and so not negative.
  unfoldable pub list_records :
      List Text → ListRecordsFilter → List Record → Result RepositoryError (List Record)
  unfolding where_true sort_records insert_sorted record_lt list_records_predicate
  list_records with_data f rows = do
    holds ← list_records_predicate with_data f
    ok (limited f.limit (ordered f.query (where_true holds rows)))

  unfoldable pub count_records :
      List Text → ListRecordsFilter → List Record → Result RepositoryError ℕ
  unfolding where_true sort_records insert_sorted record_lt list_records_predicate
  count_records with_data f rows = do
    holds ← list_records_predicate with_data f
    ok (length (ordered f.query (where_true holds rows)))
