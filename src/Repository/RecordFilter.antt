-- ===== src/Repository/RecordFilter.antt =====
-- Which records a listing shows: the predicate of cli/internal/repository/sqlite/repository.go, and
-- the test and the options of cli/internal/cli/records.go.
pub mod Agreement
pub mod Listing
use personal_context.Base.{
  ℕ, Bool, true, false, not, ◌&&◌, ◌||◌, Option, none, some, List, [], ◌∷◌, ◌==◌, nat_eq, leb,
  list_eq, if◌then◌else◌, Result, ok, err, Checked, passed, ◌>>=◌, ◌>>◌,
}
use personal_context.Text.{Text, trim_space, text_lt}
use personal_context.Time.{Time, truncate_to_millisecond}
use personal_context.Repository.Types.{Record}
use personal_context.Repository.Errors.{RepositoryError, invalid_argument}
use personal_context.Repository.Records.{is_deleted, has_text}

-- The limit is used by the listing and not by its predicate.
pub record ListRecordsFilter : Type 0 where
  pub include_deleted : Bool
  pub only_deleted : Bool
  pub project_id : Option Text
  pub date_from : Option Text
  pub date_to : Option Text
  pub limit : ℕ
  pub query : Option Text
  pub updated_after : Option Time
  pub updated_before : Option Time
  pub has_html : Bool
  pub has_data : Bool

abbrev pub no_filter : ListRecordsFilter
no_filter = record {
  include_deleted = false;
  only_deleted = false;
  project_id = none;
  date_from = none;
  date_to = none;
  limit = 0;
  query = none;
  updated_after = none;
  updated_before = none;
  has_html = false;
  has_data = false;
}

-- A condition of the SQL text that is there only if the filter has a value.
abbrev pub where_some {ℓ} : {A : Type ℓ} → Option A → (A → Bool) → Bool
where_some none holds = true
where_some (some a) holds = holds a

abbrev pub where_set : Bool → Bool → Bool
where_set set holds = if set then holds else true

abbrev pub has_value {ℓ} : {A : Type ℓ} → Option A → Bool
has_value none = false
has_value (some a) = true

abbrev pub deleted_matches : ListRecordsFilter → Record → Bool
deleted_matches f r =
    if f.only_deleted
    then has_value r.deleted_at
    else if not f.include_deleted
    then not (has_value r.deleted_at)
    else true

-- What `WHERE` tests on a row, by the ids of the records that have data files. Text is compared
-- by `text_lt`, and the texts of two times as their milliseconds.
unfoldable pub row_matches : List Text → ListRecordsFilter → Record → Bool
row_matches with_data f r =
    deleted_matches f r
    && where_some f.project_id (λ p. r.project_id == p)
    && where_some f.date_from (λ d. not (text_lt r.date d))
    && where_some f.date_to (λ d. not (text_lt d r.date))
    && where_set f.has_html (has_value r.html_content)
    && where_set f.has_data (has_text r.id with_data)
    && where_some f.updated_after (λ t. leb (truncate_to_millisecond t) r.updated_at)
    && where_some f.updated_before (λ t. leb r.updated_at (truncate_to_millisecond t))

-- `listRecordsPredicateSQL` without the search, as the test that its SQL text makes on a row.
unfoldable pub list_records_predicate :
    List Text → ListRecordsFilter → Result RepositoryError (Record → Bool)
list_records_predicate with_data f = elim f.query [
  | none ↦ ok (row_matches with_data f)
  | some q ↦ if trim_space q == [] then err invalid_argument else ok (row_matches with_data f)
]

abbrev pub differs_from : Text → Option Text → Bool
differs_from s none = false
differs_from s (some t) = not (s == t)

abbrev pub is_before : Text → Option Text → Bool
is_before s none = false
is_before s (some t) = text_lt s t

abbrev pub is_past : Text → Option Text → Bool
is_past s none = false
is_past s (some t) = text_lt t s

unfoldable pub record_matches_filter : Record → ListRecordsFilter → Bool
record_matches_filter r f =
    if differs_from r.project_id f.project_id
    then false
    else if is_before r.date f.date_from
    then false
    else if is_past r.date f.date_to
    then false
    else if f.only_deleted && not (has_value r.deleted_at)
    then false
    else if not f.include_deleted && has_value r.deleted_at
    then false
    else true

pub record RecordFilterOptions : Type 0 where
  pub project_id : Text
  pub date_from : Text
  pub date_to : Text
  pub deleted : Bool

pub data FilterError : Type 0 where
  invalid_from invalid_to : Text → FilterError
  from_after_to : FilterError

abbrev pub given : Text → Option Text
given [] = none
given (c ∷ s) = some (c ∷ s)

-- `isValidRecordDate`, by `time.Parse` and `Format` of the layout `2006-01-02`.
module _ (parses_back : Text → Bool) where
  unfoldable pub check_range : Text → Text → Checked FilterError
  check_range from to =
      if not (from == []) && not (parses_back from)
      then err (invalid_from from)
      else if not (to == []) && not (parses_back to)
      then err (invalid_to to)
      else if not (from == []) && not (to == []) && text_lt to from
      then err from_after_to
      else passed

  unfoldable pub build_base_record_filter :
      RecordFilterOptions → Result FilterError ListRecordsFilter
  build_base_record_filter opts = do
    check_range (trim_space opts.date_from) (trim_space opts.date_to)
    ok (record no_filter {
      project_id = given (trim_space opts.project_id);
      date_from = given (trim_space opts.date_from);
      date_to = given (trim_space opts.date_to);
    })

  abbrev pub only_if_deleted : Bool → ListRecordsFilter → ListRecordsFilter
  only_if_deleted deleted f =
      if deleted then record f { include_deleted = true; only_deleted = true } else f

  unfoldable pub build_list_records_filter :
      RecordFilterOptions → Result FilterError ListRecordsFilter
  build_list_records_filter opts = do
    f ← build_base_record_filter opts
    ok (only_if_deleted opts.deleted f)
