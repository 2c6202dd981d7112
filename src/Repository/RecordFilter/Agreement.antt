-- ===== src/Repository/RecordFilter/Agreement.antt =====
-- records.go and sqlite/repository.go: the test of one record agrees with the database's.
use personal_context.Base.{
  ◌≡◌, refl, Bool, true, false, not, ◌&&◌, Option, none, some, List, arith, ◌==◌, nat_eq, list_eq,
  if◌then◌else◌, ok,
}
use personal_context.Text.{Text, trim_space, text_lt}
use personal_context.Repository.Types.{Record}
use personal_context.Repository.RecordFilter.{
  ListRecordsFilter, no_filter, row_matches, list_records_predicate, record_matches_filter,
  has_value, RecordFilterOptions, given, build_base_record_filter, build_list_records_filter,
  differs_from, is_before, is_past, where_some,
}

-- The filters that the options lead to.
abbrev pub options_filter : RecordFilterOptions → ListRecordsFilter
options_filter opts = record no_filter {
  include_deleted = opts.deleted;
  only_deleted = opts.deleted;
  project_id = given (trim_space opts.project_id);
  date_from = given (trim_space opts.date_from);
  date_to = given (trim_space opts.date_to);
}

build-options_filter :
    (parses_back : Text → Bool) (opts : RecordFilterOptions) (f : ListRecordsFilter)
    → build_list_records_filter parses_back opts ≡ ok f
    → f ≡ options_filter opts
unfolding build_list_records_filter build_base_record_filter
build-options_filter parses_back opts f h = ground arith

-- The conditions, each as a test of one record and as one of a row.
project_test : (s : Text) (o : Option Text) → differs_from s o ≡ not (where_some o (λ p. s == p))
project_test s none = refl
project_test s (some t) = refl

from_test :
    (s : Text) (o : Option Text) → is_before s o ≡ not (where_some o (λ d. not (text_lt s d)))
from_test s none = refl
from_test s (some t) = ground arith

to_test : (s : Text) (o : Option Text) → is_past s o ≡ not (where_some o (λ d. not (text_lt d s)))
to_test s none = refl
to_test s (some t) = ground arith

-- The early returns of the one side, the conjunction of the other.
flags_test :
    (project from to chosen deleted : Bool)
    → (if not project
        then false
        else if not from
        then false
        else if not to
        then false
        else if chosen && not deleted
        then false
        else if not chosen && deleted
        then false
        else true)
      ≡ ((if chosen then deleted else if not chosen then not deleted else true)
          && project
          && from
          && to
          && true
          && true
          && true
          && true)
flags_test project from to chosen deleted = ground arith

matches_test :
    (with_data : List Text) (r : Record) (opts : RecordFilterOptions)
    → record_matches_filter r (options_filter opts) ≡ row_matches with_data (options_filter opts) r
unfolding record_matches_filter row_matches
matches_test with_data r opts =
    rw
      (
        project_test r.project_id (given (trim_space opts.project_id)),
        from_test r.date (given (trim_space opts.date_from)),
        to_test r.date (given (trim_space opts.date_to)),
      )
      (flags_test _ _ _ opts.deleted (has_value r.deleted_at))

-- The filter that the options lead to has a predicate, and with any data files the database's
-- predicate shows exactly the records that pass the test of one record.
pub record_matches_filter-predicate :
    (parses_back : Text → Bool) (opts : RecordFilterOptions) (f : ListRecordsFilter)
    (with_data : List Text)
    → build_list_records_filter parses_back opts ≡ ok f
    → (shows : Record → Bool) × (list_records_predicate with_data f ≡ ok shows)
      × ((r : Record) → record_matches_filter r f ≡ shows r)
unfolding list_records_predicate
record_matches_filter-predicate parses_back opts f with_data h =
    let e = build-options_filter parses_back opts f h in
    (row_matches with_data f, rw e, λ r. rw e (matches_test with_data r opts))
