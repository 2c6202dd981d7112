-- ===== src/Tests/Filters.antt =====
-- Runs of the record filters, and the examples of the order and the filters.
use personal_context.Base.{◌≡◌, refl, Bool, true, [], nat_eq, list_eq, ok, err}
use personal_context.Text.{Text, codes, trim_space, is_space, text_compare}
use personal_context.Repository.Types.{Record}
use personal_context.Repository.RecordFilter.{
  RecordFilterOptions, from_after_to, build_list_records_filter, build_base_record_filter,
  check_range, list_records_predicate, record_matches_filter,
}
use personal_context.Repository.RecordFilter.Agreement.{
  options_filter, record_matches_filter-predicate,
}
use personal_context.ListPage.{
  compare_records_for_api, compare_records_for_discovery, compare_records_by_day_order,
}
use personal_context.ListPage.Order.{compare_records_for_api-discovery}
use personal_context.Tests.Data.{note_at}
use personal_context.Base.{none, some}

abbrev any_date : Text → Bool
any_date s = true

abbrev options : RecordFilterOptions
options = record {
  project_id = codes "p ";
  date_from = codes "2026-05-01";
  date_to = [];
  deleted = true;
}

builds : build_list_records_filter any_date options ≡ ok (options_filter options)
unfolding build_list_records_filter build_base_record_filter check_range trim_space is_space nat_eq
    list_eq
builds = refl

crossed :
    build_list_records_filter any_date (record options { date_to = codes "2026-04-30" })
    ≡ err from_after_to
unfolding build_list_records_filter build_base_record_filter check_range trim_space is_space nat_eq
    list_eq text_compare
crossed = refl

shown : record_matches_filter (note_at 2000000 (some 3000000)) (options_filter options) ≡ true
unfolding record_matches_filter trim_space is_space nat_eq list_eq text_compare
shown = refl

record_matches_filter-predicate_example :
    (shows : Record → Bool) × (list_records_predicate [] (options_filter options) ≡ ok shows)
    × ((r : Record) → record_matches_filter r (options_filter options) ≡ shows r)
record_matches_filter-predicate_example =
    record_matches_filter-predicate any_date options (options_filter options) [] builds

compare_records_for_api-discovery_example :
    (compare_records_for_api (note_at 1 none) (note_at 2 none)
      ≡ compare_records_for_discovery (note_at 1 none) (note_at 2 none))
    × (codes "2026-05-10" ≡ codes "2026-05-10"
        → compare_records_by_day_order (note_at 1 none) (note_at 2 none)
          ≡ compare_records_for_discovery (note_at 1 none) (note_at 2 none))
compare_records_for_api-discovery_example =
    compare_records_for_api-discovery (note_at 1 none) (note_at 2 none)
