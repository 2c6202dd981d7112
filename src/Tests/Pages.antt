-- ===== src/Tests/Pages.antt =====
-- listpage/listpage.go, and the pages of a list.
use Prim.Native.Nat.{Ordering}
use personal_context.Base.{
  ◌≡◌, ◌↔◌, refl, true, none, some, List, [], ◌∷◌, suc, length, arith, nat_eq, list_eq,
}
use personal_context.Text.{Text, codes, text_compare}
use personal_context.Repository.Types.{Record}
use personal_context.ListPage.{
  page, all_pages, cursor_of, is_after_cursor, compare_records_for_discovery,
}
use personal_context.ListPage.Order.{is_after_cursor_iff}
use personal_context.ListPage.Paging.{IsSorted, all_pages-sorted}
use personal_context.Tests.Data.{note_at}

abbrev on : Text → Text → Text → Record
on day order id = record (note_at 1000000 none) { date = day; day_order = order; id = id }

abbrev today : Record
today = on (codes "2026-05-10") (codes "a0") (codes "r3")

abbrev later_today : Record
later_today = on (codes "2026-05-10") (codes "a1") (codes "r1")

abbrev yesterday : Record
yesterday = on (codes "2026-05-09") (codes "a0") (codes "r2")

abbrev listing : List Record
listing = today ∷ later_today ∷ yesterday ∷ []

first_page :
    page 2 none listing
    ≡ record { items = today ∷ later_today ∷ []; next_cursor = some (cursor_of later_today) }
unfolding page
first_page = refl

last_page :
    page 2 (some (cursor_of later_today)) listing
    ≡ record { items = yesterday ∷ []; next_cursor = none }
unfolding page is_after_cursor text_compare nat_eq list_eq
last_page = refl

is_after_cursor_iff_example :
    (is_after_cursor yesterday.date yesterday.day_order yesterday.id (cursor_of today) ≡ true)
    ↔ (compare_records_for_discovery today yesterday ≡ Ordering.lt)
is_after_cursor_iff_example = is_after_cursor_iff yesterday today

listing-IsSorted : IsSorted listing
unfolding compare_records_for_discovery text_compare
listing-IsSorted = ((refl, (refl, tt)), ((refl, tt), (tt, tt)))

all_pages-sorted_example : all_pages (suc (length listing)) 2 none listing ≡ some listing
all_pages-sorted_example = all_pages-sorted 2 listing (omega arith) listing-IsSorted
