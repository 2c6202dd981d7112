-- ===== src/ListPage.antt =====
-- cli/internal/listpage/listpage.go: cursors, and the pages of cli/internal/serve/server.go and
-- cli/internal/cli/records.go that they lead through. A cursor's text is base64 of JSON; the model
-- has the cursor itself.
pub mod Order
pub mod Paging
use Prim.Native.Nat.{Ordering}
use mathlib.Core.Option
use personal_context.Base.{
  ℕ, zero, suc, ◌+◌, Bool, true, false, not, Option, none, some, List, [], ◌∷◌, ◌++◌, ◌==◌, nat_eq,
  list_eq, length, ltb, take, if◌then◌else◌,
}
use personal_context.Text.{Text, text_compare, text_lt}
use personal_context.Repository.Types.{Record}

pub record Cursor : Type 0 where
  pub date : Text
  pub day_order : Text
  pub id : Text

-- `IsAfterCursor`.
unfoldable pub is_after_cursor : Text → Text → Text → Cursor → Bool
is_after_cursor date day_order id cursor =
    if not (date == cursor.date)
    then text_lt date cursor.date
    else if not (day_order == cursor.day_order)
    then text_lt cursor.day_order day_order
    else text_lt cursor.id id

-- `if cmp := ...; cmp != 0 { return cmp }`.
abbrev pub then_by : Ordering → Ordering → Ordering
then_by Ordering.lt next = Ordering.lt
then_by Ordering.eq next = next
then_by Ordering.gt next = Ordering.gt

-- `compareRecordsForDiscovery`.
unfoldable pub compare_records_for_discovery : Record → Record → Ordering
compare_records_for_discovery a b =
    then_by (text_compare b.date a.date)
      (then_by (text_compare a.day_order b.day_order) (text_compare a.id b.id))

-- `compareRecordsForAPI`, whose -1, 0 and 1 are the three orderings.
unfoldable pub compare_records_for_api : Record → Record → Ordering
compare_records_for_api a b =
    if text_lt b.date a.date
    then Ordering.lt
    else if text_lt a.date b.date
    then Ordering.gt
    else if text_lt a.day_order b.day_order
    then Ordering.lt
    else if text_lt b.day_order a.day_order
    then Ordering.gt
    else if text_lt a.id b.id
    then Ordering.lt
    else if text_lt b.id a.id
    then Ordering.gt
    else Ordering.eq

-- `compareRecordsByDayOrder`, for the records of one date.
unfoldable pub compare_records_by_day_order : Record → Record → Ordering
compare_records_by_day_order a b =
    if text_lt a.day_order b.day_order
    then Ordering.lt
    else if text_lt b.day_order a.day_order
    then Ordering.gt
    else if text_lt a.id b.id
    then Ordering.lt
    else if text_lt b.id a.id
    then Ordering.gt
    else Ordering.eq

-- The loop of `applyRecordCursor`, and of `handleListRecords`.
unfoldable pub skip_to : Cursor → List Record → List Record
skip_to cursor [] = []
skip_to cursor (r ∷ rs) =
    if is_after_cursor r.date r.day_order r.id cursor then r ∷ rs else skip_to cursor rs

unfoldable pub apply_record_cursor : List Record → Option Cursor → List Record
unfolding skip_to
apply_record_cursor records none = records
apply_record_cursor records (some cursor) = skip_to cursor records

abbrev pub cursor_of : Record → Cursor
cursor_of r = record { date = r.date; day_order = r.day_order; id = r.id }

unfoldable pub cursor_of_last : List Record → Option Cursor
cursor_of_last [] = none
cursor_of_last (r ∷ []) = some (cursor_of r)
cursor_of_last (r ∷ s ∷ rs) = cursor_of_last (s ∷ rs)

pub record Page : Type 0 where
  pub items : List Record
  pub next_cursor : Option Cursor

-- `handleListRecords` from the remaining records on: the cut to one record more than the limit,
-- and the cursor of the last record if there is another page.
unfoldable pub cut : ℕ → List Record → Page
unfolding cursor_of_last
cut limit after =
    let records = if ltb (limit + 1) (length after) then take (limit + 1) after else after in
    if ltb limit (length records)
    then record { items = take limit records; next_cursor = cursor_of_last (take limit records) }
    else record { items = records; next_cursor = none }

unfoldable pub page : ℕ → Option Cursor → List Record → Page
unfolding apply_record_cursor cut
page limit cursor sorted = cut limit (apply_record_cursor sorted cursor)

-- A client that asks for page after page, `none` if it has not reached the last page.
abbrev gather : Page → (Cursor → Option (List Record)) → Option (List Record)
gather p ask = elim p.next_cursor [
  | none ↦ some p.items
  | some next ↦ Option.map (λ rest. p.items ++ rest) (ask next)
]

unfoldable pub all_pages : ℕ → ℕ → Option Cursor → List Record → Option (List Record)
all_pages zero limit cursor sorted = none
all_pages (suc fuel) limit cursor sorted =
    gather (page limit cursor sorted) (λ next. all_pages fuel limit (some next) sorted)
