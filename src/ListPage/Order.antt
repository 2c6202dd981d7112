-- ===== src/ListPage/Order.antt =====
-- listpage.go and records.go: the cursor's test agrees with the order of the sort.
use Prim.Native.Nat.{Ordering}
use personal_context.Text.{Text, text_compare, text_lt}
use personal_context.Base.{if◌then◌else◌, ◌≡◌, ◌↔◌, true, arith, list_eq, nat_eq}
use personal_context.Text.Order.{
  text_compare_refl, text_compare-eq, text_compare-reversed, reversed,
}
use personal_context.Repository.Types.{Record}
use personal_context.ListPage.{
  cursor_of, is_after_cursor, compare_records_for_discovery, compare_records_for_api,
  compare_records_by_day_order, then_by,
}

-- A record comes after the cursor of another one exactly if the sort puts it after that one.
pub is_after_cursor_iff :
    (r last : Record)
    → (is_after_cursor r.date r.day_order r.id (cursor_of last) ≡ true)
      ↔ (compare_records_for_discovery last r ≡ Ordering.lt)
unfolding is_after_cursor compare_records_for_discovery
is_after_cursor_iff r last = ground (
  arith,
  text_compare-eq r.date last.date,
  text_compare-eq last.day_order r.day_order,
  text_compare_refl r.date,
  text_compare_refl r.day_order,
)

pub compare_records-reversed :
    (a b : Record)
    → compare_records_for_discovery b a ≡ reversed (compare_records_for_discovery a b)
unfolding compare_records_for_discovery
compare_records-reversed a b = ground (
  arith,
  text_compare-reversed a.date b.date,
  text_compare-reversed a.day_order b.day_order,
  text_compare-reversed a.id b.id,
)

pub compare_records_refl : (a : Record) → compare_records_for_discovery a a ≡ Ordering.eq
unfolding compare_records_for_discovery
compare_records_refl a = rw (text_compare_refl, text_compare_refl, text_compare_refl)

-- The tests of `<` on two texts give their order.
text_lt-compare :
    (s t : Text) (next : Ordering)
    → (if text_lt s t then Ordering.lt else if text_lt t s then Ordering.gt else next)
      ≡ then_by (text_compare s t) next
text_lt-compare s t next = ground (arith, text_compare-reversed s t)

text_lt-last :
    (s t : Text)
    → (if text_lt s t then Ordering.lt else if text_lt t s then Ordering.gt else Ordering.eq)
      ≡ text_compare s t
text_lt-last s t = ground (arith, text_compare-reversed s t)

-- The server and the command line list records in one order, and records of one date in the order
-- that the server sorts the records of a day by.
pub compare_records_for_api-discovery :
    (a b : Record)
    → (compare_records_for_api a b ≡ compare_records_for_discovery a b)
      × (a.date ≡ b.date → compare_records_by_day_order a b ≡ compare_records_for_discovery a b)
unfolding compare_records_for_api compare_records_for_discovery compare_records_by_day_order
compare_records_for_api-discovery a b =
    let ids = text_lt-last a.id b.id in
    (
      rw (ids, text_lt-compare a.day_order b.day_order, text_lt-compare b.date a.date),
      λ e. rw (e, text_compare_refl b.date, ids, text_lt-compare a.day_order b.day_order),
    )
