-- ===== src/ListPage/Paging.antt =====
-- The pages of a sorted list, one after another, are the list.
use Prim.Native.Nat.{Ordering}
use native.Mathlib.Numerals.{add-one}
use mathlib.Core.List.{append_assoc}
use personal_context.Base.{
  ℕ, zero, suc, ◌≤◌, ◌<◌, ◌≡◌, ◌≢◌, inl, inr, refl, sym, ap, subst, ◌∙◌, false, Option, none, some,
  List, [], ◌∷◌, ◌++◌, arith, length, take, ltb, Bool-cases,
}
use personal_context.Repository.Types.{Record}
use personal_context.ListPage.{
  Cursor, cursor_of, cursor_of_last, is_after_cursor, compare_records_for_discovery, skip_to,
  apply_record_cursor, cut, page, gather, all_pages,
}
use personal_context.ListPage.Order.{
  is_after_cursor_iff, compare_records-reversed, compare_records_refl,
}

abbrev pub AllAfter : Record → List Record → Type 0
AllAfter r [] = Unit
AllAfter r (s ∷ rs) = (compare_records_for_discovery r s ≡ Ordering.lt) × AllAfter r rs

-- In the order of `sortRecordsForDiscovery`, no two records at one place.
abbrev pub IsSorted : List Record → Type 0
IsSorted [] = Unit
IsSorted (r ∷ rs) = AllAfter r rs × IsSorted rs

AllAfter-middle :
    (r : Record) (xs : List Record) (last : Record) (ys : List Record)
    → AllAfter r (xs ++ last ∷ ys)
    → compare_records_for_discovery r last ≡ Ordering.lt
AllAfter-middle r [] last ys (h, _) = h
AllAfter-middle r (x ∷ xs) last ys (_, h) = AllAfter-middle r xs last ys h

not_after :
    (r last : Record)
    → compare_records_for_discovery last r ≢ Ordering.lt
    → is_after_cursor r.date r.day_order r.id (cursor_of last) ≡ false
not_after r last h = elim (Bool-cases (is_after_cursor r.date r.day_order r.id (cursor_of last))) [
  | inl e ↦ absurd (h ((is_after_cursor_iff r last).0 e))
  | inr e ↦ e
]

skip_to-AllAfter :
    (last : Record) (ys : List Record) → AllAfter last ys → skip_to (cursor_of last) ys ≡ ys
unfolding skip_to
skip_to-AllAfter last [] h = refl
skip_to-AllAfter last (y ∷ ys) (h, _) = rw ((is_after_cursor_iff y last).1 h)

-- The cursor of a record leads to the records behind it.
skip_to-behind :
    (xs : List Record) (last : Record) (ys : List Record)
    → IsSorted (xs ++ last ∷ ys)
    → skip_to (cursor_of last) (xs ++ last ∷ ys) ≡ ys
unfolding skip_to
skip_to-behind [] last ys (after, _) =
    rw (not_after last last (λ e. cc (compare_records_refl last))) (skip_to-AllAfter last ys after)
skip_to-behind (x ∷ xs) last ys (after, h) =
    rw
      (not_after x last
        (λ e. cc (compare_records-reversed x last, AllAfter-middle x xs last ys after)))
      (skip_to-behind xs last ys h)

-- A list that is longer than the limit, cut after its last item.
record IsCut (limit : ℕ) (rest : List Record) : Type 0 where
  xs : List Record
  last : Record
  ys : List Record
  whole : rest ≡ xs ++ last ∷ ys
  items : take limit rest ≡ xs ++ last ∷ []
  next : cursor_of_last (take limit rest) ≡ some (cursor_of last)
  shorter : length ys < length rest

IsCut-rest : (limit : ℕ) (rest : List Record) → 1 ≤ limit → limit < length rest → IsCut limit rest
unfolding cursor_of_last
IsCut-rest zero rest h k = absurd (omega arith)
IsCut-rest (suc limit) [] h k = absurd (omega arith)
IsCut-rest (suc zero) (r ∷ rest) h k = record {
  xs = [];
  last = r;
  ys = rest;
  whole = refl;
  items = refl;
  next = refl;
  shorter = omega arith;
}
IsCut-rest (suc (suc limit)) (r ∷ []) h k = absurd (omega arith)
IsCut-rest (suc (suc limit)) (r ∷ s ∷ rest) h k =
    let c = IsCut-rest (suc limit) (s ∷ rest) (omega arith) (omega arith) in
    record {
      xs = r ∷ c.xs;
      last = c.last;
      ys = c.ys;
      whole = ap (λ l. r ∷ l) c.whole;
      items = ap (λ l. r ∷ l) c.items;
      next = c.next;
      shorter = omega (arith, c.shorter);
    }

take-take-suc : (n : ℕ) (xs : List Record) → take n (take (suc n) xs) ≡ take n xs
take-take-suc zero xs = refl
take-take-suc (suc n) [] = refl
take-take-suc (suc n) (x ∷ xs) = ap (λ l. x ∷ l) (take-take-suc n xs)

length-take : (n : ℕ) (xs : List Record) → n ≤ length xs → length (take n xs) ≡ n
length-take zero xs h = refl
length-take (suc n) [] h = omega arith
length-take (suc n) (x ∷ xs) h = omega (arith, length-take n xs)

cut_last :
    (limit : ℕ) (rest : List Record)
    → length rest ≤ limit
    → cut limit rest ≡ record { items = rest; next_cursor = none }
unfolding cut
cut_last limit rest h = ground arith

cut_more :
    (limit : ℕ) (rest : List Record)
    → limit < length rest
    → cut limit rest
      ≡ record { items = take limit rest; next_cursor = cursor_of_last (take limit rest) }
unfolding cut
cut_more limit rest h =
    ground (arith, length-take (suc limit) rest, take-take-suc limit rest, add-one limit)

module _ {limit : ℕ} {rest : List Record} (c : IsCut limit rest) where
  whole_items : rest ≡ (c.xs ++ c.last ∷ []) ++ c.ys
  whole_items = c.whole ∙ sym (append_assoc c.xs (c.last ∷ []) c.ys)

  IsCut-before :
      (sorted before : List Record)
      → sorted ≡ before ++ rest
      → sorted ≡ (before ++ (c.xs ++ c.last ∷ [])) ++ c.ys
  IsCut-before sorted before e =
      e ∙ ap (λ l. before ++ l) whole_items ∙ sym (append_assoc before (c.xs ++ c.last ∷ []) c.ys)

  IsCut-skip_to :
      (sorted before : List Record)
      → IsSorted sorted
      → sorted ≡ before ++ rest
      → skip_to (cursor_of c.last) sorted ≡ c.ys
  IsCut-skip_to sorted before s e =
      let whole : sorted ≡ (before ++ c.xs) ++ c.last ∷ c.ys =
        e ∙ ap (λ l. before ++ l) c.whole ∙ sym (append_assoc before c.xs (c.last ∷ c.ys)) in
      subst (λ l. skip_to (cursor_of c.last) l ≡ c.ys) (sym whole)
        (skip_to-behind (before ++ c.xs) c.last c.ys (subst IsSorted whole s))

  IsCut-gather :
      (ask : Cursor → Option (List Record))
      → ask (cursor_of c.last) ≡ some c.ys
      → gather
          (record { items = take limit rest; next_cursor = cursor_of_last (take limit rest) })
          ask
        ≡ some rest
  IsCut-gather ask h = rw (c.next, h) (ap some (ap (λ l. l ++ c.ys) c.items ∙ sym whole_items))

-- The pages from a cursor on, where `rest` is what lies behind that cursor.
all_pages_from :
    (fuel limit : ℕ) (cursor : Option Cursor) (sorted before rest : List Record)
    → 1 ≤ limit
    → length rest < fuel
    → IsSorted sorted
    → sorted ≡ before ++ rest
    → apply_record_cursor sorted cursor ≡ rest
    → all_pages fuel limit cursor sorted ≡ some rest
unfolding all_pages
all_pages_from zero limit cursor sorted before rest some_items enough s e at = absurd (omega arith)
all_pages_from (suc fuel) limit cursor sorted before rest some_items enough s e at =
    let ask : Cursor → Option (List Record) = λ next. all_pages fuel limit (some next) sorted in
    let here : page limit cursor sorted ≡ cut limit rest = unfold page in ap (cut limit) at in
    elim (Bool-cases (ltb limit (length rest))) [
      | inl more ↦
          let c = IsCut-rest limit rest some_items (ground arith) in
          ap (λ p. gather p ask) (here ∙ cut_more limit rest (ground arith))
          ∙ IsCut-gather c ask (
              all_pages_from fuel limit (some (cursor_of c.last)) sorted
                (before ++ (c.xs ++ c.last ∷ [])) c.ys some_items (omega (arith, c.shorter)) s
                (IsCut-before c sorted before e)
                (unfold apply_record_cursor in IsCut-skip_to c sorted before s e))
      | inr last ↦ ap (λ p. gather p ask) (here ∙ cut_last limit rest (ground arith))
    ]

-- A client that takes pages of any size from 1 up, each with the cursor of the one before, gets
-- every record exactly once and in order, in no more pages than records, and one.
pub all_pages-sorted :
    (limit : ℕ) (sorted : List Record)
    → 1 ≤ limit
    → IsSorted sorted
    → all_pages (suc (length sorted)) limit none sorted ≡ some sorted
all_pages-sorted limit sorted some_items s =
    all_pages_from (suc (length sorted)) limit none sorted [] sorted some_items (omega arith) s refl
      (unfold apply_record_cursor in refl)
