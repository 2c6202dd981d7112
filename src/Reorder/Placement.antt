-- ===== src/Reorder/Placement.antt =====
-- server.go: a record that is moved before another one gets the key of that place.
use Prim.Native.Nat.{Ordering}
use personal_context.Base.{
  ℕ, ◌-◌, ◌≡◌, ◌≢◌, ◌⊎◌, inl, inr, refl, ap, ◌∙◌, false, Option, none, some, List, [], ◌∷◌, ◌++◌,
  arith, nat_eq, list_eq, ==-refl, ltb, length, if◌then◌else◌, ok,
}
use personal_context.Text.{Text, text_compare}
use personal_context.Text.Order.{text_compare_trans}
use personal_context.Repository.Types.{Record}
use personal_context.Repository.Records.{is_stored}
use personal_context.Reorder.{
  before, find_record_index_by_id, day_order_at, generate_key_between, compute_fractional_index,
  generate_key_fallback, key_or_fallback,
}

-- The records before the place and those after it, by the key of the place.
abbrev pub AllBelow : List Record → Text → Type 0
AllBelow [] key = Unit
AllBelow (r ∷ rs) key = (text_compare r.day_order key ≡ Ordering.lt) × AllBelow rs key

abbrev pub AllAbove : Text → List Record → Type 0
AllAbove key [] = Unit
AllAbove key (r ∷ rs) = (text_compare key r.day_order ≡ Ordering.lt) × AllAbove key rs

-- Day orders that rise from record to record.
abbrev pub IsRising : List Record → Type 0
IsRising [] = Unit
IsRising (r ∷ rs) = AllAbove r.day_order rs × IsRising rs

abbrev pub AllKeys : (Text → Type 0) → List Record → Type 0
AllKeys IsKey [] = Unit
AllKeys IsKey (r ∷ rs) = IsKey r.day_order × AllKeys IsKey rs

AllAbove-trans :
    (a b : Text) (rs : List Record) → text_compare a b ≡ Ordering.lt → AllAbove b rs → AllAbove a rs
AllAbove-trans a b [] h k = tt
AllAbove-trans a b (r ∷ rs) h (k, ks) =
    (text_compare_trans a b r.day_order h k, AllAbove-trans a b rs h ks)

find-append :
    (xs : List Record) (r : Record) (ys : List Record)
    → is_stored r.id xs ≡ false
    → find_record_index_by_id (xs ++ r ∷ ys) r.id ≡ some (length xs)
unfolding find_record_index_by_id is_stored
find-append [] r ys h = rw (==-refl r.id)
find-append (x ∷ xs) r ys h = ground (arith, find-append xs r ys)

day_order_at-append :
    (xs : List Record) (r : Record) (ys : List Record)
    → day_order_at (xs ++ r ∷ ys) (length xs) ≡ r.day_order
unfolding day_order_at
day_order_at-append [] r ys = refl
day_order_at-append (x ∷ xs) r ys = day_order_at-append xs r ys

-- The day order of the last record, or blank.
unfoldable pub last_order : List Record → Text
last_order [] = []
last_order (x ∷ []) = x.day_order
last_order (x ∷ y ∷ xs) = last_order (y ∷ xs)

last-append :
    (x : Record) (xs : List Record) (r : Record) (ys : List Record)
    → day_order_at (x ∷ (xs ++ r ∷ ys)) (length xs) ≡ last_order (x ∷ xs)
unfolding last_order day_order_at
last-append x [] r ys = refl
last-append x (y ∷ xs) r ys = last-append y xs r ys

previous-append :
    (xs : List Record) (r : Record) (ys : List Record)
    → (if ltb 0 (length xs) then day_order_at (xs ++ r ∷ ys) (length xs - 1) else [])
      ≡ last_order xs
unfolding last_order
previous-append [] r ys = refl
previous-append (x ∷ xs) r ys = ground (arith, last-append x xs r ys)

-- All records stand below whatever the last one stands below.
AllBelow-last_order :
    (x : Record) (xs : List Record) (key : Text)
    → IsRising (x ∷ xs)
    → text_compare (last_order (x ∷ xs)) key ≡ Ordering.lt
    → AllBelow (x ∷ xs) key
unfolding last_order
AllBelow-last_order x [] key h k = (k, tt)
AllBelow-last_order x (y ∷ xs) key ((below, _), h) k =
    let rest = AllBelow-last_order y xs key h k in
    (text_compare_trans x.day_order y.day_order key below rest.0, rest)

AllAbove-append : (a : Text) (xs ys : List Record) → AllAbove a (xs ++ ys) → AllAbove a xs
AllAbove-append a [] ys h = tt
AllAbove-append a (x ∷ xs) ys (h, hs) = (h, AllAbove-append a xs ys hs)

IsRising-append : (xs ys : List Record) → IsRising (xs ++ ys) → IsRising xs
IsRising-append [] ys h = tt
IsRising-append (x ∷ xs) ys (h, hs) =
    (AllAbove-append x.day_order xs ys h, IsRising-append xs ys hs)

AllBelow-previous :
    (xs : List Record) (r : Record) (ys : List Record) (key : Text)
    → IsRising (xs ++ r ∷ ys)
    → (xs ≡ []) ⊎ (text_compare (last_order xs) key ≡ Ordering.lt)
    → AllBelow xs key
AllBelow-previous [] r ys key h k = tt
AllBelow-previous (x ∷ xs) r ys key h (inl k) = cc
AllBelow-previous (x ∷ xs) r ys key h (inr k) =
    AllBelow-last_order x xs key (IsRising-append (x ∷ xs) (r ∷ ys) h) k

-- A text is below the same text with more behind it.
text_compare-append : (s : Text) (c : ℕ) → text_compare s (s ++ c ∷ []) ≡ Ordering.lt
unfolding text_compare
text_compare-append [] c = refl
text_compare-append (d ∷ s) c = ground (arith, text_compare-append s c)

fallback-above : (a b : Text) → a ≢ [] → text_compare a (generate_key_fallback a b) ≡ Ordering.lt
fallback-above [] b h = absurd (h refl)
fallback-above (c ∷ a) b h = text_compare-append (c ∷ a) _

last_order-append : (xs : List Record) (x : Record) → last_order (xs ++ x ∷ []) ≡ x.day_order
unfolding last_order
last_order-append [] x = refl
last_order-append (y ∷ []) x = refl
last_order-append (y ∷ z ∷ xs) x = last_order-append (z ∷ xs) x

IsRising-after :
    (xs : List Record) (r : Record) (ys : List Record)
    → IsRising (xs ++ r ∷ ys)
    → AllAbove r.day_order ys
IsRising-after [] r ys h = h.0
IsRising-after (x ∷ xs) r ys h = IsRising-after xs r ys h.1

module _ (key_between : Text → Text → Option Text) where
  compute-before :
      (xs : List Record) (r : Record) (ys : List Record)
      → is_stored r.id xs ≡ false
      → compute_fractional_index key_between (xs ++ r ∷ ys) (before r.id)
        ≡ ok (generate_key_between key_between (last_order xs) r.day_order)
  unfolding compute_fractional_index
  compute-before xs r ys h =
      rw (find-append xs r ys h) (rw (previous-append xs r ys, day_order_at-append xs r ys))

  -- Let the siblings rise by their day orders, and let the library's key for the place before a
  -- sibling be below that sibling, and above the one before it, if there is one. Then the record
  -- that is moved before the sibling gets that key, which is above all the siblings before the
  -- place and below all those after it.
  pub compute_fractional_index-before :
      (xs : List Record) (r : Record) (ys : List Record) (key : Text)
      → IsRising (xs ++ r ∷ ys)
      → is_stored r.id xs ≡ false
      → key_between (last_order xs) r.day_order ≡ some key
      → (xs ≡ []) ⊎ (text_compare (last_order xs) key ≡ Ordering.lt)
      → text_compare key r.day_order ≡ Ordering.lt
      → (compute_fractional_index key_between (xs ++ r ∷ ys) (before r.id) ≡ ok key)
        × AllBelow xs key
        × AllAbove key (r ∷ ys)
  unfolding generate_key_between
  compute_fractional_index-before xs r ys key rising new made above below = (
    compute-before xs r ys new ∙ ap ok (ap (key_or_fallback (last_order xs) r.day_order) made),
    AllBelow-previous xs r ys key rising above,
    (below, AllAbove-trans key r.day_order ys below (IsRising-after xs r ys rising)),
  )

  -- Two siblings may have one day order, which sorts them by their ids. If the library refuses a
  -- key between equal keys, a record that is moved before the second of them gets a key that is
  -- above it.
  pub compute_fractional_index_tie :
      (xs : List Record) (x r : Record) (ys : List Record)
      → is_stored r.id (xs ++ x ∷ []) ≡ false
      → x.day_order ≡ r.day_order
      → r.day_order ≢ []
      → key_between r.day_order r.day_order ≡ none
      → (key : Text) × (compute_fractional_index key_between
            ((xs ++ x ∷ []) ++ r ∷ ys)
            (before r.id)
          ≡ ok key)
        × (text_compare r.day_order key ≡ Ordering.lt)
  unfolding generate_key_between
  compute_fractional_index_tie xs x r ys new tie given refused = (
    generate_key_fallback r.day_order r.day_order,
    compute-before (xs ++ x ∷ []) r ys new
        ∙ rw (last_order-append xs x, tie)
            (ap ok (ap (key_or_fallback r.day_order r.day_order) refused)),
    fallback-above r.day_order r.day_order given,
  )
