-- ===== src/Reorder.antt =====
-- cli/internal/serve/server.go, computeFractionalIndex: the place of a record in its day.
pub mod Placement
use personal_context.Base.{
  ℕ, zero, suc, ◌-◌, ◌+◌, Bool, Option, none, some, List, [], ◌∷◌, ◌++◌, ◌==◌, nat_eq, list_eq, ltb,
  length, if◌then◌else◌, Result, ok, err,
}
use personal_context.Text.{Text, codes}
use personal_context.Repository.Types.{Record}

-- The kinds that `validateReorderBody` lets through, with the reference they need.
pub data Position : Type 0 where
  first last : Position
  before after : Text → Position

pub data ReorderError : Type 0 where
  reference_not_found : Text → ReorderError

-- `findRecordIndexByID`, whose -1 is `none`.
unfoldable pub find_record_index_by_id : List Record → Text → Option ℕ
find_record_index_by_id [] id = none
find_record_index_by_id (r ∷ rs) id =
    let rest = find_record_index_by_id rs id in
    if r.id == id then some 0 else elim rest [ none ↦ none | some i ↦ some (suc i) ]

-- `siblings[i].DayOrder`; every index that the code uses is in range.
unfoldable pub day_order_at : List Record → ℕ → Text
day_order_at [] i = []
day_order_at (r ∷ rs) zero = r.day_order
day_order_at (r ∷ rs) (suc i) = day_order_at rs i

abbrev pub generate_key_fallback : Text → Text → Text
generate_key_fallback [] b = codes "a0"
generate_key_fallback (c ∷ a) b = (c ∷ a) ++ codes "V"

abbrev pub key_or_fallback : Text → Text → Option Text → Text
key_or_fallback a b none = generate_key_fallback a b
key_or_fallback a b (some key) = key

-- `if refIdx == -1 { return "", ... }`.
abbrev pub at_reference : Text → (ℕ → Text) → Option ℕ → Result ReorderError Text
at_reference id key_at none = err (reference_not_found id)
at_reference id key_at (some i) = ok (key_at i)

-- `fractionalindex.GenerateBetween`, which is `fracdex.KeyBetween`; `none` stands for its error.
module _ (key_between : Text → Text → Option Text) where
  unfoldable pub generate_key_between : Text → Text → Text
  generate_key_between a b = key_or_fallback a b (key_between a b)

  abbrev pub key_before : List Record → ℕ → Text
  key_before siblings i =
      generate_key_between (if ltb 0 i then day_order_at siblings (i - 1) else [])
        (day_order_at siblings i)

  abbrev pub key_after : List Record → ℕ → Text
  key_after siblings i =
      generate_key_between (day_order_at siblings i)
        (if ltb i (length siblings - 1) then day_order_at siblings (i + 1) else [])

  unfoldable pub compute_fractional_index : List Record → Position → Result ReorderError Text
  compute_fractional_index siblings first =
      if length siblings == 0
      then ok (generate_key_between [] [])
      else ok (generate_key_between [] (day_order_at siblings 0))
  compute_fractional_index siblings last =
      if length siblings == 0
      then ok (generate_key_between [] [])
      else ok (generate_key_between (day_order_at siblings (length siblings - 1)) [])
  compute_fractional_index siblings (before id) =
      at_reference id (key_before siblings) (find_record_index_by_id siblings id)
  compute_fractional_index siblings (after id) =
      at_reference id (key_after siblings) (find_record_index_by_id siblings id)
