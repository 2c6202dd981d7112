-- ===== src/Tests/Moves.antt =====
-- Moves of a record within its day, and the examples of their theorems.
use Prim.Native.Nat.{Ordering}
use personal_context.Base.{
  ◌≡◌, refl, inr, false, Option, none, some, [], ◌∷◌, nat_eq, list_eq, ok, err,
}
use personal_context.Text.{Text, codes, text_compare}
use personal_context.Repository.Types.{Record}
use personal_context.Repository.Records.{is_stored}
use personal_context.Reorder.{
  before, after, reference_not_found, compute_fractional_index, find_record_index_by_id,
  generate_key_between,
}
use personal_context.Reorder.Placement.{
  IsRising, AllBelow, AllAbove, last_order, compute_fractional_index-before,
  compute_fractional_index_tie,
}
use personal_context.Tests.Data.{note_at}

abbrev at_place : Text → Text → Record
at_place id order = record (note_at 1 none) { id = id; day_order = order }

abbrev early : Record
early = at_place (codes "r1") (codes "a0")

abbrev late : Record
late = at_place (codes "r2") (codes "a1")

abbrev twin : Record
twin = at_place (codes "r3") (codes "a0")

abbrev middle : Text → Text → Option Text
middle a b = some (codes "a0V")

abbrev refuses : Text → Text → Option Text
refuses a b = none

after_last :
    compute_fractional_index middle (early ∷ late ∷ []) (after (codes "r2")) ≡ ok (codes "a0V")
unfolding compute_fractional_index find_record_index_by_id generate_key_between nat_eq list_eq
after_last = refl

unknown_reference :
    compute_fractional_index middle (early ∷ []) (before (codes "x"))
    ≡ err (reference_not_found (codes "x"))
unfolding compute_fractional_index find_record_index_by_id nat_eq list_eq
unknown_reference = refl

rising : IsRising (early ∷ late ∷ [])
unfolding text_compare
rising = ((refl, tt), (tt, tt))

late_new : is_stored (codes "r2") (early ∷ []) ≡ false
unfolding is_stored list_eq nat_eq
late_new = refl

twin_new : is_stored (codes "r3") (early ∷ []) ≡ false
unfolding is_stored list_eq nat_eq
twin_new = refl

above_early : text_compare (last_order (early ∷ [])) (codes "a0V") ≡ Ordering.lt
unfolding text_compare last_order
above_early = refl

below_late : text_compare (codes "a0V") (codes "a1") ≡ Ordering.lt
unfolding text_compare
below_late = refl

compute_fractional_index-before_example :
    (compute_fractional_index middle (early ∷ late ∷ []) (before (codes "r2")) ≡ ok (codes "a0V"))
    × AllBelow (early ∷ []) (codes "a0V")
    × AllAbove (codes "a0V") (late ∷ [])
compute_fractional_index-before_example =
    compute_fractional_index-before middle (early ∷ []) late [] (codes "a0V") rising late_new refl
      (inr above_early) below_late

compute_fractional_index_tie_example :
    (key : Text) × (compute_fractional_index refuses (early ∷ twin ∷ []) (before (codes "r3"))
      ≡ ok key)
    × (text_compare (codes "a0") key ≡ Ordering.lt)
compute_fractional_index_tie_example =
    compute_fractional_index_tie refuses [] early twin [] twin_new refl (λ e. cc) refl
