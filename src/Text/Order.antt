-- ===== src/Text/Order.antt =====
-- The order of strings is a strict total order.
use Prim.Native.Nat.{Ordering}
use personal_context.Base.{◌≡◌, refl, [], ◌∷◌, arith}
use personal_context.Text.{Text, text_compare}

pub text_compare_refl : (s : Text) → text_compare s s ≡ Ordering.eq
unfolding text_compare
text_compare_refl [] = refl
text_compare_refl (c ∷ s) = ground (arith, text_compare_refl s)

pub text_compare-eq : (s t : Text) → text_compare s t ≡ Ordering.eq → s ≡ t
unfolding text_compare
text_compare-eq [] [] h = refl
text_compare-eq [] (d ∷ t) h = cc
text_compare-eq (c ∷ s) [] h = cc
text_compare-eq (c ∷ s) (d ∷ t) h = ground (arith, text_compare-eq s t)

abbrev pub reversed : Ordering → Ordering
reversed Ordering.lt = Ordering.gt
reversed Ordering.eq = Ordering.eq
reversed Ordering.gt = Ordering.lt

pub text_compare-reversed : (s t : Text) → text_compare t s ≡ reversed (text_compare s t)
unfolding text_compare
text_compare-reversed [] [] = refl
text_compare-reversed [] (d ∷ t) = refl
text_compare-reversed (c ∷ s) [] = refl
text_compare-reversed (c ∷ s) (d ∷ t) = ground (arith, text_compare-reversed s t)

pub text_compare_trans :
    (s t u : Text)
    → text_compare s t ≡ Ordering.lt
    → text_compare t u ≡ Ordering.lt
    → text_compare s u ≡ Ordering.lt
unfolding text_compare
text_compare_trans [] [] u h k = cc
text_compare_trans [] (d ∷ t) [] h k = cc
text_compare_trans [] (d ∷ t) (e ∷ u) h k = refl
text_compare_trans (c ∷ s) [] u h k = cc
text_compare_trans (c ∷ s) (d ∷ t) [] h k = cc
text_compare_trans (c ∷ s) (d ∷ t) (e ∷ u) h k = ground (arith, text_compare_trans s t u)
