-- ===== src/Text/Split.antt =====
-- Splitting a text that was put together from parts without the separator.
use personal_context.Base.{ℕ, ◌≡◌, refl, false, [], ◌∷◌, ◌++◌, ◌||◌, arith, nat_eq}
use personal_context.Text.{Text, contains, split}

pub contains-append : (c : ℕ) (s t : Text) → contains c (s ++ t) ≡ (contains c s || contains c t)
unfolding contains
contains-append c [] t = refl
contains-append c (d ∷ s) t = ground (arith, contains-append c s t)

pub split_single : (sep : ℕ) (s : Text) → contains sep s ≡ false → split sep s ≡ s ∷ []
unfolding contains split
split_single sep [] h = refl
split_single sep (c ∷ s) h = ground (arith, split_single sep s)

pub split-append :
    (sep : ℕ) (s t : Text) → contains sep s ≡ false → split sep (s ++ sep ∷ t) ≡ s ∷ split sep t
unfolding contains split
split-append sep [] t h = ground arith
split-append sep (c ∷ s) t h = ground (arith, split-append sep s t)
