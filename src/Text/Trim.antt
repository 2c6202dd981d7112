-- ===== src/Text/Trim.antt =====
-- What trimming leaves, and which texts it leaves as they are.
use personal_context.Base.{
  ℕ, ◌≡◌, ◌≢◌, refl, ap, ◌∙◌, Bool, false, [], ◌∷◌, ◌++◌, inl, inr, Bool-cases, arith,
}
use personal_context.Text.{Text, is_space, trim_left, keep_end, trim_right, trim_space, contains}

module _ (p : ℕ → Bool) where
  pub trim_right_idem : (s : Text) → trim_right p (trim_right p s) ≡ trim_right p s
  unfolding trim_right
  trim_right_idem [] = refl
  trim_right_idem (c ∷ s) = ground (arith, trim_right_idem s)

  -- A text that keeps something at its end keeps all that stands before.
  pub trim_right-append :
      (s t : Text) → trim_right p t ≢ [] → trim_right p (s ++ t) ≡ s ++ trim_right p t
  unfolding trim_right
  trim_right-append [] t h = refl
  trim_right-append (c ∷ []) t h = ground arith
  trim_right-append (c ∷ d ∷ s) t h = ground (arith, trim_right-append (d ∷ s) t h)

  pub trim_right-append_kept :
      (s t : Text) → trim_right p t ≡ t → t ≢ [] → trim_right p (s ++ t) ≡ s ++ t
  trim_right-append_kept s t e h = trim_right-append s t (rw e h) ∙ rw e

  trim_left-keep_end :
      (c : ℕ) (t : Text) → p c ≡ false → trim_left p (keep_end p c t) ≡ keep_end p c t
  unfolding trim_left
  trim_left-keep_end c [] h = ground arith
  trim_left-keep_end c (d ∷ t) h = ground arith

  -- A text that begins with a character to keep still does when its end is cut.
  trim_left-trim_right :
      (s : Text) → trim_left p (trim_right p (trim_left p s)) ≡ trim_right p (trim_left p s)
  unfolding trim_left trim_right
  trim_left-trim_right [] = refl
  trim_left-trim_right (c ∷ s) = elim (Bool-cases (p c)) [
    | inl e ↦ rw e (trim_left-trim_right s)
    | inr e ↦ rw e (trim_left-keep_end c (trim_right p s) e)
  ]

  pub contains-trim_left :
      (c : ℕ) (s : Text) → contains c s ≡ false → contains c (trim_left p s) ≡ false
  unfolding contains trim_left
  contains-trim_left c [] h = refl
  contains-trim_left c (d ∷ s) h = ground (arith, contains-trim_left c s)

  pub contains-trim_right :
      (c : ℕ) (s : Text) → contains c s ≡ false → contains c (trim_right p s) ≡ false
  unfolding contains trim_right
  contains-trim_right c [] h = refl
  contains-trim_right c (d ∷ s) h = ground (arith, contains-trim_right c s)

pub trim_space_idem : (s : Text) → trim_space (trim_space s) ≡ trim_space s
unfolding trim_space
trim_space_idem s =
    ap (trim_right is_space) (trim_left-trim_right is_space s)
    ∙ trim_right_idem is_space (trim_left is_space s)

pub contains-trim_space :
    (c : ℕ) (s : Text) → contains c s ≡ false → contains c (trim_space s) ≡ false
unfolding trim_space
contains-trim_space c s h =
    contains-trim_right is_space c (trim_left is_space s) (contains-trim_left is_space c s h)
