-- ===== src/Notes/Lines.antt =====
-- normalize.go: trimming each line is one pass from the right.
use personal_context.Base.{
  ℕ, ◌≡◌, ◌≢◌, refl, ap, sym, ◌∙◌, Bool, true, false, not, ◌&&◌, List, [], ◌∷◌, ◌++◌, map, arith,
  ◌==◌, nat_eq, ==-refl, ==→≡, subst, inl, inr, Bool-cases, if◌then◌else◌,
}
use personal_context.Text.{Text, contains, keep_end, trim_right, extend, split, join}
use personal_context.Text.Trim.{contains-trim_right}
use personal_context.Notes.{lf, is_blank, trim_lines}

-- The text is at the end of a line.
abbrev pub at_end : Text → Bool
at_end [] = true
at_end (c ∷ s) = c == lf

abbrev pub drop_blank : ℕ → Text → Text
drop_blank c s = if is_blank c && at_end s then s else c ∷ s

unfoldable pub tidied : Text → Text
tidied [] = []
tidied (c ∷ s) = drop_blank c (tidied s)

-- No line ends in a blank.
unfoldable pub is_tidy : Text → Bool
is_tidy [] = true
is_tidy (c ∷ s) = not (is_blank c && at_end s) && is_tidy s

pub tidied-is_tidy : (s : Text) → is_tidy (tidied s) ≡ true
unfolding tidied is_tidy
tidied-is_tidy [] = refl
tidied-is_tidy (c ∷ s) = ground (arith, tidied-is_tidy s)

pub tidied_self : (s : Text) → is_tidy s ≡ true → tidied s ≡ s
unfolding tidied is_tidy
tidied_self [] h = refl
tidied_self (c ∷ s) h = ground (arith, tidied_self s)

-- Lines, none of which holds a line feed.
abbrev AreLines : List Text → Type 0
AreLines [] = Unit
AreLines (l ∷ ls) = (contains lf l ≡ false) × AreLines ls

AreLines-extend :
    (c : ℕ) (ls : List Text) → (c == lf) ≡ false → AreLines ls → AreLines (extend lf c ls)
unfolding contains
AreLines-extend c [] h a = (ground arith, tt)
AreLines-extend c (l ∷ ls) h (n, a) = (ground arith, a)

split-AreLines : (s : Text) → AreLines (split lf s)
unfolding split contains
split-AreLines [] = (refl, tt)
split-AreLines (c ∷ s) = elim (Bool-cases (c == lf)) [
  | inl e ↦
      subst (λ b. AreLines (if b then [] ∷ split lf s else extend lf c (split lf s))) (sym e)
        (refl, split-AreLines s)
  | inr e ↦
      subst (λ b. AreLines (if b then [] ∷ split lf s else extend lf c (split lf s))) (sym e)
        (AreLines-extend c (split lf s) e (split-AreLines s))
]

keep_end-drop_blank :
    (c : ℕ) (l : Text) → contains lf l ≡ false → keep_end is_blank c l ≡ drop_blank c l
unfolding contains
keep_end-drop_blank c [] h = ground arith
keep_end-drop_blank c (d ∷ l) h = ground arith

keep_end-drop_blank_before :
    (c : ℕ) (l r : Text)
    → contains lf l ≡ false
    → keep_end is_blank c l ++ lf ∷ r ≡ drop_blank c (l ++ lf ∷ r)
unfolding contains
keep_end-drop_blank_before c [] r h = rw (==-refl lf) (ground arith)
keep_end-drop_blank_before c (d ∷ l) r h = ground arith

join_lines : List Text → Text
join_lines ls = join lf (map (trim_right is_blank) ls)

join_lines-extend :
    (c : ℕ) (ls : List Text)
    → AreLines ls
    → join_lines (extend lf c ls) ≡ drop_blank c (join_lines ls)
unfolding join_lines join trim_right
join_lines-extend c [] a = ground arith
join_lines-extend c (l ∷ []) (n, a) =
    keep_end-drop_blank c (trim_right is_blank l) (contains-trim_right is_blank lf l n)
join_lines-extend c (l ∷ m ∷ ls) (n, a) =
    keep_end-drop_blank_before c (trim_right is_blank l) _ (contains-trim_right is_blank lf l n)

extend-ne-nil : (c : ℕ) (ls : List Text) → extend lf c ls ≢ []
extend-ne-nil c [] h = cc
extend-ne-nil c (l ∷ ls) h = cc

split-ne-nil : (s : Text) → split lf s ≢ []
unfolding split
split-ne-nil [] h = cc
split-ne-nil (c ∷ s) h = ground (arith, extend-ne-nil c (split lf s))

join_lines-nil : (ls : List Text) → ls ≢ [] → join_lines ([] ∷ ls) ≡ lf ∷ join_lines ls
unfolding join_lines join trim_right
join_lines-nil [] h = absurd (h refl)
join_lines-nil (l ∷ ls) h = refl

drop_blank-lf : (s : Text) → drop_blank lf s ≡ lf ∷ s
unfolding is_blank nat_eq
drop_blank-lf s = refl

join_lines-split : (s : Text) → join_lines (split lf s) ≡ tidied s
unfolding split tidied
join_lines-split [] = unfold join_lines join trim_right in refl
join_lines-split (c ∷ s) = elim (Bool-cases (c == lf)) [
  | inl e ↦ rw e (
      join_lines-nil (split lf s) (split-ne-nil s)
      ∙ ap (λ t. lf ∷ t) (join_lines-split s)
      ∙ sym (drop_blank-lf (tidied s))
      ∙ ap (λ d. drop_blank d (tidied s)) (sym (==→≡ c lf e)))
  | inr e ↦
      rw e (
        join_lines-extend c (split lf s) (split-AreLines s)
        ∙ ap (drop_blank c) (join_lines-split s))
]

-- Cutting the blanks at the end of each line, as one pass.
pub trim_lines-tidied : (s : Text) → trim_lines s ≡ tidied s
unfolding trim_lines
trim_lines-tidied s = (unfold join_lines in join_lines-split s)
