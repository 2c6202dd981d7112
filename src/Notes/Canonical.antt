-- ===== src/Notes/Canonical.antt =====
-- normalize.go: normalising twice is normalising once, and what a normal text looks like.
use personal_context.Base.{
  ℕ, ◌≡◌, ◌≢◌, ◌↔◌, refl, sym, ◌∙◌, Bool, true, false, Option, none, some, [], ◌∷◌, arith, nat_eq,
  inl, inr, subst, Option-cases,
}
use personal_context.Text.{Text, is_space, contains, trim_left, trim_right, trim_space}
use personal_context.Text.Trim.{trim_space_idem, contains-trim_space}
use personal_context.Notes.{cr, replace_crlf, replace_cr, is_blank, trim_lines, or_none, normalize}
use personal_context.Notes.Lines.{tidied, is_tidy, tidied-is_tidy, tidied_self, trim_lines-tidied}

contains-replace_cr : (s : Text) → contains cr (replace_cr s) ≡ false
unfolding contains replace_cr
contains-replace_cr [] = refl
contains-replace_cr (c ∷ s) = ground (arith, contains-replace_cr s)

replace_cr_self : (s : Text) → contains cr s ≡ false → replace_cr s ≡ s
unfolding contains replace_cr
replace_cr_self [] h = refl
replace_cr_self (c ∷ s) h = ground (arith, replace_cr_self s)

replace_crlf_self : (s : Text) → contains cr s ≡ false → replace_crlf s ≡ s
unfolding contains replace_crlf
replace_crlf_self [] h = refl
replace_crlf_self (c ∷ s) h = ground (arith, replace_crlf_self s)

contains-tidied : (c : ℕ) (s : Text) → contains c s ≡ false → contains c (tidied s) ≡ false
unfolding contains tidied
contains-tidied c [] h = refl
contains-tidied c (d ∷ s) h = ground (arith, contains-tidied c s)

trim_left-is_tidy : (p : ℕ → Bool) (s : Text) → is_tidy s ≡ true → is_tidy (trim_left p s) ≡ true
unfolding is_tidy trim_left
trim_left-is_tidy p [] h = refl
trim_left-is_tidy p (c ∷ s) h = ground (arith, trim_left-is_tidy p s)

blank_is_space : (c : ℕ) → is_blank c ≡ true → is_space c ≡ true
unfolding is_blank is_space nat_eq
blank_is_space c h = ground arith

-- Cutting space at the end leaves no blank before the end of a line.
trim_right-is_tidy : (s : Text) → is_tidy s ≡ true → is_tidy (trim_right is_space s) ≡ true
unfolding is_tidy trim_right
trim_right-is_tidy [] h = refl
trim_right-is_tidy (c ∷ []) h = ground (arith, blank_is_space c)
trim_right-is_tidy (c ∷ d ∷ s) h = ground (arith, blank_is_space c, trim_right-is_tidy (d ∷ s))

-- A normal text: not empty, no carriage return, no blank at the end of a line, and no surrounding
-- whitespace.
pub record IsNormal (s : Text) : Type 0 where
  pub ne_nil : s ≢ []
  pub no_cr : contains cr s ≡ false
  pub tidy : is_tidy s ≡ true
  pub trimmed : trim_space s ≡ s

trim_space-is_tidy : (s : Text) → is_tidy s ≡ true → is_tidy (trim_space s) ≡ true
unfolding trim_space
trim_space-is_tidy s h = trim_right-is_tidy (trim_left is_space s) (trim_left-is_tidy is_space s h)

cleaned : Text → Text
cleaned value = trim_space (trim_lines (replace_cr (replace_crlf value)))

cleaned-IsNormal : (value : Text) → cleaned value ≢ [] → IsNormal (cleaned value)
unfolding cleaned
cleaned-IsNormal value h =
    let t : Text = replace_cr (replace_crlf value) in
    record {
      ne_nil = h;
      no_cr =
          contains-trim_space cr (trim_lines t) (
            rw trim_lines-tidied (contains-tidied cr t (contains-replace_cr (replace_crlf value))));
      tidy = trim_space-is_tidy (trim_lines t) (rw trim_lines-tidied (tidied-is_tidy t));
      trimmed = trim_space_idem (trim_lines t);
    }

cleaned_self : (s : Text) → IsNormal s → cleaned s ≡ s
unfolding cleaned
cleaned_self s n = rw (
  replace_crlf_self s n.no_cr,
  replace_cr_self s n.no_cr,
  trim_lines-tidied s,
  tidied_self s n.tidy,
  n.trimmed,
)

or_none-some : (s t : Text) → or_none s ≡ some t → (s ≡ t) × (s ≢ [])
or_none-some [] t h = cc
or_none-some (c ∷ s) t h = (cc, λ e. cc)

or_none-ne-nil : (s : Text) → s ≢ [] → or_none s ≡ some s
or_none-ne-nil [] h = absurd (h refl)
or_none-ne-nil (c ∷ s) h = refl

normalize-cleaned : (value : Text) → normalize (some value) ≡ or_none (cleaned value)
unfolding normalize cleaned
normalize-cleaned value = refl

normalize-IsNormal : (value : Text) {t : Text} → normalize (some value) ≡ some t → IsNormal t
normalize-IsNormal value {t} h =
    let (e, given) = or_none-some (cleaned value) t (sym (normalize-cleaned value) ∙ h) in
    subst IsNormal e (cleaned-IsNormal value given)

normalize_self : (s : Text) → IsNormal s → normalize (some s) ≡ some s
normalize_self s n = normalize-cleaned s ∙ rw (cleaned_self s n) (or_none-ne-nil s n.ne_nil)

-- The texts that normalising leaves as they are, and so all that it returns, are those that are
-- not empty and have no carriage return, no blank at the end of a line, and no surrounding
-- whitespace.
pub normalize-IsNormal_iff : (s : Text) → (normalize (some s) ≡ some s) ↔ IsNormal s
normalize-IsNormal_iff s = (normalize-IsNormal s, normalize_self s)

-- Normalising twice is normalising once.
pub normalize_idem : (value : Option Text) → normalize (normalize value) ≡ normalize value
normalize_idem none = unfold normalize in refl
normalize_idem (some value) = elim (Option-cases (normalize (some value))) [
  | inl e ↦ rw e (unfold normalize in refl)
  | inr (t, e) ↦ rw e (normalize_self t (normalize-IsNormal value e))
]
