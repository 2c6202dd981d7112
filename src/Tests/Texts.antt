-- ===== src/Tests/Texts.antt =====
-- notes/normalize.go.
use personal_context.Base.{◌≡◌, ◌↔◌, refl, none, some, ◌∷◌, ◌++◌, nat_eq}
use personal_context.Text.{Text, codes, is_space}
use personal_context.Notes.{cr, lf, normalize}
use personal_context.Notes.Canonical.{IsNormal, normalize-IsNormal_iff, normalize_idem}

abbrev windows : Text
windows = codes " a \t" ++ cr ∷ lf ∷ (codes "b  " ++ cr ∷ cr ∷ lf ∷ codes "  c" ++ lf ∷ codes "\t ")

abbrev unix : Text
unix = codes "a" ++ lf ∷ (codes "b" ++ lf ∷ lf ∷ codes "  c")

windows_to_unix : normalize (some windows) ≡ some unix
unfolding normalize is_space nat_eq
windows_to_unix = refl

blank_is_none : normalize (some (codes " \t" ++ cr ∷ lf ∷ codes " ")) ≡ none
unfolding normalize is_space nat_eq
blank_is_none = refl

normalize_idem_example : normalize (normalize (some windows)) ≡ normalize (some windows)
normalize_idem_example = normalize_idem (some windows)

normalize-IsNormal_iff_example : (normalize (some unix) ≡ some unix) ↔ IsNormal unix
normalize-IsNormal_iff_example = normalize-IsNormal_iff unix
