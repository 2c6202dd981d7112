-- ===== src/Notes.antt =====
-- cli/internal/notes/normalize.go: the canonical form of notes.
pub mod Lines
pub mod Canonical
use personal_context.Base.{
  ℕ, Bool, ◌||◌, Option, none, some, [], ◌∷◌, map, ◌==◌, nat_eq, list_eq, if◌then◌else◌,
}
use personal_context.Text.{Text, trim_right, trim_space, split, join}

abbrev pub lf : ℕ
lf = 0xa

abbrev pub cr : ℕ
cr = 0xd

-- `strings.ReplaceAll(s, "\r\n", "\n")`.
abbrev pub crlf_at : Text → Text → Text
crlf_at [] rest = cr ∷ []
crlf_at (d ∷ s) rest = if d == lf then rest else cr ∷ rest

unfoldable pub replace_crlf : Text → Text
replace_crlf [] = []
replace_crlf (c ∷ s) = if c == cr then crlf_at s (replace_crlf s) else c ∷ replace_crlf s

-- `strings.ReplaceAll(s, "\r", "\n")`.
unfoldable pub replace_cr : Text → Text
replace_cr [] = []
replace_cr (c ∷ s) = (if c == cr then lf else c) ∷ replace_cr s

-- The cutset `" \t"`.
unfoldable pub is_blank : ℕ → Bool
is_blank c = c == 0x20 || c == 0x9

unfoldable pub trim_lines : Text → Text
unfolding is_blank trim_right split join
trim_lines s = join lf (map (trim_right is_blank) (split lf s))

abbrev or_none : Text → Option Text
or_none [] = none
or_none (c ∷ s) = some (c ∷ s)

unfoldable pub normalize : Option Text → Option Text
unfolding replace_crlf replace_cr trim_lines trim_space
normalize none = none
normalize (some value) = or_none (trim_space (trim_lines (replace_cr (replace_crlf value))))
