-- ===== src/Text.antt =====
-- Go strings, and what the program uses of the packages `strings` and `unicode`.
-- A string is the list of its code points: the program's texts are valid UTF-8, whose byte order
-- is the order of the code points.
pub mod Trim
pub mod Split
pub mod Order
use Prim.Native.Nat.{compare, Ordering}
use Prim.Native.Char.{code}
use Prim.Native.String
use personal_context.Base.{
  ℕ, String, Bool, true, false, ◌&&◌, ◌||◌, List, [], ◌∷◌, ◌++◌, ltb, leb, ◌==◌, nat_eq,
  if◌then◌else◌,
}

abbrev pub Text : Type 0
Text = List ℕ

abbrev pub codes : String → Text
codes String.[] = []
codes (String.◌∷◌ c s) = code c ∷ codes s

-- `unicode.IsSpace`.
unfoldable pub is_space : ℕ → Bool
is_space c =
    leb 0x9 c && leb c 0xd
    || c == 0x20
    || c == 0x85
    || c == 0xa0
    || c == 0x1680
    || leb 0x2000 c && leb c 0x200a
    || c == 0x2028
    || c == 0x2029
    || c == 0x202f
    || c == 0x205f
    || c == 0x3000

-- `strings.TrimLeftFunc` and `strings.TrimRightFunc`.
module _ (p : ℕ → Bool) where
  unfoldable pub trim_left : Text → Text
  trim_left [] = []
  trim_left (c ∷ s) = if p c then trim_left s else c ∷ s

  abbrev pub keep_end : ℕ → Text → Text
  keep_end c [] = if p c then [] else c ∷ []
  keep_end c (d ∷ s) = c ∷ d ∷ s

  unfoldable pub trim_right : Text → Text
  trim_right [] = []
  trim_right (c ∷ s) = keep_end c (trim_right s)

unfoldable pub trim_space : Text → Text
unfolding trim_left trim_right
trim_space s = trim_right is_space (trim_left is_space s)

-- `strings.ContainsRune`.
unfoldable pub contains : ℕ → Text → Bool
contains c [] = false
contains c (d ∷ s) = d == c || contains c s

-- `strings.HasPrefix` at a prefix of one character.
unfoldable pub has_first : ℕ → Text → Bool
has_first c [] = false
has_first c (d ∷ s) = d == c

-- `strings.Split` at a separator of one character.
module _ (sep : ℕ) where
  abbrev pub extend : ℕ → List Text → List Text
  extend c [] = (c ∷ []) ∷ []
  extend c (l ∷ ls) = (c ∷ l) ∷ ls

  unfoldable pub split : Text → List Text
  split [] = [] ∷ []
  split (c ∷ s) = if c == sep then [] ∷ split s else extend c (split s)

  -- `strings.Join`.
  unfoldable pub join : List Text → Text
  join [] = []
  join (l ∷ []) = l
  join (l ∷ m ∷ ls) = l ++ sep ∷ join (m ∷ ls)

-- `strings.Compare`.
unfoldable pub text_compare : Text → Text → Ordering
text_compare [] [] = Ordering.eq
text_compare [] (d ∷ t) = Ordering.lt
text_compare (c ∷ s) [] = Ordering.gt
text_compare (c ∷ s) (d ∷ t) = elim (compare c d) [
  | Ordering.lt ↦ Ordering.lt
  | Ordering.eq ↦ text_compare s t
  | Ordering.gt ↦ Ordering.gt
]

-- Go's `<` on strings.
abbrev pub text_lt : Text → Text → Bool
text_lt s t = elim (text_compare s t) [ Ordering.lt ↦ true | _ ↦ false ]
