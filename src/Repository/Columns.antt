-- ===== src/Repository/Columns.antt =====
-- cli/internal/sqlite/sqlite_schema.sql: the texts that the columns of `records` hold.
use personal_context.Base.{
  ℕ, zero, suc, Bool, true, false, not, ◌&&◌, ◌||◌, Option, none, some, List, [], ◌∷◌, ◌++◌, ◌==◌,
  nat_eq, leb,
}
use personal_context.Text.{Text}

abbrev pub is_digit : ℕ → Bool
is_digit c = leb 0x30 c && leb c 0x39

abbrev pub is_hex : ℕ → Bool
is_hex c = is_digit c || leb 0x61 c && leb c 0x66

abbrev pub is_up_to : ℕ → ℕ → Bool
is_up_to last c = leb 0x30 c && leb c last

abbrev pub is_dash : ℕ → Bool
is_dash c = c == 0x2d

-- `GLOB` at a pattern of one class for each character. It reads a text as far as its first NUL.
unfoldable pub glob : List (ℕ → Bool) → Text → Bool
glob [] [] = true
glob [] (c ∷ s) = c == 0
glob (p ∷ ps) [] = false
glob (p ∷ ps) (c ∷ s) = p c && glob ps s

unfoldable pub times : ℕ → (ℕ → Bool) → List (ℕ → Bool)
times zero p = []
times (suc n) p = p ∷ times n p

-- `length(column) > 0`: SQLite counts the characters before the first NUL.
unfoldable pub has_length : Text → Bool
has_length [] = false
has_length (c ∷ s) = not (c == 0)

-- The CHECK constraints of the columns `id`, `date` and `git_hash`.
unfoldable pub is_record_id : Text → Bool
unfolding glob times
is_record_id id = glob (times 8 is_digit ++ is_dash ∷ times 8 is_hex) id

unfoldable pub is_date : Text → Bool
unfolding glob times
is_date date =
    glob
      (times 4 is_digit
        ++ is_dash ∷ is_up_to 0x31 ∷ is_digit ∷ is_dash ∷ is_up_to 0x33 ∷ is_digit ∷ [])
      date

-- `length` and `NOT GLOB` read the same characters, those before the first NUL.
unfoldable pub is_git_hash : Option Text → Bool
unfolding glob times
is_git_hash none = true
is_git_hash (some hash) = glob (times 40 is_hex) hash
