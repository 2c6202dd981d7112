-- ===== src/Serve.antt =====
-- cli/internal/serve/server.go: the checks of ids, hashes and filenames in requests.
pub mod Columns
pub mod Filenames
use personal_context.Base.{
  ℕ, Bool, true, false, not, ◌&&◌, ◌||◌, List, [], ◌∷◌, ◌==◌, nat_eq, list_eq, ltb, length, take,
  drop, if◌then◌else◌,
}
use personal_context.Text.{Text, codes, contains}
use personal_context.Repository.AssetKey.{slash, backslash}

-- `c < lo || c > hi`.
abbrev pub is_outside : ℕ → ℕ → ℕ → Bool
is_outside lo hi c = ltb c lo || ltb hi c

-- A loop that returns false at the first character outside.
unfoldable pub none_fails : (ℕ → Bool) → Text → Bool
none_fails fails [] = true
none_fails fails (c ∷ s) = let rest = none_fails fails s in if fails c then false else rest

abbrev pub not_digit : ℕ → Bool
not_digit c = is_outside 0x30 0x39 c

abbrev pub not_hex : ℕ → Bool
not_hex c = is_outside 0x30 0x39 c && is_outside 0x61 0x66 c

abbrev pub has_dash : Text → Bool
has_dash [] = false
has_dash (c ∷ s) = c == 0x2d

-- Go compares bytes. A text with a character that is more than one byte fails the loops, whatever
-- its length.
unfoldable pub is_valid_record_id : Text → Bool
is_valid_record_id id =
    if not (length id == 17)
    then false
    else if not (has_dash (drop 8 id))
    then false
    else if not (none_fails not_digit (take 8 id))
    then false
    else none_fails not_hex (drop 9 id)

unfoldable pub is_valid_git_hash : Text → Bool
is_valid_git_hash hash = if not (length hash == 40) then false else none_fails not_hex hash

unfoldable pub is_valid_filename : Text → Bool
is_valid_filename name =
    if name == [] || name == codes "." || name == codes ".."
    then false
    else if contains slash name || contains backslash name
    then false
    else if contains 0 name
    then false
    else true
