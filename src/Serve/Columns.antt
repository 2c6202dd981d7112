-- ===== src/Serve/Columns.antt =====
-- server.go and sqlite_schema.sql: the checks of a request against those of the database.
use personal_context.Base.{
  Bool-cases, inl, inr, ==→≡, true, ℕ, zero, suc, ◌≡◌, refl, sym, ◌∙◌, ◌-◌, Bool, false, not, ◌&&◌,
  some, List, [], ◌∷◌, ◌++◌, arith, ◌==◌, nat_eq, leb, length, take, drop, if◌then◌else◌,
}
use personal_context.Text.{Text, contains}
use personal_context.Repository.Columns.{
  glob, times, is_digit, is_hex, is_dash, is_record_id, is_git_hash,
}
use personal_context.Serve.{
  none_fails, not_digit, not_hex, has_dash, is_valid_record_id, is_valid_git_hash,
}

-- `GLOB` at a text that has no NUL.
unfoldable exact_glob : List (ℕ → Bool) → Text → Bool
exact_glob [] [] = true
exact_glob [] (c ∷ s) = false
exact_glob (p ∷ ps) [] = false
exact_glob (p ∷ ps) (c ∷ s) = p c && exact_glob ps s

-- No class of the pattern has NUL.
abbrev IsPrintable : List (ℕ → Bool) → Type 0
IsPrintable [] = Unit
IsPrintable (p ∷ ps) = (p 0 ≡ false) × IsPrintable ps

glob-exact :
    (ps : List (ℕ → Bool)) (s : Text)
    → IsPrintable ps
    → (glob ps s && not (contains 0 s)) ≡ exact_glob ps s
unfolding glob exact_glob contains
glob-exact [] [] h = refl
glob-exact [] (c ∷ s) h = ground arith
glob-exact (p ∷ ps) [] h = refl
glob-exact (p ∷ ps) (c ∷ s) (none, h) = elim (Bool-cases (c == 0)) [
  | inl e ↦ rw (==→≡ c 0 e, none) refl
  | inr e ↦ ground (arith, glob-exact ps s h)
]

-- `exact_glob` at one class again and again, and the rest of the pattern behind it.
exact_glob-times :
    (n : ℕ) (p fails : ℕ → Bool) (ps : List (ℕ → Bool)) (s : Text)
    → ((c : ℕ) → p c ≡ not (fails c))
    → exact_glob (times n p ++ ps) s
      ≡ (leb n (length s) && none_fails fails (take n s) && exact_glob ps (drop n s))
unfolding exact_glob times none_fails
exact_glob-times zero p fails ps s h = ground arith
exact_glob-times (suc n) p fails ps [] h = ground arith
exact_glob-times (suc n) p fails ps (c ∷ s) h =
    ground (arith, exact_glob-times n p fails ps s h, h c)

exact_glob-all :
    (n : ℕ) (p fails : ℕ → Bool) (s : Text)
    → ((c : ℕ) → p c ≡ not (fails c))
    → exact_glob (times n p) s ≡ (length s == n && none_fails fails s)
unfolding exact_glob times none_fails nat_eq
exact_glob-all zero p fails [] h = refl
exact_glob-all zero p fails (c ∷ s) h = ground arith
exact_glob-all (suc n) p fails [] h = ground arith
exact_glob-all (suc n) p fails (c ∷ s) h = ground (arith, exact_glob-all n p fails s h, h c)

hex_test : (c : ℕ) → is_hex c ≡ not (not_hex c)
hex_test c = ground arith

digit_test : (c : ℕ) → is_digit c ≡ not (not_digit c)
digit_test c = ground arith

exact_glob-is_dash :
    (ps : List (ℕ → Bool)) (s : Text)
    → exact_glob (is_dash ∷ ps) s ≡ (has_dash s && exact_glob ps (drop 1 s))
unfolding exact_glob
exact_glob-is_dash ps [] = refl
exact_glob-is_dash ps (c ∷ s) = refl

drop-drop : (n : ℕ) (s : Text) → drop 1 (drop n s) ≡ drop (suc n) s
drop-drop zero s = refl
drop-drop (suc n) [] = refl
drop-drop (suc n) (c ∷ s) = drop-drop n s

length-drop : (n : ℕ) (s : Text) → length (drop n s) ≡ length s - n
length-drop zero s = omega arith
length-drop (suc n) [] = omega arith
length-drop (suc n) (c ∷ s) = omega (arith, length-drop n s)

record_id_tests :
    (len : ℕ) (digits dash hex : Bool)
    → (leb 8 len && digits && (dash && (len - 9 == 8 && hex))) ≡ (
        if not (len == 17)
        then false
        else if not dash
        then false
        else if not digits
        then false
        else hex)
unfolding nat_eq
record_id_tests len digits dash hex = ground arith

-- The patterns of the two columns.
abbrev id_pattern : List (ℕ → Bool)
id_pattern = times 8 is_digit ++ is_dash ∷ times 8 is_hex

times-IsPrintable :
    (n : ℕ) (p : ℕ → Bool) (ps : List (ℕ → Bool))
    → p 0 ≡ false
    → IsPrintable ps
    → IsPrintable (times n p ++ ps)
unfolding times
times-IsPrintable zero p ps none h = h
times-IsPrintable (suc n) p ps none h = (none, times-IsPrintable n p ps none h)

id_pattern-exact :
    (id : Text)
    → exact_glob id_pattern id ≡ (
        leb 8 (length id)
        && none_fails not_digit (take 8 id)
        && (has_dash (drop 8 id) && (length id - 9 == 8 && none_fails not_hex (drop 9 id))))
id_pattern-exact id =
    exact_glob-times 8 is_digit not_digit (is_dash ∷ times 8 is_hex) id digit_test
    ∙ rw (
      exact_glob-is_dash (times 8 is_hex) (drop 8 id),
      drop-drop 8 id,
      exact_glob-all 8 is_hex not_hex (drop 9 id) hex_test,
      length-drop 9 id,
    )

guarded_test : (given holds : Bool) → (if not given then false else holds) ≡ (given && holds)
guarded_test given holds = ground arith

is_record_id-exact :
    (id : Text) → (is_record_id id && not (contains 0 id)) ≡ exact_glob id_pattern id
unfolding is_record_id times nat_eq
is_record_id-exact id = glob-exact id_pattern id (
    times-IsPrintable 8 is_digit (is_dash ∷ times 8 is_hex) refl
      (refl, times-IsPrintable 8 is_hex [] refl tt))

is_git_hash-exact :
    (hash : Text)
    → (is_git_hash (some hash) && not (contains 0 hash)) ≡ exact_glob (times 40 is_hex) hash
unfolding is_git_hash times
is_git_hash-exact hash = glob-exact (times 40 is_hex) hash (times-IsPrintable 40 is_hex [] refl tt)

-- The server accepts exactly the record ids and the git hashes that the columns of the database
-- accept and that hold no NUL.
pub is_valid_record_id-column :
    (id : Text)
    → (is_valid_record_id id ≡ (is_record_id id && not (contains 0 id)))
      × (is_valid_git_hash id ≡ (is_git_hash (some id) && not (contains 0 id)))
unfolding is_valid_record_id is_valid_git_hash
is_valid_record_id-column id = (
  sym (
      is_record_id-exact id
      ∙ id_pattern-exact id
      ∙ record_id_tests (length id) (none_fails not_digit (take 8 id)) (has_dash (drop 8 id))
          (none_fails not_hex (drop 9 id))),
  guarded_test (length id == 40) (none_fails not_hex id)
      ∙ sym (is_git_hash-exact id ∙ exact_glob-all 40 is_hex not_hex id hex_test),
)
