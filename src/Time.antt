-- ===== src/Time.antt =====
-- `time.Time` as the program uses it: an instant, in nanoseconds since the zero `time.Time`
-- (1 January of the year 1, UTC). An instant before that does not occur. `UTC()` changes the
-- location that a time is shown in, and not the instant.
use personal_context.Base.{ℕ, ◌-◌, ◌%◌, ◌≤◌, ◌≡◌, Bool, arith, ltb, ◌==◌, nat_eq}

abbrev pub Time : Type 0
Time = ℕ

abbrev pub millisecond : ℕ
millisecond = 1000000

-- `a.After(b)`, `a.Before(b)` and `a.IsZero()`.
abbrev pub after : Time → Time → Bool
after a b = ltb b a

abbrev pub before : Time → Time → Bool
before a b = ltb a b

abbrev pub is_zero : Time → Bool
is_zero t = t == 0

-- `Truncate(d)` rounds down to a multiple of `d` since the zero time.
unfoldable pub truncate : ℕ → Time → Time
truncate d t = t - t % d

-- `truncateToMillisecond` of syncengine/session.go.
unfoldable pub truncate_to_millisecond : Time → Time
unfolding truncate
truncate_to_millisecond ts = truncate millisecond ts

pub truncate_to_millisecond_mono :
    (a b : Time) → a ≤ b → truncate_to_millisecond a ≤ truncate_to_millisecond b
unfolding truncate_to_millisecond
truncate_to_millisecond_mono a b h = omega arith

pub truncate_to_millisecond-le : (a : Time) → truncate_to_millisecond a ≤ a
unfolding truncate_to_millisecond
truncate_to_millisecond-le a = omega arith

pub truncate_to_millisecond_idem :
    (a : Time) → truncate_to_millisecond (truncate_to_millisecond a) ≡ truncate_to_millisecond a
unfolding truncate_to_millisecond
truncate_to_millisecond_idem a = omega arith
