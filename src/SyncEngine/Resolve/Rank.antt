-- ===== src/SyncEngine/Resolve/Rank.antt =====
-- resolve.go: the conflict rules compare one number for each record.
use mathlib.Core.Bool.{xor}
use personal_context.Base.{
  ℕ, ◌+◌, ◌*◌, ◌≤◌, ◌<◌, ◌≡◌, refl, Bool, true, not, ◌&&◌, Option, none, some, arith, ltb,
  if◌then◌else◌, ok, map_result,
}
use personal_context.Time.{Time, after, truncate_to_millisecond}
use personal_context.Repository.Types.{Record}
use personal_context.SyncEngine.Resolve.{
  Outcome, equal, local, remote, RecordAction, action_at, latest_record_action, is_set,
  resolve_records, resolve_record_winner,
}

-- The time of the last action and, at one time, 2 for an active record, 1 for an edit of a
-- deleted one and 0 for a deletion.
unfoldable pub rank_at : Time → Option Time → ℕ
rank_at updated none = updated * 3 + 2
rank_at updated (some d) =
    let deleted = truncate_to_millisecond d in
    if ltb updated deleted then deleted * 3 else updated * 3 + 1

unfoldable pub rank : Record → ℕ
unfolding rank_at
rank r = rank_at (truncate_to_millisecond r.updated_at) r.deleted_at

-- A rank is at least that of a deletion at the time of the update.
pub rank_at-ge : (u : Time) (d : Option Time) → u * 3 ≤ rank_at u d
unfolding rank_at
rank_at-ge u none = omega arith
rank_at-ge u (some d) = ground arith

unfoldable pub by_rank : ℕ → ℕ → Outcome
by_rank l r = if ltb r l then local else if ltb l r then remote else equal

tie_rank : Bool → Bool → ℕ
tie_rank deleted marked = if deleted then 0 else if marked then 1 else 2

-- The rank is that of the action, and only a record that is marked deleted was deleted last.
record IsRanked (action : RecordAction) (marked : Bool) (n : ℕ) : Type 0 where
  value : n ≡ action.when * 3 + tie_rank action.deleted marked
  marks : action.deleted ≡ true → marked ≡ true

action_at-IsRanked :
    (u : Time) (d : Option Time) → IsRanked (action_at u d) (is_set d) (rank_at u d)
unfolding action_at rank_at tie_rank
action_at-IsRanked u none = record { value = omega arith; marks = λ h. cc }
action_at-IsRanked u (some d) = ground arith

-- The comparison of two ranked actions.
by_rank-IsRanked :
    (a b : RecordAction) (ma mb : Bool) (m n : ℕ)
    → IsRanked a ma m
    → IsRanked b mb n
    → (if after a.when b.when
        then local
        else if after b.when a.when
        then remote
        else if xor a.deleted b.deleted
        then (if not a.deleted then local else remote)
        else if not ma && mb
        then local
        else if not mb && ma
        then remote
        else equal)
      ≡ by_rank m n
unfolding by_rank tie_rank xor
by_rank-IsRanked a b ma mb m n h k = ground arith

-- Of two records, the one of the greater rank wins, and at equal ranks neither does.
pub resolve_records-by_rank : (l r : Record) → resolve_records l r ≡ by_rank (rank l) (rank r)
unfolding resolve_records latest_record_action rank
resolve_records-by_rank l r =
    by_rank-IsRanked _ _ (is_set l.deleted_at) (is_set r.deleted_at) _ _
      (action_at-IsRanked (truncate_to_millisecond l.updated_at) l.deleted_at)
      (action_at-IsRanked (truncate_to_millisecond r.updated_at) r.deleted_at)

unfoldable pub swap : Outcome → Outcome
swap equal = equal
swap local = remote
swap remote = local

by_rank-swap : (a b : ℕ) → by_rank b a ≡ swap (by_rank a b)
unfolding by_rank swap
by_rank-swap a b = ground arith

pub by_rank_self : (n : ℕ) → by_rank n n ≡ equal
unfolding by_rank
by_rank_self n = ground arith

-- Neither side is favoured: with the sides exchanged, the same record wins, or the same error
-- comes back.
pub resolve_record_winner-swap :
    (l r : Option Record) → resolve_record_winner r l ≡ map_result swap (resolve_record_winner l r)
unfolding resolve_record_winner swap
resolve_record_winner-swap none none = refl
resolve_record_winner-swap none (some r) = refl
resolve_record_winner-swap (some l) none = refl
resolve_record_winner-swap (some l) (some r) =
    rw (resolve_records-by_rank r l, resolve_records-by_rank l r, by_rank-swap (rank l) (rank r))

pub by_rank-newer : (a b : ℕ) → b < a → by_rank a b ≡ local
unfolding by_rank
by_rank-newer a b h = ground arith

-- A record that wins over a second one, which wins over a third one, wins over the third one.
pub resolve_record_winner_trans :
    (a b c : Record)
    → resolve_record_winner (some a) (some b) ≡ ok local
    → resolve_record_winner (some b) (some c) ≡ ok local
    → resolve_record_winner (some a) (some c) ≡ ok local
unfolding resolve_record_winner by_rank
resolve_record_winner_trans a b c h k =
    ground
      (arith, resolve_records-by_rank a b, resolve_records-by_rank b c, resolve_records-by_rank a c)
