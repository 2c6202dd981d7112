-- ===== src/Sync/Bundle/Resolution.antt =====
-- conflict.go: the bundle of the greater rank wins, on whichever side it stands.
use personal_context.Base.{
  ℕ, ◌≡◌, ◌≢◌, sym, ap, ◌∙◌, Option, [], arith, list_eq, nat_eq, ==→≢, ==→≡, ≢→==, ≡→==, ok,
}
use personal_context.Text.{trim_space}
use personal_context.SyncEngine.Resolve.{resolve_record_winner}
use personal_context.SyncEngine.Resolve.Rank.{rank, by_rank, resolve_records-by_rank}
use personal_context.Sync.Bundle.{
  Winner, local, cloud, neither, RecordBundle, resolve_bundle, winning,
}

-- Bundles of one record, by ids that are not blank.
pub record IsSameRecord (l c : RecordBundle) : Type 0 where
  pub id_given : trim_space l.row.id ≢ []
  pub ids_match : trim_space l.row.id ≡ trim_space c.row.id

-- Bundles of one record, whose id is not blank, are always resolved, by the rank of their records:
-- the bundle of the greater rank wins, and at equal ranks neither does.
pub resolve_bundle-rank :
    (l c : RecordBundle)
    → IsSameRecord l c
    → resolve_bundle l c ≡ ok (winning l c (by_rank (rank l.row) (rank c.row)))
unfolding resolve_bundle resolve_record_winner
resolve_bundle-rank l c h =
    let local_id = trim_space l.row.id in
    rw (
      ≢→== local_id [] h.id_given,
      ≢→== (trim_space c.row.id) [] (λ e. h.id_given (h.ids_match ∙ e)),
      ≡→== local_id (trim_space c.row.id) h.ids_match,
      resolve_records-by_rank l.row c.row,
    )

pub resolve_bundle-IsSameRecord :
    (l c : RecordBundle) {r : Option RecordBundle × Winner}
    → resolve_bundle l c ≡ ok r
    → IsSameRecord l c
unfolding resolve_bundle
resolve_bundle-IsSameRecord l c h = record {
  id_given = ==→≢ (trim_space l.row.id) [] (ground arith);
  ids_match = ==→≡ (trim_space l.row.id) (trim_space c.row.id) (ground arith);
}

unfoldable pub other_side : Winner → Winner
other_side local = cloud
other_side cloud = local
other_side neither = neither

winning-swap :
    (l c : RecordBundle) (m n : ℕ)
    → winning c l (by_rank n m)
      ≡ ((winning l c (by_rank m n)).0, other_side (winning l c (by_rank m n)).1)
unfolding other_side by_rank
winning-swap l c m n = ground arith

-- If two bundles are resolved, then with the sides exchanged the same bundle wins, now on the other
-- side.
pub resolve_bundle-other_side :
    (l c : RecordBundle) {won : Option RecordBundle} {side : Winner}
    → resolve_bundle l c ≡ ok (won, side)
    → resolve_bundle c l ≡ ok (won, other_side side)
resolve_bundle-other_side l c {won} {side} h =
    let s = resolve_bundle-IsSameRecord l c h in
    let t : IsSameRecord c l = record {
      id_given = λ e. s.id_given (s.ids_match ∙ e);
      ids_match = sym s.ids_match;
    } in
    let w : winning l c (by_rank (rank l.row) (rank c.row)) ≡ (won, side) =
      cc (resolve_bundle-rank l c s) in
    resolve_bundle-rank c l t
    ∙ ap ok (winning-swap l c (rank l.row) (rank c.row) ∙ ap (λ r. (r.0, other_side r.1)) w)
