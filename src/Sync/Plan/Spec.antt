-- ===== src/Sync/Plan/Spec.antt =====
-- conflict.go: what a plan holds, row by row, and when there is one.
use personal_context.Base.{
  ℕ, ◌≡◌, refl, sym, subst, ◌∙◌, false, Option, none, some, List, [], ◌∷◌, ◌++◌, nat_eq, list_eq,
  arith, if◌then◌else◌, ok, passed, >>=-eq-ok,
}
use mathlib.Core.List.{append_assoc, append-nil}
use personal_context.Text.{Text}
use personal_context.SyncEngine.Resolve.{ByFilename, lookup, is_set}
use personal_context.SyncEngine.Resolve.Index.{
  find, DistinctNames, Indexes, IsIndexed, IsIndexed-nil, IsIndexed-cons, IsApart, IsApart-fresh,
  IsApart-tail,
}
use personal_context.Sync.Children.{Children}
use personal_context.Sync.Plan.{Progress, match_row, plan_row, plan_rows}

module _ (k : Children) where
  open k use {Row, Create, Update, id, filename, check, differs, create_input, update_input}

  -- The desired rows that have no counterpart.
  unfoldable pub new_rows : Text → List Row → List Row → List Create
  new_rows rid existing [] = []
  new_rows rid existing (row ∷ rows) =
      let rest = new_rows rid existing rows in
      if is_set (find filename (filename row) existing) then rest else create_input rid row ∷ rest

  abbrev pub changes : Row → List Update → Option Row → List Update
  changes row rest none = rest
  changes row rest (some e) = if differs e row then update_input e row ∷ rest else rest

  -- The desired rows that differ from their counterpart.
  unfoldable pub changed_rows : List Row → List Row → List Update
  changed_rows existing [] = []
  changed_rows existing (row ∷ rows) =
      changes row (changed_rows existing rows) (find filename (filename row) existing)

  -- The existing rows that are not desired.
  unfoldable pub stale_ids : List Row → List Row → List ℕ
  stale_ids desired [] = []
  stale_ids desired (row ∷ rows) =
      let rest = stale_ids desired rows in
      if is_set (find filename (filename row) desired) then rest else id row ∷ rest

  abbrev pub AllChecked : Text → List Row → Type 0
  AllChecked rid [] = Unit
  AllChecked rid (row ∷ rows) = (check rid row ≡ passed) × AllChecked rid rows

  pub record IsPlanned (rid : Text) (existing rows : List Row) (p q : Progress k) : Type 0 where
    pub checked : AllChecked rid rows
    pub seen : IsIndexed filename rows p.desired q.desired
    pub creates : q.creates ≡ p.creates ++ new_rows rid existing rows
    pub updates : q.updates ≡ p.updates ++ changed_rows existing rows

  match_row-creates :
      (rid : Text) (row : Row) (o : Option Row) (p : Progress k) (rest : List Create)
      → (match_row k rid row o p).creates ++ rest
        ≡ p.creates ++ (if is_set o then rest else create_input rid row ∷ rest)
  match_row-creates rid row none p rest = append_assoc p.creates (create_input rid row ∷ []) rest
  match_row-creates rid row (some e) p rest = ground arith

  match_row-updates :
      (rid : Text) (row : Row) (o : Option Row) (p : Progress k) (rest : List Update)
      → (match_row k rid row o p).updates ++ rest ≡ p.updates ++ changes row rest o
  match_row-updates rid row none p rest = refl
  match_row-updates rid row (some e) p rest =
      ground (arith, append_assoc p.updates (update_input e row ∷ []) rest)

  match_row-desired :
      (rid : Text) (row : Row) (o : Option Row) (p : Progress k)
      → (match_row k rid row o p).desired ≡ p.desired
  match_row-desired rid row none p = refl
  match_row-desired rid row (some e) p = ground arith

  abbrev with_row : Progress k → Row → Progress k
  with_row p row = record p { desired = (filename row, row) ∷ p.desired }

  plan_row-eq :
      (rid : Text) (m : ByFilename Row) (p p' : Progress k) (row : Row)
      → plan_row k rid m p row ≡ ok p'
      → (check rid row ≡ passed)
        × (is_set (lookup (filename row) p.desired) ≡ false)
        × (match_row k rid row (lookup (filename row) m) (with_row p row) ≡ p')
  unfolding plan_row
  plan_row-eq rid m p p' row h = ground arith

  match_row-IsPlanned :
      (rid : Text) (existing : List Row) (o : Option Row) (row : Row) (rows : List Row)
      (p q : Progress k)
      → o ≡ find filename (filename row) existing
      → check rid row ≡ passed
      → is_set (lookup (filename row) p.desired) ≡ false
      → IsPlanned rid existing rows (match_row k rid row o (with_row p row)) q
      → IsPlanned rid existing (row ∷ rows) p q
  unfolding new_rows changed_rows
  match_row-IsPlanned rid existing o row rows p q found c fresh r = record {
    checked = (c, r.checked);
    seen = IsIndexed-cons filename row rows p.desired q.desired fresh (
        subst (λ d. IsIndexed filename rows d q.desired)
          (match_row-desired rid row o (with_row p row)) r.seen);
    creates =
        r.creates
        ∙ match_row-creates rid row o (with_row p row) (new_rows rid existing rows)
        ∙ rw found;
    updates =
        r.updates
        ∙ match_row-updates rid row o (with_row p row) (changed_rows existing rows)
        ∙ rw found;
  }

  pub IsPlanned-nil :
      (rid : Text) (existing : List Row) (p : Progress k) → IsPlanned rid existing [] p p
  unfolding new_rows changed_rows
  IsPlanned-nil rid existing p = record {
    checked = tt;
    seen = IsIndexed-nil filename p.desired;
    creates = sym (append-nil p.creates);
    updates = sym (append-nil p.updates);
  }

  pub plan_rows-IsPlanned :
      (rid : Text) (existing : List Row) (m : ByFilename Row) (p q : Progress k) (rows : List Row)
      → Indexes filename m existing
      → plan_rows k rid m p rows ≡ ok q
      → IsPlanned rid existing rows p q
  unfolding plan_rows
  plan_rows-IsPlanned rid existing m p q [] ix h =
      subst (IsPlanned rid existing [] p) (ground arith) (IsPlanned-nil rid existing p)
  plan_rows-IsPlanned rid existing m p q (row ∷ rows) ix h =
      let (p', first, others) =
        >>=-eq-ok (plan_row k rid m p row) (λ p'. plan_rows k rid m p' rows) h in
      let (c, fresh, e) = plan_row-eq rid m p p' row first in
      match_row-IsPlanned rid existing (lookup (filename row) m) row rows p q (ix (filename row)) c
        fresh
        (subst (λ x. IsPlanned rid existing rows x q) (sym e)
          (plan_rows-IsPlanned rid existing m p' q rows ix others))

  pub plan_rows_total :
      (rid : Text) (m : ByFilename Row) (p : Progress k) (rows : List Row)
      → AllChecked rid rows
      → DistinctNames filename rows
      → IsApart filename rows p.desired
      → (q : Progress k) × (plan_rows k rid m p rows ≡ ok q)
  unfolding plan_rows plan_row
  plan_rows_total rid m p [] c d apart = (p, refl)
  plan_rows_total rid m p (row ∷ rows) (c, cs) (fresh, d) apart =
      let p' : Progress k = match_row k rid row (lookup (filename row) m) (with_row p row) in
      let (q, made) = plan_rows_total rid m p' rows cs d (
        subst (IsApart filename rows)
          (sym (match_row-desired rid row (lookup (filename row) m) (with_row p row)))
          (IsApart-tail filename row rows p.desired fresh apart)) in
      (q, rw (c, IsApart-fresh filename row rows p.desired apart) made)
