-- ===== src/Repository/Registries/Rows.antt =====
-- repository.go: what an insertion and an update leave in the table of a registry.
use personal_context.Base.{
  ℕ, ◌<◌, ltb, ◌≡◌, true, false, List, [], ◌∷◌, arith, ◌==◌, nat_eq, list_eq, ◌⊎◌, inl, inr,
  Bool-cases, if◌then◌else◌, ok, ◌>>=◌, >>=-eq-ok,
}
use personal_context.Text.{Text, text_lt}
use personal_context.Repository.Registries.{
  RegistryRow, select_registry_row, insert_registry_row, change_registry_rows,
}

-- An insertion puts the row first, or among the later rows.
IsInserted : RegistryRow → RegistryRow → List RegistryRow → List RegistryRow → Type 0
IsInserted row p ps rows' =
    (rows' ≡ row ∷ p ∷ ps)
    ⊎ ((others : List RegistryRow) × (insert_registry_row row ps ≡ ok others)
        × (rows' ≡ p ∷ others)
        × ((p.id == row.id) ≡ false))

insert-IsInserted :
    (row p : RegistryRow) (ps : List RegistryRow) {rows' : List RegistryRow}
    → insert_registry_row row (p ∷ ps) ≡ ok rows'
    → IsInserted row p ps rows'
unfolding insert_registry_row IsInserted
insert-IsInserted row p ps {rows'} h = elim (Bool-cases (p.id == row.id)) [
  | inl e ↦ cc (rw e at h)
  | inr e ↦ elim (Bool-cases (text_lt row.id p.id)) [
    | inl l ↦ inl (cc (rw (e, l) at h))
    | inr l ↦
        let (others, rest, put) =
          >>=-eq-ok (insert_registry_row row ps) (λ others. ok (p ∷ others)) (rw (e, l) at h) in
        inr (others, rest, cc put, e)
  ]
]

pub ltb-true : (a b : ℕ) → a < b → ltb a b ≡ true
ltb-true a b h = ground arith

pub select-insert :
    (row : RegistryRow) (rows : List RegistryRow) (rows' : List RegistryRow) (j : Text)
    → insert_registry_row row rows ≡ ok rows'
    → select_registry_row rows' j ≡ (if j == row.id then ok row else select_registry_row rows j)
unfolding select_registry_row insert_registry_row IsInserted
select-insert row [] rows' j h = let e : rows' ≡ row ∷ [] = cc h in rw e (ground arith)
select-insert row (p ∷ ps) rows' j h = elim (insert-IsInserted row p ps h) [
  | inl e ↦ rw e (ground arith)
  | inr (others, rest, e, differs) ↦ rw e (ground (arith, select-insert row ps others j rest))
]

pub select-change :
    (id j : Text) (change : RegistryRow → RegistryRow) (rows : List RegistryRow)
    → ((p : RegistryRow) → (change p).id ≡ p.id)
    → select_registry_row (change_registry_rows id change rows) j ≡ (
        if j == id
        then (do p ← select_registry_row rows j; ok (change p))
        else select_registry_row rows j)
unfolding select_registry_row change_registry_rows
select-change id j change [] keeps = ground arith
select-change id j change (p ∷ ps) keeps =
    ground (arith, select-change id j change ps keeps, keeps p)
