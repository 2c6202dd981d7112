-- ===== src/Sync/Apply/Records.antt =====
-- service.go: a bundle's record is written first; what follows leaves the records as they are.
use personal_context.Base.{
  ℕ, ◌≤◌, ◌≡◌, sym, ap, subst, ◌∙◌, Bool, true, false, ok, passed, inl, inr, Bool-cases, ==→≡, ==→≢,
  ◌==◌, list_eq, nat_eq,
}
use personal_context.Text.{Text}
use personal_context.Repository.Types.{Record}
use personal_context.Repository.Inputs.{CreateRecordInput, UpdateRecordInput}
use personal_context.Sync.Service.{update_input_of, create_input_of}
use personal_context.Repository.Interface.{Repository}
use personal_context.SyncEngine.Resolve.Rank.{rank}
use personal_context.Sync.Run.{Run, stored, ◌>>=◌}
use personal_context.Sync.Run.Keeps.{
  Order, writing-Keeps, Keeps, and_then-eq-ok, written-eq-ok, written-keeps, and_then-keeps,
}
use personal_context.Sync.Laws.{
  capped, capped_trans, capped-rank, IsCovered, Grows, Grows-Order, SameRecords, Grows-SameRecords,
  IsPut, RepositoryLaws,
}
use personal_context.Sync.Apply.{apply_record_to}

pub apply_record_to-Keeps :
    {W : Type 0} {R : W → W → Type 0} (o : Order R) (repo : Repository W)
    → ((i : CreateRecordInput) (w w' : W) → repo.create_record i w ≡ ok w' → R w w')
    → ((i : UpdateRecordInput) (w w' : W) → repo.update_record i w ≡ ok w' → R w w')
    → (r : Record) (exists : Bool) → Keeps R (apply_record_to repo r exists)
unfolding apply_record_to
apply_record_to-Keeps o repo creates updates r true =
    writing-Keeps o stored (repo.update_record (update_input_of r)) (updates (update_input_of r))
apply_record_to-Keeps o repo creates updates r false =
    writing-Keeps o stored (repo.create_record (create_input_of r)) (creates (create_input_of r))

module _ {W : Type 0} (repo : Repository W) (laws : RepositoryLaws repo) where
  IsPut-grows :
      (r : Record) (w w' : W)
      → ((n : ℕ) → IsCovered repo r.id n w → capped repo.now n ≤ rank r)
      → IsPut repo r w w'
      → Grows repo w w'
  unfolding Grows
  IsPut-grows r w w' older p id n c = elim (Bool-cases (id == r.id)) [
    | inl e ↦
        let same : id ≡ r.id = ==→≡ id r.id e in
        let c' : IsCovered repo r.id n w = subst (λ i. IsCovered repo i n w) same c in
        subst (λ i. IsCovered repo i n w') (sym same)
          (record {
            row = p.row;
            there = p.there;
            as_new =
                capped_trans repo.now n (rank r) (rank p.row) (older n c')
                  (capped-rank repo.now r p.row p.times);
          })
    | inr e ↦ record {
      row = c.row;
      there = p.others id (==→≢ id r.id e) ∙ c.there;
      as_new = c.as_new;
    }
  ]

  apply_record_to-IsPut :
      (r : Record) (exists : Bool) (w w' : W)
      → apply_record_to repo r exists w ≡ (w', passed)
      → IsPut repo r w w'
  unfolding apply_record_to
  apply_record_to-IsPut r true w w' h = laws.update_puts r w w' (written-eq-ok stored w _ h)
  apply_record_to-IsPut r false w w' h = laws.create_puts r w w' (written-eq-ok stored w _ h)

  apply_record_to-grows :
      (r : Record) (exists : Bool) (w : W)
      → ((n : ℕ) → IsCovered repo r.id n w → capped repo.now n ≤ rank r)
      → Grows repo w (apply_record_to repo r exists w).0
  unfolding apply_record_to
  apply_record_to-grows r true w older =
      written-keeps (Grows-Order repo) stored w _
        (λ w' e. IsPut-grows r w w' older (laws.update_puts r w w' e))
  apply_record_to-grows r false w older =
      written-keeps (Grows-Order repo) stored w _
        (λ w' e. IsPut-grows r w w' older (laws.create_puts r w w' e))

  IsCovered-same :
      (id : Text) (n : ℕ) (w w' : W)
      → SameRecords repo w w'
      → IsCovered repo id n w
      → IsCovered repo id n w'
  unfolding Grows
  IsCovered-same id n w w' same = Grows-SameRecords repo w w' same id n

  module _ (rest : Run W (Unit {0})) (same : Keeps (SameRecords repo) rest) where
    pub put_then-covers :
        (r : Record) (exists : Bool) (w w' : W)
        → (apply_record_to repo r exists >>= λ _. rest) w ≡ (w', passed)
        → IsCovered repo r.id (rank r) w'
    put_then-covers r exists w w' h =
        let (_, first, after) = and_then-eq-ok (apply_record_to repo r exists w) (λ _. rest) h in
        let v : W = (apply_record_to repo r exists w).0 in
        let p = apply_record_to-IsPut r exists w v (ap (λ x. (v, x)) first) in
        IsCovered-same r.id (rank r) v w'
          (subst (SameRecords repo v) (ap (λ x. x.0) after) (same.keeps v))
          (record { row = p.row; there = p.there; as_new = capped-rank repo.now r p.row p.times })

    pub put_then-grows :
        (r : Record) (exists : Bool) (w : W)
        → ((n : ℕ) → IsCovered repo r.id n w → capped repo.now n ≤ rank r)
        → Grows repo w ((apply_record_to repo r exists >>= λ _. rest) w).0
    put_then-grows r exists w older =
        and_then-keeps (Grows-Order repo) w (apply_record_to repo r exists w) (λ _. rest)
          (apply_record_to-grows r exists w older)
          (λ _. record { keeps = λ v. Grows-SameRecords repo v _ (same.keeps v) })
