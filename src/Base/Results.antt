-- ===== src/Base/Results.antt =====
-- Go's pair of a value and an error: the value, or the error of the call that failed.
use mathlib.Core.Path.{◌≡◌, refl}
use mathlib.Core.Logic.{◌⊎◌, inl, inr}

pub data Result {ℓ} (E : Type 0) (A : Type ℓ) : Type ℓ where
  ok : A → Result E A
  err : E → Result E A

-- `fmt.Errorf("...: %w", err)`: the error in a wrapper.
abbrev pub map_err {ℓ} : {E F : Type 0} {A : Type ℓ} → (E → F) → Result E A → Result F A
map_err f (ok a) = ok a
map_err f (err e) = err (f e)

pub map_err-eq-ok {ℓ} :
    {E F : Type 0} {A : Type ℓ} (f : E → F) (m : Result E A) {a : A} → map_err f m ≡ ok a → m ≡ ok a
map_err-eq-ok f (ok b) h = cc
map_err-eq-ok f (err e) h = cc

abbrev pub map_result {ℓ ℓ'} :
    {E : Type 0} {A : Type ℓ} {B : Type ℓ'} → (A → B) → Result E A → Result E B
map_result f (err e) = err e
map_result f (ok a) = ok (f a)

-- `if err != nil { return err }` between two calls.
infixl 5 ◌>>=◌ ◌>>◌
abbrev pub ◌>>=◌ {ℓ ℓ'} :
    {E : Type 0} {A : Type ℓ} {B : Type ℓ'} → Result E A → (A → Result E B) → Result E B
err failed >>= rest = err failed
ok a >>= rest = rest a

-- The result of a check, an `error` alone in Go.
abbrev pub Checked : Type 0 → Type 0
Checked E = Result E (Unit {0})

abbrev pub passed : {E : Type 0} → Checked E
passed = ok tt

abbrev pub ◌>>◌ {ℓ} : {E : Type 0} {B : Type ℓ} → Checked E → Result E B → Result E B
check >> rest = check >>= λ _. rest

-- Inversion of a successful call: so was its first part, and then the rest.
pub >>=-eq-ok {ℓ ℓ'} :
    {E : Type 0} {A : Type ℓ} {B : Type ℓ'} (call : Result E A) (rest : A → Result E B) {b : B}
    → (call >>= rest) ≡ ok b
    → (a : A) × (call ≡ ok a) × (rest a ≡ ok b)
>>=-eq-ok (err failed) rest h = cc
>>=-eq-ok (ok a) rest h = (a, refl, h)

pub Result-cases {ℓ} :
    {E : Type 0} {A : Type ℓ} (m : Result E A) → ((a : A) × (m ≡ ok a)) ⊎ ((e : E) × (m ≡ err e))
Result-cases (ok a) = inl (a, refl)
Result-cases (err e) = inr (e, refl)
