-- ===== src/Sync/Run/Keeps.antt =====
-- The state that a call leaves, whether it succeeds or fails, stands in a relation to the one before.
use personal_context.Base.{◌≡◌, refl, sym, subst, List, [], ◌∷◌, Result, ok, err, passed}
use personal_context.Sync.Run.{
  SyncError, Run, and_then, ◌>>=◌, each, written, writing, reading, pure_call, give, fail,
}

-- A relation that holds of an unchanged state, and of two changes in a row.
pub record Order {W : Type 0} (R : W → W → Type 0) : Type 0 where
  pub here : (w : W) → R w w
  pub both : {u v w : W} → R u v → R v w → R u w

pub record Keeps {W A : Type 0} (R : W → W → Type 0) (call : Run W A) : Type 0 where
  pub keeps : (w : W) → R w (call w).0

module _ {W : Type 0} {R : W → W → Type 0} (o : Order R) where
  pub and_then-keeps :
      {A B : Type 0} (w : W) (p : W × Result SyncError A) (rest : A → Run W B)
      → R w p.0
      → ((a : A) → Keeps R (rest a))
      → R w (and_then p rest).0
  and_then-keeps w (v, ok a) rest h k = o.both h ((k a).keeps v)
  and_then-keeps w (v, err e) rest h k = h

  pub bind-Keeps :
      {A B : Type 0} {call : Run W A} {rest : A → Run W B}
      → Keeps R call
      → ((a : A) → Keeps R (rest a))
      → Keeps R (call >>= rest)
  bind-Keeps {call} {rest} h k = record {
    keeps = λ w. and_then-keeps w (call w) rest (h.keeps w) k;
  }

  pub each-Keeps :
      {A : Type 0} (list : List A) (body : A → Run W (Unit {0}))
      → ((a : A) → Keeps R (body a))
      → Keeps R (each list body)
  unfolding each
  each-Keeps [] body h = record { keeps = λ w. o.here w }
  each-Keeps (a ∷ list) body h = record {
    keeps = λ w.
        and_then-keeps w (body a w) (λ _. each list body) ((h a).keeps w)
          (λ _. each-Keeps list body h);
  }

  pub reading-Keeps :
      {A E : Type 0} (wrap : E → SyncError) (call : W → Result E A) → Keeps R (reading wrap call)
  reading-Keeps wrap call = record { keeps = λ w. o.here w }

  pub pure_call-Keeps :
      {A E : Type 0} (wrap : E → SyncError) (result : Result E A) → Keeps R (pure_call wrap result)
  pure_call-Keeps wrap result = record { keeps = λ w. o.here w }

  pub give-Keeps : {A : Type 0} (a : A) → Keeps R (give a)
  give-Keeps a = record { keeps = λ w. o.here w }

  pub fail-Keeps : {A : Type 0} (e : SyncError) → Keeps R (fail {A = A} e)
  fail-Keeps e = record { keeps = λ w. o.here w }

  pub written-keeps :
      {E : Type 0} (wrap : E → SyncError) (w : W) (r : Result E W)
      → ((w' : W) → r ≡ ok w' → R w w')
      → R w (written wrap w r).0
  written-keeps wrap w (ok w') h = h w' refl
  written-keeps wrap w (err e) h = o.here w

  pub writing-Keeps :
      {E : Type 0} (wrap : E → SyncError) (call : W → Result E W)
      → ((w w' : W) → call w ≡ ok w' → R w w')
      → Keeps R (writing wrap call)
  writing-Keeps wrap call h = record {
    keeps = λ w. written-keeps wrap w (call w) (λ w' e. h w w' e);
  }

-- Inversion of a successful call: so was its first part, and then the rest.
pub and_then-eq-ok :
    {W A B : Type 0}
    → (p : W × Result SyncError A) (rest : A → Run W B) {w' : W} {b : B}
    → and_then p rest ≡ (w', ok b)
    → (a : A) × (p.1 ≡ ok a) × (rest a p.0 ≡ (w', ok b))
and_then-eq-ok (w, ok a) rest h = (a, refl, h)
and_then-eq-ok (w, err e) rest h = cc

pub written-eq-ok :
    {W E : Type 0}
    → (wrap : E → SyncError) (w : W) (r : Result E W) {w' : W} → written wrap w r ≡ (w', passed)
    → r ≡ ok w'
written-eq-ok wrap w (ok v) h = cc
written-eq-ok wrap w (err e) h = cc

-- A call that left the state as it is, and then the rest.
pub read-then :
    {W A B : Type 0} (R : W → W → Type 0) (w : W) (p : W × Result SyncError A) (rest : A → Run W B)
    → R w w
    → p.0 ≡ w
    → ((a : A) → p.1 ≡ ok a → R w (rest a w).0)
    → R w (and_then p rest).0
read-then R w (v, ok a) rest h e k = subst (λ u. R w (rest a u).0) (sym e) (k a refl)
read-then R w (v, err failed) rest h e k = subst (R w) (sym e) h
