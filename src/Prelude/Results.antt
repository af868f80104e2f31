-- ===== src/Prelude/Results.antt =====
-- Results with an error value, and transactions: an error rolls every change of the state back.
use mathlib.Core.Bool.{Bool, true, false}
use mathlib.Core.Path.{◌≡◌, refl}
use mathlib.Core.Logic.{◌⊎◌, inl, inr}
use mathlib.Core.Option.{Option, none, some}
use native.Mathlib.Omega.{arith}

pub data Result {ℓ} (E A : Type ℓ) : Type ℓ where
  ok : A → Result E A
  err : E → Result E A

-- To split on a computed result and keep the equation.
pub Result-cases {ℓ} :
    {E A : Type ℓ} (r : Result E A) → ((a : A) × (r ≡ ok a)) ⊎ ((e : E) × (r ≡ err e))
Result-cases (ok a) = inl (a, refl)
Result-cases (err e) = inr (e, refl)

-- A transaction reads and changes `S`, or ends with an error and changes nothing.
abbrev pub Tx : Type 0 → Type 0 → Type 0 → Type 0
Tx S E A = S → Result E (A × S)

module _ {S E A : Type 0} where
  abbrev pub pure : A → Tx S E A
  pure a s = ok (a, s)

  abbrev pub raise : E → Tx S E A
  raise e s = err e

  abbrev pub gets : (S → A) → Tx S E A
  gets f s = ok (f s, s)

  -- A row that must be there.
  abbrev pub row : E → Option A → Tx S E A
  row e none s = err e
  row e (some a) s = ok (a, s)

  -- What the caller of a transaction sees, with the committed state.
  abbrev pub outcome : Result E (A × S) → S → Result E A × S
  outcome (ok (a, s')) s = (ok a, s')
  outcome (err e) s = (err e, s)

module _ {S E : Type 0} where
  abbrev pub modify : (S → S) → Tx S E Unit
  modify f s = ok (tt, f s)

  -- An early return with an error.
  abbrev pub guard : Bool → E → Tx S E Unit
  guard true e s = ok (tt, s)
  guard false e s = err e

module _ {S E A B : Type 0} where
  infixl 5 ◌>>=◌ ◌>>◌
  abbrev pub ◌>>=◌ : Tx S E A → (A → Tx S E B) → Tx S E B
  ◌>>=◌ m f s = elim (m s) [ ok r ↦ f r.0 r.1 | err e ↦ err e ]

  abbrev pub ◌>>◌ : Tx S E A → Tx S E B → Tx S E B
  m >> n = m >>= λ _. n

module _ {S E A B : Type 0} where
  -- A successful sequence has a successful first part.
  pub bind-ok :
      (m : Tx S E A) (f : A → Tx S E B) (s : S) {b : B × S}
      → (m >>= f) s ≡ ok b
      → (a : A) × (t : S) × (m s ≡ ok (a, t)) × (f a t ≡ ok b)
  bind-ok m f s {b} h = go (m s) refl h
    where
      go :
          (r : Result E (A × S))
          → m s ≡ r
          → (elim r [ ok r ↦ f r.0 r.1 | err e ↦ err e ]) ≡ ok b
          → (a : A) × (t : S) × (m s ≡ ok (a, t)) × (f a t ≡ ok b)
      go (ok (a, t)) e k = (a, t, e, k)
      go (err x) e k = cc

module _ {S E : Type 0} where
  -- A guard changes nothing.
  pub guard-same : (t : Bool) (x : E) (s : S) {s' : S} → guard t x s ≡ ok (tt, s') → s' ≡ s
  guard-same true x s h = ground arith
  guard-same false x s h = cc

module _ {S E B : Type 0} where
  -- What follows a guard runs on the same state, with the test true.
  pub guard-ok :
      (t : Bool) (x : E) (f : Unit → Tx S E B) (s : S) {b : B × S}
      → (guard t x >>= f) s ≡ ok b
      → (t ≡ true) × (f tt s ≡ ok b)
  guard-ok true x f s h = (refl, h)
  guard-ok false x f s h = cc

module _ {S E A : Type 0} where
  -- A row that is there is returned, on the same state.
  pub row-ok :
      (e : E) (o : Option A) (s : S) {a : A} {t : S}
      → row e o s ≡ ok (a, t)
      → (o ≡ some a) × (t ≡ s)
  row-ok e none s h = cc
  row-ok e (some x) s h = ground arith

  pub pure-ok : (a b : A) (s t : S) → pure {E = E} a s ≡ ok (b, t) → (a ≡ b) × (s ≡ t)
  pure-ok a b s t h = ground arith
