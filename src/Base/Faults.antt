-- ===== src/Base/Faults.antt =====
-- Errors as the callers tell them apart, and transactions over a database state.

use mathlib.Core.Path.{◌≡◌, refl}
use mathlib.Core.Logic.{◌⊎◌, inl, inr}
use native.Mathlib.Omega.{arith}
use mathlib.Core.Bool.{Bool, true, false}
use mathlib.Core.Option.{Option, none, some}

-- `database` stands for every error that carries no sentinel of the program.
pub data Fault : Type 0 where
  not_found invalid_result invalid_request database : Fault

pub data Result {ℓ} (A : Type ℓ) : Type ℓ where
  ok : A → Result A
  err : Fault → Result A

pub Result-cases {ℓ} :
    {A : Type ℓ} (r : Result A) → ((a : A) × (r ≡ ok a)) ⊎ ((e : Fault) × (r ≡ err e))
Result-cases (ok a) = inl (a, refl)
Result-cases (err e) = inr (e, refl)

-- The body of a transaction: an error drops the new state.
abbrev pub Tx : Type 0 → Type 0 → Type 0
Tx S A = S → Result (A × S)

module _ {S : Type 0} {A : Type 0} where
  abbrev pub pure : A → Tx S A
  pure a s = ok (a, s)

  abbrev pub raise : Fault → Tx S A
  raise e s = err e

  abbrev pub gets : (S → A) → Tx S A
  gets f s = ok (f s, s)

  abbrev pub or_raise : Fault → Option A → Tx S A
  or_raise e none s = err e
  or_raise e (some a) s = ok (a, s)

infixl 5 ◌>>=◌ ◌>>◌
abbrev pub ◌>>=◌ : {S A B : Type 0} → Tx S A → (A → Tx S B) → Tx S B
◌>>=◌ m f s = elim (m s) [ err e ↦ err e | ok (a, s') ↦ f a s' ]

abbrev pub ◌>>◌ : {S A B : Type 0} → Tx S A → Tx S B → Tx S B
m >> k = m >>= λ _. k

module _ {S : Type 0} where
  abbrev pub modify : (S → S) → Tx S (Unit {0})
  modify f s = ok (tt, f s)

  abbrev pub guard : Bool → Fault → Tx S (Unit {0})
  guard true e s = ok (tt, s)
  guard false e s = err e

-- A transaction as its caller sees it: rolled back on an error.
abbrev pub settle : {S A : Type 0} → Tx S A → S → Result (Unit {0}) × S
settle m s = elim (m s) [ err e ↦ (err e, s) | ok (a, s') ↦ (ok tt, s') ]

-- Inversion of a transaction that went through a bind.
pub bind-eq-ok :
    {S A B : Type 0} (m : Tx S A) (f : A → Tx S B) (s : S) {r : B × S}
    → (m >>= f) s ≡ ok r
    → (a : A) × (t : S) × (m s ≡ ok (a, t)) × (f a t ≡ ok r)
bind-eq-ok m f s h = elim (Result-cases (m s)) [
  | inl ((a, t), e) ↦ (a, t, e, ground (arith, h))
  | inr (e, failed) ↦ absurd (ground arith)
]
