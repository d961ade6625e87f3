-- ===== src/Prelude/Results.antt =====
-- Errors as values, and code that changes a state and may return an error.
use mathlib.Core.Path.{◌≡◌, refl}
use mathlib.Core.Logic.{◌⊎◌, inl, inr}
use mathlib.Core.Bool.{Bool, true, false}

pub data Result (E A : Type 0) : Type 0 where
  ok : A → Result E A
  err : E → Result E A

-- The state is returned beside an error too: what was written stays written.
abbrev pub Exec : Type 0 → Type 0 → Type 0 → Type 0
Exec S E A = S → Result E A × S

module _ {E A : Type 0} where
  -- `if bad { return e }`
  abbrev pub reject : Bool → E → Result E A → Result E A
  reject true e k = err e
  reject false e k = k

  pub ok-injective : {a b : A} → ◌≡◌ {A = Result E A} (ok a) (ok b) → a ≡ b
  ok-injective h = cc

  pub reject-eq-ok :
      (b : Bool) (e : E) (k : Result E A) {a : A} → reject b e k ≡ ok a → (b ≡ false) × (k ≡ ok a)
  reject-eq-ok true e k h = cc
  reject-eq-ok false e k h = (refl, h)

module _ {E A B : Type 0} where
  infixl 5 ◌>>=◌
  -- `x, e := first; if e != nil { return e }`, and the rest of the code.
  abbrev pub ◌>>=◌ : Result E A → (A → Result E B) → Result E B
  err e >>= then_do = err e
  ok x >>= then_do = then_do x

  pub >>=-eq-ok :
      (first : Result E A) (rest : A → Result E B) {y : B}
      → (first >>= rest) ≡ ok y
      → (x : A) × (first ≡ ok x) × (rest x ≡ ok y)
  >>=-eq-ok (err e) rest h = cc
  >>=-eq-ok (ok x) rest h = (x, refl, h)

  pub >>=-eq-err :
      (first : Result E A) (rest : A → Result E B) {e : E}
      → (first >>= rest) ≡ err e
      → (first ≡ err e) ⊎ ((x : A) × (first ≡ ok x) × (rest x ≡ err e))
  >>=-eq-err (err e) rest h = inl (cc)
  >>=-eq-err (ok x) rest h = inr (x, refl, h)

pub Result-cases :
    {E A : Type 0} (r : Result E A) → ((a : A) × (r ≡ ok a)) ⊎ ((e : E) × (r ≡ err e))
Result-cases (ok a) = inl (a, refl)
Result-cases (err e) = inr (e, refl)
