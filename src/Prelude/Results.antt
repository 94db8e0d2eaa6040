-- ===== src/Prelude/Results.antt =====
-- Results over an error type, and their bind. A store operation that fails has rolled back.
use mathlib.Core.Path.{◌≡◌, refl}
use mathlib.Core.Logic.{◌⊎◌, inl, inr}
use mathlib.Core.Bool.{Bool, true, false}
use mathlib.Core.Option.{Option, none, some}

pub data Result {ℓ κ} (E : Type κ) (A : Type ℓ) : Type (ℓ ⊔ κ) where
  ok : A → Result E A
  err : E → Result E A

infixl 5 ◌>>=◌ ◌>>◌
-- The first error ends the chain.
abbrev pub ◌>>=◌ {ℓ κ μ} :
    {E : Type μ} {X : Type ℓ} {Y : Type κ} → Result E X → (X → Result E Y) → Result E Y
ok x >>= next = next x
err why >>= next = err why

abbrev pub ◌>>◌ {κ μ} : {E : Type μ} {Y : Type κ} → Result E (Unit {0}) → Result E Y → Result E Y
checked >> rest = checked >>= λ _. rest

-- `if bad { return e }`
abbrev pub refuse_if {μ} : {E : Type μ} → Bool → E → Result E (Unit {0})
refuse_if true e = err e
refuse_if false e = ok tt

abbrev pub or_fail {ℓ μ} : {E : Type μ} {A : Type ℓ} → Option A → E → Result E A
or_fail none e = err e
or_fail (some a) e = ok a

module _ {ℓ κ μ} {E : Type μ} {X : Type ℓ} {Y : Type κ} where
  -- A chain that ends well has a first part that does, for proofs in which the parts stay shut.
  pub >>=-eq-ok :
      (first : Result E X) (next : X → Result E Y) {y : Y}
      → (first >>= next) ≡ ok y
      → (x : X) × (first ≡ ok x) × (next x ≡ ok y)
  >>=-eq-ok (err why) next ends = cc
  >>=-eq-ok (ok x) next ends = (x, refl, ends)

pub Result-cases {ℓ μ} :
    {E : Type μ} {A : Type ℓ} (m : Result E A) → ((a : A) × (m ≡ ok a)) ⊎ ((e : E) × (m ≡ err e))
Result-cases (ok a) = inl (a, refl)
Result-cases (err e) = inr (e, refl)

module _ {ℓ μ} {E : Type μ} {A : Type ℓ} where
  pub ok-injective : {a b : A} → Path (Result E A) (ok a) (ok b) → a ≡ b
  ok-injective h = cc

  pub or_fail-eq-ok :
      (o : Option A) (e : E) {a : A} → Path (Result E A) (or_fail o e) (ok a) → o ≡ some a
  or_fail-eq-ok none e h = cc
  or_fail-eq-ok (some b) e h = cc
