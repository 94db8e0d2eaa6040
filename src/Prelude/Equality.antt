-- ===== src/Prelude/Equality.antt =====
-- One Boolean equality for every type that the program compares with `==`.
use text.Mathlib.TextEquality.{eq_iff}
use text.Mathlib.Text.{◌==◌ as text_test}
use Prim.Native.Nat.{ℕ, compare, Ordering}
use Prim.Native.String.{String}
use mathlib.Core.Path.{◌≡◌, refl}
use mathlib.Core.Logic.{◌↔◌}
use mathlib.Core.Bool.{Bool, true, false, not}
use native.Mathlib.Omega.{arith}

-- A test of equality that decides the paths between two values.
pub record Eq {κ} (T : Type κ) : Type κ where
  pub test : T → T → Bool
  pub decides : (s t : T) → (test s t ≡ true) ↔ (s ≡ t)

infix 50 ◌==◌ ◌!=◌
abbrev pub ◌==◌ {κ} : {T : Type κ} ⦃d : Eq T⦄ → T → T → Bool
◌==◌ ⦃d⦄ s t = d.test s t

abbrev pub ◌!=◌ {κ} : {T : Type κ} ⦃d : Eq T⦄ → T → T → Bool
◌!=◌ ⦃d⦄ s t = not (d.test s t)

abbrev pub nat_beq : ℕ → ℕ → Bool
nat_beq a b = elim (compare a b) [ Ordering.eq ↦ true | _ ↦ false ]

pub nat_beq_iff : (a b : ℕ) → (nat_beq a b ≡ true) ↔ (a ≡ b)
nat_beq_iff a b = ground arith

instance abbrev pub nat_eq : Eq ℕ
nat_eq = record { test = nat_beq; decides = nat_beq_iff }

instance abbrev pub string_eq : Eq String
string_eq = record { test = text_test; decides = eq_iff }

-- Two texts are compared: the fact that `ground` wants for a pair.
pub text_iff : (s t : String) → (text_test s t ≡ true) ↔ (s ≡ t)
text_iff = eq_iff

pub text_refl : (s : String) → text_test s s ≡ true
text_refl s = (eq_iff s s).1 refl
