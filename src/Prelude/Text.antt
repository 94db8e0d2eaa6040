-- ===== src/Prelude/Text.antt =====
-- Go's `strings.TrimSpace`, over the characters of a text.
use Prim.Native.Char.{code}
use Prim.Native.String.{String, [], ◌∷◌}
use Prim.Native.Nat.{ℕ}
use mathlib.Core.Path.{◌≡◌, refl}
use mathlib.Core.Logic.{inl, inr}
use mathlib.Core.Bool.{Bool, true, false, ◌&&◌, ◌||◌}
use native.Mathlib.Omega.{arith}
use slate_do.Prelude.Tests.{leb, if◌then◌else◌, Bool-cases}
use slate_do.Prelude.Equality.{◌==◌, nat_eq}

-- The code points that `unicode.IsSpace` names.
abbrev is_space : ℕ → Bool
is_space c =
    (leb 0x09 c && leb c 0x0d)
    || c == 0x20
    || c == 0x85
    || c == 0xa0
    || c == 0x1680
    || (leb 0x2000 c && leb c 0x200a)
    || c == 0x2028
    || c == 0x2029
    || c == 0x202f
    || c == 0x205f
    || c == 0x3000

abbrev is_blank : String → Bool
is_blank [] = true
is_blank (c ∷ s) = false

trim_left : String → String
trim_left [] = []
trim_left (c ∷ s) = if is_space (code c) then trim_left s else c ∷ s

-- A character goes if it is a space with nothing kept behind it.
trim_right : String → String
trim_right [] = []
trim_right (c ∷ s) =
    let rest = trim_right s in if is_blank rest && is_space (code c) then [] else c ∷ rest

unfoldable pub trim_space : String → String
unfolding trim_left trim_right
trim_space s = trim_right (trim_left s)

trim_right-trim_right : (s : String) → trim_right (trim_right s) ≡ trim_right s
unfolding trim_right
trim_right-trim_right [] = refl
trim_right-trim_right (c ∷ s) = elim (Bool-cases (is_blank (trim_right s) && is_space (code c))) [
  | inl e ↦ rw e
  | inr e ↦ rw e (rw (trim_right-trim_right s) (rw e))
]

-- A text that does not begin with a space.
starts_solid : String → Bool
starts_solid [] = true
starts_solid (c ∷ s) = if is_space (code c) then false else true

trim_left-of_solid : (s : String) → starts_solid s ≡ true → trim_left s ≡ s
unfolding trim_left starts_solid
trim_left-of_solid [] h = refl
trim_left-of_solid (c ∷ s) h = ground arith

trim_left_solid : (s : String) → starts_solid (trim_left s) ≡ true
unfolding trim_left starts_solid
trim_left_solid [] = refl
trim_left_solid (c ∷ s) = elim (Bool-cases (is_space (code c))) [
  | inl e ↦ rw e (trim_left_solid s)
  | inr e ↦ rw e (rw e)
]

trim_right_solid : (s : String) → starts_solid s ≡ true → starts_solid (trim_right s) ≡ true
unfolding trim_right starts_solid
trim_right_solid [] h = refl
trim_right_solid (c ∷ s) h = elim (Bool-cases (is_space (code c))) [
  | inl e ↦ ground arith
  | inr e ↦ ground arith
]

-- Trimming a trimmed text changes nothing.
pub trim_space-trim_space : (s : String) → trim_space (trim_space s) ≡ trim_space s
unfolding trim_space
trim_space-trim_space s =
    rw (trim_left-of_solid _ (trim_right_solid _ (trim_left_solid s)))
      (trim_right-trim_right (trim_left s))

trimmed : trim_space "  a b " ≡ "a b"
unfolding trim_space
trimmed = refl
