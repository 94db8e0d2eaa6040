-- ===== src/Prelude/Sort.antt =====
-- `ORDER BY`: insertion into a list that an order keeps, and what sorting leaves alone.
use Prim.Native.Nat.{Ordering, ◌+◌}
use Prim.Native.String.{String, compare}
use mathlib.Core.Logic.{inl, inr}
use mathlib.Core.Bool.{Bool, true, false}
use mathlib.Core.List.{List, [], ◌∷◌, Perm}
use mathlib.Core.List.Perm
use slate_do.Prelude.Tests.{if◌then◌else◌, Bool-cases}
use slate_do.Prelude.Lists.{All, count_where}
use mathlib.Core.Path.{◌≡◌, refl}
use native.Mathlib.Omega.{arith}

-- The order of two texts, byte by byte.
abbrev pub text_ltb : String → String → Bool
text_ltb s t = elim (compare s t) [ Ordering.lt ↦ true | _ ↦ false ]

module _ {ℓ} {A : Type ℓ} (before : A → A → Bool) where
  unfoldable pub place : A → List A → List A
  place a [] = a ∷ []
  place a (x ∷ xs) = let rest = x ∷ place a xs in if before a x then a ∷ x ∷ xs else rest

  unfoldable pub sort_by : List A → List A
  unfolding place
  sort_by [] = []
  sort_by (x ∷ xs) = place x (sort_by xs)

  place-perm : (a : A) (xs : List A) → Perm (place a xs) (a ∷ xs)
  unfolding place
  place-perm a [] = Perm.refl (a ∷ [])
  place-perm a (x ∷ xs) = elim (Bool-cases (before a x)) [
    | inl e ↦ rw e (Perm.refl (a ∷ x ∷ xs))
    | inr e ↦ rw e (Perm.trans (Perm.cons x (place-perm a xs)) (Perm.swap a x xs))
  ]

  -- Sorting loses and invents no element.
  pub sort_by-perm : (xs : List A) → Perm (sort_by xs) xs
  unfolding sort_by
  sort_by-perm [] = Perm.refl []
  sort_by-perm (x ∷ xs) = Perm.trans (place-perm x (sort_by xs)) (Perm.cons x (sort_by-perm xs))

  place-All {κ} : (P : A → Type κ) (a : A) (xs : List A) → P a → All P xs → All P (place a xs)
  unfolding place
  place-All P a [] h k = (h, tt)
  place-All P a (x ∷ xs) h k = elim (Bool-cases (before a x)) [
    | inl e ↦ rw e (h, k)
    | inr e ↦ rw e (k.0, place-All P a xs h k.1)
  ]

  pub sort_by-All {κ} : (P : A → Type κ) (xs : List A) → All P xs → All P (sort_by xs)
  unfolding sort_by
  sort_by-All P [] h = tt
  sort_by-All P (x ∷ xs) h = place-All P x (sort_by xs) h.0 (sort_by-All P xs h.1)

  place-count :
      (q : A → Bool) (a : A) (xs : List A)
      → count_where q (place a xs) ≡ (if q a then 1 else 0) + count_where q xs
  unfolding place
  place-count q a [] = omega arith
  place-count q a (x ∷ xs) = ground (arith, place-count q a xs)

  pub sort_by-count : (q : A → Bool) (xs : List A) → count_where q (sort_by xs) ≡ count_where q xs
  unfolding sort_by
  sort_by-count q [] = refl
  sort_by-count q (x ∷ xs) = omega (arith, place-count q x (sort_by xs), sort_by-count q xs)
