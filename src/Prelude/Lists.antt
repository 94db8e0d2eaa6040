-- ===== src/Prelude/Lists.antt =====
-- Lists measured and indexed by native numbers, Boolean filters and updates by a test.
use Prim.Native.Nat.{ℕ, zero, suc, ◌+◌}
use mathlib.Core.Path.{◌≡◌, refl, subst}
use mathlib.Core.Logic.{inl, inr}
use mathlib.Core.Bool.{Bool, true, false, not, ◌||◌}
use mathlib.Core.List.{List, [], ◌∷◌, ◌++◌}
use mathlib.Core.Option.{Option, none, some}
use native.Mathlib.Omega.{arith}
use slate_do.Prelude.Tests.{if◌then◌else◌, Bool-cases}

module _ {ℓ} {A : Type ℓ} where
  abbrev pub length : List A → ℕ
  length [] = 0
  length (x ∷ xs) = suc (length xs)

  abbrev pub take : ℕ → List A → List A
  take zero xs = []
  take (suc n) [] = []
  take (suc n) (x ∷ xs) = x ∷ take n xs

  abbrev pub drop : ℕ → List A → List A
  drop zero xs = xs
  drop (suc n) [] = []
  drop (suc n) (x ∷ xs) = drop n xs

  pub length-append : (xs ys : List A) → length (xs ++ ys) ≡ length xs + length ys
  length-append [] ys = omega arith
  length-append (x ∷ xs) ys = omega (arith, length-append xs ys)

  -- The first element that passes a test.
  abbrev pub find : (A → Bool) → List A → Option A
  find p [] = none
  find p (x ∷ xs) = if p x then some x else find p xs

  -- Those that pass a test, in order.
  abbrev pub keep : (A → Bool) → List A → List A
  keep p [] = []
  keep p (x ∷ xs) = let rest = keep p xs in if p x then x ∷ rest else rest

  abbrev pub any : (A → Bool) → List A → Bool
  any p [] = false
  any p (x ∷ xs) = p x || any p xs

  -- `UPDATE ... SET f WHERE p`.
  abbrev pub update_where : (A → Bool) → (A → A) → List A → List A
  update_where p f [] = []
  update_where p f (x ∷ xs) = (if p x then f x else x) ∷ update_where p f xs

  -- `SELECT count(*) WHERE p`.
  abbrev pub count_where : (A → Bool) → List A → ℕ
  count_where p [] = 0
  count_where p (x ∷ xs) = (if p x then 1 else 0) + count_where p xs

  -- `SELECT sum(w) WHERE p`.
  abbrev pub sum_where : (A → Bool) → (A → ℕ) → List A → ℕ
  sum_where p w [] = 0
  sum_where p w (x ∷ xs) = (if p x then w x else 0) + sum_where p w xs

  abbrev pub All {κ} : (A → Type κ) → List A → Type κ
  All P [] = Unit
  All P (x ∷ xs) = P x × All P xs

module _ {ℓ κ} {A : Type ℓ} (P : A → Type κ) where
  pub All-append : (xs ys : List A) → All P xs → All P ys → All P (xs ++ ys)
  All-append [] ys h k = k
  All-append (x ∷ xs) ys h k = (h.0, All-append xs ys h.1 k)

  pub All-update_where :
      (p : A → Bool) (f : A → A) (xs : List A)
      → ((x : A) → p x ≡ true → P x → P (f x))
      → All P xs
      → All P (update_where p f xs)
  All-update_where p f [] keeps h = tt
  All-update_where p f (x ∷ xs) keeps h = elim (Bool-cases (p x)) [
    | inl e ↦ rw e (keeps x e h.0, All-update_where p f xs keeps h.1)
    | inr e ↦ rw e (h.0, All-update_where p f xs keeps h.1)
  ]

  pub All-keep : (p : A → Bool) (xs : List A) → All P xs → All P (keep p xs)
  All-keep p [] h = tt
  All-keep p (x ∷ xs) h = elim (Bool-cases (p x)) [
    | inl e ↦ rw e (h.0, All-keep p xs h.1)
    | inr e ↦ rw e (All-keep p xs h.1)
  ]

  -- What `find` returns has what all elements have.
  pub All-find : (p : A → Bool) (xs : List A) (x : A) → All P xs → find p xs ≡ some x → P x
  All-find p [] x h e = cc
  All-find p (y ∷ xs) x h e = elim (Bool-cases (p y)) [
    | inl t ↦ let same : y ≡ x = ground arith in subst P same h.0
    | inr t ↦ All-find p xs x h.1 (rw t at e)
  ]

module _ {ℓ} {A : Type ℓ} where
  -- What `find` returns passes the test.
  pub find-test : (p : A → Bool) (xs : List A) (x : A) → find p xs ≡ some x → p x ≡ true
  find-test p [] x e = cc
  find-test p (y ∷ xs) x e = ground (arith, find-test p xs x)

  pub length-update_where :
      (p : A → Bool) (f : A → A) (xs : List A) → length (update_where p f xs) ≡ length xs
  length-update_where p f [] = refl
  length-update_where p f (x ∷ xs) = omega (arith, length-update_where p f xs)

  -- An update that leaves the measured rows' weight alone leaves the sum alone.
  pub sum_where-update_where :
      (q p : A → Bool) (w : A → ℕ) (f : A → A) (xs : List A)
      → ((x : A) → p x ≡ true → (q (f x) ≡ q x) × (w (f x) ≡ w x))
      → sum_where q w (update_where p f xs) ≡ sum_where q w xs
  sum_where-update_where q p w f [] same = refl
  sum_where-update_where q p w f (x ∷ xs) same =
      ground (arith, same x, sum_where-update_where q p w f xs same)

  pub count_where-eq-sum_where :
      (p : A → Bool) (xs : List A) → count_where p xs ≡ sum_where p (λ _. 1) xs
  count_where-eq-sum_where p [] = refl
  count_where-eq-sum_where p (x ∷ xs) = omega (arith, count_where-eq-sum_where p xs)

  pub sum_where-append :
      (p : A → Bool) (w : A → ℕ) (xs ys : List A)
      → sum_where p w (xs ++ ys) ≡ sum_where p w xs + sum_where p w ys
  sum_where-append p w [] ys = omega arith
  sum_where-append p w (x ∷ xs) ys = omega (arith, sum_where-append p w xs ys)

  -- A sum splits into the rows that a test keeps and the rows that it drops.
  pub sum_where-split :
      (p q : A → Bool) (w : A → ℕ) (xs : List A)
      → sum_where p w xs ≡ sum_where p w (keep q xs) + sum_where p w (keep (λ x. not (q x)) xs)
  sum_where-split p q w [] = refl
  sum_where-split p q w (x ∷ xs) = ground (arith, sum_where-split p q w xs)
