-- ===== src/Prelude/Counting.antt =====
-- Counts of the rows that pass a test, under updates and deletions.
use Prim.Native.Nat.{◌+◌, ◌≤◌}
use mathlib.Core.Path.{◌≡◌, refl}
use mathlib.Core.Logic.{inl, inr}
use mathlib.Core.Bool.{Bool, true, false, ◌&&◌}
use mathlib.Core.List.{List, [], ◌∷◌, ◌++◌}
use mathlib.Core.Option.{none, some}
use native.Mathlib.Omega.{arith}
use slate_do.Prelude.Tests.{Bool-cases}
use slate_do.Prelude.Equality.{string_eq}
use slate_do.Prelude.Lists.{All, count_where, update_where, keep, find, any}

module _ {ℓ} {A : Type ℓ} where
  pub All-everywhere {κ} : (P : A → Type κ) (xs : List A) → ((x : A) → P x) → All P xs
  All-everywhere P [] h = tt
  All-everywhere P (x ∷ xs) h = (h x, All-everywhere P xs h)

  pub All-imp {κ μ} :
      (P : A → Type κ) (Q : A → Type μ) (xs : List A) → ((x : A) → P x → Q x) → All P xs → All Q xs
  All-imp P Q [] f h = tt
  All-imp P Q (x ∷ xs) f h = (f x h.0, All-imp P Q xs f h.1)

  pub All-updated {κ} :
      (P : A → Type κ) (p : A → Bool) (f : A → A) (xs : List A)
      → ((x : A) → p x ≡ true → P (f x))
      → ((x : A) → p x ≡ false → P x)
      → All P (update_where p f xs)
  All-updated P p f [] h k = tt
  All-updated P p f (x ∷ xs) h k = elim (Bool-cases (p x)) [
    | inl e ↦ rw e (h x e, All-updated P p f xs h k)
    | inr e ↦ rw e (k x e, All-updated P p f xs h k)
  ]

  pub count-implies-le :
      (q p : A → Bool) (xs : List A)
      → ((x : A) → q x ≡ true → p x ≡ true)
      → count_where q xs ≤ count_where p xs
  count-implies-le q p [] h = omega arith
  count-implies-le q p (x ∷ xs) h = ground (arith, h x, count-implies-le q p xs h)

  -- An update that marks no row anew does not raise the count.
  pub count-update-le :
      (q p : A → Bool) (f : A → A) (xs : List A)
      → All (λ x. p x ≡ true → q (f x) ≡ true → q x ≡ true) xs
      → count_where q (update_where p f xs) ≤ count_where q xs
  count-update-le q p f [] h = omega arith
  count-update-le q p f (x ∷ xs) h = ground (arith, h.0, count-update-le q p f xs h.1)

  -- Where only the updated rows can be marked after it, their number bounds the count.
  pub count-update-among :
      (q p : A → Bool) (f : A → A) (xs : List A)
      → All (λ x. p x ≡ false → q x ≡ false) xs
      → count_where q (update_where p f xs) ≤ count_where p xs
  count-update-among q p f [] h = omega arith
  count-update-among q p f (x ∷ xs) h = ground (arith, h.0, count-update-among q p f xs h.1)

  pub count-update-ge :
      (q p : A → Bool) (f : A → A) (xs : List A)
      → All (λ x. p x ≡ true → q x ≡ true → q (f x) ≡ true) xs
      → count_where q xs ≤ count_where q (update_where p f xs)
  count-update-ge q p f [] h = omega arith
  count-update-ge q p f (x ∷ xs) h = ground (arith, h.0, count-update-ge q p f xs h.1)

  -- Rows that pass `r` pass `q` after the update.
  pub count-update-from :
      (r q p : A → Bool) (f : A → A) (xs : List A)
      → ((x : A) → r x ≡ true → p x ≡ true → q (f x) ≡ true)
      → ((x : A) → r x ≡ true → p x ≡ false → q x ≡ true)
      → count_where r xs ≤ count_where q (update_where p f xs)
  count-update-from r q p f [] h k = omega arith
  count-update-from r q p f (x ∷ xs) h k =
      ground (arith, h x, k x, count-update-from r q p f xs h k)

  pub count-of_any : (q : A → Bool) (xs : List A) → any q xs ≡ true → 1 ≤ count_where q xs
  count-of_any q [] h = cc
  count-of_any q (x ∷ xs) h = ground (arith, count-of_any q xs)

  pub count-update-marks :
      (q p : A → Bool) (f : A → A) (xs : List A)
      → All (λ x. p x ≡ true → q (f x) ≡ true) xs
      → count_where p xs ≤ count_where q (update_where p f xs)
  count-update-marks q p f [] h = omega arith
  count-update-marks q p f (x ∷ xs) h = ground (arith, h.0, count-update-marks q p f xs h.1)

  -- Two tests with the same count, one within the other, agree.
  pub All-of_count_le :
      (r p : A → Bool) (xs : List A)
      → ((x : A) → r x ≡ true → p x ≡ true)
      → count_where p xs ≤ count_where r xs
      → All (λ x. p x ≡ true → r x ≡ true) xs
  All-of_count_le r p [] h le = tt
  All-of_count_le r p (x ∷ xs) h le = (
    λ e. ground (arith, e, count-implies-le r p xs h),
    All-of_count_le r p xs h (ground (arith, h x, count-implies-le r p xs h)),
  )

  -- An update that does not change a test does not change its count.
  pub count-update-same :
      (q p : A → Bool) (f : A → A) (xs : List A)
      → ((x : A) → p x ≡ true → q (f x) ≡ q x)
      → count_where q (update_where p f xs) ≡ count_where q xs
  count-update-same q p f [] h = refl
  count-update-same q p f (x ∷ xs) h = ground (arith, h x, count-update-same q p f xs h)

  pub count-update-same-All :
      (q p : A → Bool) (f : A → A) (xs : List A)
      → All (λ x. p x ≡ true → q (f x) ≡ q x) xs
      → count_where q (update_where p f xs) ≡ count_where q xs
  count-update-same-All q p f [] h = refl
  count-update-same-All q p f (x ∷ xs) h = ground (arith, h.0, count-update-same-All q p f xs h.1)

  pub count-update-zero :
      (q p : A → Bool) (f : A → A) (xs : List A)
      → ((x : A) → p x ≡ true → q (f x) ≡ false)
      → ((x : A) → p x ≡ false → q x ≡ false)
      → count_where q (update_where p f xs) ≡ 0
  count-update-zero q p f [] h k = refl
  count-update-zero q p f (x ∷ xs) h k = ground (arith, h x, k x, count-update-zero q p f xs h k)

  pub count-keep-le : (q p : A → Bool) (xs : List A) → count_where q (keep p xs) ≤ count_where q xs
  count-keep-le q p [] = omega arith
  count-keep-le q p (x ∷ xs) = ground (arith, count-keep-le q p xs)

  -- Rows that pass `r` are kept and pass `q`.
  pub count-keep-from :
      (r q p : A → Bool) (xs : List A)
      → All (λ x. r x ≡ true → (p x && q x) ≡ true) xs
      → count_where r xs ≤ count_where q (keep p xs)
  count-keep-from r q p [] h = omega arith
  count-keep-from r q p (x ∷ xs) h = ground (arith, h.0, count-keep-from r q p xs h.1)

  pub count-append :
      (q : A → Bool) (xs ys : List A)
      → count_where q (xs ++ ys) ≡ count_where q xs + count_where q ys
  count-append q [] ys = omega arith
  count-append q (x ∷ xs) ys = omega (arith, count-append q xs ys)

  pub All-of_count_zero :
      (q : A → Bool) (xs : List A) → count_where q xs ≡ 0 → All (λ x. q x ≡ false) xs
  All-of_count_zero q [] h = tt
  All-of_count_zero q (x ∷ xs) h = (ground arith, All-of_count_zero q xs (ground arith))

  pub count-of_find-none : (q : A → Bool) (xs : List A) → find q xs ≡ none → count_where q xs ≡ 0
  count-of_find-none q [] h = refl
  count-of_find-none q (x ∷ xs) h = ground (arith, count-of_find-none q xs)

  pub count-of_find-some :
      (q : A → Bool) (xs : List A) (y : A) → find q xs ≡ some y → 1 ≤ count_where q xs
  count-of_find-some q [] y h = cc
  count-of_find-some q (x ∷ xs) y h = ground (arith, count-of_find-some q xs y)
