-- ===== src/Prelude/Keyed.antt =====
-- Rows with distinct keys: what a search finds, and what an update of one row changes.
use Prim.Native.Nat.{ℕ, ◌+◌, ◌*◌, ◌≤◌}
use Prim.Native.String.{String}
use mathlib.Core.Path.{◌≡◌, refl, subst, sym}
use mathlib.Core.Logic.{inl, inr}
use mathlib.Core.Bool.{Bool, true, false, ◌&&◌}
use mathlib.Core.List.{List, [], ◌∷◌, ◌++◌, map}
use mathlib.Core.Option.{none, some}
use native.Mathlib.Omega.{arith}
use slate_do.Prelude.Tests.{if◌then◌else◌, Bool-cases}
use slate_do.Prelude.Equality.{◌==◌, string_eq, text_refl}
use slate_do.Prelude.Lists.{All, sum_where, count_where, update_where, keep, find}
use slate_do.Prelude.Counting.{
  All-imp, All-of_count_le, All-of_count_zero, count-implies-le, count-of_find-some,
}

module _ {ℓ} {A : Type ℓ} where
  -- A primary key: no two rows have the same.
  abbrev pub IsKeyed : (A → String) → List A → Type 0
  IsKeyed key xs = (k : String) → count_where (λ x. key x == k) xs ≤ 1

  -- A test that names a key passes for no row but the one that it finds.
  pub IsKeyed-find :
      (key : A → String) (k : String) (q : A → Bool) (xs : List A) (y : A)
      → count_where (λ x. key x == k) xs ≤ 1
      → ((x : A) → q x ≡ true → (key x == k) ≡ true)
      → find q xs ≡ some y
      → All (λ x. (key x == k) ≡ true → x ≡ y) xs
  IsKeyed-find key k q [] y one names h = tt
  IsKeyed-find key k q (x ∷ xs) y one names h = elim (Bool-cases (key x == k)) [
    | inl e ↦ (
      λ _. first e,
      All-imp _ _ xs (λ z no yes. cc (no, yes))
          (All-of_count_zero (λ z. key z == k) xs (ground (arith, e))),
    )
    | inr e ↦ (
      λ yes. cc (e, yes),
      IsKeyed-find key k q xs y (ground (arith, e)) names (ground (arith, e, names x)),
    )
  ]
    where
      first : (key x == k) ≡ true → x ≡ y
      first e =
          ground (arith, count-of_find-some q xs y, count-implies-le q (λ z. key z == k) xs names)

  -- The rows of a selection are rows of the table.
  pub keep-counted :
      (key : A → String) (p : A → Bool) (xs : List A)
      → All (λ b. (p b ≡ true) × (1 ≤ count_where (λ x. p x && key x == key b) xs)) (keep p xs)
  keep-counted key p [] = tt
  keep-counted key p (x ∷ xs) = elim (Bool-cases (p x)) [
    | inl e ↦
        rw (e, keep)
          (
            (e, ground (arith, text_refl (key x))),
            All-imp (λ b. (p b ≡ true) × (1 ≤ count_where (λ y. p y && key y == key b) xs)) _
                (keep p xs) (λ b h. (h.0, omega (arith, h.1))) (keep-counted key p xs),
          )
    | inr e ↦
        rw (e, keep)
          (All-imp (λ b. (p b ≡ true) × (1 ≤ count_where (λ y. p y && key y == key b) xs)) _
            (keep p xs) (λ b h. (h.0, omega (arith, h.1))) (keep-counted key p xs))
  ]

  pub find-of_count :
      (q : A → Bool) (xs : List A) → 1 ≤ count_where q xs → (y : A) × (find q xs ≡ some y)
  find-of_count q [] h = absurd (omega arith)
  find-of_count q (x ∷ xs) h = elim (Bool-cases (q x)) [
    | inl e ↦ (x, rw e)
    | inr e ↦ rw e (find-of_count q xs (ground (arith, e)))
  ]

  pub find-append_none :
      (q : A → Bool) (xs : List A) (y : A)
      → find q xs ≡ none
      → q y ≡ true
      → find q (xs ++ y ∷ []) ≡ some y
  find-append_none q [] y h e = rw e
  find-append_none q (x ∷ xs) y h e = ground (arith, find-append_none q xs y)

  pub keep-same : (p q : A → Bool) (xs : List A) → ((x : A) → p x ≡ q x) → keep p xs ≡ keep q xs
  keep-same p q [] h = refl
  keep-same p q (x ∷ xs) h = rw (h x, keep-same p q xs h)

  pub count-keep-both :
      (q p : A → Bool) (xs : List A) → count_where q (keep p xs) ≡ count_where (λ x. p x && q x) xs
  count-keep-both q p [] = refl
  count-keep-both q p (x ∷ xs) = ground (arith, count-keep-both q p xs)

  pub count-map {κ} :
      {B : Type κ} (f : A → B) (q : B → Bool) (xs : List A)
      → count_where q (map f xs) ≡ count_where (λ x. q (f x)) xs
  count-map f q [] = refl
  count-map f q (x ∷ xs) = omega (arith, count-map f q xs)

  -- A map that does not change a test does not change its count.
  pub count-map-same :
      (q : A → Bool) (f : A → A) (xs : List A)
      → ((x : A) → q (f x) ≡ q x)
      → count_where q (map f xs) ≡ count_where q xs
  count-map-same q f [] h = refl
  count-map-same q f (x ∷ xs) h = ground (arith, h x, count-map-same q f xs h)

  -- What holds of every row that is the only one with its key.
  pub All-members {κ} :
      (P : A → Type κ) (q : A → A → Bool) (xs : List A)
      → ((x : A) → q x x ≡ true)
      → ((x : A) → 1 ≤ count_where (q x) xs → P x)
      → All P xs
  All-members P q [] r h = tt
  All-members P q (x ∷ xs) r h =
      (h x (ground (arith, r x)), All-members P q xs r (λ y k. h y (ground (arith, k))))

  pub count-update-zero-All :
      (q p : A → Bool) (f : A → A) (xs : List A)
      → ((x : A) → p x ≡ true → q (f x) ≡ false)
      → All (λ x. p x ≡ false → q x ≡ false) xs
      → count_where q (update_where p f xs) ≡ 0
  count-update-zero-All q p f [] h k = refl
  count-update-zero-All q p f (x ∷ xs) h k =
      ground (arith, h x, k.0, count-update-zero-All q p f xs h k.1)

  pub find-none-of_count : (q : A → Bool) (xs : List A) → count_where q xs ≡ 0 → find q xs ≡ none
  find-none-of_count q [] h = refl
  find-none-of_count q (x ∷ xs) h = ground (arith, find-none-of_count q xs)

  -- The only row of a table that can pass a test is the one that passes a narrower one.
  pub All-of_keyed :
      (key : A → String) (k : String) (r p : A → Bool) (xs : List A)
      → IsKeyed key xs
      → ((x : A) → r x ≡ true → p x ≡ true)
      → ((x : A) → p x ≡ true → (key x == k) ≡ true)
      → 1 ≤ count_where r xs
      → All (λ x. p x ≡ true → r x ≡ true) xs
  All-of_keyed key k r p xs keyed h names one =
      All-of_count_le r p xs h
        (omega (arith, one, keyed k, count-implies-le p (λ x. key x == k) xs names))

  -- An update of the one row with a key is found under the key.
  pub find-update_keyed :
      (key : A → String) (k : String) (p q : A → Bool) (f : A → A) (xs : List A) (y : A)
      → count_where (λ x. key x == k) xs ≤ 1
      → ((x : A) → p x ≡ true → (key x == k) ≡ true)
      → ((x : A) → q x ≡ true → (key x == k) ≡ true)
      → find p xs ≡ some y
      → q (f y) ≡ true
      → find q (update_where p f xs) ≡ some (f y)
  find-update_keyed key k p q f [] y one np nq found hit = cc
  find-update_keyed key k p q f (x ∷ xs) y one np nq found hit = elim (Bool-cases (p x)) [
    | inl e ↦
        let same : x ≡ y = ground (arith, e) in
        rw e (subst (λ z. find q (f z ∷ update_where p f xs) ≡ some (f y)) (sym same) (rw hit refl))
    | inr e ↦
        let tail : find p xs ≡ some y = ground (arith, e) in
        let later : 1 ≤ count_where (λ z. key z == k) xs =
          omega
            (arith, count-of_find-some p xs y tail, count-implies-le p (λ z. key z == k) xs np) in
        let no : q x ≡ false = ground (arith, nq x, later) in
        rw (e, no) (find-update_keyed key k p q f xs y (ground (arith, one)) np nq tail hit)
  ]

  -- A selection that an update neither enters nor leaves is the same after it.
  pub keep-update_out :
      (r p : A → Bool) (f : A → A) (xs : List A)
      → ((x : A) → p x ≡ true → r x ≡ false)
      → ((x : A) → p x ≡ true → r (f x) ≡ false)
      → keep r (update_where p f xs) ≡ keep r xs
  keep-update_out r p f [] h g = refl
  keep-update_out r p f (x ∷ xs) h g = elim (Bool-cases (p x)) [
    | inl e ↦ rw (e, h x e, g x e) (keep-update_out r p f xs h g)
    | inr e ↦ rw (e, keep-update_out r p f xs h g) refl
  ]

  -- Two tests that name one key find the same row.
  pub find-keyed :
      (key : A → String) (k : String) (p q : A → Bool) (xs : List A) (y : A)
      → count_where (λ x. key x == k) xs ≤ 1
      → ((x : A) → p x ≡ true → (key x == k) ≡ true)
      → ((x : A) → q x ≡ true → (key x == k) ≡ true)
      → find p xs ≡ some y
      → q y ≡ true
      → find q xs ≡ some y
  find-keyed key k p q [] y one np nq found hit = cc
  find-keyed key k p q (x ∷ xs) y one np nq found hit = elim (Bool-cases (p x)) [
    | inl e ↦
        let same : x ≡ y = ground (arith, e) in
        subst (λ z. find q (z ∷ xs) ≡ some y) (sym same) (rw hit refl)
    | inr e ↦
        let tail : find p xs ≡ some y = ground (arith, e) in
        let later : 1 ≤ count_where (λ z. key z == k) xs =
          omega
            (arith, count-of_find-some p xs y tail, count-implies-le p (λ z. key z == k) xs np) in
        let no : q x ≡ false = ground (arith, nq x, later) in
        rw no (find-keyed key k p q xs y (ground (arith, one)) np nq tail hit)
  ]

  sum-none :
      (q p : A → Bool) (w : A → ℕ) (f : A → A) (xs : List A)
      → count_where p xs ≡ 0
      → sum_where q w (update_where p f xs) ≡ sum_where q w xs
  sum-none q p w f [] h = refl
  sum-none q p w f (x ∷ xs) h = ground (arith, sum-none q p w f xs)

  -- An update of one row moves a sum by what the row counted before and counts after.
  pub sum-update-one :
      (q p : A → Bool) (w : A → ℕ) (f : A → A) (xs : List A) (y : A)
      → count_where p xs ≤ 1
      → find p xs ≡ some y
      → sum_where q w (update_where p f xs) + (if q y then w y else 0)
        ≡ sum_where q w xs + (if q (f y) then w (f y) else 0)
  sum-update-one q p w f [] y one found = cc
  sum-update-one q p w f (x ∷ xs) y one found = elim (Bool-cases (p x)) [
    | inl e ↦
        let same : x ≡ y = ground (arith, e) in
        let rest = sum-none q p w f xs (ground (arith, e, one)) in
        rw e (
          subst
            (λ z.
              (if q (f x) then w (f x) else 0)
                + sum_where q w (update_where p f xs)
                + (if q z then w z else 0)
              ≡ (if q x then w x else 0) + sum_where q w xs + (if q (f z) then w (f z) else 0))
            same (omega (arith, rest)))
    | inr e ↦ ground (arith, e, sum-update-one q p w f xs y)
  ]

  -- A weight that changes at the rows of one key moves the sum by the one row that has the key.
  pub sum-reweigh :
      (q p : A → Bool) (w w' : A → ℕ) (d : ℕ) (xs : List A)
      → ((x : A) → q x ≡ true → w' x ≡ w x + (if p x then d else 0))
      → sum_where q w' xs ≡ sum_where q w xs + count_where (λ x. q x && p x) xs * d
  sum-reweigh q p w w' d [] h = omega arith
  sum-reweigh q p w w' d (x ∷ xs) h = ground (arith, h x, sum-reweigh q p w w' d xs h)
