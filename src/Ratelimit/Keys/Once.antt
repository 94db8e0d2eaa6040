-- ===== src/Ratelimit/Keys/Once.antt =====
-- The keys that a request of server/internal/ratelimit/ratelimit.go is counted at.
use slate_do.Prelude.{
  ◌≤◌, ◌≡◌, ◌≢◌, ◌⊎◌, refl, subst, ◌∙◌, ap, String, Bool, ◌&&◌, ◌==◌, text_refl, All, true, false,
  ◌||◌, List, [], ◌∷◌, map, keep, any, count_where, string_eq, text_iff, if◌then◌else◌, Bool-cases,
  inl, inr, arith,
}
use slate_do.Prelude.Counting.{count-of_any}
use slate_do.Prelude.Sort.{sort_by-count}
use slate_do.Prelude.Keyed.{All-members}
use slate_do.Ratelimit.Keys.{Key, same_key, usable, hashed, unique, key_before, normalized_keys}

pub same_key-eq : (j k : Key) → same_key j k ≡ true → j ≡ k
same_key-eq j k h = ground (arith, h, text_iff j.scope k.scope, text_iff j.value k.value)

same_key_trans : (i j k : Key) → same_key i j ≡ true → same_key i k ≡ same_key j k
same_key_trans i j k h =
    let scope = (text_iff i.scope j.scope).0 (ground (arith, h)) in
    let value = (text_iff i.value j.value).0 (ground (arith, h)) in cc (scope, value)

any-same :
    (i j : Key) (keys : List Key)
    → same_key i j ≡ true
    → any (same_key i) keys ≡ any (same_key j) keys
any-same i j [] h = refl
any-same i j (k ∷ keys) h = rw (same_key_trans i j k h, any-same i j keys h) refl

any-of_count :
    (k : Key) (keys : List Key) → any (same_key k) keys ≡ false → count_where (same_key k) keys ≡ 0
any-of_count k [] h = refl
any-of_count k (j ∷ keys) h = ground (arith, any-of_count k keys)

unique-once : (k : Key) (keys : List Key) → count_where (same_key k) (unique keys) ≤ 1
unfolding unique
unique-once k [] = omega arith
unique-once k (j ∷ keys) = elim (Bool-cases (any (same_key j) (unique keys))) [
  | inl there ↦ rw there (unique-once k keys)
  | inr absent ↦ elim (Bool-cases (same_key k j)) [
    | inl same ↦ rw absent (
        ground
          (arith, same, any-of_count k (unique keys) (any-same k j (unique keys) same ∙ absent)))
    | inr other ↦ rw absent (ground (arith, other, unique-once k keys))
  ]
]

unique-any : (k : Key) (keys : List Key) → any (same_key k) (unique keys) ≡ any (same_key k) keys
unfolding unique
unique-any k [] = refl
unique-any k (j ∷ keys) = elim (Bool-cases (any (same_key j) (unique keys))) [
  | inl there ↦ elim (Bool-cases (same_key k j)) [
    | inl same ↦ rw (there, same) (any-same k j (unique keys) same ∙ there)
    | inr other ↦ rw (there, other) (unique-any k keys)
  ]
  | inr absent ↦ rw absent (ap (λ b. same_key k j || b) (unique-any k keys))
]

count-any :
    (k : Key) (keys : List Key) → any (same_key k) keys ≡ true → 1 ≤ count_where (same_key k) keys
count-any k keys h = count-of_any (same_key k) keys h

normalized_keys-count :
    (hash_key : String → String → String) (keys : List Key) (k : Key)
    → count_where (same_key k) (normalized_keys hash_key keys)
      ≡ (if any (same_key k) (map (hashed hash_key) (keep usable keys)) then 1 else 0)
unfolding normalized_keys
normalized_keys-count hash_key keys k =
    let named = map (hashed hash_key) (keep usable keys) in
    sort_by-count key_before (same_key k) (unique named)
    ∙ elim (Bool-cases (any (same_key k) named)) [
      | inl there ↦ rw there (
          ground
            (arith, unique-once k named, count-any k (unique named) (unique-any k named ∙ there)))
      | inr absent ↦ rw absent (any-of_count k (unique named) (unique-any k named ∙ absent))
    ]

-- A key that counts: it has a value, and its scope is one of the three.
abbrev pub IsNamed : Key → Type 0
IsNamed j = (j.value ≢ "") × ((j.scope ≡ "account") ⊎ (j.scope ≡ "credential") ⊎ (j.scope ≡ "ip"))

usable-of_IsNamed : (j : Key) → IsNamed j → usable j ≡ true
usable-of_IsNamed j (value, inl e) =
    ground (arith, value, text_iff j.value "", text_iff j.scope "account", e)
usable-of_IsNamed j (value, inr (inl e)) =
    ground (arith, value, text_iff j.value "", text_iff j.scope "credential", e)
usable-of_IsNamed j (value, inr (inr e)) =
    ground (arith, value, text_iff j.value "", text_iff j.scope "ip", e)

IsNamed-usable : (j : Key) → usable j ≡ true → IsNamed j
IsNamed-usable j h = (
  λ blank. ground (arith, h, blank, text_iff j.value ""),
  elim (Bool-cases (j.scope == "account")) [
    | inl a ↦ inl ((text_iff j.scope "account").0 a)
    | inr a ↦ elim (Bool-cases (j.scope == "credential")) [
      | inl c ↦ inr (inl ((text_iff j.scope "credential").0 c))
      | inr c ↦ inr (inr ((text_iff j.scope "ip").0 (ground (arith, h, a, c))))
    ]
  ],
)

-- The keys of a request that are counted: each that it names, hashed, once, and no other.
pub record Normalized (hash_key : String → String → String) (keys counted : List Key) : Type 0 where
  pub each_named :
      All
        (λ j.
          IsNamed j
          → count_where
              (same_key (record { scope = j.scope; value = hash_key j.scope j.value }))
              counted
            ≡ 1)
        keys
  pub no_other :
      (k : Key)
      → 1 ≤ count_where (same_key k) counted
      → (j : Key) × (1 ≤ count_where (same_key j) keys)
        × IsNamed j
        × (k.scope ≡ j.scope)
        × (k.value ≡ hash_key j.scope j.value)
  pub once : (k : Key) → count_where (same_key k) counted ≤ 1

any-named :
    (hash_key : String → String → String) (j : Key) (keys : List Key)
    → 1 ≤ count_where (same_key j) keys
    → usable j ≡ true
    → any (same_key (hashed hash_key j)) (map (hashed hash_key) (keep usable keys)) ≡ true
any-named hash_key j [] h named = absurd (omega (arith, h))
any-named hash_key j (i ∷ keys) h named = elim (Bool-cases (same_key j i)) [
  | inl same ↦
      let e = same_key-eq j i same in
      let u : usable i ≡ true = subst (λ x. usable x ≡ true) e named in
      let hit : same_key (hashed hash_key j) (hashed hash_key i) ≡ true =
        subst (λ x. same_key (hashed hash_key j) (hashed hash_key x) ≡ true) e
          (ground (arith, text_refl j.scope, text_refl (hash_key j.scope j.value))) in
      rw (u, hit) refl
  | inr other ↦
      let rest = any-named hash_key j keys (ground (arith, h, other)) named in
      elim (Bool-cases (usable i)) [
        | inl u ↦ rw (u, rest) (or_true (same_key (hashed hash_key j) (hashed hash_key i)))
        | inr u ↦ rw u rest
      ]
]
  where
    or_true : (b : Bool) → (b || true) ≡ true
    or_true true = refl
    or_true false = refl

IsNamed-of_any :
    (hash_key : String → String → String) (k : Key) (keys : List Key)
    → any (same_key k) (map (hashed hash_key) (keep usable keys)) ≡ true
    → (j : Key) × (1 ≤ count_where (same_key j) keys)
      × IsNamed j
      × (k.scope ≡ j.scope)
      × (k.value ≡ hash_key j.scope j.value)
IsNamed-of_any hash_key k [] h = cc h
IsNamed-of_any hash_key k (i ∷ keys) h =
    elim (Bool-cases (usable i && same_key k (hashed hash_key i))) [
      | inl hit ↦ (
        i,
        ground (arith, text_refl i.scope, text_refl i.value),
        IsNamed-usable i (ground (arith, hit)),
        (text_iff k.scope i.scope).0 (ground (arith, hit)),
        (text_iff k.value (hash_key i.scope i.value)).0 (ground (arith, hit)),
      )
      | inr miss ↦
          let (j, one, named, scope, value) =
            IsNamed-of_any hash_key k keys (later miss (Bool-cases (usable i))) in
          (j, ground (arith, one), named, scope, value)
    ]
  where
    left : {b : Bool} (c : Bool) → c ≡ false → (c || b) ≡ true → b ≡ true
    left true off on = cc off
    left false off on = on

    later :
        (usable i && same_key k (hashed hash_key i)) ≡ false
        → ((usable i ≡ true) ⊎ (usable i ≡ false))
        → any (same_key k) (map (hashed hash_key) (keep usable keys)) ≡ true
    later miss (inl u) = left (same_key k (hashed hash_key i)) (rw u at miss) (rw u at h)
    later miss (inr u) = rw u at h

-- A request is counted at each key that it names with a value and one of the three scopes, at the
-- hash of the value: once, however often and in whatever order it names them, and at no other.
pub normalized_keys-once :
    (hash_key : String → String → String) (keys : List Key)
    → Normalized hash_key keys (normalized_keys hash_key keys)
normalized_keys-once hash_key keys = record {
  each_named =
      All-members _ same_key keys (λ j. ground (arith, text_refl j.scope, text_refl j.value))
        (λ j one named.
          normalized_keys-count hash_key keys (hashed hash_key j)
          ∙ rw (any-named hash_key j keys one (usable-of_IsNamed j named)) refl);
  no_other = λ k one. IsNamed-of_any hash_key k keys (
      any-of_one (any (same_key k) (map (hashed hash_key) (keep usable keys)))
        (subst (λ n. 1 ≤ n) (normalized_keys-count hash_key keys k) one));
  once = λ k. ground (arith, normalized_keys-count hash_key keys k);
}
  where
    any-of_one : (b : Bool) → 1 ≤ (if b then 1 else 0) → b ≡ true
    any-of_one true h = refl
    any-of_one false h = absurd (omega (arith, h))
