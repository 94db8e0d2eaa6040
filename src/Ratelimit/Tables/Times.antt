-- ===== src/Ratelimit/Tables/Times.antt =====
-- The times that a row holds after the statements of server/internal/ratelimit/ratelimit.go on
-- the limiter's rows.
use slate_do.Prelude.{
  ℕ, ◌+◌, ◌≡◌, refl, ◌∙◌, ap, String, Bool, true, false, ◌&&◌, ◌||◌, List, [], ◌∷◌, ◌++◌, any,
  count_where, update_where, ◌==◌, string_eq, text_iff, text_refl, if◌then◌else◌, Bool-cases, inl,
  inr, arith,
}
use slate_do.Ratelimit.Keys.{Key, same_key}
use slate_do.Ratelimit.Tables.{Row, is_row, ensure_row, times_at}

-- Two pairs of a key and a class name one row.
abbrev pub same_slot : Key → String → Key → String → Bool
same_slot k c key route_class = same_key k key && c == route_class

pub is_row-same :
    (k : Key) (c : String) (key : Key) (route_class : String) (r : Row)
    → is_row k c r ≡ true
    → is_row key route_class r ≡ true
    → same_slot k c key route_class ≡ true
is_row-same k c key route_class r h g = ground (
  arith,
  h,
  g,
  text_iff r.scope k.scope,
  text_iff r.scope key.scope,
  text_iff k.scope key.scope,
  text_iff r.key_hash k.value,
  text_iff r.key_hash key.value,
  text_iff k.value key.value,
  text_iff r.route_class c,
  text_iff r.route_class route_class,
  text_iff c route_class,
)

pub is_row-of_same :
    (k : Key) (c : String) (key : Key) (route_class : String) (r : Row)
    → same_slot k c key route_class ≡ true
    → is_row k c r ≡ is_row key route_class r
is_row-of_same k c key route_class r h =
    let scope : k.scope ≡ key.scope = (text_iff k.scope key.scope).0 (ground (arith, h)) in
    let value : k.value ≡ key.value = (text_iff k.value key.value).0 (ground (arith, h)) in
    let class : c ≡ route_class = (text_iff c route_class).0 (ground (arith, h)) in
    cc (scope, value, class)

-- The first row that fits is the one that is read.
pub times_at-cons :
    (k : Key) (c : String) (r : Row) (rows : List Row)
    → times_at k c (r ∷ rows) ≡ (if is_row k c r then r.request_times else times_at k c rows)
unfolding times_at
times_at-cons k c r rows = ground arith

times_at-append :
    (k : Key) (c : String) (rows : List Row) (r : Row)
    → r.request_times ≡ []
    → times_at k c (rows ++ r ∷ []) ≡ times_at k c rows
unfolding times_at
times_at-append k c [] r h = ground (arith, h)
times_at-append k c (s ∷ rows) r h = ground (arith, times_at-append k c rows r h)

-- A row that is put where there was none holds no times.
pub times_at-ensure_row :
    (k : Key) (c : String) (key : Key) (route_class : String) (now : ℕ) (rows : List Row)
    → times_at k c (ensure_row key route_class now rows) ≡ times_at k c rows
unfolding ensure_row
times_at-ensure_row k c key route_class now rows =
    elim (Bool-cases (any (is_row key route_class) rows)) [
      | inl e ↦ rw e
      | inr e ↦ rw e (times_at-append k c rows _ refl)
    ]

any-last : (p : Row → Bool) (rows : List Row) (r : Row) → p r ≡ true → any p (rows ++ r ∷ []) ≡ true
any-last p [] r h = rw h
any-last p (s ∷ rows) r h = ground (arith, any-last p rows r h)

pub any-ensure_row :
    (key : Key) (route_class : String) (now : ℕ) (rows : List Row)
    → any (is_row key route_class) (ensure_row key route_class now rows) ≡ true
unfolding ensure_row
any-ensure_row key route_class now rows = elim (Bool-cases (any (is_row key route_class) rows)) [
  | inl e ↦ rw e e
  | inr e ↦ rw e (
      any-last (is_row key route_class) rows _
        (ground (arith, text_refl key.scope, text_refl key.value, text_refl route_class)))
]

module _ (key : Key) (route_class : String) (times : List ℕ) (expires : Row → ℕ) (now : ℕ) where
  -- What an UPDATE makes of a row.
  abbrev pub rewritten : Row → Row
  rewritten r = record r { request_times = times; expires_at = expires r; updated_at = now }

  times_at-other :
      (k : Key) (c : String) (rows : List Row)
      → same_slot k c key route_class ≡ false
      → times_at k c (update_where (is_row key route_class) rewritten rows) ≡ times_at k c rows
  times_at-other k c [] h = refl
  times_at-other k c (r ∷ rows) h = elim (Bool-cases (is_row k c r)) [
    | inl e ↦ elim (Bool-cases (is_row key route_class r)) [
      | inl f ↦ cc (h, is_row-same k c key route_class r e f)
      | inr f ↦ rw (f, times_at-cons k c, times_at-cons k c r rows, e)
    ]
    | inr e ↦ elim (Bool-cases (is_row key route_class r)) [
      | inl f ↦ rw (f, times_at-cons k c, times_at-cons k c r rows, e) (times_at-other k c rows h)
      | inr f ↦ rw (f, times_at-cons k c, times_at-cons k c r rows, e) (times_at-other k c rows h)
    ]
  ]

  times_at-own :
      (k : Key) (c : String) (rows : List Row)
      → same_slot k c key route_class ≡ true
      → any (is_row key route_class) rows ≡ true
      → times_at k c (update_where (is_row key route_class) rewritten rows) ≡ times
  times_at-own k c [] h there = cc there
  times_at-own k c (r ∷ rows) h there = elim (Bool-cases (is_row key route_class r)) [
    | inl f ↦
        let e : is_row k c r ≡ true = is_row-of_same k c key route_class r h ∙ f in
        rw (f, times_at-cons k c, e)
    | inr f ↦
        let e : is_row k c r ≡ false = is_row-of_same k c key route_class r h ∙ f in
        rw (f, times_at-cons k c, e) (times_at-own k c rows h (rw f at there))
  ]

  -- An UPDATE of a row that is there changes the times of that row, and of no other.
  pub times_at-update :
      (k : Key) (c : String) (rows : List Row)
      → any (is_row key route_class) rows ≡ true
      → times_at k c (update_where (is_row key route_class) rewritten rows)
        ≡ (if same_slot k c key route_class then times else times_at k c rows)
  times_at-update k c rows there = elim (Bool-cases (same_slot k c key route_class)) [
    | inl h ↦ rw h (times_at-own k c rows h there)
    | inr h ↦ rw h (times_at-other k c rows h)
  ]

  -- It moves no row.
  pub any-update :
      (k : Key) (c : String) (rows : List Row)
      → any (is_row k c) (update_where (is_row key route_class) rewritten rows)
        ≡ any (is_row k c) rows
  any-update k c [] = refl
  any-update k c (r ∷ rows) = elim (Bool-cases (is_row key route_class r)) [
    | inl f ↦ rw f (ap (λ b. is_row k c r || b) (any-update k c rows))
    | inr f ↦ rw f (ap (λ b. is_row k c r || b) (any-update k c rows))
  ]

  pub count-update :
      (k : Key) (c : String) (rows : List Row)
      → count_where (is_row k c) (update_where (is_row key route_class) rewritten rows)
        ≡ count_where (is_row k c) rows
  count-update k c [] = refl
  count-update k c (r ∷ rows) = elim (Bool-cases (is_row key route_class r)) [
    | inl f ↦ rw f (ap (λ n. (if is_row k c r then 1 else 0) + n) (count-update k c rows))
    | inr f ↦ rw f (ap (λ n. (if is_row k c r then 1 else 0) + n) (count-update k c rows))
  ]
