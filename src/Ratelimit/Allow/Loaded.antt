-- ===== src/Ratelimit/Allow/Loaded.antt =====
-- The rows that `Allow` of server/internal/ratelimit/ratelimit.go reads.
use slate_do.Prelude.{
  ℕ, ◌≡◌, refl, sym, ◌∙◌, ap, String, Bool, true, false, ◌||◌, List, [], ◌∷◌, map, ◌++◌, any,
  count_where, All, All-append, string_eq, Bool-cases, inl, inr, arith,
}
use slate_do.Prelude.Counting.{count-append, All-imp}
use slate_do.Ratelimit.Window.{active_times}
use slate_do.Ratelimit.Keys.{Key, same_key}
use slate_do.Ratelimit.Tables.{Row, is_row, ensure_row, times_at, locked_state}
use slate_do.Ratelimit.Tables.Times.{same_slot, is_row-of_same, times_at-ensure_row, any-ensure_row}
use slate_do.Ratelimit.Tables.Expired.{IsUnique, ExpiresLast}
use slate_do.Ratelimit.Allow.{KeyState, load_states}

any-kept :
    (p : Row → Bool) (rows : List Row) (r : Row) → any p rows ≡ true → any p (rows ++ r ∷ []) ≡ true
any-kept p [] r h = cc h
any-kept p (s ∷ rows) r h = ground (arith, any-kept p rows r)

any-ensure_row_kept :
    (k : Key) (c : String) (key : Key) (route_class : String) (now : ℕ) (rows : List Row)
    → any (is_row k c) rows ≡ true
    → any (is_row k c) (ensure_row key route_class now rows) ≡ true
unfolding ensure_row
any-ensure_row_kept k c key route_class now rows h =
    elim (Bool-cases (any (is_row key route_class) rows)) [
      | inl e ↦ rw e h
      | inr e ↦ rw e (any-kept (is_row k c) rows _ h)
    ]

absent :
    (p q : Row → Bool) (rows : List Row)
    → any q rows ≡ false
    → ((r : Row) → p r ≡ q r)
    → count_where p rows ≡ 0
absent p q [] h same = refl
absent p q (r ∷ rows) h same = ground (arith, same r, absent p q rows)

pub ensure_row-IsUnique :
    (key : Key) (route_class : String) (now : ℕ) (rows : List Row)
    → IsUnique rows
    → IsUnique (ensure_row key route_class now rows)
unfolding ensure_row
ensure_row-IsUnique key route_class now rows one k c =
    elim (Bool-cases (any (is_row key route_class) rows)) [
      | inl e ↦ rw e (one k c)
      | inr e ↦
          rw (e, count-append (is_row k c) rows)
            (elim (Bool-cases (same_slot key route_class k c)) [
              | inl same ↦ ground (
                arith,
                absent (is_row k c) (is_row key route_class) rows e
                    (λ r. sym (is_row-of_same key route_class k c r same)),
              )
              | inr other ↦ ground (arith, one k c, other)
            ])
    ]

pub ensure_row-ExpiresLast :
    (key : Key) (route_class : String) (now : ℕ) (rows : List Row)
    → All ExpiresLast rows
    → All ExpiresLast (ensure_row key route_class now rows)
unfolding ensure_row
ensure_row-ExpiresLast key route_class now rows last =
    elim (Bool-cases (any (is_row key route_class) rows)) [
      | inl e ↦ rw e last
      | inr e ↦ rw e (All-append ExpiresLast rows _ last (tt, tt))
    ]

-- What the loop over the keys has read: it puts in the missing rows, and changes no time.
pub record Loaded (keys : List Key) (c : String) (now : ℕ) (rows all : List Row)
    (states : List KeyState) : Type 0 where
  pub same : (k : Key) (d : String) → times_at k d all ≡ times_at k d rows
  pub there : All (λ s. any (is_row s.key c) all ≡ true) states
  pub active : All (λ s. s.times ≡ active_times now (times_at s.key c rows)) states
  pub named : (k : Key) → any (λ s. same_key k s.key) states ≡ any (same_key k) keys
  pub listed : map (λ s. s.key) states ≡ keys
  pub kept : (k : Key) (d : String) → any (is_row k d) rows ≡ true → any (is_row k d) all ≡ true
  pub one : IsUnique rows → IsUnique all
  pub last : All ExpiresLast rows → All ExpiresLast all

Loaded-cons :
    (key : Key) (keys : List Key) (c : String) (now : ℕ) (rows all : List Row)
    (states : List KeyState)
    → Loaded keys c now (ensure_row key c now rows) all states
    → Loaded (key ∷ keys) c now rows all (
        record { key = key; times = active_times now (times_at key c (ensure_row key c now rows)) }
        ∷ states)
Loaded-cons key keys c now rows all states rest = record {
  same = λ k d. rest.same k d ∙ put k d;
  there = (rest.kept key c (any-ensure_row key c now rows), rest.there);
  active = (
    ap (active_times now) (put key c),
    All-imp _ _ states (λ s h. h ∙ ap (active_times now) (put s.key c)) rest.active,
  );
  named = λ k. ap (λ b. same_key k key || b) (rest.named k);
  listed = ap (λ ks. key ∷ ks) rest.listed;
  kept = λ k d h. rest.kept k d (any-ensure_row_kept k d key c now rows h);
  one = λ h. rest.one (ensure_row-IsUnique key c now rows h);
  last = λ h. rest.last (ensure_row-ExpiresLast key c now rows h);
}
  where
    put : (k : Key) (d : String) → times_at k d (ensure_row key c now rows) ≡ times_at k d rows
    put k d = times_at-ensure_row k d key c now rows

pub load_states-Loaded :
    (keys : List Key) (c : String) (now : ℕ) (rows : List Row)
    → Loaded keys c now rows (load_states keys c now rows).0 (load_states keys c now rows).1
unfolding load_states locked_state
load_states-Loaded [] c now rows = record {
  same = λ k d. refl;
  there = tt;
  active = tt;
  named = λ k. refl;
  listed = refl;
  kept = λ k d h. h;
  one = λ h. h;
  last = λ h. h;
}
load_states-Loaded (key ∷ keys) c now rows =
    Loaded-cons key keys c now rows _ _ (load_states-Loaded keys c now (ensure_row key c now rows))
