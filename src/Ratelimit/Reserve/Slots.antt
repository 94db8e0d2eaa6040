-- ===== src/Ratelimit/Reserve/Slots.antt =====
-- The times of a row when server/internal/ratelimit/ratelimit.go adds a slot to it or takes a
-- reservation away.
use slate_do.Prelude.{
  ℕ, ◌+◌, ◌≡◌, refl, sym, ◌∙◌, ap, subst, String, Bool, true, ◌&&◌, none, some, List, [], ◌∷◌, ◌++◌,
  find, any, count_where, ◌==◌, nat_eq, nat_beq_iff, string_eq, text_iff, if◌then◌else◌, Bool-cases,
  Option-cases, inl, inr, arith, ok, ok-injective,
}
use slate_do.Ratelimit.Window.{window, expiry}
use slate_do.Ratelimit.Keys.{Key}
use slate_do.Ratelimit.Tables.{Row, is_row, times_at, write_state, refresh_state, coalesce}
use slate_do.Ratelimit.Tables.Times.{same_slot, times_at-update}
use slate_do.Ratelimit.Keys.Once.{same_key-eq}
use slate_do.Ratelimit.Allow.Stored.{write_state-refresh}
use slate_do.Ratelimit.Reserve.{CredentialReservation, remove_last, key_of, remove_reservation}

any-last : (t : ℕ) (times : List ℕ) → any (λ v. v == t) (times ++ t ∷ []) ≡ true
any-last t [] = ground arith
any-last t (u ∷ times) = ground (arith, any-last t times)

pub remove_last-append : (t : ℕ) (times : List ℕ) → remove_last t (times ++ t ∷ []) ≡ times
unfolding remove_last
remove_last-append t [] = ground arith
remove_last-append t (u ∷ times) = rw (any-last t times, remove_last-append t times) refl

-- One of the times goes, if it is there.
pub count-remove_last :
    (p : ℕ → Bool) (t : ℕ) (times : List ℕ)
    → count_where p (remove_last t times) + (if any (λ v. v == t) times && p t then 1 else 0)
      ≡ count_where p times
unfolding remove_last
count-remove_last p t [] = refl
count-remove_last p t (u ∷ times) = elim (Bool-cases (any (λ v. v == t) times)) [
  | inl more ↦ ground (arith, more, count-remove_last p t times)
  | inr no_more ↦ elim (Bool-cases (u == t)) [
    | inl same ↦ let e : u ≡ t = (nat_beq_iff u t).0 same in ground (arith, same, no_more, ap p e)
    | inr other ↦ ground (arith, other, no_more)
  ]
]

expiry-append : (times : List ℕ) (now : ℕ) → (e : ℕ) × (expiry (times ++ now ∷ []) ≡ some e)
unfolding expiry
expiry-append [] now = (now + window, refl)
expiry-append (t ∷ []) now = (now + window, refl)
expiry-append (t ∷ u ∷ times) now = expiry-append (u ∷ times) now

any-of_find :
    (p : Row → Bool) (rows : List Row) (r : Row) → find p rows ≡ some r → any p rows ≡ true
any-of_find p [] r h = cc h
any-of_find p (s ∷ rows) r h = ground (arith, any-of_find p rows r)

times_at-refresh :
    (key : Key) (c : String) (times : List ℕ) (now : ℕ) (k : Key) (e : String) (rows : List Row)
    → any (is_row key c) rows ≡ true
    → times_at k e (refresh_state key c times now rows)
      ≡ (if same_slot k e key c then times else times_at k e rows)
unfolding refresh_state
times_at-refresh key c times now k e rows there =
    times_at-update key c times (λ r. coalesce (expiry times) r.expires_at) now k e rows there

-- A write after a lock adds the call's own time to the key's active times.
pub write_state-append :
    (key : Key) (c : String) (now : ℕ) (active : List ℕ) (rows written : List Row)
    → any (is_row key c) rows ≡ true
    → write_state key c (active ++ now ∷ []) now rows ≡ ok written
    → (k : Key) (e : String)
    → times_at k e written ≡ (if same_slot k e key c then active ++ now ∷ [] else times_at k e rows)
write_state-append key c now active rows written there h k e =
    let x = expiry-append active now in
    let same : refresh_state key c (active ++ now ∷ []) now rows ≡ written =
      ok-injective (sym (write_state-refresh key c (active ++ now ∷ []) now x.0 rows x.1) ∙ h) in
    subst
      (λ w.
        times_at k e w ≡ (if same_slot k e key c then active ++ now ∷ [] else times_at k e rows))
      same (times_at-refresh key c (active ++ now ∷ []) now k e rows there)

times_at-none :
    (key : Key) (c : String) (rows : List Row)
    → find (is_row key c) rows ≡ none
    → times_at key c rows ≡ []
unfolding times_at
times_at-none key c rows h = ground (arith, h)

times_at-some :
    (key : Key) (c : String) (rows : List Row) (r : Row)
    → find (is_row key c) rows ≡ some r
    → times_at key c rows ≡ r.request_times
unfolding times_at
times_at-some key c rows r h = ground (arith, h)

remove_reservation-none :
    (r : CredentialReservation) (t : ℕ) (rows : List Row)
    → find (is_row (key_of r) r.route_class) rows ≡ none
    → remove_reservation r t rows ≡ rows
unfolding remove_reservation
remove_reservation-none r t rows h = rw h refl

remove_reservation-some :
    (r : CredentialReservation) (t : ℕ) (rows : List Row) (row : Row)
    → find (is_row (key_of r) r.route_class) rows ≡ some row
    → remove_reservation r t rows
      ≡ refresh_state (key_of r) r.route_class (remove_last t row.request_times) t rows
unfolding remove_reservation
remove_reservation-some r t rows row h = rw h refl

pub same_slot-times :
    (k : Key) (e : String) (key : Key) (c : String) (rows : List Row)
    → same_slot k e key c ≡ true
    → times_at k e rows ≡ times_at key c rows
same_slot-times k e key c rows h =
    let same : k ≡ key = same_key-eq k key (ground (arith, h)) in
    let class : e ≡ c = (text_iff e c).0 (ground (arith, h)) in cc (same, class)

pub remove_reservation-times :
    (r : CredentialReservation) (t : ℕ) (rows : List Row) (k : Key) (e : String)
    → times_at k e (remove_reservation r t rows) ≡ (
        if same_slot k e (key_of r) r.route_class
        then remove_last t (times_at (key_of r) r.route_class rows)
        else times_at k e rows)
unfolding remove_last
remove_reservation-times r t rows k e =
    elim (Option-cases (find (is_row (key_of r) r.route_class) rows)) [
      | inl gone ↦ elim (Bool-cases (same_slot k e (key_of r) r.route_class)) [
        | inl own ↦
            rw
              (
                own,
                remove_reservation-none r t rows gone,
                same_slot-times k e (key_of r) r.route_class rows own,
                times_at-none (key_of r) r.route_class rows gone,
              )
              refl
        | inr other ↦ rw (other, remove_reservation-none r t rows gone) refl
      ]
      | inr (row, found) ↦
          rw
            (
              remove_reservation-some r t rows row found,
              times_at-some (key_of r) r.route_class rows row found,
            )
            (times_at-refresh (key_of r) r.route_class (remove_last t row.request_times) t k e rows
              (any-of_find (is_row (key_of r) r.route_class) rows row found))
    ]
