-- ===== src/Ratelimit/Reserve/Undo.antt =====
-- Reservations of server/internal/ratelimit/ratelimit.go that are given back.
use slate_do.Prelude.{
  ℕ, ◌+◌, ◌&&◌, ◌==◌, any, ◌≤◌, ◌≡◌, refl, sym, ◌∙◌, ap, subst, String, true, false, some, List, [],
  ◌∷◌, ◌++◌, length, count_where, ltb, nat_eq, string_eq, text_refl, if◌then◌else◌, Bool-cases, inl,
  inr, arith, ok, or_fail, >>=-eq-ok, ok-injective,
}
use slate_do.Ratelimit.Window.{is_active, active_times}
use slate_do.Ratelimit.Window.Order.{count-active_times}
use slate_do.Ratelimit.Keys.{Key, scope_credential}
use slate_do.Ratelimit.Tables.{
  Row, Tables, times_at, ensure_row, credential_key_required, route_limit, locked_state,
  write_state,
}
use slate_do.Ratelimit.Tables.Times.{same_slot, any-ensure_row, times_at-ensure_row}
use slate_do.Ratelimit.Allow.{Decision, Transaction, swept}
use slate_do.Ratelimit.Allow.Outcome.{recent, swept-recent}
use slate_do.Ratelimit.Retry.{IsSound}
use slate_do.Ratelimit.Reserve.{
  CredentialReservation, is_reserved, normalized_key, without_room, take_slot, no_slot,
  reserve_credential, key_of, remove_reservation, cancel_credential,
}
use slate_do.Ratelimit.Reserve.Slots.{
  count-remove_last, remove_last-append, write_state-append, same_slot-times,
  remove_reservation-times,
}

-- What a reservation that was made has found and stored.
record Reserved (t : Transaction) (db : Tables) (r : CredentialReservation) (after : Tables)
    : Type 0 where
  at : r.recorded_at ≡ some t.now
  times :
      (k : Key) (e : String)
      → times_at k e after.rows ≡ (
          if same_slot k e (key_of r) r.route_class
          then active_times t.now (times_at (key_of r) r.route_class (swept t db.rows))
            ++ t.now ∷ []
          else times_at k e (swept t db.rows))

module _ (t : Transaction) (db : Tables) (key : Key) (c : String) where
  abbrev rows : List Row
  rows = swept t db.rows

  abbrev found : List Row
  found = ensure_row key c t.now rows

  abbrev active : List ℕ
  active = active_times t.now (times_at key c found)

  locked : active ≡ active_times t.now (times_at key c rows)
  locked = ap (active_times t.now) (times_at-ensure_row key c key c t.now rows)

  take_slot-Reserved :
      (limit : ℕ) (r : CredentialReservation) (d : Decision) (after : Tables)
      → take_slot t db key c limit found active ≡ ok (r, d, after)
      → Reserved t db r after
  unfolding take_slot
  take_slot-Reserved limit r d after h =
      let w = >>=-eq-ok (write_state key c (active ++ t.now ∷ []) t.now found) _ h in
      let same = ok-injective w.2 in
      let stored =
        write_state-append key c t.now active found w.0 (any-ensure_row key c t.now rows) w.1 in
      subst (λ (p : CredentialReservation × Decision × Tables). Reserved t db p.0 p.2) same
        (record {
          at = refl;
          times = λ k e. stored k e ∙ elim (Bool-cases (same_slot k e key c)) [
            | inl own ↦ rw own (ap (λ times. times ++ t.now ∷ []) locked)
            | inr other ↦ rw other (times_at-ensure_row k e key c t.now rows)
          ];
        })

  no_slot-none :
      (limit : ℕ) (r : CredentialReservation) (d : Decision) (after : Tables)
      → no_slot t db limit found active ≡ ok (r, d, after)
      → is_reserved r ≡ false
  unfolding no_slot
  no_slot-none limit r d after h =
      let w = >>=-eq-ok (without_room limit active t.now) _ h in
      let same = ok-injective w.2 in
      ap (λ (p : CredentialReservation × Decision × Tables). is_reserved p.0) (sym same)

reserve_credential-Reserved :
    (t : Transaction) (db : Tables) (key : Key) (c : String) (r : CredentialReservation)
    (d : Decision) (after : Tables)
    → reserve_credential t db key c ≡ ok (r, d, after)
    → is_reserved r ≡ true
    → Reserved t db r after
unfolding reserve_credential locked_state
reserve_credential-Reserved t db key c r d after h reserved =
    let credential =
      >>=-eq-ok (or_fail (normalized_key t scope_credential key) credential_key_required) _ h in
    let k = credential.0 in
    let limit = >>=-eq-ok (route_limit db c) _ credential.2 in
    elim (Bool-cases (ltb (length (active t db k c)) limit.0)) [
      | inl room ↦ take_slot-Reserved t db k c limit.0 r d after (rw room at limit.2)
      | inr full ↦ cc (reserved, no_slot-none t db k c limit.0 r d after (rw full at limit.2))
    ]

cancel_credential-rows :
    (db : Tables) (r : CredentialReservation) (now : ℕ)
    → r.recorded_at ≡ some now
    → is_reserved r ≡ true
    → (cancel_credential db r).rows ≡ remove_reservation r now db.rows
unfolding cancel_credential
cancel_credential-rows db r now at reserved = ground (arith, at, reserved)

same_slot_self : (k : Key) (c : String) → same_slot k c k c ≡ true
same_slot_self k c = ground (arith, text_refl k.scope, text_refl k.value, text_refl c)

-- Given back right away.
cancelled_at_once :
    (t : Transaction) (db : Tables) (key : Key) (c : String) (r : CredentialReservation)
    (d : Decision) (after : Tables) (k : Key) (e : String) (m : ℕ)
    → IsSound db
    → reserve_credential t db key c ≡ ok (r, d, after)
    → is_reserved r ≡ true
    → t.now ≤ m
    → recent k e m (cancel_credential after r).rows ≡ recent k e m db.rows
cancelled_at_once t db key c r d after k e m sound h reserved later =
    let s = reserve_credential-Reserved t db key c r d after h reserved in
    let gone = cancel_credential-rows after r t.now s.at reserved in
    let own = same_slot_self (key_of r) r.route_class in
    let stored : times_at (key_of r) r.route_class after.rows
        ≡ active_times t.now (times_at (key_of r) r.route_class (swept t db.rows)) ++ t.now ∷ [] =
      s.times (key_of r) r.route_class ∙ rw own refl in
    ap (λ rows. recent k e m rows) gone
    ∙ ap (count_where (is_active m)) (remove_reservation-times r t.now after.rows k e)
    ∙ elim (Bool-cases (same_slot k e (key_of r) r.route_class)) [
      | inl same ↦
          rw
            (
              same,
              stored,
              remove_last-append t.now
                  (active_times t.now (times_at (key_of r) r.route_class (swept t db.rows))),
            )
            (count-active_times t.now m (times_at (key_of r) r.route_class (swept t db.rows)) later
              ∙ ap (count_where (is_active m))
                  (sym (same_slot-times k e (key_of r) r.route_class (swept t db.rows) same))
              ∙ swept-recent t m k e db.rows later sound.one sound.last)
      | inr other ↦
          rw (other, s.times k e, other) (swept-recent t m k e db.rows later sound.one sound.last)
    ]

-- Given back in whatever tables other requests have left.
cancelled_later :
    (db : Tables) (r : CredentialReservation) (at : ℕ) (k : Key) (e : String) (m : ℕ)
    → r.recorded_at ≡ some at
    → is_reserved r ≡ true
    → recent k e m (cancel_credential db r).rows
        + (if (same_slot k e (key_of r) r.route_class && any (λ v. v == at) (times_at k e db.rows))
              && is_active m at
            then 1
            else 0)
      ≡ recent k e m db.rows
cancelled_later db r at k e m recorded reserved =
    let gone = cancel_credential-rows db r at recorded reserved in
    let kept = remove_reservation-times r at db.rows k e in
    elim (Bool-cases (same_slot k e (key_of r) r.route_class)) [
      | inl own ↦
          let same = same_slot-times k e (key_of r) r.route_class db.rows own in
          rw (gone, kept, own, sym same) (count-remove_last (is_active m) at (times_at k e db.rows))
      | inr other ↦ rw (gone, kept, other) (omega arith)
    ]

-- A reservation that is given back right after it was made leaves no trace: from its own moment on,
-- every credential, account and address has as many active requests, of every class, as if it had
-- not been made. Given back later, in whatever tables other requests have left, it takes away the
-- one request that was recorded for its credential and class at its own moment, where that is still
-- recorded, and no other of any key or class.
pub cancel_credential-undoes :
    (t : Transaction) (db : Tables) (key : Key) (c : String) (r : CredentialReservation)
    (d : Decision) (after : Tables) (k : Key) (e : String) (m : ℕ)
    → IsSound db
    → reserve_credential t db key c ≡ ok (r, d, after)
    → is_reserved r ≡ true
    → t.now ≤ m
    → (recent k e m (cancel_credential after r).rows ≡ recent k e m db.rows)
      × ((later : Tables)
          → recent k e m (cancel_credential later r).rows
              + (if (same_slot k e (key_of r) r.route_class
                      && any (λ v. v == t.now) (times_at k e later.rows))
                    && is_active m t.now
                  then 1
                  else 0)
            ≡ recent k e m later.rows)
cancel_credential-undoes t db key c r d after k e m sound h reserved since =
    let s = reserve_credential-Reserved t db key c r d after h reserved in
    (
      cancelled_at_once t db key c r d after k e m sound h reserved since,
      λ later. cancelled_later later r t.now k e m s.at reserved,
    )
