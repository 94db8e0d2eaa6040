-- ===== src/Ratelimit/Reserve/Settle.antt =====
-- Reservations of server/internal/ratelimit/ratelimit.go that are settled with an account.
use slate_do.Prelude.{
  ℕ, ◌+◌, ◌≤◌, ◌≡◌, refl, sym, ◌∙◌, ap, subst, String, Bool, true, false, not, ◌&&◌, some, List, [],
  ◌∷◌, ◌++◌, any, length, count_where, ltb, ◌==◌, nat_eq, string_eq, if◌then◌else◌, Bool-cases, inl,
  inr, arith, ok, or_fail, refuse_if, >>=-eq-ok, ok-injective,
}
use slate_do.Prelude.Counting.{count-append}
use slate_do.Ratelimit.Window.{is_active, active_times, retry_after}
use slate_do.Ratelimit.Window.Order.{count-active_times, length-active_times}
use slate_do.Ratelimit.Keys.{Key, scope_account}
use slate_do.Ratelimit.Tables.{
  Row, Tables, times_at, ensure_row, account_key_required, reservation_required, index_out_of_range,
  route_limit, locked_state, write_state,
}
use slate_do.Ratelimit.Tables.Times.{same_slot, any-ensure_row, times_at-ensure_row}
use slate_do.Ratelimit.Allow.{Decision, Transaction}
use slate_do.Ratelimit.Allow.Outcome.{recent}
use slate_do.Ratelimit.Reserve.{
  CredentialReservation, is_reserved, normalized_key, without_room, remove_last, key_of,
  remove_reservation, charge_account, release_slot, finalize_account, finalize_credential,
}
use slate_do.Ratelimit.Reserve.Slots.{
  count-remove_last, write_state-append, same_slot-times, remove_reservation-times,
}

-- What was recorded for a reservation, and is taken away when its account has no room.
abbrev pub holds : CredentialReservation → ℕ → List Row → Key → String → Bool
holds r recorded_at rows k e =
    same_slot k e (key_of r) r.route_class
    && any (λ t. t == recorded_at) (times_at (key_of r) r.route_class rows)

record Settled (t : Transaction) (db : Tables) (r : CredentialReservation) (recorded_at : ℕ)
    (account : Key) (d : Decision) (after : Tables) : Type 0 where
  limit : ℕ
  limited : route_limit db r.route_class ≡ ok limit
  decided : d.allowed ≡ ltb (recent account r.route_class t.now db.rows) limit
  counted :
      (k : Key) (e : String) (m : ℕ)
      → t.now ≤ m
      → recent k e m after.rows
          + (if not d.allowed && (holds r recorded_at db.rows k e && is_active m recorded_at)
              then 1
              else 0)
        ≡ recent k e m db.rows
          + (if d.allowed && (same_slot k e account r.route_class && is_active m t.now)
              then 1
              else 0)

module _ (t : Transaction) (db : Tables) (r : CredentialReservation) (recorded_at : ℕ)
    (account : Key) (limit : ℕ) (limited : route_limit db r.route_class ≡ ok limit) where
  abbrev found : List Row
  found = ensure_row account r.route_class t.now db.rows

  abbrev active : List ℕ
  active = active_times t.now (times_at account r.route_class found)

  same : (k : Key) (e : String) → times_at k e found ≡ times_at k e db.rows
  same k e = times_at-ensure_row k e account r.route_class t.now db.rows

  room : length active ≡ recent account r.route_class t.now db.rows
  room =
      length-active_times t.now (times_at account r.route_class found)
      ∙ ap (count_where (is_active t.now)) (same account r.route_class)

  charged :
      (written : List Row)
      → ((k : Key) (e : String)
          → times_at k e written ≡ (
              if same_slot k e account r.route_class
              then active ++ t.now ∷ []
              else times_at k e found))
      → (k : Key) (e : String) (m : ℕ) → t.now ≤ m
      → recent k e m written
        ≡ recent k e m db.rows
          + (if same_slot k e account r.route_class && is_active m t.now then 1 else 0)
  charged written stored k e m later = elim (Bool-cases (same_slot k e account r.route_class)) [
    | inl own ↦
        let old : count_where (is_active m) active ≡ recent k e m db.rows =
          count-active_times t.now m (times_at account r.route_class found) later
          ∙ ap (count_where (is_active m)) (
              same account r.route_class
              ∙ sym (same_slot-times k e account r.route_class db.rows own)) in
        let now_stored : times_at k e written ≡ active ++ t.now ∷ [] = stored k e ∙ rw own refl in
        ap (count_where (is_active m)) now_stored
        ∙ count-append (is_active m) active (t.now ∷ [])
        ∙ rw own (omega (arith, old))
    | inr other ↦
        let kept : times_at k e written ≡ times_at k e db.rows = stored k e ∙ rw other (same k e) in
        ap (count_where (is_active m)) kept ∙ rw other (omega arith)
  ]

  released :
      (k : Key) (e : String) (m : ℕ)
      → recent k e m (remove_reservation r recorded_at found)
          + (if holds r recorded_at db.rows k e && is_active m recorded_at then 1 else 0)
        ≡ recent k e m db.rows
  released k e m = elim (Bool-cases (same_slot k e (key_of r) r.route_class)) [
    | inl own ↦
        let gone : times_at k e (remove_reservation r recorded_at found)
            ≡ remove_last recorded_at (times_at (key_of r) r.route_class db.rows) =
          remove_reservation-times r recorded_at found k e
          ∙ rw own (ap (remove_last recorded_at) (same (key_of r) r.route_class)) in
        rw (own, gone)
          (count-remove_last (is_active m) recorded_at (times_at (key_of r) r.route_class db.rows)
            ∙ ap (count_where (is_active m))
                (sym (same_slot-times k e (key_of r) r.route_class db.rows own)))
    | inr other ↦
        let kept : times_at k e (remove_reservation r recorded_at found) ≡ times_at k e db.rows =
          remove_reservation-times r recorded_at found k e ∙ rw other (same k e) in
        rw (other, kept) (omega arith)
  ]

  charge_account-Settled :
      (d : Decision) (after : Tables)
      → ltb (length active) limit ≡ true
      → charge_account t db r account limit found active ≡ ok (d, after)
      → Settled t db r recorded_at account d after
  unfolding charge_account
  charge_account-Settled d after free h =
      let w =
        >>=-eq-ok (write_state account r.route_class (active ++ t.now ∷ []) t.now found) _ h in
      let stored =
        write_state-append account r.route_class t.now active found w.0
          (any-ensure_row account r.route_class t.now db.rows) w.1 in
      subst (λ (p : Decision × Tables). Settled t db r recorded_at account p.0 p.1)
        (ok-injective w.2)
        (record {
          limit = limit;
          limited = limited;
          decided = sym free ∙ ap (λ n. ltb n limit) room;
          counted = λ k e m later. omega (arith, charged w.0 stored k e m later);
        })

  release_slot-Settled :
      (d : Decision) (after : Tables)
      → ltb (length active) limit ≡ false
      → release_slot t db r account recorded_at limit found active ≡ ok (d, after)
      → Settled t db r recorded_at account d after
  unfolding release_slot without_room
  release_slot-Settled d after full h =
      let w = >>=-eq-ok (without_room limit active t.now) _ h in
      let wait = >>=-eq-ok (or_fail (retry_after active limit t.now) index_out_of_range) _ w.1 in
      let refused : w.0.allowed ≡ false =
        ap (λ (x : Decision). x.allowed) (sym (ok-injective wait.2)) in
      subst (λ (p : Decision × Tables). Settled t db r recorded_at account p.0 p.1)
        (ok-injective w.2)
        (record {
          limit = limit;
          limited = limited;
          decided = refused ∙ sym full ∙ ap (λ n. ltb n limit) room;
          counted = λ k e m later. rw refused (omega (arith, released k e m));
        })

finalize_credential-Settled :
    (t : Transaction) (db : Tables) (r : CredentialReservation) (recorded_at : ℕ)
    (key account : Key) (d : Decision) (after : Tables)
    → r.recorded_at ≡ some recorded_at
    → normalized_key t scope_account key ≡ some account
    → finalize_credential t db r (some key) ≡ ok (d, after)
    → Settled t db r recorded_at account d after
unfolding finalize_credential finalize_account locked_state
finalize_credential-Settled t db r recorded_at key account d after at one h =
    let reserved = >>=-eq-ok (refuse_if (not (is_reserved r)) reservation_required) _ h in
    let settled : finalize_account t db r recorded_at key ≡ ok (d, after) = rw at at reserved.2 in
    let named =
      >>=-eq-ok (or_fail (normalized_key t scope_account key) account_key_required) _ settled in
    let limit = >>=-eq-ok (route_limit db r.route_class) _ (rw one at settled) in
    elim (Bool-cases (ltb (length (active t db r recorded_at account limit.0 limit.1)) limit.0)) [
      | inl free ↦
          charge_account-Settled t db r recorded_at account limit.0 limit.1 d after free
            (rw free at limit.2)
      | inr full ↦
          release_slot-Settled t db r recorded_at account limit.0 limit.1 d after full
            (rw full at limit.2)
    ]

-- A reservation that is settled with an account: the account is charged with one request exactly
-- when it has fewer than the limit of active ones; when it has not, it is charged nothing, and
-- the credential's reserved time goes, if it is still recorded. No other key or class has more or
-- fewer active requests, from that moment on.
pub finalize_credential-settles :
    (t : Transaction) (db : Tables) (r : CredentialReservation) (recorded_at : ℕ)
    (key account : Key) (d : Decision) (after : Tables) (k : Key) (e : String) (m : ℕ)
    → r.recorded_at ≡ some recorded_at
    → normalized_key t scope_account key ≡ some account
    → finalize_credential t db r (some key) ≡ ok (d, after)
    → t.now ≤ m
    → (limit : ℕ) × (route_limit db r.route_class ≡ ok limit)
      × (d.allowed ≡ ltb (recent account r.route_class t.now db.rows) limit)
      × (recent k e m after.rows
            + (if not d.allowed && (holds r recorded_at db.rows k e && is_active m recorded_at)
                then 1
                else 0)
          ≡ recent k e m db.rows
            + (if d.allowed && (same_slot k e account r.route_class && is_active m t.now)
                then 1
                else 0))
finalize_credential-settles t db r recorded_at key account d after k e m at one h later =
    let s = finalize_credential-Settled t db r recorded_at key account d after at one h in
    (s.limit, s.limited, s.decided, s.counted k e m later)
