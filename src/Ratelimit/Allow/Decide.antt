-- ===== src/Ratelimit/Allow/Decide.antt =====
-- What the loop over the states decides, in `Allow` of server/internal/ratelimit/ratelimit.go.
use slate_do.Prelude.{
  ℕ, ◌+◌, ◌-◌, ◌≤◌, ◌<◌, ◌≡◌, ◌↔◌, refl, sym, subst, Bool, true, false, ◌&&◌, some, List, [], ◌∷◌,
  length, count_where, All, ltb, leb, if◌then◌else◌, Bool-cases, inl, inr, arith, ok,
}
use slate_do.Prelude.Int.{ℤ, sub_ℕ, ◌≤ℤ◌, ltb_ℤ}
use slate_do.Ratelimit.Window.{window, is_active, retry_after}
use slate_do.Ratelimit.Window.Order.{IsSorted, room_from, get_elem?-some}
use slate_do.Ratelimit.Allow.{Decision, KeyState, lowered, refuse_for, weigh, decide}

abbrev pub every {ℓ} : {A : Type ℓ} → (A → Bool) → List A → Bool
every p [] = true
every p (x ∷ xs) = p x && every p xs

-- The wait that one key without room asks for ends exactly when the key has room again.
pub retry_after-IsExact :
    (times : List ℕ) (limit now : ℕ)
    → IsSorted times
    → 1 ≤ limit
    → limit ≤ length times
    → (d : ℤ) × (retry_after times limit now ≡ some d)
      × ((m : ℕ) → now ≤ m → (d ≤ℤ sub_ℕ m now) ↔ (count_where (is_active m) times < limit))
unfolding retry_after
retry_after-IsExact times limit now sorted one le =
    let found = get_elem?-some times (length times - limit) (omega (arith, one, le)) in
    let exact = λ (m : ℕ). room_from times limit found.0 m sorted one le found.1 in
    (
      sub_ℕ (found.0 + window) now,
      ground (arith, le, found.1),
      λ m later.
          (λ h. (exact m).1 (ground (arith, h, later)), λ h. ground (arith, (exact m).0 h, later)),
    )

-- What a decision says after the states: whether all had room, and the longest of their waits.
pub record Decided (limit now : ℕ) (states : List KeyState) (before after : Decision) : Type 0 where
  pub allowed : after.allowed ≡ (before.allowed && every (λ s. ltb (length s.times) limit) states)
  pub waits :
      (m : ℕ)
      → now ≤ m
      → (after.retry_after ≤ℤ sub_ℕ m now) ↔ (
          (before.retry_after ≤ℤ sub_ℕ m now)
          × All (λ s. limit ≤ length s.times → count_where (is_active m) s.times < limit) states)

longer-le : (a b c : ℤ) → ((if ltb_ℤ a b then b else a) ≤ℤ c) ↔ ((a ≤ℤ c) × (b ≤ℤ c))
longer-le a b c = (λ h. ground (arith, h), λ h. ground (arith, h.0, h.1))

lowered-wait :
    (s : KeyState) (limit : ℕ) (d : Decision) → (lowered s limit d).retry_after ≡ d.retry_after
lowered-wait s limit d = elim (Bool-cases (ltb_ℤ (sub_ℕ limit (length s.times)) d.remaining)) [
  | inl e ↦ rw e
  | inr e ↦ rw e
]

lowered-allowed :
    (s : KeyState) (limit : ℕ) (d : Decision) → (lowered s limit d).allowed ≡ d.allowed
lowered-allowed s limit d = elim (Bool-cases (ltb_ℤ (sub_ℕ limit (length s.times)) d.remaining)) [
  | inl e ↦ rw e
  | inr e ↦ rw e
]

weigh-Decided :
    (s : KeyState) (limit now : ℕ) (before : Decision)
    → IsSorted s.times
    → 1 ≤ limit
    → (after : Decision) × (weigh s limit now before ≡ ok after)
      × Decided limit now (s ∷ []) before after
unfolding weigh refuse_for
weigh-Decided s limit now before sorted one = elim (Bool-cases (leb limit (length s.times))) [
  | inl full ↦
      let wait = retry_after-IsExact s.times limit now sorted one (ground (arith, full)) in
      let low = lowered s limit before in
      let after = record low {
        allowed = false;
        retry_after = if ltb_ℤ low.retry_after wait.0 then wait.0 else low.retry_after;
      } in
      (
        after,
        rw (full, wait.1) refl,
        record {
          allowed = ground (arith, full);
          waits = λ m later.
              let longer = longer-le low.retry_after wait.0 (sub_ℕ m now) in
              let room = wait.2 m later in
              (
                λ h. (
                  subst (λ r. r ≤ℤ sub_ℕ m now) (lowered-wait s limit before) (longer.0 h).0,
                  ((λ le. room.0 (longer.0 h).1), tt),
                ),
                λ h. longer.1 (
                  subst (λ r. r ≤ℤ sub_ℕ m now) (sym (lowered-wait s limit before)) h.0,
                  room.1 (h.1.0 (ground (arith, full))),
                ),
              );
        },
      )
  | inr room ↦ (
    lowered s limit before,
    rw room,
    record {
      allowed = ground (arith, room, lowered-allowed s limit before);
      waits = λ m later. (
        λ h. (
          subst (λ r. r ≤ℤ sub_ℕ m now) (lowered-wait s limit before) h,
          ((λ le. absurd (ground (arith, le, room))), tt),
        ),
        λ h. subst (λ r. r ≤ℤ sub_ℕ m now) (sym (lowered-wait s limit before)) h.0,
      );
    },
  )
]

pub decide-Decided :
    (states : List KeyState) (limit now : ℕ) (before : Decision)
    → All (λ s. IsSorted s.times) states
    → 1 ≤ limit
    → (after : Decision) × (decide states limit now before ≡ ok after)
      × Decided limit now states before after
unfolding decide
decide-Decided [] limit now before sorted one =
    (before, refl, record { allowed = ground arith; waits = λ m later. (λ h. (h, tt), λ h. h.0) })
decide-Decided (s ∷ states) limit now before sorted one =
    let first = weigh-Decided s limit now before sorted.0 one in
    let rest = decide-Decided states limit now first.0 sorted.1 one in
    (
      rest.0,
      rw first.1 rest.1,
      record {
        allowed = ground (arith, rest.2.allowed, first.2.allowed);
        waits = λ m later. (
          λ h. (
            ((first.2.waits m later).0 ((rest.2.waits m later).0 h).0).0,
            (
              ((first.2.waits m later).0 ((rest.2.waits m later).0 h).0).1.0,
              ((rest.2.waits m later).0 h).1,
            ),
          ),
          λ h. (rest.2.waits m later).1 ((first.2.waits m later).1 (h.0, (h.1.0, tt)), h.1.1),
        );
      },
    )
