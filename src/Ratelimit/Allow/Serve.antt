-- ===== src/Ratelimit/Allow/Serve.antt =====
-- Every call of `Allow` in server/internal/ratelimit/ratelimit.go that names a class with a limit
-- is answered, by the times that are active.
use slate_do.Prelude.{
  ℕ, ◌+◌, ◌≤◌, ◌≡◌, ◌↔◌, refl, sym, ◌∙◌, ap, subst, String, Bool, true, false, ◌&&◌, List, [], ◌∷◌,
  ◌++◌, map, any, count_where, All, ◌==◌, string_eq, text_iff, ltb, if◌then◌else◌, Bool-cases, inl,
  inr, arith, ok,
}
use slate_do.Prelude.Int.{ℤ, pos, sub_ℕ, ◌≤ℤ◌, is_positive, ◌+ℤ◌, negate}
use slate_do.Prelude.Counting.{All-imp, count-append}
use slate_do.Prelude.Sort.{sort_by-count}
use slate_do.Ratelimit.Keys.Once.{same_key-eq}
use slate_do.Ratelimit.Window.{is_active, active_times}
use slate_do.Ratelimit.Window.Order.{IsSorted, count-active_times, active_times-IsSorted}
use slate_do.Ratelimit.Keys.{Key, same_key, metric_shard}
use slate_do.Ratelimit.Tables.{Row, Tables, times_at, route_limit, record_metric, outcome_allowed}
use slate_do.Ratelimit.Tables.Expired.{IsUnique, ExpiresLast}
use slate_do.Ratelimit.Allow.{
  Decision, Transaction, KeyState, load_states, decide, swept, admit, refuse, positive_wait,
  write_refused, allow_keys,
}
use slate_do.Ratelimit.Allow.Loaded.{Loaded, load_states-Loaded}
use slate_do.Ratelimit.Allow.Stored.{Stored, with_now, write_admitted-Stored, write_refused-Stored}
use slate_do.Ratelimit.Allow.Decide.{every, Decided, decide-Decided}
use slate_do.Ratelimit.Allow.Outcome.{
  recent, has_room, swept-recent, swept-IsUnique, swept-ExpiresLast, every-states, waits-states,
  Served,
}

every-same :
    (p q : Key → Bool) (keys : List Key) → ((k : Key) → p k ≡ q k) → every p keys ≡ every q keys
every-same p q [] h = refl
every-same p q (k ∷ keys) h = rw (h k, every-same p q keys h)

-- Admission adds one active time, for as long as it lasts.
count-with_now :
    (m now : ℕ) (times : List ℕ)
    → count_where (is_active m) (with_now now times)
      ≡ count_where (is_active m) times + (if is_active m now then 1 else 0)
count-with_now m now times =
    sort_by-count ltb (is_active m) (times ++ now ∷ [])
    ∙ count-append (is_active m) times (now ∷ [])
    ∙ omega arith

-- The one wait that a refusal would round up is never short.
positive_wait-same : (d : ℤ) → ((d ≤ℤ pos 0) → ⊥) → positive_wait d ≡ d
positive_wait-same d h = elim (Bool-cases (is_positive d)) [
  | inl e ↦ rw e
  | inr e ↦ absurd (h (ground (arith, e)))
]

module _ (limit : ℕ) (t : Transaction) (db : Tables) (keys : List Key) (c : String)
    (limited : route_limit db c ≡ ok limit) (some_limit : 1 ≤ limit) (one : IsUnique db.rows)
    (last : All ExpiresLast db.rows) where
  abbrev before : Decision
  before = record { allowed = true; limit = limit; remaining = pos limit; retry_after = pos 0 }

  abbrev rows : List Row
  rows = swept t db.rows

  abbrev loaded : List Row × List KeyState
  loaded = load_states keys c t.now rows

  abbrev old : Key → List ℕ
  old k = active_times t.now (times_at k c rows)

  reads : Loaded keys c t.now rows loaded.0 loaded.1
  reads = load_states-Loaded keys c t.now rows

  respects : (j k : Key) → same_key j k ≡ true → old j ≡ old k
  respects j k h = ap old (same_key-eq j k h)

  recent-rows :
      (k : Key) (e : String) (m : ℕ) → t.now ≤ m → recent k e m rows ≡ recent k e m db.rows
  recent-rows k e m later = swept-recent t m k e db.rows later one last

  decision :
      (d : Decision) × (decide loaded.1 limit t.now before ≡ ok d)
      × Decided limit t.now loaded.1 before d
  decision =
      decide-Decided loaded.1 limit t.now before
        (All-imp _ _ loaded.1
          (λ s h. subst IsSorted (sym h) (active_times-IsSorted t.now (times_at s.key c rows)))
          reads.active)
        some_limit

  room-keys :
      (m : ℕ)
      → t.now ≤ m
      → every (has_room limit c m rows) (map (λ s. s.key) loaded.1)
        ≡ every (has_room limit c m db.rows) keys
  room-keys m later =
      ap (every (has_room limit c m rows)) reads.listed
      ∙ every-same _ _ keys (λ k. ap (λ n. ltb n limit) (recent-rows k c m later))

  decided :
      (d : Decision)
      → Decided limit t.now loaded.1 before d
      → d.allowed ≡ every (has_room limit c t.now db.rows) keys
  decided d h =
      h.allowed
      ∙ every-states limit c t.now rows loaded.1 reads.active
      ∙ room-keys t.now (omega arith)

  waits :
      (d : Decision)
      → Decided limit t.now loaded.1 before d
      → (m : ℕ) → t.now ≤ m
      → (d.retry_after ≤ℤ sub_ℕ m t.now) ↔ (every (has_room limit c m db.rows) keys ≡ true)
  waits d h m later =
      let rooms = waits-states limit c t.now rows m loaded.1 later reads.active in
      (
        λ short. sym (room-keys m later) ∙ rooms.0 ((h.waits m later).0 short).1,
        λ room. (h.waits m later).1 (ground (arith, later), rooms.1 (room-keys m later ∙ room)),
      )

  -- The times that a loop has stored, counted.
  counted :
      (new : Key → List ℕ) (admitted : Bool) (written : List Row)
      → Stored loaded.1 c new loaded.0 written
      → ((k : Key) (m : ℕ)
          → t.now ≤ m
          → count_where (is_active m) (new k)
            ≡ recent k c m rows + (if admitted && is_active m t.now then 1 else 0))
      → (k : Key) (e : String) (m : ℕ) → t.now ≤ m
      → recent k e m written
        ≡ recent k e m db.rows
          + (if admitted && ((any (same_key k) keys && e == c) && is_active m t.now) then 1 else 0)
  counted new admitted written h count k e m later =
      elim (Bool-cases (any (same_key k) keys && e == c)) [
        | inl own ↦
            let same : e ≡ c = (text_iff e c).0 (ground (arith, own)) in
            let stored : times_at k e written ≡ new k =
              h.times k e ∙ rw (reads.named k, own) refl in
            rw (own, stored, same)
              (count k m later
                ∙ ap (λ n. n + (if admitted && is_active m t.now then 1 else 0))
                    (recent-rows k c m later))
        | inr other ↦
            let stored : times_at k e written ≡ times_at k e rows =
              h.times k e ∙ rw (reads.named k, other) (reads.same k e) in
            rw (other, stored) (ground (arith, recent-rows k e m later))
      ]

  admitted_after : List Row → Tables
  admitted_after written = record db {
    rows = written;
    metrics = record_metric t.now c outcome_allowed (metric_shard keys) db.metrics;
  }

  Served-admitted :
      (d : Decision)
      → decide loaded.1 limit t.now before ≡ ok d
      → Decided limit t.now loaded.1 before d
      → d.allowed ≡ true
      → (e : Decision) × (after : Tables) × (allow_keys t db keys c ≡ ok (e, after))
        × Served limit t db keys c e after
  unfolding allow_keys admit admitted_after
  Served-admitted d says h free =
      let w =
        write_admitted-Stored c t.now old respects loaded.1 loaded.0 reads.there reads.active in
      (
        record d { remaining = d.remaining +ℤ negate 1 },
        admitted_after w.0,
        rw (limited, says, free, w.1) refl,
        record {
          decided = decided d h;
          counted =
              counted (λ k. with_now t.now (old k)) d.allowed w.0 w.2
                (λ k m later. rw free (
                  count-with_now m t.now (old k)
                  ∙ ap (λ n. n + (if is_active m t.now then 1 else 0))
                      (count-active_times t.now m (times_at k c rows) later)));
          waits = λ refused. cc (refused, free);
          settings = refl;
          one = w.2.one (reads.one (swept-IsUnique t db.rows one));
          last = w.2.last (reads.last (swept-ExpiresLast t db.rows last));
        },
      )

  Served-refuse :
      (d : Decision)
      → Decided limit t.now loaded.1 before d
      → d.allowed ≡ false
      → positive_wait d.retry_after ≡ d.retry_after
      → Stored loaded.1 c old loaded.0 (write_refused loaded.1 c t.now loaded.0)
      → Served limit t db keys c
          (refuse t keys c db d loaded.0 loaded.1).0
          (refuse t keys c db d loaded.0 loaded.1).1
  unfolding refuse
  Served-refuse d h full wait w = record {
    decided = decided d h;
    counted = counted old d.allowed (write_refused loaded.1 c t.now loaded.0) w (λ k m later.
        rw full (ground (arith, count-active_times t.now m (times_at k c rows) later)));
    waits = λ _ m later.
        subst (λ r. (r ≤ℤ sub_ℕ m t.now) ↔ (every (has_room limit c m db.rows) keys ≡ true))
          (sym wait) (waits d h m later);
    settings = refl;
    one = w.one (reads.one (swept-IsUnique t db.rows one));
    last = w.last (reads.last (swept-ExpiresLast t db.rows last));
  }

  Served-refused :
      (d : Decision)
      → decide loaded.1 limit t.now before ≡ ok d
      → Decided limit t.now loaded.1 before d
      → d.allowed ≡ false
      → (e : Decision) × (after : Tables) × (allow_keys t db keys c ≡ ok (e, after))
        × Served limit t db keys c e after
  unfolding allow_keys
  Served-refused d says h full =
      let w =
        write_refused-Stored c t.now old respects
          (λ k. active_times-IsSorted t.now (times_at k c rows)) loaded.1 loaded.0 reads.there
          reads.active in
      let answer = refuse t keys c db d loaded.0 loaded.1 in
      let wait : positive_wait d.retry_after ≡ d.retry_after =
        positive_wait-same d.retry_after (λ short.
          cc (full, decided d h, (waits d h t.now (omega arith)).0 (ground (arith, short)))) in
      (answer.0, answer.1, rw (limited, says, full) refl, Served-refuse d h full wait w)

  -- A call is answered: with admission when every key has room, and with the exact wait when not.
  pub allow_keys-Served :
      (d : Decision) × (after : Tables) × (allow_keys t db keys c ≡ ok (d, after))
      × Served limit t db keys c d after
  allow_keys-Served = elim (Bool-cases decision.0.allowed) [
    | inl e ↦ Served-admitted decision.0 decision.1 decision.2 e
    | inr e ↦ Served-refused decision.0 decision.1 decision.2 e
  ]
