-- ===== src/Ratelimit/Sliding/Bounds.antt =====
-- What the limits of server/internal/ratelimit/ratelimit.go are for: no minute sees more admitted
-- requests than the limit.
use slate_do.Prelude.{
  ℕ, ◌≤◌, ◌<◌, ◌≡◌, sym, ◌∙◌, ap, subst, String, Bool, true, ◌&&◌, List, [], ◌∷◌, any, count_where,
  ltb, leb, string_eq, text_iff, Bool-cases, Result-cases, inl, inr, arith, ok, ok-injective,
}
use slate_do.Prelude.Counting.{count-implies-le}
use slate_do.Ratelimit.Window.{is_active}
use slate_do.Ratelimit.Keys.{Key, same_key}
use slate_do.Ratelimit.Tables.{Tables, Limited, route_limit}
use slate_do.Ratelimit.Allow.{is_empty}
use slate_do.Ratelimit.Allow.Decide.{every}
use slate_do.Ratelimit.Keys.Once.{same_key-eq}
use slate_do.Ratelimit.Sliding.{
  Request, named, Admitted, entry, covers, admitted_within, World, serve, served, admits, sliding,
  InOrder,
}
use slate_do.Ratelimit.Sliding.Refines.{Matches, serve-Agrees, fresh-Matches}

-- The admitted requests of a key and a class in the minute that ends at a moment.
abbrev pub in_minute : List Admitted → Key → String → ℕ → ℕ
in_minute log k c m = count_where (λ a. covers k c a && (is_active m a.at && leb a.at m)) log

abbrev pub IsBounded : (String → Limited ℕ) → List Admitted → Type 0
IsBounded limits log =
    (k : Key) (c : String) (m limit : ℕ) → limits c ≡ ok limit → in_minute log k c m ≤ limit

every-any :
    (p : Key → Bool) (k : Key) (keys : List Key)
    → every p keys ≡ true
    → any (same_key k) keys ≡ true
    → p k ≡ true
every-any p k [] h e = cc e
every-any p k (j ∷ keys) h e = elim (Bool-cases (same_key k j)) [
  | inl same ↦ subst (λ i. p i ≡ true) (sym (same_key-eq k j same)) (ground (arith, h))
  | inr other ↦ every-any p k keys (ground (arith, h)) (ground (arith, e, other))
]

-- An admitted request found room at each of its keys.
entry-IsBounded :
    (limits : String → Limited ℕ) (log : List Admitted) (r : Request) (limit : ℕ)
    → IsBounded limits log
    → limits r.route_class ≡ ok limit
    → admits log limit r ≡ true
    → IsBounded limits (entry r ∷ log)
entry-IsBounded limits log r limit h limited room k c m n limited_c =
    elim (Bool-cases (covers k c (entry r) && leb r.transaction.now m)) [
      | inl counts ↦
          let class : c ≡ r.route_class = (text_iff c r.route_class).0 (ground (arith, counts)) in
          let same : limit ≡ n = ok-injective (sym limited ∙ ap limits (sym class) ∙ limited_c) in
          let free : admitted_within log k r.route_class r.transaction.now < limit = ground (
            arith,
            every-any (λ j. ltb (admitted_within log j r.route_class r.transaction.now) limit) k
                (named r) room (ground (arith, counts)),
          ) in
          let fewer : in_minute log k c m ≤ admitted_within log k c r.transaction.now =
            count-implies-le _ _ log (λ a e. ground (arith, e, counts)) in
          let at_class : admitted_within log k c r.transaction.now
              ≡ admitted_within log k r.route_class r.transaction.now =
            ap (λ d. admitted_within log k d r.transaction.now) class in
          ground (arith, same, free, fewer, at_class)
      | inr out ↦ ground (arith, h k c m n limited_c, out)
    ]

sliding-IsBounded :
    (limits : String → Limited ℕ) (log : List Admitted) (r : Request)
    → IsBounded limits log
    → IsBounded limits (sliding limits log r).0
sliding-IsBounded limits log r h = elim (Bool-cases (is_empty (named r))) [
  | inl no_key ↦ rw no_key h
  | inr some_key ↦ elim (Result-cases (limits r.route_class)) [
    | inl (limit, limited) ↦ elim (Bool-cases (admits log limit r)) [
      | inl room ↦ rw (some_key, limited, room) (entry-IsBounded limits log r limit h limited room)
      | inr full ↦ rw (some_key, limited, full) h
    ]
    | inr (e, failed) ↦ rw (some_key, failed) h
  ]
]

served-IsBounded :
    (w : World) (now : ℕ) (requests : List Request)
    → Matches w now
    → IsBounded (route_limit w.tables) w.log
    → InOrder now requests
    → IsBounded (route_limit w.tables) (served w requests).log
unfolding served
served-IsBounded w now [] h b o = b
served-IsBounded w now (r ∷ requests) h b o =
    let a = serve-Agrees w r now o.0 h in
    λ k c m limit limited.
      served-IsBounded (serve w r).0 r.transaction.now requests a.matches
        (λ j d n bound there.
          subst (λ log. in_minute log j d n ≤ bound) (sym a.log)
            (sliding-IsBounded (route_limit w.tables) w.log r b j d n bound
              (sym (a.limits d) ∙ there)))
        o.1 k c m limit (a.limits c ∙ limited)

-- Whatever requests are made one after another, from empty tables and by a clock that does not
-- run backwards: of the requests that were admitted for a key and a class, no more than the
-- class's limit fall into any one minute.
pub admissions-le-limit :
    (db : Tables) (requests : List Request) (k : Key) (c : String) (m limit : ℕ)
    → db.rows ≡ []
    → ((d : String) (n : ℕ) → route_limit db d ≡ ok n → 1 ≤ n)
    → InOrder 0 requests
    → route_limit db c ≡ ok limit
    → in_minute (served (record { tables = db; log = [] }) requests).log k c m ≤ limit
admissions-le-limit db requests k c m limit empty limits o limited =
    served-IsBounded (record { tables = db; log = [] }) 0 requests (fresh-Matches db empty limits)
      (λ j d n bound there. omega arith) o k c m limit limited
