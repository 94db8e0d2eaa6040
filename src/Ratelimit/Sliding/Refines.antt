-- ===== src/Ratelimit/Sliding/Refines.antt =====
-- The tables of server/internal/ratelimit/ratelimit.go implement the limiter that remembers
-- everything.
use slate_do.Prelude.{
  ℕ, ◌+◌, ◌≤◌, ◌≡◌, refl, ◌∙◌, ap, String, Bool, true, false, ◌&&◌, List, [], ◌∷◌, any, ltb, ◌==◌,
  string_eq, if◌then◌else◌, Bool-cases, Result-cases, inl, inr, arith, ok, err,
}
use mathlib.Core.Path.{fun_ext}
use slate_do.Ratelimit.Window.{is_active}
use slate_do.Ratelimit.Keys.{Key, same_key, normalized_keys}
use slate_do.Ratelimit.Tables.{Row, Tables, Limited, route_limit, times_at, Error, key_required}
use slate_do.Ratelimit.Allow.{Transaction, Decision, is_empty, allow, allow_keys}
use slate_do.Ratelimit.Allow.Decide.{every}
use slate_do.Ratelimit.Allow.Outcome.{recent, has_room, Served}
use slate_do.Ratelimit.Retry.{IsSound, Served-IsSound, route_limit-same, allow-answers}
use slate_do.Ratelimit.Sliding.{
  Request, named, Admitted, entry, admitted_within, World, serve, answers, admits, sliding,
  sliding_answers, InOrder,
}

-- The rows hold, of every key and class, the admitted requests that are still active.
pub record Matches (w : World) (now : ℕ) : Type 0 where
  pub sound : IsSound w.tables
  pub agree :
      (k : Key) (c : String) (m : ℕ)
      → now ≤ m
      → recent k c m w.tables.rows ≡ admitted_within w.log k c m

every-agree :
    (limit : ℕ) (c : String) (m : ℕ) (rows : List Row) (log : List Admitted) (keys : List Key)
    → ((k : Key) → recent k c m rows ≡ admitted_within log k c m)
    → every (has_room limit c m rows) keys ≡ every (λ k. ltb (admitted_within log k c m) limit) keys
every-agree limit c m rows log [] h = refl
every-agree limit c m rows log (k ∷ keys) h = rw (h k, every-agree limit c m rows log keys h)

-- What one call does in both.
pub record Agrees (w : World) (r : Request) : Type 0 where
  pub same : (serve w r).1 ≡ (sliding (route_limit w.tables) w.log r).1
  pub log : (serve w r).0.log ≡ (sliding (route_limit w.tables) w.log r).0
  pub limits : (c : String) → route_limit (serve w r).0.tables c ≡ route_limit w.tables c
  pub matches : Matches (serve w r).0 r.transaction.now

unmoved : (w : World) (now m : ℕ) → now ≤ m → Matches w now → Matches w m
unmoved w now m later h = record {
  sound = h.sound;
  agree = λ k c n le. h.agree k c n (omega (arith, later, le));
}

-- An admission counts in the log as it does in the rows.
logged :
    (admitted : Bool) (log : List Admitted) (r : Request) (k : Key) (c : String) (m n : ℕ)
    → n ≡ admitted_within log k c m
    → n
        + (if admitted
              && ((any (same_key k) (named r) && c == r.route_class)
                  && is_active m r.transaction.now)
            then 1
            else 0)
      ≡ admitted_within (if admitted then entry r ∷ log else log) k c m
logged true log r k c m n h = omega (arith, h)
logged false log r k c m n h = omega (arith, h)

Agrees-answered :
    (w : World) (r : Request) (now limit : ℕ) (d : Decision) (after : Tables)
    → now ≤ r.transaction.now
    → Matches w now
    → is_empty (named r) ≡ false
    → route_limit w.tables r.route_class ≡ ok limit
    → allow r.transaction w.tables r.keys r.route_class ≡ ok (d, after)
    → Served limit r.transaction w.tables (named r) r.route_class d after
    → Agrees w r
Agrees-answered w r now limit d after later h some_key limited says s =
    let decided : d.allowed ≡ admits w.log limit r =
      s.decided
      ∙ every-agree limit r.route_class r.transaction.now w.tables.rows w.log (named r)
          (λ k. h.agree k r.route_class r.transaction.now later) in
    record {
      same = rw (says, some_key, limited, decided) refl;
      log = rw (says, some_key, limited, decided) refl;
      limits = λ c. rw says (route_limit-same w.tables after c s.settings);
      matches = rw says (record {
        sound =
            Served-IsSound limit r.transaction w.tables (named r) r.route_class d after h.sound s;
        agree = λ k c m le.
            s.counted k c m le
            ∙ logged d.allowed w.log r k c m (recent k c m w.tables.rows)
                (h.agree k c m (omega (arith, later, le)));
      });
    }

allow-no_keys :
    (t : Transaction) (db : Tables) (keys : List Key) (c : String)
    → is_empty (normalized_keys t.hash_key keys) ≡ true
    → allow t db keys c ≡ err key_required
unfolding allow
allow-no_keys t db keys c h = rw h refl

allow-no_limit :
    (t : Transaction) (db : Tables) (keys : List Key) (c : String) (e : Error)
    → is_empty (normalized_keys t.hash_key keys) ≡ false
    → route_limit db c ≡ err e
    → allow t db keys c ≡ err e
unfolding allow allow_keys
allow-no_limit t db keys c e named h = rw (named, h) refl

pub serve-Agrees :
    (w : World) (r : Request) (now : ℕ) → now ≤ r.transaction.now → Matches w now → Agrees w r
serve-Agrees w r now later h = elim (Bool-cases (is_empty (named r))) [
  | inl no_key ↦
      let says = allow-no_keys r.transaction w.tables r.keys r.route_class no_key in
      record {
        same = rw (says, no_key) refl;
        log = rw (says, no_key) refl;
        limits = λ c. rw says refl;
        matches = rw says (unmoved w now r.transaction.now later h);
      }
  | inr some_key ↦ elim (Result-cases (route_limit w.tables r.route_class)) [
    | inl (limit, limited) ↦
        let s =
          allow-answers r.transaction w.tables r.keys r.route_class limit h.sound some_key
            limited in
        Agrees-answered w r now limit s.0 s.1 later h some_key limited s.2 s.3
    | inr (e, failed) ↦
        let says = allow-no_limit r.transaction w.tables r.keys r.route_class e some_key failed in
        record {
          same = rw (says, some_key, failed) refl;
          log = rw (says, some_key, failed) refl;
          limits = λ c. rw says refl;
          matches = rw says (unmoved w now r.transaction.now later h);
        }
  ]
]

sliding_answers-same :
    (f g : String → Limited ℕ) (log : List Admitted) (requests : List Request)
    → ((c : String) → f c ≡ g c)
    → sliding_answers f log requests ≡ sliding_answers g log requests
sliding_answers-same f g log requests h =
    ap (λ limits. sliding_answers limits log requests) (fun_ext h)

pub answers-Matches :
    (w : World) (now : ℕ) (requests : List Request)
    → Matches w now
    → InOrder now requests
    → answers w requests ≡ sliding_answers (route_limit w.tables) w.log requests
unfolding answers sliding_answers
answers-Matches w now [] h o = refl
answers-Matches w now (r ∷ requests) h o =
    let a = serve-Agrees w r now o.0 h in
    let rest = answers-Matches (serve w r).0 r.transaction.now requests a.matches o.1 in
    ap (λ x. x ∷ answers (serve w r).0 requests) a.same
    ∙ ap (λ xs. (sliding (route_limit w.tables) w.log r).1 ∷ xs)
        (rest
          ∙ sliding_answers-same _ _ (serve w r).0.log requests a.limits
          ∙ ap (λ log. sliding_answers (route_limit w.tables) log requests) a.log)

-- An empty table agrees with an empty memory.
pub fresh-Matches :
    (db : Tables)
    → db.rows ≡ []
    → ((c : String) (n : ℕ) → route_limit db c ≡ ok n → 1 ≤ n)
    → Matches (record { tables = db; log = [] }) 0
unfolding times_at
fresh-Matches db empty limits = record {
  sound = record { one = λ k c. rw empty (omega arith); last = rw empty tt; limits = limits };
  agree = λ k c m le. rw empty refl;
}

-- Whatever requests are made one after another, by a clock that does not run backwards, the tables
-- answer as the limiter that remembers every admitted request: errors, admissions and refusals are
-- the same, whatever rows the clean-up deletes.
pub answers-eq-sliding_answers :
    (db : Tables) (requests : List Request)
    → db.rows ≡ []
    → ((c : String) (n : ℕ) → route_limit db c ≡ ok n → 1 ≤ n)
    → InOrder 0 requests
    → answers (record { tables = db; log = [] }) requests
      ≡ sliding_answers (route_limit db) [] requests
answers-eq-sliding_answers db requests empty limits o =
    answers-Matches (record { tables = db; log = [] }) 0 requests (fresh-Matches db empty limits) o
