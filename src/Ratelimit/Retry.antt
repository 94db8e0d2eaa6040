-- ===== src/Ratelimit/Retry.antt =====
-- How long a refused caller of `Allow` in server/internal/ratelimit/ratelimit.go has to wait.
use slate_do.Prelude.{
  ℕ, ◌+◌, ◌-◌, ◌*◌, ◌≤◌, ◌≡◌, ◌↔◌, refl, sym, ◌∙◌, ap, subst, String, true, false, List, [], ◌∷◌,
  All, leb, leb→le, ◌⊎◌, Bool-cases, inl, inr, arith, ok, >>=-eq-ok, ok-injective,
}
use slate_do.Prelude.Int.{ℤ, pos, negsuc, sub_ℕ, ◌≤ℤ◌}
use slate_do.Ratelimit.Window.{second, retry_after_seconds}
use slate_do.Ratelimit.Keys.{Key, normalized_keys}
use slate_do.Ratelimit.Tables.{Row, Tables, route_limit}
use slate_do.Ratelimit.Tables.Expired.{IsUnique, ExpiresLast}
use slate_do.Ratelimit.Allow.{Decision, Transaction, is_empty, allow, allow_keys}
use slate_do.Ratelimit.Allow.Decide.{every}
use slate_do.Ratelimit.Allow.Outcome.{recent, has_room, Served}
use slate_do.Ratelimit.Allow.Serve.{allow_keys-Served}

-- The limiter's rows as its calls leave them, and limits as the settings table admits them.
pub record IsSound (db : Tables) : Type 0 where
  pub one : IsUnique db.rows
  pub last : All ExpiresLast db.rows
  pub limits : (c : String) (n : ℕ) → route_limit db c ≡ ok n → 1 ≤ n

pub route_limit-same :
    (db after : Tables) (c : String)
    → after.settings ≡ db.settings
    → route_limit after c ≡ route_limit db c
unfolding route_limit
route_limit-same db after c e = rw e

pub Served-IsSound :
    (limit : ℕ) (t : Transaction) (db : Tables) (keys : List Key) (c : String) (d : Decision)
    (after : Tables)
    → IsSound db
    → Served limit t db keys c d after
    → IsSound after
Served-IsSound limit t db keys c d after sound s = record {
  one = s.one;
  last = s.last;
  limits = λ e n h. sound.limits e n (sym (route_limit-same db after e s.settings) ∙ h);
}

-- What a call that is answered has found: keys, and a limit for the class.
pub record Answered (t : Transaction) (db : Tables) (keys : List Key) (c : String) (d : Decision)
    (after : Tables) : Type 0 where
  pub named : is_empty (normalized_keys t.hash_key keys) ≡ false
  pub limit : ℕ
  pub limited : route_limit db c ≡ ok limit
  pub served : Served limit t db (normalized_keys t.hash_key keys) c d after

pub allow-Answered :
    (t : Transaction) (db : Tables) (keys : List Key) (c : String) (d : Decision) (after : Tables)
    → IsSound db
    → allow t db keys c ≡ ok (d, after)
    → Answered t db keys c d after
unfolding allow allow_keys
allow-Answered t db keys c d after sound h =
    elim (Bool-cases (is_empty (normalized_keys t.hash_key keys))) [
      | inl none_left ↦ cc (rw none_left at h)
      | inr named ↦
          let called : allow_keys t db (normalized_keys t.hash_key keys) c ≡ ok (d, after) =
            rw named at h in
          let found = >>=-eq-ok (route_limit db c) _ called in
          let s =
            allow_keys-Served found.0 t db (normalized_keys t.hash_key keys) c found.1
              (sound.limits c found.0 found.1) sound.one sound.last in
          let same = ok-injective (sym s.2 ∙ called) in
          record {
            named = named;
            limit = found.0;
            limited = found.1;
            served =
                subst
                  (λ (p : Decision × Tables).
                    Served found.0 t db (normalized_keys t.hash_key keys) c p.0 p.1)
                  same s.3;
          }
    ]

-- A call with keys and a limit is answered.
pub allow-answers :
    (t : Transaction) (db : Tables) (keys : List Key) (c : String) (limit : ℕ)
    → IsSound db
    → is_empty (normalized_keys t.hash_key keys) ≡ false
    → route_limit db c ≡ ok limit
    → (d : Decision) × (after : Tables) × (allow t db keys c ≡ ok (d, after))
      × Served limit t db (normalized_keys t.hash_key keys) c d after
unfolding allow
allow-answers t db keys c limit sound named limited =
    let s =
      allow_keys-Served limit t db (normalized_keys t.hash_key keys) c limited
        (sound.limits c limit limited) sound.one sound.last in
    (s.0, s.1, rw named s.2, s.3)

every-room :
    (limit : ℕ) (c : String) (m : ℕ) (before after : List Row) (keys : List Key)
    → ((k : Key) → recent k c m after ≡ recent k c m before)
    → every (has_room limit c m after) keys ≡ every (has_room limit c m before) keys
every-room limit c m before after [] h = refl
every-room limit c m before after (k ∷ keys) h = rw (h k, every-room limit c m before after keys h)

-- The wait that a refused caller is told is exact: the same request at any later time, with no
-- other call between, is answered, and it is admitted exactly when the wait is over.
pub retry_after-exact :
    (t : Transaction) (db : Tables) (keys : List Key) (c : String) (d : Decision) (after : Tables)
    (u : Transaction)
    → IsSound db
    → allow t db keys c ≡ ok (d, after)
    → d.allowed ≡ false
    → u.hash_key ≡ t.hash_key
    → t.now ≤ u.now
    → (e : Decision) × (later : Tables) × (allow u after keys c ≡ ok (e, later))
      × ((e.allowed ≡ true) ↔ (d.retry_after ≤ℤ sub_ℕ u.now t.now))
retry_after-exact t db keys c d after u sound h refused hash later =
    let a = allow-Answered t db keys c d after sound h in
    let s = a.served in
    let named : is_empty (normalized_keys u.hash_key keys) ≡ false = rw hash a.named in
    let again =
      allow-answers u after keys c a.limit
        (Served-IsSound a.limit t db (normalized_keys t.hash_key keys) c d after sound s) named
        (route_limit-same db after c s.settings ∙ a.limited) in
    let same : again.0.allowed
        ≡ every (has_room a.limit c u.now db.rows) (normalized_keys t.hash_key keys) =
      again.3.decided
      ∙ ap (λ f. every (has_room a.limit c u.now after.rows) (normalized_keys f keys)) hash
      ∙ every-room a.limit c u.now db.rows after.rows (normalized_keys t.hash_key keys)
          (λ k. s.counted k c u.now later ∙ rw refused (omega arith)) in
    let exact = s.waits refused u.now later in
    (again.0, again.1, again.2, (λ free. exact.1 (sym same ∙ free), λ over. same ∙ exact.0 over))

-- The seconds in the header cover the wait, and by less than a second too much, one second at
-- least.
pub retry_after_seconds-covers :
    (d : ℤ)
    → (d ≤ℤ pos (retry_after_seconds d * second))
      × (1 ≤ retry_after_seconds d)
      × ((retry_after_seconds d ≡ 1) ⊎ (pos ((retry_after_seconds d - 1) * second + 1) ≤ℤ d))
unfolding retry_after_seconds
retry_after_seconds-covers (pos d) = (
  grind arith,
  grind arith,
  elim (Bool-cases (leb d second)) [
    | inl short ↦ inl (grind (arith, leb→le d second short))
    | inr long ↦ inr (grind arith)
  ],
)
retry_after_seconds-covers (negsuc d) = (omega arith, omega arith, inl refl)
