-- ===== src/Ratelimit/Window/Order.antt =====
-- Sorted times: what the sorting, the expiry and the wait of
-- server/internal/ratelimit/ratelimit.go rest on.
use slate_do.Prelude.{
  ℕ, zero, suc, ◌+◌, ◌-◌, ◌≤◌, ◌<◌, ◌≡◌, ◌↔◌, refl, ◌∙◌, Bool, true, none, some, List, [], ◌∷◌,
  ◌++◌, length, count_where, All, keep, ltb, leb, Bool-cases, inl, inr, arith,
}
use slate_do.Prelude.Counting.{All-imp}
use slate_do.Prelude.Keyed.{count-keep-both}
use slate_do.Prelude.Sort.{sort_by, place, sort_by-count}
use slate_do.Ratelimit.Window.{window, is_active, active_times, expiry, get_elem?}

abbrev pub IsSorted : List ℕ → Type 0
IsSorted [] = Unit
IsSorted (t ∷ times) = All (λ u. t ≤ u) times × IsSorted times

place-At_least :
    (a t : ℕ) (times : List ℕ)
    → t ≤ a
    → All (λ u. t ≤ u) times
    → All (λ u. t ≤ u) (place ltb a times)
unfolding place
place-At_least a t [] h k = (h, tt)
place-At_least a t (u ∷ times) h k = elim (Bool-cases (ltb a u)) [
  | inl e ↦ rw e (h, k)
  | inr e ↦ rw e (k.0, place-At_least a t times h k.1)
]

place-IsSorted : (a : ℕ) (times : List ℕ) → IsSorted times → IsSorted (place ltb a times)
unfolding place
place-IsSorted a [] s = (tt, tt)
place-IsSorted a (t ∷ times) s = elim (Bool-cases (ltb a t)) [
  | inl e ↦ rw e ((ground (arith, e), All-imp _ _ times (λ u h. ground (arith, e, h)) s.0), s)
  | inr e ↦ rw e (place-At_least a t times (ground (arith, e)) s.0, place-IsSorted a times s.1)
]

pub sort_by-IsSorted : (times : List ℕ) → IsSorted (sort_by ltb times)
unfolding sort_by
sort_by-IsSorted [] = tt
sort_by-IsSorted (t ∷ times) = place-IsSorted t (sort_by ltb times) (sort_by-IsSorted times)

pub length-eq-count {ℓ} : {A : Type ℓ} (xs : List A) → length xs ≡ count_where (λ _. true) xs
length-eq-count [] = refl
length-eq-count (x ∷ xs) = omega (arith, length-eq-count xs)

pub count-same {ℓ} :
    {A : Type ℓ} (p q : A → Bool) (xs : List A)
    → ((x : A) → p x ≡ q x)
    → count_where p xs ≡ count_where q xs
count-same p q [] h = refl
count-same p q (x ∷ xs) h = ground (arith, h x, count-same p q xs h)

pub active_times-IsSorted : (now : ℕ) (recorded : List ℕ) → IsSorted (active_times now recorded)
unfolding active_times
active_times-IsSorted now recorded = sort_by-IsSorted (keep (is_active now) recorded)

-- What is active later is among what is active now.
pub count-active_times :
    (now m : ℕ) (recorded : List ℕ)
    → now ≤ m
    → count_where (is_active m) (active_times now recorded) ≡ count_where (is_active m) recorded
unfolding active_times
count-active_times now m recorded h =
    sort_by-count ltb (is_active m) (keep (is_active now) recorded)
    ∙ count-keep-both (is_active m) (is_active now) recorded
    ∙ count-same _ _ recorded (λ t. ground arith)

pub length-active_times :
    (now : ℕ) (recorded : List ℕ)
    → length (active_times now recorded) ≡ count_where (is_active now) recorded
unfolding active_times
length-active_times now recorded =
    length-eq-count (sort_by ltb (keep (is_active now) recorded))
    ∙ sort_by-count ltb (λ _. true) (keep (is_active now) recorded)
    ∙ count-keep-both (λ _. true) (is_active now) recorded
    ∙ count-same _ _ recorded (λ t. ground arith)

-- The expiry of sorted times is no earlier than the end of any one's window.
pub expiry-IsLast :
    (times : List ℕ) (e : ℕ)
    → IsSorted times
    → expiry times ≡ some e
    → All (λ t. t + window ≤ e) times
unfolding expiry
expiry-IsLast [] e s h = tt
expiry-IsLast (t ∷ []) e s h = (ground arith, tt)
expiry-IsLast (t ∷ u ∷ times) e s h =
    let rest = expiry-IsLast (u ∷ times) e s.1 h in (omega (arith, rest.0, s.0.0), rest)

pub expiry-none : (times : List ℕ) → expiry times ≡ none → times ≡ []
unfolding expiry
expiry-none [] h = refl
expiry-none (t ∷ []) h = cc h
expiry-none (t ∷ u ∷ times) h = cc (expiry-none (u ∷ times) h)

pub expiry-some : (t : ℕ) (times : List ℕ) → (e : ℕ) × (expiry (t ∷ times) ≡ some e)
unfolding expiry
expiry-some t [] = (t + window, refl)
expiry-some t (u ∷ times) = expiry-some u times

place-cons :
    (before : ℕ → ℕ → Bool) (a : ℕ) (times : List ℕ)
    → (t : ℕ) × (rest : List ℕ) × (place before a times ≡ t ∷ rest)
unfolding place
place-cons before a [] = (a, [], refl)
place-cons before a (t ∷ times) = elim (Bool-cases (before a t)) [
  | inl e ↦ (a, t ∷ times, rw e)
  | inr e ↦ (t, place before a times, rw e)
]

-- Sorted times with one more have an expiry.
pub expiry-sort_by_append :
    (times : List ℕ) (now : ℕ) → (e : ℕ) × (expiry (sort_by ltb (times ++ now ∷ [])) ≡ some e)
unfolding sort_by
expiry-sort_by_append [] now = expiry-some now []
expiry-sort_by_append (t ∷ times) now =
    let placed = place-cons ltb t (sort_by ltb (times ++ now ∷ [])) in
    let last = expiry-some placed.0 placed.1 in (last.0, rw placed.2 last.1)

count-none :
    (m t : ℕ) (times : List ℕ)
    → m < t + window
    → All (λ u. t ≤ u) times
    → count_where (is_active m) times ≡ length times
count-none m t [] h k = refl
count-none m t (u ∷ times) h k = ground (arith, k.0, count-none m t times h k.1)

count-le-length {ℓ} : {A : Type ℓ} (p : A → Bool) (xs : List A) → count_where p xs ≤ length xs
count-le-length p [] = omega arith
count-le-length p (x ∷ xs) = ground (arith, count-le-length p xs)

at_least :
    (t : ℕ) (times : List ℕ) (i : ℕ) (u : ℕ)
    → All (λ v. t ≤ v) times
    → get_elem? times i ≡ some u
    → t ≤ u
at_least t [] i u h e = cc
at_least t (v ∷ times) zero u h e = ground (arith, h.0)
at_least t (v ∷ times) (suc i) u h e = at_least t times i u h.1 e

-- Fewer than `limit` of the times are active exactly from when the last `limit`-th of them ends.
pub room_from :
    (times : List ℕ) (limit : ℕ) (u m : ℕ)
    → IsSorted times
    → 1 ≤ limit
    → limit ≤ length times
    → get_elem? times (length times - limit) ≡ some u
    → (count_where (is_active m) times < limit) ↔ (u + window ≤ m)
room_from [] limit u m s one le e = absurd (omega (arith, one, le))
room_from (t ∷ times) limit u m s one le e = elim (Bool-cases (leb limit (length times))) [
  | inl more ↦
      let later : suc (length times) - limit ≡ suc (length times - limit) = ground (arith, more) in
      let found : get_elem? times (length times - limit) ≡ some u = rw later at e in
      let rest = room_from times limit u m s.1 one (ground (arith, more)) found in
      let first = at_least t times (length times - limit) u s.0 found in
      (λ room. rest.0 (ground (arith, room)), λ ended. ground (arith, rest.1 ended, first))
  | inr last ↦
      let head : suc (length times) - limit ≡ 0 = ground (arith, last) in
      let same : t ≡ u = ground (arith, rw head at e) in
      (
        λ room. elim (Bool-cases (ltb m (t + window))) [
          | inl active ↦ absurd (
              ground (arith, room, last, active, count-none m t times (ground (arith, active)) s.0))
          | inr ended ↦ ground (arith, ended, same)
        ],
        λ ended. ground (arith, count-le-length (is_active m) times, last, same),
      )
]

pub get_elem?-some {ℓ} :
    {A : Type ℓ} (xs : List A) (i : ℕ) → i < length xs → (x : A) × (get_elem? xs i ≡ some x)
get_elem?-some [] i h = absurd (omega (arith, h))
get_elem?-some (x ∷ xs) zero h = (x, refl)
get_elem?-some (x ∷ xs) (suc i) h = get_elem?-some xs i (omega (arith, h))
