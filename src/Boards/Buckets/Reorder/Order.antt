-- ===== src/Boards/Buckets/Reorder/Order.antt =====
-- What a new order of an account's lists is, and where each list stands in it.
use slate_do.Prelude.{
  ℕ, suc, ◌+◌, ◌≤◌, String, ◌≡◌, refl, Bool, true, false, not, Option, none, some, List, [], ◌∷◌,
  ◌++◌, map, ◌==◌, string_eq, keep, update_where, count_where, if◌then◌else◌, ok, arith, text_iff,
  Bool-cases, inl, inr, sym, ◌∙◌,
}
use slate_do.Prelude.Int.{pos}
use slate_do.Prelude.Counting.{count-append}
use slate_do.Boards.Types.{Bucket}
use slate_do.Boards.Buckets.Change.{named}
use slate_do.Boards.Buckets.Reorder.{has, check_order, write_order}

abbrev pub occurs : List String → String → ℕ
occurs ids k = count_where (λ id. id == k) ids

abbrev bit : Bool → ℕ
bit b = if b then 1 else 0

pub has-occurs : (ids : List String) (k : String) → has ids k ≡ true → 1 ≤ occurs ids k
has-occurs [] k h = cc
has-occurs (id ∷ ids) k h = ground (arith, has-occurs ids k)

-- What passes has each ID once, none of those seen before, and each is an existing list's.
pub check_order-occurs :
    (existing seen ids seen' : List String) (k : String)
    → check_order existing seen ids ≡ ok seen'
    → (bit (has seen' k) ≡ bit (has seen k) + occurs ids k)
      × (1 ≤ occurs ids k → has existing k ≡ true)
unfolding check_order
check_order-occurs existing seen [] seen' k h = ground arith
check_order-occurs existing seen (id ∷ ids) seen' k h =
    ground (arith, check_order-occurs existing (id ∷ seen) ids seen' k, text_iff id k)

pub occurs-keep :
    (seen existing : List String) (k : String)
    → occurs (keep (λ id. not (has seen id)) existing) k
      ≡ (if has seen k then 0 else occurs existing k)
occurs-keep seen [] k = ground arith
occurs-keep seen (id ∷ existing) k = ground (arith, text_iff id k, occurs-keep seen existing k)

-- The new order has every list as often as the old one.
pub new_order-occurs :
    (existing ids seen : List String) (k : String)
    → occurs existing k ≤ 1
    → check_order existing [] ids ≡ ok seen
    → occurs (ids ++ keep (λ id. not (has seen id)) existing) k ≡ occurs existing k
new_order-occurs existing ids seen k once h =
    let facts = check_order-occurs existing [] ids seen k h in
    ground (
      arith,
      count-append (λ id. id == k) ids (keep (λ id. not (has seen id)) existing),
      occurs-keep seen existing k,
      facts.0,
      facts.1,
      has-occurs existing k,
    )

-- Where an ID stands first, counted from a position on.
unfoldable pub position : ℕ → List String → String → Option ℕ
position i [] k = none
position i (id ∷ ids) k = if id == k then some i else position (suc i) ids k

abbrev set_order : ℕ → ℕ → Bucket → Bucket
set_order now i b = record b { sort_order = pos i; updated_at = now }

-- What the writes of an order do to one row.
unfoldable pub placed : String → ℕ → ℕ → List String → Bucket → Bucket
placed user_id now i [] b = b
placed user_id now i (id ∷ ids) b =
    placed user_id now (suc i) ids (if named user_id id b then set_order now i b else b)

map-update_where :
    (f : Bucket → Bucket) (p : Bucket → Bool) (g : Bucket → Bucket) (rows : List Bucket)
    → map f (update_where p g rows) ≡ map (λ b. f (if p b then g b else b)) rows
map-update_where f p g [] = refl
map-update_where f p g (b ∷ rows) = rw (map-update_where f p g rows)

map-id : (rows : List Bucket) → map (λ b. b) rows ≡ rows
map-id [] = refl
map-id (b ∷ rows) = rw (map-id rows)

pub write_order-eq-map :
    (user_id : String) (now i : ℕ) (ids : List String) (rows : List Bucket)
    → write_order user_id now i ids rows ≡ map (placed user_id now i ids) rows
unfolding write_order placed
write_order-eq-map user_id now i [] rows = sym (map-id rows)
write_order-eq-map user_id now i (id ∷ ids) rows =
    write_order-eq-map user_id now (suc i) ids
      (update_where (named user_id id) (set_order now i) rows)
    ∙ map-update_where (placed user_id now (suc i) ids) (named user_id id) (set_order now i) rows

-- The row apart from its position and its time.
abbrev pub SameList : Bucket → Bucket → Type 0
SameList b c =
    (b.id ≡ c.id)
    × (b.user_id ≡ c.user_id)
    × (b.name ≡ c.name)
    × (b.goal ≡ c.goal)
    × (b.color ≡ c.color)
    × (b.is_inbox ≡ c.is_inbox)
    × (b.limit_count ≡ c.limit_count)
    × (b.created_at ≡ c.created_at)

pub placed-SameList :
    (user_id : String) (now i : ℕ) (ids : List String) (b : Bucket)
    → SameList (placed user_id now i ids b) b
unfolding placed
placed-SameList user_id now i [] b = ground arith
placed-SameList user_id now i (id ∷ ids) b = ground (
  arith,
  placed-SameList user_id now (suc i) ids (if named user_id id b then set_order now i b else b),
)

-- A list that the order does not name stays where it is.
placed-absent :
    (user_id : String) (now i : ℕ) (ids : List String) (b : Bucket)
    → occurs ids b.id ≡ 0
    → placed user_id now i ids b ≡ b
unfolding placed
placed-absent user_id now i [] b h = refl
placed-absent user_id now i (id ∷ ids) b h =
    ground (arith, placed-absent user_id now (suc i) ids b, text_iff id b.id, text_iff b.id id)

pub placed-position :
    (user_id : String) (now i : ℕ) (ids : List String) (b : Bucket) (j : ℕ)
    → (b.user_id == user_id) ≡ true
    → occurs ids b.id ≤ 1
    → position i ids b.id ≡ some j
    → (placed user_id now i ids b).sort_order ≡ pos j
unfolding placed position
placed-position user_id now i [] b j own once at = cc
placed-position user_id now i (id ∷ ids) b j own once at = elim (Bool-cases (id == b.id)) [
  | inl e ↦ ground (
    arith,
    e,
    text_iff id b.id,
    text_iff b.id id,
    placed-absent user_id now (suc i) ids (set_order now i b),
  )
  | inr e ↦ ground (
    arith,
    e,
    text_iff id b.id,
    text_iff b.id id,
    placed-position user_id now (suc i) ids b j own,
  )
]

pub placed-other :
    (user_id : String) (now i : ℕ) (ids : List String) (b : Bucket)
    → (b.user_id == user_id) ≡ false
    → placed user_id now i ids b ≡ b
unfolding placed
placed-other user_id now i [] b h = refl
placed-other user_id now i (id ∷ ids) b h =
    ground (arith, h, placed-other user_id now (suc i) ids b)

-- An ID that occurs has a position.
pub position-of_occurs :
    (i : ℕ) (ids : List String) (k : String)
    → 1 ≤ occurs ids k
    → (j : ℕ) × (position i ids k ≡ some j)
unfolding position
position-of_occurs i [] k h = absurd (omega (arith, h))
position-of_occurs i (id ∷ ids) k h = elim (Bool-cases (id == k)) [
  | inl e ↦ (i, rw e)
  | inr e ↦ rw e (position-of_occurs (suc i) ids k (ground (arith, e)))
]

pub has-eq-seen :
    (existing ids seen : List String) (k : String)
    → check_order existing [] ids ≡ ok seen
    → has seen k ≡ has ids k
has-eq-seen existing ids seen k h =
    ground
      (arith, (check_order-occurs existing [] ids seen k h).0, has-occurs ids k, none_has ids k)
  where
    none_has : (ids : List String) (k : String) → has ids k ≡ false → occurs ids k ≡ 0
    none_has [] k h = refl
    none_has (id ∷ ids) k h = ground (arith, none_has ids k)
