-- ===== src/Ratelimit/Keys.antt =====
-- The keys of a request, of server/internal/ratelimit/ratelimit.go: those that name a scope and a
-- value, hashed, each once and in order, and the shard of the metrics that the first key chooses.
pub mod Once
use Prim.Native.Char.{code}
use Prim.Native.String
use slate_do.Prelude.{
  ℕ, ◌+◌, ◌-◌, ◌*◌, ◌%◌, String, Bool, not, ◌&&◌, ◌||◌, Option, none, some, List, [], ◌∷◌, map,
  keep, any, leb, ◌==◌, string_eq, if◌then◌else◌,
}
use slate_do.Prelude.Sort.{sort_by, text_ltb}

pub record Key : Type 0 where
  pub scope : String
  pub value : String

abbrev pub scope_account : String
scope_account = "account"

abbrev pub scope_credential : String
scope_credential = "credential"

abbrev pub scope_ip : String
scope_ip = "ip"

abbrev pub same_key : Key → Key → Bool
same_key j k = j.scope == k.scope && j.value == k.value

abbrev pub usable : Key → Bool
usable k =
    not (k.value == "")
    && (k.scope == scope_account || k.scope == scope_credential || k.scope == scope_ip)

-- The keys of a Go map: each once.
pub unique : List Key → List Key
unique [] = []
unique (k ∷ keys) = let rest = unique keys in if any (same_key k) rest then rest else k ∷ rest

abbrev pub key_before : Key → Key → Bool
key_before j k = if j.scope == k.scope then text_ltb j.value k.value else text_ltb j.scope k.scope

abbrev pub hashed : (String → String → String) → Key → Key
hashed hash_key k = record k { value = hash_key k.scope k.value }

-- `hash_key` is SHA-256 of the scope and the value, in hexadecimal digits.
unfoldable pub normalized_keys : (hash_key : String → String → String) → List Key → List Key
unfolding unique
normalized_keys hash_key keys =
    sort_by key_before (unique (map (hashed hash_key) (keep usable keys)))

hex_digit : ℕ → Option ℕ
hex_digit c =
    if leb b'0' c && leb c b'9'
    then some (c - b'0')
    else if leb b'a' c && leb c b'f'
    then some (c - b'a' + 10)
    else if leb b'A' c && leb c b'F'
    then some (c - b'A' + 10)
    else none

-- `strconv.ParseUint(value[:2], 16, 8)`, or nothing where the value is too short or no number.
hex_prefix : String → Option ℕ
hex_prefix String.[] = none
hex_prefix (String.◌∷◌ c String.[]) = none
hex_prefix (String.◌∷◌ c (String.◌∷◌ d s)) = elim (hex_digit (code c)) [
  | none ↦ none
  | some high ↦ elim (hex_digit (code d)) [ none ↦ none | some low ↦ some (16 * high + low) ]
]

unfoldable pub metric_shard : List Key → ℕ
unfolding hex_prefix hex_digit
metric_shard [] = 0
metric_shard (k ∷ keys) = elim (hex_prefix k.value) [ none ↦ 0 | some prefix ↦ prefix % 32 ]
