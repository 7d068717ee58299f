-- ===== src/Settings/Policy.antt =====
-- service.go: `Policy`, and `validateDocument`.
use Prim.Native.Char.{code}
use alice_eve.Base.{
  Bool, true, false, ◌||◌, ◌&&◌, not, Option, none, some, String, ◌==◌, if◌then◌else◌, List, [],
  ◌∷◌, ℕ, suc, ◌+◌, ◌*◌, leb, ltb, eqb, length,
}
use alice_eve.Base.Results.{Result, ok, err, ◌>>=◌}
use alice_eve.Base.Int.{ℤ, pos, leb_ℤ, pos_part}
use alice_eve.Base.Text.{trim_space, is_blank}
use alice_eve.Base.Split.{byte_length}
use alice_eve.Settings.{
  Json, null, boolean, number, string, array, object, Items, no_items, item, Members, no_members,
  member, Fault, not_an_object, too_large, too_many_keys, too_deep, key_forbidden, key_unknown,
  array_too_long, value_forbidden,
}

-- `Policy` as it is given.
pub record Limits : Type 0 where
  pub allowed_keys : List String
  pub max_bytes : ℤ
  pub max_depth : ℤ
  pub max_keys : ℤ
  pub max_array_length : ℤ

-- The policy of a service, with the defaults in place.
pub record Policy : Type 0 where
  pub allowed_keys : List String
  pub max_bytes : ℕ
  pub max_depth : ℕ
  pub max_keys : ℕ
  pub max_array_length : ℕ

-- `NewPolicy`: the keys that are not blank, trimmed.
unfoldable pub new_policy : List String → List String
new_policy [] = []
new_policy (k ∷ ks) = let rest = new_policy ks in if is_blank k then rest else trim_space k ∷ rest

abbrev pub default_keys : List String
default_keys =
    "theme" ∷ "locale" ∷ "timezone" ∷ "notifications" ∷ "appearance" ∷ "shortcuts" ∷ "sync"
    ∷ "updateChannel" ∷ "telemetry" ∷ []

abbrev pub or_default : ℤ → ℕ → ℕ
or_default n default = if leb_ℤ n (pos 0) then default else pos_part n

-- What `NewService` makes of a policy.
unfoldable pub new_service : Limits → Policy
new_service l = record {
  allowed_keys = if eqb (length l.allowed_keys) 0 then new_policy default_keys else l.allowed_keys;
  max_bytes = or_default l.max_bytes (256 * 1024);
  max_depth = or_default l.max_depth 8;
  max_keys = or_default l.max_keys 128;
  max_array_length = or_default l.max_array_length 128;
}

-- The characters whose lower case is an ASCII letter.
lower : ℕ → ℕ
lower c =
    if leb 65 c && leb c 90
    then c + 32
    else if eqb c 0x130
    then 105
    else if eqb c 0x212a
    then 107
    else c

-- `strings.HasPrefix(strings.ToLower(s), p)`.
unfoldable pub starts_lower : String → String → Bool
unfolding lower
starts_lower String.[] s = true
starts_lower (String.◌∷◌ p ps) String.[] = false
starts_lower (String.◌∷◌ p ps) (String.◌∷◌ c s) = eqb (lower (code c)) (code p) && starts_lower ps s

-- `strings.Contains(strings.ToLower(s), p)`.
unfoldable pub contains_lower : String → String → Bool
contains_lower p String.[] = starts_lower p ""
contains_lower p (String.◌∷◌ c s) = starts_lower p (String.◌∷◌ c s) || contains_lower p s

unfoldable pub contains_any : List String → String → Bool
contains_any [] s = false
contains_any (p ∷ ps) s = contains_lower p s || contains_any ps s

unfoldable pub forbidden_key : String → Bool
forbidden_key k =
    contains_any
      ("token" ∷ "secret" ∷ "private" ∷ "password" ∷ "credential" ∷ "authorization" ∷ "cookie" ∷ [])
      (trim_space k)

unfoldable pub elem : String → List String → Bool
elem k [] = false
elem k (x ∷ xs) = (x == k) || elem k xs

unfoldable pub item_count : Items → ℕ
item_count no_items = 0
item_count (item v vs) = suc (item_count vs)

-- `scheme_of` is the scheme that `url.Parse` finds in a text put in lower case, if it reads it; `encode` is `json.Marshal`.
module _ (scheme_of : String → Option String) (encode : Members → String) (p : Policy) where
  unfoldable pub forbidden_string : String → Bool
  forbidden_string v =
      let l = trim_space v in
      starts_lower "http://" l || starts_lower "https://" l || elim (scheme_of l) [
        | none ↦ false
        | some s ↦ s == "file" || s == "javascript" || s == "data"
      ]

  -- The key of a member is refused.
  unfoldable pub bad_key : ℕ → String → Option Fault
  bad_key depth k =
      if forbidden_key k
      then some key_forbidden
      else if not (eqb (length p.allowed_keys) 0) && eqb depth 1 && not (elem k p.allowed_keys)
      then some key_unknown
      else none

  unfoldable mutual
    pub validate_value : Json → ℕ → Result Fault ℕ
    validate_value null depth = if ltb p.max_depth depth then err too_deep else ok 0
    validate_value (boolean b) depth = if ltb p.max_depth depth then err too_deep else ok 0
    validate_value (number n) depth = if ltb p.max_depth depth then err too_deep else ok 0
    validate_value (string s) depth =
        if ltb p.max_depth depth
        then err too_deep
        else if forbidden_string s
        then err value_forbidden
        else ok 0
    validate_value (array vs) depth =
        if ltb p.max_depth depth
        then err too_deep
        else if ltb p.max_array_length (item_count vs)
        then err array_too_long
        else validate_items vs depth
    validate_value (object ms) depth =
        if ltb p.max_depth depth then err too_deep else validate_members ms depth

    pub validate_items : Items → ℕ → Result Fault ℕ
    validate_items no_items depth = ok 0
    validate_items (item v vs) depth =
        validate_value v (depth + 1) >>= λ n. validate_items vs depth >>= λ m. ok (n + m)

    pub validate_members : Members → ℕ → Result Fault ℕ
    validate_members no_members depth = ok 0
    validate_members (member k v ms) depth = elim (bad_key depth k) [
      | some e ↦ err e
      | none ↦
          validate_value v (depth + 1) >>= λ n. validate_members ms depth >>= λ m. ok (1 + n + m)
    ]

  unfoldable pub validate_document : Option Members → Result Fault Members
  validate_document none = err not_an_object
  validate_document (some ms) =
      if ltb p.max_bytes (byte_length (encode ms))
      then err too_large
      else validate_value (object ms) 1 >>= λ keys.
          if ltb p.max_keys keys then err too_many_keys else ok ms
