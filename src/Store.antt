-- ===== src/Store.antt =====
-- relay-server/internal/store: the message backlog, pairing codes and devices of `MemoryStore`
-- (store.go, memory.go).
--
-- Times are nanoseconds, as in Accounts.antt. Cursors and limits are int64: the counter of cursors
-- wraps as Go's does (`inc64`). `tokenHash` is a parameter: it calls SHA-256.
pub mod Messages
pub mod Pages
pub mod Devices
use Prim.Native.String.{◌++◌}
use alice_eve.Base.{
  ◌≡◌, Bool, true, false, ◌==◌, ◌||◌, ◌&&◌, not, Option, none, some, String, is_some, if◌then◌else◌,
  List, [], ◌∷◌, ℕ, ltb, take, keep,
}
use alice_eve.Base.Int.{ℤ, pos, inc64, ltb_ℤ, leb_ℤ, eqb_ℤ, pos_part}
use alice_eve.Base.Dict.{Dict, lookup, insert, delete, retain, find, values}
use alice_eve.Base.Sort.{sort}

abbrev pub Time : Type 0
Time = ℕ

pub record PairCode : Type 0 where
  pub code : String
  pub expires_at : Time
  pub device_name : String
  pub device_type : String

pub record Device : Type 0 where
  pub id : String
  pub account_id : String
  pub token_hash : String
  pub name : String
  pub type : String
  pub public_key : String
  pub created_at : Time
  pub revoked : Bool

pub record Message : Type 0 where
  pub id : String
  pub account_id : String
  pub body : String
  pub owner_device_id : String
  pub cursor : ℤ
  pub acknowledged_at : Option Time

pub record Store : Type 0 where
  pub pairs : Dict PairCode
  pub messages : Dict Message
  pub devices : Dict Device
  pub next_cursor : ℤ

abbrev pub new_store : Store
new_store = record { pairs = []; messages = []; devices = []; next_cursor = pos 0 }

abbrev pub message_key : String → String → String
message_key account_id id = account_id ++ "\0" ++ id

-- A message with no cursor gets the next one; one that has a cursor raises the counter to it.
unfoldable pub put_message : Store → Message → Store
put_message s m =
    if is_some (lookup (message_key m.account_id m.id) s.messages)
    then s
    else if eqb_ℤ m.cursor (pos 0)
    then record s {
      next_cursor = inc64 s.next_cursor;
      messages =
          insert (message_key m.account_id m.id) (record m { cursor = inc64 s.next_cursor })
            s.messages;
    }
    else record s {
      next_cursor = if ltb_ℤ s.next_cursor m.cursor then m.cursor else s.next_cursor;
      messages = insert (message_key m.account_id m.id) m s.messages;
    }

unfoldable pub has_message : Store → String → String → Bool
has_message s account_id id = elim (lookup (message_key account_id id) s.messages) [
  | none ↦ false
  | some m ↦ m.account_id == account_id
]

-- `Ack` deletes every message with the id, of any account.
unfoldable pub ack : Store → String → Store
ack s id = record s { messages = retain (λ m. not (m.id == id)) s.messages }

unfoldable pub ack_message : Store → String → String → String → Store × Bool
ack_message s account_id id owner = elim (lookup (message_key account_id id) s.messages) [
  | none ↦ (s, false)
  | some m ↦
      if not (m.account_id == account_id)
        || m.owner_device_id == ""
        || not (m.owner_device_id == owner)
      then (s, false)
      else (record s { messages = delete (message_key account_id id) s.messages }, true)
]

-- The limit of a page: out of range counts as 100.
abbrev pub page_limit : ℤ → ℕ
page_limit limit = if leb_ℤ limit (pos 0) || ltb_ℤ (pos 1000) limit then 100 else pos_part limit

abbrev pub wanted : String → String → ℤ → Message → Bool
wanted account_id owner after m =
    m.account_id == account_id && m.owner_device_id == owner && ltb_ℤ after m.cursor

abbrev pub earlier : Message → Message → Bool
earlier m n = ltb_ℤ m.cursor n.cursor

unfoldable pub list_messages : Store → String → String → ℤ → ℤ → List Message
list_messages s account_id owner after limit =
    take (page_limit limit)
      (sort earlier (keep (wanted account_id owner after) (values s.messages)))

unfoldable pub add_pair : Store → PairCode → Store
add_pair s p = record s { pairs = insert p.code p s.pairs }

-- Whatever it finds, the code is gone afterwards.
unfoldable pub consume_pair : Store → String → Time → Store × Option PairCode
consume_pair s code now = elim (lookup code s.pairs) [
  | none ↦ (record s { pairs = delete code s.pairs }, none)
  | some p ↦
      (record s { pairs = delete code s.pairs }, if ltb p.expires_at now then none else some p)
]

unfoldable pub add_device : Store → Device → Store × Bool
add_device s d =
    if d.id == ""
    then (s, false)
    else let bound = record d {
      account_id = if d.account_id == "" then "legacy" else d.account_id;
    } in
      (record s { devices = insert d.id bound s.devices }, true)

-- Go's zero `Device`, which a missing key reads as.
abbrev no_device : Device
no_device = record {
  id = "";
  account_id = "";
  token_hash = "";
  name = "";
  type = "";
  public_key = "";
  created_at = 0;
  revoked = false;
}

-- `d, ok := s.devices[id]`.
abbrev found : Option Device → Device × Bool
found none = (no_device, false)
found (some d) = (d, true)

-- The lookups give the value even where they answer `false`, as for a revoked device.
unfoldable pub get_device : Store → String → Device × Bool
get_device s id = let (d, ok) = found (lookup id s.devices) in (d, ok && not d.revoked)

unfoldable pub get_device_for_account : Store → String → String → Device × Bool
get_device_for_account s account_id id =
    let (d, ok) = get_device s id in (d, ok && d.account_id == account_id)

unfoldable pub device_exists : Store → String → Bool
device_exists s id = let (d, ok) = found (lookup id s.devices) in ok && not d.revoked

unfoldable pub device_type : Store → String → String × Bool
device_type s id = let (d, ok) = found (lookup id s.devices) in (d.type, ok && not d.revoked)

unfoldable pub device_account_id : Store → String → String × Bool
device_account_id s id =
    let (d, ok) = found (lookup id s.devices) in
    (d.account_id, ok && not d.revoked && not (d.account_id == ""))

abbrev revoked_copy : Device → Device
revoked_copy d = record d { revoked = true }

unfoldable pub revoke_device : Store → String → Store × Bool
revoke_device s id = elim (lookup id s.devices) [
  | none ↦ (s, false)
  | some d ↦ (record s { devices = insert id (revoked_copy d) s.devices }, true)
]

unfoldable pub revoke_device_for_account : Store → String → String → Store × Bool
revoke_device_for_account s account_id id = elim (lookup id s.devices) [
  | none ↦ (s, false)
  | some d ↦
      if not (d.account_id == account_id) || d.revoked
      then (s, false)
      else (record s { devices = insert id (revoked_copy d) s.devices }, true)
]

unfoldable pub list_devices : Store → String → List Device
list_devices s account_id =
    keep (λ d. not d.revoked && (account_id == "" || d.account_id == account_id)) (values s.devices)

module _ (token_hash : String → String) where
  abbrev pub holds_token : String → Device → Bool
  holds_token token d = not d.revoked && d.token_hash == token_hash token

  unfoldable pub device_id_for_token : Store → String → Option String
  device_id_for_token s token = elim (find (holds_token token) s.devices) [
    | none ↦ none
    | some (id, d) ↦ some d.id
  ]

  unfoldable pub verify_token : Store → String → Bool
  verify_token s token = is_some (device_id_for_token s token)

  unfoldable pub verify_token_type : Store → String → String → Bool
  verify_token_type s token typ =
      is_some
        (find (λ d. not d.revoked && d.type == typ && d.token_hash == token_hash token) s.devices)

  unfoldable pub owns_token : Store → String → String → Bool
  owns_token s token id = elim (device_id_for_token s token) [ none ↦ false | some got ↦ got == id ]
