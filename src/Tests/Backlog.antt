-- ===== src/Tests/Backlog.antt =====
-- The store (relay-server/internal/store) at concrete inputs.
use alice_eve.Base.{
  ◌≡◌, ◌≢◌, refl, eq_iff, true, false, ◌==◌, none, some, String, arith, ℕ, [], ◌∷◌, ◌≤◌, keep,
  if◌then◌else◌,
}
use alice_eve.Base.Int.{ℤ, pos, ◌<ℤ◌, inc64}
use alice_eve.Base.Dict.{lookup, insert, values}
use alice_eve.Base.Sort.{sort, place}
use alice_eve.Store.Pages.{IsCap, Page}
use alice_eve.Store.{
  Message, Device, PairCode, Store, message_key, put_message, has_message, ack_message,
  list_messages, consume_pair, get_device, get_device_for_account, device_exists, device_type,
  device_account_id, revoke_device, owns_token,
}
use alice_eve.Store.Messages
use alice_eve.Store.Pages
use alice_eve.Store.Devices

abbrev note : String → ℤ → Message
note id cursor = record {
  id = id;
  account_id = "a";
  body = "hi";
  owner_device_id = "desk";
  cursor = cursor;
  acknowledged_at = none;
}

abbrev phone : Device
phone = record {
  id = "phone";
  account_id = "a";
  token_hash = "secret";
  name = "Phone";
  type = "mobile";
  public_key = "";
  created_at = 5;
  revoked = false;
}

abbrev code : PairCode
code = record { code = "123"; expires_at = 10; device_name = "Phone"; device_type = "mobile" }

abbrev store : Store
store = record {
  pairs = ("123", code) ∷ [];
  messages = (message_key "a" "m1", note "m1" (pos 1)) ∷ [];
  devices = ("phone", phone) ∷ [];
  next_cursor = pos 1;
}

-- The store before its message came.
abbrev bare : Store
bare = record store { messages = []; next_cursor = pos 0 }

bare-MessagesInv : Messages.Inv bare
unfolding lookup
bare-MessagesInv = record {
  one_entry = tt;
  keyed = λ k m e. absurd (ground arith);
  below = λ k m e. absurd (ground arith);
}

store-MessagesInv : Messages.Inv store
unfolding put_message lookup insert inc64
store-MessagesInv =
    Messages.put_message-Inv bare (note "m1" (pos 0)) (ground arith) bare-MessagesInv

store-DevicesInv : Devices.Inv store.devices
unfolding lookup
store-DevicesInv = record {
  one_entry = (refl, tt);
  keyed = λ k d e. ground (arith, eq_iff "phone" k);
}

put_message_newest_example :
    (c : ℤ) × (lookup (message_key "a" "m2") (put_message store (note "m2" (pos 0))).messages
      ≡ some (note "m2" c))
    × (pos 1 <ℤ c)
    × (lookup (message_key "a" "m1") (put_message store (note "m2" (pos 0))).messages
        ≡ some (note "m1" (pos 1)))
unfolding lookup
put_message_newest_example =
    Messages.put_message_newest store (note "m2" (pos 0)) (message_key "a" "m1") (note "m1" (pos 1))
      store-MessagesInv (ground arith) refl refl refl

ack_message_accepted_example :
    let s' = (ack_message store "a" "m1" "desk").0 in
    (m : Message) × (lookup (message_key "a" "m1") store.messages ≡ some m)
    × (m.account_id ≡ "a")
    × (m.owner_device_id ≡ "desk")
    × ◌≢◌ {A = String} "desk" ""
    × (has_message s' "a" "m1" ≡ false)
    × (lookup (message_key "a" "m2") s'.messages ≡ (
        if message_key "a" "m1" == message_key "a" "m2"
        then none
        else lookup (message_key "a" "m2") store.messages))
unfolding ack_message lookup
ack_message_accepted_example =
    Messages.ack_message_accepted store "a" "m1" "desk" (message_key "a" "m2") refl

abbrev elsewhere : Message
elsewhere = record (note "m4" (pos 4)) { account_id = "b" }

abbrev full : Store
full = record store {
  messages =
      (message_key "a" "m3", note "m3" (pos 3))
      ∷ (message_key "b" "m4", elsewhere)
      ∷ (message_key "a" "m1", note "m1" (pos 1))
      ∷ (message_key "a" "m2", note "m2" (pos 2))
      ∷ [];
  next_cursor = pos 4;
}

two_of_three :
    list_messages full "a" "desk" (pos 0) (pos 2) ≡ note "m1" (pos 1) ∷ note "m2" (pos 2) ∷ []
unfolding list_messages sort place keep values
two_of_three = refl

list_messages-Page_example :
    (n : ℕ) × IsCap (pos 2) n
    × Page full "a" "desk" (pos 0) n (list_messages full "a" "desk" (pos 0) (pos 2))
list_messages-Page_example = Pages.list_messages-Page full "a" "desk" (pos 0) (pos 2)

revoke_device_shuts_out_example :
    let s' = (revoke_device store "phone").0 in
    (d : Device) × (lookup "phone" store.devices ≡ some d)
    × (get_device s' "phone" ≡ (record d { revoked = true }, false))
    × (get_device_for_account s' "a" "phone" ≡ (record d { revoked = true }, false))
    × (device_exists s' "phone" ≡ false)
    × (device_type s' "phone" ≡ (d.type, false))
    × (device_account_id s' "phone" ≡ (d.account_id, false))
unfolding revoke_device lookup
revoke_device_shuts_out_example = Devices.revoke_device_shuts_out store "phone" "a" refl

revoked_token_refused_example :
    owns_token (λ s. s) (revoke_device store "phone").0 "secret" "phone" ≡ false
unfolding revoke_device lookup
revoked_token_refused_example =
    Devices.revoked_token_refused (λ s. s) store "phone" "secret" store-DevicesInv refl

consume_pair_once_example :
    (lookup "123" store.pairs ≡ some code)
    × (9 ≤ code.expires_at)
    × ((consume_pair (consume_pair store "123" 9).0 "123" 9).1 ≡ none)
unfolding consume_pair lookup
consume_pair_once_example = Devices.consume_pair_once store "123" 9 9 code refl
