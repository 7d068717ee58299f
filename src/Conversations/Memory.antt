-- ===== src/Conversations/Memory.antt =====
-- memory.go: conversations and messages in the in-memory repository. `now` is the clock.
use Prim.Native.String.{◌++◌}
use alice_eve.Base.{
  Bool, true, false, ◌==◌, ◌||◌, ◌&&◌, not, Option, none, some, String, is_some, if◌then◌else◌,
  List, [], ◌∷◌, ltb, eqb, take, keep, length,
}
use alice_eve.Base.Results.{Result, ok, err}
use alice_eve.Base.Text.{is_blank, text_less}
use alice_eve.Base.Int.{ℤ, pos, inc64, ltb_ℤ}
use alice_eve.Base.Dict.{lookup, insert, values}
use alice_eve.Base.Sort.{sort}
use alice_eve.Conversations.{
  Time, Error, forbidden, not_found, conflict, invalid, invalid_status, Conversation, Message,
  MessagePage, Repo, conversation_active, message_persisted, or_zero, page_limit, or_time,
}
use alice_eve.Conversations.Rules.{can_advance}

unfoldable pub create_conversation : Repo → Conversation → Repo × Result Error (Unit {0})
create_conversation r c =
    if is_blank c.id || is_blank c.account_id
    then (r, err invalid)
    else if is_some (lookup c.id r.conversations)
    then (r, err conflict)
    else let filled = record c {
      status = if c.status == "" then conversation_active else c.status;
    } in
      (record r { conversations = insert c.id filled r.conversations }, ok tt)

-- A conversation, if the account is its own.
abbrev pub of_account : String → Option Conversation → Result Error Conversation
of_account account_id none = err not_found
of_account account_id (some c) = if c.account_id == account_id then ok c else err not_found

unfoldable pub get_conversation : Repo → String → String → Result Error Conversation
get_conversation r account_id id = of_account account_id (lookup id r.conversations)

abbrev pub fresher : Conversation → Conversation → Bool
fresher c d =
    if eqb c.updated_at d.updated_at then text_less c.id d.id else ltb d.updated_at c.updated_at

unfoldable pub list_conversations : Repo → String → ℤ → List Conversation
list_conversations r account_id limit =
    take (page_limit limit)
      (sort fresher (keep (λ c. c.account_id == account_id) (values r.conversations)))

unfoldable pub close_conversation :
    Repo → String → String → String → Time → Repo × Result Error (Unit {0})
close_conversation r account_id id status now = elim (get_conversation r account_id id) [
  | err e ↦ (r, err e)
  | ok c ↦ (
    record r {
      conversations = insert id (record c { status = status; updated_at = now }) r.conversations;
    },
    ok tt,
  )
]

unfoldable pub client_key : String → String → String → String → String
client_key account_id conversation_id device_id client_message_id =
    account_id ++ "\0" ++ conversation_id ++ "\0" ++ device_id ++ "\0" ++ client_message_id

-- Go's zero `Message`.
abbrev pub no_message : Message
no_message = record {
  id = "";
  account_id = "";
  conversation_id = "";
  sender_kind = "";
  sender_device_id = "";
  client_message_id = "";
  operation = "";
  body = "";
  metadata = none;
  status = "";
  cursor = pos 0;
  created_at = 0;
  updated_at = 0;
}

abbrev pub or_no_message : Option Message → Message
or_no_message none = no_message
or_no_message (some m) = m

-- The message with its cursor and its defaults.
abbrev pub filled : ℤ → Message → Time → Message
filled cursor m now = record m {
  status = if m.status == "" then message_persisted else m.status;
  cursor = cursor;
  created_at = or_time m.created_at now;
  updated_at = or_time m.updated_at (or_time m.created_at now);
}

-- `PutMessage` from the search for the client's id on.
unfoldable pub store_message : Repo → Message → String → Time → Repo × Result Error (Message × Bool)
store_message r m key now = elim (lookup key r.by_client) [
  | some id ↦ (r, ok (or_no_message (lookup id r.messages), true))
  | none ↦
      let cursor = inc64 (or_zero (lookup m.conversation_id r.next_cursor)) in
      let stored = filled cursor m now in
      (
        record r {
          next_cursor = insert m.conversation_id cursor r.next_cursor;
          messages = insert m.id stored r.messages;
          by_client =
              if m.client_message_id == "" then r.by_client else insert key m.id r.by_client;
        },
        ok (stored, false),
      )
]

-- The key and the account of a message are those of its conversation.
abbrev pub key_of : Message → String
key_of m = client_key m.account_id m.conversation_id m.sender_device_id m.client_message_id

unfoldable pub put_message : Repo → Message → Time → Repo × Result Error (Message × Bool)
put_message r m now = elim (lookup m.conversation_id r.conversations) [
  | none ↦ (r, err not_found)
  | some c ↦
      if c.account_id == ""
      then (r, err not_found)
      else if m.id == "" || m.conversation_id == "" || m.sender_device_id == ""
      then (r, err invalid)
      else if not (m.account_id == "") && not (m.account_id == c.account_id)
      then (r, err forbidden)
      else let bound = record m { account_id = c.account_id } in
        store_message r bound (key_of bound) now
]

unfoldable pub find_message_by_client_id : Repo → String → String → String → String → Option Message
find_message_by_client_id r account_id conversation_id device_id client_message_id =
    elim (lookup (client_key account_id conversation_id device_id client_message_id) r.by_client) [
      | none ↦ none
      | some id ↦ lookup id r.messages
    ]

unfoldable pub get_message : Repo → String → String → Result Error Message
get_message r account_id id = elim (lookup id r.messages) [
  | none ↦ err not_found
  | some m ↦ elim (get_conversation r account_id m.conversation_id) [ err e ↦ err e | ok c ↦ ok m ]
]

-- The greatest cursor of the messages in conversations of the account.
greatest_cursor : Repo → String → ℤ → List Message → ℤ
greatest_cursor r account_id cursor [] = cursor
greatest_cursor r account_id cursor (m ∷ ms) =
    let next : ℤ = elim (get_conversation r account_id m.conversation_id) [
      | err e ↦ cursor
      | ok c ↦ if ltb_ℤ cursor m.cursor then m.cursor else cursor
    ] in
    greatest_cursor r account_id next ms

unfoldable pub snapshot_cursor : Repo → String → ℤ
unfolding greatest_cursor
snapshot_cursor r account_id = greatest_cursor r account_id (pos 0) (values r.messages)

abbrev pub earlier : Message → Message → Bool
earlier m n = ltb_ℤ m.cursor n.cursor

-- `items[len(items)-1].Cursor`, or the default.
unfoldable pub last_cursor : ℤ → List Message → ℤ
last_cursor d [] = d
last_cursor d (m ∷ ms) = last_cursor m.cursor ms

unfoldable pub list_messages : Repo → String → String → ℤ → ℤ → Result Error MessagePage
list_messages r account_id conversation_id after limit =
    elim (get_conversation r account_id conversation_id) [
      | err e ↦ err e
      | ok c ↦
          let found = sort earlier (
            keep (λ m. m.conversation_id == conversation_id && ltb_ℤ after m.cursor)
              (values r.messages)) in
          let items = take (page_limit limit) found in
          ok (record {
            messages = items;
            next_cursor = last_cursor after items;
            has_more = ltb (page_limit limit) (length found);
          })
    ]

unfoldable pub update_message_status :
    Repo → String → String → String → Time → Time → Repo × Result Error Message
update_message_status r account_id id status at now = elim (get_message r account_id id) [
  | err e ↦ (r, err e)
  | ok m ↦
      if not (can_advance m.status status)
      then (r, err invalid_status)
      else let moved = record m { status = status; updated_at = or_time at now } in
        (record r { messages = insert id moved r.messages }, ok moved)
]
