-- ===== src/Conversations/Retry.antt =====
-- A retry of a message finds the message that was stored, whatever calls lie between that put no
-- message under its id.
use alice_eve.Base.{
  ◌≡◌, ◌≢◌, refl, sym, true, false, ◌==◌, eq_iff, eq_refl, some, String, arith, Bool-cases,
  Option-cases, inl, inr, if◌then◌else◌,
}
use alice_eve.Base.Int.{inc64}
use alice_eve.Base.Results.{ok, Result-cases}
use alice_eve.Base.Dict.{lookup, insert, lookup-insert}
use alice_eve.Conversations.{Time, Conversation, Message, Repo, or_zero, conversation_active}
use alice_eve.Conversations.Memory.{
  create_conversation, close_conversation, put_message, store_message, update_message_status,
  get_conversation, client_key, key_of, filled,
}
use alice_eve.Conversations.Runs.{create_run, update_run, append_run_event, append_audit}
use alice_eve.Conversations.Progress.{Later, messages_move_forward}
use alice_eve.Conversations.Steps.{
  Step, creates_conversation, closes, puts, moves_message, creates_run, moves_run, appends, audits,
  Spares, Reaches, stays, then_step,
}

-- The key of a client's id leads to a message, and the conversation is one of the account.
pub record Remembers (key id conversation_id account_id : String) (r : Repo) : Type 0 where
  pub known : lookup key r.by_client ≡ some id
  pub conversation : Conversation
  pub there : lookup conversation_id r.conversations ≡ some conversation
  pub bound : conversation.account_id ≡ account_id

module _ (key id conversation_id account_id : String) where
  create_conversation-Remembers :
      (r : Repo) (c : Conversation)
      → Remembers key id conversation_id account_id r
      → Remembers key id conversation_id account_id (create_conversation r c).0
  unfolding create_conversation
  create_conversation-Remembers r c v =
      let filled = record c { status = if c.status == "" then conversation_active else c.status } in
      record {
        known = ground (arith, v.known);
        conversation = v.conversation;
        there = ground (
          arith,
          v.there,
          lookup-insert c.id conversation_id filled r.conversations,
          eq_iff c.id conversation_id,
        );
        bound = v.bound;
      }

  close_conversation-Remembers :
      (r : Repo) (account key' status : String) (now : Time)
      → Remembers key id conversation_id account_id r
      → Remembers key id conversation_id account_id (close_conversation r account key' status now).0
  unfolding close_conversation get_conversation
  close_conversation-Remembers r account key' status now v =
      elim (Result-cases (get_conversation r account key')) [
        | inr (x, bad) ↦ rw (bad, close_conversation) v
        | inl (c, good) ↦
            let closed = record c { status = status; updated_at = now } in
            let law = lookup-insert key' conversation_id closed r.conversations in
            elim (Bool-cases (key' == conversation_id)) [
              | inr other ↦ record {
                known = ground (arith, v.known, good);
                conversation = v.conversation;
                there = ground (arith, v.there, good, law, other);
                bound = v.bound;
              }
              | inl same ↦ record {
                known = ground (arith, v.known, good);
                conversation = closed;
                there = ground (arith, good, law, same);
                bound = ground (arith, v.there, v.bound, good, same, eq_iff key' conversation_id);
              }
            ]
      ]

  put_message-Remembers :
      (r : Repo) (n : Message) (now : Time)
      → Remembers key id conversation_id account_id r
      → Remembers key id conversation_id account_id (put_message r n now).0
  unfolding put_message store_message
  put_message-Remembers r n now v = record {
    known = elim (Option-cases (lookup n.conversation_id r.conversations)) [
      | inl gone ↦ ground (arith, gone, v.known)
      | inr (c, here) ↦
          let other = key_of (record n { account_id = c.account_id }) in
          ground (arith, here, v.known, lookup-insert other key n.id r.by_client, eq_iff other key)
    ];
    conversation = v.conversation;
    there = ground (arith, v.there);
    bound = v.bound;
  }

  Step-Remembers :
      (r s : Repo)
      → Step r s
      → Remembers key id conversation_id account_id r
      → Remembers key id conversation_id account_id s
  unfolding create_run update_run append_run_event append_audit update_message_status
  Step-Remembers r s (creates_conversation c) v = create_conversation-Remembers r c v
  Step-Remembers r s (closes account key' status now) v =
      close_conversation-Remembers r account key' status now v
  Step-Remembers r s (puts n now) v = put_message-Remembers r n now v
  Step-Remembers r s (moves_message account key' status at now) v = record {
    known = ground (arith, v.known);
    conversation = v.conversation;
    there = ground (arith, v.there);
    bound = v.bound;
  }
  Step-Remembers r s (creates_run run) v = record {
    known = ground (arith, v.known);
    conversation = v.conversation;
    there = ground (arith, v.there);
    bound = v.bound;
  }
  Step-Remembers r s (moves_run account key' status code at now) v = record {
    known = ground (arith, v.known);
    conversation = v.conversation;
    there = ground (arith, v.there);
    bound = v.bound;
  }
  Step-Remembers r s (appends x now fresh) v = record {
    known = ground (arith, v.known);
    conversation = v.conversation;
    there = ground (arith, v.there);
    bound = v.bound;
  }
  Step-Remembers r s (audits x now fresh) v = record {
    known = ground (arith, v.known);
    conversation = v.conversation;
    there = ground (arith, v.there);
    bound = v.bound;
  }

  Reaches-Remembers :
      (r s : Repo)
      → Reaches r s
      → Remembers key id conversation_id account_id r
      → Remembers key id conversation_id account_id s
  Reaches-Remembers r s stays v = v
  Reaches-Remembers r s (then_step t u before k) v =
      Step-Remembers t s k (Reaches-Remembers r t before v)

pub record Stored (s : Repo) (m stored : Message) : Type 0 where
  pub first : lookup m.id s.messages ≡ some stored
  pub remembers : Remembers (key_of stored) m.id m.conversation_id stored.account_id s
  pub account_named : (stored.account_id == "") ≡ false
  pub conversation_named : (m.conversation_id == "") ≡ false
  pub sender_named : (m.sender_device_id == "") ≡ false
  pub same_key :
      key_of stored
      ≡ client_key stored.account_id m.conversation_id m.sender_device_id m.client_message_id

-- What a call stores that answers with a new message.
pub put_message-Stored :
    (r s : Repo) (m stored : Message) (now : Time)
    → m.client_message_id ≢ ""
    → put_message r m now ≡ (s, ok (stored, false))
    → Stored s m stored
unfolding put_message store_message
put_message-Stored r s m stored now named h =
    elim (Option-cases (lookup m.conversation_id r.conversations)) [
      | inl gone ↦ absurd (ground (arith, gone, h))
      | inr (c, here) ↦
          let bound = record m { account_id = c.account_id } in
          let new = filled (inc64 (or_zero (lookup m.conversation_id r.next_cursor))) bound now in
          let empty : (m.client_message_id == "") ≡ false =
            ground (arith, named, eq_iff m.client_message_id "") in
          let same : stored ≡ new = ground (arith, here, h) in
          let messages : s.messages ≡ insert m.id new r.messages = ground (arith, here, h) in
          let conversations : s.conversations ≡ r.conversations = ground (arith, here, h) in
          let entered : s.by_client ≡ insert (key_of new) m.id r.by_client =
            ground (arith, here, h, empty) in
          record {
            first = rw (same, messages, lookup-insert m.id m.id new r.messages, eq_refl m.id) refl;
            remembers = rw same (record {
              known =
                  rw
                    (
                      entered,
                      lookup-insert (key_of new) (key_of new) m.id r.by_client,
                      eq_refl (key_of new),
                    )
                    refl;
              conversation = c;
              there = rw conversations here;
              bound = refl;
            });
            account_named = ground (arith, same, here, h);
            conversation_named = ground (arith, here, h);
            sender_named = ground (arith, here, h);
            same_key = rw same refl;
          }
    ]

-- After a message with a client's id was stored as new, and whatever calls follow, as long as none of
-- them puts a message under the id of the stored one (such a put could overwrite it; the service draws
-- a new id for each), another message with an id, of the same account and sender, with the same client's id in the same conversation
-- stores nothing: the answer is the first message as it is by then, marked as a duplicate, whatever
-- the second one says.
pub retry_finds_first :
    (r s t : Repo) (m stored n : Message) (now later : Time)
    → m.client_message_id ≢ ""
    → put_message r m now ≡ (s, ok (stored, false))
    → (between : Reaches s t) → Spares m.id between
    → n.id ≢ ""
    → n.account_id ≡ stored.account_id
    → n.conversation_id ≡ m.conversation_id
    → n.sender_device_id ≡ m.sender_device_id
    → n.client_message_id ≡ m.client_message_id
    → (m' : Message) × (put_message t n later ≡ (t, ok (m', true))) × Later stored m'
unfolding put_message store_message
retry_finds_first r s t m stored n now later named h between spares id account conversation sender
      client =
    let v = put_message-Stored r s m stored now named h in
    let w = Reaches-Remembers _ _ _ _ s t between v.remembers in
    let (m', there, l) = messages_move_forward s t between m.id stored v.first spares in
    let key : key_of (record n { account_id = stored.account_id }) ≡ key_of stored =
      rw (conversation, sender, client) (sym v.same_key) in
    let found : lookup n.conversation_id t.conversations ≡ some w.conversation =
      rw conversation w.there in
    let known : lookup (key_of (record n { account_id = stored.account_id })) t.by_client
        ≡ some m.id =
      rw key w.known in
    let id_named : (n.id == "") ≡ false = ground (arith, id, eq_iff n.id "") in
    let conversation_named : (n.conversation_id == "") ≡ false =
      rw conversation v.conversation_named in
    let sender_named : (n.sender_device_id == "") ≡ false = rw sender v.sender_named in
    (
      m',
      rw
          (
            found,
            w.bound,
            account,
            v.account_named,
            id_named,
            conversation_named,
            sender_named,
            eq_refl stored.account_id,
            known,
            there,
            put_message,
            store_message,
          )
          refl,
      l,
    )
