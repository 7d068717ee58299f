-- ===== src/Store/Messages.antt =====
-- The backlog: each message is stored once, a new one gets a cursor above all others, and it leaves
-- by an acknowledgement of its owner.
use alice_eve.Base.{
  ◌≡◌, true, false, ◌==◌, eq_iff, none, some, String, arith, if◌then◌else◌, Bool-cases,
  Option-cases, inl, inr, ◌≢◌,
}
use alice_eve.Base.Int.{ℤ, pos, ◌≤ℤ◌, ◌<ℤ◌, max_int64, inc64, inc64_parts, ltb_ℤ}
use alice_eve.Base.Dict.{lookup, insert, Distinct, lookup-insert, lookup-delete, insert-Distinct}
use alice_eve.Store.{Message, Store, message_key, put_message, has_message, ack_message}

pub record Inv (s : Store) : Type 0 where
  pub one_entry : Distinct s.messages
  pub keyed :
      (k : String) (m : Message) → lookup k s.messages ≡ some m → k ≡ message_key m.account_id m.id
  pub below : (k : String) (m : Message) → lookup k s.messages ≡ some m → m.cursor ≤ℤ s.next_cursor

-- The two ways to store a message under a free key.
stored-Inv :
    (s : Store) (m : Message) (next : ℤ)
    → s.next_cursor ≤ℤ next
    → m.cursor ≤ℤ next
    → Inv s
    → Inv (record s {
      next_cursor = next;
      messages = insert (message_key m.account_id m.id) m s.messages;
    })
stored-Inv s m next up within v = record {
  one_entry = insert-Distinct (message_key m.account_id m.id) m s.messages v.one_entry;
  keyed = λ k u e. elim (Bool-cases (message_key m.account_id m.id == k)) [
    | inl here ↦ ground (arith, law k, eq_iff (message_key m.account_id m.id) k)
    | inr there ↦ ground (arith, law k, v.keyed k u)
  ];
  below = λ k u e. elim (Bool-cases (message_key m.account_id m.id == k)) [
    | inl here ↦ ground (arith, law k)
    | inr there ↦ ground (arith, law k, v.below k u)
  ];
}
  where
    law :
        (k : String)
        → lookup k (insert (message_key m.account_id m.id) m s.messages)
          ≡ (if message_key m.account_id m.id == k then some m else lookup k s.messages)
    law k = lookup-insert (message_key m.account_id m.id) k m s.messages

-- Putting a message keeps the invariant, as long as the counter has not reached the greatest int64:
-- each message stands once, under the key of its account and id, and no cursor is above the
-- counter.
pub put_message-Inv :
    (s : Store) (m : Message) → s.next_cursor <ℤ pos max_int64 → Inv s → Inv (put_message s m)
unfolding put_message
put_message-Inv s m room v = ground (
  arith,
  inc64_parts s.next_cursor room,
  stored-Inv s (record m { cursor = inc64 s.next_cursor }) (inc64 s.next_cursor),
  stored-Inv s m (if ltb_ℤ s.next_cursor m.cursor then m.cursor else s.next_cursor),
)

-- In a store that satisfies the invariant and whose counter has not reached the greatest int64, a
-- message without a cursor whose key is free gets a cursor above that of every stored message, and
-- is stored under its key; every stored message stays as it was.
pub put_message_newest :
    (s : Store) (m : Message) (k : String) (old : Message)
    → Inv s
    → s.next_cursor <ℤ pos max_int64
    → m.cursor ≡ pos 0
    → lookup (message_key m.account_id m.id) s.messages ≡ none
    → lookup k s.messages ≡ some old
    → (c : ℤ) × (lookup (message_key m.account_id m.id) (put_message s m).messages
        ≡ some (record m { cursor = c }))
      × (old.cursor <ℤ c)
      × (lookup k (put_message s m).messages ≡ some old)
unfolding put_message
put_message_newest s m k old v room fresh free stored = (
  inc64 s.next_cursor,
  ground (
    arith,
    law (message_key m.account_id m.id),
    eq_iff (message_key m.account_id m.id) (message_key m.account_id m.id),
  ),
  ground (arith, v.below k old stored, inc64_parts s.next_cursor room),
  ground (arith, law k, eq_iff (message_key m.account_id m.id) k),
)
  where
    law :
        (j : String)
        → lookup j (
            insert
              (message_key m.account_id m.id)
              (record m { cursor = inc64 s.next_cursor })
              s.messages)
          ≡ (if message_key m.account_id m.id == j
              then some (record m { cursor = inc64 s.next_cursor })
              else lookup j s.messages)
    law j = lookup-insert (message_key m.account_id m.id) j _ s.messages

-- After a message was put, putting another one under the same key changes nothing, whatever it
-- says.
pub put_message_again :
    (s : Store) (m n : Message)
    → message_key n.account_id n.id ≡ message_key m.account_id m.id
    → put_message (put_message s m) n ≡ put_message s m
unfolding put_message
put_message_again s m n same = ground (
  arith,
  lookup-insert (message_key m.account_id m.id) (message_key n.account_id n.id)
      (record m { cursor = inc64 s.next_cursor }) s.messages,
  lookup-insert (message_key m.account_id m.id) (message_key n.account_id n.id) m s.messages,
  eq_iff (message_key m.account_id m.id) (message_key n.account_id n.id),
)

-- An acknowledgement is accepted only for a stored message of that account and owner, with a
-- non-empty owner. The message is gone then, and every other one stays.
pub ack_message_accepted :
    (s : Store) (account_id id owner other : String)
    → (ack_message s account_id id owner).1 ≡ true
    → let s' = (ack_message s account_id id owner).0 in
      (m : Message) × (lookup (message_key account_id id) s.messages ≡ some m)
      × (m.account_id ≡ account_id)
      × (m.owner_device_id ≡ owner)
      × (owner ≢ "")
      × (has_message s' account_id id ≡ false)
      × (lookup other s'.messages
          ≡ (if message_key account_id id == other then none else lookup other s.messages))
unfolding ack_message has_message
ack_message_accepted s account_id id owner other h =
    elim (Option-cases (lookup (message_key account_id id) s.messages)) [
      | inl e ↦ absurd (ground arith)
      | inr (m, e) ↦ (
        m,
        e,
        ground (arith, eq_iff m.account_id account_id),
        ground (arith, eq_iff m.owner_device_id owner),
        ground (arith, eq_iff m.owner_device_id owner, eq_iff m.owner_device_id ""),
        ground (
          arith,
          lookup-delete (message_key account_id id) (message_key account_id id) s.messages,
          eq_iff (message_key account_id id) (message_key account_id id),
        ),
        ground (arith, lookup-delete (message_key account_id id) other s.messages),
      )
    ]

-- An acknowledgement that is refused changes nothing.
ack_message_refused :
    (s : Store) (account_id id owner : String)
    → (ack_message s account_id id owner).1 ≡ false
    → (ack_message s account_id id owner).0 ≡ s
unfolding ack_message
ack_message_refused s account_id id owner h = ground arith
