-- ===== src/Conversations/Progress.antt =====
-- Messages are never lost, and their statuses only go forward, as long as none is put again under its
-- own id.
use alice_eve.Base.{
  ◌≡◌, ◌≢◌, refl, true, ◌==◌, ◌||◌, eq_iff, some, String, arith, Option-cases, Bool-cases, inl, inr,
  ◌⊎◌, ◌≤◌, ◌∙◌,
}
use alice_eve.Base.Int.{inc64}
use alice_eve.Base.Results.{ok, Result-cases}
use alice_eve.Base.Dict.{lookup, lookup-insert}
use alice_eve.Conversations.{
  Time, Message, Repo, message_failed, message_processed, or_zero, or_time,
}
use alice_eve.Conversations.Rules.{can_advance, status_rank}
use alice_eve.Conversations.Memory.{
  create_conversation, close_conversation, put_message, store_message, update_message_status,
  get_message, filled,
}
use alice_eve.Conversations.Runs.{create_run, update_run, append_run_event, append_audit}
use alice_eve.Conversations.Steps.{
  Step, creates_conversation, closes, puts, moves_message, creates_run, moves_run, appends, audits,
  StepSpares, Spares, Reaches, stays, then_step,
}

-- A message that failed or was processed stays so; any other fails, or does not lose rank.
pub record Forward (s s' : String) : Type 0 where
  pub final : (s == message_failed || s == message_processed) ≡ true → s' ≡ s
  pub forward : (s' ≡ message_failed) ⊎ (status_rank s ≤ status_rank s')

Forward-refl : (s : String) → Forward s s
Forward-refl s = record { final = λ e. refl; forward = inr (omega arith) }

can_advance-Forward : (s s' : String) → can_advance s s' ≡ true → Forward s s'
unfolding can_advance
can_advance-Forward s s' h = record {
  final = λ e. ground (arith, h, eq_iff s s', eq_iff s message_failed, eq_iff s message_processed);
  forward = ground (arith, h, eq_iff s s', eq_iff s' message_failed);
}

Forward-trans : (s t u : String) → Forward s t → Forward t u → Forward s u
Forward-trans s t u h k = record {
  final = λ e. ground (arith, h.final e, k.final);
  forward = ground (arith, h.forward, k.forward, k.final, eq_iff t message_failed);
}

-- How a message may look after further calls.
pub record Later (m m' : Message) : Type 0 where
  pub same_account : m'.account_id ≡ m.account_id
  pub same_conversation : m'.conversation_id ≡ m.conversation_id
  pub same_sender : m'.sender_device_id ≡ m.sender_device_id
  pub same_client_id : m'.client_message_id ≡ m.client_message_id
  pub same_body : m'.body ≡ m.body
  pub same_cursor : m'.cursor ≡ m.cursor
  pub status : Forward m.status m'.status

Later-refl : (m : Message) → Later m m
Later-refl m = record {
  same_account = refl;
  same_conversation = refl;
  same_sender = refl;
  same_client_id = refl;
  same_body = refl;
  same_cursor = refl;
  status = Forward-refl m.status;
}

Later-trans : (m n o : Message) → Later m n → Later n o → Later m o
Later-trans m n o h k = record {
  same_account = k.same_account ∙ h.same_account;
  same_conversation = k.same_conversation ∙ h.same_conversation;
  same_sender = k.same_sender ∙ h.same_sender;
  same_client_id = k.same_client_id ∙ h.same_client_id;
  same_body = k.same_body ∙ h.same_body;
  same_cursor = k.same_cursor ∙ h.same_cursor;
  status = Forward-trans m.status n.status o.status h.status k.status;
}

abbrev Kept : String → Message → Repo → Type 0
Kept id m r = (m' : Message) × (lookup id r.messages ≡ some m') × Later m m'

put_message-Kept :
    (r : Repo) (n : Message) (now : Time) (id : String) (m : Message)
    → n.id ≢ id
    → lookup id r.messages ≡ some m
    → Kept id m (put_message r n now).0
unfolding put_message store_message
put_message-Kept r n now id m apart e =
    elim (Option-cases (lookup n.conversation_id r.conversations)) [
      | inl gone ↦ (m, ground (arith, gone), Later-refl m)
      | inr (c, here) ↦
          let bound = record n { account_id = c.account_id } in
          let stored =
            filled (inc64 (or_zero (lookup n.conversation_id r.next_cursor))) bound now in
          (
            m,
            ground (arith, here, lookup-insert n.id id stored r.messages, eq_iff n.id id),
            Later-refl m,
          )
    ]

get_message-lookup :
    (r : Repo) (account_id id : String) (m : Message)
    → get_message r account_id id ≡ ok m
    → lookup id r.messages ≡ some m
unfolding get_message
get_message-lookup r account_id id m h = ground arith

update_message_status-Kept :
    (r : Repo) (account_id key status : String) (at now : Time) (id : String) (m : Message)
    → lookup id r.messages ≡ some m
    → Kept id m (update_message_status r account_id key status at now).0
unfolding update_message_status
update_message_status-Kept r account_id key status at now id m e =
    elim (Result-cases (get_message r account_id key)) [
      | inr (x, bad) ↦ (m, ground (arith, bad), Later-refl m)
      | inl (n, good) ↦ elim (Bool-cases (can_advance n.status status)) [
        | inr refused ↦ (m, ground (arith, good, refused), Later-refl m)
        | inl fits ↦
            let there = get_message-lookup r account_id key n good in
            let moved = record n { status = status; updated_at = or_time at now } in
            let law = lookup-insert key id moved r.messages in
            elim (Bool-cases (key == id)) [
              | inr other ↦ (m, ground (arith, good, fits, law, other), Later-refl m)
              | inl same ↦
                  let one : n ≡ m = ground (arith, same, e, there, eq_iff key id) in
                  let forward : Forward m.status status =
                    can_advance-Forward m.status status (ground (arith, one, fits)) in
                  (
                    record m { status = status; updated_at = or_time at now },
                    ground (arith, good, fits, law, same, one),
                    record {
                      same_account = refl;
                      same_conversation = refl;
                      same_sender = refl;
                      same_client_id = refl;
                      same_body = refl;
                      same_cursor = refl;
                      status = forward;
                    },
                  )
            ]
      ]
    ]

-- The other calls leave the messages alone.
Step-Kept :
    (r s : Repo)
    → (k : Step r s) → (id : String) (m : Message) → lookup id r.messages ≡ some m
    → StepSpares id k
    → Kept id m s
unfolding create_conversation close_conversation create_run update_run append_run_event append_audit
    StepSpares
Step-Kept r s (creates_conversation c) id m e spares = (m, ground arith, Later-refl m)
Step-Kept r s (closes account_id key status now) id m e spares = (m, ground arith, Later-refl m)
Step-Kept r s (puts n now) id m e apart = put_message-Kept r n now id m apart e
Step-Kept r s (moves_message account_id key status at now) id m e spares =
    update_message_status-Kept r account_id key status at now id m e
Step-Kept r s (creates_run run) id m e spares = (m, ground arith, Later-refl m)
Step-Kept r s (moves_run account_id key status code at now) id m e spares =
    (m, ground arith, Later-refl m)
Step-Kept r s (appends x now fresh) id m e spares = (m, ground arith, Later-refl m)
Step-Kept r s (audits a now fresh) id m e spares = (m, ground arith, Later-refl m)

-- Whatever calls follow, in any order, as long as none of them puts a message under the same id (such
-- a put would overwrite the message; the service draws a new id for each), a stored message stays under its id with its account,
-- conversation, sender, client's id, body and cursor. If it was processed or had failed, its status
-- stays as well; otherwise the message has failed then, or its status did not lose rank.
pub messages_move_forward :
    (r s : Repo)
    → (calls : Reaches r s) → (id : String) (m : Message) → lookup id r.messages ≡ some m
    → Spares id calls
    → (m' : Message) × (lookup id s.messages ≡ some m') × Later m m'
unfolding Spares
messages_move_forward r s stays id m e spares = (m, e, Later-refl m)
messages_move_forward r s (then_step t u before k) id m e spares =
    let (m', e', l') = messages_move_forward r t before id m e spares.0 in
    let (m'', e'', l'') = Step-Kept t s k id m' e' spares.1 in
    (m'', e'', Later-trans m m' m'' l' l'')
