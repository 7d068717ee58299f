-- ===== src/Conversations/Access.antt =====
-- Who may change what: the service acts for authorized devices, within their account, and in the
-- direction that their kind may move a status.
use alice_eve.Base.{
  ◌≡◌, ◌≢◌, true, false, ◌==◌, eq_iff, some, String, arith, inl, inr, ◌⊎◌, ℕ, if◌then◌else◌,
  Option-cases, sym, subst,
}
use alice_eve.Base.Text.{is_blank}
use alice_eve.Base.Results.{ok, Result-cases}
use alice_eve.Base.Dict.{lookup, lookup-insert}
use alice_eve.Conversations.{
  Time, Actor, Conversation, Message, MessageInput, Repo, device_desktop, device_mobile,
  message_accepted, message_persisted, message_delivered, message_processed, message_failed,
}
use alice_eve.Conversations.Rules.{
  validate_actor, conversation_visible, can_advance, status_allowed_for_actor,
}
use alice_eve.Conversations.Memory.{
  get_conversation, get_message, find_message_by_client_id, put_message, store_message, client_key,
  key_of,
}
use alice_eve.Conversations.Memory
use alice_eve.Conversations.Retry.{put_message-Stored}
use alice_eve.Conversations.Service.{
  Authorizer, State, Limits, authorize, visible_conversation, may_move, update_message_status,
  acceptable, open_conversation, send_message, charge_and_put, request,
}

-- The actor may move the message to the status.
pub record MayMove (authorizer : Authorizer) (r : Repo) (actor : Actor) (id status : String)
    : Type 0 where
  pub message : Message
  pub conversation : Conversation
  pub authorized : authorize authorizer actor ≡ ok tt
  pub stored : lookup id r.messages ≡ some message
  pub bound : lookup message.conversation_id r.conversations ≡ some conversation
  pub own_account : conversation.account_id ≡ actor.account_id
  pub direction :
      ((actor.kind ≡ device_mobile)
        × (message.sender_device_id ≡ actor.device_id)
        × ((status ≡ message_accepted) ⊎ (status ≡ message_persisted)))
      ⊎ ((actor.kind ≡ device_desktop)
          × (conversation.target_device_id ≡ actor.device_id)
          × ((status ≡ message_delivered)
              ⊎ ((status ≡ message_processed) ⊎ (status ≡ message_failed))))
  pub advances : can_advance message.status status ≡ true

authorize-kind :
    (authorizer : Authorizer) (actor : Actor)
    → authorize authorizer actor ≡ ok tt
    → (actor.kind ≡ device_mobile) ⊎ (actor.kind ≡ device_desktop)
unfolding authorize validate_actor
authorize-kind authorizer actor h =
    ground (arith, h, eq_iff actor.kind device_mobile, eq_iff actor.kind device_desktop)

get_conversation-lookup :
    (r : Repo) (account_id id : String) (c : Conversation)
    → get_conversation r account_id id ≡ ok c
    → (lookup id r.conversations ≡ some c) × (c.account_id ≡ account_id)
unfolding get_conversation
get_conversation-lookup r account_id id c h =
    (ground arith, ground (arith, eq_iff c.account_id account_id))

get_message-lookup :
    (r : Repo) (account_id id : String) (m : Message)
    → get_message r account_id id ≡ ok m
    → lookup id r.messages ≡ some m
unfolding get_message
get_message-lookup r account_id id m h = ground arith

may_move-MayMove :
    (authorizer : Authorizer) (s : State) (actor : Actor) (id status : String)
    → may_move authorizer s actor id status ≡ ok tt
    → MayMove authorizer s.repo actor id status
unfolding may_move visible_conversation conversation_visible status_allowed_for_actor
may_move-MayMove authorizer s actor id status h = elim (Result-cases (authorize authorizer actor)) [
  | inr (x, bad) ↦ absurd (ground (arith, h, bad))
  | inl (_, allowed) ↦ elim (Result-cases (get_message s.repo actor.account_id id)) [
    | inr (x, bad) ↦ absurd (ground (arith, h, allowed, bad))
    | inl (m, good) ↦
        elim (Result-cases (get_conversation s.repo actor.account_id m.conversation_id)) [
          | inr (x, bad) ↦ absurd (ground (arith, h, allowed, good, bad))
          | inl (c, there) ↦
              let bound =
                get_conversation-lookup s.repo actor.account_id m.conversation_id c there in
              record {
                message = m;
                conversation = c;
                authorized = allowed;
                stored = get_message-lookup s.repo actor.account_id id m good;
                bound = bound.0;
                own_account = bound.1;
                direction = ground (
                  arith,
                  h,
                  allowed,
                  good,
                  there,
                  authorize-kind authorizer actor allowed,
                  eq_iff actor.kind device_mobile,
                  eq_iff actor.kind device_desktop,
                  eq_iff m.sender_device_id actor.device_id,
                  eq_iff c.target_device_id actor.device_id,
                  eq_iff status message_accepted,
                  eq_iff status message_persisted,
                  eq_iff status message_delivered,
                  eq_iff status message_processed,
                  eq_iff status message_failed,
                );
                advances = ground (arith, h, allowed, good, there);
              }
        ]
  ]
]

-- A status is changed only by an authorized device: the sending mobile to accepted or persisted, or
-- the desktop of the conversation to delivered, processed or failed; in a conversation of its
-- account, and only if the message may advance so. The message then has the status, and every other
-- message is as before.
pub update_message_status_ok :
    (authorizer : Authorizer) (s s' : State) (actor : Actor) (id status other : String) (now : Time)
    (m' : Message)
    → update_message_status authorizer s actor id status now ≡ (s', ok m')
    → MayMove authorizer s.repo actor id status
      × (m'.status ≡ status)
      × (lookup other s'.repo.messages
          ≡ (if id == other then some m' else lookup other s.repo.messages))
unfolding update_message_status Memory.update_message_status
update_message_status_ok authorizer s s' actor id status other now m' h =
    elim (Result-cases (may_move authorizer s actor id status)) [
      | inr (x, bad) ↦ absurd (ground (arith, h, bad))
      | inl (_, allowed) ↦ elim (Result-cases (get_message s.repo actor.account_id id)) [
        | inr (x, bad) ↦ absurd (ground (arith, h, allowed, bad))
        | inl (m, good) ↦ (
          may_move-MayMove authorizer s actor id status allowed,
          ground (arith, h, allowed, good),
          ground (arith, h, allowed, good, lookup-insert id other m' s.repo.messages),
        )
      ]
    ]

not_blank : (s : String) → is_blank s ≡ false → s ≢ ""
unfolding is_blank
not_blank s h e = absurd (ground (arith, subst (λ (t : String). is_blank t ≡ false) e h))

put_message-account :
    (r s : Repo) (n m : Message) (now : Time)
    → n.account_id ≢ ""
    → put_message r n now ≡ (s, ok (m, false))
    → m.account_id ≡ n.account_id
unfolding put_message store_message
put_message-account r s n m now named h =
    elim (Option-cases (lookup n.conversation_id r.conversations)) [
      | inl gone ↦ absurd (ground (arith, h, gone))
      | inr (c, there) ↦
          ground (arith, h, there, named, eq_iff n.account_id "", eq_iff n.account_id c.account_id)
    ]

-- A message that was stored as new is found by its client's id.
put_message-find :
    (r s : Repo) (n m : Message) (now : Time)
    → n.account_id ≢ ""
    → n.client_message_id ≢ ""
    → put_message r n now ≡ (s, ok (m, false))
    → find_message_by_client_id s n.account_id n.conversation_id n.sender_device_id
        n.client_message_id
      ≡ some m
unfolding find_message_by_client_id
put_message-find r s n m now account_named client_named h =
    let v = put_message-Stored r s n m now client_named h in
    let account = put_message-account r s n m now account_named h in
    let key : client_key n.account_id n.conversation_id n.sender_device_id n.client_message_id
        ≡ key_of m =
      rw (sym account) (sym v.same_key) in
    let known : lookup
          (client_key n.account_id n.conversation_id n.sender_device_id n.client_message_id)
          s.by_client
        ≡ some n.id =
      rw key v.remembers.known in
    rw (find_message_by_client_id, known) v.first

module _ (authorizer : Authorizer) (message_size : MessageInput → ℕ) (cfg : Limits) where
  charge_and_put_ok :
      (s s' : State) (actor : Actor) (conversation_id : String) (input : MessageInput)
      (fresh : String) (now : Time) (m : Message)
      → charge_and_put authorizer message_size cfg s actor conversation_id input fresh now
        ≡ (s', ok (m, false))
      → put_message s.repo
          (request authorizer message_size cfg actor conversation_id input fresh now)
          now
        ≡ (s'.repo, ok (m, false))
  unfolding charge_and_put
  charge_and_put_ok s s' actor conversation_id input fresh now m h = ground arith

  acceptable_named :
      (actor : Actor) (conversation_id : String) (input : MessageInput)
      → acceptable authorizer message_size cfg actor conversation_id input ≡ ok tt
      → (actor.account_id ≢ "") × (input.client_message_id ≢ "")
  unfolding acceptable authorize validate_actor
  acceptable_named actor conversation_id input h = (
    not_blank actor.account_id (ground (arith, h)),
    not_blank input.client_message_id (ground (arith, h)),
  )

  -- After a call that stored a new message, sending the same input again, at any time and whatever
  -- the limiter says by then, answers with the message that the first call stored, marked as a
  -- duplicate, and changes nothing: neither the repository nor the limiter.
  pub send_message_twice :
      (s s' : State) (actor : Actor) (conversation_id : String) (input : MessageInput)
      (fresh fresh' : String) (now later : Time) (m : Message)
      → send_message authorizer message_size cfg s actor conversation_id input fresh now
        ≡ (s', ok (m, false))
      → send_message authorizer message_size cfg s' actor conversation_id input fresh' later
        ≡ (s', ok (m, true))
  unfolding send_message
  send_message_twice s s' actor conversation_id input fresh fresh' now later m h =
      elim (Result-cases (acceptable authorizer message_size cfg actor conversation_id input)) [
        | inr (x, bad) ↦ absurd (ground (arith, h, bad))
        | inl (_, fit) ↦
            elim (Option-cases (
              find_message_by_client_id s.repo actor.account_id conversation_id actor.device_id
                input.client_message_id)) [
                  | inr (x, again) ↦ absurd (ground (arith, h, fit, again))
                  | inl new ↦
                      elim (Result-cases
                        (open_conversation authorizer message_size cfg s actor conversation_id)) [
                          | inr (x, bad) ↦ absurd (ground (arith, h, fit, new, bad))
                          | inl (c, opened) ↦
                              let named = acceptable_named actor conversation_id input fit in
                              let put =
                                charge_and_put_ok s s' actor conversation_id input fresh now m
                                  (ground (arith, h, fit, new, opened)) in
                              let found =
                                put_message-find s.repo s'.repo _ m now named.0 named.1 put in
                              ground (arith, fit, found)
                        ]
                ]
      ]
