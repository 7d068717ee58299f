-- ===== src/Conversations/Service.antt =====
-- conversations.go: the service over the in-memory repository, for conversations and messages. The
-- authorizer is an argument (`none` if there is none), and so is the length of the JSON text of an
-- input, `message_size`. `fresh` is the id that `NewID` draws, `now` the clock.
use Prim.Native.String.{◌++◌}
use alice_eve.Base.{
  Bool, true, ◌==◌, ◌||◌, ◌&&◌, not, Option, none, some, String, if◌then◌else◌, ℕ, leb, ◌*◌,
}
use alice_eve.Base.Results.{Result, ok, err, ◌>>=◌, ◌>>◌, guard}
use alice_eve.Base.Text.{is_blank}
use alice_eve.Base.Int.{ℤ, pos, leb_ℤ, pos_part}
use alice_eve.RateLimit.{Limiter, Refusal, retry_after, conversation_allow}
use alice_eve.RateLimit
use alice_eve.Conversations.{
  Time, Actor, Error, forbidden, closed, invalid, invalid_operation, operation_required,
  message_too_large, invalid_status, panics, rate_limited, Conversation, Message, MessageInput,
  MessagePage, Repo, device_desktop, device_mobile, conversation_active, conversation_closed,
  conversation_cancelled, message_persisted,
}
use alice_eve.Conversations.Rules.{
  validate_actor, conversation_visible, valid_message_status, status_allowed_for_actor, can_advance,
  is_allowed_operation,
}
use alice_eve.Conversations.Memory

-- `Config` as it is given, before the defaults.
pub record Config : Type 0 where
  pub max_message_bytes : ℤ
  pub messages_per_window : ℤ
  pub rate_window : ℤ
  pub require_operation : Bool

pub record Limits : Type 0 where
  pub max_message_bytes : ℕ
  pub messages_per_window : ℕ
  pub rate_window : ℕ
  pub require_operation : Bool

-- A setting, or its default if it is not positive.
abbrev or_default : ℤ → ℕ → ℕ
or_default n d = if leb_ℤ n (pos 0) then d else pos_part n

unfoldable with_defaults : Config → Limits
with_defaults c = record {
  max_message_bytes = or_default c.max_message_bytes (256 * 1024);
  messages_per_window = or_default c.messages_per_window 30;
  rate_window = or_default c.rate_window 60_000_000_000;
  require_operation = c.require_operation;
}

abbrev pub Authorizer : Type 0
Authorizer = Option (Actor → Result Error (Unit {0}))

-- What the service changes: the repository and its limiter.
pub record State : Type 0 where
  pub repo : Repo
  pub limiter : Limiter

unfoldable refusal : Refusal → Error
refusal (retry_after d) = rate_limited d
refusal RateLimit.panics = panics

module _ (authorizer : Authorizer) where
  -- The check of the authorizer, if there is one.
  abbrev pub asked : Authorizer → Actor → Result Error (Unit {0})
  asked none actor = ok tt
  asked (some f) actor = f actor

  unfoldable pub authorize : Actor → Result Error (Unit {0})
  authorize actor = do validate_actor actor; asked authorizer actor

  -- The conversation with the id, for an actor who may see it.
  unfoldable pub visible_conversation : State → Actor → String → Result Error Conversation
  visible_conversation s actor id = do
    c ← Memory.get_conversation s.repo actor.account_id id
    guard (conversation_visible c actor) forbidden
    ok c

  unfoldable pub may_create : Actor → String → String → Result Error (Unit {0})
  may_create actor target_device_id agent_kind = do
    validate_actor actor
    authorize actor
    guard (not (is_blank target_device_id || actor.account_id == "" || is_blank agent_kind)) invalid
    authorize (record {
      account_id = actor.account_id;
      device_id = target_device_id;
      kind = device_desktop;
    })

  unfoldable create_conversation :
      State → Actor → String → String → String → Time → State × Result Error Conversation
  create_conversation s actor target_device_id agent_kind fresh now =
      elim (may_create actor target_device_id agent_kind) [
        | err e ↦ (s, err e)
        | ok _ ↦
            let c : Conversation = record {
              id = fresh;
              account_id = actor.account_id;
              target_device_id = target_device_id;
              agent_kind = agent_kind;
              status = conversation_active;
              created_at = now;
              updated_at = now;
            } in
            let (repo, out) = Memory.create_conversation s.repo c in
            (record s { repo = repo }, out >> ok c)
      ]

  unfoldable get_conversation : State → Actor → String → Result Error Conversation
  get_conversation s actor id = do
    authorize actor
    guard (not (is_blank id)) invalid
    visible_conversation s actor id

  unfoldable pub list_messages : State → Actor → String → ℤ → ℤ → Result Error MessagePage
  list_messages s actor conversation_id after limit = do
    authorize actor
    c ← visible_conversation s actor conversation_id
    Memory.list_messages s.repo actor.account_id conversation_id after limit

  -- What `UpdateMessageStatus` checks before it asks the repository.
  unfoldable pub may_move : State → Actor → String → String → Result Error (Unit {0})
  may_move s actor message_id status = do
    authorize actor
    guard (not (is_blank message_id || not (valid_message_status status))) invalid
    m ← Memory.get_message s.repo actor.account_id message_id
    c ← visible_conversation s actor m.conversation_id
    guard (not (actor.kind == device_mobile && not (m.sender_device_id == actor.device_id)))
        forbidden
    guard (not (actor.kind == device_desktop && not (c.target_device_id == actor.device_id)))
        forbidden
    guard (status_allowed_for_actor actor.kind status) forbidden
    guard (can_advance m.status status) invalid_status

  unfoldable pub update_message_status :
      State → Actor → String → String → Time → State × Result Error Message
  update_message_status s actor message_id status now = elim (may_move s actor message_id status) [
    | err e ↦ (s, err e)
    | ok _ ↦
        let (repo, out) =
          Memory.update_message_status s.repo actor.account_id message_id status now now in
        (record s { repo = repo }, out)
  ]

  unfoldable pub may_close : State → Actor → String → String → Result Error (Unit {0})
  may_close s actor id status = do
    authorize actor
    c ← visible_conversation s actor id
    guard (status == conversation_closed || status == conversation_cancelled) invalid

  unfoldable pub close_conversation :
      State → Actor → String → String → Time → State × Result Error (Unit {0})
  close_conversation s actor id status now = elim (may_close s actor id status) [
    | err e ↦ (s, err e)
    | ok _ ↦
        let (repo, out) = Memory.close_conversation s.repo actor.account_id id status now in
        (record s { repo = repo }, out)
  ]

  module _ (message_size : MessageInput → ℕ) (cfg : Limits) where
    -- The checks of `SendMessage` on the actor and the input alone.
    unfoldable pub acceptable : Actor → String → MessageInput → Result Error (Unit {0})
    acceptable actor conversation_id input = do
      authorize actor
      guard (actor.kind == device_mobile) forbidden
      guard
          (not
            (is_blank conversation_id || is_blank input.client_message_id || is_blank input.body))
          invalid
      guard (not (cfg.require_operation && is_blank input.operation)) operation_required
      guard (input.operation == "" || is_allowed_operation input.operation) invalid_operation
      guard (leb (message_size input) cfg.max_message_bytes) message_too_large

    unfoldable pub open_conversation : State → Actor → String → Result Error Conversation
    open_conversation s actor id = do
      c ← visible_conversation s actor id
      guard (c.status == conversation_active) closed
      ok c

    -- The message of an input.
    abbrev pub request : Actor → String → MessageInput → String → Time → Message
    request actor conversation_id input fresh now = record {
      id = fresh;
      account_id = actor.account_id;
      conversation_id = conversation_id;
      sender_kind = device_mobile;
      sender_device_id = actor.device_id;
      client_message_id = input.client_message_id;
      operation = input.operation;
      body = input.body;
      metadata = input.metadata;
      status = message_persisted;
      cursor = pos 0;
      created_at = now;
      updated_at = now;
    }

    -- The end of `SendMessage`: the limiter is charged and the message stored.
    unfoldable pub charge_and_put :
        State
        → Actor
        → String
        → MessageInput
        → String
        → Time
        → State × Result Error (Message × Bool)
    unfolding refusal
    charge_and_put s actor conversation_id input fresh now =
        let (limiter, verdict) =
          conversation_allow s.limiter (actor.account_id ++ "/" ++ actor.device_id)
            cfg.messages_per_window cfg.rate_window now in
        elim verdict [
          | err x ↦ (record s { limiter = limiter }, err (refusal x))
          | ok _ ↦
              let (repo, out) =
                Memory.put_message s.repo (request actor conversation_id input fresh now) now in
              (record { repo = repo; limiter = limiter }, out)
        ]

    unfoldable pub send_message :
        State
        → Actor
        → String
        → MessageInput
        → String
        → Time
        → State × Result Error (Message × Bool)
    send_message s actor conversation_id input fresh now =
        elim (acceptable actor conversation_id input) [
          | err e ↦ (s, err e)
          | ok _ ↦
              elim (Memory.find_message_by_client_id s.repo actor.account_id conversation_id
                actor.device_id input.client_message_id) [
                  | some existing ↦ (s, ok (existing, true))
                  | none ↦ elim (open_conversation s actor conversation_id) [
                    | err e ↦ (s, err e)
                    | ok c ↦ charge_and_put s actor conversation_id input fresh now
                  ]
                ]
        ]
