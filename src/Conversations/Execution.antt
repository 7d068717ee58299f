-- ===== src/Conversations/Execution.antt =====
-- conversations.go: the service over the in-memory repository, for the runs of the agent. The JSON
-- encoders of a run and of a run event are arguments; `none` is a payload that cannot be encoded, and
-- then nothing is published. Whether the publisher succeeds is ignored by the source.
use alice_eve.Base.{Bool, ◌==◌, ◌||◌, not, Option, none, some, String, if◌then◌else◌, List, ◌∷◌, []}
use alice_eve.Base.Results.{Result, ok, err, ◌>>=◌, ◌>>◌, guard}
use alice_eve.Base.Text.{is_blank}
use alice_eve.Base.Int.{ℤ, pos}
use alice_eve.Conversations.{
  Time, Actor, Error, forbidden, closed, invalid, run_not_cancellable, AgentRun, RunEvent, Repo,
  device_desktop, conversation_active, run_queued, run_running, run_completed, run_failed,
  run_cancelled, run_timed_out,
}
use alice_eve.Conversations.Rules.{valid_run_status, conversation_visible}
use alice_eve.Conversations.Memory
use alice_eve.Conversations.Runs
use alice_eve.Conversations.Service.{Authorizer, authorize}

-- What `PublishRunEvent` is called with.
pub record Publication : Type 0 where
  pub account_id : String
  pub conversation_id : String
  pub run_id : String
  pub type : String
  pub body : String

-- The repository, and what was published in a call.
abbrev pub Outcome : Type 0 → Type 0
Outcome A = Repo × List Publication × Result Error A

-- `publishRunEvent`, on the encoded payload.
unfoldable publish_run_event : Bool → AgentRun → String → Option String → List Publication
publish_run_event has_publisher run typ none = []
publish_run_event has_publisher run typ (some body) =
    if has_publisher
    then record {
      account_id = run.account_id;
      conversation_id = run.conversation_id;
      run_id = run.id;
      type = typ;
      body = body;
    }
      ∷ []
    else []

-- The type of the event that a new status is told with.
unfoldable update_type : String → String
update_type status =
    if status == run_completed
    then "agent.run.completed"
    else if status == run_failed
    then "agent.run.failed"
    else if status == run_cancelled
    then "agent.run.cancelled"
    else if status == run_timed_out
    then "agent.run.timed_out"
    else "agent.run.updated"

module _ (authorizer : Authorizer) where
  -- The run with the id, for the desktop that its conversation is bound to.
  unfoldable pub bound_run : Repo → Actor → String → Result Error AgentRun
  bound_run r actor run_id = do
    run ← Runs.get_run r actor.account_id run_id
    c ← Memory.get_conversation r actor.account_id run.conversation_id
    guard (c.target_device_id == actor.device_id) forbidden
    ok run

  -- The run with the id, for an actor who may see its conversation.
  unfoldable pub visible_run : Repo → Actor → String → Result Error AgentRun
  visible_run r actor run_id = do
    run ← Runs.get_run r actor.account_id run_id
    c ← Memory.get_conversation r actor.account_id run.conversation_id
    guard (conversation_visible c actor) forbidden
    ok run

  unfoldable pub desktop_only : Actor → Result Error (Unit {0})
  desktop_only actor = do authorize authorizer actor; guard (actor.kind == device_desktop) forbidden

  unfoldable get_run : Repo → Actor → String → Result Error AgentRun
  get_run r actor run_id = do authorize authorizer actor; visible_run r actor run_id

  unfoldable list_run_events : Repo → Actor → String → ℤ → ℤ → Result Error (List RunEvent)
  list_run_events r actor run_id after limit = do
    authorize authorizer actor
    run ← visible_run r actor run_id
    Runs.list_run_events r actor.account_id run_id after limit

  unfoldable may_start : Repo → Actor → String → String → Result Error (Unit {0})
  may_start r actor conversation_id message_id = do
    desktop_only actor
    c ← Memory.get_conversation r actor.account_id conversation_id
    guard (c.target_device_id == actor.device_id) forbidden
    guard (c.status == conversation_active) closed
    guard (not (is_blank message_id)) invalid
    m ← Memory.get_message r actor.account_id message_id
    guard (m.conversation_id == conversation_id) forbidden

  -- The check of `CancelRun` and `TimeoutRun` on the status.
  abbrev pub unfinished : AgentRun → Result Error AgentRun
  unfinished run = do
    guard (run.status == run_queued || run.status == run_running) run_not_cancellable
    ok run

  unfoldable pub may_update : Repo → Actor → String → String → Result Error AgentRun
  may_update r actor run_id status = do
    guard (valid_run_status status) invalid
    desktop_only actor
    bound_run r actor run_id

  unfoldable pub may_cancel : Repo → Actor → String → Result Error AgentRun
  may_cancel r actor run_id = do
    authorize authorizer actor
    run ← visible_run r actor run_id
    unfinished run

  unfoldable pub may_time_out : Repo → Actor → String → Result Error AgentRun
  may_time_out r actor run_id = do
    desktop_only actor
    run ← bound_run r actor run_id
    unfinished run

  unfoldable may_add_event : Repo → Actor → String → String → Result Error AgentRun
  may_add_event r actor run_id typ = do
    desktop_only actor
    run ← bound_run r actor run_id
    guard (not (is_blank typ)) invalid
    ok run

  module _ (has_publisher : Bool) (encode_run : AgentRun → Option String) where
    unfoldable start_run : Repo → Actor → String → String → String → Time → Outcome AgentRun
    unfolding may_start publish_run_event
    start_run r actor conversation_id message_id fresh now =
        elim (may_start r actor conversation_id message_id) [
          | err e ↦ (r, [], err e)
          | ok _ ↦
              let run : AgentRun = record {
                id = fresh;
                account_id = actor.account_id;
                conversation_id = conversation_id;
                input_message_id = message_id;
                status = run_queued;
                started_at = now;
                completed_at = none;
                error_code = "";
              } in
              let (r', out) = Runs.create_run r run in
              elim out [
                | err e ↦ (r', [], err e)
                | ok _ ↦ (
                  r',
                  publish_run_event has_publisher run "agent.run.created" (encode_run run),
                  ok run,
                )
              ]
        ]

    -- The new status is stored, and published once it is.
    unfoldable pub move_run :
        Repo → Actor → String → String → String → Time → String → Outcome AgentRun
    unfolding publish_run_event
    move_run r actor run_id status code now typ =
        let (r', out) = Runs.update_run r actor.account_id run_id status code now now in
        elim out [
          | err e ↦ (r', [], err e)
          | ok run ↦ (r', publish_run_event has_publisher run typ (encode_run run), ok run)
        ]

    unfoldable pub update_run : Repo → Actor → String → String → String → Time → Outcome AgentRun
    unfolding update_type
    update_run r actor run_id status code now = elim (may_update r actor run_id status) [
      | err e ↦ (r, [], err e)
      | ok _ ↦ move_run r actor run_id status code now (update_type status)
    ]

    unfoldable pub cancel_run : Repo → Actor → String → Time → Outcome AgentRun
    cancel_run r actor run_id now = elim (may_cancel r actor run_id) [
      | err e ↦ (r, [], err e)
      | ok _ ↦ move_run r actor run_id run_cancelled "" now "agent.run.cancelled"
    ]

    unfoldable pub time_out_run : Repo → Actor → String → Time → Outcome AgentRun
    time_out_run r actor run_id now = elim (may_time_out r actor run_id) [
      | err e ↦ (r, [], err e)
      | ok _ ↦
          move_run r actor run_id run_timed_out "conversation: run timed out" now
            "agent.run.timed_out"
    ]

  unfoldable add_run_event :
      Bool
      → (RunEvent → Option String)
      → Repo
      → Actor
      → String
      → String
      → String
      → String
      → Time
      → Outcome RunEvent
  unfolding may_add_event publish_run_event
  add_run_event has_publisher encode_event r actor run_id typ payload fresh now =
      elim (may_add_event r actor run_id typ) [
        | err e ↦ (r, [], err e)
        | ok run ↦
            let e : RunEvent = record {
              id = fresh;
              account_id = actor.account_id;
              conversation_id = run.conversation_id;
              run_id = run_id;
              sequence = pos 0;
              type = typ;
              payload = payload;
              created_at = now;
            } in
            let (r', out) = Runs.append_run_event r e now fresh in
            elim out [
              | err x ↦ (r', [], err x)
              | ok stored ↦ (
                r',
                publish_run_event has_publisher run "agent.run.event" (encode_event stored),
                ok stored,
              )
            ]
      ]
