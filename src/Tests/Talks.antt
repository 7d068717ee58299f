-- ===== src/Tests/Talks.antt =====
-- The conversations (relay-server/internal/conversations) at concrete inputs.
use alice_eve.Base.{
  ◌≡◌, refl, ◌==◌, true, false, none, some, String, arith, [], ◌∷◌, eq_iff, if◌then◌else◌,
}
use alice_eve.Base.Results.{err, ok}
use alice_eve.Base.Text.{is_blank, trim_space}
use alice_eve.Base.Int.{pos, inc64}
use alice_eve.Base.Dict.{lookup, insert}
use alice_eve.RateLimit.{conversation_allow, allow_with, drop_old}
use alice_eve.Conversations.{
  Actor, Conversation, Message, MessageInput, AgentRun, RunEvent, Repo, new_repo,
}
use alice_eve.Conversations.Rules.{
  validate_actor, conversation_visible, valid_message_status, status_rank, can_advance,
  status_allowed_for_actor, is_allowed_operation,
}
use alice_eve.Conversations.Memory
use alice_eve.Conversations.Runs
use alice_eve.Conversations.Service
use alice_eve.Conversations.Service.{State, Limits}
use alice_eve.Conversations.Steps.{
  Spares, StepSpares, Reaches, stays, then_step, puts, moves_message, moves_run,
  creates_conversation, creates_run, appends,
}
use alice_eve.Conversations.Progress.{Later, messages_move_forward}
use alice_eve.Conversations.Forward.{LaterRun, runs_move_forward}
use alice_eve.Conversations.Retry.{retry_finds_first}
use alice_eve.Conversations.Sequence.{Counted, events_of, run_events_numbered}
use alice_eve.Conversations.Access.{MayMove, update_message_status_ok, send_message_twice}
use alice_eve.Conversations.{unauthorized, forbidden}
use alice_eve.Conversations.Authorizer.{Devices, register_device, revoke_device, authorize_device}
use alice_eve.Conversations.Admission.{registered_until_revoked}

abbrev talk : Conversation
talk = record {
  id = "c";
  account_id = "a";
  target_device_id = "desk";
  agent_kind = "intel";
  status = "active";
  created_at = 1;
  updated_at = 1;
}

abbrev note : Message
note = record {
  id = "m1";
  account_id = "a";
  conversation_id = "c";
  sender_kind = "mobile";
  sender_device_id = "phone";
  client_message_id = "k1";
  operation = "";
  body = "hi";
  metadata = none;
  status = "persisted";
  cursor = pos 0;
  created_at = 5;
  updated_at = 5;
}

abbrev stored : Message
stored = record note { cursor = pos 1 }

abbrev task : AgentRun
task = record {
  id = "r1";
  account_id = "a";
  conversation_id = "c";
  input_message_id = "m1";
  status = "queued";
  started_at = 6;
  completed_at = none;
  error_code = "";
}

abbrev talking : Repo
talking = record new_repo { conversations = ("c", talk) ∷ []; runs = ("r1", task) ∷ [] }

abbrev told : Repo
told = record talking {
  messages = ("m1", stored) ∷ [];
  by_client = (Memory.key_of note, "m1") ∷ [];
  next_cursor = ("c", pos 1) ∷ [];
}

put_told : Memory.put_message talking note 5 ≡ (told, ok (stored, false))
unfolding Memory.put_message Memory.store_message lookup insert inc64
put_told = refl

abbrev delivered : Repo
delivered = (Memory.update_message_status told "a" "m1" "delivered" 7 7).0

abbrev answer : Message
answer = record note { id = "m3"; client_message_id = "k3"; body = "all quiet" }

abbrev answered : Repo
answered = (Memory.put_message delivered answer 8).0

told-answered : Reaches told answered
told-answered =
    then_step delivered answered
      (then_step told delivered stays (moves_message "a" "m1" "delivered" 7 7)) (puts answer 8)

told-answered-Spares : Spares "m1" told-answered
unfolding Spares StepSpares told-answered
told-answered-Spares = ((tt, tt), ground (arith, eq_iff "m3" "m1"))

messages_move_forward_example :
    (m' : Message) × (lookup "m1" answered.messages ≡ some m') × Later stored m'
unfolding lookup
messages_move_forward_example =
    messages_move_forward told answered told-answered "m1" stored refl told-answered-Spares

retry_finds_first_example :
    (m' : Message) × (Memory.put_message answered (record note { id = "m2"; body = "bye" }) 9
      ≡ (answered, ok (m', true)))
    × Later stored m'
retry_finds_first_example =
    retry_finds_first talking told answered note stored (record note { id = "m2"; body = "bye" }) 5
      9 (ground (arith, eq_iff "k1" "")) put_told told-answered told-answered-Spares
      (ground (arith, eq_iff "m2" "")) refl refl refl refl

abbrev running : Repo
running = (Runs.update_run told "a" "r1" "running" "" 8 8).0

runs_move_forward_example : (b : AgentRun) × (lookup "r1" running.runs ≡ some b) × LaterRun task b
unfolding lookup
runs_move_forward_example =
    runs_move_forward told running
      (then_step told running stays (moves_run "a" "r1" "running" "" 8 8)) "r1" task refl

abbrev opened : Repo
opened = (Memory.create_conversation new_repo talk).0

abbrev queued : Repo
queued = (Runs.create_run opened task).0

abbrev started : RunEvent
started = record {
  id = "";
  run_id = "r1";
  conversation_id = "c";
  account_id = "a";
  sequence = pos 0;
  type = "started";
  payload = "";
  created_at = 7;
}

abbrev once : Repo
once = (Runs.append_run_event queued started 7 "e1").0

-- The second event claims a number of its own, which is not taken.
abbrev twice : Repo
twice = (Runs.append_run_event once (record started { sequence = pos 9; type = "ended" }) 8 "e2").0

twice_numbered :
    events_of twice "r1"
    ≡ record started { id = "e1"; sequence = pos 1 }
      ∷ record started { id = "e2"; sequence = pos 2; type = "ended" }
      ∷ []
unfolding Memory.create_conversation Memory.get_conversation Runs.create_run Runs.get_run
    Runs.append_run_event lookup insert inc64 is_blank
twice_numbered = refl

new_repo-twice : Reaches new_repo twice
new_repo-twice =
    then_step once twice
      (then_step queued once
        (then_step opened queued (then_step new_repo opened stays (creates_conversation talk))
          (creates_run task))
        (appends started 7 "e1"))
      (appends (record started { sequence = pos 9; type = "ended" }) 8 "e2")

run_events_numbered_example : Counted "r1" twice
run_events_numbered_example =
    run_events_numbered twice "r1" new_repo-twice (rw twice_numbered (ground arith))

abbrev desk : Actor
desk = record { account_id = "a"; device_id = "desk"; kind = "desktop" }

abbrev phone : Actor
phone = record { account_id = "a"; device_id = "phone"; kind = "mobile" }

abbrev service : Repo → State
service r = record { repo = r; limiter = [] }

update_message_status_ok_example :
    MayMove none told desk "m1" "delivered"
    × ◌≡◌ {A = String} "delivered" "delivered"
    × (lookup "m1" delivered.messages ≡ (
        if "m1" == "m1"
        then some (record stored { status = "delivered"; updated_at = 7 })
        else lookup "m1" told.messages))
unfolding Service.update_message_status Service.may_move Service.visible_conversation
    Service.authorize validate_actor conversation_visible valid_message_status status_rank
    can_advance status_allowed_for_actor Memory.update_message_status Memory.get_message
    Memory.get_conversation lookup insert is_blank
update_message_status_ok_example =
    update_message_status_ok none (service told) (service delivered) desk "m1" "delivered" "m1" 7
      (record stored { status = "delivered"; updated_at = 7 }) refl

abbrev input : MessageInput
input = record {
  client_message_id = "k1";
  operation = "get_recent_intel";
  body = "hi";
  metadata = none;
}

abbrev limits : Limits
limits = record {
  max_message_bytes = 100;
  messages_per_window = 1;
  rate_window = 10;
  require_operation = true;
}

abbrev sent : State
sent = (Service.send_message none (λ i. 20) limits (service talking) phone "c" input "m1" 5).0

-- The limiter would refuse a second message at that time.
send_message_twice_example :
    Service.send_message none (λ i. 20) limits sent phone "c" input "m2" 6
    ≡ (sent, ok (record stored { operation = "get_recent_intel" }, true))
unfolding Service.send_message Service.charge_and_put Service.acceptable Service.open_conversation
    Service.visible_conversation Service.authorize validate_actor conversation_visible
    is_allowed_operation Memory.put_message Memory.store_message Memory.get_conversation
    Memory.find_message_by_client_id lookup insert is_blank trim_space conversation_allow allow_with
    drop_old inc64
send_message_twice_example =
    send_message_twice none (λ i. 20) limits (service talking) sent phone "c" input "m1" "m2" 5 6
      (record stored { operation = "get_recent_intel" }) refl

abbrev devices : Devices
devices = (register_device [] "a" "desk" "desktop").0

abbrev both : Devices
both = (register_device devices "a" "phone" "mobile").0

registered_until_revoked_example :
    let revoked = (revoke_device both "phone").0 in
    (authorize_device both phone ≡ (
      if "a" == "a" then if "mobile" == "mobile" then ok tt else err forbidden else err forbidden))
    × (authorize_device revoked phone ≡ err unauthorized)
    × (authorize_device both desk ≡ authorize_device devices desk)
    × (authorize_device revoked desk ≡ authorize_device devices desk)
unfolding register_device is_blank
registered_until_revoked_example =
    registered_until_revoked devices both "a" "phone" "mobile" phone desk refl refl refl
