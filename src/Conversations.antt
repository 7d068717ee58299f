-- ===== src/Conversations.antt =====
-- relay-server/internal/conversations: conversations, their messages and the runs of the agent. This
-- file has the data model (conversations.go) and the state of the in-memory repository (memory.go);
-- the children have the rules, the repository, the service on top of it, and what they guarantee.
--
-- A time is the count of nanoseconds since Go's zero time. A Go value copied by `cloneMessage` or
-- `cloneConversation` is itself here, since values do not change. A payload is a text.
pub mod Rules
pub mod Memory
pub mod Runs
pub mod Authorizer
pub mod Service
pub mod Execution
pub mod Steps
pub mod Progress
pub mod Forward
pub mod Retry
pub mod Sequence
pub mod Access
pub mod Admission
use alice_eve.Base.{◌≡◌, Bool, ◌==◌, ◌||◌, not, Option, none, some, String, List, [], ℕ, eqb}
use alice_eve.Base.Int.{ℤ, pos, leb_ℤ, ltb_ℤ, pos_part}
use alice_eve.Base.{if◌then◌else◌}
use alice_eve.Base.Dict.{Dict}

abbrev pub Time : Type 0
Time = ℕ

-- `DeviceKind`, `ConversationStatus`, `MessageStatus`, `SenderKind` and `RunStatus` are texts, as in
-- the source.
abbrev pub device_desktop : String
device_desktop = "desktop"

abbrev pub device_mobile : String
device_mobile = "mobile"

pub record Actor : Type 0 where
  pub account_id : String
  pub device_id : String
  pub kind : String

abbrev pub conversation_active : String
conversation_active = "active"

abbrev pub conversation_closed : String
conversation_closed = "closed"

abbrev pub conversation_cancelled : String
conversation_cancelled = "cancelled"

abbrev pub message_accepted : String
message_accepted = "accepted"

abbrev pub message_persisted : String
message_persisted = "persisted"

abbrev pub message_delivered : String
message_delivered = "delivered"

abbrev pub message_processed : String
message_processed = "processed"

abbrev pub message_failed : String
message_failed = "failed"

abbrev pub run_queued : String
run_queued = "queued"

abbrev pub run_running : String
run_running = "running"

abbrev pub run_completed : String
run_completed = "completed"

abbrev pub run_failed : String
run_failed = "failed"

abbrev pub run_cancelled : String
run_cancelled = "cancelled"

abbrev pub run_timed_out : String
run_timed_out = "timed_out"

pub record Conversation : Type 0 where
  pub id : String
  pub account_id : String
  pub target_device_id : String
  pub agent_kind : String
  pub status : String
  pub created_at : Time
  pub updated_at : Time

-- `metadata` by key, each value as its JSON text; `none` is a nil map.
pub record Message : Type 0 where
  pub id : String
  pub account_id : String
  pub conversation_id : String
  pub sender_kind : String
  pub sender_device_id : String
  pub client_message_id : String
  pub operation : String
  pub body : String
  pub metadata : Option (Dict String)
  pub status : String
  pub cursor : ℤ
  pub created_at : Time
  pub updated_at : Time

pub record MessageInput : Type 0 where
  pub client_message_id : String
  pub operation : String
  pub body : String
  pub metadata : Option (Dict String)

pub record AgentRun : Type 0 where
  pub id : String
  pub account_id : String
  pub conversation_id : String
  pub input_message_id : String
  pub status : String
  pub started_at : Time
  pub completed_at : Option Time
  pub error_code : String

pub record RunEvent : Type 0 where
  pub id : String
  pub account_id : String
  pub conversation_id : String
  pub run_id : String
  pub sequence : ℤ
  pub type : String
  pub payload : String
  pub created_at : Time

pub record AuditRecord : Type 0 where
  pub id : String
  pub account_id : String
  pub device_id : String
  pub request_id : String
  pub type : String
  pub status : String
  pub size : ℤ
  pub duration_millis : ℤ
  pub created_at : Time

pub record MessagePage : Type 0 where
  pub messages : List Message
  pub next_cursor : ℤ
  pub has_more : Bool

-- The errors of the package. `external` is an error of another authorizer, and `panics` stands for
-- the limiter's panic, which this package's own limiter never reaches.
pub data Error : Type 0 where
  unauthorized forbidden not_found conflict closed invalid invalid_operation : Error
  operation_required message_too_large invalid_status run_not_cancellable panics : Error
  rate_limited : ℕ → Error
  external : String → Error

pub record Repo : Type 0 where
  pub conversations : Dict Conversation
  pub messages : Dict Message
  pub by_client : Dict String
  pub next_cursor : Dict ℤ
  pub runs : Dict AgentRun
  pub run_events : Dict (List RunEvent)
  pub run_seq : Dict ℤ
  pub audit : Dict (List AuditRecord)

abbrev pub new_repo : Repo
new_repo = record {
  conversations = [];
  messages = [];
  by_client = [];
  next_cursor = [];
  runs = [];
  run_events = [];
  run_seq = [];
  audit = [];
}

-- A number that a map does not have counts as 0.
abbrev pub or_zero : Option ℤ → ℤ
or_zero none = pos 0
or_zero (some n) = n

-- The bounds of a page size.
abbrev pub page_limit : ℤ → ℕ
page_limit limit =
    if leb_ℤ limit (pos 0) then 100 else if ltb_ℤ (pos 1000) limit then 1000 else pos_part limit

-- A time that is zero is set.
abbrev pub or_time : Time → Time → Time
or_time t now = if eqb t 0 then now else t
