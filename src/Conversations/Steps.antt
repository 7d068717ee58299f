-- ===== src/Conversations/Steps.antt =====
-- How the repository moves: one constructor per call that changes it, with any arguments. `PutMessage`
-- may name the id of a stored message, and overwrites it then: `Spares` says that it does not.
use alice_eve.Base.{◌≢◌, String}
use alice_eve.Conversations.{Time, Conversation, Message, AgentRun, RunEvent, AuditRecord, Repo}
use alice_eve.Conversations.Memory.{
  create_conversation, close_conversation, put_message, update_message_status,
}
use alice_eve.Conversations.Runs.{create_run, update_run, append_run_event, append_audit}

pub data Step (r : Repo) : Repo → Type 0 where
  creates_conversation : (c : Conversation) → Step r (create_conversation r c).0
  closes :
      (account_id id status : String) (now : Time)
      → Step r (close_conversation r account_id id status now).0
  puts : (m : Message) (now : Time) → Step r (put_message r m now).0
  moves_message :
      (account_id id status : String) (at now : Time)
      → Step r (update_message_status r account_id id status at now).0
  creates_run : (run : AgentRun) → Step r (create_run r run).0
  moves_run :
      (account_id id status code : String) (at now : Time)
      → Step r (update_run r account_id id status code at now).0
  appends : (e : RunEvent) (now : Time) (fresh : String) → Step r (append_run_event r e now fresh).0
  audits : (a : AuditRecord) (now : Time) (fresh : String) → Step r (append_audit r a now fresh).0

-- Any number of steps, in any order.
pub data Reaches (r : Repo) : Repo → Type 0 where
  stays : Reaches r r
  then_step : (s t : Repo) → Reaches r s → Step s t → Reaches r t

-- The call does not put a message under this id.
unfoldable pub StepSpares : {r s : Repo} → String → Step r s → Type 0
StepSpares id (creates_conversation c) = Unit
StepSpares id (closes account_id key status now) = Unit
StepSpares id (puts m now) = m.id ≢ id
StepSpares id (moves_message account_id key status at now) = Unit
StepSpares id (creates_run run) = Unit
StepSpares id (moves_run account_id key status code at now) = Unit
StepSpares id (appends e now fresh) = Unit
StepSpares id (audits a now fresh) = Unit

-- None of the calls puts a message under this id.
unfoldable pub Spares : {r s : Repo} → String → Reaches r s → Type 0
Spares id stays = Unit
Spares id (then_step t u before k) = Spares id before × StepSpares id k
