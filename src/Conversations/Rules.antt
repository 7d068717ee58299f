-- ===== src/Conversations/Rules.antt =====
-- conversations.go, runs_memory.go: the rules of the status machines, of who may see and change what,
-- and of the operations that a message may ask for.
use alice_eve.Base.{Bool, true, false, ◌==◌, ◌||◌, ◌&&◌, not, String, if◌then◌else◌, ℕ, leb}
use alice_eve.Base.Results.{Result, guard}
use alice_eve.Base.Text.{is_blank, trim_space}
use alice_eve.Conversations.{
  Actor, Conversation, Error, unauthorized, invalid_operation, device_desktop, device_mobile,
  message_accepted, message_persisted, message_delivered, message_processed, message_failed,
  run_queued, run_running, run_completed, run_failed, run_cancelled, run_timed_out,
}

unfoldable pub validate_actor : Actor → Result Error (Unit {0})
validate_actor a =
    guard
      (not (
        is_blank a.account_id
        || is_blank a.device_id
        || (not (a.kind == device_mobile) && not (a.kind == device_desktop))))
      unauthorized

unfoldable pub conversation_visible : Conversation → Actor → Bool
conversation_visible c a =
    c.account_id == a.account_id && (a.kind == device_mobile || c.target_device_id == a.device_id)

unfoldable pub valid_message_status : String → Bool
valid_message_status s =
    s == message_accepted
    || s == message_persisted
    || s == message_delivered
    || s == message_processed
    || s == message_failed

unfoldable pub status_rank : String → ℕ
status_rank s =
    if s == message_accepted
    then 1
    else if s == message_persisted
    then 2
    else if s == message_delivered
    then 3
    else if s == message_processed
    then 4
    else 0

unfoldable pub can_advance : String → String → Bool
can_advance from to =
    if from == to
    then true
    else if to == message_failed && not (from == message_processed) && not (from == message_failed)
    then true
    else if from == message_failed || from == message_processed
    then false
    else leb (status_rank from) (status_rank to)

unfoldable pub status_allowed_for_actor : String → String → Bool
status_allowed_for_actor kind status =
    if kind == device_mobile
    then status == message_accepted || status == message_persisted
    else status == message_delivered || status == message_processed || status == message_failed

abbrev allowed_operations : String → Bool
allowed_operations name =
    name == "get_desktop_status"
    || name == "get_recent_intel"
    || name == "get_route_summary"
    || name == "get_character_summary"

unfoldable pub is_allowed_operation : String → Bool
is_allowed_operation operation = allowed_operations (trim_space operation)

abbrev desktop_operations : String → Bool
desktop_operations name =
    name == "show_notification" || name == "notify" || name == "open_workspace"

unfoldable is_desktop_operation : String → Bool
is_desktop_operation operation = desktop_operations (trim_space operation)

unfoldable validate_operation : String → Result Error (Unit {0})
validate_operation operation = guard (is_allowed_operation operation) invalid_operation

unfoldable pub valid_run_status : String → Bool
valid_run_status s =
    s == run_queued
    || s == run_running
    || s == run_completed
    || s == run_failed
    || s == run_cancelled
    || s == run_timed_out

unfoldable pub run_transition : String → String → Bool
run_transition from to =
    if from == to
    then true
    else if from == run_queued
    then to == run_running || to == run_cancelled || to == run_timed_out
    else if from == run_running
    then to == run_completed || to == run_failed || to == run_cancelled || to == run_timed_out
    else false
