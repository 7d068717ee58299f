-- ===== src/Conversations/Runs.antt =====
-- runs_memory.go: runs of the agent, their events and the audit trail in the in-memory repository.
-- `now` is the clock and `fresh` a new id.
use alice_eve.Base.{
  Bool, ◌==◌, ◌||◌, ◌&&◌, not, Option, none, some, String, is_some, if◌then◌else◌, List, [], ◌∷◌,
  ◌++◌, ltb, eqb, take, keep,
}
use alice_eve.Base.Results.{Result, ok, err}
use alice_eve.Base.Text.{text_less}
use alice_eve.Base.Int.{ℤ, pos, inc64, ltb_ℤ, leb_ℤ, pos_part}
use alice_eve.Base.Dict.{lookup, insert, values}
use alice_eve.Base.Sort.{sort}
use alice_eve.Conversations.{
  Time, Error, not_found, conflict, invalid, invalid_status, AgentRun, RunEvent, AuditRecord, Repo,
  run_queued, run_completed, run_failed, run_cancelled, run_timed_out, or_zero, page_limit, or_time,
}
use alice_eve.Conversations.Rules.{valid_run_status, run_transition}
use alice_eve.Conversations.Memory.{get_conversation}

unfoldable pub create_run : Repo → AgentRun → Repo × Result Error (Unit {0})
create_run r run =
    if run.id == "" || run.account_id == "" || run.conversation_id == ""
    then (r, err invalid)
    else elim (get_conversation r run.account_id run.conversation_id) [
      | err e ↦ (r, err e)
      | ok _ ↦
          if is_some (lookup run.id r.runs)
          then (r, err conflict)
          else let filled = record run {
            status = if run.status == "" then run_queued else run.status;
          } in
            (record r { runs = insert run.id filled r.runs }, ok tt)
    ]

abbrev pub earlier : AgentRun → AgentRun → Bool
earlier a b =
    if eqb a.started_at b.started_at then text_less a.id b.id else ltb a.started_at b.started_at

unfoldable pub list_runs : Repo → String → String → ℤ → List AgentRun
list_runs r account_id conversation_id limit = take (page_limit limit) (
    sort earlier (
      keep (λ run. run.account_id == account_id && run.conversation_id == conversation_id)
        (values r.runs)))

-- A run, if the account is its own.
abbrev pub run_of : String → Option AgentRun → Result Error AgentRun
run_of account_id none = err not_found
run_of account_id (some run) = if run.account_id == account_id then ok run else err not_found

unfoldable pub get_run : Repo → String → String → Result Error AgentRun
get_run r account_id id = run_of account_id (lookup id r.runs)

-- The statuses that end a run.
abbrev pub ended : String → Bool
ended s = s == run_completed || s == run_failed || s == run_cancelled || s == run_timed_out

abbrev pub moved : AgentRun → String → String → Time → AgentRun
moved run status code at = record run {
  status = status;
  error_code = code;
  completed_at = if ended status then some at else run.completed_at;
}

unfoldable pub update_run :
    Repo → String → String → String → String → Time → Time → Repo × Result Error AgentRun
update_run r account_id id status code at now = elim (get_run r account_id id) [
  | err e ↦ (r, err e)
  | ok run ↦
      if not (valid_run_status status)
      then (r, err invalid)
      else if not (run_transition run.status status)
      then (r, err invalid_status)
      else let next = moved run status code (or_time at now) in
        (record r { runs = insert id next r.runs }, ok next)
]

-- The entries of a list in a map; a missing key has none.
abbrev pub or_empty {ℓ} : {A : Type ℓ} → Option (List A) → List A
or_empty none = []
or_empty (some xs) = xs

unfoldable pub append_run_event : Repo → RunEvent → Time → String → Repo × Result Error RunEvent
append_run_event r e now fresh = elim (get_run r e.account_id e.run_id) [
  | err x ↦ (r, err x)
  | ok run ↦
      if not (run.conversation_id == e.conversation_id)
      then (r, err not_found)
      else let sequence = inc64 (or_zero (lookup e.run_id r.run_seq)) in
        let stored = record e {
          sequence = sequence;
          id = if e.id == "" then fresh else e.id;
          created_at = or_time e.created_at now;
        } in
        (
          record r {
            run_seq = insert e.run_id sequence r.run_seq;
            run_events =
                insert e.run_id (or_empty (lookup e.run_id r.run_events) ++ stored ∷ [])
                  r.run_events;
          },
          ok stored,
        )
]

abbrev pub behind : ℤ → RunEvent → Bool
behind after e = ltb_ℤ after e.sequence

-- The loop stops at the limit, so it keeps the first entries that pass.
unfoldable pub list_run_events : Repo → String → String → ℤ → ℤ → Result Error (List RunEvent)
list_run_events r account_id run_id after limit = elim (get_run r account_id run_id) [
  | err e ↦ err e
  | ok run ↦
      ok (take (page_limit limit) (keep (behind after) (or_empty (lookup run_id r.run_events))))
]

unfoldable pub append_audit : Repo → AuditRecord → Time → String → Repo × Result Error (Unit {0})
append_audit r a now fresh =
    if a.account_id == "" || a.type == ""
    then (r, err invalid)
    else let stored = record a {
      id = if a.id == "" then fresh else a.id;
      created_at = or_time a.created_at now;
    } in
      (
        record r {
          audit =
              insert a.account_id (or_empty (lookup a.account_id r.audit) ++ stored ∷ []) r.audit;
        },
        ok tt,
      )

unfoldable pub list_audit : Repo → String → String → ℤ → List AuditRecord
list_audit r account_id typ limit = take (if leb_ℤ limit (pos 0) then 100 else pos_part limit) (
    sort (λ a b. ltb b.created_at a.created_at)
      (keep (λ a. typ == "" || a.type == typ) (or_empty (lookup account_id r.audit))))
