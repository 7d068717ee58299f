-- ===== src/Conversations/Forward.antt =====
-- Runs are never lost, and their statuses only go forward: whatever calls follow.
use alice_eve.Base.{
  ◌≡◌, refl, sym, true, false, ◌==◌, eq_iff, some, String, arith, Bool-cases, inl, inr, ◌≤◌, ◌∙◌,
  if◌then◌else◌, ℕ,
}
use alice_eve.Base.Results.{ok, Result-cases}
use alice_eve.Base.Dict.{lookup, lookup-insert}
use alice_eve.Conversations.{Time, AgentRun, Repo, run_queued, run_running, or_time}
use alice_eve.Conversations.Rules.{run_transition, valid_run_status}
use alice_eve.Conversations.Memory.{
  create_conversation, close_conversation, put_message, store_message, update_message_status,
}
use alice_eve.Conversations.Runs.{
  create_run, update_run, append_run_event, append_audit, get_run, moved,
}
use alice_eve.Conversations.Steps.{
  Step, creates_conversation, closes, puts, moves_message, creates_run, moves_run, appends, audits,
  Reaches, stays, then_step,
}

-- Queued, running, or at an end.
unfoldable pub stage : String → ℕ
stage s = if s == run_queued then 0 else if s == run_running then 1 else 2

-- How a run may look after further calls.
pub record LaterRun (a b : AgentRun) : Type 0 where
  pub same_account : b.account_id ≡ a.account_id
  pub same_conversation : b.conversation_id ≡ a.conversation_id
  pub same_message : b.input_message_id ≡ a.input_message_id
  pub same_start : b.started_at ≡ a.started_at
  pub forward : stage a.status ≤ stage b.status
  pub final : stage a.status ≡ 2 → b.status ≡ a.status

LaterRun-refl : (a : AgentRun) → LaterRun a a
LaterRun-refl a = record {
  same_account = refl;
  same_conversation = refl;
  same_message = refl;
  same_start = refl;
  forward = omega arith;
  final = λ e. refl;
}

stage-le : (s : String) → stage s ≤ 2
unfolding stage
stage-le s = ground arith

LaterRun-trans : (a b c : AgentRun) → LaterRun a b → LaterRun b c → LaterRun a c
LaterRun-trans a b c h k = record {
  same_account = k.same_account ∙ h.same_account;
  same_conversation = k.same_conversation ∙ h.same_conversation;
  same_message = k.same_message ∙ h.same_message;
  same_start = k.same_start ∙ h.same_start;
  forward = omega (arith, h.forward, k.forward);
  final = λ e.
      let there : stage b.status ≡ 2 = omega (arith, h.forward, e, stage-le b.status) in
      k.final there ∙ h.final e;
}

-- No transition leads back to queued.
ahead : (s s' : String) → run_transition s s' ≡ true → stage s ≤ stage s'
unfolding run_transition stage
ahead s s' h = elim (Bool-cases (s' == run_queued)) [
  | inr later ↦ ground (arith, h, later, eq_iff s s')
  | inl back ↦ elim (Bool-cases (s == run_running)) [
    | inr other ↦
        ground (arith, h, back, other, eq_iff s s', eq_iff s run_queued, eq_iff s' run_queued)
    | inl running ↦
        let q : s' ≡ run_queued = ground (arith, back, eq_iff s' run_queued) in
        let p : s ≡ run_running = ground (arith, running, eq_iff s run_running) in
        let refused : run_transition s s' ≡ false = rw (p, q) refl in
        absurd (ground (arith, h, refused))
  ]
]

moved-LaterRun :
    (run : AgentRun) (status code : String) (at : Time)
    → run_transition run.status status ≡ true
    → LaterRun run (moved run status code at)
unfolding run_transition stage
moved-LaterRun run status code at h = record {
  same_account = refl;
  same_conversation = refl;
  same_message = refl;
  same_start = refl;
  forward = ahead run.status status h;
  final = λ e. ground (arith, h, e, eq_iff run.status status);
}

abbrev Kept : String → AgentRun → Repo → Type 0
Kept id a r = (b : AgentRun) × (lookup id r.runs ≡ some b) × LaterRun a b

create_run-Kept :
    (r : Repo) (run : AgentRun) (id : String) (a : AgentRun)
    → lookup id r.runs ≡ some a
    → Kept id a (create_run r run).0
unfolding create_run
create_run-Kept r run id a e =
    let filled = record run { status = if run.status == "" then run_queued else run.status } in
    (a, ground (arith, lookup-insert run.id id filled r.runs, eq_iff run.id id), LaterRun-refl a)

get_run-lookup :
    (r : Repo) (account_id id : String) (a : AgentRun)
    → get_run r account_id id ≡ ok a
    → (lookup id r.runs ≡ some a) × (a.account_id ≡ account_id)
unfolding get_run
get_run-lookup r account_id id a h = (ground arith, ground (arith, eq_iff a.account_id account_id))

update_run-Kept :
    (r : Repo) (account_id key status code : String) (at now : Time) (id : String) (a : AgentRun)
    → lookup id r.runs ≡ some a
    → Kept id a (update_run r account_id key status code at now).0
unfolding update_run
update_run-Kept r account_id key status code at now id a e =
    elim (Result-cases (get_run r account_id key)) [
      | inr (x, bad) ↦ (a, ground (arith, bad), LaterRun-refl a)
      | inl (b, good) ↦ elim (Bool-cases (run_transition b.status status)) [
        | inr refused ↦ (a, ground (arith, good, refused), LaterRun-refl a)
        | inl fits ↦ elim (Bool-cases (valid_run_status status)) [
          | inr refused ↦ (a, ground (arith, good, refused), LaterRun-refl a)
          | inl valid ↦
              let there = (get_run-lookup r account_id key b good).0 in
              let next = moved b status code (or_time at now) in
              let law = lookup-insert key id next r.runs in
              elim (Bool-cases (key == id)) [
                | inr other ↦ (a, ground (arith, good, fits, valid, law, other), LaterRun-refl a)
                | inl same ↦
                    let one : b ≡ a = ground (arith, same, e, there, eq_iff key id) in
                    (
                      next,
                      ground (arith, good, fits, valid, law, same),
                      rw (sym one) (moved-LaterRun b status code (or_time at now) fits),
                    )
              ]
        ]
      ]
    ]

Step-Kept :
    (r s : Repo) → Step r s → (id : String) (a : AgentRun) → lookup id r.runs ≡ some a → Kept id a s
unfolding create_conversation close_conversation put_message store_message update_message_status
    append_run_event append_audit
Step-Kept r s (creates_conversation c) id a e = (a, ground arith, LaterRun-refl a)
Step-Kept r s (closes account_id key status now) id a e = (a, ground arith, LaterRun-refl a)
Step-Kept r s (puts n now) id a e = (a, ground arith, LaterRun-refl a)
Step-Kept r s (moves_message account_id key status at now) id a e =
    (a, ground arith, LaterRun-refl a)
Step-Kept r s (creates_run run) id a e = create_run-Kept r run id a e
Step-Kept r s (moves_run account_id key status code at now) id a e =
    update_run-Kept r account_id key status code at now id a e
Step-Kept r s (appends x now fresh) id a e = (a, ground arith, LaterRun-refl a)
Step-Kept r s (audits x now fresh) id a e = (a, ground arith, LaterRun-refl a)

-- Whatever calls follow, in any order, a stored run stays under its id with its account,
-- conversation, input message and start. It never goes back from an end to running or queued, nor
-- from running to queued, and once it has ended its status stays.
pub runs_move_forward :
    (r s : Repo)
    → Reaches r s
    → (id : String) (a : AgentRun) → lookup id r.runs ≡ some a
    → (b : AgentRun) × (lookup id s.runs ≡ some b) × LaterRun a b
runs_move_forward r s stays id a e = (a, e, LaterRun-refl a)
runs_move_forward r s (then_step t u before k) id a e =
    let (b, e', l') = runs_move_forward r t before id a e in
    let (c, e'', l'') = Step-Kept t s k id b e' in (c, e'', LaterRun-trans a b c l' l'')
