-- ===== src/Conversations/Sequence.antt =====
-- The events of a run are numbered 1, 2, 3 and so on, without gaps: whatever calls are made.
use alice_eve.Base.{
  ◌≡◌, refl, sym, ◌==◌, eq_iff, String, arith, Bool-cases, inl, inr, if◌then◌else◌, List, [], ◌∷◌,
  ◌++◌, ℕ, ◌+◌, ◌<◌, ◌≤◌, length, length-append, ap, ◌∙◌,
}
use alice_eve.Base.Int.{pos, inc64, max_int64}
use alice_eve.Base.Results.{Result-cases}
use alice_eve.Base.Dict.{lookup, insert, lookup-insert}
use alice_eve.Conversations.{Time, RunEvent, Repo, new_repo, or_zero, or_time}
use alice_eve.Conversations.Memory.{
  create_conversation, close_conversation, put_message, store_message, update_message_status,
}
use alice_eve.Conversations.Runs.{
  create_run, update_run, append_run_event, append_audit, get_run, or_empty,
}
use alice_eve.Conversations.Steps.{
  Step, creates_conversation, closes, puts, moves_message, creates_run, moves_run, appends, audits,
  Reaches, stays, then_step,
}

-- The events are numbered from just above `n`.
abbrev pub Numbered : ℕ → List RunEvent → Type 0
Numbered n [] = Unit
Numbered n (e ∷ events) = (e.sequence ≡ pos (n + 1)) × Numbered (n + 1) events

Numbered-append :
    (n : ℕ) (events : List RunEvent) (e : RunEvent)
    → Numbered n events
    → e.sequence ≡ pos (n + length events + 1)
    → Numbered n (events ++ e ∷ [])
Numbered-append n [] e c h = (ground arith, tt)
Numbered-append n (x ∷ events) e c h = (c.0, Numbered-append (n + 1) events e c.1 (ground arith))

abbrev pub events_of : Repo → String → List RunEvent
events_of r run_id = or_empty (lookup run_id r.run_events)

-- The counter of the run is the number of its events, which are numbered from 1.
pub record Counted (run_id : String) (r : Repo) : Type 0 where
  pub numbered : Numbered 0 (events_of r run_id)
  pub counter : or_zero (lookup run_id r.run_seq) ≡ pos (length (events_of r run_id))

inc64_pos : (n : ℕ) → n < max_int64 → inc64 (pos n) ≡ pos (n + 1)
unfolding inc64
inc64_pos n h = ground arith

-- What `AppendRunEvent` stores.
abbrev with_event : Repo → String → RunEvent → Repo
with_event r key e = record r {
  run_seq = insert key (inc64 (or_zero (lookup key r.run_seq))) r.run_seq;
  run_events = insert key (events_of r key ++ e ∷ []) r.run_events;
}

with_event-Counted :
    (r : Repo) (key : String) (e : RunEvent) (run_id : String)
    → e.sequence ≡ inc64 (or_zero (lookup key r.run_seq))
    → length (events_of (with_event r key e) run_id) ≤ max_int64
    → Counted run_id r
    → Counted run_id (with_event r key e)
with_event-Counted r key e run_id numbers room v =
    let counts = lookup-insert key run_id (inc64 (or_zero (lookup key r.run_seq))) r.run_seq in
    let lists = lookup-insert key run_id (events_of r key ++ e ∷ []) r.run_events in
    elim (Bool-cases (key == run_id)) [
      | inr other ↦ record {
        numbered = rw (lists, other) v.numbered;
        counter = rw (lists, counts, other) v.counter;
      }
      | inl same ↦
          let one : key ≡ run_id = ground (arith, same, eq_iff key run_id) in
          let longer = length-append (events_of r run_id) (e ∷ []) in
          let now : events_of (with_event r key e) run_id ≡ events_of r run_id ++ e ∷ [] =
            rw (lists, same, one) refl in
          let below : length (events_of r run_id) < max_int64 =
            omega (arith, room, ap length now, longer) in
          let next : inc64 (or_zero (lookup key r.run_seq))
              ≡ pos (length (events_of r run_id) + 1) =
            rw (one, v.counter) (inc64_pos _ below) in
          record {
            numbered =
                rw now (Numbered-append 0 _ e v.numbered (numbers ∙ next ∙ ap pos (omega arith)));
            counter = rw (now, counts, same) (next ∙ ap pos (omega (arith, longer)));
          }
    ]

-- No step takes an event away.
with_event-le :
    (r : Repo) (key : String) (e : RunEvent) (run_id : String)
    → length (events_of r run_id) ≤ length (events_of (with_event r key e) run_id)
with_event-le r key e run_id =
    let lists = lookup-insert key run_id (events_of r key ++ e ∷ []) r.run_events in
    elim (Bool-cases (key == run_id)) [
      | inr other ↦ rw (lists, other) (omega arith)
      | inl same ↦
          let one : key ≡ run_id = ground (arith, same, eq_iff key run_id) in
          rw (lists, same, one) (omega (arith, length-append (events_of r run_id) (e ∷ [])))
    ]

-- How a step changes the events of a run: it keeps them, or it appends one.
data Change (run_id : String) (r : Repo) : Repo → Type 0 where
  keeps : (s : Repo) → s.run_events ≡ r.run_events → s.run_seq ≡ r.run_seq → Change run_id r s
  adds :
      (key : String) (e : RunEvent)
      → e.sequence ≡ inc64 (or_zero (lookup key r.run_seq))
      → Change run_id r (with_event r key e)

append_run_event-Change :
    (r : Repo) (e : RunEvent) (now : Time) (fresh run_id : String)
    → Change run_id r (append_run_event r e now fresh).0
unfolding append_run_event
append_run_event-Change r e now fresh run_id =
    elim (Result-cases (get_run r e.account_id e.run_id)) [
      | inr (x, bad) ↦ rw (bad, append_run_event) (keeps r refl refl)
      | inl (run, good) ↦ elim (Bool-cases (run.conversation_id == e.conversation_id)) [
        | inr apart ↦ rw (good, apart, append_run_event) (keeps r refl refl)
        | inl together ↦
            rw (good, together, append_run_event)
              (adds e.run_id
                (record e {
                  sequence = inc64 (or_zero (lookup e.run_id r.run_seq));
                  id = if e.id == "" then fresh else e.id;
                  created_at = or_time e.created_at now;
                })
                refl)
      ]
    ]

Step-Change : (r s : Repo) (run_id : String) → Step r s → Change run_id r s
unfolding create_conversation close_conversation put_message store_message update_message_status
    create_run update_run append_audit
Step-Change r s run_id (creates_conversation c) = keeps _ (ground arith) (ground arith)
Step-Change r s run_id (closes account key status now) = keeps _ (ground arith) (ground arith)
Step-Change r s run_id (puts n now) = keeps _ (ground arith) (ground arith)
Step-Change r s run_id (moves_message account key status at now) =
    keeps _ (ground arith) (ground arith)
Step-Change r s run_id (creates_run run) = keeps _ (ground arith) (ground arith)
Step-Change r s run_id (moves_run account key status code at now) =
    keeps _ (ground arith) (ground arith)
Step-Change r s run_id (appends x now fresh) = append_run_event-Change r x now fresh run_id
Step-Change r s run_id (audits x now fresh) = keeps _ (ground arith) (ground arith)

Change-Counted :
    (r s : Repo) (run_id : String)
    → Change run_id r s
    → length (events_of s run_id) ≤ max_int64
    → (length (events_of r run_id) ≤ max_int64 → Counted run_id r)
    → Counted run_id s
Change-Counted r s run_id (keeps t events counts) room v =
    let w = v (rw (sym events) room) in
    record { numbered = rw events w.numbered; counter = rw (events, counts) w.counter }
Change-Counted r s run_id (adds key e numbers) room v =
    with_event-Counted r key e run_id numbers room
      (v (omega (arith, with_event-le r key e run_id, room)))

-- In every repository that calls lead to from an empty one, in any order, the events of a run are
-- numbered 1, 2, 3 and so on in the order they were appended, and the counter of the run is how many
-- there are, as long as they are no more than the greatest int64.
pub run_events_numbered :
    (s : Repo) (run_id : String)
    → Reaches new_repo s
    → length (events_of s run_id) ≤ max_int64
    → Counted run_id s
unfolding lookup
run_events_numbered s run_id stays room = record { numbered = tt; counter = refl }
run_events_numbered s run_id (then_step t u before k) room =
    Change-Counted t s run_id (Step-Change t s run_id k) room (run_events_numbered t run_id before)
