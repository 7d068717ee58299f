-- ===== src/Realtime/Queue.antt =====
-- What holds of a target's queue: its events carry consecutive cursors that end at the queue's
-- counter, no id stands twice, and it holds no more than is retained.
use alice_eve.Base.{
  some, if◌then◌else◌, eq_refl, subst, sym, ◌≡◌, refl, ap, Bool, true, false, ◌==◌, eq_iff, none,
  arith, Bool-cases, Option-cases, inl, inr, List, [], ◌∷◌, ◌++◌, ℕ, zero, suc, ◌+◌, ◌-◌, ◌≤◌, ◌<◌,
  drop, length, length-append, length-drop, ltb,
}
use alice_eve.Base.Int.{ℤ, pos, inc64, leb_ℤ, max_int64, ◌<ℤ◌}
use alice_eve.Realtime.{Event, TargetQueue, Subscription}
use alice_eve.Realtime.Delivery.{find_event, publish_locked, accept, retained}

-- The cursors go up by one from just above `n`.
abbrev pub Consecutive : ℕ → List Event → Type 0
Consecutive n [] = Unit
Consecutive n (e ∷ events) = (e.cursor ≡ pos (n + 1)) × Consecutive (n + 1) events

Consecutive-append :
    (n : ℕ) (events : List Event) (e : Event)
    → Consecutive n events
    → e.cursor ≡ pos (n + length events + 1)
    → Consecutive n (events ++ e ∷ [])
Consecutive-append n [] e c h = (ground arith, tt)
Consecutive-append n (x ∷ events) e c h =
    (c.0, Consecutive-append (n + 1) events e c.1 (ground arith))

pub Consecutive-drop :
    (n m k : ℕ) (events : List Event)
    → m ≡ n + k
    → k ≤ length events
    → Consecutive n events
    → Consecutive m (drop k events)
Consecutive-drop n m zero events q h c = let same : m ≡ n = omega arith in rw same c
Consecutive-drop n m (suc k) [] q h c = absurd (omega arith)
Consecutive-drop n m (suc k) (x ∷ events) q h c =
    Consecutive-drop (n + 1) m k events (omega arith) (omega arith) c.1

-- No id stands twice.
abbrev pub DistinctIds : List Event → Type 0
DistinctIds [] = Unit
DistinctIds (e ∷ events) = (find_event (λ x. x.id == e.id) events ≡ none) × DistinctIds events

find_event-append_none :
    (p : Event → Bool) (events : List Event) (e : Event)
    → find_event p events ≡ none
    → p e ≡ false
    → find_event p (events ++ e ∷ []) ≡ none
unfolding find_event
find_event-append_none p [] e h q = ground arith
find_event-append_none p (x ∷ events) e h q = ground (arith, find_event-append_none p events e)

find_event-drop-none :
    (p : Event → Bool) (k : ℕ) (events : List Event)
    → find_event p events ≡ none
    → find_event p (drop k events) ≡ none
unfolding find_event
find_event-drop-none p zero events h = h
find_event-drop-none p (suc k) [] h = refl
find_event-drop-none p (suc k) (x ∷ events) h = find_event-drop-none p k events (ground arith)

DistinctIds-append :
    (events : List Event) (e : Event)
    → find_event (λ x. x.id == e.id) events ≡ none
    → DistinctIds events
    → DistinctIds (events ++ e ∷ [])
unfolding find_event
DistinctIds-append [] e h d = (refl, tt)
DistinctIds-append (x ∷ events) e h d = (
  find_event-append_none (λ y. y.id == x.id) events e d.0
      (ground (arith, eq_iff x.id e.id, eq_iff e.id x.id)),
  DistinctIds-append events e (ground arith) d.1,
)

DistinctIds-drop : (k : ℕ) (events : List Event) → DistinctIds events → DistinctIds (drop k events)
DistinctIds-drop zero events d = d
DistinctIds-drop (suc k) [] d = tt
DistinctIds-drop (suc k) (x ∷ events) d = DistinctIds-drop k events d.1

pub record Inv (retention : ℕ) (q : TargetQueue) : Type 0 where
  pub dropped : ℕ
  pub consecutive : Consecutive dropped q.events
  pub top : q.next_cursor ≡ pos (dropped + length q.events)
  pub distinct : DistinctIds q.events
  pub bounded : length q.events ≤ retention
  pub never_emptied : length q.events ≡ 0 → dropped ≡ 0

-- Dropping the oldest events keeps the rest.
retained-Inv :
    (retention first : ℕ) (next : ℤ) (events : List Event) (subs : List Subscription)
    → 0 < retention
    → 0 < length events
    → Consecutive first events
    → next ≡ pos (first + length events)
    → DistinctIds events
    → Inv retention (record { next_cursor = next; events = retained retention events; subs = subs })
retained-Inv retention first next events subs some_kept some_there c t d =
    elim (Bool-cases (ltb retention (length events))) [
      | inr fits ↦ rw fits (record {
        dropped = first;
        consecutive = c;
        top = t;
        distinct = d;
        bounded = ground arith;
        never_emptied = λ z. absurd (omega arith);
      })
      | inl over ↦ rw over (
          let k = length events - retention in
          let within : k ≤ length events = omega arith in
          let more : retention < length events = ground arith in
          record {
            dropped = first + k;
            consecutive = Consecutive-drop first (first + k) k events refl within c;
            top = rw t (ap pos (omega (arith, length-drop k events)));
            distinct = DistinctIds-drop k events d;
            bounded = omega (arith, length-drop k events);
            never_emptied = λ z. absurd (omega (arith, length-drop k events));
          })
    ]

inc64_pos : (n : ℕ) → n < max_int64 → inc64 (pos n) ≡ pos (n + 1)
unfolding inc64
inc64_pos n h = ground arith

-- Publishing an event without a cursor keeps the invariant of a queue, if at least one event is
-- retained and the counter has not reached the greatest int64: the cursors of its events are
-- consecutive and end at the counter, no id stands twice, and it holds no more than is retained.
pub publish_locked-Inv :
    (retention : ℕ) (q : TargetQueue) (e : Event)
    → 0 < retention
    → leb_ℤ e.cursor (pos 0) ≡ true
    → q.next_cursor <ℤ pos max_int64
    → Inv retention q
    → Inv retention (publish_locked retention q e).0
unfolding publish_locked accept
publish_locked-Inv retention q e positive unnumbered room v =
    elim (Option-cases (find_event (λ prior. prior.id == e.id) q.events)) [
      | inr (prior, hit) ↦ rw (hit, publish_locked) v
      | inl fresh ↦
          let stamped = record e { cursor = inc64 q.next_cursor } in
          let number : inc64 q.next_cursor ≡ pos (v.dropped + length q.events + 1) =
            rw v.top (inc64_pos _ (ground (arith, v.top))) in
          let longer = length-append q.events (stamped ∷ []) in
          rw (fresh, unnumbered, publish_locked)
            (retained-Inv retention v.dropped _ (q.events ++ stamped ∷ []) _ positive
              (omega (arith, longer))
              (Consecutive-append v.dropped q.events stamped v.consecutive number)
              (ground (arith, v.top, number, longer))
              (DistinctIds-append q.events stamped fresh v.distinct))
    ]

find_event-append_fresh :
    (events : List Event) (e : Event)
    → find_event (λ x. x.id == e.id) events ≡ none
    → find_event (λ x. x.id == e.id) (events ++ e ∷ []) ≡ some e
unfolding find_event
find_event-append_fresh [] e h = ground (arith, eq_refl e.id)
find_event-append_fresh (x ∷ events) e h = ground (arith, find_event-append_fresh events e)

-- What is dropped from the front leaves the last event.
find_event-drop_fresh :
    (k : ℕ) (events : List Event) (e : Event)
    → k ≤ length events
    → find_event (λ x. x.id == e.id) events ≡ none
    → find_event (λ x. x.id == e.id) (drop k (events ++ e ∷ [])) ≡ some e
unfolding find_event
find_event-drop_fresh zero events e h q = find_event-append_fresh events e q
find_event-drop_fresh (suc k) [] e h q = absurd (omega arith)
find_event-drop_fresh (suc k) (x ∷ events) e h q =
    find_event-drop_fresh k events e (omega arith) (ground arith)

retained-find :
    (retention : ℕ) (events : List Event) (e : Event)
    → 0 < retention
    → find_event (λ x. x.id == e.id) events ≡ none
    → find_event (λ x. x.id == e.id) (retained retention (events ++ e ∷ [])) ≡ some e
retained-find retention events e positive fresh =
    let longer = length-append events (e ∷ []) in
    elim (Bool-cases (ltb retention (length (events ++ e ∷ [])))) [
      | inr fits ↦ rw fits (find_event-append_fresh events e fresh)
      | inl over ↦ rw over (
          find_event-drop_fresh (length (events ++ e ∷ []) - retention) events e
            (omega (arith, longer)) fresh)
    ]

-- If at least one event is retained, publishing a second event with the id of one that was just
-- published changes nothing and answers with the event that stands in the queue, whatever the second
-- one says.
pub publish_locked_twice :
    (retention : ℕ) (q : TargetQueue) (e e' : Event)
    → 0 < retention
    → e'.id ≡ e.id
    → let (q', out) = publish_locked retention q e in publish_locked retention q' e' ≡ (q', out)
unfolding publish_locked accept
publish_locked_twice retention q e e' positive same =
    elim (Option-cases (find_event (λ prior. prior.id == e.id) q.events)) [
      | inr (prior, hit) ↦
          let first : publish_locked retention q e ≡ (q, prior) = rw (hit, publish_locked) refl in
          let second : publish_locked retention q e' ≡ (q, prior) =
            rw (same, hit, publish_locked) refl in
          subst (λ (p : TargetQueue × Event). publish_locked retention p.0 e' ≡ p) (sym first)
            second
      | inl fresh ↦
          let stamped = record e {
            cursor = if leb_ℤ e.cursor (pos 0) then inc64 q.next_cursor else e.cursor;
          } in
          let there = retained-find retention q.events stamped positive fresh in
          let first : publish_locked retention q e ≡ (accept retention q stamped, stamped) =
            rw (fresh, publish_locked) refl in
          let second : publish_locked retention (accept retention q stamped) e'
              ≡ (accept retention q stamped, stamped) =
            rw (same, there, publish_locked) refl in
          subst (λ (p : TargetQueue × Event). publish_locked retention p.0 e' ≡ p) (sym first)
            second
    ]
