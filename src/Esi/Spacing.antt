-- ===== src/Esi/Spacing.antt =====
-- limiter.go: when requests start.
use alice_eve.Base.{
  ◌≡◌, true, false, ◌&&◌, not, Option, String, if◌then◌else◌, ℕ, ◌+◌, ◌≤◌, arith, Bool-cases,
  Option-cases, subst, inl, inr, List, [], ◌∷◌,
}
use alice_eve.Base.Results.{ok, err, Result-cases}
use alice_eve.Esi.{Response}
use alice_eve.Esi.Limiter.{Limiter, degraded_delay, is_degraded, is_held, plan, wait, observe}

-- A request that `Wait` lets through starts no earlier than now and than the end of a hold, no later than
-- the longest wait, and where few requests remain and there is no hold, no earlier than the next slot.
pub wait_bounds :
    (l : Limiter) (now start : ℕ) (ends : ℕ → Option String)
    → (wait l now ends).1 ≡ ok start
    → (now ≤ start)
      × (l.until ≤ start)
      × (start ≤ now + l.max_wait)
      × (is_degraded l ≡ true → is_held l now ≡ false → l.next_slow ≤ start)
unfolding wait plan
wait_bounds l now start ends h = elim (Option-cases (ends (plan l now).1)) [
  | inl none_ends ↦ ground (arith, h, none_ends)
  | inr (e, ends_so) ↦ ground (arith, h, ends_so)
]

-- The next slot moves behind a request that takes one, and never back.
wait_next :
    (l : Limiter) (now : ℕ) (ends : ℕ → Option String)
    → let w = wait l now ends in
      (l.next_slow ≤ w.0.next_slow)
      × ((start : ℕ)
          → w.1 ≡ ok start
          → is_degraded l && not (is_held l now) ≡ true
          → w.0.next_slow ≡ start + degraded_delay)
unfolding wait plan
wait_next l now ends = (
  ground arith,
  λ start h slot. elim (Option-cases (ends (plan l now).1)) [
    | inl none_ends ↦ ground (arith, h, none_ends, slot)
    | inr (e, ends_so) ↦ ground (arith, h, ends_so, slot)
  ],
)

-- Calls of a shared limiter, in the order in which they take its lock.
pub data Event : Type 0 where
  waits : ℕ → (ℕ → Option String) → Event
  observes : ℕ → Response → Event

-- When the requests start that had to take a slot: a request that waits for the end of a hold takes none.
unfoldable pub slots : Limiter → List Event → List ℕ
slots l [] = []
slots l (observes now meta ∷ events) = slots (observe l now meta) events
slots l (waits now ends ∷ events) =
    let w = wait l now ends in
    let rest = slots w.0 events in
    elim w.1 [
      | err e ↦ rest
      | ok start ↦ if is_degraded l && not (is_held l now) then start ∷ rest else rest
    ]

-- Times from `first` on, the delay apart.
abbrev pub Spaced : ℕ → List ℕ → Type 0
Spaced first [] = Unit
Spaced first (t ∷ ts) = (first ≤ t) × Spaced (t + degraded_delay) ts

Spaced-le : (first later : ℕ) (ts : List ℕ) → first ≤ later → Spaced later ts → Spaced first ts
Spaced-le first later [] h s = tt
Spaced-le first later (t ∷ ts) h s = (omega (arith, h, s.0), s.1)

-- Whatever the order of waits and observations, the requests that take a slot start at least the delay
-- apart, none before the slot that was next: those that `Wait` lets through and that found 20 to 50
-- requests left and no hold in force when they asked. A request that waits for the end of a hold takes
-- no slot, and is not among them: it may start at the same time as another.
pub slots-Spaced : (l : Limiter) (events : List Event) → Spaced l.next_slow (slots l events)
unfolding slots observe
slots-Spaced l [] = tt
slots-Spaced l (observes now meta ∷ events) = slots-Spaced (observe l now meta) events
slots-Spaced l (waits now ends ∷ events) =
    let w = wait l now ends in
    let rest = slots-Spaced w.0 events in
    let next = wait_next l now ends in
    elim (Result-cases w.1) [
      | inr (e, fails) ↦ rw (fails, slots) (Spaced-le l.next_slow w.0.next_slow _ next.0 rest)
      | inl (start, starts) ↦ elim (Bool-cases (is_degraded l && not (is_held l now))) [
        | inr free ↦ rw (starts, free, slots) (Spaced-le l.next_slow w.0.next_slow _ next.0 rest)
        | inl slot ↦
            let bounds = wait_bounds l now start ends starts in
            rw (starts, slot, slots)
              (
                bounds.3 (ground (arith, slot)) (ground (arith, slot)),
                subst (λ (t : ℕ). Spaced t (slots w.0 events)) (next.1 start starts slot) rest,
              )
      ]
    ]
