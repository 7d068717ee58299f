-- ===== src/Realtime/Replay.antt =====
-- Replaying a target's queue: pages have no gaps, and one goes on where the other ended.
use alice_eve.Base.{
  ◌≡◌, refl, ap, ◌∙◌, true, false, arith, if◌then◌else◌, Bool-cases, inl, inr, List, [], ◌∷◌, ℕ,
  zero, suc, ◌+◌, ◌-◌, ◌≤◌, ◌<◌, drop, take, keep, any, length, length-drop, length-take, ltb, eqb,
}
use Prim.Native.Nat.{min}
use alice_eve.Base.Results.{ok}
use alice_eve.Base.Int.{pos, pos_part, dec64}
use alice_eve.Realtime.{Event, ReplayPage, TargetQueue}
use alice_eve.Realtime.Delivery.{newer, expired, last_cursor, replay_queue}
use alice_eve.Realtime.Queue.{Consecutive, Inv}

-- The events behind a cursor are a tail of the queue.
keep-newer :
    (n a : ℕ) (events : List Event)
    → Consecutive n events
    → keep (newer (pos a)) events ≡ drop (a - n) events
unfolding keep
keep-newer n a [] c = drop-nil (a - n)
  where
    drop-nil : (k : ℕ) → ◌≡◌ {A = List Event} [] (drop k [])
    drop-nil zero = refl
    drop-nil (suc k) = refl
keep-newer n a (e ∷ events) c = elim (Bool-cases (ltb a (n + 1))) [
  | inl all ↦
      let rest = keep-newer (n + 1) a events c.1 in
      let none_left : a - (n + 1) ≡ 0 = ground arith in
      let none_here : a - n ≡ 0 = ground arith in
      let passes : newer (pos a) e ≡ true = ground (arith, c.0) in
      rw (none_here, passes) (ap (◌∷◌ e) (rest ∙ ap (λ (k : ℕ). drop k events) none_left))
  | inr behind ↦
      let rest = keep-newer (n + 1) a events c.1 in
      let fails : newer (pos a) e ≡ false = ground (arith, c.0) in
      let one_more : a - n ≡ suc (a - (n + 1)) = ground arith in rw (one_more, fails) rest
]

Consecutive-take :
    (n k : ℕ) (events : List Event) → Consecutive n events → Consecutive n (take k events)
Consecutive-take n zero events c = tt
Consecutive-take n (suc k) [] c = tt
Consecutive-take n (suc k) (e ∷ events) c = (c.0, Consecutive-take (n + 1) k events c.1)

last_cursor-Consecutive :
    (n : ℕ) (events : List Event)
    → Consecutive n events
    → last_cursor (pos n) events ≡ pos (n + length events)
unfolding last_cursor
last_cursor-Consecutive n [] c = ap pos (omega arith)
last_cursor-Consecutive n (e ∷ events) c =
    rw c.0 (last_cursor-Consecutive (n + 1) events c.1 ∙ ap pos (omega arith))

any-newer :
    (n a : ℕ) (events : List Event)
    → n ≤ a
    → Consecutive n events
    → any (newer (pos a)) events ≡ ltb a (n + length events)
unfolding any
any-newer n a [] h c = ground arith
any-newer n a (e ∷ events) h c = ground (arith, c.0, any-newer (n + 1) a events)

dec64_pos : (n : ℕ) → dec64 (pos (n + 1)) ≡ pos n
unfolding dec64
dec64_pos n = ground arith

-- A cursor that is still covered starts no earlier than the queue does.
covered :
    (n a : ℕ) (events : List Event)
    → Consecutive n events
    → (length events ≡ 0 → n ≡ 0)
    → expired events (pos a) ≡ false
    → n ≤ a
unfolding expired
covered n a [] c z e = omega arith
covered n a (x ∷ events) c z e = ground (arith, c.0, dec64_pos n)

-- Dropping beyond the end leaves nothing to number.
Consecutive-drop_any :
    (n a : ℕ) (events : List Event)
    → n ≤ a
    → Consecutive n events
    → Consecutive a (drop (a - n) events)
Consecutive-drop_any n a events h c = go (a - n) n a events (omega arith) c
  where
    go :
        (k n a : ℕ) (events : List Event)
        → a ≡ n + k
        → Consecutive n events
        → Consecutive a (drop k events)
    go zero n a events q c = let same : a ≡ n = omega arith in rw same c
    go (suc k) n a [] q c = tt
    go (suc k) n a (x ∷ events) q c = go k (n + 1) a events (omega arith) c.1

-- What a page of the queue says: the events right behind the cursor, with consecutive cursors, as many
-- as the limit and the queue allow; where to go on; and whether there is more.
pub record NoGap (top a limit : ℕ) (page : ReplayPage) : Type 0 where
  pub consecutive : Consecutive a page.events
  pub complete : length page.events ≡ min limit (top - a)
  pub next : page.next_cursor ≡ pos (a + length page.events)
  pub more : page.has_more ≡ ltb (a + length page.events) top

page-NoGap :
    (n a limit : ℕ) (events : List Event)
    → 0 < limit
    → n ≤ a
    → Consecutive n events
    → let items = take limit (keep (newer (pos a)) events) in
      let next = last_cursor (pos a) items in
      NoGap (n + length events) a limit (record {
        events = items;
        next_cursor = next;
        has_more = if eqb (length items) 0 then false else any (newer next) events;
      })
page-NoGap n a limit events positive h c =
    let items = take limit (keep (newer (pos a)) events) in
    let same : items ≡ take limit (drop (a - n) events) =
      ap (take limit) (keep-newer n a events c) in
    let cut : Consecutive a items =
      rw same (Consecutive-take a limit _ (Consecutive-drop_any n a events h c)) in
    let long : length items ≡ min limit (n + length events - a) = omega (
      arith,
      ap length same,
      length-take limit (drop (a - n) events),
      length-drop (a - n) events,
    ) in
    let last : last_cursor (pos a) items ≡ pos (a + length items) =
      last_cursor-Consecutive a items cut in
    let rest = any-newer n (a + length items) events (omega arith) c in
    record {
      consecutive = cut;
      complete = long;
      next = last;
      more = ground (arith, long, last, rest);
    }

-- Whenever the replay of a queue that satisfies the invariant answers, for a limit that is not
-- zero, the page misses nothing: its events carry the cursors right behind the one asked for, one
-- by one, up to the limit or the end of the queue; it goes on at the last of them, and says there
-- is more exactly when there is.
pub replay-NoGap :
    (retention after limit : ℕ) (q : TargetQueue) (page : ReplayPage)
    → 0 < limit
    → Inv retention q
    → replay_queue q.events (pos after) limit ≡ ok page
    → NoGap (pos_part q.next_cursor) after limit page
unfolding replay_queue
replay-NoGap retention after limit q page positive v h =
    elim (Bool-cases (expired q.events (pos after))) [
      | inl gone ↦ absurd (ground (arith, gone, h))
      | inr there ↦
          let page' =
            page-NoGap v.dropped after limit q.events positive
              (covered v.dropped after q.events v.consecutive v.never_emptied there)
              v.consecutive in
          let items = take limit (keep (newer (pos after)) q.events) in
          let next = last_cursor (pos after) items in
          let same : page ≡ record {
            events = items;
            next_cursor = next;
            has_more = if eqb (length items) 0 then false else any (newer next) q.events;
          } =
            ground (arith, there, h) in
          rw (same, v.top) page'
    ]
