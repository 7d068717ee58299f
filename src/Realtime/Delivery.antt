-- ===== src/Realtime/Delivery.antt =====
-- hub.go: publish, replay, subscribe and close. The authorizer is an argument (`none` if there is
-- none); so is what the durable repository answers, since its code is SQL: `none` is a hub without
-- one. `event_size` is the length of the event's JSON text. `now` is the clock, `fresh` a new id.
use Prim.Native.String.{◌++◌, len}
use alice_eve.Base.{
  Bool, true, false, ◌==◌, ◌||◌, ◌&&◌, not, Option, none, some, String, if◌then◌else◌, List, [],
  ◌∷◌, ◌++◌ as cat, ℕ, ◌+◌, ◌-◌, ◌*◌, ◌%◌, ◌^◌, ltb, eqb, take, drop, keep, any, length, map,
}
use alice_eve.Base.Results.{Result, ok, err}
use alice_eve.Base.Text.{is_blank}
use alice_eve.Base.Int.{ℤ, pos, inc64, dec64, ltb_ℤ, leb_ℤ, eqb_ℤ, pos_part}
use alice_eve.Base.Dict.{lookup, insert}
use alice_eve.RateLimit.{Refusal, retry_after, hub_allow}
use alice_eve.RateLimit
use alice_eve.Realtime.{
  Time, Error, invalid, too_large, backpressure, cursor_expired, panics, rate_limited, Event,
  ReplayPage, Config, Limits, Subscription, TargetQueue, Hub, new_queue,
}

-- A setting, or its default if it is not positive.
abbrev pub or_default : ℤ → ℕ → ℕ
or_default n d = if leb_ℤ n (pos 0) then d else pos_part n

unfoldable pub with_defaults : Config → Limits
with_defaults c = record {
  queue_size = or_default c.queue_size 64;
  max_event_bytes = or_default c.max_event_bytes (256 * 1024);
  events_per_window = or_default c.events_per_window 120;
  rate_window = or_default c.rate_window 60_000_000_000;
  retention_per_device = or_default c.retention_per_device 1000;
}

abbrev pub target_key : String → String → String
target_key account_id device_id = account_id ++ "\0" ++ device_id

unfoldable pub validate_target : String → String → Bool
validate_target account_id device_id = not (is_blank account_id || is_blank device_id)

-- `queueLocked`: a missing queue is created.
abbrev pub or_new : Option TargetQueue → TargetQueue
or_new none = new_queue
or_new (some q) = q

unfoldable pub queue_of : Hub → String → String → TargetQueue
queue_of h account_id device_id = or_new (lookup (target_key account_id device_id) h.queues)

unfoldable pub set_queue : Hub → String → String → TargetQueue → Hub
set_queue h account_id device_id q = record h {
  queues = insert (target_key account_id device_id) q h.queues;
}

-- `s.cursors[event.ID] = event.Cursor`.
abbrev pub note_cursor : Event → Subscription → Subscription
note_cursor e s = if e.id == "" then s else record s { cursors = insert e.id e.cursor s.cursors }

-- `closeOnce.Do(closeLocked(err))`: the first close counts.
abbrev pub close_with : Option Error → Subscription → Subscription
close_with e s = if s.done then s else record s { done = true; error = e }

-- `sendLocked` and what its failure leads to, for one subscription of the queue's map.
unfoldable pub send : Event → Subscription → Subscription
send e s =
    if not s.attached
    then s
    else let noted = note_cursor e s in
      if ltb (length s.ch) s.capacity
      then record noted { ch = cat s.ch (e ∷ []) }
      else close_with (some backpressure) (record noted { attached = false })

-- The newest `retention` events.
abbrev pub retained : ℕ → List Event → List Event
retained retention events =
    if ltb retention (length events) then drop (length events - retention) events else events

-- `append`, the retention bound, and the fan-out.
unfoldable pub accept : ℕ → TargetQueue → Event → TargetQueue
accept retention q e = record {
  next_cursor = if ltb_ℤ q.next_cursor e.cursor then e.cursor else q.next_cursor;
  events = retained retention (cat q.events (e ∷ []));
  subs = map (send e) q.subs;
}

unfoldable pub find_event : (Event → Bool) → List Event → Option Event
find_event p [] = none
find_event p (e ∷ events) = if p e then some e else find_event p events

-- The part of `Publish` under the lock, on an event that has its id, target and time.
unfoldable pub publish_locked : ℕ → TargetQueue → Event → TargetQueue × Event
publish_locked retention q e = elim (find_event (λ prior. prior.id == e.id) q.events) [
  | some prior ↦ (q, prior)
  | none ↦
      let stamped = record e {
        cursor = if leb_ℤ e.cursor (pos 0) then inc64 q.next_cursor else e.cursor;
      } in
      (accept retention q stamped, stamped)
]

-- The fields that the hub fills in.
abbrev pub addressed : String → String → Time → String → Event → Event
addressed account_id device_id now fresh e = record e {
  id = if e.id == "" then fresh else e.id;
  account_id = account_id;
  device_id = device_id;
  created_at = if eqb e.created_at 0 then now else e.created_at;
}

publish_event : Limits → Hub → String → String → Event → Time → String → Hub × Result Error Event
publish_event c h account_id device_id e now fresh =
    let (q, out) =
      publish_locked c.retention_per_device (queue_of h account_id device_id)
        (addressed account_id device_id now fresh e) in
    (set_queue h account_id device_id q, ok out)

-- With a repository, the event that it stored goes on.
persist :
    Limits
    → Hub
    → String
    → String
    → Event
    → Option (Result Error Event)
    → Time
    → String
    → Hub × Result Error Event
unfolding publish_event
persist c h account_id device_id e none now fresh =
    publish_event c h account_id device_id e now fresh
persist c h account_id device_id e (some (err x)) now fresh = (h, err x)
persist c h account_id device_id e (some (ok stored)) now fresh =
    publish_event c h account_id device_id stored now fresh

refusal : Refusal → Error
refusal (retry_after d) = rate_limited d
refusal RateLimit.panics = panics

charge :
    Limits
    → Hub
    → String
    → String
    → Event
    → Option (Result Error Event)
    → Time
    → String
    → Hub × Result Error Event
unfolding persist refusal
charge c h account_id device_id e answer now fresh =
    let (limiter, verdict) =
      hub_allow h.limiter (account_id ++ "/" ++ device_id) c.events_per_window c.rate_window now in
    elim verdict [
      | err x ↦ (record h { limiter = limiter }, err (refusal x))
      | ok _ ↦ persist c (record h { limiter = limiter }) account_id device_id e answer now fresh
    ]

abbrev pub Authorizer : Type 0
Authorizer = Option (String → String → Option Error)

-- The authorizer's error, if it has one.
abbrev pub denied : Authorizer → String → String → Option Error
denied none account_id device_id = none
denied (some f) account_id device_id = f account_id device_id

module _ (authorizer : Authorizer) (event_size : Event → ℕ) (c : Limits) where
  unfoldable pub publish :
      Hub
      → String
      → String
      → Event
      → Option (Result Error Event)
      → Time
      → String
      → Hub × Result Error Event
  unfolding charge
  publish h account_id device_id e answer now fresh =
      if not (validate_target account_id device_id)
      then (h, err invalid)
      else elim (denied authorizer account_id device_id) [
        | some x ↦ (h, err x)
        | none ↦
            if is_blank e.type
            then (h, err invalid)
            else if ltb c.max_event_bytes (len e.payload) || ltb c.max_event_bytes (event_size e)
            then (h, err too_large)
            else charge c h account_id device_id e answer now fresh
      ]

-- The bounds of a page size.
abbrev pub page_limit : ℤ → ℕ
page_limit limit =
    if leb_ℤ limit (pos 0) then 100 else if ltb_ℤ (pos 1000) limit then 1000 else pos_part limit

abbrev pub newer : ℤ → Event → Bool
newer after e = ltb_ℤ after e.cursor

-- `after < events[0].Cursor-1`: what lies between was dropped.
unfoldable pub expired : List Event → ℤ → Bool
expired [] after = false
expired (e ∷ events) after = ltb_ℤ after (dec64 e.cursor)

-- `items[len(items)-1].Cursor`, or the default.
unfoldable pub last_cursor : ℤ → List Event → ℤ
last_cursor d [] = d
last_cursor d (e ∷ events) = last_cursor e.cursor events

-- The page that the memory queue gives.
unfoldable pub replay_queue : List Event → ℤ → ℕ → Result Error ReplayPage
replay_queue events after limit =
    if expired events after
    then err cursor_expired
    else let items = take limit (keep (newer after) events) in
      let next = last_cursor after items in
      ok (record {
        events = items;
        next_cursor = next;
        has_more = if eqb (length items) 0 then false else any (newer next) events;
      })

module _ (authorizer : Authorizer) where
  -- With a repository, its answer is the result.
  unfoldable pub replay :
      Hub
      → String
      → String
      → ℤ
      → ℤ
      → Option (Result Error ReplayPage)
      → Hub × Result Error ReplayPage
  replay h account_id device_id after limit answer =
      if not (validate_target account_id device_id)
      then (h, err invalid)
      else elim (denied authorizer account_id device_id) [
        | some x ↦ (h, err x)
        | none ↦ if ltb_ℤ after (pos 0) then (h, err invalid) else elim answer [
          | some r ↦ (h, r)
          | none ↦
              let q = queue_of h account_id device_id in
              (set_queue h account_id device_id q, replay_queue q.events after (page_limit limit))
        ]
      ]

module _ (authorizer : Authorizer) (c : Limits) where
  -- `sub.ch <- event; sub.cursors[event.ID] = event.Cursor`, and the cursor of the queue.
  load : TargetQueue × Subscription → List Event → TargetQueue × Subscription
  load (q, s) [] = (q, s)
  load (q, s) (e ∷ events) =
      load
        (
          record q {
            next_cursor = if ltb_ℤ q.next_cursor e.cursor then e.cursor else q.next_cursor;
          },
          record s { ch = cat s.ch (e ∷ []); cursors = insert e.id e.cursor s.cursors },
        )
        events

  new_subscription : ℕ → Subscription
  new_subscription id = record {
    id = id;
    ch = [];
    capacity = c.queue_size;
    attached = true;
    done = false;
    error = none;
    cursors = [];
  }

  -- The part of `Subscribe` under the lock, with the events to start from.
  attach : Hub → String → String → TargetQueue → List Event → Hub × Result Error Subscription
  unfolding load new_subscription
  attach h account_id device_id q events =
      if ltb c.queue_size (length events)
      then (set_queue h account_id device_id q, err backpressure)
      else let id = (h.next_sub_id + 1) % 2 ^ 64 in
        let (q', s) = load (q, new_subscription id) events in
        (
          set_queue (record h { next_sub_id = id }) account_id device_id
              (record q' { subs = cat q'.subs (s ∷ []) }),
          ok s,
        )

  -- Without a repository the events come from the memory queue.
  attach_memory : Hub → String → String → ℤ → Hub × Result Error Subscription
  unfolding attach
  attach_memory h account_id device_id after =
      let q = queue_of h account_id device_id in
      if expired q.events after
      then (set_queue h account_id device_id q, err cursor_expired)
      else attach h account_id device_id q (keep (newer after) q.events)

  attach_page : Hub → String → String → ReplayPage → Hub × Result Error Subscription
  unfolding attach
  attach_page h account_id device_id page =
      if ltb c.queue_size (length page.events) || page.has_more
      then (h, err backpressure)
      else attach h account_id device_id (queue_of h account_id device_id) page.events

  unfoldable pub subscribe :
      Hub → String → String → ℤ → Option (Result Error ReplayPage) → Hub × Result Error Subscription
  unfolding attach_memory attach_page
  subscribe h account_id device_id after answer =
      if not (validate_target account_id device_id)
      then (h, err invalid)
      else elim (denied authorizer account_id device_id) [
        | some x ↦ (h, err x)
        | none ↦ if ltb_ℤ after (pos 0) then (h, err invalid) else elim answer [
          | none ↦ attach_memory h account_id device_id after
          | some (err x) ↦ (h, err x)
          | some (ok page) ↦ attach_page h account_id device_id page
        ]
      ]

-- `Close` of the subscription with the id.
abbrev pub detach : ℕ → Subscription → Subscription
detach id s =
    if eqb s.id id then close_with none (record s { attached = s.attached && s.done }) else s

unfoldable pub close : Hub → String → String → ℕ → Hub
close h account_id device_id id =
    let q = queue_of h account_id device_id in
    set_queue h account_id device_id (record q { subs = map (detach id) q.subs })

-- The loop of `acceptReplayLocked` over an event that another process stored.
unfoldable pub accept_replay : ℕ → TargetQueue → Event → TargetQueue
accept_replay retention q e =
    elim (find_event
      (λ prior. prior.id == e.id || (ltb_ℤ (pos 0) e.cursor && eqb_ℤ prior.cursor e.cursor))
      q.events) [ some _ ↦ q | none ↦ accept retention q e ]
