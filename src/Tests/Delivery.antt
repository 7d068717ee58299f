-- ===== src/Tests/Delivery.antt =====
-- The delivery hub (relay-server/internal/realtime) at concrete inputs.
use alice_eve.Base.{◌≡◌, refl, String, arith, [], ◌∷◌, keep, any, true}
use alice_eve.Base.Int.{ℤ, pos, dec64}
use alice_eve.Realtime.{Event, ReplayPage, TargetQueue}
use alice_eve.Realtime.Delivery.{publish_locked, find_event, replay_queue, expired, last_cursor}
use alice_eve.Realtime.Queue.{Inv, publish_locked-Inv, publish_locked_twice}
use alice_eve.Realtime.Replay.{NoGap, replay-NoGap}

abbrev event : String → ℤ → Event
event id cursor = record {
  id = id;
  account_id = "a";
  device_id = "desk";
  type = "note";
  payload = "hi";
  cursor = cursor;
  created_at = 7;
}

-- The first event is no longer retained.
abbrev queue : TargetQueue
queue = record {
  next_cursor = pos 3;
  events = event "e2" (pos 2) ∷ event "e3" (pos 3) ∷ [];
  subs = [];
}

queue-Inv : Inv 2 queue
unfolding find_event
queue-Inv = record {
  dropped = 1;
  consecutive = (refl, (refl, tt));
  top = refl;
  distinct = (refl, (refl, tt));
  bounded = omega arith;
  never_emptied = λ z. absurd (omega (arith, z));
}

publish_locked-Inv_example : Inv 2 (publish_locked 2 queue (event "e4" (pos 0))).0
publish_locked-Inv_example =
    publish_locked-Inv 2 queue (event "e4" (pos 0)) (ground arith) refl (ground arith) queue-Inv

abbrev page : ReplayPage
page = record { events = event "e2" (pos 2) ∷ []; next_cursor = pos 2; has_more = true }

replay-NoGap_example : NoGap 3 1 1 page
unfolding replay_queue expired last_cursor dec64 keep any
replay-NoGap_example = replay-NoGap 2 1 1 queue page (ground arith) queue-Inv refl

publish_locked_twice_example :
    let (q, out) = publish_locked 2 queue (event "e4" (pos 0)) in
    publish_locked 2 q (record (event "e4" (pos 9)) { payload = "bye" }) ≡ (q, out)
publish_locked_twice_example =
    publish_locked_twice 2 queue (event "e4" (pos 0))
      (record (event "e4" (pos 9)) { payload = "bye" }) (ground arith) refl
