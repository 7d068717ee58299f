-- ===== src/Realtime.antt =====
-- relay-server/internal/realtime/hub.go: the in-process delivery hub. This file has its data, and the
-- children its operations and what they guarantee.
--
-- Cursors are int64 (`ℤ` with `inc64`), times and durations nanoseconds (ℕ). A payload is a text;
-- `len` counts its bytes. A `Subscription` object outlives its entry in the queue's map, so it stays
-- in the list of the queue, and `attached` says whether the map still has it.
pub mod Delivery
pub mod Queue
pub mod Replay
pub mod Outbox
pub mod Handover
use alice_eve.Base.{◌≡◌, Bool, Option, String, List, [], ℕ}
use alice_eve.Base.Int.{ℤ, pos}
use alice_eve.Base.Dict.{Dict}
use alice_eve.RateLimit.{Limiter}

abbrev pub Time : Type 0
Time = ℕ

-- The errors of the package. `external` is an error of the authorizer or of the repository, and
-- `panics` an index out of range.
pub data Error : Type 0 where
  unauthorized invalid too_large backpressure cursor_expired panics : Error
  rate_limited : ℕ → Error
  external : String → Error

pub record Event : Type 0 where
  pub id : String
  pub account_id : String
  pub device_id : String
  pub type : String
  pub payload : String
  pub cursor : ℤ
  pub created_at : Time

pub record ReplayPage : Type 0 where
  pub events : List Event
  pub next_cursor : ℤ
  pub has_more : Bool

-- `Config` as `newHub` gets it, before the defaults.
pub record Config : Type 0 where
  pub queue_size : ℤ
  pub max_event_bytes : ℤ
  pub events_per_window : ℤ
  pub rate_window : ℤ
  pub retention_per_device : ℤ

-- The limits in force.
pub record Limits : Type 0 where
  pub queue_size : ℕ
  pub max_event_bytes : ℕ
  pub events_per_window : ℕ
  pub rate_window : ℕ
  pub retention_per_device : ℕ

-- `ch` is what the channel buffers: sent and not yet received.
pub record Subscription : Type 0 where
  pub id : ℕ
  pub ch : List Event
  pub capacity : ℕ
  pub attached : Bool
  pub done : Bool
  pub error : Option Error
  pub cursors : Dict ℤ

pub record TargetQueue : Type 0 where
  pub next_cursor : ℤ
  pub events : List Event
  pub subs : List Subscription

pub record Hub : Type 0 where
  pub queues : Dict TargetQueue
  pub next_sub_id : ℕ
  pub limiter : Limiter

abbrev pub new_queue : TargetQueue
new_queue = record { next_cursor = pos 0; events = []; subs = [] }

abbrev pub new_hub : Hub
new_hub = record { queues = []; next_sub_id = 0; limiter = [] }
