-- ===== src/Realtime/Outbox.antt =====
-- relay-server/internal/realtime/outbox.go: `OutboxDispatcher.Dispatch`, over the repository of the outbox,
-- the delivery repository and the notifier, which are an interface. Its laws are in Realtime.Handover.
use alice_eve.Base.{Option, none, some, String, if◌then◌else◌, List, [], ◌∷◌, ℕ, suc, eqb}
use alice_eve.Base.Results.{Result, ok, err}
use alice_eve.Base.Int.{ℤ, pos, leb_ℤ, pos_part}
use alice_eve.Realtime.{Event}

pub record OutboxRecord : Type 0 where
  pub id : String
  pub account_id : String
  pub target_device_id : String
  pub type : String
  pub payload : String
  pub created_at : ℕ
  pub attempt_count : ℤ
  pub claim_token : String

pub record Wakeup : Type 0 where
  pub account_id : String
  pub device_id : String

-- Why a row is not completed: `lease_lost` is `ErrOutboxLeaseLost`.
pub data Failure : Type 0 where
  lease_lost : Failure
  external : String → Failure

-- `OutboxRepository`, `DeliveryRepository.Publish` and `Notifier` over the state `S` that they share.
pub record Ports (S : Type 0) : Type 0 where
  pub claim : S → (limit : ℤ) → (now lease : ℕ) → S × Result String (List OutboxRecord)
  pub complete : S → (id token : String) → S × Result Failure (Unit {0})
  pub fail : S → (id token reason : String) → (now : ℕ) → S × Result Failure (Unit {0})
  pub publish : S → (account_id device_id : String) → Event → S × Result String Event
  pub notify : Option (S → Wakeup → S × Result String (Unit {0}))

abbrev pub default_outbox_lease : ℕ
default_outbox_lease = 300000000000

abbrev pub lease_of : ℤ → ℕ
lease_of lease = if leb_ℤ lease (pos 0) then default_outbox_lease else pos_part lease

abbrev pub event_of : OutboxRecord → Event
event_of row = record {
  id = row.id;
  account_id = row.account_id;
  device_id = row.target_device_id;
  type = row.type;
  payload = row.payload;
  cursor = pos 0;
  created_at = row.created_at;
}

module _ {S : Type 0} (ports : Ports S) where
  abbrev pub notified : S → OutboxRecord → S
  notified s row = elim ports.notify [
    | none ↦ s
    | some notify ↦
        (notify s (record { account_id = row.account_id; device_id = row.target_device_id })).0
  ]

  -- What is left of the loop: `completed` rows are behind it.
  unfoldable pub dispatch_rows : (now : ℕ) → S → List OutboxRecord → ℕ → S × ℕ × Option Failure
  dispatch_rows now s [] completed = (s, completed, none)
  dispatch_rows now s (row ∷ rows) completed =
      let published = ports.publish s row.account_id row.target_device_id (event_of row) in
      elim published.1 [
        | err e ↦
            dispatch_rows now (ports.fail published.0 row.id row.claim_token e now).0 rows completed
        | ok event ↦
            let done = ports.complete published.0 row.id row.claim_token in
            elim done.1 [
              | ok u ↦ dispatch_rows now (notified done.0 row) rows (suc completed)
              | err lease_lost ↦ dispatch_rows now done.0 rows completed
              | err (external e) ↦ (done.0, completed, some (external e))
            ]
      ]

  -- `now` is the time that is given, or the clock's for the zero time.
  unfoldable pub dispatch : S → (limit : ℤ) → (now clock : ℕ) → (lease : ℤ) → S × ℕ × Option Failure
  dispatch s limit now clock lease =
      let at = if eqb now 0 then clock else now in
      let claimed = ports.claim s limit at (lease_of lease) in
      elim claimed.1 [
        | err e ↦ (claimed.0, 0, some (external e))
        | ok rows ↦ dispatch_rows at claimed.0 rows 0
      ]
