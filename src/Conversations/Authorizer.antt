-- ===== src/Conversations/Authorizer.antt =====
-- memory.go: `MemoryAuthorizer`, the devices that may act for an account.
use alice_eve.Base.{Bool, true, false, ◌==◌, ◌||◌, ◌&&◌, not, none, some, String, if◌then◌else◌}
use alice_eve.Base.Results.{Result, ok, err}
use alice_eve.Base.Text.{is_blank}
use alice_eve.Base.Dict.{Dict, lookup, insert}
use alice_eve.Conversations.{
  Actor, Error, unauthorized, forbidden, invalid, device_desktop, device_mobile,
}

pub record AuthorizedDevice : Type 0 where
  pub account_id : String
  pub kind : String
  pub revoked : Bool

-- `devices`, by id.
abbrev pub Devices : Type 0
Devices = Dict AuthorizedDevice

unfoldable pub register_device :
    Devices → String → String → String → Devices × Result Error (Unit {0})
register_device devices account_id device_id kind =
    if is_blank account_id
      || is_blank device_id
      || (not (kind == device_desktop) && not (kind == device_mobile))
    then (devices, err invalid)
    else (
      insert device_id (record { account_id = account_id; kind = kind; revoked = false }) devices,
      ok tt,
    )

unfoldable pub revoke_device : Devices → String → Devices × Bool
revoke_device devices device_id = elim (lookup device_id devices) [
  | none ↦ (devices, false)
  | some d ↦ (insert device_id (record d { revoked = true }) devices, true)
]

unfoldable pub authorize_device : Devices → Actor → Result Error (Unit {0})
authorize_device devices actor = elim (lookup actor.device_id devices) [
  | none ↦ err unauthorized
  | some d ↦
      if d.revoked
      then err unauthorized
      else if not (d.account_id == actor.account_id) || not (d.kind == actor.kind)
      then err forbidden
      else ok tt
]
