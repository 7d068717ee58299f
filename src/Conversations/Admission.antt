-- ===== src/Conversations/Admission.antt =====
-- Whom the in-memory authorizer lets act.
use alice_eve.Base.{◌≡◌, refl, true, false, ◌==◌, eq_refl, some, String, arith, if◌then◌else◌}
use alice_eve.Base.Results.{ok, err}
use alice_eve.Base.Dict.{lookup, insert, lookup-insert}
use alice_eve.Conversations.{Actor, unauthorized, forbidden}
use alice_eve.Conversations.Authorizer.{
  AuthorizedDevice, Devices, register_device, revoke_device, authorize_device,
}

-- After a registration that succeeds, the device may act for the account and as the kind that it was
-- registered with, and is forbidden to act otherwise; after a revocation of it that follows, it may
-- not act at all. Every other device may act as before, after either call.
pub registered_until_revoked :
    (devices registered : Devices) (account_id device_id kind : String) (actor other : Actor)
    → register_device devices account_id device_id kind ≡ (registered, ok tt)
    → actor.device_id ≡ device_id
    → (device_id == other.device_id) ≡ false
    → let revoked = (revoke_device registered device_id).0 in
      (authorize_device registered actor ≡ (
        if account_id == actor.account_id
        then if kind == actor.kind then ok tt else err forbidden
        else err forbidden))
      × (authorize_device revoked actor ≡ err unauthorized)
      × (authorize_device registered other ≡ authorize_device devices other)
      × (authorize_device revoked other ≡ authorize_device devices other)
unfolding register_device revoke_device authorize_device
registered_until_revoked devices registered account_id device_id kind actor other h own apart =
    let device : AuthorizedDevice = record {
      account_id = account_id;
      kind = kind;
      revoked = false;
    } in
    let gone : AuthorizedDevice = record device { revoked = true } in
    let stored : registered ≡ insert device_id device devices = ground (arith, h) in
    let here : lookup device_id registered ≡ some device =
      rw (stored, lookup-insert device_id device_id device devices, eq_refl device_id) refl in
    let marked : lookup device_id (insert device_id gone registered) ≡ some gone =
      rw (lookup-insert device_id device_id gone registered, eq_refl device_id) refl in
    let beside : lookup other.device_id registered ≡ lookup other.device_id devices =
      rw (stored, lookup-insert device_id other.device_id device devices, apart) refl in
    let beside_gone : lookup other.device_id (insert device_id gone registered)
        ≡ lookup other.device_id registered =
      rw (lookup-insert device_id other.device_id gone registered, apart) refl in
    (
      ground (arith, own, here),
      ground (arith, own, here, marked),
      ground (arith, beside),
      ground (arith, here, beside, beside_gone),
    )
