-- ===== src/Store/Devices.antt =====
-- Devices and pairing codes: a revoked device is shut out everywhere, and a code is good once.
use alice_eve.Base.{
  ◌≡◌, refl, true, false, ◌==◌, eq_iff, none, some, String, arith, if◌then◌else◌, Option-cases, inl,
  inr, ◌≤◌,
}
use alice_eve.Base.Dict.{
  Dict, lookup, insert, find, Distinct, lookup-insert, lookup-delete, insert-Distinct, find-lookup,
}
use alice_eve.Store.{
  Time, Device, PairCode, Store, add_device, get_device, get_device_for_account, device_exists,
  device_type, device_account_id, revoke_device, revoke_device_for_account, device_id_for_token,
  holds_token, owns_token, consume_pair,
}

pub record Inv (devices : Dict Device) : Type 0 where
  pub one_entry : Distinct devices
  pub keyed : (k : String) (d : Device) → lookup k devices ≡ some d → d.id ≡ k

insert-Inv : (m : Dict Device) (k : String) (d : Device) → d.id ≡ k → Inv m → Inv (insert k d m)
insert-Inv m k d own v = record {
  one_entry = insert-Distinct k d m v.one_entry;
  keyed = λ j e h. ground (arith, lookup-insert k j d m, eq_iff k j, v.keyed j e);
}

-- Registering and revoking keep one entry per device, under its own id.
pub add_device-Inv : (s : Store) (d : Device) → Inv s.devices → Inv (add_device s d).0.devices
unfolding add_device
add_device-Inv s d v = ground (
  arith,
  insert-Inv s.devices d.id
      (record d { account_id = if d.account_id == "" then "legacy" else d.account_id }),
)

pub revoke_device-Inv :
    (s : Store) (id : String) → Inv s.devices → Inv (revoke_device s id).0.devices
unfolding revoke_device
revoke_device-Inv s id v = elim (Option-cases (lookup id s.devices)) [
  | inl e ↦ rw (e, revoke_device) v
  | inr (d, e) ↦
      rw (e, revoke_device)
        (insert-Inv s.devices id (record d { revoked = true }) (v.keyed id d e) v)
]

-- A revocation that succeeds was of a stored device. After it no lookup by its id answers `true`: not of
-- the device, not for any account, not of its type or its account, and it does not count as existing.
-- The lookups still hand over the device marked as revoked, its type and its account, beside the `false`.
pub revoke_device_shuts_out :
    (s : Store) (id account_id : String)
    → (revoke_device s id).1 ≡ true
    → let s' = (revoke_device s id).0 in
      (d : Device) × (lookup id s.devices ≡ some d)
      × (get_device s' id ≡ (record d { revoked = true }, false))
      × (get_device_for_account s' account_id id ≡ (record d { revoked = true }, false))
      × (device_exists s' id ≡ false)
      × (device_type s' id ≡ (d.type, false))
      × (device_account_id s' id ≡ (d.account_id, false))
unfolding revoke_device get_device get_device_for_account device_exists device_type
    device_account_id
revoke_device_shuts_out s id account_id h = elim (Option-cases (lookup id s.devices)) [
  | inl e ↦ absurd (ground arith)
  | inr (d, e) ↦
      let marked = lookup-insert id id (record d { revoked = true }) s.devices in
      let here = (eq_iff id id).1 refl in
      (
        d,
        e,
        ground (arith, marked, here),
        ground (arith, marked, here),
        ground (arith, marked, here),
        ground (arith, marked, here),
        ground (arith, marked, here),
      )
]

revoke_device_marks :
    (s : Store) (id : String)
    → (revoke_device s id).1 ≡ true
    → (d : Device) × (lookup id (revoke_device s id).0.devices ≡ some d) × (d.revoked ≡ true)
unfolding revoke_device
revoke_device_marks s id h = elim (Option-cases (lookup id s.devices)) [
  | inl e ↦ absurd (ground arith)
  | inr (d, e) ↦ (
    record d { revoked = true },
    ground (arith, lookup-insert id id (record d { revoked = true }) s.devices, eq_iff id id),
    refl,
  )
]

-- In a store whose devices stand once, under their own ids: after a revocation that succeeds, no
-- token is taken for one of the revoked device.
pub revoked_token_refused :
    (token_hash : String → String) (s : Store) (id token : String)
    → Inv s.devices
    → (revoke_device s id).1 ≡ true
    → owns_token token_hash (revoke_device s id).0 token id ≡ false
unfolding owns_token device_id_for_token
revoked_token_refused token_hash s id token v h =
    let s' = (revoke_device s id).0 in
    elim (Option-cases (find (holds_token token_hash token) s'.devices)) [
      | inl e ↦ ground arith
      | inr ((k, d), e) ↦
          let v' = revoke_device-Inv s id v in
          let (stored, holds) =
            find-lookup (holds_token token_hash token) k d s'.devices v'.one_entry e in
          let (marked, at_id, is_revoked) = revoke_device_marks s id h in
          ground (arith, v'.keyed k d stored, eq_iff d.id id, at_id, is_revoked, holds)
    ]

-- A pairing code is given out only if it is stored and its time has not passed, and the next call
-- with the code gets nothing, whenever it comes.
pub consume_pair_once :
    (s : Store) (code : String) (now later : Time) (p : PairCode)
    → (consume_pair s code now).1 ≡ some p
    → (lookup code s.pairs ≡ some p)
      × (now ≤ p.expires_at)
      × ((consume_pair (consume_pair s code now).0 code later).1 ≡ none)
unfolding consume_pair
consume_pair_once s code now later p h =
    ground (arith, lookup-delete code code s.pairs, eq_iff code code)

-- A device is revoked through an account only if it is stored, bound to that account and not revoked
-- yet; then it is marked as revoked, and every other device stays as it was.
pub revoke_device_for_account_lem :
    (s : Store) (account_id id other : String)
    → (revoke_device_for_account s account_id id).1 ≡ true
    → (d : Device) × (lookup id s.devices ≡ some d)
      × (d.account_id ≡ account_id)
      × (d.revoked ≡ false)
      × (lookup other (revoke_device_for_account s account_id id).0.devices
          ≡ (if id == other then some (record d { revoked = true }) else lookup other s.devices))
unfolding revoke_device_for_account
revoke_device_for_account_lem s account_id id other h = elim (Option-cases (lookup id s.devices)) [
  | inl e ↦ absurd (ground arith)
  | inr (d, e) ↦ (
    d,
    e,
    ground (arith, eq_iff d.account_id account_id),
    ground arith,
    ground (arith, lookup-insert id other (record d { revoked = true }) s.devices),
  )
]
