-- ===== src/Accounts.antt =====
-- relay-server/internal/accounts: accounts, external identities and server sessions. This file has
-- the data model and the errors (model.go, repository.go); the children have the in-memory
-- repository (memory.go), what it guarantees, and the service on top of it (service.go).
--
-- A `time.Time` is the count of nanoseconds since Go's zero time, so `t.IsZero()` is `t == 0`; a
-- `*time.Time` and a missing map entry are options. The clock is an argument of each call.
pub mod Memory
pub mod Rotation
pub mod Invariant
pub mod Calls
pub mod Permanence
pub mod Exchange
pub mod Replay
pub mod Service
use alice_eve.Base.{
  ℕ, ◌≡◌, Bool, ◌||◌, ◌&&◌, ◌==◌, Option, String, ltb, eqb, is_none, if◌then◌else◌, List, [],
}
use alice_eve.Base.Dict.{Dict}

abbrev pub Time : Type 0
Time = ℕ

abbrev pub is_zero : Time → Bool
is_zero t = eqb t 0

-- `now.Before(t)`.
abbrev pub before : Time → Time → Bool
before now t = ltb now t

pub data Error : Type 0 where
  not_found identity_conflict already_exists account_revoked session_revoked : Error
  refresh_expired refresh_replay invalid_input random_unavailable : Error

abbrev pub status_active : String
status_active = "active"

abbrev pub status_revoked : String
status_revoked = "revoked"

pub record Account : Type 0 where
  pub id : String
  pub status : String
  pub display_name : String
  pub created_at : Time
  pub updated_at : Time
  pub revoked_at : Option Time

pub record Identity : Type 0 where
  pub id : String
  pub account_id : String
  pub provider : String
  pub subject : String
  pub created_at : Time

pub record Session : Type 0 where
  pub id : String
  pub account_id : String
  pub device_id : String
  pub access_token_hash : String
  pub access_expires_at : Time
  pub refresh_token_hash : String
  pub token_family_id : String
  pub expires_at : Time
  pub revoked_at : Option Time
  pub family_revoked_at : Option Time
  pub replaced_by_hash : String
  pub rotated_at : Option Time
  pub created_at : Time
  pub last_seen_at : Option Time

unfoldable pub account_active : Account → Bool
account_active a = a.status == "" || a.status == status_active

unfoldable pub session_active : Session → Time → Bool
session_active s now = is_none s.revoked_at && before now s.expires_at

-- The maps of `MemoryRepository`.
pub record Repo : Type 0 where
  pub accounts : Dict Account
  pub identities : Dict Identity
  pub sessions : Dict Session

abbrev pub new_repo : Repo
new_repo = record { accounts = []; identities = []; sessions = [] }
