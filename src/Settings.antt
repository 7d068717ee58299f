-- ===== src/Settings.antt =====
-- relay-server/internal/settings/service.go: settings documents, each at a version, and who may write what.
-- The children have the policy on documents, the memory repository with the service, and what holds.
--
-- A document is JSON (`map[string]any`), with its numbers as they are written. `etag` is the source's hash
-- of the encoded document under its version, a parameter.
pub mod Policy
pub mod Service
pub mod Clean
pub mod Swap
use alice_eve.Base.{
  ◌≡◌, ◌↔◌, refl, Bool, true, false, ◌&&◌, ◌||◌, not, Option, none, some, String, ◌==◌, eq_iff,
  if◌then◌else◌, ℕ,
}
use alice_eve.Base.Results.{Result, ok, err, guard, ◌>>◌}
use alice_eve.Base.Int.{ℤ}
use alice_eve.Base.Text.{is_blank}

abbrev pub scope_account : String
scope_account = "account"

abbrev pub scope_device : String
scope_device = "device"

abbrev pub scope_profile : String
scope_profile = "profile"

pub record Key : Type 0 where
  pub account_id : String
  pub scope : String
  pub scope_id : String

mutual
  pub data Json : Type 0 where
    null : Json
    boolean : Bool → Json
    number : String → Json
    string : String → Json
    array : Items → Json
    object : Members → Json

  pub data Items : Type 0 where
    no_items : Items
    item : Json → Items → Items

  pub data Members : Type 0 where
    no_members : Members
    member : String → Json → Members → Members

pub record Document : Type 0 where
  pub key : Key
  pub version : ℤ
  pub etag : String
  pub values : Members
  pub updated_by : String
  pub updated_at : Option ℕ

pub record UpdateRequest : Type 0 where
  pub key : Key
  pub values : Option Members
  pub base_version : ℤ
  pub if_match : String
  pub updated_by : String

-- Why a document is not valid, `ErrInvalidDocument`.
pub data Fault : Type 0 where
  not_an_object too_large too_many_keys too_deep key_forbidden key_unknown array_too_long : Fault
  value_forbidden bad_base_version : Fault

-- `conflict` is `ConflictError` with the current document.
pub data Error : Type 0 where
  no_account_id invalid_scope scope_id_given scope_id_missing : Error
  invalid_document : Fault → Error
  conflict : Document → Error

-- `Key.valid`.
unfoldable pub valid : Key → Result Error (Unit {0})
valid k =
    guard (not (is_blank k.account_id)) no_account_id
    >> guard (k.scope == scope_account || k.scope == scope_device || k.scope == scope_profile)
        invalid_scope
    >> guard (not (k.scope == scope_account && not (k.scope_id == ""))) scope_id_given
    >> guard (not (not (k.scope == scope_account) && is_blank k.scope_id)) scope_id_missing
