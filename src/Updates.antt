-- ===== src/Updates.antt =====
-- relay-server/internal/updates/service.go: manifests of releases and what makes one valid. The children
-- have versions, the choice of an update, and the memory repository.
--
-- Times are nanoseconds; `none` is the zero time. `len` counts bytes.
pub mod Version
pub mod Select
pub mod Order
pub mod Choice
pub mod Selected
pub mod Memory
pub mod Kept
use alice_eve.Base.{
  Bool, true, false, ◌||◌, not, Option, none, some, String, ◌==◌, if◌then◌else◌, ℕ, eqb, is_none,
}
use alice_eve.Base.Results.{Result, ok, err, guard, ◌>>◌}
use alice_eve.Base.Dict.{Dict}
use alice_eve.Base.Text.{is_blank}
use alice_eve.Base.Split.{byte_length, has_prefix_fold, is_hex}
use alice_eve.Updates.Version.{parse_version}

-- Why a manifest is not valid.
pub data Reason : Type 0 where
  field_missing bad_version bad_min_supported not_https sha256_length sha256_hex : Reason
  signature_incomplete not_published : Reason

-- `no_update` and `bad_current_version` are `ErrNoUpdate`, `invalid_manifest` is `ErrInvalidManifest`;
-- `external` is an error of another repository.
pub data Error : Type 0 where
  no_update bad_current_version release_exists version_exists ack_incomplete : Error
  invalid_manifest : Reason → Error
  external : String → Error

-- `errors.Is(err, ErrNoUpdate)`.
abbrev pub is_no_update : Error → Bool
is_no_update no_update = true
is_no_update bad_current_version = true
is_no_update release_exists = false
is_no_update version_exists = false
is_no_update ack_incomplete = false
is_no_update (invalid_manifest r) = false
is_no_update (external e) = false

pub record SignatureMetadata : Type 0 where
  pub algorithm : String
  pub key_id : String
  pub value : String

pub record Manifest : Type 0 where
  pub release_id : String
  pub app : String
  pub version : String
  pub platform : String
  pub arch : String
  pub channel : String
  pub min_supported_version : String
  pub mandatory : Bool
  pub artifact_url : String
  pub sha256 : String
  pub signature : SignatureMetadata
  pub published_at : Option ℕ
  pub withdrawn_at : Option ℕ
  pub metadata : Dict String

pub record Query : Type 0 where
  pub app : String
  pub platform : String
  pub arch : String
  pub channel : String
  pub current_version : String
  pub allow_rollback : Bool

pub record Selection : Type 0 where
  pub manifest : Manifest
  pub available : Bool
  pub rollback : Bool

pub record Ack : Type 0 where
  pub release_id : String
  pub account_id : String
  pub device_id : String
  pub status : String
  pub error_code : String
  pub at : Option ℕ

abbrev pub parses : String → Bool
parses raw = not (is_none (parse_version raw))

unfoldable pub validate_manifest : Manifest → Result Reason (Unit {0})
validate_manifest m =
    guard
      (not (
        is_blank m.release_id
        || is_blank m.app
        || is_blank m.version
        || is_blank m.platform
        || is_blank m.arch
        || is_blank m.channel))
      field_missing
    >> guard (parses m.version) bad_version
    >> guard (m.min_supported_version == "" || parses m.min_supported_version) bad_min_supported
    >> guard (has_prefix_fold "https://" m.artifact_url) not_https
    >> guard (eqb (byte_length m.sha256) 64) sha256_length
    >> guard (is_hex m.sha256) sha256_hex
    >> guard
        (not (
          is_blank m.signature.algorithm
          || is_blank m.signature.key_id
          || is_blank m.signature.value))
        signature_incomplete
    >> guard (not (is_none m.published_at)) not_published

abbrev pub is_valid : Manifest → Bool
is_valid m = elim (validate_manifest m) [ ok u ↦ true | err e ↦ false ]
