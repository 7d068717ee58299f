-- ===== src/Tests/Releases.antt =====
-- Updates (relay-server/internal/updates/service.go) at concrete inputs.
use alice_eve.Base.{◌≡◌, ◌≢◌, ◌↔◌, refl, true, false, none, some, List, [], ◌∷◌, All, keep}
use alice_eve.Base.Results.{ok}
use alice_eve.Base.Int.{pos, ltb_ℤ}
use alice_eve.Base.Sort.{sort, place}
use alice_eve.Base.Text.{is_blank, trim_space, text_less}
use alice_eve.Base.Split.{trim_prefix, split_2, split, atoi, byte_length, has_prefix_fold, is_hex}
use alice_eve.Updates.{no_update, Manifest, Query, Selection, validate_manifest}
use alice_eve.Updates.Version.{Version, number, parse_version, compare, less}
use alice_eve.Updates.Select.{is_candidate, older, choose, manifest}
use alice_eve.Updates.Order.{version_order}
use alice_eve.Updates.Choice.{IsSelected, version, current}
use alice_eve.Updates.Selected.{manifest-IsSelected, manifest_misses_none}

abbrev first : Version
first = record { major = 1; minor = 2; patch = 3; pre = "rc" }

abbrev second : Version
second = record { major = 1; minor = 2; patch = 3; pre = "" }

abbrev third : Version
third = record { major = 1; minor = 10; patch = 0; pre = "" }

version_order_example :
    ((compare first second ≡ pos 0) ↔ (first ≡ second))
    × (less first second ≡ ltb_ℤ (pos 0) (compare second first))
    × (less first second ≡ true → less second third ≡ true → less first third ≡ true)
version_order_example = version_order first second third

abbrev release : Manifest
release = record {
  release_id = "r1";
  app = "relay";
  version = "1.2.0";
  platform = "windows";
  arch = "amd64";
  channel = "stable";
  min_supported_version = "1.0.0";
  mandatory = false;
  artifact_url = "HTTPS://example.org/r1";
  sha256 = "0123456789abcdef0123456789abcdef0123456789abcdef0123456789ABCDEF";
  signature = record { algorithm = "ed25519"; key_id = "k"; value = "v" };
  published_at = some 5;
  withdrawn_at = none;
  metadata = [];
}

abbrev newer_release : Manifest
newer_release = record release { release_id = "r2"; version = "1.10.0" }

abbrev query : Query
query = record {
  app = "relay";
  platform = "windows";
  arch = "amd64";
  channel = "stable";
  current_version = "1.2.0";
  allow_rollback = false;
}

abbrev releases : List Manifest
releases = newer_release ∷ release ∷ []

abbrev choice : Selection
choice = record { manifest = newer_release; available = true; rollback = false }

chosen : manifest (ok releases) query ≡ ok choice
unfolding manifest is_candidate older choose keep sort place validate_manifest parse_version number
    compare is_blank trim_space trim_prefix split_2 split atoi byte_length has_prefix_fold is_hex
    text_less
chosen = refl

manifest-IsSelected_example : IsSelected query releases choice
manifest-IsSelected_example = manifest-IsSelected query releases choice chosen

manifest_misses_none_example :
    All
      (λ m.
        is_candidate query m ≡ true
        → (query.current_version ≢ "") × (less (current query) (version m) ≡ false))
      (release ∷ [])
unfolding manifest is_candidate older choose keep sort place validate_manifest parse_version number
    compare is_blank trim_space trim_prefix split_2 split atoi byte_length has_prefix_fold is_hex
    text_less
manifest_misses_none_example =
    manifest_misses_none query (release ∷ []) no_update refl refl refl refl
