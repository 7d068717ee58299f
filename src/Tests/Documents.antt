-- ===== src/Tests/Documents.antt =====
-- Settings (relay-server/internal/settings/service.go) at concrete inputs.
use alice_eve.Base.{◌≡◌, ◌↔◌, refl, true, Option, none, some, String, [], ◌∷◌, ◌≤◌}
use alice_eve.Base.Results.{ok}
use alice_eve.Base.Int.{ℤ, pos, inc64}
use alice_eve.Base.Text.{is_blank, trim_space}
use alice_eve.Base.Split.{byte_length}
use alice_eve.Settings.{
  Key, string, object, Members, no_members, member, Document, UpdateRequest, scope_account, valid,
}
use alice_eve.Settings.Policy.{
  Policy, starts_lower, contains_lower, contains_any, forbidden_key, elem, forbidden_string,
  bad_key, validate_value, validate_document,
}
use alice_eve.Settings.Service.{
  Docs, find, put, same_key, get, compare_and_swap, etag_matches, update,
}
use alice_eve.Settings.Clean.{keys, is_clean, validate_document_iff}
use alice_eve.Settings.Swap.{IsWritten, update-IsWritten, no_lost_update}

abbrev policy : Policy
policy = record {
  allowed_keys = "theme" ∷ [];
  max_bytes = 100;
  max_depth = 2;
  max_keys = 3;
  max_array_length = 2;
}

abbrev scheme_of : String → Option String
scheme_of s = none

abbrev encode : Members → String
encode ms = "{}"

abbrev dark : Members
dark = member "theme" (string "dark") no_members

validate_document_iff_example :
    (validate_document scheme_of encode policy (some dark) ≡ ok dark) ↔ (
      (byte_length "{}" ≤ 100)
      × (is_clean scheme_of encode policy (object dark) 1 ≡ true)
      × (keys (object dark) ≤ 3))
validate_document_iff_example = validate_document_iff scheme_of encode policy dark

abbrev etag : ℤ → Members → String
etag version values = "tag"

abbrev trim_quotes : String → String
trim_quotes s = s

abbrev mine : Key
mine = record { account_id = "a"; scope = scope_account; scope_id = "" }

abbrev request : UpdateRequest
request = record {
  key = mine;
  values = some dark;
  base_version = pos 1;
  if_match = "tag";
  updated_by = "b";
}

abbrev again : UpdateRequest
again = record request { base_version = pos 2 }

abbrev written : Document
written = record {
  key = mine;
  version = pos 2;
  etag = "tag";
  values = dark;
  updated_by = "b";
  updated_at = some 10;
}

abbrev docs : Docs
docs = (mine, written) ∷ []

-- Nobody else writes.
abbrev alone : Docs → Docs
alone docs = docs

writes : update etag trim_quotes scheme_of encode policy alone [] request 10 ≡ (docs, ok written)
unfolding update valid is_blank trim_space validate_document validate_value bad_key forbidden_key
    contains_any contains_lower starts_lower elem forbidden_string byte_length get find put same_key
    compare_and_swap etag_matches inc64
writes = refl

update-IsWritten_example :
    (values : Members) × (request.values ≡ some values)
    × IsWritten etag (get etag [] mine).0 mine (pos 1) values docs written
unfolding update valid is_blank trim_space validate_document validate_value bad_key forbidden_key
    contains_any contains_lower starts_lower elem forbidden_string byte_length get find put same_key
    compare_and_swap etag_matches inc64
update-IsWritten_example =
    update-IsWritten etag trim_quotes scheme_of encode policy alone [] request 10 written refl

no_lost_update_example : again.base_version ≡ inc64 request.base_version
unfolding update valid is_blank trim_space validate_document validate_value bad_key forbidden_key
    contains_any contains_lower starts_lower elem forbidden_string byte_length get find put same_key
    compare_and_swap etag_matches inc64
no_lost_update_example =
    no_lost_update etag trim_quotes scheme_of encode policy alone alone [] docs request again 10 20
      written (record written { version = pos 3; updated_at = some 20 }) refl refl refl
