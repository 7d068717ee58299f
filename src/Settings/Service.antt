-- ===== src/Settings/Service.antt =====
-- service.go: `MemoryRepository` and `Service`. A copy of a document is the document.
use alice_eve.Base.{
  Bool, ◌&&◌, ◌||◌, not, Option, none, some, String, ◌==◌, if◌then◌else◌, List, [], ◌∷◌, ℕ,
}
use alice_eve.Base.Results.{Result, ok, err}
use alice_eve.Base.Int.{ℤ, pos, ltb_ℤ, eqb_ℤ, inc64}
use alice_eve.Base.Text.{trim_space}
use alice_eve.Settings.{
  Key, Members, no_members, Document, UpdateRequest, bad_base_version, Error, invalid_document,
  conflict, valid,
}
use alice_eve.Settings.Policy.{Policy, validate_document}

-- Two keys of the map are the same.
unfoldable pub same_key : Key → Key → Bool
same_key a b = a.account_id == b.account_id && a.scope == b.scope && a.scope_id == b.scope_id

abbrev pub Docs : Type 0
Docs = List (Key × Document)

unfoldable pub find : Key → Docs → Option Document
find k [] = none
find k (entry ∷ docs) = if same_key entry.0 k then some entry.1 else find k docs

unfoldable pub put : Key → Document → Docs → Docs
put k d [] = (k, d) ∷ []
put k d (entry ∷ docs) = if same_key entry.0 k then (k, d) ∷ docs else entry ∷ put k d docs

module _ (etag : ℤ → Members → String) where
  -- What a key holds before anything is written.
  abbrev pub first : Key → Document
  first k = record {
    key = k;
    version = pos 1;
    etag = etag (pos 1) no_members;
    values = no_members;
    updated_by = "";
    updated_at = none;
  }

  abbrev pub current : Docs → Key → Document
  current docs k = elim (find k docs) [ none ↦ first k | some d ↦ d ]

  -- `MemoryRepository.Get`, which enters a document for a new key.
  unfoldable pub get : Docs → Key → Docs × Document
  get docs k = elim (find k docs) [ none ↦ (put k (first k) docs, first k) | some d ↦ (docs, d) ]

  abbrev pub swapped : Document → Members → String → ℕ → Document
  swapped d values by at =
      let next = inc64 d.version in
      record d {
        version = next;
        values = values;
        etag = etag next values;
        updated_by = by;
        updated_at = some at;
      }

  unfoldable pub compare_and_swap :
      Docs
      → Key
      → (version : ℤ) → (tag : String) → Members
      → (by : String) → (at : ℕ) → Docs × Result Error Document
  compare_and_swap docs k version tag values by at =
      let d = current docs k in
      if not (eqb_ℤ d.version version) || not (d.etag == tag)
      then (docs, err (conflict d))
      else let d' = swapped d values by at in (put k d' docs, ok d')

  abbrev pub repository_reset :
      Docs
      → Key
      → (version : ℤ) → (tag : String) → (by : String) → (at : ℕ) → Docs × Result Error Document
  repository_reset docs k version tag by at = compare_and_swap docs k version tag no_members by at

  -- `trim_quotes` is `strings.Trim` with a double quote.
  module _ (trim_quotes : String → String) where
    unfoldable pub etag_matches : (got want : String) → Bool
    etag_matches got want = let tag = trim_quotes (trim_space got) in not (tag == "") && tag == want

    -- What `Update` and `Reset` share: the current document, which the caller must have seen. Each call of
    -- the repository holds its lock; `meanwhile` is what other callers do between the two.
    abbrev pub write :
        (Docs → Docs)
        → Docs
        → Key
        → (base : ℤ) → (if_match : String) → Members
        → (by : String) → (at : ℕ) → Docs × Result Error Document
    write meanwhile docs k base if_match values by at =
        let got = get docs k in
        if not (eqb_ℤ base got.1.version) || not (etag_matches if_match got.1.etag)
        then (got.0, err (conflict got.1))
        else compare_and_swap (meanwhile got.0) k base got.1.etag values by at

    unfoldable pub service_get : Docs → Key → Docs × Result Error Document
    service_get docs k = elim (valid k) [
      | err e ↦ (docs, err e)
      | ok u ↦ let got = get docs k in (got.0, ok got.1)
    ]

    unfoldable pub reset :
        (Docs → Docs)
        → Docs
        → Key
        → (base : ℤ) → (if_match by : String) → (at : ℕ) → Docs × Result Error Document
    reset meanwhile docs k base if_match by at = elim (valid k) [
      | err e ↦ (docs, err e)
      | ok u ↦
          if ltb_ℤ base (pos 1)
          then (docs, err (invalid_document bad_base_version))
          else write meanwhile docs k base if_match no_members by at
    ]

    module _ (scheme_of : String → Option String) (encode : Members → String) (p : Policy) where
      unfoldable pub update :
          (Docs → Docs) → Docs → UpdateRequest → (now : ℕ) → Docs × Result Error Document
      update meanwhile docs r now = elim (valid r.key) [
        | err e ↦ (docs, err e)
        | ok u ↦
            if ltb_ℤ r.base_version (pos 1)
            then (docs, err (invalid_document bad_base_version))
            else elim (validate_document scheme_of encode p r.values) [
              | err e ↦ (docs, err (invalid_document e))
              | ok values ↦
                  write meanwhile docs r.key r.base_version r.if_match values r.updated_by now
            ]
      ]
