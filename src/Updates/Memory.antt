-- ===== src/Updates/Memory.antt =====
-- service.go: `MemoryRepository`.
use alice_eve.Base.{Bool, ◌&&◌, String, ◌==◌, if◌then◌else◌, List, [], ◌∷◌, ◌++◌, keep}
use alice_eve.Base.Results.{Result, ok, err}
use alice_eve.Updates.{
  Error, invalid_manifest, release_exists, version_exists, Manifest, Ack, validate_manifest,
}

pub record MemoryRepository : Type 0 where
  pub manifests : List Manifest
  pub acks : List Ack

abbrev pub new : MemoryRepository
new = record { manifests = []; acks = [] }

abbrev pub same_release : Manifest → Manifest → Bool
same_release m x = x.release_id == m.release_id

abbrev pub same_version : Manifest → Manifest → Bool
same_version m x =
    x.app == m.app
    && x.version == m.version
    && x.platform == m.platform
    && x.arch == m.arch
    && x.channel == m.channel

-- The loop of `Add` for a manifest that is in the way.
unfoldable pub clash : Manifest → List Manifest → Result Error (Unit {0})
clash m [] = ok tt
clash m (x ∷ xs) =
    let rest = clash m xs in
    if same_release m x
    then err release_exists
    else if same_version m x
    then err version_exists
    else rest

unfoldable pub add : MemoryRepository → Manifest → MemoryRepository × Result Error (Unit {0})
add r m = elim (validate_manifest m) [
  | err e ↦ (r, err (invalid_manifest e))
  | ok u ↦ elim (clash m r.manifests) [
    | err e ↦ (r, err e)
    | ok v ↦ (record r { manifests = r.manifests ++ m ∷ [] }, ok tt)
  ]
]

unfoldable pub list : MemoryRepository → (app platform arch channel : String) → List Manifest
list r app platform arch channel =
    keep
      (λ (m : Manifest).
        m.app == app && m.platform == platform && m.arch == arch && m.channel == channel)
      r.manifests

unfoldable pub record_ack : MemoryRepository → Ack → MemoryRepository
record_ack r a = record r { acks = r.acks ++ a ∷ [] }

abbrev pub acks : MemoryRepository → List Ack
acks r = r.acks
