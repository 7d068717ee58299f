-- ===== src/Updates/Select.antt =====
-- service.go: `Service.Manifest`, the choice of an update among the manifests that a repository lists, and
-- `Service.Ack`.
use alice_eve.Base.{
  Bool, true, false, ◌||◌, ◌&&◌, not, Option, none, some, String, ◌==◌, if◌then◌else◌, List, [],
  ◌∷◌, ℕ, is_none, keep,
}
use alice_eve.Base.Results.{Result, ok, err, guard, ◌>>◌}
use alice_eve.Base.Int.{pos, leb_ℤ, ltb_ℤ}
use alice_eve.Base.Sort.{sort}
use alice_eve.Base.Text.{is_blank}
use alice_eve.Updates.{
  Error, no_update, bad_current_version, ack_incomplete, external, Manifest, Query, Selection, Ack,
  parses, is_valid,
}
use alice_eve.Updates.Version.{Version, compare, less, version_of}

-- The manifest is older than what it needs, and not mandatory: both lines that ask so.
abbrev pub too_old : Query → Manifest → Bool
too_old q m =
    not (q.current_version == "")
    && not (m.min_supported_version == "")
    && less (version_of q.current_version) (version_of m.min_supported_version)
    && not m.mandatory

unfoldable pub is_candidate : Query → Manifest → Bool
is_candidate q m = is_valid m && is_none m.withdrawn_at && not (too_old q m)

unfoldable pub older : Manifest → Manifest → Bool
older a b = less (version_of a.version) (version_of b.version)

-- `candidates[len(candidates)-1]`.
abbrev pub last : Manifest → List Manifest → Manifest
last m [] = m
last m (n ∷ ms) = last n ms

-- The loop for the last candidate below a version.
unfoldable pub last_below : Version → Option Manifest → List Manifest → Option Manifest
last_below v so_far [] = so_far
last_below v so_far (m ∷ ms) =
    last_below v (if ltb_ℤ (compare (version_of m.version) v) (pos 0) then some m else so_far) ms

abbrev pub selected : Manifest → Bool → Result Error Selection
selected m rollback = ok (record { manifest = m; available = true; rollback = rollback })

abbrev pub roll_back : Query → List Manifest → Result Error Selection
roll_back q ms =
    if not q.allow_rollback
    then err no_update
    else elim (last_below (version_of q.current_version) none ms) [
      | none ↦ err no_update
      | some m ↦ selected m true
    ]

-- The candidates in order, of which `newest` is the last.
unfoldable pub choose : Query → List Manifest → Manifest → Result Error Selection
choose q ms newest =
    let current = version_of q.current_version in
    if q.current_version == ""
    then selected newest false
    else if leb_ℤ (compare (version_of newest.version) current) (pos 0)
    then roll_back q ms
    else if parses newest.min_supported_version
        && less current (version_of newest.min_supported_version)
        && not newest.mandatory
    then err no_update
    else selected newest false

abbrev pub choose_from : Query → List Manifest → Result Error Selection
choose_from q [] = err no_update
choose_from q (m ∷ ms) = choose q (m ∷ ms) (last m ms)

-- `listed` is the answer of the repository to the app, the platform, the arch and the channel.
unfoldable pub manifest : Result String (List Manifest) → Query → Result Error Selection
manifest listed q =
    guard (not (is_blank q.app || is_blank q.platform || is_blank q.arch || is_blank q.channel))
      no_update
    >> guard (q.current_version == "" || parses q.current_version) bad_current_version
    >> elim listed [
      | err e ↦ err (external e)
      | ok ms ↦ choose_from q (sort older (keep (is_candidate q) ms))
    ]

-- The ack that goes to the repository.
unfoldable pub ack : ℕ → Ack → Result Error Ack
ack now a =
    if is_blank a.release_id || is_blank a.account_id || is_blank a.device_id || is_blank a.status
    then err ack_incomplete
    else ok (elim a.at [ none ↦ record a { at = some now } | some t ↦ a ])
