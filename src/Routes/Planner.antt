-- ===== src/Routes/Planner.antt =====
-- planner.go: `Planner`, its graph and the cache of answers. The key of the cache is `fmt.Sprintf`'s text
-- of its parts, a parameter; times and durations are nanoseconds. A map is ranged over in any order, so
-- the entry that a full cache gives up is another parameter. `cloneResult` copies a slice, which a
-- value does not see.
use alice_eve.Base.{
  ◌||◌, ◌&&◌, not, Option, none, some, String, if◌then◌else◌, List, [], ◌∷◌, ℕ, ◌+◌, ltb, leb, eqb,
  length,
}
use alice_eve.Base.Results.{Result, ok, err}
use alice_eve.Base.Int.{ℤ, pos, leb_ℤ, eqb_ℤ, pos_part}
use alice_eve.Base.Dict.{Dict, lookup, insert, delete, retain}
use alice_eve.Routes.{
  Error, no_route, invalid_batch, version_mismatch, external, Float, Graph, Query, Checked, Route,
  normalize,
}
use alice_eve.Routes.Search.{search}

pub record Entry (W : Type 0) : Type 0 where
  pub answer : Result Error (Route W)
  pub expires : ℕ

pub record Planner (W : Type 0) : Type 0 where
  pub ttl : ℕ
  pub max_entries : ℕ
  pub graph : Graph W
  pub cache : Dict (Entry W)

-- What one call meets: the time, the answers of the loader, and its context round by round.
pub record Call (W : Type 0) : Type 0 where
  pub now : ℕ
  pub active_version : Result String ℤ
  pub load_graph : ℤ → Result String (Graph W)
  pub context : ℕ → Option String

abbrev pub new : {W : Type 0} → ℤ → Planner W
new ttl = record {
  ttl = if leb_ℤ ttl (pos 0) then 600000000000 else pos_part ttl;
  max_entries = 4096;
  graph = record { version = pos 0; systems = []; neighbors = [] };
  cache = [];
}

module _ {W : Type 0} ⦃f : Float W⦄ where
  abbrev pub version_loaded : Planner W → Call W → ℤ → Planner W × Result Error (Graph W)
  version_loaded p c version = elim (c.load_graph version) [
    | err e ↦ (p, err (external e))
    | ok loaded ↦
        if not (eqb_ℤ loaded.version version)
        then (p, err version_mismatch)
        else (record p { graph = loaded; cache = [] }, ok loaded)
  ]

  unfoldable pub active_graph : Planner W → Call W → Planner W × Result Error (Graph W)
  active_graph p c = elim c.active_version [
    | err e ↦ (p, err (external e))
    | ok version ↦
        if eqb_ℤ p.graph.version version && not (eqb_ℤ version (pos 0))
        then (p, ok p.graph)
        else version_loaded p c version
  ]

  module _ (key : ℤ → Checked W → String) (pick : Dict (Entry W) → String) where
    unfoldable pub evict : ℕ → Planner W → Planner W
    evict now p =
        let kept = retain (λ (e : Entry W). not (ltb e.expires now)) p.cache in
        record p {
          cache = if ltb (length kept) p.max_entries then kept else delete (pick kept) kept;
        }

    abbrev pub make_room : ℕ → Planner W → Planner W
    make_room now p = if leb p.max_entries (length p.cache) then evict now p else p

    abbrev pub remember : ℕ → String → Result Error (Route W) → Planner W → Planner W
    remember now k r p =
        let p' = make_room now p in
        record p' { cache = insert k (record { answer = r; expires = now + p'.ttl }) p'.cache }

    -- What follows a miss of the cache.
    abbrev pub search_anew :
        Planner W → Call W → Graph W → Checked W → Planner W × Result Error (Route W)
    search_anew p c g q = let r = search g q c.context in (remember c.now (key g.version q) r p, r)

    abbrev pub route_on :
        Planner W → Call W → Graph W → Checked W → Planner W × Result Error (Route W)
    route_on p c g q = elim (lookup (key g.version q) p.cache) [
      | none ↦ search_anew p c g q
      | some e ↦ if ltb c.now e.expires then (p, e.answer) else search_anew p c g q
    ]

    unfoldable pub route : Planner W → Call W → Query W → Planner W × Result Error (Route W)
    route p c q = elim (normalize q) [
      | err e ↦ (p, err e)
      | ok q' ↦
          let active = active_graph p c in
          elim active.1 [ err e ↦ (active.0, err e) | ok g ↦ route_on active.0 c g q' ]
    ]

    abbrev pub unavailable : Query W → Route W
    unavailable q = record {
      status = "unavailable";
      from = q.from;
      to = q.to;
      version = pos 0;
      jumps = 0;
      min_security = f.nought;
      systems = [];
    }

    abbrev pub and_first : Route W → Result Error (List (Route W)) → Result Error (List (Route W))
    and_first r rest = elim rest [ err e ↦ err e | ok rs ↦ ok (r ∷ rs) ]

    -- The loop of `Routes`, with what each call meets beside its query.
    unfoldable pub batch :
        Planner W → List (Query W × Call W) → Planner W × Result Error (List (Route W))
    batch p [] = (p, ok [])
    batch p ((q, c) ∷ more) =
        let first = route p c q in
        let rest = batch first.0 more in
        elim first.1 [
          | ok r ↦ (rest.0, and_first r rest.1)
          | err no_route ↦ (rest.0, and_first (unavailable q) rest.1)
          | err e ↦ (first.0, err e)
        ]

    unfoldable pub routes :
        Planner W → List (Query W × Call W) → Planner W × Result Error (List (Route W))
    routes p qs =
        if eqb (length qs) 0 || ltb 500 (length qs) then (p, err invalid_batch) else batch p qs
