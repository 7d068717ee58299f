-- ===== src/Routes/Search.antt =====
-- planner.go: `search`, breadth first from the start until the destination is found.
use alice_eve.Base.{
  Bool, true, false, ◌||◌, not, Option, none, some, String, is_some, if◌then◌else◌, List, [], ◌∷◌,
  ◌++◌, ℕ, zero, suc, ◌+◌, ◌-◌, leb, length,
}
use mathlib.Core.List.{reverse}
use alice_eve.Base.Results.{Result, ok, err}
use alice_eve.Base.Int.{ℤ, pos}
use alice_eve.Base.Ids.{IdMap, same_id, get, put}
use alice_eve.Routes.{Error, no_route, stuck, cancelled, Float, System, Graph, Checked, Route}

-- The variables of the loop.
pub record State : Type 0 where
  pub prev : IdMap ℤ
  pub depth : IdMap ℕ
  pub seen : IdMap Bool
  pub queue : List ℤ
  pub found : Bool

-- How the loop ends.
pub data Outcome : Type 0 where
  done : State → Outcome
  stopped : String → Outcome
  out_of_fuel : Outcome

-- Go's zero for a missing key.
abbrev pub or_false : Option Bool → Bool
or_false none = false
or_false (some b) = b

abbrev pub or_nought : Option ℕ → ℕ
or_nought none = 0
or_nought (some n) = n

abbrev pub or_id : Option ℤ → ℤ
or_id none = pos 0
or_id (some id) = id

abbrev pub or_empty : Option (List ℤ) → List ℤ
or_empty none = []
or_empty (some ids) = ids

module _ {W : Type 0} ⦃f : Float W⦄ where
  -- The system is known and safe enough.
  unfoldable pub usable : Graph W → Checked W → ℤ → Bool
  usable g q n = elim (get n g.systems) [
    | none ↦ false
    | some s ↦ not (f.less s.security q.min_security)
  ]

  abbrev pub neighbors_of : Graph W → ℤ → List ℤ
  neighbors_of g v = or_empty (get v g.neighbors)

  module _ (g : Graph W) (q : Checked W) where
    -- What the loop over the neighbors writes for a new system.
    abbrev pub reach : ℤ → ℤ → State → State
    reach v n s = record s {
      seen = put n true s.seen;
      prev = put n v s.prev;
      depth = put n (or_nought (get v s.depth) + 1) s.depth;
    }

    -- The loop over the neighbors of `v`.
    unfoldable pub scan : ℤ → List ℤ → State → State
    scan v [] s = s
    scan v (n ∷ ns) s =
        let s' = reach v n s in
        let skip = scan v ns s in
        let push = scan v ns (record s' { queue = s'.queue ++ n ∷ [] }) in
        if not (usable g q n) || or_false (get n s.seen)
        then skip
        else if same_id n q.to
        then record s' { found = true }
        else push

    -- One round, with `v` taken off the queue.
    abbrev pub round : ℤ → List ℤ → State → State
    round v rest s =
        let s' = record s { queue = rest } in
        if leb q.max_jumps (or_nought (get v s'.depth)) then s' else scan v (neighbors_of g v) s'

    -- `context k` is what `ctx.Err()` gives in round `k`.
    unfoldable pub loop : (ℕ → Option String) → ℕ → ℕ → State → Outcome
    loop context zero k s = out_of_fuel
    loop context (suc fuel) k s = elim s.queue [
      | [] ↦ done s
      | v ∷ rest ↦
          let next = loop context fuel (k + 1) (round v rest s) in
          if s.found then done s else elim (context k) [ some e ↦ stopped e | none ↦ next ]
    ]

    abbrev pub start : State
    start = record {
      prev = [];
      depth = put q.from 0 [];
      seen = put q.from true [];
      queue = q.from ∷ [];
      found = false;
    }

    -- From the destination back: the ids from `id` to the start.
    unfoldable pub trace : ℕ → IdMap ℤ → ℤ → Option (List ℤ)
    trace zero prev id = if same_id id q.from then some (id ∷ []) else none
    trace (suc fuel) prev id =
        let rest = trace fuel prev (or_id (get id prev)) in
        if same_id id q.from
        then some (id ∷ [])
        else elim rest [ none ↦ none | some ids ↦ some (id ∷ ids) ]

    -- Go's zero `System`.
    abbrev pub no_system : System W
    no_system = record { id = pos 0; name = ""; security = f.nought }

    abbrev pub system_of : ℤ → System W
    system_of n = elim (get n g.systems) [ none ↦ no_system | some s ↦ s ]

    unfoldable pub lowest : W → List (System W) → W
    lowest least [] = least
    lowest least (s ∷ systems) =
        lowest (if f.less s.security least then s.security else least) systems

    unfoldable pub systems_of : List ℤ → List (System W)
    systems_of [] = []
    systems_of (n ∷ ns) = system_of n ∷ systems_of ns

    -- The result, from the ids in the order that they were traced.
    unfoldable pub route_of : List ℤ → Route W
    route_of ids =
        let systems = systems_of (reverse ids) in
        record {
          status = "ready";
          from = q.from;
          to = q.to;
          version = g.version;
          jumps = length systems - 1;
          min_security = lowest f.two systems;
          systems = systems;
        }

    unfoldable pub collect : State → Result Error (Route W)
    collect s = if not s.found then err no_route else elim (trace q.max_jumps s.prev q.to) [
      | none ↦ err stuck
      | some ids ↦ ok (route_of ids)
    ]

    unfoldable pub finish : Outcome → Result Error (Route W)
    finish (done s) = collect s
    finish (stopped e) = err (cancelled e)
    finish out_of_fuel = err stuck

    unfoldable pub stay : System W → Route W
    stay a = record {
      status = "ready";
      from = q.from;
      to = q.to;
      version = g.version;
      jumps = 0;
      min_security = a.security;
      systems = a ∷ [];
    }

    -- Each round takes a system off the queue that is not put there again.
    unfoldable pub search : (ℕ → Option String) → Result Error (Route W)
    search context = elim (get q.from g.systems) [
      | none ↦ err no_route
      | some a ↦
          if not (is_some (get q.to g.systems)) || f.less a.security q.min_security
          then err no_route
          else if same_id q.from q.to
          then ok (stay a)
          else finish (loop context (length g.systems + 2) 0 start)
    ]
