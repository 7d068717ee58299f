-- ===== src/Routes/Recall.antt =====
-- planner.go: what the cache remembers.
use alice_eve.Base.{
  ◌≡◌, refl, ap, ◌∙◌, true, false, none, some, String, Bool-cases, inl, inr, ℕ, ◌+◌, ◌<◌, ltb, leb,
  length, arith, eq_refl,
}
use alice_eve.Base.Results.{Result, ok}
use alice_eve.Base.Int.{ℤ, pos, eqb_ℤ}
use alice_eve.Base.Dict.{Dict, lookup, lookup-insert}
use alice_eve.Routes.{Error, Float, Graph, Query, Checked, Route, normalize}
use alice_eve.Routes.Search.{search}
use alice_eve.Routes.Planner.{
  Entry, Planner, Call, active_graph, evict, make_room, remember, route_on, route,
}

module _ {W : Type 0} ⦃f : Float W⦄ (key : ℤ → Checked W → String)
    (pick : Dict (Entry W) → String) where
  make_room_keeps :
      (now : ℕ) (p : Planner W)
      → ((make_room key pick now p).graph ≡ p.graph) × ((make_room key pick now p).ttl ≡ p.ttl)
  unfolding evict
  make_room_keeps now p = elim (Bool-cases (leb p.max_entries (length p.cache))) [
    | inl full ↦ rw full (refl, refl)
    | inr roomy ↦ rw roomy (refl, refl)
  ]

  active_graph_again :
      (p : Planner W) (c : Call W) (g : Graph W)
      → p.graph ≡ g
      → c.active_version ≡ ok g.version
      → eqb_ℤ g.version (pos 0) ≡ false
      → active_graph p c ≡ (p, ok g)
  unfolding active_graph
  active_graph_again p c g has comes loaded =
      let same : eqb_ℤ p.graph.version g.version ≡ true = rw has (ground arith) in
      rw (comes, same, loaded, active_graph) (ap (λ (h : Graph W). (p, ok h)) has)

  route_on_hit :
      (p : Planner W) (c : Call W) (g : Graph W) (q : Checked W) (e : Entry W)
      → lookup (key g.version q) p.cache ≡ some e
      → c.now < e.expires
      → route_on key pick p c g q ≡ (p, e.answer)
  route_on_hit p c g q e hit soon =
      let fresh : ltb c.now e.expires ≡ true = ground (arith, soon) in
      rw (hit, fresh, route_on) refl

  route_active :
      (p : Planner W) (c : Call W) (q : Query W) (q' : Checked W) (g : Graph W)
      → normalize q ≡ ok q'
      → p.graph ≡ g
      → c.active_version ≡ ok g.version
      → eqb_ℤ g.version (pos 0) ≡ false
      → route key pick p c q ≡ route_on key pick p c g q'
  unfolding route
  route_active p c q q' g good has comes loaded =
      let active = active_graph_again p c g has comes loaded in
      let answer : (active_graph p c).1 ≡ ok g =
        ap (λ (x : Planner W × Result Error (Graph W)). x.1) active in
      rw (good, answer, route)
        (ap (λ (x : Planner W × Result Error (Graph W)). route_on key pick x.0 c g q') active)

  -- While its graph is the active one, the planner that had to search answers a query that it gets again,
  -- before the time to live is over, as it did: an error of the context of the first call too, whatever the
  -- context of the second.
  pub route_again :
      (p : Planner W) (c c' : Call W) (q : Query W) (q' : Checked W)
      → normalize q ≡ ok q'
      → eqb_ℤ p.graph.version (pos 0) ≡ false
      → c.active_version ≡ ok p.graph.version
      → c'.active_version ≡ ok p.graph.version
      → lookup (key p.graph.version q') p.cache ≡ none
      → c'.now < c.now + p.ttl
      → let x = route key pick p c q in
        (x.1 ≡ search p.graph q' c.context) × ((route key pick x.0 c' q).1 ≡ x.1)
  route_again p c c' q q' good loaded comes comes' miss soon =
      let g = p.graph in
      let k = key g.version q' in
      let r = search g q' c.context in
      let p1 = remember key pick c.now k r p in
      let room = make_room key pick c.now p in
      let keeps = make_room_keeps c.now p in
      let e : Entry W = record { answer = r; expires = c.now + room.ttl } in
      let first : route key pick p c q ≡ (p1, r) =
        route_active p c q q' g good refl comes loaded ∙ rw (miss, route_on) refl in
      let hit : lookup k p1.cache ≡ some e = lookup-insert k k e room.cache ∙ rw (eq_refl k) refl in
      let second : route key pick p1 c' q ≡ (p1, r) =
        route_active p1 c' q q' g good keeps.0 comes' loaded
        ∙ route_on_hit p1 c' g q' e hit (omega (arith, soon, keeps.1)) in
      rw first (refl, ap (λ (x : Planner W × Result Error (Route W)). x.1) second)
