-- ===== src/Routes/Caching.antt =====
-- planner.go: what the cache of `Planner` changes of the answers, and what it does not.
use alice_eve.Base.{
  ◌≡◌, refl, sym, ap, ◌∙◌, subst, Bool, ◌&&◌, not, Option, none, String, Bool-cases, Option-cases,
  inl, inr, ℕ, ◌+◌, ltb, leb, length, arith, All,
}
use alice_eve.Base.Results.{Result, ok, err, Result-cases}
use alice_eve.Base.Int.{ℤ, pos, eqb_ℤ}
use alice_eve.Base.Entries.{All-lookup, All-insert, All-delete, All-retain}
use alice_eve.Base.Dict.{Dict, lookup, retain}
use alice_eve.Routes.{Error, Float, Graph, Query, Checked, Route, normalize}
use alice_eve.Routes.Search.{search}
use alice_eve.Routes.Planner.{
  Entry, Planner, Call, version_loaded, active_graph, evict, make_room, remember, route_on,
  search_anew, route,
}

module _ {W : Type 0} ⦃f : Float W⦄ (key : ℤ → Checked W → String)
    (pick : Dict (Entry W) → String) where
  -- A context that is not cancelled.
  abbrev calm : ℕ → Option String
  calm i = none

  -- An entry is the answer to a query on the graph.
  pub record Answers (g : Graph W) (entry : String × Entry W) : Type 0 where
    pub query : Checked W
    pub at : entry.0 ≡ key g.version query
    pub is : entry.1.answer ≡ search g query calm

  abbrev pub IsTrue : Planner W → Type 0
  IsTrue p = All (Answers p.graph) p.cache

  -- What `Route` answers without the cache.
  unfoldable pub direct : Planner W → Call W → Query W → Result Error (Route W)
  direct p c q = elim (normalize q) [
    | err e ↦ err e
    | ok q' ↦ elim (active_graph p c).1 [ err e ↦ err e | ok g ↦ search g q' c.context ]
  ]

  -- The planner after a call of `active_graph`, and its answer.
  abbrev IsActive : Planner W × Result Error (Graph W) → Type 0
  IsActive x = IsTrue x.0 × ((g : Graph W) → x.1 ≡ ok g → x.0.graph ≡ g)

  version_loaded-IsActive :
      (p : Planner W) (c : Call W) (version : ℤ) → IsTrue p → IsActive (version_loaded p c version)
  version_loaded-IsActive p c version h = elim (Result-cases (c.load_graph version)) [
    | inr (e, fails) ↦ rw (fails, version_loaded) (h, λ g e. absurd (ground (arith, e)))
    | inl (loaded, comes) ↦ elim (Bool-cases (eqb_ℤ loaded.version version)) [
      | inl same ↦ rw (comes, same, version_loaded) (tt, λ g e. ground (arith, e))
      | inr other ↦ rw (comes, other, version_loaded) (h, λ g e. absurd (ground (arith, e)))
    ]
  ]

  active_graph-IsActive : (p : Planner W) (c : Call W) → IsTrue p → IsActive (active_graph p c)
  unfolding active_graph
  active_graph-IsActive p c h = elim (Result-cases c.active_version) [
    | inr (e, fails) ↦ rw (fails, active_graph) (h, λ g e. absurd (ground (arith, e)))
    | inl (version, comes) ↦
        elim (Bool-cases (eqb_ℤ p.graph.version version && not (eqb_ℤ version (pos 0)))) [
          | inl cached ↦ rw (comes, cached, active_graph) (h, λ g e. ground (arith, e))
          | inr other ↦ rw (comes, other, active_graph) (version_loaded-IsActive p c version h)
        ]
  ]

  -- Room in the cache takes entries off and leaves the graph.
  make_room-IsTrue :
      (now : ℕ) (p : Planner W)
      → IsTrue p
      → IsTrue (make_room key pick now p) × ((make_room key pick now p).graph ≡ p.graph)
  unfolding evict
  make_room-IsTrue now p h = elim (Bool-cases (leb p.max_entries (length p.cache))) [
    | inr roomy ↦ rw roomy (h, refl)
    | inl full ↦
        let fresh : Entry W → Bool = λ e. not (ltb e.expires now) in
        let kept = All-retain (Answers p.graph) fresh p.cache h in
        elim (Bool-cases (ltb (length (retain fresh p.cache)) p.max_entries)) [
          | inl enough ↦ rw (full, evict, enough) (kept, refl)
          | inr still ↦
              rw (full, evict, still)
                (All-delete (Answers p.graph) (pick (retain fresh p.cache)) _ kept, refl)
        ]
  ]

  remember-IsTrue :
      (now : ℕ) (g : Graph W) (q : Checked W) (p : Planner W)
      → IsTrue p
      → p.graph ≡ g
      → IsTrue (remember key pick now (key g.version q) (search g q calm) p)
  remember-IsTrue now g q p h same =
      let p' = make_room key pick now p in
      let room = make_room-IsTrue now p h in
      let entry : Entry W = record { answer = search g q calm; expires = now + p'.ttl } in
      All-insert (Answers p'.graph) (key g.version q) entry p'.cache room.0 (
        subst (λ (g' : Graph W). Answers g' (key g.version q, entry)) (sym same ∙ sym room.1)
          (record { query = q; at = refl; is = refl }))

  -- What a call of `Route` leaves, and its answer.
  abbrev IsAnswered : Result Error (Route W) → Planner W × Result Error (Route W) → Type 0
  IsAnswered r x = IsTrue x.0 × (x.1 ≡ r)

  module _
      (key_injective : (v v' : ℤ) (q q' : Checked W)
        → key v q ≡ key v' q'
        → (v ≡ v') × (q ≡ q')) where
    search_anew-IsAnswered :
        (p : Planner W) (c : Call W) (g : Graph W) (q : Checked W)
        → c.context ≡ calm
        → IsTrue p
        → p.graph ≡ g
        → IsAnswered (search g q c.context) (search_anew key pick p c g q)
    search_anew-IsAnswered p c g q goes h same = (
      subst
          (λ (context : ℕ → Option String).
            IsTrue (remember key pick c.now (key g.version q) (search g q context) p))
          (sym goes) (remember-IsTrue c.now g q p h same),
      refl,
    )

    route_on-IsAnswered :
        (p : Planner W) (c : Call W) (g : Graph W) (q : Checked W)
        → c.context ≡ calm
        → IsTrue p
        → p.graph ≡ g
        → IsAnswered (search g q c.context) (route_on key pick p c g q)
    route_on-IsAnswered p c g q goes h same =
        let anew = search_anew-IsAnswered p c g q goes h same in
        elim (Option-cases (lookup (key g.version q) p.cache)) [
          | inl miss ↦ rw (miss, route_on) anew
          | inr (e, hit) ↦ elim (Bool-cases (ltb c.now e.expires)) [
            | inr stale ↦ rw (hit, stale, route_on) anew
            | inl fresh ↦
                let a = All-lookup (Answers p.graph) (key g.version q) e p.cache h hit in
                let q_same = (key_injective g.version p.graph.version q a.query a.at).1 in
                rw (hit, fresh, route_on)
                  (
                    h,
                    a.is
                        ∙ ap (λ (g' : Graph W). search g' a.query calm) same
                        ∙ ap (λ (q' : Checked W). search g q' calm) (sym q_same)
                        ∙ ap (search g q) (sym goes),
                  )
          ]
        ]

    -- With a key that tells queries apart, and a cache that holds true answers for the graph, `Route` under
    -- a context that is not cancelled answers what it would answer without the cache, and leaves a cache
    -- that holds true answers.
    pub route-direct :
        (p : Planner W) (c : Call W) (q : Query W)
        → c.context ≡ calm
        → IsTrue p
        → let x = route key pick p c q in IsTrue x.0 × (x.1 ≡ direct p c q)
    unfolding route direct
    route-direct p c q goes h = elim (Result-cases (normalize q)) [
      | inr (e, bad) ↦ rw (bad, route, direct) (h, refl)
      | inl (q', good) ↦
          let active = active_graph-IsActive p c h in
          elim (Result-cases (active_graph p c).1) [
            | inr (e, fails) ↦ rw (good, fails, route, direct) (active.0, refl)
            | inl (g, comes) ↦
                rw (good, comes, route, direct)
                  (route_on-IsAnswered (active_graph p c).0 c g q' goes active.0 (active.1 g comes))
          ]
    ]
