-- ===== src/Routes/Rounds.antt =====
-- The rounds of the breadth-first loop: what holds when it ends.
use alice_eve.Base.{
  ◌≡◌, refl, sym, ap, ◌∙◌, some, Bool-cases, ◌⊎◌, inl, inr, leb, List, [], ◌∷◌, ◌++◌, ℕ, ◌+◌, ◌≤◌,
  ◌<◌, arith, subst,
}
use mathlib.Core.List.{append-nil}
use alice_eve.Base.Int.{ℤ}
use alice_eve.Base.Ids.{get}
use alice_eve.Routes.{Float, Graph, Checked}
use alice_eve.Routes.Search.{State, neighbors_of, or_nought, round}
use alice_eve.Routes.Walk.{
  Jump, Walk, here, jump, Within, Maps-relabel, Place, waits_near, waits_far, finished, Layers,
  Searching, Found,
}
use alice_eve.Routes.Scan.{Grows, Scanning, Within-Grows, Closed-Grows}
use alice_eve.Routes.Loop.{Passed, scan_lem}

module _ {W : Type 0} ⦃f : Float W⦄ (g : Graph W) (q : Checked W) where
  Place-relabel :
      (s s' : State) (d : ℕ) (near far : List ℤ) (u : ℤ) (e : ℕ)
      → Grows g q s s'
      → Place g q s d near far u e
      → Place g q s' d near far u e
  Place-relabel s s' d near far u e grows (waits_near h i) = waits_near h i
  Place-relabel s s' d near far u e grows (waits_far h i) = waits_far h i
  Place-relabel s s' d near far u e grows (finished h c) =
      finished h (Closed-Grows g q s s' grows u e c)

  -- The first system of the queue is taken off.
  abbrev popped : State → List ℤ → State
  popped s ids = record s { queue = ids }

  popped-Layers :
      (d : ℕ) (v : ℤ) (near far : List ℤ) (s : State)
      → Layers g q d (v ∷ near) far s
      → Layers g q d near far (popped s (near ++ far))
  popped-Layers d v near far s h = record {
    queue = refl;
    at = h.at.1;
    below = h.below;
    level = λ w k walk short within.
        Within-Grows g q s (popped s (near ++ far)) (record { keeps = λ n e at. at }) k w
          (h.level w k walk short within);
  }

  -- A system at the limit of jumps is passed over.
  round_skip :
      (d : ℕ) (v : ℤ) (near far : List ℤ) (s : State)
      → q.max_jumps ≤ d
      → Searching g q d (v ∷ near) far s
      → Searching g q d near far (popped s (near ++ far))
  round_skip d v near far s limit h =
      let s' = popped s (near ++ far) in
      let grows : Grows g q s s' = record { keeps = λ n e at. at } in
      record {
        maps = Maps-relabel g q s (near ++ far) s.found h.maps;
        layers = popped-Layers d v near far s h.layers;
        place = λ u e at. elim (h.place u e at) [
          | waits_near p (inl same) ↦
              finished (omega (arith, p))
                (record { reached = λ short. absurd (omega (arith, short, p, limit)) })
          | waits_near p (inr i) ↦ waits_near p i
          | waits_far p i ↦ waits_far p i
          | finished p c ↦ finished p (Closed-Grows g q s s' grows u e c)
        ];
        unfound = h.unfound;
        target = h.target;
      }

  popped-Scanning :
      (d : ℕ) (v : ℤ) (near far : List ℤ) (s : State)
      → d < q.max_jumps
      → Searching g q d (v ∷ near) far s
      → Scanning g q d v near far (popped s (near ++ far))
  popped-Scanning d v near far s limit h =
      let s' = popped s (near ++ far) in
      let grows : Grows g q s s' = record { keeps = λ n e at. at } in
      record {
        maps = Maps-relabel g q s (near ++ far) s.found h.maps;
        layers = popped-Layers d v near far s h.layers;
        place = λ u e at. elim (h.place u e at) [
          | waits_near p (inl same) ↦ inr same
          | waits_near p (inr i) ↦ inl (waits_near p i)
          | waits_far p i ↦ inl (waits_far p i)
          | finished p c ↦ inl (finished p (Closed-Grows g q s s' grows u e c))
        ];
        unfound = h.unfound;
        target = h.target;
        head = h.layers.at.0;
        may_jump = limit;
      }

  Passed-Searching :
      (d : ℕ) (v : ℤ) (near : List ℤ) (s s' : State)
      → get v s.depth ≡ some d
      → (p : Passed g q d v near (neighbors_of g v) s s') → Searching g q d near p.far s'
  Passed-Searching d v near s s' head p = record {
    maps = p.scanning.maps;
    layers = p.scanning.layers;
    place = λ u e at. elim (p.scanning.place u e at) [
      | inl placed ↦ placed
      | inr same ↦
          let level : e ≡ d = ground (arith, at, p.scanning.head, same) in
          finished (omega (arith, level)) (record {
            reached = λ short w j.
                let j' : Jump g q v w = subst (λ (x : ℤ). Jump g q x w) same j in
                subst (λ (n : ℕ). Within g q s' (n + 1) w) (sym level)
                  (p.covered w j'.near j'.allowed);
          })
    ];
    unfound = p.scanning.unfound;
    target = p.scanning.target;
  }

  -- One round finds the destination, or the search goes on.
  pub round_lem :
      (d : ℕ) (v : ℤ) (near far : List ℤ) (s : State)
      → Searching g q d (v ∷ near) far s
      → let s' = round g q v (near ++ far) s in
        Found g q s' ⊎ ((far' : List ℤ) × Searching g q d near far' s')
  round_lem d v near far s h =
      let at : or_nought (get v s.depth) ≡ d = ap or_nought h.layers.at.0 in
      elim (Bool-cases (leb q.max_jumps d)) [
        | inl over ↦ rw (at, over) (inr (far, round_skip d v near far s (ground (arith, over)) h))
        | inr under ↦
            let limit : d < q.max_jumps = ground (arith, under) in
            rw (at, under)
              (elim (scan_lem g q d v near far (neighbors_of g v) (popped s (near ++ far))
                (λ n i. i) (popped-Scanning d v near far s limit h)) [
                  | inl found ↦ inl found
                  | inr p ↦ inr (p.far, Passed-Searching d v near _ _ h.layers.at.0 p)
                ])
      ]

  -- When the near part of the queue is used up, the far part is the near one.
  pub next_layer :
      (d : ℕ) (far : List ℤ) (s : State) → Searching g q d [] far s → Searching g q (d + 1) far [] s
  next_layer d far s h = record {
    maps = h.maps;
    layers = record {
      queue = h.layers.queue ∙ sym (append-nil far);
      at = h.layers.below;
      below = tt;
      level = λ w k walk short within. level w k walk short within;
    };
    place = λ u e at. elim (h.place u e at) [
      | waits_near p i ↦ absurd i
      | waits_far p i ↦ waits_near p i
      | finished p c ↦ finished (omega (arith, p)) c
    ];
    unfound = h.unfound;
    target = h.target;
  }
    where
      level : (w : ℤ) (k : ℕ) → Walk g q w k → k ≤ d + 1 → k ≤ q.max_jumps → Within g q s k w
      level w k here short within = h.layers.level w 0 here (omega arith) (omega arith)
      level w k (jump {u = u} {k = j} walk edge) short within =
          let x = h.layers.level u j walk (omega (arith, short)) (omega (arith, within)) in
          elim (h.place u x.depth x.is) [
            | waits_near p i ↦ absurd i
            | waits_far p i ↦ absurd (omega (arith, p, short, x.bound))
            | finished p c ↦
                let y = c.reached (omega (arith, within, x.bound)) w edge in
                record { depth = y.depth; is = y.is; bound = omega (arith, y.bound, x.bound) }
          ]
