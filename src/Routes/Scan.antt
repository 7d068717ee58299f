-- ===== src/Routes/Scan.antt =====
-- The loop over the neighbors of one system keeps what the search knows.
use alice_eve.Base.{
  In, In-append_left, In-append_last, ◌≡◌, ◌≢◌, refl, sym, ap, ◌∙◌, true, false, none, some,
  if◌then◌else◌, Bool-cases, ◌⊎◌, inl, inr, leb, List, [], ◌∷◌, ◌++◌, ℕ, ◌+◌, ◌≤◌, ◌<◌, arith,
  All-append, All-map, subst,
}
use mathlib.Core.List.{append_assoc}
use alice_eve.Base.Int.{ℤ}
use alice_eve.Base.Ids.{get, get-put, same_id, same_id_iff}
use alice_eve.Routes.{Float, Graph, Checked}
use alice_eve.Routes.Search.{State, reach}
use alice_eve.Routes.Walk.{
  Jump, Walk, Maps-relabel, Within, Maps, Closed, Place, waits_near, waits_far, finished, Layers,
  Found,
}

module _ {W : Type 0} ⦃f : Float W⦄ (g : Graph W) (q : Checked W) where
  pub record Grows (s s' : State) : Type 0 where
    pub keeps : (n : ℤ) (e : ℕ) → get n s.depth ≡ some e → get n s'.depth ≡ some e

  -- What holds in the middle of the loop over the neighbors of `v`, at depth `d`.
  pub record Scanning (d : ℕ) (v : ℤ) (near far : List ℤ) (s : State) : Type 0 where
    pub maps : Maps g q s
    pub layers : Layers g q d near far s
    pub place : (u : ℤ) (e : ℕ) → get u s.depth ≡ some e → Place g q s d near far u e ⊎ (u ≡ v)
    pub unfound : s.found ≡ false
    pub target : get q.to s.depth ≡ none
    pub head : get v s.depth ≡ some d
    pub may_jump : d < q.max_jumps

  module _ (s s' : State) (grows : Grows s s') where
    pub Within-Grows : (d : ℕ) (n : ℤ) → Within g q s d n → Within g q s' d n
    Within-Grows d n w = record {
      depth = w.depth;
      is = grows.keeps n w.depth w.is;
      bound = w.bound;
    }

    pub Closed-Grows : (u : ℤ) (e : ℕ) → Closed g q s u e → Closed g q s' u e
    Closed-Grows u e c = record { reached = λ h v j. Within-Grows (e + 1) v (c.reached h v j) }

    Place-Grows :
        (d : ℕ) (near far more : List ℤ) (u : ℤ) (e : ℕ)
        → Place g q s d near far u e
        → Place g q s' d near (far ++ more) u e
    Place-Grows d near far more u e (waits_near h i) = waits_near h i
    Place-Grows d near far more u e (waits_far h i) = waits_far h (In-append_left u far more i)
    Place-Grows d near far more u e (finished h c) = finished h (Closed-Grows u e c)

  -- Every reached system is at most one deeper than the one that is looked at.
  pub reached-le :
      (d : ℕ) (v : ℤ) (near far : List ℤ) (s : State) (u : ℤ) (e : ℕ)
      → Scanning d v near far s
      → get u s.depth ≡ some e
      → e ≤ d + 1
  reached-le d v near far s u e h at = elim (h.place u e at) [
    | inl (waits_near p i) ↦ omega (arith, p)
    | inl (waits_far p i) ↦ omega (arith, p)
    | inl (finished p c) ↦ omega (arith, p)
    | inr same ↦ let eq : e ≡ d = ground (arith, at, h.head, same) in omega (arith, eq)
  ]

  -- A new system, one deeper.
  module _ (d : ℕ) (v n : ℤ) (near far : List ℤ) (s : State) (h : Scanning d v near far s)
      (edge : Jump g q v n) (fresh : get n s.depth ≡ none) where
    abbrev after : State
    after = reach g q v n s

    depth_law : (m : ℤ) → get m after.depth ≡ (if same_id n m then some (d + 1) else get m s.depth)
    depth_law m = get-put n m _ s.depth ∙ ground (arith, h.head)

    reach-Grows : Grows s after
    reach-Grows = record {
      keeps = λ m e at. ground (arith, depth_law m, same_id_iff n m, fresh, at);
    }

    reach-Maps : Maps g q after
    reach-Maps = record {
      marks = λ m. ground (arith, depth_law m, get-put n m true s.seen, h.maps.marks m);
      first = reach-Grows.keeps q.from 0 h.maps.first;
      back = λ m e at. elim (Bool-cases (same_id n m)) [
        | inl hit ↦
            let same : n ≡ m = (same_id_iff n m).0 hit in
            inr (record {
              parent = v;
              above = d;
              prev = get-put n m v s.prev ∙ ground (arith, hit);
              depth = reach-Grows.keeps v d h.head;
              deeper = ground (arith, depth_law m, hit, at);
              by = subst (Jump g q v) same edge;
            })
        | inr there ↦
            let old : get m s.depth ≡ some e = ground (arith, depth_law m, there, at) in
            elim (h.maps.back m e old) [
              | inl first ↦ inl first
              | inr b ↦ inr (record {
                parent = b.parent;
                above = b.above;
                prev = get-put n m v s.prev ∙ ground (arith, there, b.prev);
                depth = reach-Grows.keeps b.parent b.above b.depth;
                deeper = b.deeper;
                by = b.by;
              })
            ]
      ];
      shallow = λ m e at. elim (Bool-cases (same_id n m)) [
        | inl hit ↦
            let eq : e ≡ d + 1 = ground (arith, depth_law m, hit, at) in
            omega (arith, eq, h.may_jump)
        | inr there ↦ h.maps.shallow m e (ground (arith, depth_law m, there, at))
      ];
    }

    -- No walk to the new system is shorter.
    new_shortest : (k : ℕ) → Walk g q n k → d + 1 ≤ k
    new_shortest k w = elim (Bool-cases (leb k d)) [
      | inr longer ↦ ground (arith, longer)
      | inl within ↦
          let short : k ≤ d = ground (arith, within) in
          let x = h.layers.level n k w short (omega (arith, short, h.may_jump)) in
          absurd (ground (arith, fresh, x.is))
    ]

    pub reach-Found : n ≡ q.to → Found g q (record after { found = true })
    reach-Found same = record {
      maps = Maps-relabel g q after after.queue true reach-Maps;
      is_found = refl;
      depth = d + 1;
      target = depth_law q.to ∙ ground (arith, same_id_iff n q.to, same);
      shortest = λ k w. new_shortest k (subst (λ (x : ℤ). Walk g q x k) (sym same) w);
    }

    -- The new system waits at the end of the queue.
    abbrev pub pushed : State
    pushed = record after { queue = after.queue ++ n ∷ [] }

    pub pushed-Grows : Grows s pushed
    pushed-Grows = record { keeps = reach-Grows.keeps }

    pub pushed-depth : get n pushed.depth ≡ some (d + 1)
    pushed-depth = depth_law n ∙ ground (arith, same_id_iff n n)

    pub reach-Scanning : n ≢ q.to → Scanning d v near (far ++ n ∷ []) pushed
    reach-Scanning other = record {
      maps = Maps-relabel g q after pushed.queue s.found reach-Maps;
      layers = record {
        queue =
            ap (λ (ids : List ℤ). ids ++ n ∷ []) h.layers.queue ∙ append_assoc near far (n ∷ []);
        at = All-map _ _ near (λ m e. pushed-Grows.keeps m d e) h.layers.at;
        below =
            All-append _ far (n ∷ [])
              (All-map _ _ far (λ m e. pushed-Grows.keeps m (d + 1) e) h.layers.below)
              (depth_law n ∙ ground (arith, same_id_iff n n), tt);
        level = λ w k walk short within.
            Within-Grows s pushed pushed-Grows k w (h.layers.level w k walk short within);
      };
      place = λ u e at. elim (Bool-cases (same_id n u)) [
        | inl hit ↦
            let same : n ≡ u = (same_id_iff n u).0 hit in
            inl (
              waits_far (ground (arith, depth_law u, hit, at))
                (subst (λ (x : ℤ). In x (far ++ n ∷ [])) same (In-append_last n far)))
        | inr there ↦ elim (h.place u e (ground (arith, depth_law u, there, at))) [
          | inl p ↦ inl (Place-Grows s pushed pushed-Grows d near far (n ∷ []) u e p)
          | inr here ↦ inr here
        ]
      ];
      unfound = h.unfound;
      target = depth_law q.to ∙ ground (arith, same_id_iff n q.to, other, h.target);
      head = pushed-Grows.keeps v d h.head;
      may_jump = h.may_jump;
    }
