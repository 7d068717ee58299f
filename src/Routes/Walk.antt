-- ===== src/Routes/Walk.antt =====
-- What the search is about: walks through usable systems, by their number of jumps, and the invariant
-- of the breadth-first loop.
use alice_eve.Base.{
  In, ◌≡◌, Bool, true, false, ◌⊎◌, inl, inr, none, some, is_some, List, ◌++◌, ℕ, ◌+◌, ◌≤◌, ◌<◌, All,
}
use alice_eve.Base.Int.{ℤ}
use alice_eve.Base.Ids.{get}
use alice_eve.Routes.{Float, Graph, Checked}
use alice_eve.Routes.Search.{State, usable, neighbors_of, or_false}

-- A jump: from a system to a usable neighbor.
pub record Jump {W : Type 0} ⦃f : Float W⦄ (g : Graph W) (q : Checked W) (u v : ℤ) : Type 0 where
  pub near : In v (neighbors_of g u)
  pub allowed : usable g q v ≡ true

-- The walks from the start of the query, by where they end and how many jumps they take.
pub data Walk {W : Type 0} ⦃f : Float W⦄ (g : Graph W) (q : Checked W) : ℤ → ℕ → Type 0 where
  here : Walk g q q.from 0
  jump : {u v : ℤ} {k : ℕ} → Walk g q u k → Jump g q u v → Walk g q v (k + 1)

module _ {W : Type 0} ⦃f : Float W⦄ (g : Graph W) (q : Checked W) where
  abbrev pub DepthIs : State → ℕ → ℤ → Type 0
  DepthIs s d n = get n s.depth ≡ some d

  -- Reached, no deeper than `d`.
  pub record Within (s : State) (d : ℕ) (n : ℤ) : Type 0 where
    pub depth : ℕ
    pub is : get n s.depth ≡ some depth
    pub bound : depth ≤ d

  -- Where a reached system was reached from.
  pub record From (s : State) (n : ℤ) (d : ℕ) : Type 0 where
    pub parent : ℤ
    pub above : ℕ
    pub prev : get n s.prev ≡ some parent
    pub depth : get parent s.depth ≡ some above
    pub deeper : d ≡ above + 1
    pub by : Jump g q parent n

  -- What holds of the maps throughout.
  pub record Maps (s : State) : Type 0 where
    pub marks : (n : ℤ) → or_false (get n s.seen) ≡ is_some (get n s.depth)
    pub first : get q.from s.depth ≡ some 0
    pub back : (n : ℤ) (d : ℕ) → get n s.depth ≡ some d → ((n ≡ q.from) × (d ≡ 0)) ⊎ From s n d
    pub shallow : (n : ℤ) (d : ℕ) → get n s.depth ≡ some d → d ≤ q.max_jumps

  -- The neighbors of a system that may still jump are reached.
  pub record Closed (s : State) (u : ℤ) (e : ℕ) : Type 0 where
    pub reached : e < q.max_jumps → (v : ℤ) → Jump g q u v → Within s (e + 1) v

  -- A reached system waits in the near or in the far part of the queue, or is done with.
  pub data Place (s : State) (d : ℕ) (near far : List ℤ) (u : ℤ) (e : ℕ) : Type 0 where
    waits_near : e ≡ d → In u near → Place s d near far u e
    waits_far : e ≡ d + 1 → In u far → Place s d near far u e
    finished : e ≤ d → Closed s u e → Place s d near far u e

  -- The queue is in two parts: systems at depth `d`, then systems one deeper.
  pub record Layers (d : ℕ) (near far : List ℤ) (s : State) : Type 0 where
    pub queue : s.queue ≡ near ++ far
    pub at : All (DepthIs s d) near
    pub below : All (DepthIs s (d + 1)) far
    pub level : (w : ℤ) (k : ℕ) → Walk g q w k → k ≤ d → k ≤ q.max_jumps → Within s k w

  -- What holds at the head of the loop until the destination is found.
  pub record Searching (d : ℕ) (near far : List ℤ) (s : State) : Type 0 where
    pub maps : Maps s
    pub layers : Layers d near far s
    pub place : (u : ℤ) (e : ℕ) → get u s.depth ≡ some e → Place s d near far u e
    pub unfound : s.found ≡ false
    pub target : get q.to s.depth ≡ none

  -- What holds once it is found: no walk to it is shorter.
  pub record Found (s : State) : Type 0 where
    pub maps : Maps s
    pub is_found : s.found ≡ true
    pub depth : ℕ
    pub target : get q.to s.depth ≡ some depth
    pub shortest : (k : ℕ) → Walk g q q.to k → depth ≤ k

  -- The maps do not depend on the queue and on whether the search is over.
  pub Maps-relabel :
      (s : State) (ids : List ℤ) (b : Bool) → Maps s → Maps (record s { queue = ids; found = b })
  Maps-relabel s ids b m = record {
    marks = m.marks;
    first = m.first;
    back = λ n d at. elim (m.back n d at) [
      | inl e ↦ inl e
      | inr c ↦ inr (record {
        parent = c.parent;
        above = c.above;
        prev = c.prev;
        depth = c.depth;
        deeper = c.deeper;
        by = c.by;
      })
    ];
    shallow = m.shallow;
  }
