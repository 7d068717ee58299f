-- ===== src/Routes/Shortest.antt =====
-- What the breadth-first loop has found when it ends.
use alice_eve.Base.{
  ◌≡◌, refl, true, false, Option, none, some, String, Option-cases, List-cases, ◌⊎◌, inl, inr, List,
  [], ◌∷◌, ◌++◌, ℕ, zero, suc, ◌+◌, ◌<◌, arith,
}
use alice_eve.Base.Int.{ℤ}
use alice_eve.Routes.{Float, Graph, Checked}
use alice_eve.Routes.Search.{State, Outcome, done, stopped, round, loop}
use alice_eve.Routes.Walk.{Searching, Found}
use alice_eve.Routes.Rounds.{round_lem, next_layer}
use alice_eve.Routes.Fuel.{work, work-round}

module _ {W : Type 0} ⦃f : Float W⦄ (g : Graph W) (q : Checked W) where
  -- How the loop ends: it found the destination, the queue is empty, or the context was cancelled.
  pub data Ended (context : ℕ → Option String) : Outcome → Type 0 where
    found : {s : State} → Found g q s → Ended context (done s)
    exhausted : {s : State} {d : ℕ} → Searching g q d [] [] s → Ended context (done s)
    halted : {e : String} (k : ℕ) → context k ≡ some e → Ended context (stopped e)

  -- The first system of the queue is in the near part, or the search is over.
  settle :
      (d : ℕ) (near far : List ℤ) (s : State)
      → Searching g q d near far s
      → Searching g q d [] [] s
        ⊎ ((e : ℕ) × (v : ℤ) × (near' : List ℤ) × (far' : List ℤ) × Searching g q e
              (v ∷ near')
              far'
              s)
  settle d [] [] s h = inl h
  settle d [] (v ∷ far) s h = inr (d + 1, v, far, [], next_layer g q d (v ∷ far) s h)
  settle d (v ∷ near) far s h = inr (d, v, near, far, h)

  module _ (context : ℕ → Option String) where
    loop_empty : (fuel k : ℕ) (s : State) → s.queue ≡ [] → loop g q context (suc fuel) k s ≡ done s
    unfolding loop
    loop_empty fuel k s empty = rw empty refl

    loop-round :
        (fuel k : ℕ) (v : ℤ) (rest : List ℤ) (s : State)
        → s.queue ≡ v ∷ rest
        → s.found ≡ false
        → context k ≡ none
        → loop g q context (suc fuel) k s ≡ loop g q context fuel (k + 1) (round g q v rest s)
    unfolding loop
    loop-round fuel k v rest s queue unfound goes = ground (arith, queue, unfound, goes)

    loop_halted :
        (fuel k : ℕ) (v : ℤ) (rest : List ℤ) (s : State) (e : String)
        → s.queue ≡ v ∷ rest
        → s.found ≡ false
        → context k ≡ some e
        → loop g q context (suc fuel) k s ≡ stopped e
    unfolding loop
    loop_halted fuel k v rest s e queue unfound halts = rw (queue, unfound, halts) refl

    loop_found :
        (fuel k : ℕ) (s : State) → s.found ≡ true → loop g q context (suc fuel) k s ≡ done s
    unfolding loop
    loop_found fuel k s h = elim (List-cases s.queue) [
      | inl empty ↦ rw empty refl
      | inr (v, rest, queue) ↦ ground (arith, queue, h)
    ]

    ended_found :
        (fuel k : ℕ) (s : State)
        → Found g q s
        → 0 < fuel
        → Ended context (loop g q context fuel k s)
    ended_found zero k s hit enough = absurd (omega (arith, enough))
    ended_found (suc fuel) k s hit enough = rw (loop_found fuel k s hit.is_found) (found hit)

    pub loop_ended :
        (fuel k d : ℕ) (near far : List ℤ) (s : State)
        → Searching g q d near far s
        → work g q s < fuel
        → Ended context (loop g q context fuel k s)
    loop_ended zero k d near far s h enough = absurd (omega (arith, enough))
    loop_ended (suc fuel) k d near far s h enough = elim (settle d near far s h) [
      | inl over ↦ rw (loop_empty fuel k s over.layers.queue) (exhausted over)
      | inr (e, v, near', far', h') ↦
          let s' = round g q v (near' ++ far') s in
          let less = work-round g q v (near' ++ far') s h'.layers.queue in
          elim (Option-cases (context k)) [
            | inr (c, halts) ↦
                rw (loop_halted fuel k v (near' ++ far') s c h'.layers.queue h.unfound halts)
                  (halted k halts)
            | inl goes ↦
                rw (loop-round fuel k v (near' ++ far') s h'.layers.queue h.unfound goes)
                  (elim (round_lem g q e v near' far' s h') [
                    | inl hit ↦ ended_found fuel (k + 1) s' hit (omega (arith, less, enough))
                    | inr (more, h'') ↦
                        loop_ended fuel (k + 1) e near' more s' h'' (omega (arith, less, enough))
                  ])
          ]
    ]
