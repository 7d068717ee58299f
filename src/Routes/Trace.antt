-- ===== src/Routes/Trace.antt =====
-- The way back from a reached system: `trace` follows it to the start within the limit of jumps, and
-- turned around it is a chain of jumps.
use alice_eve.Base.{
  ◌≡◌, refl, sym, ap, ◌∙◌, subst, true, false, some, Bool-cases, inl, inr, List, [], ◌∷◌, ◌++◌, ℕ,
  zero, suc, ◌+◌, ◌≤◌, arith, length, length-append,
}
use mathlib.Core.List.{reverse, reverse-cons}
use alice_eve.Base.Int.{ℤ}
use alice_eve.Base.Ids.{IdMap, get, same_id, same_id_iff}
use alice_eve.Routes.{Float, Graph, Checked}
use alice_eve.Routes.Search.{State, trace}
use alice_eve.Routes.Walk.{Jump, Maps}

module _ {W : Type 0} ⦃f : Float W⦄ (g : Graph W) (q : Checked W) where
  -- From `u` through all of the list, which ends at `w`.
  abbrev pub Chain : ℤ → List ℤ → ℤ → Type 0
  Chain u [] w = u ≡ w
  Chain u (v ∷ vs) w = Jump g q u v × Chain v vs w

  pub Chain-append :
      (u w x : ℤ) (vs : List ℤ) → Chain u vs w → Jump g q w x → Chain u (vs ++ x ∷ []) x
  Chain-append u w x [] same edge = (subst (λ (y : ℤ). Jump g q y x) (sym same) edge, refl)
  Chain-append u w x (v ∷ vs) (first, chain) edge = (first, Chain-append v w x vs chain edge)

  -- The ids traced from `n`, which turned around are a chain from the start.
  pub record Traced (prev : IdMap ℤ) (fuel : ℕ) (n : ℤ) (d : ℕ) : Type 0 where
    pub ids : List ℤ
    pub is : trace g q fuel prev n ≡ some ids
    pub onward : List ℤ
    pub turned : reverse ids ≡ q.from ∷ onward
    pub chain : Chain q.from onward n
    pub count : length onward ≡ d

  trace_first :
      (prev : IdMap ℤ) (fuel : ℕ) (n : ℤ)
      → same_id n q.from ≡ true
      → trace g q fuel prev n ≡ some (n ∷ [])
  unfolding trace
  trace_first prev zero n hit = rw hit refl
  trace_first prev (suc fuel) n hit = rw hit refl

  -- The start is traced at once.
  first_Traced :
      (s : State) (fuel : ℕ) (n : ℤ) (d : ℕ)
      → Maps g q s
      → get n s.depth ≡ some d
      → n ≡ q.from
      → Traced s.prev fuel n d
  first_Traced s fuel n d maps at same =
      let hit : same_id n q.from ≡ true = (same_id_iff n q.from).1 same in
      record {
        ids = n ∷ [];
        is = trace_first s.prev fuel n hit;
        onward = [];
        turned = ap (λ (m : ℤ). m ∷ []) same;
        chain = sym same;
        count = ground (arith, maps.first, at, same);
      }

  -- One more jump, from the system before.
  next_Traced :
      (prev : IdMap ℤ) (fuel : ℕ) (p n : ℤ) (d : ℕ)
      → same_id n q.from ≡ false
      → get n prev ≡ some p
      → Jump g q p n
      → Traced prev fuel p d
      → Traced prev (suc fuel) n (d + 1)
  unfolding trace
  next_Traced prev fuel p n d other back edge t = record {
    ids = n ∷ t.ids;
    is = rw (other, back, t.is) refl;
    onward = t.onward ++ n ∷ [];
    turned = reverse-cons n t.ids ∙ ap (λ (ms : List ℤ). ms ++ n ∷ []) t.turned;
    chain = Chain-append q.from p n t.onward t.chain edge;
    count = length-append t.onward (n ∷ []) ∙ ap (λ (k : ℕ). k + 1) t.count;
  }

  pub trace_lem :
      (s : State) (fuel : ℕ) (n : ℤ) (d : ℕ)
      → Maps g q s
      → get n s.depth ≡ some d
      → d ≤ fuel
      → Traced s.prev fuel n d
  trace_lem s zero n d maps at enough = elim (maps.back n d at) [
    | inl (same, nought) ↦ first_Traced s zero n d maps at same
    | inr b ↦ absurd (omega (arith, b.deeper, enough))
  ]
  trace_lem s (suc fuel) n d maps at enough = elim (maps.back n d at) [
    | inl (same, nought) ↦ first_Traced s (suc fuel) n d maps at same
    | inr b ↦
        let above =
          trace_lem s fuel b.parent b.above maps b.depth (omega (arith, b.deeper, enough)) in
        elim (Bool-cases (same_id n q.from)) [
          | inl hit ↦ first_Traced s (suc fuel) n d maps at ((same_id_iff n q.from).0 hit)
          | inr other ↦
              subst (Traced s.prev (suc fuel) n) (sym b.deeper)
                (next_Traced s.prev fuel b.parent n b.above other b.prev b.by above)
        ]
  ]
