-- ===== src/Routes/Fuel.antt =====
-- The fuel of the breadth-first loop is enough: a round takes one system off the queue, and a system
-- that it puts there is one of the graph that was not seen before.
use alice_eve.Base.{
  ◌≡◌, Bool, true, false, some, if◌then◌else◌, Bool-cases, Option-cases, inl, inr, List, [], ◌∷◌,
  ◌++◌, ℕ, suc, ◌+◌, ◌≤◌, ◌<◌, arith, length, length-append,
}
use alice_eve.Base.Int.{ℤ}
use alice_eve.Base.Ids.{IdMap, get, put, get-put, same_id, same_id_iff}
use alice_eve.Routes.{Float, System, Graph, Checked}
use alice_eve.Routes.Search.{State, usable, neighbors_of, or_false, reach, scan, round}

-- The entries with an id that was not seen.
unfoldable pub unseen {ℓ} : {V : Type ℓ} → IdMap V → IdMap Bool → ℕ
unseen [] seen = 0
unseen (entry ∷ m) seen =
    let rest = unseen m seen in if or_false (get entry.0 seen) then rest else suc rest

pub unseen_le {ℓ} : {V : Type ℓ} (m : IdMap V) (seen : IdMap Bool) → unseen m seen ≤ length m
unfolding unseen
unseen_le [] seen = omega arith
unseen_le (entry ∷ m) seen = let rest = unseen_le m seen in ground (arith, rest)

module _ {ℓ} {V : Type ℓ} (n : ℤ) (seen : IdMap Bool) where
  unseen-put_le : (m : IdMap V) → unseen m (put n true seen) ≤ unseen m seen
  unfolding unseen
  unseen-put_le [] = omega arith
  unseen-put_le (entry ∷ m) =
      let rest = unseen-put_le m in ground (arith, rest, get-put n entry.0 true seen)

  unseen-put_lt :
      (m : IdMap V) (v : V)
      → get n m ≡ some v
      → or_false (get n seen) ≡ false
      → unseen m (put n true seen) < unseen m seen
  unfolding unseen get
  unseen-put_lt [] v at new = absurd (ground (arith, at))
  unseen-put_lt (entry ∷ m) v at new = elim (Bool-cases (same_id entry.0 n)) [
    | inl hit ↦
        let rest = unseen-put_le m in
        ground (
          arith,
          rest,
          get-put n entry.0 true seen,
          same_id_iff entry.0 n,
          same_id_iff n entry.0,
          hit,
          new,
        )
    | inr other ↦
        let rest = unseen-put_lt m v (ground (arith, other, at)) new in
        ground (arith, rest, get-put n entry.0 true seen)
  ]

module _ {W : Type 0} ⦃f : Float W⦄ (g : Graph W) (q : Checked W) where
  -- What the loop still has before it.
  abbrev pub work : State → ℕ
  work s = unseen g.systems s.seen + length s.queue

  usable-get : (n : ℤ) → usable g q n ≡ true → (s : System W) × (get n g.systems ≡ some s)
  unfolding usable
  usable-get n h = elim (Option-cases (get n g.systems)) [
    | inl e ↦ absurd (ground (arith, e, h))
    | inr found ↦ found
  ]

  work-reach :
      (v n : ℤ) (s : State)
      → usable g q n ≡ true
      → or_false (get n s.seen) ≡ false
      → unseen g.systems (put n true s.seen) < unseen g.systems s.seen
  work-reach v n s allowed new =
      let found = usable-get n allowed in unseen-put_lt n s.seen g.systems found.0 found.1 new

  pub work-scan : (v : ℤ) (ns : List ℤ) (s : State) → work (scan g q v ns s) ≤ work s
  unfolding scan
  work-scan v [] s = omega arith
  work-scan v (n ∷ ns) s =
      let s' = reach g q v n s in
      let skip = work-scan v ns s in
      let push = work-scan v ns (record s' { queue = s'.queue ++ n ∷ [] }) in
      let less = work-reach v n s in
      ground (arith, skip, push, less, length-append s.queue (n ∷ []))

  -- A round leaves less to do.
  pub work-round :
      (v : ℤ) (rest : List ℤ) (s : State) → s.queue ≡ v ∷ rest → work (round g q v rest s) < work s
  work-round v rest s queue =
      let scanned = work-scan v (neighbors_of g v) (record s { queue = rest }) in
      rw queue (ground (arith, scanned))
