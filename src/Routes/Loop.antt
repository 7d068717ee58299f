-- ===== src/Routes/Loop.antt =====
-- The breadth-first loop: what it knows when it ends, and that it does.
use alice_eve.Base.{
  In, ◌≡◌, refl, sym, ◌∙◌, true, false, some, Bool-cases, Option-cases, ◌⊎◌, inl, inr, List, [],
  ◌∷◌, ◌++◌, ℕ, ◌+◌, arith, subst,
}
use alice_eve.Base.Int.{ℤ}
use alice_eve.Base.Ids.{get, same_id, same_id_iff}
use alice_eve.Routes.{Float, Graph, Checked}
use alice_eve.Routes.Search.{State, usable, neighbors_of, or_false, scan}
use alice_eve.Routes.Walk.{Jump, Within, Found}
use alice_eve.Routes.Scan.{
  Grows, Scanning, Within-Grows, reached-le, reach-Found, reach-Scanning, pushed-Grows,
  pushed-depth,
}

module _ {W : Type 0} ⦃f : Float W⦄ (g : Graph W) (q : Checked W) where
  -- After the neighbors `ns` of `v`, without the destination among them.
  pub record Passed (d : ℕ) (v : ℤ) (near : List ℤ) (ns : List ℤ) (s s' : State) : Type 0 where
    pub far : List ℤ
    pub scanning : Scanning g q d v near far s'
    pub grows : Grows g q s s'
    pub covered : (n : ℤ) → In n ns → usable g q n ≡ true → Within g q s' (d + 1) n

  -- A neighbor that is passed over.
  Passed-skip :
      (d : ℕ) (v : ℤ) (near : List ℤ) (n : ℤ) (ns : List ℤ) (s s' : State)
      → (usable g q n ≡ true → Within g q s (d + 1) n)
      → Passed d v near ns s s'
      → Passed d v near (n ∷ ns) s s'
  Passed-skip d v near n ns s s' within p = record {
    far = p.far;
    scanning = p.scanning;
    grows = p.grows;
    covered = λ m i u. elim i [
      | inl e ↦
          subst (Within g q s' (d + 1)) (sym e)
            (Within-Grows g q s s' p.grows (d + 1) n (within (rw (← e) u)))
      | inr i' ↦ p.covered m i' u
    ];
  }

  -- A neighbor that is queued.
  Passed-push :
      (d : ℕ) (v : ℤ) (near : List ℤ) (n : ℤ) (ns : List ℤ) (s t s' : State)
      → Grows g q s t
      → get n t.depth ≡ some (d + 1)
      → Passed d v near ns t s'
      → Passed d v near (n ∷ ns) s s'
  Passed-push d v near n ns s t s' grows at p = record {
    far = p.far;
    scanning = p.scanning;
    grows = record { keeps = λ m e k. p.grows.keeps m e (grows.keeps m e k) };
    covered = λ m i u. elim i [
      | inl e ↦
          subst (Within g q s' (d + 1)) (sym e)
            (record { depth = d + 1; is = p.grows.keeps n (d + 1) at; bound = omega arith })
      | inr i' ↦ p.covered m i' u
    ];
  }

  pub scan_lem :
      (d : ℕ) (v : ℤ) (near far ns : List ℤ) (s : State)
      → ((n : ℤ) → In n ns → In n (neighbors_of g v))
      → Scanning g q d v near far s
      → Found g q (scan g q v ns s) ⊎ Passed d v near ns s (scan g q v ns s)
  unfolding scan
  scan_lem d v near far [] s sub h = inr (record {
    far = far;
    scanning = h;
    grows = record { keeps = λ m e k. k };
    covered = λ n i u. absurd i;
  })
  scan_lem d v near far (n ∷ ns) s sub h =
      let sub' : (m : ℤ) → In m ns → In m (neighbors_of g v) = λ m i. sub m (inr i) in
      elim (Bool-cases (usable g q n)) [
        | inr off ↦ rw off (elim (scan_lem d v near far ns s sub' h) [
          | inl found ↦ inl found
          | inr p ↦ inr (Passed-skip d v near n ns s _ (λ u. absurd (ground (arith, off, u))) p)
        ])
        | inl allowed ↦ elim (Option-cases (get n s.depth)) [
          | inr (e, known) ↦
              let marked : or_false (get n s.seen) ≡ true =
                h.maps.marks n ∙ ground (arith, known) in
              rw (allowed, marked)
                (elim (scan_lem d v near far ns s sub' h) [
                  | inl found ↦ inl found
                  | inr p ↦ inr (
                      Passed-skip d v near n ns s _
                        (λ u. record {
                          depth = e;
                          is = known;
                          bound = reached-le g q d v near far s n e h known;
                        })
                        p)
                ])
          | inl fresh ↦
              let unmarked : or_false (get n s.seen) ≡ false =
                h.maps.marks n ∙ ground (arith, fresh) in
              let edge : Jump g q v n = record { near = sub n (inl refl); allowed = allowed } in
              elim (Bool-cases (same_id n q.to)) [
                | inl hit ↦
                    rw (allowed, unmarked, hit)
                      (inl (
                        reach-Found g q d v n near far s h edge fresh ((same_id_iff n q.to).0 hit)))
                | inr other ↦
                    let h' =
                      reach-Scanning g q d v n near far s h edge fresh
                        (λ e. absurd (ground (arith, other, (same_id_iff n q.to).1 e))) in
                    let grows = pushed-Grows g q d v n near far s h edge fresh in
                    let at = pushed-depth g q d v n near far s h edge fresh in
                    rw (allowed, unmarked, other)
                      (elim (scan_lem d v near (far ++ n ∷ []) ns _ sub' h') [
                        | inl found ↦ inl found
                        | inr p ↦ inr (Passed-push d v near n ns s _ _ grows at p)
                      ])
              ]
        ]
      ]
