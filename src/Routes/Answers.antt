-- ===== src/Routes/Answers.antt =====
-- What `search` answers, and that it always does.
use alice_eve.Base.{
  ◌≡◌, ◌≢◌, refl, sym, ap, ◌∙◌, subst, true, false, Option, none, some, String, if◌then◌else◌,
  Bool-cases, Option-cases, ◌⊎◌, inl, inr, leb, List, [], ◌∷◌, ℕ, suc, ◌+◌, ◌-◌, ◌≤◌, ◌<◌, arith,
  length,
}
use alice_eve.Base.Results.{Result, ok, err}
use alice_eve.Base.Int.{ℤ}
use alice_eve.Base.Ids.{get, get-put, same_id, same_id_iff}
use alice_eve.Routes.{Error, no_route, cancelled, Float, System, Graph, Checked, Route}
use alice_eve.Routes.Search.{
  State, Outcome, usable, start, systems_of, route_of, collect, finish, stay, search,
}
use alice_eve.Routes.Walk.{
  Walk, here, jump, Within, Maps, waits_near, waits_far, finished, Searching, Found,
}
use alice_eve.Routes.Fuel.{unseen_le}
use alice_eve.Routes.Trace.{Chain, trace_lem}
use alice_eve.Routes.Shortest.{Ended, found, exhausted, halted, loop_ended}

module _ {W : Type 0} ⦃f : Float W⦄ (g : Graph W) (q : Checked W) where
  start_depth : (n : ℤ) → get n (start g q).depth ≡ (if same_id q.from n then some 0 else none)
  unfolding get
  start_depth n = get-put q.from n 0 []

  start_seen : (n : ℤ) → get n (start g q).seen ≡ (if same_id q.from n then some true else none)
  unfolding get
  start_seen n = get-put q.from n true []

  start-Maps : Maps g q (start g q)
  start-Maps = record {
    marks = λ n. ground (arith, start_depth n, start_seen n);
    first = start_depth q.from ∙ ground (arith, same_id_iff q.from q.from);
    back = λ n d at. inl (
      ground (arith, start_depth n, at, same_id_iff q.from n),
      ground (arith, start_depth n, at),
    );
    shallow = λ n d at. ground (arith, start_depth n, at);
  }

  start-Searching : q.from ≢ q.to → Searching g q 0 (q.from ∷ []) [] (start g q)
  start-Searching apart = record {
    maps = start-Maps;
    layers = record { queue = refl; at = (start-Maps.first, tt); below = tt; level = level };
    place = λ u e at.
        waits_near (ground (arith, start_depth u, at))
          (inl (ground (arith, start_depth u, at, same_id_iff q.from u)));
    unfound = refl;
    target = start_depth q.to ∙ ground (arith, same_id_iff q.from q.to, apart);
  }
    where
      level : (w : ℤ) (k : ℕ) → Walk g q w k → k ≤ 0 → k ≤ q.max_jumps → Within g q (start g q) k w
      level w k here short limit = record { depth = 0; is = start-Maps.first; bound = omega arith }
      level w k (jump walk edge) short limit = absurd (omega (arith, short))

  -- With nothing left in the queue, all that a short enough walk leads to was reached.
  reached_all :
      (d : ℕ) (s : State) (w : ℤ) (k : ℕ)
      → Searching g q d [] [] s
      → Walk g q w k
      → k ≤ q.max_jumps
      → Within g q s k w
  reached_all d s w k h here limit = record { depth = 0; is = h.maps.first; bound = omega arith }
  reached_all d s w k h (jump {u = u} {k = j} walk edge) limit =
      let x = reached_all d s u j h walk (omega (arith, limit)) in
      elim (h.place u x.depth x.is) [
        | waits_near p i ↦ absurd i
        | waits_far p i ↦ absurd i
        | finished p c ↦
            let y = c.reached (omega (arith, limit, x.bound)) w edge in
            record { depth = y.depth; is = y.is; bound = omega (arith, y.bound, x.bound) }
      ]

  -- A route from the start to the destination: jumps between usable systems, as few as there can be.
  pub record IsShortest (r : Route W) : Type 0 where
    pub onward : List ℤ
    pub chain : Chain g q q.from onward q.to
    pub systems : r.systems ≡ systems_of g q (q.from ∷ onward)
    pub jumps : r.jumps ≡ length onward
    pub within : r.jumps ≤ q.max_jumps
    pub shortest : (k : ℕ) → Walk g q q.to k → r.jumps ≤ k

  length-systems_of : (ids : List ℤ) → length (systems_of g q ids) ≡ length ids
  unfolding systems_of
  length-systems_of [] = refl
  length-systems_of (n ∷ ns) = ap suc (length-systems_of ns)

  collect-Found : (s : State) → Found g q s → (r : Route W) × (collect g q s ≡ ok r) × IsShortest r
  unfolding collect route_of
  collect-Found s h =
      let shallow = h.maps.shallow q.to h.depth h.target in
      let t = trace_lem g q s q.max_jumps q.to h.depth h.maps h.target shallow in
      let r = route_of g q t.ids in
      let turned : r.systems ≡ systems_of g q (q.from ∷ t.onward) = ap (systems_of g q) t.turned in
      let jumps : r.jumps ≡ length t.onward =
        ap (λ (systems : List (System W)). length systems - 1) turned
        ∙ ap (λ (k : ℕ). k - 1) (length-systems_of (q.from ∷ t.onward))
        ∙ omega arith in
      let deep : r.jumps ≡ h.depth = jumps ∙ t.count in
      (
        r,
        rw (h.is_found, t.is) refl,
        record {
          onward = t.onward;
          chain = t.chain;
          systems = turned;
          jumps = jumps;
          within = omega (arith, deep, shallow);
          shortest = λ k walk. omega (arith, deep, h.shortest k walk);
        },
      )

  -- What `search` may answer: a shortest route; that there is none, for a start that is unknown or not
  -- safe enough, for an unknown destination, or where no walk is within the limit; or that the context
  -- was cancelled.
  pub data Answer (context : ℕ → Option String) : Result Error (Route W) → Type 0 where
    routed : {r : Route W} → IsShortest r → Answer context (ok r)
    barred :
        (usable g q q.from ≡ false) ⊎ (get q.to g.systems ≡ none) → Answer context (err no_route)
    unreachable : ((k : ℕ) → Walk g q q.to k → q.max_jumps < k) → Answer context (err no_route)
    interrupted : {e : String} (k : ℕ) → context k ≡ some e → Answer context (err (cancelled e))

  finish-Answer :
      (context : ℕ → Option String) (o : Outcome)
      → Ended g q context o
      → Answer context (finish g q o)
  unfolding finish collect
  finish-Answer context o (found {s = s} h) =
      let c = collect-Found s h in subst (Answer context) (sym c.1) (routed c.2)
  finish-Answer context o (exhausted {s = s} {d = d} h) = rw (h.unfound) (
      unreachable (λ k walk. elim (Bool-cases (leb k q.max_jumps)) [
        | inr over ↦ ground (arith, over)
        | inl within ↦
            let x = reached_all d s q.to k h walk (ground (arith, within)) in
            absurd (ground (arith, x.is, h.target))
      ]))
  finish-Answer context o (halted k e) = interrupted k e

  stay-IsShortest :
      (a : System W) → get q.from g.systems ≡ some a → q.from ≡ q.to → IsShortest (stay g q a)
  unfolding stay systems_of
  stay-IsShortest a at same = record {
    onward = [];
    chain = same;
    systems = ap (λ (s : System W). s ∷ []) (ground (arith, at));
    jumps = refl;
    within = omega arith;
    shortest = λ k walk. omega arith;
  }

  -- `search` always answers: it finds a shortest route within the limit of jumps, or it says rightly that
  -- there is none, or the context was cancelled. No loop runs on.
  pub search-Answer : (context : ℕ → Option String) → Answer context (search g q context)
  unfolding search usable
  search-Answer context = elim (Option-cases (get q.from g.systems)) [
    | inl unknown ↦ rw (unknown, search) (barred (inl (ground (arith, unknown))))
    | inr (a, from) ↦ elim (Option-cases (get q.to g.systems)) [
      | inl unknown ↦ rw (from, unknown, search) (barred (inr unknown))
      | inr (b, to) ↦ elim (Bool-cases (f.less a.security q.min_security)) [
        | inl unsafe ↦ rw (from, to, unsafe, search) (barred (inl (ground (arith, from, unsafe))))
        | inr safe ↦ elim (Bool-cases (same_id q.from q.to)) [
          | inl same ↦
              rw (from, to, safe, same, search)
                (routed (stay-IsShortest a from ((same_id_iff q.from q.to).0 same)))
          | inr apart ↦
              let apart' : q.from ≢ q.to =
                λ e. absurd (ground (arith, apart, (same_id_iff q.from q.to).1 e)) in
              let enough = unseen_le g.systems (start g q).seen in
              rw (from, to, safe, apart, search)
                (finish-Answer context _ (
                  loop_ended g q context (length g.systems + 2) 0 0 (q.from ∷ []) [] (start g q)
                    (start-Searching apart') (omega (arith, enough))))
        ]
      ]
    ]
  ]

  -- Where the start is usable, the destination is known and a walk of at most the allowed number of jumps
  -- leads there, `search` with a context that is never cancelled returns a shortest route.
  pub search_finds :
      (context : ℕ → Option String) (k : ℕ)
      → ((i : ℕ) → context i ≡ none)
      → usable g q q.from ≡ true
      → get q.to g.systems ≢ none
      → Walk g q q.to k
      → k ≤ q.max_jumps
      → (r : Route W) × (search g q context ≡ ok r) × IsShortest r
  search_finds context k goes safe known walk limit =
      answered (search g q context) refl (search-Answer context)
    where
      answered :
          (answer : Result Error (Route W))
          → search g q context ≡ answer
          → Answer context answer
          → (r : Route W) × (search g q context ≡ ok r) × IsShortest r
      answered answer e (routed {r = r} h) = (r, e, h)
      answered answer e (barred (inl unsafe)) = absurd (ground (arith, safe, unsafe))
      answered answer e (barred (inr unknown)) = absurd (known unknown)
      answered answer e (unreachable none_near) = absurd (omega (arith, none_near k walk, limit))
      answered answer e (interrupted i h) = absurd (ground (arith, goes i, h))
