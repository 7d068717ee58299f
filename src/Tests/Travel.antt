-- ===== src/Tests/Travel.antt =====
-- The route planner (relay-server/internal/routeplanner/planner.go) on a small graph, with natural numbers
-- for security.
use alice_eve.Base.{
  ◌≡◌, refl, false, Option, none, some, String, [], ◌∷◌, ℕ, ◌+◌, ltb, eqb, arith, inl,
}
use alice_eve.Base.Results.{Result, ok, err}
use alice_eve.Base.Int.{pos}
use alice_eve.Base.Ids.{get, put, same_id}
use alice_eve.Base.Dict.{Dict, lookup}
use alice_eve.Routes.{Error, cancelled, Float, System, Graph, Query, Checked, Route, normalize}
use alice_eve.Routes.Search.{
  usable, scan, loop, trace, lowest, systems_of, route_of, collect, finish, search,
}
use alice_eve.Routes.Walk.{Walk, here, jump, Jump}
use alice_eve.Routes.Answers.{Answer, IsShortest, search-Answer, search_finds}
use alice_eve.Routes.Planner.{Entry, Planner, Call, route}
use alice_eve.Routes.Caching.{IsTrue, direct, route-direct}
use alice_eve.Tests.Keys.{key, key_injective}
use alice_eve.Routes.Recall.{route_again}

abbrev whole : Float ℕ
whole = record {
  less = ltb;
  equal = eqb;
  is_nan = λ n. false;
  is_inf = λ n. false;
  minus_one = 0;
  nought = 0;
  one = 1;
  two = 2;
}

abbrev system : ℕ → System ℕ
system n = record { id = pos n; name = ""; security = 1 }

-- 1 to 2 and 3, which lead to 4.
abbrev square : Graph ℕ
square = record {
  version = pos 7;
  systems = (pos 1, system 1) ∷ (pos 2, system 2) ∷ (pos 3, system 3) ∷ (pos 4, system 4) ∷ [];
  neighbors = (pos 1, pos 2 ∷ pos 3 ∷ []) ∷ (pos 2, pos 4 ∷ []) ∷ (pos 3, pos 4 ∷ []) ∷ [];
}

abbrev across : Checked ℕ
across = record { from = pos 1; to = pos 4; min_security = 0; max_jumps = 5 }

abbrev calm : ℕ → Option String
calm i = none

abbrev way : Route ℕ
way = record {
  status = "ready";
  from = pos 1;
  to = pos 4;
  version = pos 7;
  jumps = 2;
  min_security = 1;
  systems = system 1 ∷ system 2 ∷ system 4 ∷ [];
}

finds_way : search ⦃f = whole⦄ square across calm ≡ ok way
unfolding search usable scan loop trace lowest systems_of route_of collect finish get put same_id
finds_way = refl

search-Answer_example : Answer ⦃f = whole⦄ square across calm (ok way)
unfolding search usable scan loop trace lowest systems_of route_of collect finish get put same_id
search-Answer_example = search-Answer ⦃f = whole⦄ square across calm

abbrev first_jump : Jump ⦃f = whole⦄ square across (pos 1) (pos 2)
unfolding usable get same_id
first_jump = record { near = inl refl; allowed = refl }

second_jump : Jump ⦃f = whole⦄ square across (pos 2) (pos 4)
unfolding usable get same_id
second_jump = record { near = inl refl; allowed = refl }

-- A walk of two jumps.
two_jumps : Walk ⦃f = whole⦄ square across (pos 4) (0 + 1 + 1)
two_jumps = jump (jump here first_jump) second_jump

search_finds_example :
    (r : Route ℕ) × (search ⦃f = whole⦄ square across calm ≡ ok r)
    × IsShortest ⦃f = whole⦄ square across r
unfolding usable get same_id
search_finds_example =
    search_finds ⦃f = whole⦄ square across calm 2 (λ i. refl) refl (λ h. absurd (ground (arith, h)))
      two_jumps (omega arith)

abbrev no_victim : Dict (Entry ℕ) → String
no_victim m = ""

abbrev asked : Query ℕ
asked = record { from = pos 1; to = pos 4; min_security = 0; max_jumps = pos 5 }

abbrev planner : Planner ℕ
planner = record { ttl = 100; max_entries = 4096; graph = square; cache = [] }

abbrev call : Call ℕ
call = record { now = 50; active_version = ok (pos 7); load_graph = λ v. err ""; context = calm }

route-direct_example :
    let x = route ⦃f = whole⦄ key no_victim planner call asked in
    IsTrue ⦃f = whole⦄ key no_victim x.0
    × (x.1 ≡ direct ⦃f = whole⦄ key no_victim planner call asked)
route-direct_example =
    route-direct ⦃f = whole⦄ key no_victim key_injective planner call asked refl tt

-- The first call is cancelled at once, the second is not.
abbrev cut_short : Call ℕ
cut_short = record call { context = λ i. some "context canceled" }

abbrev after : Planner ℕ × Result Error (Route ℕ)
after = route ⦃f = whole⦄ key no_victim planner cut_short asked

route_again_example :
    (after.1 ≡ search ⦃f = whole⦄ square across (λ i. some "context canceled"))
    × ((route ⦃f = whole⦄ key no_victim after.0 call asked).1 ≡ after.1)
unfolding normalize lookup
route_again_example =
    route_again ⦃f = whole⦄ key no_victim planner cut_short call asked across refl refl refl refl
      refl (omega arith)

cut_short_lem :
    search ⦃f = whole⦄ square across (λ i. some "context canceled")
    ≡ err (cancelled "context canceled")
unfolding search loop finish get put same_id
cut_short_lem = refl
