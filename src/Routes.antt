-- ===== src/Routes.antt =====
-- relay-server/internal/routeplanner/planner.go: shortest routes over a graph of solar systems. This
-- file has the data and `normalize`; the children have the search, what it finds, and the cache.
--
-- Ids and versions are int64 (`ℤ`). A float64 is a value of a parameter `W` with what the code asks of
-- it; a limit on jumps is at most 256, so it is a natural number once it is checked. A map from ids is
-- an `IdMap`.
pub mod Search
pub mod Walk
pub mod Scan
pub mod Loop
pub mod Rounds
pub mod Fuel
pub mod Trace
pub mod Shortest
pub mod Answers
pub mod Planner
pub mod Caching
pub mod Recall
use alice_eve.Base.{
  ◌≡◌, Bool, true, ◌||◌, not, Option, none, some, String, if◌then◌else◌, List, [], ℕ, eqb,
}
use alice_eve.Base.Results.{Result, ok, err}
use alice_eve.Base.Int.{ℤ, pos, leb_ℤ, ltb_ℤ, eqb_ℤ, pos_part}
use alice_eve.Base.Ids.{IdMap, get}

-- `no_route` is `ErrNoRoute`; `cancelled` an error of the context; `stuck` a loop of the model that ran
-- out of fuel; `external` an error of the loader.
pub data Error : Type 0 where
  no_route invalid_query invalid_batch version_mismatch stuck : Error
  cancelled external : String → Error

-- What the code asks of float64.
pub record Float (W : Type 0) : Type 0 where
  pub less : W → W → Bool
  pub equal : W → W → Bool
  pub is_nan : W → Bool
  pub is_inf : W → Bool
  pub minus_one : W
  pub nought : W
  pub one : W
  pub two : W

pub record System (W : Type 0) : Type 0 where
  pub id : ℤ
  pub name : String
  pub security : W

pub record Graph (W : Type 0) : Type 0 where
  pub version : ℤ
  pub systems : IdMap (System W)
  pub neighbors : IdMap (List ℤ)

-- `Query` as it is given.
pub record Query (W : Type 0) : Type 0 where
  pub from : ℤ
  pub to : ℤ
  pub min_security : W
  pub max_jumps : ℤ

-- `Query` after `normalize`.
pub record Checked (W : Type 0) : Type 0 where
  pub from : ℤ
  pub to : ℤ
  pub min_security : W
  pub max_jumps : ℕ

pub record Route (W : Type 0) : Type 0 where
  pub status : String
  pub from : ℤ
  pub to : ℤ
  pub version : ℤ
  pub jumps : ℕ
  pub min_security : W
  pub systems : List (System W)

abbrev pub max_jumps : ℕ
max_jumps = 256

unfoldable pub normalize : {W : Type 0} → ⦃f : Float W⦄ → Query W → Result Error (Checked W)
normalize ⦃f⦄ q =
    if leb_ℤ q.from (pos 0)
      || leb_ℤ q.to (pos 0)
      || f.is_nan q.min_security
      || f.is_inf q.min_security
      || f.less q.min_security f.minus_one
      || f.less f.one q.min_security
      || ltb_ℤ q.max_jumps (pos 0)
      || ltb_ℤ (pos max_jumps) q.max_jumps
    then err invalid_query
    else ok (record {
      from = q.from;
      to = q.to;
      min_security = if f.equal q.min_security f.nought then f.nought else q.min_security;
      max_jumps = if eqb_ℤ q.max_jumps (pos 0) then max_jumps else pos_part q.max_jumps;
    })
