-- ===== src/Authn.antt =====
-- relay-server/internal/authn/challenge.go: login challenges in memory, each of which is consumed once.
-- Times are nanoseconds.
use alice_eve.Base.{
  ◌≡◌, false, not, Option, none, some, String, ◌==◌, eq_iff, eq_refl, if◌then◌else◌, [], ℕ, ltb,
  arith,
}
use alice_eve.Base.Dict.{Dict, lookup, insert, delete, lookup-insert, lookup-delete}

pub record Challenge : Type 0 where
  pub hash : String
  pub account_id : String
  pub provider : String
  pub subject : String
  pub display_name : String
  pub device_name : String
  pub device_type : String
  pub public_key : String
  pub expires_at : ℕ
  pub created_at : ℕ

abbrev pub Challenges : Type 0
Challenges = Dict Challenge

abbrev pub new : Challenges
new = []

unfoldable pub create_challenge : Challenges → Challenge → Challenges
create_challenge values c = insert c.hash c values

-- `none` is `ErrChallengeNotFound`.
unfoldable pub consume_challenge :
    Challenges → (hash : String) → (now : ℕ) → Challenges × Option Challenge
consume_challenge values hash now = elim (lookup hash values) [
  | none ↦ (values, none)
  | some c ↦ (delete hash values, if not (ltb now c.expires_at) then none else some c)
]

-- A challenge that was just created is consumed if it has not expired; either way a second attempt, at any
-- time, finds nothing, and other challenges stay.
pub consume_challenge_once :
    (values : Challenges) (c : Challenge) (now later : ℕ) (other : String)
    → (other == c.hash) ≡ false
    → let created = create_challenge values c in
      let x = consume_challenge created c.hash now in
      (x.1 ≡ (if ltb now c.expires_at then some c else none))
      × ((consume_challenge x.0 c.hash later).1 ≡ none)
      × (lookup other x.0 ≡ lookup other values)
unfolding create_challenge consume_challenge
consume_challenge_once values c now later other apart =
    let created = insert c.hash c values in
    let there : lookup c.hash created ≡ some c =
      ground (arith, lookup-insert c.hash c.hash c values, eq_refl c.hash) in
    let gone : lookup c.hash (delete c.hash created) ≡ none =
      ground (arith, lookup-delete c.hash c.hash created, eq_refl c.hash) in
    let kept : lookup other (delete c.hash created) ≡ lookup other values = ground (
      arith,
      lookup-delete c.hash other created,
      lookup-insert c.hash other c values,
      eq_iff c.hash other,
      eq_iff other c.hash,
      apart,
    ) in
    (ground (arith, there), ground (arith, there, gone), ground (arith, there, kept))
