-- ===== src/Accounts/Exchange.antt =====
-- What a call of `RotateRefresh` that succeeds has checked and changed.
use mathlib.Core.Path.{ap₂}
use alice_eve.Base.{
  ◌≡◌, subst, sym, false, ◌==◌, eq_iff, none, some, String, arith, if◌then◌else◌, Option-cases, inl,
  inr, ◌<◌,
}
use alice_eve.Base.Results.{ok}
use alice_eve.Base.Dict.{Dict, lookup, insert, find, lookup-insert, find-lookup}
use alice_eve.Accounts.{Time, Session, Repo}
use alice_eve.Accounts.Memory.{or_time, by_refresh}
use alice_eve.Accounts.Rotation.{rotate_refresh, rotate_found, rotated_out, exchanged}
use alice_eve.Accounts.Invariant.{Inv}

-- What a successful exchange was allowed by.
abbrev pub Exchangeable : Session → Session → Time → Type 0
Exchangeable current replacement now =
    (current.revoked_at ≡ none)
    × (now < current.expires_at)
    × (replacement.account_id ≡ current.account_id)
    × (replacement.token_family_id ≡ current.token_family_id)

rotate_found_ok :
    (r r' : Repo) (id : String) (current replacement out : Session) (now : Time)
    → rotate_found r id current replacement now ≡ (r', ok out)
    → Exchangeable current replacement now
      × (lookup replacement.id r.sessions ≡ none)
      × (r' ≡ exchanged r id current replacement now)
      × (out ≡ record replacement { created_at = or_time replacement.created_at now })
unfolding rotate_found
rotate_found_ok r r' id current replacement out now e = ground (
  arith,
  eq_iff replacement.account_id current.account_id,
  eq_iff replacement.token_family_id current.token_family_id,
)

rotate_refresh_found :
    (r r' : Repo) (presented : String) (replacement out : Session) (now clock : Time)
    → rotate_refresh r presented replacement now clock ≡ (r', ok out)
    → (id : String) × (current : Session) × (find (by_refresh presented) r.sessions
        ≡ some (id, current))
      × (rotate_found r id current replacement (or_time now clock) ≡ (r', ok out))
unfolding rotate_refresh
rotate_refresh_found r r' presented replacement out now clock e =
    elim (Option-cases (find (by_refresh presented) r.sessions)) [
      | inl none_found ↦ absurd (ground arith)
      | inr ((id, current), hit) ↦ (id, current, hit, ground arith)
    ]

-- Only the two sessions of the exchange differ afterwards.
abbrev pub Exchanged : Repo → Repo → String → Session → Session → Session → Time → Type 0
Exchanged r r' id current replacement out now =
    (lookup id r'.sessions ≡ some (rotated_out current replacement now))
    × (lookup replacement.id r'.sessions ≡ some out)
    × ((j : String)
        → (j == id) ≡ false
        → (j == replacement.id) ≡ false
        → lookup j r'.sessions ≡ lookup j r.sessions)

exchanged_lem :
    (r : Repo) (id : String) (current replacement : Session) (now : Time)
    → lookup id r.sessions ≡ some current
    → lookup replacement.id r.sessions ≡ none
    → Exchanged r
        (exchanged r id current replacement now)
        id
        current
        replacement
        (record replacement { created_at = or_time replacement.created_at now })
        now
unfolding exchanged
exchanged_lem r id current replacement now stored free = (
  ground (arith, new id, old id, eq_iff replacement.id id, eq_iff id id),
  ground (arith, new replacement.id, eq_iff replacement.id replacement.id),
  λ j p q. ground (
    arith,
    new j,
    old j,
    eq_iff replacement.id j,
    eq_iff id j,
    eq_iff j id,
    eq_iff j replacement.id,
  ),
)
  where
    out : Session
    out = record replacement { created_at = or_time replacement.created_at now }

    before_it : Dict Session
    before_it = insert id (rotated_out current replacement now) r.sessions

    new :
        (j : String)
        → lookup j (insert replacement.id out before_it)
          ≡ (if replacement.id == j then some out else lookup j before_it)
    new j = lookup-insert replacement.id j out before_it

    old :
        (j : String)
        → lookup j before_it
          ≡ (if id == j then some (rotated_out current replacement now) else lookup j r.sessions)
    old j = lookup-insert id j _ r.sessions

-- A rotation that succeeds in a repository that satisfies the invariant exchanged a stored session
-- that holds the presented token, was not revoked and had not expired, for one of the same account
-- and token family. That session is now revoked and marked as rotated, the new one is stored as
-- returned, and no other session changed. The new one is the replacement, its zero time of creation
-- filled in.
pub rotate_refresh_ok :
    (r r' : Repo) (presented : String) (replacement out : Session) (now clock : Time)
    → Inv r
    → rotate_refresh r presented replacement now clock ≡ (r', ok out)
    → (id : String) × (current : Session) × (lookup id r.sessions ≡ some current)
      × (current.refresh_token_hash ≡ presented)
      × Exchangeable current out (or_time now clock)
      × Exchanged r r' id current replacement out (or_time now clock)
      × (out
          ≡ record replacement { created_at = or_time replacement.created_at (or_time now clock) })
rotate_refresh_ok r r' presented replacement out now clock v e =
    let (id, current, hit, run_e) =
      rotate_refresh_found r r' presented replacement out now clock e in
    let (stored, holds) =
      find-lookup (by_refresh presented) id current r.sessions v.one_entry hit in
    let (fine, free, r'_e, out_e) =
      rotate_found_ok r r' id current replacement out (or_time now clock) run_e in
    (
      id,
      current,
      stored,
      (eq_iff current.refresh_token_hash presented).0 holds,
      ground (arith, fine, out_e),
      subst (λ (p : Repo × Session). Exchanged r p.0 id current replacement p.1 (or_time now clock))
          (sym (ap₂ (λ (a : Repo) (b : Session). (a, b)) r'_e out_e))
          (exchanged_lem r id current replacement (or_time now clock) stored free),
      out_e,
    )
