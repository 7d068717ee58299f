-- ===== src/Accounts/Replay.antt =====
-- What `RotateRefresh` promises: a refresh token is exchanged once, and a second presentation
-- revokes the whole token family.
use alice_eve.Base.{
  ◌≡◌, refl, Bool, true, false, ◌==◌, ◌||◌, eq_iff, eq_refl, some, String, arith, is_some,
  Option-cases, inl, inr, List, ◌∙◌, subst, ap,
}
use alice_eve.Base.Results.{Result, ok, err}
use alice_eve.Base.Dict.{lookup, find, find-lookup, find-none, lookup-update_all_inv}
use alice_eve.Accounts.{Time, Session, Repo, Error, refresh_replay}
use alice_eve.Accounts.Memory.{or_time, by_refresh, revoke_family}
use alice_eve.Accounts.Rotation.{rotate_refresh, rotate_found, was_rotated}
use alice_eve.Accounts.Invariant.{Inv}
use alice_eve.Accounts.Exchange.{rotate_refresh_ok}
use alice_eve.Accounts.Calls.{Call, run, run-Inv, rotate_refresh-Inv}
use alice_eve.Accounts.Permanence.{is_some_stays, run_keeps_sessions}

-- The arguments that `RotateRefresh` refuses at once.
abbrev pub malformed : String → Session → Bool
malformed presented replacement =
    presented == ""
    || replacement.id == ""
    || replacement.refresh_token_hash == ""
    || replacement.token_family_id == ""

-- The search by a token finds the session that holds it, and no other.
find-refresh :
    (r : Repo) (id : String) (s : Session)
    → Inv r
    → lookup id r.sessions ≡ some s
    → find (by_refresh s.refresh_token_hash) r.sessions ≡ some (id, s)
find-refresh r id s v stored =
    elim (Option-cases (find (by_refresh s.refresh_token_hash) r.sessions)) [
      | inl e ↦ absurd (
          ground (
            arith,
            eq_refl s.refresh_token_hash,
            find-none (by_refresh s.refresh_token_hash) id s r.sessions e stored,
          ))
      | inr ((j, t), e) ↦
          let (q, p) = find-lookup (by_refresh s.refresh_token_hash) j t r.sessions v.one_entry e in
          ground (
            arith,
            v.refresh_once j id t s q stored,
            eq_iff t.refresh_token_hash s.refresh_token_hash,
          )
    ]

rotate_replay :
    (r : Repo) (id : String) (s replacement : Session) (now clock : Time)
    → Inv r
    → lookup id r.sessions ≡ some s
    → is_some s.revoked_at ≡ true
    → was_rotated s ≡ true
    → malformed s.refresh_token_hash replacement ≡ false
    → rotate_refresh r s.refresh_token_hash replacement now clock
      ≡ (revoke_family r s.token_family_id (or_time now clock), err refresh_replay)
unfolding rotate_refresh rotate_found
rotate_replay r id s replacement now clock v stored revoked rotated fine =
    ground (arith, find-refresh r id s v stored, v.kept id s stored)

-- Each session of the family is revoked, by itself and with the family.
abbrev pub FamilyRevoked : Repo → String → Type 0
FamilyRevoked r family =
    (j : String) (u : Session)
    → lookup j r.sessions ≡ some u
    → u.token_family_id ≡ family
    → (is_some u.revoked_at ≡ true) × (is_some u.family_revoked_at ≡ true)

revoke_family-FamilyRevoked :
    (r : Repo) (family : String) (now : Time) → FamilyRevoked (revoke_family r family now) family
revoke_family-FamilyRevoked r family now j u e f =
    let (w, q, p) = lookup-update_all_inv _ j u r.sessions e in
    ground (arith, eq_iff w.token_family_id family)

-- In a repository that satisfies the invariant, after a token was exchanged and after any further
-- calls, presenting it again with a well-formed replacement is refused as a replay, and every
-- session of its token family is revoked then.
pub replay_revokes_family :
    (r r' : Repo) (presented : String) (replacement out second : Session)
    (now clock later clock' : Time) (cs : List (Time × Call))
    → Inv r
    → rotate_refresh r presented replacement now clock ≡ (r', ok out)
    → malformed presented second ≡ false
    → let again = rotate_refresh (run r' cs) presented second later clock' in
      (again.1 ≡ err refresh_replay) × FamilyRevoked again.0 out.token_family_id
replay_revokes_family r r' presented replacement out second now clock later clock' cs v e fine =
    let (id, current, stored, holds, allowed, (kept, _, _), _) =
      rotate_refresh_ok r r' presented replacement out now clock v e in
    let v' : Inv r' =
      subst Inv (ap (λ (p : Repo × Result Error Session). p.0) e)
        (rotate_refresh-Inv r presented replacement now clock v) in
    let (s, s_e, l) = run_keeps_sessions r' cs id _ v' kept in
    let s_holds : s.refresh_token_hash ≡ presented = l.same_refresh ∙ holds in
    let refused =
      rotate_replay (run r' cs) id s second later clock' (run-Inv r' cs v') s_e
        (ground (arith, l.stays_revoked (or_time now clock))) (ground (arith, l.stays_rotated))
        (rw s_holds fine) in
    let family : s.token_family_id ≡ out.token_family_id = ground (arith, l.same_family, allowed) in
    rw (← s_holds, refused)
      (
        refl,
        rw (← family)
            (revoke_family-FamilyRevoked (run r' cs) s.token_family_id (or_time later clock')),
      )

-- In a repository that satisfies the invariant, once every session of a family is revoked with the
-- family, no later call brings one of them back: presenting the refresh token of one, with a
-- well-formed replacement, is refused as a replay after any further calls.
pub revoked_family_stays_dead :
    (r : Repo) (family id : String) (s replacement : Session) (now clock : Time)
    (cs : List (Time × Call))
    → Inv r
    → FamilyRevoked r family
    → lookup id r.sessions ≡ some s
    → s.token_family_id ≡ family
    → malformed s.refresh_token_hash replacement ≡ false
    → (rotate_refresh (run r cs) s.refresh_token_hash replacement now clock).1 ≡ err refresh_replay
revoked_family_stays_dead r family id s replacement now clock cs v dead stored f fine =
    let (s', e, l) = run_keeps_sessions r cs id s v stored in
    let marks = dead id s stored f in
    rw (← l.same_refresh) (
      ap (λ (p : Repo × Result Error Session). p.1)
        (rotate_replay (run r cs) id s' replacement now clock (run-Inv r cs v) e
          (is_some_stays _ _ l.stays_revoked marks.0)
          (ground (arith, is_some_stays _ _ l.stays_family_revoked marks.1))
          (rw l.same_refresh fine)))
