-- ===== src/Accounts/Rotation.antt =====
-- memory.go, `RotateRefresh`.
use alice_eve.Base.{Bool, ◌||◌, not, ◌==◌, none, some, String, is_some, if◌then◌else◌}
use alice_eve.Base.Results.{Result, ok, err}
use alice_eve.Base.Dict.{lookup, insert, find}
use alice_eve.Accounts.{
  Time, before, Error, not_found, already_exists, session_revoked, refresh_expired, refresh_replay,
  invalid_input, Session, Repo,
}
use alice_eve.Accounts.Memory.{or_time, by_refresh, shares_token, revoke_family}

-- The marks that a rotation or a family revocation leaves on a session.
abbrev pub was_rotated : Session → Bool
was_rotated s =
    is_some s.family_revoked_at || not (s.replaced_by_hash == "") || is_some s.rotated_at

-- The presented session after its token was exchanged.
abbrev pub rotated_out : Session → Session → Time → Session
rotated_out current replacement now = record current {
  revoked_at = some now;
  replaced_by_hash = replacement.refresh_token_hash;
  rotated_at = some now;
}

-- The two writes of a rotation.
unfoldable pub exchanged : Repo → String → Session → Session → Time → Repo
exchanged r id current replacement now = record r {
  sessions =
      insert replacement.id (record replacement { created_at = or_time replacement.created_at now })
        (insert id (rotated_out current replacement now) r.sessions);
}

-- The checks and writes on the session that holds the presented token.
unfoldable pub rotate_found : Repo → String → Session → Session → Time → Repo × Result Error Session
rotate_found r id current replacement now =
    if is_some current.revoked_at
    then if was_rotated current
      then (revoke_family r current.token_family_id now, err refresh_replay)
      else (r, err session_revoked)
    else if not (before now current.expires_at)
    then (r, err refresh_expired)
    else if not (replacement.account_id == current.account_id)
        || not (replacement.token_family_id == current.token_family_id)
    then (r, err invalid_input)
    else if is_some (lookup replacement.id r.sessions)
    then (r, err already_exists)
    else if is_some (find (shares_token replacement) r.sessions)
    then (r, err already_exists)
    else (
      exchanged r id current replacement now,
      ok (record replacement { created_at = or_time replacement.created_at now }),
    )

-- The id "" means that the range found nothing.
unfoldable pub rotate_refresh : Repo → String → Session → Time → Time → Repo × Result Error Session
rotate_refresh r presented replacement now clock =
    if presented == ""
      || replacement.id == ""
      || replacement.refresh_token_hash == ""
      || replacement.token_family_id == ""
    then (r, err invalid_input)
    else elim (find (by_refresh presented) r.sessions) [
      | none ↦ (r, err not_found)
      | some (id, current) ↦
          if id == ""
          then (r, err not_found)
          else rotate_found r id current replacement (or_time now clock)
    ]
