-- ===== src/Accounts/Calls.antt =====
-- Every call that changes the repository, one after the other: the invariant holds throughout, and
-- a session that was revoked stays revoked, with its first time.
use alice_eve.Base.{
  ◌≡◌, refl, Bool, true, false, ◌==◌, eq_iff, none, some, String, arith, Option-cases, inl, inr,
  List, [], ◌∷◌,
}
use alice_eve.Base.Dict.{
  lookup, insert, update_all, find, lookup-insert, find-lookup, find-none, find-insert-none,
}
use alice_eve.Accounts.{Time, Account, Identity, Session, Repo, new_repo}
use alice_eve.Accounts.Memory.{
  with_defaults, mark_revoked, revoke_family, or_time, create_account, create_identity,
  revoke_account, create_session, revoke_session, revoke_device_sessions, revoke_token_family,
  revoke_account_sessions, by_refresh, shares_token, revoke_if, revoke_family_if, of_account,
  of_device, of_family,
}
use alice_eve.Accounts.Rotation.{rotate_refresh, rotate_found, rotated_out, exchanged}
use alice_eve.Accounts.Invariant.{Inv, update_all-Inv, replace-Inv, insert-Inv, put_account-Inv}

pub data Call : Type 0 where
  creates_account : Account → Call
  creates_identity : Identity → Call
  revokes_account : String → Time → Call
  creates_session : Session → Call
  rotates : String → Session → Time → Call
  revokes_session : String → Time → Call
  revokes_device : String → String → Time → Call
  revokes_family : String → Time → Call
  revokes_sessions : String → Time → Call

-- The repository after a call that is made when the clock shows the first argument.
unfoldable pub step : Repo → Time × Call → Repo
step r (clock, creates_account a) = (create_account r a clock).0
step r (clock, creates_identity i) = (create_identity r i clock).0
step r (clock, revokes_account id now) = (revoke_account r id now clock).0
step r (clock, creates_session s) = (create_session r s clock).0
step r (clock, rotates h s now) = (rotate_refresh r h s now clock).0
step r (clock, revokes_session id now) = (revoke_session r id now clock).0
step r (clock, revokes_device a d now) = (revoke_device_sessions r a d now clock).0
step r (clock, revokes_family f now) = (revoke_token_family r f now clock).0
step r (clock, revokes_sessions a now) = (revoke_account_sessions r a now clock).0

unfoldable pub run : Repo → List (Time × Call) → Repo
run r [] = r
run r (c ∷ cs) = run (step r c) cs

create_account-Inv :
    (r : Repo) (a : Account) (clock : Time) → Inv r → Inv (create_account r a clock).0
unfolding create_account
create_account-Inv r a clock v = ground (arith, put_account-Inv r a.id (with_defaults a clock))

create_session-Inv :
    (r : Repo) (s : Session) (clock : Time) → Inv r → Inv (create_session r s clock).0
unfolding create_session
create_session-Inv r s clock v =
    ground (arith, insert-Inv r (record s { created_at = or_time s.created_at clock }))

create_identity-Inv :
    (r : Repo) (i : Identity) (clock : Time) → Inv r → Inv (create_identity r i clock).0
unfolding create_identity
create_identity-Inv r i clock v = ground arith

revoke_all-Inv :
    (r : Repo) (p : Session → Bool) (now : Time)
    → Inv r
    → Inv (record r { sessions = update_all (revoke_if p now) r.sessions })
revoke_all-Inv r p now = update_all-Inv r (revoke_if p now) (λ s. ground arith)

revoke_family-Inv :
    (r : Repo) (family : String) (now : Time) → Inv r → Inv (revoke_family r family now)
revoke_family-Inv r family now =
    update_all-Inv r (revoke_family_if (of_family family) now) (λ s. ground arith)

revoke_account-Inv :
    (r : Repo) (id : String) (now clock : Time) → Inv r → Inv (revoke_account r id now clock).0
unfolding revoke_account
revoke_account-Inv r id now clock v = elim (Option-cases (lookup id r.accounts)) [
  | inl e ↦ rw (e, revoke_account) v
  | inr (a, e) ↦
      rw (e, revoke_account)
        (revoke_all-Inv (record r { accounts = insert id (mark_revoked a _) r.accounts }) _ _
          (put_account-Inv r id _ v))
]

revoke_session-Inv :
    (r : Repo) (id : String) (now clock : Time) → Inv r → Inv (revoke_session r id now clock).0
unfolding revoke_session
revoke_session-Inv r id now clock v = elim (Option-cases (lookup id r.sessions)) [
  | inl e ↦ rw (e, revoke_session) v
  | inr (s, e) ↦ rw (e, revoke_session) (replace-Inv r id s _ e (refl, refl, refl) v)
]

module _ (r : Repo) (id : String) (current replacement : Session) (now : Time)
    (stored : lookup id r.sessions ≡ some current) (v : Inv r) where
  exchanged-Inv :
      (replacement.id == "") ≡ false
      → (replacement.account_id == current.account_id) ≡ true
      → lookup replacement.id r.sessions ≡ none
      → find (shares_token replacement) r.sessions ≡ none
      → Inv (exchanged r id current replacement now)
  unfolding exchanged
  exchanged-Inv named owner free unshared =
      let s' = insert id (rotated_out current replacement now) r.sessions in
      insert-Inv (record r { sessions = s' })
        (record replacement { created_at = or_time replacement.created_at now }) named
        (ground (arith, eq_iff replacement.account_id current.account_id, v.kept id current stored))
        (ground (
          arith,
          lookup-insert id replacement.id (rotated_out current replacement now) r.sessions,
          eq_iff id replacement.id,
        ))
        (find-insert-none (shares_token replacement) id _ r.sessions unshared
          (find-none (shares_token replacement) id current r.sessions unshared stored))
        (replace-Inv r id current _ stored (refl, refl, refl) v)

  rotate_found-Inv :
      (replacement.id == "") ≡ false → Inv (rotate_found r id current replacement now).0
  unfolding rotate_found
  rotate_found-Inv named =
      ground (arith, exchanged-Inv named, revoke_family-Inv r current.token_family_id now v)

pub rotate_refresh-Inv :
    (r : Repo) (presented : String) (replacement : Session) (now clock : Time)
    → Inv r
    → Inv (rotate_refresh r presented replacement now clock).0
unfolding rotate_refresh
rotate_refresh-Inv r presented replacement now clock v =
    elim (Option-cases (find (by_refresh presented) r.sessions)) [
      | inl e ↦ ground arith
      | inr ((id, current), e) ↦
          let stored = (find-lookup (by_refresh presented) id current r.sessions v.one_entry e).0 in
          ground (arith, rotate_found-Inv r id current replacement (or_time now clock) stored v)
    ]

revoke_token_family-Inv :
    (r : Repo) (f : String) (now clock : Time) → Inv r → Inv (revoke_token_family r f now clock).0
unfolding revoke_token_family
revoke_token_family-Inv r f now clock v =
    ground (arith, revoke_family-Inv r f (or_time now clock) v)

revoke_device_sessions-Inv :
    (r : Repo) (a d : String) (now clock : Time)
    → Inv r
    → Inv (revoke_device_sessions r a d now clock).0
unfolding revoke_device_sessions
revoke_device_sessions-Inv r a d now clock v =
    ground (arith, revoke_all-Inv r (of_device a d) (or_time now clock) v)

revoke_account_sessions-Inv :
    (r : Repo) (a : String) (now clock : Time)
    → Inv r
    → Inv (revoke_account_sessions r a now clock).0
unfolding revoke_account_sessions
revoke_account_sessions-Inv r a now clock v =
    ground (arith, revoke_all-Inv r (of_account a) (or_time now clock) v)

pub step-Inv : (r : Repo) (c : Time × Call) → Inv r → Inv (step r c)
unfolding step
step-Inv r (clock, creates_account a) v = create_account-Inv r a clock v
step-Inv r (clock, creates_identity i) v = create_identity-Inv r i clock v
step-Inv r (clock, revokes_account id now) v = revoke_account-Inv r id now clock v
step-Inv r (clock, creates_session s) v = create_session-Inv r s clock v
step-Inv r (clock, rotates h s now) v = rotate_refresh-Inv r h s now clock v
step-Inv r (clock, revokes_session id now) v = revoke_session-Inv r id now clock v
step-Inv r (clock, revokes_device a d now) v = revoke_device_sessions-Inv r a d now clock v
step-Inv r (clock, revokes_family f now) v = revoke_token_family-Inv r f now clock v
step-Inv r (clock, revokes_sessions a now) v = revoke_account_sessions-Inv r a now clock v

pub run-Inv : (r : Repo) (cs : List (Time × Call)) → Inv r → Inv (run r cs)
unfolding run
run-Inv r [] v = v
run-Inv r (c ∷ cs) v = run-Inv (step r c) cs (step-Inv r c v)

new_repo-Inv : Inv new_repo
unfolding lookup
new_repo-Inv = record {
  one_entry = tt;
  kept = λ id s e. absurd (ground arith);
  refresh_once = λ i j s t e e' h. absurd (ground arith);
}

-- After any history of calls on an empty repository each session stands once, under its own
-- non-empty id, belongs to an account that is stored, and no refresh token is in two sessions.
pub run-new_repo-Inv : (cs : List (Time × Call)) → Inv (run new_repo cs)
run-new_repo-Inv cs = run-Inv new_repo cs new_repo-Inv
