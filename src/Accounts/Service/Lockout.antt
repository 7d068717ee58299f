-- ===== src/Accounts/Service/Lockout.antt =====
-- A revoked account stays revoked, and nobody gets in with one of its tokens.
use alice_eve.Base.{
  ◌≡◌, ◌≢◌, refl, false, ◌==◌, eq_iff, some, String, arith, Bool-cases, Option-cases, inl, inr,
  List, [], ◌∷◌, ap,
}
use alice_eve.Base.Results.{Result, ok, err}
use alice_eve.Base.Dict.{lookup, find, lookup-insert}
use alice_eve.Accounts.{
  Time, Account, Session, Repo, Error, account_active, account_revoked, status_revoked,
}
use alice_eve.Accounts.Memory
use alice_eve.Accounts.Memory.{
  get_account, or_time, create_account, create_identity, create_session, revoke_device_sessions,
  revoke_token_family, revoke_account_sessions, mark_revoked, by_refresh,
}
use alice_eve.Accounts.Rotation.{rotate_refresh, rotate_found, exchanged}
use alice_eve.Accounts.Invariant.{Inv}
use alice_eve.Accounts.Calls.{
  Call, creates_account, creates_identity, revokes_account, creates_session, rotates,
  revokes_session, revokes_device, revokes_family, revokes_sessions, step, run, run-Inv, step-Inv,
}
use alice_eve.Accounts.Service.{Config, Draws, authenticate_access, issue_session, revoke_account}
use alice_eve.Accounts.Service.Login.{authenticate_access_ok}

pub record IsLocked (r : Repo) (id : String) : Type 0 where
  pub account : Account
  pub stored : lookup id r.accounts ≡ some account
  pub revoked : account.status ≡ status_revoked

rotate_found-accounts :
    (r : Repo) (id : String) (current new : Session) (now : Time)
    → (rotate_found r id current new now).0.accounts ≡ r.accounts
unfolding rotate_found exchanged
rotate_found-accounts r id current new now = ground arith

rotate_refresh-accounts :
    (r : Repo) (presented : String) (new : Session) (now clock : Time)
    → (rotate_refresh r presented new now clock).0.accounts ≡ r.accounts
unfolding rotate_refresh
rotate_refresh-accounts r presented new now clock =
    elim (Option-cases (find (by_refresh presented) r.sessions)) [
      | inl e ↦ ground arith
      | inr ((id, s), e) ↦ ground (arith, rotate_found-accounts r id s new (or_time now clock))
    ]

-- Only the account's own map entry matters.
same_accounts-IsLocked :
    (r r' : Repo) (id : String) → r'.accounts ≡ r.accounts → IsLocked r id → IsLocked r' id
same_accounts-IsLocked r r' id e l = record {
  account = l.account;
  stored = rw e l.stored;
  revoked = l.revoked;
}

create_account-IsLocked :
    (r : Repo) (id : String) (a : Account) (clock : Time)
    → IsLocked r id
    → IsLocked (create_account r a clock).0 id
unfolding create_account
create_account-IsLocked r id a clock l = record {
  account = l.account;
  stored = ground (
    arith,
    lookup-insert a.id id (Memory.with_defaults a clock) r.accounts,
    eq_iff a.id id,
    l.stored,
  );
  revoked = l.revoked;
}

revoke_account-IsLocked :
    (r : Repo) (id k : String) (now clock : Time)
    → IsLocked r id
    → IsLocked (Memory.revoke_account r k now clock).0 id
unfolding Memory.revoke_account mark_revoked
revoke_account-IsLocked r id k now clock l = elim (Option-cases (lookup k r.accounts)) [
  | inl e ↦ rw (e, Memory.revoke_account) l
  | inr (a, e) ↦
      rw (e, Memory.revoke_account)
        (elim (Bool-cases (k == id)) [
          | inl here ↦ record {
            account = l.account;
            stored = ground (
              arith,
              lookup-insert k id (mark_revoked a (or_time now clock)) r.accounts,
              eq_iff k id,
              eq_iff a.status status_revoked,
              l.stored,
              l.revoked,
            );
            revoked = l.revoked;
          }
          | inr there ↦ record {
            account = l.account;
            stored = ground (
              arith,
              lookup-insert k id (mark_revoked a (or_time now clock)) r.accounts,
              l.stored,
            );
            revoked = l.revoked;
          }
        ])
]

step-IsLocked : (r : Repo) (c : Time × Call) (id : String) → IsLocked r id → IsLocked (step r c) id
unfolding step create_identity create_session Memory.revoke_session revoke_device_sessions
    revoke_token_family revoke_account_sessions
step-IsLocked r (clock, creates_account a) id l = create_account-IsLocked r id a clock l
step-IsLocked r (clock, creates_identity i) id l = same_accounts-IsLocked r _ id (ground arith) l
step-IsLocked r (clock, revokes_account k now) id l = revoke_account-IsLocked r id k now clock l
step-IsLocked r (clock, creates_session s) id l = same_accounts-IsLocked r _ id (ground arith) l
step-IsLocked r (clock, rotates h s now) id l =
    same_accounts-IsLocked r _ id (rotate_refresh-accounts r h s now clock) l
step-IsLocked r (clock, revokes_session k now) id l = same_accounts-IsLocked r _ id (ground arith) l
step-IsLocked r (clock, revokes_device a d now) id l =
    same_accounts-IsLocked r _ id (ground arith) l
step-IsLocked r (clock, revokes_family f now) id l = same_accounts-IsLocked r _ id (ground arith) l
step-IsLocked r (clock, revokes_sessions a now) id l =
    same_accounts-IsLocked r _ id (ground arith) l

run-IsLocked :
    (r : Repo) (cs : List (Time × Call)) (id : String) → IsLocked r id → IsLocked (run r cs) id
unfolding run
run-IsLocked r [] id l = l
run-IsLocked r (c ∷ cs) id l = run-IsLocked (step r c) cs id (step-IsLocked r c id l)

locked-not_active :
    (r : Repo) (id : String) (a : Account)
    → IsLocked r id
    → lookup id r.accounts ≡ some a
    → account_active a ≡ false
unfolding account_active
locked-not_active r id a l e =
    let same : a ≡ l.account = ground (arith, l.stored) in rw (same, l.revoked) refl

revoke_account_locks :
    (r : Repo) (id : String) (now clock : Time) (a : Account)
    → lookup id r.accounts ≡ some a
    → IsLocked (Memory.revoke_account r id now clock).0 id
unfolding Memory.revoke_account mark_revoked
revoke_account_locks r id now clock a e =
    rw (e, Memory.revoke_account)
      (record {
        account = mark_revoked a (or_time now clock);
        stored = ground (
          arith,
          lookup-insert id id (mark_revoked a (or_time now clock)) r.accounts,
          eq_iff id id,
        );
        revoked = ground (arith, eq_iff a.status status_revoked);
      })

-- The two calls that the service makes.
service_steps :
    (r r' : Repo) (id : String) (now : Time)
    → revoke_account id now r ≡ (r', ok tt)
    → (a : Account) × (lookup id r.accounts ≡ some a)
      × (r' ≡ step (step r (now, revokes_account id now)) (now, revokes_sessions id now))
unfolding revoke_account Memory.revoke_account revoke_account_sessions step
service_steps r r' id now e = elim (Option-cases (lookup id r.accounts)) [
  | inl missing ↦ absurd (ground arith)
  | inr (a, stored) ↦ (a, stored, ground arith)
]

module _ (hash_token : String → String) (cfg : Config) (r r' : Repo) (id : String) (now : Time)
    (cs : List (Time × Call)) (v : Inv r) (done : revoke_account id now r ≡ (r', ok tt)) where
  revoked-IsLocked : IsLocked r' id × Inv r'
  unfolding step
  revoked-IsLocked =
      let (a, stored, e) = service_steps r r' id now done in
      rw e (
        step-IsLocked _ (now, revokes_sessions id now) id
            (revoke_account_locks r id now now a stored),
        step-Inv _ (now, revokes_sessions id now) (step-Inv r (now, revokes_account id now) v),
      )

  after_run : IsLocked (run r' cs) id × Inv (run r' cs)
  after_run = let (l, v') = revoked-IsLocked in (run-IsLocked r' cs id l, run-Inv r' cs v')

  -- Once the service revoked an account in a repository that satisfies the invariant, and after any
  -- further calls on the repository, no access token is accepted as a session of that account.
  pub authenticate_locked_out :
      (raw : String) (later : Time) (s : Session)
      → (authenticate_access hash_token cfg raw later (run r' cs)).1 ≡ ok s
      → s.account_id ≢ id
  authenticate_locked_out raw later s e same =
      let (l, v') = after_run in
      let (_, _, _, _, _, a, stored, active) =
        authenticate_access_ok hash_token cfg (run r' cs) _ raw later s v' (
          ap
            (λ (x : Result Error Session).
              ((authenticate_access hash_token cfg raw later (run r' cs)).0, x))
            e) in
      ground (arith, locked-not_active (run r' cs) id a l, same)

  -- Once the service revoked an account in a repository that satisfies the invariant, and after any
  -- further calls on the repository, issuing a session for it is refused and changes nothing.
  pub issue_locked_out :
      (device : String) (d : Draws) (later : Time)
      → issue_session hash_token cfg id device d later (run r' cs)
        ≡ (run r' cs, err account_revoked)
  unfolding issue_session get_account
  issue_locked_out device d later =
      let (l, v') = after_run in
      ground (arith, l.stored, locked-not_active (run r' cs) id l.account l l.stored)
