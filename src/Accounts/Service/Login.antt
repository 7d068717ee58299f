-- ===== src/Accounts/Service/Login.antt =====
-- What the service promises of the credentials that it hands out.
use alice_eve.Base.{
  ◌≡◌, true, false, ◌==◌, eq_iff, none, some, String, arith, Option-cases, inl, inr, ◌<◌,
}
use alice_eve.Base.Results.{ok, Result-cases}
use alice_eve.Base.Text.{is_blank}
use alice_eve.Base.Dict.{lookup, insert, find, find-lookup, find-none_weaken, find-insert-some}
use alice_eve.Accounts.{Time, Account, Session, Repo, account_active}
use alice_eve.Accounts.Memory.{
  get_account, find_session_by_access_hash, find_session_by_refresh_hash, create_session, by_access,
  by_refresh, shares_token, or_time,
}
use alice_eve.Accounts.Invariant.{Inv}
use alice_eve.Accounts.Service.{Config, Draws, Credentials, authenticate_access, issue_session}

module _ (r : Repo) (hash : String) (s : Session) (v : Inv r) where
  access_hit :
      find_session_by_access_hash r hash ≡ ok s
      → (lookup s.id r.sessions ≡ some s) × (s.access_token_hash ≡ hash)
  unfolding find_session_by_access_hash
  access_hit e = elim (Option-cases (find (by_access hash) r.sessions)) [
    | inl none_found ↦ absurd (ground arith)
    | inr ((id, t), hit) ↦
        let (stored, holds) = find-lookup (by_access hash) id t r.sessions v.one_entry hit in
        ground (arith, v.kept id t stored, eq_iff t.access_token_hash hash)
  ]

  pub refresh_hit :
      find_session_by_refresh_hash r hash ≡ ok s
      → (lookup s.id r.sessions ≡ some s) × (s.refresh_token_hash ≡ hash)
  unfolding find_session_by_refresh_hash
  refresh_hit e = elim (Option-cases (find (by_refresh hash) r.sessions)) [
    | inl none_found ↦ absurd (ground arith)
    | inr ((id, t), hit) ↦
        let (stored, holds) = find-lookup (by_refresh hash) id t r.sessions v.one_entry hit in
        ground (arith, v.kept id t stored, eq_iff t.refresh_token_hash hash)
  ]

module _ (hash_token : String → String) (cfg : Config) where
  -- In a repository that satisfies the invariant an access token is accepted only for a stored
  -- session that holds its hash, whose access time has not passed, that is not revoked, and whose
  -- account is stored and active; nothing is changed.
  pub authenticate_access_ok :
      (r r' : Repo) (raw : String) (now : Time) (s : Session)
      → Inv r
      → authenticate_access hash_token cfg raw now r ≡ (r', ok s)
      → (r' ≡ r)
        × (lookup s.id r.sessions ≡ some s)
        × (s.access_token_hash ≡ hash_token raw)
        × (now < s.access_expires_at)
        × (s.revoked_at ≡ none)
        × (a : Account) × (lookup s.account_id r.accounts ≡ some a)
        × (account_active a ≡ true)
  unfolding authenticate_access get_account
  authenticate_access_ok r r' raw now s v e =
      elim (Result-cases (find_session_by_access_hash r (hash_token raw))) [
        | inr (x, q) ↦ absurd (ground arith)
        | inl (t, q) ↦ elim (Option-cases (lookup t.account_id r.accounts)) [
          | inl missing ↦ absurd (ground arith)
          | inr (a, owner) ↦
              let same : t ≡ s = ground arith in
              let (stored, holds) = access_hit r (hash_token raw) s v (ground arith) in
              (
                ground arith,
                stored,
                holds,
                ground arith,
                ground arith,
                a,
                ground arith,
                ground arith,
              )
        ]
      ]

create_session_ok :
    (r r' : Repo) (s : Session) (clock : Time)
    → create_session r s clock ≡ (r', ok tt)
    → (find (shares_token s) r.sessions ≡ none)
      × (r' ≡ record r {
        sessions = insert s.id (record s { created_at = or_time s.created_at clock }) r.sessions;
      })
unfolding create_session
create_session_ok r s clock e = ground arith

module _ (hash_token : String → String) (cfg : Config) where
  issue_session_ok :
      (r r' : Repo) (account_id device_id : String) (d : Draws) (now : Time) (c : Credentials)
      → issue_session hash_token cfg account_id device_id d now r ≡ (r', ok c)
      → (create_session r c.session now ≡ (r', ok tt))
        × (a : Account) × (lookup account_id r.accounts ≡ some a)
        × (account_active a ≡ true)
        × (c.session.account_id ≡ account_id)
        × (c.session.access_token_hash ≡ hash_token c.access_token)
        × (c.session.created_at ≡ now)
        × (c.session.access_expires_at ≡ c.access_expires_at)
        × (c.session.revoked_at ≡ none)
  unfolding issue_session get_account
  issue_session_ok r r' account_id device_id d now c e =
      elim (Option-cases (lookup account_id r.accounts)) [
        | inl missing ↦ absurd (ground arith)
        | inr (a, owner) ↦ (
          ground arith,
          a,
          owner,
          ground arith,
          ground arith,
          ground arith,
          ground arith,
          ground arith,
          ground arith,
        )
      ]

  -- Credentials that were just issued let their holder in: until the access token expires it
  -- authenticates as the session that was issued, provided that the drawn token is not blank and that
  -- its hash is not empty.
  pub issue-authenticate :
      (r r' : Repo) (account_id device_id : String) (d : Draws) (now later : Time) (c : Credentials)
      → issue_session hash_token cfg account_id device_id d now r ≡ (r', ok c)
      → is_blank c.access_token ≡ false
      → (hash_token c.access_token == "") ≡ false
      → later < c.access_expires_at
      → authenticate_access hash_token cfg c.access_token later r' ≡ (r', ok c.session)
  unfolding authenticate_access get_account find_session_by_access_hash
  issue-authenticate r r' account_id device_id d now later c e drawn hashed early =
      let (created, a, owner, act, of_it, hash, at, until, fresh) =
        issue_session_ok r r' account_id device_id d now c e in
      let (unshared, r'_e) = create_session_ok r r' c.session now created in
      let alone : find (by_access (hash_token c.access_token)) r.sessions ≡ none =
        find-none_weaken (shares_token c.session) (by_access (hash_token c.access_token)) r.sessions
          (λ v h. ground (arith, hash)) unshared in
      let stored : find (by_access (hash_token c.access_token)) r'.sessions
          ≡ some (c.session.id, c.session) =
        rw r'_e (
          ground (
            arith,
            find-insert-some (by_access (hash_token c.access_token)) c.session.id
                (record c.session { created_at = or_time c.session.created_at now }) r.sessions
                alone,
            eq_iff c.session.access_token_hash (hash_token c.access_token),
          )) in
      let owner' : lookup c.session.account_id r'.accounts ≡ some a = ground arith in ground arith
