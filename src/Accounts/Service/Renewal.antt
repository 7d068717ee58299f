-- ===== src/Accounts/Service/Renewal.antt =====
-- What the service promises of a refresh: the family keeps its end.
use alice_eve.Base.{◌≡◌, true, some, String, arith, Option-cases, inl, inr, ◌+◌, ◌∙◌, sym}
use alice_eve.Base.Results.{ok, Result-cases}
use alice_eve.Base.Dict.{lookup}
use alice_eve.Accounts.{Time, Account, Session, Repo, account_active}
use alice_eve.Accounts.Memory.{get_account, find_session_by_refresh_hash, or_time}
use alice_eve.Accounts.Rotation.{rotate_refresh}
use alice_eve.Accounts.Exchange.{rotate_refresh_ok, Exchangeable}
use alice_eve.Accounts.Invariant.{Inv}
use alice_eve.Accounts.Service.Login.{refresh_hit}
use alice_eve.Accounts.Service.{Config, Draws, Credentials, replacement, refresh_at}

-- The two searches of a refresh, the service's and the repository's, find one session.
same_session :
    (r : Repo) (hash id : String) (s current : Session)
    → Inv r
    → find_session_by_refresh_hash r hash ≡ ok s
    → lookup id r.sessions ≡ some current
    → current.refresh_token_hash ≡ hash
    → s ≡ current
same_session r hash id s current v hit stored holds =
    let (s_stored, s_holds) = refresh_hit r hash s v hit in
    let one : s.id ≡ id = v.refresh_once s.id id s current s_stored stored (s_holds ∙ sym holds) in
    ground arith

module _ (hash_token : String → String) (cfg : Config) where
  -- What a refresh that succeeds did, in terms of the repository's rotation.
  refresh_steps :
      (r r' : Repo) (raw : String) (d : Draws) (given clock : Time) (c : Credentials)
      → refresh_at hash_token cfg raw d given clock r ≡ (r', ok c)
      → (current : Session) × (session_id : String) × (a : Account) × (find_session_by_refresh_hash
            r
            (hash_token raw)
          ≡ ok current)
        × (lookup current.account_id r.accounts ≡ some a)
        × (account_active a ≡ true)
        × (rotate_refresh r
              (hash_token raw)
              (replacement hash_token cfg current c.access_token c.refresh_token session_id
                (or_time given clock))
              (or_time given clock)
              (or_time given clock)
            ≡ (r', ok c.session))
        × (c.expires_at ≡ c.session.expires_at)
        × (c.access_expires_at ≡ or_time given clock + cfg.access_token_ttl)
  unfolding refresh_at get_account
  refresh_steps r r' raw d given clock c e =
      elim (Result-cases (find_session_by_refresh_hash r (hash_token raw))) [
        | inr (x, q) ↦ absurd (ground arith)
        | inl (current, q) ↦ elim (Option-cases (lookup current.account_id r.accounts)) [
          | inl missing ↦ absurd (ground arith)
          | inr (a, owner) ↦ elim (Option-cases d.session) [
            | inl undrawn ↦ absurd (ground arith)
            | inr (session_id, drawn) ↦ (
              current,
              session_id,
              a,
              q,
              owner,
              ground arith,
              ground arith,
              ground arith,
              ground arith,
            )
          ]
        ]
      ]

  -- A refresh that succeeds in a repository that satisfies the invariant continues the token family
  -- of a stored session that holds the presented token, is not revoked, has not expired and belongs
  -- to an active account. The new session is stored with the hashes of the new tokens, and it ends
  -- when the old one would have ended: renewing never lengthens the life of the family.
  pub refresh_keeps_end :
      (r r' : Repo) (raw : String) (d : Draws) (given clock : Time) (c : Credentials)
      → Inv r
      → refresh_at hash_token cfg raw d given clock r ≡ (r', ok c)
      → (id : String) × (current : Session) × (a : Account) × (lookup id r.sessions ≡ some current)
        × (current.refresh_token_hash ≡ hash_token raw)
        × (lookup current.account_id r.accounts ≡ some a)
        × (account_active a ≡ true)
        × Exchangeable current c.session (or_time given clock)
        × (lookup c.session.id r'.sessions ≡ some c.session)
        × (c.session.refresh_token_hash ≡ hash_token c.refresh_token)
        × (c.session.access_token_hash ≡ hash_token c.access_token)
        × (c.session.expires_at ≡ current.expires_at)
        × (c.expires_at ≡ current.expires_at)
  unfolding replacement
  refresh_keeps_end r r' raw d given clock c v e =
      let (s, session_id, a, hit, owner, act, run_e, end_e, _) =
        refresh_steps r r' raw d given clock c e in
      let now = or_time given clock in
      let (id, current, stored, holds, fine, (_, out_stored, _), out_e) =
        rotate_refresh_ok r r' (hash_token raw)
          (replacement hash_token cfg s c.access_token c.refresh_token session_id now) c.session now
          now v run_e in
      let same : s ≡ current = same_session r (hash_token raw) id s current v hit stored holds in
      (
        id,
        current,
        a,
        stored,
        holds,
        ground arith,
        act,
        ground arith,
        ground arith,
        ground arith,
        ground arith,
        ground arith,
        ground arith,
      )
