-- ===== src/Accounts/Service.antt =====
-- service.go over the in-memory repository. `hash_token` is `authn.HashToken`, whose code is not in
-- the repository. What `authn.GenerateToken` and `newID` draw is an argument, `none` when the
-- source of random bytes fails. `now` is what `s.Config.Now().UTC()` gives.
pub mod Login
pub mod Renewal
pub mod Lockout
mod Tests
use alice_eve.Base.{
  ◌≡◌, Bool, true, false, ◌==◌, ◌||◌, not, Option, none, some, String, is_some, if◌then◌else◌, List,
  ◌+◌, ℕ,
}
use alice_eve.Base.Results.{Result, ok, err, or_fail}
use alice_eve.Base.Text.{is_blank}
use alice_eve.Accounts.{
  Time, before, Error, not_found, identity_conflict, already_exists, account_revoked,
  session_revoked, refresh_expired, refresh_replay, invalid_input, random_unavailable,
  status_active, Account, Identity, Session, Repo, account_active,
}
use alice_eve.Accounts.Memory
use alice_eve.Accounts.Memory.{
  or_time, create_account, get_account, find_identity, create_identity, create_session,
  find_session_by_access_hash, find_session_by_refresh_hash, revoke_token_family,
  revoke_device_sessions, revoke_account_sessions, list_sessions_by_account,
}
use alice_eve.Accounts.Rotation.{rotate_refresh, was_rotated}

-- The lifetimes of `Config`, in nanoseconds.
pub record Config : Type 0 where
  pub access_token_ttl : ℕ
  pub refresh_token_ttl : ℕ

pub record Credentials : Type 0 where
  pub session : Session
  pub access_token : String
  pub refresh_token : String
  pub access_expires_at : Time
  pub expires_at : Time

-- What one call draws at random.
pub record Draws : Type 0 where
  pub access : Option String
  pub refresh : Option String
  pub family : Option String
  pub session : Option String

-- A call on the repository: what it leaves behind, and its value or error.
abbrev pub M : Type 0 → Type 0
M A = Repo → Repo × Result Error A

abbrev pub follow : {A B : Type 0} → (A → M B) → Repo → Result Error A → Repo × Result Error B
follow f r (ok a) = f a r
follow f r (err e) = (r, err e)

infixl 5 ◌>>=◌ ◌>>◌
abbrev pub ◌>>=◌ : {A B : Type 0} → M A → (A → M B) → M B
◌>>=◌ m f r = let (r', a) = m r in follow f r' a

abbrev pub ◌>>◌ : {B : Type 0} → M (Unit {0}) → M B → M B
m >> k = m >>= λ _. k

abbrev pub return : {A : Type 0} → Result Error A → M A
return a r = (r, a)

abbrev pub reads : {A : Type 0} → (Repo → Result Error A) → M A
reads f r = (r, f r)

-- `if b { return e }`.
abbrev pub refuse : Bool → Error → M (Unit {0})
refuse true e r = (r, err e)
refuse false e r = (r, ok tt)

abbrev pub draw : Option String → M String
draw o = return (or_fail o random_unavailable)

-- The second read after `CreateIdentity` failed on a taken key.
reread : Repo → Error → Result Error Identity → Result Error Account
reread r e (ok i) = get_account r i.account_id
reread r e (err _) = err e

lost_race : String → String → Account → Repo → Result Error (Unit {0}) → Repo × Result Error Account
unfolding reread
lost_race provider subject account r (ok _) = (r, ok account)
lost_race provider subject account r (err identity_conflict) =
    (r, reread r identity_conflict (find_identity r provider subject))
lost_race provider subject account r (err already_exists) =
    (r, reread r already_exists (find_identity r provider subject))
lost_race provider subject account r (err e) = (r, err e)

link_identity : Account → String → String → String → Time → M Account
unfolding lost_race
link_identity account identity_id provider subject now r =
    let (r', done) =
      create_identity r
        (record {
          id = identity_id;
          account_id = account.id;
          provider = provider;
          subject = subject;
          created_at = now;
        })
        now in
    lost_race provider subject account r' done

-- `CreateAccount` with an id that is taken goes on.
unless_exists : Repo → Result Error (Unit {0}) → Repo × Result Error (Unit {0})
unless_exists r (err already_exists) = (r, ok tt)
unless_exists r done = (r, done)

add_account : Account → Time → M (Unit {0})
unfolding unless_exists
add_account account now r = let (r', done) = create_account r account now in unless_exists r' done

register : String → String → String → Option String → Option String → Time → M Account
unfolding link_identity add_account
register provider subject display_name account_id identity_id now = do
  id ← draw account_id
  let account = new_account id display_name now
  add_account account now
  ident ← draw identity_id
  link_identity account ident provider subject now
  where
    new_account : String → String → Time → Account
    new_account id name now = record {
      id = id;
      status = status_active;
      display_name = name;
      created_at = now;
      updated_at = now;
      revoked_at = none;
    }

-- The first read of `EnsureAccount`.
known : M Account → Repo → Result Error Identity → Repo × Result Error Account
known absent r (ok i) = (r, get_account r i.account_id)
known absent r (err not_found) = absent r
known absent r (err e) = (r, err e)

unfoldable pub ensure_account :
    String → String → String → Option String → Option String → Time → M Account
unfolding register known
ensure_account provider subject display_name account_id identity_id now r =
    if is_blank provider || is_blank subject
    then (r, err invalid_input)
    else known (register provider subject display_name account_id identity_id now) r
        (find_identity r provider subject)

module _ (hash_token : String → String) (cfg : Config) where
  issued : String → String → String → String → String → String → Time → Credentials
  issued account_id device_id access refresh family_id session_id now = record {
    session = record {
      id = session_id;
      account_id = account_id;
      device_id = device_id;
      access_token_hash = hash_token access;
      access_expires_at = now + cfg.access_token_ttl;
      refresh_token_hash = hash_token refresh;
      token_family_id = family_id;
      expires_at = now + cfg.refresh_token_ttl;
      revoked_at = none;
      family_revoked_at = none;
      replaced_by_hash = "";
      rotated_at = none;
      created_at = now;
      last_seen_at = some now;
    };
    access_token = access;
    refresh_token = refresh;
    access_expires_at = now + cfg.access_token_ttl;
    expires_at = now + cfg.refresh_token_ttl;
  }

  unfoldable pub issue_session : String → String → Draws → Time → M Credentials
  unfolding issued
  issue_session account_id device_id d now = do
    account ← reads λ r. get_account r account_id
    refuse (not (account_active account)) account_revoked
    access ← draw d.access
    refresh ← draw d.refresh
    family_id ← draw d.family
    session_id ← draw d.session
    let c = issued account_id device_id access refresh family_id session_id now
    (λ r. create_session r c.session now)
    return (ok c)

  -- `AuthenticateAccess` reads only.
  unfoldable pub authenticate_access : String → Time → M Session
  authenticate_access raw now = do
    refuse (is_blank raw) not_found
    session ← reads λ r. find_session_by_access_hash r (hash_token raw)
    refuse (not (before now session.access_expires_at)) session_revoked
    refuse (is_some session.revoked_at) session_revoked
    account ← reads λ r. get_account r session.account_id
    refuse (not (account_active account)) account_revoked
    return (ok session)

  replacement : Session → String → String → String → Time → Session
  replacement current access refresh session_id now = record {
    id = session_id;
    account_id = current.account_id;
    device_id = current.device_id;
    access_token_hash = hash_token access;
    access_expires_at = now + cfg.access_token_ttl;
    refresh_token_hash = hash_token refresh;
    token_family_id = current.token_family_id;
    expires_at = current.expires_at;
    revoked_at = none;
    family_revoked_at = none;
    replaced_by_hash = "";
    rotated_at = none;
    created_at = now;
    last_seen_at = some now;
  }

  -- `RefreshAt` on a session that is revoked already.
  refused : Session → Time → M Credentials
  refused current now r =
      if was_rotated current
      then ((revoke_token_family r current.token_family_id now now).0, err refresh_replay)
      else (r, err session_revoked)

  rotated : String → Session → String → String → String → Time → M Credentials
  unfolding replacement
  rotated presented current access refresh session_id now = do
    let new = replacement current access refresh session_id now
    stored ← (λ r. rotate_refresh r presented new now now)
    return (
        ok (record {
          session = stored;
          access_token = access;
          refresh_token = refresh;
          access_expires_at = now + cfg.access_token_ttl;
          expires_at = stored.expires_at;
        }))

  live : String → Session → Draws → Time → M Credentials
  unfolding rotated
  live presented current d now = do
    refuse (not (before now current.expires_at)) refresh_expired
    account ← reads λ r. get_account r current.account_id
    refuse (not (account_active account)) account_revoked
    access ← draw d.access
    refresh ← draw d.refresh
    session_id ← draw d.session
    rotated presented current access refresh session_id now

  -- A zero `now` is replaced by the clock; `Refresh` passes the clock itself.
  unfoldable pub refresh_at : String → Draws → Time → Time → M Credentials
  unfolding live refused
  refresh_at raw d given clock = do
    let now = or_time given clock
    refuse (is_blank raw) not_found
    current ← reads λ r. find_session_by_refresh_hash r (hash_token raw)
    if is_some current.revoked_at then refused current now else live (hash_token raw) current d now

  unfoldable pub refresh : String → Draws → Time → M Credentials
  unfolding refresh_at
  refresh raw d clock = refresh_at raw d clock clock

unfoldable pub list_sessions : String → M (List Session)
list_sessions account_id = do
  refuse (is_blank account_id) invalid_input
  reads λ r. ok (list_sessions_by_account r account_id)

unfoldable pub revoke_session : String → Time → M (Unit {0})
revoke_session session_id now r = Memory.revoke_session r session_id now now

unfoldable pub revoke_device : String → String → Time → M (Unit {0})
revoke_device account_id device_id now = do
  refuse (is_blank account_id || is_blank device_id) invalid_input
  (λ r. revoke_device_sessions r account_id device_id now now)

unfoldable pub revoke_account : String → Time → M (Unit {0})
revoke_account account_id now = do
  (λ r. Memory.revoke_account r account_id now now)
  (λ r. revoke_account_sessions r account_id now now)
