-- ===== src/Accounts/Memory.antt =====
-- memory.go: the operations of `MemoryRepository`. Each returns the repository after the call and
-- the result, so that what a failing call leaves behind is part of the model. `clock` is what
-- `time.Now().UTC()` gives inside the call.
use Prim.Native.String.{◌++◌}
use alice_eve.Base.{
  Bool, ◌&&◌, ◌||◌, not, ◌==◌, Option, none, some, String, is_some, is_none, if◌then◌else◌, List,
  keep,
}
use alice_eve.Base.Results.{Result, ok, err, or_fail}
use alice_eve.Base.Text.{is_blank}
use alice_eve.Base.Dict.{lookup, insert, update_all, find, values}
use alice_eve.Accounts.{
  Time, is_zero, Error, not_found, identity_conflict, already_exists, invalid_input, status_active,
  status_revoked, Account, Identity, Session, Repo,
}

-- The default that a call puts in for a zero time.
abbrev pub or_time : Time → Time → Time
or_time t d = if is_zero t then d else t

-- A timestamp that is set once.
abbrev pub or_set : Option Time → Time → Option Time
or_set none now = some now
or_set (some t) now = some t

unfoldable pub with_defaults : Account → Time → Account
with_defaults a clock =
    let created = or_time a.created_at clock in
    record a {
      status = if a.status == "" then status_active else a.status;
      created_at = created;
      updated_at = or_time a.updated_at created;
    }

unfoldable pub create_account : Repo → Account → Time → Repo × Result Error (Unit {0})
unfolding with_defaults
create_account r a clock =
    if is_blank a.id
    then (r, err invalid_input)
    else if is_some (lookup a.id r.accounts)
    then (r, err already_exists)
    else (record r { accounts = insert a.id (with_defaults a clock) r.accounts }, ok tt)

unfoldable pub get_account : Repo → String → Result Error Account
get_account r id = or_fail (lookup id r.accounts) not_found

abbrev pub identity_key : String → String → String
identity_key provider subject = provider ++ "\0" ++ subject

unfoldable pub find_identity : Repo → String → String → Result Error Identity
find_identity r provider subject =
    if provider == "" || subject == ""
    then err invalid_input
    else or_fail (lookup (identity_key provider subject) r.identities) not_found

-- A taken key: the same account again, or another one.
clash : Identity → Identity → Error
clash old i = if old.account_id == i.account_id then already_exists else identity_conflict

unfoldable pub create_identity : Repo → Identity → Time → Repo × Result Error (Unit {0})
unfolding clash
create_identity r i clock =
    if i.id == "" || i.account_id == "" || i.provider == "" || i.subject == ""
    then (r, err invalid_input)
    else if is_none (lookup i.account_id r.accounts)
    then (r, err not_found)
    else elim (lookup (identity_key i.provider i.subject) r.identities) [
      | some old ↦ (r, err (clash old i))
      | none ↦ (
        record r {
          identities =
              insert (identity_key i.provider i.subject)
                (record i { created_at = or_time i.created_at clock }) r.identities;
        },
        ok tt,
      )
    ]

-- The body of the loops that revoke: a session that is revoked already keeps its time.
abbrev pub revoke_if : (Session → Bool) → Time → Session → Session
revoke_if p now s = if p s then record s { revoked_at = or_set s.revoked_at now } else s

-- The same for a whole token family.
abbrev pub revoke_family_if : (Session → Bool) → Time → Session → Session
revoke_family_if p now s =
    if p s
    then record s {
      revoked_at = or_set s.revoked_at now;
      family_revoked_at = or_set s.family_revoked_at now;
    }
    else s

abbrev pub of_account : String → Session → Bool
of_account id s = s.account_id == id

abbrev pub of_device : String → String → Session → Bool
of_device account device s = s.account_id == account && s.device_id == device

abbrev pub of_family : String → Session → Bool
of_family family s = s.token_family_id == family

unfoldable pub mark_revoked : Account → Time → Account
mark_revoked a now =
    if a.status == status_revoked
    then a
    else record a { status = status_revoked; revoked_at = some now; updated_at = now }

unfoldable pub revoke_account : Repo → String → Time → Time → Repo × Result Error (Unit {0})
unfolding mark_revoked
revoke_account r id now clock = elim (lookup id r.accounts) [
  | none ↦ (r, err not_found)
  | some a ↦ (
    record r {
      accounts = insert id (mark_revoked a (or_time now clock)) r.accounts;
      sessions = update_all (revoke_if (of_account id) (or_time now clock)) r.sessions;
    },
    ok tt,
  )
]

-- A stored session that a new one may not share its tokens with.
abbrev pub shares_token : Session → Session → Bool
shares_token new old =
    old.refresh_token_hash == new.refresh_token_hash
    || (not (new.access_token_hash == "") && old.access_token_hash == new.access_token_hash)

unfoldable pub create_session : Repo → Session → Time → Repo × Result Error (Unit {0})
create_session r s clock =
    if s.id == "" || s.account_id == "" || s.refresh_token_hash == "" || s.token_family_id == ""
    then (r, err invalid_input)
    else if is_none (lookup s.account_id r.accounts)
    then (r, err not_found)
    else if is_some (lookup s.id r.sessions)
    then (r, err already_exists)
    else if is_some (find (shares_token s) r.sessions)
    then (r, err already_exists)
    else (
      record r {
        sessions = insert s.id (record s { created_at = or_time s.created_at clock }) r.sessions;
      },
      ok tt,
    )

abbrev pub by_refresh : String → Session → Bool
by_refresh hash s = s.refresh_token_hash == hash

abbrev pub by_access : String → Session → Bool
by_access hash s = s.access_token_hash == hash

-- The first session of the range that the test accepts.
abbrev pub found : Option (String × Session) → Result Error Session
found none = err not_found
found (some (id, s)) = ok s

unfoldable pub find_session_by_access_hash : Repo → String → Result Error Session
find_session_by_access_hash r hash =
    if hash == "" then err not_found else found (find (by_access hash) r.sessions)

unfoldable pub find_session_by_refresh_hash : Repo → String → Result Error Session
find_session_by_refresh_hash r hash =
    if hash == "" then err not_found else found (find (by_refresh hash) r.sessions)

unfoldable pub revoke_session : Repo → String → Time → Time → Repo × Result Error (Unit {0})
revoke_session r id now clock = elim (lookup id r.sessions) [
  | none ↦ (r, err not_found)
  | some s ↦ (
    record r {
      sessions =
          insert id (record s { revoked_at = or_set s.revoked_at (or_time now clock) }) r.sessions;
    },
    ok tt,
  )
]

unfoldable pub revoke_device_sessions :
    Repo → String → String → Time → Time → Repo × Result Error (Unit {0})
revoke_device_sessions r account device now clock =
    if account == "" || device == "" then (r, err invalid_input) else (
      record r {
        sessions = update_all (revoke_if (of_device account device) (or_time now clock)) r.sessions;
      },
      ok tt,
    )

-- The loop that both `RotateRefresh` and `RevokeTokenFamily` run.
abbrev pub revoke_family : Repo → String → Time → Repo
revoke_family r family now = record r {
  sessions = update_all (revoke_family_if (of_family family) now) r.sessions;
}

unfoldable pub revoke_token_family : Repo → String → Time → Time → Repo × Result Error (Unit {0})
revoke_token_family r family now clock = if family == "" then (r, err invalid_input) else (
  revoke_family r family (or_time now clock),
  if is_some (find (of_family family) r.sessions) then ok tt else err not_found,
)

unfoldable pub revoke_account_sessions :
    Repo → String → Time → Time → Repo × Result Error (Unit {0})
revoke_account_sessions r account now clock = if account == "" then (r, err invalid_input) else (
  record r {
    sessions = update_all (revoke_if (of_account account) (or_time now clock)) r.sessions;
  },
  ok tt,
)

unfoldable pub list_sessions_by_account : Repo → String → List Session
list_sessions_by_account r account =
    keep (λ s. s.account_id == account && is_none s.revoked_at) (values r.sessions)
