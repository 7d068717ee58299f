-- ===== src/Accounts/Service/Tests.antt =====
-- Sessions (relay-server/internal/accounts) at concrete inputs.
use alice_eve.Base.{◌≡◌, ◌≢◌, refl, true, Option, none, some, String, arith, List, [], ◌∷◌, ◌<◌}
use alice_eve.Base.Results.{ok, err}
use alice_eve.Base.Text.{is_blank}
use alice_eve.Base.Dict.{lookup, insert, find, update_all}
use alice_eve.Accounts.{Time, Account, Session, Repo, new_repo, account_active, refresh_replay}
use alice_eve.Accounts.Memory
use alice_eve.Accounts.Memory.{or_time}
use alice_eve.Accounts.Rotation.{rotate_refresh, rotate_found, exchanged}
use alice_eve.Accounts.Invariant.{Inv}
use alice_eve.Accounts.Calls.{
  Call, creates_account, creates_session, revokes_session, revokes_family, step, run,
  run-new_repo-Inv, run-Inv,
}
use alice_eve.Accounts.Exchange.{Exchangeable, Exchanged, rotate_refresh_ok}
use alice_eve.Accounts.Permanence.{Kept, run_keeps_sessions}
use alice_eve.Accounts.Replay.{FamilyRevoked, replay_revokes_family, revoked_family_stays_dead}
use alice_eve.Accounts.Service.{
  Config, Credentials, Draws, authenticate_access, issue_session, refresh_at, revoke_account,
  issued, live, rotated, replacement,
}
use alice_eve.Accounts.Service.Login.{authenticate_access_ok, issue-authenticate}
use alice_eve.Accounts.Service.Renewal.{refresh_keeps_end}
use alice_eve.Accounts.Service.Lockout.{authenticate_locked_out}

abbrev owner : Account
owner = record {
  id = "a";
  status = "active";
  display_name = "Ann";
  created_at = 1;
  updated_at = 1;
  revoked_at = none;
}

-- A session with the number of its tokens.
abbrev numbered : String → String → String → Session
numbered id access refresh = record {
  id = id;
  account_id = "a";
  device_id = "desk";
  access_token_hash = access;
  access_expires_at = 20;
  refresh_token_hash = refresh;
  token_family_id = "f";
  expires_at = 100;
  revoked_at = none;
  family_revoked_at = none;
  replaced_by_hash = "";
  rotated_at = none;
  created_at = 10;
  last_seen_at = some 10;
}

abbrev first : Session
first = numbered "s1" "x1" "y1"

abbrev second : Session
second = numbered "s2" "x2" "y2"

abbrev third : Session
third = numbered "s3" "x3" "y3"

abbrev history : List (Time × Call)
history = (1, creates_account owner) ∷ (10, creates_session first) ∷ []

abbrev repo : Repo
repo = record { accounts = ("a", owner) ∷ []; identities = []; sessions = ("s1", first) ∷ [] }

run-new_repo-Inv_example : Inv (run new_repo history)
run-new_repo-Inv_example = run-new_repo-Inv history

repo-Inv : Inv repo
unfolding run step Memory.create_account Memory.create_session lookup insert find is_blank
repo-Inv = run-new_repo-Inv history

run_keeps_sessions_example :
    Kept "s1" first (run repo ((12, revokes_session "s1" 12) ∷ [])).sessions
unfolding lookup
run_keeps_sessions_example =
    run_keeps_sessions repo ((12, revokes_session "s1" 12) ∷ []) "s1" first repo-Inv refl

abbrev renewed : Repo
renewed = (rotate_refresh repo "y1" second 12 12).0

rotate_refresh_ok_example :
    (id : String) × (current : Session) × (lookup id repo.sessions ≡ some current)
    × (current.refresh_token_hash ≡ "y1")
    × Exchangeable current second 12
    × Exchanged repo renewed id current second second 12
    × (second ≡ second)
unfolding rotate_refresh rotate_found exchanged lookup insert find
rotate_refresh_ok_example = rotate_refresh_ok repo renewed "y1" second second 12 12 repo-Inv refl

replay_revokes_family_example :
    let again = rotate_refresh (run renewed []) "y1" third 13 13 in
    (again.1 ≡ err refresh_replay) × FamilyRevoked again.0 "f"
unfolding rotate_refresh rotate_found exchanged lookup insert find
replay_revokes_family_example =
    replay_revokes_family repo renewed "y1" second second third 12 12 13 13 [] repo-Inv refl refl

abbrev dead : Repo
dead = run repo ((13, revokes_family "f" 13) ∷ [])

dead-FamilyRevoked : FamilyRevoked dead "f"
unfolding run step Memory.revoke_token_family update_all lookup
dead-FamilyRevoked = λ j u e q. ground (arith, e)

revoked_family_stays_dead_example :
    (rotate_refresh (run dead []) "y1" third 14 14).1 ≡ err refresh_replay
unfolding run step Memory.revoke_token_family update_all lookup
revoked_family_stays_dead_example =
    revoked_family_stays_dead dead "f" "s1"
      (record first { revoked_at = some 13; family_revoked_at = some 13 }) third 14 14 []
      (run-Inv repo ((13, revokes_family "f" 13) ∷ []) repo-Inv) dead-FamilyRevoked refl refl refl

abbrev hash : String → String
hash token = token

abbrev lifetimes : Config
lifetimes = record { access_token_ttl = 10; refresh_token_ttl = 90 }

authenticate_access_ok_example :
    ◌≡◌ {A = Repo} repo repo
    × (lookup "s1" repo.sessions ≡ some first)
    × ◌≡◌ {A = String} "x1" "x1"
    × (15 < 20)
    × ◌≡◌ {A = Option Time} none none
    × (a : Account) × (lookup "a" repo.accounts ≡ some a)
    × (account_active a ≡ true)
unfolding authenticate_access Memory.find_session_by_access_hash Memory.get_account account_active
    lookup find is_blank
authenticate_access_ok_example =
    authenticate_access_ok hash lifetimes repo repo "x1" 15 first repo-Inv refl

abbrev draws : Draws
draws = record { access = some "x2"; refresh = some "y2"; family = some "f2"; session = some "s2" }

abbrev granted : Session
granted = record second {
  access_expires_at = 30;
  token_family_id = "f2";
  expires_at = 110;
  created_at = 20;
  last_seen_at = some 20;
}

abbrev credentials : Credentials
credentials = record {
  session = granted;
  access_token = "x2";
  refresh_token = "y2";
  access_expires_at = 30;
  expires_at = 110;
}

abbrev granting : Repo
granting = record repo { sessions = ("s1", first) ∷ ("s2", granted) ∷ [] }

issue-authenticate_example :
    authenticate_access hash lifetimes "x2" 25 granting ≡ (granting, ok granted)
unfolding issue_session issued Memory.create_session Memory.get_account account_active lookup insert
    find is_blank
issue-authenticate_example =
    issue-authenticate hash lifetimes repo granting "a" "desk" draws 20 25 credentials refl refl
      refl (ground arith)

abbrev next : Session
next = record second { access_expires_at = 30; created_at = 20; last_seen_at = some 20 }

abbrev next_credentials : Credentials
next_credentials = record credentials { session = next; expires_at = 100 }

abbrev refreshed : Repo
refreshed = (refresh_at hash lifetimes "y1" draws 20 20 repo).0

refresh_keeps_end_example :
    (id : String) × (current : Session) × (a : Account) × (lookup id repo.sessions ≡ some current)
    × (current.refresh_token_hash ≡ "y1")
    × (lookup current.account_id repo.accounts ≡ some a)
    × (account_active a ≡ true)
    × Exchangeable current next 20
    × (lookup "s2" refreshed.sessions ≡ some next)
    × ◌≡◌ {A = String} "y2" "y2"
    × ◌≡◌ {A = String} "x2" "x2"
    × (100 ≡ current.expires_at)
    × (100 ≡ current.expires_at)
unfolding refresh_at live rotated replacement rotate_refresh rotate_found exchanged
    Memory.find_session_by_refresh_hash Memory.get_account account_active lookup insert find
    is_blank
refresh_keeps_end_example =
    refresh_keeps_end hash lifetimes repo refreshed "y1" draws 20 20 next_credentials repo-Inv refl

abbrev locked : Repo
locked = (revoke_account "a" 15 repo).0

-- A second account with a session of its own.
abbrev guest : Account
guest = record owner { id = "b"; display_name = "Bob" }

abbrev other : Session
other = record (numbered "s9" "x9" "y9") { account_id = "b"; token_family_id = "f9" }

abbrev crowd : Repo
crowd = record {
  accounts = ("a", owner) ∷ ("b", guest) ∷ [];
  identities = [];
  sessions = ("s1", first) ∷ ("s9", other) ∷ [];
}

crowd-Inv : Inv crowd
unfolding run step Memory.create_account Memory.create_session lookup insert find is_blank
crowd-Inv = run-Inv repo ((1, creates_account guest) ∷ (10, creates_session other) ∷ []) repo-Inv

abbrev left : Repo
left = (revoke_account "a" 15 crowd).0

authenticate_locked_out_example : ◌≢◌ {A = String} other.account_id "a"
unfolding revoke_account Memory.revoke_account Memory.mark_revoked Memory.revoke_account_sessions
    lookup insert update_all run authenticate_access Memory.find_session_by_access_hash
    Memory.get_account account_active find is_blank
authenticate_locked_out_example =
    authenticate_locked_out hash lifetimes crowd left "a" 15 [] crowd-Inv refl "x9" 16 other refl
