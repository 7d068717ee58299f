-- ===== src/Accounts/Permanence.antt =====
-- Sessions are never dropped: a call changes a stored session only by revoking it or by marking it
-- as rotated, and a time of revocation that is set stays.
use alice_eve.Base.{
  ◌≡◌, refl, Bool, true, ◌==◌, eq_iff, Option, none, some, String, arith, is_some, Bool-cases,
  Option-cases, inl, inr, List, [], ◌∷◌, ◌∙◌,
}
use alice_eve.Base.Dict.{
  Dict, lookup, insert, update_all, find, lookup-insert, find-lookup, lookup-update_all-some,
}
use alice_eve.Accounts.{Time, Session, Repo}
use alice_eve.Accounts.Memory.{
  or_time, create_account, create_identity, revoke_account, create_session, revoke_session,
  revoke_device_sessions, revoke_token_family, revoke_account_sessions, by_refresh, revoke_if,
  revoke_family, revoke_family_if, of_account, of_device, of_family,
}
use alice_eve.Accounts.Rotation.{rotate_refresh, rotate_found, rotated_out, exchanged}
use alice_eve.Accounts.Invariant.{Inv}
use alice_eve.Accounts.Calls.{
  Call, creates_account, creates_identity, revokes_account, creates_session, rotates,
  revokes_session, revokes_device, revokes_family, revokes_sessions, step, run, step-Inv,
}

-- How a session may look after further calls.
pub record Later (s s' : Session) : Type 0 where
  pub same_id : s'.id ≡ s.id
  pub same_account : s'.account_id ≡ s.account_id
  pub same_family : s'.token_family_id ≡ s.token_family_id
  pub same_refresh : s'.refresh_token_hash ≡ s.refresh_token_hash
  pub same_access : s'.access_token_hash ≡ s.access_token_hash
  pub same_expiry : s'.expires_at ≡ s.expires_at
  pub stays_revoked : (t : Time) → s.revoked_at ≡ some t → s'.revoked_at ≡ some t
  pub stays_family_revoked :
      (t : Time) → s.family_revoked_at ≡ some t → s'.family_revoked_at ≡ some t
  pub stays_rotated : is_some s.rotated_at ≡ true → is_some s'.rotated_at ≡ true

abbrev pub Kept : String → Session → Dict Session → Type 0
Kept id s n = (s' : Session) × (lookup id n ≡ some s') × Later s s'

pub record Grows (m n : Dict Session) : Type 0 where
  pub later : (id : String) (s : Session) → lookup id m ≡ some s → Kept id s n

Later-refl : (s : Session) → Later s s
Later-refl s = record {
  same_id = refl;
  same_account = refl;
  same_family = refl;
  same_refresh = refl;
  same_access = refl;
  same_expiry = refl;
  stays_revoked = λ t e. e;
  stays_family_revoked = λ t e. e;
  stays_rotated = λ e. e;
}

Later-trans : (s t u : Session) → Later s t → Later t u → Later s u
Later-trans s t u h k = record {
  same_id = k.same_id ∙ h.same_id;
  same_account = k.same_account ∙ h.same_account;
  same_family = k.same_family ∙ h.same_family;
  same_refresh = k.same_refresh ∙ h.same_refresh;
  same_access = k.same_access ∙ h.same_access;
  same_expiry = k.same_expiry ∙ h.same_expiry;
  stays_revoked = λ x e. k.stays_revoked x (h.stays_revoked x e);
  stays_family_revoked = λ x e. k.stays_family_revoked x (h.stays_family_revoked x e);
  stays_rotated = λ e. k.stays_rotated (h.stays_rotated e);
}

Grows-refl : (m : Dict Session) → Grows m m
Grows-refl m = record { later = λ id s e. (s, e, Later-refl s) }

Grows-trans : (m n o : Dict Session) → Grows m n → Grows n o → Grows m o
Grows-trans m n o h k = record {
  later = λ id s e.
      let (s', e', l') = h.later id s e in
      let (s'', e'', l'') = k.later id s' e' in (s'', e'', Later-trans s s' s'' l' l'');
}

update_all-Grows :
    (f : Session → Session) (m : Dict Session)
    → ((s : Session) → Later s (f s))
    → Grows m (update_all f m)
update_all-Grows f m l = record { later = λ id s e. (f s, lookup-update_all-some f id s m e, l s) }

replace-Grows :
    (k : String) (s t : Session) (m : Dict Session)
    → lookup k m ≡ some s
    → Later s t
    → Grows m (insert k t m)
replace-Grows k s t m stored l = record {
  later = λ id u e. elim (Bool-cases (k == id)) [
    | inl here ↦ (t, ground (arith, lookup-insert k id t m), here_Later id u e here)
    | inr there ↦ (u, ground (arith, lookup-insert k id t m), Later-refl u)
  ];
}
  where
    here_Later : (id : String) (u : Session) → lookup id m ≡ some u → (k == id) ≡ true → Later u t
    here_Later id u e here = let same : s ≡ u = ground (arith, eq_iff k id) in rw (← same) l

insert-Grows :
    (k : String) (t : Session) (m : Dict Session) → lookup k m ≡ none → Grows m (insert k t m)
insert-Grows k t m free = record {
  later = λ id u e. (u, ground (arith, lookup-insert k id t m, eq_iff k id), Later-refl u);
}

revoke_if-Later : (p : Session → Bool) (now : Time) (s : Session) → Later s (revoke_if p now s)
revoke_if-Later p now s = ground arith

revoke_family_if-Later :
    (p : Session → Bool) (now : Time) (s : Session) → Later s (revoke_family_if p now s)
revoke_family_if-Later p now s = ground arith

revoke_all-Grows :
    (p : Session → Bool) (now : Time) (m : Dict Session) → Grows m (update_all (revoke_if p now) m)
revoke_all-Grows p now m = update_all-Grows (revoke_if p now) m (revoke_if-Later p now)

revoke_family-Grows :
    (r : Repo) (family : String) (now : Time)
    → Grows r.sessions (revoke_family r family now).sessions
revoke_family-Grows r family now =
    update_all-Grows _ r.sessions (revoke_family_if-Later (of_family family) now)

exchanged-Grows :
    (r : Repo) (id : String) (current replacement : Session) (now : Time)
    → lookup id r.sessions ≡ some current
    → current.revoked_at ≡ none
    → lookup replacement.id r.sessions ≡ none
    → Grows r.sessions (exchanged r id current replacement now).sessions
unfolding exchanged
exchanged-Grows r id current replacement now stored live free =
    Grows-trans _ _ _
      (replace-Grows id current (rotated_out current replacement now) r.sessions stored
        (ground arith))
      (insert-Grows replacement.id _ _ (
        ground (
          arith,
          lookup-insert id replacement.id (rotated_out current replacement now) r.sessions,
          eq_iff id replacement.id,
        )))

rotate_found-Grows :
    (r : Repo) (id : String) (current replacement : Session) (now : Time)
    → lookup id r.sessions ≡ some current
    → Grows r.sessions (rotate_found r id current replacement now).0.sessions
unfolding rotate_found
rotate_found-Grows r id current replacement now stored = ground (
  arith,
  exchanged-Grows r id current replacement now stored,
  revoke_family-Grows r current.token_family_id now,
  Grows-refl r.sessions,
)

rotate_refresh-Grows :
    (r : Repo) (presented : String) (replacement : Session) (now clock : Time)
    → Inv r
    → Grows r.sessions (rotate_refresh r presented replacement now clock).0.sessions
unfolding rotate_refresh
rotate_refresh-Grows r presented replacement now clock v =
    elim (Option-cases (find (by_refresh presented) r.sessions)) [
      | inl e ↦ ground (arith, Grows-refl r.sessions)
      | inr ((id, current), e) ↦
          let stored = (find-lookup (by_refresh presented) id current r.sessions v.one_entry e).0 in
          ground (
            arith,
            rotate_found-Grows r id current replacement (or_time now clock) stored,
            Grows-refl r.sessions,
          )
    ]

revoke_session-Grows :
    (r : Repo) (id : String) (now clock : Time)
    → Grows r.sessions (revoke_session r id now clock).0.sessions
unfolding revoke_session
revoke_session-Grows r id now clock = elim (Option-cases (lookup id r.sessions)) [
  | inl e ↦ rw (e, revoke_session) (Grows-refl r.sessions)
  | inr (s, e) ↦
      rw (e, revoke_session) (replace-Grows id s _ r.sessions e (revoke_if-Later (λ _. true) _ s))
]

-- Each call keeps every stored session: its id, account, token family, tokens and expiry are as
-- they were, and a time of revocation, its own or the family's, stays once it is set.
pub step-Grows : (r : Repo) (c : Time × Call) → Inv r → Grows r.sessions (step r c).sessions
unfolding step create_account create_identity revoke_account create_session revoke_token_family
    revoke_device_sessions revoke_account_sessions
step-Grows r (clock, creates_account a) v = ground (arith, Grows-refl r.sessions)
step-Grows r (clock, creates_identity i) v = ground (arith, Grows-refl r.sessions)
step-Grows r (clock, revokes_account id now) v =
    ground (
      arith,
      Grows-refl r.sessions,
      revoke_all-Grows (of_account id) (or_time now clock) r.sessions,
    )
step-Grows r (clock, creates_session s) v = ground (
  arith,
  Grows-refl r.sessions,
  insert-Grows s.id (record s { created_at = or_time s.created_at clock }) r.sessions,
)
step-Grows r (clock, rotates h s now) v = rotate_refresh-Grows r h s now clock v
step-Grows r (clock, revokes_session id now) v = revoke_session-Grows r id now clock
step-Grows r (clock, revokes_device a d now) v =
    ground (
      arith,
      Grows-refl r.sessions,
      revoke_all-Grows (of_device a d) (or_time now clock) r.sessions,
    )
step-Grows r (clock, revokes_family f now) v =
    ground (arith, Grows-refl r.sessions, revoke_family-Grows r f (or_time now clock))
step-Grows r (clock, revokes_sessions a now) v =
    ground
      (arith, Grows-refl r.sessions, revoke_all-Grows (of_account a) (or_time now clock) r.sessions)

run-Grows : (r : Repo) (cs : List (Time × Call)) → Inv r → Grows r.sessions (run r cs).sessions
unfolding run
run-Grows r [] v = Grows-refl r.sessions
run-Grows r (c ∷ cs) v =
    Grows-trans _ (step r c).sessions _ (step-Grows r c v)
      (run-Grows (step r c) cs (step-Inv r c v))

-- From a repository that satisfies the invariant, after any further calls, a stored session is
-- still there, with its id, account, token family, tokens and expiry, any time of revocation that
-- it had, and its mark if it was rotated.
pub run_keeps_sessions :
    (r : Repo) (cs : List (Time × Call)) (id : String) (s : Session)
    → Inv r
    → lookup id r.sessions ≡ some s
    → Kept id s (run r cs).sessions
run_keeps_sessions r cs id s v = (run-Grows r cs v).later id s

pub is_some_stays :
    (o o' : Option Time)
    → ((t : Time) → o ≡ some t → o' ≡ some t)
    → is_some o ≡ true
    → is_some o' ≡ true
is_some_stays none o' f h = absurd (ground arith)
is_some_stays (some t) o' f h = ground (arith, f t refl)
