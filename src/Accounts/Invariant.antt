-- ===== src/Accounts/Invariant.antt =====
-- What holds of the repository between two calls: each map has one entry per key, a session stands
-- under its own id, belongs to a stored account, and no two sessions share a refresh token.
use alice_eve.Base.{
  ◌≡◌, refl, true, false, ◌==◌, eq_iff, none, some, String, arith, is_some, Bool-cases, inl, inr,
}
use alice_eve.Base.Dict.{
  Dict, lookup, insert, update_all, find, Distinct, lookup-insert, insert-Distinct,
  update_all-Distinct, find-none, lookup-update_all_inv,
}
use alice_eve.Accounts.{Account, Session, Repo}
use alice_eve.Accounts.Memory.{shares_token}

-- Facts about the session stored under an id.
pub record IsKept (accounts : Dict Account) (id : String) (s : Session) : Type 0 where
  pub keyed : s.id ≡ id
  pub named : (id == "") ≡ false
  pub owned : is_some (lookup s.account_id accounts) ≡ true

pub record Inv (r : Repo) : Type 0 where
  pub one_entry : Distinct r.sessions
  pub kept : (id : String) (s : Session) → lookup id r.sessions ≡ some s → IsKept r.accounts id s
  pub refresh_once :
      (i j : String) (s t : Session)
      → lookup i r.sessions ≡ some s
      → lookup j r.sessions ≡ some t
      → s.refresh_token_hash ≡ t.refresh_token_hash
      → i ≡ j

-- The fields that no call changes.
abbrev Same : Session → Session → Type 0
Same s t =
    (s.id ≡ t.id) × (s.account_id ≡ t.account_id) × (s.refresh_token_hash ≡ t.refresh_token_hash)

-- Each session of the new map comes from one of the old map, with those fields kept.
abbrev Origin : Dict Session → Dict Session → Type 0
Origin m n =
    (j : String) (u : Session)
    → lookup j n ≡ some u
    → (w : Session) × (lookup j m ≡ some w) × Same u w

Origin-Inv :
    (r : Repo) (n : Dict Session)
    → Distinct n
    → Origin r.sessions n
    → Inv r
    → Inv (record r { sessions = n })
Origin-Inv r n d from v = record {
  one_entry = d;
  kept = λ id s e. let (w, q, same) = from id s e in ground (arith, v.kept id w q);
  refresh_once = λ i j s t e e' h.
      let (w, q, same) = from i s e in
      let (w', q', same') = from j t e' in v.refresh_once i j w w' q q' (ground arith);
}

pub update_all-Inv :
    (r : Repo) (f : Session → Session)
    → ((s : Session) → Same (f s) s)
    → Inv r
    → Inv (record r { sessions = update_all f r.sessions })
update_all-Inv r f same v =
    Origin-Inv r (update_all f r.sessions) (update_all-Distinct f r.sessions v.one_entry)
      (λ j u e.
        let (w, q, p) = lookup-update_all_inv f j u r.sessions e in (w, q, ground (arith, same w)))
      v

pub replace-Inv :
    (r : Repo) (id : String) (s t : Session)
    → lookup id r.sessions ≡ some s
    → Same t s
    → Inv r
    → Inv (record r { sessions = insert id t r.sessions })
replace-Inv r id s t e same v =
    Origin-Inv r (insert id t r.sessions) (insert-Distinct id t r.sessions v.one_entry) from v
  where
    from : Origin r.sessions (insert id t r.sessions)
    from j u q = elim (Bool-cases (id == j)) [
      | inl here ↦ (s, ground (arith, eq_iff id j), ground (arith, lookup-insert id j t r.sessions))
      | inr there ↦ (u, ground (arith, lookup-insert id j t r.sessions), (refl, refl, refl))
    ]

-- A new session under a fresh id, of a stored account, that shares no token with a stored one.
pub insert-Inv :
    (r : Repo) (s : Session)
    → (s.id == "") ≡ false
    → is_some (lookup s.account_id r.accounts) ≡ true
    → lookup s.id r.sessions ≡ none
    → find (shares_token s) r.sessions ≡ none
    → Inv r
    → Inv (record r { sessions = insert s.id s r.sessions })
insert-Inv r s named owned free unshared v = record {
  one_entry = insert-Distinct s.id s r.sessions v.one_entry;
  kept = λ j u e. elim (Bool-cases (s.id == j)) [
    | inl here ↦ ground (arith, lookup-insert s.id j s r.sessions, eq_iff s.id j)
    | inr there ↦ ground (arith, lookup-insert s.id j s r.sessions, v.kept j u)
  ];
  refresh_once = λ i j u w e e' h. ground (
    arith,
    lookup-insert s.id i s r.sessions,
    lookup-insert s.id j s r.sessions,
    eq_iff s.id i,
    eq_iff s.id j,
    v.refresh_once i j u w,
    find-none (shares_token s) i u r.sessions unshared,
    find-none (shares_token s) j w r.sessions unshared,
    eq_iff u.refresh_token_hash s.refresh_token_hash,
    eq_iff w.refresh_token_hash s.refresh_token_hash,
  );
}

accounts-Inv :
    (r : Repo) (n : Dict Account)
    → ((id : String) → is_some (lookup id r.accounts) ≡ true → is_some (lookup id n) ≡ true)
    → Inv r
    → Inv (record r { accounts = n })
accounts-Inv r n grows v = record {
  one_entry = v.one_entry;
  kept = λ id s e.
      let k = v.kept id s e in
      record { keyed = k.keyed; named = k.named; owned = grows s.account_id k.owned };
  refresh_once = v.refresh_once;
}

pub put_account-Inv :
    (r : Repo) (k : String) (a : Account)
    → Inv r
    → Inv (record r { accounts = insert k a r.accounts })
put_account-Inv r k a =
    accounts-Inv r (insert k a r.accounts) (λ id h. ground (arith, lookup-insert k id a r.accounts))
