-- ===== src/Realtime/Handover.antt =====
-- outbox.go over a shared outbox: an id is completed only after it is published, and what is counted is
-- done. Other workers may act during each call, and a call that fails may have taken effect.
use alice_eve.Base.{
  ◌≡◌, refl, ap, true, ◌⊎◌, inl, inr, Bool, String, eqb, if◌then◌else◌, List, [], ◌∷◌, ℕ, ◌+◌, suc,
  arith, All, length,
}
use alice_eve.Base.Results.{Result, ok, err, Result-cases}
use alice_eve.Base.Int.{ℤ}
use alice_eve.Realtime.{Event}
use alice_eve.Realtime.Outbox.{
  OutboxRecord, lease_lost, external, Ports, lease_of, event_of, notified, dispatch_rows, dispatch,
}

-- What ever happened to the ids of the outbox, by any worker.
pub record View : Type 0 where
  pub published : String → Bool
  pub completed : String → Bool

-- What may happen to them: nothing is undone, and an id that is completed is published by then.
pub record Moves (v w : View) : Type 0 where
  pub stays_published : (id : String) → v.published id ≡ true → w.published id ≡ true
  pub stays_completed : (id : String) → v.completed id ≡ true → w.completed id ≡ true
  pub in_order :
      (id : String) → w.completed id ≡ true → (v.completed id ≡ true) ⊎ (w.published id ≡ true)

pub Moves-refl : (v : View) → Moves v v
Moves-refl v = record {
  stays_published = λ id h. h;
  stays_completed = λ id h. h;
  in_order = λ id h. inl h;
}

pub Moves-trans : (u v w : View) → Moves u v → Moves v w → Moves u w
Moves-trans u v w h k = record {
  stays_published = λ id p. k.stays_published id (h.stays_published id p);
  stays_completed = λ id c. k.stays_completed id (h.stays_completed id c);
  in_order = λ id c. elim (k.in_order id c) [
    | inr p ↦ inr p
    | inl before ↦ elim (h.in_order id before) [
      | inl c ↦ inl c
      | inr p ↦ inr (k.stays_published id p)
    ]
  ];
}

-- Every completed id is published.
abbrev pub IsSafe : View → Type 0
IsSafe v = (id : String) → v.completed id ≡ true → v.published id ≡ true

IsSafe-Moves : (v w : View) → Moves v w → IsSafe v → IsSafe w
IsSafe-Moves v w m safe = λ id c. elim (m.in_order id c) [
  | inl before ↦ m.stays_published id (safe id before)
  | inr p ↦ p
]

-- What the dispatcher relies on, whatever a call answers, and what an answer without an error says.
-- Completing is asked to keep the order only for an id that is published.
pub record Laws {S : Type 0} (ports : Ports S) (view : S → View) : Type 0 where
  pub claim :
      (s : S) (limit : ℤ) (now lease : ℕ) → Moves (view s) (view (ports.claim s limit now lease).0)
  pub publish :
      (s : S) (account device : String) (e : Event)
      → Moves (view s) (view (ports.publish s account device e).0)
  pub publish_ok :
      (s : S) (account device : String) (e stored : Event)
      → (ports.publish s account device e).1 ≡ ok stored
      → (view (ports.publish s account device e).0).published e.id ≡ true
  pub complete :
      (s : S) (id token : String)
      → (view s).published id ≡ true
      → Moves (view s) (view (ports.complete s id token).0)
  pub complete_ok :
      (s : S) (id token : String)
      → (ports.complete s id token).1 ≡ ok tt
      → (view (ports.complete s id token).0).completed id ≡ true
  pub fail :
      (s : S) (id token reason : String) (now : ℕ)
      → Moves (view s) (view (ports.fail s id token reason now).0)
  pub notify : (s : S) (row : OutboxRecord) → Moves (view s) (view (notified ports s row))

-- Some of the rows, in their order, each at most as often as it stands there.
pub data Some : List OutboxRecord → List OutboxRecord → Type 0 where
  no_rows : Some [] []
  without :
      {picked rows : List OutboxRecord} (row : OutboxRecord)
      → Some picked rows
      → Some picked (row ∷ rows)
  with_row :
      {picked rows : List OutboxRecord} (row : OutboxRecord)
      → Some picked rows
      → Some (row ∷ picked) (row ∷ rows)

Some-none : (rows : List OutboxRecord) → Some [] rows
Some-none [] = no_rows
Some-none (row ∷ rows) = without row (Some-none rows)

abbrev pub rows_of : Result String (List OutboxRecord) → List OutboxRecord
rows_of (ok rows) = rows
rows_of (err e) = []

abbrev pub IsDone : View → OutboxRecord → Type 0
IsDone v row = (v.published row.id ≡ true) × (v.completed row.id ≡ true)

IsDone-Moves : (v w : View) → Moves v w → (row : OutboxRecord) → IsDone v row → IsDone w row
IsDone-Moves v w m row d = (m.stays_published row.id d.0, m.stays_completed row.id d.1)

-- What a part of the loop does, from one view to another.
record Dispatched (v w : View) (rows : List OutboxRecord) (count : ℕ) : Type 0 where
  moves : Moves v w
  done : List OutboxRecord
  counted : length done ≡ count
  among : Some done rows
  finished : All (IsDone w) done

nothing_done : (v w : View) (rows : List OutboxRecord) → Moves v w → Dispatched v w rows 0
nothing_done v w rows m = record {
  moves = m;
  done = [];
  counted = refl;
  among = Some-none rows;
  finished = tt;
}

-- A row that is not counted, then the rest.
passed :
    (u v w : View) (row : OutboxRecord) (rows : List OutboxRecord) (count : ℕ)
    → Moves u v
    → Dispatched v w rows count
    → Dispatched u w (row ∷ rows) count
passed u v w row rows count m d = record {
  moves = Moves-trans u v w m d.moves;
  done = d.done;
  counted = d.counted;
  among = without row d.among;
  finished = d.finished;
}

-- A row that is done, then the rest.
completed :
    (u v w : View) (row : OutboxRecord) (rows : List OutboxRecord) (count : ℕ)
    → Moves u v
    → IsDone v row
    → Dispatched v w rows count
    → Dispatched u w (row ∷ rows) (suc count)
completed u v w row rows count m is d = record {
  moves = Moves-trans u v w m d.moves;
  done = row ∷ d.done;
  counted = ap suc d.counted;
  among = with_row row d.among;
  finished = (IsDone-Moves v w d.moves row is, d.finished);
}

module _ {S : Type 0} (ports : Ports S) (view : S → View) (laws : Laws ports view) where
  dispatch_rows-Dispatched :
      (now : ℕ) (s : S) (rows : List OutboxRecord) (before : ℕ)
      → let x = dispatch_rows ports now s rows before in
        (count : ℕ) × (x.1 ≡ before + count) × Dispatched (view s) (view x.0) rows count
  unfolding dispatch_rows
  dispatch_rows-Dispatched now s [] before =
      (0, omega arith, nothing_done (view s) (view s) [] (Moves-refl (view s)))
  dispatch_rows-Dispatched now s (row ∷ rows) before =
      let x = ports.publish s row.account_id row.target_device_id (event_of row) in
      let asked = laws.publish s row.account_id row.target_device_id (event_of row) in
      elim (Result-cases x.1) [
        | inr (e, refused) ↦
            let s' = (ports.fail x.0 row.id row.claim_token e now).0 in
            let (count, sum, rest) = dispatch_rows-Dispatched now s' rows before in
            let m =
              Moves-trans (view s) (view x.0) (view s') asked
                (laws.fail x.0 row.id row.claim_token e now) in
            rw (refused, dispatch_rows)
              (count, sum, passed (view s) (view s') _ row rows count m rest)
        | inl (stored, works) ↦
            let out =
              laws.publish_ok s row.account_id row.target_device_id (event_of row) stored works in
            let y = ports.complete x.0 row.id row.claim_token in
            let m =
              Moves-trans (view s) (view x.0) (view y.0) asked
                (laws.complete x.0 row.id row.claim_token out) in
            elim (Result-cases y.1) [
              | inl (u, fine) ↦
                  let s' = notified ports y.0 row in
                  let (count, sum, rest) = dispatch_rows-Dispatched now s' rows (suc before) in
                  let told = laws.notify y.0 row in
                  let kept = laws.complete x.0 row.id row.claim_token out in
                  let is : IsDone (view y.0) row = (
                    kept.stays_published row.id out,
                    laws.complete_ok x.0 row.id row.claim_token fine,
                  ) in
                  rw (works, fine, dispatch_rows)
                    (
                      suc count,
                      omega (arith, sum),
                      completed (view s) (view s') _ row rows count
                          (Moves-trans (view s) (view y.0) (view s') m told)
                          (IsDone-Moves (view y.0) (view s') told row is) rest,
                    )
              | inr (lease_lost, lost) ↦
                  let (count, sum, rest) = dispatch_rows-Dispatched now y.0 rows before in
                  rw (works, lost, dispatch_rows)
                    (count, sum, passed (view s) (view y.0) _ row rows count m rest)
              | inr (external e, lost) ↦
                  rw (works, lost, dispatch_rows)
                    (0, omega arith, nothing_done (view s) (view y.0) (row ∷ rows) m)
            ]
      ]

  -- Over an outbox in which no call undoes anything, an id that is completed is published by then, a
  -- publish without an error publishes its id, and a completion without an error completes its id: if
  -- every completed id is published before `Dispatch`, so it is after it, and as many of the claimed rows
  -- as it returns are both published and completed. A call that fails may have taken effect, and other
  -- workers that keep the order may act during each call. Nothing is asked of completing an id that is
  -- not published.
  pub dispatch-IsSafe :
      (s : S) (limit : ℤ) (now clock : ℕ) (lease : ℤ)
      → IsSafe (view s)
      → let claimed = ports.claim s limit (if eqb now 0 then clock else now) (lease_of lease) in
        let x = dispatch ports s limit now clock lease in
        IsSafe (view x.0)
        × (done : List OutboxRecord) × (length done ≡ x.1)
        × Some done (rows_of claimed.1)
        × All (IsDone (view x.0)) done
  unfolding dispatch
  dispatch-IsSafe s limit now clock lease safe =
      let at = if eqb now 0 then clock else now in
      let claimed = ports.claim s limit at (lease_of lease) in
      let begun = laws.claim s limit at (lease_of lease) in
      elim (Result-cases claimed.1) [
        | inr (e, refusal) ↦
            rw (refusal, dispatch)
              (IsSafe-Moves (view s) (view claimed.0) begun safe, [], refl, no_rows, tt)
        | inl (rows, comes) ↦
            let (count, sum, d) = dispatch_rows-Dispatched at claimed.0 rows 0 in
            let all = Moves-trans (view s) (view claimed.0) _ begun d.moves in
            rw (comes, dispatch)
              (
                IsSafe-Moves (view s) _ all safe,
                d.done,
                omega (arith, d.counted, sum),
                d.among,
                d.finished,
              )
      ]
