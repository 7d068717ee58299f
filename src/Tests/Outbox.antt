-- ===== src/Tests/Outbox.antt =====
-- The outbox dispatcher (relay-server/internal/realtime/outbox.go) over an outbox that loses one reply and
-- one lease, beside another worker.
use alice_eve.Base.{
  ◌≡◌, refl, true, false, ◌||◌, some, arith, eq_iff, eq_refl, length, All, String, ◌==◌,
  if◌then◌else◌, List, [], ◌∷◌, inl,
}
use alice_eve.Base.Results.{Result, ok, err}
use alice_eve.Base.Int.{pos}
use alice_eve.Realtime.{Event}
use alice_eve.Realtime.Outbox.{OutboxRecord, Failure, lease_lost, Ports, dispatch_rows, dispatch}
use alice_eve.Realtime.Handover.{
  View, Moves, Moves-refl, Moves-trans, Laws, IsSafe, IsDone, Some, dispatch-IsSafe,
}

abbrev mark_published : String → View → View
mark_published id v = record v { published = λ x. (id == x) || v.published x }

abbrev mark_completed : String → View → View
mark_completed id v = record v { completed = λ x. (id == x) || v.completed x }

record Box : Type 0 where
  rows : List OutboxRecord
  view : View

-- The reply of one event is lost, after it was published.
abbrev publish : Box → String → String → Event → Box × Result String Event
publish b account device e =
    (record b { view = mark_published e.id b.view }, if e.id == "lost" then err "closed" else ok e)

-- Where the lease is stale, another worker has completed the row.
abbrev complete : Box → String → String → Box × Result Failure (Unit {0})
complete b id token = (
  record b { view = mark_completed id b.view },
  if token == "stale" then err lease_lost else ok tt,
)

-- Another worker publishes and completes a row meanwhile.
abbrev meanwhile : Box → Box
meanwhile b = record b { view = mark_completed "other" (mark_published "other" b.view) }

abbrev ports : Ports Box
ports = record {
  claim = λ b limit now lease. (b, ok b.rows);
  complete = complete;
  fail = λ b id token reason now. (meanwhile b, ok tt);
  publish = publish;
  notify = some (λ b wakeup. (meanwhile b, err "nobody listens"));
}

mark_published-Moves : (id : String) (v : View) → Moves v (mark_published id v)
mark_published-Moves id v = record {
  stays_published = λ other h. ground (arith, h);
  stays_completed = λ other h. h;
  in_order = λ other h. inl h;
}

mark_completed-Moves :
    (id : String) (v : View) → v.published id ≡ true → Moves v (mark_completed id v)
mark_completed-Moves id v out = record {
  stays_published = λ other h. h;
  stays_completed = λ other h. ground (arith, h);
  in_order = λ other h. ground (arith, h, out, eq_iff id other);
}

meanwhile-Moves : (b : Box) → Moves b.view (meanwhile b).view
meanwhile-Moves b =
    Moves-trans _ _ _ (mark_published-Moves "other" b.view) (
      mark_completed-Moves "other" (mark_published "other" b.view)
        (ground (arith, eq_refl "other")))

ports-Laws : Laws ports (λ b. b.view)
ports-Laws = record {
  claim = λ b limit now lease. Moves-refl b.view;
  publish = λ b account device e. mark_published-Moves e.id b.view;
  publish_ok = λ b account device e stored h. ground (arith, eq_refl e.id);
  complete = λ b id token out. mark_completed-Moves id b.view out;
  complete_ok = λ b id token h. ground (arith, eq_refl id);
  fail = λ b id token reason now. meanwhile-Moves b;
  notify = λ b row. meanwhile-Moves b;
}

abbrev row : String → String → OutboxRecord
row id token = record {
  id = id;
  account_id = "a";
  target_device_id = "phone";
  type = "message";
  payload = "{}";
  created_at = 1;
  attempt_count = pos 1;
  claim_token = token;
}

abbrev box : Box
box = record {
  rows = row "e1" "t" ∷ row "lost" "t" ∷ row "e2" "stale" ∷ row "e3" "t" ∷ [];
  view = record { published = λ id. false; completed = λ id. false };
}

two_completed : (dispatch ports box (pos 10) 5 0 (pos 0)).1 ≡ 2
unfolding dispatch dispatch_rows
two_completed = refl

dispatch-IsSafe_example :
    let x = dispatch ports box (pos 10) 5 0 (pos 0) in
    IsSafe x.0.view
    × (done : List OutboxRecord) × (length done ≡ x.1)
    × Some done box.rows
    × All (IsDone x.0.view) done
dispatch-IsSafe_example =
    dispatch-IsSafe ports (λ b. b.view) ports-Laws box (pos 10) 5 0 (pos 0)
      (λ id h. absurd (ground (arith, h)))
