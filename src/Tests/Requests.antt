-- ===== src/Tests/Requests.antt =====
-- The client of EVE's API (relay-server/internal/esi) at concrete inputs.
use alice_eve.Base.{◌≡◌, refl, Bool, true, false, Option, none, some, String, List, [], ◌∷◌, ℕ}
use alice_eve.Base.Results.{ok}
use alice_eve.Base.Int.{pos}
use alice_eve.Esi.{Response}
use alice_eve.Esi.Limiter.{new, plan, wait, observe}
use alice_eve.Esi.Spacing.{Event, waits, observes, slots, Spaced, slots-Spaced}
use alice_eve.Esi.Client.{Client, State, Call, no_response, get_json}
use alice_eve.Esi.Budget.{IsServed, get_json-IsServed}

abbrev nearly_spent : Response
nearly_spent = record no_response {
  status_code = pos 200;
  error_limit_remain = pos 30;
  error_limit_remain_set = true;
}

abbrev calm : ℕ → Option String
calm d = none

abbrev events : List Event
events = observes 1000 nearly_spent ∷ waits 1000 calm ∷ waits 1000 calm ∷ waits 900000000 calm ∷ []

two_wait : slots (new (pos 0)) events ≡ 1000 ∷ 250001000 ∷ 900000000 ∷ []
unfolding slots observe wait plan
two_wait = refl

slots-Spaced_example : Spaced 0 (slots (new (pos 0)) events)
slots-Spaced_example = slots-Spaced (new (pos 0)) events

-- With 30 requests left and a hold in force, two requests that ask one after the other start together, when
-- the hold ends.
held_start_together :
    let held = record (new (pos 0)) { remain = pos 30; known = true; until = 5000 } in
    let first = wait held 1000 calm in (first.1 ≡ ok 5000) × ((wait first.0 2000 calm).1 ≡ ok 5000)
unfolding wait plan
held_start_together = (refl, refl)

abbrev client : Client
client = record { user_agent = "alice"; max_body_bytes = pos 0 }

abbrev state : State
state = record { limiter = new (pos 0); cache = some [] }

-- The answer says that no request remains.
abbrev call : Call
call = record {
  url = ok "u";
  request = none;
  now = 1000;
  ends = calm;
  answer = ok (record {
    meta = record no_response { status_code = pos 200; error_limit_remain_set = true };
    body = ok "[]";
  });
  timed_out = false;
  answered_at = 2000;
  cache_get_fault = none;
  cache_put_fault = none;
}

abbrev decodes : String → String → Bool
decodes url body = true

get_json-IsServed_example : IsServed decodes client state "u" (get_json decodes state client call)
get_json-IsServed_example = get_json-IsServed decodes client state call "u" refl tt
