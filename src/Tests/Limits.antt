-- ===== src/Tests/Limits.antt =====
-- The rate limiter (relay-server/internal/realtime/hub.go) at concrete inputs.
use alice_eve.Base.{◌≡◌, refl, String, arith, List, [], ◌∷◌, ◌+◌}
use alice_eve.Base.Results.{ok}
use alice_eve.Base.Dict.{lookup, insert}
use alice_eve.RateLimit.{Limiter, Time, hub_allow, conversation_retry, allow_with, drop_old}
use alice_eve.RateLimit.Window.{Spaced, run, run-empty-Spaced}
use alice_eve.RateLimit.Hint.{hub_retry_suffices}

abbrev calls : List (String × Time)
calls = ("a", 1) ∷ ("b", 2) ∷ ("a", 3) ∷ ("a", 4) ∷ ("a", 12) ∷ []

-- Two calls pass within ten time units.
run-empty-Spaced_example : Spaced 2 10 (run (conversation_retry 10) 2 10 "a" ([], []) calls).1
run-empty-Spaced_example = run-empty-Spaced (conversation_retry 10) 2 10 "a" calls (ground arith)

abbrev full : Limiter
full = ("a", 3 ∷ []) ∷ []

hub_retry_suffices_example : (hub_allow full "a" 1 10 (5 + 8)).1 ≡ ok tt
unfolding hub_allow allow_with lookup insert drop_old
hub_retry_suffices_example =
    hub_retry_suffices full full "a" 1 10 8 5 (ground arith) (ground arith) refl
