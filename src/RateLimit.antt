-- ===== src/RateLimit.antt =====
-- The sliding-window rate limiter. The type `rateLimiter` stands twice in the repository, in
-- relay-server/internal/realtime/hub.go and in relay-server/internal/conversations/conversations.go;
-- the two differ in the retry hint alone, so that is an argument of the shared code.
--
-- Times and durations are nanoseconds. `t.After(now.Add(-window))` is `now < t + window`.
pub mod Window
pub mod Hint
use alice_eve.Base.{
  ◌≡◌, Bool, Option, none, some, String, if◌then◌else◌, List, [], ◌∷◌, ◌++◌, ℕ, ◌+◌, ◌-◌, leb,
  length,
}
use alice_eve.Base.Results.{Result, ok, err}
use alice_eve.Base.Dict.{Dict, lookup, insert}

abbrev pub Time : Type 0
Time = ℕ

-- `RateLimitError`, or the panic of an index out of range.
pub data Refusal : Type 0 where
  retry_after : ℕ → Refusal
  panics : Refusal

-- `stamps`, by key.
abbrev pub Limiter : Type 0
Limiter = Dict (List Time)

-- The stamps of a key; a missing key has none.
abbrev pub or_empty : Option (List Time) → List Time
or_empty none = []
or_empty (some stamps) = stamps

-- The loop over `first`: the oldest stamps go, up to the first one inside the window.
unfoldable pub drop_old : ℕ → Time → List Time → List Time
drop_old window now [] = []
drop_old window now (s ∷ stamps) =
    if leb (s + window) now then drop_old window now stamps else s ∷ stamps

-- `retry` is the hint, from the stamps that are left.
unfoldable pub allow_with :
    (List Time → Refusal) → Limiter → String → ℕ → ℕ → Time → Limiter × Result Refusal (Unit {0})
allow_with retry l key max window now =
    let stamps = drop_old window now (or_empty (lookup key l)) in
    if leb max (length stamps)
    then (insert key stamps l, err (retry stamps))
    else (insert key (stamps ++ now ∷ []) l, ok tt)

-- A negative wait counts as 0, as subtraction on ℕ gives it.
abbrev pub hub_retry : ℕ → Time → List Time → Refusal
hub_retry window now [] = panics
hub_retry window now (s ∷ stamps) = retry_after (s + window - now)

abbrev pub conversation_retry : ℕ → Time → List Time → Refusal
conversation_retry window now [] = retry_after window
conversation_retry window now (s ∷ stamps) = retry_after (s + window - now)

-- `allow` of hub.go.
unfoldable pub hub_allow : Limiter → String → ℕ → ℕ → Time → Limiter × Result Refusal (Unit {0})
hub_allow l key max window now = allow_with (hub_retry window now) l key max window now

-- `allow` of conversations.go.
unfoldable pub conversation_allow :
    Limiter → String → ℕ → ℕ → Time → Limiter × Result Refusal (Unit {0})
conversation_allow l key max window now =
    allow_with (conversation_retry window now) l key max window now
