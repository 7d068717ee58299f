-- ===== src/Esi.antt =====
-- relay-server/internal/esi: the client of EVE's API. This file has what a response says of the error
-- budget; the children have the shared limiter, the two kinds of request, and what holds of them.
--
-- Times are nanoseconds since Go's zero time, which is 0; durations are nanoseconds. Headers are read
-- before: a `Response` is what `responseMetadata` makes of them.
pub mod Limiter
pub mod Spacing
pub mod Client
pub mod Budget
use alice_eve.Base.{Bool, Option, String, ℕ}
use alice_eve.Base.Int.{ℤ}

-- The fields of `Response`.
pub record Response : Type 0 where
  pub status_code : ℤ
  pub from_cache : Bool
  pub etag : String
  pub expires_at : ℕ
  pub pages : ℤ
  pub error_limit_remain : ℤ
  pub error_limit_reset : ℤ
  pub error_limit_remain_set : Bool
  pub error_limit_reset_set : Bool
  pub retry_after : ℤ
  pub retry_at : ℕ
  pub retry_after_set : Bool
