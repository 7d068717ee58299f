-- ===== src/Market/Jobs.antt =====
-- schedule.go and scheduler.go: what a job may be, how long a region waits for its next one, and how the
-- end of a collection is recorded.
use Prim.Native.Char.{Char}
use alice_eve.Base.{
  ◌≡◌, refl, Bool, true, ◌||◌, ◌&&◌, not, Option, none, some, String, ◌==◌, if◌then◌else◌, ℕ, ◌+◌,
  ◌-◌, ◌*◌, ◌≤◌, ltb, is_none, arith, Bool-cases, inl, inr,
}
use alice_eve.Base.Int.{ℤ, pos, leb_ℤ, ltb_ℤ, eqb_ℤ, negsuc}
use alice_eve.Base.Text.{trim_space}
use alice_eve.Base.Split.{byte_length}
use alice_eve.Market.{valid_region}

abbrev pub second : ℕ
second = 1000000000

abbrev pub minute : ℕ
minute = 60 * second

abbrev pub max_claim_batch : ℕ
max_claim_batch = 100

abbrev pub max_failure_detail : ℕ
max_failure_detail = 2048

abbrev pub valid_trigger : String → Bool
valid_trigger t =
    t == "scheduler"
    || t == "user_priority_refresh"
    || t == "startup_recovery"
    || t == "manual_admin"
    || t == "stale_snapshot"

-- `validateEnqueue` returns no error.
unfoldable pub validate_enqueue :
    (region_id priority : ℤ) → (trigger account_id : String) → (at : Option ℕ) → Bool
validate_enqueue region_id priority trigger account_id at =
    not (
      not (valid_region region_id)
      || ltb_ℤ priority (negsuc 999999)
      || ltb_ℤ (pos 1000000) priority
      || not (valid_trigger trigger)
      || is_none at)
    && trim_space account_id == account_id

abbrev pub valid_lease : ℤ → Bool
valid_lease lease = leb_ℤ (pos second) lease && leb_ℤ lease (pos (60 * minute))

-- The text up to a number of bytes, without a character that is cut in two.
unfoldable pub truncate_utf8 : String → ℕ → String
truncate_utf8 String.[] max = ""
truncate_utf8 (String.◌∷◌ c s) max =
    let width = byte_length (String.◌∷◌ c "") in
    let rest = truncate_utf8 s (max - width) in if ltb max width then "" else String.◌∷◌ c rest

unfoldable pub tier_interval : String → ℕ
tier_interval tier =
    if tier == "A"
    then 12 * minute
    else if tier == "B"
    then 45 * minute
    else if tier == "C"
    then 120 * minute
    else 720 * minute

-- The entry of `steps` behind `failures`, between the first and the last.
unfoldable pub failure_backoff : ℤ → ℕ
failure_backoff failures =
    if leb_ℤ failures (pos 1)
    then minute
    else if eqb_ℤ failures (pos 2)
    then 3 * minute
    else if eqb_ℤ failures (pos 3)
    then 10 * minute
    else if eqb_ℤ failures (pos 4)
    then 30 * minute
    else if eqb_ℤ failures (pos 5)
    then 60 * minute
    else 120 * minute

-- `jittered` is the interval with its jitter, in floating point.
abbrev pub next_run : (at jittered : ℕ) → (failures : ℤ) → ℕ
next_run at jittered failures =
    if ltb_ℤ (pos 0) failures then at + failure_backoff failures else at + jittered

-- `SchedulerConfig`, before the defaults.
pub record SchedulerConfig : Type 0 where
  pub poll_interval : ℤ
  pub lease : ℤ
  pub max_regions : ℤ
  pub batch_size : ℤ

abbrev pub or_value : ℤ → ℤ → ℤ
or_value n default = if eqb_ℤ n (pos 0) then default else n

abbrev pub with_defaults : SchedulerConfig → SchedulerConfig
with_defaults c = record {
  poll_interval = or_value c.poll_interval (pos (5 * second));
  lease = or_value c.lease (pos (2 * minute));
  max_regions = or_value c.max_regions (pos 2);
  batch_size = or_value c.batch_size (pos max_claim_batch);
}

-- `NewScheduler`, with its dependencies in place.
unfoldable pub new_scheduler : SchedulerConfig → Option SchedulerConfig
new_scheduler given =
    let c = with_defaults given in
    if leb_ℤ c.poll_interval (pos 0)
      || not (valid_lease c.lease)
      || ltb_ℤ c.max_regions (pos 1)
      || ltb_ℤ c.batch_size (pos 1)
      || ltb_ℤ (pos max_claim_batch) c.batch_size
    then none
    else some c

-- The backoff grows with the failures, from a minute to two hours.
pub failure_backoff_grows :
    (m n : ℤ)
    → leb_ℤ m n ≡ true
    → (failure_backoff m ≤ failure_backoff n)
      × (minute ≤ failure_backoff m)
      × (failure_backoff n ≤ 120 * minute)
unfolding failure_backoff
failure_backoff_grows m n h = ground (arith, h)

byte_length-cons :
    (c : Char) (s : String)
    → byte_length (String.◌∷◌ c s) ≡ byte_length (String.◌∷◌ c "") + byte_length s
unfolding byte_length
byte_length-cons c s = omega arith

byte_length_empty : byte_length "" ≡ 0
unfolding byte_length
byte_length_empty = refl

-- A text is cut to the bytes that it may take.
pub truncate_utf8_bounded : (s : String) (max : ℕ) → byte_length (truncate_utf8 s max) ≤ max
unfolding truncate_utf8
truncate_utf8_bounded String.[] max = omega (arith, byte_length_empty)
truncate_utf8_bounded (String.◌∷◌ c s) max =
    let width = byte_length (String.◌∷◌ c "") in
    let rest = truncate_utf8_bounded s (max - width) in
    elim (Bool-cases (ltb max width)) [
      | inl over ↦ rw over (omega (arith, byte_length_empty))
      | inr fits ↦
          let room : width ≤ max = ground (arith, fits) in
          let sum = byte_length-cons c (truncate_utf8 s (max - width)) in
          rw fits (omega (arith, sum, rest, room))
    ]
