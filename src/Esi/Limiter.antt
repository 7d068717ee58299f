-- ===== src/Esi/Limiter.antt =====
-- limiter.go: `Limiter`, which spaces or holds requests by the error budget that ESI reports.
use alice_eve.Base.{
  Bool, false, ◌||◌, ◌&&◌, Option, none, some, String, if◌then◌else◌, ℕ, ◌+◌, ◌-◌, ltb, eqb,
}
use alice_eve.Base.Results.{Result, ok, err}
use alice_eve.Base.Int.{ℤ, pos, leb_ℤ, ltb_ℤ, eqb_ℤ, pos_part, neg_part}
use alice_eve.Esi.{Response}

pub data Refusal : Type 0 where
  wait_exceeded : Refusal
  cancelled : String → Refusal

pub record Limiter : Type 0 where
  pub max_wait : ℕ
  pub remain : ℤ
  pub until : ℕ
  pub next_slow : ℕ
  pub known : Bool

abbrev pub degraded_delay : ℕ
degraded_delay = 250000000

abbrev pub default_max_wait : ℕ
default_max_wait = 120000000000

abbrev pub new : ℤ → Limiter
new max_wait = record {
  max_wait = if leb_ℤ max_wait (pos 0) then default_max_wait else pos_part max_wait;
  remain = pos 0;
  until = 0;
  next_slow = 0;
  known = false;
}

-- `if b.After(a) { a = b }`.
abbrev pub later : ℕ → ℕ → ℕ
later a b = if ltb a b then b else a

-- `now.Add(d)`.
abbrev pub add_time : ℕ → ℤ → ℕ
add_time now d = (now + pos_part d) - neg_part d

-- Between 20 and 50 requests remain.
abbrev pub is_degraded : Limiter → Bool
is_degraded l = l.known && leb_ℤ (pos 20) l.remain && leb_ℤ l.remain (pos 50)

abbrev pub is_held : Limiter → ℕ → Bool
is_held l now = ltb now l.until

-- The part of `Wait` under the lock: what it leaves, and how long to wait.
unfoldable pub plan : Limiter → ℕ → Limiter × ℕ
plan l now =
    let start = later now l.next_slow in
    if is_held l now
    then (l, l.until - now)
    else if is_degraded l
    then (record l { next_slow = start + degraded_delay }, start - now)
    else (l, 0)

-- `Wait` at the time `now`: the time at which the request may start. `ends d` is the error of the context
-- if it is done before `d` nanoseconds are over.
unfoldable pub wait : Limiter → ℕ → (ℕ → Option String) → Limiter × Result Refusal ℕ
wait l now ends =
    let p = plan l now in
    (
      p.0,
      (if eqb p.1 0
          then ok now
          else if ltb l.max_wait p.1
          then err wait_exceeded
          else elim (ends p.1) [ some e ↦ err (cancelled e) | none ↦ ok (now + p.1) ]),
    )

-- The time of the next reset, where the budget is nearly spent.
abbrev pub hold_for_reset : Limiter → ℕ → Response → ℕ
hold_for_reset l now meta =
    if meta.error_limit_reset_set
      && meta.error_limit_remain_set
      && ltb_ℤ meta.error_limit_remain (pos 20)
    then later l.until (add_time now meta.error_limit_reset)
    else l.until

abbrev pub hold_for_retry : ℕ → ℕ → Response → ℕ
hold_for_retry until now meta =
    if (eqb_ℤ meta.status_code (pos 420) || eqb_ℤ meta.status_code (pos 429))
      && meta.retry_after_set
    then later until (if eqb meta.retry_at 0 then add_time now meta.retry_after else meta.retry_at)
    else until

unfoldable pub observe : Limiter → ℕ → Response → Limiter
observe l now meta =
    let until = hold_for_retry (hold_for_reset l now meta) now meta in
    record l {
      remain = if meta.error_limit_remain_set then meta.error_limit_remain else l.remain;
      known = meta.error_limit_remain_set || l.known;
      until = if ltb now until then until else 0;
    }
