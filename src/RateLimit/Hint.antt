-- ===== src/RateLimit/Hint.antt =====
-- The retry hint of a refusal is honest: the same call passes once that time has gone by.
use alice_eve.Base.{
  ap, ◌≡◌, refl, eq_refl, some, String, arith, List, [], ◌∷◌, ℕ, ◌+◌, ◌≤◌, ◌<◌, length,
}
use alice_eve.Base.Results.{ok, err}
use alice_eve.Base.Dict.{lookup, lookup-insert}
use alice_eve.RateLimit.{Time, Limiter, or_empty, drop_old, allow_with, retry_after, hub_allow}
use alice_eve.RateLimit.Window.{length-drop_old-le}

-- What the loop leaves in front lies inside the window.
head_inside :
    (window : ℕ) (now s : Time) (stamps rest : List Time)
    → drop_old window now stamps ≡ s ∷ rest
    → now < s + window
unfolding drop_old
head_inside window now s [] rest e = absurd (ground arith)
head_inside window now s (x ∷ stamps) rest e = ground (arith, head_inside window now s stamps rest)

drops_head :
    (window s : ℕ) (rest : List Time)
    → drop_old window (s + window) (s ∷ rest) ≡ drop_old window (s + window) rest
unfolding drop_old
drops_head window s rest = ground arith

-- A call that the hub refuses, on a key with at most `max` stamps and a positive `max`, names a
-- time after which the same call passes, if no other call on the key comes between.
pub hub_retry_suffices :
    (l l' : Limiter) (key : String) (max window d : ℕ) (now : Time)
    → 0 < max
    → length (or_empty (lookup key l)) ≤ max
    → hub_allow l key max window now ≡ (l', err (retry_after d))
    → (hub_allow l' key max window (now + d)).1 ≡ ok tt
unfolding hub_allow allow_with
hub_retry_suffices l l' key max window d now positive bounded e =
    go (drop_old window now (or_empty (lookup key l))) refl
  where
    go :
        (stamps : List Time)
        → drop_old window now (or_empty (lookup key l)) ≡ stamps
        → (hub_allow l' key max window (now + d)).1 ≡ ok tt
    go [] q = absurd (ground arith)
    go (s ∷ rest) q =
        let inside = head_inside window now s (or_empty (lookup key l)) rest q in
        let shorter = length-drop_old-le window now (or_empty (lookup key l)) in
        let after = length-drop_old-le window (s + window) rest in
        let kept : lookup key l' ≡ some (s ∷ rest) =
          ground (arith, lookup-insert key key (s ∷ rest) l, eq_refl key) in
        let wait : now + d ≡ s + window = ground arith in
        let small : length (drop_old window (now + d) (or_empty (lookup key l'))) < max =
          rw (wait, kept, drops_head window s rest) (omega (arith, ap length q)) in
        ground arith
