-- ===== src/RateLimit/Window.antt =====
-- What the limiter promises: at most `max` calls pass in any window, and the hint is honest.
use mathlib.Core.List.{reverse, reverse-cons, reverse-append, append_assoc}
use alice_eve.Base.{
  ◌≡◌, refl, sym, ap, ◌∙◌, Bool, true, false, ◌==◌, eq_iff, eq_refl, Option, none, some, String,
  arith, Bool-cases, inl, inr, List, [], ◌∷◌, ◌++◌, ℕ, zero, suc, ◌+◌, ◌-◌, ◌≤◌, ◌<◌, leb, length,
  length-append, All, All-map,
}
use alice_eve.Base.Results.{Result, ok, err}
use alice_eve.Base.Dict.{lookup, insert, lookup-insert}
use alice_eve.RateLimit.{Time, Refusal, Limiter, or_empty, drop_old, allow_with}

module _ {ℓ} {A : Type ℓ} where
  abbrev pub get_elem? : List A → ℕ → Option A
  get_elem? [] i = none
  get_elem? (x ∷ xs) zero = some x
  get_elem? (x ∷ xs) (suc i) = get_elem? xs i

  -- What stands behind the first list comes from the second.
  get_elem?-append {κ} :
      (P : A → Type κ) (xs ys : List A) (i : ℕ) (y : A)
      → length xs ≤ i
      → All P ys
      → get_elem? (xs ++ ys) i ≡ some y
      → P y
  get_elem?-append P [] [] i y h p e = absurd (ground arith)
  get_elem?-append P [] (z ∷ ys) zero y h p e = let same : z ≡ y = ground arith in rw (← same) p.0
  get_elem?-append P [] (z ∷ ys) (suc i) y h p e = get_elem?-append P [] ys i y (omega arith) p.1 e
  get_elem?-append P (x ∷ xs) ys zero y h p e = absurd (omega arith)
  get_elem?-append P (x ∷ xs) ys (suc i) y h p e = get_elem?-append P xs ys i y (omega arith) p e

  length-reverse : (xs : List A) → length (reverse xs) ≡ length xs
  length-reverse [] = refl
  length-reverse (x ∷ xs) =
      omega (
        arith,
        ap length (reverse-cons x xs),
        length-append (reverse xs) (x ∷ []),
        length-reverse xs,
      )

-- `log` has the times of the calls that passed, newest first. Any `max` + 1 of them in a row span a
-- window: the `max`-th before an entry is at least a window older.
abbrev pub Spaced : ℕ → ℕ → List Time → Type 0
Spaced max window [] = Unit
Spaced max window (x ∷ log) =
    ((y : Time) → get_elem? log (max - 1) ≡ some y → y + window ≤ x) × Spaced max window log

abbrev pub Old : ℕ → Time → Time → Type 0
Old window now y = y + window ≤ now

-- The stamps are the newest entries of the log, and what has left them is out of the window.
record Tracks (window : ℕ) (now : Time) (stamps log : List Time) : Type 0 where
  older : List Time
  split : log ≡ reverse stamps ++ older
  out : All (Old window now) older

later-Tracks :
    (window : ℕ) (last now : Time) (stamps log : List Time)
    → last ≤ now
    → Tracks window last stamps log
    → Tracks window now stamps log
later-Tracks window last now stamps log h t = record {
  older = t.older;
  split = t.split;
  out = All-map (Old window last) (Old window now) t.older (λ y q. omega arith) t.out;
}

drop_old-Tracks :
    (window : ℕ) (now : Time) (stamps log : List Time)
    → Tracks window now stamps log
    → Tracks window now (drop_old window now stamps) log
unfolding drop_old
drop_old-Tracks window now [] log t = t
drop_old-Tracks window now (s ∷ stamps) log t = elim (Bool-cases (leb (s + window) now)) [
  | inr inside ↦ rw inside t
  | inl out ↦ rw out (
      drop_old-Tracks window now stamps log (record {
        older = s ∷ t.older;
        split =
            t.split
            ∙ ap (λ (x : List Time). x ++ t.older) (reverse-cons s stamps)
            ∙ append_assoc (reverse stamps) (s ∷ []) t.older;
        out = (ground arith, t.out);
      }))
]

pub length-drop_old-le :
    (window : ℕ) (now : Time) (stamps : List Time)
    → length (drop_old window now stamps) ≤ length stamps
unfolding drop_old
length-drop_old-le window now [] = omega arith
length-drop_old-le window now (s ∷ stamps) = ground (arith, length-drop_old-le window now stamps)

push-Tracks :
    (window : ℕ) (now : Time) (stamps log : List Time)
    → Tracks window now stamps log
    → Tracks window now (stamps ++ now ∷ []) (now ∷ log)
push-Tracks window now stamps log t = record {
  older = t.older;
  split =
      ap (◌∷◌ now) t.split
      ∙ ap (λ (x : List Time). x ++ t.older) (sym (reverse-append stamps (now ∷ [])));
  out = t.out;
}

-- A call that finds room is a window younger than the `max`-th before it.
push-Spaced :
    (max window : ℕ) (now : Time) (stamps log : List Time)
    → length stamps < max
    → Tracks window now stamps log
    → Spaced max window log
    → Spaced max window (now ∷ log)
push-Spaced max window now stamps log room t sp = (
  λ y e.
      get_elem?-append (Old window now) (reverse stamps) t.older (max - 1) y
        (omega (arith, length-reverse stamps)) t.out
        (ap (λ (x : List Time). get_elem? x (max - 1)) (sym t.split) ∙ e),
  sp,
)

module _ (retry : Time → List Time → Refusal) (max window : ℕ) (key : String) where
  -- The limiter, and the times of the calls on the key that passed, after further calls.
  abbrev log_pass : Time → Bool → Result Refusal (Unit {0}) → List Time → List Time
  log_pass now true (ok _) log = now ∷ log
  log_pass now true (err _) log = log
  log_pass now false _ log = log

  pub step : Limiter × List Time → String × Time → Limiter × List Time
  step (l, log) (k, now) =
      let (l', verdict) = allow_with (retry now) l k max window now in
      (l', log_pass now (k == key) verdict log)

  pub run : Limiter × List Time → List (String × Time) → Limiter × List Time
  run s [] = s
  run s (c ∷ calls) = run (step s c) calls

  record Good (last : Time) (s : Limiter × List Time) : Type 0 where
    tracks : Tracks window last (or_empty (lookup key s.0)) s.1
    spaced : Spaced max window s.1
    bounded : length (or_empty (lookup key s.0)) ≤ max

  keep-Good :
      (last now : Time) (l l' : Limiter) (log : List Time)
      → lookup key l' ≡ lookup key l
      → last ≤ now
      → Good last (l, log)
      → Good now (l', log)
  keep-Good last now l l' log e h g = record {
    tracks = rw e (later-Tracks window last now (or_empty (lookup key l)) log h g.tracks);
    spaced = g.spaced;
    bounded = rw e g.bounded;
  }

  put-Good :
      (now : Time) (l' : Limiter) (stamps log : List Time)
      → lookup key l' ≡ some stamps
      → Tracks window now stamps log
      → Spaced max window log
      → length stamps ≤ max
      → Good now (l', log)
  put-Good now l' stamps log e t sp b = record { tracks = rw e t; spaced = sp; bounded = rw e b }

  own_step-Good :
      (last : Time) (l : Limiter) (log : List Time) (now : Time)
      → last ≤ now
      → Good last (l, log)
      → Good now (step (l, log) (key, now))
  unfolding step allow_with
  own_step-Good last l log now h g =
      let old = or_empty (lookup key l) in
      let stamps = drop_old window now old in
      let t =
        drop_old-Tracks window now old log (later-Tracks window last now old log h g.tracks) in
      let shorter = length-drop_old-le window now old in
      let own = eq_refl key in
      elim (Bool-cases (leb max (length stamps))) [
        | inl full ↦
            rw (full, own)
              (put-Good now _ stamps log (law stamps) t g.spaced
                (omega (arith, g.bounded, shorter)))
        | inr room ↦
            rw (room, own)
              (put-Good now _ (stamps ++ now ∷ []) (now ∷ log) (law (stamps ++ now ∷ []))
                (push-Tracks window now stamps log t)
                (push-Spaced max window now stamps log (ground arith) t g.spaced)
                (ground (arith, length-append stamps (now ∷ []))))
      ]
    where
      law : (x : List Time) → lookup key (insert key x l) ≡ some x
      law x = ground (arith, lookup-insert key key x l, eq_refl key)

  other_step-Good :
      (last : Time) (l : Limiter) (log : List Time) (k : String) (now : Time)
      → (k == key) ≡ false
      → last ≤ now
      → Good last (l, log)
      → Good now (step (l, log) (k, now))
  unfolding step allow_with
  other_step-Good last l log k now other h g =
      let stamps = drop_old window now (or_empty (lookup k l)) in
      elim (Bool-cases (leb max (length stamps))) [
        | inl full ↦ rw (full, other) (keep-Good last now l _ log (law stamps) h g)
        | inr room ↦ rw (room, other) (keep-Good last now l _ log (law (stamps ++ now ∷ [])) h g)
      ]
    where
      law : (x : List Time) → lookup key (insert k x l) ≡ lookup key l
      law x = ground (arith, lookup-insert k key x l)

  -- The clock does not go back.
  abbrev pub Ascending : Time → List (String × Time) → Type 0
  Ascending last [] = Unit
  Ascending last ((k, now) ∷ calls) = (last ≤ now) × Ascending now calls

  run-Spaced :
      (last : Time) (s : Limiter × List Time) (calls : List (String × Time))
      → Ascending last calls
      → Good last s
      → Spaced max window (run s calls).1
  unfolding run
  run-Spaced last s [] up g = g.spaced
  run-Spaced last (l, log) ((k, now) ∷ calls) (h, up) g = elim (Bool-cases (k == key)) [
    | inl here ↦
        let same : k ≡ key = (eq_iff k key).0 here in
        run-Spaced now (step (l, log) (k, now)) calls up
          (rw same (own_step-Good last l log now h g))
    | inr there ↦
        run-Spaced now (step (l, log) (k, now)) calls up
          (other_step-Good last l log k now there h g)
  ]

  -- From an empty limiter, over any calls on any keys with a clock that does not go back, no more than
  -- `max` calls on a key pass within a window: an entry of the log and the `max`-th entry before it
  -- are at least a window apart. This holds whatever the retry hint is.
  pub run-empty-Spaced :
      (calls : List (String × Time)) → Ascending 0 calls → Spaced max window (run ([], []) calls).1
  unfolding lookup
  run-empty-Spaced calls up =
      run-Spaced 0 ([], []) calls up
        (record {
          tracks = record { older = []; split = refl; out = tt };
          spaced = tt;
          bounded = omega arith;
        })
