-- ===== src/Updates/Choice.antt =====
-- service.go: which manifest `Service.Manifest` selects.
use alice_eve.Base.{
  ◌≡◌, ◌≢◌, refl, subst, Bool, true, false, Option, none, some, if◌then◌else◌, Bool-cases, inl, inr,
  List, [], ◌∷◌, All, In, keep, arith,
}
use alice_eve.Base.Sort.{place, sort, Sorted, sort-Sorted}
use alice_eve.Updates.{Manifest, Query, Selection}
use alice_eve.Updates.Version.{Version, less, version_of}
use alice_eve.Updates.Select.{is_candidate, older, last, last_below}
use alice_eve.Updates.Order.{less_asym, not_less_trans}

module _ {ℓ} {A : Type ℓ} (P : A → Type 0) where
  pub All-keep_back :
      (p : A → Bool) (xs : List A) → All P (keep p xs) → All (λ x. p x ≡ true → P x) xs
  unfolding keep
  All-keep_back p [] h = tt
  All-keep_back p (x ∷ xs) h = elim (Bool-cases (p x)) [
    | inl kept ↦
        let h' : P x × All P (keep p xs) =
          subst (λ (b : Bool). All P (if b then x ∷ keep p xs else keep p xs)) kept h in
        (λ e. h'.0, All-keep_back p xs h'.1)
    | inr dropped ↦
        let h' : All P (keep p xs) =
          subst (λ (b : Bool). All P (if b then x ∷ keep p xs else keep p xs)) dropped h in
        (λ e. absurd (ground (arith, e, dropped)), All-keep_back p xs h')
  ]

  module _ (less : A → A → Bool) where
    All-place_back : (a : A) (xs : List A) → All P (place less a xs) → P a × All P xs
    unfolding place
    All-place_back a [] h = h
    All-place_back a (x ∷ xs) h =
        let later = All-place_back a xs in
        let holds = λ (b : Bool). All P (if b then a ∷ x ∷ xs else x ∷ place less a xs) in
        elim (Bool-cases (less a x)) [
          | inl first ↦ subst holds first h
          | inr other ↦
              let h' : P x × All P (place less a xs) = subst holds other h in
              let back = later h'.1 in (back.0, (h'.0, back.1))
        ]

    pub All-sort_back : (xs : List A) → All P (sort less xs) → All P xs
    unfolding sort
    All-sort_back [] h = tt
    All-sort_back (x ∷ xs) h =
        let back = All-place_back x (sort less xs) h in (back.0, All-sort_back xs back.1)

abbrev pub version : Manifest → Version
version m = version_of m.version

abbrev pub current : Query → Version
current q = version_of q.current_version

-- No candidate is newer, and it is newer than what is installed.
pub record IsUpdate (q : Query) (ms : List Manifest) (m : Manifest) : Type 0 where
  pub newest : All (λ x. is_candidate q x ≡ true → less (version m) (version x) ≡ false) ms
  pub newer : q.current_version ≢ "" → less (current q) (version m) ≡ true

-- Nothing is newer than what is installed, and no older candidate is newer than this one.
pub record IsRollback (q : Query) (ms : List Manifest) (m : Manifest) : Type 0 where
  pub allowed : q.allow_rollback ≡ true
  pub older : less (version m) (current q) ≡ true
  pub nothing_newer : All (λ x. is_candidate q x ≡ true → less (current q) (version x) ≡ false) ms
  pub nearest :
      All
        (λ x.
          is_candidate q x ≡ true
          → less (version x) (current q) ≡ true
          → less (version m) (version x) ≡ false)
        ms

pub record IsSelected (q : Query) (ms : List Manifest) (s : Selection) : Type 0 where
  pub listed : In s.manifest ms
  pub candidate : is_candidate q s.manifest ≡ true
  pub available : s.available ≡ true
  pub update : s.rollback ≡ false → IsUpdate q ms s.manifest
  pub rolled_back : s.rollback ≡ true → IsRollback q ms s.manifest

pub All-last :
    (P : Manifest → Type 0) (m : Manifest) (ms : List Manifest) → All P (m ∷ ms) → P (last m ms)
All-last P m [] h = h.0
All-last P m (n ∷ ms) h = All-last P n ms h.1

older_self : (m : Manifest) → older m m ≡ false
unfolding older
older_self m = elim (Bool-cases (less (version m) (version m))) [
  | inl below ↦ absurd (ground (arith, below, less_asym (version m) (version m) below))
  | inr level ↦ level
]

-- The last of the manifests in order is not older than any.
pub last_newest :
    (m : Manifest) (ms : List Manifest)
    → Sorted older (m ∷ ms)
    → All (λ x. older (last m ms) x ≡ false) (m ∷ ms)
last_newest m [] h = (older_self m, tt)
last_newest m (n ∷ ms) h = (All-last (λ x. older x m ≡ false) n ms h.0, last_newest n ms h.1)

pub older_trans : (x y z : Manifest) → older y x ≡ false → older z y ≡ false → older z x ≡ false
unfolding older
older_trans x y z h k = not_less_trans (version x) (version y) (version z) h k

pub Sorted-candidates : (ms : List Manifest) → Sorted older (sort older ms)
unfolding older
Sorted-candidates ms =
    sort-Sorted older (λ x y h. less_asym (version x) (version y) h) older_trans ms

module _ (v : Version) (P : Manifest → Type 0) where
  abbrev pub below : Manifest → Bool
  below m = less (version m) v

  -- What the loop for the last candidate below `v` has found.
  pub record Reached (so_far : Option Manifest) (ms : List Manifest) (m : Manifest) : Type 0 where
    pub is_below : below m ≡ true
    pub holds : P m
    pub nearest : All (λ x. below x ≡ true → older m x ≡ false) ms
    pub later : (s : Manifest) → so_far ≡ some s → older m s ≡ false

  pub last_below_lem :
      (so_far : Option Manifest) (ms : List Manifest) (m : Manifest)
      → Sorted older ms
      → All P ms
      → ((s : Manifest)
          → so_far ≡ some s
          → (below s ≡ true) × P s × All (λ x. older x s ≡ false) ms)
      → last_below v so_far ms ≡ some m
      → Reached so_far ms m
  unfolding last_below
  last_below_lem so_far [] m sorted all found e =
      let f = found m e in
      record {
        is_below = f.0;
        holds = f.1;
        nearest = tt;
        later = λ s e'.
            subst (λ (x : Manifest). older m x ≡ false) (ground (arith, e, e')) (older_self m);
      }
  last_below_lem so_far (x ∷ xs) m sorted all found e = elim (Bool-cases (below x)) [
    | inl hit ↦
        let e' : last_below v (some x) xs ≡ some m =
          subst (λ (b : Bool). last_below v (if b then some x else so_far) xs ≡ some m) hit e in
        let r =
          last_below_lem (some x) xs m sorted.1 all.1
            (λ s is.
              subst (λ (y : Manifest). (below y ≡ true) × P y × All (λ z. older z y ≡ false) xs)
                (ground (arith, is)) (hit, all.0, sorted.0))
            e' in
        let at_x = r.later x refl in
        record {
          is_below = r.is_below;
          holds = r.holds;
          nearest = (λ h. at_x, r.nearest);
          later = λ s is. older_trans s x m (found s is).2.0 at_x;
        }
    | inr miss ↦
        let e' : last_below v so_far xs ≡ some m =
          subst (λ (b : Bool). last_below v (if b then some x else so_far) xs ≡ some m) miss e in
        let r =
          last_below_lem so_far xs m sorted.1 all.1
            (λ s is. let f = found s is in (f.0, f.1, f.2.1)) e' in
        record {
          is_below = r.is_below;
          holds = r.holds;
          nearest = (λ h. absurd (ground (arith, h, miss)), r.nearest);
          later = r.later;
        }
  ]

  -- With nothing found, nothing is below.
  pub last_below-none :
      (so_far : Option Manifest) (ms : List Manifest)
      → last_below v so_far ms ≡ none
      → (so_far ≡ none) × All (λ x. below x ≡ false) ms
  unfolding last_below
  last_below-none so_far [] e = (e, tt)
  last_below-none so_far (x ∷ xs) e =
      let r = last_below-none (if below x then some x else so_far) xs e in
      (ground (arith, r.0), (ground (arith, r.0), r.1))
