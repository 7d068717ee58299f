-- ===== src/Base/Sort.antt =====
-- `sort.Slice(xs, less)`, as an insertion sort. Go leaves the order of entries that tie open.
use mathlib.Core.List.{Perm, perm_middle}
use mathlib.Core.List.Perm
use alice_eve.Base.{
  ◌++◌, drop, ◌⊎◌, ap, suc, ℕ, refl, ◌≡◌, refl, Bool, true, false, List, [], ◌∷◌, arith,
  if◌then◌else◌, Bool-cases, inl, inr, All, All-map, take, zero, suc, ℕ, All-take, length, keep,
  not,
}

-- What a test keeps, and what it leaves out, is all there was.
pub keep-perm {ℓ} :
    {A : Type ℓ} (p : A → Bool) (xs : List A) → Perm (keep p xs ++ keep (λ x. not (p x)) xs) xs
unfolding keep
keep-perm p [] = Perm.refl []
keep-perm p (x ∷ xs) = elim (Bool-cases (p x)) [
  | inl e ↦ rw (e, keep) (Perm.cons x (keep-perm p xs))
  | inr e ↦
      rw (e, keep)
        (Perm.trans (perm_middle (keep p xs) (keep (λ y. not (p y)) xs))
          (Perm.cons x (keep-perm p xs)))
]

module _ {ℓ} {A : Type ℓ} (less : A → A → Bool) where
  unfoldable pub place : A → List A → List A
  place a [] = a ∷ []
  place a (x ∷ xs) = if less a x then a ∷ x ∷ xs else x ∷ place a xs

  unfoldable pub sort : List A → List A
  unfolding place
  sort [] = []
  sort (x ∷ xs) = place x (sort xs)

  -- Nothing later in the list is less than an entry.
  abbrev pub Sorted : List A → Type 0
  Sorted [] = Unit
  Sorted (x ∷ xs) = All (λ y. less y x ≡ false) xs × Sorted xs

  All-place {κ} : (P : A → Type κ) (a : A) (xs : List A) → P a → All P xs → All P (place a xs)
  unfolding place
  All-place P a [] p h = (p, tt)
  All-place P a (x ∷ xs) p h = ground (arith, All-place P a xs p h.1)

  pub All-sort {κ} : (P : A → Type κ) (xs : List A) → All P xs → All P (sort xs)
  unfolding sort
  All-sort P [] h = tt
  All-sort P (x ∷ xs) h = All-place P x (sort xs) h.0 (All-sort P xs h.1)

  place-perm : (a : A) (xs : List A) → Perm (place a xs) (a ∷ xs)
  unfolding place
  place-perm a [] = Perm.refl (a ∷ [])
  place-perm a (x ∷ xs) = elim (Bool-cases (less a x)) [
    | inl e ↦ rw e (Perm.refl (a ∷ x ∷ xs))
    | inr e ↦ rw e (Perm.trans (Perm.cons x (place-perm a xs)) (Perm.swap a x xs))
  ]

  -- Sorting keeps each entry, as often as it stands there.
  pub sort-perm : (xs : List A) → Perm (sort xs) xs
  unfolding sort
  sort-perm [] = Perm.refl []
  sort-perm (x ∷ xs) = Perm.trans (place-perm x (sort xs)) (Perm.cons x (sort-perm xs))

  length-place : (a : A) (xs : List A) → length (place a xs) ≡ suc (length xs)
  unfolding place
  length-place a [] = refl
  length-place a (x ∷ xs) = ground (arith, length-place a xs)

  pub length-sort : (xs : List A) → length (sort xs) ≡ length xs
  unfolding sort
  length-sort [] = refl
  length-sort (x ∷ xs) = ground (arith, length-place x (sort xs), length-sort xs)

  pub take-Sorted : (n : ℕ) (xs : List A) → Sorted xs → Sorted (take n xs)
  take-Sorted zero xs h = tt
  take-Sorted (suc n) [] h = tt
  take-Sorted (suc n) (x ∷ xs) h = (All-take _ n xs h.0, take-Sorted n xs h.1)

  module _ (asym : (x y : A) → less x y ≡ true → less y x ≡ false)
      (trans : (x y z : A) → less y x ≡ false → less z y ≡ false → less z x ≡ false) where
    place-Sorted : (a : A) (xs : List A) → Sorted xs → Sorted (place a xs)
    unfolding place
    place-Sorted a [] h = (tt, tt)
    place-Sorted a (x ∷ xs) h = elim (Bool-cases (less a x)) [
      | inl e ↦ rw e (
        (asym a x e, All-map _ (λ y. less y a ≡ false) xs (λ y q. trans a x y (asym a x e) q) h.0),
        h,
      )
      | inr e ↦ rw e (All-place (λ y. less y x ≡ false) a xs e h.0, place-Sorted a xs h.1)
    ]

    pub sort-Sorted : (xs : List A) → Sorted (sort xs)
    unfolding sort
    sort-Sorted [] = tt
    sort-Sorted (x ∷ xs) = place-Sorted x (sort xs) (sort-Sorted xs)

-- `xs[:n]`, if there are more than `n`: it is cut off only where it is full.
pub take_full {ℓ} : {A : Type ℓ} (n : ℕ) (xs : List A) → (length (take n xs) ≡ n) ⊎ (drop n xs ≡ [])
take_full zero xs = inl refl
take_full (suc n) [] = inr refl
take_full (suc n) (x ∷ xs) = elim (take_full n xs) [ inl e ↦ inl (ap suc e) | inr e ↦ inr e ]
