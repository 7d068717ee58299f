-- ===== src/Base/Dict.antt =====
-- Maps with text keys as association lists with one entry per key. A Go map is ranged over in an
-- arbitrary order; the order of the list stands for it.
use alice_eve.Base.{
  ◌≡◌, refl, Bool, true, false, List, [], ◌∷◌, Option, none, some, arith, String, ◌==◌, eq_iff,
  if◌then◌else◌, Bool-cases, inl, inr,
}

abbrev pub Dict {ℓ} : Type ℓ → Type ℓ
Dict V = List (String × V)

module _ {ℓ} {V : Type ℓ} where
  -- `v, ok := m[k]`.
  unfoldable pub lookup : String → Dict V → Option V
  lookup k [] = none
  lookup k ((j, v) ∷ m) = if j == k then some v else lookup k m

  -- `m[key] = new`.
  unfoldable pub insert : String → V → Dict V → Dict V
  insert key new [] = (key, new) ∷ []
  insert key new (entry ∷ entries) =
      if entry.0 == key then (key, new) ∷ entries else entry ∷ insert key new entries

  -- `delete(m, k)`.
  unfoldable pub delete : String → Dict V → Dict V
  delete k [] = []
  delete k ((j, v) ∷ m) = if j == k then delete k m else (j, v) ∷ delete k m

  -- The values, in the order of the range.
  unfoldable pub values : Dict V → List V
  values [] = []
  values ((j, v) ∷ m) = v ∷ values m

  -- A range that stores a changed value under each key.
  unfoldable pub update_all : (V → V) → Dict V → Dict V
  update_all f [] = []
  update_all f ((j, v) ∷ m) = (j, f v) ∷ update_all f m

  -- A range that deletes the entries that fail the test.
  unfoldable pub retain : (V → Bool) → Dict V → Dict V
  retain p [] = []
  retain p ((j, v) ∷ m) = if p v then (j, v) ∷ retain p m else retain p m

  -- A range that stops at the first entry that passes the test.
  unfoldable pub find : (V → Bool) → Dict V → Option (String × V)
  find p [] = none
  find p ((j, v) ∷ m) = if p v then some (j, v) else find p m

  pub lookup-insert :
      (key other : String) (new : V) (entries : Dict V)
      → lookup other (insert key new entries)
        ≡ (if key == other then some new else lookup other entries)
  unfolding insert lookup
  lookup-insert key other new [] = refl
  lookup-insert key other new ((at, old) ∷ entries) =
      let rest = lookup-insert key other new entries in
      ground (arith, rest, eq_iff at other, eq_iff at key, eq_iff key other)

  pub lookup-delete :
      (k j : String) (m : Dict V) → lookup j (delete k m) ≡ (if k == j then none else lookup j m)
  unfolding lookup delete
  lookup-delete k j [] = ground arith
  lookup-delete k j ((i, w) ∷ m) =
      ground (arith, eq_iff k j, eq_iff i k, eq_iff i j, lookup-delete k j m)

  -- Each key is entered once.
  abbrev pub Distinct : Dict V → Type ℓ
  Distinct [] = Unit
  Distinct ((j, v) ∷ m) = (lookup j m ≡ none) × Distinct m

  pub insert-Distinct : (k : String) (v : V) (m : Dict V) → Distinct m → Distinct (insert k v m)
  unfolding insert lookup
  insert-Distinct k v [] d = (refl, tt)
  insert-Distinct k v ((i, w) ∷ m) d =
      ground (arith, eq_iff i k, eq_iff k i, insert-Distinct k v m d.1, lookup-insert k i v m)

  pub delete-Distinct : (k : String) (m : Dict V) → Distinct m → Distinct (delete k m)
  unfolding delete
  delete-Distinct k [] d = tt
  delete-Distinct k ((i, w) ∷ m) d =
      ground (arith, eq_iff i k, eq_iff k i, delete-Distinct k m d.1, lookup-delete k i m)

  pub lookup-update_all-none :
      (f : V → V) (j : String) (m : Dict V) → lookup j m ≡ none → lookup j (update_all f m) ≡ none
  unfolding lookup update_all
  lookup-update_all-none f j [] h = refl
  lookup-update_all-none f j ((i, w) ∷ m) h = ground (arith, lookup-update_all-none f j m)

  pub lookup-update_all-some :
      (f : V → V) (j : String) (v : V) (m : Dict V)
      → lookup j m ≡ some v
      → lookup j (update_all f m) ≡ some (f v)
  unfolding lookup update_all
  lookup-update_all-some f j v [] h = ground arith
  lookup-update_all-some f j v ((i, w) ∷ m) h = ground (arith, lookup-update_all-some f j v m)

  pub update_all-Distinct : (f : V → V) (m : Dict V) → Distinct m → Distinct (update_all f m)
  unfolding update_all
  update_all-Distinct f [] d = tt
  update_all-Distinct f ((i, w) ∷ m) d =
      (lookup-update_all-none f i m d.0, update_all-Distinct f m d.1)

  -- A search finds an entry of the map that passes the test.
  pub find-lookup :
      (p : V → Bool) (k : String) (v : V) (m : Dict V)
      → Distinct m
      → find p m ≡ some (k, v)
      → (lookup k m ≡ some v) × (p v ≡ true)
  unfolding find lookup
  find-lookup p k v [] d h = absurd (ground arith)
  find-lookup p k v ((i, w) ∷ m) d h = ground (arith, eq_iff i k, find-lookup p k v m d.1)

  -- A search that fails leaves no entry that passes the test.
  pub find-none :
      (p : V → Bool) (k : String) (v : V) (m : Dict V)
      → find p m ≡ none
      → lookup k m ≡ some v
      → p v ≡ false
  unfolding find lookup
  find-none p k v [] h e = absurd (ground arith)
  find-none p k v ((i, w) ∷ m) h e = ground (arith, find-none p k v m)

  -- What stands under a key after the range comes from what stood there before.
  pub lookup-update_all_inv :
      (f : V → V) (j : String) (v : V) (m : Dict V)
      → lookup j (update_all f m) ≡ some v
      → (w : V) × (lookup j m ≡ some w) × (v ≡ f w)
  unfolding lookup update_all
  lookup-update_all_inv f j v [] h = absurd (ground arith)
  lookup-update_all_inv f j v ((i, w) ∷ m) h = elim (Bool-cases (i == j)) [
    | inl e ↦ (w, rw e, ground arith)
    | inr e ↦ let (u, q, p) = lookup-update_all_inv f j v m (ground arith) in (u, ground arith, p)
  ]

  pub find-insert-none :
      (p : V → Bool) (k : String) (v : V) (m : Dict V)
      → find p m ≡ none
      → p v ≡ false
      → find p (insert k v m) ≡ none
  unfolding find insert
  find-insert-none p k v [] h e = ground arith
  find-insert-none p k v ((i, w) ∷ m) h e = ground (arith, find-insert-none p k v m)

  pub find-none_weaken :
      (p q : V → Bool) (m : Dict V)
      → ((v : V) → q v ≡ true → p v ≡ true)
      → find p m ≡ none
      → find q m ≡ none
  unfolding find
  find-none_weaken p q [] h e = refl
  find-none_weaken p q ((i, w) ∷ m) h e = ground (arith, h w, find-none_weaken p q m h)

  pub find-insert-some :
      (p : V → Bool) (k : String) (v : V) (m : Dict V)
      → find p m ≡ none
      → p v ≡ true
      → find p (insert k v m) ≡ some (k, v)
  unfolding find insert
  find-insert-some p k v [] h e = ground arith
  find-insert-some p k v ((i, w) ∷ m) h e = ground (arith, find-insert-some p k v m)
