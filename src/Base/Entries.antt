-- ===== src/Base/Entries.antt =====
-- A predicate on all entries of a map, under the operations of maps.
use alice_eve.Base.{
  ◌≡◌, subst, Bool, some, String, ◌==◌, Bool-cases, inl, inr, [], ◌∷◌, arith, All, eq_iff,
}
use alice_eve.Base.Dict.{Dict, lookup, insert, delete, retain}

module _ {ℓ} {V : Type ℓ} (P : String × V → Type 0) where
  pub All-lookup : (k : String) (v : V) (m : Dict V) → All P m → lookup k m ≡ some v → P (k, v)
  unfolding lookup
  All-lookup k v [] h at = absurd (ground (arith, at))
  All-lookup k v ((j, w) ∷ m) h at = elim (Bool-cases (j == k)) [
    | inr other ↦ All-lookup k v m h.1 (ground (arith, other, at))
    | inl hit ↦ let same : (j, w) ≡ (k, v) = ground (arith, hit, at, eq_iff j k) in subst P same h.0
  ]

  pub All-insert : (k : String) (v : V) (m : Dict V) → All P m → P (k, v) → All P (insert k v m)
  unfolding insert
  All-insert k v [] h new = (new, tt)
  All-insert k v ((j, w) ∷ m) h new =
      let rest = All-insert k v m h.1 new in
      elim (Bool-cases (j == k)) [ inl hit ↦ rw hit (new, h.1) | inr other ↦ rw other (h.0, rest) ]

  pub All-delete : (k : String) (m : Dict V) → All P m → All P (delete k m)
  unfolding delete
  All-delete k [] h = tt
  All-delete k ((j, w) ∷ m) h =
      let rest = All-delete k m h.1 in
      elim (Bool-cases (j == k)) [ inl hit ↦ rw hit rest | inr other ↦ rw other (h.0, rest) ]

  pub All-retain : (p : V → Bool) (m : Dict V) → All P m → All P (retain p m)
  unfolding retain
  All-retain p [] h = tt
  All-retain p ((j, w) ∷ m) h =
      let rest = All-retain p m h.1 in
      elim (Bool-cases (p w)) [ inl hit ↦ rw hit (h.0, rest) | inr other ↦ rw other rest ]
