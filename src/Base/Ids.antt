-- ===== src/Base/Ids.antt =====
-- Maps with int64 keys (`map[int64]V`), as association lists with one entry per key.
use alice_eve.Base.{
  ◌≡◌, refl, Bool, true, List, [], ◌∷◌, Option, none, some, arith, if◌then◌else◌, ◌↔◌,
}
use alice_eve.Base.Int.{ℤ, eqb_ℤ, eq_of_parts}

unfoldable pub same_id : ℤ → ℤ → Bool
same_id a b = eqb_ℤ a b

pub same_id_iff : (a b : ℤ) → (same_id a b ≡ true) ↔ (a ≡ b)
unfolding same_id
same_id_iff a b = (λ h. eq_of_parts a b (ground arith), λ e. rw e (ground arith))

abbrev pub IdMap {ℓ} : Type ℓ → Type ℓ
IdMap V = List (ℤ × V)

module _ {ℓ} {V : Type ℓ} where
  -- `v, ok := m[id]`.
  unfoldable pub get : ℤ → IdMap V → Option V
  get id [] = none
  get id (entry ∷ entries) = if same_id entry.0 id then some entry.1 else get id entries

  -- `m[id] = v`.
  unfoldable pub put : ℤ → V → IdMap V → IdMap V
  put id v [] = (id, v) ∷ []
  put id v (entry ∷ entries) =
      if same_id entry.0 id then (id, v) ∷ entries else entry ∷ put id v entries

  pub get-put :
      (id other : ℤ) (v : V) (m : IdMap V)
      → get other (put id v m) ≡ (if same_id id other then some v else get other m)
  unfolding get put
  get-put id other v [] = refl
  get-put id other v ((at, old) ∷ m) =
      let rest = get-put id other v m in
      ground (arith, rest, same_id_iff id other, same_id_iff at id, same_id_iff at other)
