-- ===== src/Updates/Kept.antt =====
-- service.go: `MemoryRepository` holds valid manifests, no two of one release or of one version.
use alice_eve.Base.{
  ◌≡◌, refl, subst, Bool, true, false, eq_refl, Bool-cases, ◌⊎◌, inl, inr, List, [], ◌∷◌, ◌++◌, All,
  All-append, In, In-append_last, keep, arith,
}
use alice_eve.Base.Results.{Result, ok, err, Result-cases}
use alice_eve.Updates.{Error, Manifest, validate_manifest, is_valid}
use alice_eve.Updates.Memory.{MemoryRepository, same_release, same_version, clash, add, list}

-- `m` is of another release and of another version than `x`.
abbrev pub IsApart : Manifest → Manifest → Type 0
IsApart m x = (same_release m x ≡ false) × (same_version m x ≡ false)

abbrev pub AllApart : List Manifest → Type 0
AllApart [] = Unit
AllApart (x ∷ xs) = All (λ m. IsApart m x) xs × AllApart xs

pub record WellFormed (r : MemoryRepository) : Type 0 where
  pub valid : All (λ m. is_valid m ≡ true) r.manifests
  pub apart : AllApart r.manifests

AllApart-append :
    (m : Manifest) (xs : List Manifest) → AllApart xs → All (IsApart m) xs → AllApart (xs ++ m ∷ [])
AllApart-append m [] h k = (tt, tt)
AllApart-append m (x ∷ xs) h k =
    (All-append _ xs (m ∷ []) h.0 (k.0, tt), AllApart-append m xs h.1 k.1)

clash_lem : (m : Manifest) (xs : List Manifest) → clash m xs ≡ ok tt → All (IsApart m) xs
unfolding clash
clash_lem m [] h = tt
clash_lem m (x ∷ xs) h = let rest = clash_lem m xs in ground (arith, h, rest)

In-keep :
    (p : Manifest → Bool) (m : Manifest) (xs : List Manifest)
    → In m xs
    → p m ≡ true
    → In m (keep p xs)
unfolding keep
In-keep p m [] i h = absurd i
In-keep p m (x ∷ xs) i h = elim (Bool-cases (p x)) [
  | inl kept ↦ rw kept (elim i [ inl e ↦ inl e | inr i' ↦ inr (In-keep p m xs i' h) ])
  | inr dropped ↦ rw dropped (elim i [
    | inl e ↦ absurd (ground (arith, dropped, subst (λ (y : Manifest). p y ≡ true) e h))
    | inr i' ↦ In-keep p m xs i' h
  ])
]

-- What holds after `Add`: the repository is well-formed; without an error the manifest is listed under its
-- app, platform, arch and channel; with one nothing has changed.
pub record IsAdded (r : MemoryRepository) (m : Manifest)
    (x : MemoryRepository × Result Error (Unit {0})) : Type 0 where
  pub well_formed : WellFormed x.0
  pub result :
      ((x.1 ≡ ok tt) × In m (list x.0 m.app m.platform m.arch m.channel))
      ⊎ ((e : Error) × (x.1 ≡ err e) × (x.0 ≡ r))

-- `Add` keeps the repository well-formed, and lists what it has taken.
pub add-IsAdded : (r : MemoryRepository) (m : Manifest) → WellFormed r → IsAdded r m (add r m)
unfolding add list
add-IsAdded r m h = elim (Result-cases (validate_manifest m)) [
  | inr (e, bad) ↦ rw (bad, add) (record { well_formed = h; result = inr (_, refl, refl) })
  | inl (u, good) ↦ elim (Result-cases (clash m r.manifests)) [
    | inr (e, near) ↦
        rw (good, near, add) (record { well_formed = h; result = inr (e, refl, refl) })
    | inl (v, free) ↦
        rw (good, free, add)
          (record {
            well_formed = record {
              valid = All-append _ r.manifests (m ∷ []) h.valid (ground (arith, good), tt);
              apart = AllApart-append m r.manifests h.apart (clash_lem m r.manifests free);
            };
            result = inl (
              refl,
              In-keep _ m (r.manifests ++ m ∷ []) (In-append_last m r.manifests) (
                  ground
                    (arith, eq_refl m.app, eq_refl m.platform, eq_refl m.arch, eq_refl m.channel)),
            );
          })
  ]
]
