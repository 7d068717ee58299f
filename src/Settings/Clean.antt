-- ===== src/Settings/Clean.antt =====
-- service.go: what `validateDocument` accepts, against a description of its own.
use alice_eve.Base.{
  ◌≡◌, ◌↔◌, refl, Bool, true, false, ◌||◌, ◌&&◌, not, Option, none, some, String, if◌then◌else◌, ℕ,
  ◌+◌, ◌≤◌, leb, ltb, eqb, arith, length, Option-cases, inl, inr,
}
use alice_eve.Base.Results.{Result, ok, err, ◌>>=◌, Result-cases}
use alice_eve.Base.Split.{byte_length}
use alice_eve.Settings.{
  Json, null, boolean, number, string, array, object, Items, no_items, item, Members, no_members,
  member, Fault,
}
use alice_eve.Settings.Policy.{
  Policy, forbidden_key, forbidden_string, elem, item_count, bad_key, validate_value,
  validate_items, validate_members, validate_document,
}

-- The members of all objects.
mutual
  pub keys : Json → ℕ
  keys (array vs) = keys_of_items vs
  keys (object ms) = keys_of_members ms
  keys _ = 0

  pub keys_of_items : Items → ℕ
  keys_of_items no_items = 0
  keys_of_items (item v vs) = keys v + keys_of_items vs

  pub keys_of_members : Members → ℕ
  keys_of_members no_members = 0
  keys_of_members (member k v ms) = 1 + keys v + keys_of_members ms

and_true : (a b : Bool) → a && b ≡ true → (a ≡ true) × (b ≡ true)
and_true a b h = (ground (arith, h), ground (arith, h))

both_true : (a b : Bool) → a ≡ true → b ≡ true → a && b ≡ true
both_true a b h k = ground (arith, h, k)

unless_ok :
    (b : Bool) (e : Fault) (r : Result Fault ℕ) (n : ℕ)
    → (if b then err e else r) ≡ ok n
    → (b ≡ false) × (r ≡ ok n)
unless_ok b e r n h = (ground (arith, h), ground (arith, h))

not_ltb-leb : (a b : ℕ) → ltb b a ≡ false → leb a b ≡ true
not_ltb-leb a b h = ground (arith, h)

bind_ok :
    (r : Result Fault ℕ) (f : ℕ → Result Fault ℕ) (n : ℕ)
    → (r >>= f) ≡ ok n
    → (m : ℕ) × (r ≡ ok m) × (f m ≡ ok n)
bind_ok (ok m) f n h = (m, refl, h)
bind_ok (err e) f n h = absurd (ground (arith, h))

leb-not_ltb : (a b : ℕ) → leb a b ≡ true → ltb b a ≡ false
leb-not_ltb a b h = ground (arith, h)

module _ (scheme_of : String → Option String) (encode : Members → String) (p : Policy) where
  abbrev pub good_key : ℕ → String → Bool
  good_key depth k =
      not (forbidden_key k)
      && (eqb (length p.allowed_keys) 0 || not (eqb depth 1) || elem k p.allowed_keys)

  -- No value is deeper than allowed, no array longer, each key and each text is allowed.
  mutual
    pub is_clean : Json → ℕ → Bool
    is_clean (string s) depth = leb depth p.max_depth && not (forbidden_string scheme_of encode p s)
    is_clean (array vs) depth =
        leb depth p.max_depth && leb (item_count vs) p.max_array_length && are_clean vs depth
    is_clean (object ms) depth = leb depth p.max_depth && members_clean ms depth
    is_clean _ depth = leb depth p.max_depth

    pub are_clean : Items → ℕ → Bool
    are_clean no_items depth = true
    are_clean (item v vs) depth = is_clean v (depth + 1) && are_clean vs depth

    pub members_clean : Members → ℕ → Bool
    members_clean no_members depth = true
    members_clean (member k v ms) depth =
        good_key depth k && is_clean v (depth + 1) && members_clean ms depth

  good_key_lem : (d : ℕ) (k : String) → good_key d k ≡ true → bad_key scheme_of encode p d k ≡ none
  unfolding bad_key
  good_key_lem d k h = ground (arith, h)

  good_key_only : (d : ℕ) (k : String) → bad_key scheme_of encode p d k ≡ none → good_key d k ≡ true
  unfolding bad_key
  good_key_only d k h = ground (arith, h)

  mutual
    unfolding is_clean keys validate_value

    accepts :
        (v : Json) (d : ℕ)
        → is_clean v d ≡ true
        → validate_value scheme_of encode p v d ≡ ok (keys v)
    accepts null d h = ground (arith, h)
    accepts (boolean b) d h = ground (arith, h)
    accepts (number n) d h = ground (arith, h)
    accepts (string s) d h = ground (arith, h)
    accepts (array vs) d h =
        let all =
          and_true (leb d p.max_depth && leb (item_count vs) p.max_array_length) (are_clean vs d)
            h in
        let both = and_true (leb d p.max_depth) (leb (item_count vs) p.max_array_length) all.0 in
        rw (leb-not_ltb d p.max_depth both.0, leb-not_ltb (item_count vs) p.max_array_length both.1)
          (accepts_items vs d all.1)
    accepts (object ms) d h =
        let both = and_true (leb d p.max_depth) (members_clean ms d) h in
        rw (leb-not_ltb d p.max_depth both.0) (accepts_members ms d both.1)

    accepts_items :
        (vs : Items) (d : ℕ)
        → are_clean vs d ≡ true
        → validate_items scheme_of encode p vs d ≡ ok (keys_of_items vs)
    accepts_items no_items d h = refl
    accepts_items (item v vs) d h =
        let both = and_true (is_clean v (d + 1)) (are_clean vs d) h in
        rw (accepts v (d + 1) both.0, accepts_items vs d both.1) refl

    accepts_members :
        (ms : Members) (d : ℕ)
        → members_clean ms d ≡ true
        → validate_members scheme_of encode p ms d ≡ ok (keys_of_members ms)
    accepts_members no_members d h = refl
    accepts_members (member k v ms) d h =
        let all = and_true (good_key d k && is_clean v (d + 1)) (members_clean ms d) h in
        let both = and_true (good_key d k) (is_clean v (d + 1)) all.0 in
        let allowed = good_key_lem d k both.0 in
        let first = accepts v (d + 1) both.1 in
        let rest = accepts_members ms d all.1 in cc (allowed, first, rest)

  mutual
    unfolding is_clean validate_value

    only : (v : Json) (d n : ℕ) → validate_value scheme_of encode p v d ≡ ok n → is_clean v d ≡ true
    only null d n h = ground (arith, h)
    only (boolean b) d n h = ground (arith, h)
    only (number x) d n h = ground (arith, h)
    only (string s) d n h = ground (arith, h)
    only (array vs) d n h =
        let deep = unless_ok (ltb p.max_depth d) _ _ n h in
        let long = unless_ok (ltb p.max_array_length (item_count vs)) _ _ n deep.1 in
        both_true (leb d p.max_depth && leb (item_count vs) p.max_array_length) (are_clean vs d)
          (both_true (leb d p.max_depth) (leb (item_count vs) p.max_array_length)
            (not_ltb-leb d p.max_depth deep.0)
            (not_ltb-leb (item_count vs) p.max_array_length long.0))
          (only_items vs d n long.1)
    only (object ms) d n h =
        let deep = unless_ok (ltb p.max_depth d) _ _ n h in
        both_true (leb d p.max_depth) (members_clean ms d) (not_ltb-leb d p.max_depth deep.0)
          (only_members ms d n deep.1)

    only_items :
        (vs : Items) (d n : ℕ)
        → validate_items scheme_of encode p vs d ≡ ok n
        → are_clean vs d ≡ true
    only_items no_items d n h = refl
    only_items (item v vs) d n h =
        let first = bind_ok (validate_value scheme_of encode p v (d + 1)) _ n h in
        let rest = bind_ok (validate_items scheme_of encode p vs d) _ n first.2 in
        both_true (is_clean v (d + 1)) (are_clean vs d) (only v (d + 1) first.0 first.1)
          (only_items vs d rest.0 rest.1)

    only_members :
        (ms : Members) (d n : ℕ)
        → validate_members scheme_of encode p ms d ≡ ok n
        → members_clean ms d ≡ true
    only_members no_members d n h = refl
    only_members (member k v ms) d n h = elim (Option-cases (bad_key scheme_of encode p d k)) [
      | inr (e, bad) ↦ absurd (ground (arith, h, bad))
      | inl good ↦
          let h' : (validate_value scheme_of encode p v (d + 1) >>= λ n.
          validate_members scheme_of encode p ms d >>= λ m. ok (1 + n + m))
              ≡ ok n =
            cc (h, good) in
          let first = bind_ok (validate_value scheme_of encode p v (d + 1)) _ n h' in
          let rest = bind_ok (validate_members scheme_of encode p ms d) _ n first.2 in
          both_true (good_key d k && is_clean v (d + 1)) (members_clean ms d)
            (both_true (good_key d k) (is_clean v (d + 1)) (good_key_only d k good)
              (only v (d + 1) first.0 first.1))
            (only_members ms d rest.0 rest.1)
    ]

  -- `validateDocument` accepts a document exactly when its encoding is within the limit of bytes, all of it
  -- is clean, and it has no more members than allowed, in all objects of it together.
  pub validate_document_iff :
      (ms : Members)
      → (validate_document scheme_of encode p (some ms) ≡ ok ms) ↔ (
          (byte_length (encode ms) ≤ p.max_bytes)
          × (is_clean (object ms) 1 ≡ true)
          × (keys (object ms) ≤ p.max_keys))
  unfolding validate_document
  validate_document_iff ms = (
    λ h. elim (Result-cases (validate_value scheme_of encode p (object ms) 1)) [
      | inr (e, fails) ↦ absurd (ground (arith, h, fails))
      | inl (n, passes) ↦
          let clean = only (object ms) 1 n passes in
          let count = accepts (object ms) 1 clean in
          (ground (arith, h), clean, ground (arith, h, count))
    ],
    λ h. let passes = accepts (object ms) 1 h.1 in ground (arith, h.0, h.2, passes),
  )
