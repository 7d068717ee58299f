-- ===== src/Settings/Swap.antt =====
-- service.go: an update is written at the version that its author has seen, and nothing is lost.
use alice_eve.Base.{
  ◌≡◌, ◌↔◌, refl, sym, ap, ◌∙◌, subst, true, false, ◌||◌, not, Option, none, some, String, ◌==◌,
  eq_iff, if◌then◌else◌, [], ◌∷◌, ℕ, arith, Bool-cases, inl, inr,
}
use alice_eve.Base.Results.{Result, ok, Result-cases}
use alice_eve.Base.Int.{ℤ, pos, ltb_ℤ, eqb_ℤ, eq_of_parts, inc64}
use alice_eve.Settings.{object, Key, Members, Document, UpdateRequest, Error, valid}
use alice_eve.Settings.Policy.{Policy, validate_value, validate_document}
use alice_eve.Settings.Service.{
  same_key, Docs, find, put, current, get, swapped, compare_and_swap, etag_matches, write, update,
}

same_key_iff : (a b : Key) → (same_key a b ≡ true) ↔ (a ≡ b)
unfolding same_key
same_key_iff a b = (
  λ h.
      let account : a.account_id ≡ b.account_id =
        ground (arith, h, eq_iff a.account_id b.account_id) in
      let scope : a.scope ≡ b.scope = ground (arith, h, eq_iff a.scope b.scope) in
      let id : a.scope_id ≡ b.scope_id = ground (arith, h, eq_iff a.scope_id b.scope_id) in
      λ i. record { account_id = account i; scope = scope i; scope_id = id i },
  λ e. rw e (
      ground (
        arith,
        eq_iff b.account_id b.account_id,
        eq_iff b.scope b.scope,
        eq_iff b.scope_id b.scope_id,
      )),
)

find-put :
    (k other : Key) (d : Document) (docs : Docs)
    → find other (put k d docs) ≡ (if same_key k other then some d else find other docs)
unfolding find put
find-put k other d [] = refl
find-put k other d ((at, old) ∷ docs) =
    let rest = find-put k other d docs in
    ground (arith, rest, same_key_iff k other, same_key_iff at k, same_key_iff at other)

module _ (etag : ℤ → Members → String) where
  -- The documents after a successful write of `values` by a caller who has seen version `base`.
  pub record IsWritten (docs : Docs) (k : Key) (base : ℤ) (values : Members) (docs' : Docs)
      (d : Document) : Type 0 where
    pub seen : (current etag docs k).version ≡ base
    pub written : find k docs' ≡ some d
    pub content : d.values ≡ values
    pub next : d.version ≡ inc64 base
    pub others : (other : Key) → same_key k other ≡ false → find other docs' ≡ find other docs

  compare_and_swap-IsWritten :
      (docs : Docs) (k : Key) (version : ℤ) (tag : String) (values : Members) (by : String) (at : ℕ)
      (d : Document)
      → (compare_and_swap etag docs k version tag values by at).1 ≡ ok d
      → IsWritten docs k version values (compare_and_swap etag docs k version tag values by at).0 d
  unfolding compare_and_swap
  compare_and_swap-IsWritten docs k version tag values by at d h =
      let d0 = current etag docs k in
      let d1 = swapped etag d0 values by at in
      elim (Bool-cases (not (eqb_ℤ d0.version version) || not (d0.etag == tag))) [
        | inl stale ↦ absurd (ground (arith, h, stale))
        | inr fresh ↦
            let same : d0.version ≡ version =
              eq_of_parts d0.version version (ground (arith, fresh)) in
            let answer : compare_and_swap etag docs k version tag values by at
                ≡ (put k d1 docs, ok d1) =
              ground (arith, fresh) in
            let is : d1 ≡ d = ground (arith, h, fresh) in
            rw answer (
              subst (IsWritten docs k version values (put k d1 docs)) is (record {
                seen = same;
                written = find-put k k d1 docs ∙ ground (arith, same_key_iff k k);
                content = refl;
                next = ap inc64 same;
                others = λ other apart. find-put k other d1 docs ∙ ground (arith, apart);
              }))
      ]

  module _ (trim_quotes : String → String) where
    write-IsWritten :
        (meanwhile : Docs → Docs) (docs : Docs) (k : Key) (base : ℤ) (if_match : String)
        (values : Members) (by : String) (at : ℕ) (d : Document)
        → let x = write etag trim_quotes meanwhile docs k base if_match values by at in
          x.1 ≡ ok d → IsWritten (meanwhile (get etag docs k).0) k base values x.0 d
    write-IsWritten meanwhile docs k base if_match values by at d h =
        let got = get etag docs k in
        let swap = compare_and_swap etag (meanwhile got.0) k base got.1.etag values by at in
        elim (Bool-cases (
          not (eqb_ℤ base got.1.version)
          || not (etag_matches etag trim_quotes if_match got.1.etag))) [
            | inl stale ↦ absurd (ground (arith, h, stale))
            | inr fresh ↦
                let answer : write etag trim_quotes meanwhile docs k base if_match values by at
                    ≡ swap =
                  ground (arith, fresh) in
                let done : swap.1 ≡ ok d =
                  ap (λ (x : Docs × Result Error Document). x.1) (sym answer) ∙ h in
                rw answer (
                  compare_and_swap-IsWritten (meanwhile got.0) k base got.1.etag values by at d
                    done)
          ]

    module _ (scheme_of : String → Option String) (encode : Members → String) (p : Policy) where
      abbrev updated : (Docs → Docs) → Docs → UpdateRequest → ℕ → Docs × Result Error Document
      updated = update etag trim_quotes scheme_of encode p

      document_values :
          (given : Option Members) (values : Members)
          → validate_document scheme_of encode p given ≡ ok values
          → given ≡ some values
      unfolding validate_document
      document_values none values h = absurd (ground (arith, h))
      document_values (some ms) values h =
          elim (Result-cases (validate_value scheme_of encode p (object ms) 1)) [
            | inl (n, passes) ↦ ground (arith, h, passes)
            | inr (e, fails) ↦ absurd (ground (arith, h, fails))
          ]

      -- An update that succeeds, whatever others do between its read and its write, was based on the version
      -- that the key held when it wrote. It writes the values that the caller gave, under the next version,
      -- over this key alone.
      pub update-IsWritten :
          (meanwhile : Docs → Docs) (docs : Docs) (r : UpdateRequest) (now : ℕ) (d : Document)
          → let x = update etag trim_quotes scheme_of encode p meanwhile docs r now in
            x.1 ≡ ok d
            → (values : Members) × (r.values ≡ some values)
              × IsWritten (meanwhile (get etag docs r.key).0) r.key r.base_version values x.0 d
      unfolding update
      update-IsWritten meanwhile docs r now d h = elim (Result-cases (valid r.key)) [
        | inr (e, bad) ↦ absurd (ground (arith, h, bad))
        | inl (u, good) ↦ elim (Bool-cases (ltb_ℤ r.base_version (pos 1))) [
          | inl low ↦ absurd (ground (arith, h, good, low))
          | inr high ↦ elim (Result-cases (validate_document scheme_of encode p r.values)) [
            | inr (e, refusal) ↦ absurd (ground (arith, h, good, high, refusal))
            | inl (values, accepted) ↦
                let at_swap = meanwhile (get etag docs r.key).0 in
                let x =
                  write etag trim_quotes meanwhile docs r.key r.base_version r.if_match values
                    r.updated_by now in
                let answer : updated meanwhile docs r now ≡ x =
                  ground (arith, good, high, accepted) in
                let done : x.1 ≡ ok d =
                  ap (λ (y : Docs × Result Error Document). y.1) (sym answer) ∙ h in
                (
                  values,
                  document_values r.values values accepted,
                  subst
                      (λ (y : Docs × Result Error Document).
                        IsWritten at_swap r.key r.base_version values y.0 d)
                      (sym answer)
                      (write-IsWritten meanwhile docs r.key r.base_version r.if_match values
                        r.updated_by now d done),
                )
          ]
        ]
      ]

      -- Of two updates of one key that both succeed, the second is based on the version that the first has
      -- written, when that is what the key holds as the second writes: if the first comes before the second, or
      -- between its read and its write.
      pub no_lost_update :
          (meanwhile meanwhile' : Docs → Docs) (docs docs' : Docs) (r r' : UpdateRequest)
          (now now' : ℕ) (d d' : Document)
          → (update etag trim_quotes scheme_of encode p meanwhile docs r now).1 ≡ ok d
          → find r'.key (meanwhile' (get etag docs' r'.key).0) ≡ some d
          → (update etag trim_quotes scheme_of encode p meanwhile' docs' r' now').1 ≡ ok d'
          → r'.base_version ≡ inc64 r.base_version
      no_lost_update meanwhile meanwhile' docs docs' r r' now now' d d' first_ok holds second_ok =
          let one = (update-IsWritten meanwhile docs r now d first_ok).2 in
          let two = (update-IsWritten meanwhile' docs' r' now' d' second_ok).2 in
          let at_swap = meanwhile' (get etag docs' r'.key).0 in
          let held : (current etag at_swap r'.key).version ≡ d.version = ground (arith, holds) in
          sym two.seen ∙ held ∙ one.next
