-- ===== src/Updates/Selected.antt =====
-- service.go: what `Service.Manifest` selects is right, and it misses no update.
use alice_eve.Base.{
  ◌≡◌, ◌≢◌, refl, sym, ap, ◌∙◌, subst, true, false, ◌||◌, ◌&&◌, not, none, ◌==◌, eq_iff, Bool-cases,
  Option-cases, List-cases, inl, inr, List, [], ◌∷◌, All, In, All-In, All-map, All-keep, keep,
  keep-All, arith,
}
use alice_eve.Base.Results.{Result, ok, err}
use alice_eve.Base.Int.{pos, leb_ℤ}
use alice_eve.Base.Sort.{sort, Sorted, All-sort}
use alice_eve.Base.Text.{is_blank, trim_space}
use alice_eve.Updates.{
  Error, no_update, bad_current_version, release_exists, version_exists, ack_incomplete,
  invalid_manifest, external, is_no_update, Manifest, Query, Selection, parses,
}
use alice_eve.Updates.Version.{compare, less, version_of, parse_version, number}
use alice_eve.Base.Split.{split, split_2, trim_prefix, atoi}
use alice_eve.Updates.Select.{
  is_candidate, older, last, last_below, selected, roll_back, choose, choose_from, manifest,
}
use alice_eve.Updates.Order.{version_order, not_less_trans}
use alice_eve.Updates.Choice.{
  IsSelected, version, current, All-sort_back, All-keep_back, All-last, last_newest, last_below_lem,
  Sorted-candidates,
}

-- The candidates in order.
abbrev ordered : Query → List Manifest → List Manifest
ordered q ms = sort older (keep (is_candidate q) ms)

-- A listed candidate.
abbrev Candidate : Query → List Manifest → Manifest → Type 0
Candidate q ms m = In m ms × (is_candidate q m ≡ true)

All-and :
    (P Q : Manifest → Type 0) (ms : List Manifest) → All P ms → All Q ms → All (λ m. P m × Q m) ms
All-and P Q [] h k = tt
All-and P Q (m ∷ ms) h k = ((h.0, k.0), All-and P Q ms h.1 k.1)

ordered-Candidate : (q : Query) (ms : List Manifest) → All (Candidate q ms) (ordered q ms)
ordered-Candidate q ms =
    let among = All-keep (λ m. In m ms) (is_candidate q) ms (All-In (λ m. In m ms) ms (λ m i. i)) in
    All-sort older (Candidate q ms) (keep (is_candidate q) ms)
      (All-and (λ m. In m ms) (λ m. is_candidate q m ≡ true) _ among (keep-All (is_candidate q) ms))

-- What holds of all candidates in order holds of each that is listed.
all_listed :
    (q : Query) (ms : List Manifest) (P : Manifest → Type 0)
    → All P (ordered q ms)
    → All (λ m. is_candidate q m ≡ true → P m) ms
all_listed q ms P h =
    All-keep_back P (is_candidate q) ms (All-sort_back P older (keep (is_candidate q) ms) h)

module _ (q : Query) (ms : List Manifest) where
  abbrev IsRight : Result Error Selection → Type 0
  IsRight (ok s) = IsSelected q ms s
  IsRight (err e) = Unit

  newest-IsRight :
      (m : Manifest) (cs : List Manifest)
      → ordered q ms ≡ m ∷ cs
      → (q.current_version ≢ "" → less (current q) (version (last m cs)) ≡ true)
      → IsRight (selected (last m cs) false)
  unfolding older
  newest-IsRight m cs e newer =
      let candidates = subst (All (Candidate q ms)) e (ordered-Candidate q ms) in
      let sorted = subst (Sorted older) e (Sorted-candidates (keep (is_candidate q) ms)) in
      let it = All-last (Candidate q ms) m cs candidates in
      record {
        listed = it.0;
        candidate = it.1;
        available = refl;
        update = λ h. record {
          newest = all_listed q ms _ (subst (All _) (sym e) (last_newest m cs sorted));
          newer = newer;
        };
        rolled_back = λ h. absurd (ground (arith, h));
      }

  rollback-IsRight :
      (m : Manifest) (cs : List Manifest)
      → ordered q ms ≡ m ∷ cs
      → less (current q) (version (last m cs)) ≡ false
      → IsRight (roll_back q (m ∷ cs))
  unfolding older
  rollback-IsRight m cs e not_newer =
      let candidates = subst (All (Candidate q ms)) e (ordered-Candidate q ms) in
      let sorted = subst (Sorted older) e (Sorted-candidates (keep (is_candidate q) ms)) in
      let newest = last_newest m cs sorted in
      elim (Bool-cases q.allow_rollback) [
        | inr forbidden ↦
            let answer : roll_back q (m ∷ cs) ≡ err no_update = ground (arith, forbidden) in
            subst IsRight (sym answer) tt
        | inl allowed ↦ elim (Option-cases (last_below (current q) none (m ∷ cs))) [
          | inl nothing ↦
              let answer : roll_back q (m ∷ cs) ≡ err no_update =
                ground (arith, allowed, nothing) in
              subst IsRight (sym answer) tt
          | inr (c, is) ↦
              let r =
                last_below_lem (current q) (Candidate q ms) none (m ∷ cs) c sorted candidates
                  (λ s h. absurd (ground (arith, h))) is in
              let answer : roll_back q (m ∷ cs) ≡ selected c true = ground (arith, allowed, is) in
              subst IsRight (sym answer) (record {
                listed = r.holds.0;
                candidate = r.holds.1;
                available = refl;
                update = λ h. absurd (ground (arith, h));
                rolled_back = λ h. record {
                  allowed = allowed;
                  older = r.is_below;
                  nothing_newer = all_listed q ms _ (
                      subst (All _) (sym e) (
                        All-map _ _ (m ∷ cs)
                          (λ x k.
                            not_less_trans (version x) (version (last m cs)) (current q) k
                              not_newer)
                          newest));
                  nearest = all_listed q ms _ (subst (All _) (sym e) r.nearest);
                };
              })
        ]
      ]

  choose-IsRight : (cs : List Manifest) → ordered q ms ≡ cs → IsRight (choose_from q cs)
  unfolding choose
  choose-IsRight [] e = tt
  choose-IsRight (m ∷ cs) e =
      let n = last m cs in
      let flip = (version_order (current q) (version n) (version n)).1 in
      elim (Bool-cases (q.current_version == "")) [
        | inl fresh ↦
            let answer : choose q (m ∷ cs) n ≡ selected n false = ground (arith, fresh) in
            subst IsRight (sym answer)
              (newest-IsRight m cs e (λ h. absurd (h ((eq_iff q.current_version "").0 fresh))))
        | inr installed ↦ elim (Bool-cases (leb_ℤ (compare (version n) (current q)) (pos 0))) [
          | inl not_newer ↦
              let answer : choose q (m ∷ cs) n ≡ roll_back q (m ∷ cs) =
                ground (arith, installed, not_newer) in
              subst IsRight (sym answer) (rollback-IsRight m cs e (ground (arith, flip, not_newer)))
          | inr newer ↦
              elim (Bool-cases (
                parses n.min_supported_version
                && less (current q) (version_of n.min_supported_version)
                && not n.mandatory)) [
                  | inl held ↦
                      let answer : choose q (m ∷ cs) n ≡ err no_update =
                        ground (arith, installed, newer, held) in
                      subst IsRight (sym answer) tt
                  | inr free ↦
                      let answer : choose q (m ∷ cs) n ≡ selected n false =
                        ground (arith, installed, newer, free) in
                      subst IsRight (sym answer)
                        (newest-IsRight m cs e (λ h. ground (arith, flip, newer)))
                ]
        ]
      ]

  -- `Service.Manifest` selects a listed candidate: a valid manifest, not withdrawn, that does not need a
  -- newer version than the installed one, or is mandatory. As an update it is newer than the installed
  -- version, and no candidate is newer; as a rollback it is allowed, no candidate is newer than the
  -- installed version, and no older candidate is newer than the one selected.
  pub manifest-IsSelected : (s : Selection) → manifest (ok ms) q ≡ ok s → IsSelected q ms s
  unfolding manifest
  manifest-IsSelected s e =
      let right = choose-IsRight (ordered q ms) refl in
      let answer : choose_from q (ordered q ms) ≡ ok s = ground (arith, e) in
      subst IsRight answer right

  -- Nothing of the candidates in order would be an update.
  abbrev IsOutdated : Manifest → Type 0
  IsOutdated m = (q.current_version ≢ "") × (less (current q) (version m) ≡ false)

  IsOk : Result Error Selection → Type 0
  IsOk (ok s) = Unit
  IsOk (err e) = ⊥

  parses_nothing : parses "" ≡ false
  unfolding parse_version number split split_2 trim_space trim_prefix atoi
  parses_nothing = refl

  -- The last line of the choice never turns a candidate down.
  candidate_not_held :
      (m : Manifest)
      → is_candidate q m ≡ true
      → (q.current_version == "") ≡ false
      → (parses m.min_supported_version
          && less (current q) (version_of m.min_supported_version)
          && not m.mandatory)
        ≡ false
  unfolding is_candidate
  candidate_not_held m h installed = elim (Bool-cases (m.min_supported_version == "")) [
    | inl blank ↦
        let unread : parses m.min_supported_version ≡ false =
          ap parses ((eq_iff m.min_supported_version "").0 blank) ∙ parses_nothing in
        ground (arith, unread)
    | inr given ↦ ground (arith, h, installed, given)
  ]

  choose_misses :
      (m : Manifest) (cs : List Manifest)
      → ordered q ms ≡ m ∷ cs
      → choose_from q (m ∷ cs) ≡ err no_update
      → All IsOutdated (m ∷ cs)
  unfolding choose older
  choose_misses m cs e missed =
      let n = last m cs in
      let it =
        All-last (Candidate q ms) m cs (subst (All (Candidate q ms)) e (ordered-Candidate q ms)) in
      let sorted = subst (Sorted older) e (Sorted-candidates (keep (is_candidate q) ms)) in
      let flip = (version_order (current q) (version n) (version n)).1 in
      let installed : (q.current_version == "") ≡ false = ground (arith, missed) in
      let free = candidate_not_held n it.1 installed in
      let not_newer : less (current q) (version n) ≡ false =
        ground (arith, missed, installed, free, flip) in
      All-map _ _ (m ∷ cs)
        (λ x k. (
          (λ h. absurd (ground (arith, installed, (eq_iff q.current_version "").1 h))),
          not_less_trans (version x) (version n) (current q) k not_newer,
        ))
        (last_newest m cs sorted)

  choose_from_plain : (cs : List Manifest) → choose_from q cs ≢ err bad_current_version
  unfolding choose
  choose_from_plain [] h = absurd (ground (arith, h))
  choose_from_plain (m ∷ cs) h =
      absurd (ground (arith, h, Option-cases (last_below (current q) none (m ∷ cs))))

  no_update_is_plain :
      (e : Error) (cs : List Manifest)
      → is_no_update e ≡ true
      → choose_from q cs ≡ err e
      → choose_from q cs ≡ err no_update
  no_update_is_plain no_update cs h answer = answer
  no_update_is_plain bad_current_version cs h answer = absurd (choose_from_plain cs answer)
  no_update_is_plain release_exists cs h answer = absurd (ground (arith, h))
  no_update_is_plain version_exists cs h answer = absurd (ground (arith, h))
  no_update_is_plain ack_incomplete cs h answer = absurd (ground (arith, h))
  no_update_is_plain (invalid_manifest r) cs h answer = absurd (ground (arith, h))
  no_update_is_plain (external x) cs h answer = absurd (ground (arith, h))

  -- It misses no update: where the error is `ErrNoUpdate`, wrapped or not, and the query has an app, a
  -- platform, an arch and a channel, and no installed version or one that parses, there is no candidate
  -- at all, or one version is installed and no candidate is newer.
  pub manifest_misses_none :
      (e : Error)
      → is_blank q.app || is_blank q.platform || is_blank q.arch || is_blank q.channel ≡ false
      → q.current_version == "" || parses q.current_version ≡ true
      → manifest (ok ms) q ≡ err e
      → is_no_update e ≡ true
      → All
          (λ m.
            is_candidate q m ≡ true
            → (q.current_version ≢ "") × (less (current q) (version m) ≡ false))
          ms
  unfolding manifest
  manifest_misses_none e given readable answers none_there =
      let chosen : choose_from q (ordered q ms) ≡ err e =
        ground (arith, given, readable, answers) in
      let answer : choose_from q (ordered q ms) ≡ err no_update =
        no_update_is_plain e (ordered q ms) none_there chosen in
      elim (List-cases (ordered q ms)) [
        | inl empty ↦ all_listed q ms _ (subst (All _) (sym empty) tt)
        | inr (m, cs, e) ↦ all_listed q ms _ (
            subst (All IsOutdated) (sym e) (
              choose_misses m cs e
                (subst (λ (xs : List Manifest). choose_from q xs ≡ err no_update) e answer)))
      ]
