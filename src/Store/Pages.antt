-- ===== src/Store/Pages.antt =====
-- The pages of the backlog: `ListMessages` of memory.go.
use mathlib.Core.List.{Perm}
use mathlib.Core.List.Perm
use alice_eve.Base.{
  ◌≡◌, true, eq_iff, String, arith, keep, All, All-map, keep-All, ◌⊎◌, ◌≤◌, ℕ, List, [], ◌∷◌, ◌++◌,
  length, length-take, take-append-drop, drop, not,
}
use alice_eve.Base.Int.{ℤ, pos, negsuc, ◌≤ℤ◌, ◌<ℤ◌}
use alice_eve.Base.Dict.{values}
use alice_eve.Base.Sort.{sort, Sorted, sort-perm, sort-Sorted, All-sort, keep-perm, take_full}
use alice_eve.Store.{Message, Store, list_messages, page_limit, wanted, earlier}

-- What a call asks for: the messages of an account and an owner behind a cursor.
abbrev pub IsAskedFor : String → String → ℤ → Message → Type 0
IsAskedFor account_id owner after m =
    (m.account_id ≡ account_id) × (m.owner_device_id ≡ owner) × (after <ℤ m.cursor)

-- No cursor is below an earlier one.
abbrev pub Ascending : List Message → Type 0
Ascending [] = Unit
Ascending (m ∷ ms) = All (λ n. m.cursor ≤ℤ n.cursor) ms × Ascending ms

-- How many messages a page may hold: the limit if it is between 1 and 1000, and 100 otherwise.
abbrev pub IsCap : ℤ → ℕ → Type 0
IsCap limit n =
    ((limit ≡ pos n) × (1 ≤ n) × (n ≤ 1000))
    ⊎ ((n ≡ 100) × ((limit ≤ℤ pos 0) ⊎ (pos 1000 <ℤ limit)))

-- A page that holds the first messages asked for. The stored ones fall into the page, the rest of what
-- was asked for, and the others.
pub record Page (s : Store) (account_id owner : String) (after : ℤ) (n : ℕ) (page : List Message)
    : Type 0 where
  pub rest : List Message
  pub others : List Message
  pub whole : Perm ((page ++ rest) ++ others) (values s.messages)
  pub asked_for : All (IsAskedFor account_id owner after) (page ++ rest)
  pub not_asked_for : All (λ m. ¬ IsAskedFor account_id owner after m) others
  pub ascending : Ascending (page ++ rest)
  pub bounded : length page ≤ n
  pub cut_only_if_full : (length page ≡ n) ⊎ (rest ≡ [])

wanted-IsAskedFor :
    (account_id owner : String) (after : ℤ) (m : Message)
    → wanted account_id owner after m ≡ true
    → IsAskedFor account_id owner after m
wanted-IsAskedFor account_id owner after m h =
    ground (arith, eq_iff m.account_id account_id, eq_iff m.owner_device_id owner)

unwanted-IsAskedFor :
    (account_id owner : String) (after : ℤ) (m : Message)
    → not (wanted account_id owner after m) ≡ true
    → ¬ IsAskedFor account_id owner after m
unwanted-IsAskedFor account_id owner after m h asked =
    absurd (ground (arith, eq_iff m.account_id account_id, eq_iff m.owner_device_id owner))

Sorted-Ascending : (ms : List Message) → Sorted earlier ms → Ascending ms
Sorted-Ascending [] h = tt
Sorted-Ascending (m ∷ ms) h =
    (All-map _ _ ms (λ n later. ground (arith, later)) h.0, Sorted-Ascending ms h.1)

page_limit-IsCap : (limit : ℤ) → IsCap limit (page_limit limit)
page_limit-IsCap (pos n) = ground arith
page_limit-IsCap (negsuc n) = ground arith

-- A page of the backlog holds the first of the stored messages of that account and owner with a cursor
-- above the given one, by their cursors: each one that the page leaves out has a cursor no lower than
-- those in it, the page itself ascends, and nothing else is in it. It holds no more messages than the
-- limit if that is between 1 and 1000, and than 100 for any other limit, and fewer only if there are
-- no more.
pub list_messages-Page :
    (s : Store) (account_id owner : String) (after limit : ℤ)
    → (n : ℕ) × IsCap limit n
      × Page s account_id owner after n (list_messages s account_id owner after limit)
unfolding list_messages
list_messages-Page s account_id owner after limit =
    let is_wanted = wanted account_id owner after in
    let asked = keep is_wanted (values s.messages) in
    let others = keep (λ m. not (is_wanted m)) (values s.messages) in
    let n = page_limit limit in
    let all = take-append-drop n (sort earlier asked) in
    (
      n,
      page_limit-IsCap limit,
      record {
        rest = drop n (sort earlier asked);
        others = others;
        whole = rw all (
            Perm.trans (Perm.append_right others (sort-perm earlier asked))
              (keep-perm is_wanted (values s.messages)));
        asked_for = rw all (
            All-sort earlier _ asked (
              All-map _ _ asked (wanted-IsAskedFor account_id owner after)
                (keep-All is_wanted (values s.messages))));
        not_asked_for =
            All-map _ _ others (unwanted-IsAskedFor account_id owner after)
              (keep-All (λ m. not (is_wanted m)) (values s.messages));
        ascending = rw all (
            Sorted-Ascending _
              (sort-Sorted earlier (λ x y h. ground arith) (λ x y z h k. ground arith) asked));
        bounded = omega (arith, length-take n (sort earlier asked));
        cut_only_if_full = take_full n (sort earlier asked);
      },
    )
