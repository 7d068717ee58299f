-- ===== src/Market/Page.antt =====
-- marketdata.go: a page of orders that `validatePage` accepts.
use alice_eve.Base.{
  ◌≡◌, Bool, true, false, is_some, List, [], ◌∷◌, All, All-map, Bool-cases, Option-cases, inl, inr,
  length, ◌≤◌, arith,
}
use alice_eve.Base.Results.{ok}
use alice_eve.Base.Int.{ℤ, pos, ◌≤ℤ◌}
use alice_eve.Base.Ids.{IdMap, get, put, get-put, same_id}
use alice_eve.Market.{
  Order, invalid_order_reason, valid_order, check_orders, validate_page, max_pages_per_batch,
  max_orders_per_page,
}

-- No two orders have one id.
abbrev pub DistinctIds : List Order → Type 0
DistinctIds [] = Unit
DistinctIds (o ∷ os) = All (λ x. same_id o.order_id x.order_id ≡ false) os × DistinctIds os

-- What is known of orders that pass the loop.
pub record Checked (seen : IdMap Bool) (os : List Order) : Type 0 where
  pub valid : All (λ o. valid_order o ≡ true) os
  pub fresh : All (λ o. is_some (get o.order_id seen) ≡ false) os
  pub distinct : DistinctIds os

check_orders-Checked :
    (seen : IdMap Bool) (os : List Order) → check_orders seen os ≡ ok tt → Checked seen os
unfolding check_orders
check_orders-Checked seen [] h = record { valid = tt; fresh = tt; distinct = tt }
check_orders-Checked seen (o ∷ os) h = elim (Option-cases (invalid_order_reason o)) [
  | inr (reason, bad) ↦ absurd (ground (arith, h, bad))
  | inl good ↦ elim (Bool-cases (is_some (get o.order_id seen))) [
    | inl twice ↦ absurd (ground (arith, h, good, twice))
    | inr once ↦
        let seen' = put o.order_id true seen in
        let rest = check_orders-Checked seen' os (ground (arith, h, good, once)) in
        record {
          valid = (ground (arith, good), rest.valid);
          fresh = (
            once,
            All-map _ _ os (λ x k. ground (arith, k, get-put o.order_id x.order_id true seen))
                rest.fresh,
          );
          distinct = (
            All-map _ _ os (λ x k. ground (arith, k, get-put o.order_id x.order_id true seen))
                rest.fresh,
            rest.distinct,
          );
        }
  ]
]

-- An accepted page is one of the pages expected, of at most the allowed number; it is not too long, each of
-- its orders is valid, and no two have one id.
pub validate_page_ok :
    (page expected : ℤ) (os : List Order)
    → validate_page page expected os ≡ ok tt
    → (pos 1 ≤ℤ page)
      × (page ≤ℤ expected)
      × (expected ≤ℤ pos max_pages_per_batch)
      × (length os ≤ max_orders_per_page)
      × All (λ o. valid_order o ≡ true) os
      × DistinctIds os
unfolding validate_page
validate_page_ok page expected os h =
    let passes : check_orders [] os ≡ ok tt = ground (arith, h) in
    let c = check_orders-Checked [] os passes in
    (
      ground (arith, h),
      ground (arith, h),
      ground (arith, h),
      ground (arith, h),
      c.valid,
      c.distinct,
    )
