-- ===== src/Market.antt =====
-- relay-server/internal/marketdata: the collection of market orders by region. This file has the data of
-- marketdata.go and what makes a page of orders valid; the children have the jobs and the schedule.
--
-- Ids are int64 (`ℤ`), times nanoseconds with `none` for the zero time. Of a price only the tests that the
-- code makes matter.
pub mod Jobs
pub mod Page
use alice_eve.Base.{
  Bool, true, false, ◌||◌, ◌&&◌, not, Option, none, some, String, if◌then◌else◌, List, [], ◌∷◌, ℕ,
  is_none, is_some, ltb, length,
}
use alice_eve.Base.Results.{Result, ok, err, ◌>>◌}
use alice_eve.Base.Int.{ℤ, pos, leb_ℤ, ltb_ℤ}
use alice_eve.Base.Ids.{IdMap, get, put}
use alice_eve.Base.Text.{is_blank}
use alice_eve.Base.Split.{byte_length}

-- What is wrong with an order.
pub data Reason : Type 0 where
  bad_order_id bad_type_id bad_location_id bad_system_id bad_price bad_volume : Reason
  bad_min_volume bad_range bad_duration bad_issued : Reason

-- `ErrInvalidInput`, with what the message adds.
pub data Error : Type 0 where
  invalid_input duplicate_order : Error
  invalid_order : Reason → Error

-- A price, by what the code asks of it.
pub record Price : Type 0 where
  pub is_nan : Bool
  pub is_inf : Bool
  pub is_negative : Bool

pub record Order : Type 0 where
  pub order_id : ℤ
  pub type_id : ℤ
  pub location_id : ℤ
  pub system_id : ℤ
  pub is_buy_order : Bool
  pub price : Price
  pub volume_total : ℤ
  pub volume_remain : ℤ
  pub min_volume : ℤ
  pub range : String
  pub duration : ℤ
  pub issued : Option ℕ

abbrev pub max_universe_id : ℕ
max_universe_id = 2147483647

abbrev pub max_orders_per_page : ℕ
max_orders_per_page = 10000

abbrev pub max_pages_per_batch : ℕ
max_pages_per_batch = 10000

unfoldable pub valid_region : ℤ → Bool
valid_region id = ltb_ℤ (pos 0) id && leb_ℤ id (pos max_universe_id)

-- The reason, in the order of the cases.
unfoldable pub invalid_order_reason : Order → Option Reason
invalid_order_reason o =
    if leb_ℤ o.order_id (pos 0)
    then some bad_order_id
    else if leb_ℤ o.type_id (pos 0) || ltb_ℤ (pos max_universe_id) o.type_id
    then some bad_type_id
    else if leb_ℤ o.location_id (pos 0)
    then some bad_location_id
    else if leb_ℤ o.system_id (pos 0) || ltb_ℤ (pos max_universe_id) o.system_id
    then some bad_system_id
    else if o.price.is_nan || o.price.is_inf || o.price.is_negative
    then some bad_price
    else if ltb_ℤ o.volume_total (pos 0)
        || ltb_ℤ o.volume_remain (pos 0)
        || ltb_ℤ o.volume_total o.volume_remain
    then some bad_volume
    else if leb_ℤ o.min_volume (pos 0)
    then some bad_min_volume
    else if is_blank o.range || ltb 32 (byte_length o.range)
    then some bad_range
    else if leb_ℤ o.duration (pos 0)
    then some bad_duration
    else if is_none o.issued
    then some bad_issued
    else none

abbrev pub valid_order : Order → Bool
valid_order o = is_none (invalid_order_reason o)

-- The loop over the orders, with the ids that it has seen.
unfoldable pub check_orders : IdMap Bool → List Order → Result Error (Unit {0})
check_orders seen [] = ok tt
check_orders seen (o ∷ os) =
    let rest = check_orders (put o.order_id true seen) os in
    elim (invalid_order_reason o) [
      | some reason ↦ err (invalid_order reason)
      | none ↦ if is_some (get o.order_id seen) then err duplicate_order else rest
    ]

unfoldable pub validate_page : (page expected : ℤ) → List Order → Result Error (Unit {0})
validate_page page expected orders =
    if ltb_ℤ page (pos 1)
      || ltb_ℤ expected (pos 1)
      || ltb_ℤ expected page
      || ltb_ℤ (pos max_pages_per_batch) expected
      || ltb max_orders_per_page (length orders)
    then err invalid_input
    else check_orders [] orders
