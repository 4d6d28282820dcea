-- ===== src/Market/Liquidity.antt =====
-- api/src/marketplace/liquidity.service.ts: prices and fillability from the open orders. The prices
-- and amounts of an order are positive in the contract.
use eco_mint.Prelude.{
  ℕ, ◌+◌, ◌-◌, ◌*◌, ◌/◌, Option, none, some, List, [], ◌∷◌, ◌++◌, map, length, leb, ltb, nat_eq,
  if◌then◌else◌, nat_has_eq,
}
use eco_mint.Prelude.Dict.{lookup, insert}
use eco_mint.Market.Types.{opened, OrderResponse, Ledger, OrderPage, ListKey, status_eq}
use eco_mint.Market.Orders.{Market, list_orders}

abbrev pub sum : List ℕ → ℕ
sum [] = 0
sum (n ∷ ns) = n + sum ns

-- The open orders of a bond, as `listOrders(bondId, 'Open', 1, 100)` asks for them.
abbrev pub open_key : ℕ → ListKey
open_key bond = record { bond_id = bond; status = some opened; page = 1; limit = 100 }

-- The stable sort by price, as a sort by insertion.
unfoldable pub insert_by_price : OrderResponse → List OrderResponse → List OrderResponse
insert_by_price o [] = o ∷ []
insert_by_price o (x ∷ xs) =
    let rest = insert_by_price o xs in
    if leb o.price_per_token x.price_per_token then o ∷ x ∷ xs else x ∷ rest

unfoldable pub sort_by_price : List OrderResponse → List OrderResponse
sort_by_price [] = []
sort_by_price (o ∷ os) = insert_by_price o (sort_by_price os)

pub record PriceLevel : Type 0 where
  pub price : ℕ
  pub amount : ℕ
  pub total : ℕ

abbrev pub best_level : List OrderResponse → PriceLevel
best_level [] = record { price = 0; amount = 0; total = 0 }
best_level (o ∷ os) = record {
  price = o.price_per_token;
  amount = o.amount;
  total = o.price_per_token * o.amount;
}

-- The loop of `calculateSlippage`: `remaining`, `totalCost` and `totalAmount`.
pub record Fill : Type 0 where
  pub remaining : ℕ
  pub total_cost : ℕ
  pub total_amount : ℕ

abbrev pub take_order : Fill → OrderResponse → Fill
take_order f o =
    let taken = if ltb f.remaining o.amount then f.remaining else o.amount in
    record {
      remaining = f.remaining - taken;
      total_cost = f.total_cost + taken * o.price_per_token;
      total_amount = f.total_amount + taken;
    }

unfoldable pub fill_orders : Fill → List OrderResponse → Fill
fill_orders f [] = f
fill_orders f (o ∷ os) =
    let rest = fill_orders (take_order f o) os in if leb f.remaining 0 then f else rest

pub data FillabilityStatus : Type 0 where
  fully_fillable partially_fillable unfillable : FillabilityStatus

pub record SlippageResponse : Type 0 where
  pub bond_id : ℕ
  pub requested_amount : ℕ
  pub fillable_amount : ℕ
  pub unfilled_amount : ℕ
  pub average_price : ℕ
  pub estimated_total : ℕ
  pub slippage_percent : ℕ
  pub fillability_status : FillabilityStatus

abbrev pub fillability : ℕ → ℕ → FillabilityStatus
fillability fillable unfilled =
    if nat_eq unfilled 0
    then fully_fillable
    else if ltb 0 fillable
    then partially_fillable
    else unfillable

abbrev pub divide : ℕ → ℕ → ℕ
divide a b = if ltb 0 b then a / b else 0

abbrev pub start_fill : ℕ → Fill
start_fill amount = record { remaining = amount; total_cost = 0; total_amount = 0 }

-- `Math.max(0, …)` of the signed quotient is the quotient of the subtraction that stops at 0.
unfoldable pub slippage_of : ℕ → ℕ → List OrderResponse → SlippageResponse
slippage_of bond amount orders =
    let sorted = sort_by_price orders in
    let f = fill_orders (start_fill amount) sorted in
    let ideal = amount * (best_level sorted).price in
    record {
      bond_id = bond;
      requested_amount = amount;
      fillable_amount = amount - f.remaining;
      unfilled_amount = f.remaining;
      average_price = divide f.total_cost f.total_amount;
      estimated_total = f.total_cost;
      slippage_percent = divide ((f.total_cost - ideal) * 100) ideal;
      fillability_status = fillability (amount - f.remaining) f.remaining;
    }

pub record PriceGroup : Type 0 where
  pub prices : List ℕ
  pub amounts : List ℕ
  pub total_volume : ℕ

abbrev pub group_or_empty : Option PriceGroup → PriceGroup
group_or_empty none = record { prices = []; amounts = []; total_volume = 0 }
group_or_empty (some g) = g

abbrev pub push_order : PriceGroup → OrderResponse → PriceGroup
push_order g o = record {
  prices = g.prices ++ o.price_per_token ∷ [];
  amounts = g.amounts ++ o.amount ∷ [];
  total_volume = g.total_volume + o.amount * o.price_per_token;
}

abbrev pub group_order : List (ℕ × PriceGroup) → OrderResponse → List (ℕ × PriceGroup)
group_order grouped o =
    if status_eq o.status opened
    then insert o.bond_id (push_order (group_or_empty (lookup o.bond_id grouped)) o) grouped
    else grouped

unfoldable pub group_orders : List (ℕ × PriceGroup) → List OrderResponse → List (ℕ × PriceGroup)
group_orders grouped [] = grouped
group_orders grouped (o ∷ os) = group_orders (group_order grouped o) os

pub record PriceFeedResponse : Type 0 where
  pub bond_id : ℕ
  pub best_price : ℕ
  pub average_price : ℕ
  pub total_orders : ℕ
  pub total_volume : ℕ

-- `prices.reduce((a, b) => a < b ? a : b, start)`
unfoldable pub reduce_min : ℕ → List ℕ → ℕ
reduce_min a [] = a
reduce_min a (b ∷ bs) = reduce_min (if ltb a b then a else b) bs

unfoldable pub feed_of : ℕ × PriceGroup → PriceFeedResponse
feed_of (id, g) = record {
  bond_id = id;
  best_price = reduce_min 0 g.prices;
  average_price = divide (sum g.prices) (length g.prices);
  total_orders = length g.prices;
  total_volume = g.total_volume;
}

unfoldable pub feeds_of : List OrderResponse → List PriceFeedResponse
feeds_of orders = map feed_of (group_orders [] orders)

-- The marketplace with the Redis keys `pricefeed:*`.
pub record Liquidity : Type 0 where
  pub market : Market
  pub feeds : List (ℕ × List PriceFeedResponse)

abbrev pub store_feeds :
    ℕ → Liquidity → Market × Option OrderPage → Liquidity × Option (List PriceFeedResponse)
store_feeds bond l (m, none) = (record l { market = m }, none)
store_feeds bond l (m, some page) =
    let feeds = feeds_of page.content in
    (record { market = m; feeds = insert bond feeds l.feeds }, some feeds)

-- Bond 0 is the feed of all bonds; `none` is the error of a failed `order_count`.
unfoldable pub get_price_feed :
    Ledger → ℕ → ℕ → Liquidity → Liquidity × Option (List PriceFeedResponse)
get_price_feed ledger now bond l = elim (lookup bond l.feeds) [
  | some feeds ↦ (l, some feeds)
  | none ↦ store_feeds bond l (list_orders ledger now (open_key bond) l.market)
]

abbrev pub on_page {ℓ} :
    {A : Type ℓ}
    → Liquidity
    → (List OrderResponse → A)
    → Market × Option OrderPage
    → Liquidity × Option A
on_page l f (m, none) = (record l { market = m }, none)
on_page l f (m, some page) = (record l { market = m }, some (f page.content))

unfoldable pub get_best_price : Ledger → ℕ → ℕ → Liquidity → Liquidity × Option PriceLevel
get_best_price ledger now bond l =
    on_page l (λ orders. best_level (sort_by_price orders))
      (list_orders ledger now (open_key bond) l.market)

unfoldable pub calculate_slippage :
    Ledger → ℕ → ℕ → ℕ → Liquidity → Liquidity × Option SlippageResponse
calculate_slippage ledger now bond amount l =
    on_page l (slippage_of bond amount) (list_orders ledger now (open_key bond) l.market)
