-- ===== src/Market/Orders.antt =====
-- Reading orders in api/src/marketplace/dex.service.ts, through two Redis caches. Redis is taken to
-- answer; an entry that expires is dropped by `expire_order` or `expire_list`.
use eco_mint.Prelude.{
  ℕ, zero, suc, ◌+◌, ◌-◌, ◌*◌, ◌/◌, String, Bool, true, ◌&&◌, ◌||◌, Option, none, some, List, [],
  ◌∷◌, leb, nat_eq, take, drop, filter, length, nat_has_eq, if◌then◌else◌, pair_has_eq,
  string_has_eq,
}
use eco_mint.Prelude.Dict.{lookup, insert, remove}
use eco_mint.Nonce.{Counters}
use eco_mint.Market.Types.{
  OrderStatus, opened, partially_filled, filled, cancelled, expired, OrderResponse, RawOrder,
  Ledger, OrderPage, ListKey, status_eq, is_open_state, list_key_has_eq,
}

-- The Redis keys of the marketplace.
pub record Market : Type 0 where
  pub order_lists : List (ListKey × OrderPage)
  pub orders : List (ℕ × OrderResponse)
  pub quote_index : List ((String × String) × ℕ)
  pub nonces : Counters

abbrev pub order_status_from_index : ℕ → OrderStatus
order_status_from_index n =
    if nat_eq n 1
    then partially_filled
    else if nat_eq n 2
    then filled
    else if nat_eq n 3
    then cancelled
    else if nat_eq n 4
    then expired
    else opened

unfoldable pub derive_effective_status : OrderStatus → ℕ → ℕ → OrderStatus
derive_effective_status raw expires_at now_seconds =
    if is_open_state raw && leb expires_at now_seconds then expired else raw

unfoldable pub decode_order : ℕ → RawOrder → OrderResponse
decode_order now r = record {
  id = r.id;
  seller = r.seller;
  bond_id = r.bond_id;
  amount = r.amount;
  price_per_token = r.price_per_token;
  quote_asset = r.quote_asset;
  status = derive_effective_status (order_status_from_index r.status_index) r.expires_at now;
  created_at = r.created_at;
  expires_at = r.expires_at;
}

abbrev pub decode_option : ℕ → Option RawOrder → Option OrderResponse
decode_option now none = none
decode_option now (some r) = some (decode_order now r)

unfoldable pub fetch_order_from_ledger : Ledger → ℕ → ℕ → Option OrderResponse
fetch_order_from_ledger ledger now id = decode_option now (ledger.get_order id)

unfoldable pub store_order : ℕ → Option OrderResponse → Market → Market × Option OrderResponse
store_order id none m = (m, none)
store_order id (some o) m = (record m { orders = insert id o m.orders }, some o)

unfoldable pub get_order : Ledger → ℕ → ℕ → Market → Market × Option OrderResponse
get_order ledger now id m = elim (lookup id m.orders) [
  | some o ↦ (m, some o)
  | none ↦ store_order id (fetch_order_from_ledger ledger now id) m
]

-- `ids.map(tryGetOrder)` without the nulls, for the ids from `id` on
unfoldable pub orders_from : Ledger → ℕ → ℕ → ℕ → List OrderResponse
orders_from ledger now id zero = []
orders_from ledger now id (suc n) =
    let rest = orders_from ledger now (suc id) n in
    elim (fetch_order_from_ledger ledger now id) [ none ↦ rest | some o ↦ o ∷ rest ]

-- `!bondId || order.bondId === bondId`
abbrev pub fits_bond : ℕ → OrderResponse → Bool
fits_bond bond o = nat_eq bond 0 || nat_eq o.bond_id bond

abbrev pub fits_status : Option OrderStatus → OrderResponse → Bool
fits_status none o = true
fits_status (some s) o = status_eq o.status s

unfoldable pub matching_orders : Ledger → ℕ → ℕ → ℕ → Option OrderStatus → List OrderResponse
matching_orders ledger now total bond status =
    filter (fits_status status) (filter (fits_bond bond) (orders_from ledger now 1 total))

-- `Math.ceil(total / limit) || 1`, at a positive limit
unfoldable pub total_pages : ℕ → ℕ → ℕ
total_pages total limit =
    let pages = (total + limit - 1) / limit in if nat_eq pages 0 then 1 else pages

-- `slice((page - 1) * limit, (page - 1) * limit + limit)`
unfoldable pub paged {ℓ} : {A : Type ℓ} → ℕ → ℕ → List A → List A
paged page limit xs = take limit (drop ((page - 1) * limit) xs)

unfoldable pub page_of : ListKey → List OrderResponse → OrderPage
page_of key matching = record {
  content = paged key.page key.limit matching;
  meta = record {
    page = key.page;
    limit = key.limit;
    total = length matching;
    total_pages = total_pages (length matching) key.limit;
  };
}

unfoldable pub store_page : Ledger → ℕ → ListKey → Option ℕ → Market → Market × Option OrderPage
store_page ledger now key none m = (m, none)
store_page ledger now key (some total) m =
    let page = page_of key (matching_orders ledger now total key.bond_id key.status) in
    (record m { order_lists = insert key page m.order_lists }, some page)

-- `none` is the error of a failed `order_count`.
unfoldable pub list_orders : Ledger → ℕ → ListKey → Market → Market × Option OrderPage
list_orders ledger now key m = elim (lookup key m.order_lists) [
  | some page ↦ (m, some page)
  | none ↦ store_page ledger now key ledger.order_count m
]

pub expire_order : ℕ → Market → Market
expire_order id m = record m { orders = remove id m.orders }

pub expire_list : ListKey → Market → Market
expire_list key m = record m { order_lists = remove key m.order_lists }

-- `delPattern('orders:*')`, then `del('order:<id>')`
unfoldable pub evict_order : ℕ → Market → Market
evict_order id m = record m { order_lists = []; orders = remove id m.orders }
