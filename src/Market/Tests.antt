-- ===== src/Market/Tests.antt =====
-- Concrete runs of the marketplace.
use eco_mint.Prelude.{
  Has, if◌then◌else◌, sym, ap, pair_has_eq, string_has_eq, ℕ, ◌≤◌, min, true, Option, none, some,
  List, [], ◌∷◌, ◌≡◌, ◌↔◌, refl, arith, length, nat_eq, filter, All, ◌⊎◌, nat_has_eq, inl, inr,
}
use eco_mint.Prelude.Dict.{lookup, insert}
use eco_mint.Nonce.{next, incr}
use eco_mint.Market.Nonces.{AnyRefused}
use eco_mint.Market.Types.{
  whole, fractional, opened, partially_filled, OrderResponse, RawOrder, Ledger,
}
use eco_mint.Market.Orders.{
  Market, total_pages, fetch_order_from_ledger, decode_order, derive_effective_status, paged,
  matching_orders, orders_from,
}
use eco_mint.Market.Pages.{all_pages, all_pages-total_pages}
use eco_mint.Market.QuoteAssets.{normalize_quote_asset_symbol, get_quote_asset, find_asset}
use eco_mint.Market.Trading.{
  invalidate_quote_balance_index, deposit, with_nonce, escrow_call, Env, BuyBondDto, BuyNumbers,
  fails, answers, buy_bond_tokens, get_quote_balance, conflict, other_error, map_dex_error,
}
use eco_mint.Market.Purchase.{IsPayable, IsBuyable, calls, buy_bond_tokens-calls_iff}
use eco_mint.Market.Sequence.{
  Request, buying, cancelling, depositing, nonces_of, count_up, nonce_at, nonces_of-count_up,
  IsAscending, nonces_of-IsAscending,
}
use eco_mint.Market.Freshness.{
  IsFresh, buy_bond_tokens-IsFresh, code_in, map_dex_error-conflict_iff,
}
use eco_mint.Market.Liquidity.{
  slippage_of, sort_by_price, insert_by_price, fill_orders, feeds_of, group_orders,
  PriceFeedResponse,
}
use eco_mint.Market.Filling.{Choice, orders_of, price_of, supply}
use eco_mint.Market.Slippage.{slippage_of-fillable, slippage_of-least, status_for}
use eco_mint.Market.Reconciliation.{
  Mismatch, balance_mismatch, missing_order, repair, reconcile_orders,
}
use eco_mint.Market.Repair.{
  names_balance, repair-lookup, IsNumbered, IsFunded, open_index, reconcile_orders-partially_filled,
}
use eco_mint.Market.Feeds.{feeds_of-best_price, group_orders-summary, summary, counts_for}

abbrev three : List ℕ
three = 5 ∷ 6 ∷ 7 ∷ []

all_pages_example : all_pages (total_pages (length three) 2) 2 three ≡ three
all_pages_example = all_pages-total_pages 2 three (omega arith)

abbrev raw : ℕ → RawOrder
raw id = record {
  id = id;
  seller = "bob";
  bond_id = 1;
  amount = 10;
  price_per_token = 3;
  quote_asset = "USDC";
  status_index = 0;
  created_at = 0;
  expires_at = 500;
}

abbrev ledger : Ledger
ledger = record {
  order_count = some 1;
  get_order = λ id. some (raw id);
  get_quote_balance = λ a asset. some 100;
}

abbrev env : Env
env = record {
  dex_router = "dex";
  upper = λ s. s;
  redis_up = true;
  before = ledger;
  now = 100;
  after = ledger;
  later = 101;
}

abbrev purchase : BuyBondDto
purchase = record { order_id = whole 1; amount = whole 4; max_price = whole 5 }

abbrev market : Market
market = record { order_lists = []; orders = []; quote_index = []; nonces = [] }

abbrev purchase_numbers : BuyNumbers
purchase_numbers = record { order_id = 1; amount = 4; max_price = 5 }

payable : IsPayable env purchase_numbers "carol"
unfolding fetch_order_from_ledger decode_order derive_effective_status get_quote_balance
    normalize_quote_asset_symbol get_quote_asset find_asset
payable = record {
  order = decode_order 100 (raw 1);
  found = refl;
  actionable = refl;
  enough = omega arith;
  cheap = omega arith;
  balance = 100;
  escrowed = refl;
  covers = omega arith;
}

abbrev buyable : IsBuyable env purchase "carol"
buyable = record { numbers = purchase_numbers; asked = refl; payable = payable }

buy_calls_example :
    (calls (buy_bond_tokens env purchase "carol" (answers tt) market) ≡ true)
    ↔ (IsBuyable env purchase "carol" × (true ≡ true))
buy_calls_example = buy_bond_tokens-calls_iff env purchase "carol" (answers tt) market

after_purchase_example : IsFresh env 1 (buy_bond_tokens env purchase "carol" (answers tt) market)
after_purchase_example = buy_bond_tokens-IsFresh env purchase "carol" market buyable refl

all_whole : ¬ AnyRefused (whole 5 ∷ [])
all_whole (inl e) = cc
all_whole (inr h) = absurd h

abbrev requests : List (Env × Request)
requests =
    (env, buying purchase "carol" (answers tt))
    ∷ (env, depositing "USDC" (whole 5) "dave" (answers tt))
    ∷ (env, cancelling 1 "carol" (fails (other_error (some 8))))
    ∷ []

nonces_example :
    nonces_of "dex" "carol" requests market
    ≡ count_up (nonce_at "dex" "carol" market) (length (nonces_of "dex" "carol" requests market))
nonces_example =
    nonces_of-count_up "dex" "carol" requests market
      ((λ h. cc), ((λ h. all_whole h), ((λ h. h), tt)))

-- An amount with a fraction leaves a nonce out.
abbrev gap : List (Env × Request)
gap =
    (env, depositing "USDC" (whole 5) "carol" (answers tt))
    ∷ (env, depositing "USDC" fractional "carol" (answers tt))
    ∷ (env, depositing "USDC" (whole 7) "carol" (answers tt))
    ∷ []

ascending_example : IsAscending (nonce_at "dex" "carol" market) (nonces_of "dex" "carol" gap market)
ascending_example = nonces_of-IsAscending "dex" "carol" gap market

gap_left : nonces_of "dex" "carol" gap market ≡ 0 ∷ 2 ∷ []
unfolding deposit with_nonce escrow_call next incr lookup insert invalidate_quote_balance_index
    normalize_quote_asset_symbol get_quote_asset find_asset
gap_left = refl

conflict_example :
    (map_dex_error (other_error (some 8)) ≡ conflict)
    ↔ ((code_in (other_error (some 8)) ≡ some 5) ⊎ (code_in (other_error (some 8)) ≡ some 8))
conflict_example = map_dex_error-conflict_iff (other_error (some 8))

abbrev order : ℕ → ℕ → ℕ → OrderResponse
order id amount price = record {
  id = id;
  seller = "bob";
  bond_id = 1;
  amount = amount;
  price_per_token = price;
  quote_asset = "USDC";
  status = opened;
  created_at = 0;
  expires_at = 500;
}

abbrev book : List OrderResponse
book = order 1 10 5 ∷ order 2 4 3 ∷ []

fillable_example :
    ((slippage_of 1 20 book).fillable_amount ≡ min 20 (supply book))
    × ((slippage_of 1 20 book).unfilled_amount ≡ 6)
    × ((slippage_of 1 20 book).fillability_status ≡ status_for 20 (supply book))
fillable_example = slippage_of-fillable 1 20 book

abbrev choice : Choice
choice = (order 1 10 5, 6) ∷ (order 2 4 3, 0) ∷ []

least_example : (slippage_of 1 6 (orders_of choice)).estimated_total ≤ price_of choice
unfolding slippage_of sort_by_price insert_by_price fill_orders
least_example = slippage_of-least 1 6 choice (omega arith, (omega arith, tt)) refl

best_price_example : All (λ (f : PriceFeedResponse). f.best_price ≡ 0) (feeds_of book)
best_price_example = feeds_of-best_price book

summary_example : lookup 1 (group_orders [] book) ≡ summary (filter (counts_for 1) book)
summary_example = group_orders-summary 1 book

abbrev report : List Mismatch
report = missing_order 1 partially_filled ∷ balance_mismatch "carol" "USDC" 9 7 ∷ []

abbrev indexed_market : Market
indexed_market = record market { quote_index = (("carol", "USDC"), 7) ∷ (("dave", "USDC"), 3) ∷ [] }

repair_example : lookup ("carol", "USDC") (repair report indexed_market).quote_index ≡ (
    if names_balance "carol" "USDC" report
    then none
    else lookup ("carol", "USDC") indexed_market.quote_index)
repair_example = repair-lookup "carol" "USDC" report indexed_market

-- The second order is partially filled, the others are open.
abbrev half_ledger : Ledger
half_ledger = record ledger {
  order_count = some 3;
  get_order = λ id. some (record (raw id) { status_index = if nat_eq id 2 then 1 else 0 });
}

abbrev id_of : Option OrderResponse → ℕ
id_of none = 0
id_of (some o) = o.id

half_ledger-IsNumbered : IsNumbered half_ledger 100
unfolding fetch_order_from_ledger decode_order
half_ledger-IsNumbered id o h = sym (ap id_of h)

half_ledger-IsFunded : All (IsFunded (λ s. s) half_ledger) (open_index half_ledger 100 3)
unfolding fetch_order_from_ledger decode_order derive_effective_status paged matching_orders
    orders_from get_quote_balance normalize_quote_asset_symbol get_quote_asset find_asset
half_ledger-IsFunded = ((100, refl), ((100, refl), tt))

missing_example :
    (m' : Market) × (xs : List Mismatch) × (reconcile_orders (λ s. s) half_ledger 100 500 market
      ≡ some (m', xs))
    × Has (missing_order 2 partially_filled) xs
unfolding fetch_order_from_ledger decode_order derive_effective_status lookup
missing_example =
    reconcile_orders-partially_filled (λ s. s) half_ledger 100 500 3 2 market
      (decode_order 100 (record (raw 2) { status_index = 1 })) half_ledger-IsNumbered refl refl
      half_ledger-IsFunded refl refl (omega arith) (omega arith)
