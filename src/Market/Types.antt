-- ===== src/Market/Types.antt =====
-- api/src/marketplace/interfaces/marketplace.interface.ts, and what the marketplace reads of the
-- DEX router's ledger. Amounts and prices are the contract's non-negative integers; the API prints
-- them by `toBigIntString`. Times are seconds.
use eco_mint.Prelude.{
  ℕ, String, Bool, true, false, Option, none, some, List, nat_eq, ◌&&◌, ◌≡◌, ◌↔◌, arith, HasEq,
}

pub data OrderStatus : Type 0 where
  opened partially_filled filled cancelled expired : OrderStatus

-- A number in a request: a whole one that fits the contract's type, a whole one that does not, for
-- which the encoding of the argument throws, and one with a fraction, for which `BigInt` throws.
pub data JsNumber : Type 0 where
  whole : ℕ → JsNumber
  oversized : ℕ → JsNumber
  fractional : JsNumber

pub record OrderResponse : Type 0 where
  pub id : ℕ
  pub seller : String
  pub bond_id : ℕ
  pub amount : ℕ
  pub price_per_token : ℕ
  pub quote_asset : String
  pub status : OrderStatus
  pub created_at : ℕ
  pub expires_at : ℕ

abbrev pub status_eq : OrderStatus → OrderStatus → Bool
status_eq opened opened = true
status_eq partially_filled partially_filled = true
status_eq filled filled = true
status_eq cancelled cancelled = true
status_eq expired expired = true
status_eq _ _ = false

abbrev pub is_open_state : OrderStatus → Bool
is_open_state opened = true
is_open_state partially_filled = true
is_open_state _ = false

-- The tuple that `get_order` returns.
pub record RawOrder : Type 0 where
  pub id : ℕ
  pub seller : String
  pub bond_id : ℕ
  pub amount : ℕ
  pub price_per_token : ℕ
  pub quote_asset : String
  pub status_index : ℕ
  pub created_at : ℕ
  pub expires_at : ℕ

-- What simulated calls of the router return; `none` is a call that fails.
pub record Ledger : Type 0 where
  pub order_count : Option ℕ
  pub get_order : ℕ → Option RawOrder
  pub get_quote_balance : String → String → Option ℕ

pub record PageMeta : Type 0 where
  pub page : ℕ
  pub limit : ℕ
  pub total : ℕ
  pub total_pages : ℕ

pub record OrderPage : Type 0 where
  pub content : List OrderResponse
  pub meta : PageMeta

abbrev pub option_status_eq : Option OrderStatus → Option OrderStatus → Bool
option_status_eq none none = true
option_status_eq (some a) (some b) = status_eq a b
option_status_eq _ _ = false

-- The Redis key of a page of orders; bond 0 and no status are `all`.
pub record ListKey : Type 0 where
  pub bond_id : ℕ
  pub status : Option OrderStatus
  pub page : ℕ
  pub limit : ℕ

abbrev pub list_key_eq : ListKey → ListKey → Bool
list_key_eq a b =
    nat_eq a.bond_id b.bond_id
    && option_status_eq a.status b.status
    && nat_eq a.page b.page
    && nat_eq a.limit b.limit

pub option_status_eq_iff : (a b : Option OrderStatus) → (option_status_eq a b ≡ true) ↔ (a ≡ b)
option_status_eq_iff a b = ground arith

pub list_key_eq_iff : (a b : ListKey) → (list_key_eq a b ≡ true) ↔ (a ≡ b)
list_key_eq_iff a b = ground (arith, option_status_eq_iff a.status b.status)

instance abbrev pub list_key_has_eq : HasEq ListKey
list_key_has_eq = record { test = list_key_eq; test_iff = list_key_eq_iff }
