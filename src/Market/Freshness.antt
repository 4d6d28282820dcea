-- ===== src/Market/Freshness.antt =====
-- What a completed purchase answers, and how a refusal of the contract is told to the client.
use eco_mint.Prelude.{
  ℕ, String, true, Option, none, some, [], ◌≡◌, ◌↔◌, ◌⊎◌, refl, ap, ◌∙◌, arith, nat_eq_iff,
  pair_has_eq, string_has_eq, nat_has_eq,
}
use eco_mint.Prelude.Dict.{lookup, lookup-remove, lookup-insert}
use eco_mint.Market.Types.{OrderResponse, Ledger}
use eco_mint.Market.Orders.{Market, fetch_order_from_ledger, get_order, evict_order, store_order}
use eco_mint.Market.Trading.{
  Env, BuyBondDto, BuyNumbers, execute_reply, answers, Outcome, Invocation, buy_bond_tokens,
  execute_purchase_call, after_order_call, returned, map_dex_error, DexFailure, contract_exception,
  http_exception, other_error, execute_purchase, conflict,
}
use eco_mint.Market.Purchase.{counter, counted, with_nonce-up, IsPayable, IsBuyable, dto_of, paid}

-- The answer is the order on the ledger after the call, no list of orders is left in the cache, and
-- the cached copy of the order, if any, is the answer.
pub record IsFresh (env : Env) (id : ℕ) (o : Outcome OrderResponse) : Type 0 where
  pub answer : o.response ≡ returned (fetch_order_from_ledger env.after env.later id)
  pub lists : o.market.order_lists ≡ []
  pub cached : lookup id o.market.orders ≡ fetch_order_from_ledger env.after env.later id

evicted : (id : ℕ) (m : Market) → lookup id (evict_order id m).orders ≡ none
unfolding evict_order
evicted id m = lookup-remove id id m.orders ∙ ground (arith, nat_eq_iff id id)

get_order-miss :
    (ledger : Ledger) (now id : ℕ) (m : Market)
    → lookup id m.orders ≡ none
    → get_order ledger now id m ≡ store_order id (fetch_order_from_ledger ledger now id) m
unfolding get_order
get_order-miss ledger now id m gone = rw (gone, get_order)

-- Storing what was fetched, from a market without the order.
IsStored : ℕ → Option OrderResponse → Market → Market × Option OrderResponse → Type 0
IsStored id o m p = (p.1 ≡ o) × (p.0.order_lists ≡ m.order_lists) × (lookup id p.0.orders ≡ o)

store_order-IsStored :
    (id : ℕ) (o : Option OrderResponse) (m : Market)
    → lookup id m.orders ≡ none
    → IsStored id o m (store_order id o m)
unfolding IsStored store_order
store_order-IsStored id none m gone = (refl, refl, gone)
store_order-IsStored id (some o) m gone =
    (refl, refl, lookup-insert id id o m.orders ∙ ground (arith, nat_eq_iff id id))

evict_order-IsStored :
    (ledger : Ledger) (now id : ℕ) (m : Market)
    → IsStored id
        (fetch_order_from_ledger ledger now id)
        (evict_order id m)
        (get_order ledger now id (evict_order id m))
evict_order-IsStored ledger now id m =
    rw (get_order-miss ledger now id (evict_order id m) (evicted id m)) (
      store_order-IsStored id (fetch_order_from_ledger ledger now id) (evict_order id m)
        (evicted id m))

after_order_call-IsFresh :
    (env : Env) (id : ℕ) (call : Invocation) (m : Market)
    → IsFresh env id (after_order_call env id call m)
unfolding after_order_call IsStored evict_order
after_order_call-IsFresh env id call m =
    let (answer, lists, cached) = evict_order-IsStored env.after env.later id m in
    record { answer = ap returned answer; lists = lists; cached = cached }

payable-IsFresh :
    (env : Env) (p : BuyNumbers) (buyer : String) (m : Market)
    → IsPayable env p buyer
    → env.redis_up ≡ true
    → IsFresh env p.order_id (buy_bond_tokens env (dto_of p) buyer (answers tt) m)
unfolding buy_bond_tokens execute_purchase_call execute_reply
payable-IsFresh env p buyer m b up =
    let call = execute_purchase buyer p.order_id p.max_price p.amount (counter env buyer m) in
    rw
      (
        b.found,
        buy_bond_tokens,
        paid env p buyer (answers tt) m b,
        with_nonce-up env buyer m (execute_purchase_call env p true buyer (answers tt)) up,
      )
      (after_order_call-IsFresh env p.order_id call (counted env buyer m))

-- A purchase that the contract accepts answers with the order as the ledger has it after the call,
-- whatever copies were cached before; the cache then holds that order or nothing, and no list.
pub buy_bond_tokens-IsFresh :
    (env : Env) (dto : BuyBondDto) (buyer : String) (m : Market)
    → (b : IsBuyable env dto buyer) → env.redis_up ≡ true
    → IsFresh env b.numbers.order_id (buy_bond_tokens env dto buyer (answers tt) m)
buy_bond_tokens-IsFresh env dto buyer m b up =
    rw b.asked (payable-IsFresh env b.numbers buyer m b.payable up)

-- The code in the message of an error that is no ContractException.
abbrev pub code_in : DexFailure → Option ℕ
code_in (contract_exception raw) = none
code_in (http_exception status code) = code
code_in (other_error code) = code

-- The client is told of a conflict exactly when the error is no ContractException and its message
-- carries the code of a filled or an expired order.
pub map_dex_error-conflict_iff :
    (e : DexFailure) → (map_dex_error e ≡ conflict) ↔ ((code_in e ≡ some 5) ⊎ (code_in e ≡ some 8))
unfolding map_dex_error
map_dex_error-conflict_iff (contract_exception raw) = ground arith
map_dex_error-conflict_iff (http_exception status none) = ground arith
map_dex_error-conflict_iff (http_exception status (some n)) =
    ground (arith, nat_eq_iff n 5, nat_eq_iff n 8, nat_eq_iff n 10)
map_dex_error-conflict_iff (other_error none) = ground arith
map_dex_error-conflict_iff (other_error (some n)) =
    ground (arith, nat_eq_iff n 5, nat_eq_iff n 8, nat_eq_iff n 10)
