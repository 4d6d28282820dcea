-- ===== src/Market/Purchase.antt =====
-- When a purchase or a cancellation reaches the contract, and what it answers.
use eco_mint.Prelude.{
  ℕ, ◌*◌, ◌+◌, ◌-◌, ◌≤◌, String, Bool, true, false, ◌&&◌, Option, none, some, ◌≡◌, ◌↔◌, inl, inr,
  refl, sym, ap, ◌∙◌, arith, is_some, pair_has_eq, string_has_eq, nat_has_eq, Bool-cases,
  Option-cases,
}
use eco_mint.Prelude.Dict.{lookup, insert}
use eco_mint.Nonce.{next, incr, count_or_zero}
use eco_mint.Market.Types.{OrderResponse, is_open_state, JsNumber, whole, oversized, fractional}
use eco_mint.Market.Orders.{Market, fetch_order_from_ledger}
use eco_mint.Market.Trading.{
  Env, BuyBondDto, BuyNumbers, fits, execute_reply, Reply, fails, answers, Outcome, DexError,
  buy_bond_tokens, buy_order, pay_order, get_quote_balance, with_nonce, with_counted,
  execute_purchase_call, assert_order_is_actionable, escrow_covers, after_order_call, refuse,
}

-- The order on the ledger can be bought as asked, and the buyer's escrow pays for it.
pub record IsPayable (env : Env) (dto : BuyNumbers) (buyer : String) : Type 0 where
  pub order : OrderResponse
  pub found : fetch_order_from_ledger env.before env.now dto.order_id ≡ some order
  pub actionable : is_open_state order.status ≡ true
  pub enough : dto.amount ≤ order.amount
  pub cheap : order.price_per_token ≤ dto.max_price
  pub balance : ℕ
  pub escrowed : get_quote_balance env.upper env.before buyer order.quote_asset ≡ some balance
  pub covers : order.price_per_token * dto.amount ≤ balance

abbrev pub dto_of : BuyNumbers → BuyBondDto
dto_of p = record {
  order_id = whole p.order_id;
  amount = whole p.amount;
  max_price = whole p.max_price;
}

-- The numbers of the request are whole and fit the contract's types, and so they can be bought.
pub record IsBuyable (env : Env) (dto : BuyBondDto) (buyer : String) : Type 0 where
  pub numbers : BuyNumbers
  pub asked : dto ≡ dto_of numbers
  pub payable : IsPayable env numbers buyer

abbrev pub calls : {A : Type 0} → Outcome A → Bool
calls o = is_some o.invoked

-- The nonce that the next call for the caller carries.
abbrev pub counter : Env → String → Market → ℕ
counter env caller m = count_or_zero (lookup (env.dex_router, caller) m.nonces)

abbrev pub counted : Env → String → Market → Market
counted env caller m = record m {
  nonces = insert (env.dex_router, caller) (counter env caller m + 1) m.nonces;
}

pub with_nonce-down :
    {A : Type 0} (env : Env) (caller : String) (m : Market) (body : ℕ → Market → Outcome A)
    → env.redis_up ≡ false
    → with_nonce env caller m body ≡ refuse m DexError.service_unavailable
unfolding with_nonce next
with_nonce-down env caller m body down = rw (down, next, with_nonce)

next_up :
    (env : Env) (caller : String) (m : Market)
    → env.redis_up ≡ true
    → next env.redis_up env.dex_router caller m.nonces ≡ (
      insert (env.dex_router, caller) (counter env caller m + 1) m.nonces,
      some (counter env caller m),
    )
unfolding next incr
next_up env caller m up =
    let e : counter env caller m + 1 - 1 ≡ counter env caller m = omega arith in rw (up, next, e)

pub with_nonce-up :
    {A : Type 0} (env : Env) (caller : String) (m : Market) (body : ℕ → Market → Outcome A)
    → env.redis_up ≡ true
    → with_nonce env caller m body ≡ body (counter env caller m) (counted env caller m)
unfolding with_nonce
with_nonce-up env caller m body up = ap (with_counted m body) (next_up env caller m up)

execute-calls :
    (env : Env) (dto : BuyNumbers) (buyer : String) (reply : Reply (Unit {0})) (n : ℕ) (m : Market)
    → calls (execute_purchase_call env dto true buyer reply n m) ≡ true
unfolding execute_purchase_call execute_reply after_order_call
execute-calls env dto buyer (fails e) n m = refl
execute-calls env dto buyer (answers t) n m = refl

purchase-calls :
    (env : Env) (dto : BuyNumbers) (buyer : String) (reply : Reply (Unit {0})) (m : Market)
    → calls (with_nonce env buyer m (execute_purchase_call env dto true buyer reply)) ≡ env.redis_up
purchase-calls env dto buyer reply m = elim (Bool-cases env.redis_up) [
  | inl up ↦
      ap calls (with_nonce-up env buyer m (execute_purchase_call env dto true buyer reply) up)
      ∙ execute-calls env dto buyer reply (counter env buyer m) (counted env buyer m)
      ∙ sym up
  | inr down ↦
      ap calls (with_nonce-down env buyer m (execute_purchase_call env dto true buyer reply) down)
      ∙ sym down
]

buy_order-calls :
    (env : Env) (dto : BuyNumbers) (buyer : String) (reply : Reply (Unit {0})) (m : Market)
    (o : OrderResponse)
    → calls (buy_order env dto.order_id (dto_of dto) buyer reply m o) ≡ true ↔ (
        (is_open_state o.status ≡ true)
        × (dto.amount ≤ o.amount)
        × (o.price_per_token ≤ dto.max_price)
        × (escrow_covers
              (get_quote_balance env.upper env.before buyer o.quote_asset)
              (o.price_per_token * dto.amount)
            ≡ some true)
        × (env.redis_up ≡ true))
unfolding buy_order pay_order assert_order_is_actionable
buy_order-calls env dto buyer reply m o = ground (arith, purchase-calls env dto buyer reply m)

covers_iff :
    (b : Option ℕ) (p : ℕ) → (escrow_covers b p ≡ some true) ↔ ((n : ℕ) × (b ≡ some n) × (p ≤ n))
covers_iff none p = ground arith
covers_iff (some n) p = (λ h. (n, refl, ground arith), λ (k, e, h). ground arith)

buyable :
    (env : Env) (dto : BuyNumbers) (buyer : String) (reply : Reply (Unit {0})) (m : Market)
    (o : OrderResponse)
    → fetch_order_from_ledger env.before env.now dto.order_id ≡ some o
    → calls (buy_order env dto.order_id (dto_of dto) buyer reply m o) ≡ true
    → IsPayable env dto buyer × (env.redis_up ≡ true)
buyable env dto buyer reply m o found h =
    let (state, amount, price, pays, up) = (buy_order-calls env dto buyer reply m o).0 h in
    let (n, escrowed, covers) =
      (covers_iff (get_quote_balance env.upper env.before buyer o.quote_asset)
          (o.price_per_token * dto.amount)).0
        pays in
    (
      record {
        order = o;
        found = found;
        actionable = state;
        enough = amount;
        cheap = price;
        balance = n;
        escrowed = escrowed;
        covers = covers;
      },
      up,
    )

bought :
    (env : Env) (dto : BuyNumbers) (buyer : String) (reply : Reply (Unit {0})) (m : Market)
    → (b : IsPayable env dto buyer) → env.redis_up ≡ true
    → calls (buy_order env dto.order_id (dto_of dto) buyer reply m b.order) ≡ true
bought env dto buyer reply m b up = (buy_order-calls env dto buyer reply m b.order).1 (
  b.actionable,
  b.enough,
  b.cheap,
  (covers_iff (get_quote_balance env.upper env.before buyer b.order.quote_asset)
        (b.order.price_per_token * dto.amount)).1
      (b.balance, b.escrowed, b.covers),
  up,
)

pub paid :
    (env : Env) (dto : BuyNumbers) (buyer : String) (reply : Reply (Unit {0})) (m : Market)
    → (b : IsPayable env dto buyer)
    → buy_order env dto.order_id (dto_of dto) buyer reply m b.order
      ≡ with_nonce env buyer m (execute_purchase_call env dto true buyer reply)
unfolding buy_order pay_order assert_order_is_actionable
paid env dto buyer reply m b = ground (arith, b.actionable, b.enough, b.cheap, b.escrowed, b.covers)

whole_calls_iff :
    (env : Env) (dto : BuyNumbers) (buyer : String) (reply : Reply (Unit {0})) (m : Market)
    → (calls (buy_bond_tokens env (dto_of dto) buyer reply m) ≡ true)
      ↔ (IsPayable env dto buyer × (env.redis_up ≡ true))
unfolding buy_bond_tokens
whole_calls_iff env dto buyer reply m =
    elim (Option-cases (fetch_order_from_ledger env.before env.now dto.order_id)) [
      | inl absent ↦
          rw (absent, buy_bond_tokens)
            (λ h. absurd (ground arith), λ (b, up). absurd (ground (arith, b.found)))
      | inr (o, found) ↦
          rw (found, buy_bond_tokens)
            (
              buyable env dto buyer reply m o found,
              λ (b, up).
                  let same : o ≡ b.order = ground (arith, b.found) in
                  ap (λ x. calls (buy_order env dto.order_id (dto_of dto) buyer reply m x)) same
                  ∙ bought env dto buyer reply m b up,
            )
    ]

-- Whatever follows the nonce makes no call.
with_nonce_quiet :
    {A : Type 0} (env : Env) (buyer : String) (m : Market) (body : ℕ → Market → Outcome A)
    → ((n : ℕ) (c : Market) → calls (body n c) ≡ false)
    → calls (with_nonce env buyer m body) ≡ false
with_nonce_quiet env buyer m body h = elim (Bool-cases env.redis_up) [
  | inl up ↦ rw (with_nonce-up env buyer m body up) (h (counter env buyer m) (counted env buyer m))
  | inr down ↦ rw (with_nonce-down env buyer m body down) refl
]

pay_order_quiet :
    (env : Env) (p : BuyNumbers) (buyer : String) (reply : Reply (Unit {0})) (m : Market)
    (covered : Option Bool)
    → calls (pay_order env p false buyer reply m covered) ≡ false
unfolding pay_order execute_purchase_call
pay_order_quiet env p buyer reply m none = refl
pay_order_quiet env p buyer reply m (some false) = refl
pay_order_quiet env p buyer reply m (some true) =
    with_nonce_quiet env buyer m (execute_purchase_call env p false buyer reply) (λ n c. refl)

abbrev covering : Env → String → OrderResponse → ℕ → Option Bool
covering env buyer o amount =
    escrow_covers (get_quote_balance env.upper env.before buyer o.quote_asset)
      (o.price_per_token * amount)

-- A purchase with a number that is not whole or does not fit makes no call.
buy_order_quiet :
    (env : Env) (id : ℕ) (y z : JsNumber) (buyer : String) (reply : Reply (Unit {0})) (m : Market)
    (o : OrderResponse)
    → (fits z && fits y) ≡ false
    → let dto : BuyBondDto = record { order_id = whole id; amount = y; max_price = z } in
      calls (buy_order env id dto buyer reply m o) ≡ false
unfolding buy_order
buy_order_quiet env id fractional z buyer reply m o h = ground arith
buy_order_quiet env id (oversized a) fractional buyer reply m o h = ground arith
buy_order_quiet env id (whole a) fractional buyer reply m o h = ground arith
buy_order_quiet env id (oversized a) (oversized b) buyer reply m o h =
    let p : BuyNumbers = record { order_id = id; amount = a; max_price = b } in
    ground (arith, pay_order_quiet env p buyer reply m (covering env buyer o a))
buy_order_quiet env id (whole a) (oversized b) buyer reply m o h =
    let p : BuyNumbers = record { order_id = id; amount = a; max_price = b } in
    ground (arith, pay_order_quiet env p buyer reply m (covering env buyer o a))
buy_order_quiet env id (oversized a) (whole b) buyer reply m o h =
    let p : BuyNumbers = record { order_id = id; amount = a; max_price = b } in
    ground (arith, pay_order_quiet env p buyer reply m (covering env buyer o a))
buy_order_quiet env id (whole a) (whole b) buyer reply m o h = cc

buy_quiet :
    (env : Env) (id : ℕ) (y z : JsNumber) (buyer : String) (reply : Reply (Unit {0})) (m : Market)
    → (fits z && fits y) ≡ false
    → let dto : BuyBondDto = record { order_id = whole id; amount = y; max_price = z } in
      calls (buy_bond_tokens env dto buyer reply m) ≡ false
unfolding buy_bond_tokens
buy_quiet env id y z buyer reply m h =
    elim (Option-cases (fetch_order_from_ledger env.before env.now id)) [
      | inl absent ↦ rw (absent, buy_bond_tokens) refl
      | inr (o, found) ↦ rw (found, buy_bond_tokens) (buy_order_quiet env id y z buyer reply m o h)
    ]

and_false : (b : Bool) → (b && false) ≡ false
and_false true = refl
and_false false = refl

whole_of_calls :
    (env : Env) (x y z : JsNumber) (buyer : String) (reply : Reply (Unit {0})) (m : Market)
    → let dto : BuyBondDto = record { order_id = x; amount = y; max_price = z } in
      calls (buy_bond_tokens env dto buyer reply m) ≡ true → (p : BuyNumbers) × (dto ≡ dto_of p)
unfolding buy_bond_tokens
whole_of_calls env fractional y z buyer reply m h = cc
whole_of_calls env (oversized id) y z buyer reply m h = cc
whole_of_calls env (whole id) (whole a) (whole b) buyer reply m h =
    (record { order_id = id; amount = a; max_price = b }, refl)
whole_of_calls env (whole id) fractional z buyer reply m h =
    cc (buy_quiet env id fractional z buyer reply m (and_false (fits z)))
whole_of_calls env (whole id) (oversized a) z buyer reply m h =
    cc (buy_quiet env id (oversized a) z buyer reply m (and_false (fits z)))
whole_of_calls env (whole id) (whole a) fractional buyer reply m h =
    cc (buy_quiet env id (whole a) fractional buyer reply m refl)
whole_of_calls env (whole id) (whole a) (oversized b) buyer reply m h =
    cc (buy_quiet env id (whole a) (oversized b) buyer reply m refl)

-- `buy_bond_tokens` makes its contract call exactly when the numbers of the request are whole and fit
-- the contract's types, the order, read from the ledger, is open or partially filled and not past its
-- expiry, holds the amount asked for at a price within the buyer's maximum, the buyer's escrow covers
-- price times amount, and the nonce counter answers.
pub buy_bond_tokens-calls_iff :
    (env : Env) (dto : BuyBondDto) (buyer : String) (reply : Reply (Unit {0})) (m : Market)
    → (calls (buy_bond_tokens env dto buyer reply m) ≡ true)
      ↔ (IsBuyable env dto buyer × (env.redis_up ≡ true))
buy_bond_tokens-calls_iff env dto buyer reply m = (
  λ h.
      let (p, asked) = whole_of_calls env dto.order_id dto.amount dto.max_price buyer reply m h in
      let (b, up) = (whole_calls_iff env p buyer reply m).0 (rw asked at h) in
      (record { numbers = p; asked = asked; payable = b }, up),
  λ (b, up). rw b.asked ((whole_calls_iff env b.numbers buyer reply m).1 (b.payable, up)),
)
