-- ===== src/Market/Trading.antt =====
-- Orders and escrow in api/src/marketplace/dex.service.ts: what each request checks, which contract
-- call it makes with which nonce, and what it answers. The contract's replies are given.
use eco_mint.Prelude.{
  ℕ, ◌*◌, String, Bool, true, false, not, ◌&&◌, ◌||◌, Option, none, some, ltb, nat_eq,
  if◌then◌else◌, pair_has_eq, string_has_eq,
}
use eco_mint.Prelude.Dict.{remove}
use eco_mint.Nonce.{Counters, next}
use eco_mint.Market.Types.{
  OrderResponse, Ledger, is_open_state, JsNumber, whole, oversized, fractional,
}
use eco_mint.Market.QuoteAssets.{normalize_quote_asset_symbol}
use eco_mint.Market.Orders.{Market, fetch_order_from_ledger, get_order, evict_order}

-- What `invokeContractMethod` throws: a ContractException with its `rawErrorCode`, another
-- HttpException with its status, or another error. The last two carry the code that the patterns
-- `#(\d+)` and `Error(-(\d+)` find in the message.
pub data DexFailure : Type 0 where
  contract_exception : (raw_error_code : Option ℕ) → DexFailure
  http_exception : (http_status : ℕ) (code_in_message : Option ℕ) → DexFailure
  other_error : (code_in_message : Option ℕ) → DexFailure

-- What the API answers with; `rethrown` is the HttpException as it came, and `propagated` an error
-- that passes through as it is: of a simulated call, of an unsupported asset, or no HttpException.
pub data DexError : Type 0 where
  conflict bad_request payment_required not_found service_unavailable propagated : DexError
  rethrown : (http_status : ℕ) → DexError

-- A signed call of the DEX router, with the arguments of the source in their order.
pub data Invocation : Type 0 where
  list_bond_tokens :
      (seller : String) (bond_id amount price : ℕ) (quote_asset : String) (lifetime nonce : ℕ)
      → Invocation
  execute_purchase : (buyer : String) (order_id max_price amount nonce : ℕ) → Invocation
  cancel_listing : (caller : String) (order_id nonce : ℕ) → Invocation
  deposit_quote : (caller asset : String) (amount nonce : ℕ) → Invocation
  withdraw_quote : (caller asset : String) (amount nonce : ℕ) → Invocation
  clean_expired_orders : (admin : String) (start_id limit nonce : ℕ) → Invocation

pub data Reply (A : Type 0) : Type 0 where
  fails : DexFailure → Reply A
  answers : A → Reply A

pub data Response (A : Type 0) : Type 0 where
  throws : DexError → Response A
  returns : A → Response A

-- The surroundings of one request: the router's address, JavaScript's `trim().toUpperCase()`,
-- whether Redis answers the nonce counter, and the ledger and the clock before and after the call.
pub record Env : Type 0 where
  pub dex_router : String
  pub upper : String → String
  pub redis_up : Bool
  pub before : Ledger
  pub now : ℕ
  pub after : Ledger
  pub later : ℕ

pub record Outcome (A : Type 0) : Type 0 where
  pub market : Market
  pub invoked : Option Invocation
  pub response : Response A

abbrev pub refuse : {A : Type 0} → Market → DexError → Outcome A
refuse m e = record { market = m; invoked = none; response = throws e }

unfoldable pub assert_order_is_actionable : OrderResponse → Bool
assert_order_is_actionable o = is_open_state o.status

-- `code === value` where `code` may be undefined
abbrev pub code_is : ℕ → Option ℕ → Bool
code_is c none = false
code_is c (some n) = nat_eq n c

abbrev pub by_code : Option ℕ → DexError → DexError
by_code code otherwise =
    if code_is 10 code
    then payment_required
    else if code_is 5 code || code_is 8 code
    then conflict
    else if code_is 4 code
    then not_found
    else otherwise

unfoldable pub map_dex_error : DexFailure → DexError
map_dex_error (contract_exception raw) = if code_is 10 raw then payment_required else bad_request
map_dex_error (http_exception status code) = by_code code (rethrown status)
map_dex_error (other_error code) = by_code code bad_request

-- An error that no `catch` maps.
abbrev pub unmapped : DexFailure → DexError
unmapped (contract_exception raw) = bad_request
unmapped (http_exception status code) = rethrown status
unmapped (other_error code) = propagated

unfoldable pub get_quote_balance : (String → String) → Ledger → String → String → Option ℕ
get_quote_balance upper ledger address asset = elim (normalize_quote_asset_symbol upper asset) [
  | none ↦ none
  | some normalized ↦ ledger.get_quote_balance address normalized
]

abbrev pub returned : {A : Type 0} → Option A → Response A
returned none = throws propagated
returned (some a) = returns a

abbrev pub with_counted :
    {A : Type 0} → Market → (ℕ → Market → Outcome A) → Counters × Option ℕ → Outcome A
with_counted m body (counters, none) = refuse m service_unavailable
with_counted m body (counters, some nonce) = body nonce (record m { nonces = counters })

-- `nonceService.next`, then the call that `body` builds with the nonce.
unfoldable pub with_nonce :
    {A : Type 0} → Env → String → Market → (ℕ → Market → Outcome A) → Outcome A
with_nonce env caller m body =
    with_counted m body (next env.redis_up env.dex_router caller m.nonces)

pub record BuyBondDto : Type 0 where
  pub order_id : JsNumber
  pub amount : JsNumber
  pub max_price : JsNumber

-- The numbers of a purchase, once `BigInt` took them.
pub record BuyNumbers : Type 0 where
  pub order_id : ℕ
  pub amount : ℕ
  pub max_price : ℕ

-- `BigInt`, which throws at a fraction
abbrev pub with_big_int : {A : Type 0} → JsNumber → Market → (ℕ → Outcome A) → Outcome A
with_big_int (whole n) m body = body n
with_big_int (oversized n) m body = body n
with_big_int fractional m body = refuse m propagated

abbrev pub fits : JsNumber → Bool
fits (whole n) = true
fits (oversized n) = false
fits fractional = false

-- `BigInt` and the encoding of an argument, which throw where it does not fit too.
abbrev pub with_whole : {A : Type 0} → JsNumber → Market → (ℕ → Outcome A) → Outcome A
with_whole (whole n) m body = body n
with_whole (oversized n) m body = refuse m propagated
with_whole fractional m body = refuse m propagated

unfoldable pub after_order_call : Env → ℕ → Invocation → Market → Outcome OrderResponse
after_order_call env id call m =
    let (m', o) = get_order env.after env.later id (evict_order id m) in
    record { market = m'; invoked = some call; response = returned o }

unfoldable pub execute_reply :
    Env → BuyNumbers → Invocation → Reply (Unit {0}) → Market → Outcome OrderResponse
execute_reply env p call (fails e) m = record {
  market = m;
  invoked = some call;
  response = throws (map_dex_error e);
}
execute_reply env p call (answers _) m = after_order_call env p.order_id call m

-- Where an argument does not fit, its encoding throws in the `try`, before the call.
unfoldable pub execute_purchase_call :
    Env → BuyNumbers → Bool → String → Reply (Unit {0}) → ℕ → Market → Outcome OrderResponse
execute_purchase_call env p encodes buyer reply nonce m =
    if encodes
    then execute_reply env p (execute_purchase buyer p.order_id p.max_price p.amount nonce) reply m
    else refuse m (map_dex_error (other_error none))

abbrev pub escrow_covers : Option ℕ → ℕ → Option Bool
escrow_covers none proceeds = none
escrow_covers (some balance) proceeds = some (not (ltb balance proceeds))

unfoldable pub pay_order :
    Env
    → BuyNumbers
    → Bool
    → String
    → Reply (Unit {0})
    → Market
    → Option Bool
    → Outcome OrderResponse
pay_order env p encodes buyer reply m none = refuse m propagated
pay_order env p encodes buyer reply m (some false) = refuse m bad_request
pay_order env p encodes buyer reply m (some true) =
    with_nonce env buyer m (execute_purchase_call env p encodes buyer reply)

unfoldable pub buy_order :
    Env
    → ℕ
    → BuyBondDto
    → String
    → Reply (Unit {0})
    → Market
    → OrderResponse
    → Outcome OrderResponse
buy_order env id dto buyer reply m o =
    if not (assert_order_is_actionable o)
    then refuse m conflict
    else with_big_int dto.amount m (λ amount.
      if ltb o.amount amount
      then refuse m conflict
      else with_big_int dto.max_price m (λ max_price.
        if ltb max_price o.price_per_token
        then refuse m conflict
        else pay_order env (record { order_id = id; amount = amount; max_price = max_price })
            (fits dto.max_price && fits dto.amount) buyer reply m
            (escrow_covers (get_quote_balance env.upper env.before buyer o.quote_asset)
              (o.price_per_token * amount))))

abbrev pub buy_fetched :
    Env
    → ℕ
    → BuyBondDto
    → String
    → Reply (Unit {0})
    → Market
    → Option OrderResponse
    → Outcome OrderResponse
buy_fetched env id dto buyer reply m none = refuse m propagated
buy_fetched env id dto buyer reply m (some o) = buy_order env id dto buyer reply m o

unfoldable pub buy_bond_tokens :
    Env → BuyBondDto → String → Reply (Unit {0}) → Market → Outcome OrderResponse
buy_bond_tokens env dto buyer reply m =
    with_whole dto.order_id m
      (λ id. buy_fetched env id dto buyer reply m (fetch_order_from_ledger env.before env.now id))

unfoldable pub cancel_listing_call : ℕ → String → Reply (Unit {0}) → ℕ → Market → Outcome (Unit {0})
cancel_listing_call id caller reply nonce m =
    let call = cancel_listing caller id nonce in
    elim reply [
      | fails e ↦ record { market = m; invoked = some call; response = throws (map_dex_error e) }
      | answers _ ↦ record { market = evict_order id m; invoked = some call; response = returns tt }
    ]

unfoldable pub cancel_order : Env → ℕ → String → Reply (Unit {0}) → Market → Outcome (Unit {0})
cancel_order env id caller reply m = elim (fetch_order_from_ledger env.before env.now id) [
  | none ↦ refuse m propagated
  | some o ↦
      if not (assert_order_is_actionable o)
      then refuse m conflict
      else with_nonce env caller m (cancel_listing_call id caller reply)
]

pub record ListBondDto : Type 0 where
  pub bond_id : JsNumber
  pub amount : JsNumber
  pub price_per_token : JsNumber
  pub quote_asset : String
  -- 0 where the field is left out
  pub expires_after_seconds : JsNumber

-- `expiresAfterSeconds || 604800`
abbrev pub lifetime_of : JsNumber → JsNumber
lifetime_of fractional = fractional
lifetime_of (oversized n) = oversized n
lifetime_of (whole n) = whole (if nat_eq n 0 then 604800 else n)

unfoldable pub list_reply : Env → Invocation → Reply ℕ → Market → Outcome OrderResponse
list_reply env call (fails e) m = record {
  market = m;
  invoked = some call;
  response = throws (unmapped e);
}
list_reply env call (answers id) m = after_order_call env id call m

unfoldable pub list_bond_tokens_call :
    Env → ListBondDto → String → Reply ℕ → ℕ → Market → Outcome OrderResponse
list_bond_tokens_call env dto seller reply nonce m = with_whole dto.bond_id m (λ bond_id.
    with_whole dto.amount m (λ amount. with_whole dto.price_per_token m (λ price.
      with_whole (lifetime_of dto.expires_after_seconds) m (λ lifetime.
        list_reply env (list_bond_tokens seller bond_id amount price dto.quote_asset lifetime nonce)
          reply m))))

-- `listBondTokens`
unfoldable pub list_tokens : Env → ListBondDto → String → Reply ℕ → Market → Outcome OrderResponse
list_tokens env dto seller reply m =
    with_nonce env seller m (list_bond_tokens_call env dto seller reply)

-- `invalidateQuoteBalanceIndex`; `none` is the error of an unsupported asset.
unfoldable pub invalidate_quote_balance_index :
    (String → String) → String → String → Market → Option Market
invalidate_quote_balance_index upper address asset m =
    elim (normalize_quote_asset_symbol upper asset) [
      | none ↦ none
      | some normalized ↦
          some (record m { quote_index = remove (address, normalized) m.quote_index })
    ]

abbrev pub escrow_done : Market → Invocation → Option Market → Outcome (Unit {0})
escrow_done m call none = record { market = m; invoked = some call; response = throws propagated }
escrow_done m call (some m') = record { market = m'; invoked = some call; response = returns tt }

unfoldable pub escrow_call :
    Env → String → String → Reply (Unit {0}) → Invocation → Market → Outcome (Unit {0})
escrow_call env caller asset reply call m = elim reply [
  | fails e ↦ record { market = m; invoked = some call; response = throws (unmapped e) }
  | answers _ ↦ escrow_done m call (invalidate_quote_balance_index env.upper caller asset m)
]

-- `depositQuote`
unfoldable pub deposit :
    Env → String → JsNumber → String → Reply (Unit {0}) → Market → Outcome (Unit {0})
deposit env asset amount caller reply m = with_nonce env caller m (λ nonce counted.
    with_whole amount counted
      (λ n. escrow_call env caller asset reply (deposit_quote caller asset n nonce) counted))

-- `withdrawQuote`
unfoldable pub withdraw :
    Env → String → JsNumber → String → Reply (Unit {0}) → Market → Outcome (Unit {0})
withdraw env asset amount caller reply m = with_nonce env caller m (λ nonce counted.
    with_whole amount counted
      (λ n. escrow_call env caller asset reply (withdraw_quote caller asset n nonce) counted))

unfoldable pub clean_call : ℕ → ℕ → String → Reply (ℕ × ℕ) → ℕ → Market → Outcome (ℕ × ℕ)
clean_call start_id limit admin reply nonce m =
    let call = clean_expired_orders admin start_id limit nonce in
    elim reply [
      | fails e ↦ record { market = m; invoked = some call; response = throws (unmapped e) }
      | answers done ↦ record { market = m; invoked = some call; response = returns done }
    ]

-- `cleanExpiredOrders`; the reply is how many orders were cleaned and where the next pass starts, 0
-- at the end.
unfoldable pub clean_expired : Env → ℕ → ℕ → String → Reply (ℕ × ℕ) → Market → Outcome (ℕ × ℕ)
clean_expired env start_id limit admin reply m =
    with_nonce env admin m (clean_call start_id limit admin reply)
