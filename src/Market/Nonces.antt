-- ===== src/Market/Nonces.antt =====
-- What each request to api/src/marketplace/dex.service.ts does with the nonce of its wallet.
use eco_mint.Prelude.{
  ℕ, ◌*◌, String, Bool, true, false, not, ◌&&◌, Option, none, some, ◌≡◌, ◌⊎◌, List, [], ◌∷◌, inl,
  inr, refl, arith, ltb, if◌then◌else◌, pair_has_eq, string_has_eq, nat_has_eq, Bool-cases,
  Option-cases,
}
use eco_mint.Market.Types.{OrderResponse, JsNumber, whole, oversized, fractional}
use eco_mint.Market.Orders.{Market, fetch_order_from_ledger, get_order, evict_order, store_order}
use eco_mint.Market.Trading.{
  Env, BuyBondDto, BuyNumbers, fits, with_big_int, buy_fetched, execute_reply, Reply, fails,
  answers, Outcome, DexError, Invocation, buy_bond_tokens, buy_order, get_quote_balance, with_nonce,
  refuse, conflict, assert_order_is_actionable, escrow_covers, get_quote_balance,
  execute_purchase_call, assert_order_is_actionable, escrow_covers, after_order_call, refuse,
  cancel_order, cancel_listing_call, list_bond_tokens, execute_purchase, cancel_listing,
  deposit_quote, withdraw_quote, clean_expired_orders, clean_call, lifetime_of, with_whole,
  list_reply, pay_order, escrow_call, list_bond_tokens_call, invalidate_quote_balance_index,
  ListBondDto,
}
use eco_mint.Market.Purchase.{counter, counted, with_nonce-up, with_nonce-down}

abbrev pub signer_of : Invocation → String
signer_of (list_bond_tokens a bond amount price asset lifetime nonce) = a
signer_of (execute_purchase a id price amount nonce) = a
signer_of (cancel_listing a id nonce) = a
signer_of (deposit_quote a asset amount nonce) = a
signer_of (withdraw_quote a asset amount nonce) = a
signer_of (clean_expired_orders a start_id limit nonce) = a

abbrev pub nonce_of : Invocation → ℕ
nonce_of (list_bond_tokens a bond amount price asset lifetime nonce) = nonce
nonce_of (execute_purchase a id price amount nonce) = nonce
nonce_of (cancel_listing a id nonce) = nonce
nonce_of (deposit_quote a asset amount nonce) = nonce
nonce_of (withdraw_quote a asset amount nonce) = nonce
nonce_of (clean_expired_orders a start_id limit nonce) = nonce

-- What an outcome tells of the nonce: a request without a call changes nothing of the marketplace,
-- unless, for the reason `Refused`, it throws after the nonce was taken; one with a call spends the
-- caller's nonce.
pub data IsCounted {A : Type 0} (Refused : Type 0) (env : Env) (caller : String) (m : Market)
    (o : Outcome A) : Type 0 where
  quiet : o.invoked ≡ none → o.market ≡ m → IsCounted Refused env caller m o
  skips :
      Refused
      → o.invoked ≡ none
      → o.market.nonces ≡ (counted env caller m).nonces
      → IsCounted Refused env caller m o
  spends :
      (call : Invocation)
      → o.invoked ≡ some call
      → signer_of call ≡ caller
      → nonce_of call ≡ counter env caller m
      → o.market.nonces ≡ (counted env caller m).nonces
      → IsCounted Refused env caller m o

-- What is done with the nonce `n` once it was taken.
pub data UsesNonce {A : Type 0} (Refused : Type 0) (caller : String) (n : ℕ) (m : Market)
    (o : Outcome A) : Type 0 where
  leaves : Refused → o.invoked ≡ none → o.market.nonces ≡ m.nonces → UsesNonce Refused caller n m o
  calls_with :
      (call : Invocation)
      → o.invoked ≡ some call
      → signer_of call ≡ caller
      → nonce_of call ≡ n
      → o.market.nonces ≡ m.nonces
      → UsesNonce Refused caller n m o

abbrev pub IsBody : {A : Type 0} → Type 0 → String → (ℕ → Market → Outcome A) → Type 0
IsBody Refused caller body = (n : ℕ) (m : Market) → UsesNonce Refused caller n m (body n m)

UsesNonce-IsCounted :
    {A : Type 0} (Refused : Type 0) (env : Env) (caller : String) (m : Market) (o : Outcome A)
    → UsesNonce Refused caller (counter env caller m) (counted env caller m) o
    → IsCounted Refused env caller m o
UsesNonce-IsCounted Refused env caller m o (leaves why made kept) = skips why made kept
UsesNonce-IsCounted Refused env caller m o (calls_with call made signed nonce kept) =
    spends call made signed nonce kept

pub with_nonce-IsCounted :
    {A : Type 0} (Refused : Type 0) (env : Env) (caller : String) (m : Market)
    (body : ℕ → Market → Outcome A)
    → IsBody Refused caller body
    → IsCounted Refused env caller m (with_nonce env caller m body)
with_nonce-IsCounted Refused env caller m body h = elim (Bool-cases env.redis_up) [
  | inl up ↦ rw (with_nonce-up env caller m body up) (
      UsesNonce-IsCounted Refused env caller m (body (counter env caller m) (counted env caller m))
        (h (counter env caller m) (counted env caller m)))
  | inr down ↦ rw (with_nonce-down env caller m body down) (quiet refl refl)
]

after_order_call-nonces :
    (env : Env) (id : ℕ) (call : Invocation) (m : Market)
    → (after_order_call env id call m).market.nonces ≡ m.nonces
unfolding after_order_call get_order evict_order store_order
after_order_call-nonces env id call m = ground arith

after_order_call-invoked :
    (env : Env) (id : ℕ) (call : Invocation) (m : Market)
    → (after_order_call env id call m).invoked ≡ some call
unfolding after_order_call
after_order_call-invoked env id call m = refl

buy-IsBody :
    (env : Env) (p : BuyNumbers) (encodes : Bool) (a : String) (reply : Reply (Unit {0}))
    → IsBody (encodes ≡ false) a (execute_purchase_call env p encodes a reply)
unfolding execute_purchase_call execute_reply
buy-IsBody env p false a reply n m = leaves refl refl refl
buy-IsBody env p true a (fails e) n m =
    calls_with (execute_purchase a p.order_id p.max_price p.amount n) refl refl refl refl
buy-IsBody env p true a (answers t) n m =
    let call = execute_purchase a p.order_id p.max_price p.amount n in
    calls_with call (after_order_call-invoked env p.order_id call m) refl refl
      (after_order_call-nonces env p.order_id call m)

cancel-IsBody :
    (id : ℕ) (a : String) (reply : Reply (Unit {0})) → IsBody ⊥ a (cancel_listing_call id a reply)
unfolding cancel_listing_call evict_order
cancel-IsBody id a (fails e) n m = calls_with (cancel_listing a id n) refl refl refl refl
cancel-IsBody id a (answers t) n m = calls_with (cancel_listing a id n) refl refl refl refl

-- A number among these has a fraction or does not fit.
abbrev pub AnyRefused : List JsNumber → Type 0
AnyRefused [] = ⊥
AnyRefused (n ∷ ns) = (fits n ≡ false) ⊎ AnyRefused ns

abbrev pub numbers_of : ListBondDto → List JsNumber
numbers_of dto =
    dto.bond_id ∷ dto.amount ∷ dto.price_per_token ∷ lifetime_of dto.expires_after_seconds ∷ []

list_reply-UsesNonce :
    (Refused : Type 0) (env : Env) (a : String) (n : ℕ) (call : Invocation) (reply : Reply ℕ)
    (m : Market)
    → signer_of call ≡ a
    → nonce_of call ≡ n
    → UsesNonce Refused a n m (list_reply env call reply m)
unfolding list_reply
list_reply-UsesNonce Refused env a n call (fails e) m signed nonce =
    calls_with call refl signed nonce refl
list_reply-UsesNonce Refused env a n call (answers id) m signed nonce =
    calls_with call (after_order_call-invoked env id call m) signed nonce
      (after_order_call-nonces env id call m)

-- An argument is refused, or the rest goes on with its number.
with_whole-UsesNonce :
    {A : Type 0} (Refused : Type 0) (a : String) (n : ℕ) (m : Market) (x : JsNumber)
    (body : ℕ → Outcome A)
    → (fits x ≡ false → Refused)
    → ((k : ℕ) → UsesNonce Refused a n m (body k))
    → UsesNonce Refused a n m (with_whole x m body)
with_whole-UsesNonce Refused a n m fractional body why h = leaves (why refl) refl refl
with_whole-UsesNonce Refused a n m (oversized k) body why h = leaves (why refl) refl refl
with_whole-UsesNonce Refused a n m (whole k) body why h = h k

pub list-IsBody :
    (env : Env) (dto : ListBondDto) (a : String) (reply : Reply ℕ)
    → IsBody (AnyRefused (numbers_of dto)) a (list_bond_tokens_call env dto a reply)
unfolding list_bond_tokens_call
list-IsBody env dto a reply n m =
    let Why = AnyRefused (numbers_of dto) in
    with_whole-UsesNonce Why a n m dto.bond_id _ (λ e. inl e)
      (λ bond.
        with_whole-UsesNonce Why a n m dto.amount _ (λ e. inr (inl e))
          (λ amount.
            with_whole-UsesNonce Why a n m dto.price_per_token _ (λ e. inr (inr (inl e)))
              (λ price.
                with_whole-UsesNonce Why a n m (lifetime_of dto.expires_after_seconds) _
                  (λ e. inr (inr (inr (inl e))))
                  (λ lifetime.
                    list_reply-UsesNonce Why env a n
                      (list_bond_tokens a bond amount price dto.quote_asset lifetime n) reply m refl
                      refl))))

escrow_call-UsesNonce :
    (Refused : Type 0) (env : Env) (a asset : String) (reply : Reply (Unit {0})) (n : ℕ)
    (call : Invocation) (m : Market)
    → signer_of call ≡ a
    → nonce_of call ≡ n
    → UsesNonce Refused a n m (escrow_call env a asset reply call m)
unfolding escrow_call invalidate_quote_balance_index
escrow_call-UsesNonce Refused env a asset reply n call m signed nonce =
    calls_with call (ground arith) signed nonce (ground arith)

-- Deposits and withdrawals, which differ in the call.
pub escrow-IsBody :
    (env : Env) (a asset : String) (amount : JsNumber) (reply : Reply (Unit {0}))
    (call : ℕ → ℕ → Invocation)
    → ((k n : ℕ) → signer_of (call k n) ≡ a)
    → ((k n : ℕ) → nonce_of (call k n) ≡ n)
    → IsBody
        (AnyRefused (amount ∷ []))
        a
        (λ n m. with_whole amount m (λ k. escrow_call env a asset reply (call k n) m))
escrow-IsBody env a asset amount reply call signed nonce n m =
    let Why = AnyRefused (amount ∷ []) in
    with_whole-UsesNonce Why a n m amount _ (λ e. inl e)
      (λ k. escrow_call-UsesNonce Why env a asset reply n (call k n) m (signed k n) (nonce k n))

unless-IsCounted :
    {A : Type 0} (Refused : Type 0) (env : Env) (a : String) (m : Market) (b : Bool) (e : DexError)
    (y : Outcome A)
    → IsCounted Refused env a m y
    → IsCounted Refused env a m (if b then refuse m e else y)
unless-IsCounted Refused env a m true e y h = quiet refl refl
unless-IsCounted Refused env a m false e y h = h

with_big_int-IsCounted :
    {A : Type 0} (Refused : Type 0) (env : Env) (a : String) (m : Market) (x : JsNumber)
    (body : ℕ → Outcome A)
    → ((n : ℕ) → IsCounted Refused env a m (body n))
    → IsCounted Refused env a m (with_big_int x m body)
with_big_int-IsCounted Refused env a m (whole n) body h = h n
with_big_int-IsCounted Refused env a m (oversized n) body h = h n
with_big_int-IsCounted Refused env a m fractional body h = quiet refl refl

pay-IsCounted :
    (env : Env) (p : BuyNumbers) (encodes : Bool) (a : String) (reply : Reply (Unit {0}))
    (m : Market) (paid : Option Bool)
    → IsCounted (encodes ≡ false) env a m (pay_order env p encodes a reply m paid)
unfolding pay_order
pay-IsCounted env p encodes a reply m none = quiet refl refl
pay-IsCounted env p encodes a reply m (some false) = quiet refl refl
pay-IsCounted env p encodes a reply m (some true) =
    with_nonce-IsCounted (encodes ≡ false) env a m (execute_purchase_call env p encodes a reply)
      (buy-IsBody env p encodes a reply)

-- The price or the amount of a purchase has a fraction or does not fit.
abbrev pub IsRefusedBuy : BuyBondDto → Type 0
IsRefusedBuy dto = (fits dto.max_price && fits dto.amount) ≡ false

buy_order-IsCounted :
    (env : Env) (id : ℕ) (dto : BuyBondDto) (a : String) (reply : Reply (Unit {0})) (m : Market)
    (o : OrderResponse)
    → IsCounted (IsRefusedBuy dto) env a m (buy_order env id dto a reply m o)
unfolding buy_order
buy_order-IsCounted env id dto a reply m o =
    let Why = IsRefusedBuy dto in
    let unless = unless-IsCounted {A = OrderResponse} Why env a m in
    unless (not (assert_order_is_actionable o)) conflict _ (
      with_big_int-IsCounted Why env a m dto.amount _ (λ amount.
        unless (ltb o.amount amount) conflict _ (
          with_big_int-IsCounted Why env a m dto.max_price _ (λ max_price.
            unless (ltb max_price o.price_per_token) conflict _ (
              pay-IsCounted env (record { order_id = id; amount = amount; max_price = max_price })
                (fits dto.max_price && fits dto.amount) a reply m
                (escrow_covers (get_quote_balance env.upper env.before a o.quote_asset)
                  (o.price_per_token * amount)))))))

buy_whole-IsCounted :
    (env : Env) (x : JsNumber) (dto : BuyBondDto) (a : String) (reply : Reply (Unit {0}))
    (m : Market)
    → IsCounted (IsRefusedBuy dto) env a m (
        with_whole x m
          (λ id. buy_fetched env id dto a reply m (fetch_order_from_ledger env.before env.now id)))
buy_whole-IsCounted env fractional dto a reply m = quiet refl refl
buy_whole-IsCounted env (oversized id) dto a reply m = quiet refl refl
buy_whole-IsCounted env (whole id) dto a reply m =
    elim (Option-cases (fetch_order_from_ledger env.before env.now id)) [
      | inl absent ↦ rw absent (quiet refl refl)
      | inr (o, found) ↦ rw found (buy_order-IsCounted env id dto a reply m o)
    ]

pub buy-IsCounted :
    (env : Env) (dto : BuyBondDto) (a : String) (reply : Reply (Unit {0})) (m : Market)
    → IsCounted (IsRefusedBuy dto) env a m (buy_bond_tokens env dto a reply m)
unfolding buy_bond_tokens
buy-IsCounted env dto a reply m = buy_whole-IsCounted env dto.order_id dto a reply m

pub cancel-IsCounted :
    (env : Env) (id : ℕ) (a : String) (reply : Reply (Unit {0})) (m : Market)
    → IsCounted ⊥ env a m (cancel_order env id a reply m)
unfolding cancel_order
cancel-IsCounted env id a reply m =
    elim (Option-cases (fetch_order_from_ledger env.before env.now id)) [
      | inl absent ↦ rw (absent, cancel_order) (quiet refl refl)
      | inr (o, found) ↦
          rw (found, cancel_order)
            (unless-IsCounted ⊥ env a m (not (assert_order_is_actionable o)) conflict
              (with_nonce env a m (cancel_listing_call id a reply))
              (with_nonce-IsCounted ⊥ env a m (cancel_listing_call id a reply)
                (cancel-IsBody id a reply)))
    ]

pub clean-IsBody :
    (start_id limit : ℕ) (a : String) (reply : Reply (ℕ × ℕ))
    → IsBody ⊥ a (clean_call start_id limit a reply)
unfolding clean_call
clean-IsBody start_id limit a (fails e) n m =
    calls_with (clean_expired_orders a start_id limit n) refl refl refl refl
clean-IsBody start_id limit a (answers done) n m =
    calls_with (clean_expired_orders a start_id limit n) refl refl refl refl
