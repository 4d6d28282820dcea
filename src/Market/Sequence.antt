-- ===== src/Market/Sequence.antt =====
-- The nonces that a sequence of requests to api/src/marketplace/dex.service.ts spends.
use eco_mint.Prelude.{
  ℕ, zero, suc, length, str_eq, str_eq_iff, ◌+◌, ◌≤◌, true, String, Option, none, some, List, [],
  ◌∷◌, ◌≡◌, inl, inr, refl, sym, ap, ◌∙◌, arith, if◌then◌else◌, pair_has_eq, string_has_eq,
  nat_has_eq, Bool-cases,
}
use eco_mint.Prelude.Dict.{lookup, insert, lookup-insert}
use eco_mint.Nonce.{count_or_zero}
use eco_mint.Market.Orders.{Market}
use eco_mint.Market.Trading.{
  Env, with_whole, BuyBondDto, Reply, Outcome, Invocation, buy_bond_tokens, cancel_order,
  deposit_quote, with_whole, withdraw_quote, list_tokens, deposit, withdraw, escrow_call,
  clean_expired, clean_call, list_bond_tokens_call, ListBondDto,
}
use eco_mint.Market.Types.{JsNumber, fractional}
use eco_mint.Market.Purchase.{counted, with_nonce-up}
use eco_mint.Market.Nonces.{
  IsCounted, quiet, skips, spends, signer_of, nonce_of, AnyRefused, IsRefusedBuy, numbers_of,
  with_nonce-IsCounted, list-IsBody, clean-IsBody, escrow-IsBody, buy-IsCounted, cancel-IsCounted,
}

-- A request of a wallet, with what the contract replies to it.
pub data Request : Type 0 where
  buying : BuyBondDto → String → Reply (Unit {0}) → Request
  cancelling : (id : ℕ) → String → Reply (Unit {0}) → Request
  listing : ListBondDto → String → Reply ℕ → Request
  depositing : (asset : String) (amount : JsNumber) → String → Reply (Unit {0}) → Request
  withdrawing : (asset : String) (amount : JsNumber) → String → Reply (Unit {0}) → Request
  cleaning : (start_id limit : ℕ) → String → Reply (ℕ × ℕ) → Request

-- A number of the request, but the one of an order, has a fraction or does not fit.
abbrev pub IsRefused : Request → Type 0
IsRefused (buying dto a reply) = IsRefusedBuy dto
IsRefused (cancelling id a reply) = ⊥
IsRefused (listing dto a reply) = AnyRefused (numbers_of dto)
IsRefused (depositing asset amount a reply) = AnyRefused (amount ∷ [])
IsRefused (withdrawing asset amount a reply) = AnyRefused (amount ∷ [])
IsRefused (cleaning start_id limit a reply) = ⊥

abbrev pub NoneRefused : List (Env × Request) → Type 0
NoneRefused [] = Unit {0}
NoneRefused ((env, r) ∷ rs) = (¬ IsRefused r) × NoneRefused rs

abbrev pub serve : Env → Request → Market → Market × Option Invocation
serve env (buying dto a reply) m =
    let o = buy_bond_tokens env dto a reply m in (o.market, o.invoked)
serve env (cancelling id a reply) m = let o = cancel_order env id a reply m in (o.market, o.invoked)
serve env (listing dto a reply) m = let o = list_tokens env dto a reply m in (o.market, o.invoked)
serve env (depositing asset amount a reply) m =
    let o = deposit env asset amount a reply m in (o.market, o.invoked)
serve env (withdrawing asset amount a reply) m =
    let o = withdraw env asset amount a reply m in (o.market, o.invoked)
serve env (cleaning start_id limit a reply) m =
    let o = clean_expired env start_id limit a reply m in (o.market, o.invoked)

abbrev cons_nonce : String → Option Invocation → List ℕ → List ℕ
cons_nonce a none ns = ns
cons_nonce a (some call) ns = if str_eq (signer_of call) a then nonce_of call ∷ ns else ns

-- The nonces of the wallet `a` in the calls that the requests make, in order. The surroundings may
-- be others at each request, but for the address of the router.
abbrev pub nonces_of : String → String → List (Env × Request) → Market → List ℕ
nonces_of dex a [] m = []
nonces_of dex a ((env, r) ∷ rs) m =
    let (m', call) = serve (record env { dex_router = dex }) r m in
    let rest = nonces_of dex a rs m' in cons_nonce a call rest

-- n, n + 1, ..., of the given length
abbrev pub count_up : ℕ → ℕ → List ℕ
count_up n zero = []
count_up n (suc k) = n ∷ count_up (n + 1) k

-- The numbers ascend, from `low` on.
abbrev pub IsAscending : ℕ → List ℕ → Type 0
IsAscending low [] = Unit {0}
IsAscending low (n ∷ ns) = (low ≤ n) × IsAscending (n + 1) ns

-- A request makes no call and leaves the counters, or skips a nonce of a wallet for the reason
-- `Refused`, or spends the next nonce of its wallet.
pub data IsSpent (Refused : Type 0) (dex : String) (m m' : Market)
    : Option Invocation → Type 0 where
  idle : m'.nonces ≡ m.nonces → IsSpent Refused dex m m' none
  skipped :
      (b : String)
      → Refused
      → m'.nonces ≡ insert (dex, b) (count_or_zero (lookup (dex, b) m.nonces) + 1) m.nonces
      → IsSpent Refused dex m m' none
  spent :
      (call : Invocation)
      → nonce_of call ≡ count_or_zero (lookup (dex, signer_of call) m.nonces)
      → m'.nonces ≡ insert (dex, signer_of call) (nonce_of call + 1) m.nonces
      → IsSpent Refused dex m m' (some call)

IsCounted-IsSpent :
    {A : Type 0} (Refused : Type 0) (env : Env) (a : String) (m : Market) (o : Outcome A)
    → IsCounted Refused env a m o
    → IsSpent Refused env.dex_router m o.market o.invoked
IsCounted-IsSpent Refused env a m o (quiet none_made same) =
    rw none_made (idle (ap (λ (x : Market). x.nonces) same))
IsCounted-IsSpent Refused env a m o (skips why none_made kept) = rw none_made (skipped a why kept)
IsCounted-IsSpent Refused env a m o (spends call made signed nonce kept) =
    rw made (spent call (rw signed nonce) (rw (signed, nonce) kept))

serve-IsSpent :
    (env : Env) (r : Request) (m : Market)
    → IsSpent (IsRefused r) env.dex_router m (serve env r m).0 (serve env r m).1
unfolding list_tokens deposit withdraw clean_expired
serve-IsSpent env (buying dto a reply) m =
    IsCounted-IsSpent (IsRefusedBuy dto) env a m (buy_bond_tokens env dto a reply m)
      (buy-IsCounted env dto a reply m)
serve-IsSpent env (cancelling id a reply) m =
    IsCounted-IsSpent ⊥ env a m (cancel_order env id a reply m) (cancel-IsCounted env id a reply m)
serve-IsSpent env (listing dto a reply) m =
    let Why = AnyRefused (numbers_of dto) in
    IsCounted-IsSpent Why env a m (list_tokens env dto a reply m) (
      with_nonce-IsCounted Why env a m (list_bond_tokens_call env dto a reply)
        (list-IsBody env dto a reply))
serve-IsSpent env (depositing asset amount a reply) m =
    let Why = AnyRefused (amount ∷ []) in
    IsCounted-IsSpent Why env a m (deposit env asset amount a reply m) (
      with_nonce-IsCounted Why env a m _ (
        escrow-IsBody env a asset amount reply (λ k n. deposit_quote a asset k n) (λ k n. refl)
          (λ k n. refl)))
serve-IsSpent env (withdrawing asset amount a reply) m =
    let Why = AnyRefused (amount ∷ []) in
    IsCounted-IsSpent Why env a m (withdraw env asset amount a reply m) (
      with_nonce-IsCounted Why env a m _ (
        escrow-IsBody env a asset amount reply (λ k n. withdraw_quote a asset k n) (λ k n. refl)
          (λ k n. refl)))
serve-IsSpent env (cleaning start_id limit a reply) m =
    IsCounted-IsSpent ⊥ env a m (clean_expired env start_id limit a reply m) (
      with_nonce-IsCounted ⊥ env a m (clean_call start_id limit a reply)
        (clean-IsBody start_id limit a reply))

abbrev pub nonce_at : String → String → Market → ℕ
nonce_at dex a m = count_or_zero (lookup (dex, a) m.nonces)

nonce_at-insert :
    (dex a b : String) (m m' : Market) (n : ℕ)
    → m'.nonces ≡ insert (dex, b) n m.nonces
    → nonce_at dex a m' ≡ (if str_eq b a then n else nonce_at dex a m)
nonce_at-insert dex a b m m' n kept =
    rw (kept, lookup-insert (dex, b) (dex, a) n m.nonces)
      (ground (arith, str_eq_iff b a, str_eq_iff dex dex))

cons-count_up :
    (Refused : Type 0) (dex a : String) (m m' : Market) (call : Option Invocation) (k : ℕ)
    → ¬ Refused
    → IsSpent Refused dex m m' call
    → (j : ℕ) × (cons_nonce a call (count_up (nonce_at dex a m') k) ≡ count_up (nonce_at dex a m) j)
cons-count_up Refused dex a m m' _ k fine (idle same) = (k, rw same)
cons-count_up Refused dex a m m' _ k fine (skipped b why kept) = absurd (fine why)
cons-count_up Refused dex a m m' _ k fine (spent call nonce kept) =
    let moved = nonce_at-insert dex a (signer_of call) m m' (nonce_of call + 1) kept in
    elim (Bool-cases (str_eq (signer_of call) a)) [
      | inl mine ↦
          let e : signer_of call ≡ a = (str_eq_iff (signer_of call) a).0 mine in
          let now : nonce_of call ≡ nonce_at dex a m = nonce ∙ ap (λ b. nonce_at dex b m) e in
          (suc k, rw (moved, mine, now))
      | inr other ↦ (k, rw (moved, other))
    ]

length-count_up : (n k : ℕ) → length (count_up n k) ≡ k
length-count_up n zero = refl
length-count_up n (suc k) = ap suc (length-count_up (n + 1) k)

nonces_of-some :
    (dex a : String) (rs : List (Env × Request)) (m : Market)
    → NoneRefused rs
    → (j : ℕ) × (nonces_of dex a rs m ≡ count_up (nonce_at dex a m) j)
nonces_of-some dex a [] m fine = (0, refl)
nonces_of-some dex a ((env, r) ∷ rs) m (fine, all_fine) =
    let (m', call) = serve (record env { dex_router = dex }) r m in
    let (k, rest) = nonces_of-some dex a rs m' all_fine in
    let (j, here) =
      cons-count_up (IsRefused r) dex a m m' call k fine
        (serve-IsSpent (record env { dex_router = dex }) r m) in
    (j, ap (cons_nonce a call) rest ∙ here)

-- As long as no number of a request, but the one of an order, has a fraction or does not fit the
-- contract's type, the calls of each wallet carry the nonces that follow its counter, one after
-- another, and none is left out, whatever else the requests are answered with.
pub nonces_of-count_up :
    (dex a : String) (rs : List (Env × Request)) (m : Market)
    → NoneRefused rs
    → nonces_of dex a rs m ≡ count_up (nonce_at dex a m) (length (nonces_of dex a rs m))
nonces_of-count_up dex a rs m fine =
    let (j, e) = nonces_of-some dex a rs m fine in
    let l : length (nonces_of dex a rs m) ≡ j =
      ap length e ∙ length-count_up (nonce_at dex a m) j in
    e ∙ ap (count_up (nonce_at dex a m)) (sym l)

IsAscending-lower :
    (low high : ℕ) (ns : List ℕ) → low ≤ high → IsAscending high ns → IsAscending low ns
IsAscending-lower low high [] le h = tt
IsAscending-lower low high (n ∷ ns) le (here, h) = (omega arith, h)

cons-IsAscending :
    (Refused : Type 0) (dex a : String) (m m' : Market) (call : Option Invocation) (ns : List ℕ)
    → IsSpent Refused dex m m' call
    → IsAscending (nonce_at dex a m') ns
    → IsAscending (nonce_at dex a m) (cons_nonce a call ns)
cons-IsAscending Refused dex a m m' _ ns (idle same) h =
    rw (ap (λ c. count_or_zero (lookup (dex, a) c)) same) at h
cons-IsAscending Refused dex a m m' _ ns (skipped b why kept) h =
    let moved = nonce_at-insert dex a b m m' (nonce_at dex b m + 1) kept in
    elim (Bool-cases (str_eq b a)) [
      | inl same ↦
          let e : nonce_at dex b m ≡ nonce_at dex a m =
            ap (λ x. nonce_at dex x m) ((str_eq_iff b a).0 same) in
          IsAscending-lower (nonce_at dex a m) (nonce_at dex b m + 1) ns (omega arith)
            (rw (moved, same) at h)
      | inr other ↦ rw (moved, other) at h
    ]
cons-IsAscending Refused dex a m m' _ ns (spent call nonce kept) h =
    let moved = nonce_at-insert dex a (signer_of call) m m' (nonce_of call + 1) kept in
    elim (Bool-cases (str_eq (signer_of call) a)) [
      | inl mine ↦
          let e : nonce_of call ≡ nonce_at dex a m =
            nonce ∙ ap (λ b. nonce_at dex b m) ((str_eq_iff (signer_of call) a).0 mine) in
          rw mine (omega arith, rw (moved, mine) at h)
      | inr other ↦ rw other (rw (moved, other) at h)
    ]

-- Whatever requests are served, also those that are refused or throw after a nonce was taken, the
-- nonces in the calls of each wallet ascend from its counter on: none is used twice.
pub nonces_of-IsAscending :
    (dex a : String) (rs : List (Env × Request)) (m : Market)
    → IsAscending (nonce_at dex a m) (nonces_of dex a rs m)
nonces_of-IsAscending dex a [] m = tt
nonces_of-IsAscending dex a ((env, r) ∷ rs) m =
    let (m', call) = serve (record env { dex_router = dex }) r m in
    cons-IsAscending (IsRefused r) dex a m m' call (nonces_of dex a rs m')
      (serve-IsSpent (record env { dex_router = dex }) r m) (nonces_of-IsAscending dex a rs m')

-- A deposit of an amount with a fraction makes no call, and the counter of the wallet moves on.
deposit_fractional :
    (env : Env) (asset a : String) (reply : Reply (Unit {0})) (m : Market)
    → env.redis_up ≡ true
    → ((deposit env asset fractional a reply m).invoked ≡ none)
      × (nonce_at env.dex_router a (deposit env asset fractional a reply m).market
          ≡ nonce_at env.dex_router a m + 1)
unfolding deposit
deposit_fractional env asset a reply m up =
    let e =
      with_nonce-up env a m
        (λ n x.
          with_whole fractional x
            (λ k. escrow_call env a asset reply (deposit_quote a asset k n) x))
        up in
    rw e (
      refl,
      nonce_at-insert env.dex_router a a m (counted env a m) (nonce_at env.dex_router a m + 1) refl
          ∙ ground (arith, str_eq_iff a a),
    )
