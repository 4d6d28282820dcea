-- ===== src/Market/Reconciliation.antt =====
-- api/src/marketplace/dex.reconciliation.service.ts: the report of mismatches between the indexed view
-- and the ledger, and its repair. The wallets and assets to sample are given, as `reconcile` takes
-- them in its options. Logging and the stored copies of the report are left out.
use eco_mint.Prelude.{
  str_eq, Bool, ℕ, zero, suc, ◌*◌, min, String, not, ◌&&◌, Option, none, some, List, [], ◌∷◌, ◌++◌,
  map, any, ltb, nat_eq, if◌then◌else◌, pair_has_eq, string_has_eq, nat_has_eq,
}
use eco_mint.Prelude.Dict.{lookup, insert, remove}
use eco_mint.Market.Types.{
  OrderStatus, opened, OrderResponse, Ledger, OrderPage, ListKey, is_open_state,
}
use eco_mint.Market.Orders.{Market, list_orders, get_order, fetch_order_from_ledger}
use eco_mint.Market.Trading.{get_quote_balance}

-- A mismatch with its wallet, asset and order, and the value of the ledger.
pub data Mismatch : Type 0 where
  balance_mismatch : (wallet asset : String) (expected observed : ℕ) → Mismatch
  stale_order_cache : (order_id : ℕ) (expected observed : OrderStatus) → Mismatch
  order_escrow_invariant : (order_id : ℕ) (wallet asset : String) (required observed : ℕ) → Mismatch
  missing_order : (order_id : ℕ) (expected : OrderStatus) → Mismatch

-- `setIndexedQuoteBalance`
unfoldable pub set_indexed : String → String → ℕ → Market → Market
set_indexed wallet asset balance m = record m {
  quote_index = insert (wallet, asset) balance m.quote_index;
}

-- One wallet and asset: on the ledger, and in the index.
unfoldable pub check_balance : String → String → ℕ → Option ℕ → Market → Market × List Mismatch
check_balance wallet asset on_chain none m = (set_indexed wallet asset on_chain m, [])
check_balance wallet asset on_chain (some indexed) m =
    (m, if nat_eq indexed on_chain then [] else balance_mismatch wallet asset on_chain indexed ∷ [])

abbrev pub prepend :
    List Mismatch → Option (Market × List Mismatch) → Option (Market × List Mismatch)
prepend xs none = none
prepend xs (some (m, ys)) = some (m, xs ++ ys)

-- The two loops over wallets and assets, as pairs; `none` is the error of a balance not read.
unfoldable pub reconcile_balances :
    (String → String) → Ledger → List (String × String) → Market → Option (Market × List Mismatch)
reconcile_balances upper ledger [] m = some (m, [])
reconcile_balances upper ledger ((wallet, asset) ∷ pairs) m =
    elim (get_quote_balance upper ledger wallet asset) [
      | none ↦ none
      | some on_chain ↦
          let (m', here) =
            check_balance wallet asset on_chain (lookup (wallet, asset) m.quote_index) m in
          prepend here (reconcile_balances upper ledger pairs m')
    ]

abbrev pub check_stale : ℕ → OrderStatus → OrderStatus → List Mismatch
check_stale id indexed on_chain =
    if is_open_state indexed && not (is_open_state on_chain)
    then stale_order_cache id on_chain indexed ∷ []
    else []

abbrev pub check_escrow : OrderResponse → ℕ → List Mismatch
check_escrow o escrowed =
    let required = o.price_per_token * o.amount in
    if ltb escrowed required
    then order_escrow_invariant o.id o.seller o.quote_asset required escrowed ∷ []
    else []

abbrev pub open_checks :
    OrderResponse
    → Option OrderResponse
    → Market × Option OrderResponse
    → Option ℕ
    → Option (Market × List Mismatch)
open_checks o (some on_chain) (m, some indexed) (some escrowed) =
    some (m, check_stale o.id indexed.status on_chain.status ++ check_escrow o escrowed)
open_checks o _ _ _ = none

-- The loop over the open orders of the index.
unfoldable pub reconcile_open :
    (String → String) → Ledger → ℕ → List OrderResponse → Market → Option (Market × List Mismatch)
reconcile_open upper ledger now [] m = some (m, [])
reconcile_open upper ledger now (o ∷ os) m =
    elim (open_checks o (fetch_order_from_ledger ledger now o.id) (get_order ledger now o.id m)
      (get_quote_balance upper ledger o.seller o.quote_asset)) [
        | none ↦ none
        | some (m', here) ↦ prepend here (reconcile_open upper ledger now os m')
      ]

abbrev pub indexed_ids : List OrderResponse → List ℕ
indexed_ids orders = map (λ o. o.id) orders

abbrev pub check_missing : List ℕ → ℕ → Option OrderResponse → List Mismatch
check_missing ids id none = []
check_missing ids id (some o) =
    if is_open_state o.status && not (any (nat_eq id) ids)
    then missing_order id o.status ∷ []
    else []

-- The scan of the ledger's ids, `n` of them from `id` on.
unfoldable pub missing_orders : Ledger → ℕ → List ℕ → ℕ → ℕ → List Mismatch
missing_orders ledger now ids id zero = []
missing_orders ledger now ids id (suc n) =
    check_missing ids id (fetch_order_from_ledger ledger now id)
    ++ missing_orders ledger now ids (suc id) n

abbrev pub index_key : ListKey
index_key = record { bond_id = 0; status = some opened; page = 1; limit = 200 }

abbrev pub append_missing :
    List Mismatch → Option (Market × List Mismatch) → Option (Market × List Mismatch)
append_missing ys none = none
append_missing ys (some (m, xs)) = some (m, xs ++ ys)

abbrev pub scan_missing :
    Ledger
    → ℕ
    → ℕ
    → List OrderResponse
    → Option ℕ
    → Option (Market × List Mismatch)
    → Option (Market × List Mismatch)
scan_missing ledger now max_scan orders none found = none
scan_missing ledger now max_scan orders (some count) found =
    append_missing (missing_orders ledger now (indexed_ids orders) 1 (min count max_scan)) found

abbrev pub on_index :
    (String → String) → Ledger → ℕ → ℕ → Market × Option OrderPage → Option (Market × List Mismatch)
on_index upper ledger now max_scan (m, none) = none
on_index upper ledger now max_scan (m, some page) =
    scan_missing ledger now max_scan page.content ledger.order_count
      (reconcile_open upper ledger now page.content m)

unfoldable pub reconcile_orders :
    (String → String) → Ledger → ℕ → ℕ → Market → Option (Market × List Mismatch)
reconcile_orders upper ledger now max_scan m =
    on_index upper ledger now max_scan (list_orders ledger now index_key m)

-- The mismatches of the report; `none` is an error of one of the reads.
unfoldable pub reconcile :
    (String → String)
    → Ledger
    → ℕ
    → ℕ
    → List (String × String)
    → Market
    → Option (Market × List Mismatch)
reconcile upper ledger now max_scan pairs m = elim (reconcile_balances upper ledger pairs m) [
  | none ↦ none
  | some (m', found) ↦ prepend found (reconcile_orders upper ledger now max_scan m')
]

-- `mismatch.walletAddress && mismatch.asset`; one that is left out stands as the empty text, which is
-- false in JavaScript too.
abbrev pub has_wallet : String → String → Bool
has_wallet wallet asset = not (str_eq wallet "") && not (str_eq asset "")

-- One mismatch: the two steps on the index of balances, or the evictions. The number of the order,
-- which the other guards ask for, is in each mismatch that has such a guard.
unfoldable pub repair_one : Mismatch → Market → Market
repair_one (balance_mismatch wallet asset expected observed) m =
    let m' = set_indexed wallet asset expected m in
    if has_wallet wallet asset
    then record m' { quote_index = remove (wallet, asset) m'.quote_index }
    else m
repair_one (stale_order_cache id expected observed) m = record m {
  orders = remove id m.orders;
  order_lists = [];
}
repair_one (missing_order id expected) m = record m { order_lists = [] }
repair_one (order_escrow_invariant id wallet asset required observed) m = record m {
  order_lists = [];
}

unfoldable pub repair : List Mismatch → Market → Market
repair [] m = m
repair (x ∷ xs) m = repair xs (repair_one x m)
