-- ===== src/Market/Repair.antt =====
-- What a repair leaves of the index of balances, and which orders are reported as missing.
use eco_mint.Prelude.{
  ℕ, zero, suc, ◌+◌, ◌-◌, ◌*◌, ◌<◌, ◌≤◌, String, Bool, true, false, ◌&&◌, ◌||◌, Option, none, some,
  List, [], ◌∷◌, any, filter, take, drop, min, ◌++◌, nat_eq, nat_eq_iff, str_eq, if◌then◌else◌,
  pair_has_eq, string_has_eq, nat_has_eq, ◌≡◌, inl, inr, refl, sym, ap, ◌∙◌, arith, Has, All,
  All-mono, Has-append_left, Has-append_right, Bool-cases, Option-cases,
}
use eco_mint.Prelude.Dict.{lookup, insert, lookup-insert, lookup-remove}
use eco_mint.Market.Types.{
  OrderStatus, opened, partially_filled, OrderResponse, Ledger, status_eq, list_key_has_eq,
}
use eco_mint.Market.Orders.{
  Market, fetch_order_from_ledger, orders_from, matching_orders, fits_bond, fits_status, paged,
  get_order, store_order, list_orders, store_page, page_of,
}
use eco_mint.Market.Trading.{get_quote_balance}
use eco_mint.Market.Reconciliation.{
  Mismatch, balance_mismatch, stale_order_cache, missing_order, order_escrow_invariant, set_indexed,
  has_wallet, reconcile_open, reconcile_orders, index_key, repair, repair_one, missing_orders,
  check_missing, indexed_ids, prepend, on_index, scan_missing, append_missing, check_stale,
  check_escrow,
}

-- A balance mismatch of the report is about the wallet and the asset, both given.
abbrev pub names_balance : String → String → List Mismatch → Bool
names_balance wallet asset [] = false
names_balance wallet asset (balance_mismatch w a expected observed ∷ xs) =
    (has_wallet w a && str_eq w wallet && str_eq a asset) || names_balance wallet asset xs
names_balance wallet asset (_ ∷ xs) = names_balance wallet asset xs

repair_one-lookup :
    (w a wallet asset : String) (expected observed : ℕ) (m : Market)
    → lookup (wallet, asset) (repair_one (balance_mismatch w a expected observed) m).quote_index ≡ (
        if has_wallet w a && str_eq w wallet && str_eq a asset
        then none
        else lookup (wallet, asset) m.quote_index)
unfolding repair_one set_indexed
repair_one-lookup w a wallet asset expected observed m = ground (
  arith,
  lookup-remove (w, a) (wallet, asset) (insert (w, a) expected m.quote_index),
  lookup-insert (w, a) (wallet, asset) expected m.quote_index,
)

-- After a repair the index has no entry for any wallet and asset, both not empty, that a balance
-- mismatch of the report names, and the entries of the others as before: a balance is not re-synced
-- but dropped.
pub repair-lookup :
    (wallet asset : String) (xs : List Mismatch) (m : Market)
    → lookup (wallet, asset) (repair xs m).quote_index
      ≡ (if names_balance wallet asset xs then none else lookup (wallet, asset) m.quote_index)
unfolding repair repair_one
repair-lookup wallet asset [] m = refl
repair-lookup wallet asset (balance_mismatch w a expected observed ∷ xs) m =
    repair-lookup wallet asset xs (repair_one (balance_mismatch w a expected observed) m)
    ∙ rw (repair_one-lookup w a wallet asset expected observed m) (ground arith)
repair-lookup wallet asset (stale_order_cache id expected observed ∷ xs) m =
    repair-lookup wallet asset xs (repair_one (stale_order_cache id expected observed) m)
repair-lookup wallet asset (order_escrow_invariant id w a required observed ∷ xs) m =
    repair-lookup wallet asset xs (repair_one (order_escrow_invariant id w a required observed) m)
repair-lookup wallet asset (missing_order id expected ∷ xs) m =
    repair-lookup wallet asset xs (repair_one (missing_order id expected) m)

-- The ledger gives each order under its own number.
abbrev pub IsNumbered : Ledger → ℕ → Type 0
IsNumbered ledger now =
    (id : ℕ) (o : OrderResponse) → fetch_order_from_ledger ledger now id ≡ some o → o.id ≡ id

abbrev IsListed : Ledger → ℕ → OrderResponse → Type 0
IsListed ledger now o = fetch_order_from_ledger ledger now o.id ≡ some o

abbrev IsShown : Ledger → ℕ → OrderResponse → Type 0
IsShown ledger now o = IsListed ledger now o × (o.status ≡ opened)

orders_from-IsListed :
    (ledger : Ledger) (now id n : ℕ)
    → IsNumbered ledger now
    → All (IsListed ledger now) (orders_from ledger now id n)
unfolding orders_from
orders_from-IsListed ledger now id zero h = tt
orders_from-IsListed ledger now id (suc n) h =
    elim (Option-cases (fetch_order_from_ledger ledger now id)) [
      | inl absent ↦ rw (absent, orders_from) (orders_from-IsListed ledger now (suc id) n h)
      | inr (o, found) ↦
          rw (found, orders_from)
            (
              ap (fetch_order_from_ledger ledger now) (h id o found) ∙ found,
              orders_from-IsListed ledger now (suc id) n h,
            )
    ]

filter-All :
    (P : OrderResponse → Type 0) (p : OrderResponse → Bool) (os : List OrderResponse)
    → All P os
    → All (λ o. P o × (p o ≡ true)) (filter p os)
filter-All P p [] h = tt
filter-All P p (o ∷ os) (here, h) = elim (Bool-cases (p o)) [
  | inl kept ↦ rw kept ((here, kept), filter-All P p os h)
  | inr left ↦ rw left (filter-All P p os h)
]

take-All :
    (P : OrderResponse → Type 0) (n : ℕ) (os : List OrderResponse) → All P os → All P (take n os)
take-All P zero os h = tt
take-All P (suc n) [] h = tt
take-All P (suc n) (o ∷ os) (here, h) = (here, take-All P n os h)

drop-All :
    (P : OrderResponse → Type 0) (n : ℕ) (os : List OrderResponse) → All P os → All P (drop n os)
drop-All P zero os h = h
drop-All P (suc n) [] h = tt
drop-All P (suc n) (o ∷ os) (here, h) = drop-All P n os h

-- The first 200 open orders, as a listing without a cached page reads them from the ledger.
abbrev pub open_index : Ledger → ℕ → ℕ → List OrderResponse
open_index ledger now total = paged 1 200 (matching_orders ledger now total 0 (some opened))

status_eq-opened : (s : OrderStatus) → status_eq s opened ≡ true → s ≡ opened
status_eq-opened s h = ground arith

open_index-IsShown :
    (ledger : Ledger) (now total : ℕ)
    → IsNumbered ledger now
    → All (IsShown ledger now) (open_index ledger now total)
unfolding paged matching_orders
open_index-IsShown ledger now total h =
    let listed = orders_from-IsListed ledger now 1 total h in
    let by_bond =
      filter-All (IsListed ledger now) (fits_bond 0) (orders_from ledger now 1 total) listed in
    let P : OrderResponse → Type 0 =
      λ (o : OrderResponse). IsListed ledger now o × (fits_bond 0 o ≡ true) in
    let bonds = filter (fits_bond 0) (orders_from ledger now 1 total) in
    let by_status = filter-All P (fits_status (some opened)) bonds by_bond in
    let Q : OrderResponse → Type 0 =
      λ (o : OrderResponse). P o × (fits_status (some opened) o ≡ true) in
    let shown = filter (fits_status (some opened)) bonds in
    let here =
      take-All Q 200 (drop ((1 - 1) * 200) shown) (drop-All Q ((1 - 1) * 200) shown by_status) in
    All-mono Q (IsShown ledger now) (open_index ledger now total)
      (λ o x. (x.0.0, status_eq-opened o.status x.1)) here

absent_id :
    (ledger : Ledger) (now id : ℕ) (o : OrderResponse) (os : List OrderResponse)
    → fetch_order_from_ledger ledger now id ≡ some o
    → o.status ≡ partially_filled
    → All (IsShown ledger now) os
    → any (nat_eq id) (indexed_ids os) ≡ false
absent_id ledger now id o [] found part h = refl
absent_id ledger now id o (x ∷ os) found part ((listed, shown), h) =
    elim (Bool-cases (nat_eq id x.id)) [
      | inl same ↦
          let e : id ≡ x.id = (nat_eq_iff id x.id).0 same in
          let both : some o ≡ some x =
            sym found ∙ ap (fetch_order_from_ledger ledger now) e ∙ listed in
          absurd (ground (arith, both))
      | inr other ↦ rw other (absent_id ledger now id o os found part h)
    ]

missing_orders-Has :
    (ledger : Ledger) (now : ℕ) (ids : List ℕ) (start n k : ℕ) (x : Mismatch)
    → k < n
    → Has x (check_missing ids (start + k) (fetch_order_from_ledger ledger now (start + k)))
    → Has x (missing_orders ledger now ids start n)
unfolding missing_orders
missing_orders-Has ledger now ids start zero k x h m = absurd (omega arith)
missing_orders-Has ledger now ids start (suc n) zero x h m =
    let e : start + 0 ≡ start = omega arith in
    Has-append_left x (check_missing ids start (fetch_order_from_ledger ledger now start))
      (missing_orders ledger now ids (suc start) n) (rw e at m)
missing_orders-Has ledger now ids start (suc n) (suc k) x h m =
    let e : start + suc k ≡ suc start + k = omega arith in
    Has-append_right x (check_missing ids start (fetch_order_from_ledger ledger now start))
      (missing_orders ledger now ids (suc start) n)
      (missing_orders-Has ledger now ids (suc start) n k x (omega arith) (rw e at m))

-- The escrow of the seller is read.
abbrev pub IsFunded : (String → String) → Ledger → OrderResponse → Type 0
IsFunded upper ledger o = (n : ℕ) × (get_quote_balance upper ledger o.seller o.quote_asset ≡ some n)

get_order-some :
    (ledger : Ledger) (now id : ℕ) (m : Market) (o : OrderResponse)
    → fetch_order_from_ledger ledger now id ≡ some o
    → (m' : Market) × (x : OrderResponse) × (get_order ledger now id m ≡ (m', some x))
unfolding get_order store_order
get_order-some ledger now id m o found = elim (Option-cases (lookup id m.orders)) [
  | inl absent ↦ (record m { orders = insert id o m.orders }, o, rw (absent, get_order, found) refl)
  | inr (x, cached) ↦ (m, x, rw (cached, get_order) refl)
]

reconcile_open-cons :
    (upper : String → String) (ledger : Ledger) (now n : ℕ) (o x : OrderResponse)
    (os : List OrderResponse) (m m' : Market)
    → fetch_order_from_ledger ledger now o.id ≡ some o
    → get_order ledger now o.id m ≡ (m', some x)
    → get_quote_balance upper ledger o.seller o.quote_asset ≡ some n
    → reconcile_open upper ledger now (o ∷ os) m
      ≡ prepend
          (check_stale o.id x.status o.status ++ check_escrow o n)
          (reconcile_open upper ledger now os m')
unfolding reconcile_open
reconcile_open-cons upper ledger now n o x os m m' listed got escrow =
    rw (listed, got, escrow, reconcile_open)
      (ap
        (λ (p : Market × Option OrderResponse).
          prepend (check_stale o.id x.status o.status ++ check_escrow o n)
            (reconcile_open upper ledger now os p.0))
        got)

-- The loop over the open orders ends with a report.
reconcile_open-some :
    (upper : String → String) (ledger : Ledger) (now : ℕ) (os : List OrderResponse) (m : Market)
    → All (IsShown ledger now) os
    → All (IsFunded upper ledger) os
    → (m' : Market) × (xs : List Mismatch) × (reconcile_open upper ledger now os m ≡ some (m', xs))
unfolding reconcile_open
reconcile_open-some upper ledger now [] m h f = (m, [], refl)
reconcile_open-some upper ledger now (o ∷ os) m ((listed, _), h) ((n, escrow), f) =
    let (m1, x, got) = get_order-some ledger now o.id m o listed in
    let (m2, xs, rest) = reconcile_open-some upper ledger now os m1 h f in
    (
      m2,
      (check_stale o.id x.status o.status ++ check_escrow o n) ++ xs,
      reconcile_open-cons upper ledger now n o x os m m1 listed got escrow
          ∙ ap (prepend (check_stale o.id x.status o.status ++ check_escrow o n)) rest,
    )

list_orders_uncached :
    (ledger : Ledger) (now total : ℕ) (m : Market)
    → lookup index_key m.order_lists ≡ none
    → ledger.order_count ≡ some total
    → list_orders ledger now index_key m ≡ store_page ledger now index_key (some total) m
unfolding list_orders
list_orders_uncached ledger now total m uncached counted =
    rw (uncached, list_orders) (ap (λ c. store_page ledger now index_key c m) counted)

reconcile_orders-some :
    (upper : String → String) (ledger : Ledger) (now max_scan total : ℕ) (m : Market)
    → IsNumbered ledger now
    → lookup index_key m.order_lists ≡ none
    → ledger.order_count ≡ some total
    → All (IsFunded upper ledger) (open_index ledger now total)
    → (m' : Market) × (xs : List Mismatch) × (reconcile_orders upper ledger now max_scan m
        ≡ some (
          m',
          xs
              ++ missing_orders ledger now
                  (indexed_ids (open_index ledger now total))
                  1
                  (min total max_scan),
        ))
unfolding reconcile_orders store_page page_of
reconcile_orders-some upper ledger now max_scan total m numbered uncached counted funded =
    let stored = record m {
      order_lists =
          insert index_key (page_of index_key (matching_orders ledger now total 0 (some opened)))
            m.order_lists;
    } in
    let (m', xs, e) =
      reconcile_open-some upper ledger now (open_index ledger now total) stored
        (open_index-IsShown ledger now total numbered) funded in
    let orders = open_index ledger now total in
    let scanned = reconcile_open upper ledger now orders stored in
    (
      m',
      xs,
      ap (on_index upper ledger now max_scan)
            (list_orders_uncached ledger now total m uncached counted)
          ∙ ap (λ c. scan_missing ledger now max_scan orders c scanned) counted
          ∙ ap
              (append_missing
                (missing_orders ledger now (indexed_ids orders) 1 (min total max_scan)))
              e,
    )

-- Where no listing of the open orders is cached, each order has its own number, and the reads
-- answer, the reconciliation ends with a report, and every partially filled order among those
-- scanned is reported in it as missing: the index that the scan compares with lists open orders
-- only.
pub reconcile_orders-partially_filled :
    (upper : String → String) (ledger : Ledger) (now max_scan total id : ℕ) (m : Market)
    (o : OrderResponse)
    → IsNumbered ledger now
    → lookup index_key m.order_lists ≡ none
    → ledger.order_count ≡ some total
    → All (IsFunded upper ledger) (open_index ledger now total)
    → fetch_order_from_ledger ledger now id ≡ some o
    → o.status ≡ partially_filled
    → 1 ≤ id
    → id ≤ min total max_scan
    → (m' : Market) × (xs : List Mismatch) × (reconcile_orders upper ledger now max_scan m
        ≡ some (m', xs))
      × Has (missing_order id partially_filled) xs
reconcile_orders-partially_filled upper ledger now max_scan total id m o numbered uncached counted
      funded found part low high =
    let (m', ys, e) =
      reconcile_orders-some upper ledger now max_scan total m numbered uncached counted funded in
    let ids = indexed_ids (open_index ledger now total) in
    let missing = missing_orders ledger now ids 1 (min total max_scan) in
    let at : 1 + (id - 1) ≡ id = omega arith in
    let out =
      absent_id ledger now id o (open_index ledger now total) found part
        (open_index-IsShown ledger now total numbered) in
    (
      m',
      ys ++ missing,
      e,
      Has-append_right (missing_order id partially_filled) ys missing (
          missing_orders-Has ledger now ids 1 (min total max_scan) (id - 1)
            (missing_order id partially_filled) (ground arith)
            (rw (at, found, out, part) (inl refl))),
    )
