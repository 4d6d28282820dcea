-- ===== src/Holders/Index.antt =====
-- api/src/bonds/holder-index.service.ts on a FileHolderStore. The chain's balances are given: `none`
-- is a balance that cannot be read. The copy in Redis, which nothing here reads, is left out.
use eco_mint.Prelude.{
  ℕ, suc, zero, ◌-◌, String, Bool, true, false, ◌&&◌, ◌||◌, Option, none, some, List, [], ◌∷◌, ◌++◌,
  ltb, nat_eq, map, if◌then◌else◌,
}
use eco_mint.Holders.Store.{
  HolderStoreData, get_holders, add_holder, remove_holder, add_known_address, get_last_reconciled,
  touch, add_all_once, load,
}

pub record HolderIndex : Type 0 where
  pub data_of : HolderStoreData
  pub file : Option HolderStoreData
  pub loaded : Bool

-- The surroundings of one call: on-chain balances, `Date.now()`, and whether the file can be written.
pub record Env : Type 0 where
  pub balance : ℕ → String → Option ℕ
  pub now : ℕ
  pub file_ok : Bool

pub record HolderWithBalance : Type 0 where
  pub address : String
  pub balance : ℕ

unfoldable pub ensure_loaded : HolderIndex → HolderIndex
ensure_loaded i = if i.loaded then i else record i { data_of = load i.file; loaded = true }

unfoldable pub save : Bool → HolderIndex → HolderIndex
save ok i = if ok then record i { file = some i.data_of } else i

abbrev pub with_data : HolderIndex → HolderStoreData → HolderIndex
with_data i d = record i { data_of = d }

unfoldable pub record_subscribe : Env → ℕ → String → HolderIndex → HolderIndex
record_subscribe env bond a i =
    let j = ensure_loaded i in
    save env.file_ok
      (with_data j (touch bond env.now (add_known_address a (add_holder bond a j.data_of))))

unfoldable pub record_transfer : Env → ℕ → String → String → HolderIndex → HolderIndex
record_transfer env bond source target i =
    let j = ensure_loaded i in
    save env.file_ok (
      with_data j (
        touch bond env.now
          (add_holder bond target (add_known_address target (add_known_address source j.data_of)))))

-- One address of `getHoldersWithBalances`: the data, what is pushed on the result, and `changed`.
unfoldable pub keep_or_prune :
    ℕ → String → Option ℕ → HolderStoreData → HolderStoreData × List HolderWithBalance × Bool
keep_or_prune bond a none d = (d, record { address = a; balance = 0 } ∷ [], false)
keep_or_prune bond a (some n) d =
    if ltb 0 n
    then (d, record { address = a; balance = n } ∷ [], false)
    else (remove_holder bond a d, [], true)

unfoldable pub read_balances :
    Env → ℕ → List String → HolderStoreData → HolderStoreData × List HolderWithBalance × Bool
read_balances env bond [] d = (d, [], false)
read_balances env bond (a ∷ addresses) d =
    let (d', here, pruned) = keep_or_prune bond a (env.balance bond a) d in
    let (d'', rest, changed) = read_balances env bond addresses d' in
    (d'', here ++ rest, pruned || changed)

unfoldable pub get_holders_with_balances :
    Env → ℕ → HolderIndex → HolderIndex × List HolderWithBalance
get_holders_with_balances env bond i =
    let j = ensure_loaded i in
    let (d, result, changed) = read_balances env bond (get_holders bond j.data_of) j.data_of in
    ((if changed then save env.file_ok (with_data j d) else with_data j d), result)

unfoldable pub reconcile_address : ℕ → String → Option ℕ → HolderStoreData → HolderStoreData
reconcile_address bond a none d = d
reconcile_address bond a (some n) d =
    if ltb 0 n then add_holder bond a d else remove_holder bond a d

unfoldable pub reconcile_addresses : Env → ℕ → List String → HolderStoreData → HolderStoreData
reconcile_addresses env bond [] d = d
reconcile_addresses env bond (a ∷ addresses) d =
    reconcile_addresses env bond addresses (reconcile_address bond a (env.balance bond a) d)

unfoldable pub candidates : ℕ → List String → HolderStoreData → List String
candidates bond extra d = add_all_once [] (get_holders bond d ++ (d.known_addresses ++ extra))

unfoldable pub reconcile_bond :
    Env → ℕ → List String → HolderIndex → HolderIndex × List HolderWithBalance
reconcile_bond env bond extra i =
    let j = ensure_loaded i in
    let d = reconcile_addresses env bond (candidates bond extra j.data_of) j.data_of in
    get_holders_with_balances env bond (save env.file_ok (with_data j (touch bond env.now d)))

-- Bonds `id`, `id + 1`, … with their holders.
unfoldable pub reindex_from :
    Env → ℕ → ℕ → HolderIndex → HolderIndex × List (ℕ × List HolderWithBalance)
reindex_from env id zero i = (i, [])
reindex_from env id (suc n) i =
    let (i', holders) = reconcile_bond env id [] i in
    let (i'', rest) = reindex_from env (suc id) n i' in (i'', (id, holders) ∷ rest)

unfoldable pub reindex_all : Env → ℕ → HolderIndex → HolderIndex × List (ℕ × List HolderWithBalance)
reindex_all env bond_count i = reindex_from env 1 bond_count (ensure_loaded i)

unfoldable pub is_stale : Env → ℕ → ℕ → HolderStoreData → Bool
is_stale env max_staleness bond d =
    let at = get_last_reconciled bond d in nat_eq at 0 || ltb max_staleness (env.now - at)

abbrev pub is_nil : List String → Bool
is_nil [] = true
is_nil _ = false

unfoldable pub refuses_empty : ℕ → HolderStoreData → Bool
refuses_empty bond d = is_nil d.known_addresses && is_nil (get_holders bond d)

abbrev pub addresses_of : HolderIndex × List HolderWithBalance → HolderIndex × Option (List String)
addresses_of (i, result) = (i, some (map (λ h. h.address) result))

unfoldable pub refresh : Env → ℕ → ℕ → HolderIndex → HolderIndex
refresh env max_staleness bond i =
    if is_stale env max_staleness bond i.data_of then (reconcile_bond env bond [] i).0 else i

-- `none` is the ConflictException of an index that was never seeded.
unfoldable pub get_holders_for_coupon :
    Env → Bool → ℕ → ℕ → HolderIndex → HolderIndex × Option (List String)
get_holders_for_coupon env require_fresh max_staleness bond i =
    let j = ensure_loaded i in
    let k = if require_fresh then refresh env max_staleness bond j else j in
    if require_fresh && refuses_empty bond k.data_of
    then (k, none)
    else addresses_of (get_holders_with_balances env bond k)

unfoldable pub mark_reconciled : Env → ℕ → HolderIndex → HolderIndex
mark_reconciled env bond i =
    let j = ensure_loaded i in save env.file_ok (with_data j (touch bond env.now j.data_of))
