-- ===== src/Holders/Tests.antt =====
-- Concrete runs of the holder index.
use eco_mint.Prelude.{
  ℕ, String, true, false, Option, none, some, List, [], ◌∷◌, ◌≡◌, refl, arith, filter, nat_has_eq,
}
use eco_mint.Prelude.Dict.{lookup, insert}
use eco_mint.Holders.Store.{
  HolderStoreData, get_holders, add_once, load, empty_data, add_holder, add_all_once, touch,
  get_last_reconciled,
}
use eco_mint.Holders.Index.{
  HolderIndex, Env, ensure_loaded, save, candidates, keep_or_prune, read_balances,
  get_holders_with_balances, reconcile_address, reconcile_addresses, reconcile_bond,
  get_holders_for_coupon, is_stale, refuses_empty, record_subscribe,
}
use eco_mint.Holders.Reconcile.{IsCandidate, IsReconciled, reconcile_bond-IsReconciled}
use eco_mint.Holders.Coupon.{keeps, stale-coupon, subscribed-coupon}
use eco_mint.Holders.Uniqueness.{
  IsClean, Event, subscribes, transfers, pays_coupon, restarts, run, run-IsClean, empty-IsUnique,
}

abbrev balances : ℕ → String → Option ℕ
balances bond a = some 5

abbrev at_time : ℕ → Env
at_time t = record { balance = balances; now = t; file_ok = true }

abbrev stored : HolderStoreData
stored = record {
  holders = (1, "alice" ∷ []) ∷ [];
  known_addresses = "alice" ∷ "bob" ∷ [];
  last_reconciled = [];
}

abbrev index : HolderIndex
index = record { data_of = stored; file = none; loaded = true }

reconcile_bond_example :
    IsReconciled
      (balances 1)
      (IsCandidate 1 ("carol" ∷ []) (ensure_loaded index).data_of)
      (get_holders 1 (ensure_loaded index).data_of)
      (get_holders 1 (reconcile_bond (at_time 10) 1 ("carol" ∷ []) index).0.data_of)
reconcile_bond_example = reconcile_bond-IsReconciled (at_time 10) 1 ("carol" ∷ []) index

index-stale : is_stale (at_time 10) 100 1 (ensure_loaded index).data_of ≡ true
unfolding is_stale get_last_reconciled lookup ensure_loaded
index-stale = refl

index-seeded :
    refuses_empty 1 (reconcile_bond (at_time 10) 1 [] (ensure_loaded index)).0.data_of ≡ false
unfolding refuses_empty reconcile_bond reconcile_addresses reconcile_address candidates add_all_once
    add_once add_holder get_holders get_holders_with_balances read_balances keep_or_prune save touch
    lookup insert ensure_loaded
index-seeded = refl

stale_example :
    (paid : List String) × ((get_holders_for_coupon (at_time 10) true 100 1 index).1 ≡ some paid)
    × IsReconciled
        (balances 1)
        (IsCandidate 1 [] (ensure_loaded index).data_of)
        (get_holders 1 (ensure_loaded index).data_of)
        paid
stale_example = stale-coupon (at_time 10) 100 1 index index-stale index-seeded

subscribed_example :
    (get_holders_for_coupon
      (at_time 20)
      true
      100
      1
      (record_subscribe (at_time 10) 1 "dave" index)).1
    ≡ some (
        filter
          (keeps (at_time 20) 1)
          (add_once "dave" (get_holders 1 (ensure_loaded index).data_of)))
subscribed_example =
    subscribed-coupon (at_time 10) (at_time 20) 100 1 "dave" index (omega arith) (omega arith)

abbrev events : List Event
events =
    subscribes (at_time 5) 1 "alice"
    ∷ transfers (at_time 6) 1 "alice" "bob"
    ∷ restarts
    ∷ pays_coupon (at_time 7) true 100 1
    ∷ []

abbrev fresh : HolderIndex
fresh = record { data_of = empty_data; file = none; loaded = false }

fresh-IsClean : IsClean fresh
unfolding load
fresh-IsClean = record { memory = empty-IsUnique; disk = empty-IsUnique }

run_example : IsClean (run events fresh)
run_example = run-IsClean events fresh fresh-IsClean
