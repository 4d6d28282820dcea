-- ===== src/Holders/Uniqueness.antt =====
-- Repeated addresses in the index, over calls and restarts.
use eco_mint.Prelude.{
  ℕ, zero, suc, String, Bool, true, false, Option, none, some, List, [], ◌∷◌, nat_eq, if◌then◌else◌,
  nat_has_eq, ltb, ◌≡◌, sym, inl, inr, arith, subst, Bool-cases,
}
use eco_mint.Prelude.Dict.{lookup}
use eco_mint.Holders.Store.{
  HolderStoreData, get_holders, add_holder, remove_holder, add_once, drop_address, touch,
  add_known_address, load, empty_data,
}
use eco_mint.Holders.Index.{
  HolderIndex, Env, ensure_loaded, save, with_data, keep_or_prune, read_balances,
  get_holders_with_balances, reconcile_bond, reconcile_address, reconcile_addresses, candidates,
  get_holders_for_coupon, refresh, is_stale, refuses_empty, addresses_of, record_subscribe,
  record_transfer, mark_reconciled, reindex_from, reindex_all,
}
use eco_mint.Holders.Membership.{
  IsNodup, IsNodup-add_once, IsNodup-drop_address, get_holders-add_holder,
  get_holders-remove_holder,
}

abbrev pub IsUnique : HolderStoreData → Type 0
IsUnique d = ((b : ℕ) → IsNodup (get_holders b d)) × IsNodup d.known_addresses

-- The data in memory and in the file.
pub record IsClean (i : HolderIndex) : Type 0 where
  pub memory : IsUnique i.data_of
  pub disk : IsUnique (load i.file)

if-IsNodup :
    (c : Bool) (xs ys : List String) → IsNodup xs → IsNodup ys → IsNodup (if c then xs else ys)
if-IsNodup true xs ys h k = h
if-IsNodup false xs ys h k = k

add_holder-known :
    (bond : ℕ) (a : String) (d : HolderStoreData)
    → (add_holder bond a d).known_addresses ≡ d.known_addresses
unfolding add_holder
add_holder-known bond a d = ground arith

add_holder-IsUnique :
    (bond : ℕ) (a : String) (d : HolderStoreData) → IsUnique d → IsUnique (add_holder bond a d)
add_holder-IsUnique bond a d (h, k) = (
  λ b. subst IsNodup (sym (get_holders-add_holder bond b a d)) (
      if-IsNodup (nat_eq bond b) (add_once a (get_holders b d)) (get_holders b d)
        (IsNodup-add_once a (get_holders b d) (h b)) (h b)),
  subst IsNodup (sym (add_holder-known bond a d)) k,
)

remove_holder-IsUnique :
    (bond : ℕ) (a : String) (d : HolderStoreData) → IsUnique d → IsUnique (remove_holder bond a d)
unfolding remove_holder
remove_holder-IsUnique bond a d (h, k) = (
  λ b. subst IsNodup (sym (get_holders-remove_holder bond b a d)) (
      if-IsNodup (nat_eq bond b) (drop_address a (get_holders b d)) (get_holders b d)
        (IsNodup-drop_address a (get_holders b d) (h b)) (h b)),
  k,
)

add_known_address-IsUnique :
    (a : String) (d : HolderStoreData) → IsUnique d → IsUnique (add_known_address a d)
unfolding add_known_address get_holders
add_known_address-IsUnique a d (h, k) = (h, IsNodup-add_once a d.known_addresses k)

touch-IsUnique : (bond at : ℕ) (d : HolderStoreData) → IsUnique d → IsUnique (touch bond at d)
unfolding touch get_holders
touch-IsUnique bond at d u = u

keep_or_prune-IsUnique :
    (bond : ℕ) (a : String) (b : Option ℕ) (d : HolderStoreData)
    → IsUnique d
    → IsUnique (keep_or_prune bond a b d).0
unfolding keep_or_prune
keep_or_prune-IsUnique bond a none d u = u
keep_or_prune-IsUnique bond a (some n) d u = elim (Bool-cases (ltb 0 n)) [
  | inl some_left ↦ rw (some_left, keep_or_prune) u
  | inr empty ↦ rw (empty, keep_or_prune) (remove_holder-IsUnique bond a d u)
]

read_balances-IsUnique :
    (env : Env) (bond : ℕ) (xs : List String) (d : HolderStoreData)
    → IsUnique d
    → IsUnique (read_balances env bond xs d).0
unfolding read_balances
read_balances-IsUnique env bond [] d u = u
read_balances-IsUnique env bond (a ∷ xs) d u =
    read_balances-IsUnique env bond xs (keep_or_prune bond a (env.balance bond a) d).0
      (keep_or_prune-IsUnique bond a (env.balance bond a) d u)

reconcile_address-IsUnique :
    (bond : ℕ) (a : String) (b : Option ℕ) (d : HolderStoreData)
    → IsUnique d
    → IsUnique (reconcile_address bond a b d)
unfolding reconcile_address
reconcile_address-IsUnique bond a none d u = u
reconcile_address-IsUnique bond a (some n) d u = elim (Bool-cases (ltb 0 n)) [
  | inl some_left ↦ rw (some_left, reconcile_address) (add_holder-IsUnique bond a d u)
  | inr empty ↦ rw (empty, reconcile_address) (remove_holder-IsUnique bond a d u)
]

reconcile_addresses-IsUnique :
    (env : Env) (bond : ℕ) (xs : List String) (d : HolderStoreData)
    → IsUnique d
    → IsUnique (reconcile_addresses env bond xs d)
unfolding reconcile_addresses
reconcile_addresses-IsUnique env bond [] d u = u
reconcile_addresses-IsUnique env bond (a ∷ xs) d u =
    reconcile_addresses-IsUnique env bond xs (reconcile_address bond a (env.balance bond a) d)
      (reconcile_address-IsUnique bond a (env.balance bond a) d u)

either-IsClean :
    (b : Bool) (x y : HolderIndex) → IsClean x → IsClean y → IsClean (if b then x else y)
either-IsClean true x y h k = h
either-IsClean false x y h k = k

ensure_loaded-IsClean : (i : HolderIndex) → IsClean i → IsClean (ensure_loaded i)
unfolding ensure_loaded
ensure_loaded-IsClean i c =
    either-IsClean i.loaded i (record i { data_of = load i.file; loaded = true }) c
      (record { memory = c.disk; disk = c.disk })

save-IsClean : (ok : Bool) (i : HolderIndex) → IsClean i → IsClean (save ok i)
unfolding save load
save-IsClean true i c = record { memory = c.memory; disk = c.memory }
save-IsClean false i c = c

put : (i : HolderIndex) (d : HolderStoreData) → IsClean i → IsUnique d → IsClean (with_data i d)
put i d c u = record { memory = u; disk = c.disk }

read-IsClean :
    (env : Env) (bond : ℕ) (i : HolderIndex)
    → IsClean i
    → IsClean (get_holders_with_balances env bond i).0
unfolding get_holders_with_balances
read-IsClean env bond i c =
    let k = ensure_loaded-IsClean i c in
    let j = ensure_loaded i in
    let (d, _, changed) = read_balances env bond (get_holders bond j.data_of) j.data_of in
    let clean =
      put j d k (read_balances-IsUnique env bond (get_holders bond j.data_of) j.data_of k.memory) in
    either-IsClean changed (save env.file_ok (with_data j d)) (with_data j d)
      (save-IsClean env.file_ok (with_data j d) clean) clean

reconcile_bond-IsClean :
    (env : Env) (bond : ℕ) (extra : List String) (i : HolderIndex)
    → IsClean i
    → IsClean (reconcile_bond env bond extra i).0
unfolding reconcile_bond
reconcile_bond-IsClean env bond extra i c =
    let k = ensure_loaded-IsClean i c in
    let j = ensure_loaded i in
    let d = reconcile_addresses env bond (candidates bond extra j.data_of) j.data_of in
    let u = touch-IsUnique bond env.now d (
      reconcile_addresses-IsUnique env bond (candidates bond extra j.data_of) j.data_of k.memory) in
    read-IsClean env bond (save env.file_ok (with_data j (touch bond env.now d))) (
      save-IsClean env.file_ok (with_data j (touch bond env.now d))
        (put j (touch bond env.now d) k u))

reindex_from-IsClean :
    (env : Env) (id n : ℕ) (i : HolderIndex) → IsClean i → IsClean (reindex_from env id n i).0
unfolding reindex_from
reindex_from-IsClean env id zero i c = c
reindex_from-IsClean env id (suc n) i c =
    reindex_from-IsClean env (suc id) n (reconcile_bond env id [] i).0
      (reconcile_bond-IsClean env id [] i c)

refresh-IsClean :
    (env : Env) (max_staleness bond : ℕ) (i : HolderIndex)
    → IsClean i
    → IsClean (refresh env max_staleness bond i)
unfolding refresh
refresh-IsClean env max_staleness bond i c =
    either-IsClean (is_stale env max_staleness bond i.data_of) (reconcile_bond env bond [] i).0 i
      (reconcile_bond-IsClean env bond [] i c) c

answer-IsClean :
    (refused : Bool) (env : Env) (bond : ℕ) (k : HolderIndex)
    → IsClean k
    → IsClean (if refused then (k, none) else addresses_of (get_holders_with_balances env bond k)).0
answer-IsClean true env bond k c = c
answer-IsClean false env bond k c = read-IsClean env bond k c

coupon-IsClean :
    (env : Env) (fresh : Bool) (max_staleness bond : ℕ) (i : HolderIndex)
    → IsClean i
    → IsClean (get_holders_for_coupon env fresh max_staleness bond i).0
unfolding get_holders_for_coupon
coupon-IsClean env true max_staleness bond i c =
    let k = refresh env max_staleness bond (ensure_loaded i) in
    answer-IsClean (refuses_empty bond k.data_of) env bond k
      (refresh-IsClean env max_staleness bond (ensure_loaded i) (ensure_loaded-IsClean i c))
coupon-IsClean env false max_staleness bond i c =
    answer-IsClean false env bond (ensure_loaded i) (ensure_loaded-IsClean i c)

-- A call of the service, or a restart of the process, which keeps the file only.
pub data Event : Type 0 where
  subscribes : Env → ℕ → String → Event
  transfers : Env → ℕ → (source target : String) → Event
  reads : Env → ℕ → Event
  reconciles : Env → ℕ → List String → Event
  reindexes : Env → ℕ → Event
  pays_coupon : Env → Bool → (max_staleness bond : ℕ) → Event
  marks : Env → ℕ → Event
  restarts : Event

abbrev pub step : Event → HolderIndex → HolderIndex
step (subscribes env bond a) i = record_subscribe env bond a i
step (transfers env bond source target) i = record_transfer env bond source target i
step (reads env bond) i = (get_holders_with_balances env bond i).0
step (reconciles env bond extra) i = (reconcile_bond env bond extra i).0
step (reindexes env count) i = (reindex_all env count i).0
step (pays_coupon env fresh max_staleness bond) i =
    (get_holders_for_coupon env fresh max_staleness bond i).0
step (marks env bond) i = mark_reconciled env bond i
step restarts i = record i { data_of = empty_data; loaded = false }

abbrev pub run : List Event → HolderIndex → HolderIndex
run [] i = i
run (e ∷ es) i = run es (step e i)

pub empty-IsUnique : IsUnique empty_data
unfolding get_holders lookup
empty-IsUnique = (λ b. tt, tt)

step-IsClean : (e : Event) (i : HolderIndex) → IsClean i → IsClean (step e i)
unfolding record_subscribe record_transfer mark_reconciled reindex_all
step-IsClean (subscribes env bond a) i c =
    let k = ensure_loaded-IsClean i c in
    let j = ensure_loaded i in
    let d = add_known_address a (add_holder bond a j.data_of) in
    let u =
      add_known_address-IsUnique a (add_holder bond a j.data_of)
        (add_holder-IsUnique bond a j.data_of k.memory) in
    save-IsClean env.file_ok (with_data j (touch bond env.now d))
      (put j (touch bond env.now d) k (touch-IsUnique bond env.now d u))
step-IsClean (transfers env bond source target) i c =
    let k = ensure_loaded-IsClean i c in
    let j = ensure_loaded i in
    let x = add_known_address source j.data_of in
    let y = add_known_address target x in
    let d = add_holder bond target y in
    let u = add_holder-IsUnique bond target y (
      add_known_address-IsUnique target x (add_known_address-IsUnique source j.data_of k.memory)) in
    save-IsClean env.file_ok (with_data j (touch bond env.now d))
      (put j (touch bond env.now d) k (touch-IsUnique bond env.now d u))
step-IsClean (reads env bond) i c = read-IsClean env bond i c
step-IsClean (reconciles env bond extra) i c = reconcile_bond-IsClean env bond extra i c
step-IsClean (reindexes env count) i c =
    reindex_from-IsClean env 1 count (ensure_loaded i) (ensure_loaded-IsClean i c)
step-IsClean (pays_coupon env fresh max_staleness bond) i c =
    coupon-IsClean env fresh max_staleness bond i c
step-IsClean (marks env bond) i c =
    let k = ensure_loaded-IsClean i c in
    let j = ensure_loaded i in
    save-IsClean env.file_ok (with_data j (touch bond env.now j.data_of))
      (put j (touch bond env.now j.data_of) k (touch-IsUnique bond env.now j.data_of k.memory))
step-IsClean restarts i c = record { memory = empty-IsUnique; disk = c.disk }

-- Whatever calls and restarts follow, an index whose memory and file hold no address twice for a bond
-- or among the known addresses stays so.
pub run-IsClean : (es : List Event) (i : HolderIndex) → IsClean i → IsClean (run es i)
run-IsClean [] i c = c
run-IsClean (e ∷ es) i c = run-IsClean es (step e i) (step-IsClean e i c)
