-- ===== src/Holders/Coupon.antt =====
-- Which holders a coupon is paid to.
use eco_mint.Prelude.{
  ℕ, ◌<◌, ◌≤◌, ◌+◌, String, Bool, true, false, not, Option, none, some, List, [], ◌∷◌, ◌++◌,
  nat_eq_iff, if◌then◌else◌, nat_has_eq, Has, ◌≡◌, ◌↔◌, inl, inr, refl, sym, ap, ◌∙◌, subst, arith,
  Bool-cases, map, filter,
}
use eco_mint.Prelude.Dict.{lookup-insert}
use eco_mint.Holders.Store.{
  HolderStoreData, get_holders, add_holder, add_once, includes, touch, add_known_address,
  get_last_reconciled, or_zero,
}
use eco_mint.Holders.Index.{
  HolderIndex, Env, HolderWithBalance, ensure_loaded, save, with_data, keep_or_prune, read_balances,
  get_holders_with_balances, reconcile_bond, get_holders_for_coupon, is_stale, refresh,
  refuses_empty, record_subscribe, is_nil,
}
use eco_mint.Holders.Membership.{get_holders-add_holder}
use eco_mint.Holders.Reconcile.{
  ensure_loaded-same, ensure_loaded-loaded, empties, IsCandidate, IsReconciled,
  reconcile_bond-IsReconciled, reconcile_bond-loaded,
}

-- The balance on chain is not read as zero.
abbrev pub keeps : Env → ℕ → String → Bool
keeps env bond a = not (empties (env.balance bond a))

pushed :
    (bond : ℕ) (a : String) (b : Option ℕ) (d : HolderStoreData) (rest : List HolderWithBalance)
    → map (λ (h : HolderWithBalance). h.address) ((keep_or_prune bond a b d).1 ++ rest) ≡ (
        if not (empties b)
        then a ∷ map (λ (h : HolderWithBalance). h.address) rest
        else map (λ (h : HolderWithBalance). h.address) rest)
unfolding keep_or_prune
pushed bond a none d rest = refl
pushed bond a (some n) d rest = ground arith

read_balances-addresses :
    (env : Env) (bond : ℕ) (xs : List String) (d : HolderStoreData)
    → map (λ (h : HolderWithBalance). h.address) (read_balances env bond xs d).1
      ≡ filter (keeps env bond) xs
unfolding read_balances
read_balances-addresses env bond [] d = refl
read_balances-addresses env bond (a ∷ xs) d =
    let (d', _, _) = keep_or_prune bond a (env.balance bond a) d in
    pushed bond a (env.balance bond a) d (read_balances env bond xs d').1
    ∙ rw (read_balances-addresses env bond xs d')

get_holders_with_balances-addresses :
    (env : Env) (bond : ℕ) (i : HolderIndex)
    → i.loaded ≡ true
    → map (λ (h : HolderWithBalance). h.address) (get_holders_with_balances env bond i).1
      ≡ filter (keeps env bond) (get_holders bond i.data_of)
unfolding get_holders_with_balances
get_holders_with_balances-addresses env bond i up =
    rw (ensure_loaded-same i up)
      (read_balances-addresses env bond (get_holders bond i.data_of) i.data_of)

Has-filter :
    (p : String → Bool) (x : String) (xs : List String)
    → Has x (filter p xs) ↔ (Has x xs × (p x ≡ true))
Has-filter p x [] = ground arith
Has-filter p x (y ∷ xs) = elim (Bool-cases (p y)) [
  | inl is ↦ rw is (
    λ h. elim h [
      | inl e ↦ (inl e, ap p e ∙ is)
      | inr m ↦ let (k, t) = (Has-filter p x xs).0 m in (inr k, t)
    ],
    λ (h, t). elim h [ inl e ↦ inl e | inr m ↦ inr ((Has-filter p x xs).1 (m, t)) ],
  )
  | inr isnt ↦ rw isnt (
    λ m. let (k, t) = (Has-filter p x xs).0 m in (inr k, t),
    λ (h, t). elim h [
      | inl e ↦ absurd (ground (arith, sym t ∙ ap p e ∙ isnt))
      | inr m ↦ (Has-filter p x xs).1 (m, t)
    ],
  )
]

ensure_loaded-twice : (i : HolderIndex) → ensure_loaded (ensure_loaded i) ≡ ensure_loaded i
ensure_loaded-twice i = ensure_loaded-same (ensure_loaded i) (ensure_loaded-loaded i)

filter-IsReconciled :
    (env : Env) (bond : ℕ) (IsMet : String → Type 0) (before after : List String)
    → IsReconciled (env.balance bond) IsMet before after
    → IsReconciled (env.balance bond) IsMet before (filter (keeps env bond) after)
filter-IsReconciled env bond IsMet before after r = record {
  read = λ x n e.
      let (out, back) = Has-filter (keeps env bond) x after in
      let (fwd, bwd) = r.read x n e in
      let kept : 0 < n → keeps env bond x ≡ true =
        λ h. ap (λ b. not (empties b)) e ∙ ground arith in
      (λ m. fwd (out m).0, λ (met, h). back (bwd (met, h), kept h));
  unread = λ x e.
      let (out, back) = Has-filter (keeps env bond) x after in
      let (fwd, bwd) = r.unread x e in
      (λ m. fwd (out m).0, λ m. back (bwd m, ap (λ b. not (empties b)) e));
}

-- Where the index is stale (never reconciled, or longer ago than the limit) and was seeded, a coupon
-- that requires freshness is paid exactly to the addresses known to the index with a positive
-- balance on chain, and to the bond's holders whose balance cannot be read.
pub stale-coupon :
    (env : Env) (max_staleness bond : ℕ) (i : HolderIndex)
    → is_stale env max_staleness bond (ensure_loaded i).data_of ≡ true
    → refuses_empty bond (reconcile_bond env bond [] (ensure_loaded i)).0.data_of ≡ false
    → (paid : List String) × ((get_holders_for_coupon env true max_staleness bond i).1 ≡ some paid)
      × IsReconciled
          (env.balance bond)
          (IsCandidate bond [] (ensure_loaded i).data_of)
          (get_holders bond (ensure_loaded i).data_of)
          paid
unfolding get_holders_for_coupon refresh
stale-coupon env max_staleness bond i stale seeded =
    let k = (reconcile_bond env bond [] (ensure_loaded i)).0 in
    let r = reconcile_bond-IsReconciled env bond [] (ensure_loaded i) in
    let same = ensure_loaded-twice i in
    let old = (ensure_loaded i).data_of in
    (
      filter (keeps env bond) (get_holders bond k.data_of),
      rw (stale, seeded)
          (ap some (
            get_holders_with_balances-addresses env bond k
              (reconcile_bond-loaded env bond [] (ensure_loaded i)))),
      filter-IsReconciled env bond (IsCandidate bond [] old) (get_holders bond old)
          (get_holders bond k.data_of)
          (subst
            (λ (x : HolderIndex).
              IsReconciled (env.balance bond) (IsCandidate bond [] x.data_of)
                (get_holders bond x.data_of) (get_holders bond k.data_of))
            same r),
    )

saved : (ok : Bool) (i : HolderIndex) → (save ok i).data_of ≡ i.data_of
unfolding save
saved ok i = ground arith

saved-up : (ok : Bool) (i : HolderIndex) → i.loaded ≡ true → (save ok i).loaded ≡ true
unfolding save
saved-up ok i h = ground arith

append-full : (xs : List String) (a : String) → is_nil (xs ++ a ∷ []) ≡ false
append-full [] a = refl
append-full (x ∷ xs) a = refl

add_once-full : (a : String) (xs : List String) → is_nil (add_once a xs) ≡ false
unfolding add_once
add_once-full a [] = refl
add_once-full a (x ∷ xs) = elim (Bool-cases (includes a (x ∷ xs))) [
  | inl there ↦ rw (there, add_once)
  | inr absent ↦ rw (absent, add_once)
]

subscribed :
    (before : Env) (bond : ℕ) (a : String) (i : HolderIndex)
    → let j = record_subscribe before bond a i in
      (j.loaded ≡ true)
      × (get_holders bond j.data_of ≡ add_once a (get_holders bond (ensure_loaded i).data_of))
      × (get_last_reconciled bond j.data_of ≡ before.now)
      × (is_nil j.data_of.known_addresses ≡ false)
unfolding record_subscribe touch get_last_reconciled add_known_address get_holders
subscribed before bond a i =
    let d = (ensure_loaded i).data_of in
    let e = add_known_address a (add_holder bond a d) in
    let kept = saved before.file_ok (with_data (ensure_loaded i) (touch bond before.now e)) in
    (
      saved-up before.file_ok (with_data (ensure_loaded i) (touch bond before.now e))
          (ensure_loaded-loaded i),
      ap (get_holders bond) kept
          ∙ get_holders-add_holder bond bond a d
          ∙ ground (arith, nat_eq_iff bond bond),
      ap (get_last_reconciled bond) kept
          ∙ ap or_zero (lookup-insert bond bond before.now e.last_reconciled)
          ∙ ground (arith, nat_eq_iff bond bond),
      ap (λ (x : HolderStoreData). is_nil x.known_addresses) kept
          ∙ add_once-full a (add_holder bond a d).known_addresses,
    )

-- After a subscription through the API, a coupon within the staleness limit is paid to the holders
-- that the index has: no reconciliation runs, whenever the last one was, so an address with a balance
-- that the index does not list for the bond gets nothing.
pub subscribed-coupon :
    (before now : Env) (max_staleness bond : ℕ) (a : String) (i : HolderIndex)
    → 0 < before.now
    → now.now ≤ before.now + max_staleness
    → (get_holders_for_coupon now true max_staleness bond (record_subscribe before bond a i)).1
      ≡ some (filter (keeps now bond) (add_once a (get_holders bond (ensure_loaded i).data_of)))
unfolding get_holders_for_coupon refresh is_stale refuses_empty
subscribed-coupon before now max_staleness bond a i started soon =
    let j = record_subscribe before bond a i in
    let (up, holders, at, seeded) = subscribed before bond a i in
    let fresh : is_stale now max_staleness bond j.data_of ≡ false = rw at (ground arith) in
    rw (ensure_loaded-same j up, fresh, seeded)
      (ap some
        (get_holders_with_balances-addresses now bond j up ∙ ap (filter (keeps now bond)) holders))
