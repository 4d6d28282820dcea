-- ===== src/Holders/Reconcile.antt =====
-- What `reconcileBond` and `getHoldersWithBalances` leave of the index.
use eco_mint.Prelude.{
  ℕ, ◌<◌, String, Bool, true, false, not, ◌&&◌, ◌||◌, Option, none, some, List, [], ◌∷◌, ◌++◌, ltb,
  str_eq, str_eq_iff, nat_eq_iff, if◌then◌else◌, nat_has_eq, Has, ◌≡◌, ◌↔◌, ◌⊎◌, inl, inr, refl,
  sym, ap, ◌∙◌, arith, Bool-cases,
}
use eco_mint.Holders.Store.{
  HolderStoreData, get_holders, add_once, drop_address, includes, touch, add_all_once,
}
use eco_mint.Holders.Index.{
  HolderIndex, Env, ensure_loaded, save, with_data, keep_or_prune, read_balances,
  get_holders_with_balances, reconcile_address, reconcile_addresses, candidates, reconcile_bond,
}
use eco_mint.Holders.Membership.{
  includes_iff, Has-add_once, Has-drop_address, Has-add_all_once, get_holders-add_holder,
  get_holders-remove_holder,
}

includes-add_once :
    (x a : String) (xs : List String) → includes x (add_once a xs) ≡ (includes x xs || str_eq x a)
includes-add_once x a xs =
    ground (
      arith,
      includes_iff x (add_once a xs),
      Has-add_once x a xs,
      includes_iff x xs,
      str_eq_iff x a,
    )

includes-drop_address :
    (x a : String) (xs : List String)
    → includes x (drop_address a xs) ≡ (includes x xs && not (str_eq x a))
includes-drop_address x a xs = ground (
  arith,
  includes_iff x (drop_address a xs),
  Has-drop_address x a xs,
  includes_iff x xs,
  str_eq_iff x a,
)

-- An address is a holder after it was a candidate (or not) and a holder (or not) before.
abbrev pub settle : Option ℕ → Bool → Bool → Bool
settle b false held = held
settle none true held = held
settle (some n) true held = ltb 0 n

abbrev pub held : ℕ → String → HolderStoreData → Bool
held bond x d = includes x (get_holders bond d)

reconcile_address-lem :
    (bond : ℕ) (x a : String) (b : Option ℕ) (d : HolderStoreData)
    → held bond x (reconcile_address bond a b d) ≡ settle b (str_eq x a) (held bond x d)
unfolding reconcile_address
reconcile_address-lem bond x a none d = ground arith
reconcile_address-lem bond x a (some n) d = ground (
  arith,
  get_holders-add_holder bond bond a d,
  get_holders-remove_holder bond bond a d,
  nat_eq_iff bond bond,
  includes-add_once x a (get_holders bond d),
  includes-drop_address x a (get_holders bond d),
)

settle-again :
    (b : Option ℕ) (here there old : Bool)
    → settle b there (settle b here old) ≡ settle b (here || there) old
settle-again b here there old = ground arith

reconcile_addresses-lem :
    (env : Env) (bond : ℕ) (x : String) (cs : List String) (d : HolderStoreData)
    → held bond x (reconcile_addresses env bond cs d)
      ≡ settle (env.balance bond x) (includes x cs) (held bond x d)
unfolding reconcile_addresses
reconcile_addresses-lem env bond x [] d = refl
reconcile_addresses-lem env bond x (a ∷ cs) d =
    reconcile_addresses-lem env bond x cs (reconcile_address bond a (env.balance bond a) d)
    ∙ elim (Bool-cases (str_eq x a)) [
      | inl same ↦
          let e : x ≡ a = (str_eq_iff x a).0 same in
          let one : held bond x (reconcile_address bond a (env.balance bond a) d)
              ≡ settle (env.balance bond x) true (held bond x d) =
            reconcile_address-lem bond x a (env.balance bond a) d ∙ rw (same, e) in
          rw (one, same) (settle-again (env.balance bond x) true (includes x cs) (held bond x d))
      | inr other ↦ rw (reconcile_address-lem bond x a (env.balance bond a) d, other)
    ]

abbrev pub empties : Option ℕ → Bool
empties none = false
empties (some n) = not (ltb 0 n)

keep_or_prune-lem :
    (bond : ℕ) (x a : String) (b : Option ℕ) (d : HolderStoreData)
    → held bond x (keep_or_prune bond a b d).0 ≡ (held bond x d && not (str_eq x a && empties b))
unfolding keep_or_prune
keep_or_prune-lem bond x a none d = ground arith
keep_or_prune-lem bond x a (some n) d = ground (
  arith,
  get_holders-remove_holder bond bond a d,
  nat_eq_iff bond bond,
  includes-drop_address x a (get_holders bond d),
)

read_balances-lem :
    (env : Env) (bond : ℕ) (x : String) (cs : List String) (d : HolderStoreData)
    → held bond x (read_balances env bond cs d).0
      ≡ (held bond x d && not (includes x cs && empties (env.balance bond x)))
unfolding read_balances
read_balances-lem env bond x [] d = ground arith
read_balances-lem env bond x (a ∷ cs) d =
    let IH = read_balances-lem env bond x cs (keep_or_prune bond a (env.balance bond a) d).0 in
    let H = keep_or_prune-lem bond x a (env.balance bond a) d in
    IH ∙ elim (Bool-cases (str_eq x a)) [
      | inl same ↦
          let e : x ≡ a = (str_eq_iff x a).0 same in
          let eb : env.balance bond a ≡ env.balance bond x = ap (env.balance bond) (sym e) in
          ground (arith, H, ap empties eb)
      | inr other ↦ ground (arith, H)
    ]

pub ensure_loaded-loaded : (i : HolderIndex) → (ensure_loaded i).loaded ≡ true
unfolding ensure_loaded
ensure_loaded-loaded i = ground arith

pub ensure_loaded-same : (i : HolderIndex) → i.loaded ≡ true → ensure_loaded i ≡ i
unfolding ensure_loaded
ensure_loaded-same i h = rw h

pub reconciled_data : Env → ℕ → List String → HolderStoreData → HolderStoreData
reconciled_data env bond extra d =
    touch bond env.now (reconcile_addresses env bond (candidates bond extra d) d)

-- The data that `get_holders_with_balances` leaves.
pub pruned_data :
    (env : Env) (bond : ℕ) (i : HolderIndex)
    → i.loaded ≡ true
    → (get_holders_with_balances env bond i).0.data_of
      ≡ (read_balances env bond (get_holders bond i.data_of) i.data_of).0
unfolding get_holders_with_balances save
pruned_data env bond i h = rw (ensure_loaded-same i h) (ground arith)

pub reconcile_bond-data :
    (env : Env) (bond : ℕ) (extra : List String) (i : HolderIndex)
    → let d = reconciled_data env bond extra (ensure_loaded i).data_of in
      (reconcile_bond env bond extra i).0.data_of
      ≡ (read_balances env bond (get_holders bond d) d).0
unfolding reconcile_bond save reconciled_data
reconcile_bond-data env bond extra i =
    let j =
      save env.file_ok
        (with_data (ensure_loaded i) (reconciled_data env bond extra (ensure_loaded i).data_of)) in
    let up : j.loaded ≡ true = ground (arith, ensure_loaded-loaded i) in
    let same : j.data_of ≡ reconciled_data env bond extra (ensure_loaded i).data_of =
      ground arith in
    pruned_data env bond j up ∙ ap (λ d. (read_balances env bond (get_holders bond d) d).0) same

held-reconciled_data :
    (env : Env) (bond : ℕ) (extra : List String) (d : HolderStoreData) (x : String)
    → held bond x (reconciled_data env bond extra d)
      ≡ settle (env.balance bond x) (includes x (candidates bond extra d)) (held bond x d)
unfolding reconciled_data touch get_holders
held-reconciled_data env bond extra d x =
    reconcile_addresses-lem env bond x (candidates bond extra d) d

-- An address that the index has met for the bond, knows at all, or is told of.
abbrev pub IsCandidate : ℕ → List String → HolderStoreData → String → Type 0
IsCandidate bond extra d x = Has x (get_holders bond d) ⊎ (Has x d.known_addresses ⊎ Has x extra)

Has-concat : (x : String) (xs ys : List String) → Has x (xs ++ ys) ↔ (Has x xs ⊎ Has x ys)
Has-concat x [] ys = ground arith
Has-concat x (a ∷ xs) ys = ground (arith, Has-concat x xs ys)

candidates_iff :
    (bond : ℕ) (extra : List String) (d : HolderStoreData) (x : String)
    → (includes x (candidates bond extra d) ≡ true) ↔ IsCandidate bond extra d x
unfolding candidates
candidates_iff bond extra d x =
    let hs = get_holders bond d in
    let rest = d.known_addresses ++ extra in
    let all = includes_iff x (add_all_once [] (hs ++ rest)) in
    let once = Has-add_all_once x [] (hs ++ rest) in
    let (apart, joined) = Has-concat x hs rest in
    let (apart_too, joined_too) = Has-concat x d.known_addresses extra in
    (
      λ h. elim (once.0 (all.0 h)) [
        | inl m ↦ absurd m
        | inr m ↦ elim (apart m) [ inl k ↦ inl k | inr k ↦ inr (apart_too k) ]
      ],
      λ c. all.1 (once.1 (inr (joined (elim c [ inl k ↦ inl k | inr k ↦ inr (joined_too k) ])))),
    )

held-reconcile_bond :
    (env : Env) (bond : ℕ) (extra : List String) (i : HolderIndex) (x : String)
    → held bond x (reconcile_bond env bond extra i).0.data_of
      ≡ settle
          (env.balance bond x)
          (includes x (candidates bond extra (ensure_loaded i).data_of))
          (held bond x (ensure_loaded i).data_of)
held-reconcile_bond env bond extra i x =
    let d = (ensure_loaded i).data_of in
    let r = reconciled_data env bond extra d in
    let c : held bond x d ≡ true → includes x (candidates bond extra d) ≡ true =
      λ h. (candidates_iff bond extra d x).1 (inl ((includes_iff x (get_holders bond d)).0 h)) in
    let s : Bool =
      settle (env.balance bond x) (includes x (candidates bond extra d)) (held bond x d) in
    ap (held bond x) (reconcile_bond-data env bond extra i)
    ∙ read_balances-lem env bond x (get_holders bond r) r
    ∙ ap (λ t. t && not (t && empties (env.balance bond x)))
        (held-reconciled_data env bond extra d x)
    ∙ ground (arith, c)

-- What a reconciliation leaves at the bond, for each address `x`.
pub record IsReconciled (balance : String → Option ℕ) (IsMet : String → Type 0)
    (before after : List String) : Type 0 where
  pub read : (x : String) (n : ℕ) → balance x ≡ some n → Has x after ↔ (IsMet x × (0 < n))
  pub unread : (x : String) → balance x ≡ none → Has x after ↔ Has x before

-- After `reconcile_bond` the holders of the bond are exactly the candidates with a positive balance
-- on chain, and, of those whose balance cannot be read, the holders before.
pub reconcile_bond-IsReconciled :
    (env : Env) (bond : ℕ) (extra : List String) (i : HolderIndex)
    → IsReconciled
        (env.balance bond)
        (IsCandidate bond extra (ensure_loaded i).data_of)
        (get_holders bond (ensure_loaded i).data_of)
        (get_holders bond (reconcile_bond env bond extra i).0.data_of)
reconcile_bond-IsReconciled env bond extra i =
    let d = (ensure_loaded i).data_of in
    let after = (reconcile_bond env bond extra i).0.data_of in
    record {
      read = λ x n e. ground (
        arith,
        includes_iff x (get_holders bond after),
        held-reconcile_bond env bond extra i x,
        candidates_iff bond extra d x,
        includes_iff x (get_holders bond d),
      );
      unread = λ x e. ground (
        arith,
        includes_iff x (get_holders bond after),
        held-reconcile_bond env bond extra i x,
        includes_iff x (get_holders bond d),
      );
    }

saved-loaded :
    (changed ok : Bool) (j : HolderIndex) (d : HolderStoreData)
    → j.loaded ≡ true
    → (if changed then save ok (with_data j d) else with_data j d).loaded ≡ true
unfolding save
saved-loaded changed ok j d h = ground arith

read-loaded :
    (env : Env) (bond : ℕ) (i : HolderIndex)
    → (get_holders_with_balances env bond i).0.loaded ≡ true
unfolding get_holders_with_balances
read-loaded env bond i =
    let j = ensure_loaded i in
    let (d, _, changed) = read_balances env bond (get_holders bond j.data_of) j.data_of in
    saved-loaded changed env.file_ok j d (ensure_loaded-loaded i)

pub reconcile_bond-loaded :
    (env : Env) (bond : ℕ) (extra : List String) (i : HolderIndex)
    → (reconcile_bond env bond extra i).0.loaded ≡ true
unfolding reconcile_bond
reconcile_bond-loaded env bond extra i =
    let d =
      reconcile_addresses env bond (candidates bond extra (ensure_loaded i).data_of)
        (ensure_loaded i).data_of in
    read-loaded env bond (save env.file_ok (with_data (ensure_loaded i) (touch bond env.now d)))
