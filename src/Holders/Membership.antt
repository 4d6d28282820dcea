-- ===== src/Holders/Membership.antt =====
-- Which addresses the lists of the store hold after an update, and lists without repetition.
use eco_mint.Prelude.{
  ℕ, String, true, List, [], ◌∷◌, ◌++◌, str_eq, str_eq_iff, nat_eq, nat_eq_iff, if◌then◌else◌,
  nat_has_eq, Has, ◌≡◌, ◌≢◌, ◌↔◌, ◌⊎◌, inl, inr, arith, Bool-cases,
}
use eco_mint.Prelude.Dict.{lookup-insert}
use eco_mint.Holders.Store.{
  HolderStoreData, get_holders, add_holder, remove_holder, add_all_once, add_once, drop_address,
  includes,
}

pub includes_iff : (a : String) (xs : List String) → (includes a xs ≡ true) ↔ Has a xs
includes_iff a [] = ground arith
includes_iff a (x ∷ xs) = ground (arith, str_eq_iff a x, includes_iff a xs)

Has-append : (a : String) (xs ys : List String) → Has a (xs ++ ys) ↔ (Has a xs ⊎ Has a ys)
Has-append a [] ys = ground arith
Has-append a (x ∷ xs) ys = ground (arith, Has-append a xs ys)

pub Has-add_once : (x a : String) (xs : List String) → Has x (add_once a xs) ↔ (Has x xs ⊎ (x ≡ a))
unfolding add_once
Has-add_once x a xs = ground (arith, includes_iff a xs, Has-append x xs (a ∷ []))

pub Has-drop_address :
    (x a : String) (xs : List String) → Has x (drop_address a xs) ↔ (Has x xs × (x ≢ a))
unfolding drop_address
Has-drop_address x a [] = ground arith
Has-drop_address x a (y ∷ xs) = ground (arith, str_eq_iff y a, Has-drop_address x a xs)

pub Has-add_all_once :
    (x : String) (seen xs : List String) → Has x (add_all_once seen xs) ↔ (Has x seen ⊎ Has x xs)
unfolding add_all_once
Has-add_all_once x seen [] = ground arith
Has-add_all_once x seen (y ∷ xs) =
    ground (arith, Has-add_all_once x (add_once y seen) xs, Has-add_once x y seen)

abbrev pub IsNodup : List String → Type 0
IsNodup [] = Unit {0}
IsNodup (x ∷ xs) = ¬ Has x xs × IsNodup xs

IsNodup-concat : (a : String) (xs : List String) → IsNodup xs → ¬ Has a xs → IsNodup (xs ++ a ∷ [])
IsNodup-concat a [] n h = (λ x. x, tt)
IsNodup-concat a (x ∷ xs) (fresh, n) h =
    (ground (arith, Has-append x xs (a ∷ [])), IsNodup-concat a xs n (λ m. h (inr m)))

pub IsNodup-add_once : (a : String) (xs : List String) → IsNodup xs → IsNodup (add_once a xs)
unfolding add_once
IsNodup-add_once a xs n = elim (Bool-cases (includes a xs)) [
  | inl there ↦ rw (there, add_once) n
  | inr absent ↦ rw (absent, add_once) (IsNodup-concat a xs n (ground (arith, includes_iff a xs)))
]

pub IsNodup-drop_address :
    (a : String) (xs : List String) → IsNodup xs → IsNodup (drop_address a xs)
unfolding drop_address
IsNodup-drop_address a [] n = tt
IsNodup-drop_address a (x ∷ xs) (fresh, n) = elim (Bool-cases (str_eq x a)) [
  | inl same ↦ rw same (IsNodup-drop_address a xs n)
  | inr other ↦
      rw other ((λ m. fresh ((Has-drop_address x a xs).0 m).0), IsNodup-drop_address a xs n)
]

pub IsNodup-add_all_once : (seen xs : List String) → IsNodup seen → IsNodup (add_all_once seen xs)
unfolding add_all_once
IsNodup-add_all_once seen [] n = n
IsNodup-add_all_once seen (x ∷ xs) n =
    IsNodup-add_all_once (add_once x seen) xs (IsNodup-add_once x seen n)

-- The holders of each bond after the updates of the store.
pub get_holders-add_holder :
    (bond b : ℕ) (a : String) (d : HolderStoreData)
    → get_holders b (add_holder bond a d)
      ≡ (if nat_eq bond b then add_once a (get_holders b d) else get_holders b d)
unfolding get_holders add_holder add_once
get_holders-add_holder bond b a d =
    ground (arith, nat_eq_iff bond b, lookup-insert bond b (get_holders bond d ++ a ∷ []) d.holders)

pub get_holders-remove_holder :
    (bond b : ℕ) (a : String) (d : HolderStoreData)
    → get_holders b (remove_holder bond a d)
      ≡ (if nat_eq bond b then drop_address a (get_holders b d) else get_holders b d)
unfolding get_holders remove_holder
get_holders-remove_holder bond b a d =
    ground (
      arith,
      nat_eq_iff bond b,
      lookup-insert bond b (drop_address a (get_holders bond d)) d.holders,
    )
