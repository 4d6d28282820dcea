-- ===== src/Holders/Store.antt =====
-- api/src/bonds/holder-store.ts: the data that both stores keep, and the file of the durable one.
use eco_mint.Prelude.{
  ℕ, String, Bool, not, Option, none, some, List, [], ◌∷◌, ◌++◌, filter, any, str_eq, if◌then◌else◌,
  nat_has_eq,
}
use eco_mint.Prelude.Dict.{lookup, insert}

pub record HolderStoreData : Type 0 where
  pub holders : List (ℕ × List String)
  pub known_addresses : List String
  pub last_reconciled : List (ℕ × ℕ)

abbrev pub empty_data : HolderStoreData
empty_data = record { holders = []; known_addresses = []; last_reconciled = [] }

abbrev pub or_nil : Option (List String) → List String
or_nil none = []
or_nil (some xs) = xs

abbrev pub or_zero : Option ℕ → ℕ
or_zero none = 0
or_zero (some n) = n

-- `xs.includes(a)`
abbrev pub includes : String → List String → Bool
includes a xs = any (str_eq a) xs

-- Appends an address that is not there.
unfoldable pub add_once : String → List String → List String
add_once a xs = if includes a xs then xs else xs ++ a ∷ []

unfoldable pub drop_address : String → List String → List String
drop_address a xs = filter (λ x. not (str_eq x a)) xs

-- `[...new Set(xs)]`, with the addresses met so far
unfoldable pub add_all_once : List String → List String → List String
add_all_once seen [] = seen
add_all_once seen (x ∷ xs) = add_all_once (add_once x seen) xs

unfoldable pub get_holders : ℕ → HolderStoreData → List String
get_holders bond d = or_nil (lookup bond d.holders)

unfoldable pub set_holders : ℕ → List String → HolderStoreData → HolderStoreData
set_holders bond xs d = record d { holders = insert bond (add_all_once [] xs) d.holders }

unfoldable pub add_holder : ℕ → String → HolderStoreData → HolderStoreData
add_holder bond a d =
    if includes a (get_holders bond d)
    then d
    else record d { holders = insert bond (get_holders bond d ++ a ∷ []) d.holders }

unfoldable pub remove_holder : ℕ → String → HolderStoreData → HolderStoreData
remove_holder bond a d = record d {
  holders = insert bond (drop_address a (get_holders bond d)) d.holders;
}

unfoldable pub add_known_address : String → HolderStoreData → HolderStoreData
add_known_address a d = record d { known_addresses = add_once a d.known_addresses }

unfoldable pub get_last_reconciled : ℕ → HolderStoreData → ℕ
get_last_reconciled bond d = or_zero (lookup bond d.last_reconciled)

unfoldable pub touch : ℕ → ℕ → HolderStoreData → HolderStoreData
touch bond at d = record d { last_reconciled = insert bond at d.last_reconciled }

-- The file of FileHolderStore; `none` is a file that is not there or not readable.
unfoldable pub load : Option HolderStoreData → HolderStoreData
load none = empty_data
load (some d) = d
