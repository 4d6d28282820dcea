-- ===== src/Bonds/Reads.antt =====
-- The requests of api/src/bonds/bonds.service.ts that read.
use eco_mint.Prelude.{
  ℕ, suc, zero, ◌+◌, ◌-◌, ◌*◌, ◌/◌, min, String, Bool, true, false, not, ◌&&◌, ◌||◌, Option, none,
  some, List, [], ◌∷◌, ◌++◌, ltb, leb, nat_eq, str_eq, if◌then◌else◌, nat_has_eq, pair_has_eq,
  string_has_eq,
}
use eco_mint.Prelude.Dict.{lookup, insert}
use eco_mint.Nonce.{Counters}
use eco_mint.Holders.Index as Holders
use eco_mint.Holders.Index.{HolderIndex, HolderWithBalance, get_holders_with_balances}
use eco_mint.Bonds.Types.{
  Chain, RawConfig, RawState, BondResponse, bond_response, MaturityStatus, active, matured,
  is_status, ClaimableCreditDetail, RetirementRecord,
}

pub record Page : Type 0 where
  pub data_of : List BondResponse
  pub total : ℕ
  pub total_pages : ℕ

-- The keys `bond:<id>` and `bonds:<page>:<limit>` with the times at which Redis drops them, the wallets
-- with a key `portfolio:<address>`, the nonce counters and the holder index.
pub record Bonds : Type 0 where
  pub bonds : List (ℕ × (BondResponse × ℕ))
  pub pages : List ((ℕ × ℕ) × (Page × ℕ))
  pub portfolios : List String
  pub nonces : Counters
  pub index : HolderIndex

pub record Env : Type 0 where
  pub redis_up : Bool
  pub now : ℕ
  pub chain : Chain
  pub holders : Holders.Env
  pub valid_address : String → Bool
  pub bond_issuer : String
  pub coupon_engine : String
  pub admin_address : String
  pub max_staleness : ℕ

abbrev pub alive : {A : Type 0} → Env → Option (A × ℕ) → Option A
alive env none = none
alive env (some (a, expiry)) = if env.redis_up && ltb env.now expiry then some a else none

abbrev pub of_parts : ℕ → ℕ → Option RawConfig → Option RawState → Option BondResponse
of_parts now id (some config) (some state) = some (bond_response now id config state)
of_parts now id _ _ = none

unfoldable pub build_bond_response : Env → ℕ → Option BondResponse
build_bond_response env id =
    of_parts env.now id (env.chain.get_bond id) (env.chain.get_bond_state id)

abbrev pub cache_bond : Env → ℕ → BondResponse → Bonds → Bonds
cache_bond env id bond s =
    if env.redis_up then record s { bonds = insert id (bond, env.now + 300) s.bonds } else s

abbrev pub read_through : Env → ℕ → Bonds → Option BondResponse → Bonds × Option BondResponse
read_through env id s none = (s, none)
read_through env id s (some bond) = (cache_bond env id bond s, some bond)

unfoldable pub find_one : Env → ℕ → Bonds → Bonds × Option BondResponse
find_one env id s = elim (alive env (lookup id s.bonds)) [
  | some bond ↦ (s, some bond)
  | none ↦ read_through env id s (build_bond_response env id)
]

abbrev pub push_bond : Option BondResponse → List BondResponse → List BondResponse
push_bond none rest = rest
push_bond (some bond) rest = bond ∷ rest

-- The loop over the ids of a page: `left` ids from `id` on.
unfoldable pub build_range : Env → ℕ → ℕ → List BondResponse
build_range env id zero = []
build_range env id (suc left) =
    push_bond (build_bond_response env id) (build_range env (suc id) left)

abbrev pub total_or_zero : Option ℕ → ℕ
total_or_zero none = 0
total_or_zero (some n) = n

-- `Math.ceil(total / limit) || 1`, where ` / 0` on ℕ is 0 and the source has Infinity.
abbrev pub pages_of : ℕ → ℕ → ℕ
pages_of total limit = let n = (total + (limit - 1)) / limit in if nat_eq n 0 then 1 else n

-- Of the loop over all ids only those above `start` and up to `end` do anything. `page` counts from 1.
unfoldable pub page_of : Env → ℕ → ℕ → Page
page_of env page limit =
    let total = total_or_zero env.chain.bond_count in
    let start = (page - 1) * limit in
    record {
      data_of = build_range env (suc start) (min (start + limit) total - start);
      total = total;
      total_pages = pages_of total limit;
    }

unfoldable pub find_all : Env → ℕ → ℕ → Bonds → Bonds × Page
find_all env page limit s = elim (alive env (lookup (page, limit) s.pages)) [
  | some result ↦ (s, result)
  | none ↦
      let result = page_of env page limit in
      (
        (if env.redis_up
            then record s { pages = insert (page, limit) (result, env.now + 60) s.pages }
            else s),
        result,
      )
]

pub data SubscribeFailure : Type 0 where
  not_active has_matured exceeds_supply : SubscribeFailure

pub record Preview : Type 0 where
  pub remaining_supply : ℕ
  pub requested_amount : ℕ
  pub expected_failure : Option SubscribeFailure

abbrev pub is_matured : MaturityStatus → Bool
is_matured matured = true
is_matured active = false

unfoldable pub preview : BondResponse → ℕ → Preview
preview bond amount =
    let remaining = bond.total_supply - bond.total_subscribed in
    record {
      remaining_supply = remaining;
      requested_amount = amount;
      expected_failure =
          if not (is_status "Active" bond.status)
          then some not_active
          else if is_matured bond.maturity_status
          then some has_matured
          else if ltb remaining amount
          then some exceeds_supply
          else none;
    }

unfoldable pub preview_subscribe : Env → ℕ → ℕ → Bonds → Bonds × Option Preview
preview_subscribe env id amount s =
    let (s', found) = find_one env id s in
    (s', elim found [ none ↦ none | some bond ↦ some (preview bond amount) ])

pub record HeldBond : Type 0 where
  pub bond : BondResponse
  pub balance : ℕ

abbrev pub held_of : ℕ → Option BondResponse → List HeldBond
held_of balance none = []
held_of balance (some bond) = record { bond = bond; balance = balance } ∷ []

-- One bond of the loop: a balance that cannot be read, or is 0, is skipped.
unfoldable pub held_at : Env → ℕ → Option ℕ → Bonds → Bonds × List HeldBond
held_at env id none s = (s, [])
held_at env id (some balance) s =
    if nat_eq balance 0
    then (s, [])
    else let (s', found) = find_one env id s in (s', held_of balance found)

unfoldable pub held_range : Env → String → ℕ → ℕ → Bonds → Bonds × List HeldBond
held_range env address id zero s = (s, [])
held_range env address id (suc left) s =
    let (s', here) = held_at env id (env.chain.get_holder_balance id address) s in
    let (s'', rest) = held_range env address (suc id) left s' in (s'', here ++ rest)

-- `none` is the BadRequestException of an invalid address.
unfoldable pub find_held_by_address : Env → String → Bonds → Bonds × Option (List HeldBond)
find_held_by_address env address s =
    if not (env.valid_address address)
    then (s, none)
    else let (s', held) = held_range env address 1 (total_or_zero env.chain.bond_count) s in
      (s', some held)

unfoldable pub get_holders : Env → ℕ → Bonds → Bonds × List HolderWithBalance
get_holders env id s =
    let (i, holders) = get_holders_with_balances env.holders id s.index in
    (record s { index = i }, holders)

pub record Maturity : Type 0 where
  pub reached : Bool
  pub date : ℕ
  pub seconds_until : ℕ

-- `now` is read after the bond was built.
unfoldable pub maturity_at : ℕ → BondResponse → Maturity
maturity_at now bond =
    let reached = is_status "Matured" bond.status || leb bond.maturity_date now in
    record {
      reached = reached;
      date = bond.maturity_date;
      seconds_until = if reached then 0 else bond.maturity_date - now;
    }

pub record BondDetail : Type 0 where
  pub bond : BondResponse
  pub holders : List HolderWithBalance
  pub undistributed_total : ℕ
  pub maturity : Maturity

abbrev pub detail_of :
    ℕ → List HolderWithBalance → Option BondResponse → Option ℕ → Option BondDetail
detail_of later holders (some bond) (some undistributed) = some (record {
  bond = bond;
  holders = holders;
  undistributed_total = undistributed;
  maturity = maturity_at later bond;
})
detail_of later holders _ _ = none

abbrev pub detail_from : Env → ℕ → ℕ → Bonds → Option BondResponse → Bonds × Option BondDetail
detail_from env later id s none = (s, none)
detail_from env later id s (some bond) =
    let (s', holders) = get_holders env id s in
    (s', detail_of later holders (some bond) (env.chain.get_undistributed_total id))

-- `later` is the clock after the reads.
unfoldable pub get_bond_detail : Env → ℕ → ℕ → Bonds → Bonds × Option BondDetail
get_bond_detail env later id s = detail_from env later id s (build_bond_response env id)

abbrev pub claimable_of : ℕ → Option ℕ → List (ℕ × ℕ)
claimable_of id none = []
claimable_of id (some amount) = if nat_eq amount 0 then [] else (id, amount) ∷ []

unfoldable pub claimable_list : Env → String → List HeldBond → List (ℕ × ℕ)
claimable_list env address [] = []
claimable_list env address (held ∷ rest) =
    claimable_of held.bond.id (env.chain.claimable_credits held.bond.id address)
    ++ claimable_list env address rest

unfoldable pub get_claimable_credits : Env → String → Bonds → Bonds × Option (List (ℕ × ℕ))
get_claimable_credits env address s =
    let (s', held) = find_held_by_address env address s in
    (s', elim held [ none ↦ none | some bonds ↦ some (claimable_list env address bonds) ])

unfoldable pub total_amount : List ClaimableCreditDetail → ℕ
total_amount [] = 0
total_amount (line ∷ details) = line.amount + total_amount details

-- The total and the lines; `none` is a bad request or a failed read.
unfoldable pub get_claimable_credit_details :
    Env → ℕ → Option String → Option (ℕ × List ClaimableCreditDetail)
get_claimable_credit_details env id none = none
get_claimable_credit_details env id (some address) =
    if not (env.valid_address address)
    then none
    else elim (env.chain.claimable_credit_details id address) [
      | none ↦ none
      | some details ↦ some (total_amount details, details)
    ]

-- The records of the ids from `id` on that the test takes, those that can be read.
unfoldable pub retirements_from : Env → (RetirementRecord → Bool) → ℕ → ℕ → List RetirementRecord
retirements_from env test id zero = []
retirements_from env test id (suc left) =
    let rest = retirements_from env test (suc id) left in
    elim (env.chain.get_retirement_record id) [
      | none ↦ rest
      | some r ↦ if test r then r ∷ rest else rest
    ]

unfoldable pub get_retired_credits : Env → String → Option (List RetirementRecord)
get_retired_credits env address =
    if not (env.valid_address address)
    then none
    else some (
        retirements_from env (λ r. str_eq r.holder address) 1
          (total_or_zero env.chain.total_retirements))
