-- ===== src/Bonds/Calls.antt =====
-- The requests of api/src/bonds/bonds.service.ts that sign a transaction or repair the holder index.
-- The contract's reply to the call is given.
use eco_mint.Prelude.{
  ℕ, String, Bool, true, false, not, Option, none, some, List, [], length, map, filter, nat_eq,
  str_eq, if◌then◌else◌, nat_has_eq, pair_has_eq, string_has_eq,
}
use eco_mint.Prelude.Dict.{remove}
use eco_mint.Nonce.{Counters, next}
use eco_mint.Holders.Index.{
  HolderWithBalance, record_subscribe, record_transfer, reconcile_bond, reindex_all,
  get_holders_for_coupon,
}
use eco_mint.Oracle.Types as Report
use eco_mint.Oracle.Types.{ReportResponse, ReportStatus}
use eco_mint.Oracle.Reports as Oracle
use eco_mint.Bonds.Types.{BondResponse}
use eco_mint.Bonds.Reads.{Bonds, Env, build_bond_response, cache_bond, total_or_zero}

pub record CreateBondDto : Type 0 where
  pub project_id : String
  pub face_value : ℕ
  pub coupon_schedule : List ℕ
  pub credit_type : String
  pub maturity_date : ℕ
  pub total_supply : ℕ

pub data Invocation : Type 0 where
  issue_bond : (admin : String) (config : CreateBondDto) (nonce : ℕ) → Invocation
  subscribe : (investor : String) (bond_id amount nonce : ℕ) → Invocation
  distribute_coupon :
      (admin : String) (bond_id period_index : ℕ) (holders : List String) (report_id nonce : ℕ)
      → Invocation
  claim_credits : (investor : String) (bond_id nonce : ℕ) → Invocation
  transfer : (source target : String) (bond_id amount nonce : ℕ) → Invocation
  sweep_undistributed : (admin : String) (bond_id nonce : ℕ) → Invocation
  mature_bond : (admin : String) (bond_id nonce : ℕ) → Invocation

-- What `invokeContractMethod` throws.
pub data Failure : Type 0 where
  contract_exception : (raw_error_code : Option ℕ) → Failure
  other_error : Failure

pub data Reply (A : Type 0) : Type 0 where
  fails : Failure → Reply A
  answers : A → Reply A

-- What a request answers with; `propagated` is the error as it came.
pub data BondError : Type 0 where
  service_unavailable index_not_seeded unreadable_report report_challenged report_rejected
        already_matured bond_not_found bad_request propagated :
      BondError

pub data Response (A : Type 0) : Type 0 where
  throws : BondError → Response A
  returns : A → Response A

pub record Outcome (A : Type 0) : Type 0 where
  pub bonds : Bonds
  pub invoked : Option Invocation
  pub response : Response A

abbrev pub refuse : {A : Type 0} → Bonds → BondError → Outcome A
refuse s e = record { bonds = s; invoked = none; response = throws e }

abbrev pub counted :
    {A : Type 0} → Bonds → (ℕ → Bonds → Outcome A) → Counters × Option ℕ → Outcome A
counted s body (counters, none) = refuse s service_unavailable
counted s body (counters, some nonce) = body nonce (record s { nonces = counters })

unfoldable pub with_nonce :
    {A : Type 0} → Env → String → String → Bonds → (ℕ → Bonds → Outcome A) → Outcome A
with_nonce env contract address s body =
    counted s body (next env.redis_up contract address s.nonces)

-- A call whose failure passes through.
abbrev pub sent :
    {A B : Type 0} → Invocation → Reply A → Bonds → (A → Bonds × Response B) → Outcome B
sent call (fails e) s after = record {
  bonds = s;
  invoked = some call;
  response = throws propagated;
}
sent call (answers a) s after =
    let (s', response) = after a in record { bonds = s'; invoked = some call; response = response }

abbrev pub or_throw : {A : Type 0} → Option A → Response A
or_throw none = throws propagated
or_throw (some a) = returns a

abbrev pub drop_bond : Env → ℕ → Bonds → Bonds
drop_bond env id s = if env.redis_up then record s { bonds = remove id s.bonds } else s

-- `if (!address) return`, then the deletion of the key.
unfoldable pub invalidate_portfolio : Env → String → Bonds → Bonds
invalidate_portfolio env address s =
    if str_eq address ""
    then s
    else if env.redis_up
    then record s { portfolios = filter (λ a. not (str_eq a address)) s.portfolios }
    else s

abbrev pub create_answer : Env → ℕ → Bonds → Option BondResponse → Bonds × Response BondResponse
create_answer env id s none = (s, throws propagated)
create_answer env id s (some bond) = (cache_bond env id bond s, returns bond)

-- The contract answers with the number of the bond.
unfoldable pub create : Env → CreateBondDto → Reply ℕ → Bonds → Outcome BondResponse
create env dto reply s = with_nonce env env.bond_issuer env.admin_address s (λ nonce s'.
    sent (issue_bond env.admin_address dto nonce) reply s'
      (λ id. create_answer env id s' (build_bond_response env id)))

unfoldable pub after_subscribe : Env → ℕ → String → Bonds → Bonds
after_subscribe env id investor s =
    let s' = drop_bond env id s in
    invalidate_portfolio env investor
      (record s' { index = record_subscribe env.holders id investor s'.index })

-- The answers of the next operations repeat their arguments, and are left out.
unfoldable pub subscribe_bond : Env → ℕ → String → ℕ → Reply (Unit {0}) → Bonds → Outcome (Unit {0})
subscribe_bond env id investor amount reply s =
    with_nonce env env.bond_issuer investor s (λ nonce s'.
      sent (subscribe investor id amount nonce) reply s'
        (λ _. (after_subscribe env id investor s', returns tt)))

abbrev pub after_transfer : Env → ℕ → String → String → Bonds → Bonds
after_transfer env id source target s = invalidate_portfolio env target (
    invalidate_portfolio env source
      (record s { index = record_transfer env.holders id source target s.index }))

unfoldable pub transfer_bond :
    Env → ℕ → String → String → ℕ → Reply (Unit {0}) → Bonds → Outcome (Unit {0})
transfer_bond env id source target amount reply s =
    with_nonce env env.bond_issuer source s (λ nonce s'.
      sent (transfer source target id amount nonce) reply s'
        (λ _. (after_transfer env id source target s', returns tt)))

-- The contract answers with the credits.
unfoldable pub claim : Env → ℕ → String → Reply ℕ → Bonds → Outcome ℕ
claim env id investor reply s = with_nonce env env.coupon_engine investor s (λ nonce s'.
    sent (claim_credits investor id nonce) reply s'
      (λ credits. (invalidate_portfolio env investor s', returns credits)))

unfoldable pub sweep : Env → ℕ → Reply ℕ → Bonds → Outcome ℕ
sweep env id reply s = with_nonce env env.coupon_engine env.admin_address s (λ nonce s'.
    sent (sweep_undistributed env.admin_address id nonce) reply s' (λ swept. (s', returns swept)))

pub record DistributeCouponDto : Type 0 where
  pub period_index : ℕ
  pub report_id : ℕ

abbrev pub report_error : ReportStatus → Option BondError
report_error Report.challenged = some report_challenged
report_error Report.rejected = some report_rejected
report_error Report.pending = none
report_error Report.verified = none

-- `none` for the environment where the oracle module is not wired in.
abbrev pub checked : Option ReportResponse → Option BondError
checked none = some unreadable_report
checked (some report) = report_error report.status

unfoldable pub dispute : Option Oracle.Env → ℕ → Option BondError
dispute none report_id = none
dispute (some oracle) report_id = checked (Oracle.get_report oracle report_id)

unfoldable pub distribute_call :
    Env
    → ℕ
    → DistributeCouponDto
    → Reply (ℕ × ℕ)
    → ℕ
    → List String
    → Bonds
    → Option BondError
    → Outcome (ℕ × ℕ)
distribute_call env id dto reply nonce holders s (some e) = refuse s e
distribute_call env id dto reply nonce holders s none =
    sent (distribute_coupon env.admin_address id dto.period_index holders dto.report_id nonce) reply
      s (λ credits. (s, returns credits))

abbrev pub pay_holders :
    Env
    → Option Oracle.Env
    → ℕ
    → DistributeCouponDto
    → Reply (ℕ × ℕ)
    → ℕ
    → Bonds
    → Option (List String)
    → Outcome (ℕ × ℕ)
pay_holders env oracle id dto reply nonce s none = refuse s index_not_seeded
pay_holders env oracle id dto reply nonce s (some holders) =
    distribute_call env id dto reply nonce holders s (dispute oracle dto.report_id)

unfoldable pub distribute_counted :
    Env → Option Oracle.Env → ℕ → DistributeCouponDto → Reply (ℕ × ℕ) → ℕ → Bonds → Outcome (ℕ × ℕ)
distribute_counted env oracle id dto reply nonce s =
    let (i, holders) = get_holders_for_coupon env.holders true env.max_staleness id s.index in
    pay_holders env oracle id dto reply nonce (record s { index = i }) holders

-- The contract answers with the credits and the number of holders.
unfoldable pub distribute :
    Env → Option Oracle.Env → ℕ → DistributeCouponDto → Reply (ℕ × ℕ) → Bonds → Outcome (ℕ × ℕ)
distribute env oracle id dto reply s =
    with_nonce env env.coupon_engine env.admin_address s
      (distribute_counted env oracle id dto reply)

abbrev pub code_is : ℕ → Option ℕ → Bool
code_is c none = false
code_is c (some n) = nat_eq n c

unfoldable pub map_bond_error : Failure → BondError
map_bond_error (contract_exception code) =
    if code_is 5 code
    then already_matured
    else if code_is 4 code
    then bond_not_found
    else bad_request
map_bond_error other_error = propagated

-- `delPattern('portfolio:*')`
abbrev pub after_mature : Env → ℕ → Bonds → Bonds
after_mature env id s =
    let s' = drop_bond env id s in if env.redis_up then record s' { portfolios = [] } else s'

unfoldable pub mature_call : Env → ℕ → Reply (Unit {0}) → ℕ → Bonds → Outcome BondResponse
mature_call env id (fails e) nonce s = record {
  bonds = s;
  invoked = some (mature_bond env.admin_address id nonce);
  response = throws (map_bond_error e);
}
mature_call env id (answers _) nonce s = record {
  bonds = after_mature env id s;
  invoked = some (mature_bond env.admin_address id nonce);
  response = or_throw (build_bond_response env id);
}

unfoldable pub mature : Env → ℕ → Reply (Unit {0}) → Bonds → Outcome BondResponse
mature env id reply s =
    with_nonce env env.bond_issuer env.admin_address s (mature_call env id reply)

unfoldable pub reconcile : Env → ℕ → Bonds → Bonds × List HolderWithBalance
reconcile env id s =
    let (i, holders) = reconcile_bond env.holders id [] s.index in (record s { index = i }, holders)

unfoldable pub reindex_holders : Env → Bonds → Bonds × List (ℕ × ℕ)
reindex_holders env s =
    let (i, result) = reindex_all env.holders (total_or_zero env.chain.bond_count) s.index in
    (record s { index = i }, map (λ entry. (entry.0, length entry.1)) result)
