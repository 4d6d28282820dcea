-- ===== src/Bonds/Types.antt =====
-- The bonds of api/src/bonds/interfaces/bond.interface.ts, and what bonds.service.ts reads of the
-- contracts. Times are in seconds, amounts in the contracts' units, bytes as hexadecimal text.
use eco_mint.Prelude.{ℕ, String, Bool, false, ◌||◌, Option, List, leb, str_eq, if◌then◌else◌}

-- The second field of the bond state as the SDK decodes it: the name of the status, or its number.
pub data NativeStatus : Type 0 where
  named : String → NativeStatus
  numbered : ℕ → NativeStatus

-- `status === BondStatusEnum.…`
abbrev pub is_status : String → NativeStatus → Bool
is_status name (named s) = str_eq s name
is_status name (numbered n) = false

pub data MaturityStatus : Type 0 where
  active matured : MaturityStatus

pub record RawConfig : Type 0 where
  pub project_id : String
  pub face_value : ℕ
  pub coupon_schedule : List ℕ
  pub credit_type : String
  pub maturity_date : ℕ
  pub total_supply : ℕ

pub record RawState : Type 0 where
  pub total_subscribed : ℕ
  pub status : NativeStatus
  pub created_at : ℕ

pub record BondResponse : Type 0 where
  pub id : ℕ
  pub project_id : String
  pub face_value : ℕ
  pub coupon_schedule : List ℕ
  pub credit_type : String
  pub maturity_date : ℕ
  pub maturity_status : MaturityStatus
  pub total_supply : ℕ
  pub total_subscribed : ℕ
  pub status : NativeStatus
  pub created_at : ℕ

unfoldable pub maturity_status_of : ℕ → NativeStatus → ℕ → MaturityStatus
maturity_status_of now status maturity_date =
    if is_status "Matured" status || leb maturity_date now then matured else active

unfoldable pub bond_response : ℕ → ℕ → RawConfig → RawState → BondResponse
bond_response now id config state = record {
  id = id;
  project_id = config.project_id;
  face_value = config.face_value;
  coupon_schedule = config.coupon_schedule;
  credit_type = config.credit_type;
  maturity_date = config.maturity_date;
  maturity_status = maturity_status_of now state.status config.maturity_date;
  total_supply = config.total_supply;
  total_subscribed = state.total_subscribed;
  status = state.status;
  created_at = state.created_at;
}

pub record ClaimableCreditDetail : Type 0 where
  pub period_index : ℕ
  pub report_id : ℕ
  pub start_time : ℕ
  pub end_time : ℕ
  pub credit_type : String
  pub amount : ℕ

pub record RetirementRecord : Type 0 where
  pub id : ℕ
  pub holder : String
  pub bond_id : ℕ
  pub amount : ℕ
  pub credit_type : String
  pub retired_at : ℕ
  pub certificate_ipfs_hash : String

pub record PeriodInfo : Type 0 where
  pub period_index : ℕ
  pub start_time : ℕ
  pub end_time : ℕ
  pub total_credits_earned : ℕ
  pub distributed : Bool
  pub report_id : ℕ
  pub undistributed : ℕ

-- What the contracts answer to reads; `none` is a call that fails.
pub record Chain : Type 0 where
  pub bond_count : Option ℕ
  pub get_bond : ℕ → Option RawConfig
  pub get_bond_state : ℕ → Option RawState
  pub get_holder_balance : ℕ → String → Option ℕ
  pub get_undistributed_total : ℕ → Option ℕ
  pub claimable_credits : ℕ → String → Option ℕ
  pub claimable_credit_details : ℕ → String → Option (List ClaimableCreditDetail)
  pub total_retirements : Option ℕ
  pub get_retirement_record : ℕ → Option RetirementRecord
  pub get_period_info : ℕ → ℕ → Option PeriodInfo
