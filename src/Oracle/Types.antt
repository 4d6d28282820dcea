-- ===== src/Oracle/Types.antt =====
-- The responses of api/src/oracle/interfaces/oracle.interface.ts, and how oracle.service.ts decodes
-- the contract's structs. A time is in seconds; bytes are their hexadecimal text.
use eco_mint.Prelude.{
  ℕ, suc, zero, String, Bool, true, false, Option, none, some, ltb, if◌then◌else◌,
}

pub data ReportStatus : Type 0 where
  pending verified challenged rejected : ReportStatus

-- `===` on statuses
abbrev pub status_eq : ReportStatus → ReportStatus → Bool
status_eq pending pending = true
status_eq verified verified = true
status_eq challenged challenged = true
status_eq rejected rejected = true
status_eq x y = false

abbrev pub report_status_from_index : ℕ → ReportStatus
report_status_from_index (suc zero) = verified
report_status_from_index (suc (suc zero)) = challenged
report_status_from_index (suc (suc (suc zero))) = rejected
report_status_from_index n = pending

pub record ReportResponse : Type 0 where
  pub id : ℕ
  pub project_id : String
  pub period_start : ℕ
  pub period_end : ℕ
  pub carbon_sequestered : ℕ
  pub methodology : String
  pub ipfs_hash : String
  pub provider_address : String
  pub status : ReportStatus
  pub created_at : ℕ
  pub verified_at : Option ℕ
  pub provider_stake_at_verification : Option ℕ

-- The fields of the contract's report, which `field` finds by name or by position.
pub record RawReport : Type 0 where
  pub id : ℕ
  pub provider : String
  pub project_id : String
  pub period_start : ℕ
  pub period_end : ℕ
  pub carbon_sequestered : ℕ
  pub methodology : String
  pub ipfs_evidence_hash : String
  pub status : ℕ
  pub submitted_at : ℕ
  pub verified_at : ℕ
  pub provider_stake_at_verification : Option ℕ

unfoldable pub decode_report : RawReport → ReportResponse
decode_report raw = record {
  id = raw.id;
  project_id = raw.project_id;
  period_start = raw.period_start;
  period_end = raw.period_end;
  carbon_sequestered = raw.carbon_sequestered;
  methodology = raw.methodology;
  ipfs_hash = raw.ipfs_evidence_hash;
  provider_address = raw.provider;
  status = report_status_from_index raw.status;
  created_at = raw.submitted_at;
  verified_at = if ltb 0 raw.verified_at then some raw.verified_at else none;
  provider_stake_at_verification = raw.provider_stake_at_verification;
}

pub record ChallengeRecord : Type 0 where
  pub report_id : ℕ
  pub challenger_address : String
  pub counter_evidence_hash : String
  pub submitted_at : ℕ
  pub resolved : Bool
  pub resolution : Option ReportStatus

-- The fields of the contract's challenge, read from an object.
pub record RawChallenge : Type 0 where
  pub report_id : ℕ
  pub challenger : String
  pub counter_evidence_hash : String
  pub submitted_at : ℕ
  pub resolved : Bool
  pub resolution : ℕ

unfoldable pub decode_challenge_record : RawChallenge → ChallengeRecord
decode_challenge_record raw = record {
  report_id = raw.report_id;
  challenger_address = raw.challenger;
  counter_evidence_hash = raw.counter_evidence_hash;
  submitted_at = raw.submitted_at;
  resolved = raw.resolved;
  resolution =
      if ltb 0 raw.resolution then some (report_status_from_index raw.resolution) else none;
}

pub record ProviderResponse : Type 0 where
  pub provider_address : String
  pub methodology : String
  pub active : Bool
  pub registered_at : ℕ
