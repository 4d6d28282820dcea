-- ===== src/Kyc/Types.antt =====
-- The records of api/src/common/interfaces/authenticated-request.interface.ts.
use mathlib.Core.Option.{Option}
use eco_mint.Prelude.{ℕ, String, Bool, true, false}

pub data KycStatus : Type 0 where
  none pending verified accredited expired rejected : KycStatus

pub data KycStatusSource : Type 0 where
  provider admin system import : KycStatusSource

pub record KycAuditEntry : Type 0 where
  pub id : String
  pub address : String
  pub from_status : KycStatus
  pub to_status : KycStatus
  pub source : KycStatusSource
  pub actor : Option String
  pub reason : Option String
  pub provider_reference : Option String
  pub expires_at : Option ℕ
  pub timestamp : ℕ

pub record KycRecord : Type 0 where
  pub address : String
  pub status : KycStatus
  pub source : KycStatusSource
  pub actor : Option String
  pub reason : Option String
  pub provider_reference : Option String
  pub created_at : ℕ
  pub updated_at : ℕ
  pub expires_at : Option ℕ

abbrev pub status_eq : KycStatus → KycStatus → Bool
status_eq none none = true
status_eq pending pending = true
status_eq verified verified = true
status_eq accredited accredited = true
status_eq expired expired = true
status_eq rejected rejected = true
status_eq _ _ = false
