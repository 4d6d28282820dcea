-- ===== src/Incident/Types.antt =====
-- api/src/oracle/interfaces/oracle-incident.interface.ts. Times are milliseconds.
use eco_mint.Prelude.{ℕ, String, Bool, true, false, Option, List}

pub data OracleIncidentStatus : Type 0 where
  active acknowledged resolved : OracleIncidentStatus

pub data OracleIncidentSeverity : Type 0 where
  warning critical : OracleIncidentSeverity

pub data OracleIncidentSubjectType : Type 0 where
  project provider : OracleIncidentSubjectType

pub record OracleIncidentDetails : Type 0 where
  pub last_verified_at : Option ℕ
  pub expected_next_report_at : Option ℕ
  pub staleness_seconds : Option ℕ
  pub project_ids : Option (List String)

-- The table's row; `toIncident` only renames its fields and prints its times.
pub record OracleIncident : Type 0 where
  pub id : String
  pub dedupe_key : String
  pub subject_type : OracleIncidentSubjectType
  pub subject_id : String
  pub status : OracleIncidentStatus
  pub severity : OracleIncidentSeverity
  pub occurrence_count : ℕ
  pub first_detected_at : ℕ
  pub last_detected_at : ℕ
  pub acknowledged_at : Option ℕ
  pub acknowledged_by : Option String
  pub resolved_at : Option ℕ
  pub resolved_by : Option String
  pub resolution_note : Option String
  pub details : Option OracleIncidentDetails
  pub created_at : ℕ
  pub updated_at : ℕ

pub record IncidentDetectionInput : Type 0 where
  pub subject_type : OracleIncidentSubjectType
  pub subject_id : String
  pub detected_at : ℕ
  pub details : OracleIncidentDetails

pub record IncidentDetectionResult : Type 0 where
  pub incident : OracleIncident
  pub is_new : Bool
  pub escalated : Bool

abbrev pub severity_eq : OracleIncidentSeverity → OracleIncidentSeverity → Bool
severity_eq warning warning = true
severity_eq critical critical = true
severity_eq _ _ = false

abbrev pub is_resolved : OracleIncidentStatus → Bool
is_resolved resolved = true
is_resolved _ = false

abbrev pub is_active : OracleIncidentStatus → Bool
is_active active = true
is_active _ = false

abbrev pub subject_name : OracleIncidentSubjectType → String
subject_name project = "project"
subject_name provider = "provider"
