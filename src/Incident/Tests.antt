-- ===== src/Incident/Tests.antt =====
-- Concrete runs on the table of incidents.
use eco_mint.Prelude.{true, false, none, some, List, [], ◌∷◌, ◌*◌, ◌≡◌, refl, arith}
use eco_mint.Incident.Types.{
  OracleIncidentStatus, OracleIncidentSeverity, OracleIncidentSubjectType, OracleIncident,
  IncidentDetectionInput,
}
use eco_mint.Incident.Repository.{
  EscalationThreshold, default_escalation_thresholds, record_detection, find_by_id,
  severity_for_occurrence_count, severity_from, build_dedupe_key, find_where, units, upsert,
  seen_again, escalate,
}
use eco_mint.Incident.Consistency.{IsConsistent}
use eco_mint.Incident.Invariant.{Operation, detects, step, step-IsConsistent}
use eco_mint.Incident.Lifecycle.{record_detection_result, resolved_keeps}

abbrev solar : IncidentDetectionInput
solar = record {
  subject_type = OracleIncidentSubjectType.project;
  subject_id = "7";
  detected_at = 1000;
  details = record {
    last_verified_at = none;
    expected_next_report_at = none;
    staleness_seconds = some 60;
    project_ids = none;
  };
}

abbrev open_row : OracleIncident
open_row = record {
  id = "a";
  dedupe_key = "project:7";
  subject_type = OracleIncidentSubjectType.project;
  subject_id = "7";
  status = OracleIncidentStatus.active;
  severity = OracleIncidentSeverity.warning;
  occurrence_count = 2;
  first_detected_at = 100;
  last_detected_at = 200;
  acknowledged_at = none;
  acknowledged_by = none;
  resolved_at = none;
  resolved_by = none;
  resolution_note = none;
  details = none;
  created_at = 100;
  updated_at = 200;
}

abbrev closed_row : OracleIncident
closed_row = record open_row {
  id = "b";
  status = OracleIncidentStatus.resolved;
  occurrence_count = 1;
}

abbrev rows : List OracleIncident
rows = open_row ∷ closed_row ∷ []

rows-IsConsistent : IsConsistent default_escalation_thresholds rows
unfolding severity_for_occurrence_count severity_from units
rows-IsConsistent = record {
  apart = ((refl, tt), (tt, tt));
  graded = ((omega arith, refl), ((omega arith, refl), tt));
}

abbrev detection : Operation
detection = detects solar "c" 1000 1001

step-IsConsistent_example :
    IsConsistent default_escalation_thresholds (step default_escalation_thresholds detection rows)
unfolding find_by_id find_where
step-IsConsistent_example =
    step-IsConsistent default_escalation_thresholds detection rows refl rows-IsConsistent

resolved_keeps_example :
    find_by_id "b" (step default_escalation_thresholds detection rows) ≡ some closed_row
unfolding find_by_id find_where
resolved_keeps_example =
    resolved_keeps default_escalation_thresholds detection rows "b" closed_row rows-IsConsistent
      refl refl refl

abbrev lowering : List EscalationThreshold
lowering =
    record { occurrences = 2 * units; severity = OracleIncidentSeverity.critical }
    ∷ record { occurrences = 3 * units; severity = OracleIncidentSeverity.warning }
    ∷ []

abbrev critical_row : OracleIncident
critical_row = record open_row { severity = OracleIncidentSeverity.critical }

-- `escalated` is also true where the severity falls.
lowered_is_escalated :
    let result = (record_detection lowering solar "c" 1000 1001 (critical_row ∷ [])).1 in
    (result.escalated ≡ true) × (result.incident.severity ≡ OracleIncidentSeverity.warning)
unfolding record_detection upsert seen_again escalate find_where severity_for_occurrence_count
    build_dedupe_key severity_from units
lowered_is_escalated = (refl, refl)

record_detection_result_example :
    let result = (record_detection default_escalation_thresholds solar "c" 1000 1001 rows).1 in
    (result.is_new ≡ false)
    × (result.incident.id ≡ "a")
    × (result.incident.occurrence_count ≡ 3)
    × (result.incident.severity ≡ OracleIncidentSeverity.critical)
unfolding find_where severity_for_occurrence_count build_dedupe_key severity_from units
record_detection_result_example =
    record_detection_result default_escalation_thresholds solar "c" 1000 1001 rows rows-IsConsistent
