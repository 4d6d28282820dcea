-- ===== src/Incident/Repository.antt =====
-- api/src/oracle/oracle-incident.repository.ts: the table `oracle_incidents` as a list of rows, and
-- each SQL statement as a function on it. An `UPDATE ... WHERE` changes every row that fits, and
-- `rows[0]` is the first of them.
use Prim.Native.String.{◌++◌ as str_append}
use eco_mint.Prelude.{
  ℕ, String, Bool, true, false, not, ◌&&◌, ◌+◌, ◌*◌, ◌^◌, Option, none, some, List, [], ◌∷◌, leb,
  ltb, nat_eq, str_eq, if◌then◌else◌,
}
use eco_mint.Incident.Types.{
  OracleIncidentStatus, OracleIncidentSeverity, OracleIncidentSubjectType, OracleIncident,
  IncidentDetectionInput, IncidentDetectionResult, severity_eq, is_resolved, is_active,
  subject_name,
}

-- How often the smallest positive JavaScript number, 2^-1074, goes into 1. Every finite number that is
-- not negative, whole or not, is a natural number of these units.
unfoldable pub units : ℕ
units = 2 ^ 1074

-- `occurrences` is in units.
pub record EscalationThreshold : Type 0 where
  pub occurrences : ℕ
  pub severity : OracleIncidentSeverity

abbrev pub default_escalation_thresholds : List EscalationThreshold
default_escalation_thresholds =
    record { occurrences = 3 * units; severity = OracleIncidentSeverity.critical } ∷ []

-- `parsed.sort((a, b) => a.occurrences - b.occurrences)`, which is stable
unfoldable pub insert_threshold :
    EscalationThreshold → List EscalationThreshold → List EscalationThreshold
insert_threshold t [] = t ∷ []
insert_threshold t (x ∷ xs) =
    if leb t.occurrences x.occurrences then t ∷ x ∷ xs else x ∷ insert_threshold t xs

unfoldable pub sort_thresholds : List EscalationThreshold → List EscalationThreshold
sort_thresholds [] = []
sort_thresholds (t ∷ ts) = insert_threshold t (sort_thresholds ts)

abbrev pub severity_named : String → Option OracleIncidentSeverity
severity_named s =
    if str_eq s "warning"
    then some OracleIncidentSeverity.warning
    else if str_eq s "critical"
    then some OracleIncidentSeverity.critical
    else none

-- The entries of the variable, split at `,` and `:` and trimmed, with the count in units; `none` is a
-- count that is negative, infinite or no number.
unfoldable pub parse_entries : List (Option ℕ × String) → List EscalationThreshold
parse_entries [] = []
parse_entries ((none, s) ∷ es) = parse_entries es
parse_entries ((some n, s) ∷ es) =
    let rest = parse_entries es in
    elim (severity_named s) [
      | none ↦ rest
      | some severity ↦
          if ltb 0 n then record { occurrences = n; severity = severity } ∷ rest else rest
    ]

abbrev pub or_default : List EscalationThreshold → List EscalationThreshold
or_default [] = default_escalation_thresholds
or_default (t ∷ ts) = sort_thresholds (t ∷ ts)

unfoldable pub parse_escalation_thresholds :
    Option (List (Option ℕ × String)) → List EscalationThreshold
parse_escalation_thresholds none = default_escalation_thresholds
parse_escalation_thresholds (some entries) = or_default (parse_entries entries)

unfoldable pub severity_from :
    OracleIncidentSeverity → ℕ → List EscalationThreshold → OracleIncidentSeverity
severity_from severity count [] = severity
severity_from severity count (t ∷ ts) =
    severity_from (if leb t.occurrences (count * units) then t.severity else severity) count ts

unfoldable pub severity_for_occurrence_count : ℕ → List EscalationThreshold → OracleIncidentSeverity
severity_for_occurrence_count count thresholds =
    severity_from OracleIncidentSeverity.warning count thresholds

unfoldable pub build_dedupe_key : OracleIncidentSubjectType → String → String
build_dedupe_key subject_type subject_id =
    str_append (str_append (subject_name subject_type) ":") subject_id

unfoldable pub find_where : (OracleIncident → Bool) → List OracleIncident → Option OracleIncident
find_where p [] = none
find_where p (r ∷ rows) = if p r then some r else find_where p rows

unfoldable pub update_where :
    (OracleIncident → Bool)
    → (OracleIncident → OracleIncident)
    → List OracleIncident
    → List OracleIncident
update_where p f [] = []
update_where p f (r ∷ rows) = (if p r then f r else r) ∷ update_where p f rows

-- The rows of the partial unique index at a key: `dedupe_key = $2 AND status <> 'resolved'`.
abbrev pub is_open_at : String → OracleIncident → Bool
is_open_at key r = str_eq r.dedupe_key key && not (is_resolved r.status)

abbrev pub has_id : String → OracleIncident → Bool
has_id id r = str_eq r.id id

unfoldable pub fresh_row : IncidentDetectionInput → String → ℕ → OracleIncident
fresh_row input id now = record {
  id = id;
  dedupe_key = build_dedupe_key input.subject_type input.subject_id;
  subject_type = input.subject_type;
  subject_id = input.subject_id;
  status = OracleIncidentStatus.active;
  severity = OracleIncidentSeverity.warning;
  occurrence_count = 1;
  first_detected_at = input.detected_at;
  last_detected_at = input.detected_at;
  acknowledged_at = none;
  acknowledged_by = none;
  resolved_at = none;
  resolved_by = none;
  resolution_note = none;
  details = some input.details;
  created_at = now;
  updated_at = now;
}

unfoldable pub seen_again : IncidentDetectionInput → ℕ → OracleIncident → OracleIncident
seen_again input now r = record r {
  occurrence_count = r.occurrence_count + 1;
  last_detected_at = input.detected_at;
  details = some input.details;
  updated_at = now;
}

-- `INSERT ... ON CONFLICT (dedupe_key) WHERE status <> 'resolved' DO UPDATE ... RETURNING *`
unfoldable pub upsert :
    IncidentDetectionInput → String → ℕ → List OracleIncident → List OracleIncident × OracleIncident
upsert input id now rows =
    let key = build_dedupe_key input.subject_type input.subject_id in
    elim (find_where (is_open_at key) rows) [
      | none ↦ (fresh_row input id now ∷ rows, fresh_row input id now)
      | some r ↦ (update_where (is_open_at key) (seen_again input now) rows, seen_again input now r)
    ]

unfoldable pub escalate : OracleIncidentSeverity → ℕ → OracleIncident → OracleIncident
escalate severity now r = record r { severity = severity; updated_at = now }

-- `id` is the random identifier, `now` and `later` the database's `now()` at the two statements.
unfoldable pub record_detection :
    List EscalationThreshold
    → IncidentDetectionInput
    → String
    → ℕ
    → ℕ
    → List OracleIncident
    → List OracleIncident × IncidentDetectionResult
record_detection thresholds input id now later rows =
    let upserted = upsert input id now rows in
    let row = upserted.1 in
    let target = severity_for_occurrence_count row.occurrence_count thresholds in
    let is_new = nat_eq row.occurrence_count 1 in
    if severity_eq target row.severity
    then (upserted.0, record { incident = row; is_new = is_new; escalated = false })
    else (
      update_where (has_id row.id) (escalate target later) upserted.0,
      record { incident = escalate target later row; is_new = is_new; escalated = true },
    )

pub data Error : Type 0 where
  incident_not_found not_active already_resolved : Error

unfoldable pub find_by_id : String → List OracleIncident → Option OracleIncident
find_by_id id rows = find_where (has_id id) rows

-- `assertExists`, then the error of the caller
unfoldable pub failure : String → Error → List OracleIncident → Error
failure id e rows = elim (find_by_id id rows) [ none ↦ incident_not_found | some r ↦ e ]

pub data Result : Type 0 where
  ok : OracleIncident → Result
  err : Error → Result

unfoldable pub acknowledged_by : String → ℕ → OracleIncident → OracleIncident
acknowledged_by who now r = record r {
  status = OracleIncidentStatus.acknowledged;
  acknowledged_at = some now;
  acknowledged_by = some who;
  updated_at = now;
}

abbrev pub is_active_with : String → OracleIncident → Bool
is_active_with id r = has_id id r && is_active r.status

unfoldable pub acknowledge :
    String → String → ℕ → List OracleIncident → List OracleIncident × Result
acknowledge id who now rows = elim (find_where (is_active_with id) rows) [
  | none ↦ (rows, err (failure id not_active rows))
  | some r ↦ (
    update_where (is_active_with id) (acknowledged_by who now) rows,
    ok (acknowledged_by who now r),
  )
]

unfoldable pub resolved_by : String → Option String → ℕ → OracleIncident → OracleIncident
resolved_by who resolution now r = record r {
  status = OracleIncidentStatus.resolved;
  resolved_at = some now;
  resolved_by = some who;
  resolution_note = resolution;
  updated_at = now;
}

abbrev pub is_unresolved_with : String → OracleIncident → Bool
is_unresolved_with id r = has_id id r && not (is_resolved r.status)

unfoldable pub resolve :
    String → String → Option String → ℕ → List OracleIncident → List OracleIncident × Result
resolve id who resolution now rows = elim (find_where (is_unresolved_with id) rows) [
  | none ↦ (rows, err (failure id already_resolved rows))
  | some r ↦ (
    update_where (is_unresolved_with id) (resolved_by who resolution now) rows,
    ok (resolved_by who resolution now r),
  )
]
