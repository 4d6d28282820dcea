-- ===== src/Incident/Invariant.antt =====
-- The operations on the table of incidents and its invariant.
use eco_mint.Prelude.{ℕ, String, Option, none, List, ◌≡◌}
use eco_mint.Incident.Types.{OracleIncident, IncidentDetectionInput}
use eco_mint.Incident.Repository.{
  EscalationThreshold, record_detection, find_by_id, acknowledge, resolve,
}
use eco_mint.Incident.Consistency.{IsConsistent, acknowledge-IsConsistent, resolve-IsConsistent}
use eco_mint.Incident.Detection.{record_detection-IsConsistent}

-- What operators and the monitor do to the table.
pub data Operation : Type 0 where
  detects : IncidentDetectionInput → String → ℕ → ℕ → Operation
  acknowledges : String → String → ℕ → Operation
  resolves : String → String → Option String → ℕ → Operation

abbrev pub step : List EscalationThreshold → Operation → List OracleIncident → List OracleIncident
step th (detects input id now later) rows = (record_detection th input id now later rows).0
step th (acknowledges id who now) rows = (acknowledge id who now rows).0
step th (resolves id who resolution now) rows = (resolve id who resolution now rows).0

-- A random identifier is not in the table yet.
abbrev pub IsFresh : Operation → List OracleIncident → Type 0
IsFresh (detects input id now later) rows = find_by_id id rows ≡ none
IsFresh _ rows = Unit {0}

-- Every operation keeps the table consistent: identifiers unique, at most one unresolved incident
-- for each subject, and each severity the one of its occurrence count. A detection's random
-- identifier must be new.
pub step-IsConsistent :
    (th : List EscalationThreshold) (o : Operation) (rows : List OracleIncident)
    → IsFresh o rows
    → IsConsistent th rows
    → IsConsistent th (step th o rows)
step-IsConsistent th (detects input id now later) rows fresh v =
    record_detection-IsConsistent th input id now later rows fresh v
step-IsConsistent th (acknowledges id who now) rows _ v =
    acknowledge-IsConsistent th id who now rows v
step-IsConsistent th (resolves id who resolution now) rows _ v =
    resolve-IsConsistent th id who resolution now rows v
