-- ===== src/Incident/Lifecycle.antt =====
-- The life of one incident: new or seen again, and closed for good.
use eco_mint.Prelude.{
  ℕ, String, Bool, true, false, ◌+◌, Option, none, some, List, str_eq, str_eq_iff, ◌≡◌, refl, ap,
  ◌∙◌, arith, Bool-cases, Option-cases, inl, inr,
}
use eco_mint.Incident.Types.{
  OracleIncidentSeverity, OracleIncident, IncidentDetectionInput, is_resolved, severity_eq,
}
use eco_mint.Incident.Repository.{
  EscalationThreshold, find_where, update_where, is_open_at, has_id, severity_for_occurrence_count,
  fresh_row, seen_again, upsert, escalate, record_detection, find_by_id, acknowledge,
  acknowledged_by, resolve, resolved_by, is_active_with, is_unresolved_with,
}
use eco_mint.Incident.Rows.{
  find_where-holds, find_where-All, find_where-update_where, Apart, Apart-only, has_id-clash,
}
use eco_mint.Incident.Consistency.{IsGraded, IsConsistent, key_of}
use eco_mint.Incident.Detection.{severity_eq-eq}
use eco_mint.Incident.Invariant.{Operation, detects, acknowledges, resolves, step, IsFresh}

abbrev pub count_of : Option OracleIncident → ℕ
count_of none = 0
count_of (some r) = r.occurrence_count

abbrev pub id_or : String → Option OracleIncident → String
id_or id none = id
id_or id (some r) = r.id

abbrev pub has_none : Option OracleIncident → Bool
has_none none = true
has_none (some r) = false

-- The result of a detection: a new incident exactly if the subject has no open one, otherwise the
-- same incident with one occurrence more; the severity is the one of the new count. The table must
-- be consistent.
pub record_detection_result :
    (th : List EscalationThreshold) (input : IncidentDetectionInput) (id : String) (now later : ℕ)
    (rows : List OracleIncident)
    → IsConsistent th rows
    → let before = find_where (is_open_at (key_of input)) rows in
      let result = (record_detection th input id now later rows).1 in
      (result.is_new ≡ has_none before)
      × (result.incident.id ≡ id_or id before)
      × (result.incident.occurrence_count ≡ count_of before + 1)
      × (result.incident.severity ≡ severity_for_occurrence_count (count_of before + 1) th)
unfolding record_detection upsert fresh_row seen_again escalate
record_detection_result th input id now later rows v =
    elim (Option-cases (find_where (is_open_at (key_of input)) rows)) [
      | inl absent ↦
          rw (absent, record_detection, upsert)
            (ground (
              arith,
              severity_eq-eq (severity_for_occurrence_count 1 th) OracleIncidentSeverity.warning,
            ))
      | inr (r, found) ↦
          let (positive, graded) =
            find_where-All (IsGraded th) (is_open_at (key_of input)) rows v.graded found in
          rw (found, record_detection, upsert)
            (ground (
              arith,
              severity_eq-eq (severity_for_occurrence_count (r.occurrence_count + 1) th) r.severity,
            ))
    ]

find_by_id-update_where :
    (i : String) (q : OracleIncident → Bool) (f : OracleIncident → OracleIncident)
    (rows : List OracleIncident) {r : OracleIncident}
    → ((x : OracleIncident) → (f x).id ≡ x.id)
    → find_by_id i rows ≡ some r
    → q r ≡ false
    → find_by_id i (update_where q f rows) ≡ some r
unfolding find_by_id
find_by_id-update_where i q f rows keep found miss =
    find_where-update_where (has_id i) q f rows (λ x _. rw (keep x)) ∙ rw (found, miss)

acknowledge_keeps :
    (i id who : String) (now : ℕ) (rows : List OracleIncident) (r : OracleIncident)
    → find_by_id i rows ≡ some r
    → is_resolved r.status ≡ true
    → find_by_id i (acknowledge id who now rows).0 ≡ some r
unfolding acknowledge acknowledged_by
acknowledge_keeps i id who now rows r found closed =
    elim (Option-cases (find_where (is_active_with id) rows)) [
      | inl absent ↦ rw (absent, acknowledge) found
      | inr (x, e) ↦
          rw (e, acknowledge)
            (find_by_id-update_where i (is_active_with id) (acknowledged_by who now) rows
              (λ y. refl) found (ground arith))
    ]

resolve_keeps :
    (i id who : String) (resolution : Option String) (now : ℕ) (rows : List OracleIncident)
    (r : OracleIncident)
    → find_by_id i rows ≡ some r
    → is_resolved r.status ≡ true
    → find_by_id i (resolve id who resolution now rows).0 ≡ some r
unfolding resolve resolved_by
resolve_keeps i id who resolution now rows r found closed =
    elim (Option-cases (find_where (is_unresolved_with id) rows)) [
      | inl absent ↦ rw (absent, resolve) found
      | inr (x, e) ↦
          rw (e, resolve)
            (find_by_id-update_where i (is_unresolved_with id) (resolved_by who resolution now) rows
              (λ y. refl) found (ground arith))
    ]

fresh_other :
    (i id : String) (rows : List OracleIncident) {r : OracleIncident}
    → find_by_id id rows ≡ none
    → find_by_id i rows ≡ some r
    → str_eq id i ≡ false
fresh_other i id rows fresh found = elim (Bool-cases (str_eq id i)) [
  | inl same ↦ let e = (str_eq_iff id i).0 same in absurd (cc (ap (λ j. find_by_id j rows) e))
  | inr other ↦ other
]

open_other :
    (i key : String) (rows : List OracleIncident) (r x : OracleIncident)
    → Apart rows
    → find_by_id i rows ≡ some r
    → is_resolved r.status ≡ true
    → find_where (is_open_at key) rows ≡ some x
    → has_id x.id r ≡ false
unfolding find_by_id
open_other i key rows r x apart found closed e =
    let opened = find_where-holds (is_open_at key) rows e in
    let only =
      Apart-only (has_id x.id) (is_open_at key) rows x (has_id-clash x.id) apart e
        ((str_eq_iff x.id x.id).1 refl) in
    let only_r = find_where-All (λ y. has_id x.id y ≡ true → y ≡ x) (has_id i) rows only found in
    elim (Bool-cases (has_id x.id r)) [
      | inl hit ↦ absurd (ground (arith, only_r hit))
      | inr miss ↦ miss
    ]

-- The first statement of a detection leaves a resolved row alone, and works on another row.
upsert_keeps :
    (i : String) (input : IncidentDetectionInput) (id : String) (now : ℕ)
    (rows : List OracleIncident) (r : OracleIncident)
    → Apart rows
    → find_by_id id rows ≡ none
    → find_by_id i rows ≡ some r
    → is_resolved r.status ≡ true
    → (find_by_id i (upsert input id now rows).0 ≡ some r)
      × (has_id (upsert input id now rows).1.id r ≡ false)
unfolding upsert find_by_id fresh_row seen_again find_where
upsert_keeps i input id now rows r apart fresh found closed =
    let named = find_where-holds (has_id i) rows found in
    elim (Option-cases (find_where (is_open_at (key_of input)) rows)) [
      | inl absent ↦
          let other = fresh_other i id rows fresh found in
          rw (absent, upsert)
            (rw other found, ground (arith, str_eq_iff r.id id, str_eq_iff r.id i, str_eq_iff id i))
      | inr (x, e) ↦
          rw (e, upsert)
            (
              find_by_id-update_where i (is_open_at (key_of input)) (seen_again input now) rows
                  (λ y. refl) found (ground arith),
              open_other i (key_of input) rows r x apart found closed e,
            )
    ]

-- A resolved incident is never changed again, by no operation; a later detection of its subject
-- opens another row.
pub resolved_keeps :
    (th : List EscalationThreshold) (o : Operation) (rows : List OracleIncident) (i : String)
    (r : OracleIncident)
    → IsConsistent th rows
    → IsFresh o rows
    → find_by_id i rows ≡ some r
    → is_resolved r.status ≡ true
    → find_by_id i (step th o rows) ≡ some r
unfolding record_detection escalate
resolved_keeps th (acknowledges id who now) rows i r v _ found closed =
    acknowledge_keeps i id who now rows r found closed
resolved_keeps th (resolves id who resolution now) rows i r v _ found closed =
    resolve_keeps i id who resolution now rows r found closed
resolved_keeps th (detects input id now later) rows i r v fresh found closed =
    let (kept, other) = upsert_keeps i input id now rows r v.apart fresh found closed in
    let row = (upsert input id now rows).1 in
    let target = severity_for_occurrence_count row.occurrence_count th in
    elim (Bool-cases (severity_eq target row.severity)) [
      | inl same ↦ rw (same, step, record_detection) kept
      | inr differs ↦
          rw (differs, step, record_detection)
            (find_by_id-update_where i (has_id row.id) (escalate target later)
              (upsert input id now rows).0 (λ y. refl) kept other)
    ]
