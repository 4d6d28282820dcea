-- ===== src/Incident/Detection.antt =====
-- The two statements of `recordDetection` on a consistent table of incidents.
use eco_mint.Prelude.{
  ℕ, String, true, false, ◌+◌, ◌≤◌, none, List, str_eq_iff, ◌≡◌, refl, arith, All, All-mono,
  All-both, Bool-cases, Option-cases, inl, inr,
}
use eco_mint.Incident.Types.{
  OracleIncidentSeverity, OracleIncident, IncidentDetectionInput, severity_eq,
}
use eco_mint.Incident.Repository.{
  EscalationThreshold, find_where, is_open_at, has_id, severity_for_occurrence_count, fresh_row,
  seen_again, upsert, escalate, record_detection, find_by_id,
}
use eco_mint.Incident.Rows.{
  find_where-none, find_where-holds, All-update_where, changed_by, clash, Apart, update_where-Apart,
  Apart-only, has_id-clash, is_open_at-clash,
}
use eco_mint.Incident.Consistency.{
  IsGraded, IsConsistent, key_of, seen_again-IsKeeping, escalate-IsKeeping,
}

-- A row that a detection leaves ungraded: all rows but the one with the given identifier are graded.
abbrev IsGradedBut : List EscalationThreshold → String → OracleIncident → Type 0
IsGradedBut th id r = (has_id id r ≡ false → IsGraded th r) × (1 ≤ r.occurrence_count)

abbrev HasCount : String → ℕ → OracleIncidentSeverity → OracleIncident → Type 0
HasCount id n severity r = has_id id r ≡ true → (r.occurrence_count ≡ n) × (r.severity ≡ severity)

-- The table after the first statement of a detection.
record IsUpserted (th : List EscalationThreshold) (rows : List OracleIncident)
    (row : OracleIncident) : Type 0 where
  apart : Apart rows
  others : All (IsGradedBut th row.id) rows
  counted : All (HasCount row.id row.occurrence_count row.severity) rows

fresh-clash :
    (input : IncidentDetectionInput) (id : String) (now : ℕ) (rows : List OracleIncident)
    → find_where (is_open_at (key_of input)) rows ≡ none
    → find_by_id id rows ≡ none
    → All (λ x. clash (fresh_row input id now) x ≡ false) rows
unfolding fresh_row find_by_id
fresh-clash input id now rows closed fresh =
    All-mono (λ x. (is_open_at (key_of input) x ≡ false) × (has_id id x ≡ false))
      (λ x. clash (fresh_row input id now) x ≡ false) rows
      (λ x (h, k). ground (arith, str_eq_iff x.id id, str_eq_iff id x.id))
      (All-both (λ x. is_open_at (key_of input) x ≡ false) (λ x. has_id id x ≡ false) rows
        (find_where-none (is_open_at (key_of input)) rows closed)
        (find_where-none (has_id id) rows fresh))

again-IsGradedBut :
    (th : List EscalationThreshold) (input : IncidentDetectionInput) (now : ℕ)
    (x r : OracleIncident)
    → IsGraded th x
    → (is_open_at (key_of input) x ≡ true → x ≡ r)
    → IsGradedBut th r.id (changed_by (is_open_at (key_of input)) (seen_again input now) x)
unfolding seen_again
again-IsGradedBut th input now x r h only = elim (Bool-cases (is_open_at (key_of input) x)) [
  | inl hit ↦
      rw (hit, only hit) (λ miss. absurd (ground (arith, str_eq_iff r.id r.id)), omega arith)
  | inr miss ↦ rw miss (λ _. h, h.0)
]

again-HasCount :
    (input : IncidentDetectionInput) (now : ℕ) (x r : OracleIncident)
    → is_open_at (key_of input) r ≡ true
    → (has_id r.id x ≡ true → x ≡ r)
    → HasCount r.id
        (r.occurrence_count + 1)
        r.severity
        (changed_by (is_open_at (key_of input)) (seen_again input now) x)
unfolding seen_again
again-HasCount input now x r hr only = elim (Bool-cases (is_open_at (key_of input) x)) [
  | inl hit ↦ rw hit (λ same. ground (arith, only same))
  | inr miss ↦ rw miss (λ same. absurd (ground (arith, only same)))
]

upsert-IsUpserted :
    (th : List EscalationThreshold) (input : IncidentDetectionInput) (id : String) (now : ℕ)
    (rows : List OracleIncident)
    → find_by_id id rows ≡ none
    → IsConsistent th rows
    → IsUpserted th (upsert input id now rows).0 (upsert input id now rows).1
unfolding upsert fresh_row seen_again find_by_id
upsert-IsUpserted th input id now rows fresh v =
    elim (Option-cases (find_where (is_open_at (key_of input)) rows)) [
      | inl absent ↦
          rw (absent, upsert)
            (record {
              apart = (fresh-clash input id now rows absent fresh, v.apart);
              others = (
                (ground (arith, str_eq_iff id id), ground arith),
                All-mono (IsGraded th) (IsGradedBut th id) rows (λ x h. (λ _. h, h.0)) v.graded,
              );
              counted = (
                λ _. (refl, refl),
                All-mono (λ x. has_id id x ≡ false) (HasCount id 1 OracleIncidentSeverity.warning)
                    rows (λ x miss hit. absurd (ground arith))
                    (find_where-none (has_id id) rows fresh),
              );
            })
      | inr (r, found) ↦
          rw (found, upsert)
            (record {
              apart =
                  update_where-Apart (is_open_at (key_of input)) (seen_again input now)
                    (seen_again-IsKeeping (is_open_at (key_of input)) input now) rows v.apart;
              others =
                  All-update_where
                    (λ x. IsGraded th x × (is_open_at (key_of input) x ≡ true → x ≡ r))
                    (IsGradedBut th r.id) (is_open_at (key_of input)) (seen_again input now) rows
                    (λ x (h, only). again-IsGradedBut th input now x r h only)
                    (All-both (IsGraded th) (λ x. is_open_at (key_of input) x ≡ true → x ≡ r) rows
                      v.graded
                      (Apart-only (is_open_at (key_of input)) (is_open_at (key_of input)) rows r
                        (is_open_at-clash (key_of input)) v.apart found
                        (find_where-holds (is_open_at (key_of input)) rows found)));
              counted =
                  All-update_where (λ x. has_id r.id x ≡ true → x ≡ r)
                    (HasCount r.id (r.occurrence_count + 1) r.severity) (is_open_at (key_of input))
                    (seen_again input now) rows
                    (λ x only.
                      again-HasCount input now x r
                        (find_where-holds (is_open_at (key_of input)) rows found) only)
                    (Apart-only (has_id r.id) (is_open_at (key_of input)) rows r (has_id-clash r.id)
                      v.apart found ((str_eq_iff r.id r.id).1 refl));
            })
    ]

kept-IsGraded :
    (th : List EscalationThreshold) (row x : OracleIncident)
    → row.severity ≡ severity_for_occurrence_count row.occurrence_count th
    → IsGradedBut th row.id x × HasCount row.id row.occurrence_count row.severity x
    → IsGraded th x
kept-IsGraded th row x e ((other, positive), counted) = elim (Bool-cases (has_id row.id x)) [
  | inl hit ↦ let (n, s) = counted hit in (positive, rw (n, s) e)
  | inr miss ↦ other miss
]

raised-IsGraded :
    (th : List EscalationThreshold) (row x : OracleIncident) (later : ℕ)
    → IsGradedBut th row.id x × HasCount row.id row.occurrence_count row.severity x
    → IsGraded th (
        changed_by
          (has_id row.id)
          (escalate (severity_for_occurrence_count row.occurrence_count th) later)
          x)
unfolding escalate
raised-IsGraded th row x later ((other, positive), counted) = elim (Bool-cases (has_id row.id x)) [
  | inl hit ↦ rw hit (positive, rw ((counted hit).0) refl)
  | inr miss ↦ rw miss (other miss)
]

pub severity_eq-eq : (x y : OracleIncidentSeverity) → severity_eq x y ≡ true → y ≡ x
severity_eq-eq x y h = ground arith

pub record_detection-IsConsistent :
    (th : List EscalationThreshold) (input : IncidentDetectionInput) (id : String) (now later : ℕ)
    (rows : List OracleIncident)
    → find_by_id id rows ≡ none
    → IsConsistent th rows
    → IsConsistent th (record_detection th input id now later rows).0
unfolding record_detection
record_detection-IsConsistent th input id now later rows fresh v =
    let u = upsert-IsUpserted th input id now rows fresh v in
    let row = (upsert input id now rows).1 in
    let rows' = (upsert input id now rows).0 in
    let target = severity_for_occurrence_count row.occurrence_count th in
    let facts =
      All-both (IsGradedBut th row.id) (HasCount row.id row.occurrence_count row.severity) rows'
        u.others u.counted in
    elim (Bool-cases (severity_eq target row.severity)) [
      | inl same ↦ rw same (record {
        apart = u.apart;
        graded =
            All-mono
              (λ x. IsGradedBut th row.id x × HasCount row.id row.occurrence_count row.severity x)
              (IsGraded th) rows'
              (λ x h. kept-IsGraded th row x (severity_eq-eq target row.severity same) h) facts;
      })
      | inr differs ↦ rw differs (record {
        apart =
            update_where-Apart (has_id row.id) (escalate target later)
              (escalate-IsKeeping (has_id row.id) target later) rows' u.apart;
        graded =
            All-update_where
              (λ x. IsGradedBut th row.id x × HasCount row.id row.occurrence_count row.severity x)
              (IsGraded th) (has_id row.id) (escalate target later) rows'
              (λ x h. raised-IsGraded th row x later h) facts;
      })
    ]
