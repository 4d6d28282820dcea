-- ===== src/Incident/Consistency.antt =====
-- A consistent table of incidents, and what operators do to it by `acknowledge` and `resolve`.
use eco_mint.Prelude.{
  ℕ, String, Bool, ◌≤◌, Option, List, ◌≡◌, refl, arith, All, Option-cases, inl, inr,
}
use eco_mint.Incident.Types.{OracleIncidentSeverity, OracleIncident, IncidentDetectionInput}
use eco_mint.Incident.Repository.{
  EscalationThreshold, find_where, severity_for_occurrence_count, build_dedupe_key, seen_again,
  escalate, acknowledge, acknowledged_by, resolve, resolved_by, is_active_with, is_unresolved_with,
}
use eco_mint.Incident.Rows.{All-update_where, Apart, IsKeeping, update_where-Apart}

abbrev pub IsGraded : List EscalationThreshold → OracleIncident → Type 0
IsGraded th r =
    (1 ≤ r.occurrence_count) × (r.severity ≡ severity_for_occurrence_count r.occurrence_count th)

pub record IsConsistent (th : List EscalationThreshold) (rows : List OracleIncident) : Type 0 where
  pub apart : Apart rows
  pub graded : All (IsGraded th) rows

abbrev pub key_of : IncidentDetectionInput → String
key_of input = build_dedupe_key input.subject_type input.subject_id

pub seen_again-IsKeeping :
    (q : OracleIncident → Bool) (input : IncidentDetectionInput) (now : ℕ)
    → IsKeeping q (seen_again input now)
unfolding seen_again
seen_again-IsKeeping q input now = record {
  id = λ r. refl;
  dedupe_key = λ r. refl;
  closed = λ r _ h. h;
}

pub escalate-IsKeeping :
    (q : OracleIncident → Bool) (s : OracleIncidentSeverity) (now : ℕ)
    → IsKeeping q (escalate s now)
unfolding escalate
escalate-IsKeeping q s now = record { id = λ r. refl; dedupe_key = λ r. refl; closed = λ r _ h. h }

resolved_by-IsKeeping :
    (q : OracleIncident → Bool) (who : String) (resolution : Option String) (now : ℕ)
    → IsKeeping q (resolved_by who resolution now)
unfolding resolved_by
resolved_by-IsKeeping q who resolution now = record {
  id = λ r. refl;
  dedupe_key = λ r. refl;
  closed = λ r _ h. refl;
}

acknowledged_by-IsKeeping :
    (id who : String) (now : ℕ) → IsKeeping (is_active_with id) (acknowledged_by who now)
unfolding acknowledged_by
acknowledged_by-IsKeeping id who now = record {
  id = λ r. refl;
  dedupe_key = λ r. refl;
  closed = λ r active h. ground arith;
}

pub acknowledge-IsConsistent :
    (th : List EscalationThreshold) (id who : String) (now : ℕ) (rows : List OracleIncident)
    → IsConsistent th rows
    → IsConsistent th (acknowledge id who now rows).0
unfolding acknowledge acknowledged_by
acknowledge-IsConsistent th id who now rows v =
    elim (Option-cases (find_where (is_active_with id) rows)) [
      | inl absent ↦ rw (absent, acknowledge) v
      | inr (r, found) ↦
          rw (found, acknowledge)
            (record {
              apart =
                  update_where-Apart (is_active_with id) (acknowledged_by who now)
                    (acknowledged_by-IsKeeping id who now) rows v.apart;
              graded =
                  All-update_where (IsGraded th) (IsGraded th) (is_active_with id)
                    (acknowledged_by who now) rows (λ x h. ground arith) v.graded;
            })
    ]

pub resolve-IsConsistent :
    (th : List EscalationThreshold) (id who : String) (resolution : Option String) (now : ℕ)
    (rows : List OracleIncident)
    → IsConsistent th rows
    → IsConsistent th (resolve id who resolution now rows).0
unfolding resolve resolved_by
resolve-IsConsistent th id who resolution now rows v =
    elim (Option-cases (find_where (is_unresolved_with id) rows)) [
      | inl absent ↦ rw (absent, resolve) v
      | inr (r, found) ↦
          rw (found, resolve)
            (record {
              apart =
                  update_where-Apart (is_unresolved_with id) (resolved_by who resolution now)
                    (resolved_by-IsKeeping (is_unresolved_with id) who resolution now) rows v.apart;
              graded =
                  All-update_where (IsGraded th) (IsGraded th) (is_unresolved_with id)
                    (resolved_by who resolution now) rows (λ x h. ground arith) v.graded;
            })
    ]
