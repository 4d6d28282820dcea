-- ===== src/Oracle/Alerts.antt =====
-- A cycle of the monitor leaves no stale subject without an open incident.
use eco_mint.Prelude.{
  ℕ, suc, String, Bool, true, some, List, [], ◌∷◌, ◌++◌, any, filter, map, ◌≡◌, refl, sym, ap, ◌∙◌,
  subst, arith, str_eq_iff, Has, Has-append_left, Has-append_right, inl, inr, Bool-cases,
  Option-cases,
}
use eco_mint.Incident.Types.{
  OracleIncident, OracleIncidentSubjectType, IncidentDetectionInput, severity_eq,
}
use eco_mint.Incident.Repository.{
  EscalationThreshold, build_dedupe_key, is_open_at, find_where, update_where, fresh_row,
  seen_again, upsert, escalate, record_detection, has_id, severity_for_occurrence_count,
}
use eco_mint.Incident.Consistency.{key_of}
use eco_mint.Oracle.Reports.{Oracle, Env}
use eco_mint.Oracle.Monitoring.{
  Settings, Project, StalenessMetric, ProviderStalenessMetric, Stamp, SyncSummary,
  compute_staleness, detections, project_input, provider_input, record_all, tally, sync_incidents,
  no_incidents,
}

-- Some unresolved incident has the key.
abbrev is_open : String → List OracleIncident → Bool
is_open key rows = any (is_open_at key) rows

any-update_where :
    (p q : OracleIncident → Bool) (f : OracleIncident → OracleIncident) (rows : List OracleIncident)
    → ((r : OracleIncident) → p (f r) ≡ p r)
    → any p (update_where q f rows) ≡ any p rows
unfolding update_where
any-update_where p q f [] keeps = refl
any-update_where p q f (r ∷ rows) keeps = elim (Bool-cases (q r)) [
  | inl is ↦ rw (is, keeps r, any-update_where p q f rows keeps) refl
  | inr isnt ↦ rw (isnt, any-update_where p q f rows keeps) refl
]

find_where-any :
    (p : OracleIncident → Bool) (rows : List OracleIncident) (r : OracleIncident)
    → find_where p rows ≡ some r
    → any p rows ≡ true
unfolding find_where
find_where-any p [] r found = absurd (ground arith)
find_where-any p (x ∷ rows) r found = elim (Bool-cases (p x)) [
  | inl is ↦ rw is refl
  | inr isnt ↦ rw isnt (find_where-any p rows r (sym (rw (isnt, find_where) refl) ∙ found))
]

upsert-opens :
    (key : String) (input : IncidentDetectionInput) (id : String) (now : ℕ)
    (rows : List OracleIncident)
    → ((is_open key rows ≡ true) → is_open key (upsert input id now rows).0 ≡ true)
      × (is_open (key_of input) (upsert input id now rows).0 ≡ true)
unfolding upsert fresh_row seen_again
upsert-opens key input id now rows =
    elim (Option-cases (find_where (is_open_at (key_of input)) rows)) [
      | inl absent ↦
          rw (absent, upsert)
            (λ h. ground (arith, h), ground (arith, str_eq_iff (key_of input) (key_of input)))
      | inr (r, found) ↦
          rw (found, upsert)
            (
              λ h.
                  any-update_where (is_open_at key) (is_open_at (key_of input))
                    (seen_again input now) rows (λ x. refl)
                  ∙ h,
              any-update_where (is_open_at (key_of input)) (is_open_at (key_of input))
                    (seen_again input now) rows (λ x. refl)
                  ∙ find_where-any (is_open_at (key_of input)) rows r found,
            )
    ]

record_detection-keeps :
    (th : List EscalationThreshold) (key : String) (input : IncidentDetectionInput) (id : String)
    (now later : ℕ) (rows : List OracleIncident)
    → is_open key (record_detection th input id now later rows).0
      ≡ is_open key (upsert input id now rows).0
unfolding record_detection escalate
record_detection-keeps th key input id now later rows =
    let row = (upsert input id now rows).1 in
    let target = severity_for_occurrence_count row.occurrence_count th in
    elim (Bool-cases (severity_eq target row.severity)) [
      | inl same ↦ rw (record_detection, same) refl
      | inr other ↦
          rw (record_detection, other)
            (any-update_where (is_open_at key) (has_id row.id) (escalate target later)
              (upsert input id now rows).0 (λ x. refl))
    ]

record_all-keeps :
    (th : List EscalationThreshold) (stamp : ℕ → Stamp) (n : ℕ) (key : String)
    (inputs : List IncidentDetectionInput) (rows : List OracleIncident) (summary : SyncSummary)
    → is_open key rows ≡ true
    → is_open key (record_all th stamp n inputs rows summary).0 ≡ true
unfolding record_all
record_all-keeps th stamp n key [] rows summary h = h
record_all-keeps th stamp n key (input ∷ inputs) rows summary h =
    let at = stamp n in
    let (rows', result) = record_detection th input at.id at.now at.later rows in
    record_all-keeps th stamp (suc n) key inputs rows' (tally summary result) (
      record_detection-keeps th key input at.id at.now at.later rows
      ∙ (upsert-opens key input at.id at.now rows).0 h)

record_all-opens :
    (th : List EscalationThreshold) (stamp : ℕ → Stamp) (n : ℕ) (input : IncidentDetectionInput)
    (inputs : List IncidentDetectionInput) (rows : List OracleIncident) (summary : SyncSummary)
    → Has input inputs
    → is_open (key_of input) (record_all th stamp n inputs rows summary).0 ≡ true
unfolding record_all
record_all-opens th stamp n input [] rows summary m = absurd m
record_all-opens th stamp n input (x ∷ inputs) rows summary (inl e) =
    let at = stamp n in
    let (rows', result) = record_detection th x at.id at.now at.later rows in
    record_all-keeps th stamp (suc n) (key_of input) inputs rows' (tally summary result) (
      record_detection-keeps th (key_of input) x at.id at.now at.later rows
      ∙ subst (λ y. is_open (key_of y) (upsert x at.id at.now rows).0 ≡ true) (sym e)
          (upsert-opens (key_of x) x at.id at.now rows).1)
record_all-opens th stamp n input (x ∷ inputs) rows summary (inr m) =
    let at = stamp n in
    let (rows', result) = record_detection th x at.id at.now at.later rows in
    record_all-opens th stamp (suc n) input inputs rows' (tally summary result) m

module _ {A B : Type 0} where
  Has-map : (f : A → B) (a : A) (xs : List A) → Has a xs → Has (f a) (map f xs)
  Has-map f a [] m = absurd m
  Has-map f a (x ∷ xs) (inl e) = inl (ap f e)
  Has-map f a (x ∷ xs) (inr m) = inr (Has-map f a xs m)

module _ {A : Type 0} where
  Has-filter : (p : A → Bool) (a : A) (xs : List A) → Has a xs → p a ≡ true → Has a (filter p xs)
  Has-filter p a [] m h = absurd m
  Has-filter p a (x ∷ xs) (inl e) h = rw (sym (ap p e) ∙ h) (inl e)
  Has-filter p a (x ∷ xs) (inr m) h = elim (Bool-cases (p x)) [
    | inl is ↦ rw is (inr (Has-filter p a xs m h))
    | inr isnt ↦ rw isnt (Has-filter p a xs m h)
  ]

-- The subject has an unresolved incident in the table.
abbrev pub IsAlerted : OracleIncidentSubjectType → String → List OracleIncident → Type 0
IsAlerted subject_type id rows = any (is_open_at (build_dedupe_key subject_type id)) rows ≡ true

-- Whatever the table held, after a cycle every project and every provider that the cycle's report calls
-- stale has an unresolved incident.
pub sync_incidents-IsAlerted :
    (set : Settings) (th : List EscalationThreshold) (env : Env) (stamp : ℕ → Stamp) (now : ℕ)
    (projects : List Project) (o : Oracle) (rows : List OracleIncident)
    → let report = (compute_staleness set env now projects o).1 in
      let after = (sync_incidents set th env stamp now projects o rows).1 in
      ((m : StalenessMetric)
        → Has m report.projects
        → m.is_stale ≡ true
        → IsAlerted OracleIncidentSubjectType.project m.project_id after)
      × ((m : ProviderStalenessMetric)
          → Has m report.providers
          → m.is_stale ≡ true
          → IsAlerted OracleIncidentSubjectType.provider m.provider_address after)
unfolding sync_incidents detections
sync_incidents-IsAlerted set th env stamp now projects o rows =
    let report = (compute_staleness set env now projects o).1 in
    let stale =
      map (project_input now) (filter (λ (m : StalenessMetric). m.is_stale) report.projects) in
    let late =
      map (provider_input now)
        (filter (λ (m : ProviderStalenessMetric). m.is_stale) report.providers) in
    (
      λ m here is.
          record_all-opens th stamp 0 (project_input now m) (stale ++ late) rows no_incidents (
            Has-append_left (project_input now m) stale late (
              Has-map (project_input now) m
                (filter (λ (x : StalenessMetric). x.is_stale) report.projects)
                (Has-filter (λ (x : StalenessMetric). x.is_stale) m report.projects here is))),
      λ m here is.
          record_all-opens th stamp 0 (provider_input now m) (stale ++ late) rows no_incidents (
            Has-append_right (provider_input now m) stale late (
              Has-map (provider_input now) m
                (filter (λ (x : ProviderStalenessMetric). x.is_stale) report.providers)
                (Has-filter (λ (x : ProviderStalenessMetric). x.is_stale) m report.providers here
                  is))),
    )
