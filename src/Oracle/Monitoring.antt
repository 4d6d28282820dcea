-- ===== src/Oracle/Monitoring.antt =====
-- api/src/oracle/oracle.monitoring.service.ts: which projects and providers are stale, and the incidents
-- that a cycle records. The list of projects, the tests of the methodology's name and the settings are
-- given. Times are in milliseconds.
use eco_mint.Prelude.{
  ℕ, suc, ◌+◌, ◌-◌, ◌*◌, ◌/◌, String, Bool, true, false, Option, none, some, List, [], ◌∷◌, ◌++◌,
  filter, map, ltb, leb, str_eq, if◌then◌else◌, string_has_eq,
}
use eco_mint.Prelude.Dict.{lookup, insert}
use eco_mint.Incident.Types.{
  OracleIncident, OracleIncidentSubjectType, IncidentDetectionInput, IncidentDetectionResult,
}
use eco_mint.Incident.Repository.{EscalationThreshold, record_detection}
use eco_mint.Oracle.Types.{verified, status_eq, ReportResponse}
use eco_mint.Oracle.Reports.{Oracle, Env, get_project_reports}

pub record Settings : Type 0 where
  -- the patterns of the methodologies with a cadence of their own
  pub is_remote : String → Bool
  pub is_sensor : String → Bool
  -- a setting that is a positive number
  pub cadence : Option ℕ
  pub grace : Option ℕ

abbrev pub or_number : Option ℕ → ℕ → ℕ
or_number none default = default
or_number (some n) default = n

abbrev pub default_cadence_seconds : ℕ
default_cadence_seconds = 365 * 24 * 60 * 60

abbrev pub default_grace_seconds : ℕ
default_grace_seconds = 30 * 24 * 60 * 60

unfoldable pub cadence_for_methodology : Settings → String → ℕ
cadence_for_methodology set methodology =
    if set.is_remote methodology
    then 90 * 24 * 60 * 60
    else if set.is_sensor methodology
    then 30 * 24 * 60 * 60
    else or_number set.cadence default_cadence_seconds

abbrev pub grace_seconds : Settings → ℕ
grace_seconds set = or_number set.grace default_grace_seconds

-- What is used of a project.
pub record Project : Type 0 where
  pub id : String
  pub methodology : String
  pub created_at : ℕ

pub record StalenessMetric : Type 0 where
  pub project_id : String
  pub provider_address : Option String
  pub last_verified_at : ℕ
  pub expected_cadence_seconds : ℕ
  pub grace_seconds : ℕ
  pub expected_next_report_at : ℕ
  pub staleness_seconds : ℕ
  pub is_stale : Bool

pub record ProviderStalenessMetric : Type 0 where
  pub provider_address : String
  pub last_verified_at : ℕ
  pub expected_next_report_at : ℕ
  pub staleness_seconds : ℕ
  pub is_stale : Bool
  pub project_ids : List String

unfoldable pub build_project_metric : String → Option String → ℕ → ℕ → ℕ → ℕ → StalenessMetric
build_project_metric id provider baseline cadence grace now =
    let expected_next = baseline + (cadence + grace) * 1000 in
    record {
      project_id = id;
      provider_address = provider;
      last_verified_at = baseline;
      expected_cadence_seconds = cadence;
      grace_seconds = grace;
      expected_next_report_at = expected_next;
      staleness_seconds = (now - baseline) / 1000;
      is_stale = ltb expected_next now;
    }

-- `reportTime`; the reports' times are seconds.
abbrev pub report_time : ReportResponse → ℕ
report_time r = or_number r.verified_at r.created_at * 1000

-- `sort((a, b) => time(b) - time(a))`, which is stable
unfoldable pub insert_latest : ReportResponse → List ReportResponse → List ReportResponse
insert_latest r [] = r ∷ []
insert_latest r (x ∷ xs) =
    let rest = insert_latest r xs in
    if leb (report_time x) (report_time r) then r ∷ x ∷ xs else x ∷ rest

unfoldable pub sort_latest : List ReportResponse → List ReportResponse
sort_latest [] = []
sort_latest (r ∷ rs) = insert_latest r (sort_latest rs)

abbrev pub first_of : List ReportResponse → Option ReportResponse
first_of [] = none
first_of (r ∷ rs) = some r

unfoldable pub latest_verified : List ReportResponse → Option ReportResponse
latest_verified reports =
    first_of (sort_latest (filter (λ (r : ReportResponse). status_eq r.status verified) reports))

abbrev pub latest_of : Option (List ReportResponse) → Option ReportResponse
latest_of none = none
latest_of (some reports) = latest_verified reports

-- The verified reports met so far: for each provider the projects with their times.
abbrev pub ByProvider : Type 0
ByProvider = List (String × List (String × ℕ))

abbrev pub or_nil : Option (List (String × ℕ)) → List (String × ℕ)
or_nil none = []
or_nil (some entries) = entries

abbrev pub push_report : String → Option ReportResponse → ByProvider → ByProvider
push_report project none seen = seen
push_report project (some r) seen =
    if str_eq r.provider_address ""
    then seen
    else insert r.provider_address
        (or_nil (lookup r.provider_address seen) ++ (project, report_time r) ∷ []) seen

abbrev pub metric_of : Settings → ℕ → Project → Option ReportResponse → StalenessMetric
metric_of set now p none =
    build_project_metric p.id none p.created_at (cadence_for_methodology set p.methodology)
      (grace_seconds set) now
metric_of set now p (some r) =
    build_project_metric p.id (some r.provider_address) (report_time r)
      (cadence_for_methodology set p.methodology) (grace_seconds set) now

-- The loop over the projects; a project whose reports cannot be read counts from its creation.
unfoldable pub project_metrics :
    Settings
    → Env
    → ℕ
    → List Project
    → ByProvider
    → Oracle
    → Oracle × List StalenessMetric × ByProvider
project_metrics set env now [] seen o = (o, [], seen)
project_metrics set env now (p ∷ projects) seen o =
    let (o', reports) = get_project_reports env p.id o in
    let latest = latest_of reports in
    let (o'', metrics, seen') =
      project_metrics set env now projects (push_report p.id latest seen) o' in
    (o'', metric_of set now p latest ∷ metrics, seen')

-- `reduce` to the first entry with the latest time
abbrev pub latest_entry : String × ℕ → List (String × ℕ) → String × ℕ
latest_entry best [] = best
latest_entry best (e ∷ entries) = latest_entry (if ltb best.1 e.1 then e else best) entries

abbrev pub provider_metric :
    Settings → ℕ → String → List (String × ℕ) → List ProviderStalenessMetric
provider_metric set now provider [] = []
provider_metric set now provider (e ∷ entries) =
    let at = (latest_entry e entries).1 in
    let expected_next = at + (default_cadence_seconds + grace_seconds set) * 1000 in
    record {
      provider_address = provider;
      last_verified_at = at;
      expected_next_report_at = expected_next;
      staleness_seconds = (now - at) / 1000;
      is_stale = ltb expected_next now;
      project_ids = map (λ (entry : String × ℕ). entry.0) (e ∷ entries);
    }
    ∷ []

unfoldable pub aggregate_provider_staleness :
    Settings → ℕ → ByProvider → List ProviderStalenessMetric
aggregate_provider_staleness set now [] = []
aggregate_provider_staleness set now ((provider, entries) ∷ rest) =
    provider_metric set now provider entries ++ aggregate_provider_staleness set now rest

pub record StalenessReport : Type 0 where
  pub projects : List StalenessMetric
  pub providers : List ProviderStalenessMetric

unfoldable pub compute_staleness :
    Settings → Env → ℕ → List Project → Oracle → Oracle × StalenessReport
compute_staleness set env now projects o =
    let (o', metrics, seen) = project_metrics set env now projects [] o in
    (o', record { projects = metrics; providers = aggregate_provider_staleness set now seen })

abbrev pub project_input : ℕ → StalenessMetric → IncidentDetectionInput
project_input now m = record {
  subject_type = OracleIncidentSubjectType.project;
  subject_id = m.project_id;
  detected_at = now;
  details = record {
    last_verified_at = some m.last_verified_at;
    expected_next_report_at = some m.expected_next_report_at;
    staleness_seconds = some m.staleness_seconds;
    project_ids = none;
  };
}

abbrev pub provider_input : ℕ → ProviderStalenessMetric → IncidentDetectionInput
provider_input now m = record {
  subject_type = OracleIncidentSubjectType.provider;
  subject_id = m.provider_address;
  detected_at = now;
  details = record {
    last_verified_at = some m.last_verified_at;
    expected_next_report_at = some m.expected_next_report_at;
    staleness_seconds = some m.staleness_seconds;
    project_ids = some m.project_ids;
  };
}

unfoldable pub detections : ℕ → StalenessReport → List IncidentDetectionInput
detections now report =
    map (project_input now) (filter (λ (m : StalenessMetric). m.is_stale) report.projects)
    ++ map (provider_input now)
        (filter (λ (m : ProviderStalenessMetric). m.is_stale) report.providers)

pub record SyncSummary : Type 0 where
  pub created : ℕ
  pub updated : ℕ
  pub escalated : ℕ

abbrev pub one_if : Bool → ℕ
one_if true = 1
one_if false = 0

unfoldable pub tally : SyncSummary → IncidentDetectionResult → SyncSummary
tally s result = record {
  created = s.created + one_if result.is_new;
  updated = s.updated + (1 - one_if result.is_new);
  escalated = s.escalated + one_if result.escalated;
}

-- What the database brings to the nth detection: the identifier and the times of its two statements.
pub record Stamp : Type 0 where
  pub id : String
  pub now : ℕ
  pub later : ℕ

unfoldable pub record_all :
    List EscalationThreshold
    → (ℕ → Stamp)
    → ℕ
    → List IncidentDetectionInput
    → List OracleIncident
    → SyncSummary
    → List OracleIncident × SyncSummary
record_all th stamp n [] rows summary = (rows, summary)
record_all th stamp n (input ∷ inputs) rows summary =
    let at = stamp n in
    let (rows', result) = record_detection th input at.id at.now at.later rows in
    record_all th stamp (suc n) inputs rows' (tally summary result)

abbrev pub no_incidents : SyncSummary
no_incidents = record { created = 0; updated = 0; escalated = 0 }

unfoldable pub sync_incidents :
    Settings
    → List EscalationThreshold
    → Env
    → (ℕ → Stamp)
    → ℕ
    → List Project
    → Oracle
    → List OracleIncident
    → Oracle × List OracleIncident × SyncSummary
sync_incidents set th env stamp now projects o rows =
    let (o', report) = compute_staleness set env now projects o in
    let (rows', summary) = record_all th stamp 0 (detections now report) rows no_incidents in
    (o', rows', summary)
