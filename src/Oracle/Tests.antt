-- ===== src/Oracle/Tests.antt =====
-- A small oracle, and the theorems at it.
use eco_mint.Prelude.{
  ℕ, ◌+◌, ◌*◌, true, false, none, some, [], ◌∷◌, Has, map, List, ◌≡◌, ◌↔◌, refl, str_eq, nat_eq,
  if◌then◌else◌, string_has_eq,
}
use eco_mint.Prelude.Dict.{lookup}
use eco_mint.Incident.Types.{OracleIncident, OracleIncidentSubjectType}
use eco_mint.Incident.Repository.{default_escalation_thresholds, units}
use eco_mint.Oracle.Monitoring.{
  Settings, Project, StalenessMetric, ProviderStalenessMetric, StalenessReport, Stamp,
  compute_staleness, sync_incidents, project_metrics, latest_verified, sort_latest, insert_latest,
  build_project_metric, cadence_for_methodology,
}
use eco_mint.Oracle.Alerts.{IsAlerted, sync_incidents-IsAlerted}
use eco_mint.Oracle.Types.{RawReport, decode_report}
use eco_mint.Oracle.Reports.{
  Oracle, Env, read_reports, get_report, coupon_eligibility, get_coupon_eligibility, add_conflicts,
  conflicting_ids, conflicts_with, get_project_reports,
}
use eco_mint.Oracle.Calls.{Services, SubmitReportDto, challenge}
use eco_mint.Oracle.Eligibility.{
  IsAnswered, IsPayable, get_coupon_eligibility-eligible_iff, challenge-keeps_eligibility,
}

abbrev raw : ℕ → ℕ → ℕ → RawReport
raw id from status = record {
  id = id;
  provider = "GP";
  project_id = "p";
  period_start = from;
  period_end = from + 10;
  carbon_sequestered = 5;
  methodology = "VERRA-VCS";
  ipfs_evidence_hash = "00";
  status = status;
  submitted_at = 3;
  verified_at = 4;
  provider_stake_at_verification = none;
}

abbrev ledger : Env
ledger = record {
  redis_up = true;
  now = 100;
  oracle_consumer = "CO";
  get_project_reports = λ p. if str_eq p "p" then some (1 ∷ 2 ∷ []) else none;
  get_report = λ id. if nat_eq id 1 then some (raw 1 20 1) else some (raw 2 40 0);
  get_challenge_history = λ a. some [];
  get_provider = λ a. none;
  list_providers = some [];
}

abbrev nothing : Oracle
nothing = record { reports = []; providers = none; nonces = [] }

abbrev holding : Oracle
holding = record nothing { reports = ("p", (read_reports ledger (1 ∷ 2 ∷ []), 160)) ∷ [] }

abbrev services : Services
services = record {
  crypto = record {
    schema_ok = λ m. true;
    sign_evidence = λ secret payload. payload;
    iso_date = λ t. "1970-01-01";
  };
  ipfs_hash = some "Qm";
  verify_retrievability = false;
  retrievable = λ e. false;
  to_bytes32 = λ s. s;
  encode_cid = λ s. some s;
  upper = λ s. s;
  admin_address = "GA";
}

abbrev dto : SubmitReportDto
dto = record {
  project_id = "p";
  period_start = 50 * units;
  period_end = 60 * units;
  carbon_sequestered = 7 * units;
  methodology = "VERRA-VCS";
  evidence_hash = none;
  manifest = some (record {
    project_id = "p";
    methodology = "VERRA-VCS";
    period_start = "1970-01-01";
    period_end = "1970-01-01";
    carbon_sequestered = 7 * units;
    unsigned = "u";
    signature = "u";
  });
}

get_coupon_eligibility-eligible_iff_example : IsAnswered ledger "p" nothing (λ e.
    ((e.eligible ≡ true) ↔ IsPayable (read_reports ledger (1 ∷ 2 ∷ [])))
    × ((e.eligible ≡ true) ↔ (e.reasons ≡ [])))
unfolding lookup
get_coupon_eligibility-eligible_iff_example =
    get_coupon_eligibility-eligible_iff ledger "p" nothing (1 ∷ 2 ∷ []) refl refl

two_reports_pay : (coupon_eligibility "p" (read_reports ledger (1 ∷ 2 ∷ []))).eligible ≡ true
unfolding coupon_eligibility read_reports get_report decode_report conflicting_ids add_conflicts
    conflicts_with
two_reports_pay = refl

challenge-keeps_eligibility_example :
    (get_coupon_eligibility ledger "p"
      (challenge ledger services 1 "ff" "GC" (some tt) holding).oracle).1
    ≡ some (coupon_eligibility "p" (read_reports ledger (1 ∷ 2 ∷ [])))
unfolding lookup
challenge-keeps_eligibility_example =
    challenge-keeps_eligibility ledger ledger services 1 "ff" "GC" "p" (some tt) holding
      (read_reports ledger (1 ∷ 2 ∷ [])) refl

abbrev settings : Settings
settings = record { is_remote = λ m. false; is_sensor = λ m. false; cadence = none; grace = none }

abbrev watched : List Project
watched = record { id = "p"; methodology = "VERRA-VCS"; created_at = 0 } ∷ []

abbrev stamps : ℕ → Stamp
stamps n = record { id = "i"; now = 1; later = 2 }

-- Two years on, when the last verified report is from the first seconds.
abbrev late_report : StalenessReport
late_report = (compute_staleness settings ledger 63072000000 watched nothing).1

abbrev after_sync : List OracleIncident
after_sync =
    (sync_incidents settings default_escalation_thresholds ledger stamps 63072000000 watched nothing
      []).1

sync_incidents-IsAlerted_example :
    ((m : StalenessMetric)
      → Has m late_report.projects
      → m.is_stale ≡ true
      → IsAlerted OracleIncidentSubjectType.project m.project_id after_sync)
    × ((m : ProviderStalenessMetric)
        → Has m late_report.providers
        → m.is_stale ≡ true
        → IsAlerted OracleIncidentSubjectType.provider m.provider_address after_sync)
sync_incidents-IsAlerted_example =
    sync_incidents-IsAlerted settings default_escalation_thresholds ledger stamps 63072000000
      watched nothing []

project_is_stale : map (λ (m : StalenessMetric). m.is_stale) late_report.projects ≡ true ∷ []
unfolding compute_staleness project_metrics get_project_reports read_reports get_report
    decode_report lookup latest_verified sort_latest insert_latest build_project_metric
    cadence_for_methodology
project_is_stale = refl
