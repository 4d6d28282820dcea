-- ===== src/Oracle/Manifest.antt =====
-- api/src/oracle/manifest-verification.ts. The zod schema, the HMAC of the canonical JSON and the ISO
-- date of a time in milliseconds are given.
use eco_mint.Prelude.{ℕ, ◌*◌, String, Bool, not, ltb, nat_eq, str_eq, if◌then◌else◌}
use eco_mint.Incident.Repository.{units}

-- The fields that the checks compare, the carbon in units of 2^-1074 as in the request; `unsigned` stands for the payload without its signature.
pub record EvidenceManifest : Type 0 where
  pub project_id : String
  pub methodology : String
  pub period_start : String
  pub period_end : String
  pub carbon_sequestered : ℕ
  pub unsigned : String
  pub signature : String

pub record Crypto : Type 0 where
  pub schema_ok : EvidenceManifest → Bool
  -- of the secret and the payload
  pub sign_evidence : String → String → String
  -- of milliseconds, in units
  pub iso_date : ℕ → String

-- The values of the submission that a manifest is held against, with its dates as numbers, in units.
pub record ReportValues : Type 0 where
  pub project_id : String
  pub methodology : String
  pub period_start : ℕ
  pub period_end : ℕ
  pub carbon_sequestered : ℕ

pub data Verification : Type 0 where
  valid schema_failed signature_failed project_mismatch methodology_mismatch start_mismatch
        end_mismatch carbon_mismatch :
      Verification

abbrev pub default_manifest_secret : String
default_manifest_secret = "ecomint-oracle-provider-secret-key"

unfoldable pub verify_manifest : Crypto → String → EvidenceManifest → Verification
verify_manifest crypto expected_secret m =
    if not (crypto.schema_ok m)
    then schema_failed
    else if not (str_eq m.signature (crypto.sign_evidence expected_secret m.unsigned))
    then signature_failed
    else valid

-- A number below 1e11 is taken for seconds. The product is exact here; JavaScript rounds it where the
-- number has a fraction.
abbrev pub millis : ℕ → ℕ
millis t = t * (if ltb t (100000000000 * units) then 1000 else 1)

unfoldable pub verify_manifest_matches_report :
    Crypto → EvidenceManifest → ReportValues → Verification
verify_manifest_matches_report crypto m report =
    if not (str_eq m.project_id report.project_id)
    then project_mismatch
    else if not (str_eq m.methodology report.methodology)
    then methodology_mismatch
    else if not (str_eq m.period_start (crypto.iso_date (millis report.period_start)))
    then start_mismatch
    else if not (str_eq m.period_end (crypto.iso_date (millis report.period_end)))
    then end_mismatch
    else if not (nat_eq m.carbon_sequestered report.carbon_sequestered)
    then carbon_mismatch
    else valid
