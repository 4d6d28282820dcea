-- ===== src/Oracle/Submission.antt =====
-- Which reports reach the contract, with which evidence and nonce.
use eco_mint.Prelude.{
  ℕ, ◌<◌, ◌*◌, ◌^◌, String, true, false, Option, none, some, ◌≡◌, pair_has_eq, string_has_eq,
}
use eco_mint.Prelude.Dict.{lookup}
use eco_mint.Nonce.{count_or_zero}
use eco_mint.Incident.Repository.{units}
use eco_mint.Oracle.Manifest.{EvidenceManifest, Crypto, default_manifest_secret, millis}
use eco_mint.Oracle.Reports.{Oracle, Env}
use eco_mint.Oracle.Calls.{
  ReportNumbers, Invocation, submit_report, SubmitReportDto, Services, evidence_reference,
  is_unretrievable,
}

-- A manifest that the schema takes, signed with the default secret, with the values submitted.
pub record IsMatching (crypto : Crypto) (dto : SubmitReportDto) (m : EvidenceManifest)
    : Type 0 where
  pub schema : crypto.schema_ok m ≡ true
  pub signed : m.signature ≡ crypto.sign_evidence default_manifest_secret m.unsigned
  pub project : m.project_id ≡ dto.project_id
  pub methodology : m.methodology ≡ dto.methodology
  pub starts : m.period_start ≡ crypto.iso_date (millis dto.period_start)
  pub ends : m.period_end ≡ crypto.iso_date (millis dto.period_end)
  pub carbon : m.carbon_sequestered ≡ dto.carbon_sequestered

abbrev pub IsAttested : Crypto → SubmitReportDto → Option EvidenceManifest → Type 0
IsAttested crypto dto none = Unit {0}
IsAttested crypto dto (some m) = IsMatching crypto dto m

abbrev pub counter : Env → String → Oracle → ℕ
counter env address o = count_or_zero (lookup (env.oracle_consumer, address) o.nonces)

abbrev pub call_of : Services → SubmitReportDto → ReportNumbers → String → String → ℕ → Invocation
call_of svc dto k provider evidence nonce =
    submit_report provider (svc.to_bytes32 dto.project_id) k.period_start k.period_end
      k.carbon_sequestered dto.methodology evidence nonce

-- The numbers of the request are whole, as many units, and fit the contract's types.
pub record AreWhole (dto : SubmitReportDto) (k : ReportNumbers) : Type 0 where
  pub starts : (dto.period_start ≡ k.period_start * units) × (k.period_start < 2 ^ 64)
  pub ends : (dto.period_end ≡ k.period_end * units) × (k.period_end < 2 ^ 64)
  pub carbon :
      (dto.carbon_sequestered ≡ k.carbon_sequestered * units) × (k.carbon_sequestered < 2 ^ 127)

-- What a report needs to reach the contract, and the call that it becomes.
pub record IsSubmitted (env : Env) (svc : Services) (dto : SubmitReportDto) (provider : String)
    (o : Oracle) (call : Invocation) : Type 0 where
  pub attested : IsAttested svc.crypto dto dto.manifest
  pub pinned : String
  pub uploaded : svc.ipfs_hash ≡ some pinned
  pub retrievable : is_unretrievable svc dto.evidence_hash ≡ false
  pub redis : env.redis_up ≡ true
  pub evidence : String
  pub numbers : ReportNumbers
  pub whole : AreWhole dto numbers
  pub encoded : svc.encode_cid (evidence_reference dto.evidence_hash pinned) ≡ some evidence
  pub called : call ≡ call_of svc dto numbers provider evidence (counter env provider o)

-- The arguments of the call and the call itself.
abbrev pub IsSent :
    Services
    → SubmitReportDto
    → String
    → Option ReportNumbers
    → Option String
    → ℕ
    → Invocation
    → Type 0
IsSent svc dto provider nums encoded n call =
    (evidence : String) × ((k : ReportNumbers) × ((encoded ≡ some evidence)
        × ((nums ≡ some k) × (call ≡ call_of svc dto k provider evidence n))))
