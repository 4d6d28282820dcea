-- ===== src/Oracle/Calls.antt =====
-- The calls of api/src/oracle/oracle.service.ts that sign a transaction. The ledger, IPFS, the gateway
-- and the hash functions are given, and so is the contract's reply.
use eco_mint.Prelude.{
  ℕ, ◌+◌, ◌/◌, ◌%◌, ◌^◌, ltb, nat_eq, String, Bool, true, false, not, ◌&&◌, Option, none, some,
  List, [], ◌∷◌, any, str_eq, if◌then◌else◌, string_has_eq,
}
use eco_mint.Prelude.Dict.{remove}
use eco_mint.Nonce.{Counters, next}
use eco_mint.Incident.Repository.{units}
use eco_mint.Oracle.Types.{pending, ReportResponse, ProviderResponse}
use eco_mint.Oracle.Manifest.{
  EvidenceManifest, Crypto, Verification, valid, verify_manifest, verify_manifest_matches_report,
  default_manifest_secret,
}
use eco_mint.Oracle.Reports.{Oracle, Env, RawProvider, cached}

pub data Invocation : Type 0 where
  submit_report :
      (provider project : String) (period_start period_end carbon_sequestered : ℕ)
      (methodology evidence : String) (nonce : ℕ)
      → Invocation
  challenge_report :
      (challenger : String) (report_id : ℕ) (evidence : String) (nonce : ℕ) → Invocation
  register_provider : (admin provider methodology : String) (nonce : ℕ) → Invocation

pub data OracleError : Type 0 where
  unprocessable bad_request conflict service_unavailable invalid_evidence invalid_number
        upload_failed contract_failed :
      OracleError

pub data Response (A : Type 0) : Type 0 where
  throws : OracleError → Response A
  returns : A → Response A

-- `evidence` are the bytes that the transaction anchors.
pub record Outcome (A : Type 0) : Type 0 where
  pub oracle : Oracle
  pub invoked : Option Invocation
  pub response : Response A

-- The numbers are any that are not negative, in units of 2^-1074, whole or not.
pub record SubmitReportDto : Type 0 where
  pub project_id : String
  pub period_start : ℕ
  pub period_end : ℕ
  pub carbon_sequestered : ℕ
  pub methodology : String
  pub evidence_hash : Option String
  pub manifest : Option EvidenceManifest

-- What the calls use from outside: the pinning of the metadata (the hash, or no answer), whether the
-- gateway has the evidence, `toBytes32`, `encodeCid` and JavaScript's `trim().toUpperCase()`.
pub record Services : Type 0 where
  pub crypto : Crypto
  pub ipfs_hash : Option String
  pub verify_retrievability : Bool
  pub retrievable : String → Bool
  pub to_bytes32 : String → String
  pub encode_cid : String → Option String
  pub upper : String → String
  pub admin_address : String

abbrev pub refuse : {A : Type 0} → Oracle → OracleError → Outcome A
refuse o e = record { oracle = o; invoked = none; response = throws e }

abbrev pub is_valid : Verification → Bool
is_valid valid = true
is_valid v = false

-- `none` where the manifest is accepted or there is none.
unfoldable pub manifest_error :
    Crypto → SubmitReportDto → Option EvidenceManifest → Option OracleError
manifest_error crypto dto none = none
manifest_error crypto dto (some m) =
    if not (is_valid (verify_manifest crypto default_manifest_secret m))
    then some unprocessable
    else if not (
        is_valid (
          verify_manifest_matches_report crypto m (record {
            project_id = dto.project_id;
            methodology = dto.methodology;
            period_start = dto.period_start;
            period_end = dto.period_end;
            carbon_sequestered = dto.carbon_sequestered;
          })))
    then some bad_request
    else none

-- `dto.evidenceHash ?? ipfsResult.hash`
abbrev pub evidence_reference : Option String → String → String
evidence_reference none pinned = pinned
evidence_reference (some evidence) pinned = evidence

abbrev pub is_unretrievable : Services → Option String → Bool
is_unretrievable svc none = false
is_unretrievable svc (some evidence) = svc.verify_retrievability && not (svc.retrievable evidence)

abbrev pub drop_reports : Env → String → Oracle → Oracle
drop_reports env project o =
    if env.redis_up then record o { reports = remove project o.reports } else o

abbrev pub drop_providers : Env → Oracle → Oracle
drop_providers env o = if env.redis_up then record o { providers = none } else o

-- `nonceService.next`, and the rest of the call with the nonce.
abbrev pub counted :
    {A : Type 0} → Oracle → (ℕ → Oracle → Outcome A) → Counters × Option ℕ → Outcome A
counted o body (counters, none) = refuse o service_unavailable
counted o body (counters, some nonce) = body nonce (record o { nonces = counters })

unfoldable pub with_nonce :
    {A : Type 0} → Env → String → Oracle → (ℕ → Oracle → Outcome A) → Outcome A
with_nonce env address o body =
    counted o body (next env.redis_up env.oracle_consumer address o.nonces)

-- The numbers of a report, as the contract takes them.
pub record ReportNumbers : Type 0 where
  pub period_start : ℕ
  pub period_end : ℕ
  pub carbon_sequestered : ℕ

-- `nativeToScVal(BigInt(t), ...)` for a type that holds the numbers below `limit`; `none` is the error
-- at a fraction or of a number that does not fit.
unfoldable pub native_to_sc_val : ℕ → ℕ → Option ℕ
native_to_sc_val limit t =
    if nat_eq (t % units) 0 && ltb (t / units) limit then some (t / units) else none

-- As u64, u64 and i128.
abbrev pub all_numbers : Option ℕ → Option ℕ → Option ℕ → Option ReportNumbers
all_numbers (some start) (some finish) (some carbon) =
    some (record { period_start = start; period_end = finish; carbon_sequestered = carbon })
all_numbers start finish carbon = none

unfoldable pub numbers_of : SubmitReportDto → Option ReportNumbers
numbers_of dto =
    all_numbers (native_to_sc_val (2 ^ 64) dto.period_start)
      (native_to_sc_val (2 ^ 64) dto.period_end) (native_to_sc_val (2 ^ 127) dto.carbon_sequestered)

abbrev pub new_report : Env → SubmitReportDto → ReportNumbers → String → String → ℕ → ReportResponse
new_report env dto n provider pinned id = record {
  id = id;
  project_id = dto.project_id;
  period_start = n.period_start;
  period_end = n.period_end;
  carbon_sequestered = n.carbon_sequestered;
  methodology = dto.methodology;
  ipfs_hash = pinned;
  provider_address = provider;
  status = pending;
  created_at = env.now;
  verified_at = none;
  provider_stake_at_verification = none;
}

-- The call of the contract, which `reply` answers with the report's number or with an error.
unfoldable pub send_report :
    Env
    → Services
    → SubmitReportDto
    → String
    → String
    → Option ℕ
    → Option ReportNumbers
    → Option String
    → ℕ
    → Oracle
    → Outcome ReportResponse
send_report env svc dto provider pinned reply none encoded nonce o = refuse o invalid_number
send_report env svc dto provider pinned reply (some n) none nonce o = refuse o invalid_evidence
send_report env svc dto provider pinned reply (some n) (some evidence) nonce o =
    let call =
      submit_report provider (svc.to_bytes32 dto.project_id) n.period_start n.period_end
        n.carbon_sequestered dto.methodology evidence nonce in
    elim reply [
      | none ↦ record { oracle = o; invoked = some call; response = throws contract_failed }
      | some id ↦ record {
        oracle = drop_reports env dto.project_id o;
        invoked = some call;
        response = returns (new_report env dto n provider pinned id);
      }
    ]

unfoldable pub submit_pinned :
    Env
    → Services
    → SubmitReportDto
    → String
    → Option ℕ
    → Oracle
    → Option String
    → Outcome ReportResponse
submit_pinned env svc dto provider reply o none = refuse o upload_failed
submit_pinned env svc dto provider reply o (some pinned) =
    if is_unretrievable svc dto.evidence_hash
    then refuse o unprocessable
    else with_nonce env provider o (
        send_report env svc dto provider pinned reply (numbers_of dto)
          (svc.encode_cid (evidence_reference dto.evidence_hash pinned)))

unfoldable pub submit :
    Env → Services → SubmitReportDto → String → Option ℕ → Oracle → Outcome ReportResponse
submit env svc dto provider reply o = elim (manifest_error svc.crypto dto dto.manifest) [
  | some e ↦ refuse o e
  | none ↦ submit_pinned env svc dto provider reply o svc.ipfs_hash
]

unfoldable pub challenge_call :
    Env → Services → ℕ → String → String → Option (Unit {0}) → ℕ → Oracle → Outcome (Unit {0})
challenge_call env svc report_id counter_evidence challenger reply nonce o =
    let call = challenge_report challenger report_id (svc.to_bytes32 counter_evidence) nonce in
    elim reply [
      | none ↦ record { oracle = o; invoked = some call; response = throws contract_failed }
      | some _ ↦ record {
        oracle = drop_providers env o;
        invoked = some call;
        response = returns tt;
      }
    ]

-- The answer repeats the arguments, and is left out.
unfoldable pub challenge :
    Env → Services → ℕ → String → String → Option (Unit {0}) → Oracle → Outcome (Unit {0})
challenge env svc report_id counter_evidence challenger reply o =
    with_nonce env challenger o (challenge_call env svc report_id counter_evidence challenger reply)

abbrev pub supported_methodologies : List String
supported_methodologies = "VERRA-VCS" ∷ "BLUE-CARBON" ∷ "REMOTE-SENSING" ∷ []

unfoldable pub register_call :
    Env → Services → String → String → Option (Unit {0}) → ℕ → Oracle → Outcome ProviderResponse
register_call env svc provider methodology reply nonce o =
    let call = register_provider svc.admin_address provider methodology nonce in
    elim reply [
      | none ↦ record { oracle = o; invoked = some call; response = throws contract_failed }
      | some _ ↦ record {
        oracle = drop_providers env o;
        invoked = some call;
        response = returns (record {
          provider_address = provider;
          methodology = methodology;
          active = true;
          registered_at = env.now;
        });
      }
    ]

-- `findProvider`: a provider whose state cannot be read counts as new. An active and an inactive one
-- are refused alike, with other texts.
unfoldable pub register :
    Env → Services → String → String → Option (Unit {0}) → Oracle → Outcome ProviderResponse
register env svc provider methodology reply o =
    let upper = svc.upper methodology in
    if not (any (str_eq upper) supported_methodologies)
    then refuse o bad_request
    else elim (env.get_provider provider) [
      | some _ ↦ refuse o conflict
      | none ↦ with_nonce env svc.admin_address o (register_call env svc provider upper reply)
    ]

abbrev pub provider_response : RawProvider → ProviderResponse
provider_response raw = record {
  provider_address = raw.address;
  methodology = raw.methodology;
  active = raw.active;
  registered_at = raw.registered_at;
}

abbrev pub push_provider : Option RawProvider → List ProviderResponse → List ProviderResponse
push_provider none rest = rest
push_provider (some raw) rest = provider_response raw ∷ rest

unfoldable pub read_providers : Env → List String → List ProviderResponse
read_providers env [] = []
read_providers env (a ∷ addresses) =
    push_provider (env.get_provider a) (read_providers env addresses)

abbrev pub fetch_providers :
    Env → Oracle → Option (List String) → Oracle × Option (List ProviderResponse)
fetch_providers env o none = (o, none)
fetch_providers env o (some addresses) =
    let providers = read_providers env addresses in
    (
      (if env.redis_up then record o { providers = some (providers, env.now + 120) } else o),
      some providers,
    )

unfoldable pub list_providers : Env → Oracle → Oracle × Option (List ProviderResponse)
list_providers env o = elim (cached env o.providers) [
  | some providers ↦ (o, some providers)
  | none ↦ fetch_providers env o env.list_providers
]
