-- ===== src/Oracle/Reports.antt =====
-- Reading reports in api/src/oracle/oracle.service.ts: the cache of a project's reports, its
-- challenged reports and its coupon eligibility. What the ledger answers to a read is given, with
-- `none` for a call that fails.
use eco_mint.Prelude.{
  ℕ, ◌+◌, String, Bool, true, false, not, ◌&&◌, ◌||◌, Option, none, some, List, [], ◌∷◌, ◌++◌, map,
  filter, any, length, ltb, nat_eq, str_eq, if◌then◌else◌, string_has_eq,
}
use eco_mint.Prelude.Dict.{lookup, insert}
use eco_mint.Nonce.{Counters}
use eco_mint.Oracle.Types.{
  ReportStatus, verified, challenged, rejected, status_eq, ReportResponse, RawReport, decode_report,
  ChallengeRecord, RawChallenge, decode_challenge_record, ProviderResponse,
}

-- The keys `reports:<project>` and `oracle:providers`, each with the time at which Redis drops it,
-- and the nonce counters.
pub record Oracle : Type 0 where
  pub reports : List (String × (List ReportResponse × ℕ))
  pub providers : Option (List ProviderResponse × ℕ)
  pub nonces : Counters

-- A provider as the ledger has it.
pub record RawProvider : Type 0 where
  pub address : String
  pub methodology : String
  pub active : Bool
  pub registered_at : ℕ

pub record Env : Type 0 where
  pub redis_up : Bool
  pub now : ℕ  -- seconds
  pub oracle_consumer : String
  pub get_project_reports : String → Option (List ℕ)
  pub get_report : ℕ → Option RawReport
  pub get_challenge_history : String → Option (List RawChallenge)
  pub get_provider : String → Option RawProvider
  pub list_providers : Option (List String)

-- What `get` still finds, while Redis answers.
abbrev pub cached : {A : Type 0} → Env → Option (A × ℕ) → Option A
cached env none = none
cached env (some (a, expiry)) = if env.redis_up && ltb env.now expiry then some a else none

unfoldable pub get_report : Env → ℕ → Option ReportResponse
get_report env id = elim (env.get_report id) [ none ↦ none | some raw ↦ some (decode_report raw) ]

abbrev pub push_readable : Option ReportResponse → List ReportResponse → List ReportResponse
push_readable none rest = rest
push_readable (some r) rest = r ∷ rest

-- A report that cannot be read is skipped.
unfoldable pub read_reports : Env → List ℕ → List ReportResponse
read_reports env [] = []
read_reports env (id ∷ ids) = push_readable (get_report env id) (read_reports env ids)

abbrev pub store_reports : Env → String → List ReportResponse → Oracle → Oracle
store_reports env project reports o =
    if env.redis_up
    then record o { reports = insert project (reports, env.now + 60) o.reports }
    else o

abbrev pub fetch_reports :
    Env → String → Oracle → Option (List ℕ) → Oracle × Option (List ReportResponse)
fetch_reports env project o none = (o, none)
fetch_reports env project o (some ids) =
    let reports = read_reports env ids in (store_reports env project reports o, some reports)

unfoldable pub get_project_reports : Env → String → Oracle → Oracle × Option (List ReportResponse)
get_project_reports env project o = elim (cached env (lookup project o.reports)) [
  | some reports ↦ (o, some reports)
  | none ↦ fetch_reports env project o (env.get_project_reports project)
]

unfoldable pub get_challenge_history : Env → String → Option (List ChallengeRecord)
get_challenge_history env provider = elim (env.get_challenge_history provider) [
  | none ↦ none
  | some raws ↦ some (map decode_challenge_record raws)
]

pub record ChallengeState : Type 0 where
  pub report_id : ℕ
  pub status : ReportStatus
  pub is_challenged : Bool
  pub challenges : List ChallengeRecord

abbrev pub of_report : ℕ → List ChallengeRecord → List ChallengeRecord
of_report id challenges = filter (λ (c : ChallengeRecord). nat_eq c.report_id id) challenges

abbrev pub challenge_state :
    ℕ → ReportResponse → Option (List ChallengeRecord) → Option ChallengeState
challenge_state id r none = none
challenge_state id r (some challenges) = some (record {
  report_id = id;
  status = r.status;
  is_challenged = status_eq r.status challenged;
  challenges = of_report id challenges;
})

unfoldable pub get_report_challenge_state : Env → ℕ → Option ChallengeState
get_report_challenge_state env id = elim (get_report env id) [
  | none ↦ none
  | some r ↦ challenge_state id r (get_challenge_history env r.provider_address)
]

-- A reason, in the place of its text.
pub data Reason : Type 0 where
  no_verified_report : Reason
  reports_blocked : (count : ℕ) → Reason
  overlapping_periods : Reason
  not_eligible : Reason

pub record CouponEligibility : Type 0 where
  pub project_id : String
  pub eligible : Bool
  pub reasons : List Reason
  pub blocked_by_report_ids : List ℕ

abbrev pub is_blocking : ReportResponse → Bool
is_blocking r = status_eq r.status challenged || status_eq r.status rejected

unfoldable pub conflicts_with : ReportResponse → ReportResponse → Bool
conflicts_with left right =
    str_eq left.provider_address right.provider_address
    && (str_eq left.methodology right.methodology
        && (ltb left.period_start right.period_end && ltb right.period_start left.period_end))

-- `Set.prototype.add` on a set kept in insertion order
unfoldable pub add_id : ℕ → List ℕ → List ℕ
add_id id ids = if any (nat_eq id) ids then ids else ids ++ id ∷ []

-- The inner loop, over the reports after `left`.
unfoldable pub add_conflicts : ReportResponse → List ReportResponse → List ℕ → List ℕ
add_conflicts left [] ids = ids
add_conflicts left (right ∷ rest) ids =
    add_conflicts left rest
      (if conflicts_with left right then add_id right.id (add_id left.id ids) else ids)

unfoldable pub conflicting_ids : List ReportResponse → List ℕ → List ℕ
conflicting_ids [] ids = ids
conflicting_ids (left ∷ rest) ids = conflicting_ids rest (add_conflicts left rest ids)

abbrev pub is_empty {ℓ} : {A : Type ℓ} → List A → Bool
is_empty [] = true
is_empty (x ∷ xs) = false

abbrev pub when {ℓ} : {A : Type ℓ} → Bool → List A → List A
when test xs = if test then xs else []

abbrev pub report_ids : List ReportResponse → List ℕ
report_ids reports = map (λ (r : ReportResponse). r.id) reports

-- The answer from what the three checks found.
abbrev pub coupon_answer : String → Bool → List ℕ → List ℕ → CouponEligibility
coupon_answer project has_verified blocking conflicting =
    let eligible = has_verified && (is_empty blocking && is_empty conflicting) in
    let reasons =
      when (not has_verified) (no_verified_report ∷ [])
      ++ (when (not (is_empty blocking)) (reports_blocked (length blocking) ∷ [])
          ++ when (not (is_empty conflicting)) (overlapping_periods ∷ [])) in
    record {
      project_id = project;
      eligible = eligible;
      reasons = reasons ++ when (not eligible && is_empty reasons) (not_eligible ∷ []);
      blocked_by_report_ids = blocking ++ conflicting;
    }

unfoldable pub coupon_eligibility : String → List ReportResponse → CouponEligibility
coupon_eligibility project reports =
    coupon_answer project (any (λ (r : ReportResponse). status_eq r.status verified) reports)
      (report_ids (filter is_blocking reports)) (conflicting_ids reports [])

unfoldable pub get_coupon_eligibility : Env → String → Oracle → Oracle × Option CouponEligibility
get_coupon_eligibility env project o =
    let (o', reports) = get_project_reports env project o in
    (o', elim reports [ none ↦ none | some rs ↦ some (coupon_eligibility project rs) ])
