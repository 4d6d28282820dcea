-- ===== src/Bonds/Export.antt =====
-- The export of a bond for auditors in api/src/bonds/bonds.service.ts, with its checksum.
use eco_mint.Prelude.{
  ℕ, suc, zero, String, Bool, false, Option, none, some, List, [], ◌∷◌, nat_eq, str_eq,
  if◌then◌else◌,
}
use eco_mint.Holders.Index.{HolderWithBalance}
use eco_mint.Bonds.Types.{
  NativeStatus, named, numbered, RawConfig, RawState, RetirementRecord, PeriodInfo,
}
use eco_mint.Bonds.Reads.{Bonds, Env, get_holders, retirements_from, total_or_zero}

-- The values that the export writes.
mutual
  pub data Json : Type 0 where
    number : ℕ → Json
    text : String → Json
    status : NativeStatus → Json
    array : Items → Json
    object : Fields → Json

  pub data Items : Type 0 where
    nil : Items
    cons : Json → Items → Items

  pub data Fields : Type 0 where
    end : Fields
    field : String → Json → Fields → Fields

-- What is used of JavaScript: the decimal text of a bigint, the ISO text of a time in seconds, `Number`
-- of a text (`none` for NaN), and the SHA-256 of the text that `JSON.stringify` gives for a value.
pub record Texts : Type 0 where
  pub decimal : ℕ → String
  pub iso : ℕ → String
  pub number_of : String → Option ℕ
  pub sha256 : Json → String

-- The property of a name, put before `rest` where the object has it.
abbrev pub pick_one : String → Fields → Fields → Fields
pick_one name end rest = rest
pick_one name (field key x fields) rest =
    let later = pick_one name fields rest in if str_eq key name then field key x rest else later

-- The properties with one of the names, in the order of the names.
abbrev pub pick : List String → Fields → Fields
pick [] fields = end
pick (name ∷ names) fields = pick_one name fields (pick names fields)

-- What `JSON.stringify` writes of a value when its second argument is a list of names: the properties
-- with these names of every object, at every depth, and every element of an array.
unfoldable mutual
  pub allow : List String → Json → Json
  allow names (number n) = number n
  allow names (text s) = text s
  allow names (status s) = status s
  allow names (array xs) = array (allow_items names xs)
  allow names (object fields) = object (pick names (allow_fields names fields))

  pub allow_items : List String → Items → Items
  allow_items names nil = nil
  allow_items names (cons x xs) = cons (allow names x) (allow_items names xs)

  pub allow_fields : List String → Fields → Fields
  allow_fields names end = end
  allow_fields names (field key x fields) = field key (allow names x) (allow_fields names fields)

abbrev pub items : {A : Type 0} → (A → Json) → List A → Items
items f [] = nil
items f (x ∷ xs) = cons (f x) (items f xs)

abbrev pub numbers : List ℕ → Json
numbers xs = array (items number xs)

pub record Payload : Type 0 where
  pub id : ℕ
  pub config : RawConfig
  pub state : RawState
  pub holders : List HolderWithBalance
  pub distributions : List PeriodInfo
  pub retirements : List RetirementRecord
  pub generated_at : ℕ
  pub exporter : String

-- `Number(state[1]) === 1`
abbrev pub is_one : Option ℕ → Bool
is_one none = false
is_one (some n) = nat_eq n 1

abbrev pub exported_matured : Texts → NativeStatus → Bool
exported_matured t (named s) = is_one (t.number_of s)
exported_matured t (numbered n) = nat_eq n 1

abbrev pub event : String → String → Fields → Json
event name at details =
    object (
      field "event" (text name)
        (field "timestamp" (text at) (field "details" (object details) end)))

unfoldable pub lifecycle_events : Texts → RawConfig → RawState → List Json
lifecycle_events t config state =
    event "ISSUED" (t.iso state.created_at)
      (field "totalSupply" (text (t.decimal config.total_supply)) end)
    ∷ (if exported_matured t state.status
        then event "MATURED" (t.iso config.maturity_date) end ∷ []
        else [])

abbrev pub bond_json : Texts → ℕ → RawConfig → RawState → Json
bond_json t id config state = object (
    field "id" (number id) (
      field "projectRegistryId" (text config.project_id) (
        field "faceValue" (text (t.decimal config.face_value)) (
          field "couponSchedule" (numbers config.coupon_schedule) (
            field "creditType" (text config.credit_type) (
              field "maturityDate" (number config.maturity_date) (
                field "totalSupply" (text (t.decimal config.total_supply)) (
                  field "totalSubscribed" (text (t.decimal state.total_subscribed)) (
                    field "status" (status state.status)
                      (field "createdAt" (text (t.iso state.created_at)) end))))))))))

abbrev pub holder_json : Texts → HolderWithBalance → Json
holder_json t h =
    object (field "address" (text h.address) (field "balance" (text (t.decimal h.balance)) end))

abbrev pub distribution_json : Texts → PeriodInfo → Json
distribution_json t p = object (
    field "periodIndex" (number p.period_index) (
      field "startTime" (number p.start_time) (
        field "endTime" (number p.end_time) (
          field "totalCreditsEarned" (text (t.decimal p.total_credits_earned)) (
            field "reportId" (number p.report_id)
              (field "undistributed" (text (t.decimal p.undistributed)) end))))))

abbrev pub retirement_json : Texts → RetirementRecord → Json
retirement_json t r = object (
    field "id" (number r.id) (
      field "holder" (text r.holder) (
        field "amount" (text (t.decimal r.amount)) (
          field "creditType" (text r.credit_type) (
            field "retiredAt" (number r.retired_at)
              (field "certificateIpfsHash" (text r.certificate_ipfs_hash) end))))))

abbrev pub metadata_json : Texts → ℕ → String → Json
metadata_json t at exporter = object (
    field "timestamp" (text (t.iso at))
      (field "exporterAddress" (text exporter) (field "version" (text "1.0.0") end)))

unfoldable pub payload_json : Texts → Payload → Json
payload_json t p = object (
    field "generationMetadata" (metadata_json t p.generated_at p.exporter) (
      field "bond" (bond_json t p.id p.config p.state) (
        field "lifecycleEvents" (array (items (λ x. x) (lifecycle_events t p.config p.state))) (
          field "holders" (array (items (holder_json t) p.holders)) (
            field "couponDistributions" (array (items (distribution_json t) p.distributions))
              (field "retirements" (array (items (retirement_json t) p.retirements)) end))))))

-- `Object.keys(payload).sort()`
abbrev pub sorted_keys : List String
sorted_keys =
    "bond" ∷ "couponDistributions" ∷ "generationMetadata" ∷ "holders" ∷ "lifecycleEvents"
    ∷ "retirements" ∷ []

unfoldable pub checksum : Texts → Payload → String
checksum t p = t.sha256 (allow sorted_keys (payload_json t p))

-- The periods of the schedule that can be read and are distributed.
unfoldable pub distributions_from : Env → ℕ → ℕ → ℕ → List PeriodInfo
distributions_from env id period zero = []
distributions_from env id period (suc left) =
    let rest = distributions_from env id (suc period) left in
    elim (env.chain.get_period_info id period) [
      | none ↦ rest
      | some p ↦ if p.distributed then p ∷ rest else rest
    ]

abbrev pub count : List ℕ → ℕ
count [] = 0
count (x ∷ xs) = suc (count xs)

-- `auditorAddress || 'system'`
abbrev pub exporter_of : String → String
exporter_of auditor = if str_eq auditor "" then "system" else auditor

abbrev pub exported :
    Env → ℕ → String → Bonds → Option RawConfig → Option RawState → Bonds × Option Payload
exported env id auditor s (some config) (some state) =
    let (s', holders) = get_holders env id s in
    (
      s',
      some (record {
        id = id;
        config = config;
        state = state;
        holders = holders;
        distributions = distributions_from env id 0 (count config.coupon_schedule);
        retirements =
            retirements_from env (λ r. nat_eq r.bond_id id) 1
              (total_or_zero env.chain.total_retirements);
        generated_at = env.now;
        exporter = exporter_of auditor;
      }),
    )
exported env id auditor s _ _ = (s, none)

-- The payload, whose checksum is `checksum`.
unfoldable pub export_bond : Env → ℕ → String → Bonds → Bonds × Option Payload
export_bond env id auditor s =
    exported env id auditor s (env.chain.get_bond id) (env.chain.get_bond_state id)
