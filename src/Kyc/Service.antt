-- ===== src/Kyc/Service.antt =====
-- api/src/auth/kyc.service.ts and api/src/common/guards/kyc.guard.ts: the store behind a Redis
-- cache of records, expiry, and who is eligible.
use eco_mint.Prelude.{
  ℕ, String, Bool, true, false, ◌&&◌, ◌||◌, Option, none, some, List, leb, map, is_some,
  string_has_eq, if◌then◌else◌,
}
use eco_mint.Prelude.Dict.{lookup, insert, remove}
use eco_mint.Kyc.Types.{KycStatus, KycStatusSource, KycRecord, status_eq}
use eco_mint.Kyc.Store.{KycStore, Writes, TransitionInput, TransitionResult, apply_transition}

pub record KycService : Type 0 where
  pub store : KycStore
  -- the Redis keys `kyc:<address>`
  pub cache : List (String × KycRecord)

-- What the surroundings give to one call: the clock, a random identifier, the file system, and
-- whether Redis answers. Where it does not, a read gives null and a write is dropped.
pub record Call : Type 0 where
  pub now : ℕ
  pub id : String
  pub writes : Writes
  pub redis_up : Bool

pub record TransitionOptions : Type 0 where
  pub source : KycStatusSource
  pub actor : Option String
  pub reason : Option String
  pub provider_reference : Option String
  pub expires_at : Option ℕ

-- `STATUS_ORDER.indexOf`
abbrev pub status_order : KycStatus → ℕ
status_order KycStatus.none = 0
status_order KycStatus.pending = 1
status_order KycStatus.rejected = 2
status_order KycStatus.expired = 3
status_order KycStatus.verified = 4
status_order KycStatus.accredited = 5

abbrev pub in_eligible_set : KycStatus → Bool
in_eligible_set KycStatus.verified = true
in_eligible_set KycStatus.accredited = true
in_eligible_set _ = false

abbrev pub compare_status : KycStatus → KycStatus → Bool
compare_status actual required = leb (status_order required) (status_order actual)

abbrev pub is_expired_at : Option ℕ → ℕ → Bool
is_expired_at none now = false
is_expired_at (some t) now = leb t now

unfoldable pub resolve_effective_status : KycRecord → ℕ → KycStatus
resolve_effective_status r now =
    if is_expired_at r.expires_at now && in_eligible_set r.status
    then KycStatus.expired
    else r.status

unfoldable pub write_through_cache :
    Bool → KycRecord → List (String × KycRecord) → List (String × KycRecord)
write_through_cache up r cache = if up then insert r.address r cache else cache

unfoldable pub invalidate_cache :
    Bool → String → List (String × KycRecord) → List (String × KycRecord)
invalidate_cache up a cache = if up then remove a cache else cache

abbrev pub input_of : String → KycStatus → TransitionOptions → TransitionInput
input_of a to opts = record {
  address = a;
  to_status = to;
  source = opts.source;
  actor = opts.actor;
  reason = opts.reason;
  provider_reference = opts.provider_reference;
  expires_at = opts.expires_at;
}

-- The cache is refreshed if the store changed: `result.isNew || result.entry.id`.
abbrev pub changes_record : TransitionResult → Bool
changes_record result = result.is_new || is_some result.entry

unfoldable pub publish :
    Bool → String → List (String × KycRecord) → TransitionResult → List (String × KycRecord)
publish up a cache result =
    if changes_record result
    then write_through_cache up result.record_of (invalidate_cache up a cache)
    else cache

unfoldable pub transition_status :
    String → KycStatus → TransitionOptions → Call → KycService → KycService × TransitionResult
transition_status a to opts c s =
    let applied = apply_transition (input_of a to opts) c.id c.now c.writes s.store in
    (record { store = applied.0; cache = publish c.redis_up a s.cache applied.1 }, applied.1)

abbrev pub initial_options : TransitionOptions
initial_options = record {
  source = KycStatusSource.system;
  actor = none;
  reason = some "Initial KYC record created on first lookup";
  provider_reference = none;
  expires_at = none;
}

-- the part of `getRecord` behind the cache
unfoldable pub get_stored : String → Call → KycService → KycService × KycRecord
get_stored a c s = elim (lookup a s.store.records) [
  | some r ↦ (record s { cache = write_through_cache c.redis_up r s.cache }, r)
  | none ↦
      let (s', result) = transition_status a KycStatus.pending initial_options c s in
      (s', result.record_of)
]

abbrev pub cached_record : Bool → String → KycService → Option KycRecord
cached_record up a s = if up then lookup a s.cache else none

unfoldable pub get_record : String → Call → KycService → KycService × KycRecord
get_record a c s = elim (cached_record c.redis_up a s) [ some r ↦ (s, r) | none ↦ get_stored a c s ]

unfoldable pub get_status : String → Call → KycService → KycService × KycStatus
get_status a c s = let (s', r) = get_record a c s in (s', resolve_effective_status r c.now)

-- `message` is the text of the reason, which shows the time of expiry.
unfoldable pub get_full_status :
    (Option ℕ → String) → String → Call → KycService → KycService × KycRecord
get_full_status message a c s =
    let (s', r) = get_record a c s in
    if status_eq (resolve_effective_status r c.now) r.status
    then (s', r)
    else (let (s'', result) =
          transition_status a KycStatus.expired
            (record {
              source = KycStatusSource.system;
              actor = none;
              reason = some (message r.expires_at);
              provider_reference = none;
              expires_at = r.expires_at;
            })
            c s' in
        (s'', result.record_of))

unfoldable pub list_all : ℕ → KycService → List KycRecord
list_all now s =
    map (λ e. record (e.1) { status = resolve_effective_status e.1 now }) s.store.records

pub update_status : String → KycStatus → Call → KycService → KycService
update_status a status c s =
    (transition_status a status
      (record {
        source = KycStatusSource.admin;
        actor = none;
        reason = none;
        provider_reference = none;
        expires_at = none;
      })
      c s).0

unfoldable pub reject :
    String → String → Option String → Option String → Call → KycService → KycService × KycRecord
reject a reason actor provider_reference c s =
    let (s', result) =
      transition_status a KycStatus.rejected
        (record {
          source = KycStatusSource.admin;
          actor = actor;
          reason = some reason;
          provider_reference = provider_reference;
          expires_at = none;
        })
        c s in
    (s', result.record_of)

pub record VerifyOptions : Type 0 where
  pub actor : Option String
  pub reason : Option String
  pub provider_reference : Option String
  pub expires_at : Option ℕ
  pub accredited : Bool

abbrev pub reason_or : Option String → String → String
reason_or none d = d
reason_or (some r) d = r

unfoldable pub verify : String → VerifyOptions → Call → KycService → KycService × KycRecord
verify a opts c s =
    let (s', result) =
      transition_status a (if opts.accredited then KycStatus.accredited else KycStatus.verified)
        (record {
          source = KycStatusSource.provider;
          actor = opts.actor;
          reason = some (reason_or opts.reason "KYC verification completed");
          provider_reference = opts.provider_reference;
          expires_at = opts.expires_at;
        })
        c s in
    (s', result.record_of)

unfoldable pub is_eligible : String → KycStatus → Call → KycService → KycService × Bool
is_eligible a required c s =
    let (s', actual) = get_status a c s in (s', compare_status actual required)

unfoldable pub is_eligible_record :
    (Option ℕ → String) → String → KycStatus → Call → KycService → KycService × Bool × KycRecord
is_eligible_record message a required c s =
    let (s', r) = get_full_status message a c s in (s', compare_status r.status required, r)

pub data GuardOutcome : Type 0 where
  -- the status that the request carries on
  passes : KycStatus → GuardOutcome
  authentication_required verification_expired verification_rejected verification_required :
      GuardOutcome

abbrev pub refusal_of : KycStatus → GuardOutcome
refusal_of KycStatus.expired = verification_expired
refusal_of KycStatus.rejected = verification_rejected
refusal_of _ = verification_required

-- `KycGuard.canActivate`; the user is the wallet address of the request, if it is signed in.
unfoldable pub can_activate :
    (Option ℕ → String) → Option String → Call → KycService → KycService × GuardOutcome
can_activate message none c s = (s, authentication_required)
can_activate message (some wallet) c s =
    let (s', eligible, r) = is_eligible_record message wallet KycStatus.verified c s in
    (s', if eligible then passes r.status else refusal_of r.status)
