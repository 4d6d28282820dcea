-- ===== src/Kyc/Tests.antt =====
-- Concrete runs of the KYC service.
use eco_mint.Prelude.{
  ℕ, String, true, false, Option, none, some, List, [], ◌∷◌, ◌≡◌, ◌≢◌, ◌↔◌, refl, arith,
  string_has_eq, str_eq_iff,
}
use eco_mint.Prelude.Dict.{lookup}
use eco_mint.Kyc.Types.{KycStatus, KycStatusSource, KycRecord}
use eco_mint.Kyc.Store.{
  KycStore, Writes, TransitionInput, saved, missing, apply_transition, restart, replay_audit,
}
use eco_mint.Kyc.History.{record_at}
use eco_mint.Kyc.Service.{KycService, Call, VerifyOptions, can_activate, verify, get_status, passes}
use eco_mint.Kyc.Recovery.{
  Event, transition, restarts, run, IsDurable, restart-run, restart_forgets,
}
use eco_mint.Kyc.Cache.{IsSound}
use eco_mint.Kyc.Eligibility.{IsCleared, can_activate_iff, verify_keeps_expiry}
use eco_mint.Kyc.Trail.{IsLinked, run-IsLinked}

abbrev written : Writes
written = record { audit_ok = true; snapshot_ok = true }

abbrev snapshot_fails : Writes
snapshot_fails = record { audit_ok = true; snapshot_ok = false }

abbrev to_verified : TransitionInput
to_verified = record {
  address = "alice";
  to_status = KycStatus.verified;
  source = KycStatusSource.admin;
  actor = some "root";
  reason = none;
  provider_reference = none;
  expires_at = some 90;
}

abbrev empty_store : KycStore
empty_store = record { records = []; disk = record { snapshot = saved []; audit = [] } }

abbrev history : List Event
history =
    transition to_verified "e1" 5 snapshot_fails
    ∷ restarts
    ∷ transition (record to_verified { expires_at = some 120 }) "e2" 7 written
    ∷ []

empty_store-IsDurable : IsDurable empty_store
unfolding lookup record_at
empty_store-IsDurable = record { memory = λ a. refl; snapshot = ([], [], refl, λ a. refl) }

restart-run_example :
    lookup "alice" (restart (run history empty_store)).records
    ≡ lookup "alice" (run history empty_store).records
restart-run_example =
    restart-run history empty_store "alice" (refl, (tt, (refl, tt))) empty_store-IsDurable

run-IsLinked_example : IsLinked (run history empty_store).disk.audit
run-IsLinked_example =
    run-IsLinked history empty_store (refl, (tt, (refl, tt))) empty_store-IsDurable (λ a. tt)

abbrev forgetful : KycStore
forgetful =
    (apply_transition to_verified "e1" 5 snapshot_fails
      (record { records = []; disk = record { snapshot = missing; audit = [] } })).0

restart_forgets_example :
    (lookup "alice" (restart forgetful).records ≡ none)
    × (lookup "alice" (replay_audit [] forgetful.disk.audit) ≡ lookup "alice" forgetful.records)
    × (lookup "alice" forgetful.records ≢ none)
restart_forgets_example = restart_forgets to_verified "e1" 5 snapshot_fails refl refl

abbrev alice : KycRecord
alice = record {
  address = "alice";
  status = KycStatus.verified;
  source = KycStatusSource.admin;
  actor = some "root";
  reason = none;
  provider_reference = none;
  created_at = 5;
  updated_at = 5;
  expires_at = some 90;
}

abbrev service : KycService
service = record {
  store = record {
    records = ("alice", alice) ∷ [];
    disk = record { snapshot = saved []; audit = [] };
  };
  cache = [];
}

abbrev at_time : ℕ → Call
at_time t = record { now = t; id = "e3"; writes = written; redis_up = true }

service-IsSound : IsSound service
unfolding lookup
service-IsSound = record {
  keyed = λ a r h. ground (arith, str_eq_iff "alice" a);
  coherent = λ a r h. absurd (ground arith);
}

abbrev no_text : Option ℕ → String
no_text _ = "expired"

can_activate_example :
    (((can_activate no_text (some "alice") (at_time 60) service).1 ≡ passes KycStatus.verified) ↔ (
      (r : KycRecord) × (lookup "alice" service.store.records ≡ some r)
      × IsCleared r 60
      × (r.status ≡ KycStatus.verified)))
    × IsSound (can_activate no_text (some "alice") (at_time 60) service).0
can_activate_example =
    can_activate_iff no_text "alice" (at_time 60) service KycStatus.verified refl service-IsSound

abbrev renewal : VerifyOptions
renewal = record {
  actor = none;
  reason = none;
  provider_reference = none;
  expires_at = none;
  accredited = false;
}

verify_keeps_expiry_example :
    (get_status "alice" (at_time 100) (verify "alice" renewal (at_time 95) service).0).1
    ≡ KycStatus.expired
unfolding lookup
verify_keeps_expiry_example =
    verify_keeps_expiry "alice" renewal (at_time 95) (at_time 100) service alice 90 refl refl
      service-IsSound refl refl refl (omega arith)
