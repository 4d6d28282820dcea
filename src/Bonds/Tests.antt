-- ===== src/Bonds/Tests.antt =====
-- A bond with two holders, and the theorems at it.
use eco_mint.Prelude.{
  ℕ, ◌+◌, String, true, none, some, [], ◌∷◌, ◌≡◌, ◌↔◌, refl, arith, str_eq, if◌then◌else◌,
}
use eco_mint.Holders.Index.{HolderIndex}
use eco_mint.Oracle.Types.{decode_report}
use eco_mint.Oracle.Reports as Oracle
use eco_mint.Oracle.Reports.{get_report}
use eco_mint.Bonds.Types.{Chain, RawConfig, RawState, named}
use eco_mint.Bonds.Reads.{Bonds, Env}
use eco_mint.Bonds.Calls.{distribute_coupon, answers, DistributeCouponDto, distribute}
use eco_mint.Bonds.Export.{Json, Items, Fields, Payload, Texts, checksum}
use eco_mint.Bonds.Distribution.{
  IsDistributed, IsUndisputed, counter, distribute-invokes_iff, distribute-refusal_counts,
}
use eco_mint.Bonds.Checksum.{checksum-counts}

abbrev config : ℕ → RawConfig
config supply = record {
  project_id = "p";
  face_value = 100;
  coupon_schedule = 10 ∷ 20 ∷ [];
  credit_type = "Carbon";
  maturity_date = 500;
  total_supply = supply;
}

abbrev state : RawState
state = record { total_subscribed = 30; status = named "Active"; created_at = 5 }

abbrev chain : Chain
chain = record {
  bond_count = some 1;
  get_bond = λ id. some (config 100);
  get_bond_state = λ id. some state;
  get_holder_balance = λ id a. some 15;
  get_undistributed_total = λ id. some 3;
  claimable_credits = λ id a. some 2;
  claimable_credit_details = λ id a. some [];
  total_retirements = some 0;
  get_retirement_record = λ id. none;
  get_period_info = λ id period. none;
}

abbrev env : Env
env = record {
  redis_up = true;
  now = 100;
  chain = chain;
  holders = record { balance = λ id a. some 15; now = 100; file_ok = true };
  valid_address = λ a. true;
  bond_issuer = "CB";
  coupon_engine = "CC";
  admin_address = "GA";
  max_staleness = 60;
}

abbrev index : HolderIndex
index = record {
  data_of = record {
    holders = (1, "G1" ∷ "G2" ∷ []) ∷ [];
    known_addresses = "G1" ∷ "G2" ∷ [];
    last_reconciled = [];
  };
  file = none;
  loaded = true;
}

abbrev bonds : Bonds
bonds = record { bonds = []; pages = []; portfolios = []; nonces = []; index = index }

-- An oracle whose only report has the status of the number.
abbrev oracle : ℕ → Oracle.Env
oracle status = record {
  redis_up = true;
  now = 100;
  oracle_consumer = "CO";
  get_project_reports = λ p. some (7 ∷ []);
  get_report = λ id. some (record {
    id = 7;
    provider = "GP";
    project_id = "p";
    period_start = 1;
    period_end = 2;
    carbon_sequestered = 5;
    methodology = "VERRA-VCS";
    ipfs_evidence_hash = "00";
    status = status;
    submitted_at = 3;
    verified_at = 4;
    provider_stake_at_verification = none;
  });
  get_challenge_history = λ a. some [];
  get_provider = λ a. none;
  list_providers = some [];
}

abbrev dto : DistributeCouponDto
dto = record { period_index = 0; report_id = 7 }

distribute-invokes_iff_example :
    ((distribute env (some (oracle 1)) 1 dto (answers (30, 2)) bonds).invoked
      ≡ some (distribute_coupon "GA" 1 0 ("G1" ∷ "G2" ∷ []) 7 0))
    ↔ IsDistributed env
        (some (oracle 1))
        1
        dto
        bonds
        (distribute_coupon "GA" 1 0 ("G1" ∷ "G2" ∷ []) 7 0)
distribute-invokes_iff_example =
    distribute-invokes_iff env (some (oracle 1)) 1 dto (answers (30, 2)) bonds
      (distribute_coupon "GA" 1 0 ("G1" ∷ "G2" ∷ []) 7 0)

disputed_report : ¬ IsUndisputed (some (oracle 2)) 7
unfolding get_report decode_report
disputed_report (report, (found, (calm, fine))) = calm (ground (arith, found))

distribute-refusal_counts_example :
    ((distribute env (some (oracle 2)) 1 dto (answers (30, 2)) bonds).invoked ≡ none)
    × (counter env (distribute env (some (oracle 2)) 1 dto (answers (30, 2)) bonds).bonds
        ≡ counter env bonds + 1)
distribute-refusal_counts_example =
    distribute-refusal_counts env (some (oracle 2)) 1 dto (answers (30, 2)) bonds refl
      disputed_report

-- A hash that tells values with different texts apart: the first text that is not empty.
abbrev mutual
  first_text : Json → String
  first_text (Json.text s) = s
  first_text (Json.array xs) = first_item xs
  first_text (Json.object fields) = first_field fields
  first_text j = ""

  first_item : Items → String
  first_item Items.nil = ""
  first_item (Items.cons x xs) =
      let rest = first_item xs in let here = first_text x in if str_eq here "" then rest else here

  first_field : Fields → String
  first_field Fields.end = ""
  first_field (Fields.field key x fields) =
      let rest = first_field fields in
      let here = first_text x in if str_eq here "" then rest else here

abbrev texts : Texts
texts = record { decimal = λ n. "n"; iso = λ n. "t"; number_of = λ s. none; sha256 = λ j. "h" }

abbrev payload : ℕ → String → Payload
payload supply holder = record {
  id = 1;
  config = config supply;
  state = state;
  holders = record { address = holder; balance = 30 } ∷ [];
  distributions = [];
  retirements = [];
  generated_at = 9;
  exporter = "system";
}

checksum-counts_example : checksum texts (payload 100 "G1") ≡ checksum texts (payload 900 "G2")
checksum-counts_example =
    checksum-counts texts (payload 100 "G1") (payload 900 "G2") refl refl refl refl
