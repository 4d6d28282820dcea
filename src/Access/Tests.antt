-- ===== src/Access/Tests.antt =====
-- Concrete runs of the access checks.
use eco_mint.Prelude.{ℕ, true, some, List, [], ◌∷◌, ◌≡◌, ◌≢◌, ◌↔◌, refl, arith, string_has_eq}
use eco_mint.Prelude.Dict.{lookup}
use eco_mint.Kyc.Service.{KycService, Call}
use eco_mint.Kyc.Store.{saved}
use eco_mint.Access.Intent.{
  AdminIntent, RawIntent, accepted, verify, fields_of, check_fields, set_nx,
}
use eco_mint.Access.Replay.{Attempt, attempt, run, accepted-once}
use eco_mint.Access.Challenge.{
  Env, VerifySignatureDto, Auth, Request, asks, verifies, verify_signature, not_found,
}
use eco_mint.Access.Login.{
  is_issued, IsAuthentic, verify_signature-once, verify_signature-issues_iff,
}
use eco_mint.Access.Challenge.{run as run_requests}

abbrev intent : AdminIntent
intent = record {
  action = "issue";
  target = "1";
  chain = "testnet";
  expiry = 5000;
  nonce = "n1";
  signature = "sig";
}

abbrev raw : RawIntent
raw = record {
  action = some "issue";
  target = some "1";
  chain = some "testnet";
  expiry = some (some 5000);
  nonce = some "n1";
  signature = some "sig";
}

abbrev try_at : ℕ → Attempt
try_at t = record {
  env = record { now = t; redis_up = true; has_key = true; signs = λ i. true };
  raw = some raw;
  action = "issue";
  target = "1";
}

first_accepted : (attempt (try_at 1000) []).1 ≡ accepted intent
unfolding verify fields_of check_fields set_nx lookup
first_accepted = refl

accepted_example :
    (attempt (try_at 3000) (run (try_at 2000 ∷ []) (attempt (try_at 1000) []).0)).1
    ≢ accepted intent
accepted_example =
    accepted-once (try_at 1000) (try_at 3000) (try_at 2000 ∷ []) [] intent first_accepted
      (omega arith, tt) (omega arith)

abbrev kyc : KycService
kyc = record {
  store = record { records = []; disk = record { snapshot = saved []; audit = [] } };
  cache = [];
}

abbrev call : ℕ → Call
call t = record {
  now = t;
  id = "e";
  writes = record { audit_ok = true; snapshot_ok = true };
  redis_up = true;
}

abbrev env : ℕ → Env
env t = record {
  call = call t;
  valid_address = λ a. true;
  has_secret = true;
  signature_ok = λ o s a. true;
}

abbrev login : VerifySignatureDto
login = record { address = "alice"; signed_challenge = "signed"; original_challenge = "tx" }

abbrev auth : Auth
auth = record {
  challenges =
      (
        "alice",
        (
          record {
            challenge = "tx";
            nonce = "n";
            address = "alice";
            timestamp = 1000;
            audience = "app";
          },
          301000,
        ),
      )
      ∷ [];
  kyc = kyc;
}

abbrev others : List Request
others =
    asks (env 2000) (record { nonce = "m"; challenge = "tx2"; audience = "app" }) "bob"
    ∷ verifies (env 2500) login
    ∷ []

once_example :
    (verify_signature
      (env 3000)
      login
      (run_requests others (verify_signature (env 1500) login auth).0)).1
    ≡ not_found
once_example =
    verify_signature-once (env 1500) (env 3000) login login others auth refl refl refl (refl, tt)

issues_example :
    (is_issued (verify_signature (env 1500) login auth).1 ≡ true)
    ↔ ((true ≡ true) × (true ≡ true) × IsAuthentic (env 1500) login auth)
issues_example = verify_signature-issues_iff (env 1500) login auth
