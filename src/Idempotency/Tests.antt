-- ===== src/Idempotency/Tests.antt =====
-- Requests with one key, and the theorems at them.
use eco_mint.Prelude.{ℕ, ◌≤◌, String, true, none, some, [], ◌∷◌, length, ◌≡◌, refl, arith}
use eco_mint.Idempotency.Service.{error, mark_pending}
use eco_mint.Idempotency.Interceptor.{
  check, arrived, executing, System, look, reserve, looks, reserves, Steps, init, stay, after,
}
use eco_mint.Idempotency.Once.{executed-once}
use eco_mint.Idempotency.Retries.{IsRetriable, retries-both_execute}

abbrev same_payload : ℕ → String
same_payload i = "fp"

-- Request 4 reserves the key.
abbrev one_runs : System
one_runs = reserve (look (init same_payload) 4 "fp") 4 "fp" 10

one_runs-Steps : Steps (init same_payload) one_runs
unfolding look check
one_runs-Steps = after (after stay (looks 4 "fp" refl)) (reserves 4 "fp" 10 refl)

executed-once_example : length one_runs.executed ≤ 1
unfolding reserve look mark_pending check
executed-once_example = executed-once same_payload one_runs one_runs-Steps refl

abbrev after_error : System
after_error = record {
  slot = some (record {
    status = error;
    fingerprint = "fp";
    result = some "out of funds";
    transaction_hash = none;
    status_code = some 400;
    created_at = 10;
  });
  pc = λ i. arrived "fp";
  executed = 0 ∷ [];
  failed = true;
}

abbrev error_kept : IsRetriable after_error "fp"
error_kept = record { stored = _; in_slot = refl; status = refl; payload = refl }

retries-both_execute_example :
    (t : System) × (Steps after_error t × ((t.pc 1 ≡ executing "fp") × (t.pc 2 ≡ executing "fp")))
retries-both_execute_example =
    retries-both_execute after_error 1 2 "fp" error_kept (λ e. absurd (omega arith)) refl refl
