-- ===== src/Idempotency/Service.antt =====
-- api/src/common/services/idempotency.service.ts, for one key: the value of `idem:<key>`, while Redis
-- answers and before the key's day is over. A result is the text of its JSON.
use eco_mint.Prelude.{ℕ, String, Bool, true, false, Option, none, some, or_else}

pub data IdempotencyStatus : Type 0 where
  pending success error : IdempotencyStatus

pub record IdempotencyRecord : Type 0 where
  pub status : IdempotencyStatus
  pub fingerprint : String
  pub result : Option String
  pub transaction_hash : Option String
  pub status_code : Option ℕ
  pub created_at : ℕ

abbrev pub pending_record : String → ℕ → IdempotencyRecord
pending_record fingerprint now = record {
  status = pending;
  fingerprint = fingerprint;
  result = none;
  transaction_hash = none;
  status_code = none;
  created_at = now;
}

-- `SET … NX`: the new value, and whether this call reserved the key.
unfoldable pub mark_pending :
    String → ℕ → Option IdempotencyRecord → Option IdempotencyRecord × Bool
mark_pending fingerprint now none = (some (pending_record fingerprint now), true)
mark_pending fingerprint now (some r) = (some r, false)

-- What a handler ends with: its result with the transaction's hash, if any, or an error's message.
pub data Ending : Type 0 where
  returned : (result : String) (transaction_hash : Option String) → Ending
  threw : (message : String) → Ending

abbrev pub status_of : Ending → IdempotencyStatus
status_of (returned result hash) = success
status_of (threw message) = error

abbrev pub result_of : Ending → String
result_of (returned result hash) = result
result_of (threw message) = message

abbrev pub hash_of : Ending → Option String
hash_of (returned result hash) = hash
hash_of (threw message) = none

-- The record that `complete` writes after it has read `existing`.
unfoldable pub completed : Option IdempotencyRecord → Ending → ℕ → ℕ → IdempotencyRecord
completed none ending status_code now = record {
  status = status_of ending;
  fingerprint = "";
  result = some (result_of ending);
  transaction_hash = hash_of ending;
  status_code = some status_code;
  created_at = now;
}
completed (some existing) ending status_code now = record {
  status = status_of ending;
  fingerprint = existing.fingerprint;
  result = some (result_of ending);
  transaction_hash = or_else (hash_of ending) existing.transaction_hash;
  status_code = some status_code;
  created_at = existing.created_at;
}
