-- ===== src/Access/Challenge.antt =====
-- The login challenges of api/src/auth/auth.service.ts. The challenge transaction and the check of a
-- signed one are the Stellar SDK's, and are given. Times are milliseconds.
use eco_mint.Prelude.{
  ℕ, ◌+◌, ◌-◌, String, Bool, false, not, Option, none, some, List, [], ◌∷◌, ltb, str_eq,
  if◌then◌else◌, string_has_eq, ◌≡◌,
}
use eco_mint.Prelude.Dict.{lookup, insert, remove}
use eco_mint.Kyc.Types.{KycStatus}
use eco_mint.Kyc.Service.{KycService, Call, get_status}

pub record StoredChallenge : Type 0 where
  pub challenge : String
  pub nonce : String
  pub address : String
  pub timestamp : ℕ
  pub audience : String

-- The keys `challenge:<address>`, each with the time at which Redis drops it, and the KYC service.
pub record Auth : Type 0 where
  pub challenges : List (String × (StoredChallenge × ℕ))
  pub kyc : KycService

-- What a challenge is made of: the random nonce, and the signed transaction as text.
pub record Fresh : Type 0 where
  pub nonce : String
  pub challenge : String
  pub audience : String

pub record Env : Type 0 where
  pub call : Call
  pub valid_address : String → Bool
  pub has_secret : Bool
  -- of the original and the signed transaction, for the address
  pub signature_ok : String → String → String → Bool

pub record VerifySignatureDto : Type 0 where
  pub address : String
  pub signed_challenge : String
  pub original_challenge : String

pub data Challenged : Type 0 where
  invalid_address no_signing_key : Challenged
  challenged : (challenge nonce : String) → Challenged

pub data Login : Type 0 where
  unavailable not_found other_address other_content too_old signing_key_missing invalid_signature :
      Login
  -- the claims of both tokens
  issued : (sub : String) (kyc_status : KycStatus) → Login

-- `set(…, { EX: 300 })`, which is skipped where Redis does not answer
unfoldable pub generate_challenge : Env → Fresh → String → Auth → Auth × Challenged
generate_challenge env fresh address s =
    if not (env.valid_address address)
    then (s, invalid_address)
    else if not env.has_secret
    then (s, no_signing_key)
    else (
      (if env.call.redis_up
          then record s {
            challenges =
                insert address
                  (
                    record {
                      challenge = fresh.challenge;
                      nonce = fresh.nonce;
                      address = address;
                      timestamp = env.call.now;
                      audience = fresh.audience;
                    },
                    env.call.now + 300000,
                  )
                  s.challenges;
          }
          else s),
      challenged fresh.challenge fresh.nonce,
    )

-- What Redis still has of a key.
abbrev pub alive : ℕ → Option (StoredChallenge × ℕ) → Option StoredChallenge
alive now none = none
alive now (some (c, until)) = if ltb now until then some c else none

abbrev pub issue : Env → String → Auth → Auth × Login
issue env address s =
    let (kyc, status) = get_status address env.call s.kyc in
    (record s { kyc = kyc }, issued address status)

unfoldable pub check_challenge :
    Env → VerifySignatureDto → Option StoredChallenge → Auth → Auth × Login
check_challenge env dto none s = (s, not_found)
check_challenge env dto (some c) s =
    if not (str_eq c.address dto.address)
    then (s, other_address)
    else if not (str_eq c.challenge dto.original_challenge)
    then (s, other_content)
    else if ltb c.timestamp (env.call.now - 300000)
    then (s, too_old)
    else if not env.has_secret
    then (s, signing_key_missing)
    else if not (env.signature_ok dto.original_challenge dto.signed_challenge dto.address)
    then (s, invalid_signature)
    else issue env dto.address s

-- `getDel` takes the challenge whether or not the rest of the check accepts it.
unfoldable pub verify_signature : Env → VerifySignatureDto → Auth → Auth × Login
verify_signature env dto s =
    if not env.call.redis_up
    then (s, unavailable)
    else check_challenge env dto (alive env.call.now (lookup dto.address s.challenges))
        (record s { challenges = remove dto.address s.challenges })

-- A request to the login service.
pub data Request : Type 0 where
  asks : Env → Fresh → String → Request
  verifies : Env → VerifySignatureDto → Request

abbrev pub step : Request → Auth → Auth
step (asks env fresh address) s = (generate_challenge env fresh address s).0
step (verifies env dto) s = (verify_signature env dto s).0

abbrev pub run : List Request → Auth → Auth
run [] s = s
run (r ∷ rs) s = run rs (step r s)

-- No new challenge is asked for at the address.
abbrev pub NoneAsked : String → List Request → Type 0
NoneAsked a [] = Unit {0}
NoneAsked a (asks env fresh b ∷ rs) = (str_eq b a ≡ false) × NoneAsked a rs
NoneAsked a (verifies env dto ∷ rs) = NoneAsked a rs
