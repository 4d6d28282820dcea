-- ===== src/Access/Intent.antt =====
-- api/src/common/services/intent.service.ts. Times are milliseconds. The check of the ed25519
-- signature over the canonical message is given, as the Stellar SDK does it.
use eco_mint.Prelude.{
  ℕ, ◌+◌, ◌-◌, ◌*◌, ◌/◌, max, String, Bool, true, false, not, ◌||◌, Option, none, some, List, ltb,
  str_eq, if◌then◌else◌, string_has_eq,
}
use eco_mint.Prelude.Dict.{lookup, insert}

pub record AdminIntent : Type 0 where
  pub action : String
  pub target : String
  pub chain : String
  pub expiry : ℕ
  pub nonce : String
  pub signature : String

-- The object that a request brings; `none` is a field that is not there, and an `expiry` that is no
-- number is `some none`.
pub record RawIntent : Type 0 where
  pub action : Option String
  pub target : Option String
  pub chain : Option String
  pub expiry : Option (Option ℕ)
  pub nonce : Option String
  pub signature : Option String

pub data Verdict : Type 0 where
  required incomplete action_mismatch target_mismatch expired key_missing invalid_signature
        replayed :
      Verdict
  accepted : AdminIntent → Verdict

-- The surroundings of a check: `Date.now()`, whether Redis answers, whether STELLAR_PUBLIC_KEY is
-- set, and the check of the signature with that key.
pub record Env : Type 0 where
  pub now : ℕ
  pub redis_up : Bool
  pub has_key : Bool
  pub signs : AdminIntent → Bool

-- The keys `admin-intent:<nonce>` with the time at which each expires.
abbrev pub Nonces : Type 0
Nonces = List (String × ℕ)

-- A text that JavaScript takes for true.
abbrev pub filled : Option String → Option String
filled none = none
filled (some t) = if str_eq t "" then none else some t

abbrev pub ms_of : Option ℕ → ℕ
ms_of none = 0
ms_of (some t) = t

-- The fields, where none is missing, with the expiry as it came.
unfoldable pub fields_of : RawIntent → Option (AdminIntent × Option ℕ)
fields_of r = elim (filled r.action) [
  | none ↦ none
  | some action ↦ elim r.target [
    | none ↦ none
    | some target ↦ elim (filled r.chain) [
      | none ↦ none
      | some chain ↦ elim r.expiry [
        | none ↦ none
        | some expiry ↦ elim (filled r.nonce) [
          | none ↦ none
          | some nonce ↦ elim (filled r.signature) [
            | none ↦ none
            | some signature ↦ some (
              record {
                action = action;
                target = target;
                chain = chain;
                expiry = ms_of expiry;
                nonce = nonce;
                signature = signature;
              },
              expiry,
            )
          ]
        ]
      ]
    ]
  ]
]

-- `Math.max(60, Math.ceil((expiry - now) / 1000) + 300)`, at an expiry that is not past
unfoldable pub ttl_seconds : ℕ → ℕ → ℕ
ttl_seconds expiry now = max 60 ((expiry - now + 999) / 1000 + 300)

abbrev pub is_reserved : ℕ → Option ℕ → Bool
is_reserved now none = false
is_reserved now (some until) = ltb now until

-- `setNx`: false where the key is there, or Redis does not answer.
unfoldable pub set_nx : Env → String → ℕ → Nonces → Nonces × Bool
set_nx env nonce seconds s =
    if not env.redis_up || is_reserved env.now (lookup nonce s)
    then (s, false)
    else (insert nonce (env.now + seconds * 1000) s, true)

abbrev pub reserved : AdminIntent → Nonces × Bool → Nonces × Verdict
reserved i (s, ok) = (s, if ok then accepted i else replayed)

-- `typeof expiry !== 'number' || expiry < Date.now()`
abbrev pub is_past : Option ℕ → ℕ → Bool
is_past none now = true
is_past (some e) now = ltb e now

unfoldable pub check_fields :
    Env → String → String → Nonces → AdminIntent → Option ℕ → Nonces × Verdict
check_fields env action target s i expiry =
    if not (str_eq i.action action)
    then (s, action_mismatch)
    else if not (str_eq i.target target)
    then (s, target_mismatch)
    else if is_past expiry env.now
    then (s, expired)
    else if not env.has_key
    then (s, key_missing)
    else if not (env.signs i)
    then (s, invalid_signature)
    else reserved i (set_nx env i.nonce (ttl_seconds i.expiry env.now) s)

abbrev pub check_complete :
    Env → String → String → Nonces → Option (AdminIntent × Option ℕ) → Nonces × Verdict
check_complete env action target s none = (s, incomplete)
check_complete env action target s (some (i, expiry)) = check_fields env action target s i expiry

-- The first `none` is a request without an intent.
unfoldable pub verify : Env → Option RawIntent → String → String → Nonces → Nonces × Verdict
verify env none action target s = (s, required)
verify env (some r) action target s = check_complete env action target s (fields_of r)
