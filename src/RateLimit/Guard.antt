-- ===== src/RateLimit/Guard.antt =====
-- canActivate of api/src/common/guards/rate-limit.guard.ts. Times are seconds. A text that JavaScript
-- takes for false is empty.
use eco_mint.Prelude.{
  ℕ, ◌+◌, String, Bool, true, false, not, ◌&&◌, ◌||◌, Option, none, some, List, [], ◌∷◌, ltb, leb,
  nat_eq, str_eq, str_eq_iff, HasEq, if◌then◌else◌, ◌≡◌, ◌↔◌, arith,
}
use eco_mint.Prelude.Dict.{lookup, insert}

pub data Kind : Type 0 where
  auth mutation oracle default : Kind

pub record Options : Type 0 where
  pub kind : Kind
  pub ttl : Option ℕ
  pub limit : Option ℕ

-- `ratelimit:<kind>:ip:…`, `ratelimit:<kind>:wallet:…` and `ratelimit:oracle:provider:…`
pub data Key : Type 0 where
  ip_key : Kind → String → Key
  wallet_key : Kind → String → Key
  provider_key : String → Key

abbrev pub kind_eq : Kind → Kind → Bool
kind_eq auth auth = true
kind_eq mutation mutation = true
kind_eq oracle oracle = true
kind_eq default default = true
kind_eq a b = false

abbrev pub key_eq : Key → Key → Bool
key_eq (ip_key k a) (ip_key j b) = kind_eq k j && str_eq a b
key_eq (wallet_key k a) (wallet_key j b) = kind_eq k j && str_eq a b
key_eq (provider_key a) (provider_key b) = str_eq a b
key_eq a b = false

kind_eq_iff : (a b : Kind) → (kind_eq a b ≡ true) ↔ (a ≡ b)
kind_eq_iff a b = ground arith

pub key_eq_iff : (a b : Key) → (key_eq a b ≡ true) ↔ (a ≡ b)
key_eq_iff (ip_key k a) (ip_key j b) = ground (arith, kind_eq_iff k j, str_eq_iff a b)
key_eq_iff (wallet_key k a) (wallet_key j b) = ground (arith, kind_eq_iff k j, str_eq_iff a b)
key_eq_iff (provider_key a) (provider_key b) = ground (arith, str_eq_iff a b)
key_eq_iff (ip_key k a) (wallet_key j b) = ground arith
key_eq_iff (ip_key k a) (provider_key b) = ground arith
key_eq_iff (wallet_key k a) (ip_key j b) = ground arith
key_eq_iff (wallet_key k a) (provider_key b) = ground arith
key_eq_iff (provider_key a) (ip_key j b) = ground arith
key_eq_iff (provider_key a) (wallet_key j b) = ground arith

instance abbrev pub key_has_eq : HasEq Key
key_has_eq = record { test = key_eq; test_iff = key_eq_iff }

-- A counter, with the time at which Redis drops it, if it has one.
pub record Counter : Type 0 where
  pub count : ℕ
  pub expiry : Option ℕ

abbrev pub Counters : Type 0
Counters = List (Key × Counter)

-- The parts of a request that the guard reads, in the order in which it tries them.
pub record Request : Type 0 where
  pub ips : List String
  pub wallets : List String
  pub providers : List String

pub record Env : Type 0 where
  pub healthy : Bool
  pub now : ℕ
  -- whether Redis answers EXPIRE
  pub expires : Bool
  -- the settings of a kind: the time to live and the limit
  pub defaults : Kind → ℕ × ℕ

-- `a || b || …`
unfoldable pub first_filled : List String → Option String
first_filled [] = none
first_filled (s ∷ texts) = if str_eq s "" then first_filled texts else some s

abbrev pub or_local : Option String → String
or_local none = "127.0.0.1"
or_local (some ip) = ip

abbrev pub with_wallet : Kind → Option String → List Key → List Key
with_wallet kind none keys = keys
with_wallet kind (some a) keys = wallet_key kind a ∷ keys

abbrev pub with_provider : Option String → Option String → List Key → List Key
with_provider (some p) wallet keys = provider_key p ∷ keys
with_provider none (some a) keys = provider_key a ∷ keys
with_provider none none keys = keys

abbrev pub keys_of : Kind → String → Option String → Option String → List Key
keys_of auth ip none provider = ip_key auth ip ∷ []
keys_of auth ip (some a) provider = ip_key auth ip ∷ wallet_key auth a ∷ []
keys_of oracle ip wallet provider = with_provider provider wallet (ip_key oracle ip ∷ [])
keys_of mutation ip wallet provider = with_wallet mutation wallet (ip_key mutation ip ∷ [])
keys_of default ip wallet provider = ip_key default ip ∷ []

unfoldable pub keys_to_check : Kind → Request → List Key
keys_to_check kind r =
    keys_of kind (or_local (first_filled r.ips)) (first_filled r.wallets) (first_filled r.providers)

abbrev pub is_zero_or_none : Option ℕ → Bool
is_zero_or_none none = true
is_zero_or_none (some n) = nat_eq n 0

abbrev pub number_of : Option ℕ → ℕ
number_of none = 0
number_of (some n) = n

-- The time to live and the limit: both from the settings, where one is not given.
unfoldable pub limits_of : Env → Options → ℕ × ℕ
limits_of env o =
    if is_zero_or_none o.ttl || is_zero_or_none o.limit
    then env.defaults o.kind
    else (number_of o.ttl, number_of o.limit)

abbrev pub lives : ℕ → Option ℕ → Bool
lives now none = true
lives now (some expiry) = ltb now expiry

-- What Redis still has of a counter.
abbrev pub live : ℕ → Option Counter → Option Counter
live now none = none
live now (some c) = if lives now c.expiry then some c else none

abbrev pub count_of : Option Counter → ℕ
count_of none = 0
count_of (some c) = c.count

-- `get` and `parseInt`, with 0 for a key that is not there
unfoldable pub count_at : ℕ → Key → Counters → ℕ
count_at now key s = count_of (live now (lookup key s))

unfoldable pub over_limit : ℕ → ℕ → List Key → Counters → Bool
over_limit now limit [] s = false
over_limit now limit (key ∷ keys) s = leb limit (count_at now key s) || over_limit now limit keys s

abbrev pub expiry_of : Option Counter → Option ℕ
expiry_of none = none
expiry_of (some c) = c.expiry

-- `INCR`, and `EXPIRE` where the counter is new.
abbrev pub bumped : Env → ℕ → Option Counter → Counter
bumped env ttl old = record {
  count = count_of old + 1;
  expiry =
      if nat_eq (count_of old + 1) 1 && env.expires then some (env.now + ttl) else expiry_of old;
}

unfoldable pub bump : Env → ℕ → Key → Counters → Counters
bump env ttl key s = insert key (bumped env ttl (live env.now (lookup key s))) s

unfoldable pub bump_all : Env → ℕ → List Key → Counters → Counters
bump_all env ttl [] s = s
bump_all env ttl (key ∷ keys) s = bump_all env ttl keys (bump env ttl key s)

-- The counters after, and whether the request may go on; `false` is the answer Too Many Requests.
unfoldable pub guard_keys : Env → ℕ → ℕ → List Key → Counters → Counters × Bool
guard_keys env ttl limit keys s =
    if over_limit env.now limit keys s then (s, false) else (bump_all env ttl keys s, true)

-- `none` for a handler without a limit.
unfoldable pub can_activate : Env → Option Options → Request → Counters → Counters × Bool
can_activate env none r s = (s, true)
can_activate env (some o) r s =
    if not env.healthy
    then (s, true)
    else guard_keys env (limits_of env o).0 (limits_of env o).1 (keys_to_check o.kind r) s
