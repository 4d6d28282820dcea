-- ===== src/Projects/Service.antt =====
-- api/src/projects/projects.service.ts on its caches. The check of a boundary, the pinning and reading of
-- content on IPFS and the replies of the contracts are given. A reference is a list of character codes,
-- stored bytes are lists of numbers.
use eco_mint.Prelude.{
  ℕ, suc, zero, ◌+◌, ◌-◌, ◌*◌, ◌/◌, min, String, Bool, not, ◌&&◌, Option, none, some, List, [], ◌∷◌,
  ◌++◌, ltb, nat_eq, if◌then◌else◌, nat_has_eq, pair_has_eq, string_has_eq,
}
use eco_mint.Prelude.Dict.{lookup, insert, remove}
use eco_mint.Nonce.{Counters, next}
use eco_mint.Cid.Reference.{encode_cid, decode_cid}

pub data ProjectStatus : Type 0 where
  pending approved rejected inactive : ProjectStatus

pub record ProjectResponse : Type 0 where
  pub id : ℕ
  pub name : Option String  -- `none` for the name made of the number
  pub status : ProjectStatus
  pub methodology : String
  pub country : String
  pub metadata_ipfs_hash : List ℕ
  pub owner_address : String
  pub total_area_ha : ℕ
  pub carbon_sequestration_estimate : ℕ
  pub created_at : String

pub record RawProject : Type 0 where
  pub id : ℕ
  pub owner : String
  pub metadata : List ℕ
  pub status : ProjectStatus
  pub methodology : String
  pub country : String

-- The content of a pinned metadata file, each field `none` where JavaScript takes it for false.
pub record Metadata : Type 0 where
  pub name : Option String
  pub total_area_ha : Option ℕ
  pub carbon_sequestration_estimate : Option ℕ
  pub timestamp : Option String

pub record Page : Type 0 where
  pub data_of : List ProjectResponse
  pub total : ℕ
  pub total_pages : ℕ

-- The keys `project:<id>` and `projects:<page>:<limit>` with the times at which Redis drops them, the keys
-- `project:<id>:documents`, and the nonce counters.
pub record Projects : Type 0 where
  pub projects : List (ℕ × (ProjectResponse × ℕ))
  pub pages : List ((ℕ × ℕ) × (Page × ℕ))
  pub documents : List (ℕ × List (List ℕ))
  pub nonces : Counters

-- The surroundings of a request: `now` in seconds and as ISO text, and what the ledger, after the call if
-- there is one, and IPFS answer.
pub record Env : Type 0 where
  pub redis_up : Bool
  pub now : ℕ
  pub now_text : String
  pub registry : String
  pub admin_address : String
  pub project_count : Option ℕ
  pub get_project : ℕ → Option RawProject
  pub get_content : List ℕ → Option Metadata

abbrev pub alive : {A : Type 0} → Env → Option (A × ℕ) → Option A
alive env none = none
alive env (some (a, expiry)) = if env.redis_up && ltb env.now expiry then some a else none

abbrev pub or_empty : Option Metadata → Metadata
or_empty none = record {
  name = none;
  total_area_ha = none;
  carbon_sequestration_estimate = none;
  timestamp = none;
}
or_empty (some m) = m

abbrev pub or_zero : Option ℕ → ℕ
or_zero none = 0
or_zero (some n) = n

abbrev pub or_text : Option String → String → String
or_text none text = text
or_text (some s) text = s

unfoldable pub project_response : Env → RawProject → ProjectResponse
project_response env raw =
    let hash = decode_cid raw.metadata in
    let m = or_empty (env.get_content hash) in
    record {
      id = raw.id;
      name = m.name;
      status = raw.status;
      methodology = raw.methodology;
      country = raw.country;
      metadata_ipfs_hash = hash;
      owner_address = raw.owner;
      total_area_ha = or_zero m.total_area_ha;
      carbon_sequestration_estimate = or_zero m.carbon_sequestration_estimate;
      created_at = or_text m.timestamp env.now_text;
    }

abbrev pub response_of : Env → Option RawProject → Option ProjectResponse
response_of env none = none
response_of env (some raw) = some (project_response env raw)

unfoldable pub build_project_response : Env → ℕ → Option ProjectResponse
build_project_response env id = response_of env (env.get_project id)

abbrev pub cache_project : Env → ℕ → ProjectResponse → Projects → Projects
cache_project env id p s =
    if env.redis_up then record s { projects = insert id (p, env.now + 300) s.projects } else s

abbrev pub read_through :
    Env → ℕ → Projects → Option ProjectResponse → Projects × Option ProjectResponse
read_through env id s none = (s, none)
read_through env id s (some p) = (cache_project env id p s, some p)

unfoldable pub find_one : Env → ℕ → Projects → Projects × Option ProjectResponse
find_one env id s = elim (alive env (lookup id s.projects)) [
  | some p ↦ (s, some p)
  | none ↦ read_through env id s (build_project_response env id)
]

abbrev pub push_project : Option ProjectResponse → List ProjectResponse → List ProjectResponse
push_project none rest = rest
push_project (some p) rest = p ∷ rest

-- `left` projects from the number `id` on; those that cannot be read are skipped.
unfoldable pub build_range : Env → ℕ → ℕ → List ProjectResponse
build_range env id zero = []
build_range env id (suc left) =
    push_project (build_project_response env id) (build_range env (suc id) left)

-- `Math.ceil(total / limit) || 1`
abbrev pub pages_of : ℕ → ℕ → ℕ
pages_of total limit = let n = (total + (limit - 1)) / limit in if nat_eq n 0 then 1 else n

unfoldable pub page_of : Env → ℕ → ℕ → Page
page_of env page limit =
    let total = or_zero env.project_count in
    let start = (page - 1) * limit in
    record {
      data_of = build_range env (suc start) (min (start + limit) total - start);
      total = total;
      total_pages = pages_of total limit;
    }

unfoldable pub find_all : Env → ℕ → ℕ → Projects → Projects × Page
find_all env page limit s = elim (alive env (lookup (page, limit) s.pages)) [
  | some result ↦ (s, result)
  | none ↦
      let result = page_of env page limit in
      (
        (if env.redis_up
            then record s { pages = insert (page, limit) (result, env.now + 60) s.pages }
            else s),
        result,
      )
]

pub data Invocation : Type 0 where
  register_project :
      (owner : String) (metadata : List ℕ) (methodology country : String) (nonce : ℕ) → Invocation
  approve_project reject_project : (admin : String) (id nonce : ℕ) → Invocation

pub data ProjectError : Type 0 where
  invalid_boundary upload_failed invalid_reference service_unavailable contract_failed
        unreadable_project :
      ProjectError

pub data Response (A : Type 0) : Type 0 where
  throws : ProjectError → Response A
  returns : A → Response A

pub record Outcome : Type 0 where
  pub projects : Projects
  pub invoked : Option Invocation
  pub response : Response ProjectResponse

abbrev pub refuse : Projects → ProjectError → Outcome
refuse s e = record { projects = s; invoked = none; response = throws e }

abbrev pub counted : Projects → (ℕ → Projects → Outcome) → Counters × Option ℕ → Outcome
counted s body (counters, none) = refuse s service_unavailable
counted s body (counters, some nonce) = body nonce (record s { nonces = counters })

unfoldable pub with_nonce : Env → String → Projects → (ℕ → Projects → Outcome) → Outcome
with_nonce env address s body = counted s body (next env.redis_up env.registry address s.nonces)

abbrev pub answered : Option ProjectResponse → Response ProjectResponse
answered none = throws unreadable_project
answered (some p) = returns p

abbrev pub registered : Env → Invocation → ℕ → Projects → Option ProjectResponse → Outcome
registered env call id s none = record {
  projects = s;
  invoked = some call;
  response = throws unreadable_project;
}
registered env call id s (some p) = record {
  projects = cache_project env id p s;
  invoked = some call;
  response = returns p;
}

unfoldable pub register_call :
    Env → String → String → String → List ℕ → Option ℕ → ℕ → Projects → Outcome
register_call env owner methodology country bytes none nonce s = record {
  projects = s;
  invoked = some (register_project owner bytes methodology country nonce);
  response = throws contract_failed;
}
register_call env owner methodology country bytes (some id) nonce s =
    registered env (register_project owner bytes methodology country nonce) id s
      (build_project_response env id)

abbrev pub register_encoded :
    Env → String → String → String → Option ℕ → Projects → Option (List ℕ) → Outcome
register_encoded env owner methodology country reply s none = refuse s invalid_reference
register_encoded env owner methodology country reply s (some bytes) =
    with_nonce env owner s (register_call env owner methodology country bytes reply)

abbrev pub register_pinned :
    Env → String → String → String → Option ℕ → Projects → Option (List ℕ) → Outcome
register_pinned env owner methodology country reply s none = refuse s upload_failed
register_pinned env owner methodology country reply s (some hash) =
    register_encoded env owner methodology country reply s (encode_cid hash)

-- `boundary_ok` is the check of a boundary, `hash` the reference of the pinned metadata, and `reply` the
-- number that the contract gives the project.
unfoldable pub register :
    Env → Bool → Option (List ℕ) → String → String → String → Option ℕ → Projects → Outcome
register env boundary_ok hash owner methodology country reply s =
    if not boundary_ok
    then refuse s invalid_boundary
    else register_pinned env owner methodology country reply s hash

abbrev pub drop_project : Env → ℕ → Projects → Projects
drop_project env id s = if env.redis_up then record s { projects = remove id s.projects } else s

unfoldable pub review_call : Env → ℕ → (ℕ → Invocation) → Option (Unit {0}) → ℕ → Projects → Outcome
review_call env id call none nonce s = record {
  projects = s;
  invoked = some (call nonce);
  response = throws contract_failed;
}
review_call env id call (some _) nonce s = record {
  projects = drop_project env id s;
  invoked = some (call nonce);
  response = answered (build_project_response env id);
}

unfoldable pub approve : Env → ℕ → Option (Unit {0}) → Projects → Outcome
approve env id reply s =
    with_nonce env env.admin_address s
      (review_call env id (λ nonce. approve_project env.admin_address id nonce) reply)

unfoldable pub reject : Env → ℕ → Option (Unit {0}) → Projects → Outcome
reject env id reply s =
    with_nonce env env.admin_address s
      (review_call env id (λ nonce. reject_project env.admin_address id nonce) reply)

abbrev pub or_none : Option (List (List ℕ)) → List (List ℕ)
or_none none = []
or_none (some hashes) = hashes

-- The references of the uploaded files, which are appended to those of the project.
unfoldable pub upload_documents : Env → ℕ → List (List ℕ) → Projects → Projects
upload_documents env id hashes s =
    if env.redis_up
    then record s { documents = insert id (or_none (lookup id s.documents) ++ hashes) s.documents }
    else s
