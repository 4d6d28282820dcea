-- ===== src/Kyc/Store.antt =====
-- api/src/common/services/kyc-store.service.ts: the records in memory, the snapshot file and the
-- audit log on disk, and how a start reads them back.
use eco_mint.Prelude.{
  ℕ, String, Bool, true, false, ◌&&◌, Option, none, some, List, [], ◌∷◌, ◌++◌, nat_eq, or_else,
  string_has_eq, if◌then◌else◌,
}
use eco_mint.Prelude.Dict.{lookup, insert}
use eco_mint.Kyc.Types.{KycStatus, KycStatusSource, KycAuditEntry, KycRecord, status_eq}

-- The snapshot file as a start finds it: not there (ENOENT), not readable as JSON, or its records.
pub data SnapshotFile : Type 0 where
  missing unreadable : SnapshotFile
  saved : List (String × KycRecord) → SnapshotFile

-- A line of the log is an entry, or does not parse.
pub record Disk : Type 0 where
  pub snapshot : SnapshotFile
  pub audit : List (Option KycAuditEntry)

pub record KycStore : Type 0 where
  pub records : List (String × KycRecord)
  pub disk : Disk

-- What the file system does with the two writes of one `persist`.
pub record Writes : Type 0 where
  pub audit_ok : Bool
  pub snapshot_ok : Bool

pub record TransitionInput : Type 0 where
  pub address : String
  pub to_status : KycStatus
  pub source : KycStatusSource
  pub actor : Option String
  pub reason : Option String
  pub provider_reference : Option String
  pub expires_at : Option ℕ

pub record TransitionResult : Type 0 where
  pub record_of : KycRecord
  -- `{}` where nothing changed
  pub entry : Option KycAuditEntry
  pub is_new : Bool

-- `a === b` at a nullable time
abbrev pub expiry_eq : Option ℕ → Option ℕ → Bool
expiry_eq none none = true
expiry_eq (some a) (some b) = nat_eq a b
expiry_eq _ _ = false

abbrev pub unchanged : KycRecord → TransitionInput → Bool
unchanged r input = status_eq r.status input.to_status && expiry_eq r.expires_at input.expires_at

abbrev pub status_or_pending : Option KycRecord → KycStatus
status_or_pending none = KycStatus.pending
status_or_pending (some r) = r.status

-- The record after an entry, as `applyTransition` and `replayAudit` both build it.
unfoldable pub merge : Option KycRecord → KycAuditEntry → KycRecord
merge none e = record {
  address = e.address;
  status = e.to_status;
  source = e.source;
  actor = e.actor;
  reason = e.reason;
  provider_reference = e.provider_reference;
  created_at = e.timestamp;
  updated_at = e.timestamp;
  expires_at = e.expires_at;
}
merge (some r) e = record r {
  status = e.to_status;
  source = e.source;
  actor = or_else e.actor r.actor;
  reason = or_else e.reason r.reason;
  provider_reference = or_else e.provider_reference r.provider_reference;
  expires_at = or_else e.expires_at r.expires_at;
  updated_at = e.timestamp;
}

unfoldable pub entry_of : Option KycRecord → TransitionInput → String → ℕ → KycAuditEntry
entry_of existing input id now = record {
  id = id;
  address = input.address;
  from_status = status_or_pending existing;
  to_status = input.to_status;
  source = input.source;
  actor = input.actor;
  reason = input.reason;
  provider_reference = input.provider_reference;
  expires_at = input.expires_at;
  timestamp = now;
}

-- `appendAuditLine` and `writeSnapshot`; a write that fails leaves its file as it was.
unfoldable pub persist : Writes → List (String × KycRecord) → KycAuditEntry → Disk → Disk
persist w records e d = record {
  snapshot = if w.snapshot_ok then saved records else d.snapshot;
  audit = if w.audit_ok then d.audit ++ some e ∷ [] else d.audit;
}

abbrev pub is_none : Option KycRecord → Bool
is_none none = true
is_none (some r) = false

-- The part of `applyTransition` behind its early return.
unfoldable pub commit :
    Option KycRecord
    → TransitionInput
    → String
    → ℕ
    → Writes
    → KycStore
    → KycStore × TransitionResult
commit existing input id now w s =
    let e = entry_of existing input id now in
    let r = merge existing e in
    let records = insert input.address r s.records in
    (
      record { records = records; disk = persist w records e s.disk },
      record { record_of = r; entry = some e; is_new = is_none existing },
    )

-- `id` is the random identifier, `now` is `Date.now()`.
unfoldable pub apply_transition :
    TransitionInput → String → ℕ → Writes → KycStore → KycStore × TransitionResult
apply_transition input id now w s = elim (lookup input.address s.records) [
  | none ↦ commit none input id now w s
  | some r ↦
      if unchanged r input
      then (s, record { record_of = r; entry = none; is_new = false })
      else commit (some r) input id now w s
]

-- one line of `replayAudit`
unfoldable pub replay_line :
    List (String × KycRecord) → Option KycAuditEntry → List (String × KycRecord)
replay_line records none = records
replay_line records (some e) = insert e.address (merge (lookup e.address records) e) records

unfoldable pub replay_audit :
    List (String × KycRecord) → List (Option KycAuditEntry) → List (String × KycRecord)
replay_audit records [] = records
replay_audit records (l ∷ lines) = replay_audit (replay_line records l) lines

unfoldable pub load_snapshot : Disk → List (String × KycRecord)
load_snapshot d = elim d.snapshot [
  | missing ↦ []
  | unreadable ↦ replay_audit [] d.audit
  | saved records ↦ replay_audit records d.audit
]

-- A restart: memory is lost, `onModuleInit` reads the disk.
unfoldable pub restart : KycStore → KycStore
restart s = record s { records = load_snapshot s.disk }
