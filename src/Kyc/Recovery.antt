-- ===== src/Kyc/Recovery.antt =====
-- What a restart of the store brings back.
use eco_mint.Prelude.{
  ℕ, String, true, false, Option, none, some, List, [], ◌∷◌, ◌++◌, ◌≡◌, ◌≢◌, refl, ap, sym, ◌∙◌,
  string_has_eq, str_eq_iff, str_eq, if◌then◌else◌, arith, inl, inr, Bool-cases, Option-cases,
  append-nil, append_assoc,
}
use eco_mint.Prelude.Dict.{lookup, insert, lookup-insert}
use eco_mint.Kyc.Types.{KycAuditEntry, KycRecord}
use eco_mint.Kyc.Store.{
  SnapshotFile, missing, unreadable, saved, Disk, KycStore, Writes, TransitionInput, entry_of,
  merge, persist, commit, unchanged, apply_transition, replay_line, replay_audit, load_snapshot,
  restart,
}
use eco_mint.Kyc.History.{record_at, record_at-append, lookup-replay_audit, record_at_twice}

pub data Event : Type 0 where
  transition : TransitionInput → String → ℕ → Writes → Event
  restarts : Event

abbrev pub step : Event → KycStore → KycStore
step (transition input id now w) s = (apply_transition input id now w s).0
step restarts s = restart s

abbrev pub run : List Event → KycStore → KycStore
run [] s = s
run (e ∷ es) s = run es (step e s)

-- Every line of the log is written.
abbrev pub IsLogged : Event → Type 0
IsLogged (transition input id now w) = w.audit_ok ≡ true
IsLogged restarts = Unit {0}

abbrev pub AllLogged : List Event → Type 0
AllLogged [] = Unit {0}
AllLogged (e ∷ es) = IsLogged e × AllLogged es

abbrev pub Reads : List (String × KycRecord) → List (Option KycAuditEntry) → Type 0
Reads records lines = (a : String) → lookup a records ≡ record_at a none lines

-- A snapshot holds the state at some earlier point of the log.
abbrev pub IsPrefixState : SnapshotFile → List (Option KycAuditEntry) → Type 0
IsPrefixState missing lines = ⊥
IsPrefixState unreadable lines = Unit {0}
IsPrefixState (saved records) lines =
    (p : List (Option KycAuditEntry)) × (q : List (Option KycAuditEntry)) × (lines ≡ p ++ q)
    × Reads records p

pub record IsDurable (s : KycStore) : Type 0 where
  pub memory : Reads s.records s.disk.audit
  pub snapshot : IsPrefixState s.disk.snapshot s.disk.audit

lookup-nil : (a : String) → lookup {V = KycRecord} a [] ≡ none
unfolding lookup
lookup-nil a = refl

load-Reads :
    (snapshot : SnapshotFile) (lines : List (Option KycAuditEntry))
    → IsPrefixState snapshot lines
    → Reads (load_snapshot (record { snapshot = snapshot; audit = lines })) lines
unfolding load_snapshot
load-Reads missing lines h a = absurd h
load-Reads unreadable lines h a =
    lookup-replay_audit a [] lines ∙ ap (λ r. record_at a r lines) (lookup-nil a)
load-Reads (saved records) lines (p, q, e, reads) a =
    lookup-replay_audit a records lines
    ∙ rw
        (
          reads a,
          e,
          record_at-append a (record_at a none p) p q,
          record_at-append a none p q,
          record_at_twice a p,
        )
        refl

pub restart-IsDurable : (s : KycStore) → IsDurable s → IsDurable (restart s)
unfolding restart
restart-IsDurable s d = record {
  memory = load-Reads s.disk.snapshot s.disk.audit d.snapshot;
  snapshot = d.snapshot;
}

-- A line at the end of the log is read last.
record_at-concat :
    (a : String) (lines : List (Option KycAuditEntry)) (e : KycAuditEntry)
    → record_at a none (lines ++ some e ∷ []) ≡ (
        if str_eq e.address a
        then some (merge (record_at a none lines) e)
        else record_at a none lines)
unfolding record_at
record_at-concat a lines e = record_at-append a none lines (some e ∷ [])

Reads-insert :
    (records : List (String × KycRecord)) (lines : List (Option KycAuditEntry)) (e : KycAuditEntry)
    → Reads records lines
    → Reads (insert e.address (merge (lookup e.address records) e) records) (lines ++ some e ∷ [])
Reads-insert records lines e reads a = ground (
  arith,
  record_at-concat a lines e,
  lookup-insert e.address a (merge (lookup e.address records) e) records,
  reads a,
  str_eq_iff e.address a,
)

IsPrefixState-concat :
    (f : SnapshotFile) (lines : List (Option KycAuditEntry)) (l : Option KycAuditEntry)
    → IsPrefixState f lines
    → IsPrefixState f (lines ++ l ∷ [])
IsPrefixState-concat missing lines l h = h
IsPrefixState-concat unreadable lines l h = h
IsPrefixState-concat (saved records) lines l (p, q, e, reads) =
    (p, q ++ l ∷ [], rw (e, append_assoc p q (l ∷ [])), reads)

persist-snapshot :
    (w : Writes) (records : List (String × KycRecord)) (e : KycAuditEntry) (d : Disk)
    → w.audit_ok ≡ true
    → Reads records (d.audit ++ some e ∷ [])
    → IsPrefixState d.snapshot d.audit
    → IsPrefixState (persist w records e d).snapshot (persist w records e d).audit
unfolding persist
persist-snapshot w records e d ok reads h = elim (Bool-cases w.snapshot_ok) [
  | inl wrote ↦ rw (wrote, ok) (d.audit ++ some e ∷ [], [], sym (append-nil _), reads)
  | inr failed ↦ rw (failed, ok) (IsPrefixState-concat d.snapshot d.audit (some e) h)
]

pub persist-audit :
    (w : Writes) (records : List (String × KycRecord)) (e : KycAuditEntry) (d : Disk)
    → w.audit_ok ≡ true
    → (persist w records e d).audit ≡ d.audit ++ some e ∷ []
unfolding persist
persist-audit w records e d ok = rw ok

commit-IsDurable :
    (existing : Option KycRecord) (input : TransitionInput) (id : String) (now : ℕ) (w : Writes)
    (s : KycStore)
    → lookup input.address s.records ≡ existing
    → w.audit_ok ≡ true
    → IsDurable s
    → IsDurable (commit existing input id now w s).0
unfolding commit entry_of
commit-IsDurable existing input id now w s found ok d =
    let e = entry_of existing input id now in
    let reads : Reads (insert input.address (merge existing e) s.records)
        (s.disk.audit ++ some e ∷ []) =
      rw found at (Reads-insert s.records s.disk.audit e d.memory) in
    record {
      memory =
          rw (persist-audit w (insert input.address (merge existing e) s.records) e s.disk ok)
            reads;
      snapshot =
          persist-snapshot w (insert input.address (merge existing e) s.records) e s.disk ok reads
            d.snapshot;
    }

pub apply_transition-IsDurable :
    (input : TransitionInput) (id : String) (now : ℕ) (w : Writes) (s : KycStore)
    → w.audit_ok ≡ true
    → IsDurable s
    → IsDurable (apply_transition input id now w s).0
unfolding apply_transition
apply_transition-IsDurable input id now w s ok d =
    elim (Option-cases (lookup input.address s.records)) [
      | inl absent ↦
          rw (absent, apply_transition) (commit-IsDurable none input id now w s absent ok d)
      | inr (r, found) ↦ elim (Bool-cases (unchanged r input)) [
        | inl same ↦ rw (found, apply_transition, same) d
        | inr differs ↦
            rw (found, apply_transition, differs)
              (commit-IsDurable (some r) input id now w s found ok d)
      ]
    ]

pub run-IsDurable :
    (es : List Event) (s : KycStore) → AllLogged es → IsDurable s → IsDurable (run es s)
run-IsDurable [] s l d = d
run-IsDurable (transition input id now w ∷ es) s (ok, l) d =
    run-IsDurable es (step (transition input id now w) s) l
      (apply_transition-IsDurable input id now w s ok d)
run-IsDurable (restarts ∷ es) s (_, l) d = run-IsDurable es (restart s) l (restart-IsDurable s d)

-- From a durable store, whose memory is what its log says and whose snapshot file is there, unreadable
-- or with the records of an earlier point of the log, and after any transitions and restarts whose
-- audit lines were all written (the snapshot writes may fail), one more restart finds at every address
-- the record that the memory holds.
pub restart-run :
    (es : List Event) (s : KycStore) (a : String)
    → AllLogged es
    → IsDurable s
    → lookup a (restart (run es s)).records ≡ lookup a (run es s).records
unfolding restart
restart-run es s a l d =
    let v = run-IsDurable es s l d in (restart-IsDurable (run es s) v).memory a ∙ sym (v.memory a)

-- In a new directory, if the first snapshot write fails and the audit line is written, a restart
-- forgets the record, which reading the log would have brought back: `loadSnapshot` returns
-- before `replayAudit` where the snapshot is missing.
pub restart_forgets :
    (input : TransitionInput) (id : String) (now : ℕ) (w : Writes)
    → w.audit_ok ≡ true
    → w.snapshot_ok ≡ false
    → let s =
        (apply_transition input id now w
          (record { records = []; disk = record { snapshot = missing; audit = [] } })).0 in
      (lookup input.address (restart s).records ≡ none)
      × (lookup input.address (replay_audit [] s.disk.audit) ≡ lookup input.address s.records)
      × (lookup input.address s.records ≢ none)
unfolding apply_transition commit entry_of persist restart load_snapshot replay_audit replay_line
    lookup insert
restart_forgets input id now w ok failed =
    let itself = (str_eq_iff input.address input.address).1 refl in
    (ground arith, ground arith, rw itself (λ e. cc e))
