-- ===== src/Kyc/History.antt =====
-- The record that a sequence of audit lines leaves at one address, read once or twice.
use eco_mint.Prelude.{
  String, Option, none, some, List, [], ◌∷◌, ◌++◌, str_eq, or_else, ◌≡◌, refl, ap, ◌∙◌,
  string_has_eq, str_eq_iff, if◌then◌else◌, arith, inl, inr, Bool-cases,
}
use eco_mint.Prelude.Dict.{lookup, lookup-insert}
use eco_mint.Kyc.Types.{KycAuditEntry, KycRecord}
use eco_mint.Kyc.Store.{merge, replay_line, replay_audit}

-- The audit lines, read for one address only.
unfoldable pub record_at :
    String → Option KycRecord → List (Option KycAuditEntry) → Option KycRecord
record_at a r [] = r
record_at a r (none ∷ lines) = record_at a r lines
record_at a r (some e ∷ lines) =
    record_at a (if str_eq e.address a then some (merge r e) else r) lines

pub record_at-append :
    (a : String) (r : Option KycRecord) (xs ys : List (Option KycAuditEntry))
    → record_at a r (xs ++ ys) ≡ record_at a (record_at a r xs) ys
unfolding record_at
record_at-append a r [] ys = refl
record_at-append a r (none ∷ xs) ys = record_at-append a r xs ys
record_at-append a r (some e ∷ xs) ys =
    record_at-append a (if str_eq e.address a then some (merge r e) else r) xs ys

lookup-replay_line :
    (a : String) (records : List (String × KycRecord)) (e : KycAuditEntry)
    → lookup a (replay_line records (some e))
      ≡ (if str_eq e.address a then some (merge (lookup a records) e) else lookup a records)
unfolding replay_line
lookup-replay_line a records e = ground (
  arith,
  lookup-insert e.address a (merge (lookup e.address records) e) records,
  str_eq_iff e.address a,
)

replay_line_none : (records : List (String × KycRecord)) → replay_line records none ≡ records
unfolding replay_line
replay_line_none records = refl

pub lookup-replay_audit :
    (a : String) (records : List (String × KycRecord)) (lines : List (Option KycAuditEntry))
    → lookup a (replay_audit records lines) ≡ record_at a (lookup a records) lines
unfolding replay_audit record_at
lookup-replay_audit a records [] = refl
lookup-replay_audit a records (none ∷ lines) =
    rw (replay_line_none records) (lookup-replay_audit a records lines)
lookup-replay_audit a records (some e ∷ lines) =
    lookup-replay_audit a (replay_line records (some e)) lines
    ∙ ap (λ r. record_at a r lines) (lookup-replay_line a records e)

module _ {X : Type 0} (f : KycAuditEntry → Option X) (a : String) where
  -- The last value that is not null.
  latest : Option X → List (Option KycAuditEntry) → Option X
  latest d [] = d
  latest d (none ∷ lines) = latest d lines
  latest d (some e ∷ lines) = latest (if str_eq e.address a then or_else (f e) d else d) lines

  latest-or_else :
      (d : Option X) (lines : List (Option KycAuditEntry))
      → latest d lines ≡ or_else (latest none lines) d
  unfolding latest
  latest-or_else d [] = refl
  latest-or_else d (none ∷ lines) = latest-or_else d lines
  latest-or_else d (some e ∷ lines) = ground (
    arith,
    latest-or_else d lines,
    latest-or_else (or_else (f e) d) lines,
    latest-or_else (f e) lines,
  )

  latest_twice :
      (d : Option X) (lines : List (Option KycAuditEntry))
      → latest (or_else d (latest d lines)) lines ≡ latest d lines
  latest_twice d lines =
      ground (arith, latest-or_else d lines, latest-or_else (or_else d (latest d lines)) lines)

module _ {X : Type 0} (f : KycAuditEntry → X) (a : String) where
  last : X → List (Option KycAuditEntry) → X
  last d [] = d
  last d (none ∷ lines) = last d lines
  last d (some e ∷ lines) = last (if str_eq e.address a then f e else d) lines

summary : String → KycRecord → List (Option KycAuditEntry) → KycRecord
summary a r lines = record r {
  status = last (λ e. e.to_status) a r.status lines;
  source = last (λ e. e.source) a r.source lines;
  actor = latest (λ e. e.actor) a r.actor lines;
  reason = latest (λ e. e.reason) a r.reason lines;
  provider_reference = latest (λ e. e.provider_reference) a r.provider_reference lines;
  expires_at = latest (λ e. e.expires_at) a r.expires_at lines;
  updated_at = last (λ e. e.timestamp) a r.updated_at lines;
}

record_at-summary :
    (a : String) (r : KycRecord) (lines : List (Option KycAuditEntry))
    → record_at a (some r) lines ≡ some (summary a r lines)
unfolding record_at summary latest last merge
record_at-summary a r [] = refl
record_at-summary a r (none ∷ lines) = record_at-summary a r lines
record_at-summary a r (some e ∷ lines) = elim (Bool-cases (str_eq e.address a)) [
  | inl same ↦ rw same (record_at-summary a (merge (some r) e) lines)
  | inr other ↦ rw other (record_at-summary a r lines)
]

summary_twice :
    (a : String) (e : KycAuditEntry) (lines : List (Option KycAuditEntry))
    → summary a (merge (some (summary a (merge none e) lines)) e) lines
      ≡ summary a (merge none e) lines
unfolding summary merge
summary_twice a e lines = cc (
  latest_twice (λ x. x.actor) a e.actor lines,
  latest_twice (λ x. x.reason) a e.reason lines,
  latest_twice (λ x. x.provider_reference) a e.provider_reference lines,
  latest_twice (λ x. x.expires_at) a e.expires_at lines,
)

-- Reading the same lines again changes nothing.
pub record_at_twice :
    (a : String) (lines : List (Option KycAuditEntry))
    → record_at a (record_at a none lines) lines ≡ record_at a none lines
unfolding record_at
record_at_twice a [] = refl
record_at_twice a (none ∷ lines) = record_at_twice a lines
record_at_twice a (some e ∷ lines) = elim (Bool-cases (str_eq e.address a)) [
  | inl same ↦
      rw (same, record_at-summary a (merge none e) lines)
        (record_at-summary a (merge (some (summary a (merge none e) lines)) e) lines
          ∙ ap some (summary_twice a e lines))
  | inr other ↦ rw other (record_at_twice a lines)
]
