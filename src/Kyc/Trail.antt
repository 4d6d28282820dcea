-- ===== src/Kyc/Trail.antt =====
-- The audit log as a chain of statuses.
use eco_mint.Prelude.{
  ℕ, String, true, Option, none, some, List, [], ◌∷◌, ◌++◌, ◌≡◌, ap, sym, ◌∙◌, str_eq,
  if◌then◌else◌, inl, inr, Bool-cases, Option-cases, string_has_eq, str_eq_iff,
}
use eco_mint.Prelude.Dict.{lookup, insert}
use eco_mint.Kyc.Types.{KycAuditEntry, KycRecord}
use eco_mint.Kyc.Store.{
  KycStore, Writes, TransitionInput, entry_of, merge, status_or_pending, commit, unchanged,
  apply_transition, restart,
}
use eco_mint.Kyc.History.{record_at}
use eco_mint.Kyc.Recovery.{
  Event, transition, restarts, step, run, AllLogged, IsDurable, apply_transition-IsDurable,
  restart-IsDurable, persist-audit,
}

-- Each entry at the address starts from the status that the lines before it left.
abbrev pub LinkedAt : String → Option KycRecord → List (Option KycAuditEntry) → Type 0
LinkedAt a r [] = Unit {0}
LinkedAt a r (none ∷ lines) = LinkedAt a r lines
LinkedAt a r (some e ∷ lines) =
    (str_eq e.address a ≡ true → e.from_status ≡ status_or_pending r)
    × LinkedAt a (if str_eq e.address a then some (merge r e) else r) lines

abbrev pub IsLinked : List (Option KycAuditEntry) → Type 0
IsLinked lines = (a : String) → LinkedAt a none lines

LinkedAt-concat :
    (a : String) (r : Option KycRecord) (lines : List (Option KycAuditEntry)) (e : KycAuditEntry)
    → LinkedAt a r lines
    → (str_eq e.address a ≡ true → e.from_status ≡ status_or_pending (record_at a r lines))
    → LinkedAt a r (lines ++ some e ∷ [])
unfolding record_at
LinkedAt-concat a r [] e l h = (h, tt)
LinkedAt-concat a r (none ∷ lines) e l h = LinkedAt-concat a r lines e l h
LinkedAt-concat a r (some x ∷ lines) e (here, l) h =
    (here, LinkedAt-concat a (if str_eq x.address a then some (merge r x) else r) lines e l h)

commit-IsLinked :
    (existing : Option KycRecord) (input : TransitionInput) (id : String) (now : ℕ) (w : Writes)
    (s : KycStore)
    → lookup input.address s.records ≡ existing
    → w.audit_ok ≡ true
    → IsDurable s
    → IsLinked s.disk.audit
    → IsLinked (commit existing input id now w s).0.disk.audit
unfolding commit entry_of
commit-IsLinked existing input id now w s found ok d l a =
    let e = entry_of existing input id now in
    rw (persist-audit w (insert input.address (merge existing e) s.records) e s.disk ok) (
      LinkedAt-concat a none s.disk.audit e (l a) (λ same.
        let past : existing ≡ record_at a none s.disk.audit =
          sym found ∙ rw ((str_eq_iff input.address a).0 same) (d.memory a) in
        ap status_or_pending past))

apply_transition-IsLinked :
    (input : TransitionInput) (id : String) (now : ℕ) (w : Writes) (s : KycStore)
    → w.audit_ok ≡ true
    → IsDurable s
    → IsLinked s.disk.audit
    → IsLinked (apply_transition input id now w s).0.disk.audit
unfolding apply_transition
apply_transition-IsLinked input id now w s ok d l =
    elim (Option-cases (lookup input.address s.records)) [
      | inl absent ↦
          rw (absent, apply_transition) (commit-IsLinked none input id now w s absent ok d l)
      | inr (r, found) ↦ elim (Bool-cases (unchanged r input)) [
        | inl same ↦ rw (found, apply_transition, same) l
        | inr differs ↦
            rw (found, apply_transition, differs)
              (commit-IsLinked (some r) input id now w s found ok d l)
      ]
    ]

-- From a durable store, whose memory is what its log says and whose snapshot file is there, unreadable
-- or with the records of an earlier point of the log, and whose log is linked, as long as every audit
-- line is written, each entry of the log starts from the status that the earlier entries of its
-- address left (`pending` if there are none), whatever transitions and restarts follow.
pub run-IsLinked :
    (es : List Event) (s : KycStore)
    → AllLogged es
    → IsDurable s
    → IsLinked s.disk.audit
    → IsLinked (run es s).disk.audit
unfolding restart
run-IsLinked [] s ok d l = l
run-IsLinked (transition input id now w ∷ es) s (ok, oks) d l =
    run-IsLinked es (step (transition input id now w) s) oks
      (apply_transition-IsDurable input id now w s ok d)
      (apply_transition-IsLinked input id now w s ok d l)
run-IsLinked (restarts ∷ es) s (_, oks) d l =
    run-IsLinked es (restart s) oks (restart-IsDurable s d) l
