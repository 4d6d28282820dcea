-- ===== src/Idempotency/Retries.antt =====
-- What a stored error lets through.
use eco_mint.Prelude.{ℕ, String, none, some, ◌≡◌, refl, sym, ap, ◌∙◌, arith, nat_eq_iff, str_eq_iff}
use eco_mint.Idempotency.Service.{error, IdempotencyRecord, mark_pending}
use eco_mint.Idempotency.Interceptor.{
  check, Pc, arrived, checked, not_acquired, executing, System, update, after_look, after_reserve,
  after_second_look, look, reserve, look_again, looks, reserves, looks_again, Steps, stay, after,
}

-- A handler has thrown, and its error stands under the key, with the payload of the retry.
pub record IsRetriable (s : System) (fp : String) : Type 0 where
  pub stored : IdempotencyRecord
  pub in_slot : s.slot ≡ some stored
  pub status : stored.status ≡ error
  pub payload : stored.fingerprint ≡ fp

check-passes :
    (fp : String) (r : IdempotencyRecord)
    → r.status ≡ error
    → r.fingerprint ≡ fp
    → check fp (some r) ≡ none
unfolding check
check-passes fp r failed same = ground (arith, failed, same, str_eq_iff r.fingerprint fp)

update-here : (f : ℕ → Pc) (i : ℕ) (p : Pc) → update f i p i ≡ p
update-here f i p = ground (arith, nat_eq_iff i i)

update-elsewhere : (f : ℕ → Pc) (i j : ℕ) (p : Pc) → ¬ (i ≡ j) → update f i p j ≡ f j
update-elsewhere f i j p apart = ground (arith, nat_eq_iff i j)

append : {s t u : System} → Steps s t → Steps t u → Steps s u
append first stay = first
append first (after rest step) = after (append first rest) step

look-passes :
    (s : System) (i : ℕ) (fp : String) → IsRetriable s fp → (look s i fp).pc i ≡ checked fp
unfolding look
look-passes s i fp h =
    update-here s.pc i (after_look fp (check fp s.slot))
    ∙ ap (after_look fp) (ap (check fp) h.in_slot ∙ check-passes fp h.stored h.status h.payload)

reserve-refused :
    (s : System) (i : ℕ) (fp : String) (now : ℕ)
    → IsRetriable s fp
    → ((reserve s i fp now).pc i ≡ not_acquired fp) × ((reserve s i fp now).slot ≡ s.slot)
unfolding reserve mark_pending
reserve-refused s i fp now h = (
  update-here s.pc i (after_reserve fp (mark_pending fp now s.slot).1) ∙ rw h.in_slot refl,
  rw h.in_slot refl,
)

look_again-passes :
    (s : System) (i : ℕ) (fp : String) → IsRetriable s fp → (look_again s i fp).pc i ≡ executing fp
unfolding look_again
look_again-passes s i fp h =
    update-here s.pc i (after_second_look fp (check fp s.slot))
    ∙ ap (after_second_look fp)
        (ap (check fp) h.in_slot ∙ check-passes fp h.stored h.status h.payload)

moved-slot : (s t : System) (fp : String) → t.slot ≡ s.slot → IsRetriable s fp → IsRetriable t fp
moved-slot s t fp e h = record {
  stored = h.stored;
  in_slot = e ∙ h.in_slot;
  status = h.status;
  payload = h.payload;
}

-- The three moves of a retry, which leave the slot and the other requests.
retry : System → ℕ → String → System
retry s i fp = look_again (reserve (look s i fp) i fp 0) i fp

record IsStarted (s t : System) (i : ℕ) (fp : String) : Type 0 where
  steps : Steps s t
  runs : t.pc i ≡ executing fp
  retriable : IsRetriable t fp
  others : (j : ℕ) → ¬ (i ≡ j) → t.pc j ≡ s.pc j

elsewhere : (s : System) (i j : ℕ) (fp : String) → ¬ (i ≡ j) → (retry s i fp).pc j ≡ s.pc j
unfolding retry look reserve look_again
elsewhere s i j fp apart =
    let s' = look s i fp in
    let s'' = reserve s' i fp 0 in
    update-elsewhere s''.pc i j (after_second_look fp (check fp s''.slot)) apart
    ∙ (update-elsewhere s'.pc i j (after_reserve fp (mark_pending fp 0 s'.slot).1) apart
        ∙ update-elsewhere s.pc i j (after_look fp (check fp s.slot)) apart)

retry-IsStarted :
    (s : System) (i : ℕ) (fp : String)
    → IsRetriable s fp
    → s.pc i ≡ arrived fp
    → IsStarted s (retry s i fp) i fp
unfolding retry
retry-IsStarted s i fp h at =
    let s' = look s i fp in
    let s'' = reserve s' i fp 0 in
    let h' : IsRetriable s' fp = moved-slot s s' fp (unfold look in refl) h in
    let (refused, kept) = reserve-refused s' i fp 0 h' in
    let h'' : IsRetriable s'' fp = moved-slot s' s'' fp kept h' in
    record {
      steps =
          after (after (after stay (looks i fp at)) (reserves i fp 0 (look-passes s i fp h)))
            (looks_again i fp refused);
      runs = look_again-passes s'' i fp h'';
      retriable = moved-slot s'' (look_again s'' i fp) fp (unfold look_again in refl) h'';
      others = λ j apart. elsewhere s i j fp apart;
    }

-- After a handler has thrown, two retries of the request that arrive together can both come to run the
-- handler.
pub retries-both_execute :
    (s : System) (i j : ℕ) (fp : String)
    → IsRetriable s fp
    → ¬ (i ≡ j)
    → s.pc i ≡ arrived fp
    → s.pc j ≡ arrived fp
    → (t : System) × (Steps s t × ((t.pc i ≡ executing fp) × (t.pc j ≡ executing fp)))
retries-both_execute s i j fp h apart at_i at_j =
    let first = retry-IsStarted s i fp h at_i in
    let second =
      retry-IsStarted (retry s i fp) j fp first.retriable (first.others j apart ∙ at_j) in
    (
      retry (retry s i fp) j fp,
      (
        append first.steps second.steps,
        (second.others i (λ e. apart (sym e)) ∙ first.runs, second.runs),
      ),
    )
