-- ===== src/Idempotency/Once.antt =====
-- While no handler throws, one handler runs for a key.
use eco_mint.Prelude.{
  ℕ, ◌≤◌, String, Bool, true, false, Option, none, some, [], length, ◌≡◌, refl, subst, arith,
  nat_eq, inl, inr, Bool-cases, Option-cases,
}
use eco_mint.Idempotency.Service.{
  error, IdempotencyRecord, mark_pending, pending_record, Ending, returned, threw, completed,
}
use eco_mint.Idempotency.Interceptor.{
  Answer, check, Pc, arrived, checked, not_acquired, executing, completing, storing, finished,
  System, update, threw_error, after_look, after_reserve, after_second_look, look, reserve,
  look_again, handle, read_existing, store, Step, looks, reserves, looks_again, handles, reads,
  stores, init, Steps, stay, after,
}

-- Nothing was started at this point of a request.
abbrev pub IsEarly : Pc → Type 0
IsEarly (arrived fp) = Unit {0}
IsEarly (checked fp) = Unit {0}
IsEarly (finished answer) = Unit {0}
IsEarly p = ⊥

-- No ending that is about to be written is an error.
abbrev pub IsCalm : Pc → Type 0
IsCalm (completing ending) = threw_error ending ≡ false
IsCalm (storing existing ending) = threw_error ending ≡ false
IsCalm p = Unit {0}

pub data Inv (s : System) : Type 0 where
  unused : s.slot ≡ none → s.executed ≡ [] → ((i : ℕ) → IsEarly (s.pc i)) → Inv s
  held :
      (r : IdempotencyRecord)
      → s.slot ≡ some r
      → ¬ (r.status ≡ error)
      → length s.executed ≡ 1
      → ((i : ℕ) → IsCalm (s.pc i))
      → Inv s
  broken : s.failed ≡ true → Inv s

-- A predicate of all program counters after one has moved.
update-all :
    (P : Pc → Type 0) (f : ℕ → Pc) (i : ℕ) (p : Pc)
    → ((j : ℕ) → P (f j))
    → P p
    → (j : ℕ) → P (update f i p j)
update-all P f i p all here j = elim (Bool-cases (nat_eq i j)) [
  | inl is ↦ rw is here
  | inr isnt ↦ rw isnt (all j)
]

-- At the request that moves.
moved : (P : Pc → Type 0) (s : System) (i : ℕ) (p : Pc) → s.pc i ≡ p → ((j : ℕ) → P (s.pc j)) → P p
moved P s i p e all = subst P e (all i)

IsEarly-IsCalm : (p : Pc) → IsEarly p → IsCalm p
IsEarly-IsCalm (arrived fp) h = tt
IsEarly-IsCalm (checked fp) h = tt
IsEarly-IsCalm (finished answer) h = tt
IsEarly-IsCalm (not_acquired fp) h = tt
IsEarly-IsCalm (executing fp) h = tt
IsEarly-IsCalm (completing ending) h = absurd h
IsEarly-IsCalm (storing existing ending) h = absurd h

after_look-IsEarly : (fp : String) (a : Option Answer) → IsEarly (after_look fp a)
after_look-IsEarly fp none = tt
after_look-IsEarly fp (some a) = tt

after_reserve-IsCalm : (fp : String) (b : Bool) → IsCalm (after_reserve fp b)
after_reserve-IsCalm fp true = tt
after_reserve-IsCalm fp false = tt

after_second_look-IsCalm : (fp : String) (a : Option Answer) → IsCalm (after_second_look fp a)
after_second_look-IsCalm fp none = tt
after_second_look-IsCalm fp (some a) = tt

check-held :
    (fp : String) (r : IdempotencyRecord)
    → ¬ (r.status ≡ error)
    → (answer : Answer) × (check fp (some r) ≡ some answer)
unfolding check
check-held fp r fine = elim (Option-cases (check fp (some r))) [
  | inl passed ↦ absurd (fine (ground arith))
  | inr found ↦ found
]

look-Inv : (s : System) (i : ℕ) (fp : String) → Inv s → Inv (look s i fp)
unfolding look
look-Inv s i fp (unused e x early) =
    unused e x (update-all IsEarly s.pc i _ early (after_look-IsEarly fp (check fp s.slot)))
look-Inv s i fp (held r e fine one calm) = held r e fine one (
    update-all IsCalm s.pc i (after_look fp (check fp s.slot)) calm
      (IsEarly-IsCalm (after_look fp (check fp s.slot)) (after_look-IsEarly fp (check fp s.slot))))
look-Inv s i fp (broken f) = broken f

reserve-Inv : (s : System) (i : ℕ) (fp : String) (now : ℕ) → Inv s → Inv (reserve s i fp now)
unfolding reserve mark_pending
reserve-Inv s i fp now (unused e x early) =
    held (pending_record fp now) (rw e refl) (λ h. absurd (ground arith)) (rw (e, x) refl)
      (update-all IsCalm s.pc i (after_reserve fp (mark_pending fp now s.slot).1)
        (λ j. IsEarly-IsCalm (s.pc j) (early j))
        (after_reserve-IsCalm fp (mark_pending fp now s.slot).1))
reserve-Inv s i fp now (held r e fine one calm) = held r (rw e refl) fine (rw e one) (
    update-all IsCalm s.pc i (after_reserve fp (mark_pending fp now s.slot).1) calm
      (after_reserve-IsCalm fp (mark_pending fp now s.slot).1))
reserve-Inv s i fp now (broken f) = broken f

look_again-Inv :
    (s : System) (i : ℕ) (fp : String) → s.pc i ≡ not_acquired fp → Inv s → Inv (look_again s i fp)
unfolding look_again
look_again-Inv s i fp at (unused e x early) = absurd (moved IsEarly s i (not_acquired fp) at early)
look_again-Inv s i fp at (held r e fine one calm) =
    let (answer, refused) = check-held fp r fine in
    held r e fine (rw (e, refused) one) (
      update-all IsCalm s.pc i (after_second_look fp (check fp s.slot)) calm
        (after_second_look-IsCalm fp (check fp s.slot)))
look_again-Inv s i fp at (broken f) = broken f

handle-Inv :
    (s : System) (i : ℕ) (fp : String) (ending : Ending)
    → s.pc i ≡ executing fp
    → Inv s
    → Inv (handle s i ending)
unfolding handle
handle-Inv s i fp ending at (unused e x early) = absurd (moved IsEarly s i (executing fp) at early)
handle-Inv s i fp (returned result hash) at (held r e fine one calm) =
    held r e fine one (update-all IsCalm s.pc i (completing (returned result hash)) calm refl)
handle-Inv s i fp (threw message) at (held r e fine one calm) = broken (ground arith)
handle-Inv s i fp ending at (broken f) = broken (ground (arith, f))

read_existing-Inv :
    (s : System) (i : ℕ) (ending : Ending)
    → s.pc i ≡ completing ending
    → Inv s
    → Inv (read_existing s i ending)
unfolding read_existing
read_existing-Inv s i ending at (unused e x early) =
    absurd (moved IsEarly s i (completing ending) at early)
read_existing-Inv s i ending at (held r e fine one calm) = held r e fine one (
    update-all IsCalm s.pc i (storing s.slot ending) calm
      (moved IsCalm s i (completing ending) at calm))
read_existing-Inv s i ending at (broken f) = broken f

completed-status :
    (existing : Option IdempotencyRecord) (ending : Ending) (code now : ℕ)
    → threw_error ending ≡ false
    → ¬ ((completed existing ending code now).status ≡ error)
unfolding completed
completed-status none (returned result hash) code now calm h = ground arith
completed-status (some r) (returned result hash) code now calm h = ground arith
completed-status existing (threw message) code now calm h = ground arith

store-Inv :
    (s : System) (i : ℕ) (existing : Option IdempotencyRecord) (ending : Ending) (code now : ℕ)
    → s.pc i ≡ storing existing ending
    → Inv s
    → Inv (store s i existing ending code now)
unfolding store
store-Inv s i existing ending code now at (unused e x early) =
    absurd (moved IsEarly s i (storing existing ending) at early)
store-Inv s i existing ending code now at (held r e fine one calm) =
    held (completed existing ending code now) refl
      (completed-status existing ending code now
        (moved IsCalm s i (storing existing ending) at calm))
      one (update-all IsCalm s.pc i _ calm tt)
store-Inv s i existing ending code now at (broken f) = broken f

Step-Inv : {s t : System} → Step s t → Inv s → Inv t
Step-Inv {s} (looks i fp at) inv = look-Inv s i fp inv
Step-Inv {s} (reserves i fp now at) inv = reserve-Inv s i fp now inv
Step-Inv {s} (looks_again i fp at) inv = look_again-Inv s i fp at inv
Step-Inv {s} (handles i fp ending at) inv = handle-Inv s i fp ending at inv
Step-Inv {s} (reads i ending at) inv = read_existing-Inv s i ending at inv
Step-Inv {s} (stores i r ending code now at) inv = store-Inv s i r ending code now at inv

Steps-Inv : {s t : System} → Steps s t → Inv s → Inv t
Steps-Inv stay inv = inv
Steps-Inv (after steps step) inv = Step-Inv step (Steps-Inv steps inv)

Inv-once : (s : System) → Inv s → s.failed ≡ false → length s.executed ≤ 1
Inv-once s (unused e x early) calm = rw x (omega arith)
Inv-once s (held r e fine one all) calm = omega (arith, one)
Inv-once s (broken f) calm = absurd (ground (arith, f, calm))

-- However any requests with one key interleave, from a key without a record, and while Redis answers
-- and keeps the record: as long as no handler has thrown, at most one handler has been started.
pub executed-once :
    (fingerprints : ℕ → String) (s : System)
    → Steps (init fingerprints) s
    → s.failed ≡ false
    → length s.executed ≤ 1
executed-once fingerprints s steps = Inv-once s (Steps-Inv steps (unused refl refl (λ i. tt)))
