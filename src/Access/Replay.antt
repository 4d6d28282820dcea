-- ===== src/Access/Replay.antt =====
-- Replays: sequences of checks of admin intents, and how long a nonce stays reserved.
use eco_mint.Prelude.{
  ℕ, ◌+◌, ◌*◌, ◌≤◌, ◌<◌, String, Bool, true, false, not, ◌||◌, Option, none, some, List, [], ◌∷◌,
  ltb, str_eq, str_eq_iff, if◌then◌else◌, string_has_eq, ◌≡◌, ◌≢◌, ◌⊎◌, inl, inr, refl, sym, ap,
  ◌∙◌, arith, Bool-cases,
}
use eco_mint.Prelude.Dict.{lookup, lookup-insert}
use eco_mint.Access.Intent.{
  AdminIntent, RawIntent, Verdict, Env, Nonces, fields_of, ttl_seconds, is_reserved, set_nx,
  check_fields, check_complete, verify, accepted, ms_of,
}

-- A check of a request at some time.
pub record Attempt : Type 0 where
  pub env : Env
  pub raw : Option RawIntent
  pub action : String
  pub target : String

abbrev pub attempt : Attempt → Nonces → Nonces × Verdict
attempt a s = verify a.env a.raw a.action a.target s

abbrev pub run : List Attempt → Nonces → Nonces
run [] s = s
run (a ∷ attempts) s = run attempts (attempt a s).0

-- The clock does not run backwards from `t` on.
abbrev pub IsOrdered : ℕ → List Attempt → Type 0
IsOrdered t [] = Unit {0}
IsOrdered t (a ∷ attempts) = (t ≤ a.env.now) × IsOrdered a.env.now attempts

-- At the time `t` the intent cannot be accepted any more: its nonce is reserved for longer than it
-- lives, or it has expired.
IsSpent : AdminIntent → ℕ → Nonces → Type 0
IsSpent i t s =
    ((until : ℕ) × (lookup i.nonce s ≡ some until) × (i.expiry < until)) ⊎ (i.expiry < t)

ttl-outlives : (expiry now : ℕ) → expiry < now + ttl_seconds expiry now * 1000
unfolding ttl_seconds
ttl-outlives expiry now = omega arith

set_nx-lookup :
    (env : Env) (j nonce : String) (seconds : ℕ) (s : Nonces)
    → lookup j (set_nx env nonce seconds s).0 ≡ (
        if (not env.redis_up || is_reserved env.now (lookup nonce s)) || not (str_eq nonce j)
        then lookup j s
        else some (env.now + seconds * 1000))
unfolding set_nx
set_nx-lookup env j nonce seconds s =
    ground (arith, lookup-insert nonce j (env.now + seconds * 1000) s)

set_nx-IsSpent :
    (i : AdminIntent) (t : ℕ) (env : Env) (nonce : String) (seconds : ℕ) (s : Nonces)
    → t ≤ env.now
    → IsSpent i t s
    → IsSpent i env.now (set_nx env nonce seconds s).0
unfolding IsSpent
set_nx-IsSpent i t env nonce seconds s later (inr past) = inr (omega arith)
set_nx-IsSpent i t env nonce seconds s later (inl (until, found, long)) =
    elim (Bool-cases (ltb env.now until)) [
      | inl blocked ↦ elim (Bool-cases (str_eq nonce i.nonce)) [
        | inl same ↦
            let e : nonce ≡ i.nonce = (str_eq_iff nonce i.nonce).0 same in
            let kept : is_reserved env.now (lookup nonce s) ≡ true =
              ap (is_reserved env.now) (ap (λ n. lookup n s) e ∙ found) ∙ blocked in
            inl
              (until, set_nx-lookup env i.nonce nonce seconds s ∙ ground (arith, kept, found), long)
        | inr other ↦
            inl (
              until,
              set_nx-lookup env i.nonce nonce seconds s ∙ ground (arith, other, found),
              long,
            )
      ]
      | inr over ↦ inr (ground arith)
    ]

later-IsSpent : (i : AdminIntent) (t u : ℕ) (s : Nonces) → t ≤ u → IsSpent i t s → IsSpent i u s
unfolding IsSpent
later-IsSpent i t u s h (inl x) = inl x
later-IsSpent i t u s h (inr past) = inr (omega arith)

either-IsSpent :
    (i : AdminIntent) (t : ℕ) (b : Bool) (x y : Nonces × Verdict)
    → IsSpent i t x.0
    → IsSpent i t y.0
    → IsSpent i t (if b then x else y).0
either-IsSpent i t true x y h k = h
either-IsSpent i t false x y h k = k

check_fields-IsSpent :
    (i : AdminIntent) (t : ℕ) (env : Env) (action target : String) (s : Nonces) (j : AdminIntent)
    (expiry : Option ℕ)
    → t ≤ env.now
    → IsSpent i t s
    → IsSpent i env.now (check_fields env action target s j expiry).0
unfolding check_fields
check_fields-IsSpent i t env action target s j expiry later spent =
    let h = later-IsSpent i t env.now s later spent in
    let last = set_nx-IsSpent i t env j.nonce (ttl_seconds j.expiry env.now) s later spent in
    ground (arith, h, last)

check_complete-IsSpent :
    (i : AdminIntent) (t : ℕ) (env : Env) (action target : String) (s : Nonces)
    (f : Option (AdminIntent × Option ℕ))
    → t ≤ env.now
    → IsSpent i t s
    → IsSpent i env.now (check_complete env action target s f).0
check_complete-IsSpent i t env action target s none later spent =
    later-IsSpent i t env.now s later spent
check_complete-IsSpent i t env action target s (some (j, expiry)) later spent =
    check_fields-IsSpent i t env action target s j expiry later spent

verify-IsSpent :
    (i : AdminIntent) (t : ℕ) (env : Env) (raw : Option RawIntent) (action target : String)
    (s : Nonces)
    → t ≤ env.now
    → IsSpent i t s
    → IsSpent i env.now (verify env raw action target s).0
unfolding verify
verify-IsSpent i t env none action target s later spent = later-IsSpent i t env.now s later spent
verify-IsSpent i t env (some r) action target s later spent =
    check_complete-IsSpent i t env action target s (fields_of r) later spent

-- The time of the last attempt.
abbrev pub last_time : ℕ → List Attempt → ℕ
last_time t [] = t
last_time t (a ∷ attempts) = last_time a.env.now attempts

run-IsSpent :
    (i : AdminIntent) (t : ℕ) (attempts : List Attempt) (s : Nonces)
    → IsOrdered t attempts
    → IsSpent i t s
    → IsSpent i (last_time t attempts) (run attempts s)
run-IsSpent i t [] s o spent = spent
run-IsSpent i t (a ∷ attempts) s (later, o) spent =
    run-IsSpent i a.env.now attempts (attempt a s).0 o
      (verify-IsSpent i t a.env a.raw a.action a.target s later spent)

-- What an acceptance tells.
IsAccepted : Env → AdminIntent → Nonces → Nonces → Type 0
IsAccepted env i s s' =
    (env.now ≤ i.expiry)
    × (is_reserved env.now (lookup i.nonce s) ≡ false)
    × (lookup i.nonce s' ≡ some (env.now + ttl_seconds i.expiry env.now * 1000))

check_fields-IsAccepted :
    (env : Env) (action target : String) (s : Nonces) (i j : AdminIntent) (expiry : Option ℕ)
    → j.expiry ≡ ms_of expiry
    → (check_fields env action target s j expiry).1 ≡ accepted i
    → IsAccepted env i s (check_fields env action target s j expiry).0
unfolding check_fields set_nx IsAccepted
check_fields-IsAccepted env action target s i j none e h = ground arith
check_fields-IsAccepted env action target s i j (some t) e h = ground (
  arith,
  lookup-insert j.nonce j.nonce (env.now + ttl_seconds j.expiry env.now * 1000) s,
  str_eq_iff j.nonce j.nonce,
)

fields_of-expiry :
    (r : RawIntent) (i : AdminIntent) (e : Option ℕ)
    → fields_of r ≡ some (i, e)
    → i.expiry ≡ ms_of e
unfolding fields_of
fields_of-expiry r i e h = ground arith

check_complete-IsAccepted :
    (env : Env) (action target : String) (s : Nonces) (i : AdminIntent)
    (f : Option (AdminIntent × Option ℕ))
    → ((j : AdminIntent) (e : Option ℕ) → f ≡ some (j, e) → j.expiry ≡ ms_of e)
    → (check_complete env action target s f).1 ≡ accepted i
    → IsAccepted env i s (check_complete env action target s f).0
check_complete-IsAccepted env action target s i none g h = absurd (ground arith)
check_complete-IsAccepted env action target s i (some (j, e)) g h =
    check_fields-IsAccepted env action target s i j e (g j e refl) h

verify-IsAccepted :
    (env : Env) (raw : Option RawIntent) (action target : String) (s : Nonces) (i : AdminIntent)
    → (verify env raw action target s).1 ≡ accepted i
    → IsAccepted env i s (verify env raw action target s).0
unfolding verify
verify-IsAccepted env none action target s i h = ground arith
verify-IsAccepted env (some r) action target s i h =
    check_complete-IsAccepted env action target s i (fields_of r)
      (λ j e k. fields_of-expiry r j e k) h

-- An intent that was accepted is not accepted again, whatever requests are checked in between, as
-- long as the clock does not run backwards: its nonce stays reserved until it has expired.
pub accepted-once :
    (a b : Attempt) (attempts : List Attempt) (s : Nonces) (i : AdminIntent)
    → (attempt a s).1 ≡ accepted i
    → IsOrdered a.env.now attempts
    → last_time a.env.now attempts ≤ b.env.now
    → (attempt b (run attempts (attempt a s).0)).1 ≢ accepted i
unfolding IsAccepted IsSpent
accepted-once a b attempts s i first o later again =
    let (alive, free, kept) = verify-IsAccepted a.env a.raw a.action a.target s i first in
    let t = run attempts (attempt a s).0 in
    let (alive_again, free_again, _) = verify-IsAccepted b.env b.raw b.action b.target t i again in
    let spent = run-IsSpent i a.env.now attempts (attempt a s).0 o (
      inl (
        a.env.now + ttl_seconds i.expiry a.env.now * 1000,
        kept,
        ttl-outlives i.expiry a.env.now,
      )) in
    elim spent [
      | inl (until, found, long) ↦
          let open_at : is_reserved b.env.now (some until) ≡ false =
            ap (is_reserved b.env.now) (sym found) ∙ free_again in
          ground (arith, open_at)
      | inr past ↦ ground arith
    ]
