-- ===== src/RateLimit/Bounds.antt =====
-- No counter passes the limit of the requests.
use eco_mint.Prelude.{
  ℕ, ◌+◌, ◌≤◌, ◌<◌, String, Bool, true, false, not, Option, none, some, List, [], ◌∷◌, ◌≡◌, refl,
  sym, ap, ◌∙◌, subst, arith, if◌then◌else◌, Has, inl, inr, Bool-cases,
}
use eco_mint.Prelude.Dict.{lookup, insert, lookup-insert}
use eco_mint.RateLimit.Guard.{
  Kind, auth, mutation, oracle, default, Options, Key, key_has_eq, Counter, Counters, Request, Env,
  first_filled, or_local, keys_of, keys_to_check, limits_of, lives, live, count_of, count_at,
  bumped, over_limit, bump, bump_all, guard_keys, can_activate,
}

-- Every counter that Redis has at the time is at most the limit.
abbrev pub IsWithin : ℕ → ℕ → Counters → Type 0
IsWithin now limit s = (key : Key) → count_at now key s ≤ limit

live-count : (now : ℕ) (c : Counter) → count_of (live now (some c)) ≤ c.count
live-count now c = elim (Bool-cases (lives now c.expiry)) [
  | inl is ↦ rw is (omega arith)
  | inr isnt ↦ rw isnt (omega arith)
]

bump-same :
    (env : Env) (ttl : ℕ) (key : Key) (s : Counters)
    → count_at env.now key (bump env ttl key s) ≤ count_at env.now key s + 1
unfolding count_at bump
bump-same env ttl key s =
    let old = live env.now (lookup key s) in
    let c = bumped env ttl old in
    let e : lookup key (insert key c s) ≡ some c =
      lookup-insert key key c s ∙ rw ((key_has_eq.test_iff key key).1 refl) refl in
    subst (λ found. count_of (live env.now found) ≤ count_of old + 1) (sym e) (live-count env.now c)

bump-other :
    (env : Env) (ttl : ℕ) (key j : Key) (s : Counters)
    → key_has_eq.test key j ≡ false
    → count_at env.now j (bump env ttl key s) ≡ count_at env.now j s
unfolding count_at bump
bump-other env ttl key j s apart =
    let c = bumped env ttl (live env.now (lookup key s)) in
    let e : lookup j (insert key c s) ≡ lookup j s = lookup-insert key j c s ∙ rw apart refl in
    ap (λ found. count_of (live env.now found)) e

abbrev pub AreDistinct : List Key → Type 0
AreDistinct [] = Unit {0}
AreDistinct (key ∷ keys) = (¬ Has key keys) × AreDistinct keys

abbrev IsBelow : ℕ → ℕ → Counters → List Key → Type 0
IsBelow now limit s [] = Unit {0}
IsBelow now limit s (key ∷ keys) = (count_at now key s < limit) × IsBelow now limit s keys

over_limit-IsBelow :
    (now limit : ℕ) (keys : List Key) (s : Counters)
    → over_limit now limit keys s ≡ false
    → IsBelow now limit s keys
unfolding over_limit
over_limit-IsBelow now limit [] s h = tt
over_limit-IsBelow now limit (key ∷ keys) s h =
    (ground (arith, h), over_limit-IsBelow now limit keys s (ground (arith, h)))

IsBelow-mono :
    (now limit top : ℕ) (s : Counters) (keys : List Key)
    → limit ≤ top
    → IsBelow now limit s keys
    → IsBelow now top s keys
IsBelow-mono now limit top s [] small below = tt
IsBelow-mono now limit top s (key ∷ keys) small (here, below) =
    (omega (arith, small, here), IsBelow-mono now limit top s keys small below)

bump-IsBelow :
    (env : Env) (ttl limit : ℕ) (key : Key) (s : Counters) (keys : List Key)
    → ¬ Has key keys
    → IsBelow env.now limit s keys
    → IsBelow env.now limit (bump env ttl key s) keys
bump-IsBelow env ttl limit key s [] away below = tt
bump-IsBelow env ttl limit key s (j ∷ keys) away (here, below) =
    elim (Bool-cases (key_has_eq.test key j)) [
      | inl same ↦ absurd (away (inl ((key_has_eq.test_iff key j).0 same)))
      | inr apart ↦ (
        omega (arith, here, bump-other env ttl key j s apart),
        bump-IsBelow env ttl limit key s keys (λ m. away (inr m)) below,
      )
    ]

bump-IsWithin :
    (env : Env) (ttl limit : ℕ) (key : Key) (s : Counters)
    → count_at env.now key s < limit
    → IsWithin env.now limit s
    → IsWithin env.now limit (bump env ttl key s)
bump-IsWithin env ttl limit key s room within j = elim (Bool-cases (key_has_eq.test key j)) [
  | inl same ↦
      subst (λ k. count_at env.now k (bump env ttl key s) ≤ limit)
        ((key_has_eq.test_iff key j).0 same) (omega (arith, room, bump-same env ttl key s))
  | inr apart ↦ omega (arith, bump-other env ttl key j s apart, within j)
]

bump_all-IsWithin :
    (env : Env) (ttl limit : ℕ) (keys : List Key) (s : Counters)
    → AreDistinct keys
    → IsBelow env.now limit s keys
    → IsWithin env.now limit s
    → IsWithin env.now limit (bump_all env ttl keys s)
unfolding bump_all
bump_all-IsWithin env ttl limit [] s apart below within = within
bump_all-IsWithin env ttl limit (key ∷ keys) s (away, apart) (room, below) within =
    bump_all-IsWithin env ttl limit keys (bump env ttl key s) apart
      (bump-IsBelow env ttl limit key s keys away below)
      (bump-IsWithin env ttl limit key s room within)

keys_of-AreDistinct :
    (kind : Kind) (ip : String) (wallet provider : Option String)
    → AreDistinct (keys_of kind ip wallet provider)
keys_of-AreDistinct auth ip none provider = ground arith
keys_of-AreDistinct auth ip (some a) provider = ground arith
keys_of-AreDistinct oracle ip none none = ground arith
keys_of-AreDistinct oracle ip (some a) none = ground arith
keys_of-AreDistinct oracle ip wallet (some p) = ground arith
keys_of-AreDistinct mutation ip none provider = ground arith
keys_of-AreDistinct mutation ip (some a) provider = ground arith
keys_of-AreDistinct default ip wallet provider = ground arith

keys_to_check-AreDistinct : (kind : Kind) (r : Request) → AreDistinct (keys_to_check kind r)
unfolding keys_to_check
keys_to_check-AreDistinct kind r =
    keys_of-AreDistinct kind (or_local (first_filled r.ips)) (first_filled r.wallets)
      (first_filled r.providers)

guard_keys-IsWithin :
    (env : Env) (ttl limit top : ℕ) (keys : List Key) (s : Counters)
    → limit ≤ top
    → AreDistinct keys
    → IsWithin env.now top s
    → IsWithin env.now top (guard_keys env ttl limit keys s).0
unfolding guard_keys
guard_keys-IsWithin env ttl limit top keys s small apart within =
    elim (Bool-cases (over_limit env.now limit keys s)) [
      | inl over ↦ rw (guard_keys, over) within
      | inr under ↦
          rw (guard_keys, under)
            (bump_all-IsWithin env ttl top keys s apart
              (IsBelow-mono env.now limit top s keys small
                (over_limit-IsBelow env.now limit keys s under))
              within)
    ]

-- The limit of a request, 0 for a handler without one.
abbrev pub limit_of : Env → Option Options → ℕ
limit_of env none = 0
limit_of env (some o) = (limits_of env o).1

either-IsWithin :
    (now top : ℕ) (b : Bool) (x y : Counters × Bool)
    → IsWithin now top x.0
    → IsWithin now top y.0
    → IsWithin now top (if b then x else y).0
either-IsWithin now top true x y h k = h
either-IsWithin now top false x y h k = k

can_activate-IsWithin :
    (env : Env) (options : Option Options) (r : Request) (top : ℕ) (s : Counters)
    → limit_of env options ≤ top
    → IsWithin env.now top s
    → IsWithin env.now top (can_activate env options r s).0
unfolding can_activate
can_activate-IsWithin env none r top s small within = within
can_activate-IsWithin env (some o) r top s small within =
    let (ttl, limit) = limits_of env o in
    let keys = keys_to_check o.kind r in
    either-IsWithin env.now top (not env.healthy) (s, true) (guard_keys env ttl limit keys s) within
      (guard_keys-IsWithin env ttl limit top keys s small (keys_to_check-AreDistinct o.kind r)
        within)

live-later :
    (now later : ℕ) (c : Option Counter)
    → now ≤ later
    → count_of (live later c) ≤ count_of (live now c)
live-later now later none order = omega arith
live-later now later (some c) order = ground arith

IsWithin-later :
    (now later top : ℕ) (s : Counters) → now ≤ later → IsWithin now top s → IsWithin later top s
unfolding count_at
IsWithin-later now later top s order within key =
    omega (arith, within key, live-later now later (lookup key s) order)

-- A request as the guard sees it.
pub record Visit : Type 0 where
  pub env : Env
  pub options : Option Options
  pub request : Request

-- One after the other, at times that do not go back and with limits up to `top`.
abbrev pub AreOrderly : ℕ → ℕ → List Visit → Type 0
AreOrderly top now [] = Unit {0}
AreOrderly top now (v ∷ visits) =
    (now ≤ v.env.now) × ((limit_of v.env v.options ≤ top) × AreOrderly top v.env.now visits)

unfoldable pub run : List Visit → Counters → Counters
run [] s = s
run (v ∷ visits) s = run visits (can_activate v.env v.options v.request s).0

abbrev pub last_time : ℕ → List Visit → ℕ
last_time now [] = now
last_time now (v ∷ visits) = last_time v.env.now visits

run-IsWithin :
    (top now : ℕ) (visits : List Visit) (s : Counters)
    → AreOrderly top now visits
    → IsWithin now top s
    → IsWithin (last_time now visits) top (run visits s)
unfolding run
run-IsWithin top now [] s orderly within = within
run-IsWithin top now (v ∷ visits) s (order, (small, orderly)) within =
    run-IsWithin top v.env.now visits (can_activate v.env v.options v.request s).0 orderly (
      can_activate-IsWithin v.env v.options v.request top s small
        (IsWithin-later now v.env.now top s order within))

-- Requests that the guard handles one after the other, at times that do not go back, never bring a
-- counter of Redis above the largest of their limits.
pub can_activate-bounded :
    (top : ℕ) (visits : List Visit) (key : Key)
    → AreOrderly top 0 visits
    → count_at (last_time 0 visits) key (run visits []) ≤ top
unfolding count_at lookup
can_activate-bounded top visits key orderly =
    run-IsWithin top 0 visits [] orderly (λ j. omega arith) key
