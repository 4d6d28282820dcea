-- ===== src/RateLimit/Tests.antt =====
-- Two requests of one wallet, and the bound at them.
use eco_mint.Prelude.{ℕ, ◌≤◌, true, none, some, List, [], ◌∷◌, ◌≡◌, refl, arith}
use eco_mint.Prelude.Dict.{lookup, insert}
use eco_mint.RateLimit.Guard.{
  mutation, wallet_key, count_at, limits_of, can_activate, guard_keys, over_limit, bump_all, bump,
  keys_to_check, first_filled,
}
use eco_mint.RateLimit.Bounds.{Visit, AreOrderly, run, last_time, can_activate-bounded}

abbrev visit_at : ℕ → Visit
visit_at t = record {
  env = record { healthy = true; now = t; expires = true; defaults = λ k. (60, 1) };
  options = some (record { kind = mutation; ttl = none; limit = none });
  request = record { ips = "10.0.0.1" ∷ []; wallets = "" ∷ "GA" ∷ []; providers = [] };
}

abbrev twice : List Visit
twice = visit_at 5 ∷ visit_at 6 ∷ []

twice-AreOrderly : AreOrderly 1 0 twice
unfolding limits_of
twice-AreOrderly = (omega arith, (omega arith, (omega arith, (omega arith, tt))))

can_activate-bounded_example :
    count_at (last_time 0 twice) (wallet_key mutation "GA") (run twice []) ≤ 1
can_activate-bounded_example =
    can_activate-bounded 1 twice (wallet_key mutation "GA") twice-AreOrderly

one_is_counted : count_at 6 (wallet_key mutation "GA") (run twice []) ≡ 1
unfolding run count_at can_activate limits_of guard_keys over_limit bump_all bump keys_to_check
    first_filled lookup insert
one_is_counted = refl
