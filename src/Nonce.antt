-- ===== src/Nonce.antt =====
-- api/src/common/services/nonce.service.ts: one Redis counter for each contract and address.
use eco_mint.Prelude.{
  ℕ, ◌+◌, ◌-◌, String, Bool, true, false, Option, none, some, List, pair_has_eq, string_has_eq,
}
use eco_mint.Prelude.Dict.{lookup, insert}

abbrev pub Counters : Type 0
Counters = List ((String × String) × ℕ)

abbrev pub count_or_zero : Option ℕ → ℕ
count_or_zero none = 0
count_or_zero (some n) = n

-- `INCR`: a counter that is not there counts from 0.
unfoldable pub incr : String × String → Counters → Counters × ℕ
incr key counters = let n = count_or_zero (lookup key counters) + 1 in (insert key n counters, n)

-- `none` is the ServiceUnavailableException of `incrOrThrow` where Redis does not answer.
unfoldable pub next : Bool → String → String → Counters → Counters × Option ℕ
next false contract address counters = (counters, none)
next true contract address counters =
    let (counters', incremented) = incr (contract, address) counters in
    (counters', some (incremented - 1))
