-- ===== src/Market/Filling.antt =====
-- The greedy filling of `calculateSlippage` on orders sorted by price, and other choices.
use eco_mint.Prelude.{
  ℕ, ◌+◌, ◌-◌, ◌*◌, ◌≤◌, min, List, [], ◌∷◌, ◌≡◌, refl, ap, ◌∙◌, inl, inr, arith, leb, ltb,
  if◌then◌else◌, Bool-cases,
}
use eco_mint.Market.Types.{OrderResponse}
use eco_mint.Market.Liquidity.{Fill, take_order, fill_orders}

abbrev pub supply : List OrderResponse → ℕ
supply [] = 0
supply (o ∷ os) = o.amount + supply os

-- The cost of the first `n` tokens of the orders.
abbrev pub cost_of : ℕ → List OrderResponse → ℕ
cost_of n [] = 0
cost_of n (o ∷ os) = min n o.amount * o.price_per_token + cost_of (n - o.amount) os

cost_of-zero : (os : List OrderResponse) → cost_of 0 os ≡ 0
cost_of-zero [] = refl
cost_of-zero (o ∷ os) =
    let e : 0 - o.amount ≡ 0 = omega arith in
    let m : min 0 o.amount ≡ 0 = omega arith in
    let z : 0 * o.price_per_token ≡ 0 = omega arith in rw (e, m, z) (omega (arith, cost_of-zero os))

-- The three results of the loop.
pub fill_orders-lem :
    (f : Fill) (os : List OrderResponse)
    → ((fill_orders f os).remaining ≡ f.remaining - supply os)
      × ((fill_orders f os).total_amount ≡ f.total_amount + min f.remaining (supply os))
      × ((fill_orders f os).total_cost ≡ f.total_cost + cost_of f.remaining os)
unfolding fill_orders
fill_orders-lem f [] = (omega arith, omega arith, omega arith)
fill_orders-lem f (o ∷ os) = elim (Bool-cases (leb f.remaining 0)) [
  | inl done ↦
      let e : f.remaining ≡ 0 = ground arith in
      let c : cost_of f.remaining (o ∷ os) ≡ 0 = rw e (cost_of-zero (o ∷ os)) in
      rw done (omega arith, omega arith, omega (arith, c))
  | inr more ↦
      let (r, a, c) = fill_orders-lem (take_order f o) os in
      let t : (if ltb f.remaining o.amount then f.remaining else o.amount)
          ≡ min f.remaining o.amount =
        ground arith in
      let d : f.remaining - min f.remaining o.amount ≡ f.remaining - o.amount = omega arith in
      rw (more, r, a, c, t, d) (omega arith, omega arith, omega arith)
]

abbrev pub IsSortedFrom : ℕ → List OrderResponse → Type 0
IsSortedFrom p [] = Unit {0}
IsSortedFrom p (o ∷ os) = (p ≤ o.price_per_token) × IsSortedFrom o.price_per_token os

IsSortedFrom-weaken :
    (p q : ℕ) (os : List OrderResponse) → p ≤ q → IsSortedFrom q os → IsSortedFrom p os
IsSortedFrom-weaken p q [] h s = tt
IsSortedFrom-weaken p q (o ∷ os) h (low, s) = (omega arith, s)

mul_le : (d p q : ℕ) → p ≤ q → d * p ≤ d * q
mul_le d p q h = grind arith

split_mul : (a b p : ℕ) → (a + b) * p ≡ a * p + b * p
split_mul a b p = grind arith

-- Each further token costs at least the lowest price.
slope :
    (p n d : ℕ) (os : List OrderResponse)
    → IsSortedFrom p os
    → n + d ≤ supply os
    → d * p + cost_of n os ≤ cost_of (n + d) os
slope p n d [] s h = let e : d ≡ 0 = omega arith in rw e (omega arith)
slope p n d (o ∷ os) (low, s) h =
    let q = o.price_per_token in
    let x : ℕ = min (n + d) o.amount - min n o.amount in
    let rest = slope p (n - o.amount) (d - x) os (IsSortedFrom-weaken p q os low s) (omega arith) in
    let e : n - o.amount + (d - x) ≡ n + d - o.amount = omega arith in
    let m : min (n + d) o.amount ≡ min n o.amount + x = omega arith in
    let w : d ≡ (d - x) + x = omega arith in
    let dp : d * p ≡ (d - x) * p + x * p = ap (λ t. t * p) w ∙ split_mul (d - x) x p in
    let mq : min (n + d) o.amount * q ≡ min n o.amount * q + x * q =
      ap (λ t. t * q) m ∙ split_mul (min n o.amount) x q in
    let rest2 : (d - x) * p + cost_of (n - o.amount) os ≤ cost_of (n + d - o.amount) os =
      rw⁻¹ e rest in
    let xq = mul_le x p q low in omega (arith, dp, mq, rest2, xq)

-- How many tokens are taken from each order, and the orders themselves.
abbrev pub Choice : Type 0
Choice = List (OrderResponse × ℕ)

abbrev pub orders_of : Choice → List OrderResponse
orders_of [] = []
orders_of ((o, t) ∷ c) = o ∷ orders_of c

abbrev pub taken_of : Choice → ℕ
taken_of [] = 0
taken_of ((o, t) ∷ c) = t + taken_of c

abbrev pub price_of : Choice → ℕ
price_of [] = 0
price_of ((o, t) ∷ c) = t * o.price_per_token + price_of c

-- No order gives more than it has.
abbrev pub IsWithin : Choice → Type 0
IsWithin [] = Unit {0}
IsWithin ((o, t) ∷ c) = (t ≤ o.amount) × IsWithin c

taken-supply : (c : Choice) → IsWithin c → taken_of c ≤ supply (orders_of c)
taken-supply [] w = omega arith
taken-supply ((o, t) ∷ c) (h, w) = omega (arith, taken-supply c w)

-- On sorted orders the greedy cost is the least.
pub cost_of-least :
    (p : ℕ) (c : Choice)
    → IsSortedFrom p (orders_of c)
    → IsWithin c
    → cost_of (taken_of c) (orders_of c) ≤ price_of c
cost_of-least p [] s w = omega arith
cost_of-least p ((o, t) ∷ c) (low, s) (h, w) =
    let q = o.price_per_token in
    let rest = cost_of-least q c s w in
    let all : ℕ = t + taken_of c in
    let m : ℕ = min all o.amount in
    let d : ℕ = m - t in
    let less = slope q (all - o.amount) d (orders_of c) s (omega (arith, taken-supply c w)) in
    let e : all - o.amount + d ≡ taken_of c = omega arith in
    let same = ap (λ z. cost_of z (orders_of c)) e in
    let k : m ≡ t + d = omega arith in
    let mq : m * q ≡ t * q + d * q = ap (λ z. z * q) k ∙ split_mul t d q in
    omega (arith, mq, less, same, rest)
