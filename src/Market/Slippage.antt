-- ===== src/Market/Slippage.antt =====
-- `calculateSlippage` on orders in any order: what can be filled, and at what cost.
use eco_mint.Prelude.{
  ℕ, ◌+◌, ◌-◌, ◌*◌, ◌≤◌, min, List, [], ◌∷◌, ◌≡◌, refl, sym, ap, ◌∙◌, inl, inr, arith, leb, ltb,
  if◌then◌else◌, Bool-cases,
}
use eco_mint.Market.Types.{OrderResponse}
use eco_mint.Market.Liquidity.{
  insert_by_price, sort_by_price, fill_orders, start_fill, slippage_of, FillabilityStatus,
  fully_fillable, partially_fillable, unfillable,
}
use eco_mint.Market.Filling.{
  supply, cost_of, fill_orders-lem, IsSortedFrom, Choice, orders_of, taken_of, price_of, IsWithin,
  cost_of-least,
}

supply-insert :
    (o : OrderResponse) (os : List OrderResponse)
    → supply (insert_by_price o os) ≡ o.amount + supply os
unfolding insert_by_price
supply-insert o [] = refl
supply-insert o (x ∷ os) = ground (arith, supply-insert o os)

supply-sort : (os : List OrderResponse) → supply (sort_by_price os) ≡ supply os
unfolding sort_by_price
supply-sort [] = refl
supply-sort (o ∷ os) = supply-insert o (sort_by_price os) ∙ ap (λ n. o.amount + n) (supply-sort os)

insert-IsSortedFrom :
    (p : ℕ) (o : OrderResponse) (os : List OrderResponse)
    → p ≤ o.price_per_token
    → IsSortedFrom p os
    → IsSortedFrom p (insert_by_price o os)
unfolding insert_by_price
insert-IsSortedFrom p o [] h s = (h, tt)
insert-IsSortedFrom p o (x ∷ os) h (low, s) =
    elim (Bool-cases (leb o.price_per_token x.price_per_token)) [
      | inl before ↦ rw before (h, (ground arith, s))
      | inr after ↦ rw after (low, insert-IsSortedFrom x.price_per_token o os (ground arith) s)
    ]

sort-IsSortedFrom : (os : List OrderResponse) → IsSortedFrom 0 (sort_by_price os)
unfolding sort_by_price
sort-IsSortedFrom [] = tt
sort-IsSortedFrom (o ∷ os) =
    insert-IsSortedFrom 0 o (sort_by_price os) (omega arith) (sort-IsSortedFrom os)

-- The choice that goes along with the sort.
insert_choice : OrderResponse × ℕ → Choice → Choice
insert_choice c [] = c ∷ []
insert_choice c (x ∷ cs) =
    let rest = insert_choice c cs in
    if leb c.0.price_per_token x.0.price_per_token then c ∷ x ∷ cs else x ∷ rest

sort_choice : Choice → Choice
sort_choice [] = []
sort_choice (c ∷ cs) = insert_choice c (sort_choice cs)

insert_choice-lem :
    (c : OrderResponse × ℕ) (cs : Choice)
    → (orders_of (insert_choice c cs) ≡ insert_by_price c.0 (orders_of cs))
      × (taken_of (insert_choice c cs) ≡ c.1 + taken_of cs)
      × (price_of (insert_choice c cs) ≡ c.1 * c.0.price_per_token + price_of cs)
unfolding insert_choice insert_by_price
insert_choice-lem c [] = (refl, refl, refl)
insert_choice-lem c (x ∷ cs) = let (a, b, d) = insert_choice-lem c cs in ground (arith, a, b, d)

insert_choice-IsWithin :
    (c : OrderResponse × ℕ) (cs : Choice)
    → c.1 ≤ c.0.amount
    → IsWithin cs
    → IsWithin (insert_choice c cs)
unfolding insert_choice
insert_choice-IsWithin c [] h w = (h, tt)
insert_choice-IsWithin c (x ∷ cs) h (k, w) =
    elim (Bool-cases (leb c.0.price_per_token x.0.price_per_token)) [
      | inl before ↦ rw before (h, (k, w))
      | inr after ↦ rw after (k, insert_choice-IsWithin c cs h w)
    ]

sort_choice-lem :
    (cs : Choice)
    → IsWithin cs
    → (orders_of (sort_choice cs) ≡ sort_by_price (orders_of cs))
      × (taken_of (sort_choice cs) ≡ taken_of cs)
      × (price_of (sort_choice cs) ≡ price_of cs)
      × IsWithin (sort_choice cs)
unfolding sort_choice sort_by_price
sort_choice-lem [] w = (refl, refl, refl, tt)
sort_choice-lem (c ∷ cs) (h, w) =
    let (a, b, d, v) = sort_choice-lem cs w in
    let (x, y, z) = insert_choice-lem c (sort_choice cs) in
    (
      x ∙ ap (insert_by_price c.0) a,
      y ∙ ap (λ n. c.1 + n) b,
      z ∙ ap (λ n. c.1 * c.0.price_per_token + n) d,
      insert_choice-IsWithin c (sort_choice cs) h v,
    )

cost_of-min : (n : ℕ) (os : List OrderResponse) → cost_of n os ≡ cost_of (min n (supply os)) os
cost_of-min n [] = refl
cost_of-min n (o ∷ os) =
    let a : min (min n (o.amount + supply os)) o.amount ≡ min n o.amount = omega arith in
    let b : min n (o.amount + supply os) - o.amount ≡ min (n - o.amount) (supply os) =
      omega arith in
    rw (a, b) (ap (λ t. min n o.amount * o.price_per_token + t) (cost_of-min (n - o.amount) os))

-- The status that the three amounts call for.
abbrev pub status_for : ℕ → ℕ → FillabilityStatus
status_for amount available =
    if leb amount available
    then fully_fillable
    else if ltb 0 available
    then partially_fillable
    else unfillable

-- Of the amount asked for, as much is fillable as the orders hold together, the rest is unfilled, and
-- the status says which of the two is nothing.
pub slippage_of-fillable :
    (bond amount : ℕ) (os : List OrderResponse)
    → ((slippage_of bond amount os).fillable_amount ≡ min amount (supply os))
      × ((slippage_of bond amount os).unfilled_amount ≡ amount - supply os)
      × ((slippage_of bond amount os).fillability_status ≡ status_for amount (supply os))
unfolding slippage_of
slippage_of-fillable bond amount os =
    let (r, a, c) = fill_orders-lem (start_fill amount) (sort_by_price os) in
    let e = supply-sort os in
    let left : (fill_orders (start_fill amount) (sort_by_price os)).remaining ≡ amount - supply os =
      r ∙ ap (λ n. amount - n) e in
    rw left (omega arith, refl, ground arith)

estimated :
    (bond amount : ℕ) (os : List OrderResponse)
    → (slippage_of bond amount os).estimated_total ≡ cost_of amount (sort_by_price os)
unfolding slippage_of
estimated bond amount os =
    let (r, a, c) = fill_orders-lem (start_fill amount) (sort_by_price os) in omega (arith, c)

-- The estimated total is the least cost: whoever takes the fillable amount from the same orders, no
-- more than its amount from any, pays at least as much.
pub slippage_of-least :
    (bond amount : ℕ) (c : Choice)
    → IsWithin c
    → taken_of c ≡ (slippage_of bond amount (orders_of c)).fillable_amount
    → (slippage_of bond amount (orders_of c)).estimated_total ≤ price_of c
slippage_of-least bond amount c w full =
    let os = orders_of c in
    let (o, t, p, v) = sort_choice-lem c w in
    let least = cost_of-least 0 (sort_choice c) (rw o (sort-IsSortedFrom os)) v in
    let total : (slippage_of bond amount os).estimated_total ≡ cost_of amount (sort_by_price os) =
      estimated bond amount os in
    let enough : taken_of (sort_choice c) ≡ min amount (supply (sort_by_price os)) =
      t ∙ full ∙ (slippage_of-fillable bond amount os).0 ∙ ap (min amount) (sym (supply-sort os)) in
    let same : cost_of (taken_of (sort_choice c)) (orders_of (sort_choice c))
        ≡ cost_of amount (sort_by_price os) =
      rw (enough, o) (sym (cost_of-min amount (sort_by_price os))) in
    omega (arith, least, total, same, p)
