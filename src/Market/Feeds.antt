-- ===== src/Market/Feeds.antt =====
-- The price feed of api/src/marketplace/liquidity.service.ts: groups by bond, and the best price.
use eco_mint.Prelude.{
  ℕ, ◌+◌, ◌*◌, Bool, List, [], ◌∷◌, ◌++◌, ◌≡◌, refl, ◌∙◌, arith, nat_eq, nat_eq_iff, map, All,
  Option, none, some, filter, ◌&&◌, nat_has_eq, append_assoc, append-nil,
}
use eco_mint.Prelude.Dict.{lookup, lookup-insert}
use eco_mint.Market.Types.{OrderResponse, status_eq, opened}
use eco_mint.Market.Liquidity.{
  PriceGroup, group_orders, group_order, push_order, group_or_empty, reduce_min, feed_of, feeds_of,
}

reduce_min-zero : (ns : List ℕ) → reduce_min 0 ns ≡ 0
unfolding reduce_min
reduce_min-zero [] = refl
reduce_min-zero (n ∷ ns) = ground (arith, reduce_min-zero ns)

All-map_feed : (gs : List (ℕ × PriceGroup)) → All (λ f. f.best_price ≡ 0) (map feed_of gs)
unfolding feed_of
All-map_feed [] = tt
All-map_feed (g ∷ gs) = (reduce_min-zero g.1.prices, All-map_feed gs)

-- Whatever the orders cost, each feed shows 0 as its best price: the fold starts from 0.
pub feeds_of-best_price :
    (orders : List OrderResponse) → All (λ f. f.best_price ≡ 0) (feeds_of orders)
unfolding feeds_of
feeds_of-best_price orders = All-map_feed (group_orders [] orders)

abbrev pub counts_for : ℕ → OrderResponse → Bool
counts_for bond o = nat_eq o.bond_id bond && status_eq o.status opened

abbrev pub push_all : Option PriceGroup → List OrderResponse → Option PriceGroup
push_all g [] = g
push_all g (o ∷ os) = push_all (some (push_order (group_or_empty g) o)) os

lookup-group_orders :
    (bond : ℕ) (grouped : List (ℕ × PriceGroup)) (os : List OrderResponse)
    → lookup bond (group_orders grouped os)
      ≡ push_all (lookup bond grouped) (filter (counts_for bond) os)
unfolding group_orders
lookup-group_orders bond grouped [] = refl
lookup-group_orders bond grouped (o ∷ os) =
    lookup-group_orders bond (group_order grouped o) os
    ∙ ground (
      arith,
      nat_eq_iff o.bond_id bond,
      lookup-insert o.bond_id bond (push_order (group_or_empty (lookup o.bond_id grouped)) o)
          grouped,
    )

abbrev pub volume : List OrderResponse → ℕ
volume [] = 0
volume (o ∷ os) = o.amount * o.price_per_token + volume os

abbrev prices_of : List OrderResponse → List ℕ
prices_of [] = []
prices_of (o ∷ os) = o.price_per_token ∷ prices_of os

abbrev amounts_of : List OrderResponse → List ℕ
amounts_of [] = []
amounts_of (o ∷ os) = o.amount ∷ amounts_of os

-- The group that orders of one bond make.
abbrev pub summary : List OrderResponse → Option PriceGroup
summary [] = none
summary (o ∷ os) = some (record {
  prices = prices_of (o ∷ os);
  amounts = amounts_of (o ∷ os);
  total_volume = volume (o ∷ os);
})

push_all-some :
    (g : PriceGroup) (os : List OrderResponse)
    → push_all (some g) os
      ≡ some (record {
        prices = g.prices ++ prices_of os;
        amounts = g.amounts ++ amounts_of os;
        total_volume = g.total_volume + volume os;
      })
push_all-some g [] =
    let e : g.total_volume + 0 ≡ g.total_volume = omega arith in
    rw (append-nil g.prices, append-nil g.amounts, e)
push_all-some g (o ∷ os) =
    let e : g.total_volume + o.amount * o.price_per_token + volume os
        ≡ g.total_volume + (o.amount * o.price_per_token + volume os) =
      omega arith in
    rw (
      push_all-some (push_order g o) os,
      append_assoc g.prices (o.price_per_token ∷ []) (prices_of os),
      append_assoc g.amounts (o.amount ∷ []) (amounts_of os),
      e,
    )

push_all-summary : (os : List OrderResponse) → push_all none os ≡ summary os
push_all-summary [] = refl
push_all-summary (o ∷ os) =
    let e : 0 + o.amount * o.price_per_token + volume os
        ≡ o.amount * o.price_per_token + volume os =
      omega arith in
    rw (push_all-some (push_order (group_or_empty none) o) os, e)

-- The feed groups by bond: the group of a bond holds the prices, the amounts and the volume of
-- its open orders, in their order, and a bond without open orders has no group.
pub group_orders-summary :
    (bond : ℕ) (os : List OrderResponse)
    → lookup bond (group_orders [] os) ≡ summary (filter (counts_for bond) os)
unfolding lookup
group_orders-summary bond os =
    lookup-group_orders bond [] os ∙ push_all-summary (filter (counts_for bond) os)
