-- ===== src/Market/Pages.antt =====
-- Pagination in api/src/marketplace/dex.service.ts: the pages of a list and their number.
use eco_mint.Prelude.{
  ℕ, zero, suc, ◌+◌, ◌-◌, ◌*◌, ◌≤◌, ◌<◌, List, [], ◌∷◌, ◌++◌, ◌≡◌, refl, arith, take, drop, length,
  ◌∙◌, ap,
}
use eco_mint.Market.Orders.{paged, total_pages}

module _ {ℓ} {A : Type ℓ} where
  -- pages 1 to n, in order
  pub all_pages : ℕ → ℕ → List A → List A
  all_pages zero limit xs = []
  all_pages (suc n) limit xs = all_pages n limit xs ++ paged (suc n) limit xs

  take_nil : (m : ℕ) → take {A = A} m [] ≡ []
  take_nil zero = refl
  take_nil (suc m) = refl

  take-take-drop : (n m : ℕ) (xs : List A) → take n xs ++ take m (drop n xs) ≡ take (n + m) xs
  take-take-drop zero m xs = let e : 0 + m ≡ m = omega arith in rw e
  take-take-drop (suc n) m [] = let e : suc n + m ≡ suc (n + m) = omega arith in rw e (take_nil m)
  take-take-drop (suc n) m (x ∷ xs) =
      let e : suc n + m ≡ suc (n + m) = omega arith in
      rw e (ap (λ t. x ∷ t) (take-take-drop n m xs))

  all_pages-take : (n limit : ℕ) (xs : List A) → all_pages n limit xs ≡ take (n * limit) xs
  unfolding all_pages paged
  all_pages-take zero limit xs = let e : 0 * limit ≡ 0 = omega arith in rw e
  all_pages-take (suc n) limit xs =
      let e : suc n * limit ≡ n * limit + limit = grind arith in
      let k : suc n - 1 ≡ n = omega arith in
      rw (all_pages-take n limit xs, e, k, take-take-drop (n * limit) limit xs)

  take_all : (n : ℕ) (xs : List A) → length xs ≤ n → take n xs ≡ xs
  take_all zero [] h = refl
  take_all zero (x ∷ xs) h = absurd (omega arith)
  take_all (suc n) [] h = refl
  take_all (suc n) (x ∷ xs) h = rw (take_all n xs (omega arith))

total_pages-enough :
    (total limit : ℕ)
    → 0 < limit
    → (total ≤ total_pages total limit * limit) × ((total_pages total limit - 1) * limit ≤ total)
unfolding total_pages
total_pages-enough total limit h = grind arith

-- At a positive limit, pages 1 to `total_pages` of a list, put together in order, are the list.
pub all_pages-total_pages {ℓ} :
    {A : Type ℓ} (limit : ℕ) (xs : List A)
    → 0 < limit
    → all_pages (total_pages (length xs) limit) limit xs ≡ xs
all_pages-total_pages limit xs h =
    all_pages-take (total_pages (length xs) limit) limit xs
    ∙ take_all (total_pages (length xs) limit * limit) xs (total_pages-enough (length xs) limit h).0
