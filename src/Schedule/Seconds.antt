-- ===== src/Schedule/Seconds.antt =====
-- The finite numbers of JavaScript as integers: each is a multiple of 2^-1074, the smallest positive
-- one, so a time in seconds is counted here in units of 2^-1074 seconds. The comparisons of the
-- validators in frontend/src/app/shared/validators/coupon-schedule.validators.ts and
-- api/src/bonds/dto/coupon-schedule.validator.ts are those of the integers.
use eco_mint.Prelude.{ℕ, suc, ◌+◌, ◌<◌, Bool, false, leb, ◌≡◌, ◌↔◌, arith}

-- `negsuc n` is -(n + 1).
pub data ℤ : Type 0 where
  pos : ℕ → ℤ
  negsuc : ℕ → ℤ

abbrev pub pos_part : ℤ → ℕ
pos_part (pos n) = n
pos_part (negsuc n) = 0

abbrev pub neg_part : ℤ → ℕ
neg_part (pos n) = 0
neg_part (negsuc n) = suc n

infix 50 ◌<ℤ◌
abbrev pub ◌<ℤ◌ : ℤ → ℤ → Type 0
a <ℤ b = pos_part a + neg_part b < pos_part b + neg_part a

-- `a <= b`
unfoldable pub leb_ℤ : ℤ → ℤ → Bool
leb_ℤ a b = leb (pos_part a + neg_part b) (pos_part b + neg_part a)

pub leb_ℤ-false : (a b : ℤ) → (leb_ℤ a b ≡ false) ↔ (b <ℤ a)
unfolding leb_ℤ
leb_ℤ-false a b = (λ h. ground arith, λ h. ground arith)
