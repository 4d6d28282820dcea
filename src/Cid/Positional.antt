-- ===== src/Cid/Positional.antt =====
-- Digits as numbers: what the loops of the encoders keep, and that a number has one list of digits.
use eco_mint.Prelude.{
  ℕ, zero, suc, ◌+◌, ◌*◌, ◌/◌, ◌%◌, ◌≤◌, ◌<◌, List, [], ◌∷◌, ◌++◌, ◌≡◌, refl, ap, ◌∙◌, arith,
  length, ltb, All, inl, inr, Bool-cases,
}
use native.Mathlib.Nat.{mul-pos, mul-le-mul_left}
use eco_mint.Cid.Base58.{push_carry, absorb, absorb_all, reverse_onto}

-- The number of the digits, the lowest first.
abbrev pub value : ℕ → List ℕ → ℕ
value base [] = 0
value base (d ∷ ds) = d + base * value base ds

-- The number of digits with the highest first, after `v`.
abbrev pub horner : ℕ → ℕ → List ℕ → ℕ
horner base v [] = v
horner base v (x ∷ xs) = horner base (x + base * v) xs

-- Digits below the base, the highest not 0.
abbrev pub IsTrim : ℕ → List ℕ → Type 0
IsTrim base [] = Unit {0}
IsTrim base (d ∷ ds) = (d < base) × ((0 < d + base * value base ds) × IsTrim base ds)

-- What is asked of a base: division with remainder by it.
pub record IsBase (base : ℕ) : Type 0 where
  pub divided : (n : ℕ) → n % base + base * (n / base) ≡ n
  pub below : (n : ℕ) → n % base < base
  pub smaller : (n : ℕ) → 0 < n → n / base < n
  pub split : (d e v w : ℕ) → d < base → e < base → d + base * v ≡ e + base * w → (d ≡ e) × (v ≡ w)

pub base58-IsBase : IsBase 58
base58-IsBase = record {
  divided = λ n. omega arith;
  below = λ n. omega arith;
  smaller = λ n h. omega arith;
  split = λ d e v w h k q. (omega arith, omega arith);
}

pub base256-IsBase : IsBase 256
base256-IsBase = record {
  divided = λ n. omega arith;
  below = λ n. omega arith;
  smaller = λ n h. omega arith;
  split = λ d e v w h k q. (omega arith, omega arith);
}

module _ (base : ℕ) (b : IsBase base) where
  -- With fuel for the carry, the digits pushed are its digits.
  push_carry-value :
      (fuel carry : ℕ) → carry ≤ fuel → value base (push_carry base fuel carry) ≡ carry
  unfolding push_carry
  push_carry-value zero carry enough = omega (arith, enough)
  push_carry-value (suc fuel) carry enough = elim (Bool-cases (ltb 0 carry)) [
    | inl more ↦ rw more (
        ap (λ v. carry % base + base * v)
          (push_carry-value fuel (carry / base)
            (omega (arith, enough, b.smaller carry (ground (arith, more)))))
        ∙ b.divided carry)
    | inr done ↦ rw done (ground (arith, done))
  ]

  push_carry-IsTrim : (fuel carry : ℕ) → carry ≤ fuel → IsTrim base (push_carry base fuel carry)
  unfolding push_carry
  push_carry-IsTrim zero carry enough = tt
  push_carry-IsTrim (suc fuel) carry enough = elim (Bool-cases (ltb 0 carry)) [
    | inl more ↦
        let fits : carry / base ≤ fuel =
          omega (arith, enough, b.smaller carry (ground (arith, more))) in
        let v : carry % base + base * value base (push_carry base fuel (carry / base)) ≡ carry =
          ap (λ v. carry % base + base * v) (push_carry-value fuel (carry / base) fits)
          ∙ b.divided carry in
        rw more
          (b.below carry, (rw v (ground (arith, more)), push_carry-IsTrim fuel (carry / base) fits))
    | inr done ↦ rw done tt
  ]

  pub absorb-value :
      (by carry : ℕ) (ds : List ℕ)
      → value base (absorb by base carry ds) ≡ carry + value base ds * by
  unfolding absorb
  absorb-value by carry [] = push_carry-value carry carry (omega arith) ∙ omega arith
  absorb-value by carry (d ∷ ds) =
      let x = carry + d * by in
      ap (λ v. x % base + base * v) (absorb-value by (x / base) ds) ∙ omega (arith, b.divided x)

  pub absorb-IsTrim :
      (by carry : ℕ) (ds : List ℕ) → 0 < by → IsTrim base ds → IsTrim base (absorb by base carry ds)
  unfolding absorb
  absorb-IsTrim by carry [] positive trim = push_carry-IsTrim carry carry (omega arith)
  absorb-IsTrim by carry (d ∷ ds) positive (small, (top, trim)) =
      let x = carry + d * by in
      (
        b.below x,
        (
          omega (arith, absorb-value by carry (d ∷ ds), mul-pos top positive),
          absorb-IsTrim by (x / base) ds positive trim,
        ),
      )

  pub absorb_all-value :
      (by : ℕ) (xs ds : List ℕ)
      → value base (absorb_all by base xs ds) ≡ horner by (value base ds) xs
  unfolding absorb_all
  absorb_all-value by [] ds = refl
  absorb_all-value by (x ∷ xs) ds =
      absorb_all-value by xs (absorb by base x ds)
      ∙ ap (λ v. horner by v xs) (absorb-value by x ds ∙ omega arith)

  pub absorb_all-IsTrim :
      (by : ℕ) (xs ds : List ℕ) → 0 < by → IsTrim base ds → IsTrim base (absorb_all by base xs ds)
  unfolding absorb_all
  absorb_all-IsTrim by [] ds positive trim = trim
  absorb_all-IsTrim by (x ∷ xs) ds positive trim =
      absorb_all-IsTrim by xs (absorb by base x ds) positive (absorb-IsTrim by x ds positive trim)

  -- Digits that end in a digit other than 0 are known from their number.
  pub digits_unique :
      (xs ys : List ℕ) → IsTrim base xs → IsTrim base ys → value base xs ≡ value base ys → xs ≡ ys
  digits_unique [] [] s t e = refl
  digits_unique [] (y ∷ ys) s t e = absurd (omega (arith, e, t.1.0))
  digits_unique (x ∷ xs) [] s t e = absurd (omega (arith, e, s.1.0))
  digits_unique (x ∷ xs) (y ∷ ys) s t e =
      let (same, rest) = b.split x y (value base xs) (value base ys) s.0 t.0 e in
      rw (same, digits_unique xs ys s.1.1 t.1.1 rest) refl

pub reverse-value :
    (base : ℕ) (acc xs : List ℕ)
    → value base (reverse_onto acc xs) ≡ horner base (value base acc) xs
reverse-value base acc [] = refl
reverse-value base acc (x ∷ xs) = reverse-value base (x ∷ acc) xs

pub reverse-horner :
    (base : ℕ) (acc ds : List ℕ)
    → horner base 0 (reverse_onto acc ds) ≡ horner base (value base ds) acc
reverse-horner base acc [] = refl
reverse-horner base acc (d ∷ ds) = reverse-horner base (d ∷ acc) ds

pub reverse-IsTrim :
    (base : ℕ) (acc xs : List ℕ)
    → 0 < base
    → All (λ x. x < base) xs
    → IsTrim base acc
    → 0 < value base acc
    → IsTrim base (reverse_onto acc xs)
reverse-IsTrim base acc [] positive small trim top = trim
reverse-IsTrim base acc (x ∷ xs) positive small trim top =
    let more : 0 < x + base * value base acc = omega (arith, mul-pos positive top) in
    reverse-IsTrim base (x ∷ acc) xs positive small.1 (small.0, (more, trim)) more

pub reverse-twice :
    (acc xs ys : List ℕ) → reverse_onto acc (reverse_onto ys xs) ≡ reverse_onto (xs ++ acc) ys
reverse-twice acc [] ys = refl
reverse-twice acc (x ∷ xs) ys = reverse-twice acc xs (x ∷ ys)

pub reverse-append :
    (acc xs ys : List ℕ) → reverse_onto acc (xs ++ ys) ≡ reverse_onto (reverse_onto acc xs) ys
reverse-append acc [] ys = refl
reverse-append acc (x ∷ xs) ys = reverse-append (x ∷ acc) xs ys

-- `c` with `n` digits 0 after it.
abbrev pub shift : ℕ → ℕ → ℕ → ℕ
shift base zero c = c
shift base (suc n) c = shift base n (base * c)

shift-times : (n c : ℕ) → shift 58 n (58 * c) ≡ 58 * shift 58 n c
shift-times zero c = refl
shift-times (suc n) c = shift-times n (58 * c)

shift_mono : (base n c d : ℕ) → c ≤ d → shift base n c ≤ shift base n d
shift_mono base zero c d le = le
shift_mono base (suc n) c d le = shift_mono base n (base * c) (base * d) (mul-le-mul_left base le)

-- Of bytes, the number lies between those of the smallest and the largest.
pub horner-above : (v : ℕ) (xs : List ℕ) → shift 256 (length xs) v ≤ horner 256 v xs
horner-above v [] = omega arith
horner-above v (x ∷ xs) = omega (
  arith,
  shift_mono 256 (length xs) (256 * v) (x + 256 * v) (omega arith),
  horner-above (x + 256 * v) xs,
)

pub horner-below :
    (v : ℕ) (xs : List ℕ) → All (λ x. x < 256) xs → horner 256 v xs < shift 256 (length xs) (suc v)
horner-below v [] small = omega arith
horner-below v (x ∷ xs) (here, small) = omega (
  arith,
  shift_mono 256 (length xs) (suc (x + 256 * v)) (256 * suc v) (omega (arith, here)),
  horner-below (x + 256 * v) xs small,
)

-- A number between `c` and `c + 1`, each with `n` digits 0 after it, has `n` digits below those of `c`.
pub record IsTopped (n c : ℕ) (ds : List ℕ) : Type 0 where
  pub low : List ℕ
  pub high : List ℕ
  pub parts : ds ≡ low ++ high
  pub low_length : length low ≡ n
  pub low_small : All (λ d. d < 58) low
  pub high_trim : IsTrim 58 high
  pub high_value : value 58 high ≡ c

pub digits-IsTopped :
    (n c : ℕ) (ds : List ℕ)
    → IsTrim 58 ds
    → 0 < c
    → shift 58 n c ≤ value 58 ds
    → value 58 ds < shift 58 n (suc c)
    → IsTopped n c ds
digits-IsTopped zero c ds trim positive above below = record {
  low = [];
  high = ds;
  parts = refl;
  low_length = refl;
  low_small = tt;
  high_trim = trim;
  high_value = omega (arith, above, below);
}
digits-IsTopped (suc n) c [] trim positive above below =
    absurd (omega (arith, above, shift-times n c, shift_mono 58 n 1 c positive, shift_positive n))
  where
    shift_positive : (n : ℕ) → 0 < shift 58 n 1
    shift_positive zero = omega arith
    shift_positive (suc n) = omega (arith, shift_positive n, shift-times n 1)
digits-IsTopped (suc n) c (d ∷ ds) (small, (top, trim)) positive above below =
    let rest =
      digits-IsTopped n c ds trim positive (omega (arith, small, above, shift-times n c))
        (omega (arith, small, below, shift-times n (suc c))) in
    record {
      low = d ∷ rest.low;
      high = rest.high;
      parts = ap (λ xs. d ∷ xs) rest.parts;
      low_length = ap suc rest.low_length;
      low_small = (small, rest.low_small);
      high_trim = rest.high_trim;
      high_value = rest.high_value;
    }
