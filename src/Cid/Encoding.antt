-- ===== src/Cid/Encoding.antt =====
-- The text that is made of a digest: `Q`, `m` and 44 characters.
use eco_mint.Prelude.{
  ℕ, zero, suc, ◌+◌, ◌≤◌, ◌<◌, Bool, true, false, ◌&&◌, Option, none, some, List, [], ◌∷◌, ◌++◌,
  map, all, length, ◌≡◌, refl, ap, ◌∙◌, subst, arith, nat_eq, All, inl, inr, Bool-cases,
}
use eco_mint.Cid.Base58.{
  base58_alphabet, char_at, index_of, push_carry, absorb, absorb_all, reverse_onto, leading,
  base58_encode, digits_of,
}
use eco_mint.Cid.Reference.{cidv0_prefix, is_base58}
use eco_mint.Cid.Positional.{
  value, horner, IsTrim, base58-IsBase, absorb_all-value, absorb_all-IsTrim, digits_unique,
  reverse-append, horner-above, horner-below, IsTopped, digits-IsTopped, shift,
}

abbrev is_at : Option ℕ → ℕ → Bool
is_at none d = false
is_at (some n) d = nat_eq n d

-- The character of a digit is of the alphabet and stands at the digit.
abbrev good_digit : ℕ → Bool
good_digit d =
    is_at (index_of base58_alphabet (char_at base58_alphabet d)) d
    && is_base58 (char_at base58_alphabet d)

abbrev all_below : (ℕ → Bool) → ℕ → Bool
all_below p zero = true
all_below p (suc n) = p n && all_below p n

below-all : (p : ℕ → Bool) (n d : ℕ) → all_below p n ≡ true → d < n → p d ≡ true
below-all p zero d h lt = absurd (omega (arith, lt))
below-all p (suc n) d h lt = elim (Bool-cases (nat_eq d n)) [
  | inl same ↦ let e : d ≡ n = ground (arith, same) in rw e (ground (arith, h))
  | inr other ↦ below-all p n d (ground (arith, h)) (ground (arith, other, lt))
]

both : (a b : Bool) → (a && b) ≡ true → (a ≡ true) × (b ≡ true)
both a b h = (ground arith, ground arith)

good-digit : (d : ℕ) → d < 58 → good_digit d ≡ true
unfolding char_at index_of is_base58
good-digit d lt = below-all good_digit 58 d refl lt

is_at-some : (o : Option ℕ) (d : ℕ) → is_at o d ≡ true → o ≡ some d
is_at-some none d h = absurd (ground arith)
is_at-some (some n) d h = let e : n ≡ d = ground (arith, h) in ap some e

pub index_of-char_at :
    (d : ℕ) → d < 58 → index_of base58_alphabet (char_at base58_alphabet d) ≡ some d
index_of-char_at d lt =
    is_at-some (index_of base58_alphabet (char_at base58_alphabet d)) d
      (both (is_at (index_of base58_alphabet (char_at base58_alphabet d)) d)
        (is_base58 (char_at base58_alphabet d)) (good-digit d lt)).0

char_at-is_base58 : (d : ℕ) → d < 58 → is_base58 (char_at base58_alphabet d) ≡ true
char_at-is_base58 d lt =
    (both (is_at (index_of base58_alphabet (char_at base58_alphabet d)) d)
      (is_base58 (char_at base58_alphabet d)) (good-digit d lt)).1

abbrev pub text_of : List ℕ → List ℕ
text_of digits = map (char_at base58_alphabet) digits

pub digits_of-text : (ds : List ℕ) → All (λ d. d < 58) ds → digits_of (text_of ds) ≡ some ds
unfolding digits_of
digits_of-text [] small = refl
digits_of-text (d ∷ ds) small = rw (index_of-char_at d small.0, digits_of-text ds small.1) refl

pub text-is_base58 : (ds : List ℕ) → All (λ d. d < 58) ds → all is_base58 (text_of ds) ≡ true
text-is_base58 [] small = refl
text-is_base58 (d ∷ ds) small = rw (char_at-is_base58 d small.0, text-is_base58 ds small.1) refl

pub text-length : (ds : List ℕ) → length (text_of ds) ≡ length ds
text-length [] = refl
text-length (d ∷ ds) = ap suc (text-length ds)

reverse-length : (acc xs : List ℕ) → length (reverse_onto acc xs) ≡ length xs + length acc
reverse-length acc [] = omega arith
reverse-length acc (x ∷ xs) = omega (arith, reverse-length (x ∷ acc) xs)

reverse-All :
    (P : ℕ → Type 0) (acc xs : List ℕ) → All P acc → All P xs → All P (reverse_onto acc xs)
reverse-All P acc [] h k = h
reverse-All P acc (x ∷ xs) h k = reverse-All P (x ∷ acc) xs (k.0, h) k.1

-- 32 bytes.
pub record IsDigest (digest : List ℕ) : Type 0 where
  pub size : length digest ≡ 32
  pub bytes : All (λ x. x < 256) digest

-- The digits that the encoder has after the two bytes of the prefix.
abbrev prefix_digits : List ℕ
prefix_digits = 0 ∷ 22 ∷ 1 ∷ []

abbrev pub digits : List ℕ → List ℕ
digits digest = absorb_all 256 58 digest prefix_digits

pub digits-IsTrim : (digest : List ℕ) → IsTrim 58 (digits digest)
digits-IsTrim digest =
    absorb_all-IsTrim 58 base58-IsBase 256 digest prefix_digits (omega arith)
      (omega arith, (omega arith, (omega arith, (omega arith, (omega arith, (omega arith, tt))))))

pub digits-value : (digest : List ℕ) → value 58 (digits digest) ≡ horner 256 4640 digest
digits-value digest = absorb_all-value 58 base58-IsBase 256 digest prefix_digits

digits-topped : (digest : List ℕ) → IsDigest digest → IsTopped 44 1378 (digits digest)
digits-topped digest d =
    digits-IsTopped 44 1378 (digits digest) (digits-IsTrim digest) (omega arith)
      (omega (arith, least, digits-value digest, from))
      (omega (arith, most, digits-value digest, upto))
  where
    least : shift 58 44 1378 ≤ shift 256 32 4640
    least = omega arith

    most : shift 256 32 4641 ≤ shift 58 44 1379
    most = omega arith

    from : shift 256 32 4640 ≤ horner 256 4640 digest
    from = subst (λ n. shift 256 n 4640 ≤ horner 256 4640 digest) d.size (horner-above 4640 digest)

    upto : horner 256 4640 digest < shift 256 32 4641
    upto =
        subst (λ n. horner 256 4640 digest < shift 256 n 4641) d.size
          (horner-below 4640 digest d.bytes)

digits-parts :
    (digest : List ℕ) (d : IsDigest digest)
    → digits digest ≡ (digits-topped digest d).low ++ 44 ∷ 23 ∷ []
digits-parts digest d =
    let t = digits-topped digest d in
    t.parts
    ∙ ap (λ high. t.low ++ high)
        (digits_unique 58 base58-IsBase t.high (44 ∷ 23 ∷ []) t.high_trim
          (omega arith, (omega arith, (omega arith, (omega arith, tt)))) t.high_value)

-- The text of the digits below the two on top.
pub rest_of : (digest : List ℕ) → IsDigest digest → List ℕ
rest_of digest d = reverse_onto [] (digits-topped digest d).low

pub reversed-digits :
    (digest : List ℕ) (d : IsDigest digest)
    → reverse_onto [] (digits digest) ≡ 23 ∷ 44 ∷ rest_of digest d
unfolding rest_of
reversed-digits digest d =
    ap (reverse_onto []) (digits-parts digest d)
    ∙ reverse-append [] (digits-topped digest d).low (44 ∷ 23 ∷ [])

pub rest-length : (digest : List ℕ) (d : IsDigest digest) → length (rest_of digest d) ≡ 44
unfolding rest_of
rest-length digest d =
    let t = digits-topped digest d in omega (arith, reverse-length [] t.low, t.low_length)

pub rest-small : (digest : List ℕ) (d : IsDigest digest) → All (λ x. x < 58) (rest_of digest d)
unfolding rest_of
rest-small digest d =
    reverse-All (λ x. x < 58) [] (digits-topped digest d).low tt (digits-topped digest d).low_small

-- The encoder's text.
unfoldable pub cid_of : (digest : List ℕ) → IsDigest digest → List ℕ
cid_of digest d = 81 ∷ 109 ∷ text_of (rest_of digest d)

pub encoded :
    (digest : List ℕ) (d : IsDigest digest)
    → base58_encode (cidv0_prefix ++ digest) ≡ cid_of digest d
unfolding cid_of base58_encode leading absorb_all absorb push_carry char_at
encoded digest d = ap text_of (reversed-digits digest d)
