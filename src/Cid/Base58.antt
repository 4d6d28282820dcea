-- ===== src/Cid/Base58.antt =====
-- base58Encode, base58Decode and base32Encode of api/src/common/utils/cid.util.ts. A text is the list of
-- its characters' codes, a buffer the list of its bytes.
use eco_mint.Prelude.{
  ℕ, zero, suc, ◌+◌, ◌-◌, ◌*◌, ◌/◌, ◌%◌, ◌^◌, Option, none, some, List, [], ◌∷◌, ◌++◌, map, ltb,
  leb, nat_eq, if◌then◌else◌,
}

-- 123456789ABCDEFGHJKLMNPQRSTUVWXYZabcdefghijkmnopqrstuvwxyz
abbrev pub base58_alphabet : List ℕ
base58_alphabet =
    49 ∷ 50 ∷ 51 ∷ 52 ∷ 53 ∷ 54 ∷ 55 ∷ 56 ∷ 57 ∷ 65 ∷ 66 ∷ 67 ∷ 68 ∷ 69 ∷ 70 ∷ 71 ∷ 72 ∷ 74 ∷ 75
    ∷ 76 ∷ 77 ∷ 78 ∷ 80 ∷ 81 ∷ 82 ∷ 83 ∷ 84 ∷ 85 ∷ 86 ∷ 87 ∷ 88 ∷ 89 ∷ 90 ∷ 97 ∷ 98 ∷ 99 ∷ 100 ∷ 101
    ∷ 102 ∷ 103 ∷ 104 ∷ 105 ∷ 106 ∷ 107 ∷ 109 ∷ 110 ∷ 111 ∷ 112 ∷ 113 ∷ 114 ∷ 115 ∷ 116 ∷ 117 ∷ 118
    ∷ 119 ∷ 120 ∷ 121 ∷ 122 ∷ []

-- `BASE58_ALPHABET[digit]`; every digit is in range.
unfoldable pub char_at : List ℕ → ℕ → ℕ
char_at [] n = 0
char_at (c ∷ cs) zero = c
char_at (c ∷ cs) (suc n) = char_at cs n

-- `alphabet.indexOf(char)`, with `none` for -1
unfoldable pub index_of : List ℕ → ℕ → Option ℕ
index_of [] c = none
index_of (x ∷ xs) c =
    let rest = index_of xs c in
    if nat_eq x c then some 0 else elim rest [ none ↦ none | some n ↦ some (suc n) ]

-- `while (carry > 0)`: at most `carry` rounds.
unfoldable pub push_carry : ℕ → ℕ → ℕ → List ℕ
push_carry base zero carry = []
push_carry base (suc fuel) carry =
    let rest = push_carry base fuel (carry / base) in
    if ltb 0 carry then (carry % base) ∷ rest else []

-- The loop over the digits in `base`, the lowest first, which multiplies them by `by` and adds the carry,
-- and the loop that pushes what is left. `<< 8` is `* 256`, `& 0xff` is `% 256` and `>>= 8` is `/ 256`.
unfoldable pub absorb : ℕ → ℕ → ℕ → List ℕ → List ℕ
absorb by base carry [] = push_carry base carry carry
absorb by base carry (d ∷ digits) =
    ((carry + d * by) % base) ∷ absorb by base ((carry + d * by) / base) digits

unfoldable pub absorb_all : ℕ → ℕ → List ℕ → List ℕ → List ℕ
absorb_all by base [] digits = digits
absorb_all by base (x ∷ xs) digits = absorb_all by base xs (absorb by base x digits)

-- `reverse`, onto what was reversed before
abbrev pub reverse_onto : List ℕ → List ℕ → List ℕ
reverse_onto acc [] = acc
reverse_onto acc (x ∷ xs) = reverse_onto (x ∷ acc) xs

-- A character `char` for each of the values that the text or buffer begins with.
unfoldable pub leading : ℕ → ℕ → List ℕ → List ℕ
leading value char [] = []
leading value char (x ∷ xs) =
    let rest = leading value char xs in if nat_eq x value then char ∷ rest else []

unfoldable pub base58_encode : List ℕ → List ℕ
base58_encode buffer =
    leading 0 (char_at base58_alphabet 0) buffer
    ++ map (char_at base58_alphabet) (reverse_onto [] (absorb_all 256 58 buffer (0 ∷ [])))

abbrev pub push_digit : Option ℕ → Option (List ℕ) → Option (List ℕ)
push_digit (some d) (some ds) = some (d ∷ ds)
push_digit _ _ = none

-- The digits of a text; `none` where a character is not of the alphabet.
unfoldable pub digits_of : List ℕ → Option (List ℕ)
digits_of [] = some []
digits_of (c ∷ cs) = push_digit (index_of base58_alphabet c) (digits_of cs)

abbrev pub bytes_of : List ℕ → Option (List ℕ) → Option (List ℕ)
bytes_of text none = none
bytes_of text (some digits) = some (
    reverse_onto []
      (absorb_all 58 256 digits (0 ∷ []) ++ leading (char_at base58_alphabet 0) 0 text))

unfoldable pub base58_decode : List ℕ → Option (List ℕ)
base58_decode text = bytes_of text (digits_of text)

-- ABCDEFGHIJKLMNOPQRSTUVWXYZ234567
abbrev pub base32_alphabet : List ℕ
base32_alphabet =
    65 ∷ 66 ∷ 67 ∷ 68 ∷ 69 ∷ 70 ∷ 71 ∷ 72 ∷ 73 ∷ 74 ∷ 75 ∷ 76 ∷ 77 ∷ 78 ∷ 79 ∷ 80 ∷ 81 ∷ 82 ∷ 83
    ∷ 84 ∷ 85 ∷ 86 ∷ 87 ∷ 88 ∷ 89 ∷ 90 ∷ 50 ∷ 51 ∷ 52 ∷ 53 ∷ 54 ∷ 55 ∷ []

-- `while (bits >= 5)`: what is put out, and the bits left.
unfoldable pub put_groups : ℕ → ℕ → ℕ → List ℕ × ℕ
put_groups value zero bits = ([], bits)
put_groups value (suc fuel) bits =
    let (rest, left) = put_groups value fuel (bits - 5) in
    if leb 5 bits
    then (char_at base32_alphabet (value / 2 ^ (bits - 5) % 32) ∷ rest, left)
    else ([], bits)

-- `value` is a 32-bit integer: `<<` drops the bits above. Below 5 bits are left before a byte, so three
-- rounds are enough.
unfoldable pub base32_from : List ℕ → ℕ → ℕ → List ℕ
base32_from [] value bits =
    if ltb 0 bits then char_at base32_alphabet (value * 2 ^ (5 - bits) % 32) ∷ [] else []
base32_from (b ∷ buffer) value bits =
    let value' = (value * 256 + b) % 2 ^ 32 in
    let (out, left) = put_groups value' 3 (bits + 8) in out ++ base32_from buffer value' left

unfoldable pub base32_encode : List ℕ → List ℕ
base32_encode buffer = base32_from buffer 0 0
