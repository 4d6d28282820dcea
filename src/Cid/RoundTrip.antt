-- ===== src/Cid/RoundTrip.antt =====
-- A digest comes back from the CIDv0 that is made of it.
use eco_mint.Prelude.{
  ℕ, suc, true, false, some, List, [], ◌∷◌, ◌++◌, length, ◌≡◌, refl, sym, ap, ◌∙◌, arith,
  append-nil,
}
use eco_mint.Cid.Base58.{
  char_at, index_of, push_digit, bytes_of, push_carry, absorb, absorb_all, reverse_onto, leading,
  digits_of, base58_decode,
}
use eco_mint.Cid.Reference.{is_cidv0, try_extract_digest, encode_cid, decode_cid, starts_with_one}
use eco_mint.Cid.Positional.{
  value, horner, IsTrim, base256-IsBase, absorb_all-value, absorb_all-IsTrim, digits_unique,
  reverse-value, reverse-horner, reverse-IsTrim, reverse-twice,
}
use eco_mint.Cid.Encoding.{
  IsDigest, digits, digits-value, rest_of, reversed-digits, rest-length, rest-small, cid_of,
  encoded, digits_of-text, text-is_base58, text-length,
}

-- What the decoder makes of the digits, the lowest byte first.
decoded : (digest : List ℕ) → IsDigest digest → List ℕ
decoded digest d = absorb_all 58 256 (44 ∷ rest_of digest d) (23 ∷ [])

decoded-IsTrim : (digest : List ℕ) (d : IsDigest digest) → IsTrim 256 (decoded digest d)
unfolding decoded
decoded-IsTrim digest d =
    absorb_all-IsTrim 256 base256-IsBase 58 (44 ∷ rest_of digest d) (23 ∷ []) (omega arith)
      (omega arith, (omega arith, tt))

decoded-value :
    (digest : List ℕ) (d : IsDigest digest) → value 256 (decoded digest d) ≡ horner 256 4640 digest
unfolding decoded
decoded-value digest d =
    absorb_all-value 256 base256-IsBase 58 (44 ∷ rest_of digest d) (23 ∷ [])
    ∙ (sym (ap (horner 58 0) (reversed-digits digest d))
        ∙ (reverse-horner 58 [] (digits digest) ∙ digits-value digest))

-- They are the bytes of the prefix and the digest, reversed.
decoded-bytes :
    (digest : List ℕ) (d : IsDigest digest) → decoded digest d ≡ reverse_onto (32 ∷ 18 ∷ []) digest
decoded-bytes digest d =
    digits_unique 256 base256-IsBase (decoded digest d) (reverse_onto (32 ∷ 18 ∷ []) digest)
      (decoded-IsTrim digest d)
      (reverse-IsTrim 256 (32 ∷ 18 ∷ []) digest (omega arith) d.bytes
        (omega arith, (omega arith, (omega arith, (omega arith, tt)))) (omega arith))
      (decoded-value digest d ∙ sym (reverse-value 256 (32 ∷ 18 ∷ []) digest))

decode-digits :
    (digest : List ℕ) (d : IsDigest digest)
    → base58_decode (cid_of digest d) ≡ some (reverse_onto [] (decoded digest d ++ []))
unfolding cid_of base58_decode digits_of leading char_at index_of absorb_all absorb push_carry
    decoded
decode-digits digest d =
    ap (λ o. bytes_of (cid_of digest d) (push_digit (some 23) (push_digit (some 44) o)))
      (digits_of-text (rest_of digest d) (rest-small digest d))

base58-round :
    (digest : List ℕ) (d : IsDigest digest)
    → base58_decode (cid_of digest d) ≡ some (18 ∷ 32 ∷ digest)
base58-round digest d =
    decode-digits digest d
    ∙ ap some (
        ap (reverse_onto []) (append-nil (decoded digest d) ∙ decoded-bytes digest d)
        ∙ (reverse-twice [] digest (32 ∷ 18 ∷ []) ∙ ap (λ xs. 18 ∷ 32 ∷ xs) (append-nil digest)))

is_cidv0-cid : (digest : List ℕ) (d : IsDigest digest) → is_cidv0 (cid_of digest d) ≡ true
unfolding cid_of is_cidv0
is_cidv0-cid digest d =
    rw
      (
        text-length (rest_of digest d) ∙ rest-length digest d,
        text-is_base58 (rest_of digest d) (rest-small digest d),
      )
      refl

cid-length : (digest : List ℕ) (d : IsDigest digest) → length (cid_of digest d) ≡ 46
unfolding cid_of
cid-length digest d = ap (λ n. suc (suc n)) (text-length (rest_of digest d) ∙ rest-length digest d)

encode-cidv0 :
    (cid digest : List ℕ)
    → length cid ≡ 46
    → is_cidv0 cid ≡ true
    → base58_decode cid ≡ some (18 ∷ 32 ∷ digest)
    → length digest ≡ 32
    → encode_cid cid ≡ some digest
unfolding encode_cid try_extract_digest
encode-cidv0 cid digest long shaped round size =
    rw (encode_cid, try_extract_digest, long, shaped, round, size, size) refl

decode-cid_of :
    (digest : List ℕ) (d : IsDigest digest)
    → starts_with_one digest ≡ false
    → decode_cid digest ≡ cid_of digest d
unfolding decode_cid
decode-cid_of digest d other = rw (d.size, other) (encoded digest d)

-- A digest of 32 bytes that does not begin with the byte 1 comes back when it is made a CID and that is
-- encoded again.
pub encode_cid-decode_cid :
    (digest : List ℕ)
    → IsDigest digest
    → starts_with_one digest ≡ false
    → encode_cid (decode_cid digest) ≡ some digest
encode_cid-decode_cid digest d other =
    ap encode_cid (decode-cid_of digest d other)
    ∙ encode-cidv0 (cid_of digest d) digest (cid-length digest d) (is_cidv0-cid digest d)
        (base58-round digest d) d.size
