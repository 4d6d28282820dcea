-- ===== src/Cid/Tests.antt =====
-- Runs of the encoders, and the round trip at a digest.
use eco_mint.Prelude.{ℕ, zero, suc, ◌<◌, none, some, List, [], ◌∷◌, ◌≡◌, refl, arith, All}
use eco_mint.Cid.Base58.{
  char_at, index_of, push_carry, absorb, absorb_all, leading, base58_encode, digits_of,
  base58_decode, put_groups, base32_from, base32_encode,
}
use eco_mint.Cid.Reference.{encode_cid, decode_cid, try_extract_digest, is_base58, is_hex, is_cidv0}
use eco_mint.Cid.RoundTrip.{encode_cid-decode_cid}

abbrev copies : ℕ → ℕ → List ℕ
copies b zero = []
copies b (suc n) = b ∷ copies b n

copies-small : (n : ℕ) → All (λ x. x < 256) (copies 7 n)
copies-small zero = tt
copies-small (suc n) = (omega arith, copies-small n)

encode_cid-decode_cid_example : encode_cid (decode_cid (copies 7 32)) ≡ some (copies 7 32)
encode_cid-decode_cid_example =
    encode_cid-decode_cid (copies 7 32) (record { size = refl; bytes = copies-small 32 }) refl

-- A digest that begins with the byte 1 is taken for a CIDv1, and its text is refused.
one_is_lost : encode_cid (decode_cid (1 ∷ copies 7 31)) ≡ none
unfolding char_at index_of push_carry absorb absorb_all leading base58_encode digits_of
    base58_decode encode_cid decode_cid try_extract_digest is_cidv0 put_groups base32_from
    base32_encode is_base58 is_hex
one_is_lost = refl
