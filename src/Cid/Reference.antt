-- ===== src/Cid/Reference.antt =====
-- encodeCid, decodeCid and isValidCid of api/src/common/utils/cid.util.ts.
use eco_mint.Prelude.{
  ℕ, ◌+◌, ◌-◌, ◌*◌, Bool, false, ◌&&◌, ◌||◌, Option, none, some, List, [], ◌∷◌, ◌++◌, all, is_some,
  length, leb, ltb, nat_eq, if◌then◌else◌,
}
use eco_mint.Cid.Base58.{base58_encode, base58_decode, base32_encode}

abbrev pub cidv0_prefix : List ℕ
cidv0_prefix = 0x12 ∷ 0x20 ∷ []

abbrev pub digest_length : ℕ
digest_length = 32

abbrev pub between : ℕ → ℕ → ℕ → Bool
between low high c = leb low c && leb c high

-- `[0-9a-fA-F]`
unfoldable pub is_hex : ℕ → Bool
is_hex c = between 48 57 c || (between 97 102 c || between 65 70 c)

abbrev pub hex_value : ℕ → ℕ
hex_value c = if leb c 57 then c - 48 else if leb c 70 then c - 55 else c - 87

-- `Buffer.from(cid, 'hex')` for hexadecimal characters
unfoldable pub from_hex : List ℕ → List ℕ
from_hex (high ∷ low ∷ cs) = (hex_value high * 16 + hex_value low) ∷ from_hex cs
from_hex cs = []

-- `[1-9A-HJ-NP-Za-km-z]`
unfoldable pub is_base58 : ℕ → Bool
is_base58 c =
    between 49 57 c
    || (between 65 72 c
        || (between 74 78 c || (between 80 90 c || (between 97 107 c || between 109 122 c))))

-- `/^Qm[1-9A-HJ-NP-Za-km-z]{44}$/`
unfoldable pub is_cidv0 : List ℕ → Bool
is_cidv0 (q ∷ m ∷ cs) = nat_eq q 81 && (nat_eq m 109 && (nat_eq (length cs) 44 && all is_base58 cs))
is_cidv0 cs = false

-- The digest of a multihash of 34 bytes with the prefix.
abbrev pub strip_prefix : List ℕ → Option (List ℕ)
strip_prefix (a ∷ b ∷ digest) =
    if nat_eq (length digest) 32 && (nat_eq a 0x12 && nat_eq b 0x20) then some digest else none
strip_prefix bytes = none

unfoldable pub try_extract_digest : List ℕ → Option (List ℕ)
try_extract_digest cid =
    if nat_eq (length cid) 64 && all is_hex cid
    then some (from_hex cid)
    else if is_cidv0 cid
    then elim (base58_decode cid) [ none ↦ none | some decoded ↦ strip_prefix decoded ]
    else none

-- `none` is the InvalidEvidenceReferenceError.
unfoldable pub encode_cid : List ℕ → Option (List ℕ)
encode_cid cid = elim (try_extract_digest cid) [
  | none ↦ none
  | some digest ↦ if nat_eq (length digest) digest_length then some digest else none
]

abbrev pub has_prefix : List ℕ → Bool
has_prefix (a ∷ b ∷ rest) = nat_eq a 0x12 && nat_eq b 0x20
has_prefix bytes = false

abbrev pub starts_with_one : List ℕ → Bool
starts_with_one (a ∷ rest) = nat_eq a 0x01
starts_with_one [] = false

unfoldable pub decode_cid : List ℕ → List ℕ
decode_cid bytes =
    if nat_eq (length bytes) 0
    then []
    else if nat_eq (length bytes) 34 && has_prefix bytes
    then base58_encode bytes
    else if ltb 2 (length bytes) && starts_with_one bytes
    then base32_encode bytes
    else if nat_eq (length bytes) digest_length
    then base58_encode (cidv0_prefix ++ bytes)
    else base32_encode bytes

unfoldable pub is_valid_cid : List ℕ → Bool
is_valid_cid cid = is_some (try_extract_digest cid)
