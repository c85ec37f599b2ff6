-- ===== src/Sign/Der.antt =====
-- The DER of crates/hoike-sign/src/seal.rs that is written by hand: lengths, tag and content, bit strings, and the
-- signature of ECDSA P-256.
pub mod Read
pub mod Ecdsa
use hoike.Base.{
  ℕ, ◌+◌, ◌/◌, ◌%◌, ◌^◌, List, [], ◌∷◌, ◌++◌, zero, suc, Bool, true, false, ltb, leb, ◌==◌, length,
  take, drop, if◌then◌else◌,
}

abbrev pub as_u8 : ℕ → ℕ
as_u8 n = n % 2 ^ 8

unfoldable pub encode_der_length : ℕ → List ℕ
encode_der_length len =
    if ltb len 128
    then as_u8 len ∷ []
    else if ltb len 256
    then 0x81 ∷ as_u8 len ∷ []
    else if ltb len 65536
    then 0x82 ∷ as_u8 (len / 2 ^ 8) ∷ as_u8 len ∷ []
    else 0x83 ∷ as_u8 (len / 2 ^ 16) ∷ as_u8 (len / 2 ^ 8) ∷ as_u8 len ∷ []

unfoldable pub tlv : ℕ → List ℕ → List ℕ
tlv tag content = tag ∷ (encode_der_length (length content) ++ content)

abbrev pub wrap_seq : List ℕ → List ℕ
wrap_seq content = tlv 0x30 content

-- The bits of whole bytes.
unfoldable pub encode_bitstring : List ℕ → List ℕ
encode_bitstring bits = 0x03 ∷ (encode_der_length (length bits + 1) ++ 0x00 ∷ bits)

-- From the first byte that is not zero, or the last byte.
unfoldable pub from_first_nonzero : List ℕ → List ℕ
from_first_nonzero [] = []
from_first_nonzero (b ∷ []) = b ∷ []
from_first_nonzero (b ∷ c ∷ bytes) =
    let rest = from_first_nonzero (c ∷ bytes) in if b == 0 then rest else b ∷ c ∷ bytes

abbrev pub needs_pad : List ℕ → Bool
needs_pad [] = false
needs_pad (b ∷ bytes) = leb 128 b

abbrev pub bytes_padded : List ℕ → List ℕ
bytes_padded val = if needs_pad val then 0x00 ∷ val else val

unfoldable pub encode_integer : List ℕ → List ℕ
unfolding from_first_nonzero
encode_integer bytes =
    let val = from_first_nonzero bytes in
    let len = length val + (if needs_pad val then 1 else 0) in 0x02 ∷ as_u8 len ∷ bytes_padded val

unfoldable pub ecdsa_raw_to_der : List ℕ → List ℕ
ecdsa_raw_to_der raw =
    let r_enc = encode_integer (take 32 raw) in
    let s_enc = encode_integer (drop 32 raw) in
    if length raw == 64 then 0x30 ∷ as_u8 (length r_enc + length s_enc) ∷ (r_enc ++ s_enc) else raw
