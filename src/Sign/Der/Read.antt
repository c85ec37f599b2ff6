-- ===== src/Sign/Der/Read.antt =====
-- A reader of DER with definite lengths, as X.690 has it, and what it makes of the DER that
-- crates/hoike-sign/src/seal.rs writes.
use hoike.Base.{
  ℕ, zero, suc, ◌+◌, ◌*◌, ◌-◌, ◌^◌, ◌≡◌, ◌<◌, refl, ap, List, [], ◌∷◌, ◌++◌, Option, none, some,
  arith, ltb, leb, length, take, drop, take-append, drop-append, if◌then◌else◌, and_then,
  length-append,
}
use hoike.Sign.Der.{encode_der_length, tlv, encode_bitstring}

-- A number of so many bytes, the highest first.
unfoldable pub read_be : ℕ → ℕ → List ℕ → Option (ℕ × List ℕ)
read_be zero acc bytes = some (acc, bytes)
read_be (suc n) acc [] = none
read_be (suc n) acc (b ∷ bytes) = read_be n (acc * 256 + b) bytes

unfoldable pub read_length : List ℕ → Option (ℕ × List ℕ)
unfolding read_be
read_length [] = none
read_length (b ∷ bytes) = if ltb b 128 then some (b, bytes) else read_be (b - 128) 0 bytes

-- A tag, the content and what follows.
unfoldable pub read_tlv : List ℕ → Option (ℕ × List ℕ × List ℕ)
unfolding read_length
read_tlv [] = none
read_tlv (tag ∷ bytes) = and_then (read_length bytes) (λ (n : ℕ × List ℕ).
    if leb n.0 (length n.1) then some (tag, take n.0 n.1, drop n.0 n.1) else none)

-- The unsigned number that the bytes write.
unfoldable pub value_from : ℕ → List ℕ → ℕ
value_from acc [] = acc
value_from acc (b ∷ bytes) = value_from (acc * 256 + b) bytes

read_length-encode_der_length :
    (len : ℕ) (rest : List ℕ)
    → len < 2 ^ 24
    → read_length (encode_der_length len ++ rest) ≡ some (len, rest)
unfolding read_length read_be encode_der_length
read_length-encode_der_length len rest h = ground arith

append_assoc : (xs ys zs : List ℕ) → (xs ++ ys) ++ zs ≡ xs ++ (ys ++ zs)
append_assoc [] ys zs = refl
append_assoc (x ∷ xs) ys zs = ap (λ ws. x ∷ ws) (append_assoc xs ys zs)

-- What `tlv` writes is read back, whatever follows it, for contents of less than 2^24 bytes.
pub read_tlv-tlv :
    (tag : ℕ) (content rest : List ℕ)
    → length content < 2 ^ 24
    → read_tlv (tlv tag content ++ rest) ≡ some (tag, content, rest)
unfolding read_tlv tlv
read_tlv-tlv tag content rest h =
    let shape : (encode_der_length (length content) ++ content) ++ rest
        ≡ encode_der_length (length content) ++ (content ++ rest) =
      append_assoc (encode_der_length (length content)) content rest in
    let fits = length-append content rest in
    rw (shape, read_length-encode_der_length (length content) (content ++ rest) h)
      (ground (arith, fits, take-append content rest, drop-append content rest))

encode_bitstring-tlv : (bits : List ℕ) → encode_bitstring bits ≡ tlv 0x03 (0x00 ∷ bits)
unfolding encode_bitstring tlv
encode_bitstring-tlv bits =
    let one : length bits + 1 ≡ length (0x00 ∷ bits) = omega arith in rw one refl

-- A bit string of whole bytes is read back as its content, the number of unused bits first.
pub read_tlv-encode_bitstring :
    (bits rest : List ℕ)
    → length bits + 1 < 2 ^ 24
    → read_tlv (encode_bitstring bits ++ rest) ≡ some (0x03, 0x00 ∷ bits, rest)
read_tlv-encode_bitstring bits rest h =
    let shape : encode_bitstring bits ≡ tlv 0x03 (0x00 ∷ bits) = encode_bitstring-tlv bits in
    rw shape (read_tlv-tlv 0x03 (0x00 ∷ bits) rest (omega (arith, h)))
