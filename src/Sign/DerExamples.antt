-- ===== src/Sign/DerExamples.antt =====
-- The theorems on the DER of crates/hoike-sign/src/seal.rs at concrete bytes.
use hoike.Base.{◌≡◌, refl, List, ℕ, [], ◌∷◌, ◌++◌, some, arith, take, drop}
use hoike.Ahu.Samples.{repeat_byte}
use hoike.Sign.Der.{tlv, ecdsa_raw_to_der}
use hoike.Sign.Der.Read.{read_tlv, read_tlv-tlv}
use hoike.Sign.Der.Ecdsa.{IsSignature, ecdsa_raw_to_der-IsSignature}

read_tlv-tlv_example :
    read_tlv (tlv 0x0C (repeat_byte 200 65) ++ 5 ∷ 0 ∷ [])
    ≡ some (0x0C, repeat_byte 200 65, 5 ∷ 0 ∷ [])
read_tlv-tlv_example = read_tlv-tlv 0x0C (repeat_byte 200 65) (5 ∷ 0 ∷ []) (omega arith)

-- One half is a small number with its high bit set, the other has no leading zeros.
abbrev raw : List ℕ
raw = repeat_byte 31 0 ++ 200 ∷ repeat_byte 32 5

ecdsa_raw_to_der-IsSignature_example :
    IsSignature (ecdsa_raw_to_der raw) (take 32 raw) (drop 32 raw)
ecdsa_raw_to_der-IsSignature_example = ecdsa_raw_to_der-IsSignature raw refl
