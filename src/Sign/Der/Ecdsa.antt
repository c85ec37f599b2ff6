-- ===== src/Sign/Der/Ecdsa.antt =====
-- The signature of ECDSA P-256 in DER, as ecdsa_raw_to_der of crates/hoike-sign/src/seal.rs writes it.
use hoike.Base.{
  ℕ, zero, suc, ◌+◌, ◌^◌, ◌≡◌, ◌≤◌, ◌<◌, refl, sym, ap, ◌∙◌, List, [], ◌∷◌, ◌++◌, some, arith, leb,
  ◌==◌, length, take, drop, length-append, inl, inr, Bool-cases, ◌≢◌, length-take, take-drop,
}
use hoike.Sign.Der.{
  as_u8, encode_der_length, tlv, from_first_nonzero, bytes_padded, encode_integer, ecdsa_raw_to_der,
}
use hoike.Sign.Der.Read.{read_tlv, read_tlv-tlv, value_from}

length-from_first_nonzero : (bytes : List ℕ) → length (from_first_nonzero bytes) ≤ length bytes
unfolding from_first_nonzero
length-from_first_nonzero [] = omega arith
length-from_first_nonzero (b ∷ []) = omega arith
length-from_first_nonzero (b ∷ c ∷ bytes) = ground (arith, length-from_first_nonzero (c ∷ bytes))

value-from_first_nonzero :
    (bytes : List ℕ) → value_from 0 (from_first_nonzero bytes) ≡ value_from 0 bytes
unfolding from_first_nonzero value_from
value-from_first_nonzero [] = refl
value-from_first_nonzero (b ∷ []) = refl
value-from_first_nonzero (zero ∷ c ∷ bytes) = value-from_first_nonzero (c ∷ bytes)
value-from_first_nonzero (suc b ∷ c ∷ bytes) = ground arith

value-bytes_padded : (val : List ℕ) → value_from 0 (bytes_padded val) ≡ value_from 0 val
unfolding value_from
value-bytes_padded [] = refl
value-bytes_padded (b ∷ val) = ground arith

-- The content of the INTEGER.
abbrev pub integer_of : List ℕ → List ℕ
integer_of bytes = bytes_padded (from_first_nonzero bytes)

length-integer_of : (bytes : List ℕ) → length (integer_of bytes) ≤ length bytes + 1
length-integer_of bytes = ground (arith, length-from_first_nonzero bytes)

encode_integer-tlv :
    (bytes : List ℕ) → length bytes ≤ 32 → encode_integer bytes ≡ tlv 0x02 (integer_of bytes)
unfolding encode_integer tlv encode_der_length
encode_integer-tlv bytes h = ground (arith, length-from_first_nonzero bytes)

-- A DER integer that is not negative and has no byte too many.
abbrev pub IsInteger : List ℕ → Type 0
IsInteger [] = ⊥
IsInteger (b ∷ []) = b < 128
IsInteger (b ∷ c ∷ bytes) = (b < 128) × (b ≡ 0 → 128 ≤ c)

-- No zero in front of another byte.
abbrev HasNoZero : List ℕ → Type 0
HasNoZero [] = ⊥
HasNoZero (b ∷ []) = Unit {0}
HasNoZero (b ∷ c ∷ bytes) = b ≢ 0

from_first_nonzero-HasNoZero : (b : ℕ) (bytes : List ℕ) → HasNoZero (from_first_nonzero (b ∷ bytes))
unfolding from_first_nonzero
from_first_nonzero-HasNoZero b [] = tt
from_first_nonzero-HasNoZero b (c ∷ bytes) = elim (Bool-cases (b == 0)) [
  | inl t ↦ rw t (from_first_nonzero-HasNoZero c bytes)
  | inr f ↦ rw f (λ e. absurd (ground (arith, e, f)))
]

bytes_padded-IsInteger : (val : List ℕ) → HasNoZero val → IsInteger (bytes_padded val)
bytes_padded-IsInteger [] h = h
bytes_padded-IsInteger (b ∷ []) h = elim (Bool-cases (leb 128 b)) [
  | inl t ↦ rw t (ground arith)
  | inr f ↦ rw f (ground arith)
]
bytes_padded-IsInteger (b ∷ c ∷ val) h = elim (Bool-cases (leb 128 b)) [
  | inl t ↦ rw t (ground arith)
  | inr f ↦ rw f (ground (arith, h))
]

integer_of-IsInteger : (bytes : List ℕ) → 1 ≤ length bytes → IsInteger (integer_of bytes)
integer_of-IsInteger [] h = absurd (omega arith)
integer_of-IsInteger (b ∷ bytes) h =
    bytes_padded-IsInteger (from_first_nonzero (b ∷ bytes)) (from_first_nonzero-HasNoZero b bytes)

-- What a reader of DER finds: a sequence of two integers.
pub record IsSignature (der r_bytes s_bytes : List ℕ) : Type 0 where
  pub body : List ℕ
  pub r : List ℕ
  pub more : List ℕ
  pub s : List ℕ
  pub sequence : read_tlv der ≡ some (0x30, body, [])
  pub first : read_tlv body ≡ some (0x02, r, more)
  pub second : read_tlv more ≡ some (0x02, s, [])
  pub r_value : value_from 0 r ≡ value_from 0 r_bytes
  pub s_value : value_from 0 s ≡ value_from 0 s_bytes
  pub r_integer : IsInteger r
  pub s_integer : IsInteger s

length-tlv : (tag : ℕ) (content : List ℕ) → length content ≤ 33 → length (tlv tag content) ≤ 35
unfolding tlv encode_der_length
length-tlv tag content h = ground arith

append_nil : (xs : List ℕ) → xs ++ [] ≡ xs
append_nil [] = refl
append_nil (x ∷ xs) = ap (λ ys. x ∷ ys) (append_nil xs)

read_all :
    (tag : ℕ) (content : List ℕ)
    → length content < 2 ^ 24
    → read_tlv (tlv tag content) ≡ some (tag, content, [])
read_all tag content h =
    ap read_tlv (sym (append_nil (tlv tag content))) ∙ read_tlv-tlv tag content [] h

sequence-tlv :
    (content : List ℕ) (len : ℕ)
    → length content ≡ len
    → len ≤ 70
    → 0x30 ∷ as_u8 len ∷ content ≡ tlv 0x30 content
unfolding tlv encode_der_length
sequence-tlv content len e h = ground (arith, e)

ecdsa_raw_to_der-tlv :
    (raw : List ℕ)
    → length raw ≡ 64
    → ecdsa_raw_to_der raw
      ≡ tlv 0x30 (tlv 0x02 (integer_of (take 32 raw)) ++ tlv 0x02 (integer_of (drop 32 raw)))
unfolding ecdsa_raw_to_der
ecdsa_raw_to_der-tlv raw h =
    let front : length (take 32 raw) ≡ 32 = length-take 32 raw (omega (arith, h)) in
    let back : length (drop 32 raw) ≡ 32 =
      omega (
        arith,
        h,
        front,
        ap length (take-drop 32 raw),
        length-append (take 32 raw) (drop 32 raw),
      ) in
    let r = integer_of (take 32 raw) in
    let s = integer_of (drop 32 raw) in
    rw
      (
        h,
        encode_integer-tlv (take 32 raw) (omega (arith, front)),
        encode_integer-tlv (drop 32 raw) (omega (arith, back)),
      )
      (sequence-tlv (tlv 0x02 r ++ tlv 0x02 s) _ (length-append (tlv 0x02 r) (tlv 0x02 s)) (
        omega (
          arith,
          length-tlv 0x02 r (omega (arith, length-integer_of (take 32 raw), front)),
          length-tlv 0x02 s (omega (arith, length-integer_of (drop 32 raw), back)),
        )))

-- Of a raw signature of 64 bytes comes a DER sequence of two integers, in the shortest form and not
-- negative, whose values are those of the two halves.
pub ecdsa_raw_to_der-IsSignature :
    (raw : List ℕ)
    → length raw ≡ 64
    → IsSignature (ecdsa_raw_to_der raw) (take 32 raw) (drop 32 raw)
ecdsa_raw_to_der-IsSignature raw h =
    let front : length (take 32 raw) ≡ 32 = length-take 32 raw (omega (arith, h)) in
    let back : length (drop 32 raw) ≡ 32 =
      omega (
        arith,
        h,
        front,
        ap length (take-drop 32 raw),
        length-append (take 32 raw) (drop 32 raw),
      ) in
    let r = integer_of (take 32 raw) in
    let s = integer_of (drop 32 raw) in
    let r_short = length-integer_of (take 32 raw) in
    let s_short = length-integer_of (drop 32 raw) in
    let r_in = length-tlv 0x02 r (omega (arith, r_short, front)) in
    let s_in = length-tlv 0x02 s (omega (arith, s_short, back)) in
    record {
      body = tlv 0x02 r ++ tlv 0x02 s;
      r = r;
      more = tlv 0x02 s;
      s = s;
      sequence =
          ap read_tlv (ecdsa_raw_to_der-tlv raw h)
          ∙ read_all 0x30 (tlv 0x02 r ++ tlv 0x02 s)
              (omega (arith, length-append (tlv 0x02 r) (tlv 0x02 s), r_in, s_in));
      first = read_tlv-tlv 0x02 r (tlv 0x02 s) (omega (arith, r_short, front));
      second = read_all 0x02 s (omega (arith, s_short, back));
      r_value =
          value-bytes_padded (from_first_nonzero (take 32 raw))
          ∙ value-from_first_nonzero (take 32 raw);
      s_value =
          value-bytes_padded (from_first_nonzero (drop 32 raw))
          ∙ value-from_first_nonzero (drop 32 raw);
      r_integer = integer_of-IsInteger (take 32 raw) (omega (arith, front));
      s_integer = integer_of-IsInteger (drop 32 raw) (omega (arith, back));
    }
