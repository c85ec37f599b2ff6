-- ===== src/Ahu/Wire.antt =====
-- Reading and writing the binary sections: `std::io::Read` over a byte slice, with the byteorder
-- crate's big-endian integers and the bitflags crate's conversions as parameters.
use hoike.Base.{
  ℕ, ◌^◌, ◌<◌, ◌≡◌, Bool, List, ◌++◌, arith, ok, err, ltb, length, take, drop, take-append,
  drop-append, length-append, if◌then◌else◌, ge→ltb,
}
use hoike.Ahu.Error.{AhuError, AhuResult, io}

-- The flag constants of crates/ahu/src/index.rs, one field each.
pub record IndexFlags : Type 0 where
  pub multi : Bool
  pub is_alias : Bool
  pub tombstone : Bool

-- Third-party codecs: an integer of `w` bytes (byteorder), and the u16 of a flag set (bitflags).
pub record Codec : Type 0 where
  pub put : ℕ → ℕ → List ℕ
  pub get : List ℕ → ℕ
  pub flag_bits : IndexFlags → ℕ
  pub from_bits_truncate : ℕ → IndexFlags
  pub length-put : (w v : ℕ) → length (put w v) ≡ w
  pub get-put : (w v : ℕ) → v < 256 ^ w → get (put w v) ≡ v
  pub flag_bits-lt : (f : IndexFlags) → flag_bits f < 256 ^ 2
  pub from_bits-flag_bits : (f : IndexFlags) → from_bits_truncate (flag_bits f) ≡ f

-- A read moves the cursor: what is left of the slice comes back beside the value.
abbrev pub Reader {ℓ} : Type ℓ → Type ℓ
Reader A = List ℕ → AhuResult (A × List ℕ)

infixl 5 ◌>>=◌ ◌>>◌
abbrev pub ◌>>=◌ {ℓ κ} : {A : Type ℓ} {B : Type κ} → Reader A → (A → Reader B) → Reader B
◌>>=◌ m f bytes = elim (m bytes) [ ok (a, rest) ↦ f a rest | err e ↦ err e ]

abbrev pub ◌>>◌ {ℓ κ} : {A : Type ℓ} {B : Type κ} → Reader A → Reader B → Reader B
m >> k = m >>= λ _. k

abbrev pub pure {ℓ} : {A : Type ℓ} → A → Reader A
pure a bytes = ok (a, bytes)

abbrev pub raise {ℓ} : {A : Type ℓ} → AhuError → Reader A
raise e bytes = err e

-- `Read::read_exact`
pub read_exact : ℕ → Reader (List ℕ)
read_exact n bytes = if ltb (length bytes) n then err io else ok (take n bytes, drop n bytes)

-- `read_u16/u32/u64::<BigEndian>`, by width in bytes.
pub read_uint : Codec → ℕ → Reader ℕ
read_uint c w = do bytes ← read_exact w; pure (c.get bytes)

pub read_exact-append :
    (n : ℕ) (bytes rest : List ℕ)
    → length bytes ≡ n
    → read_exact n (bytes ++ rest) ≡ ok (bytes, rest)
unfolding read_exact
read_exact-append n bytes rest h = rw (← h) (
    rw (
      ge→ltb (length (bytes ++ rest)) (length bytes) (omega (arith, length-append bytes rest)),
      take-append bytes rest,
      drop-append bytes rest,
    ))

pub read_uint-put :
    (c : Codec) (w v : ℕ) (rest : List ℕ)
    → v < 256 ^ w
    → read_uint c w (c.put w v ++ rest) ≡ ok (v, rest)
unfolding read_uint
read_uint-put c w v rest h =
    rw (read_exact-append w (c.put w v) rest (c.length-put w v), ◌>>=◌) (rw (c.get-put w v h))
