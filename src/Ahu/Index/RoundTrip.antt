-- ===== src/Ahu/Index/RoundTrip.antt =====
-- Index records of crates/ahu/src/index.rs, written and read.
use mathlib.Core.List.{append_assoc}
use hoike.Base.{ℕ, ◌*◌, ◌^◌, ◌<◌, ◌≡◌, List, [], ◌∷◌, ◌++◌, arith, ok, length, length-append, All}
use hoike.Ahu.Wire.{Codec, read_uint-put, read_exact-append}
use hoike.Ahu.Index.{IndexRecord, index_record_size, read_from, write_to, write_all}

-- The widths of a record's fields.
pub record IsEncodable (r : IndexRecord) : Type 0 where
  pub entry_key : length r.entry_key ≡ 32
  pub data_offset : r.data_offset < 2 ^ 64
  pub data_length : r.data_length < 2 ^ 32
  pub discriminator : r.discriminator < 2 ^ 16

module _ (c : Codec) (r : IndexRecord) (rest : List ℕ) where
  open c use {put}

  write_to-append :
      write_to c r ++ rest
      ≡ r.entry_key
        ++ (put 8 r.data_offset
            ++ (put 4 r.data_length
                ++ (put 2 (c.flag_bits r.flags) ++ (put 2 r.discriminator ++ rest))))
  unfolding write_to
  write_to-append = simp append_assoc

  -- A record that is written is read back, and what follows it is left.
  pub read_from-write_to : IsEncodable r → read_from c (write_to c r ++ rest) ≡ ok (r, rest)
  unfolding read_from
  read_from-write_to e = rw write_to-append (
      ground (
        arith,
        read_exact-append 32 r.entry_key (
            put 8 r.data_offset
            ++ (put 4 r.data_length
                ++ (put 2 (c.flag_bits r.flags) ++ (put 2 r.discriminator ++ rest)))),
        read_uint-put c 8 r.data_offset (
            put 4 r.data_length
            ++ (put 2 (c.flag_bits r.flags) ++ (put 2 r.discriminator ++ rest))),
        read_uint-put c 4 r.data_length
            (put 2 (c.flag_bits r.flags) ++ (put 2 r.discriminator ++ rest)),
        read_uint-put c 2 (c.flag_bits r.flags) (put 2 r.discriminator ++ rest),
        read_uint-put c 2 r.discriminator rest,
        c.flag_bits-lt r.flags,
        c.from_bits-flag_bits r.flags,
      ))

pub length-write_to :
    (c : Codec) (r : IndexRecord) → IsEncodable r → length (write_to c r) ≡ index_record_size
unfolding write_to
length-write_to c r e = simp (length-append, c.length-put, e.entry_key)

pub length-write_all :
    (c : Codec) (rs : List IndexRecord)
    → All IsEncodable rs
    → length (write_all c rs) ≡ length rs * index_record_size
unfolding write_all
length-write_all c [] e = omega arith
length-write_all c (r ∷ rs) e = omega (
  arith,
  length-append (write_to c r) (write_all c rs),
  length-write_to c r e.0,
  length-write_all c rs e.1,
)
