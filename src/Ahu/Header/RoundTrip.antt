-- ===== src/Ahu/Header/RoundTrip.antt =====
-- `FileHeader::write_to` and `FileHeader::read_from` of crates/ahu/src/header.rs together.
use mathlib.Core.List.{append_assoc}
use hoike.Base.{ℕ, ◌^◌, ◌<◌, ◌≡◌, refl, List, ◌++◌, arith, ok, cmp_bytes}
use hoike.Ahu.Wire.{Codec, read_uint-put, read_exact-append}
use hoike.Ahu.Header.{FileHeader, format_major, read_from, write_to, magic}

-- The widths of the header's fields, and the version that this crate reads.
pub record IsEncodable (h : FileHeader) : Type 0 where
  pub major : h.format_major ≡ format_major
  pub minor : h.format_minor < 2 ^ 16
  pub manifest_offset : h.manifest_offset < 2 ^ 64
  pub manifest_length : h.manifest_length < 2 ^ 32
  pub seal_offset : h.seal_offset < 2 ^ 64
  pub seal_length : h.seal_length < 2 ^ 32
  pub index_offset : h.index_offset < 2 ^ 64
  pub index_length : h.index_length < 2 ^ 64
  pub data_offset : h.data_offset < 2 ^ 64
  pub data_length : h.data_length < 2 ^ 64

module _ (c : Codec) (h : FileHeader) (rest : List ℕ) where
  open c use {put}

  abbrev after_lengths : List ℕ
  after_lengths =
      put 8 h.index_offset
      ++ (put 8 h.index_length ++ (put 8 h.data_offset ++ (put 8 h.data_length ++ rest)))

  abbrev after_version : List ℕ
  after_version =
      put 8 h.manifest_offset
      ++ (put 4 h.manifest_length
          ++ (put 8 h.seal_offset ++ (put 4 h.seal_length ++ after_lengths)))

  write_to-append :
      write_to c h ++ rest
      ≡ magic ++ (put 2 h.format_major ++ (put 2 h.format_minor ++ after_version))
  unfolding write_to
  write_to-append = simp append_assoc

  -- A header of the major version that this crate reads, whose fields have the widths of the format, is
  -- read back from what `write_to` appends, and nothing after it is touched.
  pub read_from-write_to : IsEncodable h → read_from c (write_to c h ++ rest) ≡ ok (h, rest)
  unfolding read_from cmp_bytes
  read_from-write_to e = rw write_to-append (
      ground (
        arith,
        read_exact-append 4 magic (put 2 h.format_major ++ (put 2 h.format_minor ++ after_version))
            refl,
        read_uint-put c 2 h.format_major (put 2 h.format_minor ++ after_version),
        read_uint-put c 2 h.format_minor after_version,
        read_uint-put c 8 h.manifest_offset (
            put 4 h.manifest_length
            ++ (put 8 h.seal_offset ++ (put 4 h.seal_length ++ after_lengths))),
        read_uint-put c 4 h.manifest_length
            (put 8 h.seal_offset ++ (put 4 h.seal_length ++ after_lengths)),
        read_uint-put c 8 h.seal_offset (put 4 h.seal_length ++ after_lengths),
        read_uint-put c 4 h.seal_length after_lengths,
        read_uint-put c 8 h.index_offset
            (put 8 h.index_length ++ (put 8 h.data_offset ++ (put 8 h.data_length ++ rest))),
        read_uint-put c 8 h.index_length (put 8 h.data_offset ++ (put 8 h.data_length ++ rest)),
        read_uint-put c 8 h.data_offset (put 8 h.data_length ++ rest),
        read_uint-put c 8 h.data_length rest,
      ))
