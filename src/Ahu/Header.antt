-- ===== src/Ahu/Header.antt =====
-- crates/ahu/src/header.rs: the fixed 64-byte file header.
pub mod RoundTrip
pub mod Bounds
use hoike.Base.{
  ℕ, ◌+◌, ◌^◌, String, List, [], ◌∷◌, ◌++◌, ok, err, ltb, ◌==◌, ◌||◌, if◌then◌else◌, beq_bytes, leb,
}
use hoike.Base
use hoike.Ahu.Error.{AhuResult, bad_magic, unsupported_version, header_out_of_bounds}
use hoike.Ahu.Wire
use hoike.Ahu.Wire.{Reader, ◌>>=◌, ◌>>◌, pure, raise, read_exact, read_uint}

-- "AHU1"
abbrev pub magic : List ℕ
magic = 0x41 ∷ 0x48 ∷ 0x55 ∷ 0x31 ∷ []

abbrev pub header_size : ℕ
header_size = 64

abbrev pub format_major : ℕ
format_major = 0

abbrev pub format_minor : ℕ
format_minor = 1

pub record FileHeader : Type 0 where
  pub format_major : ℕ
  pub format_minor : ℕ
  pub manifest_offset : ℕ
  pub manifest_length : ℕ
  pub seal_offset : ℕ
  pub seal_length : ℕ
  pub index_offset : ℕ
  pub index_length : ℕ
  pub data_offset : ℕ
  pub data_length : ℕ

read_magic : Reader (Unit {0})
read_magic = do
  found ← read_exact 4
  if beq_bytes found magic then pure tt else raise (bad_magic found)

-- An unsupported major version is reported with the minor version that follows it.
read_major : Wire.Codec → Reader ℕ
read_major c = do
  major ← read_uint c 2
  if major == format_major
      then pure major
      else do minor ← read_uint c 2; raise (unsupported_version major minor)

pub read_from : Wire.Codec → Reader FileHeader
unfolding read_magic read_major
read_from c = do
  read_magic
  major ← read_major c
  minor ← read_uint c 2
  manifest_offset ← read_uint c 8
  manifest_length ← read_uint c 4
  seal_offset ← read_uint c 8
  seal_length ← read_uint c 4
  index_offset ← read_uint c 8
  index_length ← read_uint c 8
  data_offset ← read_uint c 8
  data_length ← read_uint c 8
  pure (record {
    format_major = major;
    format_minor = minor;
    manifest_offset = manifest_offset;
    manifest_length = manifest_length;
    seal_offset = seal_offset;
    seal_length = seal_length;
    index_offset = index_offset;
    index_length = index_length;
    data_offset = data_offset;
    data_length = data_length;
  })

-- The bytes that are appended to the writer.
pub write_to : Wire.Codec → FileHeader → List ℕ
write_to c h =
    magic
    ++ (put 2 h.format_major
        ++ (put 2 h.format_minor
            ++ (put 8 h.manifest_offset
                ++ (put 4 h.manifest_length
                    ++ (put 8 h.seal_offset
                        ++ (put 4 h.seal_length
                            ++ (put 8 h.index_offset
                                ++ (put 8 h.index_length
                                    ++ (put 8 h.data_offset ++ put 8 h.data_length)))))))))
  where
    open c use {put}

-- `offset.checked_add(length).is_none_or(|end| end > file_size)` in 64 bits
check : ℕ → String → ℕ → ℕ → AhuResult (Unit {0})
check file_size field offset len =
    if leb (2 ^ 64) (offset + len) || ltb file_size (offset + len)
    then err (header_out_of_bounds field offset len file_size)
    else ok tt

pub validate_bounds : FileHeader → ℕ → AhuResult (Unit {0})
unfolding check
validate_bounds h file_size =
    Base.◌>>◌ (check file_size "manifest" h.manifest_offset h.manifest_length) (
      Base.◌>>◌ (check file_size "seal" h.seal_offset h.seal_length) (
        Base.◌>>◌ (check file_size "index" h.index_offset h.index_length)
          (check file_size "data" h.data_offset h.data_length)))
