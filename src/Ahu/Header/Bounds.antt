-- ===== src/Ahu/Header/Bounds.antt =====
-- The section bounds that crates/ahu/src/header.rs checks.
use hoike.Base.{ℕ, ◌+◌, ◌^◌, ◌≤◌, ◌<◌, ◌≡◌, ◌↔◌, arith, ok, length, length-append}
use hoike.Ahu.Wire.{Codec}
use hoike.Ahu.Header.{FileHeader, header_size, validate_bounds, write_to}

-- A section that ends within the file, at an offset that a u64 can hold.
abbrev pub Fits : ℕ → ℕ → ℕ → Type 0
Fits file_size offset len = (offset + len < 2 ^ 64) × (offset + len ≤ file_size)

-- The four sections of a header lie in the file.
pub record IsInside (file_size : ℕ) (h : FileHeader) : Type 0 where
  pub manifest : Fits file_size h.manifest_offset h.manifest_length
  pub seal : Fits file_size h.seal_offset h.seal_length
  pub index : Fits file_size h.index_offset h.index_length
  pub content : Fits file_size h.data_offset h.data_length

-- `validate_bounds` succeeds exactly when the manifest, seal, index and data sections all end
-- inside the file and none of their ends overflows 64 bits.
pub validate_bounds_iff :
    (h : FileHeader) (file_size : ℕ) → (validate_bounds h file_size ≡ ok tt) ↔ IsInside file_size h
unfolding validate_bounds
validate_bounds_iff h file_size = (λ e. ground arith, λ i. ground arith)

-- Every header takes 64 bytes, whatever its values.
pub length-write_to : (c : Codec) (h : FileHeader) → length (write_to c h) ≡ header_size
unfolding write_to
length-write_to c h = simp (length-append, c.length-put)
