-- ===== src/Ahu/Error.antt =====
-- crates/ahu/src/error.rs. Message texts are not modelled: a variant that carries only a text has
-- no argument, and one that renders a digest or a key in hex carries its bytes.
use hoike.Base.{ℕ, String, List, Result}

pub data AhuError : Type 0 where
  bad_magic : List ℕ → AhuError
  unsupported_version : ℕ → ℕ → AhuError
  header_out_of_bounds : String → ℕ → ℕ → ℕ → AhuError
  manifest_decode : AhuError
  manifest_field : AhuError
  seal_invalid : AhuError
  index_digest_mismatch : List ℕ → List ℕ → AhuError
  data_digest_mismatch : List ℕ → List ℕ → AhuError
  index_not_sorted : ℕ → List ℕ → List ℕ → AhuError
  duplicate_entry_key : ℕ → List ℕ → AhuError
  index_size_mismatch : ℕ → ℕ → AhuError
  epoch_rollback : List ℕ → ℕ → ℕ → AhuError
  continuity_break : AhuError
  delta_missing_base : AhuError
  fork_detected : AhuError
  entry_out_of_bounds : ℕ → ℕ → AhuError
  reserved_not_zero : ℕ → AhuError
  io : AhuError
  write_failed : AhuError
  invalid_operation : AhuError

abbrev pub AhuResult {ℓ} : Type ℓ → Type ℓ
AhuResult A = Result AhuError A
