-- ===== src/Core/Error.antt =====
-- crates/hoike-core/src/error.rs. Message texts are not modelled.
use hoike.Base.{ℕ, List, Result, ok, err}
use hoike.Ahu.Error.{AhuError, AhuResult}

pub data CoreError : Type 0 where
  empty_request : CoreError
  request_too_large : ℕ → ℕ → CoreError
  empty_request_list : CoreError
  der_parse : CoreError
  get_decode : CoreError
  no_matching_scope : CoreError
  bundle : AhuError → CoreError
  config : CoreError
  epoch_rollback : List ℕ → ℕ → ℕ → CoreError
  epoch_jump_too_large : List ℕ → ℕ → ℕ → ℕ → ℕ → CoreError
  fork_detected : List ℕ → CoreError
  state_store : CoreError
  state_lock : CoreError
  durability_uncertain : List (List ℕ) → CoreError
  io : CoreError

abbrev pub CoreResult {ℓ} : Type ℓ → Type ℓ
CoreResult A = Result CoreError A

-- `?` on an error of the ahu crate.
abbrev pub from_ahu {ℓ} : {A : Type ℓ} → AhuResult A → CoreResult A
from_ahu (ok a) = ok a
from_ahu (err e) = err (bundle e)
