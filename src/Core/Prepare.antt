-- ===== src/Core/Prepare.antt =====
-- crates/hoike-core/src/install.rs: the checks of `install_bundle`, all of them before its first write.
use hoike.Base.{ℕ, List, [], ◌∷◌, ◌++◌, Option, ok, ok_or, guard, ◌>>=◌, ◌>>◌}
use hoike.Ahu.Wire.{Codec}
use hoike.Ahu.Cbor.{Cbor}
use hoike.Ahu.Bundle.{Bundle, from_bytes}
use hoike.Core.Error.{CoreResult, config, from_ahu}
use hoike.Core.Storage.{FilePath, beq_path}
use hoike.Core.Config.{Config, bundle_destination}
use hoike.Core.Admission.{Authority, authenticate_bundle, validate_serving_profile}
use hoike.Core.State.{StateStore, Deps, check_rollback, check_continuity}
use hoike.Core.State.Open.{open_store}

-- "state.json"
abbrev pub state_file : FilePath → FilePath
state_file state_db =
    state_db ++ (b's' ∷ b't' ∷ b'a' ∷ b't' ∷ b'e' ∷ b'.' ∷ b'j' ∷ b's' ∷ b'o' ∷ b'n' ∷ []) ∷ []

module _ (deps : Deps) (auth : Authority) (c : Codec) (cbor : Cbor)
    (canonicalize : FilePath → Option FilePath) where
  -- Everything before the first write.
  unfoldable pub prepare :
      Config
      → List ℕ
      → List ℕ
      → FilePath
      → ℕ
      → (FilePath → Option (List ℕ))
      → CoreResult (FilePath × Bundle × StateStore)
  prepare conf label bytes guard_dir now files = do
    state_dir ← ok_or (canonicalize conf.storage.state_db) config
    guard (beq_path guard_dir state_dir) config
    destination ← bundle_destination canonicalize conf label
    b ← from_ahu (from_bytes c cbor bytes)
    authenticate_bundle auth c cbor files b conf.storage now
    validate_serving_profile b
    store ← open_store deps c cbor files (state_file conf.storage.state_db)
    check_rollback deps store b
    check_continuity deps store b
    ok (destination, b, store)
