-- ===== src/Core/Install.antt =====
-- crates/hoike-core/src/install.rs: the staged changes, their commit and the publication. The writer
-- lock is the directory that it protects, and `now` is the clock's answer.
pub mod Commit
pub mod Kept
pub mod History
use hoike.Base.{ℕ, List, [], ◌∷◌, ◌++◌, Bool, Option, none, some, ok, err, ok_or, guard}
use hoike.Ahu.Wire.{Codec}
use hoike.Ahu.Cbor.{Cbor}
use hoike.Ahu.Bundle.{Bundle, from_bytes}
use hoike.Core.Error.{CoreError, CoreResult, config, from_ahu}
use hoike.Core.Storage.{FilePath, Disk, Exec, ◌>>=◌, ◌>>◌, pure, lift, write_atomic, beq_path}
use hoike.Core.Config.{Config, bundle_destination}
use hoike.Core.Admission.{Authority, authenticate_bundle, validate_serving_profile}
use hoike.Core.State.{
  StateStore, Deps, transaction, advance_from_bundle, check_rollback, check_continuity,
}
use hoike.Core.State.Open.{open_store}
use hoike.Core.Prepare.{prepare}
use hoike.Core.State.Persist.{snapshot, commit}

pub record InstallResult : Type 0 where
  pub destination : FilePath
  pub publication_warning : Option CoreError

-- An error of the publication becomes a warning.
abbrev pub warning_of {ℓ} : {A : Type ℓ} → CoreResult A → Option CoreError
warning_of (ok a) = none
warning_of (err e) = some e

abbrev pub attempt {ℓ} : {A : Type ℓ} → Exec A → Exec (Option CoreError)
attempt m d = let (r, d') = m d in (ok (warning_of r), d')

module _ (deps : Deps) (c : Codec) where
  -- The staged changes and their commit.
  unfoldable pub install_store : StateStore → List ℕ → Bundle → Exec StateStore
  install_store store label b = do
    advanced ← advance_from_bundle deps (transaction store) b
    candidate ← snapshot deps c advanced label b
    commit deps store candidate

  -- Once the state is committed, a failed publication is only a warning.
  pub announce : FilePath → List ℕ → StateStore → Exec InstallResult
  announce destination bytes store = do
    warning ← attempt (write_atomic destination bytes)
    pure (record { destination = destination; publication_warning = warning })

  unfoldable pub install_checked :
      List ℕ → List ℕ → FilePath × Bundle × StateStore → Exec InstallResult
  unfolding install_store announce
  install_checked label bytes (destination, b, store) =
      install_store store label b >>= announce destination bytes

module _ (deps : Deps) (auth : Authority) (c : Codec) (cbor : Cbor)
    (canonicalize : FilePath → Option FilePath) where
  unfoldable pub install_bundle : Config → List ℕ → List ℕ → FilePath → ℕ → Exec InstallResult
  unfolding prepare install_checked
  install_bundle conf label bytes guard_dir now d =
      (lift (prepare deps auth c cbor canonicalize conf label bytes guard_dir now d.files)
          >>= install_checked deps c label bytes)
        d
