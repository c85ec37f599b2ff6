-- ===== src/Core/State/Open.antt =====
-- `StateStore::open` and `validate_persisted` of crates/hoike-core/src/state.rs.
pub mod Consistent
use hoike.Base.{
  ℕ, List, [], ◌∷◌, Bool, false, not, Option, none, some, ok, err, ok_or, guard, ◌>>=◌, ◌>>◌,
  Result, leb, ◌==◌, if◌then◌else◌, beq_bytes, length,
}
use hoike.Base.Assoc.{Assoc, lookup}
use hoike.Ahu.Wire.{Codec}
use hoike.Ahu.Cbor.{Cbor}
use hoike.Ahu.Manifest.{CaScope}
use hoike.Ahu.Bundle.{from_bytes}
use hoike.Ahu.Verify.{is_none}
use hoike.Core.Error.{CoreResult, state_store}
use hoike.Core.Storage.{FilePath}
use hoike.Core.State.{StateStore, PersistedState, Deps, make_key}

-- What stands before the last dot.
abbrev before_last_dot : List ℕ → Option (List ℕ)
before_last_dot [] = none
before_last_dot (b ∷ bs) = elim (before_last_dot bs) [
  | some stem ↦ some (b ∷ stem)
  | none ↦ if b == b'.' then some [] else none
]

-- `Path::file_stem`: `..` has none, and a leading dot starts no extension.
abbrev pub file_stem : FilePath → Option (List ℕ)
file_stem [] = none
file_stem (name ∷ []) =
    if beq_bytes name (b'.' ∷ b'.' ∷ []) then none else elim (before_last_dot name) [
      | none ↦ some name
      | some [] ↦ some name
      | some (b ∷ stem) ↦ some (b ∷ stem)
    ]
file_stem (dir ∷ next ∷ rest) = file_stem (next ∷ rest)

-- `map_err(|e| CoreError::StateStore(..))`
abbrev state_error {ℓ} : {A : Type ℓ} → Option A → CoreResult A
state_error o = ok_or o state_store

abbrev to_option {ℓ} : {E : Type 0} {A : Type ℓ} → Result E A → Option A
to_option (ok a) = some a
to_option (err e) = none

-- A mark that is at least the epoch.
abbrev pub is_marked : Option ℕ → ℕ → Bool
is_marked none epoch = false
is_marked (some hw) epoch = leb epoch hw

module _ (deps : Deps) where
  open deps use {sha256, hex_encode, hex_decode, from_json}

  unfoldable pub check_digests : Assoc ℕ → Assoc (List ℕ) → CoreResult (Unit {0})
  check_digests marks [] = ok tt
  check_digests marks ((key, digest_hex) ∷ rest) = do
    decoded ← state_error (hex_decode digest_hex)
    guard (length decoded == 32) state_store
    guard (not (is_none (lookup key marks))) state_store
    check_digests marks rest

  unfoldable pub check_marks : Assoc (List ℕ) → Assoc ℕ → CoreResult (Unit {0})
  check_marks digests [] = ok tt
  check_marks digests ((key, mark) ∷ rest) = do
    guard (not (is_none (lookup key digests))) state_store
    check_marks digests rest

  unfoldable pub check_scopes : Assoc ℕ → List ℕ → List CaScope → CoreResult (Unit {0})
  check_scopes marks producer_id [] = ok tt
  check_scopes marks producer_id (scope ∷ rest) = do
    let key = make_key producer_id (hex_encode scope.issuer_key_hash)
    guard (is_marked (lookup key marks) scope.epoch) state_store
    check_scopes marks producer_id rest

  module _ (c : Codec) (cbor : Cbor) (files : FilePath → Option (List ℕ)) where
    -- One committed snapshot: its file is there, has the digest that names it, parses, and no scope
    -- of it is above its mark.
    unfoldable pub check_snapshot : Assoc ℕ → FilePath → CoreResult (Unit {0})
    check_snapshot marks path = do
      bytes ← state_error (files path)
      digest_hex ← state_error (file_stem path)
      expected ← state_error (hex_decode digest_hex)
      guard (beq_bytes (sha256 bytes) expected) state_store
      b ← state_error (to_option (from_bytes c cbor bytes))
      check_scopes marks b.manifest.producer_id b.manifest.ca_scopes

    unfoldable pub check_snapshots : Assoc ℕ → Assoc FilePath → CoreResult (Unit {0})
    check_snapshots marks [] = ok tt
    check_snapshots marks ((label, path) ∷ rest) = do
      check_snapshot marks path
      check_snapshots marks rest

    unfoldable pub validate_persisted : PersistedState → CoreResult (Unit {0})
    validate_persisted s = do
      check_digests s.high_water_marks s.manifest_digests
      check_marks s.manifest_digests s.high_water_marks
      check_snapshots s.high_water_marks s.active_bundles

    unfoldable pub open_store : FilePath → CoreResult StateStore
    open_store path = do
      contents ← state_error (files path)
      state ← state_error (from_json contents)
      validate_persisted state
      ok (record { path = path; state = state; staged = false })
