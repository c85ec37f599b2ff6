-- ===== src/Core/State/Open/Consistent.antt =====
-- The conditions that `validate_persisted` of crates/hoike-core/src/state.rs checks on snapshots.
use hoike.Base.{
  ℕ, ◌≡◌, ◌≤◌, List, [], ◌∷◌, some, ok, arith, All, Option-cases, Result-cases, inl, inr, true,
  beq_bytes, beq_bytes-true, Option,
}
use hoike.Base.Assoc.{Assoc, lookup}
use hoike.Ahu.Wire.{Codec}
use hoike.Ahu.Cbor.{Cbor}
use hoike.Ahu.Manifest.{CaScope}
use hoike.Ahu.Bundle.{Bundle, from_bytes}
use hoike.Core.Storage.{FilePath}
use hoike.Core.State.{StateStore, Deps, make_key}
use hoike.Core.State.Open.{
  file_stem, check_scopes, check_snapshot, check_snapshots, validate_persisted, open_store,
}

module _ (deps : Deps) where
  open deps use {sha256, hex_encode, hex_decode}

  -- Every scope has a mark that is at least its epoch.
  abbrev pub AreMarked : Assoc ℕ → List ℕ → List CaScope → Type 0
  AreMarked marks producer scopes =
      All
        (λ (scope : CaScope).
          (hw : ℕ) × (lookup (make_key producer (hex_encode scope.issuer_key_hash)) marks ≡ some hw)
          × (scope.epoch ≤ hw))
        scopes

  check_scopes-AreMarked :
      (marks : Assoc ℕ) (producer : List ℕ) (scopes : List CaScope)
      → check_scopes deps marks producer scopes ≡ ok tt
      → AreMarked marks producer scopes
  unfolding check_scopes
  check_scopes-AreMarked marks producer [] h = tt
  check_scopes-AreMarked marks producer (scope ∷ rest) h = (
    elim (Option-cases (lookup (make_key producer (hex_encode scope.issuer_key_hash)) marks)) [
      | inl e ↦ absurd (ground arith)
      | inr (hw, e) ↦ (hw, e, ground arith)
    ],
    check_scopes-AreMarked marks producer rest (ground arith),
  )

  module _ (c : Codec) (cbor : Cbor) (files : FilePath → Option (List ℕ)) where
    -- A snapshot whose bytes have the digest in its name, and parse to a bundle that the marks cover.
    pub record IsRecovered (marks : Assoc ℕ) (path : FilePath) : Type 0 where
      pub bytes : List ℕ
      pub digest_hex : List ℕ
      pub bundle : Bundle
      pub present : files path ≡ some bytes
      pub named : file_stem path ≡ some digest_hex
      pub digest : hex_decode digest_hex ≡ some (sha256 bytes)
      pub parsed : from_bytes c cbor bytes ≡ ok bundle
      pub marked : AreMarked marks bundle.manifest.producer_id bundle.manifest.ca_scopes

    check_snapshot-IsRecovered :
        (marks : Assoc ℕ) (path : FilePath)
        → check_snapshot deps c cbor files marks path ≡ ok tt
        → IsRecovered marks path
    unfolding check_snapshot
    check_snapshot-IsRecovered marks path h = elim (Option-cases (files path)) [
      | inl e ↦ absurd (ground arith)
      | inr (bytes, e) ↦ elim (Option-cases (file_stem path)) [
        | inl f ↦ absurd (ground arith)
        | inr (digest_hex, f) ↦ elim (Option-cases (hex_decode digest_hex)) [
          | inl g ↦ absurd (ground arith)
          | inr (expected, g) ↦ elim (Result-cases (from_bytes c cbor bytes)) [
            | inr (x, k) ↦ absurd (ground arith)
            | inl (b, k) ↦
                let same : beq_bytes (sha256 bytes) expected ≡ true = ground arith in
                record {
                  bytes = bytes;
                  digest_hex = digest_hex;
                  bundle = b;
                  present = e;
                  named = f;
                  digest = rw (beq_bytes-true (sha256 bytes) expected same) g;
                  parsed = k;
                  marked =
                      check_scopes-AreMarked marks b.manifest.producer_id b.manifest.ca_scopes
                        (ground arith);
                }
          ]
        ]
      ]
    ]

    check_snapshots-All :
        (marks : Assoc ℕ) (active : Assoc FilePath)
        → check_snapshots deps c cbor files marks active ≡ ok tt
        → All (λ (entry : List ℕ × FilePath). IsRecovered marks entry.1) active
    unfolding check_snapshots
    check_snapshots-All marks [] h = tt
    check_snapshots-All marks ((label, path) ∷ rest) h = (
      check_snapshot-IsRecovered marks path (ground arith),
      check_snapshots-All marks rest (ground arith),
    )

    -- When a state file is opened, every snapshot that it names is on the disk, has the SHA-256 that its
    -- name says, parses as a bundle, and has no scope above its recorded high-water mark.
    pub open_store-All :
        (path : FilePath) (s : StateStore)
        → open_store deps c cbor files path ≡ ok s
        → All
            (λ (entry : List ℕ × FilePath). IsRecovered s.state.high_water_marks entry.1)
            s.state.active_bundles
    unfolding open_store validate_persisted
    open_store-All path s h =
        check_snapshots-All s.state.high_water_marks s.state.active_bundles (ground arith)
