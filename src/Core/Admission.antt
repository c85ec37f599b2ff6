-- ===== src/Core/Admission.antt =====
-- crates/hoike-core/src/admission.rs: what a bundle must satisfy before it is served or installed.
pub mod Policy
use hoike.Base.{
  ℕ, ◌+◌, ◌≤◌, String, List, [], ◌∷◌, Bool, true, false, not, ◌&&◌, ◌||◌, Option, none, some, ok,
  err, ok_or, guard, ◌>>=◌, ◌>>◌, ◌==◌, leb, if◌then◌else◌, beq_bytes, take,
}
use hoike.Ahu.Error.{AhuResult}
use hoike.Ahu.Wire.{Codec}
use hoike.Ahu.Cbor.{Cbor}
use hoike.Ahu.Index.{IndexRecord, is_tombstone}
use hoike.Ahu.Manifest.{CaScope, Compression, CompressionAlgorithm, uncompressed, zstd}
use hoike.Ahu.Bundle.{Bundle}
use hoike.Ahu.Verify
use hoike.Ahu.Verify.{is_delta, is_none}
use hoike.Core.Error.{CoreError, CoreResult, config, from_ahu}
use hoike.Core.Storage.{FilePath}
use hoike.Core.Config.{StorageConfig, SealAuthorization, is_empty}

pub data AdmissionTrust : Type 0 where
  authenticated : List ℕ → AdmissionTrust
  unauthenticated_demo : AdmissionTrust

-- What admission calls: the seal verification of crates/ahu/src/seal.rs, which answers with the
-- SHA-256 of the signer's certificate, and the x509-cert, sha2 and hex crates.
pub record Authority : Type 0 where
  pub verify_seal_with_pins : List ℕ → List ℕ → List (List ℕ) → ℕ → AhuResult (List ℕ)
  pub verify_seal_with_anchors : List ℕ → List ℕ → List (List ℕ) → ℕ → AhuResult (List ℕ)
  pub from_pem : List ℕ → Option (List ℕ)
  pub from_der : List ℕ → Option (List ℕ)
  pub sha256 : List ℕ → List ℕ
  pub hex_encode : List ℕ → List ℕ

-- "-----BEGIN"
abbrev pem_prefix : List ℕ
pem_prefix = b'-' ∷ b'-' ∷ b'-' ∷ b'-' ∷ b'-' ∷ b'B' ∷ b'E' ∷ b'G' ∷ b'I' ∷ b'N' ∷ []

abbrev lower : ℕ → ℕ
lower b = if leb 65 b && leb b 90 then b + 32 else b

-- `eq_ignore_ascii_case`
abbrev pub eq_ignore_case : List ℕ → List ℕ → Bool
eq_ignore_case [] [] = true
eq_ignore_case (a ∷ xs) (b ∷ ys) = lower a == lower b && eq_ignore_case xs ys
eq_ignore_case _ _ = false

abbrev pub any_tombstone : List IndexRecord → Bool
any_tombstone [] = false
any_tombstone (r ∷ rs) = is_tombstone r || any_tombstone rs

abbrev is_uncompressed : CompressionAlgorithm → Bool
is_uncompressed uncompressed = true
is_uncompressed zstd = false

abbrev check_compression : Option Compression → CoreResult (Unit {0})
check_compression none = ok tt
check_compression (some c) = do
  guard (is_uncompressed c.algorithm) config
  guard (is_none c.dictionary_digest) config

unfoldable pub validate_serving_profile : Bundle → CoreResult (Unit {0})
validate_serving_profile b = do
  guard (not (is_delta b.manifest.bundle_type)) config
  check_compression b.manifest.compression
  guard (not (any_tombstone b.index)) config
  guard (is_none b.manifest.continuity.base_manifest_digest) config
  guard (b.manifest.continuity.chain_length == 0) config

-- `seal_trust_anchors.as_deref().unwrap_or(&[])`
abbrev pub anchor_paths : StorageConfig → List FilePath
anchor_paths s = elim s.seal_trust_anchors [ none ↦ [] | some paths ↦ paths ]

abbrev pub is_demo : StorageConfig → Bool
is_demo storage =
    storage.allow_unauthenticated_bundles
    && is_empty storage.seal_signer_pins
    && is_empty (anchor_paths storage)
    && is_empty storage.seal_authorizations

module _ (auth : Authority) where
  open auth use {verify_seal_with_pins, verify_seal_with_anchors, from_pem, from_der, hex_encode}

  unfoldable pub read_certs :
      (FilePath → Option (List ℕ)) → List FilePath → CoreResult (List (List ℕ))
  read_certs files [] = ok []
  read_certs files (path ∷ paths) = do
    bytes ← ok_or (files path) config
    cert ←
        ok_or (if beq_bytes (take 10 bytes) pem_prefix then from_pem bytes else from_der bytes)
          config
    certs ← read_certs files paths
    ok (cert ∷ certs)

  -- The authorization of one scope for one signer.
  abbrev pub authorizes : List ℕ → List ℕ → List ℕ → SealAuthorization → Bool
  authorizes producer ikh signer a =
      beq_bytes a.producer_id producer
      && eq_ignore_case a.issuer_key_hash (hex_encode ikh)
      && eq_ignore_case a.signer_sha256 signer

  abbrev pub any_authorizes : List ℕ → List ℕ → List ℕ → List SealAuthorization → Bool
  any_authorizes producer ikh signer [] = false
  any_authorizes producer ikh signer (a ∷ xs) =
      authorizes producer ikh signer a || any_authorizes producer ikh signer xs

  abbrev pub all_authorized : List SealAuthorization → List ℕ → List ℕ → List CaScope → Bool
  all_authorized xs producer signer [] = true
  all_authorized xs producer signer (scope ∷ scopes) =
      any_authorizes producer scope.issuer_key_hash signer xs
      && all_authorized xs producer signer scopes

  -- Pins are tried first; where they fail the anchors decide, if there are any.
  unfoldable pub verify_seal :
      Bundle → Bool → Bool → List (List ℕ) → List (List ℕ) → ℕ → AhuResult (List ℕ)
  verify_seal b has_pins has_anchors pins anchors now =
      if has_pins
      then elim (verify_seal_with_pins b.manifest_bytes b.seal_bytes pins now) [
        | ok signer ↦ ok signer
        | err pin_error ↦
            if has_anchors
            then verify_seal_with_anchors b.manifest_bytes b.seal_bytes anchors now
            else err pin_error
      ]
      else verify_seal_with_anchors b.manifest_bytes b.seal_bytes anchors now

module _ (auth : Authority) (c : Codec) (cbor : Cbor) (files : FilePath → Option (List ℕ)) where
  unfoldable pub verify_structure : Bundle → CoreResult (Unit {0})
  verify_structure b = do from_ahu (Verify.verify_structure auth.sha256 c cbor b); ok tt

  -- `map_err(|e| CoreError::Config(..))`
  abbrev seal_error : AhuResult (List ℕ) → CoreResult (List ℕ)
  seal_error (ok signer) = ok signer
  seal_error (err e) = err config

  unfoldable pub authenticate_bundle : Bundle → StorageConfig → ℕ → CoreResult (List ℕ)
  unfolding verify_structure verify_seal read_certs
  authenticate_bundle b storage now = do
    verify_structure b
    let has_anchors = not (is_empty (anchor_paths storage))
    let has_pins = not (is_empty storage.seal_signer_pins)
    guard (has_anchors || has_pins) config
    guard (not (is_empty b.seal_bytes)) config
    anchors ← read_certs auth files (anchor_paths storage)
    pins ← read_certs auth files storage.seal_signer_pins
    signer ← seal_error (verify_seal auth b has_pins has_anchors pins anchors now)
    guard
        (is_empty storage.seal_authorizations
          || all_authorized auth storage.seal_authorizations b.manifest.producer_id signer
              b.manifest.ca_scopes)
        config
    ok signer

  unfoldable pub admit_bundle : Bundle → StorageConfig → ℕ → CoreResult AdmissionTrust
  unfolding authenticate_bundle
  admit_bundle b storage now = do
    validate_serving_profile b
    if is_demo storage
        then (do verify_structure b; ok unauthenticated_demo)
        else (do signer ← authenticate_bundle b storage now; ok (authenticated signer))
