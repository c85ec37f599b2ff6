-- ===== src/Core/Admission/Policy.antt =====
-- The policy of crates/hoike-core/src/admission.rs as conditions on a bundle.
use hoike.Base.{
  ℕ, ◌≡◌, ◌≢◌, ◌↔◌, ◌⊎◌, inl, inr, refl, subst, List, [], ◌∷◌, true, false, Option, none, some, ok,
  arith, All, Result-cases, Bool-cases,
}
use hoike.Ahu.Wire.{Codec}
use hoike.Ahu.Cbor.{Cbor}
use hoike.Ahu.Index.{IndexRecord, is_tombstone}
use hoike.Ahu.Manifest.{CaScope, Compression, full, uncompressed}
use hoike.Ahu.Bundle.{Bundle}
use hoike.Ahu.Verify
use hoike.Ahu.Verify.Sound.{IsVerified, verify_structure_sound}
use hoike.Core.Storage.{FilePath}
use hoike.Core.Config.{StorageConfig, SealAuthorization}
use hoike.Core.Admission.{
  AdmissionTrust, authenticated, unauthenticated_demo, Authority, any_tombstone,
  validate_serving_profile, anchor_paths, read_certs, any_authorizes, all_authorized,
  verify_structure, verify_seal, authenticate_bundle, is_demo, admit_bundle,
}

abbrev pub IsPlain : Option Compression → Type 0
IsPlain none = Unit
IsPlain (some c) = (c.algorithm ≡ uncompressed) × (c.dictionary_digest ≡ none)

-- A full, uncompressed bundle without tombstones or delta metadata.
pub record IsServable (b : Bundle) : Type 0 where
  pub full_bundle : b.manifest.bundle_type ≡ full
  pub plain : IsPlain b.manifest.compression
  pub live : All (λ (r : IndexRecord). is_tombstone r ≡ false) b.index
  pub no_base : b.manifest.continuity.base_manifest_digest ≡ none
  pub unchained : b.manifest.continuity.chain_length ≡ 0

any_tombstone_iff :
    (rs : List IndexRecord)
    → (any_tombstone rs ≡ false) ↔ All (λ (r : IndexRecord). is_tombstone r ≡ false) rs
any_tombstone_iff [] = (λ e. tt, λ a. refl)
any_tombstone_iff (r ∷ rs) =
    let (p, q) = any_tombstone_iff rs in
    (λ e. (ground arith, p (ground arith)), λ a. ground (arith, a.0, q a.1))

-- `validate_serving_profile` accepts exactly the full, uncompressed bundles that have no compression
-- dictionary, no tombstone, no base manifest and a chain length of 0.
pub validate_serving_profile_iff :
    (b : Bundle) → (validate_serving_profile b ≡ ok tt) ↔ IsServable b
unfolding validate_serving_profile
validate_serving_profile_iff b = (
  λ e. record {
    full_bundle = ground arith;
    plain = ground arith;
    live = (any_tombstone_iff b.index).0 (ground arith);
    no_base = ground arith;
    unchained = ground arith;
  },
  λ s.
      ground (
        arith,
        s.full_bundle,
        s.plain,
        (any_tombstone_iff b.index).1 s.live,
        s.no_base,
        s.unchained,
      ),
)

module _ (auth : Authority) (c : Codec) (cbor : Cbor) (files : FilePath → Option (List ℕ)) where
  open auth use {verify_seal_with_pins, verify_seal_with_anchors, sha256}

  -- The seal verifies for a signer under the certificates of a pin file or of an anchor file.
  pub record IsSealed (b : Bundle) (storage : StorageConfig) (now : ℕ) (signer : List ℕ)
      : Type 0 where
    pub pins : List (List ℕ)
    pub anchors : List (List ℕ)
    pub pins_read : read_certs auth files storage.seal_signer_pins ≡ ok pins
    pub anchors_read : read_certs auth files (anchor_paths storage) ≡ ok anchors
    pub configured : (storage.seal_signer_pins ≢ []) ⊎ (anchor_paths storage ≢ [])
    pub verified :
        ((storage.seal_signer_pins ≢ [])
          × (verify_seal_with_pins b.manifest_bytes b.seal_bytes pins now ≡ ok signer))
        ⊎ ((anchor_paths storage ≢ [])
            × (verify_seal_with_anchors b.manifest_bytes b.seal_bytes anchors now ≡ ok signer))

  abbrev pub MayServe : StorageConfig → Bundle → List ℕ → Type 0
  MayServe storage b signer =
      storage.seal_authorizations ≢ []
      → All
          (λ (scope : CaScope).
            any_authorizes auth b.manifest.producer_id scope.issuer_key_hash signer
              storage.seal_authorizations
            ≡ true)
          b.manifest.ca_scopes

  all_authorized-All :
      (xs : List SealAuthorization) (producer signer : List ℕ) (scopes : List CaScope)
      → all_authorized auth xs producer signer scopes ≡ true
      → All
          (λ (scope : CaScope). any_authorizes auth producer scope.issuer_key_hash signer xs ≡ true)
          scopes
  all_authorized-All xs producer signer [] h = tt
  all_authorized-All xs producer signer (scope ∷ scopes) h =
      (ground arith, all_authorized-All xs producer signer scopes (ground arith))

  authenticated_seal :
      (b : Bundle) (storage : StorageConfig) (now : ℕ) (signer : List ℕ)
      → authenticate_bundle auth c cbor files b storage now ≡ ok signer
      → IsSealed b storage now signer
  unfolding authenticate_bundle verify_seal
  authenticated_seal b storage now signer h =
      elim (Result-cases (read_certs auth files storage.seal_signer_pins)) [
        | inr (x, e) ↦ absurd (ground arith)
        | inl (pins, e) ↦ elim (Result-cases (read_certs auth files (anchor_paths storage))) [
          | inr (x, f) ↦ absurd (ground arith)
          | inl (anchors, f) ↦ record {
            pins = pins;
            anchors = anchors;
            pins_read = e;
            anchors_read = f;
            configured = ground arith;
            verified = ground arith;
          }
        ]
      ]

  verify_structure-IsVerified :
      (b : Bundle) → verify_structure auth c cbor files b ≡ ok tt → IsVerified sha256 c cbor b
  unfolding verify_structure
  verify_structure-IsVerified b h = elim (Result-cases (Verify.verify_structure sha256 c cbor b)) [
    | inr (x, e) ↦ absurd (ground arith)
    | inl (v, e) ↦ verify_structure_sound sha256 c cbor b v e
  ]

  authenticated_structure :
      (b : Bundle) (storage : StorageConfig) (now : ℕ) (signer : List ℕ)
      → authenticate_bundle auth c cbor files b storage now ≡ ok signer
      → IsVerified sha256 c cbor b
  unfolding authenticate_bundle
  authenticated_structure b storage now signer h = verify_structure-IsVerified b (ground arith)

  authenticated_scopes :
      (b : Bundle) (storage : StorageConfig) (now : ℕ) (signer : List ℕ)
      → authenticate_bundle auth c cbor files b storage now ≡ ok signer
      → MayServe storage b signer
  unfolding authenticate_bundle
  authenticated_scopes b storage now signer h some_rules =
      all_authorized-All storage.seal_authorizations b.manifest.producer_id signer
        b.manifest.ca_scopes (ground arith)

  -- What the answer of an admission is worth.
  abbrev pub Earned : Bundle → StorageConfig → ℕ → AdmissionTrust → Type 0
  Earned b storage now (authenticated signer) =
      IsSealed b storage now signer × MayServe storage b signer
  Earned b storage now unauthenticated_demo =
      (storage.allow_unauthenticated_bundles ≡ true)
      × (storage.seal_signer_pins ≡ [])
      × (anchor_paths storage ≡ [])
      × (storage.seal_authorizations ≡ [])

  -- A bundle that is admitted is servable and structurally verified. It is admitted as authenticated
  -- only if its seal verifies under a configured pin or anchor for that signer, and the signer is
  -- authorized for every scope where authorizations are configured. It is admitted as a demo only
  -- where the configuration allows this and has no pins, no anchors and no authorizations.
  pub admit_bundle_sound :
      (b : Bundle) (storage : StorageConfig) (now : ℕ) (trust : AdmissionTrust)
      → admit_bundle auth c cbor files b storage now ≡ ok trust
      → IsServable b × IsVerified sha256 c cbor b × Earned b storage now trust
  unfolding admit_bundle
  admit_bundle_sound b storage now trust h =
      let checked : IsVerified sha256 c cbor b × Earned b storage now trust =
        elim (Bool-cases (is_demo storage)) [
          | inl e ↦ (verify_structure-IsVerified b (ground arith), demo e)
          | inr e ↦ elim (Result-cases (authenticate_bundle auth c cbor files b storage now)) [
            | inr (x, f) ↦ absurd (ground arith)
            | inl (signer, f) ↦ (authenticated_structure b storage now signer f, sealed e signer f)
          ]
        ] in
      ((validate_serving_profile_iff b).0 (ground arith), checked.0, checked.1)
    where
      demo : is_demo storage ≡ true → Earned b storage now trust
      demo e =
          let same : unauthenticated_demo ≡ trust = ground arith in
          subst (Earned b storage now) same (ground arith, ground arith, ground arith, ground arith)

      sealed :
          is_demo storage ≡ false
          → (signer : List ℕ) → authenticate_bundle auth c cbor files b storage now ≡ ok signer
          → Earned b storage now trust
      sealed e signer f =
          let same : authenticated signer ≡ trust = ground arith in
          subst (Earned b storage now) same
            (authenticated_seal b storage now signer f, authenticated_scopes b storage now signer f)
