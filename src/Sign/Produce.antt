-- ===== src/Sign/Produce.antt =====
-- produce_bundle and produce_dual_bundle of crates/hoike-sign/src/generate.rs. The clock answers each of
-- their calls of unix_now by its number, or fails.
pub mod Answers
pub mod Window
use hoike.Base.{
  ℕ, ◌+◌, ◌^◌, List, [], ◌∷◌, ◌++◌, Bool, true, false, Option, none, some, ok, err, ok_or, guard,
  ◌>>=◌, ◌>>◌, ltb, min, replicate, if◌then◌else◌,
}
use hoike.Ahu.Error.{AhuResult, write_failed}
use hoike.Ahu.Wire.{Codec}
use hoike.Ahu.Cbor.{Cbor}
use hoike.Ahu.Manifest.{Manifest, CaScope, full, by_key}
use hoike.Ahu.Build.{Builder, new_builder, build}
use hoike.Sign.Error.{SignResult, der, key_load, config, bundle}
use hoike.Sign.Source.{StatusSnapshot, CaIdentity, validate_at}
use hoike.Sign.Time.{DateTime, ocsp_time}
use hoike.Sign.Config.{
  CertIdCompat, sha256_only, sha1_only, dual, GenerationConfig, Ocsp, Signer, saturating_add,
  sha256_oid, sha1_oid,
}
use hoike.Sign.Generate.{prepare_entries, sign_and_add_entries}

abbrev pub Clock : Type 0
Clock = ℕ → SignResult ℕ

-- `now + validity_secs`, which must not overflow, and at most the expiry of the source.
unfoldable pub next_update_base : StatusSnapshot → GenerationConfig → ℕ → SignResult ℕ
next_update_base snapshot conf source_end = do
  guard (ltb (snapshot.this_update + conf.validity_secs) (2 ^ 64)) config
  ok (min (snapshot.this_update + conf.validity_secs) source_end)

module _ (o : Ocsp) where
  open o use {sha256, sha1, octet_string, certificate, spki_key_bytes, is_date_time}

  unfoldable pub extract_spki_key_hash : List ℕ → SignResult (List ℕ)
  extract_spki_key_hash cert_der = do
    cert ← ok_or (certificate cert_der) key_load
    ok (sha1 (spki_key_bytes cert))

  -- The key hash of the responder: of its certificate, or of the CA itself.
  abbrev pub responder_key_hash : CaIdentity → Option (List ℕ) → SignResult (List ℕ)
  responder_key_hash ca none = ok (sha1 ca.issuer_key_bytes)
  responder_key_hash ca (some cert_der) = extract_spki_key_hash cert_der

  abbrev chain_of : Option (List ℕ) → Option (List (List ℕ))
  chain_of none = none
  chain_of (some cert) = some (cert ∷ [])

  abbrev pub scope :
      (List ℕ → List ℕ)
      → List ℕ
      → CaIdentity
      → GenerationConfig
      → List ℕ
      → Option (List ℕ)
      → CaScope
  scope hash oid ca conf key_hash cert = record {
    hash_algorithm = oid;
    issuer_name_hash = hash ca.issuer_name_der;
    issuer_key_hash = hash ca.issuer_key_bytes;
    epoch = conf.epoch;
    responder_id = record { id_type = by_key; value = key_hash };
    responder_chain = chain_of cert;
    signature_algorithm = [];
    completeness = conf.completeness;
  }

  abbrev pub has_sha1 : CertIdCompat → Bool
  has_sha1 sha256_only = false
  has_sha1 sha1_only = true
  has_sha1 dual = true

  -- For each responder a scope by SHA-256, then by SHA-1 where entries have such CertIDs.
  abbrev pub scopes_by :
      (List ℕ → List ℕ)
      → List ℕ
      → CaIdentity
      → GenerationConfig
      → List (List ℕ × Option (List ℕ))
      → List CaScope
  scopes_by hash oid ca conf [] = []
  scopes_by hash oid ca conf ((key_hash, cert) ∷ more) =
      scope hash oid ca conf key_hash cert ∷ scopes_by hash oid ca conf more

  unfoldable pub ca_scopes_of :
      CaIdentity → GenerationConfig → List (List ℕ × Option (List ℕ)) → List CaScope
  ca_scopes_of ca conf responders =
      scopes_by sha256 sha256_oid ca conf responders
      ++ (if has_sha1 conf.certid_compat then scopes_by sha1 sha1_oid ca conf responders else [])

  abbrev pub manifest_for :
      StatusSnapshot → GenerationConfig → List CaScope → ℕ → ℕ → ℕ → ℕ → Manifest
  manifest_for snapshot conf scopes base source_end created_at produced_at = record {
    format_version = 1;
    bundle_id = replicate 16 0;
    producer_id = conf.producer_id;
    created_at = created_at;
    bundle_type = full;
    ca_scopes = scopes;
    window = record {
      produced_at = produced_at;
      this_update_min = snapshot.this_update;
      next_update_min = base;
      next_update_max = min (saturating_add base conf.jitter_secs) source_end;
    };
    integrity = record { index_digest = replicate 32 0; data_digest = replicate 32 0 };
    entry_count = 0;
    continuity = record {
      prev_manifest_digest = none;
      base_manifest_digest = none;
      chain_length = 0;
    };
    shard = none;
    compression = none;
    extensions = none;
  }

  -- produce_bundle up to the call of `build`.
  unfoldable pub assemble :
      CaIdentity
      → StatusSnapshot
      → GenerationConfig
      → Signer
      → Option (List ℕ)
      → Clock
      → SignResult Builder
  assemble ca snapshot conf signer cert_der clock = do
    now ← clock 0
    source_end ← validate_at snapshot now
    base ← next_update_base snapshot conf source_end
    later ← clock 1
    guard (ltb later base) config
    third ← clock 2
    produced_at ← ocsp_time is_date_time third
    key_hash ← responder_key_hash ca cert_der
    responder_id ← ok_or (octet_string key_hash) der
    created_at ← clock 3
    window_at ← clock 4
    let scopes = ca_scopes_of ca conf ((key_hash, cert_der) ∷ [])
    let manifest = manifest_for snapshot conf scopes base source_end created_at window_at
    this_update ← ocsp_time is_date_time snapshot.this_update
    prepared ← prepare_entries o ca snapshot conf this_update base
    sign_and_add_entries o (new_builder manifest) prepared conf.bucket_size signer responder_id
        cert_der produced_at 0

  -- `map_err(|e| AhuError::Write(e.to_string()))` on the seal.
  abbrev pub write_error : SignResult (List ℕ) → AhuResult (List ℕ)
  write_error (ok seal) = ok seal
  write_error (err e) = err write_failed

  -- `map_err(SignError::Bundle)`
  abbrev pub bundle_error : AhuResult (List ℕ) → SignResult (List ℕ)
  bundle_error (ok bytes) = ok bytes
  bundle_error (err e) = err (bundle e)

  unfoldable pub produce_bundle :
      Codec
      → Cbor
      → CaIdentity
      → StatusSnapshot
      → GenerationConfig
      → Signer
      → (List ℕ → SignResult (List ℕ))
      → Option (List ℕ)
      → Clock
      → SignResult (List ℕ)
  produce_bundle c cbor ca snapshot conf signer seal_fn cert_der clock = do
    b ← assemble ca snapshot conf signer cert_der clock
    bundle_error (build sha256 c cbor (λ m. write_error (seal_fn m)) b)

  -- produce_dual_bundle up to the call of `build`: two signers, the second under its own discriminator.
  unfoldable pub assemble_dual :
      CaIdentity
      → StatusSnapshot
      → GenerationConfig
      → Signer
      → Signer
      → ℕ
      → Option (List ℕ)
      → Option (List ℕ)
      → Clock
      → SignResult Builder
  assemble_dual ca snapshot conf signer_classical signer_pq disc_pq cert_classical cert_pq clock =
      do
        now ← clock 0
        source_end ← validate_at snapshot now
        base ← next_update_base snapshot conf source_end
        later ← clock 1
        guard (ltb later base) config
        third ← clock 2
        produced_at ← ocsp_time is_date_time third
        hash_classical ← responder_key_hash ca cert_classical
        hash_pq ← responder_key_hash ca cert_pq
        created_at ← clock 3
        window_at ← clock 4
        let scopes =
            ca_scopes_of ca conf ((hash_classical, cert_classical) ∷ (hash_pq, cert_pq) ∷ [])
        let manifest = manifest_for snapshot conf scopes base source_end created_at window_at
        this_update ← ocsp_time is_date_time snapshot.this_update
        prepared ← prepare_entries o ca snapshot conf this_update base
        id_classical ← ok_or (octet_string hash_classical) der
        id_pq ← ok_or (octet_string hash_pq) der
        b ←
            sign_and_add_entries o (new_builder manifest) prepared conf.bucket_size signer_classical
              id_classical cert_classical produced_at 0
        sign_and_add_entries o b prepared conf.bucket_size signer_pq id_pq cert_pq produced_at
            disc_pq

  unfoldable pub produce_dual_bundle :
      Codec
      → Cbor
      → CaIdentity
      → StatusSnapshot
      → GenerationConfig
      → Signer
      → Signer
      → ℕ
      → (List ℕ → SignResult (List ℕ))
      → Option (List ℕ)
      → Option (List ℕ)
      → Clock
      → SignResult (List ℕ)
  produce_dual_bundle c cbor ca snapshot conf signer_classical signer_pq disc_pq seal_fn
        cert_classical cert_pq clock =
      do
        b ←
            assemble_dual ca snapshot conf signer_classical signer_pq disc_pq cert_classical cert_pq
              clock
        bundle_error (build sha256 c cbor (λ m. write_error (seal_fn m)) b)
