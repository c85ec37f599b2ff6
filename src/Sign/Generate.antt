-- ===== src/Sign/Generate.antt =====
-- crates/hoike-sign/src/generate.rs: what is prepared for the certificates of a snapshot, and how the buckets of
-- prepared entries are signed and added to a bundle.
pub mod Entries
pub mod Buckets
use hoike.Base.{
  ℕ, zero, suc, ◌+◌, ◌-◌, ◌*◌, ◌/◌, ◌^◌, List, [], ◌∷◌, ◌++◌, Bool, true, false, Option, none, some,
  ok, err, ok_or, guard, ◌>>=◌, ◌>>◌, ltb, leb, min, length, take, drop, if◌then◌else◌, and_then,
  Result,
}
use hoike.Base.Assoc
use hoike.Base
use hoike.Ahu.Error.{AhuResult, write_failed}
use hoike.Ahu.Wire.{Codec}
use hoike.Ahu.Cbor.{Cbor}
use hoike.Ahu.Manifest.{Manifest, Completeness, CaScope, full, by_key, ResponderId}
use hoike.Ahu.Build.{
  Builder, new_builder, add_entry_with_discriminator, add_dual_entry_with_discriminator, build,
}
use hoike.Sign.Error.{SignError, SignResult, der, ocsp_builder, key_load, config, bundle}
use hoike.Sign.Source.{CertificateStatus, good, revoked, StatusSnapshot, CaIdentity, validate_at}
use hoike.Sign.Config.{
  CertIdCompat, sha256_only, sha1_only, dual, GenerationConfig, CertId, CertStatus, is_good,
  is_revoked, SingleResponse, Ocsp, Signer, saturating_add, sha256_oid, sha1_oid, first_word,
  u32_max, PreparedEntry,
}
use hoike.Sign.Time.{DateTime, ocsp_time}

-- archive_cutoff: only an entry whose expiry is known is left out.
abbrev pub is_pruned : StatusSnapshot → GenerationConfig → List ℕ → Bool
is_pruned snapshot conf serial =
    if ltb 0 conf.archive_cutoff_secs
    then elim (Assoc.lookup serial snapshot.not_after) [
      | none ↦ false
      | some not_after ↦
          ltb (saturating_add not_after conf.archive_cutoff_secs) snapshot.this_update
    ]
    else false

-- The `while` loop takes two keys a round.
unfoldable pub add_shared_entries : Builder → List (List ℕ) → List ℕ → ℕ → Builder
add_shared_entries b [] response_der discriminator = b
add_shared_entries b (k ∷ []) response_der discriminator =
    add_entry_with_discriminator b k discriminator response_der
add_shared_entries b (k ∷ l ∷ keys) response_der discriminator =
    add_shared_entries (add_dual_entry_with_discriminator b k l response_der discriminator) keys
      response_der discriminator

-- `slice::chunks`, with fuel for the length of the list.
unfoldable pub chunks {ℓ} : {A : Type ℓ} → ℕ → ℕ → List A → List (List A)
chunks zero size xs = []
chunks (suc fuel) size [] = []
chunks (suc fuel) size (x ∷ xs) = take size (x ∷ xs) ∷ chunks fuel size (drop size (x ∷ xs))

abbrev pub singles_of : List PreparedEntry → List SingleResponse
singles_of [] = []
singles_of (p ∷ ps) = p.single_responses ++ singles_of ps

abbrev pub keys_of : List PreparedEntry → List (List ℕ)
keys_of [] = []
keys_of (p ∷ ps) = p.entry_keys ++ keys_of ps

module _ (o : Ocsp) where
  open o use {
    sha256, sha1, octet_string, certid_der, certificate, spki_key_bytes, is_date_time, response_der,
  }

  unfoldable pub build_certid : List ℕ → List ℕ → List ℕ → List ℕ → SignResult CertId
  build_certid oid name_hash key_hash serial = do
    name ← ok_or (octet_string name_hash) der
    key ← ok_or (octet_string key_hash) der
    ok (record {
      hash_oid = oid;
      issuer_name_hash = name;
      issuer_key_hash = key;
      serial_number = serial;
    })

  -- The CertID of a serial with its entry key.
  unfoldable pub key_certid : CaIdentity → Bool → List ℕ → SignResult (CertId × List ℕ)
  unfolding build_certid
  key_certid ca with_sha1 serial = do
    id ←
        (if with_sha1
          then build_certid sha1_oid (sha1 ca.issuer_name_der) (sha1 ca.issuer_key_bytes) serial
          else build_certid sha256_oid (sha256 ca.issuer_name_der) (sha256 ca.issuer_key_bytes)
              serial)
    bytes ← ok_or (certid_der id) der
    ok (id, sha256 bytes)

  unfoldable pub cert_status_of : CertificateStatus → SignResult CertStatus
  cert_status_of good = ok is_good
  cert_status_of (revoked time reason) = do
    at ← ocsp_time is_date_time time
    ok (is_revoked at reason)

  abbrev pub entry_key_jitter : GenerationConfig → List ℕ → ℕ
  entry_key_jitter conf serial = first_word (sha256 serial) * conf.jitter_secs / u32_max

  abbrev pub next_update_of : GenerationConfig → List ℕ → ℕ → ℕ → ℕ
  next_update_of conf serial next_update_base source_end =
      min (saturating_add next_update_base (entry_key_jitter conf serial)) source_end

  abbrev pub single : CertId × List ℕ → CertStatus → DateTime → DateTime → SingleResponse
  single (id, key) status this_update next_update = record {
    cert_id = id;
    cert_status = status;
    this_update = this_update;
    next_update = next_update;
  }

  -- The CertIDs of a serial, in the order of the entry keys.
  unfoldable pub certids : CaIdentity → CertIdCompat → List ℕ → SignResult (List (CertId × List ℕ))
  certids ca sha256_only serial = do id ← key_certid ca false serial; ok (id ∷ [])
  certids ca sha1_only serial = do id ← key_certid ca true serial; ok (id ∷ [])
  certids ca dual serial = do
    first ← key_certid ca false serial
    second ← key_certid ca true serial
    ok (first ∷ second ∷ [])

  abbrev pub entry_of : List (CertId × List ℕ) → CertStatus → DateTime → DateTime → PreparedEntry
  entry_of ids status this_update next_update = record {
    entry_keys = Base.map (λ (i : CertId × List ℕ). i.1) ids;
    single_responses = Base.map (λ i. single i status this_update next_update) ids;
  }

  -- One round of the loop over the snapshot.
  unfoldable pub prepare_entry :
      CaIdentity
      → StatusSnapshot
      → GenerationConfig
      → DateTime
      → ℕ
      → List ℕ
      → CertificateStatus
      → SignResult PreparedEntry
  prepare_entry ca snapshot conf this_update next_update_base serial status = do
    cert_status ← cert_status_of status
    number ← ok_or (o.serial_number serial) der
    source_end ← ok_or snapshot.next_update config
    next_update ← ocsp_time is_date_time (next_update_of conf serial next_update_base source_end)
    ids ← certids ca conf.certid_compat number
    ok (entry_of ids cert_status this_update next_update)

  unfoldable pub prepare_all :
      CaIdentity
      → StatusSnapshot
      → GenerationConfig
      → DateTime
      → ℕ
      → List (List ℕ × CertificateStatus)
      → SignResult (List PreparedEntry)
  prepare_all ca snapshot conf this_update base [] = ok []
  prepare_all ca snapshot conf this_update base ((serial, status) ∷ more) =
      let rest = prepare_all ca snapshot conf this_update base more in
      if is_pruned snapshot conf serial then rest else do
        entry ← prepare_entry ca snapshot conf this_update base serial status
        entries ← rest
        ok (entry ∷ entries)

  unfoldable pub prepare_entries :
      CaIdentity
      → StatusSnapshot
      → GenerationConfig
      → DateTime
      → ℕ
      → SignResult (List PreparedEntry)
  unfolding prepare_all
  prepare_entries ca snapshot conf this_update base =
      prepare_all ca snapshot conf this_update base snapshot.entries

  -- The response for one bucket.
  unfoldable pub sign_bucket :
      Signer → List ℕ → Option (List ℕ) → DateTime → List PreparedEntry → SignResult (List ℕ)
  sign_bucket signer responder_id cert produced_at bucket = do
    response ← ok_or (signer responder_id (singles_of bucket) cert produced_at) ocsp_builder
    ok_or (response_der response) der

  unfoldable pub sign_buckets :
      Signer
      → List ℕ
      → Option (List ℕ)
      → DateTime
      → ℕ
      → Builder
      → List (List PreparedEntry)
      → SignResult Builder
  sign_buckets signer responder_id cert produced_at discriminator b [] = ok b
  sign_buckets signer responder_id cert produced_at discriminator b (bucket ∷ more) = do
    response ← sign_bucket signer responder_id cert produced_at bucket
    sign_buckets signer responder_id cert produced_at discriminator
        (add_shared_entries b (keys_of bucket) response discriminator) more

  abbrev pub parse_cert : Option (List ℕ) → SignResult (Option (List ℕ))
  parse_cert none = ok none
  parse_cert (some bytes) = do cert ← ok_or (certificate bytes) der; ok (some cert)

  abbrev pub at_least_one : ℕ → ℕ
  at_least_one n = if ltb n 1 then 1 else n

  unfoldable pub sign_and_add_entries :
      Builder
      → List PreparedEntry
      → ℕ
      → Signer
      → List ℕ
      → Option (List ℕ)
      → DateTime
      → ℕ
      → SignResult Builder
  sign_and_add_entries b prepared bucket_size signer responder_id cert_der produced_at
        discriminator =
      do
        cert ← parse_cert cert_der
        sign_buckets signer responder_id cert produced_at discriminator b
            (chunks (length prepared) (at_least_one bucket_size) prepared)
