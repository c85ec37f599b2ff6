-- ===== src/Sign/OrchestrateExamples.antt =====
-- The theorem on orchestrate.rs of crates/hoike-sign at a store with recorded marks.
use hoike.Base.{
  ℕ, ◌+◌, ◌^◌, ◌<◌, ◌≡◌, refl, List, [], ◌∷◌, none, some, some-injective, ok, true, false, arith,
  cmp_bytes,
}
use hoike.Ahu.Samples.{big_endian, checksum, repeat_byte, bundle_at}
use hoike.Ahu.Manifest.{Manifest, authoritative_complete}
use hoike.Ahu.Bundle.{Bundle}
use hoike.Ahu.Build.{Builder, new_builder, add_dual_entry_with_discriminator, seal_manifest}
use hoike.Core.State.{StateStore, Deps, get_high_water, check_rollback, make_key}
use hoike.Core.Samples.{plain_ca}
use hoike.Server.Date.{days_to_ymd}
use hoike.Sign.Source.{validate_at}
use hoike.Sign.Time.{epoch_to_datetime, ocsp_time}
use hoike.Sign.Config.{GenerationConfig, dual}
use hoike.Sign.Samples.{ocsp, signer, ca, two_statuses, clock}
use hoike.Sign.Generate.{
  prepare_entries, prepare_all, prepare_entry, certids, key_certid, build_certid, cert_status_of,
  chunks, add_shared_entries, sign_bucket, sign_buckets, sign_and_add_entries,
}
use hoike.Sign.Produce.{next_update_base, assemble, manifest_for, ca_scopes_of}
use hoike.Sign.Orchestrate.{
  gen_config_of, next_epoch, recorded_mark, combined_producer_id, parse, parse_completeness,
}
use hoike.Sign.Orchestrate.Rising.{gen_config_of-check_rollback}

abbrev deps : Deps
deps = record {
  sha256 = checksum;
  hex_encode = λ bytes. bytes;
  hex_decode = some;
  to_json = λ state. [];
  from_json = λ bytes. none;
  hex_round_trip = λ bytes. refl;
}

-- Both hashes of the key are at epoch 4.
abbrev store : StateStore
store = record {
  path = [];
  state = record {
    high_water_marks =
        (make_key combined_producer_id (ocsp.sha256 ca.issuer_key_bytes), 4)
        ∷ (make_key combined_producer_id (ocsp.sha1 ca.issuer_key_bytes), 4)
        ∷ [];
    manifest_digests = [];
    active_bundles = [];
  };
  staged = false;
}

abbrev conf : GenerationConfig
conf = record {
  producer_id = combined_producer_id;
  epoch = 5;
  validity_secs = 86_400;
  jitter_secs = 7200;
  certid_compat = dual;
  completeness = authoritative_complete;
  archive_cutoff_secs = 0;
  bucket_size = 1;
}

fifth : next_epoch deps ocsp store ca ≡ 5
unfolding get_high_water hoike.Base.Assoc.lookup cmp_bytes
fifth = refl

configured : gen_config_of (plain_ca (99 ∷ [])) (next_epoch deps ocsp store ca) true ≡ ok conf
unfolding gen_config_of get_high_water hoike.Base.Assoc.lookup cmp_bytes parse parse_completeness
configured = refl

abbrev manifest : Manifest
manifest =
    manifest_for ocsp two_statuses conf (ca_scopes_of ocsp ca conf ((repeat_byte 20 7, none) ∷ []))
      87_400 90_000 1103 1104

abbrev builder : Builder
builder =
    add_dual_entry_with_discriminator
      (add_dual_entry_with_discriminator (new_builder manifest) (checksum (9 ∷ 5 ∷ []))
        (checksum (5 ∷ 5 ∷ [])) (48 ∷ 0 ∷ 0 ∷ []) 0)
      (checksum (9 ∷ 6 ∷ [])) (checksum (5 ∷ 6 ∷ [])) (48 ∷ 1 ∷ 1 ∷ []) 0

assembled : assemble ocsp ca two_statuses conf signer none clock ≡ ok builder
unfolding assemble validate_at next_update_base ocsp_time epoch_to_datetime days_to_ymd
    prepare_entries prepare_all prepare_entry certids key_certid build_certid cert_status_of
    sign_and_add_entries sign_buckets sign_bucket chunks add_shared_entries hoike.Base.Assoc.lookup
assembled = refl

abbrev bundle : Bundle
bundle = record (bundle_at 1) { manifest = seal_manifest checksum big_endian manifest [] [] }

agree :
    get_high_water store combined_producer_id (deps.hex_encode (ocsp.sha1 ca.issuer_key_bytes))
    ≡ recorded_mark deps ocsp store ca
unfolding get_high_water hoike.Base.Assoc.lookup cmp_bytes
agree = refl

small : (hw : ℕ) → recorded_mark deps ocsp store ca ≡ some hw → hw + 1 < 2 ^ 64
unfolding get_high_water hoike.Base.Assoc.lookup cmp_bytes
small hw h = omega (arith, some-injective 4 hw h)

gen_config_of-check_rollback_example : check_rollback deps store bundle ≡ ok tt
gen_config_of-check_rollback_example =
    gen_config_of-check_rollback deps ocsp store ca (plain_ca (99 ∷ [])) true conf two_statuses
      signer none clock builder big_endian [] [] bundle configured assembled refl agree small
