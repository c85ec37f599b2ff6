-- ===== src/Sign/Examples.antt =====
-- The theorems on crates/hoike-sign at a snapshot of two certificates.
use hoike.Base.{
  ℕ, ◌+◌, ◌/◌, ◌%◌, ◌^◌, ◌<◌, ◌≡◌, refl, sym, ◌∙◌, inl, inr, List, [], ◌∷◌, ◌++◌, Option, none,
  some, ok, true, false, arith, All, cmp_bytes, length, replicate,
}
use hoike.Base as B
use hoike.Base.Exists.{Has}
use hoike.Ahu.Samples.{big_endian, cbor_of, checksum, repeat_byte}
use hoike.Ahu.Index.{IndexRecord}
use hoike.Ahu.Index.RoundTrip.{length-write_all}
use hoike.Ahu.Index.RoundTrip as IndexTrip
use hoike.Ahu.Manifest.{Manifest, partial}
use hoike.Ahu.Manifest.Encode.{to_cbor}
use hoike.Ahu.Manifest.Decode.{from_cbor}
use hoike.Ahu.Manifest.RoundTrip as ManifestTrip
use hoike.Ahu.Manifest.RoundTrip.{from_cbor-to_cbor}
use hoike.Ahu.Bundle.{Bundle, from_bytes}
use hoike.Ahu.Build.{
  Builder, new_builder, add_dual_entry_with_discriminator, place, place_entry, sort_entries,
  insert_entry, seal_manifest,
}
use hoike.Ahu.Build.Sort.{AreDistinct}
use hoike.Ahu.Build.Place.{IsInjective}
use hoike.Ahu.Build.RoundTrip.{IsAdded, IsNamed, IsShort, manifest_of, manifest_bytes_of}
use hoike.Server.Date.{days_to_ymd}
use hoike.Sign.Samples.{ocsp, signer, ca, two_statuses, clock}
use hoike.Sign.Source.{CertificateStatus, validate_at}
use hoike.Sign.Time.{DateTime, epoch_to_datetime, datetime_to_epoch, ocsp_time}
use hoike.Sign.Time.RoundTrip.{datetime_to_epoch-epoch_to_datetime}
use hoike.Sign.Config.{GenerationConfig, PreparedEntry, sha256_only}
use hoike.Sign.Generate.{
  is_pruned, prepare_entries, prepare_all, prepare_entry, certids, key_certid, build_certid,
  cert_status_of, chunks, add_shared_entries, sign_bucket, sign_buckets, sign_and_add_entries,
}
use hoike.Sign.Produce.{next_update_base, assemble, produce_bundle, manifest_for, ca_scopes_of}
use hoike.Base.{◌≤◌, ◌*◌}
use hoike.Sign.Config.{first_word, u32_max}
use hoike.Sign.Generate.Entries.{IsPrepared}
use hoike.Sign.Produce.Window.{ExpiresWithin, assemble-ExpiresWithin}
use hoike.Sign.Produce.Answers.{IsAssembled, IsAnswered, produce_bundle-IsAnswered}

abbrev conf : GenerationConfig
conf = record {
  producer_id = 116 ∷ [];
  epoch = 7;
  validity_secs = 500;
  jitter_secs = 60;
  certid_compat = sha256_only;
  completeness = partial;
  archive_cutoff_secs = 3600;
  bucket_size = 2;
}

abbrev manifest : Manifest
manifest =
    manifest_for ocsp two_statuses conf (ca_scopes_of ocsp ca conf ((repeat_byte 20 7, none) ∷ []))
      1500 90_000 1103 1104

abbrev builder : Builder
builder =
    add_dual_entry_with_discriminator (new_builder manifest) (checksum (9 ∷ 5 ∷ []))
      (checksum (9 ∷ 6 ∷ [])) (48 ∷ 0 ∷ 1 ∷ []) 0

assembled : assemble ocsp ca two_statuses conf signer none clock ≡ ok builder
unfolding assemble validate_at next_update_base ocsp_time epoch_to_datetime days_to_ymd
    prepare_entries prepare_all prepare_entry certids key_certid build_certid cert_status_of
    sign_and_add_entries sign_buckets sign_bucket chunks add_shared_entries hoike.Base.Assoc.lookup
assembled = refl

-- The entries in the order of their keys, with their places in the data.
abbrev record_at : List ℕ → IndexRecord
record_at key = record {
  entry_key = key;
  data_offset = 0;
  data_length = 3;
  flags = record { multi = true; is_alias = true; tombstone = false };
  discriminator = 0;
}

abbrev index : List IndexRecord
index = record_at (checksum (9 ∷ 5 ∷ [])) ∷ record_at (checksum (9 ∷ 6 ∷ [])) ∷ []

abbrev sealed_manifest : Manifest
sealed_manifest = seal_manifest checksum big_endian manifest index (48 ∷ 0 ∷ 1 ∷ [])

placed :
    place checksum (record { content = []; payload_offsets = [] }) (sort_entries builder.entries)
    ≡ (index, 48 ∷ 0 ∷ 1 ∷ [])
unfolding place place_entry sort_entries insert_entry cmp_bytes hoike.Base.Assoc.lookup
    hoike.Base.Assoc.insert
placed = refl

index-IsEncodable : All IndexTrip.IsEncodable index
index-IsEncodable = ground arith

sealed_manifest-IsEncodable : ManifestTrip.IsEncodable sealed_manifest
unfolding ca_scopes_of
sealed_manifest-IsEncodable = ground arith

payload-eq : (q : List ℕ) → IsAdded builder.entries q → 48 ∷ 0 ∷ 1 ∷ [] ≡ q
payload-eq q h = elim h [ inl e ↦ e | inr (inl e) ↦ e | inr (inr e) ↦ elim e [ ] ]

injective : IsInjective checksum (IsAdded builder.entries)
injective p q a b h = sym (payload-eq p a) ∙ payload-eq q b

named : All IsNamed builder.entries
named = ground arith

distinct : AreDistinct builder.entries
distinct = ground arith

decoded :
    from_cbor
      (cbor_of sealed_manifest)
      (manifest_bytes_of checksum big_endian (cbor_of sealed_manifest) builder)
    ≡ ok (manifest_of checksum big_endian (cbor_of sealed_manifest) builder)
unfolding place place_entry sort_entries insert_entry cmp_bytes hoike.Base.Assoc.lookup
    hoike.Base.Assoc.insert
decoded =
    from_cbor-to_cbor (cbor_of sealed_manifest) sealed_manifest sealed_manifest-IsEncodable refl
      refl

short : IsShort checksum big_endian (cbor_of sealed_manifest) builder (48 ∷ [])
unfolding to_cbor place place_entry sort_entries insert_entry cmp_bytes hoike.Base.Assoc.lookup
    hoike.Base.Assoc.insert
short = omega (arith, length-write_all big_endian index index-IsEncodable)

produce_bundle-IsAnswered_example :
    (out : List ℕ) × (built : Bundle) × (a : IsAssembled ocsp ca two_statuses conf signer none clock
      builder)
    × (cert : Option (List ℕ)) × (produce_bundle ocsp big_endian
          (cbor_of sealed_manifest)
          ca
          two_statuses
          conf
          signer
          (λ bytes. ok (48 ∷ []))
          none
          clock
        ≡ ok out)
    × (from_bytes big_endian (cbor_of sealed_manifest) out ≡ ok built)
    × ((serial : List ℕ) (status : CertificateStatus)
        → Has two_statuses.entries (serial, status)
        → is_pruned two_statuses conf serial ≡ false
        → IsAnswered ocsp ca two_statuses conf signer none clock builder a cert built serial status)
produce_bundle-IsAnswered_example =
    produce_bundle-IsAnswered ocsp ca two_statuses conf signer none clock big_endian
      (cbor_of sealed_manifest) (λ bytes. ok (48 ∷ [])) builder (48 ∷ []) assembled distinct named
      injective refl decoded short

-- 2023-11-14 22:13:20
abbrev some_time : DateTime
some_time = record { year = 2023; month = 11; day = 14; hour = 22; minutes = 13; seconds = 20 }

made : epoch_to_datetime (λ dt. true) 1_700_000_000 ≡ ok some_time
unfolding epoch_to_datetime days_to_ymd
made = refl

fits : (days_to_ymd (1_700_000_000 / 86400)).0 < 65536
unfolding days_to_ymd
fits = omega arith

datetime_to_epoch-epoch_to_datetime_example : datetime_to_epoch some_time ≡ 1_700_000_000
datetime_to_epoch-epoch_to_datetime_example =
    datetime_to_epoch-epoch_to_datetime (λ dt. true) 1_700_000_000 some_time fits made

four_bytes : (a b c d : ℕ) → ((a % 256 * 256 + b % 256) * 256 + c % 256) * 256 + d % 256 ≤ u32_max
four_bytes a b c d = omega arith

word : (bytes : List ℕ) → first_word (checksum bytes) ≤ u32_max
word bytes = four_bytes _ _ _ _

assemble-ExpiresWithin_example :
    (source_end : ℕ) × (two_statuses.next_update ≡ some source_end)
    × (builder.manifest.window.next_update_max ≤ source_end)
    × (a : IsAssembled ocsp ca two_statuses conf signer none clock builder) × ((p : PreparedEntry)
        → Has a.prepared p
        → (serial : List ℕ) × (status : CertificateStatus) × Has two_statuses.entries
            (serial, status)
          × (is_pruned two_statuses conf serial ≡ false)
          × IsPrepared ocsp ca two_statuses conf a.this_update a.base serial status p
          × ExpiresWithin ocsp builder p)
    × ((serial : List ℕ) (status : CertificateStatus)
        → Has two_statuses.entries (serial, status)
        → is_pruned two_statuses conf serial ≡ false
        → (p : PreparedEntry) × Has a.prepared p
          × IsPrepared ocsp ca two_statuses conf a.this_update a.base serial status p
          × ExpiresWithin ocsp builder p)
assemble-ExpiresWithin_example =
    assemble-ExpiresWithin ocsp ca two_statuses conf signer none clock builder word assembled
