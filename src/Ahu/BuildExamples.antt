-- ===== src/Ahu/BuildExamples.antt =====
-- The theorem on `BundleBuilder::build` at a concrete builder.
use hoike.Base.{
  Bool, not, ℕ, ◌+◌, ◌^◌, ◌<◌, ◌≡◌, ◌≢◌, ap, ◌⊎◌, refl, sym, ◌∙◌, inl, inr, List, [], ◌∷◌, none,
  some, ok, true, false, arith, All, cmp_bytes, length,
}
use hoike.Ahu.Samples.{big_endian, cbor_of, checksum, manifest_at, repeat_byte}
use hoike.Ahu.Index.{IndexRecord}
use hoike.Ahu.Index.RoundTrip.{length-write_all}
use hoike.Ahu.Index.RoundTrip as IndexTrip
use hoike.Ahu.Manifest.{Manifest}
use hoike.Ahu.Manifest.Encode.{to_cbor}
use hoike.Ahu.Manifest.Decode.{from_cbor}
use hoike.Ahu.Manifest.RoundTrip as ManifestTrip
use hoike.Ahu.Manifest.RoundTrip.{from_cbor-to_cbor}
use hoike.Ahu.Build.{
  Builder, new_builder, add_dual_entry, add_tombstone, build, place, place_entry, sort_entries,
  insert_entry, seal_manifest,
}
use hoike.Ahu.Build.Sort.{AreDistinct}
use hoike.Ahu.Build.Place.{IsInjective}
use hoike.Ahu.Build.RoundTrip.{
  IsAdded, IsNamed, IsShort, IsBuilt, manifest_of, manifest_bytes_of, built_of, build-IsBuilt,
}

-- One response under two keys, and a tombstone.
abbrev builder : Builder
builder =
    add_tombstone
      (add_dual_entry (new_builder (manifest_at 7)) (repeat_byte 32 9) (repeat_byte 32 3)
        (10 ∷ 11 ∷ []))
      (repeat_byte 32 5) 0

abbrev record_at : ℕ → ℕ → Bool → IndexRecord
record_at key len dead = record {
  entry_key = repeat_byte 32 key;
  data_offset = 0;
  data_length = len;
  flags = record { multi = not dead; is_alias = not dead; tombstone = dead };
  discriminator = 0;
}

abbrev index : List IndexRecord
index = record_at 3 2 false ∷ record_at 5 0 true ∷ record_at 9 2 false ∷ []

abbrev manifest : Manifest
manifest = seal_manifest checksum big_endian (manifest_at 7) index (10 ∷ 11 ∷ [])

placed :
    place checksum (record { content = []; payload_offsets = [] }) (sort_entries builder.entries)
    ≡ (index, 10 ∷ 11 ∷ [])
unfolding place place_entry sort_entries insert_entry cmp_bytes hoike.Base.Assoc.lookup
    hoike.Base.Assoc.insert
placed = refl

index-IsEncodable : All IndexTrip.IsEncodable index
index-IsEncodable = ground arith

manifest-IsEncodable : ManifestTrip.IsEncodable manifest
manifest-IsEncodable = ground arith

payload-cases : (q : List ℕ) → IsAdded builder.entries q → (q ≡ 10 ∷ 11 ∷ []) ⊎ (q ≡ [])
payload-cases q h = elim h [
  | inl e ↦ inl (sym e)
  | inr (inl e) ↦ inl (sym e)
  | inr (inr (inl e)) ↦ inr (sym e)
  | inr (inr (inr e)) ↦ elim e [ ]
]

differ : checksum (10 ∷ 11 ∷ []) ≢ checksum []
differ h = let read : 68107 ≡ 1 = ap big_endian.get h in absurd (omega (arith, read))

injective : IsInjective checksum (IsAdded builder.entries)
injective p q a b h = elim (payload-cases p a) [
  | inl x ↦ elim (payload-cases q b) [
    | inl y ↦ x ∙ sym y
    | inr y ↦ absurd (differ (sym (ap checksum x) ∙ h ∙ ap checksum y))
  ]
  | inr x ↦ elim (payload-cases q b) [
    | inl y ↦ absurd (differ (sym (ap checksum y) ∙ sym h ∙ ap checksum x))
    | inr y ↦ x ∙ sym y
  ]
]

named : All IsNamed builder.entries
named = ground arith

distinct : AreDistinct builder.entries
distinct = ground arith

decoded :
    from_cbor (cbor_of manifest) (manifest_bytes_of checksum big_endian (cbor_of manifest) builder)
    ≡ ok (manifest_of checksum big_endian (cbor_of manifest) builder)
unfolding place place_entry sort_entries insert_entry cmp_bytes hoike.Base.Assoc.lookup
    hoike.Base.Assoc.insert
decoded = from_cbor-to_cbor (cbor_of manifest) manifest manifest-IsEncodable refl refl

short : IsShort checksum big_endian (cbor_of manifest) builder (48 ∷ [])
unfolding to_cbor place place_entry sort_entries insert_entry cmp_bytes hoike.Base.Assoc.lookup
    hoike.Base.Assoc.insert
short = omega (arith, length-write_all big_endian index index-IsEncodable)

build-IsBuilt_example :
    (out : List ℕ) × (build checksum big_endian (cbor_of manifest) (λ bytes. ok (48 ∷ [])) builder
      ≡ ok out)
    × IsBuilt checksum big_endian
        (cbor_of manifest)
        builder
        out
        (built_of checksum big_endian (cbor_of manifest) builder (48 ∷ []))
build-IsBuilt_example =
    build-IsBuilt checksum big_endian (cbor_of manifest) builder (λ bytes. ok (48 ∷ [])) (48 ∷ [])
      distinct named injective refl decoded short
