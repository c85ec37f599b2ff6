-- ===== src/Ahu/Examples.antt =====
-- The theorems on crates/ahu at concrete inputs.
use hoike.Base.{ℕ, ◌≡◌, ◌↔◌, refl, List, [], ◌∷◌, ok, arith, All, and_then, find_index, cmp_bytes}
use hoike.Ahu.Samples.{
  big_endian, records, manifest_at, zero_digest, accepted, cbor_of, bundle_at, repeat_byte,
  empty_header,
}
use hoike.Ahu.Header.{FileHeader, validate_bounds}
use hoike.Ahu.Header.Bounds.{IsInside, validate_bounds_iff}
use hoike.Ahu.Index.{binary_search_with_discriminator, validate_sort_order}
use hoike.Ahu.Index.Order.{IsSorted, validate_sort_order_iff}
use hoike.Ahu.Index.RoundTrip.{IsEncodable, length-write_all}
use hoike.Ahu.Index.Lookup.{matches, binary_search_with_discriminator-eq-find}
use hoike.Ahu.Manifest.Encode.{to_cbor}
use hoike.Ahu.Manifest.Decode.{from_cbor}
use hoike.Ahu.Manifest.RoundTrip as ManifestTrip
use hoike.Ahu.Manifest.RoundTrip.{from_cbor-to_cbor}
use hoike.Ahu.Bundle.{get_range, from_bytes, to_bytes, lookup_preferred, entry_bytes}
use hoike.Ahu.Bundle.RoundTrip.{placed, file, length-file, from_bytes-to_bytes}
use hoike.Ahu.Verify.{check_entries, verify_structure}
use hoike.Ahu.Verify.Sound.{IsVerified, verify_structure_sound}
use hoike.Ahu.Bundle.Lookup.{first_record, lookup_preferred-eq-find}

sample_manifest-IsEncodable : ManifestTrip.IsEncodable (manifest_at 7)
sample_manifest-IsEncodable = ground arith

from_cbor-to_cbor_example :
    from_cbor (cbor_of (manifest_at 7)) (to_cbor (cbor_of (manifest_at 7)) (manifest_at 7))
    ≡ ok (manifest_at 7)
from_cbor-to_cbor_example =
    from_cbor-to_cbor (cbor_of (manifest_at 7)) (manifest_at 7) sample_manifest-IsEncodable refl
      refl

decoded : from_cbor (cbor_of (manifest_at 7)) (161 ∷ 162 ∷ []) ≡ ok (manifest_at 7)
unfolding to_cbor
decoded =
    from_cbor-to_cbor (cbor_of (manifest_at 7)) (manifest_at 7) sample_manifest-IsEncodable refl
      refl

records-IsEncodable : All IsEncodable records
records-IsEncodable = ground arith

records-IsSorted : IsSorted records
unfolding cmp_bytes
records-IsSorted = ((refl, tt), (tt, tt))

abbrev pub sample_file : ℕ → List ℕ
sample_file epoch =
    file big_endian (cbor_of (manifest_at 7)) (placed big_endian (bundle_at epoch))
      (bundle_at epoch).manifest_bytes (bundle_at epoch).seal_bytes (bundle_at epoch).content
      (bundle_at epoch).index

pub sample_written : (epoch : ℕ) → to_bytes big_endian (bundle_at epoch) ≡ ok (sample_file epoch)
unfolding to_bytes
sample_written epoch = ground (arith, length-write_all big_endian records records-IsEncodable)

pub sample_read :
    from_bytes big_endian (cbor_of (manifest_at 7)) (sample_file 7)
    ≡ ok (record (bundle_at 7) { header = placed big_endian (bundle_at 7) })
sample_read =
    from_bytes-to_bytes big_endian (cbor_of (manifest_at 7)) (bundle_at 7) (sample_file 7)
      (record { major = refl; minor = omega arith; index = records-IsEncodable }) decoded
      (sample_written 7)
      (omega (
        arith,
        length-write_all big_endian records records-IsEncodable,
        length-file big_endian (cbor_of (manifest_at 7)) (placed big_endian (bundle_at 7))
            (bundle_at 7).manifest_bytes (bundle_at 7).seal_bytes (bundle_at 7).content
            (bundle_at 7).index,
      ))

from_bytes-to_bytes_example :
    from_bytes big_endian (cbor_of (manifest_at 7)) (sample_file 7)
    ≡ ok (record (bundle_at 7) { header = placed big_endian (bundle_at 7) })
from_bytes-to_bytes_example =
    from_bytes-to_bytes big_endian (cbor_of (manifest_at 7)) (bundle_at 7) (sample_file 7)
      (record { major = refl; minor = omega arith; index = records-IsEncodable }) decoded
      (sample_written 7)
      (omega (
        arith,
        length-write_all big_endian records records-IsEncodable,
        length-file big_endian (cbor_of (manifest_at 7)) (placed big_endian (bundle_at 7))
            (bundle_at 7).manifest_bytes (bundle_at 7).seal_bytes (bundle_at 7).content
            (bundle_at 7).index,
      ))

-- The client asks for discriminator 3 first.
lookup_preferred-eq-find_example :
    lookup_preferred (bundle_at 7) (repeat_byte 32 1) (3 ∷ [])
    ≡ and_then (first_record records (repeat_byte 32 1) (3 ∷ 0 ∷ [])) (entry_bytes (bundle_at 7))
lookup_preferred-eq-find_example =
    lookup_preferred-eq-find (bundle_at 7) (repeat_byte 32 1) (3 ∷ []) records-IsSorted

binary_search_with_discriminator-eq-find_example :
    binary_search_with_discriminator records (repeat_byte 32 1) 3
    ≡ find_index (matches (repeat_byte 32 1) 3) records
binary_search_with_discriminator-eq-find_example =
    binary_search_with_discriminator-eq-find records (repeat_byte 32 1) 3 records-IsSorted

validate_sort_order_iff_example : (validate_sort_order records ≡ ok tt) ↔ IsSorted records
validate_sort_order_iff_example = validate_sort_order_iff records

abbrev placed_header : FileHeader
placed_header = record empty_header { manifest_offset = 64; manifest_length = 10; seal_offset = 74 }

validate_bounds_iff_example : (validate_bounds placed_header 80 ≡ ok tt) ↔ IsInside 80 placed_header
validate_bounds_iff_example = validate_bounds_iff placed_header 80

pub sample_accepted :
    verify_structure zero_digest big_endian (cbor_of (manifest_at 7)) (bundle_at 7) ≡ ok accepted
unfolding verify_structure check_entries entry_bytes get_range to_cbor cmp_bytes
sample_accepted = ground (arith, decoded, (validate_sort_order_iff records).1 records-IsSorted)

verify_structure-sound_example :
    IsVerified zero_digest big_endian (cbor_of (manifest_at 7)) (bundle_at 7)
verify_structure-sound_example =
    verify_structure_sound zero_digest big_endian (cbor_of (manifest_at 7)) (bundle_at 7) accepted
      sample_accepted
