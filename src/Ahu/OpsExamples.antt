-- ===== src/Ahu/OpsExamples.antt =====
-- The theorems on crates/ahu/src/ops.rs at a base and one delta.
use hoike.Base.{
  ℕ, ◌≡◌, refl, sym, ◌∙◌, inl, inr, List, [], ◌∷◌, ◌++◌, some, ok, true, false, arith, All,
  cmp_bytes, if◌then◌else◌, beq_bytes, and_then, binary_search_by, narrow, probe,
}
use hoike.Ahu.Samples.{
  zero_digest, big_endian, manifest_at, repeat_byte, records, content, empty_header, one_record,
  other_record,
}
use hoike.Ahu.Cbor.{Cbor, dict}
use hoike.Ahu.Index.{IndexRecord, binary_search_with_discriminator, write_all, alg_disc_default}
use hoike.Ahu.Index.RoundTrip.{length-write_all}
use hoike.Ahu.Index.RoundTrip as IndexTrip
use hoike.Ahu.Header
use hoike.Ahu.Index.Order.{IsSorted, validate_sort_order_iff}
use hoike.Ahu.Manifest.{Manifest, Window, delta}
use hoike.Ahu.Manifest.Encode.{to_cbor, root_entries}
use hoike.Ahu.Manifest.Decode.{from_cbor}
use hoike.Ahu.Manifest.RoundTrip as ManifestTrip
use hoike.Ahu.Manifest.RoundTrip.{from_cbor-to_cbor}
use hoike.Ahu.Bundle.{Bundle, entry_at, get_range, entry_bytes, from_bytes, lookup}
use hoike.Ahu.Build.{
  seal_manifest, place, place_entry, sort_entries, insert_entry, build, header_of,
}
use hoike.Ahu.Verify.{check_entries, verify_structure}
use hoike.Ahu.Samples.{accepted, cbor_of, no_flags}
use hoike.Ahu.Ops.Diff.{diff-data_of}
use hoike.Ahu.Ops.{diff, data_of, get, insert, remove, retain_base, apply_record, apply_records}
use hoike.Ahu.Ops.Apply.{
  Progress, ApplyResult, apply_delta, apply_deltas, apply_sealed, validity, materialized, start,
}
use hoike.Ahu.Ops.Ordered.{entries_of}
use hoike.Ahu.Build.Place.{IsInjective}
use hoike.Ahu.Build.RoundTrip.{IsAdded, IsNamed, IsShort, manifest_of, manifest_bytes_of}
use hoike.Ahu.Ops.Sealed.{builder_of, apply_sealed-after_deltas, in_base, after_deltas}

abbrev base_manifest : Manifest
base_manifest = seal_manifest zero_digest big_endian (manifest_at 7) records content

abbrev base : Bundle
base = record {
  header = empty_header;
  manifest = base_manifest;
  manifest_bytes = 1 ∷ [];
  seal_bytes = 48 ∷ [];
  index = records;
  content = content;
}

-- The first record has a new payload, and the second is taken out.
abbrev delta_records : List IndexRecord
delta_records =
    record one_record { data_length = 1 }
    ∷ record {
      entry_key = repeat_byte 32 1;
      data_offset = 0;
      data_length = 0;
      flags = record { multi = false; is_alias = false; tombstone = true };
      discriminator = 3;
    }
    ∷ []

abbrev delta_manifest : Manifest
delta_manifest =
    seal_manifest zero_digest big_endian
      (record (manifest_at 8) {
        bundle_type = delta;
        continuity = record {
          prev_manifest_digest = some (zero_digest (1 ∷ []));
          base_manifest_digest = some (zero_digest (1 ∷ []));
          chain_length = 1;
        };
      })
      delta_records (20 ∷ [])

abbrev change : Bundle
change = record {
  header = empty_header;
  manifest = delta_manifest;
  manifest_bytes = 2 ∷ 2 ∷ [];
  seal_bytes = 48 ∷ [];
  index = delta_records;
  content = 20 ∷ [];
}

-- One payload is left.
abbrev progress : Progress
progress = record {
  working_set =
      (
        (repeat_byte 32 1, 0),
        record { payload = 20 ∷ []; flags = no_flags; window = delta_manifest.window },
      )
      ∷ [];
  prev_manifest_digest = zero_digest (2 ∷ 2 ∷ []);
  max_epoch = 8;
  stats = record { added = 0; replaced = 1; removed = 1; chain_length_warning = false } ∷ [];
}

abbrev window : Window
window = record {
  produced_at = 100;
  this_update_min = 100;
  next_update_min = 200;
  next_update_max = 200;
}

abbrev final_manifest : Manifest
final_manifest =
    seal_manifest zero_digest big_endian (materialized base_manifest progress window)
      (record one_record { data_length = 1 } ∷ []) (20 ∷ [])

-- A reader that knows the three manifests.
abbrev cbor : Cbor
cbor = record {
  into_writer = λ v. 3 ∷ [];
  from_reader = λ bytes.
      if beq_bytes bytes (1 ∷ [])
      then some (dict (root_entries base_manifest))
      else if beq_bytes bytes (2 ∷ 2 ∷ [])
      then some (dict (root_entries delta_manifest))
      else some (dict (root_entries final_manifest));
  uuid_from_slice = some;
}

base_manifest-IsEncodable : ManifestTrip.IsEncodable base_manifest
base_manifest-IsEncodable = ground arith

delta_manifest-IsEncodable : ManifestTrip.IsEncodable delta_manifest
delta_manifest-IsEncodable = ground arith

base_decoded : from_cbor cbor (1 ∷ []) ≡ ok base_manifest
unfolding from_cbor cmp_bytes hoike.Ahu.Manifest.Decode.read_root
base_decoded =
    from_cbor-to_cbor (cbor_of base_manifest) base_manifest base_manifest-IsEncodable refl refl

delta_decoded : from_cbor cbor (2 ∷ 2 ∷ []) ≡ ok delta_manifest
unfolding from_cbor cmp_bytes hoike.Ahu.Manifest.Decode.read_root
delta_decoded =
    from_cbor-to_cbor (cbor_of delta_manifest) delta_manifest delta_manifest-IsEncodable refl refl

final_manifest-IsEncodable : ManifestTrip.IsEncodable final_manifest
final_manifest-IsEncodable = ground arith

final_decoded : from_cbor cbor (3 ∷ []) ≡ ok final_manifest
unfolding from_cbor cmp_bytes hoike.Ahu.Manifest.Decode.read_root
final_decoded =
    from_cbor-to_cbor (cbor_of final_manifest) final_manifest final_manifest-IsEncodable refl refl

records-IsSorted : IsSorted records
unfolding cmp_bytes
records-IsSorted = ((refl, tt), (tt, tt))

delta_records-IsSorted : IsSorted delta_records
unfolding cmp_bytes
delta_records-IsSorted = ((refl, tt), (tt, tt))

base_accepted : verify_structure zero_digest big_endian cbor base ≡ ok accepted
unfolding verify_structure check_entries entry_bytes get_range to_cbor cmp_bytes
base_accepted =
    rw (base_decoded, verify_structure)
      (rw ((validate_sort_order_iff records).1 records-IsSorted, verify_structure) refl)

delta_accepted : verify_structure zero_digest big_endian cbor change ≡ ok accepted
unfolding verify_structure check_entries entry_bytes get_range to_cbor cmp_bytes
delta_accepted =
    rw (delta_decoded, verify_structure)
      (rw ((validate_sort_order_iff delta_records).1 delta_records-IsSorted, verify_structure) refl)

delta_applied :
    apply_delta zero_digest big_endian cbor base (start zero_digest big_endian cbor base) change
    ≡ ok progress
unfolding apply_delta retain_base apply_records apply_record insert remove get entry_bytes get_range
    cmp_bytes
delta_applied = rw (delta_accepted, apply_delta) refl

chain_applied :
    apply_deltas zero_digest big_endian cbor base
      (start zero_digest big_endian cbor base)
      (change ∷ [])
    ≡ ok progress
unfolding apply_deltas
chain_applied = rw (delta_applied, apply_deltas) refl

window_shared : validity base.manifest.window progress.working_set ≡ ok window
unfolding validity
window_shared = refl

abbrev final_records : List IndexRecord
final_records = record one_record { data_length = 1 } ∷ []

final_records-IsEncodable : All IndexTrip.IsEncodable final_records
final_records-IsEncodable = ground arith

abbrev result : ApplyResult
result = record {
  bytes =
      Header.write_to big_endian (header_of zero_digest 1 1 48 1)
      ++ (3 ∷ [] ++ (48 ∷ [] ++ (write_all big_endian final_records ++ 20 ∷ [])));
  entry_count = 1;
  final_epoch = 9;
  deltas = progress.stats;
}

sealed :
    apply_sealed zero_digest big_endian cbor base (change ∷ []) (λ bytes. ok (48 ∷ [])) ≡ ok result
unfolding apply_sealed validity build place place_entry sort_entries insert_entry to_cbor cmp_bytes
sealed =
    rw (base_accepted, apply_sealed)
      (rw (chain_applied, apply_sealed)
        (rw (length-write_all big_endian final_records final_records-IsEncodable) refl))

final-IsNamed : All IsNamed (entries_of progress.working_set)
final-IsNamed = ground arith

final-IsInjective : IsInjective zero_digest (IsAdded (entries_of progress.working_set))
final-IsInjective p q a b h = elim a [
  | inl x ↦ elim b [ inl y ↦ sym x ∙ y | inr y ↦ elim y [ ] ]
  | inr x ↦ elim x [ ]
]

built_decoded :
    from_cbor cbor (
      manifest_bytes_of zero_digest big_endian cbor
        (builder_of zero_digest big_endian cbor base progress window))
    ≡ ok (
        manifest_of zero_digest big_endian cbor
          (builder_of zero_digest big_endian cbor base progress window))
unfolding to_cbor place place_entry sort_entries insert_entry cmp_bytes
built_decoded = final_decoded

final-IsShort :
    IsShort zero_digest big_endian cbor
      (builder_of zero_digest big_endian cbor base progress window)
      (48 ∷ [])
unfolding to_cbor place place_entry sort_entries insert_entry cmp_bytes
final-IsShort = omega (arith, length-write_all big_endian final_records final_records-IsEncodable)

apply_sealed-after_deltas_example :
    (built : Bundle) × (from_bytes big_endian cbor result.bytes ≡ ok built)
    × ((k : List ℕ)
        → lookup built k
          ≡ and_then
              (after_deltas
                (in_base base (k, alg_disc_default))
                (change ∷ [])
                (k, alg_disc_default))
              (λ v. some v.payload))
apply_sealed-after_deltas_example =
    apply_sealed-after_deltas zero_digest big_endian cbor base (change ∷ []) (λ bytes. ok (48 ∷ []))
      (48 ∷ []) progress window result chain_applied window_shared sealed final-IsNamed
      final-IsInjective refl built_decoded final-IsShort

-- The same payloads in the other order.
abbrev moved : Bundle
moved = record base {
  index = record one_record { data_offset = 2 } ∷ record other_record { data_offset = 0 } ∷ [];
  content = 13 ∷ 14 ∷ 10 ∷ 11 ∷ 12 ∷ [];
}

moved-IsSorted : IsSorted moved.index
unfolding cmp_bytes
moved-IsSorted = ((refl, tt), (tt, tt))

unmoved :
    ((diff base moved).added ≡ [])
    × ((diff base moved).removed ≡ [])
    × ((diff base moved).changed ≡ [])
unfolding diff cmp_bytes binary_search_with_discriminator binary_search_by narrow probe entry_at
    get_range
unmoved = (refl, refl, refl)

diff-data_of_example : data_of base (repeat_byte 32 1, 3) ≡ data_of moved (repeat_byte 32 1, 3)
diff-data_of_example =
    diff-data_of base moved (repeat_byte 32 1, 3) records-IsSorted moved-IsSorted unmoved.0
      unmoved.1 unmoved.2
