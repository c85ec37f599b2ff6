-- ===== src/Ahu/Manifest/Encode.antt =====
-- `Manifest::to_cbor`: the deterministic encoding, one value for each part.
use hoike.Base.{ℕ, List, [], ◌∷◌, Option, none, some}
use hoike.Ahu.Cbor.{
  Value, Items, Entries, Cbor, integer, bytes, text, array, dict, nil, cons, end, entry, pos,
}
use hoike.Ahu.Manifest.{
  BundleType, Completeness, ResponderIdType, ResponderId, CaScope, Window, Integrity, Continuity,
  Shard, CompressionAlgorithm, Compression, Manifest, full, delta, partial, authoritative_complete,
  by_name, by_key, uncompressed, zstd,
}

abbrev pub uint : ℕ → Value
uint n = integer (pos n)

-- The enums' representations, `as u8`.
abbrev pub bundle_type_code : BundleType → ℕ
bundle_type_code full = 0
bundle_type_code delta = 1

abbrev pub completeness_code : Completeness → ℕ
completeness_code partial = 0
completeness_code authoritative_complete = 1

abbrev pub responder_id_code : ResponderIdType → ℕ
responder_id_code by_name = 0
responder_id_code by_key = 1

abbrev pub compression_code : CompressionAlgorithm → ℕ
compression_code uncompressed = 0
compression_code zstd = 1

unfoldable pub responder_id_entries : ResponderId → Entries
responder_id_entries rid =
    entry (uint 1) (uint (responder_id_code rid.id_type)) (entry (uint 2) (bytes rid.value) end)

unfoldable pub chain_items : List (List ℕ) → Items
chain_items [] = nil
chain_items (c ∷ cs) = cons (bytes c) (chain_items cs)

-- An entry that is pushed only if the option is set.
abbrev pub push_opt {ℓ} : {A : Type ℓ} → ℕ → (A → Value) → Option A → Entries → Entries
push_opt key f (some a) rest = entry (uint key) (f a) rest
push_opt key f none rest = rest

unfoldable pub scope_entries : CaScope → Entries
unfolding responder_id_entries chain_items
scope_entries s = entry (uint 1) (bytes s.hash_algorithm) (
    entry (uint 2) (bytes s.issuer_name_hash) (
      entry (uint 3) (bytes s.issuer_key_hash) (
        entry (uint 4) (uint s.epoch) (
          entry (uint 5) (dict (responder_id_entries s.responder_id)) (
            push_opt 6 (λ chain. array (chain_items chain)) s.responder_chain
              (entry (uint 7) (bytes s.signature_algorithm)
                (entry (uint 8) (uint (completeness_code s.completeness)) end)))))))

unfoldable pub scope_items : List CaScope → Items
scope_items [] = nil
scope_items (s ∷ ss) = cons (dict (scope_entries s)) (scope_items ss)

unfoldable pub window_entries : Window → Entries
window_entries w = entry (uint 1) (uint w.produced_at) (
    entry (uint 2) (uint w.this_update_min)
      (entry (uint 3) (uint w.next_update_min) (entry (uint 4) (uint w.next_update_max) end)))

unfoldable pub integrity_entries : Integrity → Entries
integrity_entries i =
    entry (uint 1) (bytes i.index_digest) (entry (uint 2) (bytes i.data_digest) end)

unfoldable pub continuity_entries : Continuity → Entries
continuity_entries c =
    push_opt 1 bytes c.prev_manifest_digest
      (push_opt 2 bytes c.base_manifest_digest (entry (uint 3) (uint c.chain_length) end))

unfoldable pub shard_entries : Shard → Entries
shard_entries s =
    entry (uint 1) (uint s.shard_index)
      (entry (uint 2) (uint s.shard_count) (entry (uint 3) (uint s.shard_fn) end))

unfoldable pub compression_entries : Compression → Entries
compression_entries c =
    entry (uint 1) (uint (compression_code c.algorithm)) (push_opt 2 bytes c.dictionary_digest end)

unfoldable pub extension_entries : List (List ℕ × Value) → Entries
extension_entries [] = end
extension_entries ((k, v) ∷ rest) = entry (text k) v (extension_entries rest)

unfoldable pub optional_entries :
    Option Shard → Option Compression → Option (List (List ℕ × Value)) → Entries
optional_entries shard compression extensions =
    push_opt 11 (λ s. dict (shard_entries s)) shard
      (push_opt 12 (λ c. dict (compression_entries c)) compression
        (push_opt 13 (λ exts. dict (extension_entries exts)) extensions end))

unfoldable pub root_entries : Manifest → Entries
root_entries m = entry (uint 1) (uint m.format_version) (
    entry (uint 2) (bytes m.bundle_id) (
      entry (uint 3) (text m.producer_id) (
        entry (uint 4) (uint m.created_at) (
          entry (uint 5) (uint (bundle_type_code m.bundle_type)) (
            entry (uint 6) (array (scope_items m.ca_scopes)) (
              entry (uint 7) (dict (window_entries m.window)) (
                entry (uint 8) (dict (integrity_entries m.integrity)) (
                  entry (uint 9) (uint m.entry_count) (
                    entry (uint 10) (dict (continuity_entries m.continuity))
                      (optional_entries m.shard m.compression m.extensions))))))))))

unfoldable pub to_cbor : Cbor → Manifest → List ℕ
to_cbor cbor m = cbor.into_writer (dict (root_entries m))
