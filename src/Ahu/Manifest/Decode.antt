-- ===== src/Ahu/Manifest/Decode.antt =====
-- `Manifest::from_cbor`, part by part.
use hoike.Base.{ℕ, List, [], ◌∷◌, Option, none, some, ok, err, ok_or, ◌>>=◌, ◌==◌, if◌then◌else◌}
use hoike.Ahu.Error.{AhuResult, manifest_decode, manifest_field}
use hoike.Ahu.Cbor.{Value, Items, Entries, Cbor, text, array, nil, cons, end, entry}
use hoike.Ahu.Manifest.{
  BundleType, Completeness, ResponderIdType, ResponderId, CaScope, Window, Integrity, Continuity,
  Shard, CompressionAlgorithm, Compression, Manifest, full, delta, partial, authoritative_complete,
  by_name, by_key, uncompressed, zstd,
}
use hoike.Ahu.Manifest.Fields.{
  is_key, as_bytes, as_map, to_fixed_32, get_uint, get_bytes, get_text, get_map, get_array,
  get_optional_digest, get_optional_map,
}

unfoldable pub bundle_type_of : ℕ → AhuResult BundleType
bundle_type_of n = if n == 0 then ok full else if n == 1 then ok delta else err manifest_field

unfoldable pub completeness_of : ℕ → AhuResult Completeness
completeness_of n =
    if n == 0 then ok partial else if n == 1 then ok authoritative_complete else err manifest_field

unfoldable pub responder_id_type_of : ℕ → AhuResult ResponderIdType
responder_id_type_of n =
    if n == 0 then ok by_name else if n == 1 then ok by_key else err manifest_field

unfoldable pub compression_of : ℕ → AhuResult CompressionAlgorithm
compression_of n =
    if n == 0 then ok uncompressed else if n == 1 then ok zstd else err manifest_field

unfoldable pub read_responder_id : Entries → AhuResult ResponderId
unfolding get_uint get_bytes responder_id_type_of
read_responder_id m = do
  code ← get_uint m 1
  id_type ← responder_id_type_of code
  value ← get_bytes m 2
  ok (record { id_type = id_type; value = value })

unfoldable pub read_certs : Items → AhuResult (List (List ℕ))
unfolding as_bytes
read_certs nil = ok []
read_certs (cons c rest) = do b ← as_bytes c; bs ← read_certs rest; ok (b ∷ bs)

-- One round of the loop over the scope's entries: an array under key 6 replaces the chain.
chain_entry : Value → Value → Option (List (List ℕ)) → AhuResult (Option (List (List ℕ)))
unfolding read_certs
chain_entry k (array arr) chain =
    if is_key k 6 then (do certs ← read_certs arr; ok (some certs)) else ok chain
chain_entry k _ chain = ok chain

unfoldable pub read_chain : Entries → Option (List (List ℕ)) → AhuResult (Option (List (List ℕ)))
unfolding chain_entry
read_chain end chain = ok chain
read_chain (entry k v rest) chain = do chain' ← chain_entry k v chain; read_chain rest chain'

unfoldable pub read_scope : Entries → AhuResult CaScope
unfolding get_map get_bytes get_uint completeness_of
read_scope m = do
  rid_map ← get_map m 5
  responder_id ← read_responder_id rid_map
  responder_chain ← read_chain m none
  hash_algorithm ← get_bytes m 1
  issuer_name_hash ← get_bytes m 2
  issuer_key_hash ← get_bytes m 3
  epoch ← get_uint m 4
  signature_algorithm ← get_bytes m 7
  code ← get_uint m 8
  completeness ← completeness_of code
  ok (record {
    hash_algorithm = hash_algorithm;
    issuer_name_hash = issuer_name_hash;
    issuer_key_hash = issuer_key_hash;
    epoch = epoch;
    responder_id = responder_id;
    responder_chain = responder_chain;
    signature_algorithm = signature_algorithm;
    completeness = completeness;
  })

unfoldable pub read_scopes : Items → AhuResult (List CaScope)
unfolding as_map
read_scopes nil = ok []
read_scopes (cons v rest) = do
  m ← ok_or (as_map v) manifest_field
  s ← read_scope m
  ss ← read_scopes rest
  ok (s ∷ ss)

unfoldable pub read_window : Entries → AhuResult Window
unfolding get_uint
read_window m = do
  produced_at ← get_uint m 1
  this_update_min ← get_uint m 2
  next_update_min ← get_uint m 3
  next_update_max ← get_uint m 4
  ok (record {
    produced_at = produced_at;
    this_update_min = this_update_min;
    next_update_min = next_update_min;
    next_update_max = next_update_max;
  })

unfoldable pub read_integrity : Entries → AhuResult Integrity
unfolding get_bytes to_fixed_32
read_integrity m = do
  index_bytes ← get_bytes m 1
  index_digest ← to_fixed_32 index_bytes
  data_bytes ← get_bytes m 2
  data_digest ← to_fixed_32 data_bytes
  ok (record { index_digest = index_digest; data_digest = data_digest })

unfoldable pub read_continuity : Entries → AhuResult Continuity
unfolding get_optional_digest get_uint
read_continuity m = do
  prev ← get_optional_digest m 1
  base ← get_optional_digest m 2
  chain_length ← get_uint m 3
  ok (record {
    prev_manifest_digest = prev;
    base_manifest_digest = base;
    chain_length = chain_length;
  })

-- `opt.map(f).transpose()?`
abbrev pub transpose {ℓ κ} :
    {A : Type ℓ} {B : Type κ} → (A → AhuResult B) → Option A → AhuResult (Option B)
transpose f none = ok none
transpose f (some a) = do b ← f a; ok (some b)

unfoldable pub read_shard : Entries → AhuResult Shard
unfolding get_uint
read_shard m = do
  shard_index ← get_uint m 1
  shard_count ← get_uint m 2
  shard_fn ← get_uint m 3
  ok (record { shard_index = shard_index; shard_count = shard_count; shard_fn = shard_fn })

unfoldable pub read_compression : Entries → AhuResult Compression
unfolding get_uint compression_of get_optional_digest
read_compression m = do
  code ← get_uint m 1
  algorithm ← compression_of code
  dictionary_digest ← get_optional_digest m 2
  ok (record { algorithm = algorithm; dictionary_digest = dictionary_digest })

-- Entries of the extension map whose key is no text are left out.
unfoldable pub read_extensions : Entries → List (List ℕ × Value)
read_extensions end = []
read_extensions (entry (text k) v rest) = (k, v) ∷ read_extensions rest
read_extensions (entry _ v rest) = read_extensions rest

abbrev pub extensions_of : Option Entries → Option (List (List ℕ × Value))
extensions_of none = none
extensions_of (some e) = some (read_extensions e)

unfoldable pub read_root : Cbor → Entries → AhuResult Manifest
read_root cbor m = do
  format_version ← get_uint m 1
  id_bytes ← get_bytes m 2
  bundle_id ← ok_or (cbor.uuid_from_slice id_bytes) manifest_field
  producer_id ← get_text m 3
  created_at ← get_uint m 4
  type_code ← get_uint m 5
  bundle_type ← bundle_type_of type_code
  scope_array ← get_array m 6
  ca_scopes ← read_scopes scope_array
  window_map ← get_map m 7
  window ← read_window window_map
  integrity_map ← get_map m 8
  integrity ← read_integrity integrity_map
  entry_count ← get_uint m 9
  continuity_map ← get_map m 10
  continuity ← read_continuity continuity_map
  shard ← transpose read_shard (get_optional_map m 11)
  compression ← transpose read_compression (get_optional_map m 12)
  ok (record {
    format_version = format_version;
    bundle_id = bundle_id;
    producer_id = producer_id;
    created_at = created_at;
    bundle_type = bundle_type;
    ca_scopes = ca_scopes;
    window = window;
    integrity = integrity;
    entry_count = entry_count;
    continuity = continuity;
    shard = shard;
    compression = compression;
    extensions = extensions_of (get_optional_map m 13);
  })

unfoldable pub from_cbor : Cbor → List ℕ → AhuResult Manifest
unfolding as_map
from_cbor cbor input = do
  v ← ok_or (cbor.from_reader input) manifest_decode
  m ← ok_or (as_map v) manifest_decode
  read_root cbor m
