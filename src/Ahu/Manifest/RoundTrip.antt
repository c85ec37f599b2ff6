-- ===== src/Ahu/Manifest/RoundTrip.antt =====
-- `Manifest::to_cbor` and `Manifest::from_cbor` of crates/ahu/src/manifest.rs together.
use hoike.Base.{
  ℕ, ◌^◌, ◌<◌, ◌≡◌, refl, ap, subst, List, [], ◌∷◌, arith, Option, none, some, ok, Option-cases,
  inl, inr, false, ◌==◌, ◌>>=◌, length, All,
}
use hoike.Ahu.Cbor.{Value, Entries, Cbor, dict, end}
use hoike.Ahu.Manifest.{
  ResponderId, CaScope, Window, Integrity, Continuity, Shard, Compression, Manifest,
}
use hoike.Ahu.Manifest.Encode.{
  responder_id_entries, chain_items, scope_entries, scope_items, window_entries, integrity_entries,
  continuity_entries, shard_entries, compression_entries, extension_entries, optional_entries,
  root_entries, to_cbor, push_opt,
}
use hoike.Ahu.Manifest.Fields.{
  find_key, get_uint, get_bytes, get_text, get_map, get_array, get_optional_map,
}
use hoike.Ahu.Manifest.Decode.{
  bundle_type_of, read_responder_id, read_certs, read_chain, read_scope, read_scopes, read_window,
  read_integrity, read_continuity, read_shard, read_compression, read_extensions, read_root,
  from_cbor, transpose, extensions_of,
}

-- A digest is 32 bytes, if it is there.
abbrev pub IsDigest : Option (List ℕ) → Type 0
IsDigest none = Unit
IsDigest (some d) = length d ≡ 32

abbrev pub IsU64 : ℕ → Type 0
IsU64 n = n < 2 ^ 64

pub record IsWindow (w : Window) : Type 0 where
  pub produced_at : IsU64 w.produced_at
  pub this_update_min : IsU64 w.this_update_min
  pub next_update_min : IsU64 w.next_update_min
  pub next_update_max : IsU64 w.next_update_max

read_window_lem : (w : Window) → IsWindow w → read_window (window_entries w) ≡ ok w
unfolding window_entries read_window
read_window_lem w h = ground arith

read_responder_id_lem : (r : ResponderId) → read_responder_id (responder_id_entries r) ≡ ok r
unfolding responder_id_entries read_responder_id
read_responder_id_lem r = ground arith

read_certs_lem : (cs : List (List ℕ)) → read_certs (chain_items cs) ≡ ok cs
unfolding read_certs chain_items
read_certs_lem [] = refl
read_certs_lem (c ∷ cs) = rw (read_certs_lem cs, ◌>>=◌)

pub record IsScope (s : CaScope) : Type 0 where
  pub epoch : IsU64 s.epoch

read_chain_lem : (s : CaScope) → read_chain (scope_entries s) none ≡ ok s.responder_chain
unfolding read_chain scope_entries
read_chain_lem s = elim (Option-cases s.responder_chain) [
  | inl e ↦ rw (e, push_opt)
  | inr (chain, e) ↦ rw (e, push_opt) (rw (read_certs_lem chain, ◌>>=◌))
]

read_scope_lem : (s : CaScope) → IsScope s → read_scope (scope_entries s) ≡ ok s
unfolding read_scope
read_scope_lem s h =
    rw (read_chain_lem s, ◌>>=◌)
      (unfold scope_entries in ground (arith, read_responder_id_lem s.responder_id))

read_scopes_lem : (ss : List CaScope) → All IsScope ss → read_scopes (scope_items ss) ≡ ok ss
unfolding read_scopes scope_items
read_scopes_lem [] h = refl
read_scopes_lem (s ∷ ss) h = ground (arith, read_scope_lem s h.0, read_scopes_lem ss h.1)

pub record IsIntegrity (i : Integrity) : Type 0 where
  pub index_digest : length i.index_digest ≡ 32
  pub data_digest : length i.data_digest ≡ 32

read_integrity_lem : (i : Integrity) → IsIntegrity i → read_integrity (integrity_entries i) ≡ ok i
unfolding read_integrity integrity_entries
read_integrity_lem i h = ground arith

pub record IsContinuity (c : Continuity) : Type 0 where
  pub prev : IsDigest c.prev_manifest_digest
  pub base : IsDigest c.base_manifest_digest
  pub chain_length : IsU64 c.chain_length

read_continuity_lem :
    (c : Continuity) → IsContinuity c → read_continuity (continuity_entries c) ≡ ok c
unfolding read_continuity continuity_entries
read_continuity_lem c h = ground (arith, h.prev, h.base)

pub record IsShard (s : Shard) : Type 0 where
  pub shard_index : IsU64 s.shard_index
  pub shard_count : IsU64 s.shard_count
  pub shard_fn : IsU64 s.shard_fn

read_shard_lem : (s : Shard) → IsShard s → read_shard (shard_entries s) ≡ ok s
unfolding read_shard shard_entries
read_shard_lem s h = ground arith

read_compression_lem :
    (c : Compression)
    → IsDigest c.dictionary_digest
    → read_compression (compression_entries c) ≡ ok c
unfolding read_compression compression_entries
read_compression_lem c h = ground arith

read_extensions_lem : (xs : List (List ℕ × Value)) → read_extensions (extension_entries xs) ≡ xs
unfolding read_extensions extension_entries
read_extensions_lem [] = refl
read_extensions_lem ((k, v) ∷ xs) = ap (◌∷◌ (k, v)) (read_extensions_lem xs)

-- A condition on what an option holds.
abbrev pub OfSome {ℓ κ} : {A : Type ℓ} → (A → Type κ) → Option A → Type κ
OfSome P none = Unit
OfSome P (some a) = P a

-- An optional entry of another key is passed over.
find_key-push_opt {ℓ} :
    {A : Type ℓ} (k j : ℕ) (f : A → Value) (o : Option A) (rest : Entries)
    → (k == j) ≡ false
    → find_key (push_opt k f o rest) j ≡ find_key rest j
unfolding find_key
find_key-push_opt k j f none rest h = refl
find_key-push_opt k j f (some a) rest h = rw h

module _ (m : Manifest) where
  get_shard :
      OfSome IsShard m.shard
      → transpose read_shard (get_optional_map (root_entries m) 11) ≡ ok m.shard
  unfolding get_optional_map root_entries optional_entries
  get_shard h = elim (Option-cases m.shard) [
    | inl e ↦ ground arith
    | inr (a, e) ↦ rw e (rw (read_shard_lem a (subst (OfSome IsShard) e h), ◌>>=◌))
  ]

  past_shard :
      (key : ℕ)
      → (11 == key) ≡ false
      → find_key (optional_entries m.shard m.compression m.extensions) key
        ≡ find_key
            (push_opt 12
              (λ c. dict (compression_entries c))
              m.compression
              (push_opt 13 (λ exts. dict (extension_entries exts)) m.extensions end))
            key
  unfolding optional_entries
  past_shard key h = find_key-push_opt 11 key _ m.shard _ h

  get_compression :
      OfSome (λ (k : Compression). IsDigest k.dictionary_digest) m.compression
      → transpose read_compression (get_optional_map (root_entries m) 12) ≡ ok m.compression
  unfolding get_optional_map root_entries
  get_compression h =
      rw (past_shard 12 refl, get_optional_map)
        (elim (Option-cases m.compression) [
          | inl e ↦ ground arith
          | inr (a, e) ↦ rw e (
              rw (
                read_compression_lem a
                    (subst (OfSome (λ (k : Compression). IsDigest k.dictionary_digest)) e h),
                ◌>>=◌,
              ))
        ])

  get_extensions : extensions_of (get_optional_map (root_entries m) 13) ≡ m.extensions
  unfolding get_optional_map root_entries
  get_extensions =
      rw (past_shard 13 refl, get_optional_map)
        (rw
          (
            find_key-push_opt 12 13 (λ (c : Compression). dict (compression_entries c))
                m.compression _ refl,
            get_optional_map,
          )
          (elim (Option-cases m.extensions) [
            | inl e ↦ ground arith
            | inr (xs, e) ↦ rw e (ap some (read_extensions_lem xs))
          ]))

-- What the field types of the source guarantee: u64 numbers and 32-byte digests.
pub record IsEncodable (m : Manifest) : Type 0 where
  pub format_version : IsU64 m.format_version
  pub created_at : IsU64 m.created_at
  pub ca_scopes : All IsScope m.ca_scopes
  pub window : IsWindow m.window
  pub integrity : IsIntegrity m.integrity
  pub entry_count : IsU64 m.entry_count
  pub continuity : IsContinuity m.continuity
  pub shard : OfSome IsShard m.shard
  pub compression : OfSome (λ (k : Compression). IsDigest k.dictionary_digest) m.compression

read_root_lem :
    (cbor : Cbor) (m : Manifest)
    → IsEncodable m
    → cbor.uuid_from_slice m.bundle_id ≡ some m.bundle_id
    → read_root cbor (root_entries m) ≡ ok m
unfolding read_root root_entries get_uint get_bytes get_text get_map get_array bundle_type_of
read_root_lem cbor m h u = ground (
  arith,
  read_scopes_lem m.ca_scopes h.ca_scopes,
  read_window_lem m.window h.window,
  read_integrity_lem m.integrity h.integrity,
  read_continuity_lem m.continuity h.continuity,
  get_shard m h.shard,
  get_compression m h.compression,
  get_extensions m,
)

-- A manifest whose fields have the source's widths is decoded from its own encoding, where the CBOR
-- crate reads back the value that it wrote and the UUID crate accepts the manifest's 16 bytes.
pub from_cbor-to_cbor :
    (cbor : Cbor) (m : Manifest)
    → IsEncodable m
    → cbor.from_reader (to_cbor cbor m) ≡ some (dict (root_entries m))
    → cbor.uuid_from_slice m.bundle_id ≡ some m.bundle_id
    → from_cbor cbor (to_cbor cbor m) ≡ ok m
unfolding from_cbor
from_cbor-to_cbor cbor m h r u = ground (arith, read_root_lem cbor m h u)
