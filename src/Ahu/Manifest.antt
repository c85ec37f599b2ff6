-- ===== src/Ahu/Manifest.antt =====
-- crates/ahu/src/manifest.rs: the manifest of a bundle. Texts are their UTF-8 bytes.
pub mod Encode
pub mod Fields
pub mod Decode
pub mod RoundTrip
use hoike.Base.{ℕ, List, Option}
use hoike.Ahu.Cbor.{Value}

pub data BundleType : Type 0 where
  full delta : BundleType

pub data Completeness : Type 0 where
  partial authoritative_complete : Completeness

pub data ResponderIdType : Type 0 where
  by_name by_key : ResponderIdType

pub record ResponderId : Type 0 where
  pub id_type : ResponderIdType
  pub value : List ℕ

pub record CaScope : Type 0 where
  pub hash_algorithm : List ℕ
  pub issuer_name_hash : List ℕ
  pub issuer_key_hash : List ℕ
  pub epoch : ℕ
  pub responder_id : ResponderId
  pub responder_chain : Option (List (List ℕ))
  pub signature_algorithm : List ℕ
  pub completeness : Completeness

pub record Window : Type 0 where
  pub produced_at : ℕ
  pub this_update_min : ℕ
  pub next_update_min : ℕ
  pub next_update_max : ℕ

pub record Integrity : Type 0 where
  pub index_digest : List ℕ
  pub data_digest : List ℕ

pub record Continuity : Type 0 where
  pub prev_manifest_digest : Option (List ℕ)
  pub base_manifest_digest : Option (List ℕ)
  pub chain_length : ℕ

pub record Shard : Type 0 where
  pub shard_index : ℕ
  pub shard_count : ℕ
  pub shard_fn : ℕ

pub data CompressionAlgorithm : Type 0 where
  uncompressed zstd : CompressionAlgorithm

pub record Compression : Type 0 where
  pub algorithm : CompressionAlgorithm
  pub dictionary_digest : Option (List ℕ)

pub record Manifest : Type 0 where
  pub format_version : ℕ
  pub bundle_id : List ℕ
  pub producer_id : List ℕ
  pub created_at : ℕ
  pub bundle_type : BundleType
  pub ca_scopes : List CaScope
  pub window : Window
  pub integrity : Integrity
  pub entry_count : ℕ
  pub continuity : Continuity
  pub shard : Option Shard
  pub compression : Option Compression
  pub extensions : Option (List (List ℕ × Value))
