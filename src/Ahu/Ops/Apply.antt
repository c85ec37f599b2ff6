-- ===== src/Ahu/Ops/Apply.antt =====
-- `apply` and `apply_sealed` of crates/ahu/src/ops.rs.
use hoike.Base.{
  ◌++◌, ℕ, ◌+◌, ◌^◌, List, [], ◌∷◌, Bool, true, false, not, ◌&&◌, ◌||◌, Option, none, some, ok,
  guard, ◌>>=◌, ◌>>◌, if◌then◌else◌, ltb, length, beq_bytes, min,
}
use hoike.Ahu.Error.{AhuResult, invalid_operation}
use hoike.Ahu.Wire.{Codec}
use hoike.Ahu.Cbor.{Cbor}
use hoike.Ahu.Manifest.{Manifest, CaScope, Window, full}
use hoike.Ahu.Bundle.{Bundle}
use hoike.Ahu.Build.{Builder, new_builder, add_entry_with_discriminator, build}
use hoike.Ahu.Verify.{verify_structure, manifest_digest, is_delta}
use hoike.Ahu.Ops.{WorkingSet, retain_base, apply_records}

pub record DeltaStat : Type 0 where
  pub added : ℕ
  pub replaced : ℕ
  pub removed : ℕ
  pub chain_length_warning : Bool

pub record ApplyResult : Type 0 where
  pub bytes : List ℕ
  pub entry_count : ℕ
  pub final_epoch : ℕ
  pub deltas : List DeltaStat

abbrev pub max_chain_length : ℕ
max_chain_length = 24

abbrev beq_scope : CaScope → CaScope → Bool
beq_scope s t =
    beq_bytes s.hash_algorithm t.hash_algorithm
    && beq_bytes s.issuer_name_hash t.issuer_name_hash
    && beq_bytes s.issuer_key_hash t.issuer_key_hash

abbrev has_scope : List CaScope → CaScope → Bool
has_scope [] s = false
has_scope (t ∷ ts) s = beq_scope t s || has_scope ts s

abbrev within : List CaScope → List CaScope → Bool
within [] ts = true
within (s ∷ ss) ts = has_scope ts s && within ss ts

-- The sets of issuers are the same.
abbrev pub same_scopes : Bundle → Bundle → Bool
same_scopes a b =
    within a.manifest.ca_scopes b.manifest.ca_scopes
    && within b.manifest.ca_scopes a.manifest.ca_scopes

abbrev pub max_epoch_of : ℕ → List CaScope → ℕ
max_epoch_of m [] = m
max_epoch_of m (s ∷ ss) = max_epoch_of (if ltb m s.epoch then s.epoch else m) ss

abbrev pub is_digest : Option (List ℕ) → List ℕ → Bool
is_digest none d = false
is_digest (some e) d = beq_bytes e d

-- `if let Some(ref prev_digest)`: a delta without one is not compared.
abbrev pub follows : Option (List ℕ) → List ℕ → Bool
follows none d = true
follows (some e) d = beq_bytes e d

-- The state of the loop over the deltas.
pub record Progress : Type 0 where
  pub working_set : WorkingSet
  pub prev_manifest_digest : List ℕ
  pub max_epoch : ℕ
  pub stats : List DeltaStat

abbrev pub inconsistent : WorkingSet → Bool
inconsistent [] = false
inconsistent ((n, v) ∷ rest) =
    ltb v.window.next_update_min v.window.this_update_min
    || ltb v.window.next_update_max v.window.next_update_min
    || inconsistent rest

-- The window that all of the retained payloads share.
abbrev pub share : Window → WorkingSet → Window
share w [] = w
share w ((n, v) ∷ rest) =
    share
      (record {
        produced_at =
            if ltb w.produced_at v.window.produced_at then v.window.produced_at else w.produced_at;
        this_update_min = min w.this_update_min v.window.this_update_min;
        next_update_min = min w.next_update_min v.window.next_update_min;
        next_update_max = min w.next_update_min v.window.next_update_min;
      })
      rest

unfoldable pub validity : Window → WorkingSet → AhuResult Window
validity w [] = ok w
validity w ((n, v) ∷ rest) = do
  guard (not (inconsistent ((n, v) ∷ rest))) invalid_operation
  let shared = share (record v.window { next_update_max = v.window.next_update_min }) rest
  guard (ltb shared.produced_at shared.next_update_min) invalid_operation
  ok shared

abbrev with_epoch : ℕ → List CaScope → List CaScope
with_epoch epoch [] = []
with_epoch epoch (s ∷ ss) = record s { epoch = epoch } ∷ with_epoch epoch ss

-- The manifest of the full bundle, before `build` computes its digests.
abbrev pub materialized : Manifest → Progress → Window → Manifest
materialized m p window = record m {
  bundle_type = full;
  ca_scopes = with_epoch (p.max_epoch + 1) m.ca_scopes;
  window = window;
  continuity = record {
    prev_manifest_digest = some p.prev_manifest_digest;
    base_manifest_digest = none;
    chain_length = 0;
  };
}

abbrev pub add_all : Builder → WorkingSet → Builder
add_all b [] = b
add_all b ((n, v) ∷ rest) = add_all (add_entry_with_discriminator b n.0 n.1 v.payload) rest

module _ (sha256 : List ℕ → List ℕ) (c : Codec) (cbor : Cbor) where
  unfoldable pub apply_delta : Bundle → Progress → Bundle → AhuResult Progress
  unfolding apply_records
  apply_delta base p d = do
    guard (is_delta d.manifest.bundle_type) invalid_operation
    verify_structure sha256 c cbor d
    guard
        (is_digest d.manifest.continuity.base_manifest_digest
          (manifest_digest sha256 base.manifest_bytes))
        invalid_operation
    guard (beq_bytes d.manifest.producer_id base.manifest.producer_id && same_scopes d base)
        invalid_operation
    guard (follows d.manifest.continuity.prev_manifest_digest p.prev_manifest_digest)
        invalid_operation
    let (working_set, added, replaced, removed) = apply_records d p.working_set (0, 0, 0) d.index
    ok (record {
      working_set = working_set;
      prev_manifest_digest = manifest_digest sha256 d.manifest_bytes;
      max_epoch = max_epoch_of p.max_epoch d.manifest.ca_scopes;
      stats =
          p.stats
          ++ record {
            added = added;
            replaced = replaced;
            removed = removed;
            chain_length_warning = ltb max_chain_length d.manifest.continuity.chain_length;
          }
            ∷ [];
    })

  unfoldable pub apply_deltas : Bundle → Progress → List Bundle → AhuResult Progress
  apply_deltas base p [] = ok p
  apply_deltas base p (d ∷ ds) = do next ← apply_delta base p d; apply_deltas base next ds

  abbrev pub start : Bundle → Progress
  start base = record {
    working_set = retain_base base [] base.index;
    prev_manifest_digest = manifest_digest sha256 base.manifest_bytes;
    max_epoch = max_epoch_of 0 base.manifest.ca_scopes;
    stats = [];
  }

  unfoldable pub apply_sealed :
      Bundle → List Bundle → (List ℕ → AhuResult (List ℕ)) → AhuResult ApplyResult
  unfolding apply_deltas validity
  apply_sealed base deltas seal_fn = do
    verify_structure sha256 c cbor base
    guard (not (is_delta base.manifest.bundle_type)) invalid_operation
    p ← apply_deltas base (start base) deltas
    guard (ltb (p.max_epoch + 1) (2 ^ 64)) invalid_operation
    window ← validity base.manifest.window p.working_set
    bytes ←
        build sha256 c cbor seal_fn
          (add_all (new_builder (materialized base.manifest p window)) p.working_set)
    ok (record {
      bytes = bytes;
      entry_count = length p.working_set;
      final_epoch = p.max_epoch + 1;
      deltas = p.stats;
    })

  -- An unsigned intermediate, with an empty seal.
  unfoldable pub apply : Bundle → List Bundle → AhuResult ApplyResult
  unfolding apply_sealed
  apply base deltas = apply_sealed base deltas λ bytes. ok []
