-- ===== src/Ahu/Verify/Sound.antt =====
-- The conditions that `verify_structure` of crates/ahu/src/verify.rs checks.
use hoike.Base.{
  ℕ, ◌≡◌, ◌≢◌, List, [], ◌∷◌, true, false, none, some, ok, arith, Option-cases, Result-cases, inl,
  inr, All, beq_bytes, beq_bytes-true,
}
use hoike.Ahu.Wire.{Codec}
use hoike.Ahu.Cbor.{Cbor}
use hoike.Ahu.Index.{IndexRecord, is_tombstone, write_all, validate_sort_order}
use hoike.Ahu.Index.Order.{IsSorted, validate_sort_order_iff}
use hoike.Ahu.Manifest.{Manifest, delta}
use hoike.Ahu.Manifest.Encode.{to_cbor}
use hoike.Ahu.Manifest.Decode.{from_cbor}
use hoike.Ahu.Bundle.{Bundle, entry_bytes}
use hoike.Ahu.Verify.{VerifyResult, check_entries, verify_structure}

-- A record's range lies in the data section, unless it is a tombstone.
abbrev pub HasEntry : Bundle → IndexRecord → Type 0
HasEntry b r = is_tombstone r ≡ false → (d : List ℕ) × (entry_bytes b r ≡ some d)

check_entries_sound :
    (b : Bundle) (rs : List IndexRecord) → check_entries b rs ≡ ok tt → All (HasEntry b) rs
unfolding check_entries
check_entries_sound b [] h = tt
check_entries_sound b (r ∷ rs) h = (
  λ live. elim (Option-cases (entry_bytes b r)) [
    | inl e ↦ absurd (ground arith)
    | inr (d, e) ↦ (d, e)
  ],
  check_entries_sound b rs (ground arith),
)

module _ (sha256 : List ℕ → List ℕ) (c : Codec) (cbor : Cbor) where
  -- The digests are those of the sections, the index is in order, every entry can be read, the decoded
  -- manifest re-encodes as the manifest bytes do, and a delta names its base.
  pub record IsVerified (b : Bundle) : Type 0 where
    pub manifest : Manifest
    pub decoded : from_cbor cbor b.manifest_bytes ≡ ok manifest
    pub same : to_cbor cbor manifest ≡ to_cbor cbor b.manifest
    pub index_digest : sha256 (write_all c b.index) ≡ manifest.integrity.index_digest
    pub data_digest : sha256 b.content ≡ manifest.integrity.data_digest
    pub sorted : IsSorted b.index
    pub entries : All (HasEntry b) b.index
    pub based : manifest.bundle_type ≡ delta → manifest.continuity.base_manifest_digest ≢ none

  module _ (b : Bundle) (v : VerifyResult) (h : verify_structure sha256 c cbor b ≡ ok v) where
    module _ (m : Manifest) (e : from_cbor cbor b.manifest_bytes ≡ ok m) where
      checks :
          (beq_bytes (to_cbor cbor m) (to_cbor cbor b.manifest) ≡ true)
          × (beq_bytes (sha256 (write_all c b.index)) m.integrity.index_digest ≡ true)
          × (beq_bytes (sha256 b.content) m.integrity.data_digest ≡ true)
          × (validate_sort_order b.index ≡ ok tt)
          × (check_entries b b.index ≡ ok tt)
      unfolding verify_structure
      checks = (ground arith, ground arith, ground arith, ground arith, ground arith)

      based_lem : m.bundle_type ≡ delta → m.continuity.base_manifest_digest ≢ none
      unfolding verify_structure
      based_lem d n = ground arith

    -- Once `verify_structure` has accepted a bundle, its manifest bytes decode to a manifest with the
    -- encoding of the bundle's own, the digests of the manifest are those of the index and data
    -- sections, the index strictly ascends, every record but the tombstones lies in the data section,
    -- and a delta names its base.
    pub verify_structure_sound : IsVerified b
    unfolding verify_structure
    verify_structure_sound = elim (Result-cases (from_cbor cbor b.manifest_bytes)) [
      | inr (x, e) ↦ absurd (ground arith)
      | inl (m, e) ↦
          let k = checks m e in
          record {
            manifest = m;
            decoded = e;
            same = beq_bytes-true _ _ k.0;
            index_digest = beq_bytes-true _ _ k.1;
            data_digest = beq_bytes-true _ _ k.2;
            sorted = (validate_sort_order_iff b.index).0 k.3;
            entries = check_entries_sound b b.index k.4;
            based = based_lem m e;
          }
    ]
