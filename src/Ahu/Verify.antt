-- ===== src/Ahu/Verify.antt =====
-- crates/ahu/src/verify.rs: structural verification and epoch checks. The hash of the sha2 crate is
-- the argument `sha256`.
pub mod Sound
use hoike.Base.{
  ℕ, ◌^◌, List, [], ◌∷◌, ◌++◌, Bool, true, false, not, ◌&&◌, Option, none, some, ok, err, ok_or,
  ◌>>=◌, ◌>>◌, guard, ◌==◌, leb, if◌then◌else◌, length, beq_bytes,
}
use hoike.Ahu.Error.{
  AhuError, AhuResult, manifest_field, index_digest_mismatch, data_digest_mismatch,
  entry_out_of_bounds, delta_missing_base, epoch_rollback,
}
use hoike.Ahu.Wire.{Codec}
use hoike.Ahu.Cbor.{Cbor}
use hoike.Ahu.Index.{IndexRecord, is_tombstone, write_all, validate_sort_order}
use hoike.Ahu.Manifest.{Manifest, CaScope, BundleType, full, delta}
use hoike.Ahu.Manifest.Encode.{to_cbor}
use hoike.Ahu.Manifest.Decode.{from_cbor}
use hoike.Ahu.Bundle.{Bundle, entry_bytes}

pub data Warning : Type 0 where
  entry_count_mismatch seal_empty : Warning

pub record VerifyResult : Type 0 where
  pub header_ok : Bool
  pub manifest_ok : Bool
  pub index_digest_ok : Bool
  pub data_digest_ok : Bool
  pub sort_order_ok : Bool
  pub entry_bounds_ok : Bool
  pub seal_present : Bool
  pub entry_count_matches : Bool
  pub warnings : List Warning

abbrev pub is_empty : List ℕ → Bool
is_empty [] = true
is_empty (x ∷ xs) = false

abbrev pub is_delta : BundleType → Bool
is_delta full = false
is_delta delta = true

abbrev pub is_none {ℓ} : {A : Type ℓ} → Option A → Bool
is_none none = true
is_none (some a) = false

-- The loop over the entry bounds: the first record whose range leaves the data section is reported.
unfoldable pub check_entries : Bundle → List IndexRecord → AhuResult (Unit {0})
check_entries b [] = ok tt
check_entries b (r ∷ rs) =
    let rest = check_entries b rs in
    if is_tombstone r then rest else elim (entry_bytes b r) [
      | none ↦ err (entry_out_of_bounds r.data_offset r.data_length)
      | some _ ↦ rest
    ]

module _ (sha256 : List ℕ → List ℕ) (c : Codec) (cbor : Cbor) where
  unfoldable pub verify_structure : Bundle → AhuResult VerifyResult
  unfolding check_entries
  verify_structure b = do
    manifest ← from_cbor cbor b.manifest_bytes
    guard (beq_bytes (to_cbor cbor manifest) (to_cbor cbor b.manifest)) manifest_field
    let index_digest = sha256 (write_all c b.index)
    guard (beq_bytes index_digest manifest.integrity.index_digest)
        (index_digest_mismatch manifest.integrity.index_digest index_digest)
    let data_digest = sha256 b.content
    guard (beq_bytes data_digest manifest.integrity.data_digest)
        (data_digest_mismatch manifest.integrity.data_digest data_digest)
    validate_sort_order b.index
    let count_matches = length b.index == manifest.entry_count
    check_entries b b.index
    guard (not (is_delta manifest.bundle_type && is_none manifest.continuity.base_manifest_digest))
        delta_missing_base
    ok (record {
      header_ok = true;
      manifest_ok = true;
      index_digest_ok = true;
      data_digest_ok = true;
      sort_order_ok = true;
      entry_bounds_ok = true;
      seal_present = not (is_empty b.seal_bytes);
      entry_count_matches = count_matches;
      warnings =
          (if count_matches then [] else entry_count_mismatch ∷ [])
          ++ (if is_empty b.seal_bytes then seal_empty ∷ [] else []);
    })

abbrev pub manifest_digest : (List ℕ → List ℕ) → List ℕ → List ℕ
manifest_digest sha256 manifest_bytes = sha256 manifest_bytes

-- The scopes of a bundle against recorded marks, by producer and issuer key hash.
check_epochs_from : List ℕ → (List ℕ → List ℕ → Option ℕ) → List CaScope → AhuResult (Unit {0})
check_epochs_from producer marks [] = ok tt
check_epochs_from producer marks (s ∷ ss) =
    let rest = check_epochs_from producer marks ss in
    elim (marks producer s.issuer_key_hash) [
      | none ↦ rest
      | some hw ↦ if leb s.epoch hw then err (epoch_rollback s.issuer_key_hash s.epoch hw) else rest
    ]

pub check_epochs : Bundle → (List ℕ → List ℕ → Option ℕ) → AhuResult (Unit {0})
unfolding check_epochs_from
check_epochs b marks = check_epochs_from b.manifest.producer_id marks b.manifest.ca_scopes
