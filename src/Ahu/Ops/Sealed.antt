-- ===== src/Ahu/Ops/Sealed.antt =====
-- Bundles that `apply_sealed` of crates/ahu/src/ops.rs materializes from a base and a chain of deltas.
use hoike.Base.{
  ℕ, ◌≡◌, sym, ap, ◌∙◌, subst, List, [], ◌∷◌, Option, some, ok, arith, All, Result-cases, inl, inr,
  and_then,
}
use hoike.Ahu.Error.{AhuResult}
use hoike.Ahu.Wire.{Codec}
use hoike.Ahu.Cbor.{Cbor}
use hoike.Ahu.Index.{EntryName, alg_disc_default}
use hoike.Ahu.Index.Order.{IsSorted}
use hoike.Ahu.Manifest.{Window}
use hoike.Ahu.Manifest.Decode.{from_cbor}
use hoike.Ahu.Bundle.{Bundle, from_bytes, lookup}
use hoike.Ahu.Bundle.Lookup.{find_record}
use hoike.Ahu.Build.{Builder, new_builder, build}
use hoike.Ahu.Build.Sort.{find_entry, AreDistinct}
use hoike.Ahu.Build.Place.{IsInjective}
use hoike.Ahu.Build.Lookup.{payload}
use hoike.Ahu.Build.RoundTrip.{
  IsAdded, IsNamed, IsShort, manifest_of, manifest_bytes_of, built_of, build-IsBuilt,
}
use hoike.Ahu.Verify.{verify_structure}
use hoike.Ahu.Verify.Sound.{verify_structure_sound}
use hoike.Ahu.Ops.{
  Retained, WorkingSet, beq_name, insert, remove, get, retain_base, apply_record, apply_records,
  count_record,
}
use hoike.Ahu.Ops.Apply.{
  Progress, ApplyResult, apply_delta, apply_deltas, apply_sealed, start, validity, materialized,
  add_all,
}
use hoike.Ahu.Ops.Ordered.{
  entries_of, add_all-entries_of, entries_of-AreDistinct, find_entry-entries_of,
  working_set-AreOrdered,
}
use hoike.Ahu.Ops.Working.{retained, after_record, get-apply_records, get-retain_base}

-- The reference: what a chain of deltas leaves under a name, one delta after the other.
abbrev pub after_deltas : Option Retained → List Bundle → EntryName → Option Retained
after_deltas before [] n = before
after_deltas before (d ∷ ds) n =
    after_deltas (after_record d (find_record d.index n.0 n.1) before) ds n

abbrev pub in_base : Bundle → EntryName → Option Retained
in_base base n = and_then (find_record base.index n.0 n.1) (retained base)

module _ (sha256 : List ℕ → List ℕ) (c : Codec) (cbor : Cbor) where
  apply_delta-get :
      (base : Bundle) (p q : Progress) (d : Bundle) (n : EntryName)
      → apply_delta sha256 c cbor base p d ≡ ok q
      → get n q.working_set ≡ after_record d (find_record d.index n.0 n.1) (get n p.working_set)
  unfolding apply_delta
  apply_delta-get base p q d n h = elim (Result-cases (verify_structure sha256 c cbor d)) [
    | inr (e, f) ↦ absurd (ground arith)
    | inl (v, f) ↦
        let same : q.working_set ≡ (apply_records d p.working_set (0, 0, 0) d.index).0 =
          ground arith in
        ap (get n) same
        ∙ get-apply_records d p.working_set (0, 0, 0) d.index n
            (verify_structure_sound sha256 c cbor d v f).sorted
  ]

  apply_deltas-get :
      (base : Bundle) (p q : Progress) (ds : List Bundle) (n : EntryName)
      → apply_deltas sha256 c cbor base p ds ≡ ok q
      → get n q.working_set ≡ after_deltas (get n p.working_set) ds n
  unfolding apply_deltas
  apply_deltas-get base p q [] n h = ground arith
  apply_deltas-get base p q (d ∷ ds) n h =
      elim (Result-cases (apply_delta sha256 c cbor base p d)) [
        | inr (e, f) ↦ absurd (ground arith)
        | inl (next, f) ↦
            apply_deltas-get base next q ds n (ground arith)
            ∙ ap (λ (o : Option Retained). after_deltas o ds n) (apply_delta-get base p next d n f)
      ]

  start-get :
      (base : Bundle) (n : EntryName)
      → IsSorted base.index
      → get n (start sha256 c cbor base).working_set ≡ in_base base n
  unfolding hoike.Ahu.Ops.get
  start-get base n s = get-retain_base base [] base.index n s ∙ ground arith

  -- Where the chain is applied to the verified entries of a base, a name has in the working set what the
  -- last delta that mentions it gives it: a payload with its flags and window, or nothing after a
  -- tombstone, and what the base has where no delta mentions it.
  pub apply_deltas-after_deltas :
      (base : Bundle) (p : Progress) (ds : List Bundle) (n : EntryName)
      → IsSorted base.index
      → apply_deltas sha256 c cbor base (start sha256 c cbor base) ds ≡ ok p
      → get n p.working_set ≡ after_deltas (in_base base n) ds n
  apply_deltas-after_deltas base p ds n s h =
      apply_deltas-get base (start sha256 c cbor base) p ds n h
      ∙ ap (λ (o : Option Retained). after_deltas o ds n) (start-get base n s)

  -- What `apply_sealed` hands to `build`.
  abbrev pub builder_of : Bundle → Progress → Window → Builder
  builder_of base p window =
      add_all (new_builder (materialized base.manifest p window)) p.working_set

  apply_sealed-build :
      (base : Bundle) (ds : List Bundle) (seal_fn : List ℕ → AhuResult (List ℕ)) (p : Progress)
      (window : Window) (r : ApplyResult)
      → apply_deltas sha256 c cbor base (start sha256 c cbor base) ds ≡ ok p
      → validity base.manifest.window p.working_set ≡ ok window
      → apply_sealed sha256 c cbor base ds seal_fn ≡ ok r
      → (build sha256 c cbor seal_fn (builder_of base p window) ≡ ok r.bytes) × IsSorted base.index
  unfolding apply_sealed
  apply_sealed-build base ds seal_fn p window r a w h =
      elim (Result-cases (verify_structure sha256 c cbor base)) [
        | inr (e, f) ↦ absurd (ground arith)
        | inl (v, f) ↦
            elim (Result-cases (build sha256 c cbor seal_fn (builder_of base p window))) [
              | inr (e, g) ↦ absurd (ground arith)
              | inl (bytes, g) ↦
                  (g ∙ ground arith, (verify_structure_sound sha256 c cbor base v f).sorted)
            ]
      ]

  -- Where `apply_sealed` succeeds, its manifest is sealed and CBOR reads it back, and what it adds to the
  -- builder fits the format and has payloads of distinct digests, the bytes that it returns are a bundle that `from_bytes` reads. A lookup in it
  -- finds what the last delta that mentions the certificate gives, and what the base has where no delta
  -- mentions it.
  pub apply_sealed-after_deltas :
      (base : Bundle) (ds : List Bundle) (seal_fn : List ℕ → AhuResult (List ℕ)) (seal : List ℕ)
      (p : Progress) (window : Window) (r : ApplyResult)
      → apply_deltas sha256 c cbor base (start sha256 c cbor base) ds ≡ ok p
      → validity base.manifest.window p.working_set ≡ ok window
      → apply_sealed sha256 c cbor base ds seal_fn ≡ ok r
      → All IsNamed (entries_of p.working_set)
      → IsInjective sha256 (IsAdded (entries_of p.working_set))
      → seal_fn (manifest_bytes_of sha256 c cbor (builder_of base p window)) ≡ ok seal
      → from_cbor cbor (manifest_bytes_of sha256 c cbor (builder_of base p window))
        ≡ ok (manifest_of sha256 c cbor (builder_of base p window))
      → IsShort sha256 c cbor (builder_of base p window) seal
      → (built : Bundle) × (from_bytes c cbor r.bytes ≡ ok built)
        × ((k : List ℕ)
            → lookup built k
              ≡ and_then
                  (after_deltas (in_base base (k, alg_disc_default)) ds (k, alg_disc_default))
                  (λ v. some v.payload))
  apply_sealed-after_deltas base ds seal_fn seal p window r a w h named inj s k short =
      let b = builder_of base p window in
      let (built_ok, sorted) = apply_sealed-build base ds seal_fn p window r a w h in
      let added : entries_of p.working_set ≡ b.entries =
        ap (λ (x : Builder). x.entries)
          (sym (
            add_all-entries_of (new_builder (materialized base.manifest p window))
              p.working_set)) in
      let distinct : AreDistinct b.entries =
        subst AreDistinct added (
          entries_of-AreDistinct p.working_set
            (working_set-AreOrdered sha256 c cbor base p ds a)) in
      let (out, e, built) =
        build-IsBuilt sha256 c cbor b seal_fn seal distinct (subst (All IsNamed) added named)
          (subst (λ es. IsInjective sha256 (IsAdded es)) added inj) s k short in
      let both : build sha256 c cbor seal_fn b ≡ ok r.bytes = built_ok in
      let same : out ≡ r.bytes = cc (e, both) in
      (
        built_of sha256 c cbor b seal,
        subst (λ o. from_bytes c cbor o ≡ ok (built_of sha256 c cbor b seal)) same built.read,
        λ key.
            built.found key
            ∙ ap (λ es. and_then (find_entry es key alg_disc_default) payload) (sym added)
            ∙ find_entry-entries_of p.working_set key alg_disc_default
            ∙ ap (λ (o : Option Retained). and_then o (λ v. some v.payload))
                (apply_deltas-after_deltas base p ds (key, alg_disc_default) sorted a),
      )
