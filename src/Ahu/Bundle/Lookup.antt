-- ===== src/Ahu/Bundle/Lookup.antt =====
-- The lookups of crates/ahu/src/bundle.rs against a walk over the records.
use hoike.Base.{
  ℕ, ◌≡◌, refl, ap, ◌∙◌, List, [], ◌∷◌, ◌++◌, true, false, Option, none, some, arith, is_eq,
  find_index, find_index_sound, get_elem?, and_then, Option-cases, inl, inr,
}
use hoike.Ahu.Index.{IndexRecord, binary_search, binary_search_with_discriminator, alg_disc_default}
use hoike.Ahu.Index.Order.{IsSorted}
use hoike.Ahu.Index.Lookup.{
  matches, first_hit, binary_search_with_discriminator-eq-find, binary_search_preferred-first_hit,
}
use hoike.Ahu.Bundle.{Bundle, entry_bytes, entry_at, lookup, lookup_preferred}

-- The reference: the first record of a key and a discriminator, found by a walk.
unfoldable pub find_record : List IndexRecord → List ℕ → ℕ → Option IndexRecord
find_record [] k d = none
find_record (r ∷ rs) k d =
    let later = find_record rs k d in elim (is_eq (matches k d r)) [ true ↦ some r | false ↦ later ]

-- The first record whose discriminator the list names, in the order of the list.
unfoldable pub first_record : List IndexRecord → List ℕ → List ℕ → Option IndexRecord
first_record rs k [] = none
first_record rs k (d ∷ ds) =
    let later = first_record rs k ds in elim (find_record rs k d) [ some r ↦ some r | none ↦ later ]

pub find_record-find_index :
    (rs : List IndexRecord) (k : List ℕ) (d : ℕ)
    → and_then (find_index (matches k d) rs) (get_elem? rs) ≡ find_record rs k d
unfolding find_record find_index
find_record-find_index [] k d = refl
find_record-find_index (r ∷ rs) k d = ground (arith, find_record-find_index rs k d)

pub entry_at-get_elem? :
    (b : Bundle) (o : Option ℕ)
    → and_then o (entry_at b) ≡ and_then (and_then o (get_elem? b.index)) (entry_bytes b)
unfolding entry_at entry_bytes
entry_at-get_elem? b none = refl
entry_at-get_elem? b (some i) = ground arith

-- In a bundle with a sorted index, `lookup` returns the bytes of the record that a walk finds under the
-- key and discriminator 0, and none where there is no such record or it is a tombstone.
pub lookup-eq-find :
    (b : Bundle) (k : List ℕ)
    → IsSorted b.index
    → lookup b k ≡ and_then (find_record b.index k alg_disc_default) (entry_bytes b)
unfolding lookup binary_search
lookup-eq-find b k s =
    rw (binary_search_with_discriminator-eq-find b.index k alg_disc_default s, lookup)
      (entry_at-get_elem? b (find_index (matches k alg_disc_default) b.index)
        ∙ ap (λ (o : Option IndexRecord). and_then o (entry_bytes b))
            (find_record-find_index b.index k alg_disc_default))

first_hit-first_record :
    (rs : List IndexRecord) (k ds : List ℕ)
    → IsSorted rs
    → and_then (first_hit (binary_search_with_discriminator rs k) ds) (get_elem? rs)
      ≡ first_record rs k ds
unfolding first_record
first_hit-first_record rs k [] s = refl
first_hit-first_record rs k (d ∷ ds) s = elim (Option-cases (find_index (matches k d) rs)) [
  | inl e ↦ ground (
    arith,
    binary_search_with_discriminator-eq-find rs k d s,
    find_record-find_index rs k d,
    first_hit-first_record rs k ds s,
  )
  | inr (i, e) ↦
      let (r, g, _) = find_index_sound (matches k d) rs i e in
      ground
        (arith, g, binary_search_with_discriminator-eq-find rs k d s, find_record-find_index rs k d)
]

-- In a bundle with a sorted index, `lookup_preferred` returns the bytes of the record with the first
-- discriminator of the client's list that the index has under the key, discriminator 0 being tried
-- last, and none where there is no such record or it is a tombstone.
pub lookup_preferred-eq-find :
    (b : Bundle) (k : List ℕ) (preferences : List ℕ)
    → IsSorted b.index
    → lookup_preferred b k preferences
      ≡ and_then (first_record b.index k (preferences ++ alg_disc_default ∷ [])) (entry_bytes b)
unfolding lookup_preferred
lookup_preferred-eq-find b k ds s =
    rw (binary_search_preferred-first_hit b.index k ds, lookup_preferred)
      (entry_at-get_elem? b _
        ∙ ap (λ (o : Option IndexRecord). and_then o (entry_bytes b))
            (first_hit-first_record b.index k (ds ++ alg_disc_default ∷ []) s))
