-- ===== src/Ahu/Index/Lookup.antt =====
-- The searches of crates/ahu/src/index.rs against a walk over the records.
use hoike.Base.{
  ℕ, zero, suc, ◌<◌, ◌≡◌, ap, subst, ◌∙◌, List, [], ◌∷◌, ◌++◌, arith, Option, none, some,
  some-injective, Ordering, gt_of_lt, All-get_elem?, get_elem?, get_elem?-total, probe, find_index,
  binary_search_by-eq-find_index, binary_search_by_sound, Bool-cases, inl, inr, true, ==_iff,
  Splits,
}
use hoike.Ahu.Index.{
  IndexRecord, EntryName, name_of, cmp_name, contains, search_preferences,
  binary_search_with_discriminator, binary_search_preferred, alg_disc_default,
}
use hoike.Ahu.Index.Order.{IsSorted, cmp_name-IsOrder}

abbrev pub matches : List ℕ → ℕ → IndexRecord → Ordering
matches entry_key discriminator r = cmp_name (name_of r) (entry_key, discriminator)

IsSorted-get_elem? :
    (rs : List IndexRecord) (i j : ℕ) (x y : IndexRecord)
    → IsSorted rs
    → i < j
    → get_elem? rs i ≡ some x
    → get_elem? rs j ≡ some y
    → cmp_name (name_of x) (name_of y) ≡ Ordering.lt
IsSorted-get_elem? [] i j x y s h gx gy = absurd (cc)
IsSorted-get_elem? (r ∷ rs) i zero x y s h gx gy = elim h [ ]
IsSorted-get_elem? (r ∷ rs) zero (suc j) x y s h gx gy =
    subst (λ z. cmp_name (name_of z) (name_of y) ≡ Ordering.lt) (some-injective r x gx)
      (All-get_elem? (λ t. cmp_name (name_of r) (name_of t) ≡ Ordering.lt) rs j y s.0 gy)
IsSorted-get_elem? (r ∷ rs) (suc i) (suc j) x y s h gx gy =
    IsSorted-get_elem? rs i j x y s.1 (omega arith) gx gy

IsSorted-Splits :
    (rs : List IndexRecord) (k : List ℕ) (d : ℕ) → IsSorted rs → Splits (matches k d) rs
unfolding probe
IsSorted-Splits rs k d s i j h hj n =
    let (x, gx) = get_elem?-total rs i (omega arith) in
    let (y, gy) = get_elem?-total rs j hj in
    rw (gy, probe)
      (gt_of_lt cmp_name-IsOrder (name_of x) (name_of y) (k, d)
        (IsSorted-get_elem? rs i j x y s h gx gy) (λ e. n (rw (gx, probe) e)))

-- In a sorted index the binary search for a key and a discriminator returns the position of the
-- first record of that name, and none where there is no such record.
pub binary_search_with_discriminator-eq-find :
    (rs : List IndexRecord) (k : List ℕ) (d : ℕ)
    → IsSorted rs
    → binary_search_with_discriminator rs k d ≡ find_index (matches k d) rs
unfolding binary_search_with_discriminator
binary_search_with_discriminator-eq-find rs k d s =
    binary_search_by-eq-find_index (matches k d) rs (IsSorted-Splits rs k d s)

-- Whatever the order of the index, a position that the binary search returns lies in it and holds a
-- record of the key and the discriminator that were asked for.
pub binary_search_with_discriminator_sound :
    (rs : List IndexRecord) (k : List ℕ) (d i : ℕ)
    → binary_search_with_discriminator rs k d ≡ some i
    → (r : IndexRecord) × (get_elem? rs i ≡ some r) × (r.entry_key ≡ k) × (r.discriminator ≡ d)
unfolding binary_search_with_discriminator
binary_search_with_discriminator_sound rs k d i h =
    let (r, g, e) = binary_search_by_sound (matches k d) rs i h in
    let same = cmp_name-IsOrder.eq_of (name_of r) (k, d) e in
    (r, g, ap (λ (n : EntryName). n.0) same, ap (λ (n : EntryName). n.1) same)

-- The answer of the first discriminator in the list that has one.
abbrev pub first_hit : (ℕ → Option ℕ) → List ℕ → Option ℕ
first_hit search [] = none
first_hit search (d ∷ ds) =
    let later = first_hit search ds in elim (search d) [ some i ↦ some i | none ↦ later ]

search_preferences-first_hit :
    (rs : List IndexRecord) (k : List ℕ) (ds : List ℕ)
    → search_preferences rs k (binary_search_with_discriminator rs k alg_disc_default) ds
      ≡ first_hit (binary_search_with_discriminator rs k) (ds ++ alg_disc_default ∷ [])
unfolding search_preferences
search_preferences-first_hit rs k [] = ground arith
search_preferences-first_hit rs k (d ∷ ds) = ground (arith, search_preferences-first_hit rs k ds)

search_preferences-contains :
    (rs : List IndexRecord) (k : List ℕ) (ds : List ℕ)
    → contains ds alg_disc_default ≡ true
    → search_preferences rs k none ds
      ≡ search_preferences rs k (binary_search_with_discriminator rs k alg_disc_default) ds
unfolding search_preferences contains
search_preferences-contains rs k [] h = absurd (cc)
search_preferences-contains rs k (d ∷ ds) h =
    ground (arith, search_preferences-contains rs k ds, ==_iff d 0)

-- The preferred search answers with the first discriminator of the client's list that has a record,
-- and with discriminator 0 after all of them.
pub binary_search_preferred-first_hit :
    (rs : List IndexRecord) (k : List ℕ) (preferences : List ℕ)
    → binary_search_preferred rs k preferences
      ≡ first_hit (binary_search_with_discriminator rs k) (preferences ++ alg_disc_default ∷ [])
unfolding binary_search_preferred
binary_search_preferred-first_hit rs k ds = elim (Bool-cases (contains ds alg_disc_default)) [
  | inl e ↦ rw e (search_preferences-contains rs k ds e ∙ search_preferences-first_hit rs k ds)
  | inr e ↦ rw e (search_preferences-first_hit rs k ds)
]
