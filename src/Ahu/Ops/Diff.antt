-- ===== src/Ahu/Ops/Diff.antt =====
-- What `diff` of crates/ahu/src/ops.rs says of the answers of two bundles.
use hoike.Base.{
  ℕ, ◌+◌, ◌≡◌, refl, sym, subst, ap, ◌∙◌, List, [], ◌∷◌, true, false, not, Option, none, some,
  arith, is_eq, length, Bool-cases, inl, inr, and_then, beq_bytes_iff, find_index,
}
use hoike.Ahu.Index.{IndexRecord, EntryName, name_of}
use hoike.Ahu.Index.Order.{IsSorted, cmp_name-IsOrder}
use hoike.Ahu.Index.Lookup.{matches, binary_search_with_discriminator-eq-find}
use hoike.Ahu.Bundle.{Bundle, entry_bytes, entry_at}
use hoike.Ahu.Bundle.Lookup.{find_record, entry_at-get_elem?, find_record-find_index}
use hoike.Ahu.Verify.{is_none}
use hoike.Ahu.Ops.{
  beq_name, contains, keys_of, difference, intersection, data_of, same_data, compare_data, diff,
}
use hoike.Ahu.Ops.Working.{find_record-none}

beq_name-eq : (m n : EntryName) → beq_name m n ≡ true → m ≡ n
beq_name-eq m n h = cmp_name-IsOrder.eq_of m n (ground arith)

-- A name is in the set of keys where a walk over the index finds a record.
contains-keys_of :
    (rs : List IndexRecord) (n : EntryName)
    → contains (keys_of rs) n ≡ not (is_none (find_record rs n.0 n.1))
unfolding find_record
contains-keys_of [] n = refl
contains-keys_of (r ∷ rs) n = elim (Bool-cases (contains (keys_of rs) (name_of r))) [
  | inl e ↦ elim (Bool-cases (beq_name (name_of r) n)) [
    | inl hit ↦
        let same : contains (keys_of rs) (name_of r) ≡ contains (keys_of rs) n =
          ap (contains (keys_of rs)) (beq_name-eq (name_of r) n hit) in
        ground arith
    | inr miss ↦ ground (arith, contains-keys_of rs n)
  ]
  | inr e ↦ ground (arith, contains-keys_of rs n)
]

difference-empty :
    (ns other : List EntryName) (n : EntryName)
    → difference ns other ≡ []
    → contains ns n ≡ true
    → contains other n ≡ true
difference-empty [] other n d h = absurd (ground arith)
difference-empty (m ∷ ns) other n d h =
    ground (arith, difference-empty ns other n, cmp_name-IsOrder.eq_of m n)

contains-intersection :
    (ns other : List EntryName) (n : EntryName)
    → contains ns n ≡ true
    → contains other n ≡ true
    → contains (intersection ns other) n ≡ true
contains-intersection [] other n h k = absurd (ground arith)
contains-intersection (m ∷ ns) other n h k =
    ground (arith, contains-intersection ns other n, cmp_name-IsOrder.eq_of m n)

same_data_sound : (x y : Option (List ℕ)) → same_data x y ≡ true → x ≡ y
same_data_sound none none h = refl
same_data_sound none (some y) h = absurd (ground arith)
same_data_sound (some x) none h = absurd (ground arith)
same_data_sound (some x) (some y) h = ap some ((beq_bytes_iff x y).0 h)

compare_data-unchanged :
    (a b : Bundle) (ns : List EntryName) (n : EntryName)
    → (compare_data a b ns).0 ≡ []
    → contains ns n ≡ true
    → data_of a n ≡ data_of b n
compare_data-unchanged a b [] n c h = absurd (ground arith)
compare_data-unchanged a b (m ∷ ns) n c h =
    elim (Bool-cases (same_data (data_of a m) (data_of b m))) [
      | inr e ↦ absurd (ground arith)
      | inl e ↦ elim (Bool-cases (beq_name m n)) [
        | inl hit ↦
            subst (λ k. data_of a k ≡ data_of b k) (beq_name-eq m n hit)
              (same_data_sound (data_of a m) (data_of b m) e)
        | inr miss ↦ compare_data-unchanged a b ns n (ground arith) (ground arith)
      ]
    ]

data_of-find_record :
    (b : Bundle) (n : EntryName)
    → IsSorted b.index
    → data_of b n ≡ and_then (find_record b.index n.0 n.1) (entry_bytes b)
data_of-find_record b n s =
    ap (λ o. and_then o (entry_at b)) (binary_search_with_discriminator-eq-find b.index n.0 n.1 s)
    ∙ entry_at-get_elem? b (find_index (matches n.0 n.1) b.index)
    ∙ ap (λ (o : Option IndexRecord). and_then o (entry_bytes b))
        (find_record-find_index b.index n.0 n.1)

data_of-missing :
    (b : Bundle) (n : EntryName)
    → IsSorted b.index
    → contains (keys_of b.index) n ≡ false
    → data_of b n ≡ none
data_of-missing b n s h = data_of-find_record b n s ∙ ground (arith, contains-keys_of b.index n)

-- Where `diff` finds nothing added, removed or changed between two bundles with sorted indexes, they
-- have the same payload, or none, under every key and discriminator.
pub diff-data_of :
    (a b : Bundle) (n : EntryName)
    → IsSorted a.index
    → IsSorted b.index
    → (diff a b).added ≡ []
    → (diff a b).removed ≡ []
    → (diff a b).changed ≡ []
    → data_of a n ≡ data_of b n
unfolding diff
diff-data_of a b n s t added removed changed =
    let ka = keys_of a.index in
    let kb = keys_of b.index in
    elim (Bool-cases (contains ka n)) [
      | inl h ↦
          let k = difference-empty ka kb n removed h in
          compare_data-unchanged a b (intersection ka kb) n changed
            (contains-intersection ka kb n h k)
      | inr h ↦ elim (Bool-cases (contains kb n)) [
        | inl k ↦ absurd (ground (arith, difference-empty kb ka n added k))
        | inr k ↦ data_of-missing a n s h ∙ sym (data_of-missing b n t k)
      ]
    ]

length-keys_of : (rs : List IndexRecord) → IsSorted rs → length (keys_of rs) ≡ length rs
length-keys_of [] s = refl
length-keys_of (r ∷ rs) s = ground (
  arith,
  length-keys_of rs s.1,
  contains-keys_of rs (name_of r),
  find_record-none r rs (name_of r) (ap is_eq (cmp_name-IsOrder.refl_eq (name_of r))) s.0,
)

length-difference :
    (ns other : List EntryName)
    → length ns ≡ length (difference ns other) + length (intersection ns other)
length-difference [] other = refl
length-difference (n ∷ ns) other = ground (arith, length-difference ns other)

length-compare_data :
    (a b : Bundle) (ns : List EntryName)
    → length (compare_data a b ns).0 + (compare_data a b ns).1 ≡ length ns
length-compare_data a b [] = refl
length-compare_data a b (n ∷ ns) = ground (arith, length-compare_data a b ns)

-- Every entry of the first bundle is counted once: as removed, as changed or as unchanged.
pub diff-a_entry_count :
    (a b : Bundle)
    → IsSorted a.index
    → (diff a b).a_entry_count
      ≡ length (diff a b).removed + (length (diff a b).changed + (diff a b).unchanged)
unfolding diff
diff-a_entry_count a b s =
    let ka = keys_of a.index in
    let kb = keys_of b.index in
    omega (
      arith,
      length-keys_of a.index s,
      length-difference ka kb,
      length-compare_data a b (intersection ka kb),
    )
