-- ===== src/Ahu/Ops/Working.antt =====
-- The working set of crates/ahu/src/ops.rs as a map from names to payloads.
use hoike.Base.{
  ℕ, ◌≡◌, refl, ◌∙◌, List, [], ◌∷◌, true, Option, none, some, arith, All, Ordering, if◌then◌else◌,
  Bool-cases, Option-cases, inl, inr, and_then,
}
use hoike.Ahu.Index.{IndexRecord, EntryName, name_of, cmp_name, is_tombstone}
use hoike.Ahu.Index.Order.{IsSorted, cmp_name-IsOrder}
use hoike.Ahu.Bundle.{Bundle, entry_bytes}
use hoike.Ahu.Bundle.Lookup.{find_record}
use hoike.Ahu.Ops.{
  Retained, WorkingSet, beq_name, insert, remove, get, retain_base, apply_record, apply_records,
  count_record,
}

-- Reads of the map after a write.
get-insert :
    (n m : EntryName) (v : Retained) (ws : WorkingSet)
    → get m (insert n v ws) ≡ (if beq_name n m then some v else get m ws)
unfolding get insert
get-insert n m v [] = refl
get-insert n m v ((k, w) ∷ rest) = ground (
  arith,
  get-insert n m v rest,
  cmp_name-IsOrder.eq_of n k,
  cmp_name-IsOrder.eq_of n m,
  cmp_name-IsOrder.eq_of k m,
  cmp_name-IsOrder.refl_eq n,
  cmp_name-IsOrder.refl_eq m,
)

get-remove :
    (n m : EntryName) (ws : WorkingSet)
    → get m (remove n ws) ≡ (if beq_name n m then none else get m ws)
unfolding get remove
get-remove n m [] = ground arith
get-remove n m ((k, w) ∷ rest) = ground (
  arith,
  get-remove n m rest,
  cmp_name-IsOrder.eq_of k n,
  cmp_name-IsOrder.eq_of n m,
  cmp_name-IsOrder.eq_of k m,
  cmp_name-IsOrder.refl_eq m,
  cmp_name-IsOrder.flips n k,
)

abbrev pub retained : Bundle → IndexRecord → Option Retained
retained b r = elim (entry_bytes b r) [
  | none ↦ none
  | some bytes ↦ some (record { payload = bytes; flags = r.flags; window = b.manifest.window })
]

-- What a delta leaves under a name: nothing for a tombstone, its payload where it has one, and what
-- was there before where it does not name it.
abbrev pub after_record : Bundle → Option IndexRecord → Option Retained → Option Retained
after_record b none before = before
after_record b (some r) before =
    if is_tombstone r then none else elim (retained b r) [ none ↦ before | some v ↦ some v ]

get-apply_record :
    (b : Bundle) (ws : WorkingSet) (r : IndexRecord) (m : EntryName)
    → get m (apply_record b ws r)
      ≡ (if beq_name (name_of r) m then after_record b (some r) (get m ws) else get m ws)
unfolding apply_record
get-apply_record b ws r m = elim (Option-cases (entry_bytes b r)) [
  | inl e ↦ ground (arith, get-remove (name_of r) m ws)
  | inr (bytes, e) ↦ ground (
    arith,
    get-remove (name_of r) m ws,
    get-insert (name_of r) m
        (record { payload = bytes; flags = r.flags; window = b.manifest.window }) ws,
  )
]

-- No record after one of a sorted index has its name.
pub find_record-none :
    (r : IndexRecord) (rs : List IndexRecord) (m : EntryName)
    → beq_name (name_of r) m ≡ true
    → All (λ s. cmp_name (name_of r) (name_of s) ≡ Ordering.lt) rs
    → find_record rs m.0 m.1 ≡ none
unfolding find_record
find_record-none r [] m e h = refl
find_record-none r (s ∷ rs) m e h = ground (
  arith,
  find_record-none r rs m e h.1,
  h.0,
  cmp_name-IsOrder.eq_of (name_of r) m,
  cmp_name-IsOrder.flips (name_of r) (name_of s),
)

pub get-apply_records :
    (b : Bundle) (ws : WorkingSet) (counts : ℕ × ℕ × ℕ) (rs : List IndexRecord) (m : EntryName)
    → IsSorted rs
    → get m (apply_records b ws counts rs).0 ≡ after_record b (find_record rs m.0 m.1) (get m ws)
unfolding apply_records find_record
get-apply_records b ws counts [] m s = refl
get-apply_records b ws counts (r ∷ rs) m s =
    let later = get-apply_records b (apply_record b ws r) (count_record b ws r counts) rs m s.1 in
    let now = get-apply_record b ws r m in
    elim (Bool-cases (beq_name (name_of r) m)) [
      | inr miss ↦ later ∙ ground (arith, now)
      | inl hit ↦
          let gone : find_record rs m.0 m.1 ≡ none = find_record-none r rs m hit s.0 in
          later ∙ ground (arith, now, gone)
    ]

pub get-retain_base :
    (b : Bundle) (ws : WorkingSet) (rs : List IndexRecord) (m : EntryName)
    → IsSorted rs
    → get m (retain_base b ws rs)
      ≡ elim (and_then (find_record rs m.0 m.1) (retained b)) [ none ↦ get m ws | some v ↦ some v ]
unfolding retain_base find_record
get-retain_base b ws [] m s = refl
get-retain_base b ws (r ∷ rs) m s = elim (Option-cases (entry_bytes b r)) [
  | inl e ↦ elim (Bool-cases (beq_name (name_of r) m)) [
    | inr miss ↦ ground (arith, get-retain_base b ws rs m s.1)
    | inl hit ↦ ground (arith, get-retain_base b ws rs m s.1, find_record-none r rs m hit s.0)
  ]
  | inr (bytes, e) ↦
      let v : Retained = record { payload = bytes; flags = r.flags; window = b.manifest.window } in
      let later = get-retain_base b (insert (name_of r) v ws) rs m s.1 in
      let now = get-insert (name_of r) m v ws in
      elim (Bool-cases (beq_name (name_of r) m)) [
        | inr miss ↦ ground (arith, later, now)
        | inl hit ↦ ground (arith, later, now, find_record-none r rs m hit s.0)
      ]
]
