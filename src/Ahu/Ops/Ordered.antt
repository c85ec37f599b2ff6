-- ===== src/Ahu/Ops/Ordered.antt =====
-- The order of the working set of crates/ahu/src/ops.rs, and the entries that are made from it.
use mathlib.Core.List.{append_assoc, append-nil}
use hoike.Base.{
  ℕ, ◌≡◌, ◌≢◌, refl, sym, ap, ◌∙◌, subst, List, [], ◌∷◌, ◌++◌, some, ok, arith, All, Ordering, flip,
  Bool-cases, Option-cases, Result-cases, inl, inr, and_then,
}
use hoike.Ahu.Wire.{Codec}
use hoike.Ahu.Cbor.{Cbor}
use hoike.Ahu.Index.{IndexRecord, EntryName, name_of, cmp_name}
use hoike.Ahu.Index.Order.{cmp_name-IsOrder}
use hoike.Ahu.Bundle.{Bundle, entry_bytes}
use hoike.Ahu.Build.{Builder, Entry, new_entry, no_flags}
use hoike.Ahu.Build.Sort.{find_entry, AreDistinct, cmp-cases}
use hoike.Ahu.Build.Lookup.{payload}
use hoike.Ahu.Verify.{verify_structure}
use hoike.Ahu.Ops.{
  Retained, WorkingSet, beq_name, insert, remove, get, retain_base, apply_record, apply_records,
  count_record,
}
use hoike.Ahu.Ops.Apply.{Progress, apply_delta, apply_deltas, start, add_all}

-- The keys of the map ascend.
abbrev pub AreOrdered : WorkingSet → Type 0
AreOrdered [] = Unit
AreOrdered ((n, v) ∷ rest) =
    All (λ (e : EntryName × Retained). cmp_name n e.0 ≡ Ordering.lt) rest × AreOrdered rest

below_trans :
    (n m : EntryName) (ws : WorkingSet)
    → cmp_name n m ≡ Ordering.lt
    → All (λ (e : EntryName × Retained). cmp_name m e.0 ≡ Ordering.lt) ws
    → All (λ (e : EntryName × Retained). cmp_name n e.0 ≡ Ordering.lt) ws
below_trans n m [] h a = tt
below_trans n m (e ∷ ws) h a = (cmp_name-IsOrder.trans n m e.0 h a.0, below_trans n m ws h a.1)

AllKeys-of :
    (P : EntryName → Type 0) {ws vs : WorkingSet}
    → ws ≡ vs
    → All (λ (e : EntryName × Retained). P e.0) vs
    → All (λ (e : EntryName × Retained). P e.0) ws
AllKeys-of P same = subst (All (λ (e : EntryName × Retained). P e.0)) (sym same)

AreOrdered-of : {ws vs : WorkingSet} → ws ≡ vs → AreOrdered vs → AreOrdered ws
AreOrdered-of same = subst AreOrdered (sym same)

-- The three ways of an insertion.
module _ (n m : EntryName) (v w : Retained) (rest : WorkingSet) where
  insert-lt : cmp_name n m ≡ Ordering.lt → insert n v ((m, w) ∷ rest) ≡ (n, v) ∷ (m, w) ∷ rest
  unfolding insert
  insert-lt e = ground arith

  insert-eq : cmp_name n m ≡ Ordering.eq → insert n v ((m, w) ∷ rest) ≡ (n, v) ∷ rest
  unfolding insert
  insert-eq e = ground arith

  insert-gt : cmp_name n m ≡ Ordering.gt → insert n v ((m, w) ∷ rest) ≡ (m, w) ∷ insert n v rest
  unfolding insert
  insert-gt e = ground arith

All-insert :
    (P : EntryName → Type 0) (n : EntryName) (v : Retained) (ws : WorkingSet)
    → P n
    → All (λ (e : EntryName × Retained). P e.0) ws
    → All (λ (e : EntryName × Retained). P e.0) (insert n v ws)
unfolding insert
All-insert P n v [] p a = (p, tt)
All-insert P n v ((m, w) ∷ rest) p a = elim (cmp-cases (cmp_name n m)) [
  | inl e ↦ AllKeys-of P (insert-lt n m v w rest e) (p, a)
  | inr (inl e) ↦ AllKeys-of P (insert-eq n m v w rest e) (p, a.1)
  | inr (inr e) ↦ AllKeys-of P (insert-gt n m v w rest e) (a.0, All-insert P n v rest p a.1)
]

insert-AreOrdered :
    (n : EntryName) (v : Retained) (ws : WorkingSet) → AreOrdered ws → AreOrdered (insert n v ws)
unfolding insert
insert-AreOrdered n v [] s = (tt, tt)
insert-AreOrdered n v ((m, w) ∷ rest) s = elim (cmp-cases (cmp_name n m)) [
  | inl e ↦ AreOrdered-of (insert-lt n m v w rest e) ((e, below_trans n m rest e s.0), s)
  | inr (inl e) ↦ AreOrdered-of (insert-eq n m v w rest e) (
    subst (λ k. All (λ (x : EntryName × Retained). cmp_name k x.0 ≡ Ordering.lt) rest)
        (sym (cmp_name-IsOrder.eq_of n m e)) s.0,
    s.1,
  )
  | inr (inr e) ↦ AreOrdered-of (insert-gt n m v w rest e) (
    All-insert (λ k. cmp_name m k ≡ Ordering.lt) n v rest (cmp_name-IsOrder.flips n m ∙ ap flip e)
        s.0,
    insert-AreOrdered n v rest s.1,
  )
]

All-remove :
    (P : EntryName → Type 0) (n : EntryName) (ws : WorkingSet)
    → All (λ (e : EntryName × Retained). P e.0) ws
    → All (λ (e : EntryName × Retained). P e.0) (remove n ws)
unfolding remove
All-remove P n [] a = tt
All-remove P n ((m, w) ∷ rest) a = elim (Bool-cases (beq_name m n)) [
  | inl e ↦ rw e (All-remove P n rest a.1)
  | inr e ↦ rw e (a.0, All-remove P n rest a.1)
]

remove-AreOrdered : (n : EntryName) (ws : WorkingSet) → AreOrdered ws → AreOrdered (remove n ws)
unfolding remove
remove-AreOrdered n [] s = tt
remove-AreOrdered n ((m, w) ∷ rest) s = elim (Bool-cases (beq_name m n)) [
  | inl e ↦ rw e (remove-AreOrdered n rest s.1)
  | inr e ↦
      rw e (All-remove (λ k. cmp_name m k ≡ Ordering.lt) n rest s.0, remove-AreOrdered n rest s.1)
]

retain_base-AreOrdered :
    (b : Bundle) (ws : WorkingSet) (rs : List IndexRecord)
    → AreOrdered ws
    → AreOrdered (retain_base b ws rs)
unfolding retain_base
retain_base-AreOrdered b ws [] s = s
retain_base-AreOrdered b ws (r ∷ rs) s = elim (Option-cases (entry_bytes b r)) [
  | inl e ↦
      let same : retain_base b ws rs ≡ retain_base b ws (r ∷ rs) = ground arith in
      subst AreOrdered same (retain_base-AreOrdered b ws rs s)
  | inr (bytes, e) ↦
      let v : Retained = record { payload = bytes; flags = r.flags; window = b.manifest.window } in
      let next = insert (name_of r) v ws in
      let same : retain_base b next rs ≡ retain_base b ws (r ∷ rs) = ground arith in
      subst AreOrdered same
        (retain_base-AreOrdered b next rs (insert-AreOrdered (name_of r) v ws s))
]

apply_record-AreOrdered :
    (b : Bundle) (ws : WorkingSet) (r : IndexRecord)
    → AreOrdered ws
    → AreOrdered (apply_record b ws r)
unfolding apply_record
apply_record-AreOrdered b ws r s = elim (Bool-cases r.flags.tombstone) [
  | inl t ↦
      let same : remove (name_of r) ws ≡ apply_record b ws r = ground arith in
      subst AreOrdered same (remove-AreOrdered (name_of r) ws s)
  | inr t ↦ elim (Option-cases (entry_bytes b r)) [
    | inl e ↦ let same : ws ≡ apply_record b ws r = ground arith in subst AreOrdered same s
    | inr (bytes, e) ↦
        let v : Retained = record {
          payload = bytes;
          flags = r.flags;
          window = b.manifest.window;
        } in
        let same : insert (name_of r) v ws ≡ apply_record b ws r = ground arith in
        subst AreOrdered same (insert-AreOrdered (name_of r) v ws s)
  ]
]

apply_records-AreOrdered :
    (b : Bundle) (ws : WorkingSet) (counts : ℕ × ℕ × ℕ) (rs : List IndexRecord)
    → AreOrdered ws
    → AreOrdered (apply_records b ws counts rs).0
unfolding apply_records
apply_records-AreOrdered b ws counts [] s = s
apply_records-AreOrdered b ws counts (r ∷ rs) s =
    apply_records-AreOrdered b (apply_record b ws r) (count_record b ws r counts) rs
      (apply_record-AreOrdered b ws r s)

module _ (sha256 : List ℕ → List ℕ) (c : Codec) (cbor : Cbor) where
  apply_delta-AreOrdered :
      (base : Bundle) (p q : Progress) (d : Bundle)
      → apply_delta sha256 c cbor base p d ≡ ok q
      → AreOrdered p.working_set
      → AreOrdered q.working_set
  unfolding apply_delta
  apply_delta-AreOrdered base p q d h s = elim (Result-cases (verify_structure sha256 c cbor d)) [
    | inr (e, f) ↦ absurd (ground arith)
    | inl (v, f) ↦
        let same : (apply_records d p.working_set (0, 0, 0) d.index).0 ≡ q.working_set =
          ground arith in
        subst AreOrdered same (apply_records-AreOrdered d p.working_set (0, 0, 0) d.index s)
  ]

  apply_deltas-AreOrdered :
      (base : Bundle) (p q : Progress) (ds : List Bundle)
      → apply_deltas sha256 c cbor base p ds ≡ ok q
      → AreOrdered p.working_set
      → AreOrdered q.working_set
  unfolding apply_deltas
  apply_deltas-AreOrdered base p q [] h s =
      let same : p.working_set ≡ q.working_set = ground arith in subst AreOrdered same s
  apply_deltas-AreOrdered base p q (d ∷ ds) h s =
      elim (Result-cases (apply_delta sha256 c cbor base p d)) [
        | inr (e, f) ↦ absurd (ground arith)
        | inl (next, f) ↦
            apply_deltas-AreOrdered base next q ds (ground arith)
              (apply_delta-AreOrdered base p next d f s)
      ]

  pub working_set-AreOrdered :
      (base : Bundle) (p : Progress) (ds : List Bundle)
      → apply_deltas sha256 c cbor base (start sha256 c cbor base) ds ≡ ok p
      → AreOrdered p.working_set
  working_set-AreOrdered base p ds h =
      apply_deltas-AreOrdered base (start sha256 c cbor base) p ds h
        (retain_base-AreOrdered base [] base.index tt)

-- The entries that are added for the working set.
abbrev pub entries_of : WorkingSet → List Entry
entries_of [] = []
entries_of ((n, v) ∷ rest) = new_entry n.0 n.1 no_flags v.payload ∷ entries_of rest

pub add_all-entries_of :
    (b : Builder) (ws : WorkingSet)
    → add_all b ws ≡ record b { entries = b.entries ++ entries_of ws }
add_all-entries_of b [] = rw append-nil refl
add_all-entries_of b ((n, v) ∷ rest) =
    add_all-entries_of
      (record b { entries = b.entries ++ new_entry n.0 n.1 no_flags v.payload ∷ [] }) rest
    ∙ rw append_assoc refl

entries_of-apart :
    (n : EntryName) (v : Retained) (ws : WorkingSet)
    → All (λ (e : EntryName × Retained). cmp_name n e.0 ≡ Ordering.lt) ws
    → All (λ (f : Entry). name_of f.0 ≢ n) (entries_of ws)
entries_of-apart n v [] a = tt
entries_of-apart n v ((m, w) ∷ rest) a = (
  λ same. ground (arith, a.0, cmp_name-IsOrder.refl_eq n, ap (cmp_name n) same),
  entries_of-apart n v rest a.1,
)

pub entries_of-AreDistinct : (ws : WorkingSet) → AreOrdered ws → AreDistinct (entries_of ws)
entries_of-AreDistinct [] s = tt
entries_of-AreDistinct ((n, v) ∷ rest) s =
    (entries_of-apart n v rest s.0, entries_of-AreDistinct rest s.1)

pub find_entry-entries_of :
    (ws : WorkingSet) (k : List ℕ) (d : ℕ)
    → and_then (find_entry (entries_of ws) k d) payload
      ≡ and_then (get (k, d) ws) (λ v. some v.payload)
unfolding get
find_entry-entries_of [] k d = refl
find_entry-entries_of ((n, v) ∷ rest) k d = ground (arith, find_entry-entries_of rest k d)
