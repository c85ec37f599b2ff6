-- ===== src/Ahu/Build/Sort.antt =====
-- The sort of the entries in `BundleBuilder::build` of crates/ahu/src/bundle.rs.
use hoike.Base.{
  ℕ, ◌≡◌, ◌≢◌, refl, List, [], ◌∷◌, Option, none, some, true, false, arith, All, Ordering, is_eq,
  cmp_bytes, flip, ap, ◌∙◌, ◌⊎◌, inl, inr,
}
use hoike.Ahu.Index.{IndexRecord, name_of, cmp_name}
use hoike.Ahu.Index.Order.{IsSorted, cmp_name-IsOrder, All-lt_trans}
use hoike.Ahu.Index.Lookup.{matches}
use hoike.Ahu.Build.{Entry, insert_entry, sort_entries}

-- The first entry of a name, in the order in which the entries were added.
abbrev pub find_entry : List Entry → List ℕ → ℕ → Option Entry
find_entry [] k d = none
find_entry (e ∷ es) k d =
    let later = find_entry es k d in
    elim (is_eq (matches k d e.0)) [ true ↦ some e | false ↦ later ]

abbrev pub records_of : List Entry → List IndexRecord
records_of [] = []
records_of (e ∷ es) = e.0 ∷ records_of es

-- No two entries have the same name.
abbrev pub AreDistinct : List Entry → Type 0
AreDistinct [] = Unit
AreDistinct (e ∷ es) = All (λ (f : Entry). name_of f.0 ≢ name_of e.0) es × AreDistinct es

pub cmp-cases : (o : Ordering) → (o ≡ Ordering.lt) ⊎ ((o ≡ Ordering.eq) ⊎ (o ≡ Ordering.gt))
cmp-cases Ordering.lt = inl refl
cmp-cases Ordering.eq = inr (inl refl)
cmp-cases Ordering.gt = inr (inr refl)

pub All-insert_entry {ℓ} :
    (P : Entry → Type ℓ) (x : Entry) (es : List Entry) → P x → All P es → All P (insert_entry x es)
unfolding insert_entry cmp_bytes
All-insert_entry P x [] p a = (p, tt)
All-insert_entry P x (y ∷ ys) p a = elim (cmp-cases (cmp_name (name_of y.0) (name_of x.0))) [
  | inl e ↦ rw e (a.0, All-insert_entry P x ys p a.1)
  | inr (inl e) ↦ rw e (p, a)
  | inr (inr e) ↦ rw e (p, a)
]

pub All-sort_entries {ℓ} :
    (P : Entry → Type ℓ) (es : List Entry) → All P es → All P (sort_entries es)
unfolding sort_entries
All-sort_entries P [] a = tt
All-sort_entries P (x ∷ xs) a =
    All-insert_entry P x (sort_entries xs) a.0 (All-sort_entries P xs a.1)

find_entry-insert_entry :
    (x : Entry) (es : List Entry) (k : List ℕ) (d : ℕ)
    → find_entry (insert_entry x es) k d ≡ find_entry (x ∷ es) k d
unfolding insert_entry
find_entry-insert_entry x [] k d = refl
find_entry-insert_entry x (y ∷ ys) k d = ground (
  arith,
  find_entry-insert_entry x ys k d,
  cmp_name-IsOrder.eq_of (name_of x.0) (k, d),
  cmp_name-IsOrder.eq_of (name_of y.0) (k, d),
  cmp_name-IsOrder.refl_eq (name_of x.0),
)

pub find_entry-sort_entries :
    (es : List Entry) (k : List ℕ) (d : ℕ) → find_entry (sort_entries es) k d ≡ find_entry es k d
unfolding sort_entries
find_entry-sort_entries [] k d = refl
find_entry-sort_entries (x ∷ xs) k d =
    rw (find_entry-insert_entry x (sort_entries xs) k d, sort_entries)
      (ground (arith, find_entry-sort_entries xs k d))

All-records_of :
    (P : IndexRecord → Type 0) (es : List Entry)
    → All (λ (e : Entry). P e.0) es
    → All P (records_of es)
All-records_of P [] a = tt
All-records_of P (e ∷ es) a = (a.0, All-records_of P es a.1)

records_of-All :
    (P : IndexRecord → Type 0) (es : List Entry)
    → All P (records_of es)
    → All (λ (e : Entry). P e.0) es
records_of-All P [] a = tt
records_of-All P (e ∷ es) a = (a.0, records_of-All P es a.1)

insert_entry-IsSorted :
    (x : Entry) (es : List Entry)
    → All (λ (f : Entry). name_of f.0 ≢ name_of x.0) es
    → IsSorted (records_of es)
    → IsSorted (records_of (insert_entry x es))
unfolding insert_entry cmp_bytes
insert_entry-IsSorted x [] n s = (tt, tt)
insert_entry-IsSorted x (y ∷ ys) n s = elim (cmp-cases (cmp_name (name_of y.0) (name_of x.0))) [
  | inl e ↦ rw e (
    All-records_of (λ r. cmp_name (name_of y.0) (name_of r) ≡ Ordering.lt) (insert_entry x ys)
        (All-insert_entry (λ f. cmp_name (name_of y.0) (name_of f.0) ≡ Ordering.lt) x ys e
          (records_of-All (λ r. cmp_name (name_of y.0) (name_of r) ≡ Ordering.lt) ys s.0)),
    insert_entry-IsSorted x ys n.1 s.1,
  )
  | inr (inl e) ↦ absurd (n.0 (cmp_name-IsOrder.eq_of (name_of y.0) (name_of x.0) e))
  | inr (inr e) ↦
      let below : cmp_name (name_of x.0) (name_of y.0) ≡ Ordering.lt =
        cmp_name-IsOrder.flips (name_of y.0) (name_of x.0) ∙ ap flip e in
      rw e ((below, All-lt_trans x.0 y.0 (records_of ys) below s.0), s)
]

pub sort_entries-IsSorted :
    (es : List Entry) → AreDistinct es → IsSorted (records_of (sort_entries es))
unfolding sort_entries
sort_entries-IsSorted [] h = tt
sort_entries-IsSorted (x ∷ xs) h =
    insert_entry-IsSorted x (sort_entries xs)
      (All-sort_entries (λ f. name_of f.0 ≢ name_of x.0) xs h.0) (sort_entries-IsSorted xs h.1)
