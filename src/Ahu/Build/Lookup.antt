-- ===== src/Ahu/Build/Lookup.antt =====
-- Bundles that `BundleBuilder::build` of crates/ahu/src/bundle.rs has built, read and looked up.
use hoike.Base.{
  ℕ, ◌^◌, ◌<◌, ◌≡◌, refl, ap, sym, ◌∙◌, subst, List, [], ◌∷◌, Option, none, some, ◌⊎◌, inl, inr,
  arith, All, length, if◌then◌else◌, Bool-cases, is_eq, Ordering,
}
use hoike.Ahu.Index.{IndexRecord, EntryName, is_tombstone, name_of, cmp_name}
use hoike.Ahu.Index.Order.{IsSorted}
use hoike.Ahu.Index.Lookup.{matches}
use hoike.Ahu.Bundle.{Bundle, get_range, entry_bytes}
use hoike.Ahu.Bundle.RoundTrip.{get_range-append}
use hoike.Ahu.Bundle.Lookup.{find_record, first_record}
use hoike.Ahu.Build.{Entry}
use hoike.Ahu.Build.Sort.{find_entry, records_of}
use hoike.Ahu.Build.Place.{IsAt, IsAt-le, IsPlaced, ArePlaced}

-- What an entry stands for: its payload, and nothing for a tombstone.
abbrev pub payload : Entry → Option (List ℕ)
payload e = if is_tombstone e.0 then none else some e.1

-- The first entry whose discriminator the list names, in the order of the list.
abbrev pub first_entry : List Entry → List ℕ → List ℕ → Option Entry
first_entry es k [] = none
first_entry es k (d ∷ ds) =
    let later = first_entry es k ds in elim (find_entry es k d) [ some e ↦ some e | none ↦ later ]

All-names :
    (n : EntryName) (content : List ℕ) (rs : List IndexRecord) (es : List Entry)
    → ArePlaced content rs es
    → All (λ r. cmp_name n (name_of r) ≡ Ordering.lt) (records_of es)
    → All (λ r. cmp_name n (name_of r) ≡ Ordering.lt) rs
All-names n content [] [] p a = tt
All-names n content [] (e ∷ es) p a = elim p [ ]
All-names n content (r ∷ rs) [] p a = elim p [ ]
All-names n content (r ∷ rs) (e ∷ es) p a =
    (ap (cmp_name n) p.0.name ∙ a.0, All-names n content rs es p.1 a.1)

pub ArePlaced-IsSorted :
    (content : List ℕ) (rs : List IndexRecord) (es : List Entry)
    → ArePlaced content rs es
    → IsSorted (records_of es)
    → IsSorted rs
ArePlaced-IsSorted content [] [] p s = tt
ArePlaced-IsSorted content [] (e ∷ es) p s = elim p [ ]
ArePlaced-IsSorted content (r ∷ rs) [] p s = elim p [ ]
ArePlaced-IsSorted content (r ∷ rs) (e ∷ es) p s = (
  All-names (name_of r) content rs es p.1 (
      subst (λ n. All (λ t. cmp_name n (name_of t) ≡ Ordering.lt) (records_of es)) (sym p.0.name)
        s.0),
  ArePlaced-IsSorted content rs es p.1 s.1,
)

-- The walks over the records and over the entries find what belongs together.
abbrev pub Agree : List ℕ → Option IndexRecord → Option Entry → Type 0
Agree content r e =
    ((r ≡ none) × (e ≡ none))
    ⊎ ((s : IndexRecord) × (f : Entry) × (r ≡ some s) × (e ≡ some f) × IsPlaced content s f)

pub find_record-Agree :
    (content : List ℕ) (rs : List IndexRecord) (es : List Entry) (k : List ℕ) (d : ℕ)
    → ArePlaced content rs es
    → Agree content (find_record rs k d) (find_entry es k d)
unfolding find_record
find_record-Agree content [] [] k d p = inl (refl, refl)
find_record-Agree content [] (e ∷ es) k d p = elim p [ ]
find_record-Agree content (r ∷ rs) [] k d p = elim p [ ]
find_record-Agree content (r ∷ rs) (e ∷ es) k d p =
    let same : matches k d r ≡ matches k d e.0 =
      ap (λ (n : EntryName). cmp_name n (k, d)) p.0.name in
    elim (Bool-cases (is_eq (matches k d e.0))) [
      | inl hit ↦ inr (r, e, ground arith, ground arith, p.0)
      | inr miss ↦ elim (find_record-Agree content rs es k d p.1) [
        | inl (a, b) ↦ inl (ground arith, ground arith)
        | inr (s, f, a, b, q) ↦ inr (s, f, ground arith, ground arith, q)
      ]
    ]

pub first_record-Agree :
    (content : List ℕ) (rs : List IndexRecord) (es : List Entry) (k ds : List ℕ)
    → ArePlaced content rs es
    → Agree content (first_record rs k ds) (first_entry es k ds)
unfolding first_record
first_record-Agree content rs es k [] p = inl (refl, refl)
first_record-Agree content rs es k (d ∷ ds) p = elim (find_record-Agree content rs es k d p) [
  | inr (s, f, a, b, q) ↦ inr (s, f, ground arith, ground arith, q)
  | inl (a, b) ↦ elim (first_record-Agree content rs es k ds p) [
    | inl (x, y) ↦ inl (ground arith, ground arith)
    | inr (s, f, x, y, q) ↦ inr (s, f, ground arith, ground arith, q)
  ]
]

get_range-IsAt :
    (content : List ℕ) (offset len : ℕ) (bytes : List ℕ)
    → length content < 2 ^ 64
    → IsAt content offset bytes
    → len ≡ length bytes
    → get_range content offset len ≡ some bytes
get_range-IsAt content offset len bytes fits at size =
    let inside = IsAt-le content offset bytes at in
    rw (at.content_is, ← at.offset_is, size)
      (get_range-append at.before bytes at.after (omega (arith, inside, at.offset_is)))

pub entry_bytes-payload :
    (b : Bundle) (r : IndexRecord) (e : Entry)
    → length b.content < 2 ^ 64
    → IsPlaced b.content r e
    → entry_bytes b r ≡ payload e
unfolding entry_bytes
entry_bytes-payload b r e fits p = elim (Bool-cases (is_tombstone e.0)) [
  | inl dead ↦ ground (arith, p.flags)
  | inr live ↦
      let (at, size) = p.stored live in
      let read : get_range b.content r.data_offset r.data_length ≡ some e.1 =
        get_range-IsAt b.content r.data_offset r.data_length e.1 fits at size in
      ground (arith, p.flags)
]
