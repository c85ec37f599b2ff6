-- ===== src/Ahu/Index/Order.antt =====
-- The order of the records that crates/ahu/src/index.rs checks.
use hoike.Base.{
  ℕ, ◌+◌, ◌≡◌, refl, ◌↔◌, List, [], ◌∷◌, arith, ok, Ordering, IsOrder, cmp_bytes-IsOrder, All,
}
use hoike.Ahu.Index.{IndexRecord, name_of, cmp_name, validate_from, validate_sort_order}

-- Names are totally ordered: by key, and by discriminator under one key.
pub cmp_name-IsOrder : IsOrder cmp_name
cmp_name-IsOrder = record {
  refl_eq = λ a. ground (arith, cmp_bytes-IsOrder.refl_eq a.0);
  eq_of = λ a b h. ground (arith, cmp_bytes-IsOrder.eq_of a.0 b.0);
  flips = λ a b. ground (arith, cmp_bytes-IsOrder.flips a.0 b.0);
  trans = λ a b c h k. ground (
    arith,
    cmp_bytes-IsOrder.trans a.0 b.0 c.0,
    cmp_bytes-IsOrder.eq_of a.0 b.0,
    cmp_bytes-IsOrder.eq_of b.0 c.0,
    cmp_bytes-IsOrder.refl_eq b.0,
  );
}

-- Every record's name is below the names of all that follow it.
abbrev pub IsSorted : List IndexRecord → Type 0
IsSorted [] = Unit
IsSorted (r ∷ rs) = All (λ s. cmp_name (name_of r) (name_of s) ≡ Ordering.lt) rs × IsSorted rs

pub All-lt_trans :
    (r s : IndexRecord) (rs : List IndexRecord)
    → cmp_name (name_of r) (name_of s) ≡ Ordering.lt
    → All (λ t. cmp_name (name_of s) (name_of t) ≡ Ordering.lt) rs
    → All (λ t. cmp_name (name_of r) (name_of t) ≡ Ordering.lt) rs
All-lt_trans r s [] h a = tt
All-lt_trans r s (t ∷ rs) h a =
    (cmp_name-IsOrder.trans (name_of r) (name_of s) (name_of t) h a.0, All-lt_trans r s rs h a.1)

validate_from_sound : (i : ℕ) (rs : List IndexRecord) → validate_from i rs ≡ ok tt → IsSorted rs
unfolding validate_from
validate_from_sound i [] h = tt
validate_from_sound i (r ∷ []) h = (tt, tt)
validate_from_sound i (r ∷ s ∷ rest) h =
    let first : cmp_name (name_of r) (name_of s) ≡ Ordering.lt = ground arith in
    let tail : IsSorted (s ∷ rest) = validate_from_sound (i + 1) (s ∷ rest) (ground arith) in
    ((first, All-lt_trans r s rest first tail.0), tail)

validate_from_complete : (i : ℕ) (rs : List IndexRecord) → IsSorted rs → validate_from i rs ≡ ok tt
unfolding validate_from
validate_from_complete i [] h = refl
validate_from_complete i (r ∷ []) h = refl
validate_from_complete i (r ∷ s ∷ rest) h =
    ground (arith, h.0.0, validate_from_complete (i + 1) (s ∷ rest) h.1)

-- `validate_sort_order` returns Ok exactly on the lists whose names, key and then discriminator,
-- strictly ascend.
pub validate_sort_order_iff :
    (rs : List IndexRecord) → (validate_sort_order rs ≡ ok tt) ↔ IsSorted rs
unfolding validate_sort_order
validate_sort_order_iff rs = (validate_from_sound 0 rs, validate_from_complete 0 rs)
