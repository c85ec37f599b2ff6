-- ===== src/Base/Order.antt =====
-- Rust's `Ord` on byte strings: `cmp` and `Ordering::then`, with their laws.
use Prim.Native.Nat.{ℕ, compare, Ordering}
use mathlib.Core.Path.{◌≡◌, refl, ap, sym, ◌∙◌, subst}
use mathlib.Core.Logic.{◌≢◌, ◌↔◌}
use mathlib.Core.Bool.{Bool, true, false, false≢true}
use mathlib.Core.List.{List, [], ◌∷◌}
use native.Mathlib.Omega.{arith}

-- `Ordering::then`
abbrev pub then_cmp : Ordering → Ordering → Ordering
then_cmp Ordering.lt b = Ordering.lt
then_cmp Ordering.eq b = b
then_cmp Ordering.gt b = Ordering.gt

abbrev pub flip : Ordering → Ordering
flip Ordering.lt = Ordering.gt
flip Ordering.eq = Ordering.eq
flip Ordering.gt = Ordering.lt

-- `<[u8] as Ord>::cmp`: lexicographic.
unfoldable pub cmp_bytes : List ℕ → List ℕ → Ordering
cmp_bytes [] [] = Ordering.eq
cmp_bytes [] (y ∷ ys) = Ordering.lt
cmp_bytes (x ∷ xs) [] = Ordering.gt
cmp_bytes (x ∷ xs) (y ∷ ys) = let rest = cmp_bytes xs ys in then_cmp (compare x y) rest

abbrev pub is_eq : Ordering → Bool
is_eq Ordering.eq = true
is_eq _ = false

-- What the code relies on of a comparison.
pub record IsOrder {ℓ} {A : Type ℓ} (cmp : A → A → Ordering) : Type ℓ where
  pub refl_eq : (a : A) → cmp a a ≡ Ordering.eq
  pub eq_of : (a b : A) → cmp a b ≡ Ordering.eq → a ≡ b
  pub flips : (a b : A) → cmp b a ≡ flip (cmp a b)
  pub trans : (a b c : A) → cmp a b ≡ Ordering.lt → cmp b c ≡ Ordering.lt → cmp a c ≡ Ordering.lt

pub compare-IsOrder : IsOrder compare
compare-IsOrder = record {
  refl_eq = λ a. ground arith;
  eq_of = λ a b h. ground arith;
  flips = λ a b. ground arith;
  trans = λ a b c h k. ground arith;
}

cmp_bytes_refl : (a : List ℕ) → cmp_bytes a a ≡ Ordering.eq
unfolding cmp_bytes
cmp_bytes_refl [] = refl
cmp_bytes_refl (x ∷ a) = ground (arith, cmp_bytes_refl a)

cmp_bytes-eq : (a b : List ℕ) → cmp_bytes a b ≡ Ordering.eq → a ≡ b
unfolding cmp_bytes
cmp_bytes-eq [] [] h = refl
cmp_bytes-eq [] (y ∷ b) h = absurd (cc)
cmp_bytes-eq (x ∷ a) [] h = absurd (cc)
cmp_bytes-eq (x ∷ a) (y ∷ b) h = ground (arith, cmp_bytes-eq a b)

cmp_bytes-flip : (a b : List ℕ) → cmp_bytes b a ≡ flip (cmp_bytes a b)
unfolding cmp_bytes
cmp_bytes-flip [] [] = refl
cmp_bytes-flip [] (y ∷ b) = refl
cmp_bytes-flip (x ∷ a) [] = refl
cmp_bytes-flip (x ∷ a) (y ∷ b) = ground (arith, cmp_bytes-flip a b)

cmp_bytes_trans :
    (a b c : List ℕ)
    → cmp_bytes a b ≡ Ordering.lt
    → cmp_bytes b c ≡ Ordering.lt
    → cmp_bytes a c ≡ Ordering.lt
unfolding cmp_bytes
cmp_bytes_trans [] [] c h k = absurd (cc)
cmp_bytes_trans [] (y ∷ b) [] h k = absurd (cc)
cmp_bytes_trans [] (y ∷ b) (z ∷ c) h k = refl
cmp_bytes_trans (x ∷ a) [] c h k = absurd (cc)
cmp_bytes_trans (x ∷ a) (y ∷ b) [] h k = absurd (cc)
cmp_bytes_trans (x ∷ a) (y ∷ b) (z ∷ c) h k = ground (arith, cmp_bytes_trans a b c)

pub cmp_bytes-IsOrder : IsOrder cmp_bytes
cmp_bytes-IsOrder = record {
  refl_eq = cmp_bytes_refl;
  eq_of = cmp_bytes-eq;
  flips = cmp_bytes-flip;
  trans = cmp_bytes_trans;
}

-- `==` on byte strings.
abbrev pub beq_bytes : List ℕ → List ℕ → Bool
beq_bytes a b = is_eq (cmp_bytes a b)

is_eq-true : (o : Ordering) → is_eq o ≡ true → o ≡ Ordering.eq
is_eq-true Ordering.lt h = absurd (cc)
is_eq-true Ordering.eq h = refl
is_eq-true Ordering.gt h = absurd (cc)

pub beq_bytes-true : (a b : List ℕ) → beq_bytes a b ≡ true → a ≡ b
beq_bytes-true a b h = cmp_bytes-eq a b (is_eq-true (cmp_bytes a b) h)

pub beq_bytes_refl : (a : List ℕ) → beq_bytes a a ≡ true
beq_bytes_refl a = ap is_eq (cmp_bytes_refl a)

pub beq_bytes-false : (a b : List ℕ) → beq_bytes a b ≡ false → a ≢ b
beq_bytes-false a b h e =
    false≢true (sym h ∙ subst (λ c. beq_bytes a c ≡ true) e (beq_bytes_refl a))

-- What lies above an element that is not below `t` is above `t`.
pub gt_of_lt {ℓ} :
    {A : Type ℓ} {cmp : A → A → Ordering} (o : IsOrder cmp) (a b t : A)
    → cmp a b ≡ Ordering.lt
    → cmp a t ≢ Ordering.lt
    → cmp b t ≡ Ordering.gt
gt_of_lt {cmp = cmp} o a b t h n = go (cmp a t) refl
  where
    go : (v : Ordering) → cmp a t ≡ v → cmp b t ≡ Ordering.gt
    go Ordering.lt e = absurd (n e)
    go Ordering.eq e = cc (o.eq_of a t e, o.flips a b, ap flip h)
    go Ordering.gt e = cc (o.flips t b, ap flip (o.trans t a b (cc (o.flips a t, ap flip e)) h))

pub beq_bytes_iff : (a b : List ℕ) → (beq_bytes a b ≡ true) ↔ (a ≡ b)
beq_bytes_iff a b =
    (beq_bytes-true a b, λ e. subst (λ c. beq_bytes a c ≡ true) e (beq_bytes_refl a))
