-- ===== src/Base/Search.antt =====
-- `slice::binary_search_by` of Rust's standard library: the halving loop over a base and a size.
use Prim.Native.Nat.{ℕ, zero, suc, ◌+◌, ◌-◌, ◌/◌, ◌≤◌, ◌<◌, Ordering}
use mathlib.Core.Path.{◌≡◌, refl, ◌∙◌, sym}
use mathlib.Core.Logic.{◌≢◌, inl, inr}
use mathlib.Core.Option.{Option, none, some}
use mathlib.Core.List.{List, [], ◌∷◌}
use native.Mathlib.Omega.{arith}
use native.Mathlib.Decide.{dec_lt}
use hoike.Base.Tests.{ltb, if◌then◌else◌, Option-cases}
use hoike.Base.Lists.{length, get_elem?, get_elem?-lt}
use hoike.Base.Order.{is_eq}

module _ {ℓ} {A : Type ℓ} (f : A → Ordering) where
  -- The reference: the first element that compares equal.
  unfoldable pub find_index : List A → Option ℕ
  find_index [] = none
  find_index (y ∷ ys) =
      let later = find_index ys in
      if is_eq (f y) then some 0 else elim later [ some i ↦ some (suc i) | none ↦ none ]

  pub find_index_sound :
      (ys : List A) (i : ℕ)
      → find_index ys ≡ some i
      → (y : A) × (get_elem? ys i ≡ some y) × (f y ≡ Ordering.eq)
  unfolding find_index
  find_index_sound [] i h = absurd (cc)
  find_index_sound (y ∷ ys) zero h = (y, refl, ground arith)
  find_index_sound (y ∷ ys) (suc i) h = find_index_sound ys i (ground arith)

  find_index-none :
      (ys : List A) (i : ℕ) (y : A)
      → find_index ys ≡ none
      → get_elem? ys i ≡ some y
      → f y ≢ Ordering.eq
  unfolding find_index
  find_index-none [] i y h g e = cc
  find_index-none (z ∷ ys) zero y h g e = ground arith
  find_index-none (z ∷ ys) (suc i) y h g e = find_index-none ys i y (ground arith) g e

module _ {ℓ} {A : Type ℓ} (f : A → Ordering) (xs : List A) where
  -- The comparison at an index; the loop only asks at indices in range.
  unfoldable pub probe : ℕ → Ordering
  probe i = elim (get_elem? xs i) [ some x ↦ f x | none ↦ Ordering.gt ]

  -- `while size > 1`: at most `length xs` rounds, since every round takes off at least one.
  unfoldable pub narrow : ℕ → ℕ → ℕ → ℕ
  narrow zero base size = base
  narrow (suc fuel) base size =
      let half = size / 2 in
      let mid = base + half in
      let next : ℕ = elim (probe mid) [ Ordering.gt ↦ base | _ ↦ mid ] in
      let rest = narrow fuel next (size - half) in if ltb 1 size then rest else base

  unfoldable pub binary_search_by : Option ℕ
  unfolding narrow probe
  binary_search_by =
      let base = narrow (length xs) 0 (length xs) in
      if ltb 0 (length xs) then (if is_eq (probe base) then some base else none) else none

  -- What is found compares equal, whatever the order of the list.
  pub binary_search_by_sound :
      (i : ℕ)
      → binary_search_by ≡ some i
      → (x : A) × (get_elem? xs i ≡ some x) × (f x ≡ Ordering.eq)
  unfolding binary_search_by
  binary_search_by_sound i h = elim (Option-cases (get_elem? xs i)) [
    | inl out ↦ absurd (ground arith)
    | inr (x, found) ↦ (x, found, ground arith)
  ]

  -- From an element that is equal or greater on, all are greater.
  abbrev pub Splits : Type 0
  Splits = (i j : ℕ) → i < j → j < length xs → probe i ≢ Ordering.lt → probe j ≡ Ordering.gt

  -- Greater at `m` puts the hit at `t` before `m`, and any other answer at or after it.
  hit_lt :
      Splits → (t m : ℕ) → t < length xs → probe t ≡ Ordering.eq → probe m ≡ Ordering.gt → t < m
  hit_lt s t m ht e g = elim (dec_lt t m) [
    | yes h ↦ h
    | no h ↦ elim (dec_lt m t) [
      | yes k ↦ absurd (cc (s m t k ht (λ l. cc)))
      | no k ↦ let same : t ≡ m = omega arith in absurd (cc)
    ]
  ]

  hit_ge :
      Splits → (t m : ℕ) → m < length xs → probe t ≡ Ordering.eq → probe m ≢ Ordering.gt → m ≤ t
  hit_ge s t m hm e g = elim (dec_lt t m) [
    | yes h ↦ absurd (g (s t m h hm (λ l. cc)))
    | no h ↦ omega arith
  ]

  narrow-finds :
      Splits
      → (t : ℕ) → t < length xs
      → probe t ≡ Ordering.eq
      → (fuel base size : ℕ) → size ≤ suc fuel
      → base ≤ t
      → t < base + size
      → base + size ≤ length xs
      → narrow fuel base size ≡ t
  unfolding narrow
  narrow-finds s t ht e zero base size hf hb hs hl = omega arith
  narrow-finds s t ht e (suc fuel) base size hf hb hs hl = elim (dec_lt 1 size) [
    | no one ↦ ground arith
    | yes more ↦ ground (
      arith,
      hit_lt s t (base + size / 2) ht e,
      hit_ge s t (base + size / 2) (omega arith) e,
      narrow-finds s t ht e fuel base (size - size / 2),
      narrow-finds s t ht e fuel (base + size / 2) (size - size / 2),
    )
  ]

  pub binary_search_by_complete :
      Splits
      → (t : ℕ) (x : A) → get_elem? xs t ≡ some x
      → f x ≡ Ordering.eq
      → binary_search_by ≡ some t
  unfolding binary_search_by probe
  binary_search_by_complete s t x g e =
      let ht : t < length xs = get_elem?-lt xs t x g in
      let hit : probe t ≡ Ordering.eq = rw (g, probe) e in
      rw
        (narrow-finds s t ht hit (length xs) 0 (length xs) (omega arith) (omega arith) (omega arith)
          (omega arith))
        (ground arith)

  -- On a list that the comparison splits, the halving loop answers as the walk does.
  pub binary_search_by-eq-find_index : Splits → binary_search_by ≡ find_index f xs
  binary_search_by-eq-find_index s = elim (Option-cases (find_index f xs)) [
    | inr (t, e) ↦
        let (y, g, hit) = find_index_sound f xs t e in binary_search_by_complete s t y g hit ∙ sym e
    | inl e ↦ elim (Option-cases binary_search_by) [
      | inl n ↦ n ∙ sym e
      | inr (i, b) ↦
          let (y, g, hit) = binary_search_by_sound i b in absurd (find_index-none f xs i y e g hit)
    ]
  ]
