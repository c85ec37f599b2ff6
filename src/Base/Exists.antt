-- ===== src/Base/Exists.antt =====
-- `Iterator::any` on a list.
use Prim.Native.Nat.{ℕ, zero, suc}
use mathlib.Core.Path.{◌≡◌, refl, sym}
use mathlib.Core.Logic.{◌⊎◌, inl, inr}
use mathlib.Core.Bool.{Bool, true, false, ◌||◌}
use mathlib.Core.Option.{some, some-injective}
use mathlib.Core.List.{List, [], ◌∷◌, ◌++◌, map}
use native.Mathlib.Omega.{arith}
use hoike.Base.Tests.{Bool-cases}
use hoike.Base.Lists.{get_elem?, length, take, drop}

module _ {ℓ} {A : Type ℓ} where
  unfoldable pub exists_in : (A → Bool) → List A → Bool
  exists_in test [] = false
  exists_in test (x ∷ xs) = test x || exists_in test xs

  -- Where a test is met.
  pub exists_in_sound :
      (test : A → Bool) (xs : List A)
      → exists_in test xs ≡ true
      → (i : ℕ) × (x : A) × (get_elem? xs i ≡ some x) × (test x ≡ true)
  unfolding exists_in
  exists_in_sound test [] h = absurd (cc)
  exists_in_sound test (x ∷ xs) h = elim (Bool-cases (test x)) [
    | inl e ↦ (0, x, refl, e)
    | inr e ↦
        let (i, y, at, found) = exists_in_sound test xs (ground arith) in (suc i, y, at, found)
  ]

  pub exists_in_at :
      (test : A → Bool) (xs : List A) (i : ℕ) (x : A)
      → get_elem? xs i ≡ some x
      → test x ≡ true
      → exists_in test xs ≡ true
  unfolding exists_in
  exists_in_at test [] i x at h = absurd (cc)
  exists_in_at test (y ∷ xs) zero x at h = ground arith
  exists_in_at test (y ∷ xs) (suc i) x at h = ground (arith, exists_in_at test xs i x at h)

pub get_elem?-map {ℓ κ} :
    {A : Type ℓ} {B : Type κ} (f : A → B) (xs : List A) (i : ℕ) (x : A)
    → get_elem? xs i ≡ some x
    → get_elem? (map f xs) i ≡ some (f x)
get_elem?-map f [] i x h = absurd (cc)
get_elem?-map f (y ∷ xs) zero x h = ground arith
get_elem?-map f (y ∷ xs) (suc i) x h = get_elem?-map f xs i x h

-- `Vec::push`
pub get_elem?-push {ℓ} :
    {A : Type ℓ} (xs : List A) (x : A) → get_elem? (xs ++ x ∷ []) (length xs) ≡ some x
get_elem?-push [] x = refl
get_elem?-push (y ∷ xs) x = get_elem?-push xs x

pub get_elem?-of_push {ℓ} :
    {A : Type ℓ} (xs : List A) (x : A) (i : ℕ) (y : A)
    → get_elem? (xs ++ x ∷ []) i ≡ some y
    → (get_elem? xs i ≡ some y) ⊎ (y ≡ x)
get_elem?-of_push [] x zero y h = inr (some-injective y x (sym h))
get_elem?-of_push [] x (suc i) y h = absurd (cc)
get_elem?-of_push (z ∷ xs) x zero y h = inl h
get_elem?-of_push (z ∷ xs) x (suc i) y h = get_elem?-of_push xs x i y h

-- An element that is pushed leaves the others in their places.
pub get_elem?-below_push {ℓ} :
    {A : Type ℓ} (xs : List A) (x : A) (i : ℕ) (y : A)
    → get_elem? xs i ≡ some y
    → get_elem? (xs ++ x ∷ []) i ≡ some y
get_elem?-below_push [] x i y h = absurd (cc)
get_elem?-below_push (z ∷ xs) x zero y h = h
get_elem?-below_push (z ∷ xs) x (suc i) y h = get_elem?-below_push xs x i y h

-- An element stands somewhere in the list.
abbrev pub Has {ℓ} : {A : Type ℓ} → List A → A → Type ℓ
Has xs a = (i : ℕ) × (get_elem? xs i ≡ some a)

module _ {ℓ} {A : Type ℓ} where
  pub Has-append_left : (xs ys : List A) (a : A) → Has xs a → Has (xs ++ ys) a
  Has-append_left [] ys a (i, h) = absurd (cc)
  Has-append_left (x ∷ xs) ys a (zero, h) = (0, h)
  Has-append_left (x ∷ xs) ys a (suc i, h) =
      let (j, k) = Has-append_left xs ys a (i, h) in (suc j, k)

  pub Has-append_right : (xs ys : List A) (a : A) → Has ys a → Has (xs ++ ys) a
  Has-append_right [] ys a h = h
  Has-append_right (x ∷ xs) ys a h = let (j, k) = Has-append_right xs ys a h in (suc j, k)

  pub Has-drop_or_take :
      (n : ℕ) (xs : List A) (a : A) → Has xs a → Has (take n xs) a ⊎ Has (drop n xs) a
  Has-drop_or_take zero xs a h = inr h
  Has-drop_or_take (suc n) [] a (i, h) = absurd (cc)
  Has-drop_or_take (suc n) (x ∷ xs) a (zero, h) = inl (0, h)
  Has-drop_or_take (suc n) (x ∷ xs) a (suc i, h) = elim (Has-drop_or_take n xs a (i, h)) [
    | inl (j, k) ↦ inl (suc j, k)
    | inr k ↦ inr k
  ]
