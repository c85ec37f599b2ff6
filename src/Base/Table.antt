-- ===== src/Base/Table.antt =====
-- A `HashMap` with keys of any type as a list of pairs. The order of iteration is not modelled.
use Prim.Native.Nat.{suc, ◌≤◌}
use mathlib.Core.Path.{◌≡◌, refl, subst}
use mathlib.Core.Logic.{◌↔◌, inl, inr}
use mathlib.Core.Bool.{Bool, true, false}
use mathlib.Core.Option.{Option, none, some, some-injective}
use mathlib.Core.List.{List, [], ◌∷◌}
use native.Mathlib.Omega.{arith}
use hoike.Base.Tests.{if◌then◌else◌, Bool-cases}
use hoike.Base.Lists.{length}

-- The comparison of the keys.
pub record Key {ℓ} (K : Type ℓ) : Type ℓ where
  pub beq : K → K → Bool
  pub beq_iff : (a b : K) → (beq a b ≡ true) ↔ (a ≡ b)

abbrev pub Table {ℓ κ} : Type ℓ → Type κ → Type (ℓ ⊔ κ)
Table K V = List (K × V)

module _ {ℓ κ} {K : Type ℓ} {V : Type κ} where
  -- `HashMap::retain`
  unfoldable pub retain : (V → Bool) → Table K V → Table K V
  retain keeps [] = []
  retain keeps ((k, v) ∷ m) = let rest = retain keeps m in if keeps v then (k, v) ∷ rest else rest

  pub length-retain-le : (keeps : V → Bool) (m : Table K V) → length (retain keeps m) ≤ length m
  unfolding retain
  length-retain-le keeps [] = ground arith
  length-retain-le keeps ((k, v) ∷ m) = ground (arith, length-retain-le keeps m)

  -- A property of every pair.
  abbrev pub AllPairs {μ} : (K → V → Type μ) → Table K V → Type μ
  AllPairs P [] = Unit
  AllPairs P ((k, v) ∷ m) = P k v × AllPairs P m

  pub AllPairs-retain {μ} :
      (P : K → V → Type μ) (keeps : V → Bool) (m : Table K V)
      → AllPairs P m
      → AllPairs P (retain keeps m)
  unfolding retain
  AllPairs-retain P keeps [] a = a
  AllPairs-retain P keeps ((k, v) ∷ m) a = elim (Bool-cases (keeps v)) [
    | inl t ↦ rw t (a.0, AllPairs-retain P keeps m a.1)
    | inr f ↦ rw f (AllPairs-retain P keeps m a.1)
  ]

  pub AllPairs-weaken {μ} :
      (P Q : K → V → Type μ) (m : Table K V)
      → ((k : K) (v : V) → P k v → Q k v)
      → AllPairs P m
      → AllPairs Q m
  AllPairs-weaken P Q [] h a = a
  AllPairs-weaken P Q ((k, v) ∷ m) h a = (h k v a.0, AllPairs-weaken P Q m h a.1)

  module _ ⦃key : Key K⦄ where
    unfoldable pub lookup : K → Table K V → Option V
    lookup k [] = none
    lookup k ((j, v) ∷ m) = if key.beq j k then some v else lookup k m

    abbrev pub contains_key : K → Table K V → Bool
    contains_key k m = elim (lookup k m) [ none ↦ false | some v ↦ true ]

    unfoldable pub insert : K → V → Table K V → Table K V
    insert k v [] = (k, v) ∷ []
    insert k v ((j, w) ∷ m) = if key.beq j k then (k, v) ∷ m else (j, w) ∷ insert k v m

    pub lookup-insert :
        (k j : K) (v : V) (m : Table K V)
        → lookup j (insert k v m) ≡ (if key.beq k j then some v else lookup j m)
    unfolding lookup insert
    lookup-insert k j v [] = refl
    lookup-insert k j v ((i, w) ∷ m) =
        ground (arith, key.beq_iff k j, key.beq_iff i k, key.beq_iff i j, lookup-insert k j v m)

    pub length-insert :
        (k : K) (v : V) (m : Table K V)
        → length (insert k v m) ≡ (if contains_key k m then length m else suc (length m))
    unfolding lookup insert
    length-insert k v [] = refl
    length-insert k v ((i, w) ∷ m) = ground (arith, length-insert k v m)

    pub AllPairs-insert {μ} :
        (P : K → V → Type μ) (k : K) (v : V) (m : Table K V)
        → P k v
        → AllPairs P m
        → AllPairs P (insert k v m)
    unfolding insert
    AllPairs-insert P k v [] p a = (p, tt)
    AllPairs-insert P k v ((j, w) ∷ m) p a = elim (Bool-cases (key.beq j k)) [
      | inl t ↦ rw t (p, a.1)
      | inr f ↦ rw f (a.0, AllPairs-insert P k v m p a.1)
    ]

    pub AllPairs-lookup {μ} :
        (P : K → V → Type μ) (k : K) (v : V) (m : Table K V)
        → AllPairs P m
        → lookup k m ≡ some v
        → P k v
    unfolding lookup
    AllPairs-lookup P k v [] a h = absurd (cc)
    AllPairs-lookup P k v ((j, w) ∷ m) a h = elim (Bool-cases (key.beq j k)) [
      | inl t ↦
          let same : w ≡ v = some-injective w v (rw t at h) in
          subst (λ (x : V). P k x) same (subst (λ (i : K). P i w) ((key.beq_iff j k).0 t) a.0)
      | inr f ↦ AllPairs-lookup P k v m a.1 (rw f at h)
    ]

    -- What is kept of a key is found again.
    pub lookup-retain :
        (keeps : V → Bool) (k : K) (v : V) (m : Table K V)
        → lookup k m ≡ some v
        → keeps v ≡ true
        → lookup k (retain keeps m) ≡ some v
    unfolding lookup retain
    lookup-retain keeps k v [] h e = h
    lookup-retain keeps k v ((i, w) ∷ m) h e = ground (arith, lookup-retain keeps k v m)
