-- ===== src/Base/Assoc.antt =====
-- A `HashMap` with text keys as an association list. The order of iteration is not modelled.
use Prim.Native.Nat.{ℕ}
use mathlib.Core.Path.{◌≡◌, refl}
use mathlib.Core.Option.{Option, none, some}
use mathlib.Core.List.{List, [], ◌∷◌}
use native.Mathlib.Omega.{arith}
use hoike.Base.Tests.{if◌then◌else◌}
use hoike.Base.Order.{beq_bytes, beq_bytes_iff}

abbrev pub Assoc {ℓ} : Type ℓ → Type ℓ
Assoc V = List (List ℕ × V)

module _ {ℓ} {V : Type ℓ} where
  unfoldable pub lookup : List ℕ → Assoc V → Option V
  lookup k [] = none
  lookup k ((j, v) ∷ m) = if beq_bytes j k then some v else lookup k m

  unfoldable pub insert : List ℕ → V → Assoc V → Assoc V
  insert k v [] = (k, v) ∷ []
  insert k v ((j, w) ∷ m) = if beq_bytes j k then (k, v) ∷ m else (j, w) ∷ insert k v m

  pub lookup-insert :
      (k j : List ℕ) (v : V) (m : Assoc V)
      → lookup j (insert k v m) ≡ (if beq_bytes k j then some v else lookup j m)
  unfolding lookup insert
  lookup-insert k j v [] = refl
  lookup-insert k j v ((i, w) ∷ m) =
      ground (arith, beq_bytes_iff k j, beq_bytes_iff i k, beq_bytes_iff i j, lookup-insert k j v m)
