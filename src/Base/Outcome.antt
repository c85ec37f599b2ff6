-- ===== src/Base/Outcome.antt =====
-- Rust's `Result` and the methods of `Option` that lead to it.
use mathlib.Core.Path.{◌≡◌, refl}
use mathlib.Core.Logic.{◌⊎◌, ◌↔◌, inl, inr}
use mathlib.Core.Bool.{Bool, true, false}
use mathlib.Core.Option.{Option, none, some}

pub data Result {ℓ} (E : Type 0) (A : Type ℓ) : Type ℓ where
  ok : A → Result E A
  err : E → Result E A

pub Result-cases {ℓ} :
    {E : Type 0} {A : Type ℓ} (r : Result E A) → ((a : A) × (r ≡ ok a)) ⊎ ((e : E) × (r ≡ err e))
Result-cases (ok a) = inl (a, refl)
Result-cases (err e) = inr (e, refl)

-- `Option::and_then`, and `?` on an option.
abbrev pub and_then {ℓ κ} : {A : Type ℓ} {B : Type κ} → Option A → (A → Option B) → Option B
and_then none f = none
and_then (some a) f = f a

module _ {E : Type 0} where
  -- `Option::ok_or`
  abbrev pub ok_or {ℓ} : {A : Type ℓ} → Option A → E → Result E A
  ok_or (some a) e = ok a
  ok_or none e = err e

  -- `if (!test) { return Err(e); }`
  abbrev pub guard : Bool → E → Result E (Unit {0})
  guard false e = err e
  guard true _ = ok tt

  -- The `?` operator.
  infixl 5 ◌>>=◌
  abbrev pub ◌>>=◌ {ℓ κ} : {A : Type ℓ} {B : Type κ} → Result E A → (A → Result E B) → Result E B
  err e >>= _ = err e
  ok a >>= next = next a

  infixl 5 ◌>>◌
  abbrev pub ◌>>◌ {ℓ κ} : {A : Type ℓ} {B : Type κ} → Result E A → Result E B → Result E B
  first >> second = elim first [ err e ↦ err e | ok _ ↦ second ]

-- What a chain that succeeds has gone through.
pub bind-ok {ℓ κ} :
    {E : Type 0} {A : Type ℓ} {B : Type κ} (m : Result E A) (f : A → Result E B) (b : B)
    → (m >>= f) ≡ ok b
    → (a : A) × (m ≡ ok a) × (f a ≡ ok b)
bind-ok (ok a) f b h = (a, refl, h)
bind-ok (err e) f b h = absurd (cc)

pub guard-ok {ℓ} :
    {E : Type 0} {B : Type ℓ} (test : Bool) (e : E) (m : Result E B) (b : B)
    → (guard test e >> m) ≡ ok b
    → (test ≡ true) × (m ≡ ok b)
guard-ok true e m b h = (refl, h)
guard-ok false e m b h = absurd (cc)

pub guard_iff {ℓ} :
    {E : Type 0} {B : Type ℓ} (test : Bool) (e : E) (m : Result E B) (b : B)
    → ((guard test e >> m) ≡ ok b) ↔ ((test ≡ true) × (m ≡ ok b))
guard_iff true e m b = (λ h. (refl, h), λ p. p.1)
guard_iff false e m b = (λ h. absurd (cc), λ p. absurd (cc (p.0)))
