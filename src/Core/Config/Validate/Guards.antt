-- ===== src/Core/Config/Validate/Guards.antt =====
-- What the tests of crates/hoike-core/src/config.rs say of options, lists and texts, and what a chain of
-- guards that succeeds says of each.
use hoike.Base.{
  ℕ, ◌≡◌, ◌≢◌, ◌↔◌, ◌⊎◌, refl, inl, inr, List, [], ◌∷◌, Bool, Bool-cases, true, false, not, ◌||◌,
  Option, none, some, ok, err, arith, beq_bytes, beq_bytes_iff, ◌>>◌, guard,
}
use hoike.Ahu.Verify.{is_none}
use hoike.Core.Error.{CoreResult, config}
use hoike.Core.Config.{is_empty}

pub is_some_iff : {A : Type 0} (o : Option A) → (not (is_none o) ≡ true) ↔ ((a : A) × (o ≡ some a))
is_some_iff none = (λ h. absurd (cc), λ p. absurd (cc (p.1)))
is_some_iff (some a) = (λ h. (a, refl), λ p. refl)

pub is_empty_iff : {A : Type 0} (xs : List A) → (is_empty xs ≡ true) ↔ (xs ≡ [])
is_empty_iff [] = (λ h. refl, λ e. refl)
is_empty_iff (x ∷ xs) = (λ h. absurd (cc), λ e. absurd (cc))

pub nonempty_iff : {A : Type 0} (xs : List A) → (not (is_empty xs) ≡ true) ↔ (xs ≢ [])
nonempty_iff [] = (λ h. absurd (cc), λ n. absurd (n refl))
nonempty_iff (x ∷ xs) = (λ h e. absurd (cc), λ n. refl)

pub last_guard_iff : (test : Bool) → (guard test config ≡ ok tt) ↔ (test ≡ true)
last_guard_iff true = (λ h. refl, λ e. refl)
last_guard_iff false = (λ h. absurd (cc), λ e. absurd (cc))

pub either_iff : (x a b : List ℕ) → ((beq_bytes x a || beq_bytes x b) ≡ true) ↔ ((x ≡ a) ⊎ (x ≡ b))
either_iff x a b = elim (Bool-cases (beq_bytes x a)) [
  | inl t ↦ (λ h. inl ((beq_bytes_iff x a).0 t), λ e. rw t refl)
  | inr f ↦ elim (Bool-cases (beq_bytes x b)) [
    | inl t ↦ (λ h. inr ((beq_bytes_iff x b).0 t), λ e. ground arith)
    | inr n ↦ (
      λ h. ground arith,
      λ e. elim e [
        | inl p ↦ let same = (beq_bytes_iff x a).1 p in absurd (cc (f, same))
        | inr q ↦ rw f ((beq_bytes_iff x b).1 q)
      ],
    )
  ]
]

pub then-ok : (m k : CoreResult (Unit {0})) → (m >> k) ≡ ok tt → (m ≡ ok tt) × (k ≡ ok tt)
then-ok (ok _) k h = (refl, h)
then-ok (err e) k h = absurd (cc)
