-- ===== src/Core/Storage/Failure.antt =====
-- The disk after operations of crates/hoike-core/src/storage.rs that fail.
use hoike.Base.{
  ℕ, suc, ◌≡◌, ◌⊎◌, inl, inr, refl, sym, ◌∙◌, List, [], ◌∷◌, true, false, none, some, ok, err,
  arith, length, Option-cases, beq_bytes_iff, ap, some-injective,
}
use hoike.Core.Error.{CoreError, CoreResult, durability_uncertain}
use hoike.Core.Storage.{
  FilePath, WriteOutcome, done, blocked, fails, unsynced, Disk, Exec, ◌>>=◌, pure, write_with,
  write_atomic, next_outcome, beq_path, parent,
}

-- A chain that fails does so in its first step, or in what follows a first step that succeeded.
pub >>=-err {ℓ κ} :
    {A : Type ℓ} {B : Type κ} (m : Exec A) (f : A → Exec B) (d : Disk) (x : CoreError) (d' : Disk)
    → (m >>= f) d ≡ (err x, d')
    → (m d ≡ (err x, d')) ⊎ ((a : A) × (e : Disk) × (m d ≡ (ok a, e)) × (f a e ≡ (err x, d')))
>>=-err m f d x d' h = go (m d).0 (m d).1 refl h
  where
    go :
        (r : CoreResult _) (e : Disk)
        → m d ≡ (r, e)
        → elim r [ ok a ↦ f a e | err y ↦ (err y, e) ] ≡ (err x, d')
        → (m d ≡ (err x, d')) ⊎ ((a : _) × (e : Disk) × (m d ≡ (ok a, e)) × (f a e ≡ (err x, d')))
    go (ok a) e p q = inr (a, e, p, q)
    go (err y) e p q = inl (cc)

module _ {ℓ κ} {A : Type ℓ} {B : Type κ} where
  after : (A → Exec B) → CoreResult A × Disk → CoreResult B × Disk
  after f r = let (x, e) = r in elim x [ ok a ↦ f a e | err y ↦ (err y, e) ]

  >>=-after : (m : Exec A) (f : A → Exec B) (d : Disk) → (m >>= f) d ≡ after f (m d)
  unfolding after
  >>=-after m f d = refl

  -- A chain whose first step succeeds goes on with its result.
  pub >>=-ok :
      (m : Exec A) (f : A → Exec B) (d : Disk) (a : A) (e : Disk)
      → m d ≡ (ok a, e)
      → (m >>= f) d ≡ f a e
  unfolding after
  >>=-ok m f d a e h = >>=-after m f d ∙ ap (after f) h

  -- A chain stops at its first step or goes on from it.
  pub >>=-cases :
      (m : Exec A) (f : A → Exec B) (d : Disk)
      → ((x : CoreError) × (m d ≡ (err x, (m d).1)) × ((m >>= f) d ≡ (err x, (m d).1)))
        ⊎ ((a : A) × (m d ≡ (ok a, (m d).1)) × ((m >>= f) d ≡ f a (m d).1))
  unfolding after
  >>=-cases m f d = go (m d) refl
    where
      go :
          (r : CoreResult A × Disk)
          → m d ≡ r
          → ((x : CoreError) × (r ≡ (err x, r.1)) × (after f r ≡ (err x, r.1)))
            ⊎ ((a : A) × (r ≡ (ok a, r.1)) × (after f r ≡ f a r.1))
      go (ok a, e) p = inr (a, refl, refl)
      go (err x, e) p = inl (x, refl, refl)

  -- An action whose result is only converted leaves the disk as the action does.
  pub >>=-pure : (m : Exec A) (f : A → B) (d : Disk) → ((m >>= λ a. pure (f a)) d).1 ≡ (m d).1
  unfolding after
  >>=-pure m f d =
      ap (λ (r : CoreResult B × Disk). r.1) (>>=-after m (λ a. pure (f a)) d) ∙ kept (m d)
    where
      kept : (r : CoreResult A × Disk) → (after (λ a. pure (f a)) r).1 ≡ r.1
      kept (ok a, e) = refl
      kept (err y, e) = refl

pub beq_path-length : (p q : FilePath) → beq_path p q ≡ true → length p ≡ length q
beq_path-length [] [] h = refl
beq_path-length [] (b ∷ q) h = absurd (cc)
beq_path-length (a ∷ p) [] h = absurd (cc)
beq_path-length (a ∷ p) (b ∷ q) h = ap suc (beq_path-length p q (ground arith))

pub length-parent : (p q : FilePath) → parent p ≡ some q → length p ≡ suc (length q)
length-parent [] q h = absurd (cc)
length-parent (a ∷ []) q h = ap (λ (x : FilePath). suc (length x)) (some-injective [] q h)
length-parent (a ∷ b ∷ p) q h = elim (Option-cases (parent (b ∷ p))) [
  | inl e ↦ absurd (ground arith)
  | inr (r, e) ↦ ground (arith, length-parent (b ∷ p) r e)
]

pub length-parent-none : (p : FilePath) → parent p ≡ none → length p ≡ 0
length-parent-none [] h = refl
length-parent-none (a ∷ []) h = absurd (cc)
length-parent-none (a ∷ b ∷ p) h = elim (Option-cases (parent (b ∷ p))) [
  | inl e ↦ absurd (omega (arith, length-parent-none (b ∷ p) e))
  | inr (r, e) ↦ absurd (ground arith)
]

pub beq_path_refl : (p : FilePath) → beq_path p p ≡ true
beq_path_refl [] = refl
beq_path_refl (a ∷ p) = ground (arith, beq_bytes_iff a a, beq_path_refl p)

-- A write to one path leaves the others.
pub write_atomic_elsewhere :
    (path q : FilePath) (bytes : List ℕ) (d : Disk)
    → beq_path path q ≡ false
    → (write_atomic path bytes d).1.files q ≡ d.files q
unfolding write_atomic
write_atomic_elsewhere path q bytes d h = by_outcome (next_outcome d.outcomes).0
  where
    by_outcome :
        (o : WriteOutcome)
        → (write_with (o, (next_outcome d.outcomes).1) path bytes d).1.files q ≡ d.files q
    by_outcome done = rw h refl
    by_outcome blocked = refl
    by_outcome fails = refl
    by_outcome unsynced = rw h refl

-- A write that fails left the file, or says that the path's durability is uncertain.
pub write_atomic-err :
    (path : FilePath) (bytes : List ℕ) (d d' : Disk) (x : CoreError)
    → write_atomic path bytes d ≡ (err x, d')
    → (d'.files path ≡ d.files path) ⊎ (x ≡ durability_uncertain path)
unfolding write_atomic
write_atomic-err path bytes d d' x h = by_outcome (next_outcome d.outcomes).0 h
  where
    by_outcome :
        (o : WriteOutcome)
        → write_with (o, (next_outcome d.outcomes).1) path bytes d ≡ (err x, d')
        → (d'.files path ≡ d.files path) ⊎ (x ≡ durability_uncertain path)
    by_outcome done h = absurd (cc)
    by_outcome blocked h = inl (ap (λ (r : CoreResult (Unit {0}) × Disk). r.1.files path) (sym h))
    by_outcome fails h = inl (ap (λ (r : CoreResult (Unit {0}) × Disk). r.1.files path) (sym h))
    by_outcome unsynced h = inr (ground arith)
