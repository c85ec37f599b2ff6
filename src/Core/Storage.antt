-- ===== src/Core/Storage.antt =====
-- crates/hoike-core/src/storage.rs: atomic replacement of files, over an explicit disk. A path is the
-- list of its components. What the operating system answers to the writes comes from a schedule.
pub mod Failure
use hoike.Base.{
  ℕ, List, [], ◌∷◌, Bool, Option, none, some, ok, err, ◌≡◌, refl, if◌then◌else◌, beq_bytes, ◌&&◌,
}
use hoike.Core.Error.{CoreResult, io, state_store, durability_uncertain}

abbrev pub FilePath : Type 0
FilePath = List (List ℕ)

-- `done`: every call succeeded. `blocked`: the directory could not be created. `fails`: one before the rename or the rename itself failed.
-- `unsynced`: the directory could not be synced after the rename.
pub data WriteOutcome : Type 0 where
  done blocked fails unsynced : WriteOutcome

-- Beside the files: the answers to the writes to come, the directories that can be created, and the
-- files that can be removed.
pub record Disk : Type 0 where
  pub files : FilePath → Option (List ℕ)
  pub outcomes : List WriteOutcome
  pub creatable : FilePath → Bool
  pub removable : FilePath → Bool

-- An operation on the disk; what it did before an error stays done.
abbrev pub Exec {ℓ} : Type ℓ → Type ℓ
Exec A = Disk → CoreResult A × Disk

infixl 5 ◌>>=◌ ◌>>◌
abbrev pub ◌>>=◌ {ℓ κ} : {A : Type ℓ} {B : Type κ} → Exec A → (A → Exec B) → Exec B
◌>>=◌ m f d = let (r, d') = m d in elim r [ ok a ↦ f a d' | err e ↦ (err e, d') ]

abbrev pub ◌>>◌ {ℓ κ} : {A : Type ℓ} {B : Type κ} → Exec A → Exec B → Exec B
m >> k = m >>= λ _. k

abbrev pub pure {ℓ} : {A : Type ℓ} → A → Exec A
pure a d = (ok a, d)

abbrev pub lift {ℓ} : {A : Type ℓ} → CoreResult A → Exec A
lift r d = (r, d)

abbrev pub beq_path : FilePath → FilePath → Bool
beq_path [] [] = Bool.true
beq_path (a ∷ p) (b ∷ q) = beq_bytes a b && beq_path p q
beq_path _ _ = Bool.false

abbrev pub replace : FilePath → List ℕ → (FilePath → Option (List ℕ)) → FilePath → Option (List ℕ)
replace path bytes files p = if beq_path path p then some bytes else files p

-- The environment's answer to the next write; an exhausted schedule has no more failures.
abbrev pub next_outcome : List WriteOutcome → WriteOutcome × List WriteOutcome
next_outcome [] = (done, [])
next_outcome (o ∷ os) = (o, os)

pub write_with : WriteOutcome × List WriteOutcome → FilePath → List ℕ → Exec (Unit {0})
write_with (done, os) path bytes d =
    (ok tt, record d { files = replace path bytes d.files; outcomes = os })
write_with (blocked, os) path bytes d = (err state_store, record d { outcomes = os })
write_with (fails, os) path bytes d = (err io, record d { outcomes = os })
write_with (unsynced, os) path bytes d = (
  err (durability_uncertain path),
  record d { files = replace path bytes d.files; outcomes = os },
)

-- The temporary file is not part of the model: a failed call removes it, and the rename consumes it.
unfoldable pub write_atomic : FilePath → List ℕ → Exec (Unit {0})
unfolding write_with
write_atomic path bytes d = write_with (next_outcome d.outcomes) path bytes d

-- Inversion of a chain that succeeded.
pub >>=-inv {ℓ κ} :
    {A : Type ℓ} {B : Type κ} (m : Exec A) (f : A → Exec B) (d : Disk) (b : B) (d' : Disk)
    → (m >>= f) d ≡ (ok b, d')
    → (a : A) × (e : Disk) × (m d ≡ (ok a, e)) × (f a e ≡ (ok b, d'))
>>=-inv m f d b d' h = go (m d).0 (m d).1 refl h
  where
    go :
        (r : CoreResult _) (e : Disk)
        → m d ≡ (r, e)
        → elim r [ ok a ↦ f a e | err x ↦ (err x, e) ] ≡ (ok b, d')
        → (a : _) × (e : Disk) × (m d ≡ (ok a, e)) × (f a e ≡ (ok b, d'))
    go (ok a) e p q = (a, e, p, q)
    go (err x) e p q = absurd (cc)

-- `std::fs::create_dir_all`, which the model's files do not show.
abbrev pub create_dir_all : FilePath → Exec (Unit {0})
create_dir_all dir d = (if d.creatable dir then ok tt else err io, d)

-- `Path::parent`
abbrev pub parent : FilePath → Option FilePath
parent [] = none
parent (name ∷ []) = some []
parent (name ∷ next ∷ rest) = elim (parent (next ∷ rest)) [ some p ↦ some (name ∷ p) | none ↦ none ]
