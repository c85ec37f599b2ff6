-- ===== src/Core/Install/Kept.antt =====
-- The state file of crates/hoike-core/src/state.rs before and after an installation by install.rs.
use hoike.Base.{
  ℕ, suc, ◌≤◌, ◌<◌, ◌≡◌, ◌⊎◌, inl, inr, refl, sym, ap, subst, ◌∙◌, List, [], ◌∷◌, false, Option,
  some, ok, arith, length, length-append, and_then, Option-cases,
}
use hoike.Base.Assoc.{lookup}
use hoike.Ahu.Wire.{Codec}
use hoike.Ahu.Bundle.{Bundle}
use hoike.Core.Error.{CoreResult}
use hoike.Core.Storage.{
  FilePath, Disk, WriteOutcome, done, blocked, fails, unsynced, ◌>>=◌, beq_path, parent, pure,
  write_atomic, write_with, next_outcome, >>=-inv,
}
use hoike.Core.Storage.Failure.{
  >>=-ok, >>=-cases, beq_path_refl, length-parent, length-parent-none, write_atomic_elsewhere,
}
use hoike.Core.State.{StateStore, PersistedState, Deps, transaction, advance_from_bundle, persist}
use hoike.Core.State.Marks.{Rises, Rises-trans, advance_from_bundle-Rises}
use hoike.Core.State.Persist.{
  generations, generations_name, name_in, is_generation, collect, snapshot, commit, write_snapshot,
  activate,
}
use hoike.Core.Install.{announce, install_checked, install_store, InstallResult}
use hoike.Core.Install.Commit.{snapshot_keeps, snapshot-path, advance_from_bundle_staged}

-- Whatever comes of a write, the file is as it was or holds the new bytes.
write_atomic-either :
    (path : FilePath) (bytes : List ℕ) (d : Disk)
    → ((write_atomic path bytes d).1.files path ≡ d.files path)
      ⊎ ((write_atomic path bytes d).1.files path ≡ some bytes)
unfolding write_atomic
write_atomic-either path bytes d = by_outcome (next_outcome d.outcomes).0
  where
    by_outcome :
        (o : WriteOutcome)
        → ((write_with (o, (next_outcome d.outcomes).1) path bytes d).1.files path ≡ d.files path)
          ⊎ ((write_with (o, (next_outcome d.outcomes).1) path bytes d).1.files path ≡ some bytes)
    by_outcome done = inr (rw (beq_path_refl path, write_with) refl)
    by_outcome blocked = inl refl
    by_outcome fails = inl refl
    by_outcome unsynced = inr (rw (beq_path_refl path, write_with) refl)

length-name_in :
    (dir path : FilePath) (n : List ℕ) → name_in dir path ≡ some n → length path ≡ suc (length dir)
length-name_in [] [] n h = absurd (ground arith)
length-name_in [] (x ∷ []) n h = refl
length-name_in [] (x ∷ y ∷ p) n h = absurd (ground arith)
length-name_in (a ∷ dir) [] n h = absurd (ground arith)
length-name_in (a ∷ dir) (b ∷ path) n h = ground (arith, length-name_in dir path n)

length-generations : (path : FilePath) → length path < suc (length (generations path))
length-generations path = elim (Option-cases (parent path)) [
  | inl e ↦ rw e (omega (arith, length-parent-none path e))
  | inr (dir, e) ↦
      rw e (omega (arith, length-parent path dir e, length-append dir (generations_name ∷ [])))
]

-- The state file is not one of the snapshots.
is_generation-state : (path : FilePath) → is_generation (generations path) path ≡ false
is_generation-state path = elim (Option-cases (name_in (generations path) path)) [
  | inl e ↦ ground arith
  | inr (n, e) ↦
      absurd (omega (arith, length-name_in (generations path) path n e, length-generations path))
]

module _ (deps : Deps) where
  open deps use {to_json, from_json, hex_encode}

  -- The state file is as it was, or holds a state in which no mark is lower than in the store.
  abbrev pub Kept : FilePath → StateStore → Disk → Disk → Type 0
  Kept path s d e =
      (e.files path ≡ d.files path)
      ⊎ ((t : StateStore) × (e.files path ≡ some (to_json t.state)) × Rises s t)

  collect_keeps :
      (path : FilePath) (s : PersistedState) (d : Disk)
      → (collect (generations path) s.active_bundles d).files path ≡ d.files path
  unfolding collect
  collect_keeps path s d = rw (is_generation-state path, collect) refl

  -- After a commit the state file is as it was, or is the candidate's.
  commit-either :
      (s t : StateStore) (d : Disk)
      → t.path ≡ s.path
      → ((commit deps s t d).1.files t.path ≡ d.files t.path)
        ⊎ ((commit deps s t d).1.files t.path ≡ some (to_json t.state))
  unfolding commit persist
  commit-either s t d same =
      let write = write_atomic t.path (to_json t.state) in
      let kept : (commit deps s t d).1.files t.path ≡ (write d).1.files t.path =
        elim (>>=-cases write
          (λ u e. (
            ok (record s { state = t.state }),
            collect (generations s.path) t.state.active_bundles e,
          ))
          d) [
            | inl (x, f, g) ↦ ap (λ (r : CoreResult StateStore × Disk). r.1.files t.path) g
            | inr (u, f, g) ↦
                ap (λ (r : CoreResult StateStore × Disk). r.1.files t.path) g
                ∙ ap
                    (λ q. (collect (generations q) t.state.active_bundles (write d).1).files t.path)
                    (sym same)
                ∙ collect_keeps t.path t.state (write d).1
          ] in
      elim (write_atomic-either t.path (to_json t.state) d) [
        | inl e ↦ inl (kept ∙ e)
        | inr e ↦ inr (kept ∙ e)
      ]

  -- Advancing and taking a snapshot lower no mark, and leave the state file alone.
  snapshot-Rises :
      (c : Codec) (s t : StateStore) (label : List ℕ) (b : Bundle) (d e : Disk)
      → snapshot deps c s label b d ≡ (ok t, e)
      → Rises s t
  unfolding snapshot
  snapshot-Rises c s t label b d e h =
      let (path, e', p, q) =
        >>=-inv (write_snapshot deps c s.path b) (λ path. pure (activate deps s label path)) d t e
          h in
      let same : t.state.high_water_marks ≡ s.state.high_water_marks = ground arith in
      λ key m k. (m, ap (lookup key) same ∙ k, omega arith)

  snapshot-commit-Kept :
      (c : Codec) (s a : StateStore) (label : List ℕ) (b : Bundle) (d : Disk)
      → a.path ≡ s.path
      → Rises s a
      → Kept a.path s d ((snapshot deps c a label b >>= commit deps s) d).1
  snapshot-commit-Kept c s a label b d p raised =
      let kept = snapshot_keeps deps c a label b d in
      let file = λ (r : CoreResult StateStore × Disk). r.1.files a.path in
      elim (>>=-cases (snapshot deps c a label b) (commit deps s) d) [
        | inl (x, f, g) ↦ inl (ap file g ∙ kept)
        | inr (t, f, g) ↦
            let e = (snapshot deps c a label b d).1 in
            let same : t.path ≡ a.path = snapshot-path deps c a t label b d e f in
            let risen : Rises s t =
              Rises-trans deps s a t raised (snapshot-Rises c a t label b d e f) in
            elim (commit-either s t e (same ∙ p)) [
              | inl k ↦ inl (
                  ap file g
                  ∙ ap (commit deps s t e).1.files (sym same)
                  ∙ k
                  ∙ ap e.files same
                  ∙ kept)
              | inr k ↦ inr (t, ap file g ∙ ap (commit deps s t e).1.files (sym same) ∙ k, risen)
            ]
      ]

  install_store-Kept :
      (c : Codec) (s : StateStore) (label : List ℕ) (b : Bundle) (d : Disk)
      → Kept s.path s d (install_store deps c s label b d).1
  unfolding install_store
  install_store-Kept c s label b d =
      let (a, e, p) = advance_from_bundle_staged deps s b d in
      let first =
        >>=-ok (advance_from_bundle deps (transaction s) b)
          (λ x. snapshot deps c x label b >>= commit deps s) d a d e in
      let raised : Rises s a = advance_from_bundle-Rises deps (transaction s) a b d d e in
      subst (λ q. Kept q s d (install_store deps c s label b d).1) p
        (subst (λ (r : CoreResult StateStore × Disk). Kept a.path s d r.1) (sym first)
          (snapshot-commit-Kept c s a label b d p raised))

  -- The publication writes another file.
  pub install_checked-Kept :
      (c : Codec) (label bytes : List ℕ) (dest : FilePath) (b : Bundle) (s : StateStore) (d : Disk)
      → beq_path dest s.path ≡ false
      → Kept s.path s d (install_checked deps c label bytes (dest, b, s) d).1
  unfolding install_checked announce
  install_checked-Kept c label bytes dest b s d apart =
      let stored = install_store-Kept c s label b d in
      let e = (install_store deps c s label b d).1 in
      let other : (write_atomic dest bytes e).1.files s.path ≡ e.files s.path =
        write_atomic_elsewhere dest s.path bytes e apart in
      elim (>>=-cases (install_store deps c s label b) (announce deps c dest bytes) d) [
        | inl (x, f, g) ↦
            subst (λ (r : CoreResult InstallResult × Disk). Kept s.path s d r.1) (sym g) stored
        | inr (t, f, g) ↦
            subst (λ (r : CoreResult InstallResult × Disk). Kept s.path s d r.1) (sym g)
              (elim stored [ inl k ↦ inl (other ∙ k) | inr (u, k, r) ↦ inr (u, other ∙ k, r) ])
      ]

  -- The mark of a key in the state that a file holds.
  abbrev pub stored_mark : FilePath → Disk → List ℕ → Option ℕ
  stored_mark path d key =
      and_then (d.files path) λ bytes. and_then (from_json bytes) λ p. lookup key p.high_water_marks

  -- A mark that the state file has, it has afterwards, and not lower.
  abbrev pub NeverLower : FilePath → Disk → Disk → Type 0
  NeverLower path d e =
      (key : List ℕ) (h : ℕ)
      → stored_mark path d key ≡ some h
      → (g : ℕ) × (stored_mark path e key ≡ some g) × (h ≤ g)
