-- ===== src/Core/Install/History.antt =====
-- Sequences of installations by crates/hoike-core/src/install.rs, over restarts of the process: each opens
-- the state that the one before has left on the disk.
use hoike.Base.{
  ℕ, ◌≤◌, ◌≡◌, inl, inr, sym, ap, subst, ◌∙◌, List, [], false, Option, some, ok, err, arith,
  and_then, Option-cases, Result-cases, All-get_elem?, get_elem?,
}
use hoike.Base.Assoc.{lookup}
use hoike.Ahu.Wire.{Codec}
use hoike.Ahu.Cbor.{Cbor}
use hoike.Ahu.Manifest.{CaScope}
use hoike.Ahu.Bundle.{Bundle, from_bytes}
use hoike.Core.Error.{CoreError, CoreResult}
use hoike.Core.Storage.{FilePath, Disk, ◌>>=◌, beq_path, lift}
use hoike.Core.Config.{Config, bundle_destination}
use hoike.Core.Admission.{Authority}
use hoike.Core.State.{StateStore, PersistedState, Deps, make_key, get_high_water, check_rollback}
use hoike.Core.State.Marks.{mark}
use hoike.Core.State.Rollback.{LetIn, check_rollback_iff}
use hoike.Core.State.Open.{open_store}
use hoike.Core.Prepare.{prepare, state_file}
use hoike.Core.Install.{install_checked, install_bundle, InstallResult}
use hoike.Core.Install.Kept.{Kept, stored_mark, NeverLower, install_checked-Kept}

module _ (deps : Deps) (auth : Authority) (c : Codec) (cbor : Cbor)
    (canonicalize : FilePath → Option FilePath) (conf : Config) where
  open deps use {to_json, from_json, hex_encode}

  abbrev pub state_path : FilePath
  state_path = state_file conf.storage.state_db

  -- The store that is opened is the one in the state file.
  opened-mark :
      (path : FilePath) (d : Disk) (s : StateStore) (key : List ℕ)
      → open_store deps c cbor d.files path ≡ ok s
      → (stored_mark deps path d key ≡ mark s key) × (s.path ≡ path)
  unfolding open_store
  opened-mark path d s key h = elim (Option-cases (d.files path)) [
    | inl e ↦ absurd (ground arith)
    | inr (bytes, e) ↦ elim (Option-cases (from_json bytes)) [
      | inl f ↦ absurd (ground arith)
      | inr (p, f) ↦
          let same : p ≡ s.state = ground arith in
          (
            ap
                  (λ (o : Option (List ℕ)).
                    and_then o (λ x. and_then (from_json x) (λ q. lookup key q.high_water_marks)))
                  e
                ∙ ap
                    (λ (o : Option PersistedState). and_then o (λ q. lookup key q.high_water_marks))
                    f
                ∙ ap (λ (q : PersistedState). lookup key q.high_water_marks) same,
            ground arith,
          )
    ]
  ]

  prepared-mark :
      (label bytes : List ℕ) (guard_dir : FilePath) (now : ℕ) (d : Disk) (dest : FilePath)
      (b : Bundle) (s : StateStore) (key : List ℕ)
      → prepare deps auth c cbor canonicalize conf label bytes guard_dir now d.files
        ≡ ok (dest, b, s)
      → (stored_mark deps state_path d key ≡ mark s key) × (s.path ≡ state_path)
  unfolding prepare
  prepared-mark label bytes guard_dir now d dest b s key h =
      opened-mark state_path d s key
        (elim (Result-cases (open_store deps c cbor d.files state_path)) [
          | inl (t, e) ↦ e ∙ ap ok (ground arith)
          | inr (x, e) ↦ absurd (ground arith)
        ])

  prepared-dest :
      (label bytes : List ℕ) (guard_dir : FilePath) (now : ℕ) (d : Disk) (dest : FilePath)
      (b : Bundle) (s : StateStore)
      → prepare deps auth c cbor canonicalize conf label bytes guard_dir now d.files
        ≡ ok (dest, b, s)
      → bundle_destination canonicalize conf label ≡ ok dest
  unfolding prepare
  prepared-dest label bytes guard_dir now d dest b s h = ground arith

  prepared-checked :
      (label bytes : List ℕ) (guard_dir : FilePath) (now : ℕ) (d : Disk) (dest : FilePath)
      (b : Bundle) (s : StateStore)
      → prepare deps auth c cbor canonicalize conf label bytes guard_dir now d.files
        ≡ ok (dest, b, s)
      → (check_rollback deps s b ≡ ok tt) × (from_bytes c cbor bytes ≡ ok b)
  unfolding prepare
  prepared-checked label bytes guard_dir now d dest b s h = (ground arith, read)
    where
      read : from_bytes c cbor bytes ≡ ok b
      read = elim (Result-cases (from_bytes c cbor bytes)) [
        | inl (x, e) ↦ e ∙ ap ok (ground arith)
        | inr (x, e) ↦ absurd (ground arith)
      ]

  -- An installation stops where its checks do, and works on what they return.
  pub install_bundle-prepare :
      (label bytes : List ℕ) (guard_dir : FilePath) (now : ℕ) (d : Disk)
      (r : CoreResult (FilePath × Bundle × StateStore))
      → prepare deps auth c cbor canonicalize conf label bytes guard_dir now d.files ≡ r
      → install_bundle deps auth c cbor canonicalize conf label bytes guard_dir now d
        ≡ (lift r >>= install_checked deps c label bytes) d
  unfolding install_bundle
  install_bundle-prepare label bytes guard_dir now d r f =
      ap
        (λ (x : CoreResult (FilePath × Bundle × StateStore)).
          (lift x >>= install_checked deps c label bytes) d)
        f

  module _
      (apart : (label : List ℕ) (dest : FilePath)
        → bundle_destination canonicalize conf label ≡ ok dest
        → beq_path dest state_path ≡ false)
      (round_trip : (p : PersistedState) → from_json (to_json p) ≡ some p) where
    Kept-NeverLower :
        (s : StateStore) (d e : Disk)
        → ((key : List ℕ) → stored_mark deps state_path d key ≡ mark s key)
        → Kept deps state_path s d e
        → NeverLower deps state_path d e
    Kept-NeverLower s d e same (inl k) key h m = (
      h,
      ap
            (λ (o : Option (List ℕ)).
              and_then o (λ x. and_then (from_json x) (λ q. lookup key q.high_water_marks)))
            k
          ∙ m,
      omega arith,
    )
    Kept-NeverLower s d e same (inr (t, k, r)) key h m =
        let (g, n, l) = r key h (sym (same key) ∙ m) in
        (
          g,
          ap
                (λ (o : Option (List ℕ)).
                  and_then o (λ x. and_then (from_json x) (λ q. lookup key q.high_water_marks)))
                k
              ∙ ap (λ (o : Option PersistedState). and_then o (λ q. lookup key q.high_water_marks))
                  (round_trip t.state)
              ∙ n,
          l,
        )

    install_bundle-NeverLower :
        (label bytes : List ℕ) (guard_dir : FilePath) (now : ℕ) (d : Disk)
        → NeverLower deps state_path d
            (install_bundle deps auth c cbor canonicalize conf label bytes guard_dir now d).1
    install_bundle-NeverLower label bytes guard_dir now d =
        elim (Result-cases
          (prepare deps auth c cbor canonicalize conf label bytes guard_dir now d.files)) [
            | inr (x, f) ↦
                subst (λ (r : CoreResult InstallResult × Disk). NeverLower deps state_path d r.1)
                  (sym (install_bundle-prepare label bytes guard_dir now d (err x) f))
                  (λ key h m. (h, m, omega arith))
            | inl ((dest, b, s), f) ↦
                let path = (prepared-mark label bytes guard_dir now d dest b s [] f).1 in
                let elsewhere : beq_path dest s.path ≡ false =
                  subst (λ q. beq_path dest q ≡ false) (sym path)
                    (apart label dest (prepared-dest label bytes guard_dir now d dest b s f)) in
                subst (λ (r : CoreResult InstallResult × Disk). NeverLower deps state_path d r.1)
                  (sym (install_bundle-prepare label bytes guard_dir now d (ok (dest, b, s)) f))
                  (Kept-NeverLower s d (install_checked deps c label bytes (dest, b, s) d).1
                    (λ key. (prepared-mark label bytes guard_dir now d dest b s key f).0)
                    (subst
                      (λ q. Kept deps q s d (install_checked deps c label bytes (dest, b, s) d).1)
                      path (install_checked-Kept deps c label bytes dest b s d elsewhere)))
          ]

    -- What happens to the disk: installations, whatever comes of them, and changes of other files.
    pub data History (d : Disk) : Disk → Type 0 where
      start : History d d
      install :
          (e : Disk) (label bytes : List ℕ) (guard_dir : FilePath) (now : ℕ)
          → History d e
          → History d
              (install_bundle deps auth c cbor canonicalize conf label bytes guard_dir now e).1
      elsewhere : (e f : Disk) → History d e → f.files state_path ≡ e.files state_path → History d f

    -- Over any sequence of installations, failed ones and restarts included, no high-water mark in the
    -- state file is lost or lowered, as long as nothing else writes that file, no CA's destination is the
    -- state file itself, and serde_json reads back the states that it writes.
    pub History-NeverLower : (d e : Disk) → History d e → NeverLower deps state_path d e
    History-NeverLower d _ start key h m = (h, m, omega arith)
    History-NeverLower d _ (install e label bytes guard_dir now past) key h m =
        let (g, n, l) = History-NeverLower d e past key h m in
        let (k, o, j) = install_bundle-NeverLower label bytes guard_dir now e key g n in
        (k, o, omega (arith, l, j))
    History-NeverLower d f (elsewhere e _ past same) key h m =
        let (g, n, l) = History-NeverLower d e past key h m in
        (
          g,
          ap
                (λ (o : Option (List ℕ)).
                  and_then o (λ x. and_then (from_json x) (λ q. lookup key q.high_water_marks)))
                same
              ∙ n,
          l,
        )

    -- Once the state file has had a mark, no later installation, after any sequence of installations and
    -- restarts, succeeds with a bundle that is older in the scope of that mark, as long as nothing else
    -- writes that file, no CA's destination is the state file itself, and serde_json reads back the states
    -- that it writes.
    pub History-install_bundle :
        (d e f : Disk) (label bytes : List ℕ) (guard_dir : FilePath) (now : ℕ) (r : InstallResult)
        (b : Bundle) (i : ℕ) (scope : CaScope) (h : ℕ)
        → History d e
        → stored_mark deps state_path d
            (make_key b.manifest.producer_id (hex_encode scope.issuer_key_hash))
          ≡ some h
        → from_bytes c cbor bytes ≡ ok b
        → get_elem? b.manifest.ca_scopes i ≡ some scope
        → install_bundle deps auth c cbor canonicalize conf label bytes guard_dir now e ≡ (ok r, f)
        → h ≤ scope.epoch
    unfolding get_high_water
    History-install_bundle d e f label bytes guard_dir now r b i scope h past m parsed at finished =
        elim (Result-cases
          (prepare deps auth c cbor canonicalize conf label bytes guard_dir now e.files)) [
            | inr (x, p) ↦
                let stopped = install_bundle-prepare label bytes guard_dir now e (err x) p in
                absurd (failed (sym stopped ∙ finished))
            | inl ((dest, b', s), p) ↦
                let key = make_key b.manifest.producer_id (hex_encode scope.issuer_key_hash) in
                let (g, n, l) = History-NeverLower d e past key h m in
                let (checked, read) = prepared-checked label bytes guard_dir now e dest b' s p in
                let same : b' ≡ b = cc (read, parsed) in
                let marked : mark s key ≡ some g =
                  sym (prepared-mark label bytes guard_dir now e dest b' s key p).0 ∙ n in
                let let_in =
                  All-get_elem? (LetIn deps s b.manifest.producer_id (deps.sha256 b.manifest_bytes))
                    b.manifest.ca_scopes i scope
                    ((check_rollback_iff deps s b).0
                      (subst (λ x. check_rollback deps s x ≡ ok tt) same checked))
                    at in
                let (newer, _, _) = let_in g marked in omega (arith, l, newer)
          ]
      where
        failed :
            {x : CoreError} {d1 d2 : Disk} {y : InstallResult}
            → ◌≡◌ {A = CoreResult InstallResult × Disk} (err x, d1) (ok y, d2)
            → ⊥
        failed h = absurd (cc)
