-- ===== src/Core/Install/Commit.antt =====
-- The failures of `install_bundle` of crates/hoike-core/src/install.rs.
use hoike.Base.{
  ℕ, ◌<◌, ◌≡◌, ◌⊎◌, inl, inr, refl, sym, ap, ◌∙◌, List, [], ◌∷◌, ◌++◌, true, false, Option, ok, err,
  arith, length, length-append, Option-cases, Bool-cases, Result-cases,
}
use hoike.Base.Assoc.{lookup}
use hoike.Ahu.Wire.{Codec}
use hoike.Ahu.Cbor.{Cbor}
use hoike.Ahu.Manifest.{CaScope}
use hoike.Ahu.Bundle.{Bundle, to_bytes}
use hoike.Core.Error.{CoreError, CoreResult, durability_uncertain}
use hoike.Core.Storage.{FilePath, Disk, ◌>>=◌, beq_path, parent, lift, pure, write_atomic, >>=-inv}
use hoike.Core.Storage.Failure.{
  >>=-ok, >>=-pure, >>=-err, beq_path-length, length-parent, length-parent-none,
  write_atomic_elsewhere, write_atomic-err,
}
use hoike.Core.Config.{Config}
use hoike.Core.Admission.{Authority}
use hoike.Core.State.{
  StateStore, Deps, raises, make_key, transaction, with_mark, advance, advance_scopes,
  advance_from_bundle, persist,
}
use hoike.Core.State.Open.{open_store}
use hoike.Core.State.Persist.{
  generations, generations_name, ahu_suffix, snapshot_path, write_if_different, differs,
  write_snapshot, activate, snapshot, commit, collect,
}
use hoike.Core.Prepare.{prepare, state_file}
use hoike.Core.Install.{announce, install_checked, install_store, install_bundle}

module _ (deps : Deps) where
  open deps use {hex_encode, sha256}

  -- A staged store advances in memory only.
  advance_staged :
      (s : StateStore) (producer ikh : List ℕ) (epoch : ℕ) (digest : List ℕ) (d : Disk)
      → s.staged ≡ true
      → (t : StateStore) × (advance deps s producer ikh epoch digest d ≡ (ok t, d))
        × (t.staged ≡ true)
        × (t.path ≡ s.path)
  unfolding advance
  advance_staged s producer ikh epoch digest d h =
      elim (Bool-cases (raises (lookup (make_key producer ikh) s.state.high_water_marks) epoch)) [
        | inl e ↦ (with_mark deps s (make_key producer ikh) epoch digest, rw (e, h) refl, h, refl)
        | inr e ↦ (s, rw e refl, h, refl)
      ]

  advance_scopes_staged :
      (s : StateStore) (producer digest : List ℕ) (scopes : List CaScope) (d : Disk)
      → s.staged ≡ true
      → (t : StateStore) × (advance_scopes deps s producer digest scopes d ≡ (ok t, d))
        × (t.staged ≡ true)
        × (t.path ≡ s.path)
  unfolding advance_scopes
  advance_scopes_staged s producer digest [] d h = (s, refl, h, refl)
  advance_scopes_staged s producer digest (scope ∷ rest) d h =
      let (u, e, k, p) =
        advance_staged s producer (hex_encode scope.issuer_key_hash) scope.epoch digest d h in
      let (t, f, l, q) = advance_scopes_staged u producer digest rest d k in
      (t, ground (arith, e, f), l, q ∙ p)

  pub advance_from_bundle_staged :
      (s : StateStore) (b : Bundle) (d : Disk)
      → (t : StateStore) × (advance_from_bundle deps (transaction s) b d ≡ (ok t, d))
        × (t.path ≡ s.path)
  unfolding advance_from_bundle
  advance_from_bundle_staged s b d =
      let (t, e, k, p) =
        advance_scopes_staged (transaction s) b.manifest.producer_id (sha256 b.manifest_bytes)
          b.manifest.ca_scopes d refl in
      (record (transaction s) { state = t.state }, ground (arith, e), refl)

  -- A snapshot stands below the state file's directory.
  snapshot_path-length :
      (path : FilePath) (bytes : List ℕ) → length path < length (snapshot_path deps path bytes)
  snapshot_path-length path bytes = elim (Option-cases (parent path)) [
    | inl e ↦ rw e (omega (arith, length-parent-none path e))
    | inr (dir, e) ↦ rw e (
        omega (
          arith,
          length-parent path dir e,
          length-append (dir ++ generations_name ∷ [])
              ((hex_encode (sha256 bytes) ++ ahu_suffix) ∷ []),
          length-append dir (generations_name ∷ []),
        ))
  ]

  snapshot_elsewhere :
      (path : FilePath) (bytes : List ℕ) → beq_path (snapshot_path deps path bytes) path ≡ false
  snapshot_elsewhere path bytes =
      elim (Bool-cases (beq_path (snapshot_path deps path bytes) path)) [
        | inl e ↦ absurd (
            omega (
              arith,
              beq_path-length (snapshot_path deps path bytes) path e,
              snapshot_path-length path bytes,
            ))
        | inr e ↦ e
      ]

  write_if_different_elsewhere :
      (path q : FilePath) (bytes : List ℕ) (d : Disk)
      → beq_path path q ≡ false
      → (write_if_different deps path bytes d).1.files q ≡ d.files q
  unfolding write_if_different
  write_if_different_elsewhere path q bytes d h =
      elim (Bool-cases (differs deps (d.files path) bytes)) [
        | inl e ↦ rw e (write_atomic_elsewhere path q bytes d h)
        | inr e ↦ rw e refl
      ]

  write_snapshot_keeps :
      (c : Codec) (path : FilePath) (b : Bundle) (d : Disk)
      → (write_snapshot deps c path b d).1.files path ≡ d.files path
  unfolding write_snapshot
  write_snapshot_keeps c path b d = elim (Result-cases (to_bytes c b)) [
    | inr (x, e) ↦ rw (e, ◌>>=◌) refl
    | inl (bytes, e) ↦ elim (Bool-cases (d.creatable (generations path))) [
      | inr f ↦ rw (e, f, ◌>>=◌) refl
      | inl f ↦
          rw (e, f, ◌>>=◌)
            (ap (λ (x : Disk). x.files path)
                (>>=-pure (write_if_different deps (snapshot_path deps path bytes) bytes)
                  (λ _. snapshot_path deps path bytes) d)
              ∙ write_if_different_elsewhere (snapshot_path deps path bytes) path bytes d
                  (snapshot_elsewhere path bytes))
    ]
  ]

  pub snapshot_keeps :
      (c : Codec) (s : StateStore) (label : List ℕ) (b : Bundle) (d : Disk)
      → (snapshot deps c s label b d).1.files s.path ≡ d.files s.path
  unfolding snapshot
  snapshot_keeps c s label b d =
      ap (λ (x : Disk). x.files s.path)
        (>>=-pure (write_snapshot deps c s.path b) (activate deps s label) d)
      ∙ write_snapshot_keeps c s.path b d

  commit-err :
      (s candidate : StateStore) (d d' : Disk) (x : CoreError)
      → commit deps s candidate d ≡ (err x, d')
      → (d'.files candidate.path ≡ d.files candidate.path)
        ⊎ (x ≡ durability_uncertain candidate.path)
  unfolding commit persist
  commit-err s candidate d d' x h =
      elim (>>=-err (write_atomic candidate.path (deps.to_json candidate.state))
        (λ _ e. (
          ok (record s { state = candidate.state }),
          collect (generations s.path) candidate.state.active_bundles e,
        ))
        d x d' h) [
          | inl e ↦ write_atomic-err candidate.path (deps.to_json candidate.state) d d' x e
          | inr (a, e, p, q) ↦ absurd (ground arith)
        ]

  -- The path of the store does not change on the way to the commit.
  pub snapshot-path :
      (c : Codec) (s t : StateStore) (label : List ℕ) (b : Bundle) (d d' : Disk)
      → snapshot deps c s label b d ≡ (ok t, d')
      → t.path ≡ s.path
  unfolding snapshot
  snapshot-path c s t label b d d' h =
      let (path, e, p, q) =
        >>=-inv (write_snapshot deps c s.path b) (λ path. pure (activate deps s label path)) d t d'
          h in
      ground arith

  snapshot-commit-err :
      (c : Codec) (s a : StateStore) (label : List ℕ) (b : Bundle) (d d' : Disk) (x : CoreError)
      → (snapshot deps c a label b >>= commit deps s) d ≡ (err x, d')
      → (d'.files a.path ≡ d.files a.path) ⊎ (x ≡ durability_uncertain a.path)
  snapshot-commit-err c s a label b d d' x h =
      elim (>>=-err (snapshot deps c a label b) (commit deps s) d x d' h) [
        | inl e ↦ inl (
            ap (λ (r : CoreResult StateStore × Disk). r.1.files a.path) (sym e)
            ∙ snapshot_keeps c a label b d)
        | inr (cand, d2, e, q) ↦
            let same = snapshot-path c a cand label b d d2 e in
            let kept =
              ap (λ (r : CoreResult StateStore × Disk). r.1.files a.path) (sym e)
              ∙ snapshot_keeps c a label b d in
            elim (commit-err s cand d2 d' x q) [
              | inl k ↦ inl (ap d'.files (sym same) ∙ k ∙ ap d2.files same ∙ kept)
              | inr k ↦ inr (k ∙ ap durability_uncertain same)
            ]
      ]

  -- A failure of the staged changes or of their commit leaves the state file as it was, unless the error
  -- says that the durability of the state file itself is uncertain.
  pub install_store-err :
      (c : Codec) (s : StateStore) (label : List ℕ) (b : Bundle) (d d' : Disk) (x : CoreError)
      → install_store deps c s label b d ≡ (err x, d')
      → (d'.files s.path ≡ d.files s.path) ⊎ (x ≡ durability_uncertain s.path)
  unfolding install_store
  install_store-err c s label b d d' x h =
      let (t, e, p) = advance_from_bundle_staged s b d in
      let failed : (snapshot deps c t label b >>= commit deps s) d ≡ (err x, d') =
        sym (
          >>=-ok (advance_from_bundle deps (transaction s) b)
            (λ advanced. snapshot deps c advanced label b >>= commit deps s) d t d e)
        ∙ h in
      elim (snapshot-commit-err c s t label b d d' x failed) [
        | inl k ↦ inl (ap d'.files (sym p) ∙ k ∙ ap d.files p)
        | inr k ↦ inr (k ∙ ap durability_uncertain p)
      ]

  install_checked-err :
      (c : Codec) (label bytes : List ℕ) (dest : FilePath) (b : Bundle) (s : StateStore)
      (d d' : Disk) (x : CoreError)
      → install_checked deps c label bytes (dest, b, s) d ≡ (err x, d')
      → (d'.files s.path ≡ d.files s.path) ⊎ (x ≡ durability_uncertain s.path)
  unfolding install_checked announce
  install_checked-err c label bytes dest b s d d' x h =
      elim (>>=-err (install_store deps c s label b) (announce deps c dest bytes) d x d' h) [
        | inl e ↦ install_store-err c s label b d d' x e
        | inr (t, e, p, q) ↦ absurd (ground arith)
      ]

module _ (deps : Deps) (auth : Authority) (c : Codec) (cbor : Cbor)
    (canonicalize : FilePath → Option FilePath) where
  prepared-path :
      (conf : Config) (label bytes : List ℕ) (guard_dir : FilePath) (now : ℕ)
      (files : FilePath → Option (List ℕ)) (dest : FilePath) (b : Bundle) (s : StateStore)
      → prepare deps auth c cbor canonicalize conf label bytes guard_dir now files ≡ ok (dest, b, s)
      → s.path ≡ state_file conf.storage.state_db
  unfolding prepare open_store
  prepared-path conf label bytes guard_dir now files dest b s h = ground arith

  -- An installation that fails leaves the state file as it was, unless the error says that the
  -- durability of the state file itself is uncertain.
  pub install_bundle-err :
      (conf : Config) (label bytes : List ℕ) (guard_dir : FilePath) (now : ℕ) (d d' : Disk)
      (x : CoreError)
      → install_bundle deps auth c cbor canonicalize conf label bytes guard_dir now d ≡ (err x, d')
      → (d'.files (state_file conf.storage.state_db) ≡ d.files (state_file conf.storage.state_db))
        ⊎ (x ≡ durability_uncertain (state_file conf.storage.state_db))
  unfolding install_bundle
  install_bundle-err conf label bytes guard_dir now d d' x h =
      elim (>>=-err
        (lift (prepare deps auth c cbor canonicalize conf label bytes guard_dir now d.files))
        (install_checked deps c label bytes) d x d' h) [
          | inl e ↦ inl (
              ap
                (λ (r : CoreResult (FilePath × Bundle × StateStore) × Disk).
                  r.1.files (state_file conf.storage.state_db))
                (sym e))
          | inr ((dest, b, s), d1, e, q) ↦
              let path =
                prepared-path conf label bytes guard_dir now d.files dest b s
                  (ap (λ (r : CoreResult (FilePath × Bundle × StateStore) × Disk). r.0) e) in
              let same : d ≡ d1 =
                ap (λ (r : CoreResult (FilePath × Bundle × StateStore) × Disk). r.1) e in
              elim (install_checked-err deps c label bytes dest b s d1 d' x q) [
                | inl k ↦ inl (
                    ap d'.files (sym path)
                    ∙ k
                    ∙ ap d1.files path
                    ∙ ap (λ (e : Disk). e.files (state_file conf.storage.state_db)) (sym same))
                | inr k ↦ inr (k ∙ ap durability_uncertain path)
              ]
        ]
