-- ===== src/Core/State/Rollback.antt =====
-- The rollback check of crates/hoike-core/src/state.rs.
use hoike.Base.{
  ℕ, ◌+◌, ◌≤◌, ◌<◌, ◌≡◌, ◌≢◌, ◌↔◌, refl, List, [], ◌∷◌, some, ok, arith, All, All-get_elem?,
  beq_bytes_iff, get_elem?, Option-cases, inl, inr,
}
use hoike.Ahu.Manifest.{CaScope}
use hoike.Ahu.Bundle.{Bundle}
use hoike.Core.Storage.{Disk}
use hoike.Core.State.{
  StateStore, Deps, max_epoch_jump, get_high_water, get_manifest_digest, rollback_scope,
  rollback_scopes, check_rollback, advance_from_bundle,
}
use hoike.Core.State.Marks.{advance_from_bundle-Covers}

module _ (deps : Deps) where
  open deps use {sha256, hex_encode}

  -- A scope that a recorded mark lets in: not older than the mark, no further above it than the limit,
  -- and at the mark's own epoch only the recorded manifest.
  abbrev pub LetIn : StateStore → List ℕ → List ℕ → CaScope → Type 0
  LetIn s producer digest scope =
      (hw : ℕ)
      → get_high_water s producer (hex_encode scope.issuer_key_hash) ≡ some hw
      → (hw ≤ scope.epoch)
        × (scope.epoch ≤ hw + max_epoch_jump)
        × (scope.epoch ≡ hw
            → get_manifest_digest deps s producer (hex_encode scope.issuer_key_hash) ≡ some digest)

  rollback_scope_iff :
      (s : StateStore) (producer digest : List ℕ) (scope : CaScope)
      → (rollback_scope deps s producer digest scope ≡ ok tt) ↔ LetIn s producer digest scope
  unfolding rollback_scope
  rollback_scope_iff s producer digest scope =
      (λ e hw g. (ground arith, ground arith, λ same. recorded hw g e same), passes)
    where
      ikh : List ℕ
      ikh = hex_encode scope.issuer_key_hash

      recorded :
          (hw : ℕ)
          → get_high_water s producer ikh ≡ some hw
          → rollback_scope deps s producer digest scope ≡ ok tt
          → scope.epoch ≡ hw
          → get_manifest_digest deps s producer ikh ≡ some digest
      recorded hw g e same = elim (Option-cases (get_manifest_digest deps s producer ikh)) [
        | inl n ↦ absurd (ground arith)
        | inr (x, n) ↦ ground (arith, beq_bytes_iff x digest)
      ]

      passes : LetIn s producer digest scope → rollback_scope deps s producer digest scope ≡ ok tt
      passes l = elim (Option-cases (get_high_water s producer ikh)) [
        | inl n ↦ ground arith
        | inr (hw, g) ↦ elim (Option-cases (get_manifest_digest deps s producer ikh)) [
          | inl n ↦ ground (arith, l hw g)
          | inr (x, n) ↦ ground (arith, l hw g, beq_bytes_iff x digest)
        ]
      ]

  rollback_scopes_iff :
      (s : StateStore) (producer digest : List ℕ) (scopes : List CaScope)
      → (rollback_scopes deps s producer digest scopes ≡ ok tt)
        ↔ All (LetIn s producer digest) scopes
  unfolding rollback_scopes
  rollback_scopes_iff s producer digest [] = (λ e. tt, λ a. refl)
  rollback_scopes_iff s producer digest (scope ∷ rest) =
      let (p, q) = rollback_scope_iff s producer digest scope in
      let (ps, qs) = rollback_scopes_iff s producer digest rest in
      (λ e. (p (ground arith), ps (ground arith)), λ a. ground (arith, q a.0, qs a.1))

  -- `check_rollback` accepts a bundle exactly when every scope with a recorded mark is at least at the
  -- mark, at most 10,000 epochs above it, and at the mark's own epoch is the recorded manifest itself.
  pub check_rollback_iff :
      (s : StateStore) (b : Bundle)
      → (check_rollback deps s b ≡ ok tt)
        ↔ All (LetIn s b.manifest.producer_id (sha256 b.manifest_bytes)) b.manifest.ca_scopes
  unfolding check_rollback
  check_rollback_iff s b =
      rollback_scopes_iff s b.manifest.producer_id (sha256 b.manifest_bytes) b.manifest.ca_scopes

  -- Once a bundle has been advanced over successfully, no bundle of the same producer that is older in one of its
  -- scopes passes the rollback check.
  pub check_rollback-advance_from_bundle :
      (s t : StateStore) (b old : Bundle) (d d' : Disk) (i j : ℕ) (scope old_scope : CaScope)
      → advance_from_bundle deps s b d ≡ (ok t, d')
      → old.manifest.producer_id ≡ b.manifest.producer_id
      → get_elem? b.manifest.ca_scopes i ≡ some scope
      → get_elem? old.manifest.ca_scopes j ≡ some old_scope
      → old_scope.issuer_key_hash ≡ scope.issuer_key_hash
      → old_scope.epoch < scope.epoch
      → check_rollback deps t old ≢ ok tt
  unfolding get_high_water
  check_rollback-advance_from_bundle s t b old d d' i j scope old_scope h same_producer m n same_key
        older e =
      let (g, covered, l) = advance_from_bundle-Covers deps s t b d d' h i scope m in
      let let_in =
        All-get_elem? (LetIn t old.manifest.producer_id (sha256 old.manifest_bytes))
          old.manifest.ca_scopes j old_scope ((check_rollback_iff t old).0 e) n in
      let (a, _, _) = let_in g (rw (same_producer, same_key, get_high_water) covered) in
      absurd (omega arith)
