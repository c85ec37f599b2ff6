-- ===== src/Core/State/Marks.antt =====
-- The high-water marks of crates/hoike-core/src/state.rs when a bundle is advanced over.
use hoike.Base.{
  ℕ, zero, suc, ◌≤◌, ◌≡◌, ap, ◌∙◌, List, [], ◌∷◌, ◌&&◌, Option, some, ok, arith, beq_bytes,
  beq_bytes_iff, if◌then◌else◌, get_elem?, some-injective, subst, Option-cases, inl, inr,
}
use hoike.Base.Assoc.{lookup, lookup-insert}
use hoike.Ahu.Manifest.{CaScope}
use hoike.Ahu.Bundle.{Bundle}
use hoike.Core.Storage.{Disk, ◌>>◌, pure, >>=-inv, write_atomic}
use hoike.Core.State.{
  StateStore, PersistedState, Deps, make_key, raises, advance, advance_scopes, advance_from_bundle,
  transaction, persist,
}

abbrev pub mark : StateStore → List ℕ → Option ℕ
mark s key = lookup key s.state.high_water_marks

-- No mark is lost or lowered.
abbrev pub Rises : StateStore → StateStore → Type 0
Rises s t = (key : List ℕ) (h : ℕ) → mark s key ≡ some h → (g : ℕ) × (mark t key ≡ some g) × (h ≤ g)

-- The mark of a key is at least an epoch.
abbrev pub Covers : StateStore → List ℕ → ℕ → Type 0
Covers s key epoch = (g : ℕ) × (mark s key ≡ some g) × (epoch ≤ g)

module _ (deps : Deps) where
  open deps use {hex_encode}

  mark-advance :
      (s t : StateStore) (producer ikh : List ℕ) (epoch : ℕ) (digest : List ℕ) (d d' : Disk)
      → advance deps s producer ikh epoch digest d ≡ (ok t, d')
      → (key : List ℕ)
      → mark t key ≡ (
          if beq_bytes (make_key producer ikh) key && raises (mark s (make_key producer ikh)) epoch
          then some epoch
          else mark s key)
  unfolding advance persist write_atomic
  mark-advance s t producer ikh epoch digest d d' h key =
      ground (arith, lookup-insert (make_key producer ikh) key epoch s.state.high_water_marks)

  advance-Rises :
      (s t : StateStore) (producer ikh : List ℕ) (epoch : ℕ) (digest : List ℕ) (d d' : Disk)
      → advance deps s producer ikh epoch digest d ≡ (ok t, d')
      → Rises s t
  advance-Rises s t producer ikh epoch digest d d' h key a e = elim (Option-cases (mark t key)) [
    | inl n ↦ absurd (
        ground (
          arith,
          mark-advance s t producer ikh epoch digest d d' h key,
          beq_bytes_iff (make_key producer ikh) key,
        ))
    | inr (g, n) ↦ (
      g,
      n,
      ground (
        arith,
        mark-advance s t producer ikh epoch digest d d' h key,
        beq_bytes_iff (make_key producer ikh) key,
      ),
    )
  ]

  advance-Covers :
      (s t : StateStore) (producer ikh : List ℕ) (epoch : ℕ) (digest : List ℕ) (d d' : Disk)
      → advance deps s producer ikh epoch digest d ≡ (ok t, d')
      → Covers t (make_key producer ikh) epoch
  advance-Covers s t producer ikh epoch digest d d' h =
      let key = make_key producer ikh in
      elim (Option-cases (mark t key)) [
        | inl n ↦ absurd (
            ground
              (arith, mark-advance s t producer ikh epoch digest d d' h key, beq_bytes_iff key key))
        | inr (g, n) ↦ (
          g,
          n,
          ground
              (arith, mark-advance s t producer ikh epoch digest d d' h key, beq_bytes_iff key key),
        )
      ]

  pub Rises-trans : (s t u : StateStore) → Rises s t → Rises t u → Rises s u
  Rises-trans s t u p q key h e =
      let (g, eg, lg) = p key h e in let (k, ek, lk) = q key g eg in (k, ek, omega arith)

  Covers-Rises :
      (t u : StateStore) (key : List ℕ) (epoch : ℕ)
      → Covers t key epoch
      → Rises t u
      → Covers u key epoch
  Covers-Rises t u key epoch (g, e, l) r = let (k, ek, lk) = r key g e in (k, ek, omega arith)

  advance_scopes-Rises :
      (s t : StateStore) (producer digest : List ℕ) (scopes : List CaScope) (d d' : Disk)
      → advance_scopes deps s producer digest scopes d ≡ (ok t, d')
      → Rises s t
  unfolding advance_scopes
  advance_scopes-Rises s t producer digest [] d d' h = λ key a e. (a, ground arith, omega arith)
  advance_scopes-Rises s t producer digest (scope ∷ rest) d d' h =
      let (s', e, p, q) =
        >>=-inv (advance deps s producer (hex_encode scope.issuer_key_hash) scope.epoch digest)
          (λ s'. advance_scopes deps s' producer digest rest) d t d' h in
      Rises-trans s s' t (advance-Rises s s' producer _ _ digest d e p)
        (advance_scopes-Rises s' t producer digest rest e d' q)

  advance_scopes-Covers :
      (s t : StateStore) (producer digest : List ℕ) (scopes : List CaScope) (d d' : Disk)
      → advance_scopes deps s producer digest scopes d ≡ (ok t, d')
      → (i : ℕ) (scope : CaScope) → get_elem? scopes i ≡ some scope
      → Covers t (make_key producer (hex_encode scope.issuer_key_hash)) scope.epoch
  unfolding advance_scopes
  advance_scopes-Covers s t producer digest [] d d' h i scope m = absurd (cc)
  advance_scopes-Covers s t producer digest (first ∷ rest) d d' h i scope m =
      let (s', e, p, q) =
        >>=-inv (advance deps s producer (hex_encode first.issuer_key_hash) first.epoch digest)
          (λ s'. advance_scopes deps s' producer digest rest) d t d' h in
      at_index i m s' e p q (advance_scopes-Covers s' t producer digest rest e d' q)
    where
      at_index :
          (i : ℕ)
          → get_elem? (first ∷ rest) i ≡ some scope
          → (s' : StateStore) (e : Disk)
          → advance deps s producer (hex_encode first.issuer_key_hash) first.epoch digest d
            ≡ (ok s', e)
          → advance_scopes deps s' producer digest rest e ≡ (ok t, d')
          → ((j : ℕ) (scope' : CaScope)
              → get_elem? rest j ≡ some scope'
              → Covers t (make_key producer (hex_encode scope'.issuer_key_hash)) scope'.epoch)
          → Covers t (make_key producer (hex_encode scope.issuer_key_hash)) scope.epoch
      at_index zero m s' e p q ih =
          subst
            (λ (x : CaScope). Covers t (make_key producer (hex_encode x.issuer_key_hash)) x.epoch)
            (some-injective first scope m)
            (Covers-Rises s' t _ _ (advance-Covers s s' producer _ _ digest d e p)
              (advance_scopes-Rises s' t producer digest rest e d' q))
      at_index (suc j) m s' e p q ih = ih j scope m

  -- What `advance_from_bundle` returns, it reached by advancing over the scopes in turn.
  from_scopes :
      (s t : StateStore) (b : Bundle) (d d' : Disk)
      → advance_from_bundle deps s b d ≡ (ok t, d')
      → (u : StateStore) × (e : Disk) × (advance_scopes deps
            (transaction s)
            b.manifest.producer_id
            (deps.sha256 b.manifest_bytes)
            b.manifest.ca_scopes
            d
          ≡ (ok u, e))
        × (t.state ≡ u.state)
  unfolding advance_from_bundle
  from_scopes s t b d d' h =
      let (u, e, p, q) =
        >>=-inv
          (advance_scopes deps (transaction s) b.manifest.producer_id (deps.sha256 b.manifest_bytes)
            b.manifest.ca_scopes)
          (λ candidate. do
            (if s.staged then pure tt else persist deps candidate)
            pure (record s { state = candidate.state }))
          d t d' h in
      (u, e, p, ground arith)

  -- Advancing over a bundle successfully, staged or not, never loses or lowers a high-water mark.
  pub advance_from_bundle-Rises :
      (s t : StateStore) (b : Bundle) (d d' : Disk)
      → advance_from_bundle deps s b d ≡ (ok t, d')
      → Rises s t
  advance_from_bundle-Rises s t b d d' h =
      let (u, e, p, q) = from_scopes s t b d d' h in
      λ key a m.
        rw (q, mark) (advance_scopes-Rises (transaction s) u _ _ b.manifest.ca_scopes d e p key a m)

  -- After a bundle has been advanced over successfully, every scope of it has a high-water mark that is
  -- at least the scope's epoch.
  pub advance_from_bundle-Covers :
      (s t : StateStore) (b : Bundle) (d d' : Disk)
      → advance_from_bundle deps s b d ≡ (ok t, d')
      → (i : ℕ) (scope : CaScope) → get_elem? b.manifest.ca_scopes i ≡ some scope
      → Covers t (make_key b.manifest.producer_id (hex_encode scope.issuer_key_hash)) scope.epoch
  advance_from_bundle-Covers s t b d d' h i scope m =
      let (u, e, p, q) = from_scopes s t b d d' h in
      let (g, k, l) =
        advance_scopes-Covers (transaction s) u _ _ b.manifest.ca_scopes d e p i scope m in
      (
        g,
        ap
              (λ (p : PersistedState).
                lookup (make_key b.manifest.producer_id (hex_encode scope.issuer_key_hash))
                  p.high_water_marks)
              q
            ∙ k,
        l,
      )
