-- ===== src/Gossip/Crypto/Loaded.antt =====
-- What crates/hoike-gossip/src/crypto.rs has checked when it hands out the keys.
use hoike.Base.{
  ℕ, zero, suc, ◌≡◌, ◌⊎◌, inl, inr, refl, subst, sym, ap, ◌∙◌, List, [], ◌∷◌, Bool-cases,
  Result-cases, Option, none, some, some-injective, ok, arith, true, false, ◌≤◌, length, get_elem?,
  beq_bytes_iff,
}
use hoike.Base.Exists.{exists_in, exists_in_sound, get_elem?-push, get_elem?-of_push}
use hoike.Core.Config.{is_empty}
use hoike.Core.Storage.{FilePath}
use hoike.Gossip.Crypto.{
  AuthMode, required, Ed25519, Identity, GossipConfig, GossipVerifier, for_identities,
  load_verifying_key, load_identities, load_authentication, with_local, is_identity, has_key,
  load_signer, permissive, agrees,
}

module _ (ed : Ed25519) (files : FilePath → Option (List ℕ)) (conf : GossipConfig) where
  open ed use {verifying_key}

  -- A peer of the configuration with the key in its file.
  pub record IsPeer (i : Identity) (peers : List (List ℕ × FilePath)) : Type 0 where
    pub index : ℕ
    pub path : FilePath
    pub configured : get_elem? peers index ≡ some (i.0, path)
    pub read : load_verifying_key ed files path ≡ ok i.1
    pub nonempty : is_empty i.0 ≡ false
    pub short : length i.0 ≤ 256

  -- The local node under its own key.
  abbrev pub IsLocal : Option (List ℕ) → Identity → Type 0
  IsLocal signer i =
      (s : List ℕ) × (signer ≡ some s) × (i.0 ≡ conf.node_name) × (i.1 ≡ verifying_key s)

  pub record IsLoaded (signer : Option (List ℕ)) (v : GossipVerifier) : Type 0 where
    pub shape : v ≡ for_identities v.identities conf.auth_mode
    pub migrated : conf.peer_keys ≡ []
    pub signs : conf.auth_mode ≡ required → (s : List ℕ) × (signer ≡ some s)
    pub known :
        (index : ℕ) (i : Identity)
        → get_elem? v.identities index ≡ some i
        → IsPeer i conf.peer_identities ⊎ IsLocal signer i
    pub own :
        (s : List ℕ)
        → signer ≡ some s
        → (index : ℕ) × (get_elem? v.identities index ≡ some (conf.node_name, verifying_key s))
    pub unambiguous :
        (s : List ℕ) (index : ℕ) (key : List ℕ)
        → signer ≡ some s
        → get_elem? v.identities index ≡ some (conf.node_name, key)
        → key ≡ verifying_key s

  -- One round of the loop over the peers.
  record IsRound (signer : Option (List ℕ)) (name : List ℕ) (path : FilePath)
      (peers : List (List ℕ × FilePath)) (is : List Identity) : Type 0 where
    key : List ℕ
    rest : List Identity
    found : load_verifying_key ed files path ≡ ok key
    more : load_identities ed files conf signer peers ≡ ok rest
    result : is ≡ (name, key) ∷ rest
    named : is_empty name ≡ false
    bounded : length name ≤ 256
    agreed : agrees ed files conf signer name key ≡ true

  load_identities-IsRound :
      (signer : Option (List ℕ)) (name : List ℕ) (path : FilePath)
      (peers : List (List ℕ × FilePath)) (is : List Identity)
      → load_identities ed files conf signer ((name, path) ∷ peers) ≡ ok is
      → IsRound signer name path peers is
  unfolding load_identities
  load_identities-IsRound signer name path peers is h =
      elim (Result-cases (load_verifying_key ed files path)) [
        | inr (e, f) ↦ absurd (ground arith)
        | inl (key, f) ↦ elim (Result-cases (load_identities ed files conf signer peers)) [
          | inr (e, g) ↦ absurd (ground arith)
          | inl (rest, g) ↦ elim (Bool-cases (agrees ed files conf signer name key)) [
            | inr n ↦ absurd (ground arith)
            | inl y ↦ record {
              key = key;
              rest = rest;
              found = f;
              more = g;
              result = ground arith;
              named = ground arith;
              bounded = ground arith;
              agreed = y;
            }
          ]
        ]
      ]

  agrees-local :
      (signer : Option (List ℕ)) (name key s : List ℕ)
      → agrees ed files conf signer name key ≡ true
      → signer ≡ some s
      → name ≡ conf.node_name
      → key ≡ verifying_key s
  agrees-local none name key s h e n = absurd (cc)
  agrees-local (some t) name key s h e n =
      ground (arith, beq_bytes_iff name conf.node_name, beq_bytes_iff (verifying_key t) key)

  load_identities-known :
      (signer : Option (List ℕ)) (peers : List (List ℕ × FilePath)) (is : List Identity)
      → load_identities ed files conf signer peers ≡ ok is
      → (index : ℕ) (i : Identity) → get_elem? is index ≡ some i
      → IsPeer i peers
        × ((s : List ℕ) → signer ≡ some s → i.0 ≡ conf.node_name → i.1 ≡ verifying_key s)
  unfolding load_identities
  load_identities-known signer [] [] h index i at = absurd (cc)
  load_identities-known signer [] (x ∷ is) h index i at = absurd (cc)
  load_identities-known signer ((name, path) ∷ peers) is h zero i at =
      let r = load_identities-IsRound signer name path peers is h in
      let same : (name, r.key) ≡ i =
        some-injective _ i (ap (λ (l : List Identity). get_elem? l 0) (sym r.result) ∙ at) in
      let n : i.0 ≡ name = ap (λ (x : Identity). x.0) (sym same) in
      let k : i.1 ≡ r.key = ap (λ (x : Identity). x.1) (sym same) in
      (
        record {
          index = 0;
          path = path;
          configured = rw n refl;
          read = rw k r.found;
          nonempty = rw n r.named;
          short = rw n r.bounded;
        },
        λ s e l. k ∙ agrees-local signer name r.key s r.agreed e (sym n ∙ l),
      )
  load_identities-known signer ((name, path) ∷ peers) is h (suc index) i at =
      let r = load_identities-IsRound signer name path peers is h in
      let (p, l) =
        load_identities-known signer peers r.rest r.more index i
          (ap (λ (l : List Identity). get_elem? l (suc index)) (sym r.result) ∙ at) in
      (
        record {
          index = suc p.index;
          path = p.path;
          configured = p.configured;
          read = p.read;
          nonempty = p.nonempty;
          short = p.short;
        },
        l,
      )

  with_local-known :
      (signer : Option (List ℕ)) (is : List Identity) (index : ℕ) (i : Identity)
      → get_elem? (with_local ed files conf.node_name signer is) index ≡ some i
      → (get_elem? is index ≡ some i) ⊎ IsLocal signer i
  unfolding with_local
  with_local-known none is index i at = inl at
  with_local-known (some s) is index i at =
      elim (Bool-cases (exists_in (is_identity ed files conf.node_name (verifying_key s)) is)) [
        | inl t ↦ inl (rw t at at)
        | inr f ↦
            elim (get_elem?-of_push is (conf.node_name, verifying_key s) index i (rw f at at)) [
              | inl e ↦ inl e
              | inr e ↦ inr (s, refl, ap (λ (x : Identity). x.0) e, ap (λ (x : Identity). x.1) e)
            ]
      ]

  with_local-own :
      (s : List ℕ) (is : List Identity)
      → (index : ℕ) × (get_elem? (with_local ed files conf.node_name (some s) is) index
          ≡ some (conf.node_name, verifying_key s))
  unfolding with_local
  with_local-own s is =
      elim (Bool-cases (exists_in (is_identity ed files conf.node_name (verifying_key s)) is)) [
        | inl t ↦
            let (index, i, at, same) =
              exists_in_sound (is_identity ed files conf.node_name (verifying_key s)) is t in
            (
              index,
              rw t (
                  at
                  ∙ ground (
                    arith,
                    beq_bytes_iff i.0 conf.node_name,
                    beq_bytes_iff i.1 (verifying_key s),
                  )),
            )
        | inr f ↦ (length is, rw f (get_elem?-push is (conf.node_name, verifying_key s)))
      ]

  record IsChecked (signer : Option (List ℕ)) (v : GossipVerifier) : Type 0 where
    identities : List Identity
    loaded : load_identities ed files conf signer conf.peer_identities ≡ ok identities
    result :
        v ≡ for_identities (with_local ed files conf.node_name signer identities) conf.auth_mode
    migrated : conf.peer_keys ≡ []
    keyed : has_key ed files conf.auth_mode signer ≡ true

  load_authentication-IsChecked :
      (signer : Option (List ℕ)) (v : GossipVerifier)
      → load_authentication ed files conf ≡ ok (signer, v)
      → IsChecked signer v
  unfolding load_authentication
  load_authentication-IsChecked signer v h =
      elim (Result-cases (load_signer ed files conf.identity_key)) [
        | inr (e, f) ↦ absurd (ground arith)
        | inl (t, f) ↦ elim (Result-cases (load_identities ed files conf t conf.peer_identities)) [
          | inr (e, g) ↦ absurd (ground arith)
          | inl (is, g) ↦
              let same : t ≡ signer = ground arith in
              record {
                identities = is;
                loaded =
                    subst
                      (λ (x : Option (List ℕ)).
                        load_identities ed files conf x conf.peer_identities ≡ ok is)
                      same g;
                result = ground arith;
                migrated = ground arith;
                keyed = ground arith;
              }
        ]
      ]

  has_key-required :
      (mode : AuthMode) (signer : Option (List ℕ))
      → has_key ed files mode signer ≡ true
      → mode ≡ required
      → (s : List ℕ) × (signer ≡ some s)
  has_key-required mode (some s) h e = (s, refl)
  has_key-required permissive none h e = absurd (cc)
  has_key-required required none h e = absurd (cc)

  -- What is handed out: every identity of the verifier is a peer of the configuration under the key in its
  -- file, or the local node under its own; the local node is among them if it has a key, and no other key
  -- goes by its name; and in required mode there is a key.
  pub load_authentication-IsLoaded :
      (signer : Option (List ℕ)) (v : GossipVerifier)
      → load_authentication ed files conf ≡ ok (signer, v)
      → IsLoaded signer v
  load_authentication-IsLoaded signer v h =
      let c = load_authentication-IsChecked signer v h in
      let all = with_local ed files conf.node_name signer c.identities in
      let peers = load_identities-known signer conf.peer_identities c.identities c.loaded in
      let found : v.identities ≡ all = ap (λ (x : GossipVerifier). x.identities) c.result in
      record {
        shape =
            c.result ∙ ap (λ (is : List Identity). for_identities is conf.auth_mode) (sym found);
        migrated = c.migrated;
        signs = has_key-required conf.auth_mode signer c.keyed;
        known = λ index i at.
            elim (with_local-known signer c.identities index i
              (ap (λ (is : List Identity). get_elem? is index) (sym found) ∙ at)) [
                | inl e ↦ inl (peers index i e).0
                | inr local ↦ inr local
              ];
        own = λ s e.
            let (index, at) = with_local-own s c.identities in
            (
              index,
              ap (λ (is : List Identity). get_elem? is index)
                    (found
                      ∙ ap
                          (λ (t : Option (List ℕ)).
                            with_local ed files conf.node_name t c.identities)
                          e)
                  ∙ at,
            );
        unambiguous = λ s index key e at.
            elim (with_local-known signer c.identities index (conf.node_name, key)
              (ap (λ (is : List Identity). get_elem? is index) (sym found) ∙ at)) [
                | inl p ↦ (peers index (conf.node_name, key) p).1 s e refl
                | inr (t, f, _, k) ↦ k ∙ ap verifying_key (some-injective t s (sym f ∙ e))
              ];
      }
