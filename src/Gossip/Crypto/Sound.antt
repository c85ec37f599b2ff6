-- ===== src/Gossip/Crypto/Sound.antt =====
-- What stands behind a broadcast that crates/hoike-gossip/src/crypto.rs lets in.
use hoike.Base.{
  ℕ, ◌≡◌, ◌≢◌, ◌⊎◌, inl, inr, refl, sym, ap, subst, ◌∙◌, take-drop, length-take, ltb→ge, ◌≤◌, List,
  [], ◌∷◌, ◌++◌, Bool-cases, Option-cases, some, arith, true, ltb, take, drop, length, get_elem?,
  beq_bytes_iff, ◌==◌, ==_iff,
}
use hoike.Base.Exists.{exists_in, exists_in_sound}
use hoike.Gossip.Message.{GossipMessage, origin_node}
use hoike.Gossip.Crypto.{
  AuthMode, required, permissive, Ed25519, Identity, for_identities, GossipVerifier, accept, check,
  check_signed, check_origin, check_unsigned, is_authorized, signed_tag, sig_len,
}

module _ (ed : Ed25519) where
  open ed use {verify, verify_strict, from_json}

  -- A frame whose payload is signed by the key of the node that the message names.
  pub record IsAuthentic (identities : List Identity) (bytes payload : List ℕ) : Type 0 where
    pub sig : List ℕ
    pub framed : bytes ≡ signed_tag ∷ (sig ++ payload)
    pub sized : length sig ≡ sig_len
    pub msg : GossipMessage
    pub decoded : from_json payload ≡ some msg
    pub index : ℕ
    pub key : List ℕ
    pub provisioned : get_elem? identities index ≡ some (origin_node msg, key)
    pub signed : verify_strict key payload sig ≡ true

  -- A payload that is let in for its origin is the one that was signed.
  check_origin-accept :
      (i : Identity) (is : List Identity) (mode : AuthMode) (sig payload p : List ℕ)
      → check_origin ed (for_identities (i ∷ is) mode) sig payload ≡ accept p
      → (p ≡ payload)
        × (msg : GossipMessage) × (from_json payload ≡ some msg)
        × (index : ℕ) × (key : List ℕ) × (get_elem? (i ∷ is) index ≡ some (origin_node msg, key))
        × (verify_strict key payload sig ≡ true)
  unfolding check_origin
  check_origin-accept i is mode sig payload p h = elim (Option-cases (from_json payload)) [
    | inl e ↦ absurd (ground arith)
    | inr (msg, e) ↦
        elim (Bool-cases (exists_in (is_authorized ed (origin_node msg) payload sig) (i ∷ is))) [
          | inr f ↦ absurd (ground arith)
          | inl t ↦
              let (index, (name, key), at, found) =
                exists_in_sound (is_authorized ed (origin_node msg) payload sig) (i ∷ is) t in
              let same : name ≡ origin_node msg =
                ground (arith, beq_bytes_iff name (origin_node msg)) in
              (
                ground arith,
                msg,
                e,
                index,
                key,
                at ∙ ap (λ (n : List ℕ). some (n, key)) same,
                ground arith,
              )
        ]
  ]

  check_signed-accept :
      (v : GossipVerifier) (b : ℕ) (rest payload : List ℕ)
      → check_signed ed v (b ∷ rest) ≡ accept payload
      → (64 ≤ length rest)
        × (exists_in (λ key. verify key (drop 64 rest) (take 64 rest)) v.trusted ≡ true)
        × (check_origin ed v (take 64 rest) (drop 64 rest) ≡ accept payload)
  unfolding check_signed
  check_signed-accept v b rest payload h = elim (Bool-cases (ltb (length (b ∷ rest)) 65)) [
    | inl short ↦ absurd (cc (rw short at h))
    | inr long ↦
        let enough : 64 ≤ length rest = omega (arith, ltb→ge (length (b ∷ rest)) 65 long) in
        let after = rw (long, length-take 64 rest enough) at h in
        elim (Bool-cases (exists_in (λ key. verify key (drop 64 rest) (take 64 rest)) v.trusted)) [
          | inl t ↦ (enough, t, rw t at after)
          | inr f ↦ absurd (cc (rw f at after))
        ]
  ]

  check_signed-IsAuthentic :
      (identities : List Identity) (mode : AuthMode) (rest payload : List ℕ)
      → check_signed ed (for_identities identities mode) (signed_tag ∷ rest) ≡ accept payload
      → IsAuthentic identities (signed_tag ∷ rest) payload
  unfolding check_signed exists_in
  check_signed-IsAuthentic [] mode rest payload h = absurd (ground arith)
  check_signed-IsAuthentic (i ∷ is) mode rest payload h =
      let (long, _, origin) =
        check_signed-accept (for_identities (i ∷ is) mode) signed_tag rest payload h in
      let (same, msg, e, index, key, at, ok) =
        check_origin-accept i is mode (take 64 rest) (drop 64 rest) payload origin in
      record {
        sig = take 64 rest;
        framed =
            ap (◌∷◌ signed_tag)
              (sym (take-drop 64 rest) ∙ ap (λ (p : List ℕ). take 64 rest ++ p) (sym same));
        sized = length-take 64 rest (omega arith);
        msg = msg;
        decoded = ap from_json same ∙ e;
        index = index;
        key = key;
        provisioned = at;
        signed = ap (λ (p : List ℕ). verify_strict key p (take 64 rest)) same ∙ ok;
      }

  unsigned-accept :
      (mode : AuthMode) (bytes payload : List ℕ)
      → check_unsigned mode bytes ≡ accept payload
      → (mode ≡ permissive) × (payload ≡ bytes)
  unsigned-accept required bytes payload h = absurd (cc)
  unsigned-accept permissive bytes payload h = (refl, cc)

  -- What is let in is signed by a key that is provisioned for the node that the message names as its
  -- origin, in both modes; the one exception is a frame with no tag, as it is, in permissive mode.
  pub check-IsAuthentic :
      (identities : List Identity) (mode : AuthMode) (bytes payload : List ℕ)
      → check ed (for_identities identities mode) bytes ≡ accept payload
      → IsAuthentic identities bytes payload
        ⊎ ((mode ≡ permissive) × (payload ≡ bytes) × ((rest : List ℕ) → bytes ≢ signed_tag ∷ rest))
  unfolding check
  check-IsAuthentic identities required [] payload h = absurd (cc)
  check-IsAuthentic identities permissive [] payload h = inr (refl, cc, λ rest e. cc)
  check-IsAuthentic identities mode (b ∷ rest) payload h = elim (Bool-cases (b == signed_tag)) [
    | inl t ↦
        let same : b ≡ signed_tag = (==_iff b signed_tag).0 t in
        inl (
          subst (λ (x : ℕ). IsAuthentic identities (x ∷ rest) payload) (sym same)
            (check_signed-IsAuthentic identities mode rest payload (
              subst
                (λ (x : ℕ).
                  check_signed ed (for_identities identities mode) (x ∷ rest) ≡ accept payload)
                same (rw t at h))))
    | inr f ↦
        let (m, p) = unsigned-accept mode (b ∷ rest) payload (rw f at h) in
        inr (m, p, λ r e. ground arith)
  ]
