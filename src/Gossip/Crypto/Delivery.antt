-- ===== src/Gossip/Crypto/Delivery.antt =====
-- The frames of crates/hoike-gossip/src/crypto.rs on the other side: a signed announcement gets through.
use hoike.Base.{
  ℕ, ◌≡◌, refl, subst, List, [], ◌∷◌, ◌++◌, map, some, arith, false, ltb, ge→ltb, take, drop,
  length, length-append, take-append, drop-append, get_elem?, beq_bytes_refl,
}
use hoike.Base.Exists.{exists_in_at, get_elem?-map}
use hoike.Gossip.Message.{GossipMessage, origin_node}
use hoike.Gossip.Crypto.{
  AuthMode, Ed25519, IsEd25519, Identity, for_identities, accept, frame, check, check_signed,
  check_origin, is_authorized, signed_tag,
}

module _ (ed : Ed25519) (laws : IsEd25519 ed) where
  open ed use {verifying_key, sign, verify, verify_strict, to_json, from_json}

  check_origin-sign :
      (identities : List Identity) (mode : AuthMode) (key : List ℕ) (msg : GossipMessage)
      (index : ℕ)
      → get_elem? identities index ≡ some (origin_node msg, verifying_key key)
      → check_origin ed (for_identities identities mode) (sign key (to_json msg)) (to_json msg)
        ≡ accept (to_json msg)
  unfolding check_origin
  check_origin-sign [] mode key msg index at = absurd (cc)
  check_origin-sign (i ∷ is) mode key msg index at =
      rw
        (
          laws.from_json-to_json msg,
          exists_in_at (is_authorized ed (origin_node msg) (to_json msg) (sign key (to_json msg)))
              (i ∷ is) index (origin_node msg, verifying_key key) at
              (rw (beq_bytes_refl (origin_node msg), laws.verify_strict_sign key (to_json msg))
                refl),
        )
        refl

  -- A frame that is signed by the key of the node that the message names gets through wherever that key
  -- is provisioned for that name, in both modes, and the payload is the message as it was sent.
  pub check-frame :
      (identities : List Identity) (mode : AuthMode) (key : List ℕ) (msg : GossipMessage)
      (index : ℕ)
      → get_elem? identities index ≡ some (origin_node msg, verifying_key key)
      → check ed (for_identities identities mode) (frame ed key (to_json msg))
        ≡ accept (to_json msg)
  unfolding check check_signed frame
  check-frame identities mode key msg index at =
      let sig = sign key (to_json msg) in
      let json = to_json msg in
      let size : length sig ≡ 64 = laws.length_sign key json in
      let taken : take 64 (sig ++ json) ≡ sig =
        subst (λ n. take n (sig ++ json) ≡ sig) size (take-append sig json) in
      let rest : drop 64 (sig ++ json) ≡ json =
        subst (λ n. drop n (sig ++ json) ≡ json) size (drop-append sig json) in
      let long : ltb (length (signed_tag ∷ (sig ++ json))) 65 ≡ false =
        ge→ltb _ 65 (omega (arith, length-append sig json)) in
      let trusted =
        exists_in_at (λ k. verify k json sig) (map (λ (i : Identity). i.1) identities) index
          (verifying_key key) (get_elem?-map (λ (i : Identity). i.1) identities index _ at)
          (laws.verify_sign key json) in
      rw (long, taken, rest, size, trusted) (check_origin-sign identities mode key msg index at)
