-- ===== src/Gossip/Node/Arrives.antt =====
-- From one node of crates/hoike-gossip/src/node.rs to the handler of another.
use hoike.Base.{
  ℕ, ◌≡◌, ◌≤◌, ◌<◌, ◌⊎◌, List, Option, some, ok, true, length, get_elem?, Option-cases, inl, inr,
  ap, ◌∙◌, some-injective, and_then,
}
use hoike.Base.Table.{contains_key, insert, retain}
use hoike.Gossip.Message.{valid_bounds}
use hoike.Gossip.Crypto.{Ed25519, IsEd25519, Identity, AuthMode, for_identities, frame}
use hoike.Gossip.Broadcast.{
  scope_key_of, Channel, Handler, receive_item, max_scopes, is_recent, key_of,
}
use hoike.Gossip.Broadcast.Admitted.{receive_item-frame}
use hoike.Gossip.Node.{Swim, GossipNode, announcement, announce_generation, frame_broadcast}

module _ (ed : Ed25519) (laws : IsEd25519 ed) (swim : Swim) (ch : Channel) where
  -- What foca is given is the signed frame of the message.
  announced-frame :
      (node after : GossipNode ed swim) (key producer hash : List ℕ) (epoch : ℕ) (digest : List ℕ)
      (url : Option (List ℕ))
      → node.signer ≡ some key
      → announce_generation ed swim node producer hash epoch digest url ≡ some after
      → swim.add_broadcast node.foca
          (frame ed key (ed.to_json (announcement ed swim node producer hash epoch digest url)))
        ≡ some after.foca
  unfolding announce_generation frame_broadcast
  announced-frame node after key producer hash epoch digest url signed sent =
      elim (Option-cases (
        swim.add_broadcast node.foca (
          frame_broadcast ed swim node
            (ed.to_json (announcement ed swim node producer hash epoch digest url))))) [
              | inl e ↦ absurd (cc (rw (e, and_then) at sent))
              | inr (foca, e) ↦
                  let same : foca ≡ after.foca =
                    ap (λ (n : GossipNode ed swim). n.foca)
                      (some-injective (record node { foca = foca }) after
                        (rw (e, and_then) at sent)) in
                  rw (signed, frame_broadcast) at e ∙ ap some same
            ]

  -- An announcement of a generation goes out and arrives: what a node with a key hands to foca is a frame
  -- that every peer who has that key provisioned under the node's name takes in, if the message is within
  -- its bounds, its frame is at most 2048 bytes long, the peer knows the scope or has room for it, and the
  -- peer's channel takes the message. The peer's channel then holds the message as it was announced.
  pub announce_generation-arrives :
      (node after : GossipNode ed swim) (key producer hash : List ℕ) (epoch : ℕ) (digest : List ℕ)
      (url : Option (List ℕ)) (peer : Handler ed ch) (identities : List Identity) (mode : AuthMode)
      (index now : ℕ) (tx : ch.Sender)
      → node.signer ≡ some key
      → announce_generation ed swim node producer hash epoch digest url ≡ some after
      → peer.verifier ≡ for_identities identities mode
      → get_elem? identities index ≡ some (node.identity.name, ed.verifying_key key)
      → valid_bounds (announcement ed swim node producer hash epoch digest url) ≡ true
      → length
          (frame ed key (ed.to_json (announcement ed swim node producer hash epoch digest url)))
        ≤ 2048
      → (contains_key (producer, hash) (retain (is_recent ed ch now) peer.admitted) ≡ true)
        ⊎ (length (retain (is_recent ed ch now) peer.admitted) < max_scopes)
      → ch.try_send peer.tx (announcement ed swim node producer hash epoch digest url) ≡ some tx
      → (bytes : List ℕ) × (swim.add_broadcast node.foca bytes ≡ some after.foca)
        × (receive_item ed ch peer bytes now ≡ (
          ok (some (key_of ed ch (announcement ed swim node producer hash epoch digest url))),
          record peer {
            tx = tx;
            admitted = insert (producer, hash) now (retain (is_recent ed ch now) peer.admitted);
          },
        ))
  announce_generation-arrives node after key producer hash epoch digest url peer identities mode
        index now tx signed sent v at valid short room took =
      let msg = announcement ed swim node producer hash epoch digest url in
      (
        frame ed key (ed.to_json msg),
        announced-frame node after key producer hash epoch digest url signed sent,
        receive_item-frame ed ch laws peer identities mode key msg index now tx v at valid short
            room took,
      )
