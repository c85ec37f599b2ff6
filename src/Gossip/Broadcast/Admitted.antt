-- ===== src/Gossip/Broadcast/Admitted.antt =====
-- The table of the scopes that crates/hoike-gossip/src/broadcast.rs has let in, and what gets through it.
use hoike.Base.{
  ℕ, ◌≡◌, ◌≤◌, ◌<◌, refl, ap, ◌∙◌, List, [], ◌∷◌, some, ok, arith, true, false, not, Option-cases,
  inl, inr, ◌⊎◌, ◌&&◌, ltb, leb, ge→ltb, length, get_elem?,
}
use hoike.Base.Table.{contains_key, insert, retain, length-retain-le, length-insert}
use hoike.Gossip.Message.{GossipMessage, scope_key, valid_bounds, origin_node}
use hoike.Gossip.Crypto.{
  Ed25519, IsEd25519, Identity, AuthMode, for_identities, check, accept, reject, frame,
  GossipVerifier, VerifyOutcome, RejectReason,
}
use hoike.Gossip.Crypto.Delivery.{check-frame}
use hoike.Gossip.Broadcast.{
  scope_key_of, Channel, Handler, receive_item, admit, max_scopes, is_recent, key_of, deliver,
}

Outcome-cases :
    (o : VerifyOutcome)
    → ((payload : List ℕ) × (o ≡ accept payload)) ⊎ ((reason : RejectReason) × (o ≡ reject reason))
Outcome-cases (accept payload) = inl (payload, refl)
Outcome-cases (reject reason) = inr (reason, refl)

module _ (ed : Ed25519) (ch : Channel) where
  open ed use {verifying_key, to_json}

  -- Frames that come in, each with the time.
  unfoldable pub receive_all : Handler ed ch → List (List ℕ × ℕ) → Handler ed ch
  receive_all h [] = h
  receive_all h ((bytes, now) ∷ more) = receive_all (receive_item ed ch h bytes now).1 more

  admit-bounded :
      (h : Handler ed ch) (msg : GossipMessage) (now : ℕ)
      → length h.admitted ≤ max_scopes
      → length (admit ed ch h msg now).1.admitted ≤ max_scopes
  unfolding admit
  admit-bounded h msg now bound =
      let recent = retain (is_recent ed ch now) h.admitted in
      ground (
        arith,
        length-retain-le (is_recent ed ch now) h.admitted,
        length-insert (scope_key msg) now recent,
      )

  receive_item-bounded :
      (h : Handler ed ch) (bytes : List ℕ) (now : ℕ)
      → length h.admitted ≤ max_scopes
      → length (receive_item ed ch h bytes now).1.admitted ≤ max_scopes
  unfolding receive_item
  receive_item-bounded h bytes now bound = elim (Outcome-cases (check ed h.verifier bytes)) [
    | inr (reason, e) ↦ ground arith
    | inl (payload, e) ↦ elim (Option-cases (ed.from_json payload)) [
      | inl f ↦ ground arith
      | inr (msg, f) ↦ ground (arith, admit-bounded h msg now bound)
    ]
  ]

  -- Over any sequence of frames, whatever they hold and whenever they come, the table of the scopes stays
  -- within its bound.
  pub receive_all-bounded :
      (h : Handler ed ch) (frames : List (List ℕ × ℕ))
      → length h.admitted ≤ max_scopes
      → length (receive_all h frames).admitted ≤ max_scopes
  unfolding receive_all
  receive_all-bounded h [] bound = bound
  receive_all-bounded h ((bytes, now) ∷ more) bound =
      receive_all-bounded (receive_item ed ch h bytes now).1 more
        (receive_item-bounded h bytes now bound)

  module _ (laws : IsEd25519 ed) where
    -- An announcement that its origin has signed arrives: wherever the key is provisioned for that name, if
    -- the message is within its bounds, its frame is at most 2048 bytes long, and its scope is known or the
    -- table has room, the handler returns the key of the message, enters the scope with the time, and puts
    -- the message into a channel that takes it.
    pub receive_item-frame :
        (h : Handler ed ch) (identities : List Identity) (mode : AuthMode) (key : List ℕ)
        (msg : GossipMessage) (index now : ℕ) (tx : ch.Sender)
        → h.verifier ≡ for_identities identities mode
        → get_elem? identities index ≡ some (origin_node msg, verifying_key key)
        → valid_bounds msg ≡ true
        → length (frame ed key (to_json msg)) ≤ 2048
        → (contains_key (scope_key msg) (retain (is_recent ed ch now) h.admitted) ≡ true)
          ⊎ (length (retain (is_recent ed ch now) h.admitted) < max_scopes)
        → ch.try_send h.tx msg ≡ some tx
        → receive_item ed ch h (frame ed key (to_json msg)) now ≡ (
          ok (some (key_of ed ch msg)),
          record h {
            tx = tx;
            admitted = insert (scope_key msg) now (retain (is_recent ed ch now) h.admitted);
          },
        )
    unfolding receive_item admit
    receive_item-frame h identities mode key msg index now tx v at valid short room sent =
        let passed : check ed h.verifier (frame ed key (to_json msg)) ≡ accept (to_json msg) =
          ap (λ (x : GossipVerifier). check ed x (frame ed key (to_json msg))) v
          ∙ check-frame ed laws identities mode key msg index at in
        let fits : ltb 2048 (length (frame ed key (to_json msg))) ≡ false = ge→ltb _ _ short in
        let full : not (contains_key (scope_key msg) (retain (is_recent ed ch now) h.admitted))
              && leb max_scopes (length (retain (is_recent ed ch now) h.admitted))
            ≡ false =
          elim room [ inl k ↦ rw k refl | inr l ↦ ground arith ] in
        rw (fits, passed, laws.from_json-to_json msg, valid, full) (rw (sent, deliver) refl)
