-- ===== src/Gossip/Broadcast.antt =====
-- crates/hoike-gossip/src/broadcast.rs: the handler of inbound broadcasts. An `Instant` is a number of
-- nanoseconds, and one call of the handler reads the clock once. The channel is tokio's.
pub mod Admitted
use hoike.Base.{
  ℕ, ltb, true, ◌↔◌, arith, beq_bytes_iff, ◌-◌, ◌≡◌, List, Bool, not, ◌&&◌, Option, none, some, ok,
  err, Result, leb, ltb, length, beq_bytes, if◌then◌else◌,
}
use hoike.Base.Table.{Table, Key, contains_key, insert, retain}
use hoike.Gossip.Message.{GossipMessage, BroadcastKey, scope_key, epoch_of, valid_bounds}
use hoike.Gossip.Crypto.{Ed25519, GossipVerifier, check, accept, reject}

abbrev pub Scope : Type 0
Scope = List ℕ × List ℕ

abbrev pub beq_scope : Scope → Scope → Bool
beq_scope (p, h) (q, k) = beq_bytes p q && beq_bytes h k

pub beq_scope_iff : (a b : Scope) → (beq_scope a b ≡ true) ↔ (a ≡ b)
beq_scope_iff (p, h) (q, k) = ground (arith, beq_bytes_iff p q, beq_bytes_iff h k)

instance abbrev pub scope_key_of : Key Scope
scope_key_of = record { beq = beq_scope; beq_iff = beq_scope_iff }

-- `tokio::sync::mpsc::Sender`: none where the channel is full or closed.
pub record Channel : Type 1 where
  pub Sender : Type 0
  pub try_send : Sender → GossipMessage → Option Sender

-- "decode"
pub data BroadcastError : Type 0 where
  decode : BroadcastError

-- 3600 s
abbrev pub admitted_for : ℕ
admitted_for = 3_600_000_000_000

abbrev pub max_scopes : ℕ
max_scopes = 4096

module _ (ed : Ed25519) (ch : Channel) where
  open ed use {from_json}
  open ch use {Sender, try_send}

  pub record Handler : Type 0 where
    pub tx : Sender
    pub verifier : GossipVerifier
    pub admitted : Table Scope ℕ

  -- What a call does to the handler, and `Ok(key)` or the error.
  abbrev pub Received : Type 0
  Received = Result BroadcastError (Option BroadcastKey) × Handler

  abbrev pub is_recent : ℕ → ℕ → Bool
  is_recent now seen = ltb (now - seen) admitted_for

  abbrev pub key_of : GossipMessage → BroadcastKey
  key_of msg = record {
    producer_id = (scope_key msg).0;
    issuer_key_hash = (scope_key msg).1;
    epoch = epoch_of msg;
  }

  -- A message that the channel does not take is lost.
  abbrev pub deliver : Sender → GossipMessage → Sender
  deliver tx msg = elim (try_send tx msg) [ none ↦ tx | some tx' ↦ tx' ]

  -- The steps after the decoding.
  unfoldable pub admit : Handler → GossipMessage → ℕ → Received
  admit h msg now =
      let recent = retain (is_recent now) h.admitted in
      let scope = scope_key msg in
      if not (valid_bounds msg)
      then (ok none, h)
      else if not (contains_key scope recent) && leb max_scopes (length recent)
      then (ok none, record h { admitted = recent })
      else (
        ok (some (key_of msg)),
        record h { tx = deliver h.tx msg; admitted = insert scope now recent },
      )

  unfoldable pub receive_item : Handler → List ℕ → ℕ → Received
  receive_item h bytes now =
      if ltb 2048 (length bytes) then (ok none, h) else elim (check ed h.verifier bytes) [
        | reject reason ↦ (ok none, h)
        | accept payload ↦ elim (from_json payload) [
          | none ↦ (err decode, h)
          | some msg ↦ admit h msg now
        ]
      ]
