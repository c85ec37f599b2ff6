-- ===== src/Gossip/Message.antt =====
-- crates/hoike-gossip/src/broadcast.rs: the announcements and their bounds.
use hoike.Base.{
  ℕ, List, Bool, true, not, ◌&&◌, ◌||◌, Option, none, some, leb, ltb, ◌==◌, length, beq_bytes,
}
use hoike.Core.Config.{is_empty}

pub data GossipMessage : Type 0 where
  generation_announcement :
      (producer_id issuer_key_hash : List ℕ) (epoch : ℕ) (manifest_digest : List ℕ)
      (bundle_url : Option (List ℕ)) (origin_node : List ℕ)
      → GossipMessage
  urgent_revocation :
      (producer_id issuer_key_hash : List ℕ) (epoch : ℕ) (origin_node : List ℕ) → GossipMessage

abbrev pub scope_key : GossipMessage → List ℕ × List ℕ
scope_key (generation_announcement producer hash epoch digest url origin) = (producer, hash)
scope_key (urgent_revocation producer hash epoch origin) = (producer, hash)

abbrev pub epoch_of : GossipMessage → ℕ
epoch_of (generation_announcement producer hash epoch digest url origin) = epoch
epoch_of (urgent_revocation producer hash epoch origin) = epoch

abbrev pub origin_node : GossipMessage → List ℕ
origin_node (generation_announcement producer hash epoch digest url origin) = origin
origin_node (urgent_revocation producer hash epoch origin) = origin

abbrev url_in_bounds : GossipMessage → Bool
url_in_bounds (generation_announcement producer hash epoch digest none origin) = true
url_in_bounds (generation_announcement producer hash epoch digest (some url) origin) =
    leb (length url) 1024
url_in_bounds (urgent_revocation producer hash epoch origin) = true

unfoldable pub valid_bounds : GossipMessage → Bool
valid_bounds msg =
    let (producer, hash) = scope_key msg in
    not (is_empty producer)
    && leb (length producer) 256
    && leb (length (origin_node msg)) 256
    && (length hash == 20 || length hash == 32)
    && url_in_bounds msg

pub record BroadcastKey : Type 0 where
  pub producer_id : List ℕ
  pub issuer_key_hash : List ℕ
  pub epoch : ℕ

unfoldable pub invalidates : BroadcastKey → BroadcastKey → Bool
invalidates self other =
    beq_bytes self.producer_id other.producer_id
    && beq_bytes self.issuer_key_hash other.issuer_key_hash
    && ltb other.epoch self.epoch
