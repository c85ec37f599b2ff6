-- ===== src/Gossip/Node.antt =====
-- crates/hoike-gossip/src/node.rs: the announcements of a node, the members and the table of the generations.
-- The foca crate is a parameter, addresses are texts, and times are in Unix seconds. Each table is under
-- a lock for the whole of an operation, so the operations are steps on the state.
pub mod Rows
pub mod Arrives
use hoike.Base.{
  ℕ, ◌+◌, ◌-◌, ◌≡◌, ◌↔◌, arith, List, [], ◌∷◌, ◌++◌, map, Bool, true, false, not, ◌&&◌, Option,
  none, some, leb, ltb, length, beq_bytes, beq_bytes_iff, if◌then◌else◌, and_then,
}
use hoike.Base.Table.{Table, Key, lookup, contains_key, insert, retain}
use hoike.Gossip.Message.{GossipMessage, generation_announcement, urgent_revocation, valid_bounds}
use hoike.Gossip.Crypto.{Ed25519, GossipConfig, frame}

pub data MemberState : Type 0 where
  alive suspect down : MemberState

pub record MemberInfo : Type 0 where
  pub name : List ℕ
  pub addr : List ℕ
  pub incarnation : ℕ
  pub state : MemberState
  pub is_self : Bool

pub record GenRecord : Type 0 where
  pub origin_node : List ℕ
  pub producer_id : List ℕ
  pub issuer_key_hash : List ℕ
  pub epoch : ℕ
  pub manifest_digest : List ℕ
  pub last_seen_unix : ℕ

-- The announcing node, the producer and the issuer's key hash in hex.
pub record GenKey : Type 0 where
  pub origin : List ℕ
  pub producer : List ℕ
  pub ikh_hex : List ℕ

abbrev pub beq_gen_key : GenKey → GenKey → Bool
beq_gen_key a b =
    beq_bytes a.origin b.origin && beq_bytes a.producer b.producer && beq_bytes a.ikh_hex b.ikh_hex

pub beq_gen_key_iff : (a b : GenKey) → (beq_gen_key a b ≡ true) ↔ (a ≡ b)
beq_gen_key_iff a b = ground (
  arith,
  beq_bytes_iff a.origin b.origin,
  beq_bytes_iff a.producer b.producer,
  beq_bytes_iff a.ikh_hex b.ikh_hex,
)

instance abbrev pub gen_key_of : Key GenKey
gen_key_of = record { beq = beq_gen_key; beq_iff = beq_gen_key_iff }

pub record NodeId : Type 0 where
  pub addr : List ℕ
  pub name : List ℕ
  pub incarnation : ℕ

-- `u64` addition in `renew` does not overflow below 2 ^ 64 rejoins.
abbrev pub renew : NodeId → Option NodeId
renew self = some (record self { incarnation = self.incarnation + 1 })

unfoldable pub win_addr_conflict : NodeId → NodeId → Bool
win_addr_conflict self adversary = ltb adversary.incarnation self.incarnation

-- What is called of foca: a peer's identity with its state, and the broadcast, which may fail.
pub record Swim : Type 1 where
  pub Foca : Type 0
  pub iter_membership_state : Foca → List (NodeId × MemberState)
  pub add_broadcast : Foca → List ℕ → Option Foca

abbrev pub max_rows : ℕ
max_rows = 4096

-- 3600 s
abbrev pub row_ttl : ℕ
row_ttl = 3600

abbrev pub GenerationTable : Type 0
GenerationTable = Table GenKey GenRecord

abbrev pub is_live : ℕ → GenRecord → Bool
is_live now row = ltb (now - row.last_seen_unix) row_ttl

-- The row after the announcement.
abbrev pub observe : GenRecord → ℕ → List ℕ → ℕ → GenRecord
observe row epoch digest_hex now =
    let newer = record row { epoch = epoch; manifest_digest = digest_hex; last_seen_unix = now } in
    if leb row.epoch epoch then newer else record row { last_seen_unix = now }

module _ (hex_encode : List ℕ → List ℕ) where
  abbrev pub gen_key : List ℕ → List ℕ → List ℕ → GenKey
  gen_key origin producer hash = record {
    origin = origin;
    producer = producer;
    ikh_hex = hex_encode hash;
  }

  abbrev pub new_row : GenKey → ℕ → List ℕ → ℕ → GenRecord
  new_row key epoch digest_hex now = record {
    origin_node = key.origin;
    producer_id = key.producer;
    issuer_key_hash = key.ikh_hex;
    epoch = epoch;
    manifest_digest = digest_hex;
    last_seen_unix = now;
  }

  unfoldable pub record_row : GenerationTable → GenKey → ℕ → List ℕ → ℕ → GenerationTable
  record_row table key epoch digest_hex now =
      let live = retain (is_live now) table in
      if not (contains_key key live) && leb max_rows (length live)
      then live
      else elim (lookup key live) [
        | none ↦ insert key (observe (new_row key epoch digest_hex now) epoch digest_hex now) live
        | some row ↦ insert key (observe row epoch digest_hex now) live
      ]

  unfoldable pub record_generation : GenerationTable → GossipMessage → ℕ → GenerationTable
  record_generation table (urgent_revocation producer hash epoch origin) now = table
  record_generation table (generation_announcement producer hash epoch digest url origin) now =
      if not (valid_bounds (generation_announcement producer hash epoch digest url origin))
      then table
      else record_row table (gen_key origin producer hash) epoch (hex_encode digest) now

-- The rows that are still live, and the table without the others.
abbrev values : GenerationTable → List GenRecord
values table = map (λ (kv : GenKey × GenRecord). kv.1) table

unfoldable pub generations : GenerationTable → ℕ → List GenRecord × GenerationTable
generations table now = let live = retain (is_live now) table in (values live, live)

module _ (ed : Ed25519) (swim : Swim) where
  open swim use {Foca, iter_membership_state, add_broadcast}

  pub record GossipNode : Type 0 where
    pub foca : Foca
    pub config : GossipConfig
    pub identity : NodeId
    pub generations : GenerationTable
    pub signer : Option (List ℕ)

  unfoldable pub frame_broadcast : GossipNode → List ℕ → List ℕ
  frame_broadcast node payload = elim node.signer [
    | none ↦ payload
    | some key ↦ frame ed key payload
  ]

  -- none where foca refuses the broadcast.
  abbrev pub broadcast : GossipNode → GossipMessage → Option GossipNode
  broadcast node msg =
      and_then (add_broadcast node.foca (frame_broadcast node (ed.to_json msg)))
        λ foca. some (record node { foca = foca })

  abbrev pub announcement :
      GossipNode → List ℕ → List ℕ → ℕ → List ℕ → Option (List ℕ) → GossipMessage
  announcement node producer hash epoch digest url =
      generation_announcement producer hash epoch digest url node.identity.name

  unfoldable pub announce_generation :
      GossipNode → List ℕ → List ℕ → ℕ → List ℕ → Option (List ℕ) → Option GossipNode
  announce_generation node producer hash epoch digest url =
      broadcast node (announcement node producer hash epoch digest url)

  unfoldable pub announce_urgent_revocation : GossipNode → List ℕ → List ℕ → ℕ → Option GossipNode
  announce_urgent_revocation node producer hash epoch =
      broadcast node (urgent_revocation producer hash epoch node.identity.name)

  abbrev peer : NodeId × MemberState → MemberInfo
  peer (id, state) = record {
    name = id.name;
    addr = id.addr;
    incarnation = id.incarnation;
    state = state;
    is_self = false;
  }

  unfoldable pub members : GossipNode → List MemberInfo
  members node =
      map peer (iter_membership_state node.foca)
      ++ record {
        name = node.identity.name;
        addr = node.identity.addr;
        incarnation = node.identity.incarnation;
        state = alive;
        is_self = true;
      }
        ∷ []
