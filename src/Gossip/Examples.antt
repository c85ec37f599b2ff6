-- ===== src/Gossip/Examples.antt =====
-- The theorems on crates/hoike-gossip at concrete nodes and frames.
use hoike.Base.{
  ℕ, ◌≡◌, ◌≢◌, ◌≤◌, ◌<◌, ◌⊎◌, inr, refl, List, [], ◌∷◌, Option, none, some, ok, true, arith, length,
  cmp_bytes, Ordering,
}
use hoike.Base.Table.{insert, lookup, retain}
use hoike.Base.Exists.{exists_in}
use hoike.Ahu.Samples.{repeat_byte}
use hoike.Core.Storage.{FilePath}
use hoike.Core.Encoding.{write_items}
use hoike.Gossip.Message.{GossipMessage, generation_announcement, urgent_revocation, valid_bounds}
use hoike.Gossip.Crypto.{
  required, permissive, GossipConfig, Identity, for_identities, frame, check, accept, signed_tag,
  load_authentication, load_identities, load_signing_key, load_verifying_key, with_local,
}
use hoike.Gossip.Crypto.Sound.{IsAuthentic, check-IsAuthentic}
use hoike.Gossip.Crypto.Delivery.{check-frame}
use hoike.Gossip.Crypto.Loaded.{IsLoaded, load_authentication-IsLoaded}
use hoike.Gossip.Broadcast.{Handler, receive_item, max_scopes, is_recent, key_of, scope_key_of}
use hoike.Gossip.Broadcast.Admitted.{receive_all, receive_all-bounded}
use hoike.Gossip.Node.{
  GossipNode, GenRecord, GenKey, gen_key, gen_key_of, announce_generation, frame_broadcast,
  record_generation, max_rows, new_row,
}
use hoike.Gossip.Node.Rows.{heard_table, Shows, heard_table-Shows, record_generation-Rises}
use hoike.Gossip.Node.Arrives.{announce_generation-arrives}
use hoike.Base.Table.{AllPairs}
use hoike.Gossip.Samples.{ed25519, ed25519-IsEd25519, channel, mesh, write_message}

abbrev node_a : List ℕ
node_a = b'a' ∷ []

abbrev node_b : List ℕ
node_b = b'b' ∷ []

abbrev key_a : List ℕ
key_a = 1 ∷ 1 ∷ []

abbrev key_b : List ℕ
key_b = 2 ∷ []

abbrev hash : List ℕ
hash = repeat_byte 20 3

abbrev producer : List ℕ
producer = b'p' ∷ []

abbrev digest : List ℕ
digest = repeat_byte 32 9

abbrev msg : GossipMessage
msg = generation_announcement producer hash 7 digest none node_a

abbrev peers : List Identity
peers = (node_b, key_b) ∷ (node_a, key_a) ∷ []

-- The frame of the message passes the check of a peer.
frame_passes :
    check ed25519 (for_identities peers required) (frame ed25519 key_a (write_message msg))
    ≡ accept (write_message msg)
frame_passes = check-frame ed25519 ed25519-IsEd25519 peers required key_a msg 1 refl

check-IsAuthentic_example :
    IsAuthentic ed25519 peers (frame ed25519 key_a (write_message msg)) (write_message msg)
    ⊎ ((required ≡ permissive)
        × (write_message msg ≡ frame ed25519 key_a (write_message msg))
        × ((rest : List ℕ) → frame ed25519 key_a (write_message msg) ≢ signed_tag ∷ rest))
check-IsAuthentic_example =
    check-IsAuthentic ed25519 peers required (frame ed25519 key_a (write_message msg))
      (write_message msg) frame_passes

-- "k" holds the key of the local node, and "q" that of its peer.
abbrev key_files : FilePath → Option (List ℕ)
key_files [] = none
key_files (name ∷ rest) = elim (cmp_bytes name (b'k' ∷ [])) [
  | Ordering.eq ↦ some key_a
  | _ ↦ some key_b
]

abbrev conf : GossipConfig
conf = record {
  enabled = true;
  bind = [];
  seeds = [];
  node_name = node_a;
  auth_mode = required;
  identity_key = some ((b'k' ∷ []) ∷ []);
  peer_keys = [];
  peer_identities = (node_b, (b'q' ∷ []) ∷ []) ∷ [];
}

loaded : load_authentication ed25519 key_files conf ≡ ok (some key_a, for_identities peers required)
unfolding load_authentication load_identities load_signing_key load_verifying_key with_local
    exists_in cmp_bytes
loaded = refl

load_authentication-IsLoaded_example :
    IsLoaded ed25519 key_files conf (some key_a) (for_identities peers required)
load_authentication-IsLoaded_example =
    load_authentication-IsLoaded ed25519 key_files conf (some key_a) (for_identities peers required)
      loaded

abbrev peer : Handler ed25519 channel
peer = record { tx = []; verifier = for_identities peers required; admitted = [] }

abbrev two_frames : List (List ℕ × ℕ)
two_frames = (frame ed25519 key_a (write_message msg), 5) ∷ (write_message msg, 6) ∷ []

receive_all-bounded_example :
    length (receive_all ed25519 channel peer two_frames).admitted ≤ max_scopes
receive_all-bounded_example = receive_all-bounded ed25519 channel peer two_frames (omega arith)

abbrev node : GossipNode ed25519 mesh
node = record {
  foca = [];
  config = conf;
  identity = record { addr = []; name = node_a; incarnation = 0 };
  generations = [];
  signer = some key_a;
}

abbrev after : GossipNode ed25519 mesh
after = record node { foca = frame ed25519 key_a (write_message msg) ∷ [] }

announced : announce_generation ed25519 mesh node producer hash 7 digest none ≡ some after
unfolding announce_generation frame_broadcast
announced = refl

frame_short : length (frame ed25519 key_a (write_message msg)) ≤ 2048
unfolding frame write_message write_items
frame_short = omega arith

msg_valid : valid_bounds msg ≡ true
unfolding valid_bounds
msg_valid = refl

room : length (retain (is_recent ed25519 channel 5) peer.admitted) < max_scopes
unfolding retain
room = omega arith

announce_generation-arrives_example :
    (bytes : List ℕ) × (mesh.add_broadcast node.foca bytes ≡ some after.foca)
    × (receive_item ed25519 channel peer bytes 5 ≡ (
      ok (some (key_of ed25519 channel msg)),
      record peer {
        tx = msg ∷ [];
        admitted = insert (producer, hash) 5 (retain (is_recent ed25519 channel 5) peer.admitted);
      },
    ))
announce_generation-arrives_example =
    announce_generation-arrives ed25519 ed25519-IsEd25519 mesh channel node after key_a producer
      hash 7 digest none peer peers required 1 5 (msg ∷ []) refl announced refl refl msg_valid
      frame_short (inr room) refl

abbrev hex : List ℕ → List ℕ
hex bytes = bytes

abbrev newer : GossipMessage
newer = generation_announcement producer hash 9 digest none node_a

abbrev heard : List (GossipMessage × ℕ)
heard = (newer, 200) ∷ (urgent_revocation producer hash 8 node_a, 150) ∷ (msg, 100) ∷ []

heard_table-Shows_example :
    AllPairs (Shows hex heard) (heard_table hex heard) × (length (heard_table hex heard) ≤ max_rows)
heard_table-Shows_example = heard_table-Shows hex heard

abbrev key : GenKey
key = gen_key hex node_a producer hash

abbrev row : GenRecord
row = new_row hex key 7 digest 100

found : lookup key ((key, row) ∷ []) ≡ some row
unfolding lookup cmp_bytes
found = refl

record_generation-Rises_example :
    (row' : GenRecord) × (lookup key (record_generation hex ((key, row) ∷ []) newer 200)
      ≡ some row')
    × (row.epoch ≤ row'.epoch)
record_generation-Rises_example =
    record_generation-Rises hex ((key, row) ∷ []) newer 200 key row found refl
