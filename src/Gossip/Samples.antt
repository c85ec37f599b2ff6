-- ===== src/Gossip/Samples.antt =====
-- Stand-ins for Ed25519, serde_json, foca and the channel, for the examples.
use mathlib.Core.List.{append-nil}
use hoike.Base.{
  ℕ, Bool, ◌≡◌, refl, ap, sym, ◌∙◌, List, [], ◌∷◌, ◌++◌, Option, none, some, ◌==◌, if◌then◌else◌,
  and_then, beq_bytes, beq_bytes_refl, length,
}
use hoike.Ahu.Samples.{repeat_byte}
use hoike.Core.Encoding.{Coding, numbers, pairs, lists, bytes_coding}
use hoike.Gossip.Message.{GossipMessage, generation_announcement, urgent_revocation}
use hoike.Gossip.Crypto.{Ed25519, IsEd25519}
use hoike.Gossip.Broadcast.{Channel}
use hoike.Gossip.Node.{Swim}

abbrev Parts : Type 0
Parts = (List ℕ × List ℕ) × (ℕ × (List ℕ × (List (List ℕ) × List ℕ)))

abbrev parts_coding : Coding Parts
parts_coding =
    pairs (pairs bytes_coding bytes_coding)
      (pairs numbers (pairs bytes_coding (pairs (lists bytes_coding) bytes_coding)))

abbrev urls : Option (List ℕ) → List (List ℕ)
urls none = []
urls (some url) = url ∷ []

abbrev url_of : List (List ℕ) → Option (List ℕ)
url_of [] = none
url_of (url ∷ more) = some url

-- A text starts with an opening brace, and the second number tells the two kinds apart.
unfoldable pub write_message : GossipMessage → List ℕ
write_message (generation_announcement producer hash epoch digest url origin) =
    b'{' ∷ 0 ∷ parts_coding.write ((producer, hash), (epoch, (digest, (urls url, origin))))
write_message (urgent_revocation producer hash epoch origin) =
    b'{' ∷ 1 ∷ parts_coding.write ((producer, hash), (epoch, ([], ([], origin))))

abbrev message_of : ℕ → Parts → GossipMessage
message_of kind ((producer, hash), (epoch, (digest, (url, origin)))) =
    if kind == 0
    then generation_announcement producer hash epoch digest (url_of url) origin
    else urgent_revocation producer hash epoch origin

unfoldable pub read_message : List ℕ → Option GossipMessage
read_message [] = none
read_message (b ∷ []) = none
read_message (b ∷ kind ∷ bytes) =
    and_then (parts_coding.read bytes) λ (parts, rest). some (message_of kind parts)

read_parts :
    (kind : ℕ) (parts : Parts)
    → read_message (b'{' ∷ kind ∷ parts_coding.write parts) ≡ some (message_of kind parts)
unfolding read_message
read_parts kind parts =
    ap (λ o. and_then o λ (p, rest). some (message_of kind p))
      (ap parts_coding.read (sym (append-nil (parts_coding.write parts)))
        ∙ parts_coding.read-write parts [])

read_message-write_message : (msg : GossipMessage) → read_message (write_message msg) ≡ some msg
unfolding write_message
read_message-write_message (generation_announcement producer hash epoch digest none origin) =
    read_parts 0 ((producer, hash), (epoch, (digest, ([], origin))))
read_message-write_message (generation_announcement producer hash epoch digest (some url) origin) =
    read_parts 0 ((producer, hash), (epoch, (digest, (url ∷ [], origin))))
read_message-write_message (urgent_revocation producer hash epoch origin) =
    read_parts 1 ((producer, hash), (epoch, ([], ([], origin))))

-- A signature repeats the length of the key's bytes and of the payload.
abbrev sign_with : List ℕ → List ℕ → List ℕ
sign_with key payload = repeat_byte 32 (length key) ++ repeat_byte 32 (length payload)

abbrev pub ed25519 : Ed25519
ed25519 = record {
  verifying_key = λ key. key;
  sign = sign_with;
  verify = λ key payload sig. beq_bytes sig (sign_with key payload);
  verify_strict = λ key payload sig. beq_bytes sig (sign_with key payload);
  is_utf8 = λ bytes. Bool.false;
  from_pkcs8_pem = some;
  from_pkcs8_der = some;
  from_public_key_pem = some;
  from_public_key_der = some;
  to_json = write_message;
  from_json = read_message;
}

pub ed25519-IsEd25519 : IsEd25519 ed25519
ed25519-IsEd25519 = record {
  length_sign = λ key payload. refl;
  verify_sign = λ key payload. beq_bytes_refl (sign_with key payload);
  verify_strict_sign = λ key payload. beq_bytes_refl (sign_with key payload);
  from_json-to_json = read_message-write_message;
}

-- A channel that holds two messages, and a mesh that keeps what it is given.
abbrev pub channel : Channel
channel = record {
  Sender = List GossipMessage;
  try_send = λ sent msg. elim sent [
    | [] ↦ some (msg ∷ [])
    | m ∷ more ↦ elim more [ [] ↦ some (m ∷ msg ∷ []) | n ∷ rest ↦ none ]
  ];
}

abbrev pub mesh : Swim
mesh = record {
  Foca = List (List ℕ);
  iter_membership_state = λ foca. [];
  add_broadcast = λ foca bytes. some (bytes ∷ foca);
}
