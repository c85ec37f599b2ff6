-- ===== src/Gossip/Crypto.antt =====
-- crates/hoike-gossip/src/crypto.rs and config.rs: the framing of broadcasts, the check of an inbound frame
-- and the loading of the keys. Ed25519, serde_json and the reading of key files are parameters.
pub mod Sound
pub mod Delivery
pub mod Loaded
use hoike.Base.{
  ℕ, ◌+◌, ◌≡◌, List, [], ◌∷◌, ◌++◌, map, Bool, true, false, not, ◌&&◌, ◌||◌, Option, none, some, ok,
  err, Result, ok_or, guard, ◌>>=◌, ◌>>◌, ltb, ◌==◌, length, take, drop, beq_bytes, if◌then◌else◌,
}
use hoike.Base.Exists.{exists_in}
use hoike.Core.Config.{is_empty}
use hoike.Core.Storage.{FilePath}
use hoike.Gossip.Message.{GossipMessage, origin_node}

pub data AuthMode : Type 0 where
  required permissive : AuthMode

-- The socket addresses of `bind` and `seeds` stay texts.
pub record GossipConfig : Type 0 where
  pub enabled : Bool
  pub bind : List ℕ
  pub seeds : List (List ℕ)
  pub node_name : List ℕ
  pub auth_mode : AuthMode
  pub identity_key : Option FilePath
  pub peer_keys : List FilePath
  pub peer_identities : List (List ℕ × FilePath)

pub data GossipCryptoError : Type 0 where
  io decode config : GossipCryptoError

abbrev pub CryptoResult {ℓ} : Type ℓ → Type ℓ
CryptoResult A = Result GossipCryptoError A

-- The crates that are called. Keys and signatures are their bytes; a public key is read from PEM or DER.
pub record Ed25519 : Type 0 where
  pub verifying_key : List ℕ → List ℕ
  pub sign : List ℕ → List ℕ → List ℕ
  pub verify : List ℕ → List ℕ → List ℕ → Bool
  pub verify_strict : List ℕ → List ℕ → List ℕ → Bool
  pub is_utf8 : List ℕ → Bool
  pub from_pkcs8_pem : List ℕ → Option (List ℕ)
  pub from_pkcs8_der : List ℕ → Option (List ℕ)
  pub from_public_key_pem : List ℕ → Option (List ℕ)
  pub from_public_key_der : List ℕ → Option (List ℕ)
  pub to_json : GossipMessage → List ℕ
  pub from_json : List ℕ → Option GossipMessage

-- What the crates document: a signature has 64 bytes and its own key verifies it, and a text that
-- serde_json writes is read back.
pub record IsEd25519 (ed : Ed25519) : Type 0 where
  pub length_sign : (key payload : List ℕ) → length (ed.sign key payload) ≡ 64
  pub verify_sign :
      (key payload : List ℕ) → ed.verify (ed.verifying_key key) payload (ed.sign key payload) ≡ true
  pub verify_strict_sign :
      (key payload : List ℕ)
      → ed.verify_strict (ed.verifying_key key) payload (ed.sign key payload) ≡ true
  pub from_json-to_json : (msg : GossipMessage) → ed.from_json (ed.to_json msg) ≡ some msg

abbrev pub signed_tag : ℕ
signed_tag = 1

abbrev pub sig_len : ℕ
sig_len = 64

-- The reasons in the order of the source, and the one that `try_into` would have.
pub data RejectReason : Type 0 where
  truncated bad_signature_length invalid_message unauthorized_origin unverified unsigned :
      RejectReason

pub data VerifyOutcome : Type 0 where
  accept : List ℕ → VerifyOutcome
  reject : RejectReason → VerifyOutcome

abbrev pub Identity : Type 0
Identity = List ℕ × List ℕ

pub record GossipVerifier : Type 0 where
  pub trusted : List (List ℕ)
  pub mode : AuthMode
  pub identities : List Identity

abbrev pub for_identities : List Identity → AuthMode → GossipVerifier
for_identities identities mode = record {
  trusted = map (λ (i : Identity). i.1) identities;
  mode = mode;
  identities = identities;
}

-- "-----BEGIN"
abbrev begin_marker : List ℕ
begin_marker = b'-' ∷ b'-' ∷ b'-' ∷ b'-' ∷ b'-' ∷ b'B' ∷ b'E' ∷ b'G' ∷ b'I' ∷ b'N' ∷ []

-- `text.contains(marker)`
abbrev pub starts_with : List ℕ → List ℕ → Bool
starts_with [] text = true
starts_with (p ∷ ps) [] = false
starts_with (p ∷ ps) (t ∷ ts) = p == t && starts_with ps ts

abbrev pub contains : List ℕ → List ℕ → Bool
contains marker [] = starts_with marker []
contains marker (t ∷ ts) = starts_with marker (t ∷ ts) || contains marker ts

module _ (ed : Ed25519) (files : FilePath → Option (List ℕ)) where
  open ed use {
    verifying_key, is_utf8, from_pkcs8_pem, from_pkcs8_der, from_public_key_pem,
    from_public_key_der,
  }

  abbrev is_pem : List ℕ → Bool
  is_pem bytes = is_utf8 bytes && contains begin_marker bytes

  unfoldable pub load_signing_key : FilePath → CryptoResult (List ℕ)
  load_signing_key path = do
    bytes ← ok_or (files path) io
    ok_or (if is_pem bytes then from_pkcs8_pem bytes else from_pkcs8_der bytes) decode

  unfoldable pub load_verifying_key : FilePath → CryptoResult (List ℕ)
  load_verifying_key path = do
    bytes ← ok_or (files path) io
    ok_or (if is_pem bytes then from_public_key_pem bytes else from_public_key_der bytes) decode

  -- `map_err` to a configuration error.
  abbrev as_config {ℓ} : {A : Type ℓ} → CryptoResult A → CryptoResult A
  as_config (ok a) = ok a
  as_config (err e) = err config

  abbrev pub load_signer : Option FilePath → CryptoResult (Option (List ℕ))
  load_signer none = ok none
  load_signer (some path) = do key ← as_config (load_signing_key path); ok (some key)

  -- A mapping for the local name has to agree with the local key.
  abbrev pub agrees : GossipConfig → Option (List ℕ) → List ℕ → List ℕ → Bool
  agrees conf none name key = true
  agrees conf (some s) name key =
      not (beq_bytes name conf.node_name) || beq_bytes (verifying_key s) key

  unfoldable pub load_identities :
      GossipConfig → Option (List ℕ) → List (List ℕ × FilePath) → CryptoResult (List Identity)
  load_identities conf signer [] = ok []
  load_identities conf signer ((name, path) ∷ more) = do
    guard (not (is_empty name || ltb 256 (length name))) config
    key ← as_config (load_verifying_key path)
    guard (agrees conf signer name key) config
    rest ← load_identities conf signer more
    ok ((name, key) ∷ rest)

  abbrev pub is_identity : List ℕ → List ℕ → Identity → Bool
  is_identity name key i = beq_bytes i.0 name && beq_bytes i.1 key

  -- The local identity goes last, unless it is there.
  unfoldable pub with_local : List ℕ → Option (List ℕ) → List Identity → List Identity
  unfolding exists_in
  with_local node_name none identities = identities
  with_local node_name (some s) identities =
      if exists_in (is_identity node_name (verifying_key s)) identities
      then identities
      else identities ++ (node_name, verifying_key s) ∷ []

  abbrev pub has_key : AuthMode → Option (List ℕ) → Bool
  has_key required none = false
  has_key required (some s) = true
  has_key permissive signer = true

  unfoldable pub load_authentication :
      GossipConfig → CryptoResult (Option (List ℕ) × GossipVerifier)
  load_authentication conf = do
    guard (is_empty conf.peer_keys) config
    signer ← load_signer conf.identity_key
    guard (has_key conf.auth_mode signer) config
    identities ← load_identities conf signer conf.peer_identities
    ok (signer, for_identities (with_local conf.node_name signer identities) conf.auth_mode)

abbrev pub check_unsigned : AuthMode → List ℕ → VerifyOutcome
check_unsigned permissive bytes = accept bytes
check_unsigned required bytes = reject unsigned

module _ (ed : Ed25519) where
  open ed use {sign, verify, verify_strict, from_json}

  -- `[TAG][signature][payload]`
  unfoldable pub frame : List ℕ → List ℕ → List ℕ
  frame key payload = signed_tag ∷ (sign key payload ++ payload)

  abbrev pub is_authorized : List ℕ → List ℕ → List ℕ → Identity → Bool
  is_authorized origin payload sig i = beq_bytes i.0 origin && verify_strict i.1 payload sig

  unfoldable pub check_origin : GossipVerifier → List ℕ → List ℕ → VerifyOutcome
  unfolding exists_in
  check_origin v sig payload =
      if is_empty v.identities then accept payload else elim (from_json payload) [
        | none ↦ reject invalid_message
        | some msg ↦
            if exists_in (is_authorized (origin_node msg) payload sig) v.identities
            then accept payload
            else reject unauthorized_origin
      ]

  unfoldable pub check_signed : GossipVerifier → List ℕ → VerifyOutcome
  check_signed v bytes =
      let sig = take sig_len (drop 1 bytes) in
      let payload = drop (1 + sig_len) bytes in
      if ltb (length bytes) (1 + sig_len)
      then reject truncated
      else if not (length sig == sig_len)
      then reject bad_signature_length
      else if exists_in (λ key. verify key payload sig) v.trusted
      then check_origin v sig payload
      else reject unverified

  unfoldable pub check : GossipVerifier → List ℕ → VerifyOutcome
  check v [] = check_unsigned v.mode []
  check v (b ∷ rest) =
      if b == signed_tag then check_signed v (b ∷ rest) else check_unsigned v.mode (b ∷ rest)
