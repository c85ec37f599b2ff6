-- ===== src/Core/Config.antt =====
-- crates/hoike-core/src/config.rs: the parts of the configuration that admission and installation
-- read, and the destination of a CA's bundle. `canonicalize` is the operating system's.
pub mod Texts
pub mod Validate
use hoike.Base.{
  ℕ, List, [], ◌∷◌, ◌++◌, Bool, true, false, not, ◌||◌, Option, none, some, ok, err, ok_or, guard,
  ◌>>=◌, ◌>>◌, ◌==◌, if◌then◌else◌, beq_bytes,
}
use hoike.Core.Error.{CoreResult, config}
use hoike.Core.Storage.{FilePath, beq_path}

pub record SealAuthorization : Type 0 where
  pub producer_id : List ℕ
  pub issuer_key_hash : List ℕ
  pub signer_sha256 : List ℕ

pub record StorageConfig : Type 0 where
  pub bundle_dir : FilePath
  pub state_db : FilePath
  pub seal_trust_anchors : Option (List FilePath)
  pub seal_authorizations : List SealAuthorization
  pub seal_signer_pins : List FilePath
  pub allow_unauthenticated_bundles : Bool

pub data SigningKey : Type 0 where
  demo file pkcs11 : SigningKey

-- The fields that the modelled code reads. The f64 `max_age_fraction` stands for its bits, and a
-- revocation source only for its presence.
pub record CaConfig : Type 0 where
  pub label : List ℕ
  pub bundle_file : Option FilePath
  pub nonce_policy : List ℕ
  pub completeness : List ℕ
  pub forward_to : Option (List ℕ)
  pub forward_insecure : Bool
  pub forward_ca : Option FilePath
  pub has_source : Bool
  pub certid_compat : List ℕ
  pub max_age_fraction : ℕ
  pub sig_alg : List ℕ
  pub signing_key : Option SigningKey
  pub seal_key : Option FilePath
  pub seal_cert : Option FilePath
  pub validity_secs : ℕ
  pub jitter_secs : ℕ
  pub archive_cutoff_secs : ℕ

pub record ServerConfig : Type 0 where
  pub mode : List ℕ
  pub max_request : ℕ
  pub admin_listen : Option (List ℕ)
  pub metrics_listen : Option (List ℕ)
  pub has_admin_tls : Bool
  pub has_metrics_tls : Bool

pub record GossipSection : Type 0 where
  pub auth_mode : List ℕ
  pub peer_keys : List FilePath

pub record Config : Type 0 where
  pub server : ServerConfig
  pub storage : StorageConfig
  pub ca : List CaConfig
  pub gossip : Option GossipSection

abbrev pub is_empty {ℓ} : {A : Type ℓ} → List A → Bool
is_empty [] = true
is_empty (x ∷ xs) = false

-- `label.contains(['/', '\\'])`
abbrev pub has_separator : List ℕ → Bool
has_separator [] = false
has_separator (b ∷ bs) = b == b'/' || b == b'\\' || has_separator bs

-- An empty label, `.`, `..` and a label with a separator are no file names.
abbrev pub is_unsafe : List ℕ → Bool
is_unsafe label =
    is_empty label
    || beq_bytes label (b'.' ∷ [])
    || beq_bytes label (b'.' ∷ b'.' ∷ [])
    || has_separator label

abbrev pub find_ca : List ℕ → List CaConfig → Option CaConfig
find_ca label [] = none
find_ca label (ca ∷ cas) = if beq_bytes ca.label label then some ca else find_ca label cas

-- `bundle_file`, or `<label>.ahu` in the bundle directory
abbrev pub destination_of : FilePath → CaConfig → FilePath
destination_of bundle_dir ca = elim ca.bundle_file [
  | some path ↦ path
  | none ↦ bundle_dir ++ (ca.label ++ b'.' ∷ b'a' ∷ b'h' ∷ b'u' ∷ []) ∷ []
]

module _ (canonicalize : FilePath → Option FilePath) where
  abbrev pub canonical : FilePath → FilePath
  canonical path = elim (canonicalize path) [ some p ↦ p | none ↦ path ]

  -- The loop over the other labels.
  pub check_distinct : FilePath → List ℕ → FilePath → List CaConfig → CoreResult (Unit {0})
  check_distinct bundle_dir label mine [] = ok tt
  check_distinct bundle_dir label mine (ca ∷ cas) =
      let rest = check_distinct bundle_dir label mine cas in
      if beq_bytes ca.label label
      then rest
      else if beq_path (canonical (destination_of bundle_dir ca)) mine
      then err config
      else rest

  unfoldable pub bundle_destination : Config → List ℕ → CoreResult FilePath
  unfolding check_distinct
  bundle_destination c label = do
    guard (not (is_empty c.ca)) config
    guard (not (is_unsafe label)) config
    selected ← ok_or (find_ca label c.ca) config
    let destination = destination_of c.storage.bundle_dir selected
    check_distinct c.storage.bundle_dir label (canonical destination) c.ca
    ok destination
