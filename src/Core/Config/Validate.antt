-- ===== src/Core/Config/Validate.antt =====
-- `Config::validate_for_mode` and `validate_transport` of crates/hoike-core/src/config.rs.
pub mod Guards
pub mod Rules
pub mod Sound
use hoike.Base.{
  ℕ, List, [], ◌∷◌, Bool, true, false, not, ◌&&◌, ◌||◌, Option, none, some, ok, err, guard, ◌>>=◌,
  ◌>>◌, if◌then◌else◌, beq_bytes,
}
use hoike.Base.Float.{f64_lt, f64_le, f64_zero, f64_one}
use hoike.Ahu.Verify.{is_none}
use hoike.Core.Error.{CoreError, CoreResult, config}
use hoike.Core.Storage.{FilePath}
use hoike.Core.Config.{
  Config, CaConfig, GossipSection, SigningKey, demo, file, pkcs11, is_unsafe, is_empty,
}
use hoike.Core.Config.Texts.{
  live, combined, signer, required, permissive, ecdsa_p256, ml_dsa_44, ml_dsa_65, ml_dsa_87, dual,
  sha256_only, sha1_only, https_prefix, http_prefix,
}

abbrev pub starts_with : List ℕ → List ℕ → Bool
starts_with text [] = true
starts_with [] (p ∷ ps) = false
starts_with (t ∷ ts) (p ∷ ps) = beq_bytes (t ∷ []) (p ∷ []) && starts_with ts ps

abbrev pub member : List ℕ → List (List ℕ) → Bool
member x [] = false
member x (y ∷ ys) = beq_bytes y x || member x ys

abbrev pub check_gossip : Option GossipSection → CoreResult (Unit {0})
check_gossip none = ok tt
check_gossip (some g) = do
  guard (is_empty g.peer_keys) config
  guard (beq_bytes g.auth_mode required || beq_bytes g.auth_mode permissive) config

-- `url.starts_with("https://") || (ca.forward_insecure && url.starts_with("http://"))`
abbrev pub forward_ok : CaConfig → Bool
forward_ok ca = elim ca.forward_to [
  | none ↦ true
  | some url ↦ starts_with url https_prefix || (ca.forward_insecure && starts_with url http_prefix)
]

-- The first loop, with the labels that it has seen.
pub check_labels : List (List ℕ) → List CaConfig → CoreResult (Unit {0})
check_labels seen [] = ok tt
check_labels seen (ca ∷ cas) = do
  guard (not (is_unsafe ca.label) && not (member ca.label seen)) config
  guard (forward_ok ca) config
  check_labels (ca.label ∷ seen) cas

abbrev pub is_ml_dsa : CaConfig → Bool
is_ml_dsa ca = member ca.sig_alg (ml_dsa_44 ∷ ml_dsa_65 ∷ ml_dsa_87 ∷ [])

abbrev pub is_demo_key : Option SigningKey → Bool
is_demo_key (some demo) = true
is_demo_key (some file) = false
is_demo_key (some pkcs11) = false
is_demo_key none = false

-- Both halves of the seal pair, or neither of them with a demo key.
abbrev pub seal_ok : CaConfig → Bool
seal_ok ca = elim ca.seal_key [
  | none ↦ is_none ca.seal_cert && is_demo_key ca.signing_key
  | some _ ↦ not (is_none ca.seal_cert)
]

pub check_signing : List CaConfig → CoreResult (Unit {0})
check_signing [] = ok tt
check_signing (ca ∷ cas) = do
  guard ca.has_source config
  guard (not (is_none ca.signing_key)) config
  guard (seal_ok ca) config
  check_signing cas

abbrev pub needs_signing : Config → Bool
needs_signing c = beq_bytes c.server.mode combined || beq_bytes c.server.mode signer

-- `ca.max_age_fraction > 0.0 && ca.max_age_fraction <= 1.0`
abbrev pub fraction_ok : CaConfig → Bool
fraction_ok ca = f64_lt f64_zero ca.max_age_fraction && f64_le ca.max_age_fraction f64_one

-- The second loop.
pub check_algorithms : List CaConfig → CoreResult (Unit {0})
check_algorithms [] = ok tt
check_algorithms (ca ∷ cas) = do
  guard (member ca.sig_alg (ecdsa_p256 ∷ ml_dsa_44 ∷ ml_dsa_65 ∷ ml_dsa_87 ∷ [])) config
  guard (not (is_ml_dsa ca && beq_bytes ca.nonce_policy live)) config
  guard (member ca.certid_compat (dual ∷ sha256_only ∷ sha1_only ∷ [])) config
  guard (fraction_ok ca) config
  check_algorithms cas

unfoldable pub validate_for_mode : Config → CoreResult (Unit {0})
unfolding check_labels check_algorithms check_signing
validate_for_mode c = do
  check_gossip c.gossip
  check_labels [] c.ca
  check_algorithms c.ca
  if needs_signing c then (do check_signing c.ca; guard (not (is_empty c.ca)) config) else ok tt

unfoldable pub validate_transport : Config → Bool → CoreResult (Unit {0})
unfolding validate_for_mode
validate_transport c tls_supported = do
  guard (not ((c.server.has_admin_tls || c.server.has_metrics_tls) && not tls_supported)) config
  guard (not (c.server.has_admin_tls && is_none c.server.admin_listen)) config
  guard (not (c.server.has_metrics_tls && is_none c.server.metrics_listen)) config
  validate_for_mode c
