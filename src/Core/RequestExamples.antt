-- ===== src/Core/RequestExamples.antt =====
-- The theorems on requests and on configurations at concrete inputs.
use hoike.Base.{◌≡◌, refl, [], ◌∷◌, none, some, ok, true, cmp_bytes}
use hoike.Ahu.Samples.{repeat_byte}
use hoike.Base.{◌++◌, ◌↔◌, err}
use hoike.Base.Float.{f64_lt, f64_le}
use hoike.Core.Error.{config}
use hoike.Core.Config.{Config, CaConfig, StorageConfig, file}
use hoike.Core.Config.Texts.{https_prefix, http_prefix, ml_dsa_65, combined}
use hoike.Core.Config.Validate.{validate_for_mode}
use hoike.Core.Config.Validate.Sound.{IsValid, validate_for_mode_iff}
use hoike.Core.Samples.{plain_ca, config_with}
use hoike.Core.Request.{
  Der, CertId, ParsedRequest, parse_ocsp_request, parse_cert_ids, parse_nonce,
  parse_preferred_sig_algs, pref_sig_algs_oid,
}
use hoike.Core.Request.Sound.{IsParsed, parse_ocsp_request-IsParsed}

abbrev cert_id : CertId
cert_id = record {
  encoded = some (1 ∷ []);
  hash_algorithm = [];
  issuer_name_hash = repeat_byte 32 170;
  issuer_key_hash = repeat_byte 32 187;
  serial_number = 5 ∷ [];
}

-- The client prefers ML-DSA-65, and an algorithm that nobody knows.
abbrev der : Der
der = record {
  request_from_der = λ bytes. some (record {
    request_list = cert_id ∷ [];
    request_extensions = record { extn_id = pref_sig_algs_oid; extn_value = 4 ∷ [] } ∷ [];
  });
  octet_string_from_der = some;
  sig_algs_from_der =
      λ bytes. some ((2 ∷ 16 ∷ 840 ∷ 1 ∷ 101 ∷ 3 ∷ 4 ∷ 3 ∷ 18 ∷ []) ∷ (1 ∷ 2 ∷ []) ∷ []);
  sha256 = λ bytes. repeat_byte 32 1;
}

abbrev parsed : ParsedRequest
parsed = record {
  cert_ids =
      record {
        entry_key = repeat_byte 32 1;
        certid_der = 1 ∷ [];
        issuer_name_hash = repeat_byte 32 170;
        issuer_key_hash = repeat_byte 32 187;
        serial_number = 5 ∷ [];
        hash_alg_oid = [];
      }
      ∷ [];
  nonce = none;
  preferred_sig_algs = 3 ∷ [];
}

request : parse_ocsp_request der (48 ∷ []) ≡ ok parsed
unfolding parse_ocsp_request parse_cert_ids parse_nonce parse_preferred_sig_algs cmp_bytes
request = refl

parse_ocsp_request-IsParsed_example : IsParsed der (48 ∷ []) parsed
parse_ocsp_request-IsParsed_example = parse_ocsp_request-IsParsed der (48 ∷ []) parsed request

abbrev storage : StorageConfig
storage = record {
  bundle_dir = [];
  state_db = [];
  seal_trust_anchors = none;
  seal_authorizations = [];
  seal_signer_pins = [];
  allow_unauthenticated_bundles = true;
}

-- Two CAs on a node that signs: one with a demo key that forwards over https, and one of ML-DSA with its seal
-- pair that may forward in plaintext.
abbrev demo_ca : CaConfig
demo_ca = record (plain_ca (97 ∷ [])) { forward_to = some (https_prefix ++ 120 ∷ []) }

abbrev ml_dsa_ca : CaConfig
ml_dsa_ca = record (plain_ca (98 ∷ [])) {
  forward_to = some (http_prefix ++ 120 ∷ []);
  forward_insecure = true;
  sig_alg = ml_dsa_65;
  signing_key = some file;
  seal_key = some ((1 ∷ []) ∷ []);
  seal_cert = some ((2 ∷ []) ∷ []);
}

abbrev signing_config : Config
signing_config =
    let edge_node = config_with storage (demo_ca ∷ ml_dsa_ca ∷ []) in
    record edge_node { server = record (edge_node.server) { mode = combined } }

accepted : validate_for_mode signing_config ≡ ok tt
unfolding validate_for_mode cmp_bytes f64_lt f64_le
accepted = refl

-- Half a seal pair is refused.
half_pair :
    validate_for_mode (record signing_config { ca = record ml_dsa_ca { seal_cert = none } ∷ [] })
    ≡ err config
unfolding validate_for_mode cmp_bytes f64_lt f64_le
half_pair = refl

signing_config-IsValid : IsValid signing_config
signing_config-IsValid = (validate_for_mode_iff signing_config).0 accepted

validate_for_mode_iff_example : (validate_for_mode signing_config ≡ ok tt) ↔ IsValid signing_config
validate_for_mode_iff_example = validate_for_mode_iff signing_config
