-- ===== src/Core/Samples.antt =====
-- A small configuration, for the examples.
use hoike.Base.{ℕ, List, none, some, false, true}
use hoike.Core.Config.{Config, CaConfig, StorageConfig, demo}
use hoike.Core.Config.Texts.{edge, ignore, authoritative_complete, dual, ecdsa_p256}

abbrev pub plain_ca : List ℕ → CaConfig
plain_ca label = record {
  label = label;
  bundle_file = none;
  nonce_policy = ignore;
  completeness = authoritative_complete;
  forward_to = none;
  forward_insecure = false;
  forward_ca = none;
  has_source = true;
  certid_compat = dual;
  max_age_fraction = 0x3FE0_0000_0000_0000;
  sig_alg = ecdsa_p256;
  signing_key = some demo;
  seal_key = none;
  seal_cert = none;
  validity_secs = 86_400;
  jitter_secs = 7200;
  archive_cutoff_secs = 0;
}

abbrev pub config_with : StorageConfig → List CaConfig → Config
config_with storage cas = record {
  server = record {
    mode = edge;
    max_request = 8192;
    admin_listen = none;
    metrics_listen = none;
    has_admin_tls = false;
    has_metrics_tls = false;
  };
  storage = storage;
  ca = cas;
  gossip = none;
}
