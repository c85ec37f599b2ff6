-- ===== src/Sign/Orchestrate.antt =====
-- crates/hoike-sign/src/orchestrate.rs: the epoch and the configuration of the next generation of a CA. An error
-- is a message text, which is left out.
pub mod Rising
use hoike.Base.{
  ℕ, List, [], ◌∷◌, Bool, Option, none, some, Result, ok, err, ◌>>=◌, beq_bytes, if◌then◌else◌,
}
use hoike.Ahu.Manifest.{Completeness, partial, authoritative_complete}
use hoike.Core.State.{StateStore, Deps, get_high_water}
use hoike.Core.Config.{CaConfig}
use hoike.Core.Config.Texts as Texts
use hoike.Sign.Source.{CaIdentity}
use hoike.Sign.Config.{
  CertIdCompat, sha256_only, sha1_only, dual, GenerationConfig, Ocsp, saturating_add,
}

abbrev pub Attempt : Type 0 → Type 0
Attempt A = Result (Unit {0}) A

-- "hoike-combined"
abbrev pub combined_producer_id : List ℕ
combined_producer_id =
    b'h' ∷ b'o' ∷ b'i' ∷ b'k' ∷ b'e' ∷ b'-' ∷ b'c' ∷ b'o' ∷ b'm' ∷ b'b' ∷ b'i' ∷ b'n' ∷ b'e' ∷ b'd'
    ∷ []

-- "partial"
abbrev partial_text : List ℕ
partial_text = b'p' ∷ b'a' ∷ b'r' ∷ b't' ∷ b'i' ∷ b'a' ∷ b'l' ∷ []

-- `CertIdCompat::parse`
unfoldable pub parse : List ℕ → Attempt CertIdCompat
parse s =
    if beq_bytes s Texts.dual
    then ok dual
    else if beq_bytes s Texts.sha256_only
    then ok sha256_only
    else if beq_bytes s Texts.sha1_only
    then ok sha1_only
    else err tt

-- An authoritative answer needs a source that can prove it.
unfoldable pub parse_completeness : List ℕ → Bool → Attempt Completeness
parse_completeness text is_authoritative_complete =
    if beq_bytes text Texts.authoritative_complete
    then (if is_authoritative_complete then ok authoritative_complete else err tt)
    else if beq_bytes text partial_text
    then ok partial
    else err tt

-- `unwrap_or(0)`
abbrev pub or_zero : Option ℕ → ℕ
or_zero none = 0
or_zero (some n) = n

module _ (deps : Deps) (o : Ocsp) where
  -- The recorded mark of the CA's key under SHA-256.
  abbrev pub recorded_mark : StateStore → CaIdentity → Option ℕ
  recorded_mark store ca =
      get_high_water store combined_producer_id (deps.hex_encode (o.sha256 ca.issuer_key_bytes))

  abbrev pub next_epoch : StateStore → CaIdentity → ℕ
  next_epoch store ca = saturating_add (or_zero (recorded_mark store ca)) 1

-- The configuration that sign_ca_scope hands on; a bucket has one entry, the default.
unfoldable pub gen_config_of : CaConfig → ℕ → Bool → Attempt GenerationConfig
gen_config_of ca_config epoch is_authoritative_complete = do
  compat ← parse ca_config.certid_compat
  completeness ← parse_completeness ca_config.completeness is_authoritative_complete
  ok (record {
    producer_id = combined_producer_id;
    epoch = epoch;
    validity_secs = ca_config.validity_secs;
    jitter_secs = ca_config.jitter_secs;
    certid_compat = compat;
    completeness = completeness;
    archive_cutoff_secs = ca_config.archive_cutoff_secs;
    bucket_size = 1;
  })
