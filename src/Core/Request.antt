-- ===== src/Core/Request.antt =====
-- crates/hoike-core/src/request.rs and response.rs: an OCSP request, reduced to what a lookup needs. An
-- object identifier is the list of its arcs, and DER is read by the der and x509-ocsp crates.
pub mod Sound
use hoike.Base.{
  ℕ, List, [], ◌∷◌, Bool, true, false, ◌&&◌, Option, none, some, ok, err, ok_or, guard, ◌>>=◌, ◌>>◌,
  not, ltb, leb, ◌==◌, if◌then◌else◌, beq_bytes, length,
}
use hoike.Ahu.Index.{
  alg_disc_default, alg_disc_ml_dsa_44, alg_disc_ml_dsa_65, alg_disc_ml_dsa_87, compute_entry_key,
}
use hoike.Core.Error.{
  CoreError, CoreResult, empty_request, request_too_large, empty_request_list, der_parse,
}

abbrev pub max_request_size : ℕ
max_request_size = 8192

-- The responses of response.rs: the DER of a status with no body.
abbrev pub unauthorized : List ℕ
unauthorized = 0x30 ∷ 0x03 ∷ 0x0A ∷ 0x01 ∷ 0x06 ∷ []

abbrev pub malformed_request : List ℕ
malformed_request = 0x30 ∷ 0x03 ∷ 0x0A ∷ 0x01 ∷ 0x01 ∷ []

abbrev pub internal_error : List ℕ
internal_error = 0x30 ∷ 0x03 ∷ 0x0A ∷ 0x01 ∷ 0x02 ∷ []

abbrev pub try_later : List ℕ
try_later = 0x30 ∷ 0x03 ∷ 0x0A ∷ 0x01 ∷ 0x03 ∷ []

abbrev pub Oid : Type 0
Oid = List ℕ

-- The values of the x509-ocsp crate, by the fields that are read. `to_der` of a CertID may fail.
pub record CertId : Type 0 where
  pub encoded : Option (List ℕ)
  pub hash_algorithm : Oid
  pub issuer_name_hash : List ℕ
  pub issuer_key_hash : List ℕ
  pub serial_number : List ℕ

pub record Extension : Type 0 where
  pub extn_id : Oid
  pub extn_value : List ℕ

pub record TbsRequest : Type 0 where
  pub request_list : List CertId
  pub request_extensions : List Extension

-- What the der and x509-ocsp crates read: a request, an octet string, and the signature algorithms of
-- the PreferredSignatureAlgorithms extension.
pub record Der : Type 0 where
  pub request_from_der : List ℕ → Option TbsRequest
  pub octet_string_from_der : List ℕ → Option (List ℕ)
  pub sig_algs_from_der : List ℕ → Option (List Oid)
  pub sha256 : List ℕ → List ℕ

pub record ParsedCertId : Type 0 where
  pub entry_key : List ℕ
  pub certid_der : List ℕ
  pub issuer_name_hash : List ℕ
  pub issuer_key_hash : List ℕ
  pub serial_number : List ℕ
  pub hash_alg_oid : Oid

pub record ParsedRequest : Type 0 where
  pub cert_ids : List ParsedCertId
  pub nonce : Option (List ℕ)
  pub preferred_sig_algs : List ℕ

pub data NonceAction : Type 0 where
  must_accept may_omit malformed : NonceAction

unfoldable pub validate_nonce : List ℕ → NonceAction
validate_nonce nonce =
    let n = length nonce in
    if n == 0
    then malformed
    else if leb n 15
    then may_omit
    else if leb n 32
    then must_accept
    else if leb n 128
    then may_omit
    else malformed

abbrev ecdsa_sha256 : Oid
ecdsa_sha256 = 1 ∷ 2 ∷ 840 ∷ 10045 ∷ 4 ∷ 3 ∷ 2 ∷ []

abbrev ml_dsa : ℕ → Oid
ml_dsa n = 2 ∷ 16 ∷ 840 ∷ 1 ∷ 101 ∷ 3 ∷ 4 ∷ 3 ∷ n ∷ []

-- id-pkix-ocsp-nonce
abbrev pub nonce_oid : Oid
nonce_oid = 1 ∷ 3 ∷ 6 ∷ 1 ∷ 5 ∷ 5 ∷ 7 ∷ 48 ∷ 1 ∷ 2 ∷ []

abbrev pub pref_sig_algs_oid : Oid
pref_sig_algs_oid = 1 ∷ 3 ∷ 6 ∷ 1 ∷ 5 ∷ 5 ∷ 7 ∷ 48 ∷ 1 ∷ 8 ∷ []

abbrev pub sig_oid_to_discriminator : Oid → Option ℕ
sig_oid_to_discriminator oid =
    if beq_bytes oid ecdsa_sha256
    then some alg_disc_default
    else if beq_bytes oid (ml_dsa 17)
    then some alg_disc_ml_dsa_44
    else if beq_bytes oid (ml_dsa 18)
    then some alg_disc_ml_dsa_65
    else if beq_bytes oid (ml_dsa 19)
    then some alg_disc_ml_dsa_87
    else none

abbrev pub filter_algs : List Oid → List ℕ
filter_algs [] = []
filter_algs (oid ∷ oids) =
    let rest = filter_algs oids in
    elim (sig_oid_to_discriminator oid) [ some d ↦ d ∷ rest | none ↦ rest ]

abbrev pub find_extension : Oid → List Extension → Option Extension
find_extension oid [] = none
find_extension oid (e ∷ es) = if beq_bytes e.extn_id oid then some e else find_extension oid es

module _ (der : Der) where
  open der use {request_from_der, octet_string_from_der, sig_algs_from_der, sha256}

  -- An extension that is missing or cannot be read states no preference.
  unfoldable pub parse_preferred_sig_algs : List Extension → List ℕ
  parse_preferred_sig_algs exts = elim (find_extension pref_sig_algs_oid exts) [
    | none ↦ []
    | some e ↦ elim (sig_algs_from_der e.extn_value) [ none ↦ [] | some oids ↦ filter_algs oids ]
  ]

  unfoldable pub parse_cert_ids : List CertId → CoreResult (List ParsedCertId)
  parse_cert_ids [] = ok []
  parse_cert_ids (cert_id ∷ rest) = do
    certid_der ← ok_or cert_id.encoded der_parse
    parsed ← parse_cert_ids rest
    ok (
        record {
          entry_key = compute_entry_key sha256 certid_der;
          certid_der = certid_der;
          issuer_name_hash = cert_id.issuer_name_hash;
          issuer_key_hash = cert_id.issuer_key_hash;
          serial_number = cert_id.serial_number;
          hash_alg_oid = cert_id.hash_algorithm;
        }
        ∷ parsed)

  unfoldable pub parse_nonce : List Extension → CoreResult (Option (List ℕ))
  parse_nonce exts = elim (find_extension nonce_oid exts) [
    | none ↦ ok none
    | some e ↦ do inner ← ok_or (octet_string_from_der e.extn_value) der_parse; ok (some inner)
  ]

  abbrev is_nil {ℓ} : {A : Type ℓ} → List A → Bool
  is_nil [] = true
  is_nil (x ∷ xs) = false

  unfoldable pub parse_ocsp_request : List ℕ → CoreResult ParsedRequest
  unfolding parse_cert_ids parse_nonce parse_preferred_sig_algs
  parse_ocsp_request der_bytes = do
    guard (not (is_nil der_bytes)) empty_request
    guard (leb (length der_bytes) max_request_size)
        (request_too_large (length der_bytes) max_request_size)
    tbs ← ok_or (request_from_der der_bytes) der_parse
    guard (not (is_nil tbs.request_list)) empty_request_list
    cert_ids ← parse_cert_ids tbs.request_list
    nonce ← parse_nonce tbs.request_extensions
    ok (record {
      cert_ids = cert_ids;
      nonce = nonce;
      preferred_sig_algs = parse_preferred_sig_algs tbs.request_extensions;
    })
