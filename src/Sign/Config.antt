-- ===== src/Sign/Config.antt =====
-- What the generation of crates/hoike-sign/src/generate.rs works with: its configuration, the values of the
-- x509-ocsp crate, and what it calls. Hashes, DER and the signing of a response are parameters.
use hoike.Base.{ℕ, ◌+◌, ◌-◌, ◌*◌, ◌^◌, List, [], ◌∷◌, Bool, Option, min}
use hoike.Ahu.Manifest.{Completeness}
use hoike.Sign.Time.{DateTime}

pub data CertIdCompat : Type 0 where
  sha256_only sha1_only dual : CertIdCompat

pub record GenerationConfig : Type 0 where
  pub producer_id : List ℕ
  pub epoch : ℕ
  pub validity_secs : ℕ
  pub jitter_secs : ℕ
  pub certid_compat : CertIdCompat
  pub completeness : Completeness
  pub archive_cutoff_secs : ℕ
  pub bucket_size : ℕ

-- The values of the x509-ocsp crate.
pub record CertId : Type 0 where
  pub hash_oid : List ℕ
  pub issuer_name_hash : List ℕ
  pub issuer_key_hash : List ℕ
  pub serial_number : List ℕ

pub data CertStatus : Type 0 where
  is_good : CertStatus
  is_revoked : (revocation_time : DateTime) (revocation_reason : Option ℕ) → CertStatus

pub record SingleResponse : Type 0 where
  pub cert_id : CertId
  pub cert_status : CertStatus
  pub this_update : DateTime
  pub next_update : DateTime

-- What is called: digests, `OctetString::new`, `SerialNumber::new`, `CertId::to_der`, a certificate from
-- DER with its public key, and whether a `DateTime` is one.
pub record Ocsp : Type 0 where
  pub sha256 : List ℕ → List ℕ
  pub sha1 : List ℕ → List ℕ
  pub octet_string : List ℕ → Option (List ℕ)
  pub serial_number : List ℕ → Option (List ℕ)
  pub certid_der : CertId → Option (List ℕ)
  pub certificate : List ℕ → Option (List ℕ)
  pub spki_key_bytes : List ℕ → List ℕ
  pub is_date_time : DateTime → Bool
  pub response_der : List ℕ → Option (List ℕ)

-- `OcspResponseBuilder` with a signer: the responder's key hash, the responses, the certificate and the
-- time of production.
abbrev pub Signer : Type 0
Signer = List ℕ → List SingleResponse → Option (List ℕ) → DateTime → Option (List ℕ)

-- `u64::saturating_add`
abbrev pub saturating_add : ℕ → ℕ → ℕ
saturating_add a b = min (a + b) (2 ^ 64 - 1)

-- 2.16.840.1.101.3.4.2.1 and 1.3.14.3.2.26
abbrev pub sha256_oid : List ℕ
sha256_oid = 0x60 ∷ 0x86 ∷ 0x48 ∷ 0x01 ∷ 0x65 ∷ 0x03 ∷ 0x04 ∷ 0x02 ∷ 0x01 ∷ []

abbrev pub sha1_oid : List ℕ
sha1_oid = 0x2b ∷ 0x0e ∷ 0x03 ∷ 0x02 ∷ 0x1a ∷ []

pub record PreparedEntry : Type 0 where
  pub entry_keys : List (List ℕ)
  pub single_responses : List SingleResponse

-- `u32::from_be_bytes` of the first four bytes; a digest has 32.
abbrev pub first_word : List ℕ → ℕ
first_word (a ∷ b ∷ c ∷ d ∷ _) = ((a * 256 + b) * 256 + c) * 256 + d
first_word _ = 0

-- `u32::MAX`
abbrev pub u32_max : ℕ
u32_max = 4_294_967_295
