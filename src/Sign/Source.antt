-- ===== src/Sign/Source.antt =====
-- crates/hoike-sign/src/source.rs: the status of certificates as a revocation source gives it. A BTreeMap is
-- a list in the order of its keys, and a CrlReason its number.
use hoike.Base.{ℕ, List, ◌||◌, not, Option, ok_or, guard, ◌>>=◌, ◌>>◌, ok, ltb, leb}
use hoike.Base.Assoc.{Assoc}
use hoike.Sign.Error.{SignResult, config}

pub data CertificateStatus : Type 0 where
  good : CertificateStatus
  revoked : (revocation_time : ℕ) (reason : Option ℕ) → CertificateStatus

pub record StatusSnapshot : Type 0 where
  pub entries : List (List ℕ × CertificateStatus)
  pub this_update : ℕ
  pub next_update : Option ℕ
  pub not_after : Assoc ℕ

pub record CaIdentity : Type 0 where
  pub label : List ℕ
  pub issuer_name_der : List ℕ
  pub issuer_key_bytes : List ℕ

unfoldable pub validate_at : StatusSnapshot → ℕ → SignResult ℕ
validate_at s now = do
  end ← ok_or s.next_update config
  guard (not (ltb now s.this_update || leb end now || leb end s.this_update)) config
  ok end
