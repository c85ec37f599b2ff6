-- ===== src/Sign/Error.antt =====
-- crates/hoike-sign/src/error.rs, without the message texts.
use hoike.Base.{Result}
use hoike.Ahu.Error.{AhuError}

pub data SignError : Type 0 where
  der ocsp_builder signing crl_parse pkcs11 key_load seal verify no_cert ldap config io : SignError
  bundle : AhuError → SignError

abbrev pub SignResult {ℓ} : Type ℓ → Type ℓ
SignResult A = Result SignError A
