-- ===== src/Sign/Samples.antt =====
-- A snapshot of two certificates and stand-ins for third-party code, for the examples.
use hoike.Base.{ℕ, ◌+◌, List, [], ◌∷◌, Option, none, some, ok, true, length}
use hoike.Base as B
use hoike.Ahu.Samples.{checksum, repeat_byte}
use hoike.Sign.Source.{good, revoked, StatusSnapshot, CaIdentity}
use hoike.Sign.Config.{Ocsp, Signer, SingleResponse, CertStatus, is_good, is_revoked}
use hoike.Sign.Produce.{Clock}

-- A CertID is encoded as the length of the algorithm's identifier and the serial number, and a response lists the serials and statuses that it gives.
abbrev pub status_byte : CertStatus → ℕ
status_byte is_good = 0
status_byte (is_revoked time reason) = 1

abbrev pub ocsp : Ocsp
ocsp = record {
  sha256 = checksum;
  sha1 = λ bytes. repeat_byte 20 7;
  octet_string = λ bytes. some bytes;
  serial_number = λ bytes. some bytes;
  certid_der = λ id. some (length id.hash_oid ∷ id.serial_number);
  certificate = λ bytes. some bytes;
  spki_key_bytes = λ cert. cert;
  is_date_time = λ dt. true;
  response_der = λ response. some (48 ∷ response);
}

abbrev pub signer : Signer
signer responder_id singles cert produced_at =
    some (B.map (λ (s : SingleResponse). status_byte s.cert_status) singles)

abbrev pub ca : CaIdentity
ca = record { label = 99 ∷ []; issuer_name_der = 48 ∷ []; issuer_key_bytes = 49 ∷ [] }

abbrev pub two_statuses : StatusSnapshot
two_statuses = record {
  entries = (5 ∷ [], good) ∷ (6 ∷ [], revoked 900 none) ∷ [];
  this_update = 1000;
  next_update = some 90_000;
  not_after = [];
}

abbrev pub clock : Clock
clock n = ok (1100 + n)
