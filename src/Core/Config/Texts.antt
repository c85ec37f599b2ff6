-- ===== src/Core/Config/Texts.antt =====
-- The texts that crates/hoike-core and crates/hoike-server compare with, as bytes.
use hoike.Base.{ℕ, List, [], ◌∷◌}

-- "live"
abbrev pub live : List ℕ
live = b'l' ∷ b'i' ∷ b'v' ∷ b'e' ∷ []

-- "forward"
abbrev pub forward : List ℕ
forward = b'f' ∷ b'o' ∷ b'r' ∷ b'w' ∷ b'a' ∷ b'r' ∷ b'd' ∷ []

-- "ignore"
abbrev pub ignore : List ℕ
ignore = b'i' ∷ b'g' ∷ b'n' ∷ b'o' ∷ b'r' ∷ b'e' ∷ []

-- "edge"
abbrev pub edge : List ℕ
edge = b'e' ∷ b'd' ∷ b'g' ∷ b'e' ∷ []

-- "signer"
abbrev pub signer : List ℕ
signer = b's' ∷ b'i' ∷ b'g' ∷ b'n' ∷ b'e' ∷ b'r' ∷ []

-- "combined"
abbrev pub combined : List ℕ
combined = b'c' ∷ b'o' ∷ b'm' ∷ b'b' ∷ b'i' ∷ b'n' ∷ b'e' ∷ b'd' ∷ []

-- "required"
abbrev pub required : List ℕ
required = b'r' ∷ b'e' ∷ b'q' ∷ b'u' ∷ b'i' ∷ b'r' ∷ b'e' ∷ b'd' ∷ []

-- "permissive"
abbrev pub permissive : List ℕ
permissive = b'p' ∷ b'e' ∷ b'r' ∷ b'm' ∷ b'i' ∷ b's' ∷ b's' ∷ b'i' ∷ b'v' ∷ b'e' ∷ []

-- "ecdsa-p256"
abbrev pub ecdsa_p256 : List ℕ
ecdsa_p256 = b'e' ∷ b'c' ∷ b'd' ∷ b's' ∷ b'a' ∷ b'-' ∷ b'p' ∷ b'2' ∷ b'5' ∷ b'6' ∷ []

-- "ml-dsa-44"
abbrev pub ml_dsa_44 : List ℕ
ml_dsa_44 = b'm' ∷ b'l' ∷ b'-' ∷ b'd' ∷ b's' ∷ b'a' ∷ b'-' ∷ b'4' ∷ b'4' ∷ []

-- "ml-dsa-65"
abbrev pub ml_dsa_65 : List ℕ
ml_dsa_65 = b'm' ∷ b'l' ∷ b'-' ∷ b'd' ∷ b's' ∷ b'a' ∷ b'-' ∷ b'6' ∷ b'5' ∷ []

-- "ml-dsa-87"
abbrev pub ml_dsa_87 : List ℕ
ml_dsa_87 = b'm' ∷ b'l' ∷ b'-' ∷ b'd' ∷ b's' ∷ b'a' ∷ b'-' ∷ b'8' ∷ b'7' ∷ []

-- "dual"
abbrev pub dual : List ℕ
dual = b'd' ∷ b'u' ∷ b'a' ∷ b'l' ∷ []

-- "sha256"
abbrev pub sha256_only : List ℕ
sha256_only = b's' ∷ b'h' ∷ b'a' ∷ b'2' ∷ b'5' ∷ b'6' ∷ []

-- "sha1"
abbrev pub sha1_only : List ℕ
sha1_only = b's' ∷ b'h' ∷ b'a' ∷ b'1' ∷ []

-- "https"
abbrev pub https : List ℕ
https = b'h' ∷ b't' ∷ b't' ∷ b'p' ∷ b's' ∷ []

-- "http"
abbrev pub http : List ℕ
http = b'h' ∷ b't' ∷ b't' ∷ b'p' ∷ []

-- "https://"
abbrev pub https_prefix : List ℕ
https_prefix = b'h' ∷ b't' ∷ b't' ∷ b'p' ∷ b's' ∷ b':' ∷ b'/' ∷ b'/' ∷ []

-- "http://"
abbrev pub http_prefix : List ℕ
http_prefix = b'h' ∷ b't' ∷ b't' ∷ b'p' ∷ b':' ∷ b'/' ∷ b'/' ∷ []

-- "authoritative-complete"
abbrev pub authoritative_complete : List ℕ
authoritative_complete =
    b'a' ∷ b'u' ∷ b't' ∷ b'h' ∷ b'o' ∷ b'r' ∷ b'i' ∷ b't' ∷ b'a' ∷ b't' ∷ b'i' ∷ b'v' ∷ b'e' ∷ b'-'
    ∷ b'c' ∷ b'o' ∷ b'm' ∷ b'p' ∷ b'l' ∷ b'e' ∷ b't' ∷ b'e' ∷ []

-- "default"
abbrev pub default_label : List ℕ
default_label = b'd' ∷ b'e' ∷ b'f' ∷ b'a' ∷ b'u' ∷ b'l' ∷ b't' ∷ []

-- "application/ocsp-response"
abbrev pub ocsp_response_type : List ℕ
ocsp_response_type =
    b'a' ∷ b'p' ∷ b'p' ∷ b'l' ∷ b'i' ∷ b'c' ∷ b'a' ∷ b't' ∷ b'i' ∷ b'o' ∷ b'n' ∷ b'/' ∷ b'o' ∷ b'c'
    ∷ b's' ∷ b'p' ∷ b'-' ∷ b'r' ∷ b'e' ∷ b's' ∷ b'p' ∷ b'o' ∷ b'n' ∷ b's' ∷ b'e' ∷ []
