-- ===== src/Server/Http.antt =====
-- The responses that crates/hoike-server/src/handlers.rs builds. Each has status 200 and the content type
-- `application/ocsp-response`. Dates are their Unix seconds, and an entity tag is the digest in it.
use hoike.Base.{ℕ, List, [], ◌∷◌, Bool, ◌||◌, Option, none, ◌==◌, if◌then◌else◌}
use hoike.Core.Admission.{eq_ignore_case}
use hoike.Core.Config.Texts.{ocsp_response_type}

-- `no-cache, no-store`, or `max-age=n, public, no-transform, must-revalidate`.
pub data CacheControl : Type 0 where
  no_store : CacheControl
  max_age : ℕ → CacheControl

pub record Response : Type 0 where
  pub body : List ℕ
  pub cache_control : CacheControl
  pub etag : Option (List ℕ)
  pub last_modified : Option ℕ
  pub expires : Option ℕ

abbrev uncached : List ℕ → Response
uncached body = record {
  body = body;
  cache_control = no_store;
  etag = none;
  last_modified = none;
  expires = none;
}

abbrev pub ocsp_error_response : List ℕ → Response
ocsp_error_response status_der = uncached status_der

abbrev pub live_response : List ℕ → Response
live_response response_bytes = uncached response_bytes

-- `split(';').next()`
abbrev before_semicolon : List ℕ → List ℕ
before_semicolon [] = []
before_semicolon (b ∷ bs) = if b == b';' then [] else b ∷ before_semicolon bs

-- The whitespace that a header value can hold.
abbrev is_space : ℕ → Bool
is_space b = b == 32 || b == 9

abbrev trim_start : List ℕ → List ℕ
trim_start [] = []
trim_start (b ∷ bs) = if is_space b then trim_start bs else b ∷ bs

abbrev trim_end : List ℕ → List ℕ
trim_end [] = []
trim_end (b ∷ bs) = elim (trim_end bs) [
  | [] ↦ if is_space b then [] else b ∷ []
  | c ∷ cs ↦ b ∷ c ∷ cs
]

abbrev pub is_ocsp_response : List ℕ → Bool
is_ocsp_response content_type =
    eq_ignore_case (trim_end (trim_start (before_semicolon content_type))) ocsp_response_type
