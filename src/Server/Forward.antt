-- ===== src/Server/Forward.antt =====
-- `forward_request` of crates/hoike-server/src/handlers.rs. The client of the reqwest crate is a function
-- from the URL and the body to what the upstream does; a URL is read by the url crate.
pub mod Bounds
use hoike.Base.{
  ℕ, ◌-◌, ◌+◌, ◌<◌, List, [], ◌∷◌, ◌++◌, Bool, true, false, ◌&&◌, ◌||◌, Option, none, some, ltb,
  if◌then◌else◌, beq_bytes, length,
}
use hoike.Core.Config.Texts.{https, http}
use hoike.Core.Request.{internal_error, try_later}
use hoike.Server.Http.{Response, ocsp_error_response, live_response, is_ocsp_response}

-- One read of the body: a chunk, or an error.
pub data Read : Type 0 where
  chunk : List ℕ → Read
  broken : Read

pub record UpstreamResponse : Type 0 where
  pub is_success : Bool
  pub content_type : Option (List ℕ)
  pub content_length : Option ℕ
  pub reads : List Read

abbrev pub Client : Type 0
Client = List ℕ → List ℕ → Option UpstreamResponse

abbrev pub max_forward_response : ℕ
max_forward_response = 65536

-- The loop over the chunks, with the body so far.
unfoldable pub read_body : List ℕ → List Read → Response
read_body body [] = live_response body
read_body body (broken ∷ rest) = ocsp_error_response try_later
read_body body (chunk bytes ∷ rest) =
    let more = read_body (body ++ bytes) rest in
    if ltb (max_forward_response - length body) (length bytes)
    then ocsp_error_response internal_error
    else more

abbrev pub type_ok : Option (List ℕ) → Bool
type_ok none = false
type_ok (some content_type) = is_ocsp_response content_type

abbrev too_long : Option ℕ → Bool
too_long none = false
too_long (some n) = ltb max_forward_response n

unfoldable pub handle_upstream : Option UpstreamResponse → Response
unfolding read_body
handle_upstream none = ocsp_error_response try_later
handle_upstream (some r) =
    if r.is_success
    then if type_ok r.content_type
      then if too_long r.content_length
        then ocsp_error_response internal_error
        else read_body [] r.reads
      else ocsp_error_response try_later
    else ocsp_error_response try_later

-- `Url::parse(url).is_ok_and(..)`, by the scheme of the URL
abbrev pub is_permitted : Option (List ℕ) → Bool → Bool
is_permitted none allow_insecure = false
is_permitted (some scheme) allow_insecure =
    beq_bytes scheme https || (allow_insecure && beq_bytes scheme http)

unfoldable pub forward_request :
    (List ℕ → Option (List ℕ)) → Client → List ℕ → List ℕ → Bool → Response
unfolding handle_upstream
forward_request scheme client url der_bytes allow_insecure =
    if is_permitted (scheme url) allow_insecure
    then handle_upstream (client url der_bytes)
    else ocsp_error_response internal_error
