-- ===== src/Server/Handlers.antt =====
-- crates/hoike-server/src/handlers.rs: how a request is answered. The clock is read more than once: `now`
-- at the lookup and `later` after it. Metrics and log lines are not modelled.
pub mod Fresh
pub mod Nonce
use hoike.Base.{
  ℕ, zero, suc, ◌+◌, ◌-◌, ◌*◌, ◌^◌, min, List, [], ◌∷◌, Bool, true, false, not, ◌&&◌, ◌||◌, Option,
  none, some, ok, err, ltb, leb, if◌then◌else◌, beq_bytes, length, and_then,
}
use hoike.Base.Assoc.{Assoc}
use hoike.Base.Assoc
use hoike.Ahu.Manifest.{Window}
use hoike.Core.Error.{CoreResult}
use hoike.Core.Config.{CaConfig, find_ca}
use hoike.Core.Config.Texts.{live, forward}
use hoike.Core.Request.{
  Der, ParsedRequest, ParsedCertId, NonceAction, validate_nonce, parse_ocsp_request, malformed,
  malformed_request, internal_error, try_later, unauthorized,
}
use hoike.Core.Router.{ScopeMap, LookupResult, lookup, scope_for_certid}
use hoike.Server.Http.{Response, max_age, ocsp_error_response, live_response}
use hoike.Server.Forward.{Client, forward_request}

pub data LiveCertStatus : Type 0 where
  good : LiveCertStatus
  unknown : LiveCertStatus
  revoked : ℕ → Option ℕ → LiveCertStatus

-- The status of a certificate in a pre-signed response, with its window.
pub record LiveSource : Type 0 where
  pub status : LiveCertStatus
  pub this_update : ℕ
  pub next_update : ℕ

pub record LiveSignerState : Type 0 where
  pub signer : List ℕ
  pub responder_key_bytes : List ℕ
  pub validity_secs : ℕ
  pub responder_cert_der : Option (List ℕ)

-- What the handlers call: the live signing of crates/hoike-sign/src/live.rs, the url and sha2 crates, the
-- product of an integer with an f64, and the der crates.
pub record Services : Type 0 where
  pub extract_status_for_cert : List ℕ → List ℕ → Option LiveSource
  pub sign_live_response : List ℕ → LiveCertStatus → List ℕ → LiveSignerState → ℕ → Option (List ℕ)
  pub sign_live_response_with_window :
      List ℕ → LiveCertStatus → List ℕ → LiveSignerState → ℕ → ℕ → ℕ → Option (List ℕ)
  pub url_scheme : List ℕ → Option (List ℕ)
  pub sha256 : List ℕ → List ℕ
  pub scale : ℕ → ℕ → ℕ
  pub der : Der

pub record AppState : Type 0 where
  pub scope_map : ScopeMap
  pub max_request : ℕ
  pub ca : List CaConfig
  pub live_signers : Assoc LiveSignerState
  pub forward_clients : Assoc Client

abbrev pub live_signer_for : AppState → List ℕ → Option LiveSignerState
live_signer_for state label = Assoc.lookup label state.live_signers

abbrev pub forward_client_for : AppState → List ℕ → Option Client
forward_client_for state label = Assoc.lookup label state.forward_clients

-- `ca.iter().find(|c| c.label == ca).is_some_and(|c| c.forward_insecure)`
abbrev pub allow_insecure : AppState → List ℕ → Bool
allow_insecure state label = elim (find_ca label state.ca) [
  | none ↦ false
  | some c ↦ c.forward_insecure
]

-- `now < window.this_update_min || now >= window.next_update_min`
abbrev pub is_outside : Window → ℕ → Bool
is_outside w now = ltb now w.this_update_min || leb w.next_update_min now

-- `now.saturating_add(secs)` in 64 bits
abbrev pub saturating_add : ℕ → ℕ → ℕ
saturating_add now secs = min (now + secs) (2 ^ 64 - 1)

module _ (services : Services) where
  open services use {
    extract_status_for_cert, sign_live_response, sign_live_response_with_window, url_scheme, sha256,
    scale, der,
  }

  unfoldable pub ocsp_success_response : LookupResult → ℕ → Response
  ocsp_success_response r later =
      let w = r.window in
      let scaled = scale (w.next_update_min - w.this_update_min) r.max_age_fraction in
      if is_outside w later then ocsp_error_response try_later else record {
        body = r.response_bytes;
        cache_control = max_age (min scaled (w.next_update_min - later));
        etag = some (sha256 r.response_bytes);
        last_modified = some w.this_update_min;
        expires = some w.next_update_min;
      }

  -- The response of a live signature, or an internal error.
  abbrev pub signed_or : Option (List ℕ) → Response
  signed_or none = ocsp_error_response internal_error
  signed_or (some response_der) = live_response response_der

  -- The end of a live response: no later than the source's, the bundle's and the signer's own limit.
  abbrev pub live_next_update : LiveSignerState → LookupResult → ℕ → ℕ → ℕ
  live_next_update signer r next_update later =
      min (min next_update r.window.next_update_min) (saturating_add later signer.validity_secs)

  -- `nonce_policy = "live"`
  unfoldable pub answer_live : AppState → ParsedCertId → List ℕ → LookupResult → ℕ → Response
  answer_live state cert_id nonce r later = elim (live_signer_for state r.ca_label) [
    | none ↦ ocsp_error_response internal_error
    | some signer ↦ elim (extract_status_for_cert r.response_bytes cert_id.certid_der) [
      | none ↦ ocsp_error_response internal_error
      | some source ↦ signed_or (
          sign_live_response_with_window cert_id.certid_der source.status nonce signer later
            source.this_update (live_next_update signer r source.next_update later))
    ]
  ]

  -- `nonce_policy = "forward"`
  unfoldable pub answer_forward : AppState → LookupResult → List ℕ → Response
  answer_forward state r der_bytes = elim r.forward_to [
    | none ↦ ocsp_error_response internal_error
    | some url ↦ elim (forward_client_for state r.ca_label) [
      | none ↦ ocsp_error_response internal_error
      | some client ↦
          forward_request url_scheme client url der_bytes (allow_insecure state r.ca_label)
    ]
  ]

  -- An entry was found.
  unfoldable pub answer_found :
      AppState → ParsedCertId → Option (List ℕ) → LookupResult → List ℕ → ℕ → ℕ → Response
  unfolding ocsp_success_response answer_live answer_forward
  answer_found state cert_id nonce r der_bytes now later =
      let presigned = ocsp_success_response r later in
      if is_outside r.window now then ocsp_error_response try_later else elim nonce [
        | none ↦ presigned
        | some n ↦
            if beq_bytes r.nonce_policy live
            then answer_live state cert_id n r later
            else if beq_bytes r.nonce_policy forward
            then answer_forward state r der_bytes
            else presigned
      ]

  -- No entry, in a scope that sees all certificates: a signed `unknown`, here or upstream.
  unfoldable pub answer_unknown :
      AppState → ParsedCertId → List ℕ → List ℕ × Bool × Option (List ℕ) → List ℕ → ℕ → Response
  answer_unknown state cert_id nonce (ca, authoritative, forward_to) der_bytes now =
      let refused = ocsp_error_response unauthorized in
      if not authoritative then refused else elim (live_signer_for state ca) [
        | some signer ↦ elim (sign_live_response cert_id.certid_der unknown nonce signer now) [
          | some response_der ↦ live_response response_der
          | none ↦ refused
        ]
        | none ↦ elim forward_to [
          | none ↦ refused
          | some url ↦ elim (forward_client_for state ca) [
            | none ↦ refused
            | some client ↦
                forward_request url_scheme client url der_bytes (allow_insecure state ca)
          ]
        ]
      ]

  unfoldable pub answer_missing : AppState → ParsedCertId → Option (List ℕ) → List ℕ → ℕ → Response
  unfolding answer_unknown
  answer_missing state cert_id none der_bytes now = ocsp_error_response unauthorized
  answer_missing state cert_id (some nonce) der_bytes now =
      elim (scope_for_certid state.scope_map cert_id) [
        | none ↦ ocsp_error_response unauthorized
        | some scope ↦ answer_unknown state cert_id nonce scope der_bytes now
      ]

  abbrev pub is_malformed : Option (List ℕ) → Bool
  is_malformed none = false
  is_malformed (some nonce) = elim (validate_nonce nonce) [ malformed ↦ true | _ ↦ false ]

  -- A parsed request; none where the lookup panics.
  unfoldable pub answer_parsed : AppState → ParsedRequest → List ℕ → ℕ → ℕ → Option Response
  unfolding answer_found answer_missing
  answer_parsed state parsed der_bytes now later =
      if is_malformed parsed.nonce
      then some (ocsp_error_response malformed_request)
      else elim parsed.cert_ids [
        | [] ↦ some (ocsp_error_response malformed_request)
        | cert_id ∷ _ ↦ elim (lookup state.scope_map cert_id parsed.preferred_sig_algs) [
          | none ↦ none
          | some none ↦ some (answer_missing state cert_id parsed.nonce der_bytes now)
          | some (some r) ↦ some (answer_found state cert_id parsed.nonce r der_bytes now later)
        ]
      ]

  unfoldable pub process_request : AppState → List ℕ → ℕ → ℕ → Option Response
  unfolding answer_parsed
  process_request state der_bytes now later = elim (parse_ocsp_request der der_bytes) [
    | err e ↦ some (ocsp_error_response malformed_request)
    | ok parsed ↦ answer_parsed state parsed der_bytes now later
  ]

  -- `decode_get_path` has read the path, or not.
  unfoldable pub handle_get : AppState → CoreResult (List ℕ) → ℕ → ℕ → Option Response
  unfolding process_request
  handle_get state (err e) now later = some (ocsp_error_response malformed_request)
  handle_get state (ok der_bytes) now later =
      let answer = process_request state der_bytes now later in
      if ltb state.max_request (length der_bytes)
      then some (ocsp_error_response malformed_request)
      else answer

  unfoldable pub handle_post : AppState → List ℕ → ℕ → ℕ → Option Response
  unfolding process_request
  handle_post state body now later =
      let answer = process_request state body now later in
      if ltb state.max_request (length body)
      then some (ocsp_error_response malformed_request)
      else answer
