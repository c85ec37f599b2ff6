-- ===== src/Server/Handlers/Nonce.antt =====
-- How crates/hoike-server/src/handlers.rs answers a request with a nonce.
use hoike.Base.{
  ℕ, ◌+◌, ◌≤◌, ◌<◌, ◌≡◌, ◌⊎◌, inl, inr, sym, subst, List, ◌∷◌, some, ok, arith, Option-cases,
  length, beq_bytes_iff,
}
use hoike.Core.Config.Texts.{live}
use hoike.Core.Request.{
  ParsedRequest, ParsedCertId, parse_ocsp_request, validate_nonce, malformed_request,
  internal_error, try_later,
}
use hoike.Core.Router.{LookupResult, lookup}
use hoike.Server.Http.{Response, ocsp_error_response, live_response}
use hoike.Server.Handlers.{
  Services, AppState, LiveSignerState, LiveSource, live_next_update, answer_live, answer_found,
  answer_parsed, process_request, live_signer_for,
}

module _ (services : Services) where
  -- A response that the CA's own live signer has signed over the nonce.
  pub record IsSigned (state : AppState) (cert : ParsedCertId) (nonce : List ℕ) (r : LookupResult)
      (later : ℕ) (resp : Response) : Type 0 where
    pub signer : LiveSignerState
    pub source : LiveSource
    pub signed : List ℕ
    pub next_update : ℕ
    pub own : live_signer_for state r.ca_label ≡ some signer
    pub extracted : services.extract_status_for_cert r.response_bytes cert.certid_der ≡ some source
    pub signature :
        services.sign_live_response_with_window cert.certid_der source.status nonce signer later
          source.this_update next_update
        ≡ some signed
    pub in_source : next_update ≤ source.next_update
    pub in_window : next_update ≤ r.window.next_update_min
    pub in_limit : next_update ≤ later + signer.validity_secs
    pub response : resp ≡ live_response signed

  abbrev pub IsRefused : Response → Type 0
  IsRefused resp =
      (resp ≡ ocsp_error_response internal_error)
      ⊎ ((resp ≡ ocsp_error_response try_later) ⊎ (resp ≡ ocsp_error_response malformed_request))

  answer_live-IsSigned :
      (state : AppState) (cert : ParsedCertId) (nonce : List ℕ) (r : LookupResult) (later : ℕ)
      → IsRefused (answer_live services state cert nonce r later)
        ⊎ IsSigned state cert nonce r later (answer_live services state cert nonce r later)
  unfolding answer_live
  answer_live-IsSigned state cert nonce r later =
      elim (Option-cases (live_signer_for state r.ca_label)) [
        | inl e ↦ inl (inl (ground arith))
        | inr (signer, e) ↦
            elim (Option-cases
              (services.extract_status_for_cert r.response_bytes cert.certid_der)) [
                | inl f ↦ inl (inl (ground arith))
                | inr (source, f) ↦
                    elim (Option-cases (
                      services.sign_live_response_with_window cert.certid_der source.status nonce
                        signer later source.this_update
                        (live_next_update services signer r source.next_update later))) [
                          | inl g ↦ inl (inl (ground arith))
                          | inr (signed, g) ↦ inr (record {
                            signer = signer;
                            source = source;
                            signed = signed;
                            next_update =
                                live_next_update services signer r source.next_update later;
                            own = e;
                            extracted = f;
                            signature = g;
                            in_source = ground arith;
                            in_window = ground arith;
                            in_limit = ground arith;
                            response = ground arith;
                          })
                        ]
              ]
      ]

  -- Where an entry is found in a CA that answers nonces live, a request with a nonce gets an error, or a
  -- response that the CA's own signer signed over the nonce, which ends no later than the pre-signed
  -- response, the bundle's window and the signer's own limit.
  pub process_request-IsSigned :
      (state : AppState) (der_bytes nonce : List ℕ) (p : ParsedRequest) (cert : ParsedCertId)
      (rest : List ParsedCertId) (r : LookupResult) (now later : ℕ) (resp : Response)
      → parse_ocsp_request services.der der_bytes ≡ ok p
      → p.nonce ≡ some nonce
      → p.cert_ids ≡ cert ∷ rest
      → lookup state.scope_map cert p.preferred_sig_algs ≡ some (some r)
      → r.nonce_policy ≡ live
      → process_request services state der_bytes now later ≡ some resp
      → IsRefused resp ⊎ IsSigned state cert nonce r later resp
  unfolding process_request answer_parsed answer_found
  process_request-IsSigned state der_bytes nonce p cert rest r now later resp a b c d e h =
      let cases : IsRefused resp ⊎ (resp ≡ answer_live services state cert nonce r later) =
        ground (arith, beq_bytes_iff r.nonce_policy live) in
      elim cases [
        | inl x ↦ inl x
        | inr same ↦
            subst (λ (x : Response). IsRefused x ⊎ IsSigned state cert nonce r later x) (sym same)
              (answer_live-IsSigned state cert nonce r later)
      ]

  -- A nonce that is empty or longer than 128 bytes makes the request malformed, whatever it asks for.
  pub process_request-malformed :
      (state : AppState) (der_bytes nonce : List ℕ) (p : ParsedRequest) (now later : ℕ)
      → parse_ocsp_request services.der der_bytes ≡ ok p
      → p.nonce ≡ some nonce
      → (length nonce ≡ 0) ⊎ (128 < length nonce)
      → process_request services state der_bytes now later
        ≡ some (ocsp_error_response malformed_request)
  unfolding process_request answer_parsed validate_nonce
  process_request-malformed state der_bytes nonce p now later a b c = ground arith
