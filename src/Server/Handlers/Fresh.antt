-- ===== src/Server/Handlers/Fresh.antt =====
-- Which responses of crates/hoike-server/src/handlers.rs may be cached, and for how long.
use hoike.Base.{
  ℕ, ◌+◌, ◌≤◌, ◌<◌, ◌≡◌, ◌≢◌, inl, inr, refl, ap, ◌∙◌, List, ◌∷◌, Bool, Option, none, some, ok,
  arith, List-cases, subst, Option-cases, Result-cases, beq_bytes_iff,
}
use hoike.Core.Config.Texts.{live, forward}
use hoike.Core.Request.{ParsedRequest, ParsedCertId, parse_ocsp_request}
use hoike.Core.Router.{LookupResult, lookup, scope_for_certid}
use hoike.Server.Http.{Response, max_age, no_store}
use hoike.Server.Forward.{Client, forward_request}
use hoike.Server.Forward.Bounds.{forward_request-IsForwarded}
use hoike.Server.Handlers.{
  Services, AppState, ocsp_success_response, signed_or, answer_live, answer_forward, answer_found,
  answer_unknown, answer_missing, answer_parsed, process_request, live_signer_for,
  forward_client_for, allow_insecure, live_next_update,
}

forward_request-no_store :
    (scheme : List ℕ → Option (List ℕ)) (client : Client) (url der_bytes : List ℕ) (allow : Bool)
    → (forward_request scheme client url der_bytes allow).cache_control ≡ no_store
forward_request-no_store scheme client url der_bytes allow =
    elim (forward_request-IsForwarded scheme client url der_bytes allow) [
      | inl (inl e) ↦ ap (λ (r : Response). r.cache_control) e
      | inl (inr e) ↦ ap (λ (r : Response). r.cache_control) e
      | inr f ↦ ap (λ (r : Response). r.cache_control) f.response
    ]

module _ (services : Services) where
  signed_or-no_store : (o : Option (List ℕ)) → (signed_or services o).cache_control ≡ no_store
  signed_or-no_store none = refl
  signed_or-no_store (some r) = refl

  answer_live-no_store :
      (state : AppState) (cert : ParsedCertId) (nonce : List ℕ) (r : LookupResult) (later : ℕ)
      → (answer_live services state cert nonce r later).cache_control ≡ no_store
  unfolding answer_live
  answer_live-no_store state cert nonce r later =
      elim (Option-cases (live_signer_for state r.ca_label)) [
        | inl e ↦ ground arith
        | inr (signer, e) ↦
            elim (Option-cases
              (services.extract_status_for_cert r.response_bytes cert.certid_der)) [
                | inl f ↦ ground arith
                | inr (source, f) ↦ ground (
                  arith,
                  signed_or-no_store (
                      services.sign_live_response_with_window cert.certid_der source.status nonce
                        signer later source.this_update
                        (live_next_update services signer r source.next_update later)),
                )
              ]
      ]

  answer_forward-no_store :
      (state : AppState) (r : LookupResult) (der_bytes : List ℕ)
      → (answer_forward services state r der_bytes).cache_control ≡ no_store
  unfolding answer_forward
  answer_forward-no_store state r der_bytes = elim (Option-cases r.forward_to) [
    | inl e ↦ ground arith
    | inr (url, e) ↦ elim (Option-cases (forward_client_for state r.ca_label)) [
      | inl f ↦ ground arith
      | inr (client, f) ↦ ground (
        arith,
        forward_request-no_store services.url_scheme client url der_bytes
            (allow_insecure state r.ca_label),
      )
    ]
  ]

  answer_unknown-no_store :
      (state : AppState) (cert : ParsedCertId) (nonce ca : List ℕ) (authoritative : Bool)
      (forward_to : Option (List ℕ)) (der_bytes : List ℕ) (now : ℕ)
      → (answer_unknown services state cert nonce
          (ca, authoritative, forward_to)
          der_bytes
          now).cache_control
        ≡ no_store
  unfolding answer_unknown
  answer_unknown-no_store state cert nonce ca authoritative forward_to der_bytes now =
      elim (Option-cases forward_to) [
        | inl e ↦ ground arith
        | inr (url, e) ↦ elim (Option-cases (forward_client_for state ca)) [
          | inl f ↦ ground arith
          | inr (client, f) ↦ ground (
            arith,
            forward_request-no_store services.url_scheme client url der_bytes
                (allow_insecure state ca),
          )
        ]
      ]

  answer_missing-no_store :
      (state : AppState) (cert : ParsedCertId) (nonce : Option (List ℕ)) (der_bytes : List ℕ)
      (now : ℕ)
      → (answer_missing services state cert nonce der_bytes now).cache_control ≡ no_store
  unfolding answer_missing
  answer_missing-no_store state cert none der_bytes now = refl
  answer_missing-no_store state cert (some nonce) der_bytes now =
      elim (Option-cases (scope_for_certid state.scope_map cert)) [
        | inl e ↦ ground arith
        | inr ((ca, authoritative, forward_to), e) ↦ ground (
          arith,
          answer_unknown-no_store state cert nonce ca authoritative forward_to der_bytes now,
        )
      ]

  -- A pre-signed response that may be cached for `n` seconds from `later` on.
  pub record IsFresh (r : LookupResult) (nonce : Option (List ℕ)) (now later n : ℕ)
      (resp : Response) : Type 0 where
    pub body : resp.body ≡ r.response_bytes
    pub started : r.window.this_update_min ≤ now
    pub alive : now < r.window.next_update_min
    pub started_later : r.window.this_update_min ≤ later
    pub expires_after : later + n ≤ r.window.next_update_min
    pub expires : resp.expires ≡ some r.window.next_update_min
    pub not_live : nonce ≢ none → r.nonce_policy ≢ live
    pub not_forward : nonce ≢ none → r.nonce_policy ≢ forward

  answer_found-IsFresh :
      (state : AppState) (cert : ParsedCertId) (nonce : Option (List ℕ)) (r : LookupResult)
      (der_bytes : List ℕ) (now later n : ℕ)
      → (answer_found services state cert nonce r der_bytes now later).cache_control ≡ max_age n
      → IsFresh r nonce now later n (answer_found services state cert nonce r der_bytes now later)
  unfolding answer_found ocsp_success_response
  answer_found-IsFresh state cert none r der_bytes now later n h = ground arith
  answer_found-IsFresh state cert (some nonce) r der_bytes now later n h = ground (
    arith,
    answer_live-no_store state cert nonce r later,
    answer_forward-no_store state r der_bytes,
    beq_bytes_iff r.nonce_policy live,
    beq_bytes_iff r.nonce_policy forward,
  )

  -- The request that a response answers, and the entry that was found for it.
  pub record IsServed (state : AppState) (der_bytes : List ℕ) (now later n : ℕ) (resp : Response)
      : Type 0 where
    pub parsed : ParsedRequest
    pub cert : ParsedCertId
    pub rest : List ParsedCertId
    pub result : LookupResult
    pub request : parse_ocsp_request services.der der_bytes ≡ ok parsed
    pub requested : parsed.cert_ids ≡ cert ∷ rest
    pub found : lookup state.scope_map cert parsed.preferred_sig_algs ≡ some (some result)
    pub fresh : IsFresh result parsed.nonce now later n resp

  answer_parsed-IsServed :
      (state : AppState) (p : ParsedRequest) (der_bytes : List ℕ) (now later n : ℕ)
      (resp : Response)
      → parse_ocsp_request services.der der_bytes ≡ ok p
      → answer_parsed services state p der_bytes now later ≡ some resp
      → resp.cache_control ≡ max_age n
      → IsServed state der_bytes now later n resp
  unfolding answer_parsed
  answer_parsed-IsServed state p der_bytes now later n resp e h c = elim (List-cases p.cert_ids) [
    | inl f ↦ absurd (ground arith)
    | inr (cert, rest, f) ↦ elim (Option-cases (lookup state.scope_map cert p.preferred_sig_algs)) [
      | inl g ↦ absurd (ground arith)
      | inr (found, g) ↦ elim (Option-cases found) [
        | inl k ↦ absurd (ground (arith, answer_missing-no_store state cert p.nonce der_bytes now))
        | inr (r, k) ↦
            let same : answer_found services state cert p.nonce r der_bytes now later ≡ resp =
              ground arith in
            let cached : (answer_found services state cert p.nonce r der_bytes now
                  later).cache_control
                ≡ max_age n =
              ap (λ (x : Response). x.cache_control) same ∙ c in
            record {
              parsed = p;
              cert = cert;
              rest = rest;
              result = r;
              request = e;
              requested = f;
              found = g ∙ ap some k;
              fresh =
                  subst (IsFresh r p.nonce now later n) same
                    (answer_found-IsFresh state cert p.nonce r der_bytes now later n cached);
            }
      ]
    ]
  ]

  -- A response that may be cached for n seconds is the pre-signed response that the lookup finds for the
  -- request's first CertID. The bundle's window contains the instant of the lookup and that of the
  -- answer, and lasts for n seconds more, and a nonce in the request is ignored by the CA's policy.
  pub process_request-IsServed :
      (state : AppState) (der_bytes : List ℕ) (now later n : ℕ) (resp : Response)
      → process_request services state der_bytes now later ≡ some resp
      → resp.cache_control ≡ max_age n
      → IsServed state der_bytes now later n resp
  unfolding process_request
  process_request-IsServed state der_bytes now later n resp h c =
      elim (Result-cases (parse_ocsp_request services.der der_bytes)) [
        | inr (x, e) ↦ absurd (ground arith)
        | inl (p, e) ↦ answer_parsed-IsServed state p der_bytes now later n resp e (ground arith) c
      ]
