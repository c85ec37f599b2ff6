-- ===== src/Server/Forward/Bounds.antt =====
-- The limits of `forward_request` of crates/hoike-server/src/handlers.rs.
use hoike.Base.{
  ℕ, ◌-◌, ◌≤◌, ◌≡◌, ◌⊎◌, inl, inr, refl, ◌∙◌, List, [], ◌∷◌, ◌++◌, Bool, true, Option, none, some,
  arith, length, length-append, ltb, Bool-cases, Option-cases,
}
use mathlib.Core.List.{append_assoc, append-nil}
use hoike.Core.Request.{internal_error, try_later}
use hoike.Server.Http.{Response, ocsp_error_response, live_response}
use hoike.Server.Forward.{
  Read, chunk, broken, UpstreamResponse, Client, max_forward_response, read_body, handle_upstream,
  is_permitted, forward_request, type_ok,
}

abbrev pub IsError : Response → Type 0
IsError r = (r ≡ ocsp_error_response internal_error) ⊎ (r ≡ ocsp_error_response try_later)

-- The bytes of the chunks, where none of the reads breaks off.
abbrev pub whole : List Read → Option (List ℕ)
whole [] = some []
whole (broken ∷ rest) = none
whole (chunk bytes ∷ rest) = elim (whole rest) [ none ↦ none | some more ↦ some (bytes ++ more) ]

-- Either an error, or all of the body and no more than the limit.
abbrev pub IsBody : List ℕ → List Read → Response → Type 0
IsBody body reads r =
    IsError r
    ⊎ ((more : List ℕ) × (whole reads ≡ some more)
        × (r ≡ live_response (body ++ more))
        × (length (body ++ more) ≤ max_forward_response))

read_body-IsBody :
    (body : List ℕ) (reads : List Read)
    → length body ≤ max_forward_response
    → IsBody body reads (read_body body reads)
unfolding read_body
read_body-IsBody body [] h = inr ([], refl, rw append-nil refl, rw append-nil h)
read_body-IsBody body (broken ∷ rest) h = inl (inr refl)
read_body-IsBody body (chunk bytes ∷ rest) h =
    elim (Bool-cases (ltb (max_forward_response - length body) (length bytes))) [
      | inl e ↦ rw e (inl (inl refl))
      | inr e ↦
          rw e
            (elim (read_body-IsBody (body ++ bytes) rest
              (ground (arith, length-append body bytes))) [
                | inl x ↦ inl x
                | inr (more, w, r, l) ↦
                    inr (bytes ++ more, rw w refl, rw append_assoc at r, rw append_assoc at l)
              ])
    ]

-- What a response that is not an error guarantees.
pub record IsForwarded (scheme : List ℕ → Option (List ℕ)) (client : Client)
    (url der_bytes : List ℕ) (allow_insecure : Bool) (r : Response) : Type 0 where
  pub upstream : UpstreamResponse
  pub content : List ℕ
  pub permitted : is_permitted (scheme url) allow_insecure ≡ true
  pub answered : client url der_bytes ≡ some upstream
  pub success : upstream.is_success ≡ true
  pub typed : type_ok upstream.content_type ≡ true
  pub complete : whole upstream.reads ≡ some content
  pub bounded : length content ≤ max_forward_response
  pub response : r ≡ live_response content

handle_upstream-checked :
    (up : UpstreamResponse)
    → IsError (handle_upstream (some up))
      ⊎ ((up.is_success ≡ true)
          × (type_ok up.content_type ≡ true)
          × (handle_upstream (some up) ≡ read_body [] up.reads))
unfolding handle_upstream
handle_upstream-checked up = ground arith

-- What `forward_request` answers is either an internal error or a try-later error, or the whole body of
-- a successful upstream response of the OCSP content type, of at most 65,536 bytes, and only where the
-- URL is https or a plaintext one that was explicitly allowed.
pub forward_request-IsForwarded :
    (scheme : List ℕ → Option (List ℕ)) (client : Client) (url der_bytes : List ℕ)
    (allow_insecure : Bool)
    → IsError (forward_request scheme client url der_bytes allow_insecure)
      ⊎ IsForwarded scheme client url der_bytes allow_insecure
          (forward_request scheme client url der_bytes allow_insecure)
unfolding forward_request
forward_request-IsForwarded scheme client url der_bytes allow =
    elim (Bool-cases (is_permitted (scheme url) allow)) [
      | inr e ↦ rw (e, forward_request) (inl (inl refl))
      | inl e ↦
          rw (e, forward_request)
            (elim (Option-cases (client url der_bytes)) [
              | inl n ↦ rw n (inl (unfold handle_upstream in inr refl))
              | inr (up, n) ↦ rw n (elim (handle_upstream-checked up) [
                | inl x ↦ inl x
                | inr (s, t, b) ↦ elim (read_body-IsBody [] up.reads (omega arith)) [
                  | inl x ↦ inl (rw b x)
                  | inr (more, w, r, l) ↦ inr (record {
                    upstream = up;
                    content = more;
                    permitted = e;
                    answered = n;
                    success = s;
                    typed = t;
                    complete = w;
                    bounded = l;
                    response = b ∙ r;
                  })
                ]
              ])
            ])
    ]
