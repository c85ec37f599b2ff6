-- ===== src/Server/Examples.antt =====
-- The theorems on crates/hoike-server at concrete requests.
use hoike.Base.{
  ℕ, ◌≡◌, ◌⊎◌, inl, inr, refl, List, [], ◌∷◌, Option, none, some, ok, err, arith, false, true,
  cmp_bytes, beq_bytes, binary_search_by, narrow, probe, length,
}
use hoike.Ahu.Samples.{scope_at, checksum, bundle_at, repeat_byte}
use hoike.Ahu.Bundle
use hoike.Core.RouterExamples.{scope_map, entry_of}
use hoike.Core.Config.Texts.{live, https, ocsp_response_type}
use hoike.Core.Request.{
  Der, TbsRequest, CertId, Extension, ParsedRequest, ParsedCertId, nonce_oid, parse_ocsp_request,
  parse_cert_ids, parse_nonce, parse_preferred_sig_algs, validate_nonce,
}
use hoike.Core.Router.{
  ScopeMap, ScopeEntry, LookupResult, lookup, make_result, collect_hits, entries_of, key_of,
}
use hoike.Server.Http.{live_response, max_age}
use hoike.Server.Handlers.{
  Services, AppState, LiveSignerState, good, process_request, answer_parsed, answer_found,
  answer_live, ocsp_success_response,
}
use hoike.Server.Forward.{UpstreamResponse, chunk, forward_request}
use hoike.Server.Forward.Bounds.{IsError, IsForwarded, forward_request-IsForwarded}
use hoike.Ahu.Index.{binary_search, binary_search_with_discriminator}
use hoike.Ahu.Bundle.{entry_at, get_range}
use hoike.Server.Handlers.Fresh.{IsServed, process_request-IsServed}
use hoike.Server.Handlers.Nonce.{IsRefused, IsSigned, process_request-IsSigned}

abbrev cert_id : CertId
cert_id = record {
  encoded = some (1 ∷ []);
  hash_algorithm = [];
  issuer_name_hash = repeat_byte 32 170;
  issuer_key_hash = repeat_byte 32 187;
  serial_number = 5 ∷ [];
}

abbrev request_with : List Extension → TbsRequest
request_with exts = record { request_list = cert_id ∷ []; request_extensions = exts }

-- The digest of every CertID is the key of the sample records.
abbrev der_with : List Extension → Der
der_with exts = record {
  request_from_der = λ bytes. some (request_with exts);
  octet_string_from_der = some;
  sig_algs_from_der = λ bytes. some [];
  sha256 = λ bytes. repeat_byte 32 1;
}

abbrev services_with : List Extension → Services
services_with exts = record {
  extract_status_for_cert =
      λ r c. some (record { status = good; this_update = 100; next_update = 200 });
  sign_live_response = λ c s n k now. some (48 ∷ []);
  sign_live_response_with_window = λ c s n k now this next. some (48 ∷ n);
  url_scheme = λ url. some https;
  sha256 = checksum;
  scale = λ n f. n;
  der = der_with exts;
}

abbrev signer : LiveSignerState
signer = record {
  signer = 1 ∷ [];
  responder_key_bytes = [];
  validity_secs = 60;
  responder_cert_der = none;
}

abbrev state_of : ScopeMap → AppState
state_of map = record {
  scope_map = map;
  max_request = 8192;
  ca = [];
  live_signers = (97 ∷ [], signer) ∷ [];
  forward_clients = [];
}

-- A CA that answers nonces live.
abbrev live_entry : ScopeEntry
live_entry = record {
  bundle_idx = 0;
  ca_label = 97 ∷ [];
  nonce_policy = live;
  completeness = [];
  forward_to = none;
  max_age_fraction = 0;
}

abbrev live_map : ScopeMap
live_map = record {
  entries = (key_of (scope_at 1), live_entry ∷ []) ∷ [];
  bundles = bundle_at 7 ∷ [];
}

abbrev asked : ParsedCertId
asked = record {
  entry_key = repeat_byte 32 1;
  certid_der = 1 ∷ [];
  issuer_name_hash = repeat_byte 32 170;
  issuer_key_hash = repeat_byte 32 187;
  serial_number = 5 ∷ [];
  hash_alg_oid = [];
}

-- The nonce of one byte, and an empty one.
abbrev nonce_ext : List ℕ → List Extension
nonce_ext nonce = record { extn_id = nonce_oid; extn_value = nonce } ∷ []

abbrev parsed : Option (List ℕ) → ParsedRequest
parsed nonce = record { cert_ids = asked ∷ []; nonce = nonce; preferred_sig_algs = [] }

abbrev found : ScopeEntry → LookupResult
found entry = make_result entry (10 ∷ 11 ∷ 12 ∷ []) (bundle_at 7).manifest.window

parsed_plain : parse_ocsp_request (der_with []) (48 ∷ []) ≡ ok (parsed none)
unfolding parse_ocsp_request parse_cert_ids parse_nonce parse_preferred_sig_algs cmp_bytes
parsed_plain = refl

parsed_nonce :
    (n : List ℕ) → parse_ocsp_request (der_with (nonce_ext n)) (48 ∷ []) ≡ ok (parsed (some n))
unfolding parse_ocsp_request parse_cert_ids parse_nonce parse_preferred_sig_algs cmp_bytes
parsed_nonce n = refl

hit : Bundle.lookup (bundle_at 7) (repeat_byte 32 1) ≡ some (10 ∷ 11 ∷ 12 ∷ [])
unfolding Bundle.lookup binary_search binary_search_with_discriminator cmp_bytes binary_search_by
    narrow probe entry_at get_range
hit = refl

hit_second : Bundle.lookup (bundle_at 9) (repeat_byte 32 1) ≡ some (10 ∷ 11 ∷ 12 ∷ [])
unfolding Bundle.lookup binary_search binary_search_with_discriminator cmp_bytes binary_search_by
    narrow probe entry_at get_range
hit_second = refl

found_live : lookup live_map asked [] ≡ some (some (found live_entry))
unfolding lookup cmp_bytes entries_of collect_hits
found_live = rw hit refl

found_plain : lookup scope_map asked [] ≡ some (some (found (entry_of 0)))
unfolding lookup cmp_bytes entries_of collect_hits
found_plain = rw (hit, hit_second) refl

served :
    process_request (services_with []) (state_of scope_map) (48 ∷ []) 150 160
    ≡ some (ocsp_success_response (services_with []) (found (entry_of 0)) 160)
unfolding process_request answer_parsed answer_found
served = rw (parsed_plain, process_request) (rw (found_plain, answer_parsed) refl)

cached :
    (ocsp_success_response (services_with []) (found (entry_of 0)) 160).cache_control ≡ max_age 40
unfolding ocsp_success_response
cached = refl

process_request-IsServed_example :
    IsServed
      (services_with [])
      (state_of scope_map)
      (48 ∷ [])
      150
      160
      40
      (ocsp_success_response (services_with []) (found (entry_of 0)) 160)
process_request-IsServed_example =
    process_request-IsServed (services_with []) (state_of scope_map) (48 ∷ []) 150 160 40
      (ocsp_success_response (services_with []) (found (entry_of 0)) 160) served cached

answered :
    process_request (services_with (nonce_ext (7 ∷ []))) (state_of live_map) (48 ∷ []) 150 160
    ≡ some (live_response (48 ∷ 7 ∷ []))
unfolding process_request answer_parsed answer_found answer_live validate_nonce cmp_bytes
    hoike.Base.Assoc.lookup
answered = rw (parsed_nonce (7 ∷ []), process_request) (rw (found_live, answer_parsed) refl)

process_request-IsSigned_example :
    IsRefused (services_with (nonce_ext (7 ∷ []))) (live_response (48 ∷ 7 ∷ []))
    ⊎ IsSigned
        (services_with (nonce_ext (7 ∷ [])))
        (state_of live_map)
        asked
        (7 ∷ [])
        (found live_entry)
        160
        (live_response (48 ∷ 7 ∷ []))
process_request-IsSigned_example =
    process_request-IsSigned (services_with (nonce_ext (7 ∷ []))) (state_of live_map) (48 ∷ [])
      (7 ∷ []) (parsed (some (7 ∷ []))) asked [] (found live_entry) 150 160
      (live_response (48 ∷ 7 ∷ [])) (parsed_nonce (7 ∷ [])) refl refl found_live refl answered

abbrev upstream : List ℕ → List ℕ → Option UpstreamResponse
upstream url body = some (record {
  is_success = true;
  content_type = some ocsp_response_type;
  content_length = none;
  reads = chunk (48 ∷ []) ∷ chunk (49 ∷ []) ∷ [];
})

forward_request-IsForwarded_example :
    IsError (forward_request (λ url. some https) upstream [] (48 ∷ []) false)
    ⊎ IsForwarded
        (λ url. some https)
        upstream
        []
        (48 ∷ [])
        false
        (forward_request (λ url. some https) upstream [] (48 ∷ []) false)
forward_request-IsForwarded_example =
    forward_request-IsForwarded (λ url. some https) upstream [] (48 ∷ []) false
