-- ===== src/Core/RouterExamples.antt =====
-- The theorems on routing at a concrete scope map.
use hoike.Base.{ℕ, ◌≡◌, refl, [], ◌∷◌, ◌++◌, some, none, arith, cmp_bytes}
use hoike.Ahu.Samples.{bundle_at, scope_at, repeat_byte}
use hoike.Core.Request.{ParsedCertId}
use hoike.Core.Router.{ScopeEntry, ScopeMap, entries_of, register_bundle_scopes, key_of, lookup}
use hoike.Core.Router.Lookup.{
  first_answer, routes, registered, lookup-first_answer, routes-register_bundle_scopes,
}

abbrev pub entry_of : ℕ → ScopeEntry
entry_of i = record {
  bundle_idx = i;
  ca_label = 97 ∷ [];
  nonce_policy = 105 ∷ [];
  completeness = [];
  forward_to = none;
  max_age_fraction = 0;
}

-- Two bundles serve one CA.
abbrev pub scope_map : ScopeMap
scope_map = record {
  entries = (key_of (scope_at 1), entry_of 0 ∷ entry_of 1 ∷ []) ∷ [];
  bundles = bundle_at 7 ∷ bundle_at 9 ∷ [];
}

abbrev pub cert : ParsedCertId
cert = record {
  issuer_name_hash = repeat_byte 32 170;
  issuer_key_hash = repeat_byte 32 187;
  entry_key = repeat_byte 32 1;
  certid_der = [];
  serial_number = [];
  hash_alg_oid = [];
}

routed : entries_of scope_map.entries (key_of (scope_at 1)) ≡ some (entry_of 0 ∷ entry_of 1 ∷ [])
unfolding entries_of cmp_bytes
routed = refl

lookup-first_answer_example :
    lookup scope_map cert (3 ∷ [])
    ≡ some
        (first_answer scope_map.bundles (repeat_byte 32 1) (3 ∷ []) (entry_of 0 ∷ entry_of 1 ∷ []))
lookup-first_answer_example =
    lookup-first_answer scope_map cert (3 ∷ []) (entry_of 0 ∷ entry_of 1 ∷ []) routed (omega arith)

routes-register_bundle_scopes_example :
    routes
      (register_bundle_scopes (bundle_at 9) (entry_of 1) scope_map.entries)
      (key_of (scope_at 1))
    ≡ routes scope_map.entries (key_of (scope_at 1))
      ++ registered (scope_at 9 ∷ []) (key_of (scope_at 1)) (entry_of 1)
routes-register_bundle_scopes_example =
    routes-register_bundle_scopes (bundle_at 9) (entry_of 1) scope_map.entries (key_of (scope_at 1))
