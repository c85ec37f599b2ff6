-- ===== src/Core/Router/Lookup.antt =====
-- The routing of crates/hoike-core/src/router.rs against a walk over the scope entries.
use mathlib.Core.List.{append_assoc, append-nil}
use hoike.Base.{
  sym, ◌∙◌, ℕ, ◌<◌, ◌≡◌, refl, List, [], ◌∷◌, ◌++◌, Option, none, some, arith, All, and_then,
  get_elem?, get_elem?-total, length, if◌then◌else◌, beq_bytes_iff, Bool-cases, inl, inr,
}
use hoike.Ahu.Manifest.{CaScope}
use hoike.Ahu.Bundle.{Bundle}
use hoike.Core.Request.{ParsedCertId}
use hoike.Core.Router.{
  ScopeKey, ScopeEntry, Entries, ScopeMap, LookupResult, beq_key, entries_of, push, key_of,
  register_scopes, register_bundle_scopes, cert_key, answer, make_result, collect_hits,
  first_result, lookup,
}

-- The answer of the first scope, in the order of registration, whose bundle has one.
abbrev pub first_answer : List Bundle → List ℕ → List ℕ → List ScopeEntry → Option LookupResult
first_answer bundles entry_key preferred [] = none
first_answer bundles entry_key preferred (e ∷ es) =
    let later = first_answer bundles entry_key preferred es in
    elim (get_elem? bundles e.bundle_idx) [
      | none ↦ later
      | some b ↦ elim (answer b entry_key preferred) [
        | none ↦ later
        | some bytes ↦ some (make_result e bytes b.manifest.window)
      ]
    ]

-- The bundle of every entry is loaded.
abbrev pub AreLoaded : List Bundle → List ScopeEntry → Type 0
AreLoaded bundles es = All (λ (e : ScopeEntry). e.bundle_idx < length bundles) es

collect_hits-first :
    (bundles : List Bundle) (k p : List ℕ) (es : List ScopeEntry)
    → AreLoaded bundles es
    → and_then (collect_hits bundles k p es) (λ hits. some (first_result hits))
      ≡ some (first_answer bundles k p es)
unfolding collect_hits
collect_hits-first bundles k p [] h = refl
collect_hits-first bundles k p (e ∷ es) h =
    let (b, g) = get_elem?-total bundles e.bundle_idx h.0 in
    ground (arith, g, collect_hits-first bundles k p es h.1)

-- Where the bundles of a key's entries are loaded, the lookup does not panic and answers from the
-- first of these entries, in the order of the configuration, whose bundle holds the certificate.
pub lookup-first_answer :
    (map : ScopeMap) (cert : ParsedCertId) (preferred : List ℕ) (es : List ScopeEntry)
    → entries_of map.entries (cert_key cert) ≡ some es
    → AreLoaded map.bundles es
    → lookup map cert preferred ≡ some (first_answer map.bundles cert.entry_key preferred es)
unfolding lookup
lookup-first_answer map cert preferred es e h =
    rw (e, lookup) (collect_hits-first map.bundles cert.entry_key preferred es h)

-- The entries that a key has, none where it is not registered.
abbrev pub routes : Entries → ScopeKey → List ScopeEntry
routes entries key = elim (entries_of entries key) [ some es ↦ es | none ↦ [] ]

-- One entry for every scope with the key.
abbrev pub registered : List CaScope → ScopeKey → ScopeEntry → List ScopeEntry
registered [] key e = []
registered (scope ∷ scopes) key e =
    let later = registered scopes key e in if beq_key (key_of scope) key then e ∷ later else later

routes-push :
    (entries : Entries) (k key : ScopeKey) (e : ScopeEntry)
    → routes (push entries k e) key
      ≡ (if beq_key k key then routes entries key ++ e ∷ [] else routes entries key)
unfolding push entries_of
routes-push [] k key e = ground arith
routes-push ((j, es) ∷ rest) k key e = ground (
  arith,
  routes-push rest k key e,
  beq_bytes_iff j.0 k.0,
  beq_bytes_iff j.1 k.1,
  beq_bytes_iff j.0 key.0,
  beq_bytes_iff j.1 key.1,
  beq_bytes_iff k.0 key.0,
  beq_bytes_iff k.1 key.1,
)

routes-register :
    (scopes : List CaScope) (e : ScopeEntry) (entries : Entries) (key : ScopeKey)
    → routes (register_scopes scopes e entries) key ≡ routes entries key ++ registered scopes key e
unfolding register_scopes
routes-register [] e entries key = sym (append-nil (routes entries key))
routes-register (scope ∷ scopes) e entries key = elim (Bool-cases (beq_key (key_of scope) key)) [
  | inl t ↦
      routes-register scopes e (push entries (key_of scope) e) key
      ∙ rw (routes-push entries (key_of scope) key e, t)
          (append_assoc (routes entries key) (e ∷ []) (registered scopes key e))
  | inr f ↦
      routes-register scopes e (push entries (key_of scope) e) key
      ∙ rw (routes-push entries (key_of scope) key e, f) refl
]

-- Registering a bundle appends, to the entries of every key, one entry for each of the bundle's scopes
-- with that key, and leaves the earlier entries in their places.
pub routes-register_bundle_scopes :
    (b : Bundle) (e : ScopeEntry) (entries : Entries) (key : ScopeKey)
    → routes (register_bundle_scopes b e entries) key
      ≡ routes entries key ++ registered b.manifest.ca_scopes key e
unfolding register_bundle_scopes
routes-register_bundle_scopes b e entries key = routes-register b.manifest.ca_scopes e entries key
