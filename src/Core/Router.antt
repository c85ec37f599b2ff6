-- ===== src/Core/Router.antt =====
-- crates/hoike-core/src/router.rs: the scopes of the loaded bundles and the lookup by CertID. The f64
-- `max_age_fraction` is only handed on and stands for its bits.
pub mod Lookup
use hoike.Base.{
  ℕ, List, [], ◌∷◌, ◌++◌, Bool, true, false, ◌&&◌, Option, none, some, and_then, get_elem?,
  if◌then◌else◌, beq_bytes,
}
use hoike.Ahu.Manifest.{CaScope, Window}
use hoike.Ahu.Bundle
use hoike.Ahu.Bundle.{Bundle}
use hoike.Core.Config.{is_empty}
use hoike.Core.Request.{ParsedCertId}

-- issuerNameHash and issuerKeyHash
abbrev pub ScopeKey : Type 0
ScopeKey = List ℕ × List ℕ

pub record ScopeEntry : Type 0 where
  pub bundle_idx : ℕ
  pub ca_label : List ℕ
  pub nonce_policy : List ℕ
  pub completeness : List ℕ
  pub forward_to : Option (List ℕ)
  pub max_age_fraction : ℕ

-- The map from keys to the entries in the order of their registration.
abbrev pub Entries : Type 0
Entries = List (ScopeKey × List ScopeEntry)

pub record ScopeMap : Type 0 where
  pub entries : Entries
  pub bundles : List Bundle

pub record LookupResult : Type 0 where
  pub response_bytes : List ℕ
  pub window : Window
  pub ca_label : List ℕ
  pub nonce_policy : List ℕ
  pub forward_to : Option (List ℕ)
  pub max_age_fraction : ℕ

abbrev pub beq_key : ScopeKey → ScopeKey → Bool
beq_key a b = beq_bytes a.0 b.0 && beq_bytes a.1 b.1

unfoldable pub entries_of : Entries → ScopeKey → Option (List ScopeEntry)
entries_of [] key = none
entries_of ((k, es) ∷ rest) key = if beq_key k key then some es else entries_of rest key

-- `entries.entry(key).or_default().push(entry)`
unfoldable pub push : Entries → ScopeKey → ScopeEntry → Entries
push [] key e = (key, e ∷ []) ∷ []
push ((k, es) ∷ rest) key e =
    if beq_key k key then (k, es ++ e ∷ []) ∷ rest else (k, es) ∷ push rest key e

abbrev pub key_of : CaScope → ScopeKey
key_of scope = (scope.issuer_name_hash, scope.issuer_key_hash)

register_scopes : List CaScope → ScopeEntry → Entries → Entries
unfolding push
register_scopes [] e entries = entries
register_scopes (scope ∷ scopes) e entries =
    register_scopes scopes e (push entries (key_of scope) e)

-- Every scope of the bundle gets the same entry.
pub register_bundle_scopes : Bundle → ScopeEntry → Entries → Entries
unfolding register_scopes
register_bundle_scopes b e entries = register_scopes b.manifest.ca_scopes e entries

abbrev pub cert_key : ParsedCertId → ScopeKey
cert_key cert = (cert.issuer_name_hash, cert.issuer_key_hash)

-- "authoritative-complete"
abbrev authoritative_complete : List ℕ
authoritative_complete =
    b'a' ∷ b'u' ∷ b't' ∷ b'h' ∷ b'o' ∷ b'r' ∷ b'i' ∷ b't' ∷ b'a' ∷ b't' ∷ b'i' ∷ b'v' ∷ b'e' ∷ b'-'
    ∷ b'c' ∷ b'o' ∷ b'm' ∷ b'p' ∷ b'l' ∷ b'e' ∷ b't' ∷ b'e' ∷ []

abbrev first {ℓ} : {A : Type ℓ} → List A → Option A
first [] = none
first (x ∷ xs) = some x

unfoldable pub scope_for_certid : ScopeMap → ParsedCertId → Option (List ℕ × Bool × Option (List ℕ))
scope_for_certid map cert = and_then (entries_of map.entries (cert_key cert)) λ es.
    and_then (first es)
      λ e. some (e.ca_label, beq_bytes e.completeness authoritative_complete, e.forward_to)

-- What one bundle answers.
abbrev pub answer : Bundle → List ℕ → List ℕ → Option (List ℕ)
answer b entry_key preferred =
    if is_empty preferred
    then Bundle.lookup b entry_key
    else Bundle.lookup_preferred b entry_key preferred

abbrev pub make_result : ScopeEntry → List ℕ → Window → LookupResult
make_result e response_bytes window = record {
  response_bytes = response_bytes;
  window = window;
  ca_label = e.ca_label;
  nonce_policy = e.nonce_policy;
  forward_to = e.forward_to;
  max_age_fraction = e.max_age_fraction;
}

-- The loop that collects the hits; none is the panic on a bundle index out of range.
unfoldable pub collect_hits :
    List Bundle → List ℕ → List ℕ → List ScopeEntry → Option (List (ScopeEntry × List ℕ × Window))
collect_hits bundles entry_key preferred [] = some []
collect_hits bundles entry_key preferred (e ∷ es) =
    let later = collect_hits bundles entry_key preferred es in
    and_then (get_elem? bundles e.bundle_idx) λ b. and_then later λ hits.
      elim (answer b entry_key preferred) [
        | none ↦ some hits
        | some bytes ↦ some ((e, bytes, b.manifest.window) ∷ hits)
      ]

abbrev first_result : List (ScopeEntry × List ℕ × Window) → Option LookupResult
first_result [] = none
first_result ((e, bytes, window) ∷ hits) = some (make_result e bytes window)

-- The outer option is none where the source panics.
unfoldable pub lookup : ScopeMap → ParsedCertId → List ℕ → Option (Option LookupResult)
unfolding collect_hits
lookup map cert preferred = elim (entries_of map.entries (cert_key cert)) [
  | none ↦ some none
  | some es ↦
      and_then (collect_hits map.bundles cert.entry_key preferred es)
        λ hits. some (first_result hits)
]
