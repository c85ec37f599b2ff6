-- ===== src/Server/Access.antt =====
-- crates/hoike-server/src/admin/rbac.rs and the roles and sessions of state.rs: who may call the
-- administration interface. An `Instant` is a number, and a header that is no text counts as missing.
pub mod Sound
use hoike.Base.{
  ℕ, List, [], ◌∷◌, Bool, true, false, Option, none, some, Result, ok, err, ltb, leb, if◌then◌else◌,
  beq_bytes, and_then,
}
use hoike.Base.Assoc.{Assoc}
use hoike.Base.Assoc

pub data OperatorRole : Type 0 where
  administrator operator viewer : OperatorRole

unfoldable pub rank : OperatorRole → ℕ
rank viewer = 1
rank operator = 2
rank administrator = 3

unfoldable pub has_at_least : OperatorRole → OperatorRole → Bool
unfolding rank
has_at_least role minimum = leb (rank minimum) (rank role)

pub record Session : Type 0 where
  pub operator_name : List ℕ
  pub role : OperatorRole
  pub expires_at : ℕ

pub record Authenticated : Type 0 where
  pub operator_name : List ℕ
  pub role : OperatorRole

-- The statuses of the refusals.
pub data Refusal : Type 0 where
  unauthorized forbidden : Refusal

abbrev pub Sessions : Type 0
Sessions = Assoc Session

-- `strip_prefix`
abbrev strip_prefix : List ℕ → List ℕ → Option (List ℕ)
strip_prefix [] text = some text
strip_prefix (p ∷ ps) [] = none
strip_prefix (p ∷ ps) (t ∷ ts) = if beq_bytes (p ∷ []) (t ∷ []) then strip_prefix ps ts else none

-- "Bearer "
abbrev bearer : List ℕ
bearer = b'B' ∷ b'e' ∷ b'a' ∷ b'r' ∷ b'e' ∷ b'r' ∷ b' ' ∷ []

abbrev pub token_of : Option (List ℕ) → Option (List ℕ)
token_of authorization = and_then authorization (strip_prefix bearer)

unfoldable pub remove : List ℕ → Sessions → Sessions
remove token [] = []
remove token ((t, s) ∷ rest) =
    let later = remove token rest in if beq_bytes t token then later else (t, s) ∷ later

-- The answer, and the sessions afterwards: one that is found expired is taken out.
unfoldable pub from_request_parts :
    Sessions → Option (List ℕ) → ℕ → Result Refusal Authenticated × Sessions
unfolding remove
from_request_parts sessions authorization now = elim (token_of authorization) [
  | none ↦ (err unauthorized, sessions)
  | some token ↦ elim (Assoc.lookup token sessions) [
    | none ↦ (err unauthorized, sessions)
    | some session ↦
        if ltb session.expires_at now
        then (err unauthorized, remove token sessions)
        else (ok (record { operator_name = session.operator_name; role = session.role }), sessions)
  ]
]

unfoldable pub require_role : Authenticated → OperatorRole → Result Refusal (Unit {0})
unfolding has_at_least
require_role who minimum = if has_at_least who.role minimum then ok tt else err forbidden

-- A handler that asks for a role.
unfoldable pub authorize :
    Sessions → Option (List ℕ) → ℕ → OperatorRole → Result Refusal Authenticated × Sessions
unfolding from_request_parts require_role
authorize sessions authorization now minimum =
    let (answer, left) = from_request_parts sessions authorization now in
    elim answer [
      | err e ↦ (err e, left)
      | ok who ↦ elim (require_role who minimum) [ err e ↦ (err e, left) | ok _ ↦ (ok who, left) ]
    ]
