-- ===== src/Server/Access/Sound.antt =====
-- The conditions under which crates/hoike-server/src/admin/rbac.rs lets an operator in.
use hoike.Base.{
  ℕ, ◌≤◌, ◌<◌, ◌≡◌, refl, List, [], ◌∷◌, Bool, true, false, Option, none, some, Result, ok, err,
  arith, Option-cases, Result-cases, Bool-cases, inl, inr, beq_bytes, beq_bytes_iff, ltb,
}
use hoike.Base.Assoc
use hoike.Server.Access.{
  OperatorRole, rank, has_at_least, Session, Sessions, Authenticated, unauthorized, token_of,
  remove, from_request_parts, require_role, authorize,
}

-- What stands behind an operator that is let in.
pub record IsAllowed (sessions : Sessions) (authorization : Option (List ℕ)) (now : ℕ)
    (minimum : OperatorRole) (who : Authenticated) : Type 0 where
  pub token : List ℕ
  pub session : Session
  pub presented : token_of authorization ≡ some token
  pub known : Assoc.lookup token sessions ≡ some session
  pub alive : now ≤ session.expires_at
  pub name : who.operator_name ≡ session.operator_name
  pub enough : rank minimum ≤ rank session.role

lookup-remove : (token : List ℕ) (s : Sessions) → Assoc.lookup token (remove token s) ≡ none
unfolding hoike.Base.Assoc.lookup remove
lookup-remove token [] = refl
lookup-remove token ((t, x) ∷ rest) = ground (arith, lookup-remove token rest)

-- A handler that asks for a role lets an operator in only by the token of a session that has not
-- expired and whose role has at least the rank of the role that is asked for.
pub authorize-IsAllowed :
    (sessions : Sessions) (authorization : Option (List ℕ)) (now : ℕ) (minimum : OperatorRole)
    (who : Authenticated)
    → (authorize sessions authorization now minimum).0 ≡ ok who
    → IsAllowed sessions authorization now minimum who
unfolding authorize from_request_parts require_role has_at_least
authorize-IsAllowed sessions authorization now minimum who h =
    elim (Option-cases (token_of authorization)) [
      | inl e ↦ absurd (ground arith)
      | inr (token, e) ↦ elim (Option-cases (Assoc.lookup token sessions)) [
        | inl f ↦ absurd (ground arith)
        | inr (session, f) ↦ elim (Bool-cases (ltb session.expires_at now)) [
          | inl late ↦ absurd (ground arith)
          | inr live ↦ record {
            token = token;
            session = session;
            presented = e;
            known = f;
            alive = ground arith;
            name = ground arith;
            enough = ground arith;
          }
        ]
      ]
    ]

-- A session that is presented after its expiry is refused, and its token names no session afterwards.
pub authorize-expired :
    (sessions : Sessions) (authorization : Option (List ℕ)) (now : ℕ) (minimum : OperatorRole)
    (token : List ℕ) (session : Session)
    → token_of authorization ≡ some token
    → Assoc.lookup token sessions ≡ some session
    → session.expires_at < now
    → ((authorize sessions authorization now minimum).0 ≡ err unauthorized)
      × (Assoc.lookup token (authorize sessions authorization now minimum).1 ≡ none)
unfolding authorize from_request_parts
authorize-expired sessions authorization now minimum token session e f late =
    (ground arith, ground (arith, lookup-remove token sessions))
