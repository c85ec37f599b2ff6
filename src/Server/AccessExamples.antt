-- ===== src/Server/AccessExamples.antt =====
-- The theorems on the access to the administration interface at a concrete session.
use hoike.Base.{ℕ, ◌≡◌, refl, List, [], ◌∷◌, none, some, ok, err, arith, cmp_bytes, Option}
use hoike.Base.Assoc
use hoike.Server.Access.{
  Session, Sessions, Authenticated, operator, viewer, rank, has_at_least, require_role,
  from_request_parts, authorize,
}
use hoike.Server.Access.Sound.{IsAllowed, authorize-IsAllowed}

abbrev session : Session
session = record { operator_name = 97 ∷ []; role = operator; expires_at = 100 }

abbrev sessions : Sessions
sessions = (116 ∷ [], session) ∷ []

-- "Bearer t"
abbrev header : Option (List ℕ)
header = some (b'B' ∷ b'e' ∷ b'a' ∷ b'r' ∷ b'e' ∷ b'r' ∷ b' ' ∷ b't' ∷ [])

abbrev who : Authenticated
who = record { operator_name = 97 ∷ []; role = operator }

let_in : (authorize sessions header 90 viewer).0 ≡ ok who
unfolding authorize from_request_parts require_role has_at_least rank hoike.Base.Assoc.lookup
    cmp_bytes
let_in = refl

authorize-IsAllowed_example : IsAllowed sessions header 90 viewer who
authorize-IsAllowed_example = authorize-IsAllowed sessions header 90 viewer who let_in

found : Assoc.lookup (116 ∷ []) sessions ≡ some session
unfolding hoike.Base.Assoc.lookup cmp_bytes
found = refl
