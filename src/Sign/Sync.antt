-- ===== src/Sign/Sync.antt =====
-- The checkpoint of crates/hoike-sign/src/dogtag_sync.rs: the records of a directory, by the hexadecimal form of
-- their UUID, as the entries of an RFC 4533 refresh change them. `present` are the UUIDs that the refresh named.
pub mod Applied
pub mod Finished
use hoike.Base.{
  ℕ, List, [], ◌∷◌, Bool, true, false, not, Option, none, some, ok, err, ok_or, guard, ◌>>=◌, ◌>>◌,
  length, ◌==◌, beq_bytes, if◌then◌else◌,
}
use hoike.Base.Assoc.{Assoc, lookup, insert}
use hoike.Sign.Error.{SignResult, config}

pub record StoredRecord : Type 0 where
  pub serial : List ℕ
  pub revoked : Option (ℕ × Option ℕ)
  pub excluded : Bool
  pub not_after : Option ℕ

pub record Checkpoint : Type 0 where
  pub version : ℕ
  pub binding : List ℕ
  pub cookie : Option (List ℕ)
  pub records : Assoc StoredRecord
  pub complete : Bool

-- The Sync State control of ldap3.
pub data EntryState : Type 0 where
  present add modify delete : EntryState

pub record SyncState : Type 0 where
  pub state : EntryState
  pub entry_uuid : List ℕ
  pub cookie : Option (List ℕ)

unfoldable pub is_member : List ℕ → List (List ℕ) → Bool
is_member x [] = false
is_member x (y ∷ ys) = if beq_bytes y x then true else is_member x ys

-- `BTreeMap::remove`
unfoldable pub remove_record : List ℕ → Assoc StoredRecord → Assoc StoredRecord
remove_record id [] = []
remove_record id ((j, r) ∷ m) =
    let rest = remove_record id m in if beq_bytes j id then rest else (j, r) ∷ rest

-- `retain(|id, _| present.contains(id))`
unfoldable pub retain_named : List (List ℕ) → Assoc StoredRecord → Assoc StoredRecord
unfolding is_member
retain_named named [] = []
retain_named named ((j, r) ∷ m) =
    let rest = retain_named named m in if is_member j named then (j, r) ∷ rest else rest

abbrev pub or_current : Option (List ℕ) → Option (List ℕ) → Option (List ℕ)
or_current none current = current
or_current (some cookie) current = some cookie

unfoldable pub apply_entry :
    (List ℕ → List ℕ)
    → Checkpoint
    → List (List ℕ)
    → SyncState
    → Option StoredRecord
    → SignResult (Checkpoint × List (List ℕ))
unfolding remove_record
apply_entry hex_encode c named s parsed = do
  guard (length s.entry_uuid == 16) config
  let id = hex_encode s.entry_uuid
  let c' = record c { cookie = or_current s.cookie c.cookie }
  elim s.state [
    | delete ↦ ok (record c' { records = remove_record id c.records }, named)
    | present ↦ do known ← ok_or (lookup id c.records) config; ok (c', id ∷ named)
    | add ↦ do
      r ← ok_or parsed config
      ok (record c' { records = insert id r c.records }, id ∷ named)
    | modify ↦ do
      r ← ok_or parsed config
      ok (record c' { records = insert id r c.records }, id ∷ named)
  ]

-- Whether every serial is new to the set.
unfoldable pub all_new : List (List ℕ) → Assoc StoredRecord → Bool
unfolding is_member
all_new seen [] = true
all_new seen ((j, r) ∷ m) =
    let rest = all_new (r.serial ∷ seen) m in if is_member r.serial seen then false else rest

unfoldable pub finish : Checkpoint → List (List ℕ) → Bool → SignResult Checkpoint
unfolding retain_named all_new
finish c named refresh_deletes = do
  let kept = if refresh_deletes then c.records else retain_named named c.records
  guard (all_new [] kept) config
  ok (record c { records = kept; complete = true })
