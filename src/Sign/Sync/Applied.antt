-- ===== src/Sign/Sync/Applied.antt =====
-- What an entry of a refresh does to the records of crates/hoike-sign/src/dogtag_sync.rs.
use hoike.Base.{
  ℕ, ◌≡◌, refl, List, [], ◌∷◌, Option, none, ok, arith, beq_bytes, beq_bytes_iff, length, ◌==◌,
  guard-ok, bind-ok, ok_or, if◌then◌else◌,
}
use hoike.Base.Assoc.{Assoc, lookup, lookup-insert}
use hoike.Sign.Error.{config}
use hoike.Sign.Sync.{
  StoredRecord, Checkpoint, SyncState, EntryState, present, add, modify, delete, remove_record,
  apply_entry,
}

lookup-remove_record :
    (k j : List ℕ) (m : Assoc StoredRecord)
    → lookup j (remove_record k m) ≡ (if beq_bytes k j then none else lookup j m)
unfolding lookup remove_record
lookup-remove_record k j [] = ground arith
lookup-remove_record k j ((i, w) ∷ m) =
    ground
      (arith, beq_bytes_iff k j, beq_bytes_iff i k, beq_bytes_iff i j, lookup-remove_record k j m)

-- The record under the entry's own UUID.
abbrev pub after : EntryState → Option StoredRecord → Option StoredRecord → Option StoredRecord
after delete parsed old = none
after present parsed old = old
after add parsed old = parsed
after modify parsed old = parsed

abbrev pub names : EntryState → List ℕ → List (List ℕ) → List (List ℕ)
names delete id named = named
names present id named = id ∷ named
names add id named = id ∷ named
names modify id named = id ∷ named

pub record IsApplied (id : List ℕ) (s : SyncState) (parsed : Option StoredRecord)
    (c c' : Checkpoint) (named named' : List (List ℕ)) : Type 0 where
  pub has_uuid : length s.entry_uuid ≡ 16
  pub lookups :
      (j : List ℕ)
      → lookup j c'.records
        ≡ (if beq_bytes id j then after s.state parsed (lookup j c.records) else lookup j c.records)
  pub is_named : named' ≡ names s.state id named

lookup_same :
    (id j : List ℕ) (m : Assoc StoredRecord)
    → lookup j m ≡ (if beq_bytes id j then lookup j m else lookup j m)
lookup_same id j m = ground arith

by_state :
    (hex_encode : List ℕ → List ℕ) (c c' : Checkpoint) (named named' : List (List ℕ))
    (s : SyncState) (parsed : Option StoredRecord)
    → apply_entry hex_encode c named s parsed ≡ ok (c', named')
    → (state : EntryState) → s.state ≡ state
    → IsApplied (hex_encode s.entry_uuid) s parsed c c' named named'
unfolding apply_entry
by_state hex_encode c c' named named' s parsed h delete e =
    let (sized, rest) = guard-ok (length s.entry_uuid == 16) config _ (c', named') h in
    let made = rw e at rest in
    record {
      has_uuid = ground arith;
      lookups = λ j. ground (arith, e, lookup-remove_record (hex_encode s.entry_uuid) j c.records);
      is_named = ground (arith, e);
    }
by_state hex_encode c c' named named' s parsed h present e =
    let (sized, rest) = guard-ok (length s.entry_uuid == 16) config _ (c', named') h in
    let (r, found, made) =
      bind-ok (ok_or (lookup (hex_encode s.entry_uuid) c.records) config) _ (c', named')
        (rw e at rest) in
    record {
      has_uuid = ground arith;
      lookups = λ j. ground (arith, e, lookup_same (hex_encode s.entry_uuid) j c.records);
      is_named = ground (arith, e);
    }
by_state hex_encode c c' named named' s parsed h add e =
    let (sized, rest) = guard-ok (length s.entry_uuid == 16) config _ (c', named') h in
    let (r, found, made) = bind-ok (ok_or parsed config) _ (c', named') (rw e at rest) in
    record {
      has_uuid = ground arith;
      lookups = λ j. ground (arith, e, lookup-insert (hex_encode s.entry_uuid) j r c.records);
      is_named = ground (arith, e);
    }
by_state hex_encode c c' named named' s parsed h modify e =
    let (sized, rest) = guard-ok (length s.entry_uuid == 16) config _ (c', named') h in
    let (r, found, made) = bind-ok (ok_or parsed config) _ (c', named') (rw e at rest) in
    record {
      has_uuid = ground arith;
      lookups = λ j. ground (arith, e, lookup-insert (hex_encode s.entry_uuid) j r c.records);
      is_named = ground (arith, e);
    }

-- An entry that is accepted changes the record under its own UUID alone: it is gone, as it was, or the one
-- that was parsed. All but a deletion count as named.
pub apply_entry-IsApplied :
    (hex_encode : List ℕ → List ℕ) (c c' : Checkpoint) (named named' : List (List ℕ))
    (s : SyncState) (parsed : Option StoredRecord)
    → apply_entry hex_encode c named s parsed ≡ ok (c', named')
    → IsApplied (hex_encode s.entry_uuid) s parsed c c' named named'
apply_entry-IsApplied hex_encode c c' named named' s parsed h =
    by_state hex_encode c c' named named' s parsed h s.state refl
