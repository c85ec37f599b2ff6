-- ===== src/Ahu/Ops.antt =====
-- crates/ahu/src/ops.rs: the difference of two bundles, and a base with a chain of deltas. A `BTreeMap`
-- is a list in the order of its keys, and a `HashSet` a list without repetitions, here in the order of
-- the index, since the order of its iteration is not specified.
pub mod Working
pub mod Apply
pub mod Ordered
pub mod Sealed
pub mod Diff
use hoike.Base.{
  ℕ, ◌+◌, ◌^◌, List, [], ◌∷◌, Bool, true, false, not, ◌&&◌, ◌||◌, Option, none, some, ok, err,
  ok_or, guard, ◌>>=◌, ◌>>◌, Ordering, is_eq, if◌then◌else◌, ltb, leb, length, beq_bytes, and_then,
  min, map,
}
use hoike.Ahu.Error.{AhuResult, invalid_operation}
use hoike.Ahu.Wire.{Codec, IndexFlags}
use hoike.Ahu.Cbor.{Cbor}
use hoike.Ahu.Index.{
  IndexRecord, EntryName, name_of, cmp_name, is_tombstone, binary_search_with_discriminator,
}
use hoike.Ahu.Manifest.{Manifest, CaScope, Window, full}
use hoike.Ahu.Bundle.{Bundle, entry_bytes, entry_at}
use hoike.Ahu.Build.{Builder, new_builder, add_entry_with_discriminator, build}
use hoike.Ahu.Verify.{verify_structure, manifest_digest, is_delta}

-- An `EntryRef` is a name.
pub record DiffResult : Type 0 where
  pub a_entry_count : ℕ
  pub b_entry_count : ℕ
  pub a_epochs : List ℕ
  pub b_epochs : List ℕ
  pub added : List EntryName
  pub removed : List EntryName
  pub changed : List EntryName
  pub unchanged : ℕ

abbrev pub beq_name : EntryName → EntryName → Bool
beq_name m n = is_eq (cmp_name m n)

abbrev pub contains : List EntryName → EntryName → Bool
contains [] n = false
contains (m ∷ ms) n = beq_name m n || contains ms n

-- The set of the names of an index.
abbrev pub keys_of : List IndexRecord → List EntryName
keys_of [] = []
keys_of (r ∷ rs) =
    let rest = keys_of rs in if contains rest (name_of r) then rest else name_of r ∷ rest

abbrev pub difference : List EntryName → List EntryName → List EntryName
difference [] other = []
difference (n ∷ ns) other =
    let rest = difference ns other in if contains other n then rest else n ∷ rest

abbrev pub intersection : List EntryName → List EntryName → List EntryName
intersection [] other = []
intersection (n ∷ ns) other =
    let rest = intersection ns other in if contains other n then n ∷ rest else rest

abbrev pub data_of : Bundle → EntryName → Option (List ℕ)
data_of b n = and_then (binary_search_with_discriminator b.index n.0 n.1) (entry_at b)

abbrev pub same_data : Option (List ℕ) → Option (List ℕ) → Bool
same_data none none = true
same_data (some x) (some y) = beq_bytes x y
same_data none (some y) = false
same_data (some x) none = false

-- The loop over the common names.
abbrev pub compare_data : Bundle → Bundle → List EntryName → List EntryName × ℕ
compare_data a b [] = ([], 0)
compare_data a b (n ∷ ns) =
    let (changed, unchanged) = compare_data a b ns in
    if same_data (data_of a n) (data_of b n)
    then (changed, unchanged + 1)
    else (n ∷ changed, unchanged)

abbrev epochs_of : List CaScope → List ℕ
epochs_of [] = []
epochs_of (s ∷ ss) = s.epoch ∷ epochs_of ss

unfoldable pub diff : Bundle → Bundle → DiffResult
diff a b =
    let a_keys = keys_of a.index in
    let b_keys = keys_of b.index in
    let (changed, unchanged) = compare_data a b (intersection a_keys b_keys) in
    record {
      a_entry_count = length a.index;
      b_entry_count = length b.index;
      a_epochs = epochs_of a.manifest.ca_scopes;
      b_epochs = epochs_of b.manifest.ca_scopes;
      added = difference b_keys a_keys;
      removed = difference a_keys b_keys;
      changed = changed;
      unchanged = unchanged;
    }

-- A payload with its flags and the validity window of the bundle it came from.
pub record Retained : Type 0 where
  pub payload : List ℕ
  pub flags : IndexFlags
  pub window : Window

abbrev pub WorkingSet : Type 0
WorkingSet = List (EntryName × Retained)

unfoldable pub insert : EntryName → Retained → WorkingSet → WorkingSet
insert n v [] = (n, v) ∷ []
insert n v ((m, w) ∷ rest) =
    let later = insert n v rest in
    elim (cmp_name n m) [
      | Ordering.lt ↦ (n, v) ∷ (m, w) ∷ rest
      | Ordering.eq ↦ (n, v) ∷ rest
      | Ordering.gt ↦ (m, w) ∷ later
    ]

unfoldable pub remove : EntryName → WorkingSet → WorkingSet
remove n [] = []
remove n ((m, w) ∷ rest) =
    let later = remove n rest in if beq_name m n then later else (m, w) ∷ later

unfoldable pub get : EntryName → WorkingSet → Option Retained
get n [] = none
get n ((m, w) ∷ rest) = let later = get n rest in if beq_name m n then some w else later

-- `for record in &base.index`
unfoldable pub retain_base : Bundle → WorkingSet → List IndexRecord → WorkingSet
unfolding insert
retain_base b ws [] = ws
retain_base b ws (r ∷ rs) = elim (entry_bytes b r) [
  | none ↦ retain_base b ws rs
  | some bytes ↦
      retain_base b
        (insert (name_of r)
          (record { payload = bytes; flags = r.flags; window = b.manifest.window }) ws)
        rs
]

-- What one record of a delta does to the working set.
unfoldable pub apply_record : Bundle → WorkingSet → IndexRecord → WorkingSet
unfolding insert remove
apply_record b ws r = if r.flags.tombstone then remove (name_of r) ws else elim (entry_bytes b r) [
  | none ↦ ws
  | some bytes ↦
      insert (name_of r) (record { payload = bytes; flags = r.flags; window = b.manifest.window })
        ws
]

abbrev is_present : Option Retained → Bool
is_present none = false
is_present (some _) = true

-- The counters of the loop: added, replaced, removed.
abbrev pub count_record : Bundle → WorkingSet → IndexRecord → ℕ × ℕ × ℕ → ℕ × ℕ × ℕ
count_record b ws r (added, replaced, removed) =
    let present = is_present (get (name_of r) ws) in
    if r.flags.tombstone
    then (added, replaced, if present then removed + 1 else removed)
    else elim (entry_bytes b r) [
      | none ↦ (added, replaced, removed)
      | some _ ↦ if present then (added, replaced + 1, removed) else (added + 1, replaced, removed)
    ]

unfoldable pub apply_records :
    Bundle → WorkingSet → ℕ × ℕ × ℕ → List IndexRecord → WorkingSet × ℕ × ℕ × ℕ
unfolding apply_record
apply_records b ws counts [] = (ws, counts.0, counts.1, counts.2)
apply_records b ws counts (r ∷ rs) =
    apply_records b (apply_record b ws r) (count_record b ws r counts) rs
