-- ===== src/Core/State/Persist.antt =====
-- Snapshots of bundles and the commit of a transaction, of crates/hoike-core/src/state.rs.
use hoike.Base.{
  ℕ, List, [], ◌∷◌, ◌++◌, Bool, true, false, not, ◌&&◌, ◌||◌, Option, none, some, ok, leb, ◌==◌,
  if◌then◌else◌, beq_bytes, length, take, drop,
}
use hoike.Base.Assoc.{Assoc, insert}
use hoike.Ahu.Wire.{Codec}
use hoike.Ahu.Bundle.{Bundle, to_bytes}
use hoike.Core.Error.{from_ahu}
use hoike.Core.Storage.{
  FilePath, Disk, Exec, ◌>>=◌, ◌>>◌, pure, lift, write_atomic, beq_path, create_dir_all, parent,
}
use hoike.Core.State.{StateStore, Deps, persist}

-- "generations"
abbrev pub generations_name : List ℕ
generations_name = b'g' ∷ b'e' ∷ b'n' ∷ b'e' ∷ b'r' ∷ b'a' ∷ b't' ∷ b'i' ∷ b'o' ∷ b'n' ∷ b's' ∷ []

-- `self.path.parent().unwrap_or(".")` and the directory of the snapshots in it
abbrev pub generations : FilePath → FilePath
generations path =
    (elim (parent path) [ some dir ↦ dir | none ↦ (b'.' ∷ []) ∷ [] ]) ++ generations_name ∷ []

-- ".ahu"
abbrev pub ahu_suffix : List ℕ
ahu_suffix = b'.' ∷ b'a' ∷ b'h' ∷ b'u' ∷ []

abbrev is_hex_digit : ℕ → Bool
is_hex_digit b =
    (leb b'0' b && leb b b'9') || (leb b'a' b && leb b b'f') || (leb b'A' b && leb b b'F')

abbrev all_hex : List ℕ → Bool
all_hex [] = true
all_hex (b ∷ bs) = is_hex_digit b && all_hex bs

-- A file name of 64 hexadecimal digits and the extension `ahu`.
abbrev is_generation_name : List ℕ → Bool
is_generation_name name =
    length name == 68 && beq_bytes (drop 64 name) ahu_suffix && all_hex (take 64 name)

-- A path that lies in a directory, by its name there.
abbrev pub name_in : FilePath → FilePath → Option (List ℕ)
name_in [] (name ∷ []) = some name
name_in (a ∷ dir) (b ∷ path) = if beq_bytes a b then name_in dir path else none
name_in _ _ = none

-- `active_bundles.values().any(|active| active == path)`
abbrev pub is_active : Assoc FilePath → FilePath → Bool
is_active [] path = false
is_active ((label, active) ∷ rest) path = beq_path active path || is_active rest path

abbrev pub is_generation : FilePath → FilePath → Bool
is_generation dir path = elim (name_in dir path) [
  | some name ↦ is_generation_name name
  | none ↦ false
]

-- The removal of the snapshots that the committed state does not name. A file that cannot be removed
-- stays.
unfoldable pub collect : FilePath → Assoc FilePath → Disk → Disk
collect dir active d = record d {
  files = λ path.
      if is_generation dir path && not (is_active active path) && d.removable path
      then none
      else d.files path;
}

module _ (deps : Deps) where
  open deps use {sha256, hex_encode}

  -- The name of a bundle's snapshot.
  abbrev pub snapshot_path : FilePath → List ℕ → FilePath
  snapshot_path path bytes = generations path ++ (hex_encode (sha256 bytes) ++ ahu_suffix) ∷ []

  -- `!path.exists() || read(path) != bytes`
  abbrev pub differs : Option (List ℕ) → List ℕ → Bool
  differs none bytes = true
  differs (some found) bytes = not (beq_bytes found bytes)

  unfoldable pub write_if_different : FilePath → List ℕ → Exec (Unit {0})
  write_if_different path bytes d =
      if differs (d.files path) bytes then write_atomic path bytes d else (ok tt, d)

  -- The bundle's bytes under their digest.
  unfoldable pub write_snapshot : Codec → FilePath → Bundle → Exec FilePath
  unfolding write_if_different
  write_snapshot c path b = do
    bytes ← lift (from_ahu (to_bytes c b))
    create_dir_all (generations path)
    write_if_different (snapshot_path path bytes) bytes
    pure (snapshot_path path bytes)

  abbrev pub activate : StateStore → List ℕ → FilePath → StateStore
  activate s label path = record s {
    state = record (s.state) { active_bundles = insert label path s.state.active_bundles };
  }

  unfoldable pub snapshot : Codec → StateStore → List ℕ → Bundle → Exec StateStore
  unfolding write_snapshot
  snapshot c s label b = do path ← write_snapshot c s.path b; pure (activate s label path)

  -- Only once the descriptor is durable are the old snapshots removed.
  unfoldable pub commit : StateStore → StateStore → Exec StateStore
  unfolding persist collect
  commit s candidate = do
    persist deps candidate
    (λ d. (
      ok (record s { state = candidate.state }),
      collect (generations s.path) candidate.state.active_bundles d,
    ))
