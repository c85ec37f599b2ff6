-- ===== src/Core/StateExamples.antt =====
-- The theorem on opening a state file, at a state with one snapshot.
use hoike.Base.{ℕ, ◌≡◌, refl, List, [], ◌∷◌, Option, some, ok, arith, All, cmp_bytes, false}
use hoike.Base.Assoc.{lookup}
use hoike.Ahu.Samples.{big_endian, cbor_of, manifest_at, repeat_byte}
use hoike.Ahu.Examples.{sample_file, sample_read}
use hoike.Core.Storage.{FilePath}
use hoike.Core.State.{StateStore, PersistedState, Deps, make_key}
use hoike.Core.State.Open.{
  check_digests, check_marks, check_scopes, check_snapshot, check_snapshots, validate_persisted,
  open_store,
}
use hoike.Core.State.Open.Consistent.{IsRecovered, open_store-All}

abbrev snapshot_file : FilePath
snapshot_file = (1 ∷ b'.' ∷ b'a' ∷ b'h' ∷ b'u' ∷ []) ∷ []

abbrev recorded : PersistedState
recorded = record {
  high_water_marks = (make_key (116 ∷ []) (repeat_byte 32 187), 7) ∷ [];
  manifest_digests = (make_key (116 ∷ []) (repeat_byte 32 187), repeat_byte 32 0) ∷ [];
  active_bundles = (97 ∷ [], snapshot_file) ∷ [];
}

-- One state, one digest, and hexadecimal that stands for itself.
abbrev state_deps : Deps
state_deps = record {
  sha256 = λ b. 1 ∷ [];
  hex_encode = λ b. b;
  hex_decode = some;
  to_json = λ s. 123 ∷ 125 ∷ [];
  from_json = λ b. some recorded;
  hex_round_trip = λ b. refl;
}

abbrev state_files : FilePath → Option (List ℕ)
state_files path = some (sample_file 7)

abbrev opened : StateStore
opened = record { path = (115 ∷ []) ∷ []; state = recorded; staged = false }

sample_opened :
    open_store state_deps big_endian (cbor_of (manifest_at 7)) state_files ((115 ∷ []) ∷ [])
    ≡ ok opened
unfolding open_store validate_persisted check_digests check_marks check_snapshots check_snapshot
    check_scopes lookup cmp_bytes
sample_opened = ground (arith, sample_read)

open_store-All_example :
    All
      (λ (entry : List ℕ × FilePath).
        IsRecovered state_deps big_endian
          (cbor_of (manifest_at 7))
          state_files
          recorded.high_water_marks
          entry.1)
      recorded.active_bundles
open_store-All_example =
    open_store-All state_deps big_endian (cbor_of (manifest_at 7)) state_files ((115 ∷ []) ∷ [])
      opened sample_opened
