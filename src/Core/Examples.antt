-- ===== src/Core/Examples.antt =====
-- The theorems on crates/hoike-core at concrete inputs.
use hoike.Base.{
  ℕ, ◌≡◌, ◌≢◌, ◌↔◌, refl, List, [], ◌∷◌, true, none, cmp_bytes, some, ok, err, Option, ◌⊎◌, arith,
  All,
}
use hoike.Base.Assoc.{lookup, insert}
use hoike.Ahu.Samples.{
  checksum, zero_digest, big_endian, cbor_of, manifest_at, bundle_at, scope_at, repeat_byte,
}
use hoike.Core.Storage.{Disk, FilePath, done, fails, replace, write_atomic}
use hoike.Core.State.{
  persist, StateStore, Deps, default_state, make_key, advance, advance_scopes, advance_from_bundle,
  check_rollback,
}
use hoike.Ahu.Error.{seal_invalid}
use hoike.Ahu.Examples.{sample_file, sample_written, sample_accepted}
use hoike.Ahu.Verify.Sound.{IsVerified}
use hoike.Core.Error.{io, config, durability_uncertain}
use hoike.Core.Config.{Config, StorageConfig}
use hoike.Core.Samples.{plain_ca, config_with}
use hoike.Core.Admission.{
  Authority, authenticated, admit_bundle, validate_serving_profile, authenticate_bundle,
  verify_structure, verify_seal, read_certs,
}
use hoike.Core.Admission.Policy.{IsServable, Earned, admit_bundle_sound}
use hoike.Core.State.Persist.{snapshot_path, snapshot, write_snapshot, write_if_different, commit}
use hoike.Core.Prepare.{prepare}
use hoike.Core.Install.{install_store, install_bundle}
use hoike.Core.Install.Commit.{install_store-err}
use hoike.Core.State.Rollback.{LetIn, check_rollback_iff, check_rollback-advance_from_bundle}

-- Hexadecimal stands for itself here, and a state has one serialisation.
abbrev deps : Deps
deps = record {
  sha256 = checksum;
  hex_encode = λ b. b;
  hex_decode = some;
  to_json = λ s. 123 ∷ 125 ∷ [];
  from_json = λ b. none;
  hex_round_trip = λ b. refl;
}

abbrev state_path : FilePath
state_path = (115 ∷ []) ∷ []

abbrev fresh : StateStore
fresh = record { path = state_path; state = default_state; staged = true }

abbrev disk : Disk
disk = record { files = λ p. none; outcomes = []; creatable = λ p. true; removable = λ p. true }

abbrev sample_key : List ℕ
sample_key = make_key (116 ∷ []) (repeat_byte 32 187)

-- The store after the sample bundle at epoch 7.
abbrev at_seven : StateStore
at_seven = record fresh {
  state = record {
    high_water_marks = (sample_key, 7) ∷ [];
    manifest_digests = (sample_key, checksum (161 ∷ 162 ∷ [])) ∷ [];
    active_bundles = [];
  };
}

seven_advanced : advance_from_bundle deps fresh (bundle_at 7) disk ≡ (ok at_seven, disk)
unfolding advance_from_bundle advance_scopes advance lookup insert cmp_bytes
seven_advanced = refl

nine_advanced :
    (t : StateStore) × (advance_from_bundle deps at_seven (bundle_at 9) disk ≡ (ok t, disk))
unfolding advance_from_bundle advance_scopes advance lookup insert cmp_bytes
nine_advanced = (_, refl)

check_rollback_iff_example :
    (check_rollback deps at_seven (bundle_at 9) ≡ ok tt)
    ↔ All (LetIn deps at_seven (116 ∷ []) (checksum (161 ∷ 162 ∷ []))) (scope_at 9 ∷ [])
check_rollback_iff_example = check_rollback_iff deps at_seven (bundle_at 9)

check_rollback-advance_from_bundle_example : check_rollback deps at_seven (bundle_at 3) ≢ ok tt
check_rollback-advance_from_bundle_example =
    check_rollback-advance_from_bundle deps fresh at_seven (bundle_at 7) (bundle_at 3) disk disk 0 0
      (scope_at 7) (scope_at 3) seven_advanced refl refl refl refl (omega arith)

-- The snapshot is written, and the write of the state file fails.
abbrev failing_disk : Disk
failing_disk = record disk { outcomes = done ∷ fails ∷ [] }

abbrev label : List ℕ
label = 97 ∷ []

commit_fails :
    (e : Disk) × (install_store deps big_endian at_seven label (bundle_at 9) failing_disk
      ≡ (err io, e))
unfolding install_store advance_from_bundle advance_scopes advance lookup insert cmp_bytes snapshot
    write_snapshot write_if_different commit persist write_atomic
commit_fails = (
  record disk {
    files = replace (snapshot_path deps state_path (sample_file 9)) (sample_file 9) disk.files;
    outcomes = [];
  },
  ground (arith, sample_written 9),
)

install_store-err_example :
    (commit_fails.0.files state_path ≡ none) ⊎ (io ≡ durability_uncertain state_path)
install_store-err_example =
    install_store-err deps big_endian at_seven label (bundle_at 9) failing_disk commit_fails.0 io
      commit_fails.1

-- One pinned signer, whose seals all verify.
abbrev authority : Authority
authority = record {
  verify_seal_with_pins = λ m s pins now. ok (7 ∷ []);
  verify_seal_with_anchors = λ m s anchors now. err seal_invalid;
  from_pem = some;
  from_der = some;
  sha256 = zero_digest;
  hex_encode = λ b. b;
}

abbrev pinned : StorageConfig
pinned = record {
  bundle_dir = [];
  state_db = [];
  seal_trust_anchors = none;
  seal_authorizations =
      record {
        producer_id = 116 ∷ [];
        issuer_key_hash = repeat_byte 32 187;
        signer_sha256 = 7 ∷ [];
      }
      ∷ [];
  seal_signer_pins = state_path ∷ [];
  allow_unauthenticated_bundles = true;
}

abbrev cert_files : FilePath → Option (List ℕ)
cert_files path = some (48 ∷ [])

sample_admitted :
    admit_bundle authority big_endian (cbor_of (manifest_at 7)) cert_files (bundle_at 7) pinned 150
    ≡ ok (authenticated (7 ∷ []))
unfolding admit_bundle validate_serving_profile authenticate_bundle verify_structure verify_seal
    read_certs cmp_bytes
sample_admitted = ground (arith, sample_accepted)

admit_bundle_sound_example :
    IsServable (bundle_at 7)
    × IsVerified zero_digest big_endian (cbor_of (manifest_at 7)) (bundle_at 7)
    × Earned authority big_endian
        (cbor_of (manifest_at 7))
        cert_files
        (bundle_at 7)
        pinned
        150
        (authenticated (7 ∷ []))
admit_bundle_sound_example =
    admit_bundle_sound authority big_endian (cbor_of (manifest_at 7)) cert_files (bundle_at 7)
      pinned 150 (authenticated (7 ∷ [])) sample_admitted

abbrev conf : Config
conf = config_with pinned (plain_ca label ∷ [])

-- The lock protects another directory.
wrong_lock :
    install_bundle deps authority big_endian
      (cbor_of (manifest_at 7))
      some
      conf
      label
      (sample_file 7)
      state_path
      150
      disk
    ≡ (err config, disk)
unfolding install_bundle prepare cmp_bytes
wrong_lock = refl
