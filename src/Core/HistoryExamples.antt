-- ===== src/Core/HistoryExamples.antt =====
-- The theorems on sequences of installations at a concrete disk.
use hoike.Base.{
  some-injective, Bool-cases, inl, inr, subst, beq_bytes, and_then, ℕ, ◌≤◌, ◌≡◌, refl, ap, ◌∙◌,
  List, [], ◌∷◌, true, false, none, cmp_bytes, some, ok, err, Option, arith, if◌then◌else◌,
}
use hoike.Base.Assoc.{lookup, insert}
use hoike.Ahu.Samples.{
  accepted, zero_digest, big_endian, cbor_of, manifest_at, bundle_at, scope_at, repeat_byte,
}
use hoike.Ahu.Error.{seal_invalid}
use hoike.Ahu.Bundle.{Bundle}
use hoike.Ahu.Bundle.RoundTrip.{placed}
use hoike.Ahu.Verify
use hoike.Ahu.Bundle.{to_bytes, layout, entry_bytes, get_range}
use hoike.Ahu.Examples.{sample_file, sample_read, sample_written, sample_accepted}
use hoike.Core.Error.{CoreResult}
use hoike.Core.Storage.{Disk, FilePath, beq_path, write_atomic}
use hoike.Core.State.{
  StateStore, PersistedState, Deps, persist, advance, advance_scopes, advance_from_bundle,
  get_high_water, get_manifest_digest, make_key, check_rollback, check_continuity,
}
use hoike.Core.Config.{Config, StorageConfig, bundle_destination}
use hoike.Core.Samples.{plain_ca, config_with}
use hoike.Core.Encoding.{write_state, read_state, read_state-write_state}
use hoike.Core.Admission.{
  Authority, authenticate_bundle, verify_structure, verify_seal, read_certs,
  validate_serving_profile,
}
use hoike.Core.Prepare.{prepare, state_file}
use hoike.Core.Install.{install_bundle, install_checked, install_store, InstallResult}
use hoike.Core.State.Rollback.{check_rollback_iff}
use hoike.Core.State.Persist.{snapshot, write_snapshot, write_if_different, commit}
use hoike.Core.State.Open.{
  open_store, validate_persisted, check_digests, check_marks, check_snapshots,
}
use hoike.Core.Install.Kept.{stored_mark, NeverLower}
use hoike.Core.Install.History.{
  install_bundle-prepare, start, install, History-NeverLower, History-install_bundle,
}

abbrev deps : Deps
deps = record {
  sha256 = zero_digest;
  hex_encode = λ b. b;
  hex_decode = some;
  to_json = write_state;
  from_json = read_state;
  hex_round_trip = λ b. refl;
}

abbrev authority : Authority
authority = record {
  verify_seal_with_pins = λ m s pins now. ok (7 ∷ []);
  verify_seal_with_anchors = λ m s anchors now. err seal_invalid;
  from_pem = some;
  from_der = some;
  sha256 = zero_digest;
  hex_encode = λ b. b;
}

-- Bundles go to `b`, the state to `s`.
abbrev storage : StorageConfig
storage = record {
  bundle_dir = (98 ∷ []) ∷ [];
  state_db = (115 ∷ []) ∷ [];
  seal_trust_anchors = none;
  seal_authorizations = [];
  seal_signer_pins = ((112 ∷ []) ∷ []) ∷ [];
  allow_unauthenticated_bundles = true;
}

abbrev conf : Config
conf = config_with storage (plain_ca (97 ∷ []) ∷ [])

abbrev sample_key : List ℕ
sample_key = make_key (116 ∷ []) (repeat_byte 32 187)

-- The sample bundle has been installed before.
abbrev recorded : PersistedState
recorded = record {
  high_water_marks = (sample_key, 7) ∷ [];
  manifest_digests = (sample_key, repeat_byte 32 0) ∷ [];
  active_bundles = [];
}

abbrev disk : Disk
disk = record {
  files = λ p.
      if beq_path (state_file storage.state_db) p
      then some (write_state recorded)
      else some (48 ∷ []);
  outcomes = [];
  creatable = λ p. true;
  removable = λ p. true;
}

-- The disk after the bundle has been installed again.
abbrev after_install : Disk
after_install =
    (install_bundle deps authority big_endian (cbor_of (manifest_at 7)) some conf (97 ∷ [])
      (sample_file 7) storage.state_db 150 disk).1

abbrev target : FilePath
target = (98 ∷ []) ∷ (97 ∷ b'.' ∷ b'a' ∷ b'h' ∷ b'u' ∷ []) ∷ []

apart :
    (label : List ℕ) (dest : FilePath)
    → bundle_destination some conf label ≡ ok dest
    → beq_path dest (state_file storage.state_db) ≡ false
unfolding bundle_destination cmp_bytes
apart label dest h = elim (Bool-cases (beq_bytes (97 ∷ []) label)) [
  | inr e ↦ absurd (ground arith)
  | inl e ↦
      let same : target ≡ dest = ground arith in
      subst (λ p. beq_path p (state_file storage.state_db) ≡ false) same refl
]

marked : stored_mark deps (state_file storage.state_db) disk sample_key ≡ some 7
unfolding cmp_bytes lookup
marked =
    ap (λ (o : Option PersistedState). and_then o (λ p. lookup sample_key p.high_water_marks))
      (read_state-write_state recorded)

opened :
    open_store deps big_endian (cbor_of (manifest_at 7)) disk.files (state_file storage.state_db)
    ≡ ok (record { path = state_file storage.state_db; state = recorded; staged = false })
unfolding open_store validate_persisted check_digests check_marks check_snapshots lookup cmp_bytes
opened = ground (arith, read_state-write_state recorded)

abbrev opened_store : StateStore
opened_store = record { path = state_file storage.state_db; state = recorded; staged = false }

abbrev bundle : Bundle
bundle = record (bundle_at 7) { header = placed big_endian (bundle_at 7) }

checked : check_rollback deps opened_store bundle ≡ ok tt
unfolding get_high_water get_manifest_digest lookup cmp_bytes
checked = (check_rollback_iff deps opened_store bundle).1 (
  λ hw g. let seven : 7 ≡ hw = some-injective 7 hw g in (omega arith, omega arith, λ e. refl),
  tt,
)

accepted_bundle :
    Verify.verify_structure zero_digest big_endian (cbor_of (manifest_at 7)) bundle ≡ ok accepted
unfolding Verify.verify_structure Verify.check_entries entry_bytes get_range
accepted_bundle = sample_accepted

authenticated_bundle :
    authenticate_bundle authority big_endian (cbor_of (manifest_at 7)) disk.files bundle storage 150
    ≡ ok (7 ∷ [])
unfolding authenticate_bundle verify_structure verify_seal read_certs cmp_bytes
authenticated_bundle = ground (arith, accepted_bundle)

prepared :
    prepare deps authority big_endian
      (cbor_of (manifest_at 7))
      some
      conf
      (97 ∷ [])
      (sample_file 7)
      storage.state_db
      150
      disk.files
    ≡ ok (target, bundle, opened_store)
unfolding prepare bundle_destination validate_serving_profile check_continuity cmp_bytes
prepared =
    rw (sample_read, prepare)
      (rw (authenticated_bundle, prepare) (rw (opened, prepare) (rw (checked, prepare) refl)))

written : to_bytes big_endian bundle ≡ ok (sample_file 7)
unfolding to_bytes layout
written = sample_written 7

-- The state file after the installation, and the result.
installed :
    (r : InstallResult) × (install_checked deps big_endian
        (97 ∷ [])
        (sample_file 7)
        (target, bundle, opened_store)
        disk).0
      ≡ ok r
unfolding install_checked install_store advance_from_bundle advance_scopes advance lookup insert
    cmp_bytes snapshot write_snapshot write_if_different commit persist write_atomic
installed = (record { destination = target; publication_warning = none }, ground (arith, written))

finished :
    install_bundle deps authority big_endian
      (cbor_of (manifest_at 7))
      some
      conf
      (97 ∷ [])
      (sample_file 7)
      storage.state_db
      150
      disk
    ≡ (ok installed.0, after_install)
finished =
    let out =
      install_bundle deps authority big_endian (cbor_of (manifest_at 7)) some conf (97 ∷ [])
        (sample_file 7) storage.state_db 150 disk in
    let same =
      install_bundle-prepare deps authority big_endian (cbor_of (manifest_at 7)) some conf (97 ∷ [])
        (sample_file 7) storage.state_db 150 disk (ok (target, bundle, opened_store)) prepared in
    ap (λ (r : CoreResult InstallResult). (r, out.1))
      (ap (λ (r : CoreResult InstallResult × Disk). r.0) same ∙ installed.1)

History-NeverLower_example : NeverLower deps (state_file storage.state_db) disk after_install
History-NeverLower_example =
    History-NeverLower deps authority big_endian (cbor_of (manifest_at 7)) some conf apart
      read_state-write_state disk after_install
      (install disk (97 ∷ []) (sample_file 7) storage.state_db 150 start)

History-install_bundle_example : 7 ≤ 7
History-install_bundle_example =
    History-install_bundle deps authority big_endian (cbor_of (manifest_at 7)) some conf apart
      read_state-write_state disk disk after_install (97 ∷ []) (sample_file 7) storage.state_db 150
      installed.0 bundle 0 (scope_at 7) 7 start marked sample_read refl finished
