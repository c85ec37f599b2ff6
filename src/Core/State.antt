-- ===== src/Core/State.antt =====
-- crates/hoike-core/src/state.rs: the persistent anti-rollback state.
pub mod Marks
pub mod Rollback
pub mod Open
pub mod Persist
use hoike.Base.{
  ℕ, ◌+◌, ◌-◌, ◌≡◌, refl, String, List, [], ◌∷◌, ◌++◌, Bool, true, false, not, ◌&&◌, ◌||◌, Option,
  none, some, ok, err, and_then, ltb, leb, ◌==◌, if◌then◌else◌, beq_bytes, length, take,
}
use hoike.Base
use hoike.Base.Assoc.{Assoc, lookup, insert}
use hoike.Ahu.Wire.{Codec}
use hoike.Ahu.Manifest.{CaScope}
use hoike.Ahu.Bundle.{Bundle, to_bytes}
use hoike.Core.Error.{
  CoreError, CoreResult, from_ahu, epoch_rollback, epoch_jump_too_large, fork_detected, state_store,
}
use hoike.Core.Storage.{FilePath, Disk, Exec, ◌>>=◌, ◌>>◌, pure, lift, write_atomic, beq_path}

abbrev pub max_epoch_jump : ℕ
max_epoch_jump = 10_000

-- Marks and digests go by `producer:issuer_key_hash`, snapshots by CA label.
pub record PersistedState : Type 0 where
  pub high_water_marks : Assoc ℕ
  pub manifest_digests : Assoc (List ℕ)
  pub active_bundles : Assoc FilePath

abbrev pub default_state : PersistedState
default_state = record { high_water_marks = []; manifest_digests = []; active_bundles = [] }

abbrev pub make_key : List ℕ → List ℕ → List ℕ
make_key producer_id issuer_key_hash_hex = producer_id ++ (b':' ∷ issuer_key_hash_hex)

pub record StateStore : Type 0 where
  pub path : FilePath
  pub state : PersistedState
  pub staged : Bool

-- The crates that the store calls: sha2, hex and serde_json.
pub record Deps : Type 0 where
  pub sha256 : List ℕ → List ℕ
  pub hex_encode : List ℕ → List ℕ
  pub hex_decode : List ℕ → Option (List ℕ)
  pub to_json : PersistedState → List ℕ
  pub from_json : List ℕ → Option PersistedState
  pub hex_round_trip : (b : List ℕ) → hex_decode (hex_encode b) ≡ some b

unfoldable pub get_high_water : StateStore → List ℕ → List ℕ → Option ℕ
get_high_water s producer_id ikh = lookup (make_key producer_id ikh) s.state.high_water_marks

-- `<[u8; 32]>::try_from(bytes)`
abbrev to_array_32 : List ℕ → Option (List ℕ)
to_array_32 b = if length b == 32 then some b else none

-- `current.is_none_or(|current| epoch > current)`
abbrev pub raises : Option ℕ → ℕ → Bool
raises none epoch = true
raises (some current) epoch = ltb current epoch

abbrev pub transaction : StateStore → StateStore
transaction s = record s { staged = true }

abbrev pub clear_active_bundles : StateStore → StateStore
clear_active_bundles s = record s { state = record (s.state) { active_bundles = [] } }

-- The scope as the errors name it: the first 16 hex digits of the key hash.
abbrev scope_name : List ℕ → List ℕ → List ℕ
scope_name producer_id ikh = make_key producer_id (take 16 ikh)

abbrev is_some_of : Option (List ℕ) → List ℕ → Bool
is_some_of none d = false
is_some_of (some e) d = beq_bytes e d

module _ (deps : Deps) where
  open deps use {sha256, hex_encode, hex_decode, to_json}

  unfoldable pub get_manifest_digest : StateStore → List ℕ → List ℕ → Option (List ℕ)
  get_manifest_digest s producer_id ikh =
      and_then (lookup (make_key producer_id ikh) s.state.manifest_digests)
        λ hex. and_then (hex_decode hex) to_array_32

  unfoldable pub persist : StateStore → Exec (Unit {0})
  persist s = write_atomic s.path (to_json s.state)

  abbrev pub with_mark : StateStore → List ℕ → ℕ → List ℕ → StateStore
  with_mark s key epoch digest = record s {
    state = record (s.state) {
      high_water_marks = insert key epoch s.state.high_water_marks;
      manifest_digests = insert key (hex_encode digest) s.state.manifest_digests;
    };
  }

  unfoldable pub advance : StateStore → List ℕ → List ℕ → ℕ → List ℕ → Exec StateStore
  unfolding persist
  advance s producer_id ikh epoch manifest_digest =
      let key = make_key producer_id ikh in
      let next = with_mark s key epoch manifest_digest in
      if raises (lookup key s.state.high_water_marks) epoch
      then (if s.staged then pure next else do persist next; pure next)
      else pure s

  unfoldable pub advance_scopes : StateStore → List ℕ → List ℕ → List CaScope → Exec StateStore
  unfolding advance
  advance_scopes s producer_id digest [] = pure s
  advance_scopes s producer_id digest (scope ∷ rest) = do
    s' ← advance s producer_id (hex_encode scope.issuer_key_hash) scope.epoch digest
    advance_scopes s' producer_id digest rest

  unfoldable pub advance_from_bundle : StateStore → Bundle → Exec StateStore
  unfolding advance_scopes persist
  advance_from_bundle s b = do
    candidate ←
        advance_scopes (transaction s) b.manifest.producer_id (sha256 b.manifest_bytes)
          b.manifest.ca_scopes
    (if s.staged then pure tt else persist candidate)
    pure (record s { state = candidate.state })

  -- The checks of one scope: an older epoch, another bundle at the recorded epoch, a jump too far.
  rollback_scope : StateStore → List ℕ → List ℕ → CaScope → CoreResult (Unit {0})
  unfolding get_high_water get_manifest_digest
  rollback_scope s producer_id digest scope =
      let ikh = hex_encode scope.issuer_key_hash in
      elim (get_high_water s producer_id ikh) [
        | none ↦ ok tt
        | some hw ↦
            if ltb scope.epoch hw
            then err (epoch_rollback (scope_name producer_id ikh) scope.epoch hw)
            else if scope.epoch == hw
                && not (is_some_of (get_manifest_digest s producer_id ikh) digest)
            then err (epoch_rollback (scope_name producer_id ikh) scope.epoch hw)
            else if ltb max_epoch_jump (scope.epoch - hw)
            then err (
                epoch_jump_too_large (scope_name producer_id ikh) scope.epoch hw (scope.epoch - hw)
                  max_epoch_jump)
            else ok tt
      ]

  rollback_scopes : StateStore → List ℕ → List ℕ → List CaScope → CoreResult (Unit {0})
  rollback_scopes s producer_id digest [] = ok tt
  rollback_scopes s producer_id digest (scope ∷ rest) =
      Base.◌>>◌ (rollback_scope s producer_id digest scope)
        (rollback_scopes s producer_id digest rest)

  pub check_rollback : StateStore → Bundle → CoreResult (Unit {0})
  unfolding rollback_scopes
  check_rollback s b =
      rollback_scopes s b.manifest.producer_id (sha256 b.manifest_bytes) b.manifest.ca_scopes

  -- A predecessor link must name the recorded manifest, unless the bundle is the recorded one.
  unfoldable pub continuity_scope :
      StateStore → List ℕ → List ℕ → List ℕ → CaScope → CoreResult (Unit {0})
  unfolding get_high_water get_manifest_digest
  continuity_scope s producer_id digest prev scope =
      let ikh = hex_encode scope.issuer_key_hash in
      elim (get_manifest_digest s producer_id ikh) [
        | none ↦ ok tt
        | some recorded ↦
            let at_epoch : Bool = elim (get_high_water s producer_id ikh) [
              | some hw ↦ hw == scope.epoch
              | none ↦ false
            ] in
            if not (at_epoch && beq_bytes digest recorded) && not (beq_bytes prev recorded)
            then err (fork_detected (scope_name producer_id ikh))
            else ok tt
      ]

  unfoldable pub continuity_scopes :
      StateStore → List ℕ → List ℕ → List ℕ → List CaScope → CoreResult (Unit {0})
  continuity_scopes s producer_id digest prev [] = ok tt
  continuity_scopes s producer_id digest prev (scope ∷ rest) =
      Base.◌>>◌ (continuity_scope s producer_id digest prev scope)
        (continuity_scopes s producer_id digest prev rest)

  unfoldable pub check_continuity : StateStore → Bundle → CoreResult (Unit {0})
  unfolding continuity_scopes
  check_continuity s b = elim b.manifest.continuity.prev_manifest_digest [
    | none ↦ ok tt
    | some prev ↦
        continuity_scopes s b.manifest.producer_id (sha256 b.manifest_bytes) prev
          b.manifest.ca_scopes
  ]
