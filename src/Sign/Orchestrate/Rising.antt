-- ===== src/Sign/Orchestrate/Rising.antt =====
-- What orchestrate.rs of crates/hoike-sign/src generates, against the rollback check of crates/hoike-core/src/state.rs.
use hoike.Base.{
  ℕ, ◌+◌, ◌^◌, ◌≡◌, ◌<◌, refl, sym, ap, ◌∙◌, List, [], ◌∷◌, Bool, Bool-cases, Option, some, ok, inl,
  inr, arith, All, bind-ok,
}
use hoike.Ahu.Wire.{Codec}
use hoike.Ahu.Index.{IndexRecord}
use hoike.Ahu.Manifest.{Manifest, CaScope}
use hoike.Ahu.Bundle.{Bundle}
use hoike.Ahu.Build.{Builder, seal_manifest}
use hoike.Core.State.{StateStore, Deps, get_high_water, check_rollback}
use hoike.Core.State.Rollback.{LetIn, check_rollback_iff}
use hoike.Core.Config.{CaConfig}
use hoike.Sign.Source.{StatusSnapshot, CaIdentity}
use hoike.Sign.Config.{Ocsp, Signer, GenerationConfig, sha256_oid, sha1_oid}
use hoike.Sign.Produce.{Clock, assemble, ca_scopes_of, has_sha1, scope}
use hoike.Sign.Produce.Answers.{assemble-IsAssembled}
use hoike.Sign.Produce.Window.{sign_and_add_entries-manifest}
use hoike.Sign.Orchestrate.{
  gen_config_of, next_epoch, recorded_mark, combined_producer_id, parse, parse_completeness,
}

gen_config_of-eq :
    (ca_config : CaConfig) (epoch : ℕ) (authoritative : Bool) (conf : GenerationConfig)
    → gen_config_of ca_config epoch authoritative ≡ ok conf
    → (conf.epoch ≡ epoch) × (conf.producer_id ≡ combined_producer_id)
unfolding gen_config_of
gen_config_of-eq ca_config epoch authoritative conf h =
    let (compat, _, h1) = bind-ok (parse ca_config.certid_compat) _ conf h in
    let (completeness, _, h2) =
      bind-ok (parse_completeness ca_config.completeness authoritative) _ conf h1 in
    ground arith

module _ (deps : Deps) (o : Ocsp) (s : StateStore) (ca : CaIdentity) where
  -- A scope whose mark is the one that the epoch was derived from.
  LetIn-next_epoch :
      (digest : List ℕ) (x : CaScope)
      → x.epoch ≡ next_epoch deps o s ca
      → get_high_water s combined_producer_id (deps.hex_encode x.issuer_key_hash)
        ≡ recorded_mark deps o s ca
      → ((hw : ℕ) → recorded_mark deps o s ca ≡ some hw → hw + 1 < 2 ^ 64)
      → LetIn deps s combined_producer_id digest x
  LetIn-next_epoch digest x e same small hw g =
      let at : recorded_mark deps o s ca ≡ some hw = sym same ∙ g in
      let next : x.epoch ≡ hw + 1 = e ∙ ground (arith, at, small hw at) in
      (omega (arith, next), omega (arith, next), λ stale. absurd (omega (arith, next, stale)))

  -- Every generation gets through the rollback check of the store that its epoch was derived from: if the
  -- marks of the key's two hashes agree and the mark can still be raised, check_rollback accepts any bundle
  -- with the manifest that is built.
  pub gen_config_of-check_rollback :
      (ca_config : CaConfig) (authoritative : Bool) (conf : GenerationConfig)
      (snapshot : StatusSnapshot) (signer : Signer) (cert_der : Option (List ℕ)) (clock : Clock)
      (b : Builder) (c : Codec) (index : List IndexRecord) (content : List ℕ) (x : Bundle)
      → gen_config_of ca_config (next_epoch deps o s ca) authoritative ≡ ok conf
      → assemble o ca snapshot conf signer cert_der clock ≡ ok b
      → x.manifest ≡ seal_manifest o.sha256 c b.manifest index content
      → get_high_water s combined_producer_id (deps.hex_encode (o.sha1 ca.issuer_key_bytes))
        ≡ recorded_mark deps o s ca
      → ((hw : ℕ) → recorded_mark deps o s ca ≡ some hw → hw + 1 < 2 ^ 64)
      → check_rollback deps s x ≡ ok tt
  unfolding ca_scopes_of
  gen_config_of-check_rollback ca_config authoritative conf snapshot signer cert_der clock b c index
        content x configured assembled built agree small =
      let (epoch, producer) =
        gen_config_of-eq ca_config (next_epoch deps o s ca) authoritative conf configured in
      let a = assemble-IsAssembled o ca snapshot conf signer cert_der clock b assembled in
      let kept =
        sign_and_add_entries-manifest o _ b a.prepared conf.bucket_size signer a.responder_id
          cert_der a.produced_at 0 a.signed in
      let digest = deps.sha256 x.manifest_bytes in
      let first =
        LetIn-next_epoch digest (scope o o.sha256 sha256_oid ca conf a.key_hash cert_der) epoch refl
          small in
      let scopes : All (LetIn deps s combined_producer_id digest)
          (ca_scopes_of o ca conf ((a.key_hash, cert_der) ∷ [])) =
        elim (Bool-cases (has_sha1 o conf.certid_compat)) [
          | inl t ↦ rw t (
            first,
            (
              LetIn-next_epoch digest (scope o o.sha1 sha1_oid ca conf a.key_hash cert_der) epoch
                  agree small,
              tt,
            ),
          )
          | inr f ↦ rw f (first, tt)
        ] in
      let by : x.manifest.producer_id ≡ combined_producer_id =
        ap (λ (m : Manifest). m.producer_id) built
        ∙ ap (λ (m : Manifest). m.producer_id) kept
        ∙ producer in
      let has : x.manifest.ca_scopes ≡ ca_scopes_of o ca conf ((a.key_hash, cert_der) ∷ []) =
        ap (λ (m : Manifest). m.ca_scopes) built ∙ ap (λ (m : Manifest). m.ca_scopes) kept in
      (check_rollback_iff deps s x).1 (rw (by, has) scopes)
