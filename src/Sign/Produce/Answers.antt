-- ===== src/Sign/Produce/Answers.antt =====
-- From a snapshot to the answers of the bundle that produce_bundle of crates/hoike-sign/src/generate.rs makes.
use hoike.Base.{
  ℕ, zero, suc, ◌≡◌, ◌≢◌, refl, ap, ◌∙◌, List, [], ◌∷◌, true, false, Option, some, some-injective,
  ok, ok_or, arith, All, and_then, All-get_elem?, ltb, bind-ok, guard-ok,
}
use hoike.Base.Exists.{Has}
use hoike.Ahu.Wire.{Codec}
use hoike.Ahu.Cbor.{Cbor}
use hoike.Ahu.Index.{name_of}
use hoike.Ahu.Index.Order.{cmp_name-IsOrder}
use hoike.Ahu.Manifest.Decode.{from_cbor}
use hoike.Ahu.Bundle.{Bundle, from_bytes, lookup}
use hoike.Ahu.Build.{Entry, Builder, new_builder}
use hoike.Ahu.Build.Sort.{find_entry, AreDistinct}
use hoike.Ahu.Build.Place.{IsInjective}
use hoike.Ahu.Build.Lookup.{payload}
use hoike.Ahu.Build.RoundTrip.{
  IsAdded, IsNamed, IsShort, built_of, manifest_of, manifest_bytes_of, build-IsBuilt,
}
use hoike.Sign.Error.{SignResult, der}
use hoike.Sign.Source.{CertificateStatus, StatusSnapshot, CaIdentity, validate_at}
use hoike.Sign.Time.{DateTime, ocsp_time}
use hoike.Sign.Config.{Ocsp, Signer, GenerationConfig, PreparedEntry}
use hoike.Sign.Generate.{is_pruned, prepare_entries, sign_bucket, sign_and_add_entries}
use hoike.Sign.Generate.Entries.{IsPrepared, prepare_all-Has}
use hoike.Sign.Generate.Buckets.{sign_and_add_entries-IsSigned}
use hoike.Sign.Produce.{
  Clock, next_update_base, responder_key_hash, assemble, produce_bundle, manifest_for, ca_scopes_of,
  write_error,
}

-- Among entries with different names, each is found by its own.
find_entry-Has :
    (es : List Entry) (e : Entry) (key : List ℕ) (disc : ℕ)
    → AreDistinct es
    → Has es e
    → e.0.entry_key ≡ key
    → e.0.discriminator ≡ disc
    → find_entry es key disc ≡ some e
find_entry-Has [] e key disc d (i, at) k n = absurd (cc)
find_entry-Has (x ∷ es) e key disc d (zero, at) k n =
    ground (arith, some-injective x e at, cmp_name-IsOrder.refl_eq (name_of x.0))
find_entry-Has (x ∷ es) e key disc d (suc i, at) k n =
    let differ : name_of e.0 ≢ name_of x.0 =
      All-get_elem? (λ (f : Entry). name_of f.0 ≢ name_of x.0) es i e d.0 at in
    ground (
      arith,
      differ,
      find_entry-Has es e key disc d.1 (i, at) k n,
      cmp_name-IsOrder.eq_of (name_of x.0) (key, disc),
    )

module _ (o : Ocsp) (ca : CaIdentity) (snapshot : StatusSnapshot) (conf : GenerationConfig)
    (signer : Signer) (cert_der : Option (List ℕ)) (clock : Clock) where
  -- The values on the way of a call that succeeds.
  pub record IsAssembled (b : Builder) : Type 0 where
    pub now : ℕ
    pub source_end : ℕ
    pub base : ℕ
    pub later : ℕ
    pub third : ℕ
    pub produced_at : DateTime
    pub key_hash : List ℕ
    pub responder_id : List ℕ
    pub created_at : ℕ
    pub window_at : ℕ
    pub this_update : DateTime
    pub prepared : List PreparedEntry
    pub valid : validate_at snapshot now ≡ ok source_end
    pub based : next_update_base snapshot conf source_end ≡ ok base
    pub fresh : ltb later base ≡ true
    pub updated : ocsp_time o.is_date_time snapshot.this_update ≡ ok this_update
    pub made : prepare_entries o ca snapshot conf this_update base ≡ ok prepared
    pub signed :
        sign_and_add_entries o
          (new_builder (
            manifest_for o snapshot conf
              (ca_scopes_of o ca conf ((key_hash, cert_der) ∷ []))
              base
              source_end
              created_at
              window_at))
          prepared
          conf.bucket_size
          signer
          responder_id
          cert_der
          produced_at
          0
        ≡ ok b

  pub assemble-IsAssembled :
      (b : Builder) → assemble o ca snapshot conf signer cert_der clock ≡ ok b → IsAssembled b
  unfolding assemble
  assemble-IsAssembled b h =
      let (now, _, h1) = bind-ok (clock 0) _ b h in
      let (source_end, valid, h2) = bind-ok (validate_at snapshot now) _ b h1 in
      let (base, based, h3) = bind-ok (next_update_base snapshot conf source_end) _ b h2 in
      let (later, _, h4) = bind-ok (clock 1) _ b h3 in
      let (fresh, h5) = guard-ok (ltb later base) _ _ b h4 in
      let (third, _, h6) = bind-ok (clock 2) _ b h5 in
      let (produced_at, _, h7) = bind-ok (ocsp_time o.is_date_time third) _ b h6 in
      let (key_hash, _, h8) = bind-ok (responder_key_hash o ca cert_der) _ b h7 in
      let (responder_id, _, h9) = bind-ok (ok_or (o.octet_string key_hash) der) _ b h8 in
      let (created_at, _, h10) = bind-ok (clock 3) _ b h9 in
      let (window_at, _, h11) = bind-ok (clock 4) _ b h10 in
      let (this_update, updated, h12) =
        bind-ok (ocsp_time o.is_date_time snapshot.this_update) _ b h11 in
      let (prepared, made, signed) =
        bind-ok (prepare_entries o ca snapshot conf this_update base) _ b h12 in
      record {
        now = now;
        source_end = source_end;
        base = base;
        later = later;
        third = third;
        produced_at = produced_at;
        key_hash = key_hash;
        responder_id = responder_id;
        created_at = created_at;
        window_at = window_at;
        this_update = this_update;
        prepared = prepared;
        valid = valid;
        based = based;
        fresh = fresh;
        updated = updated;
        made = made;
        signed = signed;
      }

  -- What the bundle answers for a certificate: under each of its entry keys the response of a bucket in
  -- which its prepared entry stands.
  pub record IsAnswered (b : Builder) (a : IsAssembled b) (cert : Option (List ℕ)) (built : Bundle)
      (serial : List ℕ) (status : CertificateStatus) : Type 0 where
    pub p : PreparedEntry
    pub prepared : IsPrepared o ca snapshot conf a.this_update a.base serial status p
    pub answers :
        (key : List ℕ)
        → Has p.entry_keys key
        → (response : List ℕ) × (bucket : List PreparedEntry) × (lookup built key ≡ some response)
          × (sign_bucket o signer a.responder_id cert a.produced_at bucket ≡ ok response)
          × Has bucket p

  -- A snapshot becomes a bundle that answers for it. If the entries of the builder differ in their names,
  -- fit the widths of the format, and the digests of their payloads do not collide, and if the manifest is
  -- sealed and CBOR reads it back, then produce_bundle returns a file, from_bytes reads it, and every
  -- certificate of the snapshot that is not pruned is answered for, under every entry key of its CertIDs,
  -- by a response that was signed over the single responses with its status.
  pub produce_bundle-IsAnswered :
      (c : Codec) (cbor : Cbor) (seal_fn : List ℕ → SignResult (List ℕ)) (b : Builder)
      (seal : List ℕ)
      → assemble o ca snapshot conf signer cert_der clock ≡ ok b
      → AreDistinct b.entries
      → All IsNamed b.entries
      → IsInjective o.sha256 (IsAdded b.entries)
      → seal_fn (manifest_bytes_of o.sha256 c cbor b) ≡ ok seal
      → from_cbor cbor (manifest_bytes_of o.sha256 c cbor b) ≡ ok (manifest_of o.sha256 c cbor b)
      → IsShort o.sha256 c cbor b seal
      → (out : List ℕ) × (built : Bundle) × (a : IsAssembled b) × (cert : Option (List ℕ))
        × (produce_bundle o c cbor ca snapshot conf signer seal_fn cert_der clock ≡ ok out)
        × (from_bytes c cbor out ≡ ok built)
        × ((serial : List ℕ) (status : CertificateStatus)
            → Has snapshot.entries (serial, status)
            → is_pruned snapshot conf serial ≡ false
            → IsAnswered b a cert built serial status)
  unfolding produce_bundle prepare_entries
  produce_bundle-IsAnswered c cbor seal_fn b seal h distinct named inj sealed back short =
      let a = assemble-IsAssembled b h in
      let (cert, _, signed) =
        sign_and_add_entries-IsSigned o _ b a.prepared conf.bucket_size signer a.responder_id
          cert_der a.produced_at 0 a.signed in
      let (out, wrote, built) =
        build-IsBuilt o.sha256 c cbor b (λ m. write_error o (seal_fn m)) seal distinct named inj
          (ap (write_error o) sealed) back short in
      (
        out,
        built_of o.sha256 c cbor b seal,
        a,
        cert,
        rw (h, wrote) refl,
        built.read,
        λ serial status has kept.
            let (p, at, prepared) =
              prepare_all-Has o ca snapshot conf a.this_update a.base snapshot.entries a.prepared
                serial status a.made has kept in
            record {
              p = p;
              prepared = prepared;
              answers = λ key keyed.
                  let s = signed p key at keyed in
                  (
                    s.response,
                    s.bucket,
                    built.found key
                        ∙ ap (λ (e : Option Entry). and_then e payload)
                            (find_entry-Has b.entries s.entry key 0 distinct s.added s.shape.keyed
                              s.shape.discriminated)
                        ∙ ground (arith, s.shape.live, s.shape.answers),
                    s.signed,
                    s.within,
                  );
            },
      )
