-- ===== src/Sign/Produce/Window.antt =====
-- The expiry of the responses that produce_bundle of crates/hoike-sign/src/generate.rs signs, and the window of
-- the manifest.
use hoike.Base.{
  length, true, ℕ, zero, suc, ◌*◌, ◌^◌, ◌≡◌, ◌≤◌, ◌<◌, refl, sym, ◌∙◌, List, [], ◌∷◌, Option, some,
  ok, arith, bind-ok, min, All, some-injective, false, subst,
}
use hoike.Base.Exists.{Has}
use hoike.Sign.Config.{
  CertIdCompat, sha256_only, sha1_only, dual, Ocsp, Signer, GenerationConfig, PreparedEntry,
  first_word, u32_max, CertId, CertStatus, SingleResponse, saturating_add,
}
use hoike.Sign.Generate.{
  certids, key_certid, add_shared_entries, keys_of, sign_bucket, sign_buckets, sign_and_add_entries,
  parse_cert, entry_of, is_pruned, prepare_entries, entry_key_jitter, next_update_of,
}
use hoike.Sign.Produce.{manifest_for, ca_scopes_of, Clock, assemble, next_update_base}
use hoike.Sign.Generate.Entries.{IsPrepared, prepare_all-Only, prepare_all-Has}
use hoike.Ahu.Build.{Builder, add_dual_entry_with_discriminator}
use hoike.Sign.Source.{CertificateStatus, StatusSnapshot, CaIdentity, validate_at}
use hoike.Sign.Time.{DateTime, ocsp_time}
use hoike.Sign.Produce.Answers.{IsAssembled, assemble-IsAssembled}

mul_le : (f j n : ℕ) → f ≤ n → f * j ≤ n * j
mul_le f zero n h = omega arith
mul_le f (suc j) n h = omega (arith, mul_le f j n h, h)

jitter-bounded :
    (o : Ocsp) (conf : GenerationConfig) (serial : List ℕ)
    → first_word (o.sha256 serial) ≤ u32_max
    → entry_key_jitter o conf serial ≤ conf.jitter_secs
jitter-bounded o conf serial h =
    omega (arith, mul_le (first_word (o.sha256 serial)) conf.jitter_secs 4_294_967_295 h)

add_shared_entries-manifest :
    (b : Builder) (keys : List (List ℕ)) (response : List ℕ) (disc : ℕ)
    → (add_shared_entries b keys response disc).manifest ≡ b.manifest
unfolding add_shared_entries
add_shared_entries-manifest b [] response disc = refl
add_shared_entries-manifest b (k ∷ []) response disc = refl
add_shared_entries-manifest b (k ∷ l ∷ keys) response disc =
    add_shared_entries-manifest (add_dual_entry_with_discriminator b k l response disc) keys
      response disc

sign_buckets-manifest :
    (o : Ocsp) (signer : Signer) (responder_id : List ℕ) (cert : Option (List ℕ)) (at : DateTime)
    (disc : ℕ) (b b' : Builder) (buckets : List (List PreparedEntry))
    → sign_buckets o signer responder_id cert at disc b buckets ≡ ok b'
    → b'.manifest ≡ b.manifest
unfolding sign_buckets
sign_buckets-manifest o signer rid cert at disc b b' [] h = ground arith
sign_buckets-manifest o signer rid cert at disc b b' (first ∷ more) h =
    let (response, _, rest) = bind-ok (sign_bucket o signer rid cert at first) _ b' h in
    sign_buckets-manifest o signer rid cert at disc
      (add_shared_entries b (keys_of first) response disc) b' more rest
    ∙ add_shared_entries-manifest b (keys_of first) response disc

pub sign_and_add_entries-manifest :
    (o : Ocsp) (b b' : Builder) (prepared : List PreparedEntry) (size : ℕ) (signer : Signer)
    (responder_id : List ℕ) (cert_der : Option (List ℕ)) (at : DateTime) (disc : ℕ)
    → sign_and_add_entries o b prepared size signer responder_id cert_der at disc ≡ ok b'
    → b'.manifest ≡ b.manifest
unfolding sign_and_add_entries
sign_and_add_entries-manifest o b b' prepared size signer rid cert_der at disc h =
    let (cert, _, rest) = bind-ok (parse_cert o cert_der) _ b' h in
    sign_buckets-manifest o signer rid cert at disc b b' _ rest

next_update_base-bounds :
    (snapshot : StatusSnapshot) (conf : GenerationConfig) (source_end base : ℕ)
    → next_update_base snapshot conf source_end ≡ ok base
    → (base ≤ source_end) × (base < 2 ^ 64)
unfolding next_update_base
next_update_base-bounds snapshot conf source_end base h = ground arith

validate_at-fits :
    (snapshot : StatusSnapshot) (now source_end : ℕ)
    → validate_at snapshot now ≡ ok source_end
    → (snapshot.next_update ≡ some source_end) × (snapshot.this_update ≤ now) × (now < source_end)
unfolding validate_at
validate_at-fits snapshot now source_end h = ground arith

singles-expire :
    (o : Ocsp) (ids : List (CertId × List ℕ)) (status : CertStatus)
    (this_update next_update : DateTime)
    → All
        (λ (s : SingleResponse). s.next_update ≡ next_update)
        (entry_of o ids status this_update next_update).single_responses
singles-expire o [] status this_update next_update = tt
singles-expire o (i ∷ ids) status this_update next_update =
    (refl, singles-expire o ids status this_update next_update)

next_update_of-bounds :
    (o : Ocsp) (conf : GenerationConfig) (serial : List ℕ) (base source_end : ℕ)
    → base ≤ source_end
    → base < 2 ^ 64
    → first_word (o.sha256 serial) ≤ u32_max
    → (base ≤ next_update_of o conf serial base source_end)
      × (next_update_of o conf serial base source_end
          ≤ min (saturating_add base conf.jitter_secs) source_end)
next_update_of-bounds o conf serial base source_end h k w =
    let small = jitter-bounded o conf serial w in
    let j : ℕ = entry_key_jitter o conf serial in ground arith

-- Every CertID form gives an entry at least one response.
certids-nonempty :
    (o : Ocsp) (ca : CaIdentity) (compat : CertIdCompat) (number : List ℕ)
    (ids : List (CertId × List ℕ))
    → certids o ca compat number ≡ ok ids
    → 1 ≤ length ids
unfolding certids
certids-nonempty o ca sha256_only number ids h =
    let (id, _, made) = bind-ok (key_certid o ca false number) _ ids h in ground arith
certids-nonempty o ca sha1_only number ids h =
    let (id, _, made) = bind-ok (key_certid o ca true number) _ ids h in ground arith
certids-nonempty o ca dual number ids h =
    let (first, _, more) = bind-ok (key_certid o ca false number) _ ids h in
    let (second, _, made) = bind-ok (key_certid o ca true number) _ ids more in ground arith

length-singles :
    (o : Ocsp) (ids : List (CertId × List ℕ)) (status : CertStatus)
    (this_update next_update : DateTime)
    → length (entry_of o ids status this_update next_update).single_responses ≡ length ids
length-singles o [] status this_update next_update = refl
length-singles o (i ∷ ids) status this_update next_update =
    omega (arith, length-singles o ids status this_update next_update)

-- The responses of an entry, one at least, expire at one second, and that is between the bounds of the
-- manifest's window.
pub record ExpiresWithin (o : Ocsp) (b : Builder) (p : PreparedEntry) : Type 0 where
  pub at : ℕ
  pub next_update : DateTime
  pub dated : ocsp_time o.is_date_time at ≡ ok next_update
  pub some_response : 1 ≤ length p.single_responses
  pub expire : All (λ (s : SingleResponse). s.next_update ≡ next_update) p.single_responses
  pub lower : b.manifest.window.next_update_min ≤ at
  pub upper : at ≤ b.manifest.window.next_update_max

module _ (o : Ocsp) (ca : CaIdentity) (snapshot : StatusSnapshot) (conf : GenerationConfig)
    (signer : Signer) (cert_der : Option (List ℕ)) (clock : Clock) (b : Builder)
    (a : IsAssembled o ca snapshot conf signer cert_der clock b)
    (word : (bytes : List ℕ) → first_word (o.sha256 bytes) ≤ u32_max) where
  kept-manifest :
      b.manifest
      ≡ manifest_for o snapshot conf
          (ca_scopes_of o ca conf ((a.key_hash, cert_der) ∷ []))
          a.base
          a.source_end
          a.created_at
          a.window_at
  kept-manifest =
      sign_and_add_entries-manifest o _ b a.prepared conf.bucket_size signer a.responder_id cert_der
        a.produced_at 0 a.signed

  IsPrepared-ExpiresWithin :
      (serial : List ℕ) (status : CertificateStatus) (p : PreparedEntry)
      → IsPrepared o ca snapshot conf a.this_update a.base serial status p
      → ExpiresWithin o b p
  IsPrepared-ExpiresWithin serial status p made =
      let (ends, _, _) = validate_at-fits snapshot a.now a.source_end a.valid in
      let (below, fits) = next_update_base-bounds snapshot conf a.source_end a.base a.based in
      let end : made.source_end ≡ a.source_end = some-injective _ _ (sym made.expiry ∙ ends) in
      let (low, high) =
        next_update_of-bounds o conf serial a.base a.source_end below fits (word serial) in
      let nonempty = certids-nonempty o ca conf.certid_compat made.number made.ids made.named in
      record {
        at = next_update_of o conf serial a.base made.source_end;
        next_update = made.next_update;
        dated = made.dated;
        some_response =
            subst (λ (q : PreparedEntry). 1 ≤ length q.single_responses) (sym made.entry)
              (omega (
                arith,
                nonempty,
                length-singles o made.ids made.cert_status a.this_update made.next_update,
              ));
        expire =
            subst
              (λ (q : PreparedEntry).
                All (λ (s : SingleResponse). s.next_update ≡ made.next_update) q.single_responses)
              (sym made.entry)
              (singles-expire o made.ids made.cert_status a.this_update made.next_update);
        lower = rw (kept-manifest, end) low;
        upper = rw (kept-manifest, end) high;
      }

-- If the first four bytes of a digest are bytes, then every entry that is prepared is that of a certificate
-- which is not pruned, with its status, and every such certificate has one. The responses of each entry,
-- one at least, expire at one second in the window that the manifest declares, and the window ends no
-- later than the source's evidence.
pub assemble-ExpiresWithin :
    (o : Ocsp) (ca : CaIdentity) (snapshot : StatusSnapshot) (conf : GenerationConfig)
    (signer : Signer) (cert_der : Option (List ℕ)) (clock : Clock) (b : Builder)
    → ((bytes : List ℕ) → first_word (o.sha256 bytes) ≤ u32_max)
    → assemble o ca snapshot conf signer cert_der clock ≡ ok b
    → (source_end : ℕ) × (snapshot.next_update ≡ some source_end)
      × (b.manifest.window.next_update_max ≤ source_end)
      × (a : IsAssembled o ca snapshot conf signer cert_der clock b) × ((p : PreparedEntry)
          → Has a.prepared p
          → (serial : List ℕ) × (status : CertificateStatus) × Has snapshot.entries (serial, status)
            × (is_pruned snapshot conf serial ≡ false)
            × IsPrepared o ca snapshot conf a.this_update a.base serial status p
            × ExpiresWithin o b p)
      × ((serial : List ℕ) (status : CertificateStatus)
          → Has snapshot.entries (serial, status)
          → is_pruned snapshot conf serial ≡ false
          → (p : PreparedEntry) × Has a.prepared p
            × IsPrepared o ca snapshot conf a.this_update a.base serial status p
            × ExpiresWithin o b p)
unfolding prepare_entries
assemble-ExpiresWithin o ca snapshot conf signer cert_der clock b word h =
    let a = assemble-IsAssembled o ca snapshot conf signer cert_der clock b h in
    let (ends, _, _) = validate_at-fits snapshot a.now a.source_end a.valid in
    (
      a.source_end,
      ends,
      ground (arith, kept-manifest o ca snapshot conf signer cert_der clock b a word),
      a,
      λ p has.
          let (serial, status, listed, kept, made) =
            prepare_all-Only o ca snapshot conf a.this_update a.base snapshot.entries a.prepared p
              a.made has in
          (
            serial,
            status,
            listed,
            kept,
            made,
            IsPrepared-ExpiresWithin o ca snapshot conf signer cert_der clock b a word serial status
                p made,
          ),
      λ serial status has kept.
          let (p, at, made) =
            prepare_all-Has o ca snapshot conf a.this_update a.base snapshot.entries a.prepared
              serial status a.made has kept in
          (
            p,
            at,
            made,
            IsPrepared-ExpiresWithin o ca snapshot conf signer cert_der clock b a word serial status
                p made,
          ),
    )
