-- ===== src/Core/Request/Sound.antt =====
-- The conditions on a request that crates/hoike-core/src/request.rs has parsed.
use hoike.Base.{
  ℕ, ◌≤◌, ◌≡◌, ◌≢◌, ◌⊎◌, inl, inr, refl, subst, List, [], ◌∷◌, some, ok, arith, All, length,
  Option-cases, Result-cases,
}
use hoike.Core.Request.{
  Der, Oid, CertId, TbsRequest, Extension, ParsedCertId, ParsedRequest, max_request_size,
  filter_algs, parse_cert_ids, parse_preferred_sig_algs, find_extension, pref_sig_algs_oid,
  parse_ocsp_request,
}

-- A discriminator that the bundle format defines.
abbrev pub IsKnown : ℕ → Type 0
IsKnown d = (d ≡ 0) ⊎ ((d ≡ 2) ⊎ ((d ≡ 3) ⊎ (d ≡ 4)))

filter_algs-IsKnown : (oids : List Oid) → All IsKnown (filter_algs oids)
filter_algs-IsKnown [] = tt
filter_algs-IsKnown (oid ∷ oids) = ground (arith, filter_algs-IsKnown oids)

module _ (der : Der) where
  open der use {request_from_der, sha256}

  -- The entry key is the digest of the CertID that the request carries, and the issuer is its issuer.
  abbrev pub Matches : List CertId → List ParsedCertId → Type 0
  Matches [] [] = Unit
  Matches (c ∷ cs) (p ∷ ps) =
      (c.encoded ≡ some p.certid_der)
      × (p.entry_key ≡ sha256 p.certid_der)
      × (p.issuer_name_hash ≡ c.issuer_name_hash)
      × (p.issuer_key_hash ≡ c.issuer_key_hash)
      × Matches cs ps
  Matches [] (p ∷ ps) = ⊥
  Matches (c ∷ cs) [] = ⊥

  pub record IsParsed (bytes : List ℕ) (p : ParsedRequest) : Type 0 where
    pub tbs : TbsRequest
    pub size : length bytes ≤ max_request_size
    pub nonempty : bytes ≢ []
    pub decoded : request_from_der bytes ≡ some tbs
    pub requested : tbs.request_list ≢ []
    pub cert_ids : Matches tbs.request_list p.cert_ids
    pub preferred : All IsKnown p.preferred_sig_algs

  parse_cert_ids-Matches :
      (cs : List CertId) (ps : List ParsedCertId) → parse_cert_ids der cs ≡ ok ps → Matches cs ps
  unfolding parse_cert_ids
  parse_cert_ids-Matches [] [] h = tt
  parse_cert_ids-Matches [] (p ∷ ps) h = absurd (cc)
  parse_cert_ids-Matches (c ∷ cs) ps h = elim (Option-cases c.encoded) [
    | inl e ↦ absurd (ground arith)
    | inr (certid_der, e) ↦ elim (Result-cases (parse_cert_ids der cs)) [
      | inr (x, f) ↦ absurd (ground arith)
      | inl (parsed, f) ↦
          let first : ParsedCertId = record {
            entry_key = sha256 certid_der;
            certid_der = certid_der;
            issuer_name_hash = c.issuer_name_hash;
            issuer_key_hash = c.issuer_key_hash;
            serial_number = c.serial_number;
            hash_alg_oid = c.hash_algorithm;
          } in
          let whole : first ∷ parsed ≡ ps = ground arith in
          subst (Matches (c ∷ cs)) whole (e, refl, refl, refl, parse_cert_ids-Matches cs parsed f)
    ]
  ]

  parse_preferred_sig_algs-IsKnown :
      (exts : List Extension) → All IsKnown (parse_preferred_sig_algs der exts)
  unfolding parse_preferred_sig_algs
  parse_preferred_sig_algs-IsKnown exts =
      elim (Option-cases (find_extension pref_sig_algs_oid exts)) [
        | inl e ↦
            let nothing : [] ≡ parse_preferred_sig_algs der exts = ground arith in
            subst (All IsKnown) nothing tt
        | inr (x, e) ↦ elim (Option-cases (der.sig_algs_from_der x.extn_value)) [
          | inl f ↦
              let nothing : [] ≡ parse_preferred_sig_algs der exts = ground arith in
              subst (All IsKnown) nothing tt
          | inr (oids, f) ↦
              let found : filter_algs oids ≡ parse_preferred_sig_algs der exts = ground arith in
              subst (All IsKnown) found (filter_algs-IsKnown oids)
        ]
      ]

  -- A request that is parsed is a nonempty DER of at most 8,192 bytes with at least one CertID. There is
  -- one parsed CertID for each, in order, under the digest of its encoding and with its issuer, and the
  -- preferred algorithms are discriminators of the bundle format.
  pub parse_ocsp_request-IsParsed :
      (bytes : List ℕ) (p : ParsedRequest) → parse_ocsp_request der bytes ≡ ok p → IsParsed bytes p
  unfolding parse_ocsp_request
  parse_ocsp_request-IsParsed bytes p h = elim (Option-cases (request_from_der bytes)) [
    | inl e ↦ absurd (ground arith)
    | inr (tbs, e) ↦ elim (Result-cases (parse_cert_ids der tbs.request_list)) [
      | inr (x, f) ↦ absurd (ground arith)
      | inl (ids, f) ↦
          let same : ids ≡ p.cert_ids = ground arith in
          let prefs : parse_preferred_sig_algs der tbs.request_extensions ≡ p.preferred_sig_algs =
            ground arith in
          record {
            tbs = tbs;
            size = ground arith;
            nonempty = λ n. ground arith;
            decoded = e;
            requested = λ n. ground arith;
            cert_ids =
                subst (Matches tbs.request_list) same
                  (parse_cert_ids-Matches tbs.request_list ids f);
            preferred =
                subst (All IsKnown) prefs (parse_preferred_sig_algs-IsKnown tbs.request_extensions);
          }
    ]
  ]
