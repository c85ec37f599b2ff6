-- ===== src/Sign/Generate/Entries.antt =====
-- What crates/hoike-sign/src/generate.rs prepares for each certificate of a snapshot.
use hoike.Base.{
  ℕ, zero, suc, ◌≡◌, refl, ◌⊎◌, subst, ◌>>=◌, sym, ap, ◌∙◌, List, [], ◌∷◌, true, false, Bool-cases,
  some, some-injective, Option-cases, Result-cases, ok, inl, inr, arith, get_elem?,
}
use hoike.Base.Exists.{Has}
use hoike.Sign.Source.{CertificateStatus, StatusSnapshot, CaIdentity}
use hoike.Sign.Time.{DateTime, ocsp_time}
use hoike.Sign.Config.{Ocsp, GenerationConfig, PreparedEntry, CertStatus, CertId}
use hoike.Sign.Generate.{
  is_pruned, prepare_entry, prepare_all, certids, cert_status_of, entry_of, next_update_of,
}

module _ (o : Ocsp) (ca : CaIdentity) (snapshot : StatusSnapshot) (conf : GenerationConfig)
    (this_update : DateTime) (base : ℕ) where
  -- What a prepared entry says of a certificate.
  pub record IsPrepared (serial : List ℕ) (status : CertificateStatus) (p : PreparedEntry)
      : Type 0 where
    pub cert_status : CertStatus
    pub number : List ℕ
    pub source_end : ℕ
    pub next_update : DateTime
    pub ids : List (CertId × List ℕ)
    pub status_of : cert_status_of o status ≡ ok cert_status
    pub numbered : o.serial_number serial ≡ some number
    pub expiry : snapshot.next_update ≡ some source_end
    pub dated :
        ocsp_time o.is_date_time (next_update_of o conf serial base source_end) ≡ ok next_update
    pub named : certids o ca conf.certid_compat number ≡ ok ids
    pub entry : p ≡ entry_of o ids cert_status this_update next_update

  pub prepare_entry-IsPrepared :
      (serial : List ℕ) (status : CertificateStatus) (p : PreparedEntry)
      → prepare_entry o ca snapshot conf this_update base serial status ≡ ok p
      → IsPrepared serial status p
  unfolding prepare_entry
  prepare_entry-IsPrepared serial status p h = elim (Result-cases (cert_status_of o status)) [
    | inr (e, a) ↦ absurd (ground arith)
    | inl (cert_status, a) ↦ elim (Option-cases (o.serial_number serial)) [
      | inl b ↦ absurd (ground arith)
      | inr (number, b) ↦ elim (Option-cases snapshot.next_update) [
        | inl c ↦ absurd (ground arith)
        | inr (source_end, c) ↦
            elim (Result-cases
              (ocsp_time o.is_date_time (next_update_of o conf serial base source_end))) [
                | inr (e, d) ↦ absurd (ground arith)
                | inl (next_update, d) ↦
                    elim (Result-cases (certids o ca conf.certid_compat number)) [
                      | inr (e, f) ↦ absurd (ground arith)
                      | inl (ids, f) ↦ record {
                        cert_status = cert_status;
                        number = number;
                        source_end = source_end;
                        next_update = next_update;
                        ids = ids;
                        status_of = a;
                        numbered = b;
                        expiry = c;
                        dated = d;
                        named = f;
                        entry = ground arith;
                      }
                    ]
              ]
      ]
    ]
  ]

  -- One round of the loop: the certificate is left out, or its entry goes first.
  prepare_round :
      (serial : List ℕ) (status : CertificateStatus) (more : List (List ℕ × CertificateStatus))
      (ps : List PreparedEntry)
      → prepare_all o ca snapshot conf this_update base ((serial, status) ∷ more) ≡ ok ps
      → ((is_pruned snapshot conf serial ≡ true)
          × (prepare_all o ca snapshot conf this_update base more ≡ ok ps))
        ⊎ ((is_pruned snapshot conf serial ≡ false)
            × ((p : PreparedEntry) × (rest : List PreparedEntry) × IsPrepared serial status p
                × (prepare_all o ca snapshot conf this_update base more ≡ ok rest)
                × (ps ≡ p ∷ rest)))
  unfolding prepare_all
  prepare_round serial status more ps h = elim (Bool-cases (is_pruned snapshot conf serial)) [
    | inl t ↦ inl (t, rw t at h)
    | inr f ↦
        let go = rw f at h in
        elim (Result-cases (prepare_entry o ca snapshot conf this_update base serial status)) [
          | inr (e, a) ↦ absurd (cc (rw (a, ◌>>=◌) at go))
          | inl (p, a) ↦
              elim (Result-cases (prepare_all o ca snapshot conf this_update base more)) [
                | inr (e, b) ↦ absurd (cc (rw (a, b, ◌>>=◌) at go))
                | inl (rest, b) ↦
                    inr (f, (p, rest, prepare_entry-IsPrepared serial status p a, b, ground arith))
              ]
        ]
  ]

  Has-cons :
      (p q : PreparedEntry) (ps rest : List PreparedEntry) → ps ≡ q ∷ rest → Has rest p → Has ps p
  Has-cons p q ps rest e (i, h) =
      (suc i, ap (λ (l : List PreparedEntry). get_elem? l (suc i)) e ∙ h)

  Has-of_cons :
      (p q : PreparedEntry) (ps rest : List PreparedEntry)
      → ps ≡ q ∷ rest
      → Has ps p
      → (p ≡ q) ⊎ Has rest p
  Has-of_cons p q ps rest e (zero, h) =
      inl (some-injective p q (sym h ∙ ap (λ (l : List PreparedEntry). get_elem? l 0) e))
  Has-of_cons p q ps rest e (suc i, h) =
      inr (i, sym (ap (λ (l : List PreparedEntry). get_elem? l (suc i)) e) ∙ h)

  -- Every certificate that is not pruned has its entry.
  pub prepare_all-Has :
      (entries : List (List ℕ × CertificateStatus)) (ps : List PreparedEntry) (serial : List ℕ)
      (status : CertificateStatus)
      → prepare_all o ca snapshot conf this_update base entries ≡ ok ps
      → Has entries (serial, status)
      → is_pruned snapshot conf serial ≡ false
      → (p : PreparedEntry) × Has ps p × IsPrepared serial status p
  prepare_all-Has [] ps serial status h (i, at) kept = absurd (cc)
  prepare_all-Has ((s, t) ∷ more) ps serial status h (zero, at) kept =
      let same : ◌≡◌ {A = List ℕ × CertificateStatus} (s, t) (serial, status) =
        some-injective (s, t) (serial, status) at in
      let same_serial : s ≡ serial = ap (λ (x : List ℕ × CertificateStatus). x.0) same in
      elim (prepare_round s t more ps h) [
        | inl (pruned, _) ↦ absurd (cc (ap (is_pruned snapshot conf) same_serial, pruned, kept))
        | inr (_, (p, rest, prepared, _, e)) ↦ (
          p,
          (0, ap (λ (l : List PreparedEntry). get_elem? l 0) e),
          subst (λ (x : List ℕ × CertificateStatus). IsPrepared x.0 x.1 p) same prepared,
        )
      ]
  prepare_all-Has ((s, t) ∷ more) ps serial status h (suc i, at) kept =
      elim (prepare_round s t more ps h) [
        | inl (_, later) ↦ prepare_all-Has more ps serial status later (i, at) kept
        | inr (_, (q, rest, _, later, e)) ↦
            let (p, has, prepared) = prepare_all-Has more rest serial status later (i, at) kept in
            (p, Has-cons p q ps rest e has, prepared)
      ]

  -- And every entry is that of a certificate of the snapshot that is not pruned.
  pub prepare_all-Only :
      (entries : List (List ℕ × CertificateStatus)) (ps : List PreparedEntry) (p : PreparedEntry)
      → prepare_all o ca snapshot conf this_update base entries ≡ ok ps
      → Has ps p
      → (serial : List ℕ) × (status : CertificateStatus) × Has entries (serial, status)
        × (is_pruned snapshot conf serial ≡ false)
        × IsPrepared serial status p
  unfolding prepare_all
  prepare_all-Only [] [] p h (i, at) = absurd (cc)
  prepare_all-Only [] (q ∷ ps) p h has = absurd (cc)
  prepare_all-Only ((s, t) ∷ more) ps p h has = elim (prepare_round s t more ps h) [
    | inl (_, later) ↦
        let (serial, status, (j, at), kept, prepared) = prepare_all-Only more ps p later has in
        (serial, status, (suc j, at), kept, prepared)
    | inr (kept, (q, rest, prepared, later, e)) ↦ elim (Has-of_cons p q ps rest e has) [
      | inl same ↦ (
        s,
        t,
        (0, refl),
        kept,
        subst (λ (x : PreparedEntry). IsPrepared s t x) (sym same) prepared,
      )
      | inr (i, at) ↦
          let (serial, status, (j, here), left, made) =
            prepare_all-Only more rest p later (i, at) in
          (serial, status, (suc j, here), left, made)
    ]
  ]
