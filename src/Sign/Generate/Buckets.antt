-- ===== src/Sign/Generate/Buckets.antt =====
-- The buckets of crates/hoike-sign/src/generate.rs, and the entries that come of them.
use hoike.Base.{
  ℕ, zero, suc, ◌≡◌, ◌≤◌, refl, sym, subst, List, [], ◌∷◌, false, Option, some-injective,
  Result-cases, ok, inl, inr, arith, length, length-drop-le, take, drop, ◌>>=◌,
}
use hoike.Base.Exists.{Has, Has-append_left, Has-append_right, Has-drop_or_take}
use hoike.Ahu.Build.{Entry, Builder, add_dual_entry_with_discriminator}
use hoike.Ahu.Index.{is_tombstone}
use hoike.Sign.Time.{DateTime}
use hoike.Sign.Config.{Ocsp, Signer, SingleResponse, PreparedEntry}
use hoike.Sign.Generate.{
  add_shared_entries, chunks, singles_of, keys_of, sign_bucket, sign_buckets, sign_and_add_entries,
  parse_cert, at_least_one,
}

-- A live entry of the builder.
pub record IsEntry (key : List ℕ) (discriminator : ℕ) (response : List ℕ) (e : Entry) : Type 0 where
  pub keyed : e.0.entry_key ≡ key
  pub discriminated : e.0.discriminator ≡ discriminator
  pub live : is_tombstone e.0 ≡ false
  pub answers : e.1 ≡ response

add_shared_entries-keeps :
    (b : Builder) (keys : List (List ℕ)) (response : List ℕ) (disc : ℕ) (e : Entry)
    → Has b.entries e
    → Has (add_shared_entries b keys response disc).entries e
unfolding add_shared_entries
add_shared_entries-keeps b [] response disc e h = h
add_shared_entries-keeps b (k ∷ []) response disc e h = Has-append_left b.entries _ e h
add_shared_entries-keeps b (k ∷ l ∷ keys) response disc e h =
    add_shared_entries-keeps (add_dual_entry_with_discriminator b k l response disc) keys response
      disc e (Has-append_left b.entries _ e h)

-- Whatever their number, all the keys get an entry.
pub add_shared_entries-Has :
    (b : Builder) (keys : List (List ℕ)) (response : List ℕ) (disc : ℕ) (key : List ℕ)
    → Has keys key
    → (e : Entry) × Has (add_shared_entries b keys response disc).entries e
      × IsEntry key disc response e
unfolding add_shared_entries
add_shared_entries-Has b [] response disc key (i, h) = absurd (cc)
add_shared_entries-Has b (k ∷ []) response disc key (zero, h) =
    let same = some-injective k key h in
    (
      _,
      Has-append_right b.entries (_ ∷ []) _ (0, refl),
      record { keyed = same; discriminated = refl; live = refl; answers = refl },
    )
add_shared_entries-Has b (k ∷ []) response disc key (suc i, h) = absurd (cc)
add_shared_entries-Has b (k ∷ l ∷ keys) response disc key (zero, h) =
    let same = some-injective k key h in
    (
      _,
      add_shared_entries-keeps (add_dual_entry_with_discriminator b k l response disc) keys response
          disc _ (Has-append_right b.entries (_ ∷ _ ∷ []) _ (0, refl)),
      record { keyed = same; discriminated = refl; live = refl; answers = refl },
    )
add_shared_entries-Has b (k ∷ l ∷ keys) response disc key (suc zero, h) =
    let same = some-injective l key h in
    (
      _,
      add_shared_entries-keeps (add_dual_entry_with_discriminator b k l response disc) keys response
          disc _ (Has-append_right b.entries (_ ∷ _ ∷ []) _ (1, refl)),
      record { keyed = same; discriminated = refl; live = refl; answers = refl },
    )
add_shared_entries-Has b (k ∷ l ∷ keys) response disc key (suc (suc i), h) =
    add_shared_entries-Has (add_dual_entry_with_discriminator b k l response disc) keys response
      disc key (i, h)

-- The buckets hold every element.
chunks-Has {ℓ} :
    {A : Type ℓ} (fuel size : ℕ) (xs : List A) (a : A)
    → length xs ≤ fuel
    → 1 ≤ size
    → Has xs a
    → (bucket : List A) × Has (chunks fuel size xs) bucket × Has bucket a
unfolding chunks
chunks-Has zero size [] a f s (i, h) = absurd (cc)
chunks-Has zero size (x ∷ xs) a f s h = absurd (omega arith)
chunks-Has (suc fuel) size [] a f s (i, h) = absurd (cc)
chunks-Has (suc fuel) zero (x ∷ xs) a f s h = absurd (omega arith)
chunks-Has (suc fuel) (suc n) (x ∷ xs) a f s h = elim (Has-drop_or_take (suc n) (x ∷ xs) a h) [
  | inl t ↦ (take (suc n) (x ∷ xs), (0, refl), t)
  | inr d ↦
      let (bucket, (i, at), has) =
        chunks-Has fuel (suc n) (drop n xs) a (omega (arith, length-drop-le n xs)) s d in
      (bucket, (suc i, at), has)
]

Has-singles_of :
    (ps : List PreparedEntry) (p : PreparedEntry) (r : SingleResponse)
    → Has ps p
    → Has p.single_responses r
    → Has (singles_of ps) r
Has-singles_of [] p r (i, at) h = absurd (cc)
Has-singles_of (q ∷ ps) p r (zero, at) h =
    let same = some-injective q p at in
    Has-append_left q.single_responses (singles_of ps) r
      (subst (λ (x : PreparedEntry). Has x.single_responses r) (sym same) h)
Has-singles_of (q ∷ ps) p r (suc i, at) h =
    Has-append_right q.single_responses (singles_of ps) r (Has-singles_of ps p r (i, at) h)

Has-keys_of :
    (ps : List PreparedEntry) (p : PreparedEntry) (key : List ℕ)
    → Has ps p
    → Has p.entry_keys key
    → Has (keys_of ps) key
Has-keys_of [] p key (i, at) h = absurd (cc)
Has-keys_of (q ∷ ps) p key (zero, at) h =
    let same = some-injective q p at in
    Has-append_left q.entry_keys (keys_of ps) key
      (subst (λ (x : PreparedEntry). Has x.entry_keys key) (sym same) h)
Has-keys_of (q ∷ ps) p key (suc i, at) h =
    Has-append_right q.entry_keys (keys_of ps) key (Has-keys_of ps p key (i, at) h)

module _ (o : Ocsp) (signer : Signer) (responder_id : List ℕ) (cert : Option (List ℕ))
    (produced_at : DateTime) (disc : ℕ) where
  -- An entry whose response was signed over a bucket with the prepared entry in it.
  pub record IsSigned (b : Builder) (p : PreparedEntry) (key : List ℕ) : Type 0 where
    pub entry : Entry
    pub response : List ℕ
    pub bucket : List PreparedEntry
    pub added : Has b.entries entry
    pub shape : IsEntry key disc response entry
    pub signed : sign_bucket o signer responder_id cert produced_at bucket ≡ ok response
    pub within : Has bucket p

  sign_buckets-keeps :
      (b b' : Builder) (buckets : List (List PreparedEntry)) (e : Entry)
      → sign_buckets o signer responder_id cert produced_at disc b buckets ≡ ok b'
      → Has b.entries e
      → Has b'.entries e
  unfolding sign_buckets
  sign_buckets-keeps b b' [] e h has =
      let same : b ≡ b' = ground arith in subst (λ (x : Builder). Has x.entries e) same has
  sign_buckets-keeps b b' (bucket ∷ more) e h has =
      elim (Result-cases (sign_bucket o signer responder_id cert produced_at bucket)) [
        | inr (x, a) ↦ absurd (cc (rw (a, ◌>>=◌) at h))
        | inl (r, a) ↦
            sign_buckets-keeps (add_shared_entries b (keys_of bucket) r disc) b' more e
              (rw (a, ◌>>=◌) at h) (add_shared_entries-keeps b (keys_of bucket) r disc e has)
      ]

  sign_buckets-IsSigned :
      (b b' : Builder) (buckets : List (List PreparedEntry)) (bucket : List PreparedEntry)
      (p : PreparedEntry) (key : List ℕ)
      → sign_buckets o signer responder_id cert produced_at disc b buckets ≡ ok b'
      → Has buckets bucket
      → Has bucket p
      → Has p.entry_keys key
      → IsSigned b' p key
  unfolding sign_buckets
  sign_buckets-IsSigned b b' [] bucket p key h (i, at) has keyed = absurd (cc)
  sign_buckets-IsSigned b b' (first ∷ more) bucket p key h (zero, at) has keyed =
      elim (Result-cases (sign_bucket o signer responder_id cert produced_at first)) [
        | inr (x, a) ↦ absurd (cc (rw (a, ◌>>=◌) at h))
        | inl (r, a) ↦
            let same = some-injective first bucket at in
            let (e, in_it, shape) = add_shared_entries-Has b (keys_of first) r disc key (
              Has-keys_of first p key (subst (λ (x : List PreparedEntry). Has x p) (sym same) has)
                keyed) in
            record {
              entry = e;
              response = r;
              bucket = first;
              added =
                  sign_buckets-keeps (add_shared_entries b (keys_of first) r disc) b' more e
                    (rw (a, ◌>>=◌) at h) in_it;
              shape = shape;
              signed = a;
              within = subst (λ (x : List PreparedEntry). Has x p) (sym same) has;
            }
      ]
  sign_buckets-IsSigned b b' (first ∷ more) bucket p key h (suc i, at) has keyed =
      elim (Result-cases (sign_bucket o signer responder_id cert produced_at first)) [
        | inr (x, a) ↦ absurd (cc (rw (a, ◌>>=◌) at h))
        | inl (r, a) ↦
            sign_buckets-IsSigned (add_shared_entries b (keys_of first) r disc) b' more bucket p key
              (rw (a, ◌>>=◌) at h) (i, at) has keyed
      ]

-- Whatever the bucket size, every key of every prepared entry gets an entry under the discriminator, whose
-- response was signed over all the single responses of that prepared entry.
pub sign_and_add_entries-IsSigned :
    (o : Ocsp) (b b' : Builder) (prepared : List PreparedEntry) (bucket_size : ℕ) (signer : Signer)
    (responder_id : List ℕ) (cert_der : Option (List ℕ)) (produced_at : DateTime) (disc : ℕ)
    → sign_and_add_entries o b prepared bucket_size signer responder_id cert_der produced_at disc
      ≡ ok b'
    → (cert : Option (List ℕ)) × (parse_cert o cert_der ≡ ok cert)
      × ((p : PreparedEntry) (key : List ℕ)
          → Has prepared p
          → Has p.entry_keys key
          → IsSigned o signer responder_id cert produced_at disc b' p key)
unfolding sign_and_add_entries
sign_and_add_entries-IsSigned o b b' prepared size signer responder_id cert_der produced_at disc h =
    elim (Result-cases (parse_cert o cert_der)) [
      | inr (x, a) ↦ absurd (cc (rw (a, ◌>>=◌) at h))
      | inl (cert, a) ↦
          let go = rw (a, ◌>>=◌) at h in
          (
            cert,
            a,
            λ p key has keyed.
                let (bucket, in_it, has') =
                  chunks-Has (length prepared) (at_least_one o size) prepared p (omega arith)
                    (ground arith) has in
                sign_buckets-IsSigned o signer responder_id cert produced_at disc b b'
                  (chunks (length prepared) (at_least_one o size) prepared) bucket p key go in_it
                  has' keyed,
          )
    ]
