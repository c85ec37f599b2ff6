-- ===== src/Ahu/Build/Place.antt =====
-- Where `BundleBuilder::build` of crates/ahu/src/bundle.rs puts the payloads.
use mathlib.Core.List.{append_assoc, append-nil}
use hoike.Base.{
  ℕ, ◌+◌, ◌%◌, ◌^◌, ◌≤◌, ◌<◌, ◌≡◌, refl, sym, ap, ◌∙◌, subst, List, [], ◌∷◌, ◌++◌, Option, none,
  some, true, false, arith, All, length, length-append, Bool-cases, Option-cases, inl, inr,
  beq_bytes_iff, beq_bytes, some-injective,
}
use hoike.Base.Assoc
use hoike.Base.Assoc.{lookup-insert}
use hoike.Ahu.Index.{IndexRecord, is_tombstone, name_of}
use hoike.Ahu.Build.{Entry, Section, place_entry, place, append_payload, as_u32}

-- The bytes stand in the content from the offset on.
pub record IsAt (content : List ℕ) (offset : ℕ) (bytes : List ℕ) : Type 0 where
  pub before : List ℕ
  pub after : List ℕ
  pub content_is : content ≡ before ++ (bytes ++ after)
  pub offset_is : length before ≡ offset

IsAt-append :
    (content more : List ℕ) (offset : ℕ) (bytes : List ℕ)
    → IsAt content offset bytes
    → IsAt (content ++ more) offset bytes
IsAt-append content more offset bytes h = record {
  before = h.before;
  after = h.after ++ more;
  content_is = rw h.content_is (simp append_assoc);
  offset_is = h.offset_is;
}

pub IsAt-le :
    (content : List ℕ) (offset : ℕ) (bytes : List ℕ)
    → IsAt content offset bytes
    → offset + length bytes ≤ length content
IsAt-le content offset bytes h = omega (
  arith,
  h.offset_is,
  ap length h.content_is,
  length-append h.before (bytes ++ h.after),
  length-append bytes h.after,
)

-- What a record says of the entry it was made from, in the whole data section.
pub record IsPlaced (content : List ℕ) (r : IndexRecord) (e : Entry) : Type 0 where
  pub name : name_of r ≡ name_of e.0
  pub flags : r.flags ≡ e.0.flags
  pub stored :
      is_tombstone e.0 ≡ false → IsAt content r.data_offset e.1 × (r.data_length ≡ length e.1)
  pub erased : is_tombstone e.0 ≡ true → (r.data_offset ≡ 0) × (r.data_length ≡ 0)

abbrev pub ArePlaced : List ℕ → List IndexRecord → List Entry → Type 0
ArePlaced content [] [] = Unit
ArePlaced content (r ∷ rs) (e ∷ es) = IsPlaced content r e × ArePlaced content rs es
ArePlaced content [] (e ∷ es) = ⊥
ArePlaced content (r ∷ rs) [] = ⊥

module _ (sha256 : List ℕ → List ℕ) (In : List ℕ → Type 0) where
  -- No two payloads have the same digest.
  abbrev pub IsInjective : Type 0
  IsInjective = (p q : List ℕ) → In p → In q → sha256 p ≡ sha256 q → p ≡ q

  -- What the map of payload offsets says is true of the content.
  abbrev Tells : Section → Type 0
  Tells s =
      (digest : List ℕ) (offset len : ℕ)
      → Assoc.lookup digest s.payload_offsets ≡ some (offset, len)
      → (q : List ℕ) × In q × (sha256 q ≡ digest) × IsAt s.content offset q × (len ≡ length q)

  abbrev pub Fits : Entry → Type 0
  Fits e = In e.1 × (length e.1 < 2 ^ 32)

  -- One round grows the content, keeps the map true and places the entry.
  record IsStep (s : Section) (e : Entry) (r : IndexRecord) (next : Section) : Type 0 where
    more : List ℕ
    grows : next.content ≡ s.content ++ more
    tells : Tells next
    placed : IsPlaced next.content r e

  IsAt-end : (content bytes : List ℕ) → IsAt (content ++ bytes) (length content) bytes
  IsAt-end content bytes = record {
    before = content;
    after = [];
    content_is = rw append-nil refl;
    offset_is = refl;
  }

  Tells-append :
      (s : Section) (p : List ℕ) → Tells s → Tells (record s { content = s.content ++ p })
  Tells-append s p t digest offset len h =
      let (q, u, d, at, l) = t digest offset len h in
      (q, u, d, IsAt-append s.content p offset q at, l)

  Tells-insert :
      (s : Section) (p : List ℕ)
      → In p
      → length p < 2 ^ 32
      → Tells s
      → Tells (record {
        content = s.content ++ p;
        payload_offsets =
            Assoc.insert (sha256 p) (length s.content, as_u32 (length p)) s.payload_offsets;
      })
  Tells-insert s p u small t digest offset len h =
      let hit =
        lookup-insert (sha256 p) digest (length s.content, as_u32 (length p)) s.payload_offsets in
      elim (Bool-cases (beq_bytes (sha256 p) digest)) [
        | inl e ↦
            let at : length s.content ≡ offset = ground (arith, hit) in
            let size : len ≡ length p = ground (arith, hit) in
            (
              p,
              u,
              (beq_bytes_iff (sha256 p) digest).0 e,
              subst (λ n. IsAt (s.content ++ p) n p) at (IsAt-end s.content p),
              size,
            )
        | inr e ↦ Tells-append s p t digest offset len (ground (arith, hit))
      ]

  IsStep-of :
      {s : Section} {e : Entry} {out : IndexRecord × Section} {r : IndexRecord} {next : Section}
      → out ≡ (r, next)
      → IsStep s e r next
      → IsStep s e out.0 out.1
  IsStep-of {s} {e} same step =
      subst (λ (o : IndexRecord × Section). IsStep s e o.0 o.1) (sym same) step

  -- A payload of its own.
  appended :
      (s : Section) (r : IndexRecord) (p : List ℕ)
      → is_tombstone r ≡ false
      → length p < 2 ^ 32
      → IsPlaced (s.content ++ p) (append_payload sha256 s r p) (r, p)
  appended s r p live small = record {
    name = refl;
    flags = refl;
    stored = λ l. (IsAt-end s.content p, omega arith);
    erased = λ dead. absurd (ground arith);
  }

  place_entry-IsStep :
      (s : Section) (e : Entry)
      → IsInjective
      → Fits e
      → Tells s
      → IsStep s e (place_entry sha256 s e).0 (place_entry sha256 s e).1
  unfolding place_entry
  place_entry-IsStep s (r, p) inj fits t = elim (Bool-cases (is_tombstone r)) [
    | inl dead ↦ IsStep-of (ground arith) (record {
      more = [];
      grows = sym (append-nil s.content);
      tells = t;
      placed = record {
        name = refl;
        flags = refl;
        stored = λ live. absurd (ground arith);
        erased = λ d. (refl, refl);
      };
    })
    | inr live ↦ elim (Bool-cases r.flags.is_alias) [
      | inr own ↦ IsStep-of (ground arith) (record {
        more = p;
        grows = refl;
        tells = Tells-append s p t;
        placed = appended s r p live fits.1;
      })
      | inl shared ↦ elim (Option-cases (Assoc.lookup (sha256 p) s.payload_offsets)) [
        | inl fresh ↦ IsStep-of (ground arith) (record {
          more = p;
          grows = refl;
          tells = Tells-insert s p fits.0 fits.1 t;
          placed = appended s r p live fits.1;
        })
        | inr ((offset, len), hit) ↦
            let (q, u, d, at, size) = t (sha256 p) offset len hit in
            let same : q ≡ p = inj q p u fits.0 d in
            IsStep-of (ground arith) (record {
              more = [];
              grows = sym (append-nil s.content);
              tells = t;
              placed = record {
                name = refl;
                flags = refl;
                stored = λ l. (subst (IsAt s.content offset) same at, size ∙ ap length same);
                erased = λ dead. absurd (ground arith);
              };
            })
      ]
    ]
  ]

  IsPlaced-append :
      (content more : List ℕ) (r : IndexRecord) (e : Entry)
      → IsPlaced content r e
      → IsPlaced (content ++ more) r e
  IsPlaced-append content more r e h = record {
    name = h.name;
    flags = h.flags;
    stored =
        λ l. let (at, size) = h.stored l in (IsAt-append content more r.data_offset e.1 at, size);
    erased = h.erased;
  }

  place-ArePlaced :
      (s : Section) (es : List Entry)
      → IsInjective
      → All Fits es
      → Tells s
      → ((more : List ℕ) × ((place sha256 s es).1 ≡ s.content ++ more))
        × ArePlaced (place sha256 s es).1 (place sha256 s es).0 es
  unfolding place
  place-ArePlaced s [] inj f t = (([], sym (append-nil s.content)), tt)
  place-ArePlaced s (e ∷ es) inj f t =
      let step = place_entry-IsStep s e inj f.0 t in
      let next = (place_entry sha256 s e).1 in
      let ((more, grows), rest) = place-ArePlaced next es inj f.1 step.tells in
      (
        (
          step.more ++ more,
          grows ∙ ap (λ (c : List ℕ). c ++ more) step.grows ∙ append_assoc s.content step.more more,
        ),
        (
          subst (λ c. IsPlaced c (place_entry sha256 s e).0 e) (sym grows)
              (IsPlaced-append next.content more (place_entry sha256 s e).0 e step.placed),
          rest,
        ),
      )

  nothing : Tells (record { content = []; payload_offsets = [] })
  unfolding hoike.Base.Assoc.lookup
  nothing digest offset len h = absurd (cc)

  -- With no two payloads of one digest, every record of the loop points at its entry's payload.
  pub place_sound :
      (es : List Entry)
      → IsInjective
      → All Fits es
      → let out = place sha256 (record { content = []; payload_offsets = [] }) es in
        ArePlaced out.1 out.0 es
  place_sound es inj f =
      (place-ArePlaced (record { content = []; payload_offsets = [] }) es inj f nothing).1
