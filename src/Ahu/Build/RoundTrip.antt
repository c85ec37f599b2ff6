-- ===== src/Ahu/Build/RoundTrip.antt =====
-- `BundleBuilder::build` and `Bundle::from_bytes` of crates/ahu/src/bundle.rs together.
use hoike.Base.{
  ℕ, ◌+◌, ◌^◌, ◌<◌, ◌≡◌, refl, ap, ◌∙◌, List, [], ◌∷◌, ◌++◌, Option, ok, ◌⊎◌, inl, inr, arith, All,
  length, and_then, Bool-cases,
}
use hoike.Ahu.Error.{AhuResult}
use hoike.Ahu.Wire.{Codec}
use hoike.Ahu.Cbor.{Cbor}
use hoike.Ahu.Header.{FileHeader, header_size}
use hoike.Ahu.Index.{IndexRecord, EntryName, is_tombstone, write_all, alg_disc_default}
use hoike.Ahu.Index.Order.{IsSorted}
use hoike.Ahu.Index.RoundTrip as IndexTrip
use hoike.Ahu.Manifest.{Manifest}
use hoike.Ahu.Manifest.Encode.{to_cbor}
use hoike.Ahu.Manifest.Decode.{from_cbor}
use hoike.Ahu.Bundle.{Bundle, entry_bytes, from_bytes, lookup, lookup_preferred}
use hoike.Ahu.Bundle.RoundTrip.{file, IsLaidOut, from_bytes-file}
use hoike.Ahu.Bundle.Lookup.{find_record, first_record, lookup-eq-find, lookup_preferred-eq-find}
use hoike.Ahu.Build.{Entry, Builder, build, place, sort_entries, seal_manifest, header_of}
use hoike.Ahu.Build.Sort.{
  find_entry, AreDistinct, All-sort_entries, find_entry-sort_entries, sort_entries-IsSorted,
}
use hoike.Ahu.Build.Place.{IsAt-le, IsPlaced, ArePlaced, IsInjective, place_sound}
use hoike.Ahu.Build.Lookup.{
  payload, first_entry, Agree, ArePlaced-IsSorted, find_record-Agree, first_record-Agree,
  entry_bytes-payload,
}

-- The payload of an entry that was added.
abbrev pub IsAdded : List Entry → List ℕ → Type 0
IsAdded [] p = ⊥
IsAdded (e ∷ es) p = (e.1 ≡ p) ⊎ IsAdded es p

-- The widths of the source's types, and payloads that a u32 can measure.
pub record IsNamed (e : Entry) : Type 0 where
  pub entry_key : length e.0.entry_key ≡ 32
  pub discriminator : e.0.discriminator < 2 ^ 16
  pub payload : length e.1 < 2 ^ 32

All-IsAdded :
    (es all : List Entry)
    → All IsNamed es
    → ((p : List ℕ) → IsAdded es p → IsAdded all p)
    → All (λ (e : Entry). IsAdded all e.1 × (length e.1 < 2 ^ 32)) es
All-IsAdded [] all n f = tt
All-IsAdded (e ∷ es) all n f =
    ((f e.1 (inl refl), n.0.payload), All-IsAdded es all n.1 (λ p h. f p (inr h)))

IsPlaced-IsEncodable :
    (content : List ℕ) (r : IndexRecord) (e : Entry)
    → IsNamed e
    → length content < 2 ^ 64
    → IsPlaced content r e
    → IndexTrip.IsEncodable r
IsPlaced-IsEncodable content r e n fits p =
    let key : length r.entry_key ≡ 32 = ap (λ (m : EntryName). length m.0) p.name ∙ n.entry_key in
    let disc : r.discriminator ≡ e.0.discriminator = ap (λ (m : EntryName). m.1) p.name in
    elim (Bool-cases (is_tombstone e.0)) [
      | inl dead ↦ omega (arith, p.erased dead, n.discriminator)
      | inr live ↦
          let (at, size) = p.stored live in
          omega (arith, IsAt-le content r.data_offset e.1 at, n.discriminator, n.payload)
    ]

ArePlaced-IsEncodable :
    (content : List ℕ) (rs : List IndexRecord) (es : List Entry)
    → All IsNamed es
    → length content < 2 ^ 64
    → ArePlaced content rs es
    → All IndexTrip.IsEncodable rs
ArePlaced-IsEncodable content [] [] n fits p = tt
ArePlaced-IsEncodable content [] (e ∷ es) n fits p = elim p [ ]
ArePlaced-IsEncodable content (r ∷ rs) [] n fits p = elim p [ ]
ArePlaced-IsEncodable content (r ∷ rs) (e ∷ es) n fits p = (
  IsPlaced-IsEncodable content r e n.0 fits p.0,
  ArePlaced-IsEncodable content rs es n.1 fits p.1,
)

Agree-payload :
    (b : Bundle) (r : Option IndexRecord) (e : Option Entry)
    → length b.content < 2 ^ 64
    → Agree b.content r e
    → and_then r (entry_bytes b) ≡ and_then e payload
Agree-payload b r e fits a = elim a [
  | inl (x, y) ↦ rw (x, y) refl
  | inr (s, f, x, y, p) ↦ rw (x, y) (entry_bytes-payload b s f fits p)
]

module _ (sha256 : List ℕ → List ℕ) (c : Codec) (cbor : Cbor) (b : Builder) where
  abbrev pub placed_of : List IndexRecord × List ℕ
  placed_of = place sha256 (record { content = []; payload_offsets = [] }) (sort_entries b.entries)

  abbrev pub index_of : List IndexRecord
  index_of = placed_of.0

  abbrev pub content_of : List ℕ
  content_of = placed_of.1

  abbrev pub manifest_of : Manifest
  manifest_of = seal_manifest sha256 c b.manifest index_of content_of

  abbrev pub manifest_bytes_of : List ℕ
  manifest_bytes_of = to_cbor cbor manifest_of

  -- The lengths that the source casts to u32, and the file's in a u64.
  pub record IsShort (seal : List ℕ) : Type 0 where
    pub manifest : length manifest_bytes_of < 2 ^ 32
    pub seal_bytes : length seal < 2 ^ 32
    pub all :
        header_size
          + length manifest_bytes_of
          + length seal
          + length (write_all c index_of)
          + length content_of
        < 2 ^ 64

  abbrev pub header_at : List ℕ → FileHeader
  header_at seal =
      header_of sha256 (length manifest_bytes_of) (length seal) (length (write_all c index_of))
        (length content_of)

  abbrev pub built_of : List ℕ → Bundle
  built_of seal = record {
    header = header_at seal;
    manifest = manifest_of;
    manifest_bytes = manifest_bytes_of;
    seal_bytes = seal;
    index = index_of;
    content = content_of;
  }

  -- The bundle is in the file, it is sorted, and a lookup in it answers as the added entries do.
  pub record IsBuilt (out : List ℕ) (built : Bundle) : Type 0 where
    pub read : from_bytes c cbor out ≡ ok built
    pub sorted : IsSorted built.index
    pub found :
        (k : List ℕ) → lookup built k ≡ and_then (find_entry b.entries k alg_disc_default) payload
    pub preferred :
        (k ds : List ℕ)
        → lookup_preferred built k ds
          ≡ and_then (first_entry b.entries k (ds ++ alg_disc_default ∷ [])) payload

  -- The file that is written when the lengths fit.
  file_of : List ℕ → List ℕ
  file_of seal = file c cbor (header_at seal) manifest_bytes_of seal content_of index_of

  laid_out :
      (seal : List ℕ)
      → IsShort seal
      → IsLaidOut c cbor (header_at seal) manifest_bytes_of seal content_of index_of
  laid_out seal s = omega (arith, s.all, s.manifest, s.seal_bytes)

  build-file :
      (seal_fn : List ℕ → AhuResult (List ℕ)) (seal : List ℕ)
      → seal_fn manifest_bytes_of ≡ ok seal
      → build sha256 c cbor seal_fn b ≡ ok (file_of seal)
  unfolding build file_of
  build-file seal_fn seal h = rw (h, build) refl

first_entry-sort_entries :
    (es : List Entry) (k ds : List ℕ) → first_entry (sort_entries es) k ds ≡ first_entry es k ds
first_entry-sort_entries es k [] = refl
first_entry-sort_entries es k (d ∷ ds) =
    ground (arith, find_entry-sort_entries es k d, first_entry-sort_entries es k ds)

-- Where the added entries have distinct names, the payloads distinct digests, and the lengths fit the
-- format, where the manifest is sealed and CBOR reads it back, `build` writes a file that `from_bytes`
-- reads. The index of the bundle that it reads is
-- sorted, `lookup` and `lookup_preferred` find the payload of the entry that was added under the key
-- and the discriminator, and they find nothing for a tombstone or a name that was not added.
pub build-IsBuilt :
    (sha256 : List ℕ → List ℕ) (c : Codec) (cbor : Cbor) (b : Builder)
    (seal_fn : List ℕ → AhuResult (List ℕ)) (seal : List ℕ)
    → AreDistinct b.entries
    → All IsNamed b.entries
    → IsInjective sha256 (IsAdded b.entries)
    → seal_fn (manifest_bytes_of sha256 c cbor b) ≡ ok seal
    → from_cbor cbor (manifest_bytes_of sha256 c cbor b) ≡ ok (manifest_of sha256 c cbor b)
    → IsShort sha256 c cbor b seal
    → (out : List ℕ) × (build sha256 c cbor seal_fn b ≡ ok out)
      × IsBuilt sha256 c cbor b out (built_of sha256 c cbor b seal)
unfolding file_of
build-IsBuilt sha256 c cbor b seal_fn seal distinct named inj h k short =
    let built = built_of sha256 c cbor b seal in
    let sorted_entries = sort_entries b.entries in
    let placed : ArePlaced built.content built.index sorted_entries =
      place_sound sha256 (IsAdded b.entries) sorted_entries inj (
        All-sort_entries (λ e. IsAdded b.entries e.1 × (length e.1 < 2 ^ 32)) b.entries
          (All-IsAdded b.entries b.entries named (λ p x. x))) in
    let small : length built.content < 2 ^ 64 = omega (arith, short.all) in
    let sorted : IsSorted built.index =
      ArePlaced-IsSorted built.content built.index sorted_entries placed
        (sort_entries-IsSorted b.entries distinct) in
    (
      file_of sha256 c cbor b seal,
      build-file sha256 c cbor b seal_fn seal h,
      record {
        read =
            from_bytes-file c cbor built.header built.manifest_bytes seal built.content built.index
              built.manifest (laid_out sha256 c cbor b seal short)
              (ArePlaced-IsEncodable built.content built.index sorted_entries
                (All-sort_entries IsNamed b.entries named) small placed)
              k;
        sorted = sorted;
        found = λ key.
            lookup-eq-find built key sorted
            ∙ Agree-payload built (find_record built.index key alg_disc_default)
                (find_entry sorted_entries key alg_disc_default) small
                (find_record-Agree built.content built.index sorted_entries key alg_disc_default
                  placed)
            ∙ ap (λ e. and_then e payload) (find_entry-sort_entries b.entries key alg_disc_default);
        preferred = λ key ds.
            let all = ds ++ alg_disc_default ∷ [] in
            lookup_preferred-eq-find built key ds sorted
            ∙ Agree-payload built (first_record built.index key all)
                (first_entry sorted_entries key all) small
                (first_record-Agree built.content built.index sorted_entries key all placed)
            ∙ ap (λ e. and_then e payload) (first_entry-sort_entries b.entries key all);
      },
    )
