-- ===== src/Ahu/Build.antt =====
-- `BundleBuilder` of crates/ahu/src/bundle.rs. `sort_by_key` is the standard library's stable sort, here
-- by insertion, and the map of payload offsets is keyed by the digest.
pub mod Sort
pub mod Place
pub mod Lookup
pub mod RoundTrip
use hoike.Base.{
  ℕ, ◌+◌, ◌%◌, ◌^◌, List, [], ◌∷◌, ◌++◌, Bool, true, false, Option, none, some, ok, err, ◌>>=◌,
  Ordering, if◌then◌else◌, length,
}
use hoike.Base.Assoc.{Assoc}
use hoike.Base.Assoc
use hoike.Ahu.Error.{AhuResult}
use hoike.Ahu.Wire.{Codec, IndexFlags}
use hoike.Ahu.Cbor.{Cbor}
use hoike.Ahu.Header
use hoike.Ahu.Header.{FileHeader, header_size}
use hoike.Ahu.Index.{IndexRecord, is_tombstone, name_of, cmp_name, write_all}
use hoike.Ahu.Manifest.{Manifest}
use hoike.Ahu.Manifest.Encode.{to_cbor}

abbrev pub Entry : Type 0
Entry = IndexRecord × List ℕ

pub record Builder : Type 0 where
  pub manifest : Manifest
  pub entries : List Entry

abbrev pub new_builder : Manifest → Builder
new_builder manifest = record { manifest = manifest; entries = [] }

-- `payload.len() as u32`
abbrev pub as_u32 : ℕ → ℕ
as_u32 n = n % 2 ^ 32

abbrev pub new_entry : List ℕ → ℕ → IndexFlags → List ℕ → Entry
new_entry entry_key discriminator flags response_der = (
  record {
    entry_key = entry_key;
    data_offset = 0;
    data_length = as_u32 (length response_der);
    flags = flags;
    discriminator = discriminator;
  },
  response_der,
)

abbrev pub no_flags : IndexFlags
no_flags = record { multi = false; is_alias = false; tombstone = false }

abbrev pub add_entry_with_discriminator : Builder → List ℕ → ℕ → List ℕ → Builder
add_entry_with_discriminator b entry_key discriminator response_der = record b {
  entries = b.entries ++ new_entry entry_key discriminator no_flags response_der ∷ [];
}

abbrev pub add_entry : Builder → List ℕ → List ℕ → Builder
add_entry b entry_key response_der = add_entry_with_discriminator b entry_key 0 response_der

abbrev alias_flags : IndexFlags
alias_flags = record { multi = true; is_alias = true; tombstone = false }

abbrev pub add_dual_entry_with_discriminator : Builder → List ℕ → List ℕ → List ℕ → ℕ → Builder
add_dual_entry_with_discriminator b entry_key_1 entry_key_2 response_der discriminator = record b {
  entries =
      b.entries
      ++ new_entry entry_key_1 discriminator alias_flags response_der
        ∷ new_entry entry_key_2 discriminator alias_flags response_der
        ∷ [];
}

abbrev pub add_dual_entry : Builder → List ℕ → List ℕ → List ℕ → Builder
add_dual_entry b entry_key_1 entry_key_2 response_der =
    add_dual_entry_with_discriminator b entry_key_1 entry_key_2 response_der 0

abbrev pub add_tombstone : Builder → List ℕ → ℕ → Builder
add_tombstone b entry_key discriminator = record b {
  entries =
      b.entries ++ new_entry entry_key discriminator (record no_flags { tombstone = true }) [] ∷ [];
}

-- An entry goes before the first one whose name is not smaller.
unfoldable pub insert_entry : Entry → List Entry → List Entry
insert_entry x [] = x ∷ []
insert_entry x (y ∷ ys) =
    let later = insert_entry x ys in
    elim (cmp_name (name_of y.0) (name_of x.0)) [ Ordering.lt ↦ y ∷ later | _ ↦ x ∷ y ∷ ys ]

unfoldable pub sort_entries : List Entry → List Entry
unfolding insert_entry
sort_entries [] = []
sort_entries (x ∷ xs) = insert_entry x (sort_entries xs)

-- The data section so far, and where the payloads of its aliases stand.
pub record Section : Type 0 where
  pub content : List ℕ
  pub payload_offsets : Assoc (ℕ × ℕ)

module _ (sha256 : List ℕ → List ℕ) where
  abbrev pub append_payload : Section → IndexRecord → List ℕ → IndexRecord
  append_payload s r payload = record r {
    data_offset = length s.content;
    data_length = as_u32 (length payload);
  }

  -- One round of the loop over the sorted entries.
  unfoldable pub place_entry : Section → Entry → IndexRecord × Section
  place_entry s (r, payload) =
      let digest = sha256 payload in
      let grown = s.content ++ payload in
      if is_tombstone r
      then (record r { data_offset = 0; data_length = 0 }, s)
      else if r.flags.is_alias
      then elim (Assoc.lookup digest s.payload_offsets) [
        | some (offset, len) ↦ (record r { data_offset = offset; data_length = len }, s)
        | none ↦ (
          append_payload s r payload,
          record {
            content = grown;
            payload_offsets =
                Assoc.insert digest (length s.content, as_u32 (length payload)) s.payload_offsets;
          },
        )
      ]
      else (append_payload s r payload, record s { content = grown })

  -- The records in order, and the whole data section.
  unfoldable pub place : Section → List Entry → List IndexRecord × List ℕ
  unfolding place_entry
  place s [] = ([], s.content)
  place s (e ∷ es) =
      let (r, next) = place_entry s e in let (rs, content) = place next es in (r ∷ rs, content)

  -- The manifest with what `build` computes.
  abbrev pub seal_manifest : Codec → Manifest → List IndexRecord → List ℕ → Manifest
  seal_manifest c manifest index content = record manifest {
    integrity = record { index_digest = sha256 (write_all c index); data_digest = sha256 content };
    entry_count = length index;
  }

  abbrev pub header_of : ℕ → ℕ → ℕ → ℕ → FileHeader
  header_of manifest_len seal_len index_len data_len =
      let seal_offset = header_size + as_u32 manifest_len in
      let index_offset = seal_offset + as_u32 seal_len in
      record {
        format_major = Header.format_major;
        format_minor = Header.format_minor;
        manifest_offset = header_size;
        manifest_length = as_u32 manifest_len;
        seal_offset = seal_offset;
        seal_length = as_u32 seal_len;
        index_offset = index_offset;
        index_length = index_len;
        data_offset = index_offset + index_len;
        data_length = data_len;
      }

  unfoldable pub build : Codec → Cbor → (List ℕ → AhuResult (List ℕ)) → Builder → AhuResult (List ℕ)
  unfolding place sort_entries
  build c cbor seal_fn b = do
    let (index, content) =
        place (record { content = []; payload_offsets = [] }) (sort_entries b.entries)
    let index_section = write_all c index
    let manifest_bytes = to_cbor cbor (seal_manifest c b.manifest index content)
    seal_bytes ← seal_fn manifest_bytes
    let header =
        header_of (length manifest_bytes) (length seal_bytes) (length index_section)
          (length content)
    ok (Header.write_to c header ++ (manifest_bytes ++ (seal_bytes ++ (index_section ++ content))))
