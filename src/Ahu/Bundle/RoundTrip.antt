-- ===== src/Ahu/Bundle/RoundTrip.antt =====
-- `Bundle::to_bytes` and `Bundle::from_bytes` of crates/ahu/src/bundle.rs together.
use mathlib.Core.List.{append_assoc, append-nil}
use hoike.Base.{
  ℕ, ◌+◌, ◌^◌, ◌<◌, ◌≡◌, refl, ap, List, [], ◌∷◌, ◌++◌, arith, some, ok, ok_or, length,
  length-append, drop-append, take-append, All,
}
use hoike.Ahu.Wire.{Codec}
use hoike.Ahu.Cbor.{Cbor}
use hoike.Ahu.Header
use hoike.Ahu.Header.{FileHeader, header_size, validate_bounds}
use hoike.Ahu.Header.RoundTrip as HeaderTrip
use hoike.Ahu.Header.Bounds
use hoike.Ahu.Header.Bounds.{validate_bounds_iff}
use hoike.Ahu.Index.{IndexRecord, write_all}
use hoike.Ahu.Index.RoundTrip as IndexTrip
use hoike.Ahu.Manifest.{Manifest}
use hoike.Ahu.Manifest.Decode.{from_cbor}
use hoike.Ahu.Bundle.{
  Bundle, get_range, read_section, read_records, parse_index, from_bytes, to_bytes,
}

pub get_range-append :
    (pre mid post : List ℕ)
    → length pre + length mid < 2 ^ 64
    → get_range (pre ++ (mid ++ post)) (length pre) (length mid) ≡ some mid
unfolding get_range
get_range-append pre mid post h =
    rw (drop-append pre (mid ++ post), take-append mid post)
      (ground (arith, length-append pre (mid ++ post), length-append mid post))

read_section-append :
    (pre mid post : List ℕ) (offset len : ℕ)
    → length pre ≡ offset
    → length mid ≡ len
    → offset + len < 2 ^ 64
    → read_section (pre ++ (mid ++ post)) offset len ≡ ok mid
unfolding read_section
read_section-append pre mid post offset len p q h =
    rw (← p, ← q) (rw (get_range-append pre mid post (omega arith), ok_or))

read_records-write_all :
    (c : Codec) (rs : List IndexRecord)
    → All IndexTrip.IsEncodable rs
    → read_records c (length rs) (write_all c rs) ≡ ok rs
unfolding read_records write_all
read_records-write_all c [] e = refl
read_records-write_all c (r ∷ rs) e =
    ground (
      arith,
      IndexTrip.read_from-write_to c r (write_all c rs) e.0,
      read_records-write_all c rs e.1,
    )

parse_index-write_all :
    (c : Codec) (rs : List IndexRecord)
    → All IndexTrip.IsEncodable rs
    → parse_index c (write_all c rs) ≡ ok rs
unfolding parse_index
parse_index-write_all c rs e =
    ground (arith, IndexTrip.length-write_all c rs e, read_records-write_all c rs e)

-- A section of a file that is cut in three.
section_of :
    (file pre mid post : List ℕ) (offset len : ℕ)
    → file ≡ pre ++ (mid ++ post)
    → length pre ≡ offset
    → length mid ≡ len
    → offset + len < 2 ^ 64
    → read_section file offset len ≡ ok mid
section_of file pre mid post offset len e p q h =
    rw e (read_section-append pre mid post offset len p q h)

module _ (c : Codec) (cbor : Cbor) (h : FileHeader) (m s d : List ℕ) (rs : List IndexRecord) where
  abbrev pub index_bytes : List ℕ
  index_bytes = write_all c rs

  abbrev pub head : List ℕ
  head = Header.write_to c h

  abbrev pub file : List ℕ
  file = head ++ (m ++ (s ++ (index_bytes ++ d)))

  -- The header's offsets are those at which the sections stand in the file.
  pub record IsLaidOut : Type 0 where
    pub encodable : HeaderTrip.IsEncodable h
    pub manifest_offset : h.manifest_offset ≡ header_size
    pub manifest_length : h.manifest_length ≡ length m
    pub seal_offset : h.seal_offset ≡ header_size + length m
    pub seal_length : h.seal_length ≡ length s
    pub index_offset : h.index_offset ≡ header_size + length m + length s
    pub index_length : h.index_length ≡ length index_bytes
    pub data_offset : h.data_offset ≡ header_size + length m + length s + length index_bytes
    pub data_length : h.data_length ≡ length d
    pub fits : header_size + length m + length s + length index_bytes + length d < 2 ^ 64

  pub length-file : length file ≡ header_size + length m + length s + length index_bytes + length d
  length-file = omega (
    arith,
    Bounds.length-write_to c h,
    length-append head (m ++ (s ++ (index_bytes ++ d))),
    length-append m (s ++ (index_bytes ++ d)),
    length-append s (index_bytes ++ d),
    length-append index_bytes d,
  )

  bounds_ok : IsLaidOut → validate_bounds h (length file) ≡ ok tt
  bounds_ok l = (validate_bounds_iff h (length file)).1 (omega (arith, length-file))

  manifest_section : IsLaidOut → read_section file h.manifest_offset h.manifest_length ≡ ok m
  manifest_section l =
      section_of file head m (s ++ (index_bytes ++ d)) _ _ refl
        (omega (arith, Bounds.length-write_to c h)) (omega arith) (omega arith)

  seal_section : IsLaidOut → read_section file h.seal_offset h.seal_length ≡ ok s
  seal_section l =
      section_of file (head ++ m) s (index_bytes ++ d) _ _ (simp append_assoc)
        (omega (arith, Bounds.length-write_to c h, length-append head m)) (omega arith)
        (omega arith)

  index_section : IsLaidOut → read_section file h.index_offset h.index_length ≡ ok index_bytes
  index_section l =
      section_of file (head ++ (m ++ s)) index_bytes d _ _ (simp append_assoc)
        (omega (arith, Bounds.length-write_to c h, length-append head (m ++ s), length-append m s))
        (omega arith) (omega arith)

  data_section : IsLaidOut → read_section file h.data_offset h.data_length ≡ ok d
  data_section l =
      section_of file (head ++ (m ++ (s ++ index_bytes))) d [] _ _ (simp (append_assoc, append-nil))
        (omega (
          arith,
          Bounds.length-write_to c h,
          length-append head (m ++ (s ++ index_bytes)),
          length-append m (s ++ index_bytes),
          length-append s index_bytes,
        ))
        (omega arith) (omega arith)

  -- A file that is laid out as its header says is parsed into its sections.
  pub from_bytes-file :
      (manifest : Manifest)
      → IsLaidOut
      → All IndexTrip.IsEncodable rs
      → from_cbor cbor m ≡ ok manifest
      → from_bytes c cbor file
        ≡ ok (record {
          header = h;
          manifest = manifest;
          manifest_bytes = m;
          seal_bytes = s;
          index = rs;
          content = d;
        })
  unfolding from_bytes
  from_bytes-file manifest l e k = ground (
    arith,
    HeaderTrip.read_from-write_to c h (m ++ (s ++ (index_bytes ++ d))) l.encodable,
    bounds_ok l,
    manifest_section l,
    seal_section l,
    index_section l,
    data_section l,
    parse_index-write_all c rs e,
  )

-- What a parsed bundle satisfies: the version that is read, and the widths of the records' fields.
pub record IsStorable (b : Bundle) : Type 0 where
  pub major : b.header.format_major ≡ Header.format_major
  pub minor : b.header.format_minor < 2 ^ 16
  pub index : All IndexTrip.IsEncodable b.index

-- The header that `to_bytes` writes when its lengths fit.
abbrev pub placed : Codec → Bundle → FileHeader
placed c b =
    let m = length b.manifest_bytes in
    let s = length b.seal_bytes in
    let i = length (write_all c b.index) in
    record (b.header) {
      manifest_offset = header_size;
      manifest_length = m;
      seal_offset = header_size + m;
      seal_length = s;
      index_offset = header_size + m + s;
      index_length = i;
      data_offset = header_size + m + s + i;
      data_length = length b.content;
    }

to_bytes-placed :
    (c : Codec) (cbor : Cbor) (b : Bundle) (out : List ℕ)
    → to_bytes c b ≡ ok out
    → (out ≡ file c cbor (placed c b) b.manifest_bytes b.seal_bytes b.content b.index)
      × (length b.manifest_bytes < 2 ^ 32)
      × (length b.seal_bytes < 2 ^ 32)
unfolding to_bytes
to_bytes-placed c cbor b out w = (ground arith, ground arith, ground arith)

-- Take a bundle of the major version that this crate reads, whose manifest is what its manifest bytes
-- decode to and whose records have the widths of the format. Whenever `to_bytes` writes it to less than
-- 2^64 bytes, `from_bytes` reads back its manifest, its manifest bytes, its seal, its index and its
-- data, under the header that the sections were laid out with.
pub from_bytes-to_bytes :
    (c : Codec) (cbor : Cbor) (b : Bundle) (out : List ℕ)
    → IsStorable b
    → from_cbor cbor b.manifest_bytes ≡ ok b.manifest
    → to_bytes c b ≡ ok out
    → length out < 2 ^ 64
    → from_bytes c cbor out ≡ ok (record b { header = placed c b })
from_bytes-to_bytes c cbor b out v k w fits =
    let (e, hm, hs) = to_bytes-placed c cbor b out w in
    rw e (
      from_bytes-file c cbor (placed c b) b.manifest_bytes b.seal_bytes b.content b.index b.manifest
        (laid_out
          (omega (
            arith,
            ap length e,
            length-file c cbor (placed c b) b.manifest_bytes b.seal_bytes b.content b.index,
          ))
          hm hs)
        v.index k)
  where
    laid_out :
        header_size
            + length b.manifest_bytes
            + length b.seal_bytes
            + length (write_all c b.index)
            + length b.content
          < 2 ^ 64
        → length b.manifest_bytes < 2 ^ 32
        → length b.seal_bytes < 2 ^ 32
        → IsLaidOut c cbor (placed c b) b.manifest_bytes b.seal_bytes b.content b.index
    laid_out f hm hs = omega (arith, v.major, v.minor)
