-- ===== src/Ahu/Bundle.antt =====
-- crates/ahu/src/bundle.rs: a parsed bundle, its serialisation and its lookups. A usize has 64 bits.
pub mod RoundTrip
pub mod Lookup
use hoike.Base.{
  ℕ, zero, suc, ◌+◌, ◌/◌, ◌%◌, ◌^◌, String, List, [], ◌∷◌, ◌++◌, Bool, Option, none, some, ok, err,
  ok_or, ◌>>=◌, ◌>>◌, guard, ◌==◌, ltb, leb, if◌then◌else◌, length, take, drop, get_elem?, and_then,
}
use hoike.Ahu.Error.{
  AhuError, AhuResult, header_out_of_bounds, index_size_mismatch, invalid_operation,
}
use hoike.Ahu.Wire.{Codec}
use hoike.Ahu.Cbor.{Cbor}
use hoike.Ahu.Header
use hoike.Ahu.Header.{FileHeader, header_size, validate_bounds}
use hoike.Ahu.Index
use hoike.Ahu.Index.{
  IndexRecord, index_record_size, is_tombstone, write_all, binary_search, binary_search_preferred,
}
use hoike.Ahu.Manifest.{Manifest}
use hoike.Ahu.Manifest.Decode.{from_cbor}

pub record Bundle : Type 0 where
  pub header : FileHeader
  pub manifest : Manifest
  pub manifest_bytes : List ℕ
  pub seal_bytes : List ℕ
  pub index : List IndexRecord
  pub content : List ℕ

-- `start.checked_add(len)` and `slice.get(start..end)`
unfoldable pub get_range : List ℕ → ℕ → ℕ → Option (List ℕ)
get_range bytes start len =
    if leb (2 ^ 64) (start + len)
    then none
    else if leb (start + len) (length bytes)
    then some (take len (drop start bytes))
    else none

unfoldable pub read_section : List ℕ → ℕ → ℕ → AhuResult (List ℕ)
unfolding get_range
read_section bytes offset len =
    ok_or (get_range bytes offset len) (header_out_of_bounds "section" offset len (length bytes))

-- `for _ in 0..count { records.push(read_from(cursor)?) }`
read_records : Codec → ℕ → List ℕ → AhuResult (List IndexRecord)
read_records c zero cursor = ok []
read_records c (suc count) cursor = do
  (r, rest) ← Index.read_from c cursor
  rs ← read_records c count rest
  ok (r ∷ rs)

unfoldable pub parse_index : Codec → List ℕ → AhuResult (List IndexRecord)
unfolding read_records
parse_index c index_bytes = do
  guard (length index_bytes % index_record_size == 0)
      (index_size_mismatch (length index_bytes) index_record_size)
  read_records c (length index_bytes / index_record_size) index_bytes

unfoldable pub from_bytes : Codec → Cbor → List ℕ → AhuResult Bundle
from_bytes c cbor bytes = do
  (header, _) ← Header.read_from c bytes
  validate_bounds header (length bytes)
  manifest_bytes ← read_section bytes header.manifest_offset header.manifest_length
  manifest ← from_cbor cbor manifest_bytes
  seal_bytes ← read_section bytes header.seal_offset header.seal_length
  index_bytes ← read_section bytes header.index_offset header.index_length
  index ← parse_index c index_bytes
  content ← read_section bytes header.data_offset header.data_length
  ok (record {
    header = header;
    manifest = manifest;
    manifest_bytes = manifest_bytes;
    seal_bytes = seal_bytes;
    index = index;
    content = content;
  })

-- `u32::try_from(len).map_err(..)`
abbrev u32_try_from : ℕ → AhuResult ℕ
u32_try_from n = if ltb n (2 ^ 32) then ok n else err invalid_operation

-- The header that `to_bytes` computes: the four sections follow the header and one another.
unfoldable pub layout : FileHeader → ℕ → ℕ → ℕ → ℕ → AhuResult FileHeader
layout header manifest_len seal_len index_len data_len = do
  manifest_length ← u32_try_from manifest_len
  seal_length ← u32_try_from seal_len
  let seal_offset = header_size + manifest_length
  let index_offset = seal_offset + seal_length
  guard (ltb (index_offset + index_len) (2 ^ 64)) invalid_operation
  ok (record header {
    manifest_offset = header_size;
    manifest_length = manifest_length;
    seal_offset = seal_offset;
    seal_length = seal_length;
    index_offset = index_offset;
    index_length = index_len;
    data_offset = index_offset + index_len;
    data_length = data_len;
  })

unfoldable pub to_bytes : Codec → Bundle → AhuResult (List ℕ)
unfolding layout
to_bytes c b = do
  let index = write_all c b.index
  header ←
      layout b.header (length b.manifest_bytes) (length b.seal_bytes) (length index)
        (length b.content)
  ok (Header.write_to c header ++ (b.manifest_bytes ++ (b.seal_bytes ++ (index ++ b.content))))

-- `entry_bytes`: a tombstone has none, and a range outside the data section gives none.
unfoldable pub entry_bytes : Bundle → IndexRecord → Option (List ℕ)
unfolding get_range
entry_bytes b r = if is_tombstone r then none else get_range b.content r.data_offset r.data_length

unfoldable pub entry_at : Bundle → ℕ → Option (List ℕ)
unfolding get_range
entry_at b idx = elim (get_elem? b.index idx) [
  | none ↦ none
  | some r ↦ if is_tombstone r then none else get_range b.content r.data_offset r.data_length
]

unfoldable pub lookup : Bundle → List ℕ → Option (List ℕ)
unfolding entry_at
lookup b entry_key = and_then (binary_search b.index entry_key) (entry_at b)

unfoldable pub lookup_preferred : Bundle → List ℕ → List ℕ → Option (List ℕ)
unfolding entry_at
lookup_preferred b entry_key preferences =
    and_then (binary_search_preferred b.index entry_key preferences) (entry_at b)
