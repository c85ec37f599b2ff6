-- ===== src/Ahu/Samples.antt =====
-- Concrete third-party code and a small bundle, for the examples.
use hoike.Base.{
  ℕ, zero, suc, ◌+◌, ◌*◌, ◌/◌, ◌%◌, ◌^◌, ◌<◌, ◌≡◌, refl, List, [], ◌∷◌, ◌++◌, Bool, true, false,
  none, some, arith, ◌==◌, length, length-append, ◌∙◌,
}
use hoike.Ahu.Wire.{Codec, IndexFlags}
use hoike.Ahu.Cbor.{Cbor, dict}
use hoike.Ahu.Header.{FileHeader}
use hoike.Ahu.Index.{IndexRecord}
use hoike.Ahu.Manifest.{Manifest, CaScope, full, partial, by_key}
use hoike.Ahu.Manifest.Encode.{root_entries}
use hoike.Ahu.Bundle.{Bundle}
use hoike.Ahu.Verify.{VerifyResult}

-- Big-endian bytes.
abbrev put_be : ℕ → ℕ → List ℕ
put_be zero v = []
put_be (suc w) v = put_be w (v / 256) ++ (v % 256) ∷ []

abbrev get_from : ℕ → List ℕ → ℕ
get_from acc [] = acc
get_from acc (b ∷ bs) = get_from (acc * 256 + b) bs

pub length-put_be : (w v : ℕ) → length (put_be w v) ≡ w
length-put_be zero v = refl
length-put_be (suc w) v =
    omega (arith, length-append (put_be w (v / 256)) ((v % 256) ∷ []), length-put_be w (v / 256))

get_from-snoc :
    (acc : ℕ) (bs : List ℕ) (b : ℕ) → get_from acc (bs ++ b ∷ []) ≡ get_from acc bs * 256 + b
get_from-snoc acc [] b = refl
get_from-snoc acc (x ∷ bs) b = get_from-snoc (acc * 256 + x) bs b

pub get_from-put_be : (w v : ℕ) → v < 256 ^ w → get_from 0 (put_be w v) ≡ v
get_from-put_be zero v h = omega arith
get_from-put_be (suc w) v h =
    get_from-snoc 0 (put_be w (v / 256)) (v % 256)
    ∙ omega (arith, get_from-put_be w (v / 256) (omega arith))

abbrev bit : Bool → ℕ
bit false = 0
bit true = 1

abbrev bits_of : IndexFlags → ℕ
bits_of f = bit f.multi + 2 * bit f.is_alias + 4 * bit f.tombstone

abbrev flags_of : ℕ → IndexFlags
flags_of n = record {
  multi = n % 2 == 1;
  is_alias = (n / 2) % 2 == 1;
  tombstone = (n / 4) % 2 == 1;
}

pub bits_of-lt : (f : IndexFlags) → bits_of f < 256 ^ 2
bits_of-lt f = ground arith

pub flags_of-bits_of : (f : IndexFlags) → flags_of (bits_of f) ≡ f
flags_of-bits_of f = ground arith

abbrev pub big_endian : Codec
big_endian = record {
  put = put_be;
  get = get_from 0;
  flag_bits = bits_of;
  from_bits_truncate = flags_of;
  length-put = length-put_be;
  get-put = get_from-put_be;
  flag_bits-lt = bits_of-lt;
  from_bits-flag_bits = flags_of-bits_of;
}

abbrev pub repeat_byte : ℕ → ℕ → List ℕ
repeat_byte zero b = []
repeat_byte (suc n) b = b ∷ repeat_byte n b

-- A stand-in for SHA-256: 32 bytes that depend on every byte of the input.
abbrev pub checksum : List ℕ → List ℕ
checksum bytes = put_be 32 (get_from 1 bytes)

abbrev pub no_flags : IndexFlags
no_flags = record { multi = false; is_alias = false; tombstone = false }

abbrev pub one_record : IndexRecord
one_record = record {
  entry_key = repeat_byte 32 1;
  data_offset = 0;
  data_length = 3;
  flags = no_flags;
  discriminator = 0;
}

-- A variant of the same certificate, under another algorithm.
abbrev pub other_record : IndexRecord
other_record = record {
  entry_key = repeat_byte 32 1;
  data_offset = 3;
  data_length = 2;
  flags = no_flags;
  discriminator = 3;
}

abbrev pub records : List IndexRecord
records = one_record ∷ other_record ∷ []

abbrev pub content : List ℕ
content = 10 ∷ 11 ∷ 12 ∷ 13 ∷ 14 ∷ []

abbrev pub scope_at : ℕ → CaScope
scope_at epoch = record {
  hash_algorithm = 6 ∷ [];
  issuer_name_hash = repeat_byte 32 170;
  issuer_key_hash = repeat_byte 32 187;
  epoch = epoch;
  responder_id = record { id_type = by_key; value = repeat_byte 20 204 };
  responder_chain = some ((48 ∷ []) ∷ []);
  signature_algorithm = 2 ∷ [];
  completeness = partial;
}

abbrev pub manifest_at : ℕ → Manifest
manifest_at epoch = record {
  format_version = 1;
  bundle_id = repeat_byte 16 0;
  producer_id = 116 ∷ [];
  created_at = 1_700_000_000;
  bundle_type = full;
  ca_scopes = scope_at epoch ∷ [];
  window = record {
    produced_at = 100;
    this_update_min = 100;
    next_update_min = 200;
    next_update_max = 300;
  };
  integrity = record { index_digest = repeat_byte 32 0; data_digest = repeat_byte 32 0 };
  entry_count = 2;
  continuity = record {
    prev_manifest_digest = none;
    base_manifest_digest = none;
    chain_length = 0;
  };
  shard = none;
  compression = none;
  extensions = none;
}

-- A reader that knows one value.
abbrev pub cbor_of : Manifest → Cbor
cbor_of m = record {
  into_writer = λ v. 161 ∷ 162 ∷ [];
  from_reader = λ bytes. some (dict (root_entries m));
  uuid_from_slice = some;
}

abbrev pub empty_header : FileHeader
empty_header = record {
  format_major = 0;
  format_minor = 1;
  manifest_offset = 0;
  manifest_length = 0;
  seal_offset = 0;
  seal_length = 0;
  index_offset = 0;
  index_length = 0;
  data_offset = 0;
  data_length = 0;
}

abbrev pub bundle_at : ℕ → Bundle
bundle_at epoch = record {
  header = empty_header;
  manifest = manifest_at epoch;
  manifest_bytes = 161 ∷ 162 ∷ [];
  seal_bytes = 48 ∷ [];
  index = records;
  content = content;
}

-- A digest that maps everything to the digests of the sample manifest.
abbrev pub zero_digest : List ℕ → List ℕ
zero_digest bytes = repeat_byte 32 0

-- What the structural verification answers for the sample bundle.
abbrev pub accepted : VerifyResult
accepted = record {
  header_ok = true;
  manifest_ok = true;
  index_digest_ok = true;
  data_digest_ok = true;
  sort_order_ok = true;
  entry_bounds_ok = true;
  seal_present = true;
  entry_count_matches = true;
  warnings = [];
}
