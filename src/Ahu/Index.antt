-- ===== src/Ahu/Index.antt =====
-- crates/ahu/src/index.rs: the 48-byte index records, their order and the searches in it.
pub mod RoundTrip
pub mod Order
pub mod Lookup
use hoike.Base.{
  ℕ, suc, ◌+◌, ◌-◌, List, [], ◌∷◌, ◌++◌, Bool, Option, none, some, ok, err, compare, Ordering,
  cmp_bytes, then_cmp, ◌==◌, ◌||◌, if◌then◌else◌, binary_search_by,
}
use hoike.Ahu.Error.{AhuError, AhuResult, index_not_sorted, duplicate_entry_key}
use hoike.Ahu.Wire.{Codec, IndexFlags, Reader, ◌>>=◌, pure, read_exact, read_uint}

abbrev pub index_record_size : ℕ
index_record_size = 48

abbrev pub alg_disc_default : ℕ
alg_disc_default = 0

abbrev pub alg_disc_ml_dsa_44 : ℕ
alg_disc_ml_dsa_44 = 2

abbrev pub alg_disc_ml_dsa_65 : ℕ
alg_disc_ml_dsa_65 = 3

abbrev pub alg_disc_ml_dsa_87 : ℕ
alg_disc_ml_dsa_87 = 4

pub record IndexRecord : Type 0 where
  pub entry_key : List ℕ
  pub data_offset : ℕ
  pub data_length : ℕ
  pub flags : IndexFlags
  pub discriminator : ℕ

pub read_from : Codec → Reader IndexRecord
read_from c = do
  entry_key ← read_exact 32
  data_offset ← read_uint c 8
  data_length ← read_uint c 4
  flags_raw ← read_uint c 2
  discriminator ← read_uint c 2
  pure (record {
    entry_key = entry_key;
    data_offset = data_offset;
    data_length = data_length;
    flags = c.from_bits_truncate flags_raw;
    discriminator = discriminator;
  })

pub write_to : Codec → IndexRecord → List ℕ
write_to c r =
    r.entry_key
    ++ (put 8 r.data_offset
        ++ (put 4 r.data_length ++ (put 2 (c.flag_bits r.flags) ++ put 2 r.discriminator)))
  where
    open c use {put}

-- The index section: every record after the one before it.
unfoldable pub write_all : Codec → List IndexRecord → List ℕ
write_all c [] = []
write_all c (r ∷ rs) = write_to c r ++ write_all c rs

abbrev pub is_tombstone : IndexRecord → Bool
is_tombstone r = r.flags.tombstone

-- `compute_entry_key`, over the hash that the sha2 crate computes.
abbrev pub compute_entry_key : (List ℕ → List ℕ) → List ℕ → List ℕ
compute_entry_key sha256 certid_der = sha256 certid_der

-- What names an entry: its key and its discriminator.
abbrev pub EntryName : Type 0
EntryName = List ℕ × ℕ

abbrev pub name_of : IndexRecord → EntryName
name_of r = (r.entry_key, r.discriminator)

abbrev pub cmp_name : EntryName → EntryName → Ordering
cmp_name a b = then_cmp (cmp_bytes a.0 b.0) (compare a.1 b.1)

-- The loop of `validate_sort_order` from record `i` on.
validate_from : ℕ → List IndexRecord → AhuResult (Unit {0})
validate_from i [] = ok tt
validate_from i (r ∷ []) = ok tt
validate_from i (r ∷ s ∷ rest) =
    let next = validate_from (i + 1) (s ∷ rest) in
    elim (cmp_bytes r.entry_key s.entry_key) [
      | Ordering.gt ↦ err (index_not_sorted i r.entry_key s.entry_key)
      | Ordering.eq ↦ elim (compare r.discriminator s.discriminator) [
        | Ordering.eq ↦ err (duplicate_entry_key i r.entry_key)
        | Ordering.gt ↦ err (index_not_sorted i r.entry_key s.entry_key)
        | Ordering.lt ↦ next
      ]
      | Ordering.lt ↦ next
    ]

pub validate_sort_order : List IndexRecord → AhuResult (Unit {0})
unfolding validate_from
validate_sort_order records = validate_from 0 records

unfoldable pub binary_search_with_discriminator : List IndexRecord → List ℕ → ℕ → Option ℕ
binary_search_with_discriminator records entry_key discriminator =
    binary_search_by
      (λ r. then_cmp (cmp_bytes r.entry_key entry_key) (compare r.discriminator discriminator))
      records

unfoldable pub binary_search : List IndexRecord → List ℕ → Option ℕ
binary_search records entry_key =
    binary_search_with_discriminator records entry_key alg_disc_default

contains : List ℕ → ℕ → Bool
contains [] d = Bool.false
contains (x ∷ xs) d = x == d || contains xs d

-- The loop over the preferences; what it does when none of them hits is the second argument.
search_preferences : List IndexRecord → List ℕ → Option ℕ → List ℕ → Option ℕ
search_preferences records entry_key fallback [] = fallback
search_preferences records entry_key fallback (disc ∷ rest) =
    let next = search_preferences records entry_key fallback rest in
    elim (binary_search_with_discriminator records entry_key disc) [
      | some idx ↦ some idx
      | none ↦ next
    ]

pub binary_search_preferred : List IndexRecord → List ℕ → List ℕ → Option ℕ
unfolding search_preferences contains
binary_search_preferred records entry_key preferences =
    search_preferences records entry_key
      (if contains preferences alg_disc_default
        then none
        else binary_search_with_discriminator records entry_key alg_disc_default)
      preferences
