-- ===== src/Ahu/Manifest/Fields.antt =====
-- The getters of `Manifest::from_cbor`: a part of a map is looked up by its integer key, and the first
-- entry of the key counts.
use hoike.Base.{
  ℕ, ◌^◌, List, Bool, false, Option, none, some, ok, err, ok_or, ◌>>=◌, ◌==◌, ltb, length,
  if◌then◌else◌,
}
use hoike.Ahu.Error.{AhuResult, manifest_field}
use hoike.Ahu.Cbor.{Value, Items, Entries, integer, bytes, text, array, dict, end, entry, pos}

-- `k.as_integer()` is the key that is looked for.
abbrev pub is_key : Value → ℕ → Bool
is_key (integer (pos n)) key = n == key
is_key _ key = false

unfoldable pub find_key : Entries → ℕ → Option Value
find_key end key = none
find_key (entry k v rest) key =
    let later = find_key rest key in if is_key k key then some v else later

-- What the getters demand of the value that they find.
unfoldable pub as_uint : Value → AhuResult ℕ
as_uint (integer (pos n)) = if ltb n (2 ^ 64) then ok n else err manifest_field
as_uint _ = err manifest_field

unfoldable pub as_bytes : Value → AhuResult (List ℕ)
as_bytes (bytes b) = ok b
as_bytes _ = err manifest_field

unfoldable pub as_text : Value → AhuResult (List ℕ)
as_text (text s) = ok s
as_text _ = err manifest_field

unfoldable pub as_map : Value → Option Entries
as_map (dict m) = some m
as_map _ = none

unfoldable pub as_array : Value → AhuResult Items
as_array (array a) = ok a
as_array _ = err manifest_field

unfoldable pub get_uint : Entries → ℕ → AhuResult ℕ
unfolding as_uint find_key
get_uint m key = do v ← ok_or (find_key m key) manifest_field; as_uint v

unfoldable pub get_bytes : Entries → ℕ → AhuResult (List ℕ)
unfolding as_bytes find_key
get_bytes m key = do v ← ok_or (find_key m key) manifest_field; as_bytes v

unfoldable pub get_text : Entries → ℕ → AhuResult (List ℕ)
unfolding as_text find_key
get_text m key = do v ← ok_or (find_key m key) manifest_field; as_text v

unfoldable pub get_map : Entries → ℕ → AhuResult Entries
unfolding as_map find_key
get_map m key = do v ← ok_or (find_key m key) manifest_field; ok_or (as_map v) manifest_field

unfoldable pub get_array : Entries → ℕ → AhuResult Items
unfolding as_array find_key
get_array m key = do v ← ok_or (find_key m key) manifest_field; as_array v

unfoldable pub to_fixed_32 : List ℕ → AhuResult (List ℕ)
to_fixed_32 b = if length b == 32 then ok b else err manifest_field

-- `get_optional_bytes(..)?.map(to_fixed_32).transpose()?`
unfoldable pub get_optional_digest : Entries → ℕ → AhuResult (Option (List ℕ))
unfolding as_bytes find_key to_fixed_32
get_optional_digest m key = elim (find_key m key) [
  | none ↦ ok none
  | some v ↦ do b ← as_bytes v; d ← to_fixed_32 b; ok (some d)
]

-- A value that is present and no map counts as absent here.
unfoldable pub get_optional_map : Entries → ℕ → Option Entries
unfolding as_map find_key
get_optional_map m key = elim (find_key m key) [ none ↦ none | some v ↦ as_map v ]
