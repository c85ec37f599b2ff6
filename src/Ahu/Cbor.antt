-- ===== src/Ahu/Cbor.antt =====
-- The values of the ciborium crate, as far as crates/ahu/src/manifest.rs builds and matches them, and
-- the crates' own operations as parameters.
use hoike.Base.{ℕ, List, Option}

-- An integer of CBOR: `pos n` is n and `negsuc n` is -(n + 1).
pub data Integer : Type 0 where
  pos : ℕ → Integer
  negsuc : ℕ → Integer

-- `other` stands for the values that the manifest code treats alike: floats, booleans, null, tags.
mutual
  pub data Value : Type 0 where
    integer : Integer → Value
    bytes : List ℕ → Value
    text : List ℕ → Value
    array : Items → Value
    dict : Entries → Value
    other : ℕ → Value

  pub data Items : Type 0 where
    nil : Items
    cons : Value → Items → Items

  pub data Entries : Type 0 where
    end : Entries
    entry : Value → Value → Entries → Entries

-- `ciborium::into_writer`, `ciborium::from_reader` and `Uuid::from_slice`.
pub record Cbor : Type 0 where
  pub into_writer : Value → List ℕ
  pub from_reader : List ℕ → Option Value
  pub uuid_from_slice : List ℕ → Option (List ℕ)
