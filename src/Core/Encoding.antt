-- ===== src/Core/Encoding.antt =====
-- A concrete serialisation of the persistent state, for the examples: every list after its length.
use mathlib.Core.List.{append_assoc, append-nil}
use hoike.Base.{
  ℕ, zero, suc, ◌≡◌, refl, ap, sym, ◌∙◌, List, [], ◌∷◌, ◌++◌, Option, none, some, length, and_then,
}
use hoike.Core.State.{PersistedState}

-- A writer and a reader that undo one another before any rest.
pub record Coding {ℓ} (A : Type ℓ) : Type ℓ where
  pub write : A → List ℕ
  pub read : List ℕ → Option (A × List ℕ)
  pub read-write : (a : A) (rest : List ℕ) → read (write a ++ rest) ≡ some (a, rest)

abbrev pub read_number : List ℕ → Option (ℕ × List ℕ)
read_number [] = none
read_number (n ∷ rest) = some (n, rest)

abbrev pub numbers : Coding ℕ
numbers = record { write = λ n. n ∷ []; read = read_number; read-write = λ n rest. refl }

module _ {ℓ} {A : Type ℓ} (code : Coding A) where
  unfoldable pub write_items : List A → List ℕ
  write_items [] = []
  write_items (a ∷ xs) = code.write a ++ write_items xs

  unfoldable pub read_items : ℕ → List ℕ → Option (List A × List ℕ)
  read_items zero bytes = some ([], bytes)
  read_items (suc n) bytes =
      and_then (code.read bytes)
        λ (a, rest). and_then (read_items n rest) λ (xs, left). some (a ∷ xs, left)

  read_items-write_items :
      (xs : List A) (rest : List ℕ)
      → read_items (length xs) (write_items xs ++ rest) ≡ some (xs, rest)
  unfolding read_items write_items
  read_items-write_items [] rest = refl
  read_items-write_items (a ∷ xs) rest =
      rw (append_assoc (code.write a) (write_items xs) rest)
        (rw (code.read-write a (write_items xs ++ rest)) (rw (read_items-write_items xs rest) refl))

  unfoldable pub read_list : List ℕ → Option (List A × List ℕ)
  unfolding read_items
  read_list [] = none
  read_list (n ∷ rest) = read_items n rest

  pub read_list-write :
      (xs : List A) (rest : List ℕ)
      → read_list ((length xs ∷ write_items xs) ++ rest) ≡ some (xs, rest)
  unfolding read_list
  read_list-write xs rest = read_items-write_items xs rest

  abbrev pub lists : Coding (List A)
  lists = record {
    write = λ xs. length xs ∷ write_items xs;
    read = read_list;
    read-write = read_list-write;
  }

module _ {ℓ} {A B : Type ℓ} (first : Coding A) (second : Coding B) where
  unfoldable pub read_pair : List ℕ → Option ((A × B) × List ℕ)
  read_pair bytes =
      and_then (first.read bytes)
        λ (a, rest). and_then (second.read rest) λ (b, left). some ((a, b), left)

  pub read_pair-write :
      (p : A × B) (rest : List ℕ)
      → read_pair ((first.write p.0 ++ second.write p.1) ++ rest) ≡ some (p, rest)
  unfolding read_pair
  read_pair-write p rest =
      rw (append_assoc (first.write p.0) (second.write p.1) rest) (
        rw (first.read-write p.0 (second.write p.1 ++ rest)) (rw (second.read-write p.1 rest) refl))

  abbrev pub pairs : Coding (A × B)
  pairs = record {
    write = λ p. first.write p.0 ++ second.write p.1;
    read = read_pair;
    read-write = read_pair-write;
  }

abbrev pub bytes_coding : Coding (List ℕ)
bytes_coding = lists numbers

-- The three maps of a state.
abbrev pub state_coding :
    Coding (List (List ℕ × ℕ) × (List (List ℕ × List ℕ) × List (List ℕ × List (List ℕ))))
state_coding = pairs (lists (pairs bytes_coding numbers)) (
    pairs (lists (pairs bytes_coding bytes_coding))
      (lists (pairs bytes_coding (lists bytes_coding))))

unfoldable pub write_state : PersistedState → List ℕ
write_state s = state_coding.write (s.high_water_marks, (s.manifest_digests, s.active_bundles))

unfoldable pub read_state : List ℕ → Option PersistedState
read_state bytes = and_then (state_coding.read bytes) λ (s, rest).
    some (record { high_water_marks = s.0; manifest_digests = s.1.0; active_bundles = s.1.1 })

pub read_state-write_state : (s : PersistedState) → read_state (write_state s) ≡ some s
unfolding read_state write_state
read_state-write_state s =
    ap
      (λ o. and_then o λ (x, rest).
        some (record { high_water_marks = x.0; manifest_digests = x.1.0; active_bundles = x.1.1 }))
      (ap state_coding.read (sym (append-nil (write_state s)))
        ∙ state_coding.read-write (s.high_water_marks, (s.manifest_digests, s.active_bundles)) [])
