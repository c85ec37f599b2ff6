-- ===== src/Gossip/Node/Rows.antt =====
-- What the rows of the table of crates/hoike-gossip/src/node.rs stand for, and that they do not fall back.
use hoike.Base.{
  ℕ, suc, ◌≡◌, ◌≤◌, ◌<◌, refl, sym, ap, ◌∙◌, List, [], ◌∷◌, Option, none, some, some-injective,
  arith, true, false, Bool-cases, Option-cases, inl, inr, ◌⊎◌, le→leb, length, get_elem?, leb,
}
use hoike.Base.Table.{
  lookup, insert, retain, contains_key, length-retain-le, length-insert, lookup-insert,
  lookup-retain, AllPairs, AllPairs-retain, AllPairs-weaken, AllPairs-insert, AllPairs-lookup,
}
use hoike.Gossip.Message.{GossipMessage, generation_announcement, urgent_revocation, valid_bounds}
use hoike.Gossip.Node.{
  GenKey, GenRecord, GenerationTable, gen_key_of, gen_key, new_row, observe, is_live, max_rows,
  record_row, record_generation, beq_gen_key, beq_gen_key_iff,
}

module _ (hex_encode : List ℕ → List ℕ) where
  -- Announcements that a node hears, with the times, the last one first.
  unfoldable pub heard_table : List (GossipMessage × ℕ) → GenerationTable
  heard_table [] = []
  heard_table ((msg, now) ∷ before) = record_generation hex_encode (heard_table before) msg now

  -- The announcement that a row shows.
  pub record Shows (heard : List (GossipMessage × ℕ)) (key : GenKey) (row : GenRecord)
      : Type 0 where
    pub index : ℕ
    pub producer : List ℕ
    pub hash : List ℕ
    pub digest : List ℕ
    pub url : Option (List ℕ)
    pub origin : List ℕ
    pub time : ℕ
    pub announced :
        get_elem? heard index
        ≡ some (generation_announcement producer hash row.epoch digest url origin, time)
    pub in_bounds :
        valid_bounds (generation_announcement producer hash row.epoch digest url origin) ≡ true
    pub keyed : gen_key hex_encode origin producer hash ≡ key
    pub shown : row.manifest_digest ≡ hex_encode digest
    pub named :
        (row.origin_node ≡ origin)
        × (row.producer_id ≡ producer)
        × (row.issuer_key_hash ≡ hex_encode hash)

  Shows-later :
      (m : GossipMessage × ℕ) (heard : List (GossipMessage × ℕ)) (key : GenKey) (row : GenRecord)
      → Shows heard key row
      → Shows (m ∷ heard) key row
  Shows-later m heard key row s = record {
    index = suc s.index;
    producer = s.producer;
    hash = s.hash;
    digest = s.digest;
    url = s.url;
    origin = s.origin;
    time = s.time;
    announced = s.announced;
    in_bounds = s.in_bounds;
    keyed = s.keyed;
    shown = s.shown;
    named = s.named;
  }

  module _ (table : GenerationTable) (key : GenKey) (epoch : ℕ) (digest : List ℕ) (now : ℕ) where
    abbrev live : GenerationTable
    live = retain (is_live now) table

    abbrev after : GenerationTable
    after = record_row hex_encode table key epoch digest now

    abbrev fresh_row : GenRecord
    fresh_row = observe (new_row hex_encode key epoch digest now) epoch digest now

    absent : lookup key live ≡ none → contains_key key live ≡ false
    absent e = rw (e, contains_key) refl

    present : (row : GenRecord) → lookup key live ≡ some row → contains_key key live ≡ true
    present row e = rw (e, contains_key) refl

    -- The three ways of `record_generation`: the table is full, the row is new, or it is there.
    record_row-cases :
        ((lookup key live ≡ none) × (after ≡ live))
        ⊎ (((lookup key live ≡ none)
              × (length live < max_rows)
              × (after ≡ insert key fresh_row live))
            ⊎ ((row : GenRecord) × (lookup key live ≡ some row)
                × (after ≡ insert key (observe row epoch digest now) live)))
    unfolding record_row
    record_row-cases = elim (Option-cases (lookup key live)) [
      | inr (row, e) ↦ inr (inr (row, e, rw (present row e, e) refl))
      | inl e ↦ elim (Bool-cases (leb max_rows (length live))) [
        | inl full ↦ inl (e, rw (absent e, full) refl)
        | inr room ↦ inr (inl (e, ground arith, rw (absent e, room, e) refl))
      ]
    ]

    record_row-AllPairs {μ} :
        (P : GenKey → GenRecord → Type μ)
        → P key fresh_row
        → ((row : GenRecord) → P key row → P key (observe row epoch digest now))
        → AllPairs P table
        → AllPairs P after
    record_row-AllPairs P fresh again a =
        let kept = AllPairs-retain P (is_live now) table a in
        elim record_row-cases [
          | inl (_, e) ↦ rw e kept
          | inr (inl (_, _, e)) ↦ rw e (AllPairs-insert P key fresh_row live fresh kept)
          | inr (inr (row, at, e)) ↦ rw e (
              AllPairs-insert P key (observe row epoch digest now) live
                (again row (AllPairs-lookup P key row live kept at)) kept)
        ]

    record_row-bounded : length table ≤ max_rows → length after ≤ max_rows
    record_row-bounded bound =
        let kept = length-retain-le (is_live now) table in
        elim record_row-cases [
          | inl (_, e) ↦ rw e (omega arith)
          | inr (inl (f, room, e)) ↦
              rw (e, length-insert key fresh_row live, absent f) (omega arith)
          | inr (inr (row, at, e)) ↦
              rw (e, length-insert key (observe row epoch digest now) live, present row at)
                (omega arith)
        ]

    -- What was live under a key is there afterwards, and not older.
    record_row-Rises :
        (k : GenKey) (row : GenRecord)
        → lookup k table ≡ some row
        → is_live now row ≡ true
        → (row' : GenRecord) × (lookup k after ≡ some row') × (row.epoch ≤ row'.epoch)
    record_row-Rises k row at young =
        let kept = lookup-retain (is_live now) k row table at young in
        elim record_row-cases [
          | inl (_, e) ↦ (row, rw e kept, omega arith)
          | inr (inl (f, _, e)) ↦ elim (Bool-cases (beq_gen_key key k)) [
            | inl t ↦
                let same : key ≡ k = (beq_gen_key_iff key k).0 t in
                absurd (cc (sym kept ∙ ap (λ (x : GenKey). lookup x live) (sym same) ∙ f))
            | inr n ↦ (row, rw (e, lookup-insert key k fresh_row live, n) kept, omega arith)
          ]
          | inr (inr (old, f, e)) ↦ elim (Bool-cases (beq_gen_key key k)) [
            | inl t ↦
                let same : key ≡ k = (beq_gen_key_iff key k).0 t in
                let older : old ≡ row =
                  some-injective old row (sym f ∙ ap (λ (x : GenKey). lookup x live) same ∙ kept) in
                (
                  observe old epoch digest now,
                  rw (e, lookup-insert key k (observe old epoch digest now) live, t) refl,
                  rw (sym older) (ground arith),
                )
            | inr n ↦ (
              row,
              rw (e, lookup-insert key k (observe old epoch digest now) live, n) kept,
              omega arith,
            )
          ]
        ]

  module _ (producer hash : List ℕ) (epoch : ℕ) (digest : List ℕ) (url : Option (List ℕ))
      (origin : List ℕ) (now : ℕ) (heard : List (GossipMessage × ℕ)) where
    abbrev message : GossipMessage
    message = generation_announcement producer hash epoch digest url origin

    abbrev row_key : GenKey
    row_key = gen_key hex_encode origin producer hash

    Shows-new :
        valid_bounds message ≡ true
        → Shows ((message, now) ∷ heard) row_key (
            observe
              (new_row hex_encode row_key epoch (hex_encode digest) now)
              epoch
              (hex_encode digest)
              now)
    Shows-new v = rw (le→leb epoch epoch (omega arith)) record {
      index = 0;
      producer = producer;
      hash = hash;
      digest = digest;
      url = url;
      origin = origin;
      time = now;
      announced = refl;
      in_bounds = v;
      keyed = refl;
      shown = refl;
      named = (refl, refl, refl);
    }

    Shows-observe :
        valid_bounds message ≡ true
        → (row : GenRecord) → Shows ((message, now) ∷ heard) row_key row
        → Shows ((message, now) ∷ heard) row_key (observe row epoch (hex_encode digest) now)
    Shows-observe v row s = elim (Bool-cases (leb row.epoch epoch)) [
      | inl t ↦
          let (o, p, h) = s.named in
          let keys = s.keyed in
          rw t record {
            index = 0;
            producer = producer;
            hash = hash;
            digest = digest;
            url = url;
            origin = origin;
            time = now;
            announced = refl;
            in_bounds = v;
            keyed = refl;
            shown = refl;
            named = (
              o ∙ ap (λ (k : GenKey). k.origin) keys,
              p ∙ ap (λ (k : GenKey). k.producer) keys,
              h ∙ ap (λ (k : GenKey). k.ikh_hex) keys,
            );
          }
      | inr f ↦ rw f record {
        index = s.index;
        producer = s.producer;
        hash = s.hash;
        digest = s.digest;
        url = s.url;
        origin = s.origin;
        time = s.time;
        announced = s.announced;
        in_bounds = s.in_bounds;
        keyed = s.keyed;
        shown = s.shown;
        named = s.named;
      }
    ]

  -- Whatever a node hears and whenever, each row of its table shows an announcement that it has heard and
  -- that is within its bounds: one by the node, the producer and the issuer of the row's key, whose epoch
  -- and manifest digest are both those of the row. And there are at most 4096 rows.
  pub heard_table-Shows :
      (heard : List (GossipMessage × ℕ))
      → AllPairs (Shows heard) (heard_table heard) × (length (heard_table heard) ≤ max_rows)
  unfolding heard_table record_generation
  heard_table-Shows [] = (tt, omega arith)
  heard_table-Shows ((urgent_revocation producer hash epoch origin, now) ∷ heard) =
      let (a, b) = heard_table-Shows heard in
      (AllPairs-weaken _ _ (heard_table heard) (Shows-later _ heard) a, b)
  heard_table-Shows ((generation_announcement producer hash epoch digest url origin, now) ∷ heard) =
      let (a, b) = heard_table-Shows heard in
      let msg = generation_announcement producer hash epoch digest url origin in
      let key = gen_key hex_encode origin producer hash in
      let seen = (msg, now) ∷ heard in
      let later =
        AllPairs-weaken _ (Shows seen) (heard_table heard) (Shows-later (msg, now) heard) a in
      elim (Bool-cases (valid_bounds msg)) [
        | inr f ↦ rw f (later, b)
        | inl t ↦ rw t (
          record_row-AllPairs (heard_table heard) key epoch (hex_encode digest) now (Shows seen)
              (Shows-new producer hash epoch digest url origin now heard t)
              (Shows-observe producer hash epoch digest url origin now heard t) later,
          record_row-bounded (heard_table heard) key epoch (hex_encode digest) now b,
        )
      ]

  -- Whatever a node hears next, a row that is within its hour stays, and its epoch does not fall.
  pub record_generation-Rises :
      (table : GenerationTable) (msg : GossipMessage) (now : ℕ) (key : GenKey) (row : GenRecord)
      → lookup key table ≡ some row
      → is_live now row ≡ true
      → (row' : GenRecord) × (lookup key (record_generation hex_encode table msg now) ≡ some row')
        × (row.epoch ≤ row'.epoch)
  unfolding record_generation
  record_generation-Rises table (urgent_revocation producer hash epoch origin) now key row at live =
      (row, at, omega arith)
  record_generation-Rises table (generation_announcement producer hash epoch digest url origin) now
        key row at live =
      elim (Bool-cases
        (valid_bounds (generation_announcement producer hash epoch digest url origin))) [
          | inr f ↦ rw f (row, at, omega arith)
          | inl t ↦ rw t (
              record_row-Rises table (gen_key hex_encode origin producer hash) epoch
                (hex_encode digest) now key row at live)
        ]
