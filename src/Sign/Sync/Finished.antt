-- ===== src/Sign/Sync/Finished.antt =====
-- What a finished refresh of crates/hoike-sign/src/dogtag_sync.rs leaves in the checkpoint.
use hoike.Base.{
  ℕ, ◌≡◌, ◌≢◌, refl, sym, ap, ◌∙◌, List, [], ◌∷◌, Bool, Bool-cases, true, false, some, ok, inl, inr,
  zero, suc, arith, beq_bytes, beq_bytes_iff, some-injective, get_elem?, guard-ok,
}
use hoike.Base.Assoc.{Assoc}
use hoike.Base.Exists.{Has}
use hoike.Sign.Error.{config}
use hoike.Sign.Sync.{StoredRecord, Checkpoint, is_member, retain_named, all_new, finish}

is_member-Has : (x : List ℕ) (xs : List (List ℕ)) → is_member x xs ≡ true → Has xs x
unfolding is_member
is_member-Has x [] h = absurd (ground arith)
is_member-Has x (y ∷ ys) h = elim (Bool-cases (beq_bytes y x)) [
  | inl t ↦ (0, ap (λ (z : List ℕ). some z) ((beq_bytes_iff y x).0 t))
  | inr f ↦ let (i, at) = is_member-Has x ys (rw f at h) in (suc i, at)
]

retain_named-Has_step :
    (named : List (List ℕ)) (m kept : Assoc StoredRecord) (j id : List ℕ) (q r : StoredRecord)
    → is_member j named ≡ true
    → ((id : List ℕ) (r : StoredRecord) → Has kept (id, r) → Has m (id, r) × Has named id)
    → Has ((j, q) ∷ kept) (id, r)
    → Has ((j, q) ∷ m) (id, r) × Has named id
retain_named-Has_step named m kept j id q r t f (zero, at) =
    let same = some-injective (j, q) (id, r) at in
    (
      (0, at),
      is_member-Has id named
          (ap (λ (x : List ℕ × StoredRecord). is_member x.0 named) (sym same) ∙ t),
    )
retain_named-Has_step named m kept j id q r t f (suc i, at) =
    let ((k, found), n) = f id r (i, at) in ((suc k, found), n)

retain_named-Has :
    (named : List (List ℕ)) (m : Assoc StoredRecord) (id : List ℕ) (r : StoredRecord)
    → Has (retain_named named m) (id, r)
    → Has m (id, r) × Has named id
unfolding retain_named
retain_named-Has named [] id r (i, at) = absurd (cc)
retain_named-Has named ((j, q) ∷ m) id r h = elim (Bool-cases (is_member j named)) [
  | inr f ↦ let ((i, at), n) = retain_named-Has named m id r (rw f at h) in ((suc i, at), n)
  | inl t ↦
      retain_named-Has_step named m (retain_named named m) j id q r t (retain_named-Has named m)
        (rw t at h)
]

all_new-cons :
    (seen : List (List ℕ)) (j : List ℕ) (q : StoredRecord) (m : Assoc StoredRecord)
    → all_new seen ((j, q) ∷ m) ≡ true
    → (is_member q.serial seen ≡ false) × (all_new (q.serial ∷ seen) m ≡ true)
unfolding all_new
all_new-cons seen j q m h = ground arith

is_member-tail :
    (x y : List ℕ) (ys : List (List ℕ))
    → is_member x (y ∷ ys) ≡ false
    → (y ≢ x) × (is_member x ys ≡ false)
unfolding is_member
is_member-tail x y ys h = ground (arith, beq_bytes_iff y x)

-- A serial that was seen does not come again.
all_new-fresh :
    (seen : List (List ℕ)) (m : Assoc StoredRecord) (id : List ℕ) (r : StoredRecord)
    → all_new seen m ≡ true
    → Has m (id, r)
    → is_member r.serial seen ≡ false
all_new-fresh seen [] id r h (i, at) = absurd (cc)
all_new-fresh seen ((j, q) ∷ m) id r h (zero, at) =
    ap (λ (x : List ℕ × StoredRecord). is_member x.1.serial seen)
      (sym (some-injective (j, q) (id, r) at))
    ∙ (all_new-cons seen j q m h).0
all_new-fresh seen ((j, q) ∷ m) id r h (suc i, at) =
    (is_member-tail r.serial q.serial seen
      (all_new-fresh (q.serial ∷ seen) m id r (all_new-cons seen j q m h).1 (i, at))).1

-- The place of a record is given by its serial.
all_new-distinct :
    (seen : List (List ℕ)) (m : Assoc StoredRecord) (i k : ℕ) (a b : List ℕ) (r q : StoredRecord)
    → all_new seen m ≡ true
    → get_elem? m i ≡ some (a, r)
    → get_elem? m k ≡ some (b, q)
    → r.serial ≡ q.serial
    → i ≡ k
all_new-distinct seen [] i k a b r q h m n e = absurd (cc)
all_new-distinct seen ((j, p) ∷ m) zero zero a b r q h x y e = refl
all_new-distinct seen ((j, p) ∷ m) zero (suc k) a b r q h x y e =
    let fresh = all_new-fresh (p.serial ∷ seen) m b q (all_new-cons seen j p m h).1 (k, y) in
    let other = (is_member-tail q.serial p.serial seen fresh).0 in
    absurd
      (other (ap (λ (z : List ℕ × StoredRecord). z.1.serial) (some-injective (j, p) (a, r) x) ∙ e))
all_new-distinct seen ((j, p) ∷ m) (suc i) zero a b r q h x y e =
    let fresh = all_new-fresh (p.serial ∷ seen) m a r (all_new-cons seen j p m h).1 (i, x) in
    let other = (is_member-tail r.serial p.serial seen fresh).0 in
    absurd (
      other
        (ap (λ (z : List ℕ × StoredRecord). z.1.serial) (some-injective (j, p) (b, q) y) ∙ sym e))
all_new-distinct seen ((j, p) ∷ m) (suc i) (suc k) a b r q h x y e =
    ap suc (all_new-distinct (p.serial ∷ seen) m i k a b r q (all_new-cons seen j p m h).1 x y e)

-- What a finished refresh leaves.
pub record IsFinished (c : Checkpoint) (named : List (List ℕ)) (refresh_deletes : Bool)
    (c' : Checkpoint) : Type 0 where
  pub is_complete : c'.complete ≡ true
  pub old : (id : List ℕ) (r : StoredRecord) → Has c'.records (id, r) → Has c.records (id, r)
  pub is_named :
      refresh_deletes ≡ false
      → (id : List ℕ) (r : StoredRecord) → Has c'.records (id, r)
      → Has named id
  pub distinct :
      (i k : ℕ) (a b : List ℕ) (r q : StoredRecord)
      → get_elem? c'.records i ≡ some (a, r)
      → get_elem? c'.records k ≡ some (b, q)
      → r.serial ≡ q.serial
      → i ≡ k

-- A refresh that finishes is complete. No two of its records have one serial, and unless the server deletes
-- on its own, each record that stays was named by the refresh.
pub finish-IsFinished :
    (c c' : Checkpoint) (named : List (List ℕ)) (refresh_deletes : Bool)
    → finish c named refresh_deletes ≡ ok c'
    → IsFinished c named refresh_deletes c'
unfolding finish
finish-IsFinished c c' named false h =
    let (fresh, made) = guard-ok (all_new [] (retain_named named c.records)) config _ c' h in
    let same : c' ≡ record c { records = retain_named named c.records; complete = true } =
      ground arith in
    rw same (record {
      is_complete = refl;
      old = λ id r has. (retain_named-Has named c.records id r has).0;
      is_named = λ e id r has. (retain_named-Has named c.records id r has).1;
      distinct = λ i k a b r q x y e.
          all_new-distinct [] (retain_named named c.records) i k a b r q fresh x y e;
    })
finish-IsFinished c c' named true h =
    let (fresh, made) = guard-ok (all_new [] c.records) config _ c' h in
    let same : c' ≡ record c { complete = true } = ground arith in
    rw same (record {
      is_complete = refl;
      old = λ id r has. has;
      is_named = λ e. absurd (ground arith);
      distinct = λ i k a b r q x y e. all_new-distinct [] c.records i k a b r q fresh x y e;
    })
