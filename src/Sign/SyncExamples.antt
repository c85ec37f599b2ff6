-- ===== src/Sign/SyncExamples.antt =====
-- The theorems on dogtag_sync.rs of crates/hoike-sign at a checkpoint of two certificates.
use hoike.Base.{ℕ, ◌≡◌, refl, [], ◌∷◌, none, some, ok, true, false, cmp_bytes}
use hoike.Base.Assoc.{insert}
use hoike.Ahu.Samples.{repeat_byte}
use hoike.Sign.Sync.{
  StoredRecord, Checkpoint, SyncState, modify, is_member, retain_named, apply_entry, all_new,
  finish,
}
use hoike.Sign.Sync.Applied.{IsApplied, apply_entry-IsApplied}
use hoike.Sign.Sync.Finished.{IsFinished, finish-IsFinished}

abbrev good_record : ℕ → StoredRecord
good_record serial = record {
  serial = serial ∷ [];
  revoked = none;
  excluded = false;
  not_after = none;
}

abbrev revoked_record : StoredRecord
revoked_record = record (good_record 6) { revoked = some (900, some 1) }

abbrev two_records : Checkpoint
two_records = record {
  version = 1;
  binding = [];
  cookie = none;
  records = (repeat_byte 16 1, good_record 5) ∷ (repeat_byte 16 2, good_record 6) ∷ [];
  complete = false;
}

-- The second certificate is revoked.
abbrev revocation : SyncState
revocation = record { state = modify; entry_uuid = repeat_byte 16 2; cookie = some (7 ∷ []) }

abbrev one_revoked : Checkpoint
one_revoked = record two_records {
  cookie = some (7 ∷ []);
  records = (repeat_byte 16 1, good_record 5) ∷ (repeat_byte 16 2, revoked_record) ∷ [];
}

applied :
    apply_entry (λ bytes. bytes) two_records [] revocation (some revoked_record)
    ≡ ok (one_revoked, repeat_byte 16 2 ∷ [])
unfolding apply_entry insert cmp_bytes
applied = refl

apply_entry-IsApplied_example :
    IsApplied
      (repeat_byte 16 2)
      revocation
      (some revoked_record)
      two_records
      one_revoked
      []
      (repeat_byte 16 2 ∷ [])
apply_entry-IsApplied_example =
    apply_entry-IsApplied (λ bytes. bytes) two_records one_revoked [] (repeat_byte 16 2 ∷ [])
      revocation (some revoked_record) applied

-- The first certificate was not named, so it is dropped.
abbrev finished : Checkpoint
finished = record one_revoked { records = (repeat_byte 16 2, revoked_record) ∷ []; complete = true }

done : finish one_revoked (repeat_byte 16 2 ∷ []) false ≡ ok finished
unfolding finish retain_named all_new is_member cmp_bytes
done = refl

finish-IsFinished_example : IsFinished one_revoked (repeat_byte 16 2 ∷ []) false finished
finish-IsFinished_example =
    finish-IsFinished one_revoked finished (repeat_byte 16 2 ∷ []) false done
