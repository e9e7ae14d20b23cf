-- ===== src/Replication/Tests.antt =====
-- Runs of neural_pods/replication.py on three replicas.
use ptr_research.Common.{
  ℕ, ◌+◌, ◌<◌, ◌≡◌, ◌≢◌, refl, Bool, true, false, Option, none, some, [], ◌∷◌, arith, ok, err,
  Result, ◌+ℤ◌, if◌then◌else◌, ◌==◌, ℤ, pos, ◌≤ℤ◌, length, count,
}
use ptr_research.Replication.{
  Payload, given, Record, Table, Replicas, Replicator, Attempt, returns, fails, lost, Written,
  Error, no_replicas, invalid_quorum, stale_revision, quorum_unavailable, new_replicator, write,
  tombstone, put, attempt_put, put_all,
}
use ptr_research.Replication.Reads.{read_from, read, answering, unless_deleted, gather, latest}
use ptr_research.Replication.Quorum.{IsStored, Later, now_, after, Step, write-read}
use ptr_research.Replication.Register.{Run, starts, register_read, register_write, revision_of}
use ptr_research.Replication.Refinement.{Run-Register}

abbrev digest : Payload → ℕ
digest p = 0

abbrev three : Replicas
three = (1, []) ∷ (2, []) ∷ (3, []) ∷ []

abbrev s0 : Replicator
s0 = record { replicas = three; quorum = 2; max_retries = 0; revisions = [] }

-- A network on which every put returns, but those on one replica.
abbrev all_but : ℕ → ℕ → ℕ → Attempt
all_but dead name attempt = if dead == name then fails 9 else returns

abbrev only : ℕ → ℕ → ℕ → Attempt
only alive name attempt = if alive == name then returns else fails 9

abbrev down_at : ℕ → ℕ → Option ℕ
down_at dead name = if dead == name then some 7 else none

abbrev first_record : Record
first_record = record { key = 5; revision = pos 1; deleted = false; payload = given 10; digest = 0 }

abbrev with_first : Table
with_first = (5, first_record) ∷ []

-- After a write that the third replica missed.
abbrev s1 : Replicator
s1 = record {
  replicas = (1, with_first) ∷ (2, with_first) ∷ (3, []) ∷ [];
  quorum = 2;
  max_retries = 0;
  revisions = (5, pos 1) ∷ [];
}

abbrev w1 : Written
w1 = record {
  key = 5;
  revision = pos 1;
  quorum = 2;
  replicas =
      record { replica = 1; ok_ = true; revision = some (pos 1); error = none }
      ∷ record { replica = 2; ok_ = true; revision = some (pos 1); error = none }
      ∷ record { replica = 3; ok_ = false; revision = none; error = some 9 }
      ∷ [];
}

first_write : write digest s0 (all_but 3) 5 (given 10) none false ≡ (ok w1, s1)
unfolding ◌+ℤ◌ write put_all attempt_put put count
first_write = refl

abbrev second_record : Record
second_record = record {
  key = 5;
  revision = pos 2;
  deleted = false;
  payload = given 11;
  digest = 0;
}

-- After a second write that only the third replica took, so that it raised.
abbrev s2 : Replicator
s2 = record {
  replicas = (1, with_first) ∷ (2, with_first) ∷ (3, (5, second_record) ∷ []) ∷ [];
  quorum = 2;
  max_retries = 0;
  revisions = (5, pos 1) ∷ [];
}

second_write : write digest s1 (only 3) 5 (given 11) none false ≡ (err quorum_unavailable, s2)
unfolding ◌+ℤ◌ write put_all attempt_put put count
second_write = refl

then_s2 : Later digest s1 s2
unfolding ◌+ℤ◌ write put_all attempt_put put count
then_s2 = after now_ (Step.writes (only 3) 5 (given 11) none false refl)

two_answer : length s2.replicas < s0.quorum + answering (down_at 1) s2.replicas
unfolding answering
two_answer = omega arith

write-read_example :
    (r : Record) × IsStored 5 r s2.replicas
    × (w1.revision ≤ℤ r.revision)
    × ((read s2 (down_at 1) 5).0 ≡ unless_deleted r)
write-read_example =
    write-read digest s0 s1 s2 (all_but 3) 5 (given 10) none false w1 (down_at 1) first_write
      then_s2 two_answer

run0 : Run digest s0 []
unfolding new_replicator
run0 = starts three none (pos 0) (refl, (refl, (refl, tt))) refl

run1 : Run digest s1 ((5, first_record) ∷ [])
unfolding ◌+ℤ◌ write put_all attempt_put put count register_write
run1 = Run.writes (all_but 3) 5 (given 10) none false run0 (λ e. cc)

Run-Register_example :
    ((down : ℕ → Option ℕ) (key : ℕ)
      → length s1.replicas < s1.quorum + answering down s1.replicas
      → (read s1 down key).0 ≡ register_read ((5, first_record) ∷ []) key)
    × ((net : ℕ → ℕ → Attempt) (key : ℕ) (payload : Payload) (revision : Option ℤ) (deleted : Bool)
        → (write digest s1 net key payload revision deleted).0 ≢ err quorum_unavailable
        → revision_of (write digest s1 net key payload revision deleted).0
          ≡ (register_write digest ((5, first_record) ∷ []) key payload revision deleted).0)
Run-Register_example = Run-Register digest s1 ((5, first_record) ∷ []) run1

-- A write that misses its quorum leaves its row behind, and the next one takes its revision again:
-- the replica with that row keeps it, but counts as a success, and a read gives the payload of the
-- write that raised.
abbrev failed_write : Result Error Written × Replicator
failed_write = write digest s0 (only 1) 5 (given 11) none false

abbrev next_write : Result Error Written × Replicator
next_write = write digest failed_write.1 (all_but 3) 5 (given 10) none false

payload_of : Option Record → Option Payload
payload_of none = none
payload_of (some r) = some r.payload

reused_revision :
    (failed_write.0 ≡ err quorum_unavailable)
    × (next_write.0 ≡ ok w1)
    × (payload_of (read next_write.1 (down_at 3) 5).0 ≡ some (given 11))
unfolding ◌+ℤ◌ write put_all attempt_put put count read read_from gather latest payload_of
reused_revision = (refl, refl, refl)

-- The reply is lost, and the second attempt finds the row there.
retried :
    attempt_put 2 (λ left. if left == 1 then lost 9 else returns) none 1 5 first_record []
    ≡ (record { replica = 1; ok_ = true; revision = some (pos 1); error = none }, with_first)
unfolding attempt_put put
retried = refl

refused :
    (new_replicator [] none (pos 0) ≡ err no_replicas)
    × (new_replicator three (some (pos 4)) (pos 0) ≡ err invalid_quorum)
    × ((write digest s1 (all_but 3) 5 (given 11) (some (pos 1)) false).0 ≡ err stale_revision)
unfolding new_replicator write count
refused = (refl, refl, refl)

-- A tombstone hides the record.
deleted_read : (read (tombstone digest s1 (all_but 2) 5 8).1 (down_at 1) 5).0 ≡ none
unfolding ◌+ℤ◌ tombstone write put_all attempt_put put count read read_from gather latest
deleted_read = refl
