-- ===== src/Batcher/Tests.antt =====
-- Two requests of one key and one of another, batched in twos, and the theorems there.
use ptr_research.Common.{
  ℕ, ◌+◌, ◌*◌, ◌≡◌, ◌≤◌, refl, sym, inl, inr, false, Option, none, some, List, [], ◌∷◌, map, lookup,
  nat_eq, ok-injective, Result, ok, ℤ, pos, ◌+ℤ◌, ◌-ℤ◌,
}
use ptr_research.Batcher.{
  BatchRequest, Status, Batcher, finished, failed, expired, new_batcher, set_future, submit, cancel,
  close_queue, close_queues, close,
}
use ptr_research.Batcher.Select.{dropped, prune, scan, take_items, take_batch, select}
use ptr_research.Batcher.Rounds.{
  start_batch, set_results, set_failures, execute, idle, Reach, start, submits, steps, cancels,
  selects, begins, executes,
}
use ptr_research.Batcher.Batches.{total}
use ptr_research.Batcher.Invariant.{IsBatch}
use ptr_research.Batcher.Answers.{Submitted}
use ptr_research.Batcher.History.{reachable-own_result, reachable-IsBatch}

program : Unit {0}
unfolding new_batcher set_future submit cancel close_queue close_queues close dropped prune scan
    take_items take_batch select start_batch set_results set_failures execute ◌+ℤ◌ ◌-ℤ◌
program = tt

abbrev answer : ℕ → ℕ → ℕ
answer key payload = key * 10 + payload

abbrev run : List ℕ → ℕ → Result (Unit {0}) (List ℕ)
run payloads key = ok (map (answer key) payloads)

abbrev b0 : Batcher
b0 = record {
  max_batch_size = 2;
  max_wait = pos 2;
  target_latency = pos 100;
  max_queue = 4;
  queues = [];
  futures = [];
  stopping = false;
  queued = 0;
  next_id = 0;
  submitted = 0;
  completed = 0;
  rejected = 0;
  batches = 0;
  deadline_drops = 0;
  cancelled_count = 0;
  errors = 0;
  batch_items_total = 0;
}

begin_ : new_batcher 2 (pos 2) (pos 100) 4 ≡ ok b0
unfolding program
begin_ = refl

abbrev b3 : Batcher
b3 = submit (submit (submit b0 5 7 none (pos 0)) 6 8 none (pos 1)) 9 7 (some (pos 1)) (pos 2)

abbrev request : ℕ → ℕ → ℕ → Option ℤ → ℕ → BatchRequest
request id payload key deadline at = record {
  id = id;
  payload = payload;
  key = key;
  deadline = deadline;
  submitted_at = pos at;
}

abbrev batch : List BatchRequest
batch = request 0 5 7 none 0 ∷ request 2 9 7 (some (pos 3)) 2 ∷ []

-- The deadline 3 of the second request has passed at 4, and it goes all the same: only the first
-- request of a queue is looked at.
late_request_goes : (select (pos 4) b3).0 ≡ some batch
unfolding program
late_request_goes = refl

-- Alone in its queue it would have been dropped.
late_request_dropped :
    lookup 0 (select (pos 4) (submit b0 9 7 (some (pos 1)) (pos 2))).1.futures
    ≡ some (failed expired)
unfolding program
late_request_dropped = refl

abbrev made : List BatchRequest
made = request 2 9 7 (some (pos 3)) 2 ∷ request 1 6 8 none 1 ∷ request 0 5 7 none 0 ∷ []

reached3 : Reach run 2 (pos 2) (pos 100) 4 b3 idle made
unfolding program
reached3 =
    submits 9 7 (some (pos 1)) (pos 2)
      (submits 6 8 none (pos 1) (submits 5 7 none (pos 0) (start begin_)))

abbrev b4 : Batcher
b4 = (select (pos 4) b3).1

-- The second request is cancelled while the worker holds the batch.
abbrev b5 : Batcher
b5 = (start_batch (cancel b4 2) batch).1

abbrev active : List BatchRequest
active = request 0 5 7 none 0 ∷ []

abbrev b6 : Batcher
b6 = execute run b5 active

reached6 : Reach run 2 (pos 2) (pos 100) 4 b6 idle made
unfolding program
reached6 = steps (steps (steps (steps reached3 (selects (pos 4))) (cancels 2)) begins) executes

first_answered :
    (lookup 0 b6.futures ≡ some (finished 75))
    × (lookup 2 b6.futures ≡ some Status.cancelled)
    × (b6.completed ≡ 1)
unfolding program
first_answered = (refl, refl, refl)

is_pointwise : (ps : List ℕ) (k : ℕ) (vs : List ℕ) → run ps k ≡ ok vs → vs ≡ map (answer k) ps
is_pointwise ps k vs e = sym (ok-injective e)

reachable-own_result_example : ◌≡◌ {A = ℕ} 75 (7 * 10 + 5)
reachable-own_result_example =
    reachable-own_result answer run 2 4 (pos 2) (pos 100) b6 idle made (request 0 5 7 none 0) 75
      is_pointwise reached6 (inr (inr (inl refl))) first_answered.0

reachable-IsBatch_example :
    (b3.queued ≡ total b3.queues)
    × (b3.queued ≤ b3.max_queue)
    × ((items : List BatchRequest)
        → (select (pos 4) b3).0 ≡ some items
        → IsBatch (Submitted made) (select (pos 4) b3).1 items)
reachable-IsBatch_example = reachable-IsBatch run 2 4 (pos 2) (pos 100) b3 made (pos 4) reached3

-- A cancellation while the batch runs succeeds, and the result is dropped.
cancelled_while_running :
    (lookup 0 (cancel b5 0).futures ≡ some Status.cancelled)
    × (lookup 0 (execute run (cancel b5 0) active).futures ≡ some Status.cancelled)
unfolding program
cancelled_while_running = (refl, refl)
