-- ===== src/Batcher.antt =====
-- `AdaptiveBatcher` of neural_pods/adaptive_batcher.py: queues of requests by compatibility key,
-- and the worker that takes batches from them. Its condition makes each call and each part of the
-- worker's round one step. Times are arguments, in whole units; payloads, keys and results are
-- numbers, and a future is known by the number of its request.
pub mod Select
pub mod Rounds
pub mod Batches
pub mod Invariant
pub mod Answers
pub mod Closing
pub mod History
mod Tests
use ptr_research.Common.{
  ℕ, zero, suc, ◌+◌, ◌-◌, Bool, true, false, ◌&&◌, ◌||◌, Option, none, some, List, [], ◌∷◌, ◌++◌,
  if◌then◌else◌, ◌==◌, ltb, leb, not, length, Dict, lookup, insert, erase, nat_eq, is_empty, Result,
  ok, err, ℤ, pos, ◌+ℤ◌, ◌-ℤ◌, ltb_ℤ, leb_ℤ,
}

pub record BatchRequest : Type 0 where
  pub id : ℕ
  pub payload : ℕ
  pub key : ℕ
  pub deadline : Option ℤ
  pub submitted_at : ℤ

pub data Reason : Type 0 where
  stopped queue_full closed expired run_failed : Reason

-- The state of a `Future`. The worker never marks one as running.
pub data Status : Type 0 where
  pending cancelled : Status
  finished : ℕ → Status
  failed : Reason → Status

pub record Batcher : Type 0 where
  pub max_batch_size : ℕ
  pub max_wait : ℤ
  pub target_latency : ℤ
  pub max_queue : ℕ
  pub queues : Dict ℕ (List BatchRequest)
  pub futures : Dict ℕ Status
  pub stopping : Bool
  pub queued : ℕ
  pub next_id : ℕ
  pub submitted : ℕ
  pub completed : ℕ
  pub rejected : ℕ
  pub batches : ℕ
  pub deadline_drops : ℕ
  pub cancelled_count : ℕ
  pub errors : ℕ
  pub batch_items_total : ℕ

pub data Error : Type 0 where
  limits_not_positive : Error

unfoldable pub new_batcher : ℕ → ℤ → ℤ → ℕ → Result Error Batcher
new_batcher max_batch_size max_wait target_latency max_queue =
    if ltb max_batch_size 1 || ltb max_queue 1
    then err limits_not_positive
    else ok (record {
      max_batch_size = max_batch_size;
      max_wait = max_wait;
      target_latency = target_latency;
      max_queue = max_queue;
      queues = [];
      futures = [];
      stopping = false;
      queued = 0;
      next_id = 0;
      submitted = 0;
      completed = 0;
      rejected = 0;
      batches = 0;
      deadline_drops = 0;
      cancelled_count = 0;
      errors = 0;
      batch_items_total = 0;
    })

abbrev pub is_cancelled : Dict ℕ Status → ℕ → Bool
is_cancelled futures i = elim (lookup i futures) [ some cancelled ↦ true | _ ↦ false ]

-- `future.done()`
abbrev pub is_done : Dict ℕ Status → ℕ → Bool
is_done futures i = elim (lookup i futures) [ none ↦ false | some pending ↦ false | some _ ↦ true ]

-- `if not future.done(): future.set_…(…)`
unfoldable pub set_future : Dict ℕ Status → ℕ → Status → Dict ℕ Status
set_future futures i status = if is_done futures i then futures else insert i status futures

-- `self._queues[key]` of a `defaultdict(deque)`.
abbrev pub queue_at : ℕ → Dict ℕ (List BatchRequest) → List BatchRequest
queue_at key queues = elim (lookup key queues) [ none ↦ [] | some q ↦ q ]

abbrev pub deadline_at : ℤ → Option ℤ → Option ℤ
deadline_at now none = none
deadline_at now (some timeout) = some (now +ℤ timeout)

-- A future that fails at once.
abbrev pub refuse : Batcher → Reason → Batcher
refuse b reason = record b {
  futures = insert b.next_id (failed reason) b.futures;
  next_id = b.next_id + 1;
}

abbrev pub new_request : Batcher → ℕ → ℕ → Option ℤ → ℤ → BatchRequest
new_request b payload key timeout now = record {
  id = b.next_id;
  payload = payload;
  key = key;
  deadline = deadline_at now timeout;
  submitted_at = now;
}

abbrev pub enqueue : Batcher → BatchRequest → Batcher
enqueue b r = record b {
  queues = insert r.key (queue_at r.key b.queues ++ r ∷ []) b.queues;
  futures = insert b.next_id pending b.futures;
  next_id = b.next_id + 1;
  queued = b.queued + 1;
  submitted = b.submitted + 1;
}

-- The future that is returned is that of the id `next_id` before the call.
unfoldable pub submit : Batcher → ℕ → ℕ → Option ℤ → ℤ → Batcher
submit b payload key timeout now =
    if b.stopping
    then refuse b stopped
    else if leb b.max_queue b.queued
    then refuse (record b { rejected = b.rejected + 1 }) queue_full
    else enqueue b (new_request b payload key timeout now)

-- `future.cancel()` by a caller.
unfoldable pub cancel : Batcher → ℕ → Batcher
unfolding set_future
cancel b i = record b { futures = set_future b.futures i cancelled }

unfoldable pub close_queue : Batcher → List BatchRequest → Batcher
unfolding set_future
close_queue b [] = b
close_queue b (r ∷ rs) =
    close_queue
      (record b { queued = b.queued - 1; futures = set_future b.futures r.id (failed closed) }) rs

-- The queues stay in the dict, empty.
unfoldable pub close_queues :
    Batcher → Dict ℕ (List BatchRequest) → Batcher × Dict ℕ (List BatchRequest)
unfolding close_queue
close_queues b [] = (b, [])
close_queues b ((key, q) ∷ qs) =
    let rest = close_queues (close_queue b q) qs in (rest.0, (key, []) ∷ rest.1)

unfoldable pub close : Batcher → Bool → Batcher
unfolding close_queues
close b cancel_pending =
    let stopped_ = record b { stopping = true } in
    let emptied = close_queues stopped_ b.queues in
    if cancel_pending then record (emptied.0) { queues = emptied.1 } else stopped_
