-- ===== src/Batcher/Rounds.antt =====
-- `_run` of neural_pods/adaptive_batcher.py, the rounds of the worker, and all steps together.
-- `run_batch` is a parameter; the check and the setting of one future are one step.
use ptr_research.Common.{
  ℕ, ◌+◌, ◌≡◌, Bool, List, [], ◌∷◌, map, if◌then◌else◌, ◌==◌, length, Option, none, some, Result,
  ok, err, ℤ,
}
use ptr_research.Batcher.{
  BatchRequest, Batcher, finished, failed, run_failed, is_cancelled, is_done, set_future,
  new_request, submit, cancel, close, new_batcher,
}
use ptr_research.Batcher.Select.{select}

-- The requests of the batch that are not cancelled since.
unfoldable pub start_batch : Batcher → List BatchRequest → List BatchRequest × Batcher
start_batch b [] = ([], b)
start_batch b (r ∷ rs) =
    let gone = is_cancelled b.futures r.id in
    let rest =
      start_batch (if gone then record b { cancelled_count = b.cancelled_count + 1 } else b) rs in
    (if gone then rest.0 else r ∷ rest.0, rest.1)

-- `for item, result in zip(batch, results)`
unfoldable pub set_results : Batcher → List BatchRequest → List ℕ → Batcher
unfolding set_future
set_results b [] results = b
set_results b (r ∷ rs) [] = b
set_results b (r ∷ rs) (v ∷ vs) =
    set_results
      (record b {
        futures = set_future b.futures r.id (finished v);
        completed = if is_done b.futures r.id then b.completed else b.completed + 1;
      })
      rs vs

unfoldable pub set_failures : Batcher → List BatchRequest → Batcher
unfolding set_future
set_failures b [] = b
set_failures b (r ∷ rs) =
    set_failures (record b { futures = set_future b.futures r.id (failed run_failed) }) rs

abbrev pub count_batch : List BatchRequest → Batcher → Batcher
count_batch items b = record b {
  batches = b.batches + 1;
  batch_items_total = b.batch_items_total + length items;
}

abbrev pub fail_batch : Batcher → List BatchRequest → Batcher
fail_batch b items = set_failures (record b { errors = b.errors + 1 }) items

abbrev pub answered : Batcher → List BatchRequest → Result (Unit {0}) (List ℕ) → Batcher
answered b items (err e) = fail_batch b items
answered b items (ok results) =
    if length results == length items then set_results b items results else fail_batch b items

-- The key is that of the first request.
abbrev pub batch_key : List BatchRequest → ℕ
batch_key [] = 0
batch_key (r ∷ rs) = r.key

-- What the worker has in its hands.
pub data Worker : Type 0 where
  idle : Worker
  holding running : List BatchRequest → Worker

abbrev pub taken_up : Option (List BatchRequest) → Worker
taken_up none = idle
taken_up (some items) = holding items

-- Nothing is run, if all are cancelled.
abbrev pub ready : List BatchRequest → Worker
ready [] = idle
ready (r ∷ rs) = running (r ∷ rs)

module _ (run_batch : List ℕ → ℕ → Result (Unit {0}) (List ℕ)) where
  unfoldable pub execute : Batcher → List BatchRequest → Batcher
  unfolding set_results set_failures
  execute b items =
      count_batch items
        (answered b items (run_batch (map (λ r. r.payload) items) (batch_key items)))

  -- The steps other than the submission of a request.
  pub data Step : Batcher → Worker → Batcher → Worker → Type 0 where
    cancels : {b : Batcher} {w : Worker} (i : ℕ) → Step b w (cancel b i) w
    closes :
        {b : Batcher} {w : Worker} (cancel_pending : Bool) → Step b w (close b cancel_pending) w
    selects : {b : Batcher} (now : ℤ) → Step b idle (select now b).1 (taken_up (select now b).0)
    begins :
        {b : Batcher} {items : List BatchRequest}
        → Step b (holding items) (start_batch b items).1 (ready (start_batch b items).0)
    executes :
        {b : Batcher} {items : List BatchRequest} → Step b (running items) (execute b items) idle

  -- The requests that were made so far come last.
  pub data Reach (max_batch_size : ℕ) (max_wait target_latency : ℤ) (max_queue : ℕ)
      : Batcher → Worker → List BatchRequest → Type 0 where
    start :
        {b : Batcher}
        → new_batcher max_batch_size max_wait target_latency max_queue ≡ ok b
        → Reach max_batch_size max_wait target_latency max_queue b idle []
    submits :
        {b : Batcher} {w : Worker} {made : List BatchRequest} (payload key : ℕ) (timeout : Option ℤ)
        (now : ℤ)
        → Reach max_batch_size max_wait target_latency max_queue b w made
        → Reach max_batch_size max_wait target_latency max_queue
            (submit b payload key timeout now)
            w
            (new_request b payload key timeout now ∷ made)
    steps :
        {b b' : Batcher} {w w' : Worker} {made : List BatchRequest}
        → Reach max_batch_size max_wait target_latency max_queue b w made
        → Step b w b' w'
        → Reach max_batch_size max_wait target_latency max_queue b' w' made
