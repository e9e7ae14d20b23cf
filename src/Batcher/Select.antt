-- ===== src/Batcher/Select.antt =====
-- `_select` of neural_pods/adaptive_batcher.py: which requests make the next batch.
use ptr_research.Common.{
  ℕ, ◌+◌, ◌-◌, Bool, true, false, ◌&&◌, ◌||◌, Option, none, some, List, [], ◌∷◌, if◌then◌else◌,
  ◌==◌, ltb, length, Dict, insert, erase, nat_eq, ℤ, ◌-ℤ◌, ltb_ℤ, leb_ℤ,
}
use ptr_research.Batcher.{
  BatchRequest, Batcher, expired, failed, is_cancelled, set_future, queue_at,
}

-- The deadline has passed.
abbrev pub is_late : ℤ → BatchRequest → Bool
is_late now r = elim (r.deadline) [ none ↦ false | some d ↦ leb_ℤ d now ]

-- A request that is popped since its future is cancelled, or else since it is late.
unfoldable pub dropped : Batcher → BatchRequest → Batcher
unfolding set_future
dropped b r =
    if is_cancelled b.futures r.id
    then record b { queued = b.queued - 1; cancelled_count = b.cancelled_count + 1 }
    else record b {
      queued = b.queued - 1;
      deadline_drops = b.deadline_drops + 1;
      futures = set_future b.futures r.id (failed expired);
    }

-- The inner loop: what stands at the front is dropped until a request can go.
unfoldable pub prune : ℤ → Batcher → List BatchRequest → Batcher × List BatchRequest
unfolding dropped
prune now b [] = (b, [])
prune now b (r ∷ rs) =
    let rest = prune now (dropped b r) rs in
    if is_cancelled b.futures r.id || is_late now r then rest else (b, r ∷ rs)

-- The key whose first request is the oldest so far, with that request.
abbrev pub Chosen : Type 0
Chosen = Option (ℕ × BatchRequest)

abbrev pub better : Chosen → ℕ → List BatchRequest → Chosen
better chosen key [] = chosen
better none key (r ∷ rs) = some (key, r)
better (some (k, c)) key (r ∷ rs) =
    if ltb_ℤ r.submitted_at c.submitted_at then some (key, r) else some (k, c)

unfoldable pub scan :
    ℤ
    → Batcher
    → Dict ℕ (List BatchRequest)
    → Chosen
    → Batcher × Dict ℕ (List BatchRequest) × Chosen
unfolding prune
scan now b [] chosen = (b, [], chosen)
scan now b ((key, q) ∷ qs) chosen =
    let pruned = prune now b q in
    let rest = scan now (pruned.0) qs (better chosen key (pruned.1)) in
    (rest.0, (key, pruned.1) ∷ rest.1, rest.2)

-- There is time to wait for more: the queue is not full, the first request can afford a whole
-- inference, and it is young.
abbrev pub may_wait : Batcher → ℤ → BatchRequest → List BatchRequest → Bool
may_wait b now first q =
    ltb (length q) b.max_batch_size
    && (elim (first.deadline) [ none ↦ true | some d ↦ ltb_ℤ b.target_latency (d -ℤ now) ]
        && ltb_ℤ (now -ℤ first.submitted_at) b.max_wait)

-- A request leaves its queue for the batch, or for nothing if it is cancelled.
abbrev pub popped : Batcher → Bool → Batcher
popped b true = record b { queued = b.queued - 1; cancelled_count = b.cancelled_count + 1 }
popped b false = record b { queued = b.queued - 1 }

-- The loop that takes the batch, with the places left; the queue that stays comes last.
unfoldable pub take_items :
    ℕ → Batcher → List BatchRequest → List BatchRequest × Batcher × List BatchRequest
take_items places b [] = ([], b, [])
take_items places b (r ∷ rs) =
    let gone = is_cancelled b.futures r.id in
    let rest = take_items (if gone then places else places - 1) (popped b gone) rs in
    if places == 0 then ([], b, r ∷ rs) else (if gone then rest.0 else r ∷ rest.0, rest.1, rest.2)

-- An empty deque is removed from the dict.
abbrev pub put_queue :
    ℕ → List BatchRequest → Dict ℕ (List BatchRequest) → Dict ℕ (List BatchRequest)
put_queue key [] queues = erase key queues
put_queue key (r ∷ rs) queues = insert key (r ∷ rs) queues

-- `items or None`
abbrev pub some_items : List BatchRequest → Option (List BatchRequest)
some_items [] = none
some_items (r ∷ rs) = some (r ∷ rs)

unfoldable pub take_batch : Batcher → ℕ → Option (List BatchRequest) × Batcher
unfolding take_items
take_batch b key =
    let taken = take_items b.max_batch_size b (queue_at key b.queues) in
    (some_items taken.0, record (taken.1) { queues = put_queue key taken.2 b.queues })

unfoldable pub select : ℤ → Batcher → Option (List BatchRequest) × Batcher
unfolding scan take_batch
select now b =
    let scanned = scan now b b.queues none in
    let b' = record (scanned.0) { queues = scanned.1 } in
    elim (scanned.2) [
      | none ↦ (none, b')
      | some (key, first) ↦
          if may_wait b' now first (queue_at key b'.queues) then (none, b') else take_batch b' key
    ]
