-- ===== src/Batcher/History.antt =====
-- Every state that the batcher of neural_pods/adaptive_batcher.py can reach.
use ptr_research.Common.{
  ℕ, ◌+◌, ◌≤◌, ◌<◌, ◌≡◌, ◌≢◌, refl, ap, sym, ◌∙◌, subst, inl, inr, Bool, true, false, Option, some,
  List, [], ◌∷◌, ◌++◌, map, arith, if◌then◌else◌, ◌==◌, length-append, All, All-append, Dict,
  lookup, insert, insert-IsDict, nat_eq, lookup-insert, Bool-cases, Option-cases, ℤ, leb, Result,
  ok,
}
use ptr_research.Batcher.{
  BatchRequest, Status, Batcher, stopped, queue_full, finished, failed, pending, cancelled,
  queue_at, refuse, enqueue, new_request, submit, cancel, new_batcher,
}
use ptr_research.Batcher.Select.{select}
use ptr_research.Batcher.Rounds.{
  start_batch, batch_key, execute, Worker, idle, holding, running, ready, Step, cancels, closes,
  selects, begins, executes, Reach, start, submits, steps,
}
use ptr_research.Batcher.Batches.{total}
use ptr_research.Batcher.Invariant.{
  IsSound, IsBatch, select-Selection, All-map, total-erase, total-insert, Holds-insert,
  Holds-queue_at,
}
use ptr_research.Batcher.Answers.{
  Submitted, Answers, IsSound-Same, set_future-finished, start_batch-lem, execute-Same,
  execute-Answers, IsPointwise,
}
use ptr_research.Batcher.Closing.{close-IsSound}

-- The requests in the worker's hands.
abbrev pub in_hand : Worker → List BatchRequest
in_hand idle = []
in_hand (holding items) = items
in_hand (running items) = items

in_hand-ready : (items : List BatchRequest) → in_hand (ready items) ≡ items
in_hand-ready [] = refl
in_hand-ready (r ∷ rs) = refl

Submitted-fresh :
    (n : ℕ) (made : List BatchRequest) (r : BatchRequest)
    → All (λ x. x.id < n) made
    → Submitted made r
    → r.id < n
Submitted-fresh n [] r a h = absurd h
Submitted-fresh n (x ∷ xs) r a (inl e) = subst (λ (y : BatchRequest). y.id < n) e a.0
Submitted-fresh n (x ∷ xs) r a (inr h) = Submitted-fresh n xs r a.1 h

All-fresh :
    (n m : ℕ) (made : List BatchRequest)
    → n ≤ m
    → All (λ r. r.id < n) made
    → All (λ r. r.id < m) made
All-fresh n m made h =
    All-map (λ (r : BatchRequest). r.id < n) (λ r. r.id < m) made (λ r e. omega (arith, h, e))

keyed_by_first :
    (P : BatchRequest → Type 0) (key : ℕ) (items : List BatchRequest)
    → All (λ r. (r.key ≡ key) × P r) items
    → All (λ r. P r × (r.key ≡ batch_key items)) items
keyed_by_first P key [] h = tt
keyed_by_first P key (x ∷ xs) h = (
  (h.0.1, refl),
  All-map (λ (r : BatchRequest). (r.key ≡ key) × P r) (λ r. P r × (r.key ≡ x.key)) xs
      (λ r e. (e.1, e.0 ∙ sym h.0.0)) h.1,
)

-- The first of a part has the key of the whole.
keyed_part :
    (P : BatchRequest → Type 0) (key : ℕ) (part : List BatchRequest)
    → All (λ r. P r × (r.key ≡ key)) part
    → All (λ r. P r × (r.key ≡ batch_key part)) part
keyed_part P key part h = keyed_by_first P key part (
    All-map (λ (r : BatchRequest). P r × (r.key ≡ key)) (λ r. (r.key ≡ key) × P r) part
      (λ r e. (e.1, e.0)) h)

branches :
    (P : Batcher → Type 0) (first second : Bool) {x y z : Batcher}
    → P x
    → P y
    → (second ≡ false → P z)
    → P (if first then x else (if second then y else z))
branches P true second px py pz = px
branches P false true px py pz = py
branches P false false px py pz = pz refl

module _ (f : ℕ → ℕ → ℕ) (run_batch : List ℕ → ℕ → Result (Unit {0}) (List ℕ)) where
  -- The queues and the worker's hands are in order, and the answers are if `run_batch` is.
  record Correct (b : Batcher) (w : Worker) (made : List BatchRequest) : Type 0 where
    sound : IsSound (Submitted made) b
    hands : All (λ r. Submitted made r × (r.key ≡ batch_key (in_hand w))) (in_hand w)
    answers : IsPointwise f made run_batch → Answers f made b
    ids_used : All (λ r. r.id < b.next_id) made
    distinct : (r r' : BatchRequest) → Submitted made r → Submitted made r' → r.id ≡ r'.id → r ≡ r'

  IsSound-more :
      (b : Batcher) (made : List BatchRequest) (r : BatchRequest)
      → IsSound (Submitted made) b
      → IsSound (Submitted (r ∷ made)) b
  IsSound-more b made r s = record {
    counted = s.counted;
    bounded = s.bounded;
    filed =
        All-map (λ (e : ℕ × List BatchRequest). All (λ x. (x.key ≡ e.0) × Submitted made x) e.1)
          (λ e. All (λ x. (x.key ≡ e.0) × Submitted (r ∷ made) x) e.1) b.queues
          (λ e h.
            All-map (λ (x : BatchRequest). (x.key ≡ e.0) × Submitted made x)
              (λ x. (x.key ≡ e.0) × Submitted (r ∷ made) x) e.1 (λ x p. (p.0, inr p.1)) h)
          s.filed;
    once = s.once;
  }

  enqueue-Sound :
      (b : Batcher) (r : BatchRequest) (made : List BatchRequest)
      → b.queued < b.max_queue
      → IsSound (Submitted (r ∷ made)) b
      → IsSound (Submitted (r ∷ made)) (enqueue b r)
  enqueue-Sound b r made room s =
      let q = queue_at r.key b.queues in
      let P = λ (key : ℕ) (x : BatchRequest). (x.key ≡ key) × Submitted (r ∷ made) x in
      record {
        counted = omega (
          arith,
          s.counted,
          total-erase r.key b.queues s.once,
          total-insert r.key (q ++ r ∷ []) b.queues s.once,
          length-append q (r ∷ []),
        );
        bounded = omega (arith, room);
        filed =
            Holds-insert P r.key (q ++ r ∷ []) b.queues
              (All-append (P r.key) q (r ∷ []) (Holds-queue_at P r.key b.queues s.filed)
                ((refl, inl refl), tt))
              s.filed;
        once = insert-IsDict r.key (q ++ r ∷ []) b.queues s.once;
      }

  -- A new future is not finished.
  new_future :
      (futures : Dict ℕ Status) (j i v : ℕ) (status : Status)
      → ((w : ℕ) → status ≢ finished w)
      → lookup i (insert j status futures) ≡ some (finished v)
      → lookup i futures ≡ some (finished v)
  new_future futures j i v status open_ e = elim (Bool-cases (j == i)) [
    | inl same ↦ absurd (open_ v (ground (arith, lookup-insert j i status futures, same, e)))
    | inr other ↦ ground (arith, lookup-insert j i status futures, other, e)
  ]

  distinct-more :
      (made : List BatchRequest) (x : BatchRequest)
      → All (λ r. r.id < x.id) made
      → ((r r' : BatchRequest) → Submitted made r → Submitted made r' → r.id ≡ r'.id → r ≡ r')
      → (r r' : BatchRequest) → Submitted (x ∷ made) r
      → Submitted (x ∷ made) r'
      → r.id ≡ r'.id
      → r ≡ r'
  distinct-more made x fresh d r r' (inl e) (inl e') same = sym e ∙ e'
  distinct-more made x fresh d r r' (inl e) (inr h') same = absurd (
      omega (arith, Submitted-fresh x.id made r' fresh h', ap (λ (y : BatchRequest). y.id) e, same))
  distinct-more made x fresh d r r' (inr h) (inl e') same =
      absurd (
        omega
          (arith, Submitted-fresh x.id made r fresh h, ap (λ (y : BatchRequest). y.id) e', same))
  distinct-more made x fresh d r r' (inr h) (inr h') same = d r r' h h' same

  -- A request more, with a future of its own.
  Correct-more :
      (b b' : Batcher) (w : Worker) (made : List BatchRequest) (r : BatchRequest)
      → Correct b w made
      → r.id ≡ b.next_id
      → b'.next_id ≡ b.next_id + 1
      → IsSound (Submitted (r ∷ made)) b'
      → ((i v : ℕ)
          → lookup i b'.futures ≡ some (finished v)
          → lookup i b.futures ≡ some (finished v))
      → Correct b' w (r ∷ made)
  Correct-more b b' w made r c same_id next_ s old = record {
    sound = s;
    hands =
        All-map (λ (x : BatchRequest). Submitted made x × (x.key ≡ batch_key (in_hand w)))
          (λ x. Submitted (r ∷ made) x × (x.key ≡ batch_key (in_hand w))) (in_hand w)
          (λ x p. (inr p.0, p.1)) c.hands;
    answers = λ right i v e.
        let (x, sub, same, is_v) = c.answers right i v (old i v e) in (x, inr sub, same, is_v);
    ids_used = (
      omega (arith, same_id, next_),
      All-fresh b.next_id b'.next_id made (omega (arith, next_)) c.ids_used,
    );
    distinct =
        distinct-more made r (subst (λ n. All (λ x. x.id < n) made) (sym same_id) c.ids_used)
          c.distinct;
  }

  submit-Correct :
      (b : Batcher) (w : Worker) (made : List BatchRequest) (payload key : ℕ) (timeout : Option ℤ)
      (now : ℤ)
      → Correct b w made
      → Correct (submit b payload key timeout now) w (new_request b payload key timeout now ∷ made)
  unfolding submit
  submit-Correct b w made payload key timeout now c =
      let r = new_request b payload key timeout now in
      let s = IsSound-more b made r c.sound in
      branches (λ b'. Correct b' w (r ∷ made)) b.stopping (leb b.max_queue b.queued)
        (Correct-more b (refuse b stopped) w made r c refl refl
          (record { counted = s.counted; bounded = s.bounded; filed = s.filed; once = s.once })
          (λ i v e. new_future b.futures b.next_id i v (failed stopped) (λ x e'. cc) e))
        (Correct-more b (refuse (record b { rejected = b.rejected + 1 }) queue_full) w made r c refl
          refl (record { counted = s.counted; bounded = s.bounded; filed = s.filed; once = s.once })
          (λ i v e. new_future b.futures b.next_id i v (failed queue_full) (λ x e'. cc) e))
        (λ room.
          Correct-more b (enqueue b r) w made r c refl refl
            (enqueue-Sound b r made (ground (arith, room)) s)
            (λ i v e. new_future b.futures b.next_id i v pending (λ x e'. cc) e))

  Step-Correct :
      {b b' : Batcher} {w w' : Worker} (made : List BatchRequest)
      → Correct b w made
      → Step run_batch b w b' w'
      → Correct b' w' made
  unfolding cancel
  Step-Correct {b} made c (cancels i) =
      let s = c.sound in
      record {
        sound = record { counted = s.counted; bounded = s.bounded; filed = s.filed; once = s.once };
        hands = c.hands;
        answers = λ right j v e. elim (set_future-finished b.futures i j v cancelled e) [
          | inl old ↦ c.answers right j v old
          | inr (same, x) ↦ cc
        ];
        ids_used = c.ids_used;
        distinct = c.distinct;
      }
  Step-Correct {b} made c (closes cancel_pending) =
      let (s, k) = close-IsSound (Submitted made) b cancel_pending c.sound in
      record {
        sound = s;
        hands = c.hands;
        answers = λ right j v e. c.answers right j v (k.no_answers j v e);
        ids_used = subst (λ n. All (λ x. x.id < n) made) (sym k.same_next) c.ids_used;
        distinct = c.distinct;
      }
  Step-Correct {b} made c (selects now) =
      let (s, k, batch) = select-Selection (Submitted made) now b c.sound in
      record {
        sound = s;
        hands = elim (Option-cases (select now b).0) [
          | inl none_ ↦ rw none_ tt
          | inr (items, e) ↦
              let found = batch items e in
              rw e (keyed_by_first (Submitted made) found.key items found.of_key)
        ];
        answers = λ right j v e. c.answers right j v (k.no_answers j v e);
        ids_used = subst (λ n. All (λ x. x.id < n) made) (sym k.same_next) c.ids_used;
        distinct = c.distinct;
      }
  Step-Correct {b} made c (begins {items = items}) =
      let P = λ (r : BatchRequest). Submitted made r × (r.key ≡ batch_key items) in
      let (same, futures, keep) = start_batch-lem f made P b items in
      record {
        sound = IsSound-Same (Submitted made) b (start_batch b items).1 same c.sound;
        hands =
            subst (λ xs. All (λ r. Submitted made r × (r.key ≡ batch_key xs)) xs)
              (sym (in_hand-ready (start_batch b items).0))
              (keyed_part (Submitted made) (batch_key items) (start_batch b items).0
                (keep c.hands));
        answers = λ right j v e. c.answers right j v (rw (← futures) e);
        ids_used = subst (λ n. All (λ x. x.id < n) made) (sym same.next_id) c.ids_used;
        distinct = c.distinct;
      }
  Step-Correct {b} made c (executes {items = items}) =
      let same = execute-Same f made run_batch b items in
      record {
        sound = IsSound-Same (Submitted made) b (execute run_batch b items) same c.sound;
        hands = tt;
        answers = λ right. execute-Answers f made run_batch b items right c.hands (c.answers right);
        ids_used = subst (λ n. All (λ x. x.id < n) made) (sym same.next_id) c.ids_used;
        distinct = c.distinct;
      }

  module _ {size queue_ : ℕ} {wait_ latency : ℤ} where
    Reach-Correct :
        {b : Batcher} {w : Worker} {made : List BatchRequest}
        → Reach run_batch size wait_ latency queue_ b w made
        → Correct b w made
    unfolding new_batcher
    Reach-Correct {b} (start e) =
        let fields : (b.queued ≡ 0) × (b.queues ≡ []) × (b.futures ≡ []) = ground (arith, e) in
        record {
          sound = record {
            counted = rw fields.1 (omega (arith, fields.0));
            bounded = omega (arith, fields.0);
            filed = rw fields.1 tt;
            once = rw fields.1 tt;
          };
          hands = tt;
          answers = λ right i v found. absurd (ground (arith, rw fields.2 at found));
          ids_used = tt;
          distinct = λ r r' h h' same. absurd h;
        }
    Reach-Correct (submits {b} {w} {made} payload key timeout now r) =
        submit-Correct b w made payload key timeout now (Reach-Correct r)
    Reach-Correct (steps {made = made} r step) = Step-Correct made (Reach-Correct r) step

-- If `run_batch` returns for each payload the result of that payload under the key of the batch:
-- in every state that submissions, cancellations, closings and the worker can reach, a request
-- whose future has a result has the one for its own payload and key.
pub reachable-own_result :
    (f : ℕ → ℕ → ℕ) (run_batch : List ℕ → ℕ → Result (Unit {0}) (List ℕ)) (size queue_ : ℕ)
    (wait_ latency : ℤ) (b : Batcher) (w : Worker) (made : List BatchRequest) (r : BatchRequest)
    (v : ℕ)
    → ((ps : List ℕ) (k : ℕ) (vs : List ℕ) → run_batch ps k ≡ ok vs → vs ≡ map (f k) ps)
    → Reach run_batch size wait_ latency queue_ b w made
    → Submitted made r
    → lookup r.id b.futures ≡ some (finished v)
    → v ≡ f r.key r.payload
reachable-own_result f run_batch size queue_ wait_ latency b w made r v right reach sub found =
    let c = Reach-Correct f run_batch reach in
    let (x, sub', same, is_v) = c.answers right r.id v found in
    is_v ∙ ap (λ (y : BatchRequest). f y.key y.payload) (c.distinct x r sub' sub same)

-- Whatever `run_batch` returns or raises: in every state that submissions, cancellations, closings
-- and the worker can reach the count of waiting requests is exact and within `max_queue`, and a
-- selection by an idle worker is a batch: at least one and at most `max_batch_size` of the submitted
-- requests, all of one key, of which none is cancelled.
pub reachable-IsBatch :
    (run_batch : List ℕ → ℕ → Result (Unit {0}) (List ℕ)) (size queue_ : ℕ) (wait_ latency : ℤ)
    (b : Batcher) (made : List BatchRequest) (now : ℤ)
    → Reach run_batch size wait_ latency queue_ b idle made
    → (b.queued ≡ total b.queues)
      × (b.queued ≤ b.max_queue)
      × ((items : List BatchRequest)
          → (select now b).0 ≡ some items
          → IsBatch (Submitted made) (select now b).1 items)
reachable-IsBatch run_batch size queue_ wait_ latency b made now reach =
    let s = (Reach-Correct (λ key payload. 0) run_batch reach).sound in
    (s.counted, s.bounded, (select-Selection (Submitted made) now b s).2)
