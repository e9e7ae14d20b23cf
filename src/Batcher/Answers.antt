-- ===== src/Batcher/Answers.antt =====
-- Who gets which result in neural_pods/adaptive_batcher.py, over any submissions, cancellations,
-- closings and rounds of the worker.
use ptr_research.Common.{
  ℕ, ◌+◌, ◌≡◌, refl, ap, ◌∙◌, ◌⊎◌, inl, inr, some, List, [], ◌∷◌, map, arith, if◌then◌else◌, ◌==◌,
  ==_iff, length, All, Dict, lookup, insert, nat_eq, lookup-insert, Bool-cases, Result-cases,
  Result, ok,
}
use ptr_research.Batcher.{
  BatchRequest, Status, Batcher, run_failed, finished, failed, is_cancelled, is_done, set_future,
}
use ptr_research.Batcher.Rounds.{
  start_batch, set_results, set_failures, answered, batch_key, execute,
}
use ptr_research.Batcher.Batches.{set_future-no_answer}
use ptr_research.Batcher.Invariant.{IsSound}

abbrev pub Submitted : List BatchRequest → BatchRequest → Type 0
Submitted [] r = ⊥
Submitted (x ∷ xs) r = (x ≡ r) ⊎ Submitted xs r

-- Fields that the worker's round leaves alone.
pub record Same (b b' : Batcher) : Type 0 where
  pub queues : b'.queues ≡ b.queues
  pub queued : b'.queued ≡ b.queued
  pub bound : b'.max_queue ≡ b.max_queue
  pub next_id : b'.next_id ≡ b.next_id

pub IsSound-Same :
    (P : BatchRequest → Type 0) (b b' : Batcher) → Same b b' → IsSound P b → IsSound P b'
IsSound-Same P b b' e s = record {
  counted = rw e.queues (omega (arith, e.queued, s.counted));
  bounded = omega (arith, e.queued, e.bound, s.bounded);
  filed = rw e.queues s.filed;
  once = rw e.queues s.once;
}

pub Same-refl : (b : Batcher) → Same b b
Same-refl b = record { queues = refl; queued = refl; bound = refl; next_id = refl }

pub Same-trans : {a b c : Batcher} → Same a b → Same b c → Same a c
Same-trans x y = record {
  queues = y.queues ∙ x.queues;
  queued = y.queued ∙ x.queued;
  bound = y.bound ∙ x.bound;
  next_id = y.next_id ∙ x.next_id;
}

pub set_future-finished :
    (futures : Dict ℕ Status) (j i v : ℕ) (status : Status)
    → lookup i (set_future futures j status) ≡ some (finished v)
    → (lookup i futures ≡ some (finished v)) ⊎ ((j ≡ i) × (status ≡ finished v))
unfolding set_future
set_future-finished futures j i v status e = elim (Bool-cases (is_done futures j)) [
  | inl done ↦ inl (rw done at e)
  | inr open_ ↦
      let e' : lookup i (insert j status futures) ≡ some (finished v) = rw open_ at e in
      elim (Bool-cases (j == i)) [
        | inl same ↦
            inr ((==_iff j i).0 same, ground (arith, lookup-insert j i status futures, same, e'))
        | inr other ↦ inl (ground (arith, lookup-insert j i status futures, other, e'))
      ]
]

module _ (f : ℕ → ℕ → ℕ) (made : List BatchRequest) where
  -- Each result is the one for a request with that id.
  abbrev pub Answers : Batcher → Type 0
  Answers b =
      (i v : ℕ)
      → lookup i b.futures ≡ some (finished v)
      → (r : BatchRequest) × Submitted made r × (r.id ≡ i) × (v ≡ f r.key r.payload)

  pub start_batch-lem :
      (P : BatchRequest → Type 0) (b : Batcher) (items : List BatchRequest)
      → Same b (start_batch b items).1
        × ((start_batch b items).1.futures ≡ b.futures)
        × (All P items → All P (start_batch b items).0)
  unfolding start_batch
  start_batch-lem P b [] = (Same-refl b, refl, λ a. a)
  start_batch-lem P b (r ∷ rs) = elim (Bool-cases (is_cancelled b.futures r.id)) [
    | inl gone ↦
        let (same, futures, keep) =
          start_batch-lem P (record b { cancelled_count = b.cancelled_count + 1 }) rs in
        rw gone (
          record {
            queues = same.queues;
            queued = same.queued;
            bound = same.bound;
            next_id = same.next_id;
          },
          futures,
          λ a. keep a.1,
        )
    | inr there ↦
        let (same, futures, keep) = start_batch-lem P b rs in
        rw there (same, futures, λ a. (a.0, keep a.1))
  ]

  pub set_failures-lem :
      (b : Batcher) (items : List BatchRequest)
      → Same b (set_failures b items) × (Answers b → Answers (set_failures b items))
  unfolding set_failures
  set_failures-lem b [] = (Same-refl b, λ a. a)
  set_failures-lem b (r ∷ rs) =
      let (same, keep) =
        set_failures-lem (record b { futures = set_future b.futures r.id (failed run_failed) })
          rs in
      (
        record {
          queues = same.queues;
          queued = same.queued;
          bound = same.bound;
          next_id = same.next_id;
        },
        λ a. keep (λ i v e. a i v (set_future-no_answer b.futures r.id i v run_failed e)),
      )

  pub set_results-Same :
      (b : Batcher) (items : List BatchRequest) (vs : List ℕ) → Same b (set_results b items vs)
  unfolding set_results
  set_results-Same b [] [] = Same-refl b
  set_results-Same b [] (v ∷ vs) = Same-refl b
  set_results-Same b (r ∷ rs) [] = Same-refl b
  set_results-Same b (r ∷ rs) (v ∷ vs) =
      let same =
        set_results-Same
          (record b {
            futures = set_future b.futures r.id (finished v);
            completed = if is_done b.futures r.id then b.completed else b.completed + 1;
          })
          rs vs in
      record {
        queues = same.queues;
        queued = same.queued;
        bound = same.bound;
        next_id = same.next_id;
      }

  pub set_results-Answers :
      (b : Batcher) (key : ℕ) (items : List BatchRequest)
      → All (λ r. Submitted made r × (r.key ≡ key)) items
      → Answers b
      → Answers (set_results b items (map (f key) (map (λ r. r.payload) items)))
  unfolding set_results
  set_results-Answers b key [] h a = a
  set_results-Answers b key (r ∷ rs) h a =
      let v : ℕ = f key r.payload in
      let b' = record b {
        futures = set_future b.futures r.id (finished v);
        completed = if is_done b.futures r.id then b.completed else b.completed + 1;
      } in
      let a' : Answers b' = λ i w e. elim (set_future-finished b.futures r.id i w (finished v) e) [
        | inl old ↦ a i w old
        | inr (same, is_v) ↦
            (r, h.0.0, same, ground (arith, is_v, ap (λ (k : ℕ). f k r.payload) h.0.1))
      ] in
      set_results-Answers b' key rs h.1 a'

  -- Whatever `run_batch` returns or raises, the queues stay.
  pub execute-Same :
      (run_batch : List ℕ → ℕ → Result (Unit {0}) (List ℕ)) (b : Batcher)
      (items : List BatchRequest)
      → Same b (execute run_batch b items)
  unfolding execute
  execute-Same run_batch b items =
      let payloads = map (λ (r : BatchRequest). r.payload) items in
      let failed_same = (set_failures-lem (record b { errors = b.errors + 1 }) items).0 in
      elim (Result-cases (run_batch payloads (batch_key items))) [
        | inr (e, raised) ↦
            rw (raised, answered)
              (record {
                queues = failed_same.queues;
                queued = failed_same.queued;
                bound = failed_same.bound;
                next_id = failed_same.next_id;
              })
        | inl (vs, returned) ↦
            let same = set_results-Same b items vs in
            rw (returned, answered)
              (elim (Bool-cases (length vs == length items)) [
                | inr other ↦ rw other (record {
                  queues = failed_same.queues;
                  queued = failed_same.queued;
                  bound = failed_same.bound;
                  next_id = failed_same.next_id;
                })
                | inl all_ ↦ rw all_ (record {
                  queues = same.queues;
                  queued = same.queued;
                  bound = same.bound;
                  next_id = same.next_id;
                })
              ])
      ]

  -- `run_batch` returns for each payload its result under the key.
  abbrev pub IsPointwise : (List ℕ → ℕ → Result (Unit {0}) (List ℕ)) → Type 0
  IsPointwise run_batch =
      (ps : List ℕ) (k : ℕ) (vs : List ℕ) → run_batch ps k ≡ ok vs → vs ≡ map (f k) ps

  pub execute-Answers :
      (run_batch : List ℕ → ℕ → Result (Unit {0}) (List ℕ)) (b : Batcher)
      (items : List BatchRequest)
      → IsPointwise run_batch
      → All (λ r. Submitted made r × (r.key ≡ batch_key items)) items
      → Answers b
      → Answers (execute run_batch b items)
  unfolding execute
  execute-Answers run_batch b items right h a =
      let payloads = map (λ (r : BatchRequest). r.payload) items in
      let key = batch_key items in
      let keep = (set_failures-lem (record b { errors = b.errors + 1 }) items).1 in
      elim (Result-cases (run_batch payloads key)) [
        | inr (e, raised) ↦ rw (raised, answered) (keep a)
        | inl (vs, returned) ↦
            let is_map = right payloads key vs returned in
            rw (returned, answered)
              (elim (Bool-cases (length vs == length items)) [
                | inr other ↦ rw other (keep a)
                | inl all_ ↦ rw all_ (rw is_map (set_results-Answers b key items h a))
              ])
      ]
