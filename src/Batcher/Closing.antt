-- ===== src/Batcher/Closing.antt =====
-- `close` of neural_pods/adaptive_batcher.py empties the queues and keeps the count.
use ptr_research.Common.{
  ◌+◌, ◌-◌, ◌≡◌, refl, true, false, Bool, List, [], ◌∷◌, arith, ◌==◌, IsDict, nat_eq, Bool-cases,
  inl, inr,
}
use ptr_research.Batcher.{
  BatchRequest, Batcher, closed, failed, set_future, close_queue, close_queues, close,
}
use ptr_research.Batcher.Batches.{
  Queues, Kept, Kept-refl, Kept-trans, Loop, total, Scanned, set_future-no_answer,
}
use ptr_research.Batcher.Invariant.{IsSound}

close_queue-Loop : (b : Batcher) (q : List BatchRequest) → Loop b (close_queue b q) q []
unfolding close_queue
close_queue-Loop b [] = record { kept = Kept-refl b; counts = λ n e. e; stays = λ P a. a }
close_queue-Loop b (r ∷ rs) =
    let b' = record b {
      queued = b.queued - 1;
      futures = set_future b.futures r.id (failed closed);
    } in
    let first : Kept b b' = record {
      same_size = refl;
      same_bound = refl;
      same_next = refl;
      falls = omega arith;
      no_answers = λ i v e. set_future-no_answer b.futures r.id i v closed e;
    } in
    let rest = close_queue-Loop b' rs in
    record {
      kept = Kept-trans first rest.kept;
      counts = λ n e. rest.counts n (omega (arith, e));
      stays = λ P a. tt;
    }

close_queues-Scanned :
    (b : Batcher) (qs : Queues) → Scanned b (close_queues b qs).0 qs (close_queues b qs).1
unfolding close_queues
close_queues-Scanned b [] = record {
  kept = Kept-refl b;
  counts = λ n e. e;
  holds = λ P h. h;
  lookups = λ k e. e;
}
close_queues-Scanned b ((key, q) ∷ qs) =
    let first = close_queue-Loop b q in
    let rest = close_queues-Scanned (close_queue b q) qs in
    record {
      kept = Kept-trans first.kept rest.kept;
      counts = λ n e.
          let e1 = first.counts (n + total qs) (omega (arith, e)) in
          let e2 = rest.counts n (omega (arith, e1)) in omega (arith, e2);
      holds = λ P h. (tt, rest.holds P h.1);
      lookups = λ k e. elim (Bool-cases (key == k)) [
        | inl same ↦ absurd (ground (arith, same, e))
        | inr other ↦ rw other (rest.lookups k (rw other at e))
      ];
    }

close_queues-IsDict : (b : Batcher) (qs : Queues) → IsDict qs → IsDict (close_queues b qs).1
unfolding close_queues
close_queues-IsDict b [] d = tt
close_queues-IsDict b ((key, q) ∷ qs) d = (
  (close_queues-Scanned (close_queue b q) qs).lookups key d.0,
  close_queues-IsDict (close_queue b q) qs d.1,
)

pub close-IsSound :
    (P : BatchRequest → Type 0) (b : Batcher) (cancel_pending : Bool)
    → IsSound P b
    → IsSound P (close b cancel_pending) × Kept b (close b cancel_pending)
unfolding close
close-IsSound P b false s = (
  record { counted = s.counted; bounded = s.bounded; filed = s.filed; once = s.once },
  record {
    same_size = refl;
    same_bound = refl;
    same_next = refl;
    falls = omega arith;
    no_answers = λ i v e. e;
  },
)
close-IsSound P b true s =
    let b0 = record b { stopping = true } in
    let x = close_queues-Scanned b0 b.queues in
    let k = x.kept in
    (
      record {
        counted = omega (arith, x.counts 0 (omega (arith, s.counted)));
        bounded = omega (arith, k.falls, k.same_bound, s.bounded);
        filed = x.holds (λ key r. (r.key ≡ key) × P r) s.filed;
        once = close_queues-IsDict b0 b.queues s.once;
      },
      record {
        same_size = k.same_size;
        same_bound = k.same_bound;
        same_next = k.same_next;
        falls = k.falls;
        no_answers = k.no_answers;
      },
    )
