-- ===== src/TaskGraph/Deadlock.antt =====
-- A task graph of neural_pods/taskgraph.py that has no cycle and never ends: workers wait in their
-- places for a node that stands behind them in the queue.
use ptr_research.Common.{
  ℕ, suc, ◌+◌, ◌≤◌, ◌<◌, ◌≡◌, ◌≢◌, refl, ◌∙◌, sym, subst, false, Option, List, [], ◌∷◌, ◌++◌, all,
  length, length-append, arith, All, nat_eq, true-ne-false, All-remove,
}
use ptr_research.TaskGraph.Runs.{append_nil, append_last}
use ptr_research.TaskGraph.{
  TaskNode, Pool, is_done, is_ready, Step, takes, finishes, Run, starts, then_,
}

zero_last : (k : ℕ) → k ≡ k + 0
zero_last k = omega arith

zero_first : (k : ℕ) → 0 + k ≡ k
zero_first k = omega arith

suc_moves : (k m : ℕ) → suc k + m ≡ k + suc m
suc_moves k m = omega arith

module _ {ℓ} {V : Type ℓ} (handler : ℕ → List (ℕ × Option V) → Option V) where
  -- All workers wait.
  abbrev pub stuck : List TaskNode → List TaskNode → Pool V
  stuck waiting rest = record { queue = rest; running = waiting; outputs = [] }

  fill :
      (p k : ℕ) (nodes before waiting rest : List TaskNode)
      → length before + length waiting ≤ p
      → Run handler p nodes k (stuck before (waiting ++ rest))
      → Run handler p nodes (k + length waiting) (stuck (before ++ waiting) rest)
  fill p k nodes before [] rest le r =
      subst (λ m. Run handler p nodes m (stuck (before ++ []) rest)) (zero_last k)
        (subst (λ b. Run handler p nodes k (stuck b rest)) (sym (append_nil before)) r)
  fill p k nodes before (n ∷ waiting) rest le r =
      let room : length before < p = omega (arith, le) in
      let one = then_ r (takes n (waiting ++ rest) refl room) in
      let all_ =
        fill p (suc k) nodes (before ++ n ∷ []) waiting rest
          (omega (arith, le, length-append before (n ∷ []))) one in
      subst (λ m. Run handler p nodes m (stuck (before ++ n ∷ waiting) rest))
        (suc_moves k (length waiting))
        (subst (λ b. Run handler p nodes (suc k + length waiting) (stuck b rest))
          (sym (append_last before n waiting)) all_)

  abbrev Waits : TaskNode → Type 0
  Waits n = is_ready {V = V} [] n ≡ false

  no-Step :
      (p : ℕ) (waiting rest : List TaskNode) (s' : Pool V)
      → length waiting ≡ p
      → All Waits waiting
      → ¬ (Step handler p (stuck waiting rest) s')
  no-Step p waiting rest s' full waits (takes n rest' e room) = omega (arith, full, room)
  no-Step p waiting rest s' full waits (finishes before n after e ready) =
      true-ne-false (sym ready ∙ (All-remove Waits before n after (subst (All Waits) e waits)).0)

  waits_one : (deps : List ℕ) → deps ≢ [] → all (is_done {V = V} []) deps ≡ false
  waits_one [] h = absurd (h refl)
  waits_one (d ∷ ds) h = refl

  Waits-All : (ns : List TaskNode) → All (λ (n : TaskNode). n.depends_on ≢ []) ns → All Waits ns
  Waits-All [] h = tt
  Waits-All (n ∷ ns) h = (waits_one n.depends_on h.0, Waits-All ns h.1)

  -- When each of the first `max_parallel` nodes has a dependency, every worker takes one of them and
  -- waits: no step follows, no node is done, and the run never ends, whether or not the graph has a
  -- cycle.
  pub first_wait_deadlocks :
      (waiting rest : List TaskNode)
      → All (λ (n : TaskNode). n.depends_on ≢ []) waiting
      → Run handler (length waiting) (waiting ++ rest) (length waiting) (stuck waiting rest)
        × ((s' : Pool V) → ¬ (Step handler (length waiting) (stuck waiting rest) s'))
  first_wait_deadlocks waiting rest h = (
    subst (λ m. Run handler (length waiting) (waiting ++ rest) m (stuck waiting rest))
        (zero_first (length waiting))
        (fill (length waiting) 0 (waiting ++ rest) [] waiting rest (omega arith) starts),
    λ s'. no-Step (length waiting) waiting rest s' refl (Waits-All waiting h),
  )
