-- ===== src/TaskGraph.antt =====
-- `TaskGraph.run` of neural_pods/taskgraph.py: the nodes are submitted in their order to a pool of
-- `max_parallel` workers; a worker takes the next node, waits in its place until the node's
-- dependencies are done, and runs the handler. A handler that raises leaves no output, and the node is
-- done all the same. Ids are numbers; durations are not modelled.
pub mod Runs
pub mod Deadlock
pub mod Validate
pub mod Check
mod Tests
use ptr_research.Common.{
  ℕ, suc, ◌<◌, ◌≡◌, Bool, true, false, Option, none, some, List, [], ◌∷◌, ◌++◌, map, all, length,
  Dict, lookup, insert, nat_eq,
}

-- `TaskNode`, without its handler and its deadline, which `run` does not read.
pub record TaskNode : Type 0 where
  pub node_id : ℕ
  pub depends_on : List ℕ

-- The outputs of the nodes that are done; a failed one has none.
abbrev pub Outputs {ℓ} : Type ℓ → Type ℓ
Outputs V = Dict ℕ (Option V)

-- Submitted and not taken, in their order; taken by a worker, the oldest first; and the outputs.
pub record Pool {ℓ} (V : Type ℓ) : Type ℓ where
  pub queue : List TaskNode
  pub running : List TaskNode
  pub outputs : Outputs V

module _ {ℓ} {V : Type ℓ} where
  -- `done_events[dep].is_set()`.
  abbrev pub is_done : Outputs V → ℕ → Bool
  is_done outputs dep = elim (lookup dep outputs) [ none ↦ false | some _ ↦ true ]

  abbrev pub is_ready : Outputs V → TaskNode → Bool
  is_ready outputs n = all (is_done outputs) n.depends_on

  -- `outputs.get(dep)`.
  abbrev pub output_of : Outputs V → ℕ → Option V
  output_of outputs dep = elim (lookup dep outputs) [ none ↦ none | some v ↦ v ]

  abbrev pub inputs : Outputs V → TaskNode → List (ℕ × Option V)
  inputs outputs n = map (λ dep. (dep, output_of outputs dep)) n.depends_on

  abbrev pub submitted : List TaskNode → Pool V
  submitted nodes = record { queue = nodes; running = []; outputs = [] }

  -- A worker that is free takes the next node.
  abbrev pub taken : Pool V → TaskNode → List TaskNode → Pool V
  taken s n rest = record s { queue = rest; running = s.running ++ n ∷ [] }

-- The handler of each node is a parameter; it sees the inputs, and `none` is an exception.
module _ {ℓ} {V : Type ℓ} (handler : ℕ → List (ℕ × Option V) → Option V) where
  -- The end of `run_node`.
  abbrev pub finished : Pool V → List TaskNode → TaskNode → List TaskNode → Pool V
  finished s before n after = record s {
    running = before ++ after;
    outputs = insert n.node_id (handler n.node_id (inputs s.outputs n)) s.outputs;
  }

  pub data Step (max_parallel : ℕ) (s : Pool V) : Pool V → Type ℓ where
    takes :
        (n : TaskNode) (rest : List TaskNode)
        → s.queue ≡ n ∷ rest
        → length s.running < max_parallel
        → Step max_parallel s (taken s n rest)
    finishes :
        (before : List TaskNode) (n : TaskNode) (after : List TaskNode)
        → s.running ≡ before ++ n ∷ after
        → is_ready s.outputs n ≡ true
        → Step max_parallel s (finished s before n after)

  -- The states of a run, with the number of steps made.
  pub data Run (max_parallel : ℕ) (nodes : List TaskNode) : ℕ → Pool V → Type ℓ where
    starts : Run max_parallel nodes 0 (submitted nodes)
    then_ :
        {k : ℕ} {s s' : Pool V}
        → Run max_parallel nodes k s
        → Step max_parallel s s'
        → Run max_parallel nodes (suc k) s'
