-- ===== src/TaskGraph/Tests.antt =====
-- Two nodes, in the good order and in the other one, with the theorems at these values.
use ptr_research.Common.{
  ok, err, ℕ, ◌*◌, ◌≤◌, ◌≡◌, refl, ◌⊎◌, true, Option, some, List, [], ◌∷◌, arith, All, length,
}
use ptr_research.TaskGraph.{TaskNode, Pool, is_done, Step, takes, finishes, Run, starts, then_}
use ptr_research.TaskGraph.Runs.{Run-completes}
use ptr_research.TaskGraph.Validate.{cycle, resolve_round, resolve_all, check_nodes}
use ptr_research.TaskGraph.Check.{Outcome, check_nodes-Outcome}
use ptr_research.TaskGraph.Deadlock.{stuck, first_wait_deadlocks}

abbrev source : TaskNode
source = record { node_id = 1; depends_on = [] }

abbrev sink : TaskNode
sink = record { node_id = 2; depends_on = 1 ∷ [] }

-- A node counts the outputs that it sees.
abbrev handler : ℕ → List (ℕ × Option ℕ) → Option ℕ
handler k [] = some k
handler k (i ∷ is) = some 100

abbrev final : Pool ℕ
final = record { queue = []; running = []; outputs = (1, some 1) ∷ (2, some 100) ∷ [] }

whole : Run handler 1 (source ∷ sink ∷ []) 4 final
whole =
    then_
      (then_
        (then_ (then_ starts (takes source (sink ∷ []) refl (omega arith)))
          (finishes [] source [] refl refl))
        (takes sink [] refl (omega arith)))
      (finishes [] sink [] refl refl)

Run-completes_example :
    (4 ≤ 2 * length (source ∷ sink ∷ []))
    × (((s' : Pool ℕ) × Step handler 1 final s')
        ⊎ ((final.queue ≡ [])
            × (final.running ≡ [])
            × All (λ (n : TaskNode). is_done final.outputs n.node_id ≡ true) (source ∷ sink ∷ [])))
Run-completes_example = Run-completes handler (omega arith) (tt, ((refl, tt), tt)) whole

first_wait_deadlocks_example :
    Run handler 1 (sink ∷ source ∷ []) 1 (stuck handler (sink ∷ []) (source ∷ []))
    × ((s' : Pool ℕ) → ¬ (Step handler 1 (stuck handler (sink ∷ []) (source ∷ [])) s'))
first_wait_deadlocks_example =
    first_wait_deadlocks handler (sink ∷ []) (source ∷ []) ((λ e. cc), tt)

program : Unit {0}
unfolding resolve_round resolve_all check_nodes
program = tt

-- Resolved in two rounds, the newest first.
checks_backwards : check_nodes (sink ∷ source ∷ []) ≡ ok (2 ∷ 1 ∷ [])
unfolding program
checks_backwards = refl

abbrev loop : TaskNode
loop = record { node_id = 1; depends_on = 2 ∷ [] }

checks_loop : check_nodes (sink ∷ loop ∷ []) ≡ err cycle
unfolding program
checks_loop = refl

check_nodes-Outcome_example : Outcome (sink ∷ loop ∷ []) (check_nodes (sink ∷ loop ∷ []))
check_nodes-Outcome_example = check_nodes-Outcome (sink ∷ loop ∷ [])
