-- ===== src/TaskGraph/Check.antt =====
-- What the checks of neural_pods/taskgraph.py decide: an order of the nodes after their dependencies,
-- or the reason why there is none.
use ptr_research.Common.{
  ℕ, zero, suc, ◌+◌, ◌≤◌, ◌<◌, ◌≡◌, refl, ◌∙◌, sym, subst, ap, ◌⊎◌, inl, inr, true, false, List, [],
  ◌∷◌, all, mem, length, length_of_distinct, IsDistinct, arith, Bool-cases, ◌==◌, ==_iff, ltb, All,
  Result, ok, err, true-ne-false,
}
use ptr_research.TaskGraph.{TaskNode}
use ptr_research.TaskGraph.Validate.{
  Error, duplicate_ids, unknown_dependency, cycle, out_of_fuel, ids, are_distinct, all_in,
  resolve_round, resolve_all, check_nodes, IsNode, IsResolved, IsBlocked, round-grows,
  round-IsResolved, round-IsBlocked,
}

length-ids : (ns : List TaskNode) → length (ids ns) ≡ length ns
length-ids [] = refl
length-ids (n ∷ ns) = ap suc (length-ids ns)

mem-ids : (n : TaskNode) (ns : List TaskNode) → IsNode n ns → mem n.node_id (ids ns) ≡ true
mem-ids n [] i = elim i [ ]
mem-ids n (m ∷ ms) (inl same) = rw same (ground arith)
mem-ids n (m ∷ ms) (inr later) = ground (arith, mem-ids n ms later)

IsResolved-IsDistinct :
    (nodes : List TaskNode) (res : List ℕ) → IsResolved nodes res → IsDistinct res
IsResolved-IsDistinct nodes [] h = tt
IsResolved-IsDistinct nodes (k ∷ ks) (_, new_, h) = (new_, IsResolved-IsDistinct nodes ks h)

IsResolved-All :
    (nodes : List TaskNode) (res : List ℕ)
    → IsResolved nodes res
    → All (λ k. mem k (ids nodes) ≡ true) res
IsResolved-All nodes [] h = tt
IsResolved-All nodes (k ∷ ks) ((n, is_node, same, _), _, h) = (
  subst (λ z. mem z (ids nodes) ≡ true) same (mem-ids n nodes is_node),
  IsResolved-All nodes ks h,
)

-- A node that is open, or all resolved.
open_or_All :
    (ns : List TaskNode) (res : List ℕ)
    → ((n : TaskNode) × IsNode n ns × (mem n.node_id res ≡ false))
      ⊎ All (λ (n : TaskNode). mem n.node_id res ≡ true) ns
open_or_All [] res = inr tt
open_or_All (n ∷ ns) res = elim (Bool-cases (mem n.node_id res)) [
  | inr open_ ↦ inl (n, inl refl, open_)
  | inl known ↦ elim (open_or_All ns res) [
    | inl (m, is_node, open_) ↦ inl (m, inr is_node, open_)
    | inr all_ ↦ inr (known, all_)
  ]
]

ids-All :
    (res : List ℕ) (ns : List TaskNode)
    → All (λ (n : TaskNode). mem n.node_id res ≡ true) ns
    → All (λ k. mem k res ≡ true) (ids ns)
ids-All res [] h = tt
ids-All res (n ∷ ns) h = (h.0, ids-All res ns h.1)

-- A node that is open depends on another open node.
abbrev pub Waits : List TaskNode → List ℕ → TaskNode → Type 0
Waits nodes resolved n =
    (mem n.node_id resolved ≡ true)
    ⊎ ((m : TaskNode) × IsNode m nodes
        × (mem m.node_id n.depends_on ≡ true)
        × (mem m.node_id resolved ≡ false))

ids-IsNode :
    (d : ℕ) (ns : List TaskNode)
    → mem d (ids ns) ≡ true
    → (m : TaskNode) × IsNode m ns × (m.node_id ≡ d)
ids-IsNode d [] e = cc
ids-IsNode d (n ∷ ns) e = elim (Bool-cases (d == n.node_id)) [
  | inl here ↦ (n, inl refl, sym ((==_iff d n.node_id).0 here))
  | inr other ↦
      let (m, is_node, same) = ids-IsNode d ns (ground (arith, e, other)) in (m, inr is_node, same)
]

-- Dependencies of which not all are resolved, and all are nodes.
open_dependency :
    (nodes : List TaskNode) (deps res : List ℕ)
    → all_in deps res ≡ false
    → all_in deps (ids nodes) ≡ true
    → (m : TaskNode) × IsNode m nodes × (mem m.node_id deps ≡ true) × (mem m.node_id res ≡ false)
open_dependency nodes [] res e k = absurd (true-ne-false e)
open_dependency nodes (d ∷ ds) res e k = elim (Bool-cases (mem d res)) [
  | inr open_ ↦
      let (m, is_node, same) = ids-IsNode d nodes (ground (arith, k)) in
      (m, is_node, rw same (ground arith), rw same open_)
  | inl known ↦
      let (m, is_node, dep, open_) =
        open_dependency nodes ds res (ground (arith, e, known)) (ground (arith, k)) in
      (m, is_node, ground (arith, dep), open_)
]

blocked-Waits :
    (nodes ns : List TaskNode) (res : List ℕ)
    → all (λ (n : TaskNode). all_in n.depends_on (ids nodes)) ns ≡ true
    → All (IsBlocked res) ns
    → All (Waits nodes res) ns
blocked-Waits nodes [] res k b = tt
blocked-Waits nodes (n ∷ ns) res k (inl known, b) =
    (inl known, blocked-Waits nodes ns res (ground (arith, k)) b)
blocked-Waits nodes (n ∷ ns) res k (inr out, b) = (
  inr (open_dependency nodes n.depends_on res out (ground (arith, k))),
  blocked-Waits nodes ns res (ground (arith, k)) b,
)

-- What an outcome says of the nodes.
abbrev pub Outcome : List TaskNode → Result Error (List ℕ) → Type 0
Outcome nodes (ok order) =
    IsDistinct (ids nodes)
    × IsResolved nodes order
    × All (λ (n : TaskNode). mem n.node_id order ≡ true) nodes
Outcome nodes (err duplicate_ids) = ¬ (IsDistinct (ids nodes))
Outcome nodes (err unknown_dependency) =
    (n : TaskNode) × IsNode n nodes × (all_in n.depends_on (ids nodes) ≡ false)
Outcome nodes (err cycle) =
    IsDistinct (ids nodes)
    × ((resolved : List ℕ) × IsResolved nodes resolved
        × ((n : TaskNode) × IsNode n nodes × (mem n.node_id resolved ≡ false))
        × All (Waits nodes resolved) nodes)
Outcome nodes (err out_of_fuel) = ⊥

complete-Outcome :
    (nodes : List TaskNode) (res : List ℕ)
    → IsDistinct (ids nodes)
    → IsResolved nodes res
    → length nodes ≤ length res
    → Outcome nodes (ok res)
complete-Outcome nodes res u h le = elim (open_or_All nodes res) [
  | inr all_ ↦ (u, h, all_)
  | inl (n, is_node, open_) ↦
      let more : suc (length res) ≤ length (ids nodes) =
        length_of_distinct (n.node_id ∷ res) (ids nodes) (open_, IsResolved-IsDistinct nodes res h)
          (mem-ids n nodes is_node, IsResolved-All nodes res h) in
      absurd (omega (arith, more, length-ids nodes, le))
]

cycle-Outcome :
    (nodes : List TaskNode) (res : List ℕ)
    → IsDistinct (ids nodes)
    → IsResolved nodes res
    → length res < length nodes
    → All (Waits nodes res) nodes
    → Outcome nodes (err cycle)
cycle-Outcome nodes res u h lt waits = elim (open_or_All nodes res) [
  | inl open_ ↦ (u, (res, h, open_, waits))
  | inr all_ ↦ absurd (
      omega (
        arith,
        lt,
        length-ids nodes,
        length_of_distinct (ids nodes) res u (ids-All res nodes all_),
      ))
]

resolve_all-Outcome :
    (fuel : ℕ) (nodes : List TaskNode) (res : List ℕ)
    → IsDistinct (ids nodes)
    → all (λ (n : TaskNode). all_in n.depends_on (ids nodes)) nodes ≡ true
    → IsResolved nodes res
    → length nodes ≤ length res + fuel
    → Outcome nodes (resolve_all fuel nodes res)
unfolding resolve_all
resolve_all-Outcome zero nodes res u k h le =
    let full : ltb (length res) (length nodes) ≡ false = ground (arith, le) in
    rw full (complete-Outcome nodes res u h (omega (arith, le)))
resolve_all-Outcome (suc fuel) nodes res u k h le =
    elim (Bool-cases (ltb (length res) (length nodes))) [
      | inr full ↦ rw full (complete-Outcome nodes res u h (ground (arith, full)))
      | inl more ↦ elim (Bool-cases (length (resolve_round nodes res) == length res)) [
        | inl still ↦
            rw (more, still)
              (cycle-Outcome nodes res u h (ground (arith, more)) (
                blocked-Waits nodes nodes res k (
                  round-IsBlocked nodes res
                    ((==_iff (length (resolve_round nodes res)) (length res)).0 still))))
        | inr moved ↦
            rw (more, moved)
              (resolve_all-Outcome fuel nodes (resolve_round nodes res) u k
                (round-IsResolved nodes nodes res (λ n i. i) h)
                (ground (arith, le, moved, round-grows nodes res)))
      ]
    ]

are_distinct-IsDistinct : (xs : List ℕ) → are_distinct xs ≡ true → IsDistinct xs
are_distinct-IsDistinct [] e = tt
are_distinct-IsDistinct (x ∷ xs) e =
    (ground (arith, e), are_distinct-IsDistinct xs (ground (arith, e)))

IsDistinct-are_distinct : (xs : List ℕ) → IsDistinct xs → are_distinct xs ≡ true
IsDistinct-are_distinct [] u = refl
IsDistinct-are_distinct (x ∷ xs) u = ground (arith, u.0, IsDistinct-are_distinct xs u.1)

unknown-IsNode :
    (known : List ℕ) (ns : List TaskNode)
    → all (λ (n : TaskNode). all_in n.depends_on known) ns ≡ false
    → (n : TaskNode) × IsNode n ns × (all_in n.depends_on known ≡ false)
unknown-IsNode known [] e = absurd (true-ne-false e)
unknown-IsNode known (n ∷ ns) e = elim (Bool-cases (all_in n.depends_on known)) [
  | inr out ↦ (n, inl refl, out)
  | inl fine ↦
      let (m, is_node, out) = unknown-IsNode known ns (ground (arith, e, fine)) in
      (m, inr is_node, out)
]

-- The checks end with an order in which every node stands and comes after its dependencies; or with a
-- set of nodes resolved in such an order that leaves some node open, where each open node depends on
-- another open one, so that the dependencies run in a cycle; or with two equal ids; or with a node
-- with a dependency that is not there. In the first two cases the ids are different. The rounds
-- allowed, one for each node, are always enough.
pub check_nodes-Outcome : (nodes : List TaskNode) → Outcome nodes (check_nodes nodes)
unfolding check_nodes
check_nodes-Outcome nodes = elim (Bool-cases (are_distinct (ids nodes))) [
  | inr twice ↦ rw twice (λ u. true-ne-false (sym (IsDistinct-are_distinct (ids nodes) u) ∙ twice))
  | inl once ↦ elim (Bool-cases (all (λ (n : TaskNode). all_in n.depends_on (ids nodes)) nodes)) [
    | inr out ↦ rw (once, out) (unknown-IsNode (ids nodes) nodes out)
    | inl fine ↦
        rw (once, fine)
          (resolve_all-Outcome (length nodes) nodes [] (are_distinct-IsDistinct (ids nodes) once)
            fine tt (omega arith))
  ]
]
