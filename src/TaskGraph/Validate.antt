-- ===== src/TaskGraph/Validate.antt =====
-- The checks of `TaskGraph` of neural_pods/taskgraph.py on its nodes: different ids, dependencies that
-- exist, and rounds that resolve each node after its dependencies.
use ptr_research.Common.{
  ℕ, zero, suc, ◌≤◌, ◌≡◌, refl, ◌⊎◌, inl, inr, Bool, true, false, ◌&&◌, List, [], ◌∷◌, all, mem,
  length, arith, Bool-cases, if◌then◌else◌, ◌==◌, ltb, not, All, Result, ok, err, ◌>>◌, raise_if,
}
use ptr_research.TaskGraph.{TaskNode}

pub data Error : Type 0 where
  duplicate_ids unknown_dependency cycle out_of_fuel : Error

abbrev pub ids : List TaskNode → List ℕ
ids [] = []
ids (n ∷ ns) = n.node_id ∷ ids ns

-- `len(self.nodes) != len(nodes)`, negated.
abbrev pub are_distinct : List ℕ → Bool
are_distinct [] = true
are_distinct (x ∷ xs) = not (mem x xs) && are_distinct xs

abbrev pub all_in : List ℕ → List ℕ → Bool
all_in deps known = all (λ d. mem d known) deps

-- One pass of the `for` loop inside the `while`; what it resolves counts at once.
unfoldable pub resolve_round : List TaskNode → List ℕ → List ℕ
resolve_round [] resolved = resolved
resolve_round (n ∷ ns) resolved =
    if mem n.node_id resolved
    then resolve_round ns resolved
    else if all_in n.depends_on resolved
    then resolve_round ns (n.node_id ∷ resolved)
    else resolve_round ns resolved

-- The `while` loop; a round without progress is one that resolves nothing.
unfoldable pub resolve_all : ℕ → List TaskNode → List ℕ → Result Error (List ℕ)
resolve_all zero nodes resolved =
    if ltb (length resolved) (length nodes) then err out_of_fuel else ok resolved
resolve_all (suc fuel) nodes resolved =
    let next = resolve_round nodes resolved in
    let rest = resolve_all fuel nodes next in
    if ltb (length resolved) (length nodes)
    then if length next == length resolved then err cycle else rest
    else ok resolved

-- The constructor's checks; as many rounds as nodes are enough.
unfoldable pub check_nodes : List TaskNode → Result Error (List ℕ)
check_nodes nodes = do
  raise_if (not (are_distinct (ids nodes))) duplicate_ids
  raise_if (not (all (λ n. all_in n.depends_on (ids nodes)) nodes)) unknown_dependency
  resolve_all (length nodes) nodes []

abbrev pub IsNode : TaskNode → List TaskNode → Type 0
IsNode n [] = ⊥
IsNode n (m ∷ ms) = (m ≡ n) ⊎ IsNode n ms

-- Each id is that of a node whose dependencies were all resolved before it, the newest id first.
abbrev pub IsResolved : List TaskNode → List ℕ → Type 0
IsResolved nodes [] = Unit
IsResolved nodes (k ∷ ks) =
    ((n : TaskNode) × IsNode n nodes × (n.node_id ≡ k) × (all_in n.depends_on ks ≡ true))
    × (mem k ks ≡ false)
    × IsResolved nodes ks

-- No node that is open has all its dependencies resolved.
abbrev pub IsBlocked : List ℕ → TaskNode → Type 0
IsBlocked resolved n = (mem n.node_id resolved ≡ true) ⊎ (all_in n.depends_on resolved ≡ false)

pub round-grows : (ns : List TaskNode) (res : List ℕ) → length res ≤ length (resolve_round ns res)
unfolding resolve_round
round-grows [] res = omega arith
round-grows (n ∷ ns) res = ground (arith, round-grows ns res, round-grows ns (n.node_id ∷ res))

pub round-IsResolved :
    (nodes ns : List TaskNode) (res : List ℕ)
    → ((n : TaskNode) → IsNode n ns → IsNode n nodes)
    → IsResolved nodes res
    → IsResolved nodes (resolve_round ns res)
unfolding resolve_round
round-IsResolved nodes [] res sub h = h
round-IsResolved nodes (n ∷ ns) res sub h = elim (Bool-cases (mem n.node_id res)) [
  | inl known ↦ rw known (round-IsResolved nodes ns res (λ m i. sub m (inr i)) h)
  | inr new_ ↦ elim (Bool-cases (all_in n.depends_on res)) [
    | inl ready ↦
        rw (new_, ready)
          (round-IsResolved nodes ns (n.node_id ∷ res) (λ m i. sub m (inr i))
            ((n, sub n (inl refl), refl, ready), new_, h))
    | inr waits ↦ rw (new_, waits) (round-IsResolved nodes ns res (λ m i. sub m (inr i)) h)
  ]
]

pub round-IsBlocked :
    (ns : List TaskNode) (res : List ℕ)
    → length (resolve_round ns res) ≡ length res
    → All (IsBlocked res) ns
unfolding resolve_round
round-IsBlocked [] res e = tt
round-IsBlocked (n ∷ ns) res e = elim (Bool-cases (mem n.node_id res)) [
  | inl known ↦ (inl known, round-IsBlocked ns res (ground (arith, e, known)))
  | inr new_ ↦ elim (Bool-cases (all_in n.depends_on res)) [
    | inl ready ↦ absurd (ground (arith, e, new_, ready, round-grows ns (n.node_id ∷ res)))
    | inr waits ↦ (inr waits, round-IsBlocked ns res (ground (arith, e, new_, waits)))
  ]
]
