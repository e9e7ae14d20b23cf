-- ===== src/Placement/Candidates.antt =====
-- The candidates of `assign` of neural_pods/placement.py, filtered and sorted: different, live, and
-- filed under their ids.
use ptr_research.Common.{
  ℕ, suc, ◌≡◌, refl, ◌∙◌, sym, ap, inl, inr, Bool, true, false, ◌||◌, List, [], ◌∷◌, arith, ◌==◌,
  ==_iff, mem, length, filter, All, IsDistinct, Bool-cases, none, some, Dict, lookup, values,
  nat_eq, pair_eq, none-ne-some, ℤ,
}
use ptr_research.Placement.{
  ReplicaNode, Driver, live, comes_before, insert_by_load, sort_by_load, ids,
}

-- Every node is filed once, under its own id.
abbrev pub IsNamed : Dict ℕ ReplicaNode → Type 0
IsNamed [] = Unit
IsNamed ((k, n) ∷ d) = (n.node_id ≡ k) × (lookup k d ≡ none) × IsNamed d

-- A node of the driver that is live.
abbrev pub IsLive : Driver → ℤ → ReplicaNode → Type 0
IsLive d now n = (lookup n.node_id d.nodes ≡ some n) × (live n now d.heartbeat_timeout_s ≡ true)

module _ (P : ReplicaNode → Type 0) where
  All-insert :
      (n : ReplicaNode) (ns : List ReplicaNode) → P n → All P ns → All P (insert_by_load n ns)
  All-insert n [] p h = (p, tt)
  All-insert n (m ∷ ms) p h = elim (Bool-cases (comes_before m n)) [
    | inl later ↦ rw later (h.0, All-insert n ms p h.1)
    | inr here ↦ rw here (p, h)
  ]

  pub All-sort : (ns : List ReplicaNode) → All P ns → All P (sort_by_load ns)
  All-sort [] h = tt
  All-sort (n ∷ ns) h = All-insert n (sort_by_load ns) h.0 (All-sort ns h.1)

  insert-All :
      (n : ReplicaNode) (ns : List ReplicaNode) → All P (insert_by_load n ns) → P n × All P ns
  insert-All n [] h = h
  insert-All n (m ∷ ms) h = elim (Bool-cases (comes_before m n)) [
    | inl later ↦
        let h' : All P (m ∷ insert_by_load n ms) = rw later at h in
        let (p, rest) = insert-All n ms h'.1 in (p, (h'.0, rest))
    | inr here ↦ rw here at h
  ]

  pub sort-All : (ns : List ReplicaNode) → All P (sort_by_load ns) → All P ns
  sort-All [] h = tt
  sort-All (n ∷ ns) h = let (p, rest) = insert-All n (sort_by_load ns) h in (p, sort-All ns rest)

mem-insert :
    (k : ℕ) (n : ReplicaNode) (ns : List ReplicaNode)
    → mem k (ids (insert_by_load n ns)) ≡ (k == n.node_id || mem k (ids ns))
mem-insert k n [] = refl
mem-insert k n (m ∷ ms) = elim (Bool-cases (comes_before m n)) [
  | inl later ↦ rw later (ground (arith, mem-insert k n ms))
  | inr here ↦ rw here refl
]

length-insert :
    (n : ReplicaNode) (ns : List ReplicaNode) → length (insert_by_load n ns) ≡ suc (length ns)
length-insert n [] = refl
length-insert n (m ∷ ms) = elim (Bool-cases (comes_before m n)) [
  | inl later ↦ rw later (ap suc (length-insert n ms))
  | inr here ↦ rw here refl
]

pub length-sort : (ns : List ReplicaNode) → length (sort_by_load ns) ≡ length ns
length-sort [] = refl
length-sort (n ∷ ns) = length-insert n (sort_by_load ns) ∙ ap suc (length-sort ns)

mem-sort : (k : ℕ) (ns : List ReplicaNode) → mem k (ids (sort_by_load ns)) ≡ mem k (ids ns)
mem-sort k [] = refl
mem-sort k (n ∷ ns) =
    mem-insert k n (sort_by_load ns) ∙ ap (λ b. k == n.node_id || b) (mem-sort k ns)

insert-IsDistinct :
    (n : ReplicaNode) (ns : List ReplicaNode)
    → mem n.node_id (ids ns) ≡ false
    → IsDistinct (ids ns)
    → IsDistinct (ids (insert_by_load n ns))
insert-IsDistinct n [] new_ u = (refl, tt)
insert-IsDistinct n (m ∷ ms) new_ u = elim (Bool-cases (comes_before m n)) [
  | inl later ↦ rw later (
    mem-insert m.node_id n ms ∙ ground (arith, new_, u.0),
    insert-IsDistinct n ms (ground (arith, new_)) u.1,
  )
  | inr here ↦ rw here (new_, u)
]

pub sort-IsDistinct :
    (ns : List ReplicaNode) → IsDistinct (ids ns) → IsDistinct (ids (sort_by_load ns))
sort-IsDistinct [] u = tt
sort-IsDistinct (n ∷ ns) u =
    insert-IsDistinct n (sort_by_load ns) (mem-sort n.node_id ns ∙ u.0) (sort-IsDistinct ns u.1)

mem-filter :
    (k : ℕ) (p : ReplicaNode → Bool) (ns : List ReplicaNode)
    → mem k (ids ns) ≡ false
    → mem k (ids (filter p ns)) ≡ false
mem-filter k p [] h = refl
mem-filter k p (n ∷ ns) h = elim (Bool-cases (p n)) [
  | inl kept ↦ rw kept (ground (arith, h, mem-filter k p ns))
  | inr dropped ↦ rw dropped (mem-filter k p ns (ground (arith, h)))
]

pub filter-IsDistinct :
    (p : ReplicaNode → Bool) (ns : List ReplicaNode)
    → IsDistinct (ids ns)
    → IsDistinct (ids (filter p ns))
filter-IsDistinct p [] u = tt
filter-IsDistinct p (n ∷ ns) u = elim (Bool-cases (p n)) [
  | inl kept ↦ rw kept (mem-filter n.node_id p ns u.0, filter-IsDistinct p ns u.1)
  | inr dropped ↦ rw dropped (filter-IsDistinct p ns u.1)
]

absent_id :
    (k : ℕ) (d : Dict ℕ ReplicaNode)
    → IsNamed d
    → lookup k d ≡ none
    → mem k (ids (values d)) ≡ false
absent_id k [] h e = refl
absent_id k ((j, n) ∷ d) (named, new_, rest) e = ground (arith, e, named, absent_id k d rest)

pub values-IsDistinct : (d : Dict ℕ ReplicaNode) → IsNamed d → IsDistinct (ids (values d))
values-IsDistinct [] h = tt
values-IsDistinct ((k, n) ∷ d) (named, new_, rest) =
    (absent_id n.node_id d rest (ap (λ j. lookup j d) named ∙ new_), values-IsDistinct d rest)

still_filed :
    (k : ℕ) (n : ReplicaNode) (d : Dict ℕ ReplicaNode) (ns : List ReplicaNode)
    → lookup k d ≡ none
    → All (λ (m : ReplicaNode). lookup m.node_id d ≡ some m) ns
    → All (λ (m : ReplicaNode). lookup m.node_id ((k, n) ∷ d) ≡ some m) ns
still_filed k n d [] new_ h = tt
still_filed k n d (m ∷ ms) new_ h = elim (Bool-cases (k == m.node_id)) [
  | inl same ↦
      absurd (none-ne-some (sym new_ ∙ ap (λ j. lookup j d) ((==_iff k m.node_id).0 same) ∙ h.0))
  | inr other ↦ (rw other h.0, still_filed k n d ms new_ h.1)
]

pub values-filed :
    (d : Dict ℕ ReplicaNode)
    → IsNamed d
    → All (λ (m : ReplicaNode). lookup m.node_id d ≡ some m) (values d)
values-filed [] h = tt
values-filed ((k, n) ∷ d) (named, new_, rest) = (
  rw ((==_iff k n.node_id).1 (sym named)) refl,
  still_filed k n d (values d) new_ (values-filed d rest),
)

pub live_only :
    (d : Driver) (now : ℤ) (ns : List ReplicaNode)
    → All (λ (m : ReplicaNode). lookup m.node_id d.nodes ≡ some m) ns
    → All (IsLive d now) (filter (λ n. live n now d.heartbeat_timeout_s) ns)
live_only d now [] h = tt
live_only d now (n ∷ ns) h = elim (Bool-cases (live n now d.heartbeat_timeout_s)) [
  | inl up ↦ rw up ((h.0, up), live_only d now ns h.1)
  | inr down ↦ rw down (live_only d now ns h.1)
]
