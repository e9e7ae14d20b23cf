-- ===== src/Streams/Order.antt =====
-- The order in which the branches of neural_pods/pod_streams.py arrive does not matter.
use ptr_research.Common.{
  ◌≡◌, refl, ap, ◌∙◌, Bool, true, false, List, [], ◌∷◌, ◌++◌, filter, arith, ◌==◌, ℤ, not, ◌||◌,
  ◌&&◌, Bool-cases, inl, inr, ltb_ℤ, ltb, if◌then◌else◌,
}
use ptr_research.Streams.{HypothesisBranch}
use ptr_research.Streams.Merge.{
  ranks_before, insert_ranked, rank, is_usable, merged, merge_branches,
}

-- Another order of the same branches: neighbours with different ids change places.
pub data Reordered (bs : List HypothesisBranch) : List HypothesisBranch → Type 0 where
  same : Reordered bs bs
  swapped :
      (before : List HypothesisBranch) (a b : HypothesisBranch) (after : List HypothesisBranch)
      → (a.branch_id == b.branch_id) ≡ false
      → Reordered bs (before ++ a ∷ b ∷ after)
      → Reordered bs (before ++ b ∷ a ∷ after)

-- Different branches are ranked one way or the other.
ranks_one_way :
    (a b : HypothesisBranch)
    → (a.branch_id == b.branch_id) ≡ false
    → ranks_before b a ≡ (if ranks_before a b then false else true)
ranks_one_way a b h = ground (arith, h)

-- The same for the parts of a key: a first part that decides, and a rest.
higher_between :
    (y a b : ℤ) (ya yb ba : Bool)
    → (ya ≡ true → yb ≡ false → ba ≡ true)
    → (ltb_ℤ a y || (not (ltb_ℤ y a) && ya)) ≡ true
    → (ltb_ℤ b y || (not (ltb_ℤ y b) && yb)) ≡ false
    → (ltb_ℤ a b || (not (ltb_ℤ b a) && ba)) ≡ true
higher_between y a b ya yb ba rest h k = ground (arith, rest, h, k)

lower_between :
    (y a b : ℤ) (ya yb ba : Bool)
    → (ya ≡ true → yb ≡ false → ba ≡ true)
    → (ltb_ℤ y a || (not (ltb_ℤ a y) && ya)) ≡ true
    → (ltb_ℤ y b || (not (ltb_ℤ b y) && yb)) ≡ false
    → (ltb_ℤ b a || (not (ltb_ℤ a b) && ba)) ≡ true
lower_between y a b ya yb ba rest h k = ground (arith, rest, h, k)

abbrev by_latency : HypothesisBranch → HypothesisBranch → Bool
by_latency a b =
    ltb_ℤ a.latency b.latency || (not (ltb_ℤ b.latency a.latency) && ltb a.branch_id b.branch_id)

-- What does not come after `y` comes before what does.
ranks_between :
    (y a b : HypothesisBranch)
    → ranks_before y a ≡ true
    → ranks_before y b ≡ false
    → ranks_before b a ≡ true
ranks_between y a b h k =
    higher_between y.confidence a.confidence b.confidence (by_latency y a) (by_latency y b)
      (by_latency b a)
      (lower_between y.latency a.latency b.latency (ltb y.branch_id a.branch_id)
        (ltb y.branch_id b.branch_id) (ltb b.branch_id a.branch_id) (λ h k. ground (arith, h, k)))
      h k

front :
    {A : Type 0} (p q : A) (ba ab : Bool)
    → ba ≡ (if ab then false else true)
    → (if ba then p else q) ≡ (if ab then q else p)
front p q ba true e = rw e refl
front p q ba false e = rw e refl

insert_swap :
    (a b : HypothesisBranch) (bs : List HypothesisBranch)
    → (a.branch_id == b.branch_id) ≡ false
    → insert_ranked a (insert_ranked b bs) ≡ insert_ranked b (insert_ranked a bs)
unfolding insert_ranked
insert_swap a b [] h =
    front (b ∷ a ∷ []) (a ∷ b ∷ []) (ranks_before b a) (ranks_before a b) (ranks_one_way a b h)
insert_swap a b (y ∷ ys) h = elim (Bool-cases (ranks_before y a)) [
  | inl ya ↦ elim (Bool-cases (ranks_before y b)) [
    | inl yb ↦ rw (yb, ya) (rw yb (ap (λ zs. y ∷ zs) (insert_swap a b ys h)))
    | inr yb ↦ rw (yb, ya, ranks_between y a b ya yb) (rw yb refl)
  ]
  | inr ya ↦ elim (Bool-cases (ranks_before y b)) [
    | inl yb ↦ rw (yb, ya, ranks_between y b a yb ya) (rw yb refl)
    | inr yb ↦
        rw (yb, ya)
          (rw yb (
            front (b ∷ a ∷ y ∷ ys) (a ∷ b ∷ y ∷ ys) (ranks_before b a) (ranks_before a b)
              (ranks_one_way a b h)))
  ]
]

rank-swap :
    (keep : HypothesisBranch → Bool) (before : List HypothesisBranch) (a b : HypothesisBranch)
    (after : List HypothesisBranch)
    → (a.branch_id == b.branch_id) ≡ false
    → rank (filter keep (before ++ a ∷ b ∷ after)) ≡ rank (filter keep (before ++ b ∷ a ∷ after))
unfolding rank
rank-swap keep [] a b after h = elim (Bool-cases (keep a)) [
  | inl ka ↦ elim (Bool-cases (keep b)) [
    | inl kb ↦ rw (ka, kb) (insert_swap a b (rank (filter keep after)) h)
    | inr kb ↦ rw (ka, kb) refl
  ]
  | inr ka ↦ elim (Bool-cases (keep b)) [ inl kb ↦ rw (ka, kb) refl | inr kb ↦ rw (ka, kb) refl ]
]
rank-swap keep (x ∷ xs) a b after h = elim (Bool-cases (keep x)) [
  | inl kept ↦ rw kept (ap (insert_ranked x) (rank-swap keep xs a b after h))
  | inr out ↦ rw out (rank-swap keep xs a b after h)
]

merge-swap :
    (before : List HypothesisBranch) (a b : HypothesisBranch) (after : List HypothesisBranch)
    (max_evidence : ℤ) (require_verified : Bool)
    → (a.branch_id == b.branch_id) ≡ false
    → merge_branches (before ++ a ∷ b ∷ after) max_evidence require_verified
      ≡ merge_branches (before ++ b ∷ a ∷ after) max_evidence require_verified
unfolding merge_branches
merge-swap [] a b after max_evidence require_verified h =
    ap (merged max_evidence) (rank-swap (is_usable require_verified) [] a b after h)
merge-swap (x ∷ xs) a b after max_evidence require_verified h =
    ap (merged max_evidence) (rank-swap (is_usable require_verified) (x ∷ xs) a b after h)

-- Branches with different ids may come in any order: the merge gives the same result, or the same
-- error.
pub merge_branches-Reordered :
    (bs cs : List HypothesisBranch) (max_evidence : ℤ) (require_verified : Bool)
    → Reordered bs cs
    → merge_branches bs max_evidence require_verified
      ≡ merge_branches cs max_evidence require_verified
unfolding merge_branches
merge_branches-Reordered bs cs max_evidence require_verified same = refl
merge_branches-Reordered bs cs max_evidence require_verified (swapped before a b after h r) =
    merge_branches-Reordered bs (before ++ a ∷ b ∷ after) max_evidence require_verified r
    ∙ merge-swap before a b after max_evidence require_verified h
