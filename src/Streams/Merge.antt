-- ===== src/Streams/Merge.antt =====
-- `merge_branches` of neural_pods/pod_streams.py.
use ptr_research.Common.{
  ℕ, Bool, ◌||◌, ◌&&◌, Option, List, [], ◌∷◌, ◌++◌, length, filter, mem, if◌then◌else◌, not, ltb,
  Result, ok, err, ℤ, pos, ◌+ℤ◌, ltb_ℤ, leb_ℤ,
}
use ptr_research.Streams.{HypothesisBranch, Error, empty_branch_set, no_verified_branches}

-- The confidence is a sum and the number of its terms.
pub record MergedPodResult : Type 0 where
  pub answer : Option ℕ
  pub evidence : List ℕ
  pub source_branches : List ℕ
  pub confidence : ℤ × ℕ

-- The key `(-confidence, latency, branch_id)` is less.
abbrev pub ranks_before : HypothesisBranch → HypothesisBranch → Bool
ranks_before a b =
    ltb_ℤ b.confidence a.confidence
    || (not (ltb_ℤ a.confidence b.confidence)
        && (ltb_ℤ a.latency b.latency
            || (not (ltb_ℤ b.latency a.latency) && ltb a.branch_id b.branch_id)))

-- `sorted` keeps the order of equal keys.
unfoldable pub insert_ranked : HypothesisBranch → List HypothesisBranch → List HypothesisBranch
insert_ranked a [] = a ∷ []
insert_ranked a (b ∷ bs) =
    let rest = insert_ranked a bs in if ranks_before b a then b ∷ rest else a ∷ b ∷ bs

unfoldable pub rank : List HypothesisBranch → List HypothesisBranch
unfolding insert_ranked
rank [] = []
rank (b ∷ bs) = insert_ranked b (rank bs)

abbrev pub add_key : ℕ → List ℕ → List ℕ
add_key key evidence = if mem key evidence then evidence else evidence ++ key ∷ []

-- The inner and the outer loop over the evidence.
unfoldable pub fill_evidence : ℤ → List ℕ → List ℕ → List ℕ
fill_evidence max_evidence evidence [] = evidence
fill_evidence max_evidence evidence (key ∷ keys) =
    let more = add_key key evidence in
    let rest = fill_evidence max_evidence more keys in
    if leb_ℤ max_evidence (pos (length more)) then more else rest

unfoldable pub gather_evidence : ℤ → List ℕ → List HypothesisBranch → List ℕ
unfolding fill_evidence
gather_evidence max_evidence evidence [] = evidence
gather_evidence max_evidence evidence (b ∷ bs) =
    let more = fill_evidence max_evidence evidence b.evidence in
    let rest = gather_evidence max_evidence more bs in
    if leb_ℤ max_evidence (pos (length more)) then more else rest

abbrev total_confidence : List HypothesisBranch → ℤ
total_confidence [] = pos 0
total_confidence (b ∷ bs) = b.confidence +ℤ total_confidence bs

abbrev ids : List HypothesisBranch → List ℕ
ids [] = []
ids (b ∷ bs) = b.branch_id ∷ ids bs

abbrev pub is_usable : Bool → HypothesisBranch → Bool
is_usable require_verified b = b.verified || not require_verified

unfoldable pub merged : ℤ → List HypothesisBranch → Result Error MergedPodResult
unfolding gather_evidence
merged max_evidence [] = err no_verified_branches
merged max_evidence (winner ∷ bs) = ok (record {
  answer = winner.answer;
  evidence = gather_evidence max_evidence [] (winner ∷ bs);
  source_branches = ids (winner ∷ bs);
  confidence = (total_confidence (winner ∷ bs), length (winner ∷ bs));
})

unfoldable pub merge_branches : List HypothesisBranch → ℤ → Bool → Result Error MergedPodResult
unfolding rank
merge_branches [] max_evidence require_verified = err empty_branch_set
merge_branches (b ∷ bs) max_evidence require_verified =
    merged max_evidence (rank (filter (is_usable require_verified) (b ∷ bs)))
