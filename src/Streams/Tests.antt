-- ===== src/Streams/Tests.antt =====
-- Runs of neural_pods/pod_streams.py.
use ptr_research.Common.{
  ℕ, ◌≡◌, refl, true, false, some, List, [], ◌∷◌, ◌++◌, ok, err, ℤ, pos, negsuc, ◌+ℤ◌,
}
use ptr_research.Streams.{
  HypothesisBranch, PodEvent, DuplexSession, session_closed, invalid_resume_cursor,
  empty_branch_set, no_verified_branches, confidence_out_of_range, new_session, commit_turn,
  interrupt, close, emit, resume, checked_branch,
}
use ptr_research.Streams.Merge.{
  merged, MergedPodResult, merge_branches, rank, insert_ranked, gather_evidence, fill_evidence,
}
use ptr_research.Streams.Order.{Reordered, same, swapped, merge_branches-Reordered}
use ptr_research.Streams.Duplex.{now_, after, commits, interrupts, closes, IsNumbered, resume-Later}

abbrev branch : ℕ → List ℕ → ℤ → ℤ → HypothesisBranch
branch id evidence confidence latency = record {
  branch_id = id;
  pod_id = 1;
  generation = 1;
  evidence = evidence;
  answer = some id;
  confidence = confidence;
  latency = latency;
  verified = true;
}

abbrev slow : HypothesisBranch
slow = branch 1 (7 ∷ 8 ∷ []) (pos 900000) (pos 50)

abbrev fast : HypothesisBranch
fast = branch 2 (8 ∷ 9 ∷ []) (pos 900000) (pos 20)

abbrev weak : HypothesisBranch
weak = branch 3 (6 ∷ []) (pos 100000) (pos 10)

merged_ :
    merge_branches (slow ∷ weak ∷ fast ∷ []) (pos 3) true
    ≡ ok (record {
      answer = some 2;
      evidence = 8 ∷ 9 ∷ 7 ∷ [];
      source_branches = 2 ∷ 1 ∷ 3 ∷ [];
      confidence = (pos 1900000, 3);
    })
unfolding merge_branches merged rank insert_ranked gather_evidence fill_evidence ◌+ℤ◌
merged_ = refl

-- A bound of zero or less still lets one key through.
one_anyway :
    (m : MergedPodResult) × (merge_branches (slow ∷ []) (negsuc 4) true ≡ ok m)
    × (m.evidence ≡ 7 ∷ [])
unfolding merge_branches merged rank insert_ranked gather_evidence fill_evidence ◌+ℤ◌
one_anyway = (_, refl, refl)

refused :
    (merge_branches [] (pos 3) true ≡ err empty_branch_set)
    × (merge_branches (record slow { verified = false } ∷ []) (pos 3) true
        ≡ err no_verified_branches)
    × (checked_branch (branch 1 [] (pos 1000001) (pos 0)) ≡ err confidence_out_of_range)
unfolding merge_branches merged rank insert_ranked checked_branch
refused = (refl, refl, refl)

reordered : Reordered (slow ∷ weak ∷ fast ∷ []) (weak ∷ fast ∷ slow ∷ [])
reordered = swapped (weak ∷ []) slow fast [] refl (swapped [] slow weak (fast ∷ []) refl same)

merge_branches-Reordered_example :
    merge_branches (slow ∷ weak ∷ fast ∷ []) (pos 3) true
    ≡ merge_branches (weak ∷ fast ∷ slow ∷ []) (pos 3) true
merge_branches-Reordered_example =
    merge_branches-Reordered (slow ∷ weak ∷ fast ∷ []) (weak ∷ fast ∷ slow ∷ []) (pos 3) true
      reordered

abbrev s0 : DuplexSession
s0 = record {
  session_id = 4;
  capabilities = [];
  epoch = 0;
  turn_id = 0;
  sequence = 0;
  events = [];
  closed = false;
}

abbrev s1 : DuplexSession
s1 = (commit_turn s0).1

abbrev s2 : DuplexSession
s2 = (interrupt s1 6).1

abbrev s3 : DuplexSession
s3 = (close s2).1

begins : new_session 4 [] ≡ ok s0
unfolding new_session
begins = refl

resume-Later_example :
    (missed : List PodEvent) × (resume s3 (pos s1.sequence) ≡ ok missed)
    × (s3.events ≡ s1.events ++ missed)
    × IsNumbered s1.sequence missed
resume-Later_example =
    resume-Later 4 [] s0 s1 s3 begins (after now_ commits)
      (after (after now_ (interrupts 6)) closes)

cursor_refused :
    (resume s3 (pos 4) ≡ err invalid_resume_cursor)
    × (resume s3 (negsuc 0) ≡ err invalid_resume_cursor)
unfolding resume close interrupt commit_turn emit
cursor_refused = (refl, refl)

-- A turn on a closed session raises, but it was counted.
counted_when_closed : ((commit_turn s3).0 ≡ err session_closed) × ((commit_turn s3).1.turn_id ≡ 2)
unfolding close interrupt commit_turn emit
counted_when_closed = (refl, refl)
