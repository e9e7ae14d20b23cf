-- ===== src/TaskGraph/Runs.antt =====
-- Runs of a task graph of neural_pods/taskgraph.py whose nodes are listed after their dependencies.
use ptr_research.Common.{
  ℕ, suc, ◌+◌, ◌*◌, ◌≤◌, ◌≡◌, refl, ◌∙◌, sym, subst, ap, ◌⊎◌, inl, inr, true, Option, List, [], ◌∷◌,
  ◌++◌, all, mem, length, length-append, arith, Bool-cases, ◌==◌, ==_iff, All, lookup-insert,
  insert, nat_eq, true-ne-false,
}
use ptr_research.TaskGraph.{
  TaskNode, Outputs, Pool, is_done, is_ready, inputs, Step, takes, finishes, Run, starts, then_,
}

-- Every dependency stands earlier in the list, or among the ids given.
abbrev pub IsOrdered : List ℕ → List TaskNode → Type 0
IsOrdered earlier [] = Unit
IsOrdered earlier (n ∷ ns) =
    All (λ dep. mem dep earlier ≡ true) n.depends_on × IsOrdered (n.node_id ∷ earlier) ns

module _ {ℓ} {V : Type ℓ} where
  -- The nodes taken are done, or are running in the order in which they were taken.
  abbrev Split : Outputs V → List TaskNode → List TaskNode → Type 0
  Split outputs [] [] = Unit
  Split outputs [] (r ∷ rs) = ⊥
  Split outputs (n ∷ ns) [] = (is_done outputs n.node_id ≡ true) × Split outputs ns []
  Split outputs (n ∷ ns) (r ∷ rs) =
      ((is_done outputs n.node_id ≡ true) × Split outputs ns (r ∷ rs))
      ⊎ ((n ≡ r) × Split outputs ns rs)

  Split-last :
      (outputs : Outputs V) (ns rs : List TaskNode) (n : TaskNode)
      → Split outputs ns rs
      → Split outputs (ns ++ n ∷ []) (rs ++ n ∷ [])
  Split-last outputs [] [] n h = inr (refl, tt)
  Split-last outputs [] (r ∷ rs) n h = elim h [ ]
  Split-last outputs (m ∷ ns) [] n h = inl (h.0, Split-last outputs ns [] n h.1)
  Split-last outputs (m ∷ ns) (r ∷ rs) n (inl h) = inl (h.0, Split-last outputs ns (r ∷ rs) n h.1)
  Split-last outputs (m ∷ ns) (r ∷ rs) n (inr h) = inr (h.0, Split-last outputs ns rs n h.1)

  still_done :
      (outputs : Outputs V) (k j : ℕ) (v : Option V)
      → is_done outputs j ≡ true
      → is_done (insert k v outputs) j ≡ true
  still_done outputs k j v h = ground (arith, lookup-insert k j v outputs, h)

  now_done : (outputs : Outputs V) (k : ℕ) (v : Option V) → is_done (insert k v outputs) k ≡ true
  now_done outputs k v = ground (arith, lookup-insert k k v outputs)

  Split-grows :
      (outputs : Outputs V) (k : ℕ) (v : Option V) (ns rs : List TaskNode)
      → Split outputs ns rs
      → Split (insert k v outputs) ns rs
  Split-grows outputs k v [] [] h = tt
  Split-grows outputs k v [] (r ∷ rs) h = h
  Split-grows outputs k v (n ∷ ns) [] h =
      (still_done outputs k n.node_id v h.0, Split-grows outputs k v ns [] h.1)
  Split-grows outputs k v (n ∷ ns) (r ∷ rs) (inl h) =
      inl (still_done outputs k n.node_id v h.0, Split-grows outputs k v ns (r ∷ rs) h.1)
  Split-grows outputs k v (n ∷ ns) (r ∷ rs) (inr h) = inr (h.0, Split-grows outputs k v ns rs h.1)

  done_too :
      (outputs : Outputs V) (n : TaskNode) (ns rs : List TaskNode)
      → is_done outputs n.node_id ≡ true
      → Split outputs ns rs
      → Split outputs (n ∷ ns) rs
  done_too outputs n ns [] d h = (d, h)
  done_too outputs n ns (r ∷ rs) d h = inl (d, h)

  -- A node that finishes leaves the running ones.
  Split-finishes :
      (outputs : Outputs V) (v : Option V) (ns before : List TaskNode) (n : TaskNode)
      (after : List TaskNode)
      → Split outputs ns (before ++ n ∷ after)
      → Split (insert n.node_id v outputs) ns (before ++ after)
  Split-finishes outputs v [] [] n after h = elim h [ ]
  Split-finishes outputs v [] (b ∷ before) n after h = elim h [ ]
  Split-finishes outputs v (m ∷ ns) [] n after (inl h) =
      done_too (insert n.node_id v outputs) m ns after
        (still_done outputs n.node_id m.node_id v h.0) (Split-finishes outputs v ns [] n after h.1)
  Split-finishes outputs v (m ∷ ns) [] n after (inr h) =
      done_too (insert n.node_id v outputs) m ns after
        (subst (λ z. is_done (insert n.node_id v outputs) z.node_id ≡ true) (sym h.0)
          (now_done outputs n.node_id v))
        (Split-grows outputs n.node_id v ns after h.1)
  Split-finishes outputs v (m ∷ ns) (b ∷ before) n after (inl h) = inl (
    still_done outputs n.node_id m.node_id v h.0,
    Split-finishes outputs v ns (b ∷ before) n after h.1,
  )
  Split-finishes outputs v (m ∷ ns) (b ∷ before) n after (inr h) =
      inr (h.0, Split-finishes outputs v ns before n after h.1)

  ready_by :
      (outputs : Outputs V) (earlier deps : List ℕ)
      → ((j : ℕ) → mem j earlier ≡ true → is_done outputs j ≡ true)
      → All (λ dep. mem dep earlier ≡ true) deps
      → all (is_done outputs) deps ≡ true
  ready_by outputs earlier [] done h = refl
  ready_by outputs earlier (d ∷ ds) done h = rw (done d h.0) (ready_by outputs earlier ds done h.1)

  -- The oldest running node has all its dependencies done.
  oldest_ready :
      (outputs : Outputs V) (earlier : List ℕ) (ns rest rs : List TaskNode) (r : TaskNode)
      → ((j : ℕ) → mem j earlier ≡ true → is_done outputs j ≡ true)
      → IsOrdered earlier (ns ++ rest)
      → Split outputs ns (r ∷ rs)
      → is_ready outputs r ≡ true
  oldest_ready outputs earlier [] rest rs r done order h = elim h [ ]
  oldest_ready outputs earlier (n ∷ ns) rest rs r done order (inl h) =
      oldest_ready outputs (n.node_id ∷ earlier) ns rest rs r
        (λ j in_. elim (Bool-cases (j == n.node_id)) [
          | inl same ↦ subst (λ z. is_done outputs z ≡ true) (sym ((==_iff j n.node_id).0 same)) h.0
          | inr other ↦ done j (ground (arith, in_, other))
        ])
        order.1 h.1
  oldest_ready outputs earlier (n ∷ ns) rest rs r done order (inr h) =
      subst (λ z. is_ready outputs z ≡ true) h.0
        (ready_by outputs earlier n.depends_on done order.0)

  All-done :
      (outputs : Outputs V) (ns : List TaskNode)
      → Split outputs ns []
      → All (λ (n : TaskNode). is_done outputs n.node_id ≡ true) ns
  All-done outputs [] h = tt
  All-done outputs (n ∷ ns) h = (h.0, All-done outputs ns h.1)

pub append_nil : (xs : List TaskNode) → xs ++ [] ≡ xs
append_nil [] = refl
append_nil (x ∷ xs) = ap (λ z. x ∷ z) (append_nil xs)

pub append_last :
    (xs : List TaskNode) (n : TaskNode) (ys : List TaskNode) → xs ++ n ∷ ys ≡ (xs ++ n ∷ []) ++ ys
append_last [] n ys = refl
append_last (x ∷ xs) n ys = ap (λ z. x ∷ z) (append_last xs n ys)

module _ {ℓ} {V : Type ℓ} (handler : ℕ → List (ℕ × Option V) → Option V) where
  -- Between steps: the nodes taken are a first part of the list, and each node costs two steps.
  record IsSound (nodes : List TaskNode) (k : ℕ) (s : Pool V) : Type 0 where
    gone : List TaskNode
    in_order : nodes ≡ gone ++ s.queue
    split : Split s.outputs gone s.running
    counted : k + 2 * length s.queue + length s.running ≡ 2 * length nodes

  Step-IsSound :
      (p : ℕ) (nodes : List TaskNode) (k : ℕ) (s s' : Pool V)
      → IsSound nodes k s
      → Step handler p s s'
      → IsSound nodes (suc k) s'
  Step-IsSound p nodes k s s' sound (takes n rest e room) = record {
    gone = sound.gone ++ n ∷ [];
    in_order = sound.in_order ∙ ap (λ q. sound.gone ++ q) e ∙ append_last sound.gone n rest;
    split = Split-last s.outputs sound.gone s.running n sound.split;
    counted = omega (arith, sound.counted, ap length e, length-append s.running (n ∷ []));
  }
  Step-IsSound p nodes k s s' sound (finishes before n after e ready) = record {
    gone = sound.gone;
    in_order = sound.in_order;
    split =
        Split-finishes s.outputs (handler n.node_id (inputs s.outputs n)) sound.gone before n after
          (subst (Split s.outputs sound.gone) e sound.split);
    counted = omega (
      arith,
      sound.counted,
      ap length e,
      length-append before (n ∷ after),
      length-append before after,
    );
  }

  Run-IsSound :
      {p : ℕ} {nodes : List TaskNode} {k : ℕ} {s : Pool V}
      → Run handler p nodes k s
      → IsSound nodes k s
  Run-IsSound {p} {nodes} starts = record {
    gone = [];
    in_order = refl;
    split = tt;
    counted = omega arith;
  }
  Run-IsSound {p} {nodes} {s = s'} (then_ {k = k} {s = s} r step) =
      Step-IsSound p nodes k s s' (Run-IsSound r) step

  progress :
      (p : ℕ) (nodes : List TaskNode) (s : Pool V) (gone queue running : List TaskNode)
      → 1 ≤ p
      → IsOrdered [] nodes
      → s.queue ≡ queue
      → s.running ≡ running
      → nodes ≡ gone ++ s.queue
      → Split s.outputs gone s.running
      → ((s' : Pool V) × Step handler p s s')
        ⊎ ((s.queue ≡ [])
            × (s.running ≡ [])
            × All (λ (n : TaskNode). is_done s.outputs n.node_id ≡ true) nodes)
  progress p nodes s gone queue (r ∷ rs) workers order qe re listed split = inl (
    _,
    finishes [] r rs re (
        oldest_ready s.outputs [] gone s.queue rs r (λ j in_. absurd (true-ne-false (sym in_)))
          (subst (IsOrdered []) listed order) (subst (Split s.outputs gone) re split)),
  )
  progress p nodes s gone (n ∷ ns) [] workers order qe re listed split =
      inl (_, takes n ns qe (omega (arith, workers, ap length re)))
  progress p nodes s gone [] [] workers order qe re listed split = inr (
    qe,
    re,
    subst (All (λ (n : TaskNode). is_done s.outputs n.node_id ≡ true))
        (sym (listed ∙ ap (λ q. gone ++ q) qe ∙ append_nil gone))
        (All-done s.outputs gone (subst (Split s.outputs gone) re split)),
  )

  -- With nodes listed after their dependencies and at least one worker, no run is longer than two
  -- steps for each node, and a run either goes on or has completed every node.
  pub Run-completes :
      {p k : ℕ} {nodes : List TaskNode} {s : Pool V}
      → 1 ≤ p
      → IsOrdered [] nodes
      → Run handler p nodes k s
      → (k ≤ 2 * length nodes)
        × (((s' : Pool V) × Step handler p s s')
            ⊎ ((s.queue ≡ [])
                × (s.running ≡ [])
                × All (λ (n : TaskNode). is_done s.outputs n.node_id ≡ true) nodes))
  Run-completes {p} {k} {nodes} {s} workers order r =
      let sound = Run-IsSound r in
      (
        omega (arith, sound.counted),
        progress p nodes s sound.gone s.queue s.running workers order refl refl sound.in_order
            sound.split,
      )
