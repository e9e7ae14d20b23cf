-- ===== src/Placement/Reconcile.antt =====
-- `reconcile` of neural_pods/placement.py: one pass over the regions that moves those with a replica
-- that is not live. The pass reads the clock once, and each rebalance reads it again.
use ptr_research.Common.{
  ℕ, ◌+◌, ◌≡◌, refl, ◌∙◌, sym, subst, ap, ◌⊎◌, inl, inr, Bool, true, false, List, [], ◌∷◌, arith,
  if◌then◌else◌, All, Bool-cases, none, some, Option-cases, Dict, keys, lookup, lookup-insert,
  lookup-insert_other, insert, nat_eq, pair_eq, pair_beq, pair_beq_iff, none-ne-some, true-ne-false,
  some-injective, Result, ok, err, Result-cases, or_raise, ◌>>=◌, ℤ, ◌≤ℤ◌, int_laws, length,
}
use ptr_research.Placement.{
  ReplicaNode, RegionPlacement, Driver, Error, unknown_node, unknown_region, live, ids, assign,
  rebalance,
}
use ptr_research.Placement.Candidates.{IsNamed, IsLive}
use ptr_research.Placement.Assign.{assign_returns}

-- `any(not self._nodes[node].live(now, ...) for node in replicas)`.
unfoldable pub any_dead : Dict ℕ ReplicaNode → ℤ → List ℕ → ℤ → Result Error Bool
any_dead nodes timeout [] now = ok false
any_dead nodes timeout (r ∷ rs) now = do
  n ← or_raise (lookup r nodes) unknown_node
  if live n now timeout then any_dead nodes timeout rs now else ok true

abbrev pub prepend :
    RegionPlacement
    → Result Error (List RegionPlacement) × Driver
    → Result Error (List RegionPlacement) × Driver
prepend p (ok ps, d) = (ok (p ∷ ps), d)
prepend p (err x, d) = (err x, d)

-- The loop; `i` counts the rebalances, and an exception leaves the regions moved before it.
unfoldable pub reconcile_keys :
    (ℕ → ℤ) → ℤ → ℕ → Driver → List (ℕ × ℕ) → Result Error (List RegionPlacement) × Driver
reconcile_keys clock now i d [] = (ok [], d)
reconcile_keys clock now i d (key ∷ rest) = elim (lookup key d.regions) [
  | none ↦ (err unknown_region, d)
  | some current ↦ elim (any_dead d.nodes d.heartbeat_timeout_s current.replicas now) [
    | err x ↦ (err x, d)
    | ok false ↦ reconcile_keys clock now i d rest
    | ok true ↦ elim (rebalance d (key.0) (key.1) (clock i)) [
      | err x ↦ (err x, d)
      | ok r ↦ prepend (r.0) (reconcile_keys clock now (i + 1) (r.1) rest)
    ]
  ]
]

unfoldable pub reconcile : (ℕ → ℤ) → ℤ → Driver → Result Error (List RegionPlacement) × Driver
reconcile clock now d = reconcile_keys clock now 0 d (keys d.regions)

live_before :
    (n : ReplicaNode) (now later timeout : ℤ)
    → now ≤ℤ later
    → live n later timeout ≡ true
    → live n now timeout ≡ true
live_before n now later timeout le up = grind (int_laws, le, up)

-- All replicas are live.
abbrev pub IsServed : Driver → ℤ → RegionPlacement → Type 0
IsServed d now p = any_dead d.nodes d.heartbeat_timeout_s p.replicas now ≡ ok false

chosen_served :
    (d : Driver) (now later : ℤ) (chosen : List ReplicaNode)
    → now ≤ℤ later
    → All (IsLive d later) chosen
    → any_dead d.nodes d.heartbeat_timeout_s (ids chosen) now ≡ ok false
unfolding any_dead
chosen_served d now later [] le h = refl
chosen_served d now later (n ∷ ns) le h =
    let up = live_before n now later d.heartbeat_timeout_s le h.0.1 in
    rw (h.0.0, up) (chosen_served d now later ns le h.1)

-- A rebalance that returns: the region has all its replicas live, and nothing else has moved.
rebalanced :
    (d d' : Driver) (key : ℕ × ℕ) (now later : ℤ) (p : RegionPlacement)
    → IsNamed d.nodes
    → now ≤ℤ later
    → rebalance d key.0 key.1 later ≡ ok (p, d')
    → IsServed d now p
      × (d'.nodes ≡ d.nodes)
      × (d'.heartbeat_timeout_s ≡ d.heartbeat_timeout_s)
      × (d'.regions ≡ insert key p d.regions)
unfolding rebalance
rebalanced d d' key now later p named le e = elim (Option-cases (lookup key d.regions)) [
  | inl gone ↦ absurd (ground (arith, gone))
  | inr (current, known) ↦
      let e' : assign d key.0 key.1 (length current.replicas) later ≡ ok (p, d') =
        ground (arith, known) in
      let h = assign_returns d d' key.0 key.1 (length current.replicas) later p named e' in
      (
        rw h.replicas (chosen_served d now later h.chosen le h.all_live),
        h.same_nodes,
        h.same_timeout,
        h.only_region,
      )
]

-- A region is still to come, or has its replicas live.
abbrev InKeys : ℕ × ℕ → List (ℕ × ℕ) → Type 0
InKeys key [] = ⊥
InKeys key (k ∷ ks) = (k ≡ key) ⊎ InKeys key ks

abbrev Pending : Driver → ℤ → List (ℕ × ℕ) → Type 0
Pending d now ks =
    (key : ℕ × ℕ) (p : RegionPlacement)
    → lookup key d.regions ≡ some p
    → InKeys key ks ⊎ IsServed d now p

skip_served :
    (d : Driver) (now : ℤ) (key : ℕ × ℕ) (ks : List (ℕ × ℕ)) (p : RegionPlacement)
    → lookup key d.regions ≡ some p
    → IsServed d now p
    → Pending d now (key ∷ ks)
    → Pending d now ks
skip_served d now key ks p known served pending key' p' known' = elim (pending key' p' known') [
  | inr done ↦ inr done
  | inl (inr later) ↦ inl later
  | inl (inl same) ↦
      let eq : p ≡ p' = some-injective (sym known ∙ ap (λ k. lookup k d.regions) same ∙ known') in
      inr (subst (IsServed d now) eq served)
]

moved_served :
    (d d' : Driver) (now : ℤ) (key : ℕ × ℕ) (ks : List (ℕ × ℕ)) (p : RegionPlacement)
    → IsServed d now p
    → d'.nodes ≡ d.nodes
    → d'.heartbeat_timeout_s ≡ d.heartbeat_timeout_s
    → d'.regions ≡ insert key p d.regions
    → Pending d now (key ∷ ks)
    → Pending d' now ks
moved_served d d' now key ks p served nodes timeout regions pending key' p' known' =
    let at_ : lookup key' (insert key p d.regions) ≡ some p' =
      ap (lookup key') (sym regions) ∙ known' in
    rw (nodes, timeout)
      (elim (Bool-cases (pair_beq key key')) [
        | inl same ↦
            let eq : p ≡ p' =
              some-injective (sym (lookup-insert key key' p d.regions ∙ rw same refl) ∙ at_) in
            inr (subst (IsServed d now) eq served)
        | inr other ↦
            elim (pending key' p' (sym (lookup-insert_other key key' p d.regions other) ∙ at_)) [
              | inr done ↦ inr done
              | inl (inr later) ↦ inl later
              | inl (inl same) ↦
                  absurd (true-ne-false (sym ((pair_beq_iff key key').1 same) ∙ other))
            ]
      ])

err-ne-ok :
    {x : Error} {ps : List RegionPlacement} {d d' : Driver}
    → ¬ (◌≡◌ {A = Result Error (List RegionPlacement) × Driver} (err x, d) (ok ps, d'))
err-ne-ok e = ground arith

prepend_ok :
    (p : RegionPlacement) (r : Result Error (List RegionPlacement) × Driver)
    (ps : List RegionPlacement) (d' : Driver)
    → prepend p r ≡ (ok ps, d')
    → (qs : List RegionPlacement) × (r ≡ (ok qs, d'))
prepend_ok p (err x, d) ps d' e = absurd (err-ne-ok e)
prepend_ok p (ok qs, d) ps d' e = (qs, ap (λ z. (ok qs, z)) (ap (λ r. r.1) e))

reconcile_keys-IsServed :
    (clock : ℕ → ℤ) (now : ℤ) (i : ℕ) (d d' : Driver) (ks : List (ℕ × ℕ))
    (ps : List RegionPlacement)
    → IsNamed d.nodes
    → ((j : ℕ) → now ≤ℤ clock j)
    → Pending d now ks
    → reconcile_keys clock now i d ks ≡ (ok ps, d')
    → Pending d' now []
unfolding reconcile_keys
reconcile_keys-IsServed clock now i d d' [] ps named le pending e =
    subst (λ z. Pending z now []) (ap (λ r. r.1) e) pending
reconcile_keys-IsServed clock now i d d' (key ∷ ks) ps named le pending e =
    elim (Option-cases (lookup key d.regions)) [
      | inl gone ↦ absurd (err-ne-ok (rw (gone, reconcile_keys) at e))
      | inr (p, known) ↦
          elim (Result-cases (any_dead d.nodes d.heartbeat_timeout_s p.replicas now)) [
            | inr (x, raised) ↦ absurd (err-ne-ok (rw (known, raised, reconcile_keys) at e))
            | inl (false, served) ↦
                reconcile_keys-IsServed clock now i d d' ks ps named le
                  (skip_served d now key ks p known served pending)
                  (rw (known, served, reconcile_keys) at e)
            | inl (true, dead) ↦ elim (Result-cases (rebalance d key.0 key.1 (clock i))) [
              | inr (x, raised) ↦ absurd (err-ne-ok (rw (known, dead, raised, reconcile_keys) at e))
              | inl ((q, d₁), moved) ↦
                  let (served, nodes, timeout, regions) =
                    rebalanced d d₁ key now (clock i) q named (le i) moved in
                  let (qs, e') =
                    prepend_ok q (reconcile_keys clock now (i + 1) d₁ ks) ps d'
                      (rw (known, dead, moved, reconcile_keys) at e) in
                  reconcile_keys-IsServed clock now (i + 1) d₁ d' ks qs
                    (subst IsNamed (sym nodes) named) le
                    (moved_served d d₁ now key ks q served nodes timeout regions pending) e'
            ]
          ]
    ]

all_keys :
    (rs : Dict (ℕ × ℕ) RegionPlacement) (key : ℕ × ℕ) (p : RegionPlacement)
    → lookup key rs ≡ some p
    → InKeys key (keys rs)
all_keys [] key p e = absurd (none-ne-some e)
all_keys ((k, q) ∷ rs) key p e = elim (Bool-cases (pair_beq k key)) [
  | inl same ↦ inl ((pair_beq_iff k key).0 same)
  | inr other ↦ inr (all_keys rs key p (rw other at e))
]

-- A known node that is live.
abbrev pub Serving : Driver → ℤ → ℕ → Type 0
Serving d now r =
    (n : ReplicaNode) × (lookup r d.nodes ≡ some n) × (live n now d.heartbeat_timeout_s ≡ true)

serving :
    (d : Driver) (now : ℤ) (rs : List ℕ)
    → any_dead d.nodes d.heartbeat_timeout_s rs now ≡ ok false
    → All (Serving d now) rs
unfolding any_dead
serving d now [] e = tt
serving d now (r ∷ rs) e = elim (Option-cases (lookup r d.nodes)) [
  | inl unknown ↦ absurd (ground (arith, unknown))
  | inr (n, known) ↦ elim (Bool-cases (live n now d.heartbeat_timeout_s)) [
    | inl up ↦ ((n, known, up), serving d now rs (rw (known, up, any_dead) at e))
    | inr down ↦ absurd (ground (arith, known, down))
  ]
]

-- After a pass that returns, every region has all its replicas live at the time when the pass began,
-- if the clock does not run backwards.
pub reconcile-IsServed :
    (clock : ℕ → ℤ) (now : ℤ) (d d' : Driver) (ps : List RegionPlacement) (key : ℕ × ℕ)
    (p : RegionPlacement)
    → IsNamed d.nodes
    → ((j : ℕ) → now ≤ℤ clock j)
    → reconcile clock now d ≡ (ok ps, d')
    → lookup key d'.regions ≡ some p
    → All (Serving d' now) p.replicas
unfolding reconcile
reconcile-IsServed clock now d d' ps key p named le e known =
    elim (reconcile_keys-IsServed clock now 0 d d' (keys d.regions) ps named le
      (λ key p known. inl (all_keys d.regions key p known)) e key p known) [
        | inr served ↦ serving d' now p.replicas served
        | inl never ↦ elim never [ ]
      ]
