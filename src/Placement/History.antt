-- ===== src/Placement/History.antt =====
-- Histories of calls of the driver of neural_pods/placement.py.
use ptr_research.Common.{
  ℕ, ◌+◌, ◌≡◌, refl, ◌∙◌, sym, subst, ap, inl, inr, Bool, true, false, List, [], ◌∷◌, arith,
  Bool-cases, Option, none, some, Option-cases, lookup, insert, adjust, keys, nat_eq, pair_eq,
  none-ne-some, Result, ok, err, Result-cases, ℤ, pos, length, ltb_ℤ,
}
use ptr_research.Placement.{
  ReplicaNode, RegionPlacement, Driver, Error, new_driver, register, beat, with_load, with_health,
  after_beat, heartbeat, set_health, assign, rebalance,
}
use ptr_research.Placement.Assign.{assign_returns}
use ptr_research.Placement.Reconcile.{any_dead, prepend, reconcile_keys, reconcile}
use ptr_research.Placement.Tables.{
  insert-IsNamed, insert-IsKnown, IsSound, renamed-IsSound, adjusted-IsSound, Placed-IsSound,
}

-- One call. A heartbeat and a pass over the regions may change the state and raise.
pub data Step (d : Driver) : Driver → Type 0 where
  registers :
      (node_id zone : ℕ) (capacity now : ℤ) {d' : Driver}
      → register d node_id zone capacity now ≡ ok d'
      → Step d d'
  beats : (node_id : ℕ) (load : Option ℤ) (now : ℤ) → Step d (heartbeat d node_id load now).1
  sets :
      (node_id : ℕ) (healthy : Bool) {d' : Driver}
      → set_health d node_id healthy ≡ ok d'
      → Step d d'
  assigns :
      (namespace region_id factor : ℕ) (now : ℤ) {p : RegionPlacement} {d' : Driver}
      → assign d namespace region_id factor now ≡ ok (p, d')
      → Step d d'
  rebalances :
      (namespace region_id : ℕ) (now : ℤ) {p : RegionPlacement} {d' : Driver}
      → rebalance d namespace region_id now ≡ ok (p, d')
      → Step d d'
  reconciles : (clock : ℕ → ℤ) (now : ℤ) → Step d (reconcile clock now d).1

pub data Reach (timeout : ℤ) : Driver → Type 0 where
  fresh : {d : Driver} → new_driver timeout ≡ ok d → Reach timeout d
  then_ : {d d' : Driver} → Reach timeout d → Step d d' → Reach timeout d'

register-IsSound :
    (d d' : Driver) (k z : ℕ) (c now : ℤ) → IsSound d → register d k z c now ≡ ok d' → IsSound d'
unfolding register
register-IsSound d d' k z c now sound e =
    let n : ReplicaNode = record {
      node_id = k;
      zone = z;
      capacity = c;
      load = pos 0;
      last_heartbeat = now;
      healthy = true;
    } in
    let eq : d' ≡ record d { nodes = insert k n d.nodes } = ground arith in
    subst IsSound (sym eq) (
      renamed-IsSound d (insert k n d.nodes) (insert-IsNamed k n d.nodes refl sound.named)
        (insert-IsKnown k n d.nodes) sound)

after_beat-IsSound :
    (d : Driver) (k : ℕ) (load : Option ℤ) → IsSound d → IsSound (after_beat d k load).1
after_beat-IsSound d k none sound = sound
after_beat-IsSound d k (some load) sound = elim (Bool-cases (ltb_ℤ load (pos 0))) [
  | inl negative ↦ rw negative sound
  | inr fine ↦ rw fine (adjusted-IsSound d k (with_load load) (λ n. refl) sound)
]

heartbeat-IsSound :
    (d : Driver) (k : ℕ) (load : Option ℤ) (now : ℤ)
    → IsSound d
    → IsSound (heartbeat d k load now).1
unfolding heartbeat
heartbeat-IsSound d k load now sound = elim (Option-cases (lookup k d.nodes)) [
  | inl unknown ↦ rw (unknown, heartbeat) sound
  | inr (n, known) ↦
      rw (known, heartbeat)
        (after_beat-IsSound (record d { nodes = adjust k (beat now) d.nodes }) k load
          (adjusted-IsSound d k (beat now) (λ n. refl) sound))
]

set_health-IsSound :
    (d d' : Driver) (k : ℕ) (healthy : Bool)
    → IsSound d
    → set_health d k healthy ≡ ok d'
    → IsSound d'
unfolding set_health
set_health-IsSound d d' k healthy sound e = elim (Option-cases (lookup k d.nodes)) [
  | inl unknown ↦ absurd (ground (arith, unknown))
  | inr (n, known) ↦
      let eq : d' ≡ record d { nodes = adjust k (with_health healthy) d.nodes } =
        ground (arith, known) in
      subst IsSound (sym eq) (adjusted-IsSound d k (with_health healthy) (λ n. refl) sound)
]

assign-IsSound :
    (d d' : Driver) (ns rid factor : ℕ) (now : ℤ) (p : RegionPlacement)
    → IsSound d
    → assign d ns rid factor now ≡ ok (p, d')
    → IsSound d'
assign-IsSound d d' ns rid factor now p sound e =
    Placed-IsSound d d' ns rid factor now p sound
      (assign_returns d d' ns rid factor now p sound.named e)

rebalance-IsSound :
    (d d' : Driver) (ns rid : ℕ) (now : ℤ) (p : RegionPlacement)
    → IsSound d
    → rebalance d ns rid now ≡ ok (p, d')
    → IsSound d'
unfolding rebalance
rebalance-IsSound d d' ns rid now p sound e = elim (Option-cases (lookup (ns, rid) d.regions)) [
  | inl gone ↦ absurd (ground (arith, gone))
  | inr (current, known) ↦
      let e' : assign d ns rid (length current.replicas) now ≡ ok (p, d') = ground (arith, known) in
      assign-IsSound d d' ns rid (length current.replicas) now p sound e'
]

prepend_state :
    (p : RegionPlacement) (r : Result Error (List RegionPlacement) × Driver) → (prepend p r).1 ≡ r.1
prepend_state p (ok ps, d) = refl
prepend_state p (err x, d) = refl

reconcile_keys-IsSound :
    (clock : ℕ → ℤ) (now : ℤ) (i : ℕ) (d : Driver) (ks : List (ℕ × ℕ))
    → IsSound d
    → IsSound (reconcile_keys clock now i d ks).1
unfolding reconcile_keys
reconcile_keys-IsSound clock now i d [] sound = sound
reconcile_keys-IsSound clock now i d (key ∷ ks) sound = elim (Option-cases (lookup key d.regions)) [
  | inl gone ↦ rw (gone, reconcile_keys) sound
  | inr (p, known) ↦ elim (Result-cases (any_dead d.nodes d.heartbeat_timeout_s p.replicas now)) [
    | inr (x, raised) ↦ rw (known, raised, reconcile_keys) sound
    | inl (false, served) ↦
        rw (known, served, reconcile_keys) (reconcile_keys-IsSound clock now i d ks sound)
    | inl (true, dead) ↦ elim (Result-cases (rebalance d key.0 key.1 (clock i))) [
      | inr (x, raised) ↦ rw (known, dead, raised, reconcile_keys) sound
      | inl ((q, d₁), moved) ↦
          let sound₁ = rebalance-IsSound d d₁ key.0 key.1 (clock i) q sound moved in
          rw (known, dead, moved, reconcile_keys)
            (subst IsSound (sym (prepend_state q (reconcile_keys clock now (i + 1) d₁ ks)))
              (reconcile_keys-IsSound clock now (i + 1) d₁ ks sound₁))
    ]
  ]
]

Step-IsSound : {d d' : Driver} → IsSound d → Step d d' → IsSound d'
unfolding reconcile
Step-IsSound {d} {d'} sound (registers k z c now e) = register-IsSound d d' k z c now sound e
Step-IsSound {d} sound (beats k load now) = heartbeat-IsSound d k load now sound
Step-IsSound {d} {d'} sound (sets k healthy e) = set_health-IsSound d d' k healthy sound e
Step-IsSound {d} {d'} sound (assigns ns rid f now {p = p} e) =
    assign-IsSound d d' ns rid f now p sound e
Step-IsSound {d} {d'} sound (rebalances ns rid now {p = p} e) =
    rebalance-IsSound d d' ns rid now p sound e
Step-IsSound {d} sound (reconciles clock now) =
    reconcile_keys-IsSound clock now 0 d (keys d.regions) sound

-- In every state that calls can reach, each node is filed once under its id; and each region is filed
-- under its own namespace and id, with an epoch that has been, on different nodes that the driver
-- knows, led by the first of them.
pub reachable-IsSound : {t : ℤ} {d : Driver} → Reach t d → IsSound d
unfolding new_driver
reachable-IsSound {d = d} (fresh e) =
    let parts : (d.nodes ≡ []) × (d.regions ≡ []) = ground arith in
    record {
      named = rw (parts.0) tt;
      regions = λ key p at_. absurd (none-ne-some (ap (lookup key) (sym (parts.1)) ∙ at_));
    }
reachable-IsSound (then_ before step) = Step-IsSound (reachable-IsSound before) step
