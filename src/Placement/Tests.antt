-- ===== src/Placement/Tests.antt =====
-- Three nodes in two zones and one region, with the theorems at these values.
use ptr_research.Common.{
  ℕ, ◌+◌, ◌≡◌, refl, true, false, List, [], ◌∷◌, arith, some, Dict, nat_eq, pair_eq, All, ok, err,
  ℤ, pos, negsuc, ◌-ℤ◌,
}
use ptr_research.Placement.{
  ReplicaNode, RegionPlacement, Driver, negative_load, too_few_replicas, new_driver, register,
  heartbeat, set_health, one_per_zone, fill_slots, select, assign, rebalance, first_live, route,
}
use ptr_research.Placement.Assign.{Placed, assign-Placed, assign-route}
use ptr_research.Placement.Reconcile.{
  any_dead, reconcile_keys, reconcile, Serving, reconcile-IsServed,
}
use ptr_research.Placement.Tables.{IsSound}
use ptr_research.Placement.History.{registers, assigns, fresh, then_, reachable-IsSound}

program : Unit {0}
unfolding ◌-ℤ◌ new_driver register heartbeat set_health one_per_zone fill_slots select assign
    rebalance first_live route any_dead reconcile_keys reconcile
program = tt

abbrev node : ℕ → ℕ → ReplicaNode
node k z = record {
  node_id = k;
  zone = z;
  capacity = pos 1;
  load = pos 0;
  last_heartbeat = pos 10;
  healthy = true;
}

abbrev driver : Dict ℕ ReplicaNode → Driver
driver nodes = record { heartbeat_timeout_s = pos 5; nodes = nodes; regions = []; epoch = 0 }

abbrev three : Driver
three = driver ((1, node 1 7) ∷ (2, node 2 7) ∷ (3, node 3 8) ∷ [])

abbrev region : List ℕ → ℕ → RegionPlacement
region replicas epoch = record {
  namespace = 4;
  region_id = 6;
  replicas = replicas;
  leader = 1;
  epoch = epoch;
}

-- One node of each zone comes first.
abbrev placed_two : Driver
placed_two = record three { regions = ((4, 6), region (1 ∷ 3 ∷ []) 1) ∷ []; epoch = 1 }

begins : new_driver (pos 5) ≡ ok (driver [])
unfolding program
begins = refl

adds_one : register (driver []) 1 7 (pos 1) (pos 10) ≡ ok (driver ((1, node 1 7) ∷ []))
unfolding program
adds_one = refl

adds_two :
    register (driver ((1, node 1 7) ∷ [])) 2 7 (pos 1) (pos 10)
    ≡ ok (driver ((1, node 1 7) ∷ (2, node 2 7) ∷ []))
unfolding program
adds_two = refl

adds_three : register (driver ((1, node 1 7) ∷ (2, node 2 7) ∷ [])) 3 8 (pos 1) (pos 10) ≡ ok three
unfolding program
adds_three = refl

places : assign three 4 6 2 (pos 12) ≡ ok (region (1 ∷ 3 ∷ []) 1, placed_two)
unfolding program
places = refl

too_few : assign three 4 6 4 (pos 12) ≡ err too_few_replicas
unfolding program
too_few = refl

-- A negative load raises, after the heartbeat has been recorded.
half_beat : heartbeat three 3 (some (negsuc 0)) (pos 20) ≡ (
  err negative_load,
  driver ((1, node 1 7) ∷ (2, node 2 7) ∷ (3, record (node 3 8) { last_heartbeat = pos 20 }) ∷ []),
)
unfolding program
half_beat = refl

-- Node 3 fails, and the pass moves the region to node 2.
abbrev down : Driver
down = record placed_two {
  nodes = (1, node 1 7) ∷ (2, node 2 7) ∷ (3, record (node 3 8) { healthy = false }) ∷ [];
}

abbrev moved : Driver
moved = record down { regions = ((4, 6), region (1 ∷ 2 ∷ []) 2) ∷ []; epoch = 2 }

abbrev clock : ℕ → ℤ
clock i = pos (13 + i)

moves : reconcile clock (pos 13) down ≡ (ok (region (1 ∷ 2 ∷ []) 2 ∷ []), moved)
unfolding program
moves = refl

assign-Placed_example :
    (p : RegionPlacement) × (d' : Driver) × (assign three 4 6 2 (pos 12) ≡ ok (p, d'))
    × Placed three 4 6 2 (pos 12) p d'
unfolding program
assign-Placed_example =
    assign-Placed three 4 6 2 (pos 12) ((refl, refl, (refl, refl, (refl, refl, tt)))) (omega arith)
      (omega arith) (omega arith) (omega arith)

assign-route_example : route placed_two 4 6 true (pos 12) ≡ ok 1
assign-route_example =
    assign-route three placed_two 4 6 2 (pos 12) (region (1 ∷ 3 ∷ []) 1) true
      (refl, refl, (refl, refl, (refl, refl, tt))) places

reconcile-IsServed_example : All (Serving moved (pos 13)) (1 ∷ 2 ∷ [])
reconcile-IsServed_example =
    reconcile-IsServed clock (pos 13) down moved (region (1 ∷ 2 ∷ []) 2 ∷ []) (4, 6)
      (region (1 ∷ 2 ∷ []) 2) (refl, refl, (refl, refl, (refl, refl, tt))) (λ j. omega arith) moves
      refl

reachable-IsSound_example : IsSound placed_two
reachable-IsSound_example = reachable-IsSound (
    then_
      (then_
        (then_ (then_ (fresh begins) (registers 1 7 (pos 1) (pos 10) adds_one))
          (registers 2 7 (pos 1) (pos 10) adds_two))
        (registers 3 8 (pos 1) (pos 10) adds_three))
      (assigns 4 6 2 (pos 12) places))
