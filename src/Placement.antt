-- ===== src/Placement.antt =====
-- `PlacementDriver` of neural_pods/placement.py: nodes, and regions placed on live nodes with as many
-- zones as there are. Ids are numbers in the order of their texts, 0 is the empty one; the clock's
-- times and the loads are whole units, and the times are arguments.
pub mod Selection
pub mod Slots
pub mod Candidates
pub mod Assign
pub mod Reconcile
pub mod Tables
pub mod History
mod Tests
use ptr_research.Common.{
  ℕ, ◌+◌, ◌≤◌, Bool, true, false, ◌&&◌, ◌||◌, Option, none, some, List, [], ◌∷◌, ◌++◌, map,
  if◌then◌else◌, ◌==◌, ltb, not, filter, mem, length, Dict, keys, values, lookup, insert, adjust,
  nat_eq, pair_eq, Result, ok, err, ◌>>=◌, ◌>>◌, raise_if, or_raise, ℤ, pos, ◌-ℤ◌, ltb_ℤ, leb_ℤ,
}

pub record ReplicaNode : Type 0 where
  pub node_id : ℕ
  pub zone : ℕ
  pub capacity : ℤ
  pub load : ℤ
  pub last_heartbeat : ℤ
  pub healthy : Bool

pub record RegionPlacement : Type 0 where
  pub namespace : ℕ
  pub region_id : ℕ
  pub replicas : List ℕ
  pub leader : ℕ
  pub epoch : ℕ

pub record Driver : Type 0 where
  pub heartbeat_timeout_s : ℤ
  pub nodes : Dict ℕ ReplicaNode
  pub regions : Dict (ℕ × ℕ) RegionPlacement
  pub epoch : ℕ

pub data Error : Type 0 where
  timeout_not_positive invalid_node unknown_node negative_load invalid_region too_few_replicas
        unknown_region leader_not_healthy no_healthy_replica :
      Error

unfoldable pub new_driver : ℤ → Result Error Driver
new_driver timeout =
    if leb_ℤ timeout (pos 0)
    then err timeout_not_positive
    else ok (record { heartbeat_timeout_s = timeout; nodes = []; regions = []; epoch = 0 })

-- `ReplicaNode.live`.
abbrev pub live : ReplicaNode → ℤ → ℤ → Bool
live n now timeout = n.healthy && leb_ℤ (now -ℤ n.last_heartbeat) timeout

unfoldable pub register : Driver → ℕ → ℕ → ℤ → ℤ → Result Error Driver
register d node_id zone capacity now = do
  raise_if (node_id == 0 || (zone == 0 || ltb_ℤ capacity (pos 1))) invalid_node
  let node : ReplicaNode = record {
    node_id = node_id;
    zone = zone;
    capacity = capacity;
    load = pos 0;
    last_heartbeat = now;
    healthy = true;
  }
  ok (record d { nodes = insert node_id node d.nodes })

abbrev pub beat : ℤ → ReplicaNode → ReplicaNode
beat now n = record n { last_heartbeat = now; healthy = true }

abbrev pub with_load : ℤ → ReplicaNode → ReplicaNode
with_load load n = record n { load = load }

abbrev pub after_beat : Driver → ℕ → Option ℤ → Result Error (Unit {0}) × Driver
after_beat d node_id none = (ok tt, d)
after_beat d node_id (some load) =
    if ltb_ℤ load (pos 0)
    then (err negative_load, d)
    else (ok tt, record d { nodes = adjust node_id (with_load load) d.nodes })

-- The heartbeat is recorded before the load is checked.
unfoldable pub heartbeat : Driver → ℕ → Option ℤ → ℤ → Result Error (Unit {0}) × Driver
heartbeat d node_id load now = elim (lookup node_id d.nodes) [
  | none ↦ (err unknown_node, d)
  | some n ↦ after_beat (record d { nodes = adjust node_id (beat now) d.nodes }) node_id load
]

abbrev pub with_health : Bool → ReplicaNode → ReplicaNode
with_health healthy n = record n { healthy = healthy }

unfoldable pub set_health : Driver → ℕ → Bool → Result Error Driver
set_health d node_id healthy = do
  n ← or_raise (lookup node_id d.nodes) unknown_node
  ok (record d { nodes = adjust node_id (with_health healthy) d.nodes })

-- `candidates.sort(key=lambda n: (n.load, n.node_id))`.
abbrev pub comes_before : ReplicaNode → ReplicaNode → Bool
comes_before m n =
    if ltb_ℤ m.load n.load
    then true
    else if ltb_ℤ n.load m.load
    then false
    else ltb m.node_id n.node_id

abbrev pub insert_by_load : ReplicaNode → List ReplicaNode → List ReplicaNode
insert_by_load n [] = n ∷ []
insert_by_load n (m ∷ ms) = if comes_before m n then m ∷ insert_by_load n ms else n ∷ m ∷ ms

abbrev pub sort_by_load : List ReplicaNode → List ReplicaNode
sort_by_load [] = []
sort_by_load (n ∷ ns) = insert_by_load n (sort_by_load ns)

abbrev pub ids : List ReplicaNode → List ℕ
ids ns = map (λ n. n.node_id) ns

abbrev pub zones : List ReplicaNode → List ℕ
zones ns = map (λ n. n.zone) ns

-- The first loop of `assign`: one node for each zone.
unfoldable pub one_per_zone : ℕ → List ReplicaNode → List ReplicaNode → List ReplicaNode
one_per_zone factor selected [] = selected
one_per_zone factor selected (n ∷ ns) =
    if mem n.zone (zones selected)
    then one_per_zone factor selected ns
    else if length (selected ++ n ∷ []) == factor
    then selected ++ n ∷ []
    else one_per_zone factor (selected ++ n ∷ []) ns

-- The second loop: the slots that are left, by load. Nodes are told apart by their ids.
unfoldable pub fill_slots : ℕ → List ReplicaNode → List ReplicaNode → List ReplicaNode
fill_slots factor selected [] = selected
fill_slots factor selected (n ∷ ns) =
    if mem n.node_id (ids selected)
    then fill_slots factor selected ns
    else if length (selected ++ n ∷ []) == factor
    then selected ++ n ∷ []
    else fill_slots factor (selected ++ n ∷ []) ns

unfoldable pub select : ℕ → List ReplicaNode → List ReplicaNode
select factor ns =
    let first = one_per_zone factor [] ns in
    if ltb (length first) factor then fill_slots factor first ns else first

abbrev pub candidates : Driver → ℤ → List ReplicaNode
candidates d now = filter (λ n. live n now d.heartbeat_timeout_s) (values d.nodes)

abbrev pub placed : Driver → ℕ → ℕ → List ReplicaNode → Result Error (RegionPlacement × Driver)
placed d namespace region_id [] = err too_few_replicas
placed d namespace region_id (n ∷ ns) =
    let placement : RegionPlacement = record {
      namespace = namespace;
      region_id = region_id;
      replicas = ids (n ∷ ns);
      leader = n.node_id;
      epoch = d.epoch + 1;
    } in
    ok (
      placement,
      record d { epoch = d.epoch + 1; regions = insert (namespace, region_id) placement d.regions },
    )

unfoldable pub assign : Driver → ℕ → ℕ → ℕ → ℤ → Result Error (RegionPlacement × Driver)
assign d namespace region_id factor now = do
  raise_if (namespace == 0 || (region_id == 0 || factor == 0)) invalid_region
  raise_if (ltb (length (candidates d now)) factor) too_few_replicas
  placed d namespace region_id (select factor (sort_by_load (candidates d now)))

unfoldable pub rebalance : Driver → ℕ → ℕ → ℤ → Result Error (RegionPlacement × Driver)
rebalance d namespace region_id now = do
  current ← or_raise (lookup (namespace, region_id) d.regions) unknown_region
  assign d namespace region_id (length current.replicas) now

-- The first replica of a list that is live.
abbrev pub first_live : Driver → List ℕ → ℤ → Result Error ℕ
first_live d [] now = err no_healthy_replica
first_live d (r ∷ rs) now = do
  n ← or_raise (lookup r d.nodes) unknown_node
  if live n now d.heartbeat_timeout_s then ok r else first_live d rs now

unfoldable pub route : Driver → ℕ → ℕ → Bool → ℤ → Result Error ℕ
route d namespace region_id write now = do
  placement ← or_raise (lookup (namespace, region_id) d.regions) unknown_region
  if write
      then (do
        n ← or_raise (lookup placement.leader d.nodes) unknown_node
        if live n now d.heartbeat_timeout_s then ok placement.leader else err leader_not_healthy)
      else first_live d placement.replicas now
