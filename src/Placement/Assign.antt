-- ===== src/Placement/Assign.antt =====
-- `assign` and `route` of neural_pods/placement.py: a region is placed where it should be, and found
-- there.
use ptr_research.Common.{
  ℕ, ◌+◌, ◌≤◌, ◌≡◌, ◌≢◌, refl, ◌∙◌, sym, subst, ap, ◌⊎◌, inl, inr, Bool, true, false, ◌||◌, List,
  [], ◌∷◌, arith, ◌==◌, ltb, mem, length, All, IsDistinct, some, lookup, lookup-insert_same, insert,
  values, nat_eq, pair_eq, ok, ok-injective, ℤ,
}
use ptr_research.Placement.{
  ReplicaNode, RegionPlacement, Driver, live, sort_by_load, ids, zones, select, candidates, placed,
  assign, first_live, route,
}
use ptr_research.Placement.Selection.{length-map}
use ptr_research.Placement.Slots.{select-Selected, select-All}
use ptr_research.Placement.Candidates.{
  IsNamed, IsLive, All-sort, sort-All, length-sort, sort-IsDistinct, filter-IsDistinct,
  values-IsDistinct, values-filed, live_only,
}

candidates-IsDistinct :
    (d : Driver) (now : ℤ) → IsNamed d.nodes → IsDistinct (ids (candidates d now))
candidates-IsDistinct d now named =
    filter-IsDistinct (λ n. live n now d.heartbeat_timeout_s) (values d.nodes)
      (values-IsDistinct d.nodes named)

candidates-IsLive : (d : Driver) (now : ℤ) → IsNamed d.nodes → All (IsLive d now) (candidates d now)
candidates-IsLive d now named = live_only d now (values d.nodes) (values-filed d.nodes named)

length-ids : (ns : List ReplicaNode) → length (ids ns) ≡ length ns
length-ids ns = length-map (λ (n : ReplicaNode). n.node_id) ns

-- The region stands on `factor` different live nodes, led by the first of them, under a new epoch; and
-- their zones are all different, or they have a node in each zone of a live node.
pub record Placed (d : Driver) (namespace region_id factor : ℕ) (now : ℤ) (p : RegionPlacement)
    (d' : Driver) : Type 0 where
  pub chosen : List ReplicaNode
  pub replicas : p.replicas ≡ ids chosen
  pub distinct : IsDistinct p.replicas
  pub enough : length p.replicas ≡ factor
  pub all_live : All (IsLive d now) chosen
  pub leads : (rest : List ℕ) × (p.replicas ≡ p.leader ∷ rest)
  pub spread :
      IsDistinct (zones chosen)
      ⊎ All (λ (n : ReplicaNode). mem n.zone (zones chosen) ≡ true) (candidates d now)
  pub only_region : d'.regions ≡ insert (namespace, region_id) p d.regions
  pub filed : (p.namespace ≡ namespace) × (p.region_id ≡ region_id)
  pub same_nodes : d'.nodes ≡ d.nodes
  pub same_timeout : d'.heartbeat_timeout_s ≡ d.heartbeat_timeout_s
  pub new_epoch : (p.epoch ≡ d.epoch + 1) × (d'.epoch ≡ p.epoch)

-- Placing a selection.
placed-Placed :
    (d : Driver) (namespace region_id factor : ℕ) (now : ℤ) (chosen : List ReplicaNode)
    → 1 ≤ factor
    → All (IsLive d now) chosen
    → IsDistinct (ids chosen)
    → length (ids chosen) ≡ factor
    → (IsDistinct (zones chosen)
        ⊎ All (λ (n : ReplicaNode). mem n.zone (zones chosen) ≡ true) (candidates d now))
    → (p : RegionPlacement) × (d' : Driver) × (placed d namespace region_id chosen ≡ ok (p, d'))
      × Placed d namespace region_id factor now p d'
placed-Placed d ns rid factor now [] pos_ up distinct enough spread = absurd (omega arith)
placed-Placed d ns rid factor now (n ∷ rest) pos_ up distinct enough spread = (
  _,
  _,
  refl,
  record {
    chosen = n ∷ rest;
    replicas = refl;
    distinct = distinct;
    enough = enough;
    all_live = up;
    leads = (ids rest, refl);
    spread = spread;
    only_region = refl;
    filed = (refl, refl);
    same_nodes = refl;
    same_timeout = refl;
    new_epoch = (refl, refl);
  },
)

-- The guards of `assign` let it through to the selection.
assign-placed :
    (d : Driver) (namespace region_id factor : ℕ) (now : ℤ)
    → namespace ≢ 0
    → region_id ≢ 0
    → 1 ≤ factor
    → factor ≤ length (candidates d now)
    → assign d namespace region_id factor now
      ≡ placed d namespace region_id (select factor (sort_by_load (candidates d now)))
unfolding assign
assign-placed d ns rid factor now n0 r0 pos_ le =
    let filled : (ns == 0 || (rid == 0 || factor == 0)) ≡ false = ground (arith, n0, r0, pos_) in
    let enough : ltb (length (candidates d now)) factor ≡ false = ground (arith, le) in
    rw (filled, enough) refl

-- With as many live nodes as replicas are asked for, a region is placed: on different live nodes, as
-- many as asked for, led by the first of them, with the next epoch, and in zones that are all
-- different or include each zone of a live node.
pub assign-Placed :
    (d : Driver) (namespace region_id factor : ℕ) (now : ℤ)
    → IsNamed d.nodes
    → namespace ≢ 0
    → region_id ≢ 0
    → 1 ≤ factor
    → factor ≤ length (candidates d now)
    → (p : RegionPlacement) × (d' : Driver) × (assign d namespace region_id factor now ≡ ok (p, d'))
      × Placed d namespace region_id factor now p d'
unfolding assign
assign-Placed d ns rid factor now named n0 r0 pos_ le =
    let sorted = sort_by_load (candidates d now) in
    let s =
      select-Selected factor sorted
        (sort-IsDistinct (candidates d now) (candidates-IsDistinct d now named)) pos_
        (omega (arith, le, length-sort (candidates d now))) in
    let (p, d', e, h) =
      placed-Placed d ns rid factor now (select factor sorted) pos_
        (select-All (IsLive d now) factor sorted
          (All-sort (IsLive d now) (candidates d now) (candidates-IsLive d now named)))
        s.distinct (length-ids (select factor sorted) ∙ s.enough)
        (elim s.spread [
          | inl different ↦ inl different
          | inr covered ↦ inr (sort-All _ (candidates d now) covered)
        ]) in
    (p, d', assign-placed d ns rid factor now n0 r0 pos_ le ∙ e, h)

first-IsLive :
    (d : Driver) (now : ℤ) (chosen : List ReplicaNode) (leader : ℕ) (rest : List ℕ)
    → ids chosen ≡ leader ∷ rest
    → All (IsLive d now) chosen
    → (n : ReplicaNode) × (lookup leader d.nodes ≡ some n)
      × (live n now d.heartbeat_timeout_s ≡ true)
first-IsLive d now [] leader rest e h = absurd (ground arith)
first-IsLive d now (n ∷ ns) leader rest e h =
    let same : n.node_id ≡ leader = cc in
    (n, subst (λ k. lookup k d.nodes ≡ some n) same h.0.0, h.0.1)

-- An assignment that returns has passed the guards, so it has placed the region.
pub assign_returns :
    (d d' : Driver) (namespace region_id factor : ℕ) (now : ℤ) (p : RegionPlacement)
    → IsNamed d.nodes
    → assign d namespace region_id factor now ≡ ok (p, d')
    → Placed d namespace region_id factor now p d'
unfolding assign
assign_returns d d' ns rid factor now p named e =
    let guards : (ns ≢ 0) × (rid ≢ 0) × (1 ≤ factor) × (factor ≤ length (candidates d now)) =
      ground arith in
    let (p', d'', e', h) =
      assign-Placed d ns rid factor now named guards.0 guards.1 guards.2 guards.3 in
    let same = ok-injective (sym e' ∙ e) in subst (λ r. Placed d ns rid factor now r.0 r.1) same h

-- After an assignment, both reads and writes of the region are routed to its leader, at the time of
-- the assignment.
pub assign-route :
    (d d' : Driver) (namespace region_id factor : ℕ) (now : ℤ) (p : RegionPlacement) (write : Bool)
    → IsNamed d.nodes
    → assign d namespace region_id factor now ≡ ok (p, d')
    → route d' namespace region_id write now ≡ ok p.leader
unfolding route
assign-route d d' ns rid factor now p write named e =
    let h = assign_returns d d' ns rid factor now p named e in
    let (rest, listed) = h.leads in
    let (n, filed, up) =
      first-IsLive d now h.chosen p.leader rest (sym h.replicas ∙ listed) h.all_live in
    let filed' : lookup p.leader d'.nodes ≡ some n = ap (lookup p.leader) h.same_nodes ∙ filed in
    let recorded : lookup (ns, rid) d'.regions ≡ some p =
      ap (lookup (ns, rid)) h.only_region ∙ lookup-insert_same (ns, rid) p d.regions in
    let up' : live n now d'.heartbeat_timeout_s ≡ true = rw h.same_timeout up in
    elim write as (λ w. route d' ns rid w now ≡ ok p.leader) [
      | true ↦ rw (recorded, filed', up') refl
      | false ↦ rw (recorded, listed, first_live, filed', up') refl
    ]
