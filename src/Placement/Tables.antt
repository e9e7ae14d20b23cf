-- ===== src/Placement/Tables.antt =====
-- What the tables of the driver of neural_pods/placement.py hold between its calls.
use ptr_research.Common.{
  ℕ, ◌≤◌, ◌≡◌, refl, ◌∙◌, sym, subst, ap, inl, inr, List, [], ◌∷◌, arith, ◌==◌, ==_iff, All,
  IsDistinct, Bool-cases, none, some, Dict, lookup, lookup-insert, lookup-insert_other,
  lookup-adjust, insert, adjust, nat_eq, pair_eq, pair_beq, pair_beq_iff, some-injective, ℤ,
}
use ptr_research.Placement.{ReplicaNode, RegionPlacement, Driver, ids}
use ptr_research.Placement.Candidates.{IsNamed, IsLive}
use ptr_research.Placement.Assign.{Placed}

pub insert-IsNamed :
    (k : ℕ) (n : ReplicaNode) (d : Dict ℕ ReplicaNode)
    → n.node_id ≡ k
    → IsNamed d
    → IsNamed (insert k n d)
insert-IsNamed k n [] same h = (same, refl, tt)
insert-IsNamed k n ((j, m) ∷ d) same (named, new_, rest) = elim (Bool-cases (j == k)) [
  | inl here ↦ rw here (same ∙ sym ((==_iff j k).0 here), new_, rest)
  | inr there ↦
      rw there
        (named, lookup-insert k j n d ∙ ground (arith, there, new_), insert-IsNamed k n d same rest)
]

adjust-IsNamed :
    (k : ℕ) (f : ReplicaNode → ReplicaNode) (d : Dict ℕ ReplicaNode)
    → ((n : ReplicaNode) → (f n).node_id ≡ n.node_id)
    → IsNamed d
    → IsNamed (adjust k f d)
adjust-IsNamed k f [] keeps h = tt
adjust-IsNamed k f ((j, m) ∷ d) keeps (named, new_, rest) =
    let absent : lookup j (adjust k f d) ≡ none = lookup-adjust k j f d ∙ ground (arith, new_) in
    elim (Bool-cases (j == k)) [
      | inl here ↦ rw here (keeps m ∙ named, absent, adjust-IsNamed k f d keeps rest)
      | inr there ↦ rw there (named, absent, adjust-IsNamed k f d keeps rest)
    ]

abbrev pub IsKnown : Dict ℕ ReplicaNode → ℕ → Type 0
IsKnown nodes r = (n : ReplicaNode) × (lookup r nodes ≡ some n)

pub insert-IsKnown :
    (k : ℕ) (n : ReplicaNode) (d : Dict ℕ ReplicaNode) (r : ℕ)
    → IsKnown d r
    → IsKnown (insert k n d) r
insert-IsKnown k n d r (m, known) = elim (Bool-cases (k == r)) [
  | inl same ↦ (n, lookup-insert k r n d ∙ rw same refl)
  | inr other ↦ (m, lookup-insert k r n d ∙ rw other known)
]

adjust-IsKnown :
    (k : ℕ) (f : ReplicaNode → ReplicaNode) (d : Dict ℕ ReplicaNode) (r : ℕ)
    → IsKnown d r
    → IsKnown (adjust k f d) r
adjust-IsKnown k f d r (m, known) = elim (Bool-cases (k == r)) [
  | inl same ↦ (f m, lookup-adjust k r f d ∙ rw (same, known) refl)
  | inr other ↦ (m, lookup-adjust k r f d ∙ rw other known)
]

All-IsKnown :
    (nodes nodes' : Dict ℕ ReplicaNode) (rs : List ℕ)
    → ((r : ℕ) → IsKnown nodes r → IsKnown nodes' r)
    → All (IsKnown nodes) rs
    → All (IsKnown nodes') rs
All-IsKnown nodes nodes' [] keeps h = tt
All-IsKnown nodes nodes' (r ∷ rs) keeps h = (keeps r h.0, All-IsKnown nodes nodes' rs keeps h.1)

-- A region filed where it belongs, under an epoch that has been, on different nodes that the driver
-- knows, led by the first of them.
pub record IsRegion (nodes : Dict ℕ ReplicaNode) (epoch : ℕ) (key : ℕ × ℕ) (p : RegionPlacement)
    : Type 0 where
  pub filed : (p.namespace, p.region_id) ≡ key
  pub past : p.epoch ≤ epoch
  pub distinct : IsDistinct p.replicas
  pub leads : (rest : List ℕ) × (p.replicas ≡ p.leader ∷ rest)
  pub known : All (IsKnown nodes) p.replicas

pub record IsSound (d : Driver) : Type 0 where
  pub named : IsNamed d.nodes
  pub regions :
      (key : ℕ × ℕ) (p : RegionPlacement)
      → lookup key d.regions ≡ some p
      → IsRegion d.nodes d.epoch key p

-- New tables of nodes that forget none.
pub renamed-IsSound :
    (d : Driver) (nodes' : Dict ℕ ReplicaNode)
    → IsNamed nodes'
    → ((r : ℕ) → IsKnown d.nodes r → IsKnown nodes' r)
    → IsSound d
    → IsSound (record d { nodes = nodes' })
renamed-IsSound d nodes' named keeps sound = record {
  named = named;
  regions = λ key p at_.
      let r = sound.regions key p at_ in
      record {
        filed = r.filed;
        past = r.past;
        distinct = r.distinct;
        leads = r.leads;
        known = All-IsKnown d.nodes nodes' p.replicas keeps r.known;
      };
}

pub adjusted-IsSound :
    (d : Driver) (k : ℕ) (f : ReplicaNode → ReplicaNode)
    → ((n : ReplicaNode) → (f n).node_id ≡ n.node_id)
    → IsSound d
    → IsSound (record d { nodes = adjust k f d.nodes })
adjusted-IsSound d k f keeps sound =
    renamed-IsSound d (adjust k f d.nodes) (adjust-IsNamed k f d.nodes keeps sound.named)
      (adjust-IsKnown k f d.nodes) sound

chosen-IsKnown :
    (d : Driver) (now : ℤ) (chosen : List ReplicaNode)
    → All (IsLive d now) chosen
    → All (IsKnown d.nodes) (ids chosen)
chosen-IsKnown d now [] h = tt
chosen-IsKnown d now (n ∷ ns) h = ((n, h.0.0), chosen-IsKnown d now ns h.1)

pub Placed-IsSound :
    (d d' : Driver) (ns rid factor : ℕ) (now : ℤ) (p : RegionPlacement)
    → IsSound d
    → Placed d ns rid factor now p d'
    → IsSound d'
Placed-IsSound d d' ns rid factor now p sound h = record {
  named = subst IsNamed (sym h.same_nodes) sound.named;
  regions = λ key q at_.
      let at' : lookup key (insert (ns, rid) p d.regions) ≡ some q =
        ap (lookup key) (sym h.only_region) ∙ at_ in
      elim (Bool-cases (pair_beq (ns, rid) key)) [
        | inl same ↦
            let eq : p ≡ q =
              some-injective (sym (lookup-insert (ns, rid) key p d.regions ∙ rw same refl) ∙ at') in
            subst (IsRegion d'.nodes d'.epoch key) eq (record {
              filed = rw (h.filed.0, h.filed.1) ((pair_beq_iff (ns, rid) key).0 same);
              past = omega (arith, h.new_epoch.1);
              distinct = h.distinct;
              leads = h.leads;
              known = rw (h.same_nodes, h.replicas) (chosen-IsKnown d now h.chosen h.all_live);
            })
        | inr other ↦
            let r =
              sound.regions key q
                (sym (lookup-insert_other (ns, rid) key p d.regions other) ∙ at') in
            record {
              filed = r.filed;
              past = omega (arith, r.past, h.new_epoch.0, h.new_epoch.1);
              distinct = r.distinct;
              leads = r.leads;
              known = rw h.same_nodes r.known;
            }
      ];
}
