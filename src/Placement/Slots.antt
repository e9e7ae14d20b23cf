-- ===== src/Placement/Slots.antt =====
-- The nodes that `assign` of neural_pods/placement.py chooses: different ones, from those given, and
-- as many as asked for.
use ptr_research.Common.{
  length_of_distinct, ℕ, ◌≤◌, ◌<◌, ◌≡◌, refl, ◌∙◌, sym, subst, ap, ◌⊎◌, inl, inr, true, false, List,
  [], ◌∷◌, ◌++◌, arith, ◌==◌, ==_iff, ltb, mem, length, length-append, All, All-append, IsDistinct,
  Bool-cases,
}
use ptr_research.Placement.{ReplicaNode, ids, zones, one_per_zone, fill_slots, select}
use ptr_research.Placement.Selection.{
  length-map, mem-last, IsDistinct-last, zones-last, ids-last, one_per_zone-ZonesChosen,
}

module _ (P : ReplicaNode → Type 0) where
  one_per_zone-All :
      (factor : ℕ) (selected ns : List ReplicaNode)
      → All P selected
      → All P ns
      → All P (one_per_zone factor selected ns)
  unfolding one_per_zone
  one_per_zone-All factor selected [] hs hn = hs
  one_per_zone-All factor selected (n ∷ ns) hs hn =
      let longer = All-append P selected (n ∷ []) hs (hn.0, tt) in
      elim (Bool-cases (mem n.zone (zones selected))) [
        | inl known ↦ rw known (one_per_zone-All factor selected ns hs hn.1)
        | inr new_ ↦ elim (Bool-cases (length (selected ++ n ∷ []) == factor)) [
          | inl full ↦ rw (new_, full) longer
          | inr room ↦ rw (new_, room) (one_per_zone-All factor (selected ++ n ∷ []) ns longer hn.1)
        ]
      ]

  fill_slots-All :
      (factor : ℕ) (selected ns : List ReplicaNode)
      → All P selected
      → All P ns
      → All P (fill_slots factor selected ns)
  unfolding fill_slots
  fill_slots-All factor selected [] hs hn = hs
  fill_slots-All factor selected (n ∷ ns) hs hn =
      let longer = All-append P selected (n ∷ []) hs (hn.0, tt) in
      elim (Bool-cases (mem n.node_id (ids selected))) [
        | inl known ↦ rw known (fill_slots-All factor selected ns hs hn.1)
        | inr new_ ↦ elim (Bool-cases (length (selected ++ n ∷ []) == factor)) [
          | inl full ↦ rw (new_, full) longer
          | inr room ↦ rw (new_, room) (fill_slots-All factor (selected ++ n ∷ []) ns longer hn.1)
        ]
      ]

  pub select-All : (factor : ℕ) (ns : List ReplicaNode) → All P ns → All P (select factor ns)
  unfolding select
  select-All factor ns h =
      let first = one_per_zone-All factor [] ns tt h in
      elim (Bool-cases (ltb (length (one_per_zone factor [] ns)) factor)) [
        | inl few ↦ rw few (fill_slots-All factor (one_per_zone factor [] ns) ns first h)
        | inr enough ↦ rw enough first
      ]

-- None of the nodes is chosen yet.
abbrev Unchosen : List ReplicaNode → List ReplicaNode → Type 0
Unchosen selected ns = All (λ (m : ReplicaNode). mem m.node_id (ids selected) ≡ false) ns

Unchosen-last :
    (selected ns : List ReplicaNode) (n : ReplicaNode)
    → mem n.node_id (ids ns) ≡ false
    → Unchosen selected ns
    → Unchosen (selected ++ n ∷ []) ns
Unchosen-last selected [] n new_ h = tt
Unchosen-last selected (m ∷ ns) n new_ h = (
  ap (mem m.node_id) (ids-last selected n)
      ∙ mem-last m.node_id n.node_id (ids selected)
      ∙ ground (arith, h.0, new_),
  Unchosen-last selected ns n (ground (arith, new_)) h.1,
)

Unchosen-none : (ns : List ReplicaNode) → Unchosen [] ns
Unchosen-none [] = tt
Unchosen-none (n ∷ ns) = (refl, Unchosen-none ns)

one_per_zone-IsDistinct :
    (factor : ℕ) (selected ns : List ReplicaNode)
    → IsDistinct (ids selected)
    → IsDistinct (ids ns)
    → Unchosen selected ns
    → IsDistinct (ids (one_per_zone factor selected ns))
unfolding one_per_zone
one_per_zone-IsDistinct factor selected [] us un h = us
one_per_zone-IsDistinct factor selected (n ∷ ns) us un h =
    let us' : IsDistinct (ids (selected ++ n ∷ [])) =
      subst IsDistinct (sym (ids-last selected n))
        (IsDistinct-last (ids selected) n.node_id us h.0) in
    elim (Bool-cases (mem n.zone (zones selected))) [
      | inl known ↦ rw known (one_per_zone-IsDistinct factor selected ns us un.1 h.1)
      | inr new_ ↦ elim (Bool-cases (length (selected ++ n ∷ []) == factor)) [
        | inl full ↦ rw (new_, full) us'
        | inr room ↦
            rw (new_, room)
              (one_per_zone-IsDistinct factor (selected ++ n ∷ []) ns us' un.1
                (Unchosen-last selected ns n un.0 h.1))
      ]
    ]

id_kept :
    (k factor : ℕ) (selected ns : List ReplicaNode)
    → mem k (ids selected) ≡ true
    → mem k (ids (fill_slots factor selected ns)) ≡ true
unfolding fill_slots
id_kept k factor selected [] h = h
id_kept k factor selected (n ∷ ns) h =
    let longer : mem k (ids (selected ++ n ∷ [])) ≡ true =
      ap (mem k) (ids-last selected n) ∙ mem-last k n.node_id (ids selected) ∙ ground (arith, h) in
    elim (Bool-cases (mem n.node_id (ids selected))) [
      | inl known ↦ rw known (id_kept k factor selected ns h)
      | inr new_ ↦ elim (Bool-cases (length (selected ++ n ∷ []) == factor)) [
        | inl full ↦ rw (new_, full) longer
        | inr room ↦ rw (new_, room) (id_kept k factor (selected ++ n ∷ []) ns longer)
      ]
    ]

zone_kept :
    (z factor : ℕ) (selected ns : List ReplicaNode)
    → mem z (zones selected) ≡ true
    → mem z (zones (fill_slots factor selected ns)) ≡ true
unfolding fill_slots
zone_kept z factor selected [] h = h
zone_kept z factor selected (n ∷ ns) h =
    let longer : mem z (zones (selected ++ n ∷ [])) ≡ true =
      ap (mem z) (zones-last selected n) ∙ mem-last z n.zone (zones selected) ∙ ground (arith, h) in
    elim (Bool-cases (mem n.node_id (ids selected))) [
      | inl known ↦ rw known (zone_kept z factor selected ns h)
      | inr new_ ↦ elim (Bool-cases (length (selected ++ n ∷ []) == factor)) [
        | inl full ↦ rw (new_, full) longer
        | inr room ↦ rw (new_, room) (zone_kept z factor (selected ++ n ∷ []) ns longer)
      ]
    ]

-- What the second loop makes of them.
pub record SlotsFilled (factor : ℕ) (ns chosen : List ReplicaNode) : Type 0 where
  pub distinct : IsDistinct (ids chosen)
  pub bounded : length chosen ≤ factor
  pub covers :
      (length chosen ≡ factor) ⊎ All (λ (n : ReplicaNode). mem n.node_id (ids chosen) ≡ true) ns

with_first :
    (factor : ℕ) (n : ReplicaNode) (ns chosen : List ReplicaNode)
    → mem n.node_id (ids chosen) ≡ true
    → (length chosen ≡ factor) ⊎ All (λ (m : ReplicaNode). mem m.node_id (ids chosen) ≡ true) ns
    → (length chosen ≡ factor)
      ⊎ All (λ (m : ReplicaNode). mem m.node_id (ids chosen) ≡ true) (n ∷ ns)
with_first factor n ns chosen here (inl full) = inl full
with_first factor n ns chosen here (inr all_) = inr (here, all_)

fill_slots-SlotsFilled :
    (factor : ℕ) (selected ns : List ReplicaNode)
    → IsDistinct (ids selected)
    → length selected < factor
    → SlotsFilled factor ns (fill_slots factor selected ns)
unfolding fill_slots
fill_slots-SlotsFilled factor selected [] u lt = record {
  distinct = u;
  bounded = omega (arith, lt);
  covers = inr tt;
}
fill_slots-SlotsFilled factor selected (n ∷ ns) u lt =
    elim (Bool-cases (mem n.node_id (ids selected))) [
      | inl known ↦
          let rest = fill_slots-SlotsFilled factor selected ns u lt in
          rw known (record {
            distinct = rest.distinct;
            bounded = rest.bounded;
            covers =
                with_first factor n ns (fill_slots factor selected ns)
                  (id_kept n.node_id factor selected ns known) rest.covers;
          })
      | inr new_ ↦
          let u' : IsDistinct (ids (selected ++ n ∷ [])) =
            subst IsDistinct (sym (ids-last selected n))
              (IsDistinct-last (ids selected) n.node_id u new_) in
          let here : mem n.node_id (ids (selected ++ n ∷ [])) ≡ true =
            ap (mem n.node_id) (ids-last selected n)
            ∙ mem-last n.node_id n.node_id (ids selected)
            ∙ ground arith in
          elim (Bool-cases (length (selected ++ n ∷ []) == factor)) [
            | inl full ↦
                rw (new_, full)
                  (record {
                    distinct = u';
                    bounded = omega (arith, (==_iff (length (selected ++ n ∷ [])) factor).0 full);
                    covers = inl ((==_iff (length (selected ++ n ∷ [])) factor).0 full);
                  })
            | inr room ↦
                let more : length (selected ++ n ∷ []) < factor =
                  ground (arith, length-append selected (n ∷ []), lt, room) in
                let rest = fill_slots-SlotsFilled factor (selected ++ n ∷ []) ns u' more in
                rw (new_, room)
                  (record {
                    distinct = rest.distinct;
                    bounded = rest.bounded;
                    covers =
                        with_first factor n ns (fill_slots factor (selected ++ n ∷ []) ns)
                          (id_kept n.node_id factor (selected ++ n ∷ []) ns here) rest.covers;
                  })
          ]
    ]

-- Distinct nodes, as many as asked for, in different zones or with a node in every zone there is.
pub record Selected (factor : ℕ) (ns chosen : List ReplicaNode) : Type 0 where
  pub distinct : IsDistinct (ids chosen)
  pub enough : length chosen ≡ factor
  pub spread :
      IsDistinct (zones chosen) ⊎ All (λ (n : ReplicaNode). mem n.zone (zones chosen) ≡ true) ns

All-kept :
    (factor : ℕ) (selected ns ms : List ReplicaNode)
    → All (λ (n : ReplicaNode). mem n.zone (zones selected) ≡ true) ms
    → All (λ (n : ReplicaNode). mem n.zone (zones (fill_slots factor selected ns)) ≡ true) ms
All-kept factor selected ns [] h = tt
All-kept factor selected ns (m ∷ ms) h =
    (zone_kept m.zone factor selected ns h.0, All-kept factor selected ns ms h.1)

ids-All :
    (ks : List ℕ) (ns : List ReplicaNode)
    → All (λ (n : ReplicaNode). mem n.node_id ks ≡ true) ns
    → All (λ k. mem k ks ≡ true) (ids ns)
ids-All ks [] h = tt
ids-All ks (n ∷ ns) h = (h.0, ids-All ks ns h.1)

-- All of the nodes chosen means that there are no more slots than chosen.
filled_all :
    (factor : ℕ) (ns chosen : List ReplicaNode)
    → IsDistinct (ids ns)
    → factor ≤ length ns
    → SlotsFilled factor ns chosen
    → length chosen ≡ factor
filled_all factor ns chosen u le f = elim f.covers [
  | inl full ↦ full
  | inr all_ ↦ omega (
    arith,
    f.bounded,
    le,
    length-map (λ (n : ReplicaNode). n.node_id) ns,
    length-map (λ (n : ReplicaNode). n.node_id) chosen,
    length_of_distinct (ids ns) (ids chosen) u (ids-All (ids chosen) ns all_),
  )
]

pub select-Selected :
    (factor : ℕ) (ns : List ReplicaNode)
    → IsDistinct (ids ns)
    → 1 ≤ factor
    → factor ≤ length ns
    → Selected factor ns (select factor ns)
unfolding select
select-Selected factor ns u pos_ le =
    let first = one_per_zone factor [] ns in
    let z = one_per_zone-ZonesChosen factor [] ns tt (omega (arith, pos_)) in
    let d = one_per_zone-IsDistinct factor [] ns tt u (Unchosen-none ns) in
    elim (Bool-cases (ltb (length first) factor)) [
      | inr enough ↦ rw enough (record {
        distinct = d;
        enough = ground (arith, z.bounded, enough);
        spread = inl z.distinct;
      })
      | inl few ↦
          let f = fill_slots-SlotsFilled factor first ns d (ground (arith, few)) in
          rw few (record {
            distinct = f.distinct;
            enough = filled_all factor ns (fill_slots factor first ns) u le f;
            spread = elim z.covers [
              | inl full ↦ absurd (ground (arith, full, few))
              | inr all_ ↦ inr (All-kept factor first ns ns all_)
            ];
          })
    ]
