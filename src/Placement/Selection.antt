-- ===== src/Placement/Selection.antt =====
-- What the selection loops of `assign` of neural_pods/placement.py choose from a list of nodes.
use ptr_research.Common.{
  ℕ, ◌≤◌, ◌<◌, ◌≡◌, refl, ◌∙◌, sym, subst, ap, ◌⊎◌, inl, inr, true, false, ◌||◌, List, [], ◌∷◌,
  ◌++◌, map, arith, ◌==◌, ==_iff, mem, mem-append, length, length-append, All, IsDistinct,
  Bool-cases,
}
use ptr_research.Placement.{ReplicaNode, ids, zones, one_per_zone}

pub mem-last : (k x : ℕ) (xs : List ℕ) → mem k (xs ++ x ∷ []) ≡ (mem k xs || k == x)
mem-last k x xs = mem-append k xs (x ∷ []) ∙ ground arith

pub IsDistinct-last :
    (xs : List ℕ) (x : ℕ) → IsDistinct xs → mem x xs ≡ false → IsDistinct (xs ++ x ∷ [])
IsDistinct-last [] x u h = (refl, tt)
IsDistinct-last (y ∷ ys) x u h =
    (mem-last y x ys ∙ ground (arith, h, u.0), IsDistinct-last ys x u.1 (ground (arith, h)))

map-last {ℓ} :
    {A : Type ℓ} (f : A → ℕ) (xs : List A) (x : A) → map f (xs ++ x ∷ []) ≡ map f xs ++ f x ∷ []
map-last f [] x = refl
map-last f (y ∷ ys) x = rw (map-last f ys x) refl

pub length-map {ℓ} : {A : Type ℓ} (f : A → ℕ) (xs : List A) → length (map f xs) ≡ length xs
length-map f [] = refl
length-map f (x ∷ xs) = rw (length-map f xs) refl

-- Two facts of an appended node.
pub zones-last :
    (ns : List ReplicaNode) (n : ReplicaNode) → zones (ns ++ n ∷ []) ≡ zones ns ++ n.zone ∷ []
zones-last ns n = map-last (λ n. n.zone) ns n

pub ids-last :
    (ns : List ReplicaNode) (n : ReplicaNode) → ids (ns ++ n ∷ []) ≡ ids ns ++ n.node_id ∷ []
ids-last ns n = map-last (λ n. n.node_id) ns n

-- What the first loop makes of the nodes chosen and those to come: distinct zones, and either all
-- slots are taken or each zone has its node.
pub record ZonesChosen (factor : ℕ) (ns chosen : List ReplicaNode) : Type 0 where
  pub distinct : IsDistinct (zones chosen)
  pub bounded : length chosen ≤ factor
  pub covers :
      (length chosen ≡ factor) ⊎ All (λ (n : ReplicaNode). mem n.zone (zones chosen) ≡ true) ns

with_first :
    (factor : ℕ) (n : ReplicaNode) (ns chosen : List ReplicaNode)
    → mem n.zone (zones chosen) ≡ true
    → (length chosen ≡ factor) ⊎ All (λ (m : ReplicaNode). mem m.zone (zones chosen) ≡ true) ns
    → (length chosen ≡ factor)
      ⊎ All (λ (m : ReplicaNode). mem m.zone (zones chosen) ≡ true) (n ∷ ns)
with_first factor n ns chosen here (inl full) = inl full
with_first factor n ns chosen here (inr all_) = inr (here, all_)

zone_kept :
    (z factor : ℕ) (selected ns : List ReplicaNode)
    → mem z (zones selected) ≡ true
    → mem z (zones (one_per_zone factor selected ns)) ≡ true
unfolding one_per_zone
zone_kept z factor selected [] h = h
zone_kept z factor selected (n ∷ ns) h =
    let longer : mem z (zones (selected ++ n ∷ [])) ≡ true =
      ap (mem z) (zones-last selected n) ∙ mem-last z n.zone (zones selected) ∙ ground (arith, h) in
    elim (Bool-cases (mem n.zone (zones selected))) [
      | inl known ↦ rw known (zone_kept z factor selected ns h)
      | inr new_ ↦ elim (Bool-cases (length (selected ++ n ∷ []) == factor)) [
        | inl full ↦ rw (new_, full) longer
        | inr room ↦ rw (new_, room) (zone_kept z factor (selected ++ n ∷ []) ns longer)
      ]
    ]

pub one_per_zone-ZonesChosen :
    (factor : ℕ) (selected ns : List ReplicaNode)
    → IsDistinct (zones selected)
    → length selected < factor
    → ZonesChosen factor ns (one_per_zone factor selected ns)
unfolding one_per_zone
one_per_zone-ZonesChosen factor selected [] u lt = record {
  distinct = u;
  bounded = omega (arith, lt);
  covers = inr tt;
}
one_per_zone-ZonesChosen factor selected (n ∷ ns) u lt =
    elim (Bool-cases (mem n.zone (zones selected))) [
      | inl known ↦
          let rest = one_per_zone-ZonesChosen factor selected ns u lt in
          rw known (record {
            distinct = rest.distinct;
            bounded = rest.bounded;
            covers =
                with_first factor n ns (one_per_zone factor selected ns)
                  (zone_kept n.zone factor selected ns known) rest.covers;
          })
      | inr new_ ↦
          let u' : IsDistinct (zones (selected ++ n ∷ [])) =
            subst IsDistinct (sym (zones-last selected n))
              (IsDistinct-last (zones selected) n.zone u new_) in
          let here : mem n.zone (zones (selected ++ n ∷ [])) ≡ true =
            ap (mem n.zone) (zones-last selected n)
            ∙ mem-last n.zone n.zone (zones selected)
            ∙ ground arith in
          elim (Bool-cases (length (selected ++ n ∷ []) == factor)) [
            | inl full ↦
                rw (new_, full)
                  (record {
                    distinct = u';
                    bounded = omega (arith, (==_iff (length (selected ++ n ∷ [])) factor).0 full);
                    covers = inl ((==_iff (length (selected ++ n ∷ [])) factor).0 full);
                  })
            | inr room ↦
                let more : length (selected ++ n ∷ []) < factor =
                  ground (arith, length-append selected (n ∷ []), lt, room) in
                let rest = one_per_zone-ZonesChosen factor (selected ++ n ∷ []) ns u' more in
                rw (new_, room)
                  (record {
                    distinct = rest.distinct;
                    bounded = rest.bounded;
                    covers =
                        with_first factor n ns (one_per_zone factor (selected ++ n ∷ []) ns)
                          (zone_kept n.zone factor (selected ++ n ∷ []) ns here) rest.covers;
                  })
          ]
    ]
