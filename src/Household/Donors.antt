-- ===== src/Household/Donors.antt =====
-- One segment in the placement of neural_pods/household.py: the donor and the tier that take it.
use ptr_research.Common.{
  ℕ, ◌≡◌, refl, ◌⊎◌, inl, inr, true, false, Option, none, some, List, [], ◌∷◌, arith, mem, nat_eq,
  pair_eq, lookup, Dict, ok, OnOk, OnOk-eq_ok, OnOk-map, Result-cases, Bool-cases, Option-cases, ℤ,
  ◌+ℤ◌, ◌≤ℤ◌, leb_ℤ, count, count_add,
}
use ptr_research.Household.{Tier, tier_eq, Offer, Segment, Placement}
use ptr_research.Household.Placing.{Claimed, capacity, entry_of, place_tiers, place_donors}

abbrev pub Prefers : Tier → List Tier → Type 0
Prefers t [] = ⊥
Prefers t (u ∷ us) = (t ≡ u) ⊎ Prefers t us

-- A segment placed at a donor: within the room that the donor's earlier claims leave.
pub record Taken (p : ℕ) (o : Offer) (s : Segment) (tiers : List Tier) (claimed : Claimed)
    (e : Placement) (claimed' : Claimed) : Type 0 where
  pub tier : Tier
  pub entry : e ≡ entry_of p s tier
  pub prefers : Prefers tier tiers
  pub room : ℤ
  pub has_room : capacity o tier ≡ ok room
  pub fits : count (p, tier) claimed +ℤ s.bytes_needed ≤ℤ room
  pub charged : claimed' ≡ count_add (p, tier) s.bytes_needed claimed

abbrev TierPlaced : ℕ → Offer → Segment → List Tier → Claimed → Option Placement × Claimed → Type 0
TierPlaced p o s tiers claimed (none, claimed') = claimed' ≡ claimed
TierPlaced p o s tiers claimed (some e, claimed') = Taken p o s tiers claimed e claimed'

later_tier :
    (p : ℕ) (o : Offer) (s : Segment) (t : Tier) (tiers : List Tier) (claimed : Claimed)
    (r : Option Placement × Claimed)
    → TierPlaced p o s tiers claimed r
    → TierPlaced p o s (t ∷ tiers) claimed r
later_tier p o s t tiers claimed (none, c) h = h
later_tier p o s t tiers claimed (some e, c) h = record {
  tier = h.tier;
  entry = h.entry;
  prefers = inr h.prefers;
  room = h.room;
  has_room = h.has_room;
  fits = h.fits;
  charged = h.charged;
}

place_tiers-TierPlaced :
    (p : ℕ) (o : Offer) (s : Segment) (tiers : List Tier) (claimed : Claimed)
    → OnOk (TierPlaced p o s tiers claimed) (place_tiers p o s tiers claimed)
unfolding place_tiers
place_tiers-TierPlaced p o s [] claimed = refl
place_tiers-TierPlaced p o s (t ∷ tiers) claimed = elim (Result-cases (capacity o t)) [
  | inr (e, unknown) ↦ rw unknown tt
  | inl (room, known) ↦
      rw known (elim (Bool-cases (leb_ℤ (count (p, t) claimed +ℤ s.bytes_needed) room)) [
        | inl fits ↦ rw fits (record {
          tier = t;
          entry = refl;
          prefers = inl refl;
          room = room;
          has_room = known;
          fits = ground arith;
          charged = refl;
        })
        | inr full ↦ rw full (
            OnOk-map (TierPlaced p o s tiers claimed) (TierPlaced p o s (t ∷ tiers) claimed)
              (place_tiers p o s tiers claimed) (later_tier p o s t tiers claimed)
              (place_tiers-TierPlaced p o s tiers claimed))
      ])
]

-- A donor among those asked that is not busy has taken the segment.
pub record TakenBy (offers : Dict ℕ Offer) (s : Segment) (donors : List ℕ) (claimed : Claimed)
    (e : Placement) (claimed' : Claimed) : Type 0 where
  pub pod_id : ℕ
  pub offer : Offer
  pub asked : mem pod_id donors ≡ true
  pub known : lookup pod_id offers ≡ some offer
  pub idle : offer.busy ≡ false
  pub taken : Taken pod_id offer s s.tier_preference claimed e claimed'

abbrev pub DonorPlaced :
    Dict ℕ Offer → Segment → List ℕ → Claimed → Option Placement × Claimed → Type 0
DonorPlaced offers s donors claimed (none, claimed') = claimed' ≡ claimed
DonorPlaced offers s donors claimed (some e, claimed') = TakenBy offers s donors claimed e claimed'

next_donor :
    (offers : Dict ℕ Offer) (s : Segment) (p : ℕ) (donors : List ℕ) (claimed : Claimed)
    (r : Option Placement × Claimed)
    → DonorPlaced offers s donors claimed r
    → DonorPlaced offers s (p ∷ donors) claimed r
next_donor offers s p donors claimed (none, c) h = h
next_donor offers s p donors claimed (some e, c) h = record {
  pod_id = h.pod_id;
  offer = h.offer;
  asked = ground (arith, h.asked);
  known = h.known;
  idle = h.idle;
  taken = h.taken;
}

pub place_donors-DonorPlaced :
    (offers : Dict ℕ Offer) (s : Segment) (donors : List ℕ) (claimed : Claimed)
    → OnOk (DonorPlaced offers s donors claimed) (place_donors offers s donors claimed)
unfolding place_donors
place_donors-DonorPlaced offers s [] claimed = refl
place_donors-DonorPlaced offers s (p ∷ donors) claimed =
    let later =
      OnOk-map (DonorPlaced offers s donors claimed) (DonorPlaced offers s (p ∷ donors) claimed)
        (place_donors offers s donors claimed) (next_donor offers s p donors claimed)
        (place_donors-DonorPlaced offers s donors claimed) in
    elim (Option-cases (lookup p offers)) [
      | inl unknown ↦ rw unknown tt
      | inr (o, known) ↦ rw known (elim (Bool-cases o.busy) [
        | inl busy ↦ rw busy later
        | inr idle ↦ elim (Result-cases (place_tiers p o s s.tier_preference claimed)) [
          | inr (e, raised) ↦ rw (raised, idle) tt
          | inl ((none, c), r) ↦
              let same : c ≡ claimed =
                OnOk-eq_ok (TierPlaced p o s s.tier_preference claimed) r
                  (place_tiers-TierPlaced p o s s.tier_preference claimed) in
              rw (r, idle, same) later
          | inl ((some e, c), r) ↦
              rw (r, idle)
                (record {
                  pod_id = p;
                  offer = o;
                  asked = ground arith;
                  known = known;
                  idle = idle;
                  taken =
                      OnOk-eq_ok (TierPlaced p o s s.tier_preference claimed) r
                        (place_tiers-TierPlaced p o s s.tier_preference claimed);
                })
        ]
      ])
    ]
