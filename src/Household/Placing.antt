-- ===== src/Household/Placing.antt =====
-- `start` of neural_pods/household.py: placing the segments of an approved request, and the claim on
-- its donors.
use ptr_research.Common.{
  ℕ, Bool, true, false, Option, none, some, List, [], ◌∷◌, if◌then◌else◌, not, nat_eq, pair_eq,
  Dict, lookup, insert, Result, ok, err, ◌>>=◌, ◌>>◌, raise_if, or_raise, ℤ, ◌+ℤ◌, leb_ℤ, count,
  count_add,
}
use ptr_research.Household.{
  Tier, tier_eq, Offer, Segment, Status, Request, Placement, Start, allocation_started, Household,
  Error, unknown_donor, unknown_request, not_approved, unknown_tier, no_donor_fits, pods, mark_busy,
}

-- The placement of one request's segments: what they have claimed of each donor and tier.
abbrev pub Claimed : Type 0
Claimed = Dict (ℕ × Tier) ℤ

-- `capacity[tier](offer)`.
unfoldable pub capacity : Offer → Tier → Result Error ℤ
capacity offer Tier.vram = ok offer.vram_bytes
capacity offer Tier.ram = ok offer.ram_bytes
capacity offer Tier.other = err unknown_tier

abbrev pub entry_of : ℕ → Segment → Tier → Placement
entry_of pod_id s tier = record {
  segment = s.name;
  pod = pod_id;
  tier = tier;
  bytes = s.bytes_needed;
}

-- The loop over the tiers of one segment at one donor.
unfoldable pub place_tiers :
    ℕ → Offer → Segment → List Tier → Claimed → Result Error (Option Placement × Claimed)
place_tiers pod_id offer s [] claimed = ok (none, claimed)
place_tiers pod_id offer s (tier ∷ rest) claimed = do
  room ← capacity offer tier
  if leb_ℤ (count (pod_id, tier) claimed +ℤ s.bytes_needed) room
      then ok (some (entry_of pod_id s tier), count_add (pod_id, tier) s.bytes_needed claimed)
      else place_tiers pod_id offer s rest claimed

-- The loop over the donors.
unfoldable pub place_donors :
    Dict ℕ Offer → Segment → List ℕ → Claimed → Result Error (Option Placement × Claimed)
place_donors offers s [] claimed = ok (none, claimed)
place_donors offers s (pod_id ∷ rest) claimed = do
  offer ← or_raise (lookup pod_id offers) unknown_donor
  r ←
      if offer.busy
      then ok (none, claimed)
      else place_tiers pod_id offer s s.tier_preference claimed
  elim (r.0) [ some e ↦ ok r | none ↦ place_donors offers s rest (r.1) ]

-- The loop over the segments, which gives the plan.
unfoldable pub place_all :
    Dict ℕ Offer → List ℕ → List Segment → Claimed → Result Error (List Placement)
place_all offers donors [] claimed = ok []
place_all offers donors (s ∷ rest) claimed = do
  r ← place_donors offers s donors claimed
  elim (r.0) [
    | none ↦ err no_donor_fits
    | some e ↦ place_all offers donors rest (r.1) >>= λ plan. ok (e ∷ plan)
  ]

abbrev pub is_approved : Status → Bool
is_approved Status.approved = true
is_approved _ = false

abbrev pub is_started : Status → Bool
is_started Status.started = true
is_started _ = false

-- The state after a start with this plan.
abbrev pub started_with : Household → ℕ → Request → List Placement → Household
started_with h request_id q plan =
    let payload : Start = record {
      plan = plan;
      plan_hash = q.plan_hash;
      model_ref = q.model_ref;
      donors = q.donors;
    } in
    record h {
      offers = mark_busy request_id (pods plan) h.offers;
      reservations = insert request_id plan h.reservations;
      requests = insert request_id (record q { status = Status.started }) h.requests;
      log = allocation_started request_id payload ∷ h.log;
    }

unfoldable pub start : Household → ℕ → Result Error (List Placement × Household)
start h request_id = do
  q ← or_raise (lookup request_id h.requests) unknown_request
  raise_if (not (is_approved q.status)) not_approved
  plan ← place_all h.offers q.donors q.segments []
  ok (plan, started_with h request_id q plan)
