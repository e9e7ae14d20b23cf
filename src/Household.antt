-- ===== src/Household.antt =====
-- The donor swarm of neural_pods/household.py: offers, requests with their approvals, reservations,
-- and the event log that the registry keeps for them, newest event first. Ids and texts are numbers,
-- in the order of their texts; memory is counted in Python's signed integers. The id of a new
-- request, which the source draws from a digest of the model and the time, is an argument.
pub mod Placing
pub mod Calls
pub mod Restore
pub mod Marks
pub mod Donors
pub mod Capacity
pub mod Sound
pub mod Keeps
pub mod History
mod Tests
use ptr_research.Common.{
  ℕ, ◌<◌, ◌≡◌, refl, ◌↔◌, Bool, true, false, ◌&&◌, Option, none, some, List, [], ◌∷◌, ◌++◌, map,
  arith, if◌then◌else◌, ◌==◌, ltb, not, all, filter, mem, take, Eq, nat_eq, pair_eq, Dict, keys,
  lookup, insert, erase, adjust, Result, ok, err, ◌>>=◌, ◌>>◌, raise_if, or_raise, ℤ, pos, ◌+ℤ◌,
  leb_ℤ, count, count_add,
}

-- `other` is any tier that the code does not know.
pub data Tier : Type 0 where
  vram ram other : Tier

abbrev pub tier_beq : Tier → Tier → Bool
tier_beq Tier.vram Tier.vram = true
tier_beq Tier.ram Tier.ram = true
tier_beq Tier.other Tier.other = true
tier_beq _ _ = false

pub tier_beq_iff : (s t : Tier) → (tier_beq s t ≡ true) ↔ (s ≡ t)
tier_beq_iff s t = ground arith

instance abbrev pub tier_eq : Eq Tier
tier_eq = record { beq = tier_beq; beq_iff = tier_beq_iff }

pub record Offer : Type 0 where
  pub pod_id : ℕ
  pub ram_bytes : ℤ
  pub vram_bytes : ℤ
  pub busy : Bool
  pub busy_with : Option ℕ

pub record Segment : Type 0 where
  pub name : ℕ
  pub bytes_needed : ℤ
  pub tier_preference : List Tier

pub data Status : Type 0 where
  pending approved started released refused : Status

-- `AllocationRequest`.
pub record Request : Type 0 where
  pub request_id : ℕ
  pub model_ref : ℕ
  pub segments : List Segment
  pub donors : List ℕ
  pub approvals : List ℕ
  pub status : Status
  pub plan_hash : ℕ

-- One entry of a plan.
pub record Placement : Type 0 where
  pub segment : ℕ
  pub pod : ℕ
  pub tier : Tier
  pub bytes : ℤ

-- The payload of "allocation_started", with the request's id beside it.
pub record Start : Type 0 where
  pub plan : List Placement
  pub plan_hash : ℕ
  pub model_ref : ℕ
  pub donors : List ℕ

pub data Event : Type 0 where
  allocation_refused : ℕ → ℕ → Option ℕ → Event
  allocation_request : ℕ → ℕ → Event
  allocation_approved : ℕ → ℕ → ℕ → Event
  allocation_started : ℕ → Start → Event
  allocation_released : ℕ → List ℕ → Event

pub record TokenEntry : Type 0 where
  pub token_count : ℕ
  pub replica : ℕ

pub record Household : Type 0 where
  pub key_hash : ℕ
  pub offers : Dict ℕ Offer
  pub reservations : Dict ℕ (List Placement)
  pub requests : Dict ℕ Request
  pub token_cache : Dict (ℕ × ℕ) TokenEntry
  pub saved_tokens : ℕ
  pub log : List Event

pub data Error : Type 0 where
  key_mismatch unknown_donor unknown_request not_a_donor not_approved not_started unknown_tier
        no_donor_fits :
      Error

-- `Household(key, registry)`, by the digest of the key; the log is the registry's.
abbrev pub new_household : ℕ → List Event → Household
new_household key_hash log = record {
  key_hash = key_hash;
  offers = [];
  reservations = [];
  requests = [];
  token_cache = [];
  saved_tokens = 0;
  log = log;
}

abbrev pub pods : List Placement → List ℕ
pods plan = map (λ e. e.pod) plan

-- `set(xs) == set(ys)`.
abbrev pub same_set : List ℕ → List ℕ → Bool
same_set xs ys = all (λ x. mem x ys) xs && all (λ y. mem y xs) ys

abbrev pub busy_for : ℕ → Offer → Offer
busy_for request_id o = record o { busy = true; busy_with = some request_id }

abbrev pub freed : Offer → Offer
freed o = record o { busy = false; busy_with = none }

-- Marking the donors of a plan, and freeing a list of donors.
abbrev pub mark_busy : ℕ → List ℕ → Dict ℕ Offer → Dict ℕ Offer
mark_busy request_id [] offers = offers
mark_busy request_id (p ∷ ps) offers =
    mark_busy request_id ps (adjust p (busy_for request_id) offers)

abbrev pub free : List ℕ → Dict ℕ Offer → Dict ℕ Offer
free [] offers = offers
free (p ∷ ps) offers = free ps (adjust p freed offers)

-- The first donor that is not known or is busy stops a request: an exception or a refusal.
abbrev pub busy_donor : Dict ℕ Offer → List ℕ → Result Error (Option Offer)
busy_donor offers [] = ok none
busy_donor offers (p ∷ ps) = do
  offer ← or_raise (lookup p offers) unknown_donor
  if offer.busy then ok (some offer) else busy_donor offers ps

abbrev pub refused_by : Household → ℕ → List Segment → List ℕ → Offer → Request × Household
refused_by h model_ref segments donors offer = (
  record {
    request_id = 0;
    model_ref = model_ref;
    segments = segments;
    donors = donors;
    approvals = [];
    status = Status.refused;
    plan_hash = 0;
  },
  record h { log = allocation_refused model_ref offer.pod_id offer.busy_with ∷ h.log },
)

abbrev pub requested : Household → ℕ → ℕ → ℕ → List Segment → List ℕ → Request × Household
requested h request_id plan_hash model_ref segments donors =
    let q : Request = record {
      request_id = request_id;
      model_ref = model_ref;
      segments = segments;
      donors = donors;
      approvals = [];
      status = Status.pending;
      plan_hash = plan_hash;
    } in
    (
      q,
      record h {
        requests = insert request_id q h.requests;
        log = allocation_request request_id plan_hash ∷ h.log;
      },
    )

-- `request_allocation`; the digest of the plan is an argument as well.
unfoldable pub request_allocation :
    Household → ℕ → ℕ → ℕ → List Segment → List ℕ → Result Error (Request × Household)
request_allocation h request_id plan_hash model_ref segments donors = do
  busy ← busy_donor h.offers donors
  elim busy [
    | some offer ↦ ok (refused_by h model_ref segments donors offer)
    | none ↦ ok (requested h request_id plan_hash model_ref segments donors)
  ]
