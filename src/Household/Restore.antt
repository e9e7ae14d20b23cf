-- ===== src/Household/Restore.antt =====
-- `restore_from_events` of neural_pods/household.py: the starts that the log has not seen released,
-- and the state that they make.
use ptr_research.Common.{
  sorted_set, ℕ, List, [], ◌∷◌, map, if◌then◌else◌, take, nat_eq, pair_eq, Dict, keys, insert,
  erase,
}
use ptr_research.Household.{
  tier_eq, Offer, Segment, Status, Request, Placement, Start, Event, allocation_started,
  allocation_released, Household, pods, freed, mark_busy,
}

-- The most events that are read.
abbrev pub read_limit : ℕ
read_limit = 1000000

-- The starts that are open after the events, which are read from the oldest one on.
abbrev pub replay : Event → Dict ℕ Start → Dict ℕ Start
replay (allocation_started r payload) open_ = insert r payload open_
replay (allocation_released r _) open_ = erase r open_
replay _ open_ = open_

unfoldable pub open_starts : List Event → Dict ℕ Start
open_starts [] = []
open_starts (e ∷ earlier) = replay e (open_starts earlier)

abbrev pub plans : Dict ℕ Start → Dict ℕ (List Placement)
plans [] = []
plans ((r, payload) ∷ rest) = (r, payload.plan) ∷ plans rest

-- `payload.get("donors") or sorted({...})`.
abbrev pub donors_of : Start → List ℕ
donors_of payload = elim payload.donors [ [] ↦ sorted_set (pods payload.plan) | d ∷ ds ↦ d ∷ ds ]

abbrev pub segment_of : Placement → Segment
segment_of e = record { name = e.segment; bytes_needed = e.bytes; tier_preference = e.tier ∷ [] }

abbrev pub request_of : ℕ → Start → Request
request_of request_id payload = record {
  request_id = request_id;
  model_ref = payload.model_ref;
  segments = map segment_of payload.plan;
  donors = donors_of payload;
  approvals = donors_of payload;
  status = Status.started;
  plan_hash = payload.plan_hash;
}

abbrev pub restore_requests : Dict ℕ Start → Dict ℕ Request → Dict ℕ Request
restore_requests [] requests = requests
restore_requests ((r, payload) ∷ rest) requests =
    restore_requests rest (insert r (request_of r payload) requests)

abbrev pub free_all : Dict ℕ Offer → Dict ℕ Offer
free_all [] = []
free_all ((p, o) ∷ rest) = (p, freed o) ∷ free_all rest

abbrev pub mark_all : Dict ℕ (List Placement) → Dict ℕ Offer → Dict ℕ Offer
mark_all [] offers = offers
mark_all ((r, plan) ∷ rest) offers = mark_all rest (mark_busy r (pods plan) offers)

abbrev pub busy_pods : Dict ℕ Offer → List ℕ
busy_pods [] = []
busy_pods ((p, o) ∷ rest) = if o.busy then p ∷ busy_pods rest else busy_pods rest

abbrev pub restored : Dict ℕ Start → Household → Household
restored open_ h = record h {
  reservations = plans open_;
  requests = restore_requests open_ h.requests;
  offers = mark_all (plans open_) (free_all h.offers);
}

-- The restored requests and the busy pods come back, sorted.
unfoldable pub restore_from_events : Household → (List ℕ × List ℕ) × Household
unfolding open_starts
restore_from_events h =
    let open_ = open_starts (take read_limit h.log) in
    let h' = restored open_ h in ((sorted_set (keys open_), sorted_set (busy_pods h'.offers)), h')
