-- ===== src/Household/Tests.antt =====
-- A household of two pods that serves one request, with the theorems at its states.
use ptr_research.Common.{
  ℕ, ◌≡◌, refl, ◌↔◌, true, false, none, some, List, [], ◌∷◌, arith, nat_eq, lookup, ok, err, ℤ, pos,
  ◌+ℤ◌, ◌≤ℤ◌, count, count_add,
}
use ptr_research.Household.{
  Tier, vram, ram, Offer, Segment, Request, Status, Placement, allocation_request,
  allocation_approved, allocation_started, Household, Error, new_household, request_allocation,
}
use ptr_research.Household.Placing.{capacity, place_tiers, place_donors, place_all, start}
use ptr_research.Household.Calls.{join, approve, release}
use ptr_research.Household.Restore.{open_starts, restore_from_events}
use ptr_research.Household.Capacity.{total, IsFair, ServesAll, start_within_capacity}
use ptr_research.Household.Sound.{HoldsFor, Consented}
use ptr_research.Household.History.{
  joins, requests, approves, starts, Reach, fresh, then_, reachable-can_release, reachable-restore,
  reachable-consent,
}

program : Unit {0}
unfolding request_allocation capacity place_tiers place_donors place_all start join approve release
    open_starts restore_from_events ◌+ℤ◌ count count_add
program = tt

abbrev digest : ℕ → ℕ
digest k = k

abbrev offer : ℕ → ℤ → ℤ → Offer
offer p m v = record { pod_id = p; ram_bytes = m; vram_bytes = v; busy = false; busy_with = none }

abbrev empty : Household
empty = new_household 7 []

abbrev one : Household
one = record empty { offers = (1, offer 1 (pos 100) (pos 50)) ∷ [] }

abbrev two : Household
two = record empty { offers = (1, offer 1 (pos 100) (pos 50)) ∷ (2, offer 2 (pos 80) (pos 0)) ∷ [] }

abbrev segments : List Segment
segments =
    record { name = 10; bytes_needed = pos 40; tier_preference = vram ∷ ram ∷ [] }
    ∷ record { name = 11; bytes_needed = pos 30; tier_preference = vram ∷ ram ∷ [] }
    ∷ record { name = 12; bytes_needed = pos 75; tier_preference = ram ∷ [] }
    ∷ []

abbrev request : List ℕ → Status → Request
request approvals s = record {
  request_id = 5;
  model_ref = 9;
  segments = segments;
  donors = 1 ∷ 2 ∷ [];
  approvals = approvals;
  status = s;
  plan_hash = 33;
}

abbrev asked : Household
asked = record two {
  requests = (5, request [] Status.pending) ∷ [];
  log = allocation_request 5 33 ∷ [];
}

abbrev half : Household
half = record two {
  requests = (5, request (1 ∷ []) Status.pending) ∷ [];
  log = allocation_approved 5 1 33 ∷ allocation_request 5 33 ∷ [];
}

abbrev ready : Household
ready = record two {
  requests = (5, request (1 ∷ 2 ∷ []) Status.approved) ∷ [];
  log = allocation_approved 5 2 33 ∷ allocation_approved 5 1 33 ∷ allocation_request 5 33 ∷ [];
}

abbrev plan : List Placement
plan =
    record { segment = 10; pod = 1; tier = vram; bytes = pos 40 }
    ∷ record { segment = 11; pod = 1; tier = ram; bytes = pos 30 }
    ∷ record { segment = 12; pod = 2; tier = ram; bytes = pos 75 }
    ∷ []

abbrev busy_offer : ℕ → ℤ → ℤ → Offer
busy_offer p m v = record {
  pod_id = p;
  ram_bytes = m;
  vram_bytes = v;
  busy = true;
  busy_with = some 5;
}

abbrev running : Household
running = record two {
  offers = (1, busy_offer 1 (pos 100) (pos 50)) ∷ (2, busy_offer 2 (pos 80) (pos 0)) ∷ [];
  reservations = (5, plan) ∷ [];
  requests = (5, request (1 ∷ 2 ∷ []) Status.started) ∷ [];
  log =
      allocation_started 5
        (record { plan = plan; plan_hash = 33; model_ref = 9; donors = 1 ∷ 2 ∷ [] })
      ∷ allocation_approved 5 2 33
      ∷ allocation_approved 5 1 33
      ∷ allocation_request 5 33
      ∷ [];
}

joins_one : join digest empty 1 7 (pos 100) (pos 50) ≡ ok (offer 1 (pos 100) (pos 50), one)
unfolding program
joins_one = refl

joins_two : join digest one 2 7 (pos 80) (pos 0) ≡ ok (offer 2 (pos 80) (pos 0), two)
unfolding program
joins_two = refl

wrong_key : join digest one 2 8 (pos 80) (pos 0) ≡ err Error.key_mismatch
unfolding program
wrong_key = refl

asks : request_allocation two 5 33 9 segments (1 ∷ 2 ∷ []) ≡ ok (request [] Status.pending, asked)
unfolding program
asks = refl

approves_one : approve digest asked 5 1 7 ≡ ok (Status.pending, half)
unfolding program
approves_one = refl

too_early : start half 5 ≡ err Error.not_approved
unfolding program
too_early = refl

approves_two : approve digest half 5 2 7 ≡ ok (Status.approved, ready)
unfolding program
approves_two = refl

begins : start ready 5 ≡ ok (plan, running)
unfolding program
begins = refl

-- A busy pod that joins again counts as idle, though its reservation stands.
rejoin :
    join digest running 1 7 (pos 100) (pos 50)
    ≡ ok (
      offer 1 (pos 100) (pos 50),
      record running {
        offers = (1, offer 1 (pos 100) (pos 50)) ∷ (2, busy_offer 2 (pos 80) (pos 0)) ∷ [];
      },
    )
unfolding program
rejoin = refl

reach_ready : Reach digest 7 ready
reach_ready =
    then_
      (then_
        (then_
          (then_ (then_ fresh (joins 1 7 (pos 100) (pos 50) joins_one))
            (joins 2 7 (pos 80) (pos 0) joins_two))
          (requests 5 33 9 segments (1 ∷ 2 ∷ []) refl asks))
        (approves 5 1 7 approves_one))
      (approves 5 2 7 approves_two)

reach_running : Reach digest 7 running
reach_running = then_ reach_ready (starts 5 begins)

is_fair : IsFair ready.offers
is_fair p o h = ground arith

start_within_capacity_example :
    ServesAll ready.offers (1 ∷ 2 ∷ []) segments plan
    × ((p : ℕ) (o : Offer) (t : Tier) (room : ℤ)
        → lookup p ready.offers ≡ some o
        → capacity o t ≡ ok room
        → total (p, t) plan ≤ℤ room)
start_within_capacity_example =
    start_within_capacity ready running 5 (request (1 ∷ 2 ∷ []) Status.approved) plan is_fair refl
      begins

reachable-can_release_example :
    (r : ℕ) × (ps : List ℕ) × (h' : Household) × (some 5 ≡ some r)
    × (release digest running r 7 ≡ ok (ps, h'))
    × (lookup 1 h'.offers ≡ some (offer 1 (pos 100) (pos 50)))
reachable-can_release_example =
    reachable-can_release digest 1 7 (busy_offer 1 (pos 100) (pos 50)) reach_running refl refl refl

-- A new process with the same log, and pod 2 back.
abbrev again : Household
again = record (new_household 7 running.log) { offers = (2, offer 2 (pos 80) (pos 0)) ∷ [] }

reachable-restore_example :
    ((restore_from_events again).1.reservations ≡ (5, plan) ∷ [])
    × ((o' : Offer) × (lookup 2 (restore_from_events again).1.offers ≡ some o')
        × ((o'.busy ≡ true) ↔ ((r : ℕ) × HoldsFor ((5, plan) ∷ []) r 2)))
reachable-restore_example =
    reachable-restore digest again 2 (offer 2 (pos 80) (pos 0)) reach_running refl (omega arith)
      refl

reachable-consent_example : (q : Request) × (lookup 5 ready.requests ≡ some q) × Consented q
reachable-consent_example = reachable-consent digest 5 plan reach_ready begins
