-- ===== src/Household/Capacity.antt =====
-- What the placement of neural_pods/household.py may put on a donor.
use ptr_research.Common.{
  ℕ, ◌≡◌, refl, subst, ap, inl, inr, true, false, none, some, List, [], ◌∷◌, arith, if◌then◌else◌,
  mem, nat_eq, pair_eq, pair_beq, pair_beq_iff, lookup, Dict, ok, OnOk, OnOk-eq_ok, Result-cases,
  Bool-cases, ℤ, pos, ◌+ℤ◌, ◌≤ℤ◌, count, count-count_add, int_laws,
}
use ptr_research.Household.{Status, Request, Tier, tier_eq, Offer, Segment, Placement, Household}
use ptr_research.Household.Placing.{Claimed, capacity, place_donors, place_all, started_with, start}
use ptr_research.Household.Donors.{Prefers, TakenBy, DonorPlaced, place_donors-DonorPlaced}

-- What a plan puts on a donor and tier.
abbrev pub total : ℕ × Tier → List Placement → ℤ
total k [] = pos 0
total k (e ∷ plan) = (if pair_beq (e.pod, e.tier) k then e.bytes else pos 0) +ℤ total k plan

-- The entry gives this segment whole to a donor that was asked and idle, in a tier that it prefers.
pub record Serves (offers : Dict ℕ Offer) (donors : List ℕ) (s : Segment) (e : Placement)
    : Type 0 where
  pub same_name : e.segment ≡ s.name
  pub same_bytes : e.bytes ≡ s.bytes_needed
  pub prefers : Prefers e.tier s.tier_preference
  pub asked : mem e.pod donors ≡ true
  pub idle : (o : Offer) × (lookup e.pod offers ≡ some o) × (o.busy ≡ false)

-- One entry for each segment, in their order.
abbrev pub ServesAll : Dict ℕ Offer → List ℕ → List Segment → List Placement → Type 0
ServesAll offers donors [] [] = Unit
ServesAll offers donors (s ∷ ss) (e ∷ es) = Serves offers donors s e × ServesAll offers donors ss es
ServesAll offers donors _ _ = ⊥

-- The claims are within the offers.
abbrev Fits : Dict ℕ Offer → (ℕ × Tier → ℤ) → Type 0
Fits offers used =
    (p : ℕ) (o : Offer) (t : Tier) (room : ℤ)
    → lookup p offers ≡ some o
    → capacity o t ≡ ok room
    → used (p, t) ≤ℤ room

taken-Serves :
    (offers : Dict ℕ Offer) (donors : List ℕ) (s : Segment) (claimed c : Claimed) (e : Placement)
    → TakenBy offers s donors claimed e c
    → Serves offers donors s e
taken-Serves offers donors s claimed c e h = rw h.taken.entry (record {
  same_name = refl;
  same_bytes = refl;
  prefers = h.taken.prefers;
  asked = h.asked;
  idle = (h.offer, h.known, h.idle);
})

same_key : {p q : ℕ} {t u : Tier} → pair_beq (p, t) (q, u) ≡ true → (p ≡ q) × (t ≡ u)
same_key {p} {q} {t} {u} same =
    let e = (pair_beq_iff (p, t) (q, u)).0 same in (ap (λ k. k.0) e, ap (λ k. k.1) e)

-- The room of a donor and tier is one number.
same_room :
    (offers : Dict ℕ Offer) {p q : ℕ} {t u : Tier} {o o' : Offer} {room room' : ℤ}
    → p ≡ q
    → t ≡ u
    → lookup p offers ≡ some o
    → lookup q offers ≡ some o'
    → capacity o t ≡ ok room
    → capacity o' u ≡ ok room'
    → room ≡ room'
same_room offers {p} {q} {t} {u} {o} {o'} pq tu k k' c c' = let oo : o ≡ o' = cc in cc

taken-Fits :
    (offers : Dict ℕ Offer) (donors : List ℕ) (s : Segment) (claimed c : Claimed) (e : Placement)
    → TakenBy offers s donors claimed e c
    → Fits offers (λ k. count k claimed)
    → Fits offers (λ k. count k c)
taken-Fits offers donors s claimed c e h fits p o t room known has =
    rw (h.taken.charged, count-count_add (h.pod_id, h.taken.tier) (p, t) s.bytes_needed claimed)
      (elim (Bool-cases (pair_beq (h.pod_id, h.taken.tier) (p, t))) [
        | inr other ↦ rw other (fits p o t room known has)
        | inl same ↦
            let (pq, tu) = same_key same in
            rw same (
              subst (λ r. count (h.pod_id, h.taken.tier) claimed +ℤ s.bytes_needed ≤ℤ r)
                (same_room offers pq tu h.known known h.taken.has_room has) h.taken.fits)
      ])

taken-total :
    (offers : Dict ℕ Offer) (donors : List ℕ) (s : Segment) (claimed c : Claimed) (e : Placement)
    (k : ℕ × Tier)
    → TakenBy offers s donors claimed e c
    → count k c ≡ count k claimed +ℤ total k (e ∷ [])
taken-total offers donors s claimed c e k h =
    rw
      (
        h.taken.charged,
        h.taken.entry,
        count-count_add (h.pod_id, h.taken.tier) k s.bytes_needed claimed,
      )
      (elim (Bool-cases (pair_beq (h.pod_id, h.taken.tier) k)) [
        | inr other ↦ rw other (omega int_laws)
        | inl same ↦
            rw same (rw ((pair_beq_iff (h.pod_id, h.taken.tier) k).0 same) (omega int_laws))
      ])

-- The loop over the segments, from claims that fit: each segment is served, and what is claimed
-- and planned together fits.
Planned : Dict ℕ Offer → List ℕ → List Segment → Claimed → List Placement → Type 0
Planned offers donors ss claimed plan =
    ServesAll offers donors ss plan × Fits offers (λ k. count k claimed +ℤ total k plan)

place_all-Planned :
    (offers : Dict ℕ Offer) (donors : List ℕ) (ss : List Segment) (claimed : Claimed)
    → Fits offers (λ k. count k claimed)
    → OnOk (Planned offers donors ss claimed) (place_all offers donors ss claimed)
unfolding place_all Planned
place_all-Planned offers donors [] claimed fits =
    (tt, λ p o t room known has. omega (int_laws, fits p o t room known has))
place_all-Planned offers donors (s ∷ ss) claimed fits =
    let placed = place_donors-DonorPlaced offers s donors claimed in
    elim (Result-cases (place_donors offers s donors claimed)) [
      | inr (e, raised) ↦ rw raised tt
      | inl ((none, c), r) ↦ rw r tt
      | inl ((some e, c), r) ↦
          let taken : TakenBy offers s donors claimed e c =
            OnOk-eq_ok (DonorPlaced offers s donors claimed) r placed in
          let rest =
            place_all-Planned offers donors ss c
              (taken-Fits offers donors s claimed c e taken fits) in
          rw r (elim (Result-cases (place_all offers donors ss c)) [
            | inr (x, raised) ↦ rw raised tt
            | inl (plan, q) ↦
                let later : Planned offers donors ss c plan =
                  OnOk-eq_ok (Planned offers donors ss c) q rest in
                rw q (
                  (taken-Serves offers donors s claimed c e taken, later.0),
                  λ p o t room known has.
                      let used = taken-total offers donors s claimed c e (p, t) taken in
                      omega (
                        int_laws,
                        subst (λ u. u +ℤ total (p, t) plan ≤ℤ room) used
                            (later.1 p o t room known has),
                      ),
                )
          ])
    ]

-- No offer is negative.
abbrev pub IsFair : Dict ℕ Offer → Type 0
IsFair offers =
    (p : ℕ) (o : Offer)
    → lookup p offers ≡ some o
    → (pos 0 ≤ℤ o.ram_bytes) × (pos 0 ≤ℤ o.vram_bytes)

fair-Fits : (offers : Dict ℕ Offer) → IsFair offers → Fits offers (λ k. count k [])
unfolding capacity count
fair-Fits offers fair p o Tier.vram room known has = ground (arith, fair p o known)
fair-Fits offers fair p o Tier.ram room known has = ground (arith, fair p o known)
fair-Fits offers fair p o Tier.other room known has = cc

-- A start that returns: the request was approved, and its plan is that of the loops.
pub start-eq_ok :
    (h h' : Household) (request_id : ℕ) (q : Request) (plan : List Placement)
    → lookup request_id h.requests ≡ some q
    → start h request_id ≡ ok (plan, h')
    → (place_all h.offers q.donors q.segments [] ≡ ok plan)
      × (q.status ≡ Status.approved)
      × (h' ≡ started_with h request_id q plan)
unfolding start
start-eq_ok h h' r q plan known e =
    elim (Result-cases (place_all h.offers q.donors q.segments [])) [
      | inl (plan', placed) ↦ ground (arith, placed)
      | inr (x, raised) ↦ ground (arith, raised)
    ]

-- With no negative offer, a start gives every segment of the request, in order and whole, to a donor
-- of the request that is not busy, in a tier that the segment prefers, and puts on no donor more than
-- it offers in a tier.
pub start_within_capacity :
    (h h' : Household) (request_id : ℕ) (q : Request) (plan : List Placement)
    → IsFair h.offers
    → lookup request_id h.requests ≡ some q
    → start h request_id ≡ ok (plan, h')
    → ServesAll h.offers q.donors q.segments plan
      × ((p : ℕ) (o : Offer) (t : Tier) (room : ℤ)
          → lookup p h.offers ≡ some o
          → capacity o t ≡ ok room
          → total (p, t) plan ≤ℤ room)
unfolding start Planned count
start_within_capacity h h' r q plan fair known e =
    let (placed, _, _) = start-eq_ok h h' r q plan known e in
    let planned : Planned h.offers q.donors q.segments [] plan =
      OnOk-eq_ok (Planned h.offers q.donors q.segments []) placed
        (place_all-Planned h.offers q.donors q.segments [] (fair-Fits h.offers fair)) in
    (planned.0, λ p o t room k has. omega (int_laws, planned.1 p o t room k has))
