-- ===== src/Household/Marks.antt =====
-- What marking, freeing and replaying of neural_pods/household.py do to each donor and request.
use mathlib.Core.Option
use ptr_research.Common.{
  some-injective, ℕ, ◌≡◌, refl, ◌∙◌, sym, subst, inl, inr, Bool, true, Option, none, some, List, [],
  ◌∷◌, arith, if◌then◌else◌, ◌==◌, mem, filter, nat_eq, lookup, lookup-insert, lookup-adjust,
  insert, adjust, Dict, Bool-cases, take, length, ==_iff, IsDict, ◌⊎◌, ◌≤◌, zero, suc,
}
use ptr_research.Household.{
  Offer, Request, Placement, Start, pods, busy_for, freed, mark_busy, free,
}
use ptr_research.Household.Restore.{plans, request_of, restore_requests, free_all, mark_all}

pub lookup-mark_busy :
    (r p : ℕ) (ps : List ℕ) (d : Dict ℕ Offer)
    → lookup p (mark_busy r ps d)
      ≡ (if mem p ps then Option.map (busy_for r) (lookup p d) else lookup p d)
lookup-mark_busy r p [] d = refl
lookup-mark_busy r p (q ∷ ps) d =
    ground
      (arith, lookup-mark_busy r p ps (adjust q (busy_for r) d), lookup-adjust q p (busy_for r) d)

pub lookup-free :
    (p : ℕ) (ps : List ℕ) (d : Dict ℕ Offer)
    → lookup p (free ps d) ≡ (if mem p ps then Option.map freed (lookup p d) else lookup p d)
lookup-free p [] d = refl
lookup-free p (q ∷ ps) d =
    ground (arith, lookup-free p ps (adjust q freed d), lookup-adjust q p freed d)

pub lookup-free_all :
    (p : ℕ) (d : Dict ℕ Offer) → lookup p (free_all d) ≡ Option.map freed (lookup p d)
lookup-free_all p [] = refl
lookup-free_all p ((q, o) ∷ d) = ground (arith, lookup-free_all p d)

pub mem-filter :
    (k : ℕ) (p : ℕ → Bool) (xs : List ℕ) → mem k xs ≡ true → p k ≡ true → mem k (filter p xs) ≡ true
mem-filter k p [] h holds = h
mem-filter k p (x ∷ xs) h holds = elim (Bool-cases (k == x)) [
  | inl same ↦
      let here : p x ≡ true = subst (λ z. p z ≡ true) ((==_iff k x).0 same) holds in
      ground (arith, here)
  | inr other ↦ ground (arith, mem-filter k p xs)
]

pub lookup-plans :
    (r : ℕ) (os : Dict ℕ Start) → lookup r (plans os) ≡ Option.map (λ s. s.plan) (lookup r os)
lookup-plans r [] = refl
lookup-plans r ((q, s) ∷ os) = ground (arith, lookup-plans r os)

pub take_all {ℓ} : {A : Type ℓ} (n : ℕ) (xs : List A) → length xs ≤ n → take n xs ≡ xs
take_all zero [] h = refl
take_all zero (x ∷ xs) h = absurd (omega arith)
take_all (suc n) [] h = refl
take_all (suc n) (x ∷ xs) h = rw (take_all n xs (omega arith)) refl

pub marked_with :
    (r : ℕ) (b : Option Offer) (o : Offer)
    → Option.map (busy_for r) b ≡ some o
    → o.busy_with ≡ some r
marked_with r none o h = cc
marked_with r (some o') o h = ground arith

-- A donor that is busy after the marking holds one of the plans, or was so before.
pub mark_all-busy :
    (rs : Dict ℕ (List Placement)) (d : Dict ℕ Offer) (p : ℕ) (o : Offer)
    → IsDict rs
    → lookup p (mark_all rs d) ≡ some o
    → ((r : ℕ) × (plan : List Placement) × (o.busy_with ≡ some r)
        × (lookup r rs ≡ some plan)
        × (mem p (pods plan) ≡ true))
      ⊎ (lookup p d ≡ some o)
mark_all-busy [] d p o u h = inr h
mark_all-busy ((r, plan) ∷ rs) d p o u h =
    elim (mark_all-busy rs (mark_busy r (pods plan) d) p o u.1 h) [
      | inl (r', plan', with_, known, in_) ↦ inl (r', plan', with_, ground (arith, known, u.0), in_)
      | inr before ↦ elim (Bool-cases (mem p (pods plan))) [
        | inr other ↦ inr (sym (lookup-mark_busy r p (pods plan) d ∙ rw other refl) ∙ before)
        | inl here ↦ inl (
          r,
          plan,
          marked_with r (lookup p d) o
              (sym (lookup-mark_busy r p (pods plan) d ∙ rw here refl) ∙ before),
          ground (arith),
          here,
        )
      ]
    ]

-- A donor of a plan is busy after the marking.
pub mark_all-marks :
    (rs : Dict ℕ (List Placement)) (d : Dict ℕ Offer) (p : ℕ) (o : Offer)
    → lookup p d ≡ some o
    → (o' : Offer) × (lookup p (mark_all rs d) ≡ some o') × (o.busy ≡ true → o'.busy ≡ true)
mark_all-marks [] d p o h = (o, h, λ b. b)
mark_all-marks ((r, plan) ∷ rs) d p o h =
    let once = lookup-mark_busy r p (pods plan) d in
    elim (Bool-cases (mem p (pods plan))) [
      | inr other ↦ mark_all-marks rs (mark_busy r (pods plan) d) p o (ground (arith, once, h))
      | inl here ↦
          let (o', known, busy) =
            mark_all-marks rs (mark_busy r (pods plan) d) p (busy_for r o)
              (ground (arith, once, h)) in
          (o', known, λ b. busy refl)
    ]

pub mark_all-held :
    (rs : Dict ℕ (List Placement)) (d : Dict ℕ Offer) (p r : ℕ) (o : Offer) (plan : List Placement)
    → lookup p d ≡ some o
    → lookup r rs ≡ some plan
    → mem p (pods plan) ≡ true
    → (o' : Offer) × (lookup p (mark_all rs d) ≡ some o') × (o'.busy ≡ true)
mark_all-held [] d p r o plan h held in_ = absurd (ground arith)
mark_all-held ((q, plan') ∷ rs) d p r o plan h held in_ =
    let once = lookup-mark_busy q p (pods plan') d in
    elim (Bool-cases (q == r)) [
      | inl same ↦
          let eq : plan' ≡ plan = ground (arith, held, same) in
          let (o', known, busy) =
            mark_all-marks rs (mark_busy q (pods plan') d) p (busy_for q o)
              (ground (arith, once, h, subst (λ z. mem p (pods z) ≡ true) (sym eq) in_)) in
          (o', known, busy refl)
      | inr other ↦ elim (Bool-cases (mem p (pods plan'))) [
        | inl here ↦
            mark_all-held rs (mark_busy q (pods plan') d) p r (busy_for q o) plan
              (ground (arith, once, h)) (ground (arith, held, other)) in_
        | inr there ↦
            mark_all-held rs (mark_busy q (pods plan') d) p r o plan (ground (arith, once, h))
              (ground (arith, held, other)) in_
      ]
    ]

inserted_request :
    (d : Dict ℕ Request) (q r : ℕ) (s : Start)
    → (q == r) ≡ true
    → lookup r (insert q (request_of q s) d) ≡ some (request_of r s)
inserted_request d q r s same =
    subst (λ z. lookup r (insert q (request_of q s) d) ≡ some (request_of z s))
      ((==_iff q r).0 same) (lookup-insert q r (request_of q s) d ∙ rw same refl)

restore_requests-keeps :
    (os : Dict ℕ Start) (d : Dict ℕ Request) (r : ℕ) (s : Start)
    → lookup r d ≡ some (request_of r s)
    → (s' : Start) × (lookup r (restore_requests os d) ≡ some (request_of r s'))
restore_requests-keeps [] d r s h = (s, h)
restore_requests-keeps ((q, t) ∷ os) d r s h = elim (Bool-cases (q == r)) [
  | inl same ↦
      restore_requests-keeps os (insert q (request_of q t) d) r t (inserted_request d q r t same)
  | inr other ↦
      restore_requests-keeps os (insert q (request_of q t) d) r s
        (lookup-insert q r (request_of q t) d ∙ rw other h)
]

-- An open start gives a started request to which all donors have consented.
pub restore_requests-started :
    (os : Dict ℕ Start) (d : Dict ℕ Request) (r : ℕ) (s : Start)
    → lookup r os ≡ some s
    → (s' : Start) × (lookup r (restore_requests os d) ≡ some (request_of r s'))
restore_requests-started [] d r s h = absurd (ground arith)
restore_requests-started ((q, t) ∷ os) d r s h = elim (Bool-cases (q == r)) [
  | inl same ↦
      restore_requests-keeps os (insert q (request_of q t) d) r t (inserted_request d q r t same)
  | inr other ↦
      restore_requests-started os (insert q (request_of q t) d) r s (ground (arith, h, other))
]

-- The other requests stay as they are.
pub restore_requests-either :
    (os : Dict ℕ Start) (d : Dict ℕ Request) (r : ℕ) (q : Request)
    → lookup r (restore_requests os d) ≡ some q
    → ((s : Start) × (q ≡ request_of r s)) ⊎ (lookup r d ≡ some q)
restore_requests-either [] d r q h = inr h
restore_requests-either ((q', s') ∷ os) d r q h =
    elim (restore_requests-either os (insert q' (request_of q' s') d) r q h) [
      | inl made ↦ inl made
      | inr before ↦ elim (Bool-cases (q' == r)) [
        | inl same ↦ inl (s', some-injective (sym before ∙ inserted_request d q' r s' same))
        | inr other ↦ inr (sym (lookup-insert q' r (request_of q' s') d ∙ rw other refl) ∙ before)
      ]
    ]
