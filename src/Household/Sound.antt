-- ===== src/Household/Sound.antt =====
-- What holds of the household of neural_pods/household.py between its calls, and that starts and
-- releases keep it.
use mathlib.Core.Option
use ptr_research.Common.{
  mem-sorted_set, true-ne-false, none-ne-some, some-injective, ℕ, ◌≡◌, refl, ◌∙◌, sym, subst, ap,
  inl, inr, true, false, Option, none, some, List, [], ◌∷◌, arith, ◌==◌, mem, filter, nat_eq,
  lookup, lookup-insert, lookup-erase, lookup-insert_same, lookup-insert_other, insert, erase, Dict,
  IsDict, insert-IsDict, erase-IsDict, Bool-cases, ==_iff,
}
use ptr_research.Household.{Offer, Request, Status, Placement, Start, Household, pods, freed}
use ptr_research.Household.Placing.{started_with}
use ptr_research.Household.Calls.{to_free, works_for, plan_of, released_of}
use ptr_research.Household.Restore.{plans, open_starts}
use ptr_research.Household.Marks.{
  lookup-plans, marked_with, lookup-mark_busy, lookup-free, mem-filter,
}

-- A reservation whose plan has the pod.
abbrev pub HoldsFor : Dict ℕ (List Placement) → ℕ → ℕ → Type 0
HoldsFor reservations r p =
    (plan : List Placement) × (lookup r reservations ≡ some plan) × (mem p (pods plan) ≡ true)

-- All donors have consented.
abbrev pub Consented : Request → Type 0
Consented q = (p : ℕ) → mem p q.donors ≡ true → mem p q.approvals ≡ true

abbrev pub NeedsConsent : Status → Type 0
NeedsConsent Status.pending = ⊥
NeedsConsent Status.refused = ⊥
NeedsConsent _ = Unit

-- A busy donor works for a request that reserves it; a reservation is that of a started request;
-- what is approved has the consent of all its donors; and the log's open starts are the
-- reservations.
pub record IsSound (h : Household) : Type 0 where
  pub held :
      (p : ℕ) (o : Offer)
      → lookup p h.offers ≡ some o
      → o.busy ≡ true
      → (r : ℕ) × (o.busy_with ≡ some r) × HoldsFor h.reservations r p
  pub backed :
      (r : ℕ) (plan : List Placement)
      → lookup r h.reservations ≡ some plan
      → (q : Request) × (lookup r h.requests ≡ some q) × (q.status ≡ Status.started)
  pub consented :
      (r : ℕ) (q : Request) → lookup r h.requests ≡ some q → NeedsConsent q.status → Consented q
  pub logged : plans (open_starts h.log) ≡ h.reservations
  pub keyed : IsDict (open_starts h.log)

plans-insert :
    (r : ℕ) (s : Start) (os : Dict ℕ Start) → plans (insert r s os) ≡ insert r s.plan (plans os)
plans-insert r s [] = refl
plans-insert r s ((q, t) ∷ os) = elim (Bool-cases (q == r)) [
  | inl same ↦ rw same refl
  | inr other ↦ rw (other, plans-insert r s os) refl
]

plans-erase : (r : ℕ) (os : Dict ℕ Start) → plans (erase r os) ≡ erase r (plans os)
plans-erase r [] = refl
plans-erase r ((q, t) ∷ os) = elim (Bool-cases (q == r)) [
  | inl same ↦ rw (same, plans-erase r os) refl
  | inr other ↦ rw (other, plans-erase r os) refl
]

pub plans-IsDict : (os : Dict ℕ Start) → IsDict os → IsDict (plans os)
plans-IsDict [] u = tt
plans-IsDict ((r, s) ∷ os) u =
    (lookup-plans r os ∙ ap (Option.map (λ s. s.plan)) u.0, plans-IsDict os u.1)

approved-ne-started : ¬ (Status.approved ≡ Status.started)
approved-ne-started e = cc

module _ (h : Household) (r : ℕ) (q : Request) (plan : List Placement) (sound : IsSound h)
    (known : lookup r h.requests ≡ some q) (ready : q.status ≡ Status.approved) where
  -- An approved request has no reservation.
  not_reserved :
      (r' : ℕ) (plan' : List Placement) → lookup r' h.reservations ≡ some plan' → (r == r') ≡ false
  not_reserved r' plan' at_ = elim (Bool-cases (r == r')) [
    | inr other ↦ other
    | inl same ↦
        let (q', known', started) = sound.backed r' plan' at_ in
        let eq : q ≡ q' =
          some-injective
            (sym known ∙ ap (λ z. lookup z h.requests) ((==_iff r r').0 same) ∙ known') in
        absurd (approved-ne-started (sym ready ∙ ap (λ z. z.status) eq ∙ started))
  ]

  start-held :
      (p : ℕ) (o : Offer)
      → lookup p (started_with h r q plan).offers ≡ some o
      → o.busy ≡ true
      → (r' : ℕ) × (o.busy_with ≡ some r') × HoldsFor (insert r plan h.reservations) r' p
  start-held p o at_ busy =
      let once = lookup-mark_busy r p (pods plan) h.offers in
      elim (Bool-cases (mem p (pods plan))) [
        | inl here ↦ (
          r,
          marked_with r (lookup p h.offers) o (sym (once ∙ rw here refl) ∙ at_),
          (plan, lookup-insert_same r plan h.reservations, here),
        )
        | inr there ↦
            let (r', with_, (plan', at', in_)) =
              sound.held p o (sym (once ∙ rw there refl) ∙ at_) busy in
            (
              r',
              with_,
              (
                plan',
                lookup-insert_other r r' plan h.reservations (not_reserved r' plan' at') ∙ at',
                in_,
              ),
            )
      ]

  start-backed :
      (r' : ℕ) (plan' : List Placement)
      → lookup r' (insert r plan h.reservations) ≡ some plan'
      → (q' : Request) × (lookup r' (started_with h r q plan).requests ≡ some q')
        × (q'.status ≡ Status.started)
  start-backed r' plan' at_ = elim (Bool-cases (r == r')) [
    | inl same ↦
        (record q { status = Status.started }, lookup-insert r r' _ h.requests ∙ rw same refl, refl)
    | inr other ↦
        let (q', known', started) =
          sound.backed r' plan' (sym (lookup-insert_other r r' plan h.reservations other) ∙ at_) in
        (q', lookup-insert_other r r' _ h.requests other ∙ known', started)
  ]

  start-Consented :
      (r' : ℕ) (q' : Request)
      → lookup r' (started_with h r q plan).requests ≡ some q'
      → NeedsConsent q'.status
      → Consented q'
  start-Consented r' q' at_ needs = elim (Bool-cases (r == r')) [
    | inl same ↦
        let eq : record q { status = Status.started } ≡ q' =
          some-injective (sym (lookup-insert r r' _ h.requests ∙ rw same refl) ∙ at_) in
        subst Consented eq (sound.consented r q known (subst NeedsConsent (sym ready) tt))
    | inr other ↦
        sound.consented r' q' (sym (lookup-insert_other r r' _ h.requests other) ∙ at_) needs
  ]

  pub start-IsSound : IsSound (started_with h r q plan)
  unfolding open_starts
  start-IsSound = record {
    held = start-held;
    backed = start-backed;
    consented = start-Consented;
    logged = plans-insert r _ (open_starts h.log) ∙ ap (insert r plan) sound.logged;
    keyed = insert-IsDict r _ (open_starts h.log) sound.keyed;
  }

plan_of_known :
    (h : Household) (r : ℕ) (plan : List Placement)
    → lookup r h.reservations ≡ some plan
    → plan_of r h ≡ plan
plan_of_known h r plan e = ground (arith, e)

pub freed-ne-busy : (b : Option Offer) (o : Offer) → Option.map freed b ≡ some o → ¬ (o.busy ≡ true)
freed-ne-busy none o h busy = cc
freed-ne-busy (some o') o h busy = ground arith

module _ (h : Household) (r : ℕ) (q : Request) (sound : IsSound h)
    (known : lookup r h.requests ≡ some q) (running : q.status ≡ Status.started) where
  -- A busy donor that is not freed works for another request.
  pub freed_mine :
      (p : ℕ) (o : Offer)
      → lookup p h.offers ≡ some o
      → o.busy_with ≡ some r
      → HoldsFor h.reservations r p
      → mem p (to_free r h) ≡ true
  freed_mine p o at_ with_ (plan, at', in_) =
      mem-sorted_set p (filter (λ p. works_for r (lookup p h.offers)) (pods (plan_of r h)))
      ∙ mem-filter p (λ p. works_for r (lookup p h.offers)) (pods (plan_of r h))
          (subst (λ z. mem p (pods z) ≡ true) (sym (plan_of_known h r plan at')) in_)
          (rw (at_, with_) ((==_iff r r).1 refl))

  release-held :
      (p : ℕ) (o : Offer)
      → lookup p (released_of h r q (to_free r h)).offers ≡ some o
      → o.busy ≡ true
      → (r' : ℕ) × (o.busy_with ≡ some r') × HoldsFor (erase r h.reservations) r' p
  release-held p o at_ busy =
      let once = lookup-free p (to_free r h) h.offers in
      elim (Bool-cases (mem p (to_free r h))) [
        | inl here ↦
            absurd (freed-ne-busy (lookup p h.offers) o (sym (once ∙ rw here refl) ∙ at_) busy)
        | inr there ↦
            let before : lookup p h.offers ≡ some o = sym (once ∙ rw there refl) ∙ at_ in
            let (r', with_, (plan, at', in_)) = sound.held p o before busy in
            elim (Bool-cases (r == r')) [
              | inr other ↦
                  (r', with_, (plan, lookup-erase r r' h.reservations ∙ rw other at', in_))
              | inl same ↦
                  let eq = (==_iff r r').0 same in
                  let mine =
                    freed_mine p o before (with_ ∙ ap some (sym eq))
                      (subst (λ z. HoldsFor h.reservations z p) (sym eq) (plan, at', in_)) in
                  absurd (true-ne-false (sym mine ∙ there))
            ]
      ]

  release-backed :
      (r' : ℕ) (plan : List Placement)
      → lookup r' (erase r h.reservations) ≡ some plan
      → (q' : Request) × (lookup r' (released_of h r q (to_free r h)).requests ≡ some q')
        × (q'.status ≡ Status.started)
  release-backed r' plan at_ = elim (Bool-cases (r == r')) [
    | inl same ↦ absurd (none-ne-some (sym (lookup-erase r r' h.reservations ∙ rw same refl) ∙ at_))
    | inr other ↦
        let (q', known', started) =
          sound.backed r' plan (sym (lookup-erase r r' h.reservations ∙ rw other refl) ∙ at_) in
        (q', lookup-insert_other r r' _ h.requests other ∙ known', started)
  ]

  release-Consented :
      (r' : ℕ) (q' : Request)
      → lookup r' (released_of h r q (to_free r h)).requests ≡ some q'
      → NeedsConsent q'.status
      → Consented q'
  release-Consented r' q' at_ needs = elim (Bool-cases (r == r')) [
    | inl same ↦
        let eq : record q { status = Status.released } ≡ q' =
          some-injective (sym (lookup-insert r r' _ h.requests ∙ rw same refl) ∙ at_) in
        subst Consented eq (sound.consented r q known (subst NeedsConsent (sym running) tt))
    | inr other ↦
        sound.consented r' q' (sym (lookup-insert_other r r' _ h.requests other) ∙ at_) needs
  ]

  pub release-IsSound : IsSound (released_of h r q (to_free r h))
  unfolding open_starts
  release-IsSound = record {
    held = release-held;
    backed = release-backed;
    consented = release-Consented;
    logged = plans-erase r (open_starts h.log) ∙ ap (erase r) sound.logged;
    keyed = erase-IsDict r (open_starts h.log) sound.keyed;
  }
