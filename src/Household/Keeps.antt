-- ===== src/Household/Keeps.antt =====
-- The calls of neural_pods/household.py that change its state keep what holds between them.
use ptr_research.Common.{
  true-ne-false, none-ne-some, some-injective, ℕ, ◌≡◌, refl, ◌∙◌, sym, subst, ap, inl, inr, true,
  false, none, some, List, [], ◌∷◌, ◌++◌, arith, ◌==◌, mem, nat_eq, lookup, lookup-insert,
  lookup-insert_other, insert, Bool-cases, Option-cases, ==_iff, all, ok, Result-cases, ℤ,
}
use ptr_research.Household.{
  Offer, Segment, Request, Status, Placement, Household, same_set, busy_donor, refused_by,
  requested, request_allocation,
}
use ptr_research.Household.Placing.{start}
use ptr_research.Household.Calls.{
  to_free, released_of, join, approve, approval, approved_by, is_started, release,
}
use ptr_research.Household.Restore.{open_starts}
use ptr_research.Household.Capacity.{start-eq_ok}
use ptr_research.Household.Sound.{Consented, NeedsConsent, IsSound, start-IsSound, release-IsSound}

module _ (digest : ℕ → ℕ) where
  pub start_step :
      (h h' : Household) (r : ℕ) (plan : List Placement)
      → IsSound h
      → start h r ≡ ok (plan, h')
      → IsSound h'
  unfolding start
  start_step h h' r plan sound e = elim (Option-cases (lookup r h.requests)) [
    | inl unknown ↦ absurd (ground (arith, unknown))
    | inr (q, known) ↦
        let (_, ready, eq) = start-eq_ok h h' r q plan known e in
        subst IsSound (sym eq) (start-IsSound h r q plan sound known ready)
  ]

  -- A release that returns.
  pub release-eq_ok :
      (h h' : Household) (r key : ℕ) (ps : List ℕ)
      → release digest h r key ≡ ok (ps, h')
      → (q : Request) × (lookup r h.requests ≡ some q)
        × (q.status ≡ Status.started)
        × (h' ≡ released_of h r q (to_free r h))
  unfolding release
  release-eq_ok h h' r key ps e = elim (Option-cases (lookup r h.requests)) [
    | inl unknown ↦ absurd (ground (arith, unknown))
    | inr (q, known) ↦ (q, known, ground (arith, known), ground (arith, known))
  ]

  pub release_step :
      (h h' : Household) (r key : ℕ) (ps : List ℕ)
      → IsSound h
      → release digest h r key ≡ ok (ps, h')
      → IsSound h'
  release_step h h' r key ps sound e =
      let (q, known, running, eq) = release-eq_ok h h' r key ps e in
      subst IsSound (sym eq) (release-IsSound h r q sound known running)

  pub join_step :
      (h h' : Household) (p key : ℕ) (m v : ℤ) (o : Offer)
      → IsSound h
      → join digest h p key m v ≡ ok (o, h')
      → IsSound h'
  unfolding join
  join_step h h' p key m v o sound e =
      let parts : (o.busy ≡ false) × (h' ≡ record h { offers = insert p o h.offers }) =
        ground arith in
      rw (parts.1) (record {
        held = λ p' o' at_ busy. elim (Bool-cases (p == p')) [
          | inl same ↦
              let eq : o ≡ o' =
                some-injective (sym (lookup-insert p p' o h.offers ∙ rw same refl) ∙ at_) in
              absurd (true-ne-false (sym busy ∙ ap (λ z. z.busy) (sym eq) ∙ parts.0))
          | inr other ↦
              sound.held p' o' (sym (lookup-insert_other p p' o h.offers other) ∙ at_) busy
        ];
        backed = sound.backed;
        consented = sound.consented;
        logged = sound.logged;
        keyed = sound.keyed;
      })

  -- A new request is pending, and takes no reservation away.
  requested-IsSound :
      (h : Household) (r ph m : ℕ) (ss : List Segment) (ds : List ℕ)
      → IsSound h
      → lookup r h.requests ≡ none
      → IsSound (requested h r ph m ss ds).1
  unfolding open_starts
  requested-IsSound h r ph m ss ds sound unused = record {
    held = sound.held;
    backed = λ r' plan at_.
        let (q, known, started) = sound.backed r' plan at_ in
        elim (Bool-cases (r == r')) [
          | inr other ↦ (q, lookup-insert_other r r' _ h.requests other ∙ known, started)
          | inl same ↦ absurd (
              none-ne-some
                (sym unused ∙ ap (λ z. lookup z h.requests) ((==_iff r r').0 same) ∙ known))
        ];
    consented = λ r' q at_ needs. elim (Bool-cases (r == r')) [
      | inr other ↦
          sound.consented r' q (sym (lookup-insert_other r r' _ h.requests other) ∙ at_) needs
      | inl same ↦
          let eq : (requested h r ph m ss ds).0 ≡ q =
            some-injective (sym (lookup-insert r r' _ h.requests ∙ rw same refl) ∙ at_) in
          absurd (subst (λ z. NeedsConsent z.status) (sym eq) needs)
    ];
    logged = sound.logged;
    keyed = sound.keyed;
  }

  refused-IsSound :
      (h : Household) (m : ℕ) (ss : List Segment) (ds : List ℕ) (o : Offer)
      → IsSound h
      → IsSound (refused_by h m ss ds o).1
  unfolding open_starts
  refused-IsSound h m ss ds o sound = record {
    held = sound.held;
    backed = sound.backed;
    consented = sound.consented;
    logged = sound.logged;
    keyed = sound.keyed;
  }

  pub request_step :
      (h h' : Household) (r ph m : ℕ) (ss : List Segment) (ds : List ℕ) (q : Request)
      → IsSound h
      → lookup r h.requests ≡ none
      → request_allocation h r ph m ss ds ≡ ok (q, h')
      → IsSound h'
  unfolding request_allocation
  request_step h h' r ph m ss ds q sound unused e = elim (Result-cases (busy_donor h.offers ds)) [
    | inr (x, raised) ↦ absurd (ground (arith, raised))
    | inl (none, free_) ↦
        let eq : h' ≡ (requested h r ph m ss ds).1 = ground (arith, free_) in
        subst IsSound (sym eq) (requested-IsSound h r ph m ss ds sound unused)
    | inl (some o, busy) ↦
        let eq : h' ≡ (refused_by h m ss ds o).1 = ground (arith, busy) in
        subst IsSound (sym eq) (refused-IsSound h m ss ds o sound)
  ]

  all_in :
      (p : ℕ) (xs ys : List ℕ) → all (λ y. mem y xs) ys ≡ true → mem p ys ≡ true → mem p xs ≡ true
  all_in p xs [] h in_ = cc
  all_in p xs (y ∷ ys) h in_ = elim (Bool-cases (p == y)) [
    | inl same ↦
        let here : mem y xs ≡ true = ground (arith, h) in
        subst (λ z. mem z xs ≡ true) (sym ((==_iff p y).0 same)) here
    | inr other ↦ all_in p xs ys (ground (arith, h)) (ground (arith, in_, other))
  ]

  approval-Consented :
      (q : Request) (p : ℕ)
      → (NeedsConsent q.status → ⊥)
      → NeedsConsent (approval q p).status
      → Consented (approval q p)
  approval-Consented q p open_ needs d asked =
      elim (Bool-cases (same_set (q.approvals ++ p ∷ []) q.donors)) [
        | inl full ↦ all_in d (q.approvals ++ p ∷ []) q.donors (ground (arith, full)) asked
        | inr part ↦ absurd (open_ (rw part at needs))
      ]

  -- An approval that is new is for a request that was still open.
  approved-IsSound :
      (h : Household) (r p : ℕ) (q : Request)
      → IsSound h
      → lookup r h.requests ≡ some q
      → mem p q.donors ≡ true
      → mem p q.approvals ≡ false
      → IsSound (approved_by h r q p)
  unfolding open_starts
  approved-IsSound h r p q sound known asked new_ =
      let open_ : NeedsConsent q.status → ⊥ =
        λ needs. true-ne-false (sym (sound.consented r q known needs p asked) ∙ new_) in
      record {
        held = sound.held;
        backed = λ r' plan at_.
            let (q', known', started) = sound.backed r' plan at_ in
            elim (Bool-cases (r == r')) [
              | inr other ↦ (q', lookup-insert_other r r' _ h.requests other ∙ known', started)
              | inl same ↦
                  let eq : q' ≡ q = some-injective (
                    sym known'
                    ∙ ap (λ z. lookup z h.requests) (sym ((==_iff r r').0 same))
                    ∙ known) in
                  absurd
                    (open_ (subst NeedsConsent (sym (ap (λ z. z.status) (sym eq) ∙ started)) tt))
            ];
        consented = λ r' q' at_ needs. elim (Bool-cases (r == r')) [
          | inr other ↦
              sound.consented r' q' (sym (lookup-insert_other r r' _ h.requests other) ∙ at_) needs
          | inl same ↦
              let eq : approval q p ≡ q' =
                some-injective (sym (lookup-insert r r' _ h.requests ∙ rw same refl) ∙ at_) in
              subst Consented eq
                (approval-Consented q p open_ (subst (λ z. NeedsConsent z.status) (sym eq) needs))
        ];
        logged = sound.logged;
        keyed = sound.keyed;
      }

  pub approve_step :
      (h h' : Household) (r p key : ℕ) (s : Status)
      → IsSound h
      → approve digest h r p key ≡ ok (s, h')
      → IsSound h'
  unfolding approve
  approve_step h h' r p key s sound e = elim (Option-cases (lookup r h.requests)) [
    | inl unknown ↦ absurd (ground (arith, unknown))
    | inr (q, known) ↦ elim (Bool-cases (mem p q.approvals)) [
      | inl old ↦ let same : h' ≡ h = ground (arith, known, old) in subst IsSound (sym same) sound
      | inr new_ ↦
          let did : (mem p q.donors ≡ true) × (h' ≡ approved_by h r q p) =
            ground (arith, known, new_) in
          subst IsSound (sym did.1) (approved-IsSound h r p q sound known did.0 new_)
    ]
  ]

  -- A started request can be released.
  pub release_started :
      (h : Household) (r key : ℕ) (q : Request)
      → digest key ≡ h.key_hash
      → lookup r h.requests ≡ some q
      → q.status ≡ Status.started
      → release digest h r key ≡ ok (to_free r h, released_of h r q (to_free r h))
  unfolding release
  release_started h r key q right known running =
      let started_ : is_started q.status ≡ true = rw running refl in
      rw ((==_iff (digest key) h.key_hash).1 right, known, started_) refl
