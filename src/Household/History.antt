-- ===== src/Household/History.antt =====
-- Histories of calls of the household of neural_pods/household.py, and what they cannot break.
use mathlib.Core.Option
use ptr_research.Common.{
  ◌↔◌, none-ne-some, some-injective, ℕ, ◌≡◌, refl, ◌∙◌, sym, subst, ap, inl, inr, true, Option,
  none, some, List, [], arith, nat_eq, lookup, Dict, IsDict, Option-cases, length, ◌≤◌, ok, ℤ,
}
use ptr_research.Household.{
  Offer, Segment, Request, Status, Placement, Start, Household, new_household, freed,
  request_allocation,
}
use ptr_research.Household.Placing.{start}
use ptr_research.Household.Calls.{
  to_free, released_of, join, approve, release, token_cache_lookup, token_cache_store,
}
use ptr_research.Household.Restore.{
  plans, open_starts, read_limit, restored, request_of, restore_from_events, free_all,
}
use ptr_research.Household.Marks.{
  lookup-free_all, lookup-free, mark_all-marks, mark_all-held, lookup-plans, mark_all-busy,
  restore_requests-started, restore_requests-either, take_all,
}
use ptr_research.Household.Capacity.{start-eq_ok}
use ptr_research.Household.Sound.{
  HoldsFor, Consented, NeedsConsent, IsSound, plans-IsDict, freed_mine, freed-ne-busy,
}
use ptr_research.Household.Keeps.{
  start_step, release_step, join_step, request_step, approve_step, release_started,
}

-- Restoring, where the log is within what is read.
open_start :
    (r : ℕ) (b : Option Start) (plan : List Placement)
    → Option.map (λ s. s.plan) b ≡ some plan
    → (s : Start) × (b ≡ some s)
open_start r none plan h = cc
open_start r (some s) plan h = (s, refl)

restored-IsSound : (h : Household) → IsSound h → IsSound (restored (open_starts h.log) h)
restored-IsSound h sound =
    let os = open_starts h.log in
    record {
      held = λ p o at_ busy.
          elim (mark_all-busy (plans os) (free_all h.offers) p o (plans-IsDict os sound.keyed)
            at_) [
              | inl (r, plan, with_, at', in_) ↦ (r, with_, (plan, at', in_))
              | inr before ↦ absurd (
                  freed-ne-busy (lookup p h.offers) o (sym (lookup-free_all p h.offers) ∙ before)
                    busy)
            ];
      backed = λ r plan at_.
          let (s, known) = open_start r (lookup r os) plan (sym (lookup-plans r os) ∙ at_) in
          let (s', made) = restore_requests-started os h.requests r s known in
          (request_of r s', made, refl);
      consented = λ r q at_ needs. elim (restore_requests-either os h.requests r q at_) [
        | inl (s, eq) ↦ subst Consented (sym eq) (λ p asked. asked)
        | inr before ↦ sound.consented r q before needs
      ];
      logged = refl;
      keyed = sound.keyed;
    }

-- Within the limit, a restore reads the whole log.
pub restore-restored :
    (h : Household)
    → length h.log ≤ read_limit
    → (restore_from_events h).1 ≡ restored (open_starts h.log) h
unfolding restore_from_events
restore-restored h short = ap (λ l. restored (open_starts l) h) (take_all read_limit h.log short)

-- Each pod of a restored household is busy exactly when a restored reservation holds it.
restored-offers :
    (os : Dict ℕ Start) (h : Household) (p : ℕ) (o : Offer)
    → IsDict os
    → lookup p h.offers ≡ some o
    → (o' : Offer) × (lookup p (restored os h).offers ≡ some o')
      × ((o'.busy ≡ true) ↔ ((r : ℕ) × HoldsFor (plans os) r p))
restored-offers os h p o keyed at_ =
    let idle : lookup p (free_all h.offers) ≡ some (freed o) =
      lookup-free_all p h.offers ∙ rw at_ refl in
    let (o', known, _) = mark_all-marks (plans os) (free_all h.offers) p (freed o) idle in
    (
      o',
      known,
      (
        λ busy.
            elim (mark_all-busy (plans os) (free_all h.offers) p o' (plans-IsDict os keyed) known) [
              | inl (r, plan, _, at', in_) ↦ (r, (plan, at', in_))
              | inr before ↦ absurd (
                  freed-ne-busy (lookup p h.offers) o' (sym (lookup-free_all p h.offers) ∙ before)
                    busy)
            ],
        λ (r, (plan, at', in_)).
            let (o'', known', busy) =
              mark_all-held (plans os) (free_all h.offers) p r (freed o) plan idle at' in_ in
            subst (λ z. z.busy ≡ true) (some-injective (sym known' ∙ known)) busy,
      ),
    )

module _ (digest : ℕ → ℕ) where
  -- One call that returns. A new request has an id that is not in use, as the source draws it from a
  -- digest of the time, and the log is within what a restore reads.
  pub data Step (h : Household) : Household → Type 0 where
    joins :
        (pod_id key : ℕ) (ram_bytes vram_bytes : ℤ) {o : Offer} {h' : Household}
        → join digest h pod_id key ram_bytes vram_bytes ≡ ok (o, h')
        → Step h h'
    requests :
        (request_id plan_hash model_ref : ℕ) (segments : List Segment) (donors : List ℕ)
        {q : Request} {h' : Household}
        → lookup request_id h.requests ≡ none
        → request_allocation h request_id plan_hash model_ref segments donors ≡ ok (q, h')
        → Step h h'
    approves :
        (request_id pod_id key : ℕ) {s : Status} {h' : Household}
        → approve digest h request_id pod_id key ≡ ok (s, h')
        → Step h h'
    starts :
        (request_id : ℕ) {plan : List Placement} {h' : Household}
        → start h request_id ≡ ok (plan, h')
        → Step h h'
    releases :
        (request_id key : ℕ) {ps : List ℕ} {h' : Household}
        → release digest h request_id key ≡ ok (ps, h')
        → Step h h'
    restores : length h.log ≤ read_limit → Step h (restore_from_events h).1
    looks_up : (session_id prefix_hash : ℕ) → Step h (token_cache_lookup h session_id prefix_hash).1
    stores :
        (session_id prefix_hash token_count replica : ℕ)
        → Step h (token_cache_store h session_id prefix_hash token_count replica).1

  -- The states that calls reach from a new household with an empty log.
  pub data Reach (key_hash : ℕ) : Household → Type 0 where
    fresh : Reach key_hash (new_household key_hash [])
    then_ : {h h' : Household} → Reach key_hash h → Step h h' → Reach key_hash h'

  Step-IsSound : {h h' : Household} → IsSound h → Step h h' → IsSound h'
  unfolding token_cache_lookup token_cache_store
  Step-IsSound {h} {h'} sound (joins p key m v {o = o} e) =
      join_step digest h h' p key m v o sound e
  Step-IsSound {h} {h'} sound (requests r ph m ss ds {q = q} unused e) =
      request_step digest h h' r ph m ss ds q sound unused e
  Step-IsSound {h} {h'} sound (approves r p key {s = s} e) =
      approve_step digest h h' r p key s sound e
  Step-IsSound {h} {h'} sound (starts r {plan = plan} e) = start_step digest h h' r plan sound e
  Step-IsSound {h} {h'} sound (releases r key {ps = ps} e) =
      release_step digest h h' r key ps sound e
  Step-IsSound {h} sound (restores short) =
      subst IsSound (sym (restore-restored h short)) (restored-IsSound h sound)
  Step-IsSound {h} sound (looks_up s p) = record {
    held = sound.held;
    backed = sound.backed;
    consented = sound.consented;
    logged = sound.logged;
    keyed = sound.keyed;
  }
  Step-IsSound {h} sound (stores s p c r) = record {
    held = sound.held;
    backed = sound.backed;
    consented = sound.consented;
    logged = sound.logged;
    keyed = sound.keyed;
  }

  Reach-IsSound : {k : ℕ} {h : Household} → Reach k h → IsSound h
  unfolding open_starts
  Reach-IsSound fresh = record {
    held = λ p o at_ busy. absurd (none-ne-some at_);
    backed = λ r plan at_. absurd (none-ne-some at_);
    consented = λ r q at_ needs. absurd (none-ne-some at_);
    logged = refl;
    keyed = tt;
  }
  Reach-IsSound (then_ before step) = Step-IsSound (Reach-IsSound before) step

  -- In every state that calls can reach, a busy donor names the request that it works for, and
  -- releasing that request with the household's key succeeds and leaves the donor idle.
  pub reachable-can_release :
      {k : ℕ} {h : Household} (p key : ℕ) (o : Offer)
      → Reach k h
      → lookup p h.offers ≡ some o
      → o.busy ≡ true
      → digest key ≡ h.key_hash
      → (r : ℕ) × (ps : List ℕ) × (h' : Household) × (o.busy_with ≡ some r)
        × (release digest h r key ≡ ok (ps, h'))
        × (lookup p h'.offers ≡ some (freed o))
  unfolding release
  reachable-can_release {k} {h} p key o before at_ busy right =
      let sound = Reach-IsSound before in
      let (r, with_, holds) = sound.held p o at_ busy in
      let (q, known, running) = sound.backed r holds.0 holds.1 in
      (
        r,
        to_free r h,
        released_of h r q (to_free r h),
        with_,
        release_started digest h r key q right known running,
        lookup-free p (to_free r h) h.offers
            ∙ rw (freed_mine h r q sound known running p o at_ with_ holds, at_) refl,
      )

  -- A household that has lost its state but for the log gets the same reservations back, and each
  -- pod that has joined it again is busy exactly when a reservation of the old one holds it.
  pub reachable-restore :
      {k : ℕ} {h : Household} (h' : Household) (p : ℕ) (o : Offer)
      → Reach k h
      → h'.log ≡ h.log
      → length h.log ≤ read_limit
      → lookup p h'.offers ≡ some o
      → ((restore_from_events h').1.reservations ≡ h.reservations)
        × ((o' : Offer) × (lookup p (restore_from_events h').1.offers ≡ some o')
            × ((o'.busy ≡ true) ↔ ((r : ℕ) × HoldsFor h.reservations r p)))
  reachable-restore {k} {h} h' p o before same short at_ =
      let sound = Reach-IsSound before in
      let os = open_starts h.log in
      let result : (restore_from_events h').1 ≡ restored os h' =
        restore-restored h' (subst (λ l. length l ≤ read_limit) (sym same) short)
        ∙ ap (λ l. restored (open_starts l) h') same in
      rw result (
        sound.logged,
        subst
            (λ rs.
              (o' : Offer) × (lookup p (restored os h').offers ≡ some o')
              × ((o'.busy ≡ true) ↔ ((r : ℕ) × HoldsFor rs r p)))
            sound.logged (restored-offers os h' p o sound.keyed at_),
      )

  -- A start that returns, in any state that calls can reach, is that of a request to which each of
  -- its donors has consented.
  pub reachable-consent :
      {k : ℕ} {h h' : Household} (r : ℕ) (plan : List Placement)
      → Reach k h
      → start h r ≡ ok (plan, h')
      → (q : Request) × (lookup r h.requests ≡ some q) × Consented q
  unfolding start
  reachable-consent {k} {h} {h'} r plan before e = elim (Option-cases (lookup r h.requests)) [
    | inl unknown ↦ absurd (ground (arith, unknown))
    | inr (q, known) ↦
        let (_, ready, _) = start-eq_ok h h' r q plan known e in
        (q, known, (Reach-IsSound before).consented r q known (subst NeedsConsent (sym ready) tt))
  ]
