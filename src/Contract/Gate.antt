-- ===== src/Contract/Gate.antt =====
-- The lifecycle gate of neural_pods/pod_contract.py as a state machine.
use ptr_research.Common.{
  ℕ, ◌≡◌, refl, sym, subst, Bool, true, false, ◌&&◌, List, [], ◌∷◌, inl, inr, ◌⊎◌, arith, not, all,
  Dict, ok, err, after_guards, ok-injective,
}
use ptr_research.Contract.{
  PodManifest, Status, candidate, trained, evaluated, approved, active, superseded, retired,
  revoked, unknown, illegal_transition, faults, gate, new_manifest, as_dict, allowed, needs_checks,
  passed, required, transition,
}

-- What a transition that returns has checked and changed.
pub record Moves (m : PodManifest) (status : Status) (checks : Dict ℕ Bool) (m' : PodManifest)
    : Type 0 where
  pub edge : allowed m.status status ≡ true
  pub checked : (needs_checks status ≡ false) ⊎ (all (passed checks) required ≡ true)
  pub built : m' ≡ record (as_dict m) { status = status }

new_manifest-same : (m m' : PodManifest) → new_manifest m ≡ ok m' → m' ≡ m
unfolding new_manifest
new_manifest-same m m' h =
    let (_, same) = after_guards (faults m) (ok m) h in sym (ok-injective same)

check_or_free : (n c : Bool) → (n && not c) ≡ false → (n ≡ false) ⊎ (c ≡ true)
check_or_free false c h = inl refl
check_or_free true c h = inr (ground arith)

pub transition-Moves :
    (m m' : PodManifest) (status : Status) (checks : Dict ℕ Bool)
    → transition m status checks ≡ ok m'
    → Moves m status checks m'
unfolding transition
transition-Moves m m' status checks h =
    let next = record (as_dict m) { status = status } in
    let (guards, built) = after_guards (gate m status checks) (new_manifest next) h in
    record {
      edge = ground arith;
      checked = check_or_free (needs_checks status) (all (passed checks) required) guards.1.0;
      built = new_manifest-same next m' built;
    }

-- The statuses that a manifest has been moved to, the last one first, with the checks handed in.
abbrev pub History : Type 0
History = List (Status × Dict ℕ Bool)

abbrev pub statuses : History → List Status
statuses [] = []
statuses ((s, c) ∷ hs) = s ∷ statuses hs

-- From a candidate on, by calls of `transition` that return.
pub data Life : History → PodManifest → Type 0 where
  born : (m : PodManifest) → m.status ≡ candidate → Life [] m
  moved :
      {hs : History} {m m' : PodManifest} (status : Status) (checks : Dict ℕ Bool)
      → Life hs m
      → transition m status checks ≡ ok m'
      → Life ((status, checks) ∷ hs) m'

-- The stages that must be the last ones for a manifest to stand at a status.
abbrev pub Trail : Status → List Status → Type 0
Trail candidate ss = Unit
Trail trained ss = (rest : List Status) × (ss ≡ trained ∷ rest)
Trail evaluated ss = (rest : List Status) × (ss ≡ evaluated ∷ trained ∷ rest)
Trail approved ss = (rest : List Status) × (ss ≡ approved ∷ evaluated ∷ trained ∷ rest)
Trail active ss = (rest : List Status) × (ss ≡ active ∷ approved ∷ evaluated ∷ trained ∷ rest)
Trail unknown ss = ⊥
Trail end ss = (rest : List Status) × (ss ≡ end ∷ active ∷ approved ∷ evaluated ∷ trained ∷ rest)

Trail-step :
    (s s' : Status) (ss : List Status) → allowed s s' ≡ true → Trail s ss → Trail s' (s' ∷ ss)
unfolding allowed
Trail-step candidate trained ss e t = (ss, refl)
Trail-step trained evaluated ss e (rest, h) = (rest, rw h)
Trail-step evaluated approved ss e (rest, h) = (rest, rw h)
Trail-step evaluated candidate ss e t = tt
Trail-step approved active ss e (rest, h) = (rest, rw h)
Trail-step active superseded ss e (rest, h) = (rest, rw h)
Trail-step active revoked ss e (rest, h) = (rest, rw h)
Trail-step active retired ss e (rest, h) = (rest, rw h)
Trail-step _ _ ss e t = cc

-- Every stage that asks for checks was entered with all of them passed.
abbrev pub AllChecked : History → Type 0
AllChecked [] = Unit
AllChecked ((s, c) ∷ hs) =
    ((needs_checks s ≡ false) ⊎ (all (passed c) required ≡ true)) × AllChecked hs

Life-Trail :
    {hs : History} {m : PodManifest} → Life hs m → Trail m.status (statuses hs) × AllChecked hs
Life-Trail (born m e) = (subst (λ s. Trail s []) (sym e) tt, tt)
Life-Trail (moved {hs = hs} {m = m} {m' = m'} status checks l e) =
    let step = transition-Moves m m' status checks e in
    let (trail, before) = Life-Trail l in
    (
      subst (λ (x : PodManifest). Trail x.status (status ∷ statuses hs)) (sym step.built)
          (Trail-step m.status status (statuses hs) step.edge trail),
      (step.checked, before),
    )

-- A manifest that began as a candidate is active only after it was trained, evaluated and
-- approved, in this order and with nothing in between, and each stage that asks for the checks of
-- manifest hash, provenance and base identity was entered with all three passed.
pub active_only_after_gate :
    {hs : History} {m : PodManifest}
    → Life hs m
    → m.status ≡ active
    → ((rest : List Status) × (statuses hs ≡ active ∷ approved ∷ evaluated ∷ trained ∷ rest))
      × AllChecked hs
active_only_after_gate {hs = hs} l e =
    let (trail, all_) = Life-Trail l in (subst (λ s. Trail s (statuses hs)) e trail, all_)

-- The states that a manifest does not leave.
abbrev pub IsFinal : Status → Type 0
IsFinal superseded = Unit
IsFinal retired = Unit
IsFinal revoked = Unit
IsFinal _ = ⊥

final-edge : (s s' : Status) → IsFinal s → allowed s s' ≡ false
unfolding allowed
final-edge superseded s' h = refl
final-edge retired s' h = refl
final-edge revoked s' h = refl
final-edge _ s' h = elim h [ ]

-- A manifest that is superseded, retired or revoked is refused every transition, with any checks.
pub final_states :
    (m : PodManifest) (status : Status) (checks : Dict ℕ Bool)
    → IsFinal m.status
    → transition m status checks ≡ err illegal_transition
unfolding transition
final_states m status checks h = rw (final-edge m.status status h)
