-- ===== src/Contract/Tests.antt =====
-- A manifest, a link and a life through the gate, with the theorems at these values.
use ptr_research.Common.{
  ℕ, ◌+◌, ◌*◌, ◌≡◌, refl, ◌↔◌, Bool, true, List, [], ◌∷◌, arith, length, Dict, nat_eq, ok, err, pos,
  ◌-ℤ◌, ◌≤ℤ◌,
}
use ptr_research.Contract.{
  PodManifest, PodLink, Status, candidate, trained, evaluated, approved, active, tuple, list, star,
  Error, new_manifest, allowed, transition, next_hop, validate,
}
use ptr_research.Contract.Links.{IsValidLink, validate-IsValidLink}
use ptr_research.Contract.Budget.{hops, hops-twice_spent}
use ptr_research.Contract.Gate.{Life, born, moved, AllChecked, active_only_after_gate}
use ptr_research.Contract.Acl.{transition_closes_acl}

program : Unit {0}
unfolding new_manifest allowed transition next_hop validate hops ◌-ℤ◌
program = tt

abbrev digest : PodManifest → ℕ
digest m = m.artifact_id

abbrev manifest : PodManifest
manifest = record {
  pod_id = 20;
  generation = 3;
  artifact_id = 77;
  pod_type = 4;
  model_track = 5;
  model_family = 6;
  interface = 7;
  capabilities = tuple (50 ∷ []);
  tags = tuple [];
  namespace = 8;
  acl = tuple (star ∷ []);
  status = active;
  provenance = (1, 99) ∷ [];
}

abbrev link : PodLink
link = record {
  trace_id = 1;
  source_pod_id = 10;
  target_pod_id = 20;
  target_generation = 3;
  artifact_id = 77;
  transport = 2;
  capability = 50;
  acl = tuple (star ∷ []);
  deadline_ms = pos 1500;
  hop_budget = pos 3;
  visited = [];
  attestation = 0;
  egress_topics = 60 ∷ [];
  egress_hosts = [];
  egress_ports = 1883 ∷ [];
}

link_accepted : validate digest link manifest 30 ≡ ok tt
unfolding program
link_accepted = refl

-- One hop is within the budget of 3; the second one is not.
one_hop : validate digest (hops 1 link) manifest 30 ≡ ok tt
unfolding program
one_hop = refl

two_hops : validate digest (hops 2 link) manifest 30 ≡ err Error.hops_exhausted
unfolding program
two_hops = refl

validate-IsValidLink_example :
    (validate digest link manifest 30 ≡ ok tt) ↔ IsValidLink digest link manifest 30
validate-IsValidLink_example = validate-IsValidLink digest link manifest 30

hops-twice_spent_example : pos (2 * 1 + length link.visited + 1) ≤ℤ link.hop_budget
hops-twice_spent_example = hops-twice_spent digest 1 link manifest 30 one_hop

abbrev all_checks : Dict ℕ Bool
all_checks = (1, true) ∷ (2, true) ∷ (3, true) ∷ []

abbrev at_status : Status → PodManifest
at_status s = record manifest {
  capabilities = list (50 ∷ []);
  tags = list [];
  acl = list (star ∷ []);
  status = s;
}

abbrev fresh : PodManifest
fresh = record manifest { status = candidate }

to_trained : transition fresh trained [] ≡ ok (at_status trained)
unfolding program
to_trained = refl

to_evaluated : transition (at_status trained) evaluated all_checks ≡ ok (at_status evaluated)
unfolding program
to_evaluated = refl

to_approved : transition (at_status evaluated) approved all_checks ≡ ok (at_status approved)
unfolding program
to_approved = refl

to_active : transition (at_status approved) active all_checks ≡ ok (at_status active)
unfolding program
to_active = refl

unchecked : transition (at_status trained) evaluated [] ≡ err Error.missing_checks
unfolding program
unchecked = refl

life :
    Life
      ((active, all_checks) ∷ (approved, all_checks) ∷ (evaluated, all_checks) ∷ (trained, []) ∷ [])
      (at_status active)
life =
    moved active all_checks
      (moved approved all_checks
        (moved evaluated all_checks (moved trained [] (born fresh refl) to_trained) to_evaluated)
        to_approved)
      to_active

active_only_after_gate_example :
    ((rest : List Status) × (active ∷ approved ∷ evaluated ∷ trained ∷ []
        ≡ active ∷ approved ∷ evaluated ∷ trained ∷ rest))
    × AllChecked (
        (active, all_checks)
        ∷ (approved, all_checks)
        ∷ (evaluated, all_checks)
        ∷ (trained, [])
        ∷ [])
active_only_after_gate_example = active_only_after_gate life refl

-- The fresh manifest admits everybody, and the active one that comes of it admits nobody.
denied_after_transition : validate digest link (at_status active) 30 ≡ err Error.denied_by_target
unfolding program
denied_after_transition = refl

transition_closes_acl_example : ¬ (validate digest link (at_status trained) 30 ≡ ok tt)
transition_closes_acl_example =
    transition_closes_acl digest fresh (at_status trained) trained [] link 30 refl (omega arith)
      to_trained
