-- ===== src/Contract/Links.antt =====
-- `PodLink.validate` of neural_pods/pod_contract.py accepts exactly the links that its ten
-- conditions describe.
use ptr_research.Common.{
  ℕ, ◌+◌, ◌≡◌, refl, ◌↔◌, Bool, true, false, ◌||◌, ◌&&◌, inl, inr, ◌⊎◌, arith, ◌==◌, not, length,
  mem, ok, NoneHolds, raise_first-NoneHolds, Bool-cases, ==_iff, pos, ◌≤ℤ◌,
}
use ptr_research.Contract.{
  PodManifest, PodLink, Status, active, Strings, is_everyone, elements, denied, is_active,
  manifest_hash, objections, validate,
}

not-false : {b : Bool} → not b ≡ false → b ≡ true
not-false {b} h = ground arith

same_id : {a b : ℕ} → not (a == b) ≡ false → a ≡ b
same_id {a} {b} h = ground arith

same_ids : {a b c d : ℕ} → (not (a == b) || not (c == d)) ≡ false → (a ≡ b) × (c ≡ d)
same_ids {a} {b} {c} {d} h = ground arith

active_status : (s : Status) → not (is_active s) ≡ false → s ≡ active
active_status Status.active h = refl
active_status s h = cc

admits :
    (acl : Strings) (p : ℕ)
    → denied acl p ≡ false
    → (is_everyone acl ≡ true) ⊎ (mem p (elements acl) ≡ true)
admits acl p h = elim (Bool-cases (is_everyone acl)) [
  | inl all_ ↦ inl all_
  | inr some_ ↦ inr (not-false (rw some_ at h))
]

admitted :
    (acl : Strings) (p : ℕ)
    → (is_everyone acl ≡ true) ⊎ (mem p (elements acl) ≡ true)
    → denied acl p ≡ false
admitted acl p (inl all_) = rw all_
admitted acl p (inr listed) = elim (Bool-cases (is_everyone acl)) [
  | inl all_ ↦ rw all_
  | inr some_ ↦ rw (some_, listed)
]

attests : {a h : ℕ} → (not (a == 0) && not (a == h)) ≡ false → (a ≡ 0) ⊎ (a ≡ h)
attests {a} {h} e = ground arith

module _ (digest : PodManifest → ℕ) where
  pub record IsValidLink (l : PodLink) (m : PodManifest) (principal : ℕ) : Type 0 where
    pub same_pod : l.target_pod_id ≡ m.pod_id
    pub same_generation : l.target_generation ≡ m.generation
    pub same_artifact : l.artifact_id ≡ m.artifact_id
    pub capable : mem l.capability (elements m.capabilities) ≡ true
    pub is_active_ : m.status ≡ active
    pub target_admits : (is_everyone m.acl ≡ true) ⊎ (mem principal (elements m.acl) ≡ true)
    pub link_admits : (is_everyone l.acl ≡ true) ⊎ (mem principal (elements l.acl) ≡ true)
    pub has_deadline : pos 1 ≤ℤ l.deadline_ms
    pub has_budget : pos (length l.visited + 1) ≤ℤ l.hop_budget
    pub no_cycle : mem l.target_pod_id l.visited ≡ false
    pub attested : (l.attestation ≡ 0) ⊎ (l.attestation ≡ manifest_hash digest m)

  valid_sound :
      (l : PodLink) (m : PodManifest) (principal : ℕ)
      → NoneHolds (objections digest l m principal)
      → IsValidLink l m principal
  valid_sound l m principal (c0, (c1, (c2, (c3, (c4, (c5, (c6, (c7, (c8, (c9, _)))))))))) = record {
    same_pod = (same_ids c0).0;
    same_generation = (same_ids c0).1;
    same_artifact = same_id c1;
    capable = not-false c2;
    is_active_ = active_status m.status c3;
    target_admits = admits m.acl principal c4;
    link_admits = admits l.acl principal c5;
    has_deadline = ground arith;
    has_budget = ground arith;
    no_cycle = c7;
    attested = attests c9;
  }

  valid_complete :
      (l : PodLink) (m : PodManifest) (principal : ℕ)
      → IsValidLink l m principal
      → NoneHolds (objections digest l m principal)
  valid_complete l m principal v = (
    rw ((==_iff _ _).1 v.same_pod, (==_iff _ _).1 v.same_generation) refl,
    (
      rw ((==_iff _ _).1 v.same_artifact) refl,
      (
        rw v.capable refl,
        (
          rw v.is_active_ refl,
          (
            admitted m.acl principal v.target_admits,
            (
              admitted l.acl principal v.link_admits,
              (ground arith, (v.no_cycle, (ground arith, (ground arith, tt)))),
            ),
          ),
        ),
      ),
    ),
  )

  -- A link is accepted exactly when it names this pod, generation and artifact, the pod is active
  -- and offers the capability, both access lists admit the principal, the deadline and the budget
  -- left are positive, the pod is not visited yet, and an attestation that is there is right.
  pub validate-IsValidLink :
      (l : PodLink) (m : PodManifest) (principal : ℕ)
      → (validate digest l m principal ≡ ok tt) ↔ IsValidLink l m principal
  unfolding validate
  validate-IsValidLink l m principal =
      let guards = raise_first-NoneHolds (objections digest l m principal) in
      (λ h. valid_sound l m principal (guards.0 h), λ v. guards.1 (valid_complete l m principal v))
