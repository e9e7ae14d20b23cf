-- ===== src/Contract.antt =====
-- The contracts of neural_pods/pod_contract.py: manifests, links between pods and the gate of the
-- lifecycle. Texts are numbers that are only compared, 0 is the empty one.
pub mod Links
pub mod Budget
pub mod Gate
pub mod Acl
mod Tests
use ptr_research.Common.{
  is_empty, ℕ, ◌+◌, ◌≡◌, Bool, true, false, ◌||◌, ◌&&◌, Option, none, some, List, [], ◌∷◌, ◌++◌,
  arith, if◌then◌else◌, ◌==◌, not, nat_eq, length, mem, all, Dict, lookup, Result, ok, err, ◌>>=◌,
  ◌>>◌, raise_if, raise_first, ℤ, pos, ◌-ℤ◌, ltb_ℤ, leb_ℤ,
}

-- A tuple and a list with the same elements are not equal in Python.
pub data Strings : Type 0 where
  tuple list : List ℕ → Strings

abbrev pub elements : Strings → List ℕ
elements (tuple xs) = xs
elements (list xs) = xs

-- The text "*".
abbrev pub star : ℕ
star = 1

-- `acl == ("*",)`.
abbrev pub is_everyone : Strings → Bool
is_everyone (tuple (x ∷ [])) = x == star
is_everyone _ = false

-- The lifecycle states; `unknown` is any other text.
pub data Status : Type 0 where
  candidate trained evaluated approved active superseded retired revoked unknown : Status

pub record PodManifest : Type 0 where
  pub pod_id : ℕ
  pub generation : ℕ
  pub artifact_id : ℕ
  pub pod_type : ℕ
  pub model_track : ℕ
  pub model_family : ℕ
  pub interface : ℕ
  pub capabilities : Strings
  pub tags : Strings
  pub namespace : ℕ
  pub acl : Strings
  pub status : Status
  pub provenance : Dict ℕ ℕ

pub data Error : Type 0 where
  missing_identity invalid_status no_capability no_origin : Error
  stale_generation wrong_artifact wrong_capability not_active denied_by_target denied_by_link
        not_positive link_cycle hops_exhausted wrong_attestation :
      Error
  illegal_transition missing_checks : Error

-- The key "origin_key" of the provenance.
abbrev pub origin_key : ℕ
origin_key = 1

abbrev pub is_unknown : Status → Bool
is_unknown unknown = true
is_unknown _ = false

abbrev pub has_key : ℕ → Dict ℕ ℕ → Bool
has_key k d = elim (lookup k d) [ none ↦ false | some _ ↦ true ]

-- `PodManifest(...)`: the checks of `__post_init__`.
abbrev pub faults : PodManifest → List (Bool × Error)
faults m =
    (m.pod_id == 0 || (m.generation == 0 || m.artifact_id == 0), missing_identity)
    ∷ (is_unknown m.status, invalid_status)
    ∷ (is_empty (elements m.capabilities), no_capability)
    ∷ (not (has_key origin_key m.provenance), no_origin)
    ∷ []

unfoldable pub new_manifest : PodManifest → Result Error PodManifest
new_manifest m = raise_first (faults m) >> ok m

-- `as_dict`: the three tuples come out as lists.
abbrev pub as_dict : PodManifest → PodManifest
as_dict m = record m {
  capabilities = list (elements m.capabilities);
  tags = list (elements m.tags);
  acl = list (elements m.acl);
}

pub record PodLink : Type 0 where
  pub trace_id : ℕ
  pub source_pod_id : ℕ
  pub target_pod_id : ℕ
  pub target_generation : ℕ
  pub artifact_id : ℕ
  pub transport : ℕ
  pub capability : ℕ
  pub acl : Strings
  pub deadline_ms : ℤ
  pub hop_budget : ℤ
  pub visited : List ℕ
  pub attestation : ℕ
  pub egress_topics : List ℕ
  pub egress_hosts : List ℕ
  pub egress_ports : List ℕ

abbrev pub denied : Strings → ℕ → Bool
denied acl principal = not (is_everyone acl) && not (mem principal (elements acl))

abbrev pub is_active : Status → Bool
is_active active = true
is_active _ = false

-- `next_hop`.
unfoldable pub next_hop : PodLink → PodLink
next_hop l = record l {
  hop_budget = l.hop_budget -ℤ pos 1;
  visited = l.visited ++ l.source_pod_id ∷ [];
}

-- The texts "manifest_hash", "provenance" and "base_identity" that name the required checks.
abbrev pub required : List ℕ
required = 1 ∷ 2 ∷ 3 ∷ []

abbrev pub passed : Dict ℕ Bool → ℕ → Bool
passed checks k = elim (lookup k checks) [ none ↦ false | some v ↦ v ]

-- `LifecycleGate.ALLOWED`.
unfoldable pub allowed : Status → Status → Bool
allowed candidate trained = true
allowed trained evaluated = true
allowed evaluated approved = true
allowed evaluated candidate = true
allowed approved active = true
allowed active superseded = true
allowed active revoked = true
allowed active retired = true
allowed _ _ = false

abbrev pub needs_checks : Status → Bool
needs_checks evaluated = true
needs_checks approved = true
needs_checks active = true
needs_checks _ = false

abbrev pub gate : PodManifest → Status → Dict ℕ Bool → List (Bool × Error)
gate m status checks =
    (not (allowed m.status status), illegal_transition)
    ∷ (needs_checks status && not (all (passed checks) required), missing_checks)
    ∷ []

-- `LifecycleGate.transition`: the manifest is built anew from its dictionary.
unfoldable pub transition : PodManifest → Status → Dict ℕ Bool → Result Error PodManifest
transition m status checks =
    raise_first (gate m status checks) >> new_manifest (record (as_dict m) { status = status })

-- The digest of a manifest is a parameter: SHA-256 of its canonical dictionary.
module _ (digest : PodManifest → ℕ) where
  abbrev pub manifest_hash : PodManifest → ℕ
  manifest_hash m = digest (as_dict m)

  -- The conditions of `PodLink.validate` under which it raises, in its order.
  abbrev pub objections : PodLink → PodManifest → ℕ → List (Bool × Error)
  objections l m principal =
      (
        not (l.target_pod_id == m.pod_id) || not (l.target_generation == m.generation),
        stale_generation,
      )
      ∷ (not (l.artifact_id == m.artifact_id), wrong_artifact)
      ∷ (not (mem l.capability (elements m.capabilities)), wrong_capability)
      ∷ (not (is_active m.status), not_active)
      ∷ (denied m.acl principal, denied_by_target)
      ∷ (denied l.acl principal, denied_by_link)
      ∷ (ltb_ℤ l.deadline_ms (pos 1) || ltb_ℤ l.hop_budget (pos 1), not_positive)
      ∷ (mem l.target_pod_id l.visited, link_cycle)
      ∷ (leb_ℤ l.hop_budget (pos (length l.visited)), hops_exhausted)
      ∷ (not (l.attestation == 0) && not (l.attestation == manifest_hash m), wrong_attestation)
      ∷ []

  -- `PodLink.validate`.
  unfoldable pub validate : PodLink → PodManifest → ℕ → Result Error (Unit {0})
  validate l m principal = raise_first (objections l m principal)
