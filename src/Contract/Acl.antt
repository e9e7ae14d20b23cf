-- ===== src/Contract/Acl.antt =====
-- The access list of a manifest of neural_pods/pod_contract.py that has gone through the gate.
use ptr_research.Common.{ℕ, ◌≡◌, ◌≢◌, refl, Bool, true, [], ◌∷◌, inl, inr, arith, mem, ok, Dict}
use ptr_research.Contract.{PodManifest, PodLink, Status, tuple, list, star, transition, validate}
use ptr_research.Contract.Links.{validate-IsValidLink}
use ptr_research.Contract.Gate.{transition-Moves}

not_listed : (p : ℕ) → p ≢ star → ¬ (mem p (star ∷ []) ≡ true)
not_listed p other h = ground arith

module _ (digest : PodManifest → ℕ) where
  -- A manifest that admits everybody stops admitting anybody once it has made a transition: its
  -- access list comes back as a list, which is not the tuple that `validate` compares it with. No
  -- link to it is accepted, for any principal but the text "*" itself.
  pub transition_closes_acl :
      (m m' : PodManifest) (status : Status) (checks : Dict ℕ Bool) (l : PodLink) (principal : ℕ)
      → m.acl ≡ tuple (star ∷ [])
      → principal ≢ star
      → transition m status checks ≡ ok m'
      → ¬ (validate digest l m' principal ≡ ok tt)
  transition_closes_acl m m' status checks l principal everyone other moved accepted =
      let v = (validate-IsValidLink digest l m' principal).0 accepted in
      let built = (transition-Moves m m' status checks moved).built in
      let acl : m'.acl ≡ list (star ∷ []) = rw (built, everyone) refl in
      elim (v.target_admits) [
        | inl all_ ↦ cc (rw acl at all_)
        | inr listed ↦ absurd (not_listed principal other (rw acl at listed))
      ]
