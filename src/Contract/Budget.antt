-- ===== src/Contract/Budget.antt =====
-- How far the hop budget of a `PodLink` of neural_pods/pod_contract.py reaches: `next_hop` spends
-- it and lengthens `visited`, and `validate` compares the two.
use ptr_research.Common.{
  ℕ, zero, suc, ◌+◌, ◌*◌, ◌≡◌, refl, subst, ◌∙◌, [], ◌∷◌, arith, length, length-append, ok, pos,
  ◌-ℤ◌, ◌≤ℤ◌, int_laws,
}
use ptr_research.Contract.{PodManifest, PodLink, validate, next_hop}
use ptr_research.Contract.Links.{validate-IsValidLink}

-- The link after `k` calls of `next_hop`.
unfoldable pub hops : ℕ → PodLink → PodLink
hops zero l = l
hops (suc k) l = hops k (next_hop l)

-- Identity, access lists and egress are carried along; budget and path move with each hop.
pub record Moved (k : ℕ) (l l' : PodLink) : Type 0 where
  pub budget : l'.hop_budget ≡ l.hop_budget -ℤ pos k
  pub path : length l'.visited ≡ length l.visited + k
  pub deadline : l'.deadline_ms ≡ l.deadline_ms
  pub acl : l'.acl ≡ l.acl
  pub topics : l'.egress_topics ≡ l.egress_topics
  pub hosts : l'.egress_hosts ≡ l.egress_hosts
  pub ports : l'.egress_ports ≡ l.egress_ports

next_hop-Moved : (l : PodLink) → Moved 1 l (next_hop l)
unfolding next_hop
next_hop-Moved l = record {
  budget = refl;
  path = length-append l.visited (l.source_pod_id ∷ []) ∙ omega arith;
  deadline = refl;
  acl = refl;
  topics = refl;
  hosts = refl;
  ports = refl;
}

pub hops-Moved : (k : ℕ) (l : PodLink) → Moved k l (hops k l)
unfolding hops
hops-Moved zero l = record {
  budget = omega int_laws;
  path = omega arith;
  deadline = refl;
  acl = refl;
  topics = refl;
  hosts = refl;
  ports = refl;
}
hops-Moved (suc k) l =
    let one = next_hop-Moved l in
    let rest = hops-Moved k (next_hop l) in
    record {
      budget = rw (rest.budget, one.budget) (omega int_laws);
      path = omega arith;
      deadline = rest.deadline ∙ one.deadline;
      acl = rest.acl ∙ one.acl;
      topics = rest.topics ∙ one.topics;
      hosts = rest.hosts ∙ one.hosts;
      ports = rest.ports ∙ one.ports;
    }

module _ (digest : PodManifest → ℕ) where
  -- A link that has made `k` hops is accepted only if its first budget was more than twice `k`
  -- plus the pods visited before: every hop spends the budget and counts against it again.
  pub hops-twice_spent :
      (k : ℕ) (l : PodLink) (m : PodManifest) (principal : ℕ)
      → validate digest (hops k l) m principal ≡ ok tt
      → pos (2 * k + length l.visited + 1) ≤ℤ l.hop_budget
  hops-twice_spent k l m principal h =
      let v = (validate-IsValidLink digest (hops k l) m principal).0 h in
      let moved = hops-Moved k l in
      omega
        (int_laws, subst (λ z. pos (length (hops k l).visited + 1) ≤ℤ z) moved.budget v.has_budget)

-- The egress allowlist, the principal allowlist and the deadline are those of the first link after
-- any number of hops.
pub hops-carried :
    (k : ℕ) (l : PodLink)
    → ((hops k l).egress_topics ≡ l.egress_topics)
      × ((hops k l).egress_hosts ≡ l.egress_hosts)
      × ((hops k l).egress_ports ≡ l.egress_ports)
      × ((hops k l).acl ≡ l.acl)
      × ((hops k l).deadline_ms ≡ l.deadline_ms)
hops-carried k l =
    let moved = hops-Moved k l in
    (moved.topics, moved.hosts, moved.ports, moved.acl, moved.deadline)
