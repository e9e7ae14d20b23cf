-- ===== src/Registry/Usable.antt =====
-- What `_valid` of neural_pods/registry.py accepts, described without its loop and its query.
use ptr_research.Common.{
  Result-cases, ok-injective, ap, ◌∙◌, some-injective, both-ok, raise_if-ok, ℕ, ◌≡◌, refl, ◌↔◌,
  true, false, Option, none, some, List, [], ◌∷◌, arith, mem, keys, lookup, nat_eq, ◌==◌, subst,
  sym, ==_iff, if◌then◌else◌, Result, ok, ◌>>◌, Bool-cases, inl, inr, ℤ, ◌≤ℤ◌, ltb_ℤ, Option-cases,
  not, raise_if,
}
use ptr_research.Lineage.Reached.{closure-Trail}
use ptr_research.Registry.{
  Registry, Node, Head, Lifecycle, Payload, Error, knowledge_payload, origin_payload,
  artifact_payload, parents_of, node, nodes_at, ancestors, acl_of, is_allowed, is_knowledge,
  check_lifecycle, check_knowledge, check_node, check_nodes, valid, is_stale, is_before, is_after,
  revoked_ancestor, access_denied, stale_generation, not_yet_valid, expired,
}
use ptr_research.Registry.Tables.{Ancestor, HasKeys, IsKnown, lookup-absent, ancestors-returns}

-- At `now` the interval has begun and has not ended.
abbrev pub InTime : ℤ → Option Lifecycle → Type 0
InTime now none = Unit
InTime now (some l) =
    ((t : ℤ) → l.valid_from ≡ some t → t ≤ℤ now)
    × ((t : ℤ) → l.valid_until ≡ some t → ltb_ℤ now t ≡ true)

-- A knowledge node is in time and the head of its key.
abbrev pub Current : Registry → ℤ → ℕ → Payload → Type 0
Current s now z (knowledge_payload key generation semantic acl lifecycle) =
    InTime now lifecycle × ((h : Head) × (lookup key s.heads ≡ some h) × (h.node_id ≡ z))
Current s now z payload = ⊥

pub record Usable (s : Registry) (now : ℤ) (principal z : ℕ) : Type 0 where
  pub row : Node
  pub found : lookup z s.nodes ≡ some row
  pub standing : row.revoked ≡ false
  pub allowed : is_allowed principal (acl_of row.payload) ≡ true
  pub current : is_knowledge row.kind ≡ true → Current s now z row.payload

is_before-begun :
    (now : ℤ) (from : Option ℤ)
    → (is_before now from ≡ false) ↔ ((t : ℤ) → from ≡ some t → t ≤ℤ now)
is_before-begun now none = (λ h t e. cc, λ h. refl)
is_before-begun now (some t) =
    (λ h t' e. ground (arith, h, some-injective e), λ h. ground (arith, h t refl))

is_after-ended :
    (now : ℤ) (until : Option ℤ)
    → (is_after now until ≡ false) ↔ ((t : ℤ) → until ≡ some t → ltb_ℤ now t ≡ true)
is_after-ended now none = (λ h t e. cc, λ h. refl)
is_after-ended now (some t) =
    (λ h t' e. ground (arith, h, some-injective e), λ h. ground (arith, h t refl))

is_stale-head :
    (o : Option Head) (z : ℕ)
    → (is_stale o z ≡ false) ↔ ((h : Head) × (o ≡ some h) × (h.node_id ≡ z))
is_stale-head none z = (λ e. cc, λ p. cc)
is_stale-head (some h) z = (
  λ e. (h, refl, ground (arith, e, ==_iff h.node_id z)),
  λ p. ground (arith, ==_iff h.node_id z, ap (λ (k : Head). k.node_id) (some-injective p.1), p.2),
)

check_lifecycle-InTime :
    (now : ℤ) (l : Option Lifecycle) → (check_lifecycle now l ≡ ok tt) ↔ InTime now l
unfolding check_lifecycle
check_lifecycle-InTime now none = (λ e. tt, λ e. refl)
check_lifecycle-InTime now (some l) =
    let both =
      both-ok (raise_if (is_before now l.valid_from) not_yet_valid)
        (raise_if (is_after now l.valid_until) expired) in
    let a = raise_if-ok (is_before now l.valid_from) not_yet_valid in
    let b = raise_if-ok (is_after now l.valid_until) expired in
    let c = is_before-begun now l.valid_from in
    let d = is_after-ended now l.valid_until in
    (
      λ h. (c.0 (a.0 (both.0 h).0), d.0 (b.0 (both.0 h).1)),
      λ h. both.1 (a.1 (c.1 h.0), b.1 (d.1 h.1)),
    )

check_knowledge-Current :
    (s : Registry) (now : ℤ) (z : ℕ) (p : Payload)
    → (check_knowledge s now z p ≡ ok tt) ↔ Current s now z p
unfolding check_knowledge
check_knowledge-Current s now z (knowledge_payload key generation semantic acl lifecycle) =
    let both =
      both-ok (check_lifecycle now lifecycle)
        (raise_if (is_stale (lookup key s.heads) z) stale_generation) in
    let a = check_lifecycle-InTime now lifecycle in
    let b = raise_if-ok (is_stale (lookup key s.heads) z) stale_generation in
    let c = is_stale-head (lookup key s.heads) z in
    (λ h. (a.0 (both.0 h).0, c.0 (b.0 (both.0 h).1)), λ h. both.1 (a.1 h.0, b.1 (c.1 h.1)))
check_knowledge-Current s now z (origin_payload namespace record_id version hash acl) =
    (λ e. cc, λ e. absurd e)
check_knowledge-Current s now z (artifact_payload body origins generations parents hash) =
    (λ e. cc, λ e. absurd e)

module _ (s : Registry) (now : ℤ) (principal : ℕ) where
  kind-Current :
      (z : ℕ) (n : Node)
      → ((if is_knowledge n.kind then check_knowledge s now z n.payload else ok tt) ≡ ok tt)
        ↔ (is_knowledge n.kind ≡ true → Current s now z n.payload)
  kind-Current z n = elim (Bool-cases (is_knowledge n.kind)) [
    | inl known ↦
        let a = check_knowledge-Current s now z n.payload in
        (λ h e. a.0 (rw known at h), λ h. rw known (a.1 (h known)))
    | inr other ↦ (λ h e. cc, λ h. rw other refl)
  ]

  check_node-Usable :
      (z : ℕ) (n : Node)
      → lookup z s.nodes ≡ some n
      → (check_node s now principal (z, n) ≡ ok tt) ↔ Usable s now principal z
  unfolding check_node
  check_node-Usable z n found =
      let kind_ : Result Error (Unit {0}) =
        if is_knowledge n.kind then check_knowledge s now z n.payload else ok tt in
      let acl : Result Error (Unit {0}) =
        raise_if (not (is_allowed principal (acl_of n.payload))) access_denied in
      let first = both-ok (raise_if n.revoked (revoked_ancestor z)) (acl >> kind_) in
      let second = both-ok acl kind_ in
      let a = raise_if-ok n.revoked (revoked_ancestor z) in
      let b = raise_if-ok (not (is_allowed principal (acl_of n.payload))) access_denied in
      let c = kind-Current z n in
      (
        λ h. record {
          row = n;
          found = found;
          standing = a.0 (first.0 h).0;
          allowed = ground (arith, b.0 (second.0 (first.0 h).1).0);
          current = c.0 (second.0 (first.0 h).1).1;
        },
        λ u.
            let same : u.row ≡ n = some-injective (sym u.found ∙ found) in
            first.1 (
              a.1 (subst (λ (m : Node). m.revoked ≡ false) same u.standing),
              second.1 (
                b.1 (
                    ground (
                      arith,
                      subst (λ (m : Node). is_allowed principal (acl_of m.payload) ≡ true) same
                          u.allowed,
                    )),
                c.1 (
                    subst (λ (m : Node). is_knowledge m.kind ≡ true → Current s now z m.payload)
                      same u.current),
              ),
            ),
      )

  check_nodes-Usable :
      (xs : List ℕ) (ns : List (ℕ × Node))
      → nodes_at s xs ≡ ok ns
      → (check_nodes s now principal ns ≡ ok tt)
        ↔ ((z : ℕ) → mem z xs ≡ true → Usable s now principal z)
  unfolding nodes_at node check_nodes
  check_nodes-Usable [] ns e =
      (λ h z m. cc, λ h. subst (λ ms. check_nodes s now principal ms ≡ ok tt) (ok-injective e) refl)
  check_nodes-Usable (x ∷ xs) ns e = elim (Option-cases (lookup x s.nodes)) [
    | inl gone ↦ absurd (ground (arith, gone, e))
    | inr (n, found) ↦ elim (Result-cases (nodes_at s xs)) [
      | inr (stop, failed) ↦ absurd (ground (arith, found, failed, e))
      | inl (ms, rows) ↦
          let split : (x, n) ∷ ms ≡ ns = ground (arith, found, rows, e) in
          let both = both-ok (check_node s now principal (x, n)) (check_nodes s now principal ms) in
          let here_ = check_node-Usable x n found in
          let rest = check_nodes-Usable xs ms rows in
          subst
            (λ ls.
              (check_nodes s now principal ls ≡ ok tt)
              ↔ ((z : ℕ) → mem z (x ∷ xs) ≡ true → Usable s now principal z))
            split
            (
              λ h z m. elim (Bool-cases (z == x)) [
                | inl same ↦
                    subst (Usable s now principal) (sym ((==_iff z x).0 same))
                      (here_.0 (both.0 h).0)
                | inr other ↦ rest.0 (both.0 h).1 z (ground arith)
              ],
              λ h.
                  both.1 (
                    here_.1 (h x (ground (arith, ==_iff x x))),
                    rest.1 (λ z m. h z (ground arith)),
                  ),
            )
    ]
  ]

  -- `_valid` accepts a row exactly if the row and all its ancestors may be used.
  pub valid-Usable :
      (x : ℕ)
      → HasKeys s
      → (valid s now principal x ≡ ok tt)
        ↔ (IsKnown s x × ((z : ℕ) → Ancestor s x z → Usable s now principal z))
  unfolding valid ancestors node
  valid-Usable x k = elim (Bool-cases (mem x (keys s.nodes))) [
    | inr gone ↦ (
      λ h. absurd (ground (arith, lookup-absent x s.nodes gone, h)),
      λ h. absurd (ground (arith, gone, h.0)),
    )
    | inl known ↦
        let (ns, returns, rows) = ancestors-returns s x k known in
        let find =
          closure-Trail (parents_of s.edges) (keys s.nodes) (λ c p a e. k.parent_known c p e) x in
        let check = check_nodes-Usable _ ns rows in
        (
          λ h. (known, λ z a. check.0 (rw returns at h) z ((find z known).1 a)),
          λ h. rw returns (check.1 (λ z m. h.1 z ((find z known).0 m))),
        )
  ]
