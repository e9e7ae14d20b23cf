-- ===== src/Registry/Outcomes.antt =====
-- What it means that `publish`, `_artifact`, `commit` or `revoke` of neural_pods/registry.py
-- returned: the checks that passed and the change to the tables.
use mathlib.Core.Option
use ptr_research.Common.{
  is_empty, sorted_set, ok-injective, ap, Option-cases, ℕ, ◌≡◌, true, false, ◌||◌, Option, List, [],
  ◌∷◌, arith, mem, keys, lookup, nat_eq, ◌==◌, ==_iff, subst, sym, ok, raise_if, not, both-ok,
  bind-ok, raise_if-ok, Bool-cases, inl, inr, ℤ,
}
use ptr_research.Lineage.{closure}
use ptr_research.Registry.{
  Kind, Payload, Lifecycle, Registry, knowledge_payload, published, committed, revoked_all,
  no_source_lineage, unsupported_kind, no_lineage, no_roots, node, children_of, valid, all_valid,
}
use ptr_research.Registry.Writes.{
  Hashes, Validity, Found, Snapshot, interval, next_generation, lifecycle_of, set_head,
  record_event, publish, publish_action, collect, is_supported, artifact, commit, commit_action,
  mark, revoke, revoke_action, add,
}
use ptr_research.Registry.Tables.{IsKnown, keys-lookup}
use ptr_research.Registry.Growth.{Added, add-Added}

pub all_valid-each :
    (s : Registry) (now : ℤ) (principal : ℕ) (xs : List ℕ)
    → all_valid s now principal xs ≡ ok tt
    → (z : ℕ) → mem z xs ≡ true
    → valid s now principal z ≡ ok tt
unfolding all_valid
all_valid-each s now principal [] h z m = cc
all_valid-each s now principal (x ∷ xs) h z m =
    let (here, rest) = (both-ok (valid s now principal x) (all_valid s now principal xs)).0 h in
    elim (Bool-cases (z == x)) [
      | inl same ↦ subst (λ v. valid s now principal v ≡ ok tt) (sym ((==_iff z x).0 same)) here
      | inr other ↦ all_valid-each s now principal xs rest z (ground arith)
    ]

module _ (h : Hashes) (s : Registry) (now : ℤ) where
  pub record Published (key : ℕ) (parents : List ℕ) (principal x : ℕ) (s' : Registry) : Type 0 where
    pub semantic : ℕ
    pub acl : List ℕ
    pub life : Option Lifecycle
    pub between : Registry
    pub nonempty : is_empty parents ≡ false
    pub passed : all_valid s now principal parents ≡ ok tt
    pub id :
        x
        ≡ h.node_key Kind.knowledge
            (knowledge_payload key (next_generation (lookup key s.heads)) semantic acl life)
            (sorted_set parents)
    pub added :
        Added s x Kind.knowledge
          (knowledge_payload key (next_generation (lookup key s.heads)) semantic acl life)
          (sorted_set parents)
          between
    pub result :
        s'
        ≡ record_event
            (set_head between key
              (record { generation = next_generation (lookup key s.heads); node_id = x }))
            now
            publish_action
            (published x key (next_generation (lookup key s.heads)))

  pub publish-Published :
      (key semantic : ℕ) (parents : List ℕ) (principal : ℕ) (acl : List ℕ)
      (validity : Option Validity) {x : ℕ} {s' : Registry}
      → publish h s now key semantic parents principal acl validity ≡ ok (x, s')
      → Published key parents principal x s'
  unfolding publish
  publish-Published key semantic parents principal acl validity {x} {s'} e =
      let (some_, e1) = (both-ok (raise_if (is_empty parents) no_source_lineage) _).0 e in
      let (span, e2, e3) = bind-ok (interval validity) _ e1 in
      let (passed, e4) = (both-ok (all_valid s now principal parents) _).0 e3 in
      let life = Option.map (lifecycle_of (lookup key s.heads)) span in
      let payload =
        knowledge_payload key (next_generation (lookup key s.heads)) semantic (sorted_set acl)
          life in
      let (v, e5, e6) = bind-ok (add h s Kind.knowledge payload parents) _ e4 in
      let returned : v.0 ≡ x = ap (λ (r : ℕ × Registry). r.0) (ok-injective e6) in
      let (id, added) =
        add-Added h s Kind.knowledge payload parents
          (subst (λ y. add h s Kind.knowledge payload parents ≡ ok (y, v.1)) returned e5) in
      record {
        semantic = semantic;
        acl = sorted_set acl;
        life = life;
        between = v.1;
        nonempty = (raise_if-ok (is_empty parents) no_source_lineage).0 some_;
        passed = passed;
        id = id;
        added = added;
        result =
            subst
              (λ y.
                s'
                ≡ record_event
                    (set_head v.1 key
                      (record { generation = next_generation (lookup key s.heads); node_id = y }))
                    now publish_action (published y key (next_generation (lookup key s.heads))))
              returned (sym (ap (λ (r : ℕ × Registry). r.1) (ok-injective e6)));
      }

  pub record Derived (kind : Kind) (parents : List ℕ) (principal x : ℕ) (s' : Registry)
      : Type 0 where
    pub payload : Payload
    pub found : Found
    pub supported : is_supported kind ≡ true
    pub nonempty : is_empty parents ≡ false
    pub collected : collect s now principal parents ([], []) ≡ ok found
    pub rooted : (is_empty found.1 || is_empty found.0) ≡ false
    pub id : x ≡ h.node_key kind payload (sorted_set parents)
    pub added : Added s x kind payload (sorted_set parents) s'

  pub artifact-Derived :
      (kind : Kind) (body : ℕ) (parents : List ℕ) (principal : ℕ) {x : ℕ} {s' : Registry}
      → artifact h s now kind body parents principal ≡ ok (x, s')
      → Derived kind parents principal x s'
  unfolding artifact
  artifact-Derived kind body parents principal {x} {s'} e =
      let (a, e1) = (both-ok (raise_if (not (is_supported kind)) unsupported_kind) _).0 e in
      let (b, e2) = (both-ok (raise_if (is_empty parents) no_lineage) _).0 e1 in
      let (found, e3, e4) = bind-ok (collect s now principal parents ([], [])) _ e2 in
      let (c, e5) = (both-ok (raise_if (is_empty found.1 || is_empty found.0) no_roots) _).0 e4 in
      let (id, added) = add-Added h s kind _ parents e5 in
      record {
        payload = _;
        found = found;
        supported = ground (arith, (raise_if-ok (not (is_supported kind)) unsupported_kind).0 a);
        nonempty = (raise_if-ok (is_empty parents) no_lineage).0 b;
        collected = e3;
        rooted = (raise_if-ok (is_empty found.1 || is_empty found.0) no_roots).0 c;
        id = id;
        added = added;
      }

  pub record Committed (snap : Snapshot) (x : ℕ) (s' : Registry) : Type 0 where
    pub between : Registry
    pub passed : all_valid s now snap.principal snap.artifacts ≡ ok tt
    pub derived : Derived Kind.answer snap.artifacts snap.principal x between
    pub result : s' ≡ record_event between now commit_action (committed x)

  pub commit-Committed :
      (snap : Snapshot) (text : ℕ) {x : ℕ} {s' : Registry}
      → commit h s now snap text ≡ ok (x, s')
      → Committed snap x s'
  unfolding commit
  commit-Committed snap text {x} {s'} e =
      let (passed, e1) = (both-ok (all_valid s now snap.principal snap.artifacts) _).0 e in
      let (v, e2, e3) =
        bind-ok (artifact h s now Kind.answer (h.text_body text) snap.artifacts snap.principal) _
          e1 in
      let returned : v.0 ≡ x = ap (λ (r : ℕ × Registry). r.0) (ok-injective e3) in
      record {
        between = v.1;
        passed = passed;
        derived =
            subst (λ y. Derived Kind.answer snap.artifacts snap.principal y v.1) returned
              (artifact-Derived Kind.answer (h.text_body text) snap.artifacts snap.principal e2);
        result =
            subst (λ y. s' ≡ record_event v.1 now commit_action (committed y)) returned
              (sym (ap (λ (r : ℕ × Registry). r.1) (ok-injective e3)));
      }

-- The rows that a revocation of `x` reaches.
abbrev pub reached_by : Registry → ℕ → List ℕ
reached_by s x = closure (children_of s.edges) (keys s.nodes) x

pub revoke-result :
    (s : Registry) (now : ℤ) (x : ℕ) {affected : List ℕ} {s' : Registry}
    → revoke s now x ≡ ok (affected, s')
    → IsKnown s x
      × (affected ≡ sorted_set (reached_by s x))
      × (s'
          ≡ record_event
              (record s { nodes = mark (reached_by s x) s.nodes })
              now
              revoke_action
              (revoked_all x (reached_by s x)))
unfolding revoke node
revoke-result s now x e =
    let (n, e1, e2) = bind-ok (node s x) _ e in
    (
      keys-lookup x s.nodes {v = n} (ground (arith, Option-cases (lookup x s.nodes), e1)),
      sym (ap (λ (r : List ℕ × Registry). r.0) (ok-injective e2)),
      sym (ap (λ (r : List ℕ × Registry). r.1) (ok-injective e2)),
    )
