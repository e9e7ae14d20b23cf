-- ===== src/Registry/Named.antt =====
-- Ids in neural_pods/registry.py: every row stands under the digest of its kind, payload and some
-- parents, so what the digest separates is separate.
use ptr_research.Common.{
  sorted_set, ℕ, ◌≡◌, sym, ap, ◌∙◌, subst, inl, inr, Option, none, some, List, [], arith, mem,
  lookup, nat_eq, ◌==◌, ==_iff, Bool-cases, Option-cases, if◌then◌else◌,
}
use ptr_research.Registry.{Registry, Node, Kind, Payload, knowledge_payload, is_knowledge}
use ptr_research.Registry.Writes.{Hashes, record_event, set_head, origin, mark}
use ptr_research.Registry.Growth.{
  Added, existing, inserted, add-Added, insert_node-row, fresh_row, mark_row, mark_row-Kept,
  lookup-mark,
}
use ptr_research.Registry.Outcomes.{
  publish-Published, artifact-Derived, commit-Committed, revoke-result, reached_by,
}
use ptr_research.Registry.History.{
  Step, originated, published, derived, committed, revoked, recorded,
}

abbrev pub payload_label : Payload → Option (ℕ × ℕ)
payload_label (knowledge_payload key generation semantic acl life) = some (key, generation)
payload_label payload = none

-- The key and the generation of a knowledge row.
abbrev pub label : Kind → Payload → Option (ℕ × ℕ)
label kind payload = if is_knowledge kind then payload_label payload else none

-- The digest separates what differs in key or generation, and knowledge from the rest.
abbrev pub Separates : Hashes → Type 0
Separates h =
    (kind kind' : Kind) (payload payload' : Payload) (ps ps' : List ℕ)
    → h.node_key kind payload ps ≡ h.node_key kind' payload' ps'
    → label kind payload ≡ label kind' payload'

abbrev pub AllNamed : Hashes → Registry → Type 0
AllNamed h s =
    (z : ℕ) (n : Node)
    → lookup z s.nodes ≡ some n
    → (ps : List ℕ) × (z ≡ h.node_key n.kind n.payload ps)

module _ (h : Hashes) (s : Registry) (named : AllNamed h s) where
  Added-AllNamed :
      (x : ℕ) (kind : Kind) (payload : Payload) (ps : List ℕ) {t : Registry}
      → x ≡ h.node_key kind payload ps
      → Added s x kind payload ps t
      → AllNamed h t
  Added-AllNamed x kind payload ps e (existing m found alive same) =
      subst (AllNamed h) (sym same) named
  Added-AllNamed x kind payload ps {t} e (inserted absent known same) = λ z n found.
      let row =
        ap (λ (u : Registry). lookup z u.nodes) same ∙ insert_node-row s x kind payload ps z in
      elim (Bool-cases (x == z)) [
        | inr other ↦ named z n (ground (arith, row, other, found))
        | inl here_ ↦
            let new_ : fresh_row s x kind payload ps ≡ n = ground (arith, row, here_, found) in
            (
              ps,
              subst (λ (m : Node). z ≡ h.node_key m.kind m.payload ps) new_
                  (sym ((==_iff x z).0 here_) ∙ e),
            )
      ]

  mark-AllNamed : (xs : List ℕ) → AllNamed h (record s { nodes = mark xs s.nodes })
  mark-AllNamed xs z n found = elim (Option-cases (lookup z s.nodes)) [
    | inl gone ↦ absurd (ground (arith, lookup-mark z xs s.nodes, gone, found))
    | inr (m, was) ↦
        let kept = mark_row-Kept (mem z xs) m in
        let same : mark_row (mem z xs) m ≡ n =
          ground (arith, lookup-mark z xs s.nodes, was, found) in
        let (ps, e) = named z m was in
        (
          ps,
          subst (λ (k : Node). z ≡ h.node_key k.kind k.payload ps) same
              (rw (kept.kind, kept.payload) e),
        )
  ]

  pub Step-AllNamed : {s' : Registry} → Step h s s' → AllNamed h s'
  unfolding origin record_event set_head
  Step-AllNamed (originated namespace record_id version content acl e) =
      let (id, added) = add-Added h s Kind.origin _ [] e in
      Added-AllNamed _ Kind.origin _ [] id added
  Step-AllNamed (published now key semantic parents principal acl validity e) =
      let p = publish-Published h s now key semantic parents principal acl validity e in
      let named' = Added-AllNamed _ Kind.knowledge _ (sorted_set parents) p.id p.added in
      subst (AllNamed h) (sym p.result) (λ z n found. named' z n found)
  Step-AllNamed (derived now kind body parents principal e) =
      let d = artifact-Derived h s now kind body parents principal e in
      Added-AllNamed _ kind _ (sorted_set parents) d.id d.added
  Step-AllNamed (committed now snap text e) =
      let c = commit-Committed h s now snap text e in
      let d = c.derived in
      let named' = Added-AllNamed _ Kind.answer _ (sorted_set snap.artifacts) d.id d.added in
      subst (AllNamed h) (sym c.result) (λ z n found. named' z n found)
  Step-AllNamed (revoked now x e) =
      subst (AllNamed h) (sym (revoke-result s now x e).2)
        (λ z n found. mark-AllNamed (reached_by s x) z n found)
  Step-AllNamed (recorded now action payload) = λ z n found. named z n found
