-- ===== src/Registry/HeadRows.antt =====
-- What stands behind a head of neural_pods/registry.py, in every state that operations can reach.
use ptr_research.Common.{
  sorted_set, ℕ, ◌≡◌, refl, sym, ap, ◌∙◌, subst, inl, inr, some, List, [], arith, lookup, nat_eq,
  ◌==◌, ==_iff, ℤ, Bool-cases, lookup-insert, lookup-insert_other,
}
use ptr_research.Registry.{Registry, Node, Kind, Payload, Head, new_registry}
use ptr_research.Registry.Writes.{
  Hashes, next_generation, insert_node, record_event, set_head, origin,
}
use ptr_research.Registry.Tables.{HasKeys}
use ptr_research.Registry.Growth.{
  Grows, Added, existing, inserted, Added-Grows, add-Added, insert_node-row, fresh_row,
}
use ptr_research.Registry.Outcomes.{
  Published, publish-Published, artifact-Derived, commit-Committed, revoke-result,
}
use ptr_research.Registry.Named.{label, Separates, AllNamed, Step-AllNamed}
use ptr_research.Registry.History.{
  Step, originated, published, derived, committed, revoked, recorded, Run, done, next, Step-Change,
  new_registry-HasKeys,
}

-- The row behind a head has its key and its generation.
abbrev pub HeadRows : Registry → Type 0
HeadRows s =
    (key : ℕ) (hd : Head)
    → lookup key s.heads ≡ some hd
    → (n : Node) × (lookup hd.node_id s.nodes ≡ some n)
      × (label n.kind n.payload ≡ some (key, hd.generation))

HeadRows-Grows : (s t : Registry) → Grows s t → s.heads ≡ t.heads → HeadRows s → HeadRows t
HeadRows-Grows s t g e rows key hd found =
    let (n, was, lab) = rows key hd (rw e found) in
    let (n', found', kept) = g.rows hd.node_id n was in
    (n', found', rw (kept.kind, kept.payload) lab)

pub Added-heads :
    (s : Registry) (x : ℕ) (kind : Kind) (payload : Payload) (ps : List ℕ) {t : Registry}
    → Added s x kind payload ps t
    → s.heads ≡ t.heads
unfolding insert_node
Added-heads s x kind payload ps (existing n found alive e) = ap (λ (u : Registry). u.heads) (sym e)
Added-heads s x kind payload ps (inserted absent known e) = ap (λ (u : Registry). u.heads) (sym e)

-- The row of `_add`, whether it is new or was there, has the label that was asked for.
Added-label :
    (h : Hashes) (s : Registry) (x : ℕ) (kind : Kind) (payload : Payload) (ps : List ℕ)
    {t : Registry}
    → Separates h
    → AllNamed h s
    → x ≡ h.node_key kind payload ps
    → Added s x kind payload ps t
    → (n : Node) × (lookup x t.nodes ≡ some n) × (label n.kind n.payload ≡ label kind payload)
Added-label h s x kind payload ps apart named e (existing n found alive same) =
    let (qs, e') = named x n found in
    (
      n,
      ap (λ (u : Registry). lookup x u.nodes) same ∙ found,
      apart n.kind kind n.payload payload qs ps (sym e' ∙ e),
    )
Added-label h s x kind payload ps apart named e (inserted absent known same) = (
  fresh_row s x kind payload ps,
  ap (λ (u : Registry). lookup x u.nodes) same
      ∙ ground (arith, insert_node-row s x kind payload ps x, ==_iff x x),
  refl,
)

module _ (h : Hashes) (apart : Separates h) where
  Published-HeadRows :
      (s : Registry) (now : ℤ) (key : ℕ) (parents : List ℕ) (principal x : ℕ) (s' : Registry)
      → AllNamed h s
      → HeadRows s
      → Published h s now key parents principal x s'
      → HeadRows s'
  unfolding set_head record_event
  Published-HeadRows s now key parents principal x s' named rows p =
      let between = p.between in
      let old =
        HeadRows-Grows s between (Added-Grows s x Kind.knowledge _ (sorted_set parents) p.added)
          (Added-heads s x Kind.knowledge _ (sorted_set parents) p.added) rows in
      let head : Head = record { generation = next_generation (lookup key s.heads); node_id = x } in
      let mine = Added-label h s x Kind.knowledge _ (sorted_set parents) apart named p.id p.added in
      subst HeadRows (sym p.result) (λ other hd found. elim (Bool-cases (key == other)) [
        | inr elsewhere ↦
            old other hd (sym (lookup-insert_other key other head between.heads elsewhere) ∙ found)
        | inl here_ ↦
            let same : head ≡ hd =
              ground (arith, lookup-insert key other head between.heads, here_, found) in
            subst
              (λ (g : Head).
                (n : Node) × (lookup g.node_id between.nodes ≡ some n)
                × (label n.kind n.payload ≡ some (other, g.generation)))
              same
              (subst
                (λ (k : ℕ).
                  (n : Node) × (lookup x between.nodes ≡ some n)
                  × (label n.kind n.payload ≡ some (k, head.generation)))
                ((==_iff key other).0 here_) mine)
      ])

  Step-HeadRows :
      {s s' : Registry} → HasKeys s → AllNamed h s → HeadRows s → Step h s s' → HeadRows s'
  unfolding origin record_event set_head
  Step-HeadRows {s} {s'} k named rows (originated namespace record_id version content acl e) =
      let added = (add-Added h s Kind.origin _ [] e).1 in
      HeadRows-Grows s s' (Added-Grows s _ Kind.origin _ [] added)
        (Added-heads s _ Kind.origin _ [] added) rows
  Step-HeadRows {s} {s'} k named rows
        (published now key semantic parents principal acl validity {x} e) =
      Published-HeadRows s now key parents principal x s' named rows
        (publish-Published h s now key semantic parents principal acl validity e)
  Step-HeadRows {s} {s'} k named rows (derived now kind body parents principal e) =
      let added = (artifact-Derived h s now kind body parents principal e).added in
      HeadRows-Grows s s' (Added-Grows s _ kind _ (sorted_set parents) added)
        (Added-heads s _ kind _ (sorted_set parents) added) rows
  Step-HeadRows {s} {s'} k named rows (committed now snap text e) =
      let c = commit-Committed h s now snap text e in
      let d = c.derived in
      let grown =
        HeadRows-Grows s c.between
          (Added-Grows s _ Kind.answer _ (sorted_set snap.artifacts) d.added)
          (Added-heads s _ Kind.answer _ (sorted_set snap.artifacts) d.added) rows in
      subst HeadRows (sym c.result) (λ key hd found. grown key hd found)
  Step-HeadRows {s} {s'} k named rows (revoked now x e) =
      HeadRows-Grows s s' (Step-Change {h = h} {s = s} {s' = s'} k (revoked now x e)).grows
        (ap (λ (u : Registry). u.heads) (sym (revoke-result s now x e).2)) rows
  Step-HeadRows {s} k named rows (recorded now action payload) = λ key hd found. rows key hd found

  pub record Sound (s : Registry) : Type 0 where
    pub keys_hold : HasKeys s
    pub named : AllNamed h s
    pub heads_hold : HeadRows s

  pub Run-Sound : {s t : Registry} → Sound s → Run h s t → Sound t
  Run-Sound sound done = sound
  Run-Sound sound (next {t} r step) =
      let before = Run-Sound sound r in
      record {
        keys_hold = (Step-Change before.keys_hold step).keys_hold;
        named = Step-AllNamed h t before.named step;
        heads_hold = Step-HeadRows before.keys_hold before.named before.heads_hold step;
      }

  new_registry-Sound : Sound new_registry
  unfolding new_registry
  new_registry-Sound = record {
    keys_hold = new_registry-HasKeys;
    named = λ z n found. cc;
    heads_hold = λ key hd found. cc;
  }

  pub reachable-Sound : {s : Registry} → Run h new_registry s → Sound s
  reachable-Sound r = Run-Sound new_registry-Sound r
