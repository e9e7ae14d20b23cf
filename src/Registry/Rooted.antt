-- ===== src/Registry/Rooted.antt =====
-- Provenance in neural_pods/registry.py: every row of a reachable registry goes back to an origin.
use ptr_research.Common.{
  mem-sorted_set, is_empty, sorted_set, ℕ, ◌≡◌, refl, sym, ap, ◌∙◌, subst, ◌↔◌, ◌⊎◌, inl, inr, true,
  false, ◌&&◌, Bool, none, some, List, [], ◌∷◌, arith, mem, keys, lookup, nat_eq, ◌==◌, ==_iff, ok,
  Bool-cases, Option-cases, Result-cases, ok-injective,
}
use ptr_research.Lineage.{closure}
use ptr_research.Lineage.Reached.{here, onward, prepend, closure-Trail}
use ptr_research.Registry.{
  Registry, Node, Kind, Payload, new_registry, is_origin, parents_of, nodes_at, node,
}
use ptr_research.Registry.Writes.{Hashes, insert_node, record_event, set_head, origin}
use ptr_research.Registry.Queries.{origin_ids, roots}
use ptr_research.Registry.Tables.{
  HasKeys, IsKnown, Ancestor, mem-keys, keys-lookup, ancestors-returns,
}
use ptr_research.Registry.Growth.{
  parents-insert_node, insert_node-row, insert_node-Grows, Grows-same, Grows-refl, fresh_row, Grows,
  Added, existing, inserted, add-Added, keys-mark,
}
use ptr_research.Registry.Outcomes.{
  publish-Published, artifact-Derived, commit-Committed, revoke-result, reached_by,
}
use ptr_research.Registry.History.{
  Step, originated, published, derived, committed, revoked, recorded, Run, done, next, Run-Change,
  Step-Change, new_registry-HasKeys,
}

-- An origin above the row `z`.
pub record OriginAbove (s : Registry) (z o : ℕ) : Type 0 where
  pub above : Ancestor s z o
  pub row : Node
  pub found : lookup o s.nodes ≡ some row
  pub origin : is_origin row.kind ≡ true

abbrev pub Rooted : Registry → ℕ → Type 0
Rooted s z = (o : ℕ) × OriginAbove s z o

Ancestor-Grows : {s t : Registry} {z o : ℕ} → Grows s t → Ancestor s z o → Ancestor t z o
Ancestor-Grows g here = here
Ancestor-Grows g (onward {y} {z = w} p e) = onward (Ancestor-Grows g p) (g.parents y w e)

Rooted-Grows : {s t : Registry} (z : ℕ) → Grows s t → Rooted s z → Rooted t z
Rooted-Grows z g (o, a) =
    let (n', found', kept) = g.rows o a.row a.found in
    (
      o,
      record {
        above = Ancestor-Grows g a.above;
        row = n';
        found = found';
        origin = rw kept.kind a.origin;
      },
    )

-- The row of a parent is below an origin, so the new row is.
below : {s : Registry} {x p : ℕ} → mem p (parents_of s.edges x) ≡ true → Rooted s p → Rooted s x
below e (o, a) =
    (o, record { above = prepend e a.above; row = a.row; found = a.found; origin = a.origin })

first_of : (xs : List ℕ) → is_empty xs ≡ false → (p : ℕ) × (mem p xs ≡ true)
first_of [] h = cc
first_of (x ∷ xs) h = (x, ground (arith, ==_iff x x))

module _ (s : Registry) (x : ℕ) (kind : Kind) (payload : Payload) (ps : List ℕ)
    (rooted : (z : ℕ) → IsKnown s z → Rooted s z)
    (enough : (is_origin kind ≡ true) ⊎ ((p : ℕ) × (mem p ps ≡ true))) where
  abbrev t : Registry
  t = insert_node s x kind payload ps

  insert_node-Rooted :
      lookup x s.nodes ≡ none
      → ((z : ℕ) → mem z ps ≡ true → IsKnown s z)
      → (z : ℕ) → IsKnown t z
      → Rooted t z
  insert_node-Rooted absent parent_known z known =
      let g = insert_node-Grows s x kind payload ps absent in
      elim (Bool-cases (x == z)) [
        | inr other ↦
            let (n, found) = mem-keys z t.nodes known in
            Rooted-Grows z g (
              rooted z (
                keys-lookup z s.nodes {v = n}
                  (ground (arith, insert_node-row s x kind payload ps z, other, found))))
        | inl same ↦ subst (Rooted t) ((==_iff x z).0 same) (elim enough [
          | inl first ↦ (
            x,
            record {
              above = here;
              row = fresh_row s x kind payload ps;
              found = ground (arith, insert_node-row s x kind payload ps x, ==_iff x x);
              origin = first;
            },
          )
          | inr (p, among) ↦
              below {s = t} {x = x} {p = p}
                (ground (arith, parents-insert_node s x x p kind payload ps, ==_iff x x))
                (Rooted-Grows p g (rooted p (parent_known p among)))
        ])
      ]

  -- A row in the new tables is old, or it is the new one, an origin or a child of a known row.
  Added-Rooted : {u : Registry} → Added s x kind payload ps u → (z : ℕ) → IsKnown u z → Rooted u z
  Added-Rooted (existing n found alive e) =
      subst (λ v. (z : ℕ) → IsKnown v z → Rooted v z) (sym e) rooted
  Added-Rooted (inserted absent parent_known e) =
      subst (λ v. (z : ℕ) → IsKnown v z → Rooted v z) (sym e)
        (insert_node-Rooted absent parent_known)

some_parent : (ps : List ℕ) → is_empty ps ≡ false → (p : ℕ) × (mem p (sorted_set ps) ≡ true)
some_parent ps h = let (p, among) = first_of ps h in (p, mem-sorted_set p ps ∙ among)

-- Only nodes and edges matter.
Rooted-same :
    {s t : Registry} (z : ℕ) → s.nodes ≡ t.nodes → s.edges ≡ t.edges → Rooted s z → Rooted t z
Rooted-same {s} z n e = Rooted-Grows z (Grows-same n e (Grows-refl s))

abbrev pub AllRooted : Registry → Type 0
AllRooted s = (z : ℕ) → IsKnown s z → Rooted s z

Step-AllRooted :
    {h : Hashes} {s s' : Registry} → HasKeys s → AllRooted s → Step h s s' → AllRooted s'
unfolding origin record_event set_head
Step-AllRooted {h} {s} k r (originated namespace record_id version content acl e) =
    let (id, added) = add-Added h s Kind.origin _ [] e in
    Added-Rooted s _ Kind.origin _ [] r (inl refl) added
Step-AllRooted {h} {s} k r (published now key semantic parents principal acl validity e) =
    let p = publish-Published h s now key semantic parents principal acl validity e in
    let rooted =
      Added-Rooted s _ Kind.knowledge _ (sorted_set parents) r
        (inr (some_parent parents p.nonempty)) p.added in
    subst AllRooted (sym p.result) (λ z known. Rooted-same z refl refl (rooted z known))
Step-AllRooted {h} {s} k r (derived now kind body parents principal e) =
    let d = artifact-Derived h s now kind body parents principal e in
    Added-Rooted s _ kind _ (sorted_set parents) r (inr (some_parent parents d.nonempty)) d.added
Step-AllRooted {h} {s} k r (committed now snap text e) =
    let c = commit-Committed h s now snap text e in
    let d = c.derived in
    let rooted =
      Added-Rooted s _ Kind.answer _ (sorted_set snap.artifacts) r
        (inr (some_parent snap.artifacts d.nonempty)) d.added in
    subst AllRooted (sym c.result) (λ z known. Rooted-same z refl refl (rooted z known))
Step-AllRooted {h} {s} {s'} k r (revoked now x e) =
    let result = (revoke-result s now x e).2 in
    let grows = (Step-Change {h = h} {s = s} {s' = s'} k (revoked now x e)).grows in
    λ z known. Rooted-Grows z grows (
      r z (subst (λ ks. mem z ks ≡ true) (keys-mark (reached_by s x) s.nodes) (rw result at known)))
Step-AllRooted {h} {s} k r (recorded now action payload) =
    λ z known. Rooted-same z refl refl (r z known)

Run-AllRooted : {h : Hashes} {s : Registry} → Run h new_registry s → AllRooted s
unfolding new_registry
Run-AllRooted done = λ z known. cc
Run-AllRooted (next r step) =
    Step-AllRooted (Run-Change new_registry-HasKeys r).keys_hold (Run-AllRooted r) step

origin_row : Registry → ℕ → Bool
origin_row s o = elim (lookup o s.nodes) [ none ↦ false | some n ↦ is_origin n.kind ]

row_of : (s : Registry) (z o : ℕ) → Ancestor s z o → origin_row s o ≡ true → OriginAbove s z o
unfolding origin_row
row_of s z o a e = elim (Option-cases (lookup o s.nodes)) [
  | inl gone ↦ absurd (ground (arith, gone, e))
  | inr (n, found) ↦ record { above = a; row = n; found = found; origin = ground (arith, found, e) }
]

origin_row-true : (s : Registry) (z o : ℕ) → OriginAbove s z o → origin_row s o ≡ true
unfolding origin_row
origin_row-true s z o a = ground (arith, a.found, a.origin)

origin_ids-origins :
    (s : Registry) (o : ℕ) (xs : List ℕ) (ns : List (ℕ × Node))
    → nodes_at s xs ≡ ok ns
    → mem o (origin_ids ns) ≡ (mem o xs && origin_row s o)
unfolding nodes_at node origin_row
origin_ids-origins s o [] ns e = subst (λ ms. mem o (origin_ids ms) ≡ false) (ok-injective e) refl
origin_ids-origins s o (x ∷ xs) ns e = elim (Option-cases (lookup x s.nodes)) [
  | inl gone ↦ absurd (ground (arith, gone, e))
  | inr (n, found) ↦ elim (Result-cases (nodes_at s xs)) [
    | inr (stop, failed) ↦ absurd (ground (arith, found, failed, e))
    | inl (ms, rows) ↦
        let split : (x, n) ∷ ms ≡ ns = ground (arith, found, rows, e) in
        subst (λ ls. mem o (origin_ids ls) ≡ (mem o (x ∷ xs) && origin_row s o)) split
          (elim (Bool-cases (o == x)) [
            | inl same ↦ ground (
              arith,
              origin_ids-origins s o xs ms rows,
              same,
              found,
              ap (λ v. lookup v s.nodes) ((==_iff o x).0 same),
            )
            | inr other ↦ ground (arith, origin_ids-origins s o xs ms rows, other)
          ])
  ]
]

is_empty_member : (o : ℕ) (xs : List ℕ) → mem o xs ≡ true → is_empty xs ≡ false
is_empty_member o [] h = cc
is_empty_member o (x ∷ xs) h = refl

-- In a reachable registry `roots` returns for every row, at least one id, and exactly the ids of
-- the origin rows among its ancestors.
pub reachable-roots :
    (h : Hashes) (s : Registry) (z : ℕ)
    → Run h new_registry s
    → IsKnown s z
    → (os : List ℕ) × (roots s z ≡ ok os)
      × (is_empty os ≡ false)
      × ((o : ℕ) → (mem o os ≡ true) ↔ OriginAbove s z o)
unfolding roots
reachable-roots h s z r known =
    let k = (Run-Change new_registry-HasKeys r).keys_hold in
    let (ns, returns, rows) = ancestors-returns s z k known in
    let find =
      closure-Trail (parents_of s.edges) (keys s.nodes) (λ c p a e. k.parent_known c p e) z in
    let rows_above = closure (parents_of s.edges) (keys s.nodes) z in
    let exact =
      λ (o : ℕ). mem-sorted_set o (origin_ids ns) ∙ origin_ids-origins s o rows_above ns rows in
    let there = λ (o : ℕ) (a : OriginAbove s z o).
      exact o ∙ ground (arith, (find o known).1 a.above, origin_row-true s z o a) in
    let (first, above) = Run-AllRooted r z known in
    (
      sorted_set (origin_ids ns),
      rw returns refl,
      is_empty_member first (sorted_set (origin_ids ns)) (there first above),
      λ o. (
        λ m.
            row_of s z o ((find o known).0 (ground (arith, exact o, m)))
              (ground (arith, exact o, m)),
        there o,
      ),
    )
