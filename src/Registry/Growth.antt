-- ===== src/Registry/Growth.antt =====
-- What the writes of neural_pods/registry.py do to rows and edges: nothing is removed, and a row
-- keeps its kind and payload and stays revoked.
use ptr_research.Common.{
  sorted_set, none-ne-some, ℕ, ◌≡◌, refl, sym, ap, ◌∙◌, subst, inl, inr, Bool, true, false, ◌||◌,
  ◌&&◌, none, some, List, [], ◌∷◌, ◌++◌, map, arith, mem, mem-append, keys, lookup, Dict, adjust,
  nat_eq, ◌==◌, ==_iff, if◌then◌else◌, lookup-insert, lookup-adjust, ok, Bool-cases, Option-cases,
  Result-cases,
}
use mathlib.Core.Option
use ptr_research.Registry.{Registry, Node, Kind, Payload, parents_of, node}
use ptr_research.Registry.Writes.{Hashes, all_known, insert_node, add, mark}
use ptr_research.Registry.Tables.{HasKeys, IsKnown, mem-keys, keys-lookup}

parents-append :
    (es fs : List (ℕ × ℕ)) (c : ℕ) → parents_of (es ++ fs) c ≡ parents_of es c ++ parents_of fs c
parents-append [] fs c = refl
parents-append ((a, p) ∷ es) fs c = ground (arith, parents-append es fs c)

parents-map :
    (x c : ℕ) (ps : List ℕ) → parents_of (map (λ p. (x, p)) ps) c ≡ (if x == c then ps else [])
parents-map x c [] = ground arith
parents-map x c (p ∷ ps) = ground (arith, parents-map x c ps)

-- The parents after a row is inserted.
pub parents-insert_node :
    (s : Registry) (x c p : ℕ) (kind : Kind) (payload : Payload) (ps : List ℕ)
    → mem p (parents_of (insert_node s x kind payload ps).edges c)
      ≡ (mem p (parents_of s.edges c) || (x == c && mem p ps))
unfolding insert_node
parents-insert_node s x c p kind payload ps =
    ap (mem p) (parents-append s.edges (map (λ q. (x, q)) ps) c)
    ∙ ground (
      arith,
      mem-append p (parents_of s.edges c) (parents_of (map (λ q. (x, q)) ps) c),
      ap (mem p) (parents-map x c ps),
    )

-- A later row: the same kind and payload, and revoked if the earlier one was.
pub record Kept (n n' : Node) : Type 0 where
  pub kind : n'.kind ≡ n.kind
  pub payload : n'.payload ≡ n.payload
  pub revoked : n.revoked ≡ true → n'.revoked ≡ true

pub record Grows (s s' : Registry) : Type 0 where
  pub rows :
      (z : ℕ) (n : Node)
      → lookup z s.nodes ≡ some n
      → (n' : Node) × (lookup z s'.nodes ≡ some n') × Kept n n'
  pub parents :
      (c p : ℕ) → mem p (parents_of s.edges c) ≡ true → mem p (parents_of s'.edges c) ≡ true

pub Grows-refl : (s : Registry) → Grows s s
Grows-refl s = record {
  rows = λ z n e. (n, e, record { kind = refl; payload = refl; revoked = λ r. r });
  parents = λ c p e. e;
}

pub Grows-trans : {s t u : Registry} → Grows s t → Grows t u → Grows s u
Grows-trans a b = record {
  rows = λ z n e.
      let (m, found, kept) = a.rows z n e in
      let (k, found', kept') = b.rows z m found in
      (
        k,
        found',
        record {
          kind = kept'.kind ∙ kept.kind;
          payload = kept'.payload ∙ kept.payload;
          revoked = λ r. kept'.revoked (kept.revoked r);
        },
      );
  parents = λ c p e. b.parents c p (a.parents c p e);
}

pub Grows-IsKnown : {s t : Registry} (z : ℕ) → Grows s t → IsKnown s z → IsKnown t z
Grows-IsKnown {s} {t} z g h =
    let (n, found) = mem-keys z s.nodes h in
    let (n', found', kept) = g.rows z n found in keys-lookup z t.nodes found'

-- Only nodes and edges matter for growth and for the foreign keys.
pub HasKeys-same : {s t : Registry} → s.nodes ≡ t.nodes → s.edges ≡ t.edges → HasKeys s → HasKeys t
HasKeys-same {s} {t} n e k = record {
  child_known = λ c p h. subst (λ d. mem c (keys d) ≡ true) n (k.child_known c p (rw e h));
  parent_known = λ c p h. subst (λ d. mem p (keys d) ≡ true) n (k.parent_known c p (rw e h));
}

pub Grows-same : {s t u : Registry} → t.nodes ≡ u.nodes → t.edges ≡ u.edges → Grows s t → Grows s u
Grows-same {s} {t} {u} n e g = record {
  rows = λ z m h. let (m', found, kept) = g.rows z m h in (m', rw (← n) found, kept);
  parents = λ c p h. rw (← e) (g.parents c p h);
}

module _ (s : Registry) (x : ℕ) (kind : Kind) (payload : Payload) (ps : List ℕ) where
  abbrev pub fresh_row : Node
  fresh_row = record { kind = kind; payload = payload; revoked = false }

  pub insert_node-row :
      (z : ℕ)
      → lookup z (insert_node s x kind payload ps).nodes
        ≡ (if x == z then some fresh_row else lookup z s.nodes)
  unfolding insert_node
  insert_node-row z = lookup-insert x z fresh_row s.nodes

  pub insert_node-Grows : lookup x s.nodes ≡ none → Grows s (insert_node s x kind payload ps)
  insert_node-Grows absent = record {
    rows = λ z n h. elim (Bool-cases (x == z)) [
      | inl same ↦
          absurd
            (none-ne-some (sym absent ∙ (ap (λ v. lookup v s.nodes) ((==_iff x z).0 same) ∙ h)))
      | inr other ↦ (
        n,
        rw (insert_node-row z, other) h,
        record { kind = refl; payload = refl; revoked = λ r. r },
      )
    ];
    parents = λ c p h. ground (arith, parents-insert_node s x c p kind payload ps);
  }

  pub insert_node-HasKeys :
      HasKeys s
      → lookup x s.nodes ≡ none
      → ((z : ℕ) → mem z ps ≡ true → IsKnown s z)
      → HasKeys (insert_node s x kind payload ps)
  insert_node-HasKeys k absent known =
      let g = insert_node-Grows absent in
      let s' = insert_node s x kind payload ps in
      let new_known : IsKnown s' x =
        keys-lookup x s'.nodes {v = fresh_row} (ground (arith, insert_node-row x, ==_iff x x)) in
      let split = λ (c p : ℕ). parents-insert_node s x c p kind payload ps in
      record {
        child_known = λ c p h. elim (Bool-cases (mem p (parents_of s.edges c))) [
          | inl old ↦ Grows-IsKnown c g (k.child_known c p old)
          | inr no_ ↦ subst (IsKnown s') ((==_iff x c).0 (ground (arith, split c p, h))) new_known
        ];
        parent_known = λ c p h. elim (Bool-cases (mem p (parents_of s.edges c))) [
          | inl old ↦ Grows-IsKnown p g (k.parent_known c p old)
          | inr no_ ↦ Grows-IsKnown p g (known p (ground (arith, split c p, h)))
        ];
      }

-- What `_add` did: nothing, as the row is there and stands, or one new row below known parents.
pub data Added (s : Registry) (x : ℕ) (kind : Kind) (payload : Payload) (ps : List ℕ)
    (s' : Registry) : Type 0 where
  existing :
      (n : Node)
      → lookup x s.nodes ≡ some n
      → n.revoked ≡ false
      → s' ≡ s
      → Added s x kind payload ps s'
  inserted :
      lookup x s.nodes ≡ none
      → ((z : ℕ) → mem z ps ≡ true → IsKnown s z)
      → s' ≡ insert_node s x kind payload ps
      → Added s x kind payload ps s'

all_known-lem :
    (s : Registry) (xs : List ℕ) → all_known s xs ≡ ok tt → (z : ℕ) → mem z xs ≡ true → IsKnown s z
unfolding node
all_known-lem s [] h z m = cc
all_known-lem s (x ∷ xs) h z m = elim (Option-cases (lookup x s.nodes)) [
  | inl gone ↦ absurd (ground (arith, gone, h))
  | inr (n, found) ↦ elim (Bool-cases (z == x)) [
    | inl same ↦ subst (IsKnown s) (sym ((==_iff z x).0 same)) (keys-lookup x s.nodes {v = n} found)
    | inr other ↦ all_known-lem s xs (ground (arith, found, h)) z (ground arith)
  ]
]

pub add-Added :
    (h : Hashes) (s : Registry) (kind : Kind) (payload : Payload) (parents : List ℕ) {x : ℕ}
    {s' : Registry}
    → add h s kind payload parents ≡ ok (x, s')
    → (x ≡ h.node_key kind payload (sorted_set parents))
      × Added s x kind payload (sorted_set parents) s'
unfolding add
add-Added h s kind payload parents {x} {s'} e =
    let k = h.node_key kind payload (sorted_set parents) in
    elim (Option-cases (lookup k s.nodes)) [
      | inl gone ↦ elim (Result-cases (all_known s (sorted_set parents))) [
        | inr (stop, failed) ↦ absurd (ground (arith, gone, failed, e))
        | inl (done, passed) ↦
            let same : x ≡ k = ground (arith, gone, passed, e) in
            (
              same,
              inserted (rw same gone) (all_known-lem s (sorted_set parents) passed)
                  (ground (arith, gone, passed, e)),
            )
      ]
      | inr (n, found) ↦ elim (Bool-cases n.revoked) [
        | inl dead ↦ absurd (ground (arith, found, dead, e))
        | inr alive ↦
            let same : x ≡ k = ground (arith, found, alive, e) in
            (same, existing n (rw same found) alive (ground (arith, found, alive, e)))
      ]
    ]

module _ (s : Registry) (x : ℕ) (kind : Kind) (payload : Payload) (ps : List ℕ) where
  pub Added-Grows : {s' : Registry} → Added s x kind payload ps s' → Grows s s'
  Added-Grows (existing n found alive e) = subst (Grows s) (sym e) (Grows-refl s)
  Added-Grows (inserted absent known e) =
      subst (Grows s) (sym e) (insert_node-Grows s x kind payload ps absent)

  pub Added-HasKeys : {s' : Registry} → HasKeys s → Added s x kind payload ps s' → HasKeys s'
  Added-HasKeys k (existing n found alive e) = subst HasKeys (sym e) k
  Added-HasKeys k (inserted absent known e) =
      subst HasKeys (sym e) (insert_node-HasKeys s x kind payload ps k absent known)

-- A row after a revocation that reaches it, or does not.
abbrev pub mark_row : Bool → Node → Node
mark_row true n = record n { revoked = true }
mark_row false n = n

pub mark_row-Kept : (b : Bool) (n : Node) → Kept n (mark_row b n)
mark_row-Kept true n = record { kind = refl; payload = refl; revoked = λ r. refl }
mark_row-Kept false n = record { kind = refl; payload = refl; revoked = λ r. r }

mark_twice : (b : Bool) (n : Node) → mark_row b (mark_row true n) ≡ mark_row true n
mark_twice true n = refl
mark_twice false n = refl

keys-adjust : (x : ℕ) (f : Node → Node) (d : Dict ℕ Node) → keys (adjust x f d) ≡ keys d
keys-adjust x f [] = refl
keys-adjust x f ((j, n) ∷ d) = ground (arith, keys-adjust x f d)

pub keys-mark : (xs : List ℕ) (d : Dict ℕ Node) → keys (mark xs d) ≡ keys d
keys-mark [] d = refl
keys-mark (x ∷ xs) d = keys-mark xs (adjust x (mark_row true) d) ∙ keys-adjust x (mark_row true) d

pub lookup-mark :
    (z : ℕ) (xs : List ℕ) (d : Dict ℕ Node)
    → lookup z (mark xs d) ≡ Option.map (mark_row (mem z xs)) (lookup z d)
lookup-mark z [] d = elim (lookup z d) as (λ o. o ≡ Option.map (mark_row false) o) [
  | none ↦ refl
  | some n ↦ refl
]
lookup-mark z (x ∷ xs) d =
    lookup-mark z xs (adjust x (mark_row true) d) ∙ elim (Option-cases (lookup z d)) [
      | inl gone ↦ ground (arith, gone, lookup-adjust x z (mark_row true) d)
      | inr (n, found) ↦ ground (
        arith,
        found,
        lookup-adjust x z (mark_row true) d,
        ==_iff x z,
        ==_iff z x,
        mark_twice (mem z xs) n,
      )
    ]
