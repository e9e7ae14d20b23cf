-- ===== src/Registry/Tables.antt =====
-- The tables of neural_pods/registry.py as graphs: keys and rows, edges from both ends, and the
-- ancestors that the recursive query finds.
use ptr_research.Common.{
  Option-cases, ℕ, ◌≡◌, refl, true, false, none, some, List, [], ◌∷◌, arith, mem, Dict, keys,
  lookup, nat_eq, ◌==◌, ==_iff, ok, Bool-cases, inl, inr,
}
use ptr_research.Lineage.{closure}
use ptr_research.Lineage.Reached.{Trail, here, onward, closure-Trail}
use ptr_research.Registry.{Registry, Node, parents_of, children_of, node, nodes_at, ancestors}

pub mem-keys {ℓ} :
    {V : Type ℓ} (z : ℕ) (d : Dict ℕ V) → mem z (keys d) ≡ true → (v : V) × (lookup z d ≡ some v)
mem-keys z [] h = cc
mem-keys z ((j, v) ∷ d) h = elim (Bool-cases (j == z)) [
  | inl same ↦ (v, rw same refl)
  | inr other ↦
      let (w, e) = mem-keys z d (ground (arith, ==_iff z j, ==_iff j z)) in (w, rw other e)
]

pub keys-lookup {ℓ} :
    {V : Type ℓ} (z : ℕ) (d : Dict ℕ V) {v : V} → lookup z d ≡ some v → mem z (keys d) ≡ true
keys-lookup z [] h = cc
keys-lookup z ((j, w) ∷ d) {v} h = elim (Bool-cases (j == z)) [
  | inl same ↦ ground (arith, ==_iff z j, ==_iff j z)
  | inr other ↦ ground (arith, keys-lookup z d {v = v} (ground (arith, other, h)))
]

pub children-parents :
    (es : List (ℕ × ℕ)) (c p : ℕ) → mem c (children_of es p) ≡ mem p (parents_of es c)
children-parents [] c p = refl
children-parents ((a, b) ∷ es) c p =
    ground (arith, children-parents es c p, ==_iff a c, ==_iff b p, ==_iff c a, ==_iff p b)

-- `z` is an ancestor of `x`, or `x` itself.
abbrev pub Ancestor : Registry → ℕ → ℕ → Type 0
Ancestor s = Trail (parents_of s.edges)

-- The foreign keys hold: both ends of an edge are rows.
abbrev pub IsKnown : Registry → ℕ → Type 0
IsKnown s x = mem x (keys s.nodes) ≡ true

pub record HasKeys (s : Registry) : Type 0 where
  pub child_known : (c p : ℕ) → mem p (parents_of s.edges c) ≡ true → IsKnown s c
  pub parent_known : (c p : ℕ) → mem p (parents_of s.edges c) ≡ true → IsKnown s p

pub ancestors-rows :
    (s : Registry) (xs : List ℕ)
    → ((z : ℕ) → mem z xs ≡ true → IsKnown s z)
    → (ns : List (ℕ × Node)) × (nodes_at s xs ≡ ok ns)
unfolding nodes_at node
ancestors-rows s [] h = ([], refl)
ancestors-rows s (x ∷ xs) h =
    let (n, found) = mem-keys x s.nodes (h x (ground (arith, ==_iff x x))) in
    let (ns, rest) = ancestors-rows s xs (λ z e. h z (ground arith)) in
    ((x, n) ∷ ns, rw (found, rest) refl)

pub Ancestor-IsKnown :
    {s : Registry} {x z : ℕ} → HasKeys s → IsKnown s x → Ancestor s x z → IsKnown s z
Ancestor-IsKnown k h here = h
Ancestor-IsKnown k h (onward {y} {z} p e) = k.parent_known y z e

-- On tables with foreign keys the query returns, and it returns rows.
pub ancestors-returns :
    (s : Registry) (x : ℕ)
    → HasKeys s
    → IsKnown s x
    → (ns : List (ℕ × Node)) × (ancestors s x ≡ ok ns)
      × (nodes_at s (closure (parents_of s.edges) (keys s.nodes) x) ≡ ok ns)
unfolding ancestors node
ancestors-returns s x k h =
    let (n, found) = mem-keys x s.nodes h in
    let find =
      closure-Trail (parents_of s.edges) (keys s.nodes) (λ c p a e. k.parent_known c p e) x in
    let (ns, rows) =
      ancestors-rows s (closure (parents_of s.edges) (keys s.nodes) x)
        (λ z e. Ancestor-IsKnown {s = s} k h ((find z h).0 e)) in
    (ns, rw (found, rows) refl, rows)

pub lookup-absent {ℓ} :
    {V : Type ℓ} (z : ℕ) (d : Dict ℕ V) → mem z (keys d) ≡ false → lookup z d ≡ none
lookup-absent z d h = elim (Option-cases (lookup z d)) [
  | inl gone ↦ gone
  | inr (v, found) ↦ absurd (ground (arith, h, keys-lookup z d {v = v} found))
]
