-- ===== src/Registry/Queries.antt =====
-- The operations that only read: `roots`, `independent_origins`, `head` and `events` of
-- neural_pods/registry.py.
use ptr_research.Common.{
  sorted_set, ℕ, Option, none, some, List, [], ◌∷◌, ◌++◌, filter, take, if◌then◌else◌, ◌==◌, nat_eq,
  lookup, Result, ok, ◌>>=◌, or_raise,
}
use ptr_research.Registry.{Node, Event, Registry, Error, unknown_key, is_origin, ancestors}

-- `n["id"] for n in … if n["kind"] == "origin"`
abbrev pub origin_ids : List (ℕ × Node) → List ℕ
origin_ids [] = []
origin_ids ((x, n) ∷ ns) = let rest = origin_ids ns in if is_origin n.kind then x ∷ rest else rest

unfoldable pub roots : Registry → ℕ → Result Error (List ℕ)
unfolding ancestors
roots s x = do ns ← ancestors s x; ok (sorted_set (origin_ids ns))

-- `roots.update(…)` for each node.
unfoldable pub gather_roots : Registry → List ℕ → Result Error (List ℕ)
unfolding roots
gather_roots s [] = ok []
gather_roots s (x ∷ xs) = do first ← roots s x; rest ← gather_roots s xs; ok (first ++ rest)

unfoldable pub independent_origins : Registry → List ℕ → Result Error (List ℕ)
unfolding gather_roots
independent_origins s xs = do found ← gather_roots s xs; ok (sorted_set found)

unfoldable pub head : Registry → ℕ → Result Error ℕ
head s key = do h ← or_raise (lookup key s.heads) unknown_key; ok h.node_id

abbrev pub with_action : Option ℕ → List Event → List Event
with_action none es = es
with_action (some action) es = filter (λ e. e.action == action) es

-- The newest event stands first already.
unfoldable pub events : Registry → Option ℕ → ℕ → List Event
events s action limit = take limit (with_action action s.events)
