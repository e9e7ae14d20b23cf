-- ===== src/Lineage.antt =====
-- The recursive SQL queries of neural_pods/registry.py: rows are taken from a queue, and `UNION`
-- keeps the neighbours that no earlier row has. `step` gives the neighbours of a row.
pub mod Reached
use ptr_research.Common.{ℕ, zero, suc, Bool, List, [], ◌∷◌, ◌++◌, length, mem, if◌then◌else◌}

-- The rows among `ys` that are new, each once.
abbrev pub fresh : List ℕ → List ℕ → List ℕ
fresh seen [] = []
fresh seen (y ∷ ys) = let rest = fresh (y ∷ seen) ys in if mem y seen then rest else y ∷ rest

unfoldable pub walk : (ℕ → List ℕ) → ℕ → List ℕ → List ℕ → List ℕ
walk step zero queue seen = seen
walk step (suc n) [] seen = seen
walk step (suc n) (x ∷ queue) seen =
    walk step n (queue ++ fresh seen (step x)) (seen ++ fresh seen (step x))

-- The rows that a query finds from `x`. Each row of the table is taken at most once, so the size
-- of the table is enough fuel.
unfoldable pub closure : (ℕ → List ℕ) → List ℕ → ℕ → List ℕ
unfolding walk
closure step table x = walk step (length table) (x ∷ []) (x ∷ [])
