-- ===== src/Replication/Reads.antt =====
-- `QuorumReplicator.read` and `health` of neural_pods/replication.py.
use ptr_research.Common.{
  ℕ, suc, Bool, Option, none, some, List, [], ◌∷◌, if◌then◌else◌, leb, ℤ, ltb_ℤ, Dict, lookup,
  insert, count, nat_eq,
}
use ptr_research.Replication.{Record, Replicas, Replicator}

-- The rows that the replicas give back, of which those that are down give none.
abbrev pub found : Option ℕ → Option Record → List Record → List Record
found none (some r) rest = r ∷ rest
found none none rest = rest
found (some e) row rest = rest

unfoldable pub gather : (ℕ → Option ℕ) → ℕ → Replicas → List Record
gather down key [] = []
gather down key ((name, t) ∷ ts) = found (down name) (lookup key t) (gather down key ts)

-- `max(records, key=revision)`: the first of the largest.
unfoldable pub latest : Record → List Record → Record
latest best [] = best
latest best (r ∷ rs) = latest (if ltb_ℤ best.revision r.revision then r else best) rs

abbrev pub larger : ℤ → ℤ → ℤ
larger a b = if ltb_ℤ a b then b else a

abbrev pub unless_deleted : Record → Option Record
unless_deleted r = if r.deleted then none else some r

abbrev pub settled : Replicator → ℕ → Record → Option Record × Replicator
settled s key winner = (
  unless_deleted winner,
  record s { revisions = insert key (larger (count key s.revisions) winner.revision) s.revisions },
)

unfoldable pub read_from : Replicator → ℕ → List Record → Option Record × Replicator
unfolding latest
read_from s key [] = (none, s)
read_from s key (r ∷ rs) = settled s key (latest r rs)

unfoldable pub read : Replicator → (ℕ → Option ℕ) → ℕ → Option Record × Replicator
unfolding gather
read s down key = read_from s key (gather down key s.replicas)

-- How many replicas answer.
abbrev pub up : Option ℕ → ℕ → ℕ
up none n = suc n
up (some e) n = n

unfoldable pub answering : (ℕ → Option ℕ) → Replicas → ℕ
answering down [] = 0
answering down ((name, t) ∷ ts) = up (down name) (answering down ts)

pub record Health : Type 0 where
  pub states : Dict ℕ (Option ℕ)
  pub quorum : ℕ
  pub available : Bool

abbrev states_of : (ℕ → Option ℕ) → Replicas → Dict ℕ (Option ℕ)
states_of down [] = []
states_of down ((name, t) ∷ ts) = (name, down name) ∷ states_of down ts

unfoldable pub health : Replicator → (ℕ → Option ℕ) → Health
unfolding answering
health s down = record {
  states = states_of down s.replicas;
  quorum = s.quorum;
  available = leb s.quorum (answering down s.replicas);
}
