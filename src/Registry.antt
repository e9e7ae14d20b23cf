-- ===== src/Registry.antt =====
-- `Registry` of neural_pods/registry.py: the tables of the lineage graph and the checks on them.
-- Node ids, keys, principals and other texts are numbers in their order, and 0 is the principal
-- `*`. An operation runs in one transaction: it returns its value and the new tables, or an error,
-- after which the tables are as before. The clock is read once for each operation, as `now`.
pub mod Writes
pub mod Queries
pub mod Tables
pub mod Usable
pub mod Growth
pub mod Outcomes
pub mod History
pub mod Revocation
pub mod Rooted
pub mod Named
pub mod HeadRows
pub mod Heads
mod Tests
use ptr_research.Common.{
  ℕ, ◌+◌, Bool, true, false, ◌&&◌, ◌||◌, Option, none, some, List, [], ◌∷◌, ◌++◌, if◌then◌else◌,
  ltb, ◌==◌, not, mem, Dict, keys, lookup, nat_eq, Result, ok, err, ◌>>=◌, ◌>>◌, raise_if, or_raise,
  ℤ, ltb_ℤ, leb_ℤ,
}
use ptr_research.Lineage.{closure}

pub data Kind : Type 0 where
  origin knowledge lora model vector text jspace cache answer router : Kind
  embedding ranker speculator runtime policy quantization vision : Kind
  other : ℕ → Kind

abbrev pub is_origin : Kind → Bool
is_origin origin = true
is_origin _ = false

abbrev pub is_knowledge : Kind → Bool
is_knowledge knowledge = true
is_knowledge _ = false

-- The interval in UTC, and the node that was the head before.
pub record Lifecycle : Type 0 where
  pub valid_from : Option ℤ
  pub valid_until : Option ℤ
  pub supersedes : Option ℕ

pub data Payload : Type 0 where
  origin_payload : (namespace record_id version content_hash : ℕ) (acl : List ℕ) → Payload
  knowledge_payload :
      (knowledge_key generation semantic : ℕ) (acl : List ℕ) (lifecycle : Option Lifecycle)
      → Payload
  artifact_payload :
      (body : ℕ) (origin_keys : List ℕ) (generations : Dict ℕ (ℕ × ℕ))
      (parent_artifact_keys : List ℕ) (derivation_hash : ℕ)
      → Payload

pub record Node : Type 0 where
  pub kind : Kind
  pub payload : Payload
  pub revoked : Bool

pub record Head : Type 0 where
  pub generation : ℕ
  pub node_id : ℕ

pub data EventPayload : Type 0 where
  published : (node knowledge generation : ℕ) → EventPayload
  committed : (answer : ℕ) → EventPayload
  revoked_all : (root : ℕ) (affected : List ℕ) → EventPayload
  recorded : ℕ → EventPayload

pub record Event : Type 0 where
  pub seq : ℕ
  pub action : ℕ
  pub payload : EventPayload
  pub ts : ℤ

-- Edges are (child, parent); the newest event stands first.
pub record Registry : Type 0 where
  pub nodes : Dict ℕ Node
  pub edges : List (ℕ × ℕ)
  pub heads : Dict ℕ Head
  pub events : List Event

pub data Error : Type 0 where
  unknown_node : ℕ → Error
  revoked_recreated : Error
  revoked_ancestor : ℕ → Error
  access_denied not_yet_valid expired stale_generation key_missing : Error
  no_source_lineage naive_timestamp invalid_interval : Error
  unsupported_kind no_lineage no_roots no_evidence unknown_key : Error

unfoldable pub new_registry : Registry
new_registry = record { nodes = []; edges = []; heads = []; events = [] }

unfoldable pub node : Registry → ℕ → Result Error Node
node s x = or_raise (lookup x s.nodes) (unknown_node x)

-- `SELECT e.parent FROM edges e … ON e.child = x`
abbrev pub parents_of : List (ℕ × ℕ) → ℕ → List ℕ
parents_of [] x = []
parents_of ((c, p) ∷ es) x = let rest = parents_of es x in if c == x then p ∷ rest else rest

-- `SELECT e.child FROM edges e … ON e.parent = x`
abbrev pub children_of : List (ℕ × ℕ) → ℕ → List ℕ
children_of [] x = []
children_of ((c, p) ∷ es) x = let rest = children_of es x in if p == x then c ∷ rest else rest

-- The rows for the ids, each by `self.node`.
unfoldable pub nodes_at : Registry → List ℕ → Result Error (List (ℕ × Node))
unfolding node
nodes_at s [] = ok []
nodes_at s (x ∷ xs) = do n ← node s x; rest ← nodes_at s xs; ok ((x, n) ∷ rest)

unfoldable pub ancestors : Registry → ℕ → Result Error (List (ℕ × Node))
unfolding node nodes_at closure
ancestors s x = do n ← node s x; nodes_at s (closure (parents_of s.edges) (keys s.nodes) x)

-- `payload.get("acl", ["*"])`
abbrev pub acl_of : Payload → List ℕ
acl_of (origin_payload namespace record_id version content_hash acl) = acl
acl_of (knowledge_payload key generation semantic acl lifecycle) = acl
acl_of (artifact_payload body origins generations parents hash) = 0 ∷ []

abbrev pub is_allowed : ℕ → List ℕ → Bool
is_allowed principal acl = mem 0 acl || mem principal acl

abbrev pub is_before : ℤ → Option ℤ → Bool
is_before now none = false
is_before now (some t) = ltb_ℤ now t

abbrev pub is_after : ℤ → Option ℤ → Bool
is_after now none = false
is_after now (some t) = leb_ℤ t now

unfoldable pub check_lifecycle : ℤ → Option Lifecycle → Result Error (Unit {0})
check_lifecycle now none = ok tt
check_lifecycle now (some l) = do
  raise_if (is_before now l.valid_from) not_yet_valid
  raise_if (is_after now l.valid_until) expired

-- Another node is the head of the key, or none is.
abbrev pub is_stale : Option Head → ℕ → Bool
is_stale none x = true
is_stale (some h) x = not (h.node_id == x)

unfoldable pub check_knowledge : Registry → ℤ → ℕ → Payload → Result Error (Unit {0})
unfolding check_lifecycle
check_knowledge s now x (knowledge_payload key generation semantic acl lifecycle) = do
  check_lifecycle now lifecycle
  raise_if (is_stale (lookup key s.heads) x) stale_generation
check_knowledge s now x payload = err key_missing

-- The body of the loop of `_valid`.
unfoldable pub check_node : Registry → ℤ → ℕ → ℕ × Node → Result Error (Unit {0})
unfolding check_knowledge
check_node s now principal (x, n) = do
  raise_if n.revoked (revoked_ancestor x)
  raise_if (not (is_allowed principal (acl_of n.payload))) access_denied
  if is_knowledge n.kind then check_knowledge s now x n.payload else ok tt

unfoldable pub check_nodes : Registry → ℤ → ℕ → List (ℕ × Node) → Result Error (Unit {0})
unfolding check_node
check_nodes s now principal [] = ok tt
check_nodes s now principal (n ∷ ns) =
    check_node s now principal n >> check_nodes s now principal ns

unfoldable pub valid : Registry → ℤ → ℕ → ℕ → Result Error (Unit {0})
unfolding ancestors check_nodes
valid s now principal x = ancestors s x >>= check_nodes s now principal

-- `for x in xs: self._valid(x, principal)`
unfoldable pub all_valid : Registry → ℤ → ℕ → List ℕ → Result Error (Unit {0})
unfolding valid
all_valid s now principal [] = ok tt
all_valid s now principal (x ∷ xs) = valid s now principal x >> all_valid s now principal xs
