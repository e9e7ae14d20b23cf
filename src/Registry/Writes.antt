-- ===== src/Registry/Writes.antt =====
-- The operations that write: `_add`, `origin`, `publish`, `_artifact`, `snapshot`, `commit`,
-- `revoke` and `record_event` of neural_pods/registry.py.
use ptr_research.Common.{
  is_empty, sorted_set, ℕ, ◌+◌, Bool, true, false, ◌||◌, Option, none, some, List, [], ◌∷◌, ◌++◌,
  map, length, if◌then◌else◌, ltb, ◌==◌, not, Dict, keys, lookup, insert, adjust, nat_eq, Result,
  ok, err, ◌>>=◌, ◌>>◌, raise_if, ℤ, leb_ℤ,
}
use mathlib.Core.Option
use ptr_research.Lineage.{closure}
use ptr_research.Registry.{
  Kind, Lifecycle, Payload, Node, Head, EventPayload, Registry, Error, is_origin, is_knowledge,
  node, children_of, ancestors, all_valid, valid, origin_payload, knowledge_payload,
  artifact_payload, published, committed, revoked_all, revoked_recreated, naive_timestamp,
  invalid_interval, no_source_lineage, unsupported_kind, no_lineage, no_roots, no_evidence,
}

-- The digests of hashlib over canonical JSON: of a value, of what identifies a node, and the JSON
-- object that holds an answer's text.
pub record Hashes : Type 0 where
  pub content : ℕ → ℕ
  pub node_key : Kind → Payload → List ℕ → ℕ
  pub text_body : ℕ → ℕ

abbrev pub publish_action : ℕ
publish_action = 0

abbrev pub commit_action : ℕ
commit_action = 1

abbrev pub revoke_action : ℕ
revoke_action = 2

-- Rows are never deleted, so the next row id is one more than their number.
unfoldable pub record_event : Registry → ℤ → ℕ → EventPayload → Registry
record_event s now action payload = record s {
  events =
      record { seq = length s.events + 1; action = action; payload = payload; ts = now } ∷ s.events;
}

abbrev pub all_known : Registry → List ℕ → Result Error (Unit {0})
all_known s [] = ok tt
all_known s (x ∷ xs) = node s x >>= λ n. all_known s xs

unfoldable pub insert_node : Registry → ℕ → Kind → Payload → List ℕ → Registry
insert_node s x kind payload parents = record s {
  nodes = insert x (record { kind = kind; payload = payload; revoked = false }) s.nodes;
  edges = s.edges ++ map (λ p. (x, p)) parents;
}

abbrev pub add_new : Registry → ℕ → Kind → Payload → List ℕ → Result Error (ℕ × Registry)
add_new s x kind payload parents = do
  all_known s parents
  ok (x, insert_node s x kind payload parents)

unfoldable pub add : Hashes → Registry → Kind → Payload → List ℕ → Result Error (ℕ × Registry)
unfolding insert_node node
add h s kind payload parents =
    let x = h.node_key kind payload (sorted_set parents) in
    elim (lookup x s.nodes) [
      | some n ↦ if n.revoked then err revoked_recreated else ok (x, s)
      | none ↦ add_new s x kind payload (sorted_set parents)
    ]

unfoldable pub origin : Hashes → Registry → ℕ → ℕ → ℕ → ℕ → List ℕ → Result Error (ℕ × Registry)
unfolding add
origin h s namespace record_id version content acl =
    add h s Kind.origin
      (origin_payload namespace record_id version (h.content content) (sorted_set acl)) []

-- A timestamp of a request: whether it has a timezone, and the instant.
pub record Stamp : Type 0 where
  pub zoned : Bool
  pub instant : ℤ

pub record Validity : Type 0 where
  pub valid_from : Option Stamp
  pub valid_until : Option Stamp

abbrev pub to_utc : Option Stamp → Result Error (Option ℤ)
to_utc none = ok none
to_utc (some t) = if t.zoned then ok (some t.instant) else err naive_timestamp

-- ISO texts in UTC have the order of the instants.
abbrev pub is_inverted : Option ℤ → Option ℤ → Bool
is_inverted (some a) (some b) = leb_ℤ b a
is_inverted a b = false

unfoldable pub interval : Option Validity → Result Error (Option (Option ℤ × Option ℤ))
interval none = ok none
interval (some v) = do
  from ← to_utc v.valid_from
  until ← to_utc v.valid_until
  raise_if (is_inverted from until) invalid_interval
  ok (some (from, until))

abbrev pub next_generation : Option Head → ℕ
next_generation none = 1
next_generation (some h) = h.generation + 1

abbrev pub lifecycle_of : Option Head → Option ℤ × Option ℤ → Lifecycle
lifecycle_of previous (from, until) = record {
  valid_from = from;
  valid_until = until;
  supersedes = Option.map (λ (h : Head). h.node_id) previous;
}

unfoldable pub set_head : Registry → ℕ → Head → Registry
set_head s key head = record s { heads = insert key head s.heads }

unfoldable pub publish :
    Hashes
    → Registry
    → ℤ
    → ℕ
    → ℕ
    → List ℕ
    → ℕ
    → List ℕ
    → Option Validity
    → Result Error (ℕ × Registry)
unfolding interval all_valid add set_head record_event
publish h s now key semantic parents principal acl validity = do
  raise_if (is_empty parents) no_source_lineage
  span ← interval validity
  all_valid s now principal parents
  let generation : ℕ = next_generation (lookup key s.heads)
  let payload =
      knowledge_payload key generation semantic (sorted_set acl)
        (Option.map (lifecycle_of (lookup key s.heads)) span)
  (x, s') ← add h s Kind.knowledge payload parents
  let head : Head = record { generation = generation; node_id = x }
  ok (x, record_event (set_head s' key head) now publish_action (published x key generation))

-- The roots that an artifact's header lists: the origins, and the knowledge nodes by id.
abbrev pub Found : Type 0
Found = List ℕ × Dict ℕ (ℕ × ℕ)

-- Canonical JSON sorts the keys of an object.
abbrev pub put_key : ℕ → ℕ × ℕ → Dict ℕ (ℕ × ℕ) → Dict ℕ (ℕ × ℕ)
put_key k v [] = (k, v) ∷ []
put_key k v ((j, w) ∷ d) =
    let rest = put_key k v d in
    if j == k then (j, v) ∷ d else if ltb k j then (k, v) ∷ (j, w) ∷ d else (j, w) ∷ rest

-- `_valid` has refused a knowledge node with another payload before.
abbrev pub note_knowledge : ℕ → Payload → Dict ℕ (ℕ × ℕ) → Dict ℕ (ℕ × ℕ)
note_knowledge x (knowledge_payload key generation semantic acl lifecycle) known =
    put_key x (key, generation) known
note_knowledge x payload known = known

abbrev pub note_node : ℕ × Node → Found → Found
note_node (x, n) (origins, known) = (
  if is_origin n.kind then x ∷ origins else origins,
  if is_knowledge n.kind then note_knowledge x n.payload known else known,
)

unfoldable pub note_nodes : List (ℕ × Node) → Found → Found
note_nodes [] found = found
note_nodes (n ∷ ns) found = note_nodes ns (note_node n found)

unfoldable pub collect : Registry → ℤ → ℕ → List ℕ → Found → Result Error Found
unfolding valid ancestors note_nodes
collect s now principal [] found = ok found
collect s now principal (p ∷ ps) found = do
  valid s now principal p
  ns ← ancestors s p
  collect s now principal ps (note_nodes ns found)

abbrev pub is_supported : Kind → Bool
is_supported Kind.origin = false
is_supported Kind.knowledge = false
is_supported (Kind.other k) = false
is_supported _ = true

unfoldable pub artifact :
    Hashes → Registry → ℤ → Kind → ℕ → List ℕ → ℕ → Result Error (ℕ × Registry)
unfolding collect add
artifact h s now kind body parents principal = do
  raise_if (not (is_supported kind)) unsupported_kind
  raise_if (is_empty parents) no_lineage
  (origins, known) ← collect s now principal parents ([], [])
  raise_if (is_empty known || is_empty origins) no_roots
  add h s kind
      (artifact_payload body (sorted_set origins) known (sorted_set parents) (h.content body))
      parents

pub record Snapshot : Type 0 where
  pub artifacts : List ℕ
  pub principal : ℕ

unfoldable pub snapshot : Registry → ℤ → List ℕ → ℕ → Result Error Snapshot
unfolding all_valid
snapshot s now artifacts principal = do
  raise_if (is_empty (sorted_set artifacts)) no_evidence
  all_valid s now principal (sorted_set artifacts)
  ok (record { artifacts = sorted_set artifacts; principal = principal })

-- The id of the answer; its text and the artifacts are the arguments again.
unfoldable pub commit : Hashes → Registry → ℤ → Snapshot → ℕ → Result Error (ℕ × Registry)
unfolding all_valid artifact record_event
commit h s now snap text = do
  all_valid s now snap.principal snap.artifacts
  (x, s') ← artifact h s now Kind.answer (h.text_body text) snap.artifacts snap.principal
  ok (x, record_event s' now commit_action (committed x))

-- `UPDATE nodes SET revoked=1 WHERE id=?`, for each.
abbrev pub mark : List ℕ → Dict ℕ Node → Dict ℕ Node
mark [] nodes = nodes
mark (x ∷ xs) nodes = mark xs (adjust x (λ n. record n { revoked = true }) nodes)

unfoldable pub revoke : Registry → ℤ → ℕ → Result Error (List ℕ × Registry)
unfolding node closure record_event
revoke s now x = do
  n ← node s x
  let affected = closure (children_of s.edges) (keys s.nodes) x
  let marked = record s { nodes = mark affected s.nodes }
  ok (sorted_set affected, record_event marked now revoke_action (revoked_all x affected))
