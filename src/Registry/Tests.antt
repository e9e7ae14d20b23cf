-- ===== src/Registry/Tests.antt =====
-- A small registry: an origin, a knowledge node on it, an artifact on that, and the theorems there.
use ptr_research.Common.{
  is_empty, subst, ◌-◌, ◌<◌, ℕ, ◌+◌, ◌*◌, ◌≡◌, ◌≢◌, refl, ◌↔◌, ap, true, false, ◌||◌, Bool, Option,
  none, some, List, [], ◌∷◌, arith, mem, lookup, nat_eq, ok, err, ℤ, pos,
}
use ptr_research.Lineage.{walk, closure}
use ptr_research.Lineage.Reached.{here, onward}
use ptr_research.Registry.{
  Registry, Kind, Payload, Node, Head, Event, EventPayload, new_registry, node, nodes_at, ancestors,
  check_lifecycle, check_knowledge, check_node, check_nodes, valid, all_valid, knowledge_payload,
  origin_payload, artifact_payload, is_origin, stale_generation, revoked_ancestor, no_roots,
}
use ptr_research.Registry.Writes.{
  Hashes, Snapshot, record_event, insert_node, add, origin, interval, set_head, publish, note_nodes,
  collect, artifact, snapshot, commit, revoke,
}
use ptr_research.Registry.Queries.{roots, gather_roots, independent_origins, head, events}
use ptr_research.Registry.Tables.{HasKeys, IsKnown, Ancestor}
use ptr_research.Registry.Usable.{Usable, valid-Usable}
use ptr_research.Registry.Revocation.{is_revoked, revoke-marks, revoked-refused}
use ptr_research.Registry.Rooted.{OriginAbove, reachable-roots}
use ptr_research.Registry.Named.{label, Separates}
use ptr_research.Registry.Heads.{publish_supersedes}
use ptr_research.Registry.History.{
  Step, Run, done, next, originated, published, derived, Run-Change, new_registry-HasKeys,
}

program : Unit {0}
unfolding walk closure new_registry node nodes_at ancestors check_lifecycle check_knowledge
    check_node check_nodes valid all_valid record_event insert_node add origin interval set_head
    publish note_nodes collect artifact snapshot commit revoke roots gather_roots
    independent_origins head events
program = tt

-- Ids that separate key and generation: 0 for origins, 1 for artifacts.
abbrev code : Option (ℕ × ℕ) → Bool → ℕ
code (some (key, generation)) first = 2 + ((key + generation) * (key + generation) + key)
code none true = 0
code none false = 1

abbrev h0 : Hashes
h0 = record {
  content = λ c. c;
  node_key = λ kind payload ps. code (label kind payload) (is_origin kind);
  text_body = λ t. t;
}

square_gap : (s k : ℕ) → s * s + s < (s + 1 + k) * (s + 1 + k)
square_gap s k = grind arith

square_less : (s t : ℕ) → s < t → s * s + s < t * t
square_less s t h =
    let e : s + 1 + (t - s - 1) ≡ t = omega arith in
    subst (λ u. s * s + s < u * u) e (square_gap s (t - s - 1))

pair_injective : (a b c d : ℕ) → (a + b) * (a + b) + a ≡ (c + d) * (c + d) + c → (a ≡ c) × (b ≡ d)
pair_injective a b c d e =
    let sums : a + b ≡ c + d =
      grind (arith, e, square_less (a + b) (c + d), square_less (c + d) (a + b)) in
    let square = ap (λ (s : ℕ). s * s) sums in omega (arith, e, sums, square)

code-injective : (o o' : Option (ℕ × ℕ)) (b b' : Bool) → code o b ≡ code o' b' → o ≡ o'
code-injective none none b b' e = refl
code-injective none (some (key, generation)) true b' e = absurd (omega (arith, e))
code-injective none (some (key, generation)) false b' e = absurd (omega (arith, e))
code-injective (some (key, generation)) none b true e = absurd (omega (arith, e))
code-injective (some (key, generation)) none b false e = absurd (omega (arith, e))
code-injective (some (key, generation)) (some (key', generation')) b b' e =
    let same = pair_injective key generation key' generation' (omega (arith, e)) in cc

h0-Separates : Separates h0
h0-Separates kind kind' payload payload' ps ps' e =
    code-injective (label kind payload) (label kind' payload') (is_origin kind) (is_origin kind') e

abbrev row : Kind → Payload → Bool → Node
row kind payload revoked = record { kind = kind; payload = payload; revoked = revoked }

abbrev origin_row : Node
origin_row = row Kind.origin (origin_payload 1 2 1 5 (0 ∷ [])) false

-- The first registry holds the origin 0, the second the knowledge 21 on it, the third the
-- artifact 1 on that.
abbrev s1 : Registry
s1 = record { nodes = (0, origin_row) ∷ []; edges = []; heads = []; events = [] }

abbrev knowledge_row : ℕ → Node
knowledge_row generation = row Kind.knowledge (knowledge_payload 3 generation 6 (0 ∷ []) none) false

abbrev publish_event : ℕ → ℕ → ℕ → Event
publish_event seq x generation = record {
  seq = seq;
  action = 0;
  payload = EventPayload.published x 3 generation;
  ts = pos 10;
}

abbrev s2 : Registry
s2 = record {
  nodes = (0, origin_row) ∷ (21, knowledge_row 1) ∷ [];
  edges = (21, 0) ∷ [];
  heads = (3, record { generation = 1; node_id = 21 }) ∷ [];
  events = publish_event 1 21 1 ∷ [];
}

abbrev vector_row : Node
vector_row = row Kind.vector (artifact_payload 8 (0 ∷ []) ((21, (3, 1)) ∷ []) (21 ∷ []) 8) false

abbrev s3 : Registry
s3 = record {
  nodes = (0, origin_row) ∷ (21, knowledge_row 1) ∷ (1, vector_row) ∷ [];
  edges = (21, 0) ∷ (1, 21) ∷ [];
  heads = (3, record { generation = 1; node_id = 21 }) ∷ [];
  events = publish_event 1 21 1 ∷ [];
}

-- The knowledge gets a second generation, 30, or is revoked.
abbrev s4 : Registry
s4 = record {
  nodes = (0, origin_row) ∷ (21, knowledge_row 1) ∷ (1, vector_row) ∷ (30, knowledge_row 2) ∷ [];
  edges = (21, 0) ∷ (1, 21) ∷ (30, 0) ∷ [];
  heads = (3, record { generation = 2; node_id = 30 }) ∷ [];
  events = publish_event 2 30 2 ∷ publish_event 1 21 1 ∷ [];
}

abbrev revoked_row : Node → Node
revoked_row n = record n { revoked = true }

abbrev s5 : Registry
s5 = record s3 {
  nodes = (0, origin_row) ∷ (21, revoked_row (knowledge_row 1)) ∷ (1, revoked_row vector_row) ∷ [];
  events =
      record {
        seq = 2;
        action = 2;
        payload = EventPayload.revoked_all 21 (21 ∷ 1 ∷ []);
        ts = pos 11;
      }
      ∷ publish_event 1 21 1
      ∷ [];
}

step1 : origin h0 new_registry 1 2 1 5 (0 ∷ []) ≡ ok (0, s1)
unfolding program
step1 = refl

step2 : publish h0 s1 (pos 10) 3 6 (0 ∷ []) 1 (0 ∷ []) none ≡ ok (21, s2)
unfolding program
step2 = refl

step3 : artifact h0 s2 (pos 10) Kind.vector 8 (21 ∷ []) 1 ≡ ok (1, s3)
unfolding program
step3 = refl

step4 : publish h0 s3 (pos 10) 3 6 (0 ∷ []) 1 (0 ∷ []) none ≡ ok (30, s4)
unfolding program
step4 = refl

step5 : revoke s3 (pos 11) 21 ≡ ok (1 ∷ 21 ∷ [], s5)
unfolding program
step5 = refl

valid_before : valid s3 (pos 12) 1 1 ≡ ok tt
unfolding program
valid_before = refl

-- The old generation is stale, and what is revoked is refused at its first ancestor.
refused_after :
    (valid s4 (pos 12) 1 1 ≡ err stale_generation)
    × (valid s5 (pos 12) 1 1 ≡ err (revoked_ancestor 1))
unfolding program
refused_after = (refl, refl)

read_back :
    (head s4 3 ≡ ok 30)
    × (independent_origins s4 (1 ∷ 30 ∷ []) ≡ ok (0 ∷ []))
    × (events s4 (some 0) 1 ≡ publish_event 2 30 2 ∷ [])
unfolding program
read_back = (refl, refl, refl)

-- An origin alone gives no artifact.
no_knowledge : artifact h0 s1 (pos 10) Kind.text 8 (0 ∷ []) 1 ≡ err no_roots
unfolding program
no_knowledge = refl

history : Run h0 new_registry s3
history =
    next
      (next (next done (originated 1 2 1 5 (0 ∷ []) step1))
        (published (pos 10) 3 6 (0 ∷ []) 1 (0 ∷ []) none step2))
      (derived (pos 10) Kind.vector 8 (21 ∷ []) 1 step3)

s3-HasKeys : HasKeys s3
s3-HasKeys = (Run-Change new_registry-HasKeys history).keys_hold

valid-Usable_example :
    (valid s3 (pos 12) 1 1 ≡ ok tt)
    ↔ (IsKnown s3 1 × ((z : ℕ) → Ancestor s3 1 z → Usable s3 (pos 12) 1 z))
valid-Usable_example = valid-Usable s3 (pos 12) 1 1 s3-HasKeys

revoke-marks_example :
    ((mem 0 (1 ∷ 21 ∷ []) ≡ true) ↔ Ancestor s3 0 21)
    × (is_revoked s5 0 ≡ (is_revoked s3 0 || mem 0 (1 ∷ 21 ∷ [])))
    × (s5.edges ≡ s3.edges)
    × (s5.heads ≡ s3.heads)
revoke-marks_example = revoke-marks s3 s5 (pos 11) 21 (1 ∷ 21 ∷ []) s3-HasKeys step5 0 refl

revoked-refused_example :
    ((now' : ℤ) (principal : ℕ) → ¬ (valid s5 now' principal 1 ≡ ok tt))
    × ((now' : ℤ) (snap : Snapshot) (text : ℕ) (answer : ℕ) (t' : Registry)
        → mem 1 snap.artifacts ≡ true
        → commit h0 s5 now' snap text ≢ ok (answer, t'))
revoked-refused_example =
    revoked-refused h0 s3 s5 s5 (pos 11) 21 (1 ∷ 21 ∷ []) history step5 done 1 (onward here refl)

reachable-roots_example :
    (os : List ℕ) × (roots s3 1 ≡ ok os)
    × (is_empty os ≡ false)
    × ((o : ℕ) → (mem o os ≡ true) ↔ OriginAbove s3 1 o)
reachable-roots_example = reachable-roots h0 s3 1 history refl

abbrev s6 : Registry
s6 = record_event s4 (pos 20) 7 (EventPayload.recorded 0)

later_s4 : Run h0 s4 s6
later_s4 = next done (Step.recorded (pos 20) 7 (EventPayload.recorded 0))

publish_supersedes_example :
    (lookup 3 s4.heads ≡ some (record { generation = 2; node_id = 30 }))
    × ((other : ℕ) → other ≢ 3 → lookup other s4.heads ≡ lookup other s3.heads)
    × ((hd : Head) (z : ℕ)
        → lookup 3 s3.heads ≡ some hd
        → Ancestor s6 z hd.node_id
        → (now' : ℤ) (reader : ℕ) → ¬ (valid s6 now' reader z ≡ ok tt))
publish_supersedes_example =
    publish_supersedes h0 s3 s4 s6 (pos 10) 3 6 (0 ∷ []) 1 (0 ∷ []) none 30 h0-Separates history
      step4 later_s4
