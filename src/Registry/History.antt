-- ===== src/Registry/History.antt =====
-- Histories of the registry of neural_pods/registry.py: any calls that write, one after another.
use ptr_research.Common.{
  true, ℕ, ◌≡◌, refl, sym, subst, List, [], ℤ, ok, Option, arith, mem, nat_eq,
}
use ptr_research.Registry.{Registry, Kind, Payload, EventPayload, new_registry}
use ptr_research.Registry.Writes.{
  Hashes, Validity, Snapshot, origin, publish, artifact, commit, revoke, record_event, set_head,
  mark,
}
use ptr_research.Registry.Tables.{HasKeys}
use ptr_research.Registry.Growth.{
  Grows, Grows-refl, Grows-trans, Grows-same, HasKeys-same, Added, add-Added, Added-Grows,
  Added-HasKeys, lookup-mark, mark_row, mark_row-Kept, keys-mark,
}
use ptr_research.Registry.Outcomes.{
  publish-Published, artifact-Derived, commit-Committed, revoke-result, reached_by,
}

-- One call that returned; a call that raised is rolled back.
pub data Step (h : Hashes) (s : Registry) : Registry → Type 0 where
  originated :
      (namespace record_id version content : ℕ) (acl : List ℕ) {x : ℕ} {s' : Registry}
      → origin h s namespace record_id version content acl ≡ ok (x, s')
      → Step h s s'
  published :
      (now : ℤ) (key semantic : ℕ) (parents : List ℕ) (principal : ℕ) (acl : List ℕ)
      (validity : Option Validity) {x : ℕ} {s' : Registry}
      → publish h s now key semantic parents principal acl validity ≡ ok (x, s')
      → Step h s s'
  derived :
      (now : ℤ) (kind : Kind) (body : ℕ) (parents : List ℕ) (principal : ℕ) {x : ℕ} {s' : Registry}
      → artifact h s now kind body parents principal ≡ ok (x, s')
      → Step h s s'
  committed :
      (now : ℤ) (snap : Snapshot) (text : ℕ) {x : ℕ} {s' : Registry}
      → commit h s now snap text ≡ ok (x, s')
      → Step h s s'
  revoked :
      (now : ℤ) (x : ℕ) {affected : List ℕ} {s' : Registry}
      → revoke s now x ≡ ok (affected, s')
      → Step h s s'
  recorded :
      (now : ℤ) (action : ℕ) (payload : EventPayload) → Step h s (record_event s now action payload)

pub data Run (h : Hashes) (s : Registry) : Registry → Type 0 where
  done : Run h s s
  next : {t u : Registry} → Run h s t → Step h t u → Run h s u

-- What a step does to the tables when the foreign keys hold before it.
pub record Change (s s' : Registry) : Type 0 where
  pub grows : Grows s s'
  pub keys_hold : HasKeys s'

Change-Added :
    (s : Registry) {x : ℕ} {kind : Kind} {payload : Payload} {ps : List ℕ} {t u : Registry}
    → HasKeys s
    → Added s x kind payload ps t
    → t.nodes ≡ u.nodes
    → t.edges ≡ u.edges
    → Change s u
Change-Added s {x} {kind} {payload} {ps} k a n e = record {
  grows = Grows-same n e (Added-Grows s x kind payload ps a);
  keys_hold = HasKeys-same n e (Added-HasKeys s x kind payload ps k a);
}

Change-mark :
    (s : Registry) (xs : List ℕ) → HasKeys s → Change s (record s { nodes = mark xs s.nodes })
Change-mark s xs k = record {
  grows = record {
    rows = λ z n e. (
      mark_row (mem z xs) n,
      ground (arith, lookup-mark z xs s.nodes, e),
      mark_row-Kept (mem z xs) n,
    );
    parents = λ c p e. e;
  };
  keys_hold = record {
    child_known =
        λ c p e. subst (λ ks. mem c ks ≡ true) (sym (keys-mark xs s.nodes)) (k.child_known c p e);
    parent_known =
        λ c p e. subst (λ ks. mem p ks ≡ true) (sym (keys-mark xs s.nodes)) (k.parent_known c p e);
  };
}

pub Step-Change : {h : Hashes} {s s' : Registry} → HasKeys s → Step h s s' → Change s s'
unfolding origin record_event set_head
Step-Change {h} {s} k (originated namespace record_id version content acl e) =
    let (id, added) = add-Added h s Kind.origin _ [] e in Change-Added s k added refl refl
Step-Change {h} {s} k (published now key semantic parents principal acl validity e) =
    let p = publish-Published h s now key semantic parents principal acl validity e in
    subst (Change s) (sym p.result) (Change-Added s k p.added refl refl)
Step-Change {h} {s} k (derived now kind body parents principal e) =
    let d = artifact-Derived h s now kind body parents principal e in
    Change-Added s k d.added refl refl
Step-Change {h} {s} k (committed now snap text e) =
    let c = commit-Committed h s now snap text e in
    let d = c.derived in subst (Change s) (sym c.result) (Change-Added s k d.added refl refl)
Step-Change {h} {s} k (revoked now x e) =
    let c = Change-mark s (reached_by s x) k in
    subst (Change s) (sym (revoke-result s now x e).2) (record {
      grows = Grows-same refl refl c.grows;
      keys_hold = HasKeys-same refl refl c.keys_hold;
    })
Step-Change {h} {s} k (recorded now action payload) = record {
  grows = Grows-same refl refl (Grows-refl s);
  keys_hold = HasKeys-same refl refl k;
}

pub Run-Change : {h : Hashes} {s s' : Registry} → HasKeys s → Run h s s' → Change s s'
Run-Change {h} {s} k done = record { grows = Grows-refl s; keys_hold = k }
Run-Change k (next r step) =
    let a = Run-Change k r in
    let b = Step-Change a.keys_hold step in
    record { grows = Grows-trans a.grows b.grows; keys_hold = b.keys_hold }

pub new_registry-HasKeys : HasKeys new_registry
unfolding new_registry
new_registry-HasKeys = record { child_known = λ c p e. cc; parent_known = λ c p e. cc }
