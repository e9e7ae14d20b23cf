-- ===== src/Registry/Heads.antt =====
-- Generations in neural_pods/registry.py: what `publish` makes stale, from then on.
use ptr_research.Common.{
  sorted_set, ℕ, ◌+◌, ◌≡◌, ◌≢◌, refl, sym, ap, ◌∙◌, subst, inl, inr, Option, some, List, [], arith,
  ◌≤◌, ◌<◌, Dict, lookup, insert, nat_eq, ◌==◌, ==_iff, ok, ℤ, Bool-cases, some-injective,
  lookup-insert_same, lookup-insert_other,
}
use ptr_research.Registry.{
  Registry, Node, Kind, Payload, Head, new_registry, knowledge_payload, origin_payload,
  artifact_payload, is_knowledge, valid,
}
use ptr_research.Registry.Writes.{
  Hashes, Validity, next_generation, record_event, set_head, origin, publish,
}
use ptr_research.Registry.Tables.{HasKeys, Ancestor}
use ptr_research.Registry.Usable.{Usable, Current, valid-Usable}
use ptr_research.Registry.Growth.{Grows, Grows-trans, add-Added}
use ptr_research.Registry.Outcomes.{
  publish-Published, artifact-Derived, commit-Committed, revoke-result,
}
use ptr_research.Registry.Named.{payload_label, label, Separates}
use ptr_research.Registry.History.{
  Step, originated, published, derived, committed, revoked, recorded, Run, done, next, Step-Change,
  Run-Change,
}
use ptr_research.Registry.HeadRows.{HeadRows, Added-heads, Run-Sound, reachable-Sound}

-- No key loses its head, and no head goes back to an earlier generation.
abbrev HeadsAdvance : Registry → Registry → Type 0
HeadsAdvance s t =
    (key : ℕ) (hd : Head)
    → lookup key s.heads ≡ some hd
    → (hd' : Head) × (lookup key t.heads ≡ some hd') × (hd.generation ≤ hd'.generation)

HeadsAdvance-same : (s t : Registry) → s.heads ≡ t.heads → HeadsAdvance s t
HeadsAdvance-same s t e key hd found = (hd, ap (lookup key) (sym e) ∙ found, omega arith)

HeadsAdvance-trans : (s t u : Registry) → HeadsAdvance s t → HeadsAdvance t u → HeadsAdvance s u
HeadsAdvance-trans s t u f g key hd found =
    let (hd', found', le) = f key hd found in
    let (hd'', found'', le') = g key hd' found' in (hd'', found'', omega (arith, le, le'))

set_head-advances :
    (key x : ℕ) (heads heads' : Dict ℕ Head)
    → heads'
      ≡ insert key (record { generation = next_generation (lookup key heads); node_id = x }) heads
    → (other : ℕ) (hd : Head) → lookup other heads ≡ some hd
    → (hd' : Head) × (lookup other heads' ≡ some hd') × (hd.generation ≤ hd'.generation)
set_head-advances key x heads heads' e other hd found =
    let head : Head = record { generation = next_generation (lookup key heads); node_id = x } in
    elim (Bool-cases (key == other)) [
      | inr elsewhere ↦ (
        hd,
        ap (lookup other) e ∙ (lookup-insert_other key other head heads elsewhere ∙ found),
        omega arith,
      )
      | inl here_ ↦
          let same : key ≡ other = (==_iff key other).0 here_ in
          let found' : lookup key heads ≡ some hd = ap (λ k. lookup k heads) same ∙ found in
          (
            head,
            ap (lookup other) e
                ∙ (ap (λ k. lookup k (insert key head heads)) (sym same)
                    ∙ lookup-insert_same key head heads),
            ground (arith, found'),
          )
    ]

Step-HeadsAdvance : (h : Hashes) {s s' : Registry} → HasKeys s → Step h s s' → HeadsAdvance s s'
unfolding origin record_event set_head
Step-HeadsAdvance h {s} {s'} k (originated namespace record_id version content acl e) =
    let added = (add-Added h s Kind.origin _ [] e).1 in
    HeadsAdvance-same s s' (Added-heads s _ Kind.origin _ [] added)
Step-HeadsAdvance h {s} {s'} k (published now key semantic parents principal acl validity {x} e) =
    let p = publish-Published h s now key semantic parents principal acl validity e in
    let kept = Added-heads s x Kind.knowledge _ (sorted_set parents) p.added in
    let head : Head = record { generation = next_generation (lookup key s.heads); node_id = x } in
    set_head-advances key x s.heads s'.heads
      (ap (λ (u : Registry). u.heads) p.result ∙ ap (insert key head) (sym kept))
Step-HeadsAdvance h {s} {s'} k (derived now kind body parents principal e) =
    let added = (artifact-Derived h s now kind body parents principal e).added in
    HeadsAdvance-same s s' (Added-heads s _ kind _ (sorted_set parents) added)
Step-HeadsAdvance h {s} {s'} k (committed now snap text e) =
    let c = commit-Committed h s now snap text e in
    let d = c.derived in
    HeadsAdvance-same s s' (
      Added-heads s _ Kind.answer _ (sorted_set snap.artifacts) d.added
      ∙ sym (ap (λ (u : Registry). u.heads) c.result))
Step-HeadsAdvance h {s} {s'} k (revoked now x e) =
    HeadsAdvance-same s s' (ap (λ (u : Registry). u.heads) (sym (revoke-result s now x e).2))
Step-HeadsAdvance h {s} {s'} k (recorded now action payload) = HeadsAdvance-same s s' refl

Run-HeadsAdvance : {h : Hashes} {s t : Registry} → HasKeys s → Run h s t → HeadsAdvance s t
Run-HeadsAdvance {h} {s} k done = HeadsAdvance-same s s refl
Run-HeadsAdvance {h} {s} {t} k (next {t = u} r step) =
    HeadsAdvance-trans s u t (Run-HeadsAdvance k r)
      (Step-HeadsAdvance h (Run-Change k r).keys_hold step)

Current-head :
    (s : Registry) (now : ℤ) (y key generation : ℕ) (payload : Payload)
    → payload_label payload ≡ some (key, generation)
    → Current s now y payload
    → (hd : Head) × (lookup key s.heads ≡ some hd) × (hd.node_id ≡ y)
Current-head s now y key generation (knowledge_payload key' generation' semantic acl life) lab c =
    subst (λ k. (hd : Head) × (lookup k s.heads ≡ some hd) × (hd.node_id ≡ y))
      (ap (λ (l : ℕ × ℕ). l.0) (some-injective lab)) c.1
Current-head s now y key generation (origin_payload namespace record_id version hash acl) lab c = cc
Current-head s now y key generation (artifact_payload body origins generations parents hash) lab c =
    cc

-- A labelled row that may be used is the head of its key.
labelled-head :
    (s : Registry) (now : ℤ) (principal y key generation : ℕ) (n : Node)
    → lookup y s.nodes ≡ some n
    → label n.kind n.payload ≡ some (key, generation)
    → Usable s now principal y
    → (hd : Head) × (lookup key s.heads ≡ some hd) × (hd.node_id ≡ y)
labelled-head s now principal y key generation n found lab u =
    let same : n ≡ u.row = some-injective (sym found ∙ u.found) in
    let lab' = subst (λ (m : Node). label m.kind m.payload ≡ some (key, generation)) same lab in
    elim (Bool-cases (is_knowledge u.row.kind)) [
      | inl known ↦
          Current-head s now y key generation u.row.payload (rw known at lab') (u.current known)
      | inr other ↦ absurd (ground (arith, other, lab'))
    ]

-- When the head of the key has a later generation, the row of the earlier head is not usable.
stale-Usable :
    (s t : Registry) (now : ℤ) (principal key : ℕ) (hd hd' : Head)
    → Grows s t
    → HeadRows s
    → HeadRows t
    → lookup key s.heads ≡ some hd
    → lookup key t.heads ≡ some hd'
    → hd.generation < hd'.generation
    → ¬ Usable t now principal hd.node_id
stale-Usable s t now principal key hd hd' g before after was is_ newer =
    let (n, found, lab) = before key hd was in
    let (n', found', kept) = g.rows hd.node_id n found in
    let lab' : label n'.kind n'.payload ≡ some (key, hd.generation) =
      rw (kept.kind, kept.payload) lab in
    let (m, found_m, lab_m) = after key hd' is_ in
    λ u.
      let (top, there, node_) =
        labelled-head t now principal hd.node_id key hd.generation n' found' lab' u in
      let same_head : hd' ≡ top = some-injective (sym is_ ∙ there) in
      let same_id : hd'.node_id ≡ hd.node_id = ap (λ (k : Head). k.node_id) same_head ∙ node_ in
      let same_row : m ≡ n' =
        some-injective (sym found_m ∙ (ap (λ v. lookup v t.nodes) same_id ∙ found')) in
      let labels = sym lab_m ∙ (ap (λ (k : Node). label k.kind k.payload) same_row ∙ lab') in
      let same_generation : hd'.generation ≡ hd.generation =
        ap (λ (l : ℕ × ℕ). l.1) (some-injective labels) in
      omega (arith, same_generation, newer)

-- In a reachable registry, where the digest separates keys and generations: a `publish` that
-- returns `x` makes `x` the head of its key with the next generation and leaves the other heads.
-- From then on, whatever calls return next, `_valid` refuses, for everybody and at any time, what is
-- built on the head before, also what is added later.
pub publish_supersedes :
    (h : Hashes) (s s' t : Registry) (now : ℤ) (key semantic : ℕ) (parents : List ℕ) (principal : ℕ)
    (acl : List ℕ) (validity : Option Validity) (x : ℕ)
    → Separates h
    → Run h new_registry s
    → publish h s now key semantic parents principal acl validity ≡ ok (x, s')
    → Run h s' t
    → (lookup key s'.heads
        ≡ some (record { generation = next_generation (lookup key s.heads); node_id = x }))
      × ((other : ℕ) → other ≢ key → lookup other s'.heads ≡ lookup other s.heads)
      × ((hd : Head) (z : ℕ)
          → lookup key s.heads ≡ some hd
          → Ancestor t z hd.node_id
          → (now' : ℤ) (reader : ℕ) → ¬ (valid t now' reader z ≡ ok tt))
unfolding set_head record_event
publish_supersedes h s s' t now key semantic parents principal acl validity x apart r e later =
    let p = publish-Published h s now key semantic parents principal acl validity e in
    let before = reachable-Sound h apart r in
    let step : Step h s s' = published now key semantic parents principal acl validity e in
    let after = reachable-Sound h apart (next r step) in
    let last = Run-Sound h apart after later in
    let head : Head = record { generation = next_generation (lookup key s.heads); node_id = x } in
    let between = p.between in
    let heads' : s'.heads ≡ insert key head between.heads =
      ap (λ (u : Registry). u.heads) p.result in
    let kept = Added-heads s x Kind.knowledge _ (sorted_set parents) p.added in
    let now_head : lookup key s'.heads ≡ some head =
      ap (lookup key) heads' ∙ lookup-insert_same key head between.heads in
    let (newest, is_newest, at_least) = Run-HeadsAdvance after.keys_hold later key head now_head in
    let grows =
      Grows-trans (Step-Change before.keys_hold step).grows
        (Run-Change after.keys_hold later).grows in
    (
      now_head,
      λ other ne.
          ap (lookup other) heads'
          ∙ (lookup-insert_other key other head between.heads (ground (arith, ==_iff key other, ne))
              ∙ ap (lookup other) (sym kept)),
      λ hd z was a now' reader v.
          let above : head.generation ≡ hd.generation + 1 = ap next_generation was in
          stale-Usable s t now' reader key hd newest grows before.heads_hold last.heads_hold was
            is_newest (omega (arith, above, at_least))
            (((valid-Usable t now' reader z last.keys_hold).0 v).1 hd.node_id a),
    )
