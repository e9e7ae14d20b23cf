-- ===== src/Registry/Revocation.antt =====
-- Revocation in neural_pods/registry.py: which rows `revoke` marks, and that nothing below a revoked
-- row is used again by any later call.
use ptr_research.Common.{
  mem-sorted_set, ℕ, ◌≡◌, refl, sym, ap, ◌∙◌, ◌↔◌, ◌≢◌, true, false, ◌||◌, Bool, none, some, List,
  arith, mem, keys, lookup, nat_eq, ok, ℤ, Option-cases, inl, inr,
}
use mathlib.Core.Option
use ptr_research.Lineage.Reached.{Trail, here, onward, prepend, closure-Trail}
use ptr_research.Registry.{new_registry, Registry, Node, children_of, valid}
use ptr_research.Registry.Writes.{Hashes, Snapshot, commit, revoke, record_event}
use ptr_research.Registry.Tables.{HasKeys, IsKnown, Ancestor, mem-keys, children-parents}
use ptr_research.Registry.Usable.{Usable, valid-Usable}
use ptr_research.Registry.Growth.{lookup-mark, mark_row, Grows}
use ptr_research.Registry.Outcomes.{all_valid-each, commit-Committed, revoke-result, reached_by}
use ptr_research.Registry.History.{
  Step, revoked, Run, Run-Change, Step-Change, new_registry-HasKeys,
}

descend : (s : Registry) {x z : ℕ} → Trail (children_of s.edges) x z → Ancestor s z x
descend s here = here
descend s (onward {y} {z} p e) = prepend (sym (children-parents s.edges z y) ∙ e) (descend s p)

ascend : (s : Registry) {z x : ℕ} → Ancestor s z x → Trail (children_of s.edges) x z
ascend s here = here
ascend s (onward {y = y} {z = x} p e) = prepend (children-parents s.edges y x ∙ e) (ascend s p)

abbrev pub is_revoked : Registry → ℕ → Bool
is_revoked s z = elim (lookup z s.nodes) [ none ↦ false | some n ↦ n.revoked ]

reached_by-Ancestor :
    (s : Registry) (x z : ℕ)
    → HasKeys s
    → IsKnown s x
    → (mem z (reached_by s x) ≡ true) ↔ Ancestor s z x
reached_by-Ancestor s x z k known =
    let find =
      closure-Trail (children_of s.edges) (keys s.nodes)
        (λ p c h e. k.child_known c p (sym (children-parents s.edges c p) ∙ e)) x z known in
    (λ m. descend s (find.0 m), λ a. find.1 (ascend s a))

revoked-mark_row : (b : Bool) (n : Node) → (mark_row b n).revoked ≡ (n.revoked || b)
revoked-mark_row true n = ground arith
revoked-mark_row false n = ground arith

is_revoked-marked :
    (s s' : Registry) (z : ℕ) (b : Bool)
    → lookup z s'.nodes ≡ Option.map (mark_row b) (lookup z s.nodes)
    → IsKnown s z
    → is_revoked s' z ≡ (is_revoked s z || b)
is_revoked-marked s s' z b e known =
    let (n, found) = mem-keys z s.nodes known in ground (arith, found, e, revoked-mark_row b n)

module _ (s s' : Registry) (now : ℤ) (x : ℕ) (affected : List ℕ) (k : HasKeys s)
    (returned : revoke s now x ≡ ok (affected, s')) where
  -- `revoke` returns the rows below `x`, `x` included, and these are the rows that are revoked
  -- afterwards beside those that were.
  pub revoke-marks :
      (z : ℕ)
      → IsKnown s z
      → ((mem z affected ≡ true) ↔ Ancestor s z x)
        × (is_revoked s' z ≡ (is_revoked s z || mem z affected))
        × (s'.edges ≡ s.edges)
        × (s'.heads ≡ s.heads)
  unfolding record_event
  revoke-marks z known =
      let (there, same, result) = revoke-result s now x returned in
      let m : mem z affected ≡ mem z (reached_by s x) =
        ap (mem z) same ∙ mem-sorted_set z (reached_by s x) in
      let r = reached_by-Ancestor s x z k there in
      (
        (λ e. r.0 (sym m ∙ e), λ a. m ∙ r.1 a),
        rw m (
            is_revoked-marked s s' z (mem z (reached_by s x))
              (rw result (lookup-mark z (reached_by s x) s.nodes)) known),
        rw result refl,
        rw result refl,
      )

is_revoked-Grows :
    (s t : Registry) (z : ℕ) → Grows s t → is_revoked s z ≡ true → is_revoked t z ≡ true
is_revoked-Grows s t z g e = elim (Option-cases (lookup z s.nodes)) [
  | inl gone ↦ ground (arith, gone, e)
  | inr (n, found) ↦
      let (n', found', kept) = g.rows z n found in
      let stays : n'.revoked ≡ true = kept.revoked (ground (arith, found, e)) in
      ground (arith, found', stays)
]

is_revoked-standing :
    (s : Registry) (now : ℤ) (principal z : ℕ) → is_revoked s z ≡ true → ¬ Usable s now principal z
is_revoked-standing s now principal z e = λ u. ground (arith, u.found, u.standing, e)

-- The row below which a row stands stays revoked, so `_valid` refuses it.
revoked-invalid :
    (s : Registry) (now : ℤ) (principal x z : ℕ)
    → HasKeys s
    → is_revoked s x ≡ true
    → Ancestor s z x
    → ¬ (valid s now principal z ≡ ok tt)
revoked-invalid s now principal x z k e a =
    λ v. is_revoked-standing s now principal x e (((valid-Usable s now principal z k).0 v).1 x a)

-- After `revoke` of `x` in a reachable registry, whatever calls return next: each row below `x` is refused by `_valid`, for
-- every principal at every time, and no commit of a snapshot that lists such a row returns.
pub revoked-refused :
    (h : Hashes) (s s' t : Registry) (now : ℤ) (x : ℕ) (affected : List ℕ)
    → Run h new_registry s
    → revoke s now x ≡ ok (affected, s')
    → Run h s' t
    → (z : ℕ) → Ancestor t z x
    → ((now' : ℤ) (principal : ℕ) → ¬ (valid t now' principal z ≡ ok tt))
      × ((now' : ℤ) (snap : Snapshot) (text : ℕ) (answer : ℕ) (t' : Registry)
          → mem z snap.artifacts ≡ true
          → commit h t now' snap text ≢ ok (answer, t'))
revoked-refused h s s' t now x affected before returned r z a =
    let k = (Run-Change new_registry-HasKeys before).keys_hold in
    let there : IsKnown s x = (revoke-result s now x returned).0 in
    let step : Step h s s' = revoked now x returned in
    let marks = revoke-marks s s' now x affected k returned x there in
    let now_revoked : is_revoked s' x ≡ true = ground (arith, marks.1, marks.0.1 here) in
    let c = Run-Change (Step-Change k step).keys_hold r in
    let stays = is_revoked-Grows s' t x c.grows now_revoked in
    let refused =
      λ (now' : ℤ) (principal : ℕ). revoked-invalid t now' principal x z c.keys_hold stays a in
    (
      refused,
      λ now' snap text answer t' m e'.
          let done_ = commit-Committed h t now' snap text e' in
          refused now' snap.principal
            (all_valid-each t now' snap.principal snap.artifacts done_.passed z m),
    )
