-- ===== src/Leader/Fencing.antt =====
-- The fencing tokens of neural_pods/placement.py over histories of calls: who was leader before
-- cannot write any more.
use ptr_research.Common.{
  ℕ, ◌+◌, ◌≤◌, ◌<◌, ◌≡◌, ◌≢◌, refl, ◌∙◌, sym, subst, true, false, some, List, [], ◌∷◌, arith, All,
  ◌==◌, Option-cases, inl, inr, ok, err, ℤ, some-injective, ◌++◌,
}
use ptr_research.Leader.{
  LeaderLease, Leader, lease_held, invalid_fence, new_leader, acquire, renew, is_valid, validate,
}

-- One call that returns a lease.
pub data Step (s : Leader) (l : LeaderLease) (s' : Leader) : Type 0 where
  acquires : (holder : ℕ) (now : ℤ) → acquire s holder now ≡ ok (l, s') → Step s l s'
  renews : (holder fence : ℕ) (now : ℤ) → renew s holder fence now ≡ ok (l, s') → Step s l s'

-- The states that calls reach, with the leases issued on the way, newest first.
pub data Reach (lease_s : ℤ) : Leader → List LeaderLease → Type 0 where
  starts : {s : Leader} → new_leader lease_s ≡ ok s → Reach lease_s s []
  then_ :
      {s s' : Leader} {l : LeaderLease} {ls : List LeaderLease}
      → Reach lease_s s ls
      → Step s l s'
      → Reach lease_s s' (l ∷ ls)

-- Any number of further calls.
pub data Later (s : Leader) : Leader → Type 0 where
  now_ : Later s s
  after : {s' s'' : Leader} {l : LeaderLease} → Later s s' → Step s' l s'' → Later s s''

-- The lease that is out carries the last token.
abbrev HasLastFence : Leader → Type 0
HasLastFence s = (l : LeaderLease) → s.lease ≡ some l → l.fence ≡ s.fence

acquired :
    (s s' : Leader) (l : LeaderLease) (holder : ℕ) (now : ℤ)
    → acquire s holder now ≡ ok (l, s')
    → (l.fence ≡ s.fence + 1) × (s'.fence ≡ s.fence + 1) × (s'.lease ≡ some l)
unfolding acquire
acquired s s' l holder now e = ground arith

renewed :
    (s s' : Leader) (l : LeaderLease) (holder fence : ℕ) (now : ℤ)
    → HasLastFence s
    → renew s holder fence now ≡ ok (l, s')
    → (l.fence ≡ s.fence) × (s'.fence ≡ s.fence) × (s'.lease ≡ some l)
unfolding renew
renewed s s' l holder fence now last e = elim (Option-cases s.lease) [
  | inl out ↦ absurd (ground (arith, out))
  | inr (l', has) ↦ ground (arith, has, last l' has)
]

-- A call issues the last token, and never lowers it.
record Moved (s : Leader) (l : LeaderLease) (s' : Leader) : Type 0 where
  grows : s.fence ≤ s'.fence
  issued : l.fence ≡ s'.fence
  out : s'.lease ≡ some l

Step-Moved : {s s' : Leader} {l : LeaderLease} → HasLastFence s → Step s l s' → Moved s l s'
Step-Moved {s} {s'} {l} last (acquires holder now e) =
    let (a, b, c) = acquired s s' l holder now e in
    record { grows = omega (arith, b); issued = a ∙ sym b; out = c }
Step-Moved {s} {s'} {l} last (renews holder fence now e) =
    let (a, b, c) = renewed s s' l holder fence now last e in
    record { grows = omega (arith, b); issued = a ∙ sym b; out = c }

Step-HasLastFence :
    {s s' : Leader} {l : LeaderLease} → HasLastFence s → Step s l s' → HasLastFence s'
Step-HasLastFence {s' = s'} last step l' has =
    let m = Step-Moved last step in
    subst (λ z. z.fence ≡ s'.fence) (some-injective (sym m.out ∙ has)) m.issued

Reach-HasLastFence : {t : ℤ} {s : Leader} {ls : List LeaderLease} → Reach t s ls → HasLastFence s
unfolding new_leader
Reach-HasLastFence {s = s} (starts e) l has = absurd (ground (arith, e, has))
Reach-HasLastFence (then_ r step) l has = Step-HasLastFence (Reach-HasLastFence r) step l has

-- No issued token is above the last one.
All-mono :
    (m n : ℕ) (ls : List LeaderLease)
    → m ≤ n
    → All (λ l. l.fence ≤ m) ls
    → All (λ l. l.fence ≤ n) ls
All-mono m n [] le h = tt
All-mono m n (l ∷ ls) le h = (omega (arith, h.0), All-mono m n ls le h.1)

Reach-All :
    {t : ℤ} {s : Leader} {ls : List LeaderLease} → Reach t s ls → All (λ l. l.fence ≤ s.fence) ls
Reach-All (starts e) = tt
Reach-All {s = s'} (then_ {s = s} {ls = ls} r step) =
    let m = Step-Moved (Reach-HasLastFence r) step in
    (omega (arith, m.issued), All-mono s.fence s'.fence ls m.grows (Reach-All r))

Later-grows : {s s' : Leader} → HasLastFence s → Later s s' → HasLastFence s' × (s.fence ≤ s'.fence)
Later-grows last now_ = (last, omega arith)
Later-grows last (after before step) =
    let (last', le) = Later-grows last before in
    (Step-HasLastFence last' step, omega (arith, le, (Step-Moved last' step).grows))

old_token_refused :
    (s : Leader) (holder fence : ℕ) (now : ℤ)
    → HasLastFence s
    → fence < s.fence
    → validate s holder fence now ≡ false
unfolding validate
old_token_refused s holder fence now last lt = elim (Option-cases s.lease) [
  | inl out ↦ rw (out, is_valid) refl
  | inr (l, has) ↦
      let newer : (l.fence == fence) ≡ false = ground (arith, last l has, lt) in
      ground (arith, has, newer)
]

every :
    (P : LeaderLease → Type 0) (ls ms : List LeaderLease) (l : LeaderLease)
    → All P (ls ++ l ∷ ms)
    → P l
every P [] ms l h = h.0
every P (x ∷ ls) ms l h = every P ls ms l h.1

-- Once anybody has acquired the lease, no token issued before is ever valid again, for any holder and
-- at any time, whatever calls follow.
pub stale_refused :
    {t : ℤ} {s s₁ s₂ : Leader} {new_ : LeaderLease} (before after_ : List LeaderLease)
    (old : LeaderLease) (holder : ℕ) (at_ : ℤ) (who : ℕ) (when : ℤ)
    → Reach t s (before ++ old ∷ after_)
    → acquire s holder at_ ≡ ok (new_, s₁)
    → Later s₁ s₂
    → validate s₂ who old.fence when ≡ false
stale_refused {s = s} {s₁} {s₂} {new_} before after_ old holder at_ who when r e later =
    let last = Reach-HasLastFence r in
    let bound = every (λ l. l.fence ≤ s.fence) before after_ old (Reach-All r) in
    let step = acquires holder at_ e in
    let (_, up, _) = acquired s s₁ new_ holder at_ e in
    let (last₂, le) = Later-grows (Step-HasLastFence last step) later in
    old_token_refused s₂ who old.fence when last₂ (omega (arith, bound, up, le))

-- While a lease is valid, its holder leads alone: every acquisition and every renewal by another
-- holder raises, with any token, and no other holder is valid.
pub leads_alone :
    (s : Leader) (holder fence other token : ℕ) (now : ℤ)
    → validate s holder fence now ≡ true
    → other ≢ holder
    → other ≢ 0
    → (acquire s other now ≡ err lease_held)
      × (renew s other token now ≡ err invalid_fence)
      × (validate s other token now ≡ false)
unfolding validate acquire renew
leads_alone s holder fence other token now valid ne nz = elim (Option-cases s.lease) [
  | inl out ↦ absurd (ground (arith, out))
  | inr (l, has) ↦ ground (arith, has)
]
