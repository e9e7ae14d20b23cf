-- ===== src/Mesh/Chain.antt =====
-- Chains of forwards through neural_pods/mesh.py: the hop budget that an envelope carries bounds
-- how far it can go, over any pods and any topics.
use ptr_research.Common.{
  ℕ, ◌+◌, ◌≡◌, refl, sym, ap, subst, ◌∙◌, Bool, true, false, Option, List, [], ◌∷◌, ◌++◌, inl, inr,
  ◌⊎◌, arith, ok, mem, mem-append, All, IsDistinct, length, ℤ, pos, ◌-ℤ◌, ◌≤ℤ◌, int_laws,
}
use ptr_research.Mesh.Envelope.{number, pods, Envelope}
use ptr_research.Mesh.Bounds.{HasHops}
use ptr_research.Mesh.Endpoint.{Topic, Endpoint, forward}
use ptr_research.Mesh.Hops.{Hop, forward-Hop}

number-injective : {a b : ℤ} → number a ≡ number b → a ≡ b
number-injective e = cc

pods-injective : {a b : List ℕ} → pods a ≡ pods b → a ≡ b
pods-injective e = cc

enough_hops :
    (ps : List ℕ) (n : ℤ)
    → pos 1 ≤ℤ n
    → (ps ≡ []) ⊎ (pos (length ps + 1) ≤ℤ n)
    → pos (length ps + 1) ≤ℤ n
enough_hops ps n one (inl none_) = rw none_ one
enough_hops ps n one (inr enough) = enough

module _ (mac : ℕ → Envelope → ℕ) (broker : ℕ → Bool) where
  -- Forwards one after the other, by the pods listed, the last one first.
  pub data Chain (e : Envelope) : List ℕ → Envelope → Type 0 where
    here : Chain e [] e
    hop :
        {ps : List ℕ} {e₁ e₂ : Envelope} (now : ℤ) (p q : Endpoint) (topic : Topic)
        (body : Option ℕ)
        → Chain e ps e₁
        → forward mac broker now p topic e₁ body ≡ (ok true, q)
        → q.sent ≡ (topic, e₂) ∷ p.sent
        → Chain e (p.pod_id ∷ ps) e₂

  -- What a chain from an envelope with budget `n` has come to.
  pub record Travelled (e : Envelope) (n : ℤ) (ps : List ℕ) (e' : Envelope) : Type 0 where
    pub left : e'.hop_budget ≡ number (n -ℤ pos (length ps))
    pub seen : List ℕ
    pub visited : e'.visited ≡ pods seen
    pub listed : All (λ p. mem p seen ≡ true) ps
    pub distinct : IsDistinct ps
    pub deadline : e'.deadline_ms ≡ e.deadline_ms
    pub enough : (ps ≡ []) ⊎ (pos (length ps + 1) ≤ℤ n)

  All-mem_append :
      (ps seen : List ℕ) (p : ℕ)
      → All (λ q. mem q seen ≡ true) ps
      → All (λ q. mem q (seen ++ p ∷ []) ≡ true) ps
  All-mem_append [] seen p h = tt
  All-mem_append (q ∷ ps) seen p h =
      (rw (mem-append q seen (p ∷ [])) (ground arith), All-mem_append ps seen p h.1)

  not_listed :
      (ps seen : List ℕ) (p : ℕ)
      → All (λ q. mem q seen ≡ true) ps
      → mem p seen ≡ false
      → mem p ps ≡ false
  not_listed [] seen p h k = refl
  not_listed (q ∷ ps) seen p h k = ground (arith, not_listed ps seen p h.1 k)

  Hop-Travelled :
      {e e₁ e₂ : Envelope} {ps : List ℕ} {n : ℤ} (now : ℤ) (p : Endpoint) (topic : Topic)
      → Hop now p topic e₁ e₂
      → Travelled e n ps e₁
      → Travelled e n (p.pod_id ∷ ps) e₂
  Hop-Travelled {ps = ps} {n = n} now p topic h t =
      let eb : h.budget ≡ n -ℤ pos (length ps) = number-injective (sym h.had_budget ∙ t.left) in
      let es : h.seen ≡ t.seen = pods-injective (sym h.was_visited ∙ t.visited) in
      let (two, new) = subst (HasHops p.pod_id true h.seen) h.had_budget h.bounds.1 in
      record {
        left = rw (h.new_budget, eb) (ap number (omega int_laws));
        seen = t.seen ++ p.pod_id ∷ [];
        visited = rw (h.new_visited, es);
        listed = (
          rw (mem-append p.pod_id t.seen (p.pod_id ∷ [])) (ground arith),
          All-mem_append ps t.seen p.pod_id t.listed,
        );
        distinct = (not_listed ps t.seen p.pod_id t.listed (rw es at new), t.distinct);
        deadline = h.same_deadline ∙ t.deadline;
        enough = inr (omega (int_laws, rw eb at two));
      }

  Chain-Travelled :
      {e e' : Envelope} {ps : List ℕ} {n : ℤ} (seen : List ℕ)
      → e.hop_budget ≡ number n
      → e.visited ≡ pods seen
      → Chain e ps e'
      → Travelled e n ps e'
  Chain-Travelled {n = n} seen eb ev here = record {
    left = rw eb (ap number (omega int_laws));
    seen = seen;
    visited = ev;
    listed = tt;
    distinct = tt;
    deadline = refl;
    enough = inl refl;
  }
  Chain-Travelled seen eb ev (hop {e₁ = e₁} {e₂ = e₂} now p q topic body c h sent) =
      Hop-Travelled now p topic (forward-Hop mac broker now p q topic e₁ e₂ body h sent)
        (Chain-Travelled seen eb ev c)

  -- A message with hop budget `n` is forwarded fewer than `n` times, by pods that are all
  -- different, whatever pods, topics and times are involved; the budget on the wire is `n` less
  -- the hops made, and the deadline field is the one that the message set out with.
  pub hops_bounded :
      {e e' : Envelope} {ps : List ℕ} {n : ℤ} (seen : List ℕ)
      → e.hop_budget ≡ number n
      → e.visited ≡ pods seen
      → pos 1 ≤ℤ n
      → Chain e ps e'
      → (pos (length ps + 1) ≤ℤ n)
        × IsDistinct ps
        × (e'.hop_budget ≡ number (n -ℤ pos (length ps)))
        × (e'.deadline_ms ≡ e.deadline_ms)
  hops_bounded {ps = ps} {n = n} seen eb ev one c =
      let t = Chain-Travelled seen eb ev c in
      (enough_hops ps n one t.enough, t.distinct, t.left, t.deadline)

  -- The time of a message stays the one that it had before its first hop, once it has one.
  pub start_kept :
      {e e' : Envelope} {ps : List ℕ} {t : ℤ}
      → e.ts_ms ≡ number t
      → Chain e ps e'
      → e'.ts_ms ≡ number t
  start_kept et here = et
  start_kept et (hop {e₁ = e₁} {e₂ = e₂} now p q topic body c h sent) =
      let one_hop = forward-Hop mac broker now p q topic e₁ e₂ body h sent in
      let earlier = start_kept et c in rw (one_hop.same_start, earlier)
