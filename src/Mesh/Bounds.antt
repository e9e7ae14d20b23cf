-- ===== src/Mesh/Bounds.antt =====
-- What `envelope_refusal` of neural_pods/mesh.py lets through, in both directions.
use ptr_research.Common.{
  ℕ, ◌≡◌, refl, ◌↔◌, Bool, true, false, none, List, arith, ok, mem, ℤ, pos, ◌+ℤ◌, ◌-ℤ◌, ◌≤ℤ◌,
}
use ptr_research.Mesh.Envelope.{
  Wire, absent, refused, number, infinite, Visited, pods, not_a_list, not_iterable, Envelope,
  deadline_refusal, budget_refusal, envelope_refusal,
}

-- The deadline has not passed, or one of its halves is missing. One at an infinite time passes never
-- or is always past, and there is none when the halves are infinite with different signs.
abbrev pub InTime : ℤ → Wire → Wire → Type 0
InTime now absent started = Unit
InTime now deadline absent = Unit
InTime now (number d) (number s) = now ≤ℤ s +ℤ d
InTime now (number d) (infinite true) = Unit
InTime now (infinite true) (number s) = Unit
InTime now (infinite true) (infinite positive) = Unit
InTime now (infinite false) (infinite true) = Unit
InTime now _ _ = ⊥

-- The hop budget is not spent; on the way out there must be one, and the pod must be new.
abbrev pub HasHops : ℕ → Bool → List ℕ → Wire → Type 0
HasHops pod_id false seen absent = Unit
HasHops pod_id false seen (number n) = pos 1 ≤ℤ n
HasHops pod_id true seen (number n) = (pos 2 ≤ℤ n) × (mem pod_id seen ≡ false)
HasHops pod_id _ seen _ = ⊥

abbrev pub WithinBounds : ℕ → ℤ → Bool → Envelope → Visited → Type 0
WithinBounds pod_id now forwarding e not_a_list = ⊥
WithinBounds pod_id now forwarding e not_iterable = ⊥
WithinBounds pod_id now forwarding e (pods seen) =
    InTime now e.deadline_ms e.ts_ms × HasHops pod_id forwarding seen e.hop_budget

in_time : (now : ℤ) (d s : Wire) → (deadline_refusal now d s ≡ ok none) ↔ InTime now d s
unfolding deadline_refusal ◌+ℤ◌
in_time now absent s = ground arith
in_time now refused absent = ground arith
in_time now refused refused = ground arith
in_time now d s = ground arith

has_hops :
    (pod_id : ℕ) (forwarding : Bool) (seen : List ℕ) (b : Wire)
    → (budget_refusal pod_id forwarding seen b ≡ ok none) ↔ HasHops pod_id forwarding seen b
unfolding budget_refusal ◌-ℤ◌
has_hops pod_id false seen absent = ground arith
has_hops pod_id true seen absent = ground arith
has_hops pod_id false seen (number n) = ground arith
has_hops pod_id true seen (number n) = ground arith
has_hops pod_id false seen b = ground arith
has_hops pod_id true seen b = ground arith

within_cases :
    (pod_id : ℕ) (now : ℤ) (forwarding : Bool) (e : Envelope) (v : Visited)
    → e.visited ≡ v
    → (envelope_refusal pod_id now forwarding e ≡ ok none) ↔ WithinBounds pod_id now forwarding e v
unfolding envelope_refusal
within_cases pod_id now forwarding e not_a_list h = rw (h, envelope_refusal) (ground arith)
within_cases pod_id now forwarding e not_iterable h = rw (h, envelope_refusal) (ground arith)
within_cases pod_id now forwarding e (pods seen) h =
    rw (h, envelope_refusal)
      (ground
        (arith, in_time now e.deadline_ms e.ts_ms, has_hops pod_id forwarding seen e.hop_budget))

-- The decision lets an envelope through exactly when its bounds hold: `visited` is a list, the
-- deadline, where both of its halves are there, has not passed, and on arrival the hop budget,
-- where there is one, is at least 1; on the way out there is one, of at least 2, and the pod has
-- not been visited.
pub envelope_refusal-WithinBounds :
    (pod_id : ℕ) (now : ℤ) (forwarding : Bool) (e : Envelope)
    → (envelope_refusal pod_id now forwarding e ≡ ok none)
      ↔ WithinBounds pod_id now forwarding e e.visited
envelope_refusal-WithinBounds pod_id now forwarding e =
    within_cases pod_id now forwarding e e.visited refl
