-- ===== src/Resource/Complete.antt =====
-- `choose` of neural_pods/resource_runtime.py refuses only what fits nowhere.
use ptr_research.Common.{
  ℕ, ◌≡◌, Option, none, some, List, [], ◌∷◌, inl, inr, arith, All, ok, OnOk-eq_ok, Result-cases, ℤ,
  ◌+ℤ◌, ◌≤ℤ◌,
}
use ptr_research.Resource.{
  Tier, Governor, limit, used_at, try_acquire, devices, choose_device, choose_tier, choose,
  tier_order,
}
use ptr_research.Resource.Limit.{
  Outcome, try_acquire-Outcome, choose_device-Outcome, choose-Outcome,
}

-- No limit of the pool leaves room for the amount.
abbrev pub DoesNotFit : Governor → ℤ → Tier → Option ℕ → Type 0
DoesNotFit g amount tier device =
    (l : ℤ) → limit g tier device ≡ ok (some l) → ¬ (used_at g (tier, device) +ℤ amount ≤ℤ l)

try_acquire_refuses :
    (g g' : Governor) (amount : ℤ) (tier : Tier) (device : Option ℕ)
    → try_acquire g tier amount device ≡ ok (none, g')
    → DoesNotFit g amount tier device
unfolding try_acquire
try_acquire_refuses g g' amount tier device e l known below = ground arith

choose_device_refuses :
    (g g' : Governor) (amount : ℤ) (tier : Tier) (ds : List (Option ℕ))
    → choose_device g tier amount ds ≡ ok (none, g')
    → All (DoesNotFit g amount tier) ds
unfolding choose_device
choose_device_refuses g g' amount tier [] e = tt
choose_device_refuses g g' amount tier (d ∷ ds) e =
    elim (Result-cases (try_acquire g tier amount d)) [
      | inl ((none, g₁), r) ↦
          let same : g₁ ≡ g =
            OnOk-eq_ok (Outcome g amount) r (try_acquire-Outcome g tier amount d) in
          (
            try_acquire_refuses g g₁ amount tier d r,
            choose_device_refuses g g' amount tier ds (rw (r, same) at e),
          )
      | inl ((some lease, g₁), r) ↦ absurd (ground arith)
      | inr (x, r) ↦ absurd (ground arith)
    ]

choose_tier_refuses :
    (g g' : Governor) (amount : ℤ) (tiers : List Tier)
    → choose_tier g amount tiers ≡ ok (none, g')
    → All (λ tier. All (DoesNotFit g amount tier) (devices g tier)) tiers
unfolding choose_tier
choose_tier_refuses g g' amount [] e = tt
choose_tier_refuses g g' amount (tier ∷ tiers) e =
    elim (Result-cases (choose_device g tier amount (devices g tier))) [
      | inl ((none, g₁), r) ↦
          let same : g₁ ≡ g =
            OnOk-eq_ok (Outcome g amount) r
              (choose_device-Outcome g tier amount (devices g tier)) in
          (
            choose_device_refuses g g₁ amount tier (devices g tier) r,
            choose_tier_refuses g g' amount tiers (rw (r, same) at e),
          )
      | inl ((some lease, g₁), r) ↦ absurd (ground arith)
      | inr (x, r) ↦ absurd (ground arith)
    ]

-- When `choose` returns no lease, the amount fits no device of any tier from the preferred one
-- downwards, and nothing has changed.
pub choose_refuses :
    (g g' : Governor) (amount : ℤ) (preferred : Tier) (order : List Tier)
    → tier_order preferred ≡ some order
    → choose g amount preferred ≡ ok (none, g')
    → All (λ tier. All (DoesNotFit g amount tier) (devices g tier)) order × (g' ≡ g)
unfolding choose
choose_refuses g g' amount preferred order known e = (
  choose_tier_refuses g g' amount order (rw (known, choose) at e),
  OnOk-eq_ok (Outcome g amount) e (choose-Outcome g amount preferred),
)
