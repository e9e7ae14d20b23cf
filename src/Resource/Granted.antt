-- ===== src/Resource/Granted.antt =====
-- What `try_acquire` and `choose` of neural_pods/resource_runtime.py refuse to grant.
use ptr_research.Common.{
  ℕ, Option, none, some, List, [], ◌∷◌, inl, inr, arith, Result, ok, OnOk, OnOk-eq_ok, Result-cases,
  Option-cases, Bool-cases, ℤ, pos, ◌≤ℤ◌, ltb_ℤ,
}
use ptr_research.Resource.{
  Tier, pool_eq, Lease, Governor, Error, limit, admit, try_acquire, devices, choose_device,
  choose_tier, choose, tier_order,
}

-- `try_acquire`, and so `choose`, grants no negative amount.
abbrev pub Granted : ℤ → Option Lease × Governor → Type 0
Granted amount (none, g') = Unit
Granted amount (some lease, g') = pos 0 ≤ℤ amount

nonneg-Granted : (amount : ℤ) (r : Option Lease × Governor) → pos 0 ≤ℤ amount → Granted amount r
nonneg-Granted amount (none, g') h = tt
nonneg-Granted amount (some lease, g') h = h

pub try_acquire-Granted :
    (g : Governor) (tier : Tier) (amount : ℤ) (device : Option ℕ)
    → OnOk (Granted amount) (try_acquire g tier amount device)
unfolding try_acquire
try_acquire-Granted g tier amount device = elim (Bool-cases (ltb_ℤ amount (pos 0))) [
  | inl negative ↦ rw negative tt
  | inr fine ↦ rw fine (elim (Result-cases (limit g tier device)) [
    | inl (l, known) ↦
        rw known (nonneg-Granted amount (admit g (tier, device) amount l) (ground (arith, fine)))
    | inr (e, unknown) ↦ rw unknown tt
  ])
]

Granted-or_else :
    (amount : ℤ) (r : Option Lease × Governor)
    (rest : Governor → Result Error (Option Lease × Governor))
    → Granted amount r
    → ((g : Governor) → OnOk (Granted amount) (rest g))
    → OnOk (Granted amount) (elim (r.0) [ some lease ↦ ok r | none ↦ rest r.1 ])
Granted-or_else amount (none, g') rest h k = k g'
Granted-or_else amount (some lease, g') rest h k = h

choose_device-Granted :
    (tier : Tier) (amount : ℤ) (ds : List (Option ℕ)) (g : Governor)
    → OnOk (Granted amount) (choose_device g tier amount ds)
unfolding choose_device
choose_device-Granted tier amount [] g = tt
choose_device-Granted tier amount (d ∷ ds) g = elim (Result-cases (try_acquire g tier amount d)) [
  | inl (r, e) ↦ rw e (
      Granted-or_else amount r (λ g'. choose_device g' tier amount ds)
        (OnOk-eq_ok (Granted amount) e (try_acquire-Granted g tier amount d))
        (λ g'. choose_device-Granted tier amount ds g'))
  | inr (x, e) ↦ rw e tt
]

choose_tier-Granted :
    (amount : ℤ) (tiers : List Tier) (g : Governor)
    → OnOk (Granted amount) (choose_tier g amount tiers)
unfolding choose_tier
choose_tier-Granted amount [] g = tt
choose_tier-Granted amount (tier ∷ tiers) g =
    let h = choose_device-Granted tier amount (devices g tier) g in
    elim (Result-cases (choose_device g tier amount (devices g tier))) [
      | inl (r, e) ↦ rw e (
          Granted-or_else amount r (λ g'. choose_tier g' amount tiers)
            (OnOk-eq_ok (Granted amount) e h) (λ g'. choose_tier-Granted amount tiers g'))
      | inr (x, e) ↦ rw e tt
    ]

pub choose-Granted :
    (g : Governor) (amount : ℤ) (preferred : Tier)
    → OnOk (Granted amount) (choose g amount preferred)
unfolding choose
choose-Granted g amount preferred = elim (Option-cases (tier_order preferred)) [
  | inl unknown ↦ rw (unknown, choose) tt
  | inr (order, e) ↦ rw (e, choose) (choose_tier-Granted amount order g)
]
