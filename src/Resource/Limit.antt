-- ===== src/Resource/Limit.antt =====
-- Admission and the limits: what `try_acquire`, `choose` and the loops of `activate` of
-- neural_pods/resource_runtime.py may grant.
use ptr_research.Common.{
  ℕ, ◌≡◌, refl, Option, none, some, List, [], ◌∷◌, inl, inr, arith, Result, ok, OnOk, OnOk-eq_ok,
  Result-cases, subst, Option-cases, Bool-cases, if◌then◌else◌, ℤ, pos, ◌+ℤ◌, ◌≤ℤ◌, ltb_ℤ,
  count-count_add, int_laws,
}
use ptr_research.Resource.{
  Tier, Pool, pool_beq, pool_beq_iff, pool_eq, used_at, Lease, Governor, Error, limit, fits, charge,
  admit, pool_of, try_acquire, devices, choose_device, choose_tier, choose, reserve_device,
  reserve_tier, tier_order,
}

-- Every pool with a limit holds at most that much.
abbrev pub Within : Governor → Type 0
Within g =
    (tier : Tier) (device : Option ℕ) (l : ℤ)
    → limit g tier device ≡ ok (some l)
    → used_at g (tier, device) ≤ℤ l

-- A refusal changes nothing; a grant charges its pool and stays below the limit of that pool.
abbrev pub Outcome : Governor → ℤ → Option Lease × Governor → Type 0
Outcome g amount (none, g') = g' ≡ g
Outcome g amount (some lease, g') =
    (l : ℤ) × (limit g lease.tier lease.device ≡ ok (some l))
    × (used_at g (pool_of lease) +ℤ amount ≤ℤ l)
    × (lease.amount_bytes ≡ amount)
    × (g' ≡ charge g (pool_of lease) amount)

admit-Outcome :
    (g : Governor) (tier : Tier) (device : Option ℕ) (amount : ℤ) (l : Option ℤ)
    → limit g tier device ≡ ok l
    → Outcome g amount (admit g (tier, device) amount l)
admit-Outcome g tier device amount none e = refl
admit-Outcome g tier device amount (some l) e =
    elim (Bool-cases (fits g (tier, device) amount (some l))) [
      | inl yes_ ↦ rw yes_ (l, e, ground arith, refl, refl)
      | inr no_ ↦ rw no_ refl
    ]

pub try_acquire-Outcome :
    (g : Governor) (tier : Tier) (amount : ℤ) (device : Option ℕ)
    → OnOk (Outcome g amount) (try_acquire g tier amount device)
unfolding try_acquire
try_acquire-Outcome g tier amount device = elim (Bool-cases (ltb_ℤ amount (pos 0))) [
  | inl negative ↦ rw negative tt
  | inr fine ↦ rw fine (elim (Result-cases (limit g tier device)) [
    | inl (l, known) ↦ rw known (admit-Outcome g tier device amount l known)
    | inr (e, unknown) ↦ rw unknown tt
  ])
]

-- One charge that fits keeps every pool within its limit.
pub charge-used_at :
    (g : Governor) (k j : Pool) (x : ℤ)
    → used_at (charge g k x) j ≡ (if pool_beq k j then used_at g k +ℤ x else used_at g j)
charge-used_at g k j x = count-count_add k j x g.used

-- The same as a sum, which fits the accounts.
pub charge-add :
    (g : Governor) (k j : Pool) (x : ℤ)
    → used_at (charge g k x) j ≡ used_at g j +ℤ (if pool_beq k j then x else pos 0)
charge-add g k j x = elim (Bool-cases (pool_beq k j)) [
  | inl same ↦
      rw (charge-used_at g k j x, same)
        (subst (λ p. used_at g k +ℤ x ≡ used_at g p +ℤ x) ((pool_beq_iff k j).0 same) refl)
  | inr other ↦ rw (charge-used_at g k j x, other) (omega int_laws)
]

pub charge-limit :
    (g : Governor) (k : Pool) (x : ℤ) (tier : Tier) (device : Option ℕ)
    → limit (charge g k x) tier device ≡ limit g tier device
unfolding limit
charge-limit g k x Tier.ram device = refl
charge-limit g k x _ device = refl

-- The limits depend on the budget alone.
pub limit_budget :
    (g h : Governor) (tier : Tier) (device : Option ℕ)
    → g.budget ≡ h.budget
    → limit g tier device ≡ limit h tier device
unfolding limit
limit_budget g h Tier.ram device e = cc
limit_budget g h Tier.disk device e = cc
limit_budget g h Tier.vram device e = rw e
limit_budget g h Tier.other device e = refl

charge-Within :
    (g : Governor) (k : Pool) (x l : ℤ)
    → limit g k.0 k.1 ≡ ok (some l)
    → used_at g k +ℤ x ≤ℤ l
    → Within g
    → Within (charge g k x)
charge-Within g k x l known below w tier device l' e =
    let e' : limit g tier device ≡ ok (some l') = rw charge-limit at e in
    elim (Bool-cases (pool_beq k (tier, device))) [
      | inl same ↦
          let q = (pool_beq_iff k (tier, device)).0 same in
          let known' = subst (λ (p : Pool). limit g p.0 p.1 ≡ ok (some l)) q known in
          let ll : l ≡ l' = cc in
          rw (charge-used_at g k (tier, device) x, same)
            (subst (λ z. used_at g k +ℤ x ≤ℤ z) ll below)
      | inr other ↦ rw (charge-used_at g k (tier, device) x, other) (w tier device l' e')
    ]

pub Outcome-Within :
    (g : Governor) (amount : ℤ) (r : Option Lease × Governor)
    → Outcome g amount r
    → Within g
    → Within r.1
Outcome-Within g amount (none, g') same w = rw same w
Outcome-Within g amount (some lease, g') (l, known, below, _, same) w =
    rw same (charge-Within g (pool_of lease) amount l known below w)

-- A loop that hands the governor on after each refusal, and stops at the first grant.
Outcome-or_else :
    (g : Governor) (amount : ℤ) (r : Option Lease × Governor)
    (rest : Governor → Result Error (Option Lease × Governor))
    → Outcome g amount r
    → OnOk (Outcome g amount) (rest g)
    → OnOk (Outcome g amount) (elim (r.0) [ some lease ↦ ok r | none ↦ rest r.1 ])
Outcome-or_else g amount (none, g') rest same h = rw same h
Outcome-or_else g amount (some lease, g') rest done h = done

pub choose_device-Outcome :
    (g : Governor) (tier : Tier) (amount : ℤ) (ds : List (Option ℕ))
    → OnOk (Outcome g amount) (choose_device g tier amount ds)
unfolding choose_device
choose_device-Outcome g tier amount [] = refl
choose_device-Outcome g tier amount (d ∷ ds) =
    let h = try_acquire-Outcome g tier amount d in
    elim (Result-cases (try_acquire g tier amount d)) [
      | inl (r, e) ↦ rw e (
          Outcome-or_else g amount r (λ g'. choose_device g' tier amount ds)
            (OnOk-eq_ok (Outcome g amount) e h) (choose_device-Outcome g tier amount ds))
      | inr (x, e) ↦ rw e tt
    ]

choose_tier-Outcome :
    (g : Governor) (amount : ℤ) (tiers : List Tier)
    → OnOk (Outcome g amount) (choose_tier g amount tiers)
unfolding choose_tier
choose_tier-Outcome g amount [] = refl
choose_tier-Outcome g amount (tier ∷ tiers) =
    let h = choose_device-Outcome g tier amount (devices g tier) in
    elim (Result-cases (choose_device g tier amount (devices g tier))) [
      | inl (r, e) ↦ rw e (
          Outcome-or_else g amount r (λ g'. choose_tier g' amount tiers)
            (OnOk-eq_ok (Outcome g amount) e h) (choose_tier-Outcome g amount tiers))
      | inr (x, e) ↦ rw e tt
    ]

pub choose-Outcome :
    (g : Governor) (amount : ℤ) (preferred : Tier)
    → OnOk (Outcome g amount) (choose g amount preferred)
unfolding choose
choose-Outcome g amount preferred = elim (Option-cases (tier_order preferred)) [
  | inl unknown ↦ rw (unknown, choose) tt
  | inr (order, e) ↦ rw (e, choose) (choose_tier-Outcome g amount order)
]

reserve_device-Outcome :
    (g : Governor) (tier : Tier) (amount : ℤ) (ds : List (Option ℕ))
    → OnOk (Outcome g amount) (reserve_device g tier amount ds)
unfolding reserve_device
reserve_device-Outcome g tier amount [] = refl
reserve_device-Outcome g tier amount (d ∷ ds) = elim (Result-cases (limit g tier d)) [
  | inl (l, e) ↦ rw e (
      Outcome-or_else g amount _ (λ g'. reserve_device g' tier amount ds)
        (admit-Outcome g tier d amount l e) (reserve_device-Outcome g tier amount ds))
  | inr (x, e) ↦ rw e tt
]

pub reserve_tier-Outcome :
    (g : Governor) (amount : ℤ) (tiers : List Tier)
    → OnOk (Outcome g amount) (reserve_tier g amount tiers)
unfolding reserve_tier
reserve_tier-Outcome g amount [] = refl
reserve_tier-Outcome g amount (tier ∷ tiers) =
    let h = reserve_device-Outcome g tier amount (devices g tier) in
    elim (Result-cases (reserve_device g tier amount (devices g tier))) [
      | inl (r, e) ↦ rw e (
          Outcome-or_else g amount r (λ g'. reserve_tier g' amount tiers)
            (OnOk-eq_ok (Outcome g amount) e h) (reserve_tier-Outcome g amount tiers))
      | inr (x, e) ↦ rw e tt
    ]
