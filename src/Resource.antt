-- ===== src/Resource.antt =====
-- The admission controller of neural_pods/resource_runtime.py: budgets, leases, residencies, and
-- the handler that holds a lease for the time of a call. Pod ids and generations are numbers, of
-- which 0 is the empty string; `device=None` is `none`. Amounts are Python's signed integers.
pub mod Limit
pub mod Granted
pub mod Activation
pub mod Complete
pub mod Handler
pub mod Ledger
pub mod Residents
pub mod History
mod Tests
use ptr_research.Common.{
  ℕ, ◌≡◌, ◌↔◌, Bool, true, false, ◌||◌, ◌&&◌, Option, none, some, List, [], ◌∷◌, map, arith,
  if◌then◌else◌, ◌==◌, Eq, nat_eq, Dict, keys, lookup, insert, erase, Result, ok, err, ◌>>=◌, ◌>>◌,
  raise_if, ℤ, pos, ◌+ℤ◌, ◌-ℤ◌, ltb_ℤ, leb_ℤ, count, count_add,
}

-- The tier strings; `other` is any string that the code does not know.
pub data Tier : Type 0 where
  ram disk vram other : Tier

abbrev pub tier_beq : Tier → Tier → Bool
tier_beq Tier.ram Tier.ram = true
tier_beq Tier.disk Tier.disk = true
tier_beq Tier.vram Tier.vram = true
tier_beq Tier.other Tier.other = true
tier_beq _ _ = false

-- A key of the counter `_used`.
abbrev pub Pool : Type 0
Pool = Tier × Option ℕ

abbrev pub device_beq : Option ℕ → Option ℕ → Bool
device_beq none none = true
device_beq (some a) (some b) = a == b
device_beq _ _ = false

abbrev pub pool_beq : Pool → Pool → Bool
pool_beq (t, d) (t', d') = tier_beq t t' && device_beq d d'

pub pool_beq_iff : (a b : Pool) → (pool_beq a b ≡ true) ↔ (a ≡ b)
pool_beq_iff (t, d) (t', d') = ground arith

instance abbrev pub pool_eq : Eq Pool
pool_eq = record { beq = pool_beq; beq_iff = pool_beq_iff }

-- `ResourceBudget`.
pub record Budget : Type 0 where
  pub ram_bytes : Option ℤ
  pub vram_bytes : Dict ℕ ℤ
  pub disk_bytes : Option ℤ

-- `ResourceLease`.
pub record Lease : Type 0 where
  pub tier : Tier
  pub amount_bytes : ℤ
  pub device : Option ℕ

-- `ResidencyLease`.
pub record Residency : Type 0 where
  pub pod_id : ℕ
  pub generation : ℕ
  pub lease : Lease

-- The fields of `ResourceGovernor`.
pub record Governor : Type 0 where
  pub budget : Budget
  pub used : Dict Pool ℤ
  pub residencies : Dict ℕ Residency

pub data Error : Type 0 where
  unknown_tier negative_amount unknown_preferred over_released missing_identity : Error
  different_generation stale_generation not_admitted handler_failed : Error

-- `ResourceGovernor(budget)`.
abbrev pub new_governor : Budget → Governor
new_governor budget = record { budget = budget; used = []; residencies = [] }

abbrev pub pool_of : Lease → Pool
pool_of lease = (lease.tier, lease.device)

-- `budget.vram_bytes.get(device)`.
abbrev pub vram_limit : Budget → Option ℕ → Option ℤ
vram_limit b none = none
vram_limit b (some d) = lookup d b.vram_bytes

-- `_limit`.
unfoldable pub limit : Governor → Tier → Option ℕ → Result Error (Option ℤ)
limit g Tier.ram device = ok g.budget.ram_bytes
limit g Tier.disk device = ok g.budget.disk_bytes
limit g Tier.vram device = ok (vram_limit g.budget device)
limit g Tier.other device = err unknown_tier

-- `self._used[key]`.
abbrev pub used_at : Governor → Pool → ℤ
used_at g key = count key g.used

-- `limit is None or self._used[key] + amount_bytes > limit`, negated.
abbrev pub fits : Governor → Pool → ℤ → Option ℤ → Bool
fits g key amount none = false
fits g key amount (some l) = leb_ℤ (used_at g key +ℤ amount) l

-- The update that an admission makes: `self._used[key] += amount_bytes`.
abbrev pub charge : Governor → Pool → ℤ → Governor
charge g key amount = record g { used = count_add key amount g.used }

abbrev pub lease_at : Pool → ℤ → Lease
lease_at (tier, device) amount = record { tier = tier; amount_bytes = amount; device = device }

abbrev pub admit : Governor → Pool → ℤ → Option ℤ → Option Lease × Governor
admit g key amount l =
    if fits g key amount l then (some (lease_at key amount), charge g key amount) else (none, g)

unfoldable pub try_acquire : Governor → Tier → ℤ → Option ℕ → Result Error (Option Lease × Governor)
try_acquire g tier amount device = do
  raise_if (ltb_ℤ amount (pos 0)) negative_amount
  l ← limit g tier device
  ok (admit g (tier, device) amount l)

-- The counter is written before the check, so the new state comes back after the exception too.
unfoldable pub release : Governor → Lease → Result Error (Unit {0}) × Governor
release g lease =
    let key = pool_of lease in
    let g' = charge g key (pos 0 -ℤ lease.amount_bytes) in
    (raise_if (ltb_ℤ (used_at g' key) (pos 0)) over_released, g')

-- The table of tiers to try, from the preferred one downwards.
unfoldable pub tier_order : Tier → Option (List Tier)
tier_order Tier.vram = some (Tier.vram ∷ Tier.ram ∷ Tier.disk ∷ [])
tier_order Tier.ram = some (Tier.ram ∷ Tier.disk ∷ [])
tier_order Tier.disk = some (Tier.disk ∷ [])
tier_order Tier.other = none

-- `tuple(self.budget.vram_bytes) if tier == "vram" else (None,)`.
unfoldable pub devices : Governor → Tier → List (Option ℕ)
devices g tier = if tier_beq tier Tier.vram then map some (keys g.budget.vram_bytes) else none ∷ []

-- The inner loop of `choose`.
unfoldable pub choose_device :
    Governor → Tier → ℤ → List (Option ℕ) → Result Error (Option Lease × Governor)
choose_device g tier amount [] = ok (none, g)
choose_device g tier amount (device ∷ rest) = do
  r ← try_acquire g tier amount device
  elim (r.0) [ some lease ↦ ok r | none ↦ choose_device (r.1) tier amount rest ]

-- The outer loop.
unfoldable pub choose_tier : Governor → ℤ → List Tier → Result Error (Option Lease × Governor)
choose_tier g amount [] = ok (none, g)
choose_tier g amount (tier ∷ rest) = do
  r ← choose_device g tier amount (devices g tier)
  elim (r.0) [ some lease ↦ ok r | none ↦ choose_tier (r.1) amount rest ]

unfoldable pub choose : Governor → ℤ → Tier → Result Error (Option Lease × Governor)
choose g amount preferred = elim (tier_order preferred) [
  | none ↦ err unknown_preferred
  | some order ↦ choose_tier g amount order
]

-- The inner loop of `activate`, which admits by itself and has no check for negative amounts.
unfoldable pub reserve_device :
    Governor → Tier → ℤ → List (Option ℕ) → Result Error (Option Lease × Governor)
reserve_device g tier amount [] = ok (none, g)
reserve_device g tier amount (device ∷ rest) = do
  l ← limit g tier device
  let r = admit g (tier, device) amount l
  elim (r.0) [ some lease ↦ ok r | none ↦ reserve_device (r.1) tier amount rest ]

unfoldable pub reserve_tier : Governor → ℤ → List Tier → Result Error (Option Lease × Governor)
reserve_tier g amount [] = ok (none, g)
reserve_tier g amount (tier ∷ rest) = do
  r ← reserve_device g tier amount (devices g tier)
  elim (r.0) [ some lease ↦ ok r | none ↦ reserve_tier (r.1) amount rest ]

-- The end of `activate`: record the residency, if a resource was found.
abbrev pub settle : ℕ → ℕ → Option Lease × Governor → Option Residency × Governor
settle pod_id generation (none, g) = (none, g)
settle pod_id generation (some lease, g) =
    let r : Residency = record { pod_id = pod_id; generation = generation; lease = lease } in
    (some r, record g { residencies = insert pod_id r g.residencies })

abbrev pub reserve :
    Governor → ℕ → ℕ → ℤ → Option (List Tier) → Result Error (Option Residency × Governor)
reserve g pod_id generation amount none = err unknown_preferred
reserve g pod_id generation amount (some order) = do
  r ← reserve_tier g amount order
  ok (settle pod_id generation r)

unfoldable pub activate : Governor → ℕ → ℕ → ℤ → Tier → Result Error (Option Residency × Governor)
activate g pod_id generation amount preferred = do
  raise_if (pod_id == 0 || generation == 0) missing_identity
  elim (lookup pod_id g.residencies) [
    | some current ↦
        if current.generation == generation then ok (some current, g) else err different_generation
    | none ↦ reserve g pod_id generation amount (tier_order preferred)
  ]

-- `generation is not None and residency.generation != generation`.
abbrev pub is_stale : Option ℕ → Residency → Bool
is_stale none r = false
is_stale (some gen) r = if r.generation == gen then false else true

unfoldable pub deactivate : Governor → ℕ → Option ℕ → Result Error (Bool × Governor)
deactivate g pod_id generation = elim (lookup pod_id g.residencies) [
  | none ↦ ok (false, g)
  | some r ↦ do
    raise_if (is_stale generation r) stale_generation
    let g' = charge g (pool_of r.lease) (pos 0 -ℤ r.lease.amount_bytes)
    ok (true, record g' { residencies = erase pod_id g.residencies })
]
