-- ===== src/Resource/History.antt =====
-- Histories of calls of `ResourceGovernor`: any interleaving of acquisitions, releases,
-- activations and deactivations, and what admission control keeps where its callers play fair.
use ptr_research.Common.{
  ℕ, ◌≡◌, Bool, Option, some, List, [], ◌∷◌, ◌++◌, ok, OnOk-eq_ok, nat_eq, ℤ, pos, ◌+ℤ◌, ◌≤ℤ◌,
  int_laws, count,
}
use ptr_research.Resource.{
  Tier, Pool, Budget, Lease, Residency, Governor, new_governor, used_at, limit, try_acquire, choose,
  release, activate, deactivate,
}
use ptr_research.Resource.Limit.{Outcome, try_acquire-Outcome, choose-Outcome}
use ptr_research.Resource.Granted.{Granted, try_acquire-Granted, choose-Granted}
use ptr_research.Resource.Ledger.{
  IsSound, held_at, resident_at, grant-IsSound, release-IsSound, release-ok, held_at_nonneg,
  resident_at_nonneg, add_nonneg,
}
use ptr_research.Resource.Residents.{activate-IsSound, deactivate-IsSound}

-- One call that changes the governor, with the leases that callers hold before and after it. A lease
-- that is given back is one that is out, or any other: one that was given back before, or was never
-- granted. `release` changes the counter also when it raises.
pub data Step (g : Governor) (held : List Lease) (g' : Governor) (held' : List Lease) : Type 0 where
  acquired :
      (tier : Tier) (amount : ℤ) (device : Option ℕ) (lease : Lease)
      → try_acquire g tier amount device ≡ ok (some lease, g')
      → held' ≡ lease ∷ held
      → Step g held g' held'
  chosen :
      (amount : ℤ) (preferred : Tier) (lease : Lease)
      → choose g amount preferred ≡ ok (some lease, g')
      → held' ≡ lease ∷ held
      → Step g held g' held'
  released :
      (before after : List Lease) (lease : Lease)
      → held ≡ before ++ lease ∷ after
      → g' ≡ (release g lease).1
      → held' ≡ before ++ after
      → Step g held g' held'
  over_released : (lease : Lease) → g' ≡ (release g lease).1 → held' ≡ held → Step g held g' held'
  activated :
      (p gen : ℕ) (amount : ℤ) (preferred : Tier) (r : Option Residency)
      → activate g p gen amount preferred ≡ ok (r, g')
      → held' ≡ held
      → Step g held g' held'
  deactivated :
      (p : ℕ) (gen : Option ℕ) (b : Bool)
      → deactivate g p gen ≡ ok (b, g')
      → held' ≡ held
      → Step g held g' held'

pub data Reach (b : Budget) : Governor → List Lease → Type 0 where
  start : Reach b (new_governor b) []
  next :
      {g g' : Governor} {held held' : List Lease}
      → Reach b g held
      → Step g held g' held'
      → Reach b g' held'

-- What the code leaves to its callers: no pod is activated with a negative amount, and only a lease
-- that is out is given back.
abbrev pub IsFair : {g g' : Governor} {held held' : List Lease} → Step g held g' held' → Type 0
IsFair (acquired tier amount device lease e eh) = Unit
IsFair (chosen amount preferred lease e eh) = Unit
IsFair (released before after lease eh eg eh') = Unit
IsFair (over_released lease eg eh) = ⊥
IsFair (activated p gen amount preferred r e eh) = pos 0 ≤ℤ amount
IsFair (deactivated p gen b e eh) = Unit

abbrev pub AllFair : {b : Budget} {g : Governor} {held : List Lease} → Reach b g held → Type 0
AllFair start = Unit
AllFair (next r s) = AllFair r × IsFair s

Step-IsSound :
    {g g' : Governor} {held held' : List Lease} (s : Step g held g' held')
    → IsFair s
    → IsSound g held
    → IsSound g' held'
Step-IsSound {g} {g'} {held} (acquired tier amount device lease e eh) f v = rw eh (
    grant-IsSound g g' held lease amount
      (OnOk-eq_ok (Granted amount) e (try_acquire-Granted g tier amount device))
      (OnOk-eq_ok (Outcome g amount) e (try_acquire-Outcome g tier amount device)) v)
Step-IsSound {g} {g'} {held} (chosen amount preferred lease e eh) f v = rw eh (
    grant-IsSound g g' held lease amount
      (OnOk-eq_ok (Granted amount) e (choose-Granted g amount preferred))
      (OnOk-eq_ok (Outcome g amount) e (choose-Outcome g amount preferred)) v)
Step-IsSound {g} (released before after lease eh eg eh') f v =
    rw (eg, eh') (release-IsSound g before after lease (rw eh at v))
Step-IsSound (over_released lease eg eh) f v = absurd f
Step-IsSound {g} {g'} {held} (activated p gen amount preferred r e eh) f v =
    rw eh (activate-IsSound g g' held p gen amount preferred r f e v)
Step-IsSound {g} {g'} {held} (deactivated p gen b e eh) f v =
    rw eh (deactivate-IsSound g g' held p gen b e v)

-- No measured limit is negative, as `from_snapshot` makes them.
abbrev pub HasRoom : Budget → Type 0
HasRoom b =
    (tier : Tier) (device : Option ℕ) (l : ℤ)
    → limit (new_governor b) tier device ≡ ok (some l)
    → pos 0 ≤ℤ l

new_governor-IsSound : (b : Budget) → HasRoom b → IsSound (new_governor b) []
unfolding count
new_governor-IsSound b h = record {
  within = h;
  balanced = λ k. omega int_laws;
  charges = tt;
  resident_charges = tt;
  keyed = tt;
}

Reach-IsSound :
    {b : Budget} {g : Governor} {held : List Lease}
    → HasRoom b
    → (r : Reach b g held) → AllFair r
    → IsSound g held
Reach-IsSound {b} h start f = new_governor-IsSound b h
Reach-IsSound h (next r s) f = Step-IsSound s f.1 (Reach-IsSound h r f.0)

-- In every state that calls can reach from a budget without negative limits, if no pod was activated
-- with a negative amount and every lease that was given back was out: a pool with a limit holds at
-- least zero and at most its limit, and exactly the sum of the leases that are out and those of the
-- resident pods.
pub reachable-within_limits :
    {b : Budget} {g : Governor} {held : List Lease}
    → HasRoom b
    → (r : Reach b g held) → AllFair r
    → (tier : Tier) (device : Option ℕ) (l : ℤ) → limit g tier device ≡ ok (some l)
    → (pos 0 ≤ℤ used_at g (tier, device))
      × (used_at g (tier, device) ≤ℤ l)
      × (used_at g (tier, device)
          ≡ held_at (tier, device) held +ℤ resident_at (tier, device) g.residencies)
reachable-within_limits {g = g} {held = held} h r f tier device l e =
    let v = Reach-IsSound h r f in
    let k : Pool = (tier, device) in
    (
      rw (v.balanced k) (
          add_nonneg _ _ (held_at_nonneg k held v.charges)
            (resident_at_nonneg k g.residencies v.resident_charges)),
      v.within tier device l e,
      v.balanced k,
    )

-- In every state that calls can reach from a budget without negative limits, if no pod was activated
-- with a negative amount and every lease that was given back was out: giving back a lease that is out
-- does not raise.
pub reachable-release_ok :
    {b : Budget} {g : Governor} (before after : List Lease) (lease : Lease)
    → HasRoom b
    → (r : Reach b g (before ++ lease ∷ after)) → AllFair r
    → (release g lease).0 ≡ ok tt
reachable-release_ok {g = g} before after lease h r f =
    release-ok g before after lease (Reach-IsSound h r f)
