-- ===== src/Resource/Handler.antt =====
-- `ResourceBoundHandler` of neural_pods/resource_runtime.py: a handler that holds a lease of the
-- governor for the time of a call. The wrapped handler is a parameter: any function that may use
-- the governor too, and that returns a value or raises.
use ptr_research.Common.{
  ℕ, ◌+◌, ◌≡◌, Bool, true, false, Option, none, some, inl, inr, Result, ok, err, OnOk-eq_ok,
  Result-cases, if◌then◌else◌, ℤ, pos, ◌+ℤ◌, ◌-ℤ◌, ltb_ℤ, int_laws,
}
use ptr_research.Resource.{
  Tier, Pool, pool_beq, pool_of, Lease, Governor, Error, negative_amount, not_admitted, used_at,
  choose, release,
}
use ptr_research.Resource.Limit.{Outcome, charge-add, choose-Outcome}

-- The fields of the object, without the handler and the governor.
pub record Bound : Type 0 where
  pub amount_bytes : ℤ
  pub preferred : Tier
  pub admitted : ℕ
  pub rejected : ℕ

unfoldable pub new_bound : ℤ → Tier → Result Error Bound
new_bound amount preferred =
    if ltb_ℤ amount (pos 0)
    then err negative_amount
    else ok (record { amount_bytes = amount; preferred = preferred; admitted = 0; rejected = 0 })

-- `finally: self.governor.release(lease)`; an exception of the release replaces the outcome.
abbrev pub replace_by : {A : Type 0} → Result Error (Unit {0}) → Result Error A → Result Error A
replace_by (ok _) out = out
replace_by (err e) out = err e

abbrev pub finish : {A : Type 0} → Lease → Result Error A × Governor → Result Error A × Governor
finish lease (out, g) = (replace_by (release g lease).0 out, (release g lease).1)

finish-used_at :
    {A : Type 0} (lease : Lease) (r : Result Error A × Governor) (k : Pool)
    → used_at (finish lease r).1 k
      ≡ used_at r.1 k +ℤ (if pool_beq (pool_of lease) k then pos 0 -ℤ lease.amount_bytes else pos 0)
unfolding release
finish-used_at lease (out, g) k = charge-add g (pool_of lease) k (pos 0 -ℤ lease.amount_bytes)

charge_cancels :
    (b : Bool) (u a : ℤ) → u +ℤ (if b then a else pos 0) +ℤ (if b then pos 0 -ℤ a else pos 0) ≡ u
charge_cancels true u a = omega int_laws
charge_cancels false u a = omega int_laws

module _ {P R A : Type 0} (handler : P → R → Governor → Result Error A × Governor) where
  -- The outcome, the counters and the governor after a call.
  abbrev pub admitted_call :
      Bound → P → R → Option Lease × Governor → Result Error A × Bound × Governor
  admitted_call b payload request (none, g) =
      (err not_admitted, record b { rejected = b.rejected + 1 }, g)
  admitted_call b payload request (some lease, g) =
      let (out, g') = finish lease (handler payload request g) in
      (out, record b { admitted = b.admitted + 1 }, g')

  unfoldable pub call : Bound → Governor → P → R → Result Error A × Bound × Governor
  call b g payload request = elim (choose g b.amount_bytes b.preferred) [
    | err e ↦ (err e, b, g)
    | ok r ↦ admitted_call b payload request r
  ]

  -- The wrapped handler leaves every pool as it found it.
  abbrev pub KeepsUsed : Type 0
  KeepsUsed =
      (payload : P) (request : R) (g : Governor) (k : Pool)
      → used_at (handler payload request g).1 k ≡ used_at g k

  admitted_call-used_at :
      (b : Bound) (g : Governor) (amount : ℤ) (payload : P) (request : R)
      (r : Option Lease × Governor) (k : Pool)
      → KeepsUsed
      → Outcome g amount r
      → used_at (admitted_call b payload request r).2 k ≡ used_at g k
  admitted_call-used_at b g amount payload request (none, g') k keeps same = rw same
  admitted_call-used_at b g amount payload request (some lease, g') k keeps (_, _, _, eq, same) =
      rw
        (
          finish-used_at lease (handler payload request g') k,
          keeps payload request g' k,
          same,
          charge-add g (pool_of lease) k amount,
          eq,
        )
        (charge_cancels (pool_beq (pool_of lease) k) (used_at g k) amount)

  -- A call gives back what it took: whatever the wrapped handler returns or raises, every pool
  -- holds afterwards what it held before, if the handler itself keeps the pools.
  pub call-used_at :
      (b : Bound) (g : Governor) (payload : P) (request : R) (k : Pool)
      → KeepsUsed
      → used_at (call b g payload request).2 k ≡ used_at g k
  unfolding call
  call-used_at b g payload request k keeps =
      elim (Result-cases (choose g b.amount_bytes b.preferred)) [
        | inl (r, e) ↦
            rw (e, call)
              (admitted_call-used_at b g b.amount_bytes payload request r k keeps (
                OnOk-eq_ok (Outcome g b.amount_bytes) e
                  (choose-Outcome g b.amount_bytes b.preferred)))
        | inr (x, e) ↦ rw (e, call)
      ]
