-- ===== src/Resource/Tests.antt =====
-- Runs of the admission controller on a small budget, and the theorems at inputs of that size.
use ptr_research.Common.{
  ℕ, ◌≡◌, refl, true, Option, none, some, [], ◌∷◌, arith, All, Result, ok, err, nat_eq, pos, negsuc,
  ◌+ℤ◌, ◌-ℤ◌, ◌≤ℤ◌, count, count_add,
}
use ptr_research.Resource.{
  Tier, Pool, Budget, Lease, Residency, Governor, Error, new_governor, limit, used_at, try_acquire,
  release, tier_order, devices, choose_device, choose_tier, choose, reserve_device, reserve_tier,
  activate, deactivate,
}
use ptr_research.Resource.Complete.{DoesNotFit, choose_refuses}
use ptr_research.Resource.Activation.{deactivate-activate}
use ptr_research.Resource.Handler.{Bound, call, call-used_at}
use ptr_research.Resource.Ledger.{held_at, resident_at}
use ptr_research.Resource.History.{
  Reach, start, next, Step, HasRoom, AllFair, reachable-within_limits, reachable-release_ok,
}

-- 10 bytes of memory, 4 on GPU 0, and no measured disk.
abbrev budget : Budget
budget = record { ram_bytes = some (pos 10); vram_bytes = (0, pos 4) ∷ []; disk_bytes = none }

abbrev g0 : Governor
g0 = new_governor budget

program : Unit {0}
unfolding limit try_acquire release tier_order devices choose_device choose_tier choose
    reserve_device reserve_tier activate deactivate count count_add ◌+ℤ◌ ◌-ℤ◌
program = tt

abbrev lease_of : Tier → ℕ → Option ℕ → Lease
lease_of tier amount device = record { tier = tier; amount_bytes = pos amount; device = device }

abbrev g1 : Governor
g1 = record g0 { used = ((Tier.vram, some 0), pos 3) ∷ [] }

choose_vram : choose g0 (pos 3) Tier.vram ≡ ok (some (lease_of Tier.vram 3 (some 0)), g1)
unfolding program
choose_vram = refl

-- 6 bytes exceed the GPU, so they go to memory.
choose_spills :
    choose g0 (pos 6) Tier.vram
    ≡ ok (some (lease_of Tier.ram 6 none), record g0 { used = ((Tier.ram, none), pos 6) ∷ [] })
unfolding program
choose_spills = refl

choose_nothing : choose g0 (pos 11) Tier.vram ≡ ok (none, g0)
unfolding program
choose_nothing = refl

-- A release of what was never taken raises, with the counter already below zero.
release_unknown : (release g0 (lease_of Tier.ram 2 none)).0 ≡ err Error.over_released
unfolding program
release_unknown = refl

-- The limit of memory ignores the device, but the counter does not: two devices get it twice.
ram_per_device :
    (try_acquire g0 Tier.ram (pos 10) (some 1)
      ≡ ok (
        some (lease_of Tier.ram 10 (some 1)),
        record g0 { used = ((Tier.ram, some 1), pos 10) ∷ [] },
      ))
    × (try_acquire
          (record g0 { used = ((Tier.ram, some 1), pos 10) ∷ [] })
          Tier.ram
          (pos 10)
          (some 2)
        ≡ ok (
          some (lease_of Tier.ram 10 (some 2)),
          record g0 { used = ((Tier.ram, some 1), pos 10) ∷ ((Tier.ram, some 2), pos 10) ∷ [] },
        ))
unfolding program
ram_per_device = (refl, refl)

-- An activation with a negative amount takes the counter below zero.
abbrev negative_lease : Lease
negative_lease = record { tier = Tier.ram; amount_bytes = negsuc 4; device = none }

negative_activation :
    activate g0 7 1 (negsuc 4) Tier.ram
    ≡ ok (
      some (record { pod_id = 7; generation = 1; lease = negative_lease }),
      record g0 {
        used = ((Tier.ram, none), negsuc 4) ∷ [];
        residencies = (7, record { pod_id = 7; generation = 1; lease = negative_lease }) ∷ [];
      },
    )
unfolding program
negative_activation = refl

budget-HasRoom : HasRoom budget
unfolding program
budget-HasRoom Tier.ram device l e = ground arith
budget-HasRoom Tier.disk device l e = cc
budget-HasRoom Tier.vram none l e = cc
budget-HasRoom Tier.vram (some d) l e = ground arith
budget-HasRoom Tier.other device l e = cc

history : Reach budget g1 (lease_of Tier.vram 3 (some 0) ∷ [])
history = next start (Step.chosen (pos 3) Tier.vram _ choose_vram refl)

history-AllFair : AllFair history
unfolding history
history-AllFair = (tt, tt)

g1-limit : limit g1 Tier.vram (some 0) ≡ ok (some (pos 4))
unfolding program
g1-limit = refl

reachable-within_limits_example :
    (pos 0 ≤ℤ used_at g1 (Tier.vram, some 0))
    × (used_at g1 (Tier.vram, some 0) ≤ℤ pos 4)
    × (used_at g1 (Tier.vram, some 0)
        ≡ held_at (Tier.vram, some 0) (lease_of Tier.vram 3 (some 0) ∷ [])
          +ℤ resident_at (Tier.vram, some 0) g1.residencies)
reachable-within_limits_example =
    reachable-within_limits budget-HasRoom history history-AllFair Tier.vram (some 0) (pos 4)
      g1-limit

reachable-release_ok_example : (release g1 (lease_of Tier.vram 3 (some 0))).0 ≡ ok tt
reachable-release_ok_example =
    reachable-release_ok [] [] (lease_of Tier.vram 3 (some 0)) budget-HasRoom history
      history-AllFair

order_vram : tier_order Tier.vram ≡ some (Tier.vram ∷ Tier.ram ∷ Tier.disk ∷ [])
unfolding program
order_vram = refl

choose_refuses_example :
    All
      (λ tier. All (DoesNotFit g0 (pos 11) tier) (devices g0 tier))
      (Tier.vram ∷ Tier.ram ∷ Tier.disk ∷ [])
    × (g0 ≡ g0)
choose_refuses_example =
    choose_refuses g0 g0 (pos 11) Tier.vram (Tier.vram ∷ Tier.ram ∷ Tier.disk ∷ []) order_vram
      choose_nothing

abbrev resident : Residency
resident = record { pod_id = 7; generation = 1; lease = lease_of Tier.vram 3 (some 0) }

abbrev g2 : Governor
g2 = record g1 { residencies = (7, resident) ∷ [] }

activate_pod : activate g0 7 1 (pos 3) Tier.vram ≡ ok (some resident, g2)
unfolding program
activate_pod = refl

deactivate-activate_example :
    (g'' : Governor) × (deactivate g2 7 (some 1) ≡ ok (true, g''))
    × (g''.residencies ≡ g0.residencies)
    × ((k : Pool) → used_at g'' k ≡ used_at g0 k)
deactivate-activate_example =
    deactivate-activate g0 g2 7 1 (pos 3) Tier.vram resident refl activate_pod

-- A handler that raises and one that does not use the governor at all.
abbrev raising : ℕ → ℕ → Governor → Result Error ℕ × Governor
raising payload request g = (err Error.handler_failed, g)

abbrev bound : Bound
bound = record { amount_bytes = pos 3; preferred = Tier.vram; admitted = 0; rejected = 0 }

call-used_at_example :
    used_at (call raising bound g0 1 2).2 (Tier.vram, some 0) ≡ used_at g0 (Tier.vram, some 0)
call-used_at_example =
    call-used_at raising bound g0 1 2 (Tier.vram, some 0) (λ payload request g k. refl)
