-- ===== src/Resource/Activation.antt =====
-- `activate` and `deactivate` of neural_pods/resource_runtime.py: one generation of a pod at a
-- time, and the resources that it holds.
use ptr_research.Common.{
  ℕ, ◌≡◌, refl, sym, ◌≢◌, Bool, true, false, ◌||◌, Option, none, some, inl, inr, ◌⊎◌, arith, ok,
  err, OnOk, OnOk-eq_ok, Result-cases, Option-cases, Bool-cases, if◌then◌else◌, ◌==◌, nat_eq,
  lookup, insert, erase, lookup-insert, erase-insert_absent, ℤ, pos, ◌+ℤ◌, ◌-ℤ◌, List, int_laws,
}
use ptr_research.Resource.{
  Tier, Pool, pool_of, Lease, Residency, Governor, different_generation, charge, used_at, pool_beq,
  tier_order, reserve_tier, reserve, settle, activate, deactivate,
}
use ptr_research.Resource.Limit.{Outcome, charge-add, reserve_tier-Outcome}

abbrev pub residency : ℕ → ℕ → Lease → Residency
residency pod_id generation lease = record {
  pod_id = pod_id;
  generation = generation;
  lease = lease;
}

abbrev pub with_residency : Governor → ℕ → Residency → Governor
with_residency g pod_id r = record g { residencies = insert pod_id r g.residencies }

-- What a call of `activate` that returns has done: nothing, or one grant that it recorded.
abbrev pub Activated : Governor → ℕ → ℕ → ℤ → Option Residency × Governor → Type 0
Activated g pod_id generation amount (r, g') =
    (g' ≡ g) × (r ≡ lookup pod_id g.residencies)
    ⊎ ((lease : Lease) × (g₁ : Governor) × Outcome g amount (some lease, g₁)
        × (lookup pod_id g.residencies ≡ none)
        × (r ≡ some (residency pod_id generation lease))
        × (g' ≡ with_residency g₁ pod_id (residency pod_id generation lease)))

settle-Activated :
    (g : Governor) (pod_id generation : ℕ) (amount : ℤ) (r : Option Lease × Governor)
    → lookup pod_id g.residencies ≡ none
    → Outcome g amount r
    → Activated g pod_id generation amount (settle pod_id generation r)
settle-Activated g p gen a (none, g') free same = inl (same, sym free)
settle-Activated g p gen a (some lease, g') free o = inr (lease, g', o, free, refl, refl)

reserve-Activated :
    (g : Governor) (pod_id generation : ℕ) (amount : ℤ) (order : Option (List Tier))
    → lookup pod_id g.residencies ≡ none
    → OnOk (Activated g pod_id generation amount) (reserve g pod_id generation amount order)
reserve-Activated g p gen a none free = tt
reserve-Activated g p gen a (some order) free = elim (Result-cases (reserve_tier g a order)) [
  | inl (r, e) ↦ rw e (
      settle-Activated g p gen a r free
        (OnOk-eq_ok (Outcome g a) e (reserve_tier-Outcome g a order)))
  | inr (x, e) ↦ rw e tt
]

pub activate-Activated :
    (g : Governor) (pod_id generation : ℕ) (amount : ℤ) (preferred : Tier)
    → OnOk (Activated g pod_id generation amount) (activate g pod_id generation amount preferred)
unfolding activate
activate-Activated g p gen a preferred = elim (Bool-cases (p == 0 || gen == 0)) [
  | inl missing ↦ rw missing tt
  | inr named ↦ rw named (elim (Option-cases (lookup p g.residencies)) [
    | inl free ↦ rw free (reserve-Activated g p gen a (tier_order preferred) free)
    | inr (r, e) ↦ rw e (elim (Bool-cases (r.generation == gen)) [
      | inl same ↦ rw same (inl (refl, sym e))
      | inr other ↦ rw other tt
    ])
  ])
]

-- A resident pod is never switched to another generation, at any amount and preference; a second
-- activation of the same generation returns the residency that is there and changes nothing.
pub activate_resident :
    (g : Governor) (pod_id generation : ℕ) (amount : ℤ) (preferred : Tier) {r : Residency}
    → pod_id ≢ 0
    → generation ≢ 0
    → lookup pod_id g.residencies ≡ some r
    → activate g pod_id generation amount preferred
      ≡ (if r.generation == generation then ok (some r, g) else err different_generation)
unfolding activate
activate_resident g p gen a preferred np ng e = ground arith

charge_cancels :
    (b : Bool) (u a : ℤ) → u +ℤ (if b then a else pos 0) +ℤ (if b then pos 0 -ℤ a else pos 0) ≡ u
charge_cancels true u a = omega int_laws
charge_cancels false u a = omega int_laws

-- The governor after a grant, a residency recorded, and both taken back.
abbrev pub restored : Governor → ℕ → Residency → Governor
restored g p r = record (charge g (pool_of r.lease) (pos 0 -ℤ r.lease.amount_bytes)) {
  residencies = erase p g.residencies;
}

restored-used_at :
    (g g₁ : Governor) (p gen : ℕ) (lease : Lease) (k : Pool)
    → g₁ ≡ charge g (pool_of lease) lease.amount_bytes
    → used_at (restored (with_residency g₁ p (residency p gen lease)) p (residency p gen lease)) k
      ≡ used_at g k
restored-used_at g g₁ p gen lease k same =
    rw
      (
        charge-add (with_residency g₁ p (residency p gen lease)) (pool_of lease) k
            (pos 0 -ℤ lease.amount_bytes),
        same,
        charge-add g (pool_of lease) k lease.amount_bytes,
      )
      (charge_cancels (pool_beq (pool_of lease) k) (used_at g k) lease.amount_bytes)

deactivate_resident :
    (g : Governor) (p gen : ℕ) {r : Residency}
    → lookup p g.residencies ≡ some r
    → r.generation ≡ gen
    → deactivate g p (some gen) ≡ ok (true, restored g p r)
unfolding deactivate
deactivate_resident g p gen e same = ground arith

-- `deactivate` undoes a fresh `activate`: the pod is not resident any more, and every pool holds
-- what it held before.
pub deactivate-activate :
    (g g' : Governor) (p gen : ℕ) (a : ℤ) (preferred : Tier) (r : Residency)
    → lookup p g.residencies ≡ none
    → activate g p gen a preferred ≡ ok (some r, g')
    → (g'' : Governor) × (deactivate g' p (some gen) ≡ ok (true, g''))
      × (g''.residencies ≡ g.residencies)
      × ((k : Pool) → used_at g'' k ≡ used_at g k)
deactivate-activate g g' p gen a preferred r free e =
    elim (OnOk-eq_ok (Activated g p gen a) e (activate-Activated g p gen a preferred)) [
      | inl (_, none_) ↦ cc
      | inr (lease, g₁, (l, known, below, eq, same), _, eqr, same') ↦
          let new = residency p gen lease in
          (
            restored g' p new,
            rw same' (
                deactivate_resident (with_residency g₁ p new) p gen {r = new}
                  (ground (arith, lookup-insert p p new g₁.residencies)) refl),
            rw (same', same) (erase-insert_absent p new g.residencies free),
            λ k. rw same' (restored-used_at g g₁ p gen lease k (rw eq same)),
          )
    ]

-- A call of `deactivate` that returns has done nothing, or taken the residency back.
pub deactivate_cases :
    (g g' : Governor) (p : ℕ) (gen : Option ℕ) (b : Bool)
    → deactivate g p gen ≡ ok (b, g')
    → (g' ≡ g) ⊎ ((r : Residency) × (lookup p g.residencies ≡ some r) × (g' ≡ restored g p r))
unfolding deactivate
deactivate_cases g g' p gen b e = elim (Option-cases (lookup p g.residencies)) [
  | inl free ↦ inl (ground arith)
  | inr (r, found) ↦ inr (r, found, ground arith)
]
