-- ===== src/Resource/Residents.antt =====
-- `activate` and `deactivate` of neural_pods/resource_runtime.py keep the books.
use ptr_research.Common.{
  ℕ, ◌≡◌, refl, Bool, true, false, Option, none, some, List, [], ◌∷◌, inl, inr, arith, ok,
  OnOk-eq_ok, lookup, insert, erase, insert-IsDict, erase-IsDict, nat_eq, Dict, ℤ, pos, ◌+ℤ◌, ◌-ℤ◌,
  ◌≤ℤ◌, int_laws, if◌then◌else◌,
}
use ptr_research.Resource.{
  Tier, Pool, pool_of, pool_beq, Lease, Residency, Governor, charge, used_at, activate, deactivate,
}
use ptr_research.Resource.Limit.{charge-add, limit_budget}
use ptr_research.Resource.Activation.{
  Activated, residency, with_residency, activate-Activated, restored, deactivate_cases,
}
use ptr_research.Resource.Ledger.{
  IsSound, IsCharge, AllResident, held_at, resident_at, resident_at-insert, resident_at-erase,
  grant-IsSound, refund-Within,
}

insert-AllResident :
    (p : ℕ) (r : Residency) (d : Dict ℕ Residency)
    → IsCharge r.lease
    → AllResident d
    → AllResident (insert p r d)
insert-AllResident p r [] h k = (h, tt)
insert-AllResident p r ((q, s) ∷ d) h k = ground (arith, insert-AllResident p r d h k.1)

erase-AllResident : (p : ℕ) (d : Dict ℕ Residency) → AllResident d → AllResident (erase p d)
erase-AllResident p [] h = tt
erase-AllResident p ((q, s) ∷ d) h = ground (arith, erase-AllResident p d h.1)

lookup-AllResident :
    (p : ℕ) (d : Dict ℕ Residency) {r : Residency}
    → AllResident d
    → lookup p d ≡ some r
    → IsCharge r.lease
lookup-AllResident p [] h e = cc
lookup-AllResident p ((q, s) ∷ d) {r} h e = ground (arith, lookup-AllResident p d {r = r} h.1)

-- The lease of a grant becomes that of a resident.
settle-IsSound :
    (g : Governor) (held : List Lease) (p gen : ℕ) (lease : Lease)
    → lookup p g.residencies ≡ none
    → IsSound g (lease ∷ held)
    → IsSound (with_residency g p (residency p gen lease)) held
settle-IsSound g held p gen lease free v = record {
  within = λ tier device l e.
      v.within tier device l
        (rw (limit_budget (with_residency g p (residency p gen lease)) g tier device refl) at e);
  balanced = λ k.
      rw (v.balanced k, resident_at-insert k p (residency p gen lease) g.residencies free)
        (omega int_laws);
  charges = v.charges.1;
  resident_charges =
      insert-AllResident p (residency p gen lease) g.residencies v.charges.0 v.resident_charges;
  keyed = insert-IsDict p (residency p gen lease) g.residencies v.keyed;
}

pub activate-IsSound :
    (g g' : Governor) (held : List Lease) (p gen : ℕ) (amount : ℤ) (preferred : Tier)
    (r : Option Residency)
    → pos 0 ≤ℤ amount
    → activate g p gen amount preferred ≡ ok (r, g')
    → IsSound g held
    → IsSound g' held
activate-IsSound g g' held p gen amount preferred r nonneg e v =
    elim (OnOk-eq_ok (Activated g p gen amount) e (activate-Activated g p gen amount preferred)) [
      | inl (same, _) ↦ rw same v
      | inr (lease, g₁, o, free, _, same) ↦ rw same (
          settle-IsSound g₁ held p gen lease (rw (o.4) free)
            (grant-IsSound g g₁ held lease amount nonneg o v))
    ]

take_out :
    (b : Bool) (u a h r r' : ℤ)
    → u ≡ h +ℤ r
    → r' +ℤ (if b then a else pos 0) ≡ r
    → u +ℤ (if b then pos 0 -ℤ a else pos 0) ≡ h +ℤ r'
take_out true u a h r r' e f = rw (e, ← f) (omega int_laws)
take_out false u a h r r' e f = rw (e, ← f) (omega int_laws)

restored_balance :
    (g : Governor) (held : List Lease) (p : ℕ) (r : Residency) (k : Pool)
    → lookup p g.residencies ≡ some r
    → IsSound g held
    → used_at (restored g p r) k ≡ held_at k held +ℤ resident_at k (erase p g.residencies)
restored_balance g held p r k found v =
    rw (charge-add g (pool_of r.lease) k (pos 0 -ℤ r.lease.amount_bytes)) (
      take_out (pool_beq (pool_of r.lease) k) (used_at g k) r.lease.amount_bytes (held_at k held)
        (resident_at k g.residencies) (resident_at k (erase p g.residencies)) (v.balanced k)
        (resident_at-erase k p g.residencies v.keyed found))

restored-IsSound :
    (g : Governor) (held : List Lease) (p : ℕ) (r : Residency)
    → lookup p g.residencies ≡ some r
    → IsSound g held
    → IsSound (restored g p r) held
restored-IsSound g held p r found v = record {
  within = λ tier device l e.
      refund-Within g r.lease (lookup-AllResident p g.residencies v.resident_charges found) v.within
        tier device l
        (rw
          (limit_budget (restored g p r)
            (charge g (pool_of r.lease) (pos 0 -ℤ r.lease.amount_bytes)) tier device refl)
          at e);
  balanced = λ k. restored_balance g held p r k found v;
  charges = v.charges;
  resident_charges = erase-AllResident p g.residencies v.resident_charges;
  keyed = erase-IsDict p g.residencies v.keyed;
}

pub deactivate-IsSound :
    (g g' : Governor) (held : List Lease) (p : ℕ) (gen : Option ℕ) (b : Bool)
    → deactivate g p gen ≡ ok (b, g')
    → IsSound g held
    → IsSound g' held
deactivate-IsSound g g' held p gen b e v = elim (deactivate_cases g g' p gen b e) [
  | inl same ↦ rw same v
  | inr (r, found, same) ↦ rw same (restored-IsSound g held p r found v)
]
