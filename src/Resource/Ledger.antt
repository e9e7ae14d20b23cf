-- ===== src/Resource/Ledger.antt =====
-- The bookkeeping of `ResourceGovernor` over whole histories of calls.
use ptr_research.Common.{
  ℕ, ◌≡◌, refl, Bool, true, false, none, some, List, [], ◌∷◌, ◌++◌, inl, inr, arith, ok, Bool-cases,
  if◌then◌else◌, ◌==◌, nat_eq, lookup, insert, erase, All, Dict, IsDict, erase_absent, ℤ, pos, ◌+ℤ◌,
  ◌-ℤ◌, ◌≤ℤ◌, ltb_ℤ, All-remove, int_laws,
}
use ptr_research.Resource.{
  Pool, pool_beq, pool_of, Lease, Residency, Governor, charge, used_at, release,
}
use ptr_research.Resource.Limit.{Within, Outcome, charge-add, charge-limit, Outcome-Within}

-- What a lease holds of a pool.
abbrev pub share : Pool → Lease → ℤ
share k lease = if pool_beq (pool_of lease) k then lease.amount_bytes else pos 0

abbrev pub held_at : Pool → List Lease → ℤ
held_at k [] = pos 0
held_at k (l ∷ ls) = share k l +ℤ held_at k ls

abbrev pub resident_at : Pool → Dict ℕ Residency → ℤ
resident_at k [] = pos 0
resident_at k ((p, r) ∷ d) = share k r.lease +ℤ resident_at k d

abbrev pub IsCharge : Lease → Type 0
IsCharge lease = pos 0 ≤ℤ lease.amount_bytes

abbrev pub AllResident : Dict ℕ Residency → Type 0
AllResident [] = Unit
AllResident ((p, r) ∷ d) = IsCharge r.lease × AllResident d

share_nonneg : (k : Pool) (l : Lease) → IsCharge l → pos 0 ≤ℤ share k l
share_nonneg k l h = ground arith

pub held_at_nonneg : (k : Pool) (ls : List Lease) → All IsCharge ls → pos 0 ≤ℤ held_at k ls
held_at_nonneg k [] h = omega arith
held_at_nonneg k (l ∷ ls) h = omega (int_laws, share_nonneg k l h.0, held_at_nonneg k ls h.1)

pub resident_at_nonneg :
    (k : Pool) (d : Dict ℕ Residency) → AllResident d → pos 0 ≤ℤ resident_at k d
resident_at_nonneg k [] h = omega arith
resident_at_nonneg k ((p, r) ∷ d) h =
    omega (int_laws, share_nonneg k r.lease h.0, resident_at_nonneg k d h.1)

held_at_middle :
    (k : Pool) (l : Lease) (before after : List Lease)
    → held_at k (before ++ l ∷ after) ≡ share k l +ℤ held_at k (before ++ after)
held_at_middle k l [] after = refl
held_at_middle k l (b ∷ before) after = rw (held_at_middle k l before after) (omega int_laws)

pub resident_at-insert :
    (k : Pool) (p : ℕ) (r : Residency) (d : Dict ℕ Residency)
    → lookup p d ≡ none
    → resident_at k (insert p r d) ≡ resident_at k d +ℤ share k r.lease
resident_at-insert k p r [] h = omega int_laws
resident_at-insert k p r ((q, s) ∷ d) h = grind (int_laws, resident_at-insert k p r d)

pub resident_at-erase :
    (k : Pool) (p : ℕ) (d : Dict ℕ Residency) {r : Residency}
    → IsDict d
    → lookup p d ≡ some r
    → resident_at k (erase p d) +ℤ share k r.lease ≡ resident_at k d
resident_at-erase k p [] u h = cc
resident_at-erase k p ((q, s) ∷ d) {r} u h = elim (Bool-cases (q == p)) [
  | inl same ↦ grind (int_laws, erase_absent p d)
  | inr other ↦ grind (int_laws, resident_at-erase k p d {r = r} u.1)
]

-- Each pool is within its limit and holds the leases that are out and those of the residents.
pub record IsSound (g : Governor) (held : List Lease) : Type 0 where
  pub within : Within g
  pub balanced : (k : Pool) → used_at g k ≡ held_at k held +ℤ resident_at k g.residencies
  pub charges : All IsCharge held
  pub resident_charges : AllResident g.residencies
  pub keyed : IsDict g.residencies

-- A lease that is granted moves to the holder.
pub grant-IsSound :
    (g g' : Governor) (held : List Lease) (lease : Lease) (amount : ℤ)
    → pos 0 ≤ℤ amount
    → Outcome g amount (some lease, g')
    → IsSound g held
    → IsSound g' (lease ∷ held)
grant-IsSound g g' held lease amount nonneg o v =
    let (l, known, below, eq, same) = o in
    record {
      within = Outcome-Within g amount (some lease, g') o v.within;
      balanced =
          λ k. rw (same, charge-add g (pool_of lease) k amount, v.balanced k, eq) (omega int_laws);
      charges = (rw eq nonneg, v.charges);
      resident_charges = rw same v.resident_charges;
      keyed = rw same v.keyed;
    }

-- A charge taken back, on either side of the test for its pool.
refund_le :
    (b : Bool) (u a l : ℤ) → pos 0 ≤ℤ a → u ≤ℤ l → u +ℤ (if b then pos 0 -ℤ a else pos 0) ≤ℤ l
refund_le true u a l h w = omega int_laws
refund_le false u a l h w = omega int_laws

pub refund_eq :
    (b : Bool) (u a h r : ℤ)
    → u ≡ (if b then a else pos 0) +ℤ h +ℤ r
    → u +ℤ (if b then pos 0 -ℤ a else pos 0) ≡ h +ℤ r
refund_eq true u a h r e = rw e (omega int_laws)
refund_eq false u a h r e = rw e (omega int_laws)

pub refund-Within :
    (g : Governor) (lease : Lease)
    → IsCharge lease
    → Within g
    → Within (charge g (pool_of lease) (pos 0 -ℤ lease.amount_bytes))
refund-Within g lease h w tier device l e =
    let below = w tier device l (rw charge-limit at e) in
    rw (charge-add g (pool_of lease) (tier, device) (pos 0 -ℤ lease.amount_bytes)) (
      refund_le (pool_beq (pool_of lease) (tier, device)) (used_at g (tier, device))
        lease.amount_bytes l h below)

below_zero : (x : ℤ) → ltb_ℤ x (pos 0) ≡ true → ¬ (pos 0 ≤ℤ x)
below_zero x e h = ground arith

pub add_nonneg : (x y : ℤ) → pos 0 ≤ℤ x → pos 0 ≤ℤ y → pos 0 ≤ℤ x +ℤ y
add_nonneg x y h k = omega int_laws

module _ (g : Governor) (before after : List Lease) (lease : Lease)
    (v : IsSound g (before ++ lease ∷ after)) where
  charges_split : IsCharge lease × All IsCharge (before ++ after)
  charges_split = All-remove IsCharge before lease after v.charges

  refunded :
      (k : Pool)
      → used_at (charge g (pool_of lease) (pos 0 -ℤ lease.amount_bytes)) k
        ≡ held_at k (before ++ after) +ℤ resident_at k g.residencies
  refunded k = rw (charge-add g (pool_of lease) k (pos 0 -ℤ lease.amount_bytes)) (
      refund_eq (pool_beq (pool_of lease) k) (used_at g k) lease.amount_bytes _ _
        (rw (held_at_middle k lease before after) at (v.balanced k)))

  pub release-IsSound : IsSound (release g lease).1 (before ++ after)
  unfolding release
  release-IsSound = record {
    within = refund-Within g lease charges_split.0 v.within;
    balanced = refunded;
    charges = charges_split.1;
    resident_charges = v.resident_charges;
    keyed = v.keyed;
  }

  -- A lease that is out is always accepted back.
  pub release-ok : (release g lease).0 ≡ ok tt
  unfolding release
  release-ok =
      elim (Bool-cases (
        ltb_ℤ (used_at (charge g (pool_of lease) (pos 0 -ℤ lease.amount_bytes)) (pool_of lease))
          (pos 0))) [
            | inl bad ↦ absurd (
                below_zero _ (rw refunded at bad) (
                  add_nonneg _ _ (held_at_nonneg _ (before ++ after) charges_split.1)
                    (resident_at_nonneg _ g.residencies v.resident_charges)))
            | inr fine ↦ rw fine
          ]
