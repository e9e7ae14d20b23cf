-- ===== src/Leader.antt =====
-- `FencedLeader` of neural_pods/placement.py: a lease with a term and a fencing token. Holders are
-- numbers, 0 is the empty text; the clock's times are arguments, in whole units.
pub mod Fencing
mod Tests
use ptr_research.Common.{
  ℕ, ◌+◌, Bool, true, false, ◌&&◌, ◌||◌, Option, none, some, if◌then◌else◌, ◌==◌, not, Result, ok,
  err, ◌>>=◌, ◌>>◌, raise_if, ℤ, pos, ◌+ℤ◌, ltb_ℤ, leb_ℤ,
}

pub record LeaderLease : Type 0 where
  pub holder : ℕ
  pub term : ℕ
  pub fence : ℕ
  pub expires_at : ℤ

pub record Leader : Type 0 where
  pub lease_s : ℤ
  pub lease : Option LeaderLease
  pub term : ℕ
  pub fence : ℕ

pub data Error : Type 0 where
  lease_not_positive holder_required lease_held invalid_fence : Error

unfoldable pub new_leader : ℤ → Result Error Leader
new_leader lease_s =
    if leb_ℤ lease_s (pos 0)
    then err lease_not_positive
    else ok (record { lease_s = lease_s; lease = none; term = 0; fence = 0 })

-- A lease of somebody else that has not expired.
abbrev pub held_by_other : Option LeaderLease → ℕ → ℤ → Bool
held_by_other none holder now = false
held_by_other (some l) holder now = ltb_ℤ now l.expires_at && not (l.holder == holder)

unfoldable pub acquire : Leader → ℕ → ℤ → Result Error (LeaderLease × Leader)
acquire s holder now = do
  raise_if (holder == 0) holder_required
  raise_if (held_by_other s.lease holder now) lease_held
  let granted : LeaderLease = record {
    holder = holder;
    term = s.term + 1;
    fence = s.fence + 1;
    expires_at = now +ℤ s.lease_s;
  }
  ok (granted, record s { lease = some granted; term = s.term + 1; fence = s.fence + 1 })

-- The current lease, if this holder has it with this token.
abbrev pub owns : Option LeaderLease → ℕ → ℕ → Option LeaderLease
owns none holder fence = none
owns (some l) holder fence = if l.holder == holder && l.fence == fence then some l else none

unfoldable pub renew : Leader → ℕ → ℕ → ℤ → Result Error (LeaderLease × Leader)
renew s holder fence now = elim (owns s.lease holder fence) [
  | none ↦ err invalid_fence
  | some l ↦
      let extended : LeaderLease = record {
        holder = holder;
        term = l.term;
        fence = l.fence;
        expires_at = now +ℤ s.lease_s;
      } in
      ok (extended, record s { lease = some extended })
]

abbrev pub is_valid : Option LeaderLease → ℕ → ℕ → ℤ → Bool
is_valid none holder fence now = false
is_valid (some l) holder fence now =
    l.holder == holder && (l.fence == fence && ltb_ℤ now l.expires_at)

unfoldable pub validate : Leader → ℕ → ℕ → ℤ → Bool
validate s holder fence now = is_valid s.lease holder fence now
