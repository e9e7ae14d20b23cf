-- ===== src/Replication/Register.antt =====
-- What neural_pods/replication.py promises, as a register: one record for each key, which a read
-- gives back. The replicas implement it in every run in which no write misses its quorum.
use ptr_research.Common.{
  ℕ, ◌≡◌, ◌≢◌, Bool, Option, none, some, [], if◌then◌else◌, leb_ℤ, ℤ, pos, lookup, insert, Dict,
  nat_eq, All, ok, err, Result,
}
use ptr_research.Replication.{
  Payload, Record, Replicas, Replicator, Attempt, Written, Error, stale_revision,
  quorum_unavailable, new_replicator, write, record_of, next_revision,
}
use ptr_research.Replication.Reads.{read, unless_deleted}

-- The last record written for each key, a deletion being one.
abbrev pub Register : Type 0
Register = Dict ℕ Record

abbrev pub revision_at : Option Record → ℤ
revision_at none = pos 0
revision_at (some r) = r.revision

abbrev pub shown : Option Record → Option Record
shown none = none
shown (some r) = unless_deleted r

abbrev pub register_read : Register → ℕ → Option Record
register_read g key = shown (lookup key g)

module _ (hash : Payload → ℕ) where
  unfoldable pub register_write :
      Register → ℕ → Payload → Option ℤ → Bool → Result Error ℤ × Register
  register_write g key payload revision deleted =
      let current = revision_at (lookup key g) in
      let v = next_revision revision current in
      if leb_ℤ v current
      then (err stale_revision, g)
      else (ok v, insert key (record_of hash key payload v deleted) g)

abbrev pub revision_of : Result Error Written → Result Error ℤ
revision_of (ok w) = ok w.revision
revision_of (err e) = err e

abbrev pub AreEmpty : Replicas → Type 0
AreEmpty ts = All (λ e. e.1 ≡ []) ts

module _ (hash : Payload → ℕ) where
  -- The runs of a replicator on new replicas, beside the register after the same calls. A write may
  -- be refused as stale, and some replicas may fail or lose their reply, but none misses its quorum.
  pub data Run : Replicator → Register → Type 0 where
    starts :
        (replicas : Replicas) (quorum : Option ℤ) (retries : ℤ) {s : Replicator}
        → AreEmpty replicas
        → new_replicator replicas quorum retries ≡ ok s
        → Run s []
    writes :
        {s : Replicator} {g : Register} (net : ℕ → ℕ → Attempt) (key : ℕ) (payload : Payload)
        (revision : Option ℤ) (deleted : Bool)
        → Run s g
        → (write hash s net key payload revision deleted).0 ≢ err quorum_unavailable
        → Run
            (write hash s net key payload revision deleted).1
            (register_write hash g key payload revision deleted).1
    reads :
        {s : Replicator} {g : Register} (down : ℕ → Option ℕ) (key : ℕ)
        → Run s g
        → Run (read s down key).1 g
