-- ===== src/Replication.antt =====
-- `PostgresReplica` and `QuorumReplicator` of neural_pods/replication.py. Keys, names, principals,
-- payloads and kinds of exceptions are numbers. What the network does is an argument of each call:
-- for every replica and attempt, whether the call returns, fails, or raises after the row was
-- stored. Calls are steps: `write` holds the lock throughout, and a read gets all rows at once.
pub mod Reads
pub mod Rows
pub mod Holders
pub mod Quorum
pub mod Register
pub mod Fits
pub mod Writing
pub mod Refinement
mod Tests
use ptr_research.Common.{
  ℕ, zero, suc, ◌+◌, ◌/◌, Bool, true, false, ◌||◌, Option, none, some, List, [], ◌∷◌, length,
  if◌then◌else◌, ltb, leb, ◌==◌, Result, ok, err, ℤ, pos, negsuc, ◌+ℤ◌, ltb_ℤ, leb_ℤ, Dict, lookup,
  insert, count, is_empty, Eq, nat_eq,
}

-- What a write stores: a mapping of the caller, or the mark of a deletion.
pub data Payload : Type 0 where
  given : ℕ → Payload
  deleted_by : ℕ → Payload

pub record Record : Type 0 where
  pub key : ℕ
  pub revision : ℤ
  pub deleted : Bool
  pub payload : Payload
  pub digest : ℕ

-- The rows of one replica. The columns `revision` and `deleted` are those of the record.
abbrev pub Table : Type 0
Table = Dict ℕ Record

-- The upsert, which only replaces an older revision.
abbrev upsert : Option Record → ℕ → Record → Table → Table
upsert none key r t = insert key r t
upsert (some old) key r t = if ltb_ℤ old.revision r.revision then insert key r t else t

unfoldable pub put : Table → ℕ → Record → Table
put t key r = upsert (lookup key t) key r t

-- One attempt to put: it returns, raises with nothing stored, or raises after the commit.
pub data Attempt : Type 0 where
  returns : Attempt
  fails lost : ℕ → Attempt

pub record ReplicaResult : Type 0 where
  pub replica : ℕ
  pub ok_ : Bool
  pub revision : Option ℤ
  pub error : Option ℕ

abbrev success : ℕ → Record → ReplicaResult
success name r = record { replica = name; ok_ = true; revision = some r.revision; error = none }

abbrev failure : ℕ → Option ℕ → ReplicaResult
failure name last = record { replica = name; ok_ = false; revision = none; error = last }

-- The attempts on one replica, of which so many are left; `last` is the last exception.
unfoldable pub attempt_put :
    ℕ → (ℕ → Attempt) → Option ℕ → ℕ → ℕ → Record → Table → ReplicaResult × Table
attempt_put zero net last name key r t = (failure name last, t)
attempt_put (suc left) net last name key r t = elim (net left) [
  | returns ↦ (success name r, put t key r)
  | fails e ↦ attempt_put left net (some e) name key r t
  | lost e ↦ attempt_put left net (some e) name key r (put t key r)
]

abbrev pub Replicas : Type 0
Replicas = Dict ℕ Table

-- The loop over the replicas.
unfoldable pub put_all :
    ℕ → (ℕ → ℕ → Attempt) → ℕ → Record → Replicas → List ReplicaResult × Replicas
put_all tries net key r [] = ([], [])
put_all tries net key r ((name, t) ∷ ts) =
    let one = attempt_put tries (net name) none name key r t in
    let rest = put_all tries net key r ts in (one.0 ∷ rest.0, (name, one.1) ∷ rest.1)

abbrev pub successes : List ReplicaResult → ℕ
successes [] = 0
successes (x ∷ xs) = if x.ok_ then suc (successes xs) else successes xs

pub record Replicator : Type 0 where
  pub replicas : Replicas
  pub quorum : ℕ
  pub max_retries : ℕ
  pub revisions : Dict ℕ ℤ

pub data Error : Type 0 where
  no_replicas invalid_quorum invalid_retry_policy stale_revision quorum_unavailable : Error

abbrev majority : ℕ → ℕ
majority n = n / 2 + 1

-- `quorum or (len(replicas) // 2 + 1)`, if it is in bounds.
abbrev checked_quorum : Option ℤ → ℕ → Option ℕ
checked_quorum none n = some (majority n)
checked_quorum (some (negsuc q)) n = none
checked_quorum (some (pos q)) n =
    if q == 0 then some (majority n) else if leb q n then some q else none

abbrev with_retries : Replicas → ℕ → ℤ → Result Error Replicator
with_retries replicas quorum (negsuc m) = err invalid_retry_policy
with_retries replicas quorum (pos m) =
    ok (record { replicas = replicas; quorum = quorum; max_retries = m; revisions = [] })

unfoldable pub new_replicator : Replicas → Option ℤ → ℤ → Result Error Replicator
new_replicator replicas quorum max_retries =
    if is_empty replicas then err no_replicas else elim (checked_quorum quorum (length replicas)) [
      | none ↦ err invalid_quorum
      | some q ↦ with_retries replicas q max_retries
    ]

abbrev is_zero : ℤ → Bool
is_zero (pos n) = n == 0
is_zero (negsuc n) = false

-- `int(revision or current + 1)`
abbrev next_revision : Option ℤ → ℤ → ℤ
next_revision none current = current +ℤ pos 1
next_revision (some v) current = if is_zero v then current +ℤ pos 1 else v

pub record Written : Type 0 where
  pub key : ℕ
  pub revision : ℤ
  pub quorum : ℕ
  pub replicas : List ReplicaResult

-- What a write leaves: the rows as the replicas have them, and the revision if the quorum is met.
abbrev pub answered :
    Replicator → ℕ → ℤ → List ReplicaResult × Replicas → Result Error Written × Replicator
answered s key revision (results, replicas) =
    if ltb (successes results) s.quorum
    then (err quorum_unavailable, record s { replicas = replicas })
    else (
      ok (record {
        key = key;
        revision = revision;
        quorum = successes results;
        replicas = results;
      }),
      record s { replicas = replicas; revisions = insert key revision s.revisions },
    )

abbrev pub or_default : Replicator → ℕ → Option ℤ → ℤ
or_default s key revision = next_revision revision (count key s.revisions)

module _ (hash : Payload → ℕ) where
  abbrev pub record_of : ℕ → Payload → ℤ → Bool → Record
  record_of key payload revision deleted = record {
    key = key;
    revision = revision;
    deleted = deleted;
    payload = payload;
    digest = hash payload;
  }

  unfoldable pub write :
      Replicator
      → (ℕ → ℕ → Attempt)
      → ℕ
      → Payload
      → Option ℤ
      → Bool
      → Result Error Written × Replicator
  write s net key payload revision deleted =
      let v = or_default s key revision in
      if leb_ℤ v (count key s.revisions)
      then (err stale_revision, s)
      else answered s key v
          (put_all (suc s.max_retries) net key (record_of key payload v deleted) s.replicas)

  unfoldable pub tombstone :
      Replicator → (ℕ → ℕ → Attempt) → ℕ → ℕ → Result Error Written × Replicator
  unfolding write
  tombstone s net key principal = write s net key (deleted_by principal) none true
