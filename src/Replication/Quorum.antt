-- ===== src/Replication/Quorum.antt =====
-- Reads and writes of neural_pods/replication.py over any sequence of calls: what a quorum has
-- acknowledged, a later read does not miss.
use ptr_research.Common.{
  ℕ, ◌+◌, ◌≤◌, ◌<◌, ◌≡◌, refl, sym, subst, Bool, true, Option, some, List, [], ◌∷◌, arith, ◌⊎◌, inl,
  inr, leb_ℤ, ℤ, ◌≤ℤ◌, lookup, nat_eq, All, length, ok, Bool-cases, suc, count,
}
use ptr_research.Replication.{
  Payload, Record, Replicas, Replicator, Attempt, Written, ReplicaResult, put_all, answered, write,
  record_of, or_default,
}
use ptr_research.Replication.Reads.{gather, latest, answering, read_from, read, unless_deleted}
use ptr_research.Replication.Holders.{
  holders, put_all-holders, put_all-keeps, some_holds, gather-holds, gather-All, latest-All,
  latest-holds,
}

-- A row that some replica has.
abbrev pub IsStored : ℕ → Record → Replicas → Type 0
IsStored key r [] = ⊥
IsStored key r ((name, t) ∷ ts) = (lookup key t ≡ some r) ⊎ IsStored key r ts

rows_stored :
    (P : Record → Type 0) (key : ℕ) (ts : Replicas)
    → ((r : Record) → IsStored key r ts → P r)
    → All (λ e. (r : Record) → lookup key e.1 ≡ some r → P r) ts
rows_stored P key [] h = tt
rows_stored P key ((name, t) ∷ ts) h =
    (λ r e. h r (inl e), rows_stored P key ts (λ r st. h r (inr st)))

pub replicas-answered :
    (s : Replicator) (key : ℕ) (v : ℤ) (o : List ReplicaResult × Replicas)
    → (answered s key v o).1.replicas ≡ o.1
replicas-answered s key v (results, replicas) = ground arith

pub replicas-read_from :
    (s : Replicator) (key : ℕ) (rs : List Record) → (read_from s key rs).1.replicas ≡ s.replicas
unfolding read_from
replicas-read_from s key [] = refl
replicas-read_from s key (r ∷ rs) = refl

-- No call takes a revision from a replica.
record Grows (s s' : Replicator) : Type 0 where
  holds : (j : ℕ) (v : ℤ) → holders j v s.replicas ≤ holders j v s'.replicas

module _ (hash : Payload → ℕ) where
  -- One call, whether it returns or raises; a tombstone is a write.
  pub data Step (s s' : Replicator) : Type 0 where
    writes :
        (net : ℕ → ℕ → Attempt) (key : ℕ) (payload : Payload) (revision : Option ℤ) (deleted : Bool)
        → (write hash s net key payload revision deleted).1 ≡ s'
        → Step s s'
    reads : (down : ℕ → Option ℕ) (key : ℕ) → (read s down key).1 ≡ s' → Step s s'

  pub data Later (s : Replicator) : Replicator → Type 0 where
    now_ : Later s s
    after : {s' s'' : Replicator} → Later s s' → Step s' s'' → Later s s''

  write-Grows :
      (s : Replicator) (net : ℕ → ℕ → Attempt) (key : ℕ) (payload : Payload) (revision : Option ℤ)
      (deleted : Bool)
      → Grows s (write hash s net key payload revision deleted).1
  unfolding write
  write-Grows s net key payload revision deleted =
      let v = or_default s key revision in
      let o =
        put_all (suc s.max_retries) net key (record_of hash key payload v deleted) s.replicas in
      elim (Bool-cases (leb_ℤ v (count key s.revisions))) [
        | inl e ↦ rw e (record { holds = λ j u. omega arith })
        | inr e ↦ rw e (record {
          holds = λ j u.
              subst (λ ts. holders j u s.replicas ≤ holders j u ts)
                (sym (replicas-answered s key v o))
                (put_all-keeps (suc s.max_retries) net j key u
                  (record_of hash key payload v deleted) s.replicas);
        })
      ]

  Step-Grows : {s s' : Replicator} → Step s s' → Grows s s'
  unfolding read
  Step-Grows {s} (writes net key payload revision deleted e) =
      subst (Grows s) e (write-Grows s net key payload revision deleted)
  Step-Grows {s} (reads down key e) = subst (Grows s) e (record {
    holds = λ j u.
        subst (λ ts. holders j u s.replicas ≤ holders j u ts)
          (sym (replicas-read_from s key (gather down key s.replicas))) (omega arith);
  })

  Later-Grows : {s s' : Replicator} → Later s s' → Grows s s'
  Later-Grows now_ = record { holds = λ j u. omega arith }
  Later-Grows (after l step) =
      let first = Later-Grows l in
      let next = Step-Grows step in
      record { holds = λ j u. omega (arith, first.holds j u, next.holds j u) }

  -- A write that returns has its quorum of replicas that hold its revision.
  write-holders :
      (s : Replicator) (net : ℕ → ℕ → Attempt) (key : ℕ) (payload : Payload) (revision : Option ℤ)
      (deleted : Bool) {w : Written} {s' : Replicator}
      → write hash s net key payload revision deleted ≡ (ok w, s')
      → s.quorum ≤ holders key w.revision s'.replicas
  unfolding write
  write-holders s net key payload revision deleted e =
      let v = or_default s key revision in
      ground (
        arith,
        e,
        put_all-holders (suc s.max_retries) net key (record_of hash key payload v deleted)
            s.replicas,
      )

-- What a read returns, if some row is found that is of this revision at least.
pub found_row :
    (s : Replicator) (key : ℕ) (v : ℤ) (rs : List Record) (P : Record → Type 0)
    → some_holds v rs ≡ true
    → All P rs
    → (r : Record) × P r × (v ≤ℤ r.revision) × ((read_from s key rs).0 ≡ unless_deleted r)
unfolding read_from latest
found_row s key v [] P h hs = cc
found_row s key v (r ∷ rs) P h hs =
    (latest r rs, latest-All P r rs hs.0 hs.1, ground (arith, latest-holds v r rs h), refl)

module _ (hash : Payload → ℕ) where
  -- After a write that returns, whatever calls follow, whether they return or raise: a read that is
  -- answered by more replicas than the quorum leaves out gives a stored row whose revision is the
  -- acknowledged one or a later one, or nothing if that row is a deletion.
  pub write-read :
      (s s' s'' : Replicator) (net : ℕ → ℕ → Attempt) (key : ℕ) (payload : Payload)
      (revision : Option ℤ) (deleted : Bool) (w : Written) (down : ℕ → Option ℕ)
      → write hash s net key payload revision deleted ≡ (ok w, s')
      → Later hash s' s''
      → length s''.replicas < s.quorum + answering down s''.replicas
      → (r : Record) × IsStored key r s''.replicas
        × (w.revision ≤ℤ r.revision)
        × ((read s'' down key).0 ≡ unless_deleted r)
  unfolding read
  write-read s s' s'' net key payload revision deleted w down e later enough =
      let now_there = write-holders hash s net key payload revision deleted e in
      let still = (Later-Grows hash later).holds key w.revision in
      found_row s'' key w.revision (gather down key s''.replicas) (λ r. IsStored key r s''.replicas)
        (gather-holds down key w.revision s''.replicas (omega (arith, now_there, still, enough)))
        (gather-All (λ r. IsStored key r s''.replicas) down key s''.replicas
          (rows_stored (λ r. IsStored key r s''.replicas) key s''.replicas (λ r st. st)))
