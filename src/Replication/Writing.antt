-- ===== src/Replication/Writing.antt =====
-- The writes of neural_pods/replication.py that meet their quorum keep the invariant.
use ptr_research.Common.{
  ℕ, suc, ◌≤◌, ◌≡◌, ◌≢◌, refl, sym, ap, ◌∙◌, subst, false, Option, some, List, arith, inl, inr, ltb,
  ◌==◌, leb_ℤ, ℤ, ==_iff, lookup, insert, nat_eq, All, ok, err, Result, Bool-cases, count,
  lookup-insert,
}
use ptr_research.Replication.{
  Record, Replicas, Replicator, Attempt, Written, ReplicaResult, Error, quorum_unavailable, put_all,
  successes, answered,
}
use ptr_research.Replication.Holders.{holders, put_all-holders, put_all-All}
use ptr_research.Replication.Register.{Register, revision_at, revision_of}
use ptr_research.Replication.Fits.{
  FitsAt, Enough, KeyRefines, Refines, put-FitsAt, put-FitsAt_other, Fits-later, All-at,
  count-insert, Enough-put_all,
}

-- What `answered` leaves, when the quorum is met.
pub record Settled (s : Replicator) (key : ℕ) (v : ℤ) (o : List ReplicaResult × Replicas)
    (m : Result Error Written × Replicator) : Type 0 where
  pub met : s.quorum ≤ successes o.0
  pub rows : m.1.replicas ≡ o.1
  pub quorum : m.1.quorum ≡ s.quorum
  pub revisions : m.1.revisions ≡ insert key v s.revisions
  pub result : revision_of m.0 ≡ ok v

pub answered-Settled :
    (s : Replicator) (key : ℕ) (v : ℤ) (o : List ReplicaResult × Replicas)
    → (answered s key v o).0 ≢ err quorum_unavailable
    → Settled s key v o (answered s key v o)
answered-Settled s key v (results, replicas) h =
    elim (Bool-cases (ltb (successes results) s.quorum)) [
      | inl low ↦ absurd (h (rw low refl))
      | inr high ↦ record {
        met = ground (arith, high);
        rows = rw high refl;
        quorum = rw high refl;
        revisions = rw high refl;
        result = rw high refl;
      }
    ]

-- The write of a newer revision, seen from its own key and from another one.
write_own :
    (s : Replicator) (net : ℕ → ℕ → Attempt) (key : ℕ) (r : Record) (o : Option Record)
    (m : Result Error Written × Replicator)
    → KeyRefines s key o
    → leb_ℤ r.revision (revision_at o) ≡ false
    → Settled s key r.revision (put_all (suc s.max_retries) net key r s.replicas) m
    → KeyRefines m.1 key (some r)
write_own s net key r o m k newer_ d = record {
  fits =
      subst (λ ts. All (λ e. FitsAt (some r) key e.1) ts) (sym d.rows)
        (put_all-All (FitsAt (some r) key) (suc s.max_retries) net key r s.replicas
          (put-FitsAt key r)
          (All-at (λ e. FitsAt o key e.1) (λ e. FitsAt (some r) key e.1) s.replicas
            (λ e f x there. Fits-later o r x newer_ (f x there)) k.fits));
  enough =
      subst (λ q. q ≤ holders key r.revision m.1.replicas) (sym d.quorum)
        (subst (λ ts. s.quorum ≤ holders key r.revision ts) (sym d.rows)
          (omega (arith, d.met, put_all-holders (suc s.max_retries) net key r s.replicas)));
  counted =
      ap (count key) d.revisions ∙ ground (arith, count-insert key key r.revision s.revisions);
}

write_other :
    (s : Replicator) (net : ℕ → ℕ → Attempt) (key j : ℕ) (r : Record) (o : Option Record)
    (m : Result Error Written × Replicator)
    → KeyRefines s j o
    → (key == j) ≡ false
    → Settled s key r.revision (put_all (suc s.max_retries) net key r s.replicas) m
    → KeyRefines m.1 j o
write_other s net key j r o m k other d = record {
  fits =
      subst (λ ts. All (λ e. FitsAt o j e.1) ts) (sym d.rows)
        (put_all-All (FitsAt o j) (suc s.max_retries) net key r s.replicas
          (λ t. put-FitsAt_other o j key r t other) k.fits);
  enough =
      subst (λ q. Enough q j o m.1.replicas) (sym d.quorum)
        (subst (λ ts. Enough s.quorum j o ts) (sym d.rows)
          (Enough-put_all s.quorum (suc s.max_retries) net j key o r s.replicas k.enough));
  counted =
      ap (count j) d.revisions ∙ count-insert key j r.revision s.revisions ∙ rw other k.counted;
}

pub write_key :
    (s : Replicator) (g : Register) (net : ℕ → ℕ → Attempt) (key : ℕ) (r : Record)
    (m : Result Error Written × Replicator)
    → Refines s g
    → leb_ℤ r.revision (revision_at (lookup key g)) ≡ false
    → Settled s key r.revision (put_all (suc s.max_retries) net key r s.replicas) m
    → Refines m.1 (insert key r g)
write_key s g net key r m h newer_ d j = elim (Bool-cases (key == j)) [
  | inl same ↦ subst (KeyRefines m.1 j) (sym (lookup-insert key j r g ∙ rw same refl)) (
      subst (λ i. KeyRefines m.1 i (some r)) ((==_iff key j).0 same)
        (write_own s net key r (lookup key g) m (h key) newer_ d))
  | inr other ↦
      subst (KeyRefines m.1 j) (sym (lookup-insert key j r g ∙ rw other refl))
        (write_other s net key j r (lookup j g) m (h j) other d)
]
