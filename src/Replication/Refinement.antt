-- ===== src/Replication/Refinement.antt =====
-- The replicas of neural_pods/replication.py refine the register: the invariant that a run keeps, and
-- the results of its calls.
use ptr_research.Common.{
  ℕ, suc, ◌+◌, ◌<◌, ◌≡◌, ◌≢◌, refl, sym, ap, ◌∙◌, subst, Bool, true, false, Option, none, some,
  List, [], ◌∷◌, arith, inl, inr, leb_ℤ, ltb_ℤ, ℤ, none-ne-some, some-injective, lookup, insert,
  nat_eq, All, length, ok, err, Bool-cases, count,
}
use ptr_research.Replication.{
  Payload, Record, Replicas, Replicator, Attempt, quorum_unavailable, new_replicator, put_all,
  answered, write, record_of, next_revision,
}
use ptr_research.Replication.Reads.{
  gather, latest, answering, read_from, read, unless_deleted, larger,
}
use ptr_research.Replication.Holders.{holders, some_holds, gather-holds, gather-All, latest-All}
use ptr_research.Replication.Quorum.{found_row, replicas-read_from}
use ptr_research.Replication.Register.{
  Register, Run, starts, writes, reads, revision_at, shown, register_read, register_write,
  revision_of, AreEmpty,
}
use ptr_research.Replication.Fits.{
  Fits, FitsAt, Enough, KeyRefines, Refines, All-at, count-insert, count-nil,
}
use ptr_research.Replication.Writing.{answered-Settled, write_key}

Fits-low : (o : Option Record) (x : Record) → Fits o x → ltb_ℤ (revision_at o) x.revision ≡ false
Fits-low none x f = absurd f
Fits-low (some r) x (inl e) = ground (arith, ap (λ z. z.revision) e)
Fits-low (some r) x (inr lt) = ground (arith, lt)

larger_low : (a b : ℤ) → ltb_ℤ a b ≡ false → larger a b ≡ a
larger_low a b h = rw h refl

quorum-read_from :
    (s : Replicator) (key : ℕ) (rs : List Record) → (read_from s key rs).1.quorum ≡ s.quorum
unfolding read_from
quorum-read_from s key [] = refl
quorum-read_from s key (r ∷ rs) = refl

holders-Enough :
    (o : Option Record) (s : Replicator) (key : ℕ) (r : Record) (n : ℕ)
    → o ≡ some r
    → Enough s.quorum key o s.replicas
    → length s.replicas < s.quorum + n
    → length s.replicas < holders key r.revision s.replicas + n
holders-Enough none s key r n there h lt = absurd (none-ne-some there)
holders-Enough (some x) s key r n there h lt =
    subst (λ z. length s.replicas < holders key z.revision s.replicas + n) (some-injective there)
      (omega (arith, h, lt))

-- A read finds no row above the register's, so it leaves the counted revision as it was.
read-keeps :
    (s : Replicator) (key j : ℕ) (o : Option Record) (rs : List Record)
    → count key s.revisions ≡ revision_at o
    → All (Fits o) rs
    → count j (read_from s key rs).1.revisions ≡ count j s.revisions
unfolding read_from latest
read-keeps s key j o [] h fits = refl
read-keeps s key j o (r ∷ rs) h fits =
    let low = Fits-low o (latest r rs) (latest-All (Fits o) r rs fits.0 fits.1) in
    let c = count key s.revisions in
    ap (λ z. count j (insert key z s.revisions)) (larger_low c (latest r rs).revision (rw h low))
    ∙ count-insert key j c s.revisions
    ∙ ground (arith, ap (λ i. count i s.revisions))

read-row :
    (s : Replicator) (key : ℕ) (o : Option Record) (rs : List Record)
    → All (Fits o) rs
    → ((r : Record) → o ≡ some r → some_holds r.revision rs ≡ true)
    → (read_from s key rs).0 ≡ shown o
unfolding read_from
read-row s key none [] fits h = refl
read-row s key none (r ∷ rs) fits h = absurd fits.0
read-row s key (some r) rs fits h =
    let (x, fit, high, returned) = found_row s key r.revision rs (Fits (some r)) (h r refl) fits in
    elim fit [
      | inl same ↦ returned ∙ ap unless_deleted same
      | inr lower ↦ absurd (ground (arith, high, lower))
    ]

gather-Fits :
    (s : Replicator) (down : ℕ → Option ℕ) (key : ℕ) (o : Option Record)
    → KeyRefines s key o
    → All (Fits o) (gather down key s.replicas)
gather-Fits s down key o k = gather-All (Fits o) down key s.replicas k.fits

read-Refines :
    (s : Replicator) (g : Register) (down : ℕ → Option ℕ) (key : ℕ)
    → Refines s g
    → Refines (read s down key).1 g
unfolding read
read-Refines s g down key h j =
    let rs = gather down key s.replicas in
    let k = h j in
    record {
      fits =
          subst (λ ts. All (λ e. FitsAt (lookup j g) j e.1) ts) (sym (replicas-read_from s key rs))
            k.fits;
      enough =
          subst (λ q. Enough q j (lookup j g) (read_from s key rs).1.replicas)
            (sym (quorum-read_from s key rs))
            (subst (λ ts. Enough s.quorum j (lookup j g) ts) (sym (replicas-read_from s key rs))
              k.enough);
      counted =
          read-keeps s key j (lookup key g) rs (h key).counted
            (gather-Fits s down key (lookup key g) (h key))
          ∙ k.counted;
    }

module _ (hash : Payload → ℕ) where
  write-Refines :
      (s : Replicator) (g : Register) (net : ℕ → ℕ → Attempt) (key : ℕ) (payload : Payload)
      (revision : Option ℤ) (deleted : Bool)
      → Refines s g
      → (write hash s net key payload revision deleted).0 ≢ err quorum_unavailable
      → Refines
          (write hash s net key payload revision deleted).1
          (register_write hash g key payload revision deleted).1
        × (revision_of (write hash s net key payload revision deleted).0
            ≡ (register_write hash g key payload revision deleted).0)
  unfolding write register_write
  write-Refines s g net key payload revision deleted h ok_ =
      let same = (h key).counted in
      let v = next_revision revision (revision_at (lookup key g)) in
      let r = record_of hash key payload v deleted in
      let o = put_all (suc s.max_retries) net key r s.replicas in
      let ok' = rw same at ok_ in
      elim (Bool-cases (leb_ℤ v (revision_at (lookup key g)))) [
        | inl stale ↦ rw same (rw stale (h, refl))
        | inr newer_ ↦
            let d = answered-Settled s key v o (rw newer_ at ok') in
            rw same (rw newer_ (write_key s g net key r (answered s key v o) h newer_ d, d.result))
      ]

  new_rows :
      (replicas : Replicas) (quorum : Option ℤ) (retries : ℤ) (s : Replicator)
      → new_replicator replicas quorum retries ≡ ok s
      → (s.replicas ≡ replicas) × (s.revisions ≡ [])
  unfolding new_replicator
  new_rows replicas quorum retries s e = ground (arith, e)

  starts-Refines :
      (replicas : Replicas) (quorum : Option ℤ) (retries : ℤ) (s : Replicator)
      → AreEmpty replicas
      → new_replicator replicas quorum retries ≡ ok s
      → Refines s []
  unfolding new_replicator
  starts-Refines replicas quorum retries s empty e key =
      let (rows, none_) = new_rows replicas quorum retries s e in
      record {
        fits =
            subst (λ ts. All (λ e. FitsAt none key e.1) ts) (sym rows)
              (All-at (λ e. e.1 ≡ []) (λ e. FitsAt none key e.1) replicas
                (λ e bare x there. none-ne-some (sym (ap (lookup key) bare) ∙ there)) empty);
        enough = tt;
        counted = ap (count key) none_ ∙ count-nil key;
      }

  Run-Refines : {s : Replicator} {g : Register} → Run hash s g → Refines s g
  Run-Refines {s} (starts replicas quorum retries empty e) =
      starts-Refines replicas quorum retries s empty e
  Run-Refines (writes {s} {g} net key payload revision deleted r ok_) =
      (write-Refines s g net key payload revision deleted (Run-Refines r) ok_).0
  Run-Refines (reads {s} {g} down key r) = read-Refines s g down key (Run-Refines r)

  -- In a run on new replicas whose writes all meet their quorum, the replicas do what a register
  -- does, with one record for each key: a read that more replicas answer than the quorum leaves out
  -- gives its record, and a write gives its revision or is refused as it is there, unless it is the
  -- one that misses the quorum.
  pub Run-Register :
      (s : Replicator) (g : Register)
      → Run hash s g
      → ((down : ℕ → Option ℕ) (key : ℕ)
          → length s.replicas < s.quorum + answering down s.replicas
          → (read s down key).0 ≡ register_read g key)
        × ((net : ℕ → ℕ → Attempt) (key : ℕ) (payload : Payload) (revision : Option ℤ)
              (deleted : Bool)
            → (write hash s net key payload revision deleted).0 ≢ err quorum_unavailable
            → revision_of (write hash s net key payload revision deleted).0
              ≡ (register_write hash g key payload revision deleted).0)
  unfolding read
  Run-Register s g run =
      let h = Run-Refines run in
      (
        λ down key enough.
            read-row s key (lookup key g) (gather down key s.replicas)
              (gather-Fits s down key (lookup key g) (h key))
              (λ r there. gather-holds down key r.revision s.replicas (
                holders-Enough (lookup key g) s key r (answering down s.replicas) there
                  (h key).enough enough)),
        λ net key payload revision deleted ok_.
            (write-Refines s g net key payload revision deleted h ok_).1,
      )
