-- ===== src/Replication/Holders.antt =====
-- The loops over the replicas of neural_pods/replication.py: how many hold a revision after a
-- write, and what a read finds among the replicas that answer.
use ptr_research.Common.{
  ℕ, suc, ◌+◌, ◌≤◌, ◌<◌, ◌≡◌, refl, Bool, true, false, Option, none, some, List, [], ◌∷◌, arith,
  if◌then◌else◌, ltb_ℤ, leb_ℤ, ℤ, lookup, nat_eq, All, length, Bool-cases, inl, inr,
}
use ptr_research.Replication.{Record, Table, Replicas, put, Attempt, put_all, successes}
use ptr_research.Replication.Reads.{gather, found, latest, answering}
use ptr_research.Replication.Rows.{
  row_holds, put-holds, put-keeps, attempt_put-keeps, attempt_put-ok,
}

-- How many replicas hold this revision of the key, or a newer one.
unfoldable pub holders : ℕ → ℤ → Replicas → ℕ
holders key v [] = 0
holders key v ((name, t) ∷ ts) =
    let rest = holders key v ts in if row_holds v (lookup key t) then suc rest else rest

-- A replica that succeeds holds the record.
pub put_all-holders :
    (tries : ℕ) (net : ℕ → ℕ → Attempt) (key : ℕ) (r : Record) (ts : Replicas)
    → successes (put_all tries net key r ts).0
      ≤ holders key r.revision (put_all tries net key r ts).1
unfolding put_all holders
put_all-holders tries net key r [] = omega arith
put_all-holders tries net key r ((name, t) ∷ ts) = ground (
  arith,
  put_all-holders tries net key r ts,
  attempt_put-ok (λ u. row_holds r.revision (lookup key u) ≡ true) key r tries (net name) none name
      t (put-holds key r),
)

-- No replica loses a revision.
pub put_all-keeps :
    (tries : ℕ) (net : ℕ → ℕ → Attempt) (j key : ℕ) (v : ℤ) (r : Record) (ts : Replicas)
    → holders j v ts ≤ holders j v (put_all tries net key r ts).1
unfolding put_all holders
put_all-keeps tries net j key v r [] = omega arith
put_all-keeps tries net j key v r ((name, t) ∷ ts) = ground (
  arith,
  put_all-keeps tries net j key v r ts,
  attempt_put-keeps (λ u. row_holds v (lookup j u) ≡ true) key r tries (net name) none name t
      (put-keeps j key v r),
)

pub put_all-All {ℓ} :
    (P : Table → Type ℓ) (tries : ℕ) (net : ℕ → ℕ → Attempt) (key : ℕ) (r : Record) (ts : Replicas)
    → ((t : Table) → P t → P (put t key r))
    → All (λ e. P e.1) ts
    → All (λ e. P e.1) (put_all tries net key r ts).1
unfolding put_all
put_all-All P tries net key r [] step h = tt
put_all-All P tries net key r ((name, t) ∷ ts) step h = (
  attempt_put-keeps P key r tries (net name) none name t step h.0,
  put_all-All P tries net key r ts step h.1,
)

pub length-put_all :
    (tries : ℕ) (net : ℕ → ℕ → Attempt) (key : ℕ) (r : Record) (ts : Replicas)
    → length (put_all tries net key r ts).1 ≡ length ts
unfolding put_all
length-put_all tries net key r [] = refl
length-put_all tries net key r ((name, t) ∷ ts) = omega (arith, length-put_all tries net key r ts)

-- Some record of the list is of this revision at least.
abbrev pub some_holds : ℤ → List Record → Bool
some_holds v [] = false
some_holds v (r ∷ rs) = if leb_ℤ v r.revision then true else some_holds v rs

length-bounds :
    (down : ℕ → Option ℕ) (key : ℕ) (v : ℤ) (ts : Replicas)
    → (holders key v ts ≤ length ts) × (answering down ts ≤ length ts)
unfolding holders answering
length-bounds down key v [] = ground arith
length-bounds down key v ((name, t) ∷ ts) = ground (arith, length-bounds down key v ts)

-- Where more answer than do not hold it, one that answers holds it.
pub gather-holds :
    (down : ℕ → Option ℕ) (key : ℕ) (v : ℤ) (ts : Replicas)
    → length ts < holders key v ts + answering down ts
    → some_holds v (gather down key ts) ≡ true
unfolding holders answering gather
gather-holds down key v [] h = ground (arith, h)
gather-holds down key v ((name, t) ∷ ts) h =
    ground (arith, h, gather-holds down key v ts, length-bounds down key v ts)

found-All {ℓ} :
    (P : Record → Type ℓ) (e : Option ℕ) (row : Option Record) (rest : List Record)
    → ((r : Record) → row ≡ some r → P r)
    → All P rest
    → All P (found e row rest)
found-All P none none rest h hs = hs
found-All P none (some r) rest h hs = (h r refl, hs)
found-All P (some x) row rest h hs = hs

-- What holds of all rows of the key holds of all that are found.
pub gather-All {ℓ} :
    (P : Record → Type ℓ) (down : ℕ → Option ℕ) (key : ℕ) (ts : Replicas)
    → All (λ e. (r : Record) → lookup key e.1 ≡ some r → P r) ts
    → All P (gather down key ts)
unfolding gather
gather-All P down key [] h = tt
gather-All P down key ((name, t) ∷ ts) h =
    found-All P (down name) (lookup key t) (gather down key ts) h.0 (gather-All P down key ts h.1)

-- The latest is one of those compared, and of the highest revision.
pub latest-All {ℓ} :
    (P : Record → Type ℓ) (best : Record) (rs : List Record)
    → P best
    → All P rs
    → P (latest best rs)
unfolding latest
latest-All P best [] hb h = hb
latest-All P best (r ∷ rs) hb h = elim (Bool-cases (ltb_ℤ best.revision r.revision)) [
  | inl e ↦ rw e (latest-All P r rs h.0 h.1)
  | inr e ↦ rw e (latest-All P best rs hb h.1)
]

pub latest-holds :
    (v : ℤ) (best : Record) (rs : List Record)
    → some_holds v (best ∷ rs) ≡ true
    → leb_ℤ v (latest best rs).revision ≡ true
unfolding latest
latest-holds v best [] h = ground (arith, h)
latest-holds v best (r ∷ rs) h = elim (Bool-cases (ltb_ℤ best.revision r.revision)) [
  | inl e ↦ rw (e, latest) (latest-holds v r rs (ground (arith, h, e)))
  | inr e ↦ rw (e, latest) (latest-holds v best rs (ground (arith, h, e)))
]
