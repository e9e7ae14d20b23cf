-- ===== src/Replication/Rows.antt =====
-- The upsert of neural_pods/replication.py: a row only ever gives way to a newer revision, however
-- many attempts are made.
use ptr_research.Common.{
  ℕ, zero, suc, ◌≡◌, refl, ap, ◌∙◌, Bool, true, false, Option, none, some, arith, if◌then◌else◌,
  ◌==◌, ℤ, ltb_ℤ, leb_ℤ, lookup, nat_eq, lookup-insert, ==_iff, ◌⊎◌, Bool-cases, inl, inr,
}
use ptr_research.Replication.{
  Record, Table, put, upsert, Attempt, returns, fails, lost, attempt_put,
}

-- The row that is left of an old one and a record.
abbrev pub newer : Option Record → Record → Option Record
newer none r = some r
newer (some old) r = if ltb_ℤ old.revision r.revision then some r else some old

lookup-upsert :
    (row : Option Record) (j key : ℕ) (r : Record) (t : Table)
    → lookup key t ≡ row
    → lookup j (upsert row key r t) ≡ (if key == j then newer row r else lookup j t)
lookup-upsert none j key r t e = lookup-insert key j r t
lookup-upsert (some old) j key r t e = ground (arith, lookup-insert key j r t, e)

pub lookup-put :
    (j key : ℕ) (r : Record) (t : Table)
    → lookup j (put t key r) ≡ (if key == j then newer (lookup key t) r else lookup j t)
unfolding put
lookup-put j key r t = lookup-upsert (lookup key t) j key r t refl

-- The row is of this revision at least.
abbrev pub row_holds : ℤ → Option Record → Bool
row_holds v none = false
row_holds v (some r) = leb_ℤ v r.revision

pub newer-holds : (row : Option Record) (r : Record) → row_holds r.revision (newer row r) ≡ true
newer-holds none r = ground arith
newer-holds (some old) r = ground arith

pub newer-keeps :
    (v : ℤ) (row : Option Record) (r : Record)
    → row_holds v row ≡ true
    → row_holds v (newer row r) ≡ true
newer-keeps v none r h = cc
newer-keeps v (some old) r h = ground (arith, h)

pub put-holds :
    (key : ℕ) (r : Record) (t : Table) → row_holds r.revision (lookup key (put t key r)) ≡ true
put-holds key r t =
    ap (row_holds r.revision) (lookup-put key key r t)
    ∙ ground (arith, newer-holds (lookup key t) r)

pub put-keeps :
    (j key : ℕ) (v : ℤ) (r : Record) (t : Table)
    → row_holds v (lookup j t) ≡ true
    → row_holds v (lookup j (put t key r)) ≡ true
put-keeps j key v r t h = elim (Bool-cases (key == j)) [
  | inl same ↦
      let there : key ≡ j = (==_iff key j).0 same in
      ap (row_holds v) (lookup-put j key r t)
      ∙ rw same (newer-keeps v (lookup key t) r (rw there h))
  | inr other ↦ ap (row_holds v) (lookup-put j key r t) ∙ rw other h
]

Attempt-cases : (a : Attempt) → (a ≡ returns) ⊎ ((e : ℕ) × (a ≡ fails e)) ⊎ ((e : ℕ) × (a ≡ lost e))
Attempt-cases returns = inl refl
Attempt-cases (fails e) = inr (inl (e, refl))
Attempt-cases (lost e) = inr (inr (e, refl))

module _ {ℓ} (P : Table → Type ℓ) (key : ℕ) (r : Record) where
  -- What a put keeps, the attempts keep.
  pub attempt_put-keeps :
      (left : ℕ) (net : ℕ → Attempt) (last : Option ℕ) (name : ℕ) (t : Table)
      → ((t : Table) → P t → P (put t key r))
      → P t
      → P (attempt_put left net last name key r t).1
  unfolding attempt_put
  attempt_put-keeps zero net last name t step h = h
  attempt_put-keeps (suc left) net last name t step h = elim (Attempt-cases (net left)) [
    | inl e ↦ rw (e, attempt_put) (step t h)
    | inr (inl (x, e)) ↦ rw (e, attempt_put) (attempt_put-keeps left net (some x) name t step h)
    | inr (inr (x, e)) ↦
        rw (e, attempt_put) (attempt_put-keeps left net (some x) name (put t key r) step (step t h))
  ]

  -- What holds after a put, holds when the attempts succeed.
  pub attempt_put-ok :
      (left : ℕ) (net : ℕ → Attempt) (last : Option ℕ) (name : ℕ) (t : Table)
      → ((t : Table) → P (put t key r))
      → (attempt_put left net last name key r t).0.ok_ ≡ true
      → P (attempt_put left net last name key r t).1
  unfolding attempt_put
  attempt_put-ok zero net last name t step h = cc
  attempt_put-ok (suc left) net last name t step h = elim (Attempt-cases (net left)) [
    | inl e ↦ rw (e, attempt_put) (step t)
    | inr (inl (x, e)) ↦
        rw (e, attempt_put)
          (attempt_put-ok left net (some x) name t step (rw (e, attempt_put) at h))
    | inr (inr (x, e)) ↦
        rw (e, attempt_put)
          (attempt_put-ok left net (some x) name (put t key r) step (rw (e, attempt_put) at h))
  ]
