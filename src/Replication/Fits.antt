-- ===== src/Replication/Fits.antt =====
-- The invariant of neural_pods/replication.py: each row is the register's record or an older one, and
-- a quorum of replicas has it.
use ptr_research.Common.{
  ℕ, ◌≤◌, ◌≡◌, refl, ap, true, false, Option, none, some, List, [], ◌∷◌, arith, ◌⊎◌, inl, inr,
  if◌then◌else◌, ◌==◌, leb_ℤ, ltb_ℤ, ℤ, pos, lookup, insert, Dict, nat_eq, All, Bool-cases, count,
  lookup-insert,
}
use ptr_research.Replication.{Record, Table, Replicas, Replicator, Attempt, put, put_all}
use ptr_research.Replication.Rows.{newer, lookup-put}
use ptr_research.Replication.Holders.{holders, put_all-keeps}
use ptr_research.Replication.Register.{Register, revision_at}

-- A row is the register's record, or an older one.
abbrev pub Fits : Option Record → Record → Type 0
Fits none x = ⊥
Fits (some r) x = (x ≡ r) ⊎ (ltb_ℤ x.revision r.revision ≡ true)

abbrev pub FitsAt : Option Record → ℕ → Table → Type 0
FitsAt o key t = (x : Record) → lookup key t ≡ some x → Fits o x

abbrev pub Enough : ℕ → ℕ → Option Record → Replicas → Type 0
Enough q key none ts = Unit
Enough q key (some r) ts = q ≤ holders key r.revision ts

pub record KeyRefines (s : Replicator) (key : ℕ) (o : Option Record) : Type 0 where
  pub fits : All (λ e. FitsAt o key e.1) s.replicas
  pub enough : Enough s.quorum key o s.replicas
  pub counted : count key s.revisions ≡ revision_at o

abbrev pub Refines : Replicator → Register → Type 0
Refines s g = (key : ℕ) → KeyRefines s key (lookup key g)

-- The rows of a key after a put of a newer record, and those of the other keys.
Fits-newer :
    (row : Option Record) (r : Record)
    → ((x : Record) → row ≡ some x → Fits (some r) x)
    → (x : Record) → newer row r ≡ some x
    → Fits (some r) x
Fits-newer none r h x e = inl (cc)
Fits-newer (some old) r h x e = elim (Bool-cases (ltb_ℤ old.revision r.revision)) [
  | inl lt ↦ inl (ground (arith, lt, e))
  | inr ge ↦ h x (ground (arith, ge, e))
]

pub put-FitsAt :
    (key : ℕ) (r : Record) (t : Table) → FitsAt (some r) key t → FitsAt (some r) key (put t key r)
put-FitsAt key r t h x e =
    Fits-newer (lookup key t) r h x (ground (arith, lookup-put key key r t, e))

pub put-FitsAt_other :
    (o : Option Record) (j key : ℕ) (r : Record) (t : Table)
    → (key == j) ≡ false
    → FitsAt o j t
    → FitsAt o j (put t key r)
put-FitsAt_other o j key r t other h x e = h x (ground (arith, lookup-put j key r t, other, e))

-- Rows that fit the record before fit a newer one.
pub Fits-later :
    (o : Option Record) (r x : Record)
    → leb_ℤ r.revision (revision_at o) ≡ false
    → Fits o x
    → Fits (some r) x
Fits-later none r x h f = absurd f
Fits-later (some old) r x h (inl e) = inr (ground (arith, h, ap (λ z. z.revision) e))
Fits-later (some old) r x h (inr e) = inr (ground (arith, h, e))

pub All-at {ℓ κ μ} :
    {A : Type ℓ} (P : A → Type κ) (Q : A → Type μ) (xs : List A)
    → ((x : A) → P x → Q x)
    → All P xs
    → All Q xs
All-at P Q [] f h = tt
All-at P Q (x ∷ xs) f h = (f x h.0, All-at P Q xs f h.1)

pub count-insert :
    (key j : ℕ) (v : ℤ) (d : Dict ℕ ℤ)
    → count j (insert key v d) ≡ (if key == j then v else count j d)
unfolding count
count-insert key j v d = ground (arith, lookup-insert key j v d)

pub count-nil : (key : ℕ) → count key [] ≡ pos 0
unfolding count
count-nil key = refl

pub Enough-put_all :
    (q tries : ℕ) (net : ℕ → ℕ → Attempt) (j key : ℕ) (o : Option Record) (r : Record)
    (ts : Replicas)
    → Enough q j o ts
    → Enough q j o (put_all tries net key r ts).1
Enough-put_all q tries net j key none r ts h = tt
Enough-put_all q tries net j key (some x) r ts h =
    omega (arith, h, put_all-keeps tries net j key x.revision r ts)
