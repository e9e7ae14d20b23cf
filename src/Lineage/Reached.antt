-- ===== src/Lineage/Reached.antt =====
-- The recursive queries find exactly the rows that are reachable.
use ptr_research.Common.{
  ap, subst, sym, ℕ, zero, suc, ◌+◌, ◌≤◌, ◌≡◌, refl, ◌⊎◌, inl, inr, ◌↔◌, true, false, ◌&&◌, not,
  List, [], ◌∷◌, ◌++◌, arith, length, mem, mem-append, length-append, All, IsDistinct,
  length_of_distinct, ◌==◌, ==_iff, Bool-cases,
}
use ptr_research.Lineage.{fresh, walk, closure}

-- From `x` along the neighbours to the last row.
pub data Trail (step : ℕ → List ℕ) (x : ℕ) : ℕ → Type 0 where
  here : Trail step x x
  onward : {y z : ℕ} → Trail step x y → mem z (step y) ≡ true → Trail step x z

-- One more neighbour in front.
pub prepend :
    {step : ℕ → List ℕ} {x y z : ℕ} → mem y (step x) ≡ true → Trail step y z → Trail step x z
prepend e here = onward here e
prepend e (onward p f) = onward (prepend e p) f

-- The new rows are the neighbours that are not seen.
mem-fresh : (z : ℕ) (seen ys : List ℕ) → mem z (fresh seen ys) ≡ (not (mem z seen) && mem z ys)
mem-fresh z seen [] = ground arith
mem-fresh z seen (y ∷ ys) = ground (arith, mem-fresh z (y ∷ seen) ys, ==_iff z y)

fresh-IsDistinct : (seen ys : List ℕ) → IsDistinct (fresh seen ys)
fresh-IsDistinct seen [] = tt
fresh-IsDistinct seen (y ∷ ys) =
    ground (arith, fresh-IsDistinct (y ∷ seen) ys, mem-fresh y (y ∷ seen) ys, ==_iff y y)

IsDistinct-append :
    (xs ys : List ℕ)
    → IsDistinct xs
    → IsDistinct ys
    → ((z : ℕ) → mem z ys ≡ true → mem z xs ≡ false)
    → IsDistinct (xs ++ ys)
IsDistinct-append [] ys dx dy apart = dy
IsDistinct-append (x ∷ xs) ys dx dy apart = (
  ground (arith, mem-append x xs ys, apart x, dx, ==_iff x x),
  IsDistinct-append xs ys dx.1 dy (λ z h. ground (arith, apart z h)),
)

All-mem :
    (xs ys : List ℕ) → ((z : ℕ) → mem z xs ≡ true → mem z ys ≡ true) → All (λ z. mem z ys ≡ true) xs
All-mem [] ys h = tt
All-mem (x ∷ xs) ys h =
    (h x (ground (arith, ==_iff x x)), All-mem xs ys (λ z e. h z (ground arith)))

module _ (step : ℕ → List ℕ) where
  -- What the loop keeps: the rows seen are distinct and of the table, a row that has left the
  -- queue has its neighbours among them, and the fuel pays for the rows still to come.
  record Inv (table : List ℕ) (x n : ℕ) (queue seen : List ℕ) : Type 0 where
    distinct : IsDistinct seen
    start : mem x seen ≡ true
    known : (z : ℕ) → mem z seen ≡ true → mem z table ≡ true
    queued : (z : ℕ) → mem z queue ≡ true → mem z seen ≡ true
    done :
        (y : ℕ)
        → mem y seen ≡ true
        → (mem y queue ≡ true) ⊎ ((z : ℕ) → mem z (step y) ≡ true → mem z seen ≡ true)
    reached : (z : ℕ) → mem z seen ≡ true → Trail step x z
    fuel : length table + length queue ≤ n + length seen

  record Closed (x : ℕ) (rows : List ℕ) : Type 0 where
    start : mem x rows ≡ true
    closed : (y z : ℕ) → mem y rows ≡ true → mem z (step y) ≡ true → mem z rows ≡ true
    reached : (z : ℕ) → mem z rows ≡ true → Trail step x z

  stopped : {table : List ℕ} {x n : ℕ} {seen : List ℕ} → Inv table x n [] seen → Closed x seen
  stopped inv = record {
    start = inv.start;
    closed = λ y z h e. elim (inv.done y h) [ inl q ↦ absurd (cc) | inr f ↦ f z e ];
    reached = inv.reached;
  }

  module _ (table : List ℕ)
      (inside : (y z : ℕ) → mem y table ≡ true → mem z (step y) ≡ true → mem z table ≡ true) where
    Inv-next :
        (x n q : ℕ) (queue seen : List ℕ)
        → Inv table x (suc n) (q ∷ queue) seen
        → Inv table x n (queue ++ fresh seen (step q)) (seen ++ fresh seen (step q))
    Inv-next x n q queue seen inv = record {
      distinct =
          IsDistinct-append seen new_ inv.distinct (fresh-IsDistinct seen (step q))
            (λ z h. ground (arith, mem-fresh z seen (step q), h));
      start = ground (arith, mem-append x seen new_, inv.start);
      known = λ z h. ground (
        arith,
        mem-append z seen new_,
        mem-fresh z seen (step q),
        inv.known z,
        inv.known q seen_q,
        inside q z,
      );
      queued = λ z h. ground (arith, mem-append z seen new_, mem-append z queue new_, inv.queued z);
      done = still_done;
      reached = λ z h. elim (Bool-cases (mem z seen)) [
        | inl old ↦ inv.reached z old
        | inr no_ ↦
            onward (inv.reached q seen_q)
              (ground (arith, mem-append z seen new_, mem-fresh z seen (step q), h))
      ];
      fuel = omega (arith, length-append queue new_, length-append seen new_, inv.fuel);
    }
      where
        new_ : List ℕ
        new_ = fresh seen (step q)

        seen_q : mem q seen ≡ true
        seen_q = ground (arith, inv.queued q, ==_iff q q)

        grown : (z : ℕ) → mem z seen ≡ true → mem z (seen ++ new_) ≡ true
        grown z h = ground (arith, mem-append z seen new_)

        neighbour :
            (y z : ℕ) → (y == q) ≡ true → mem z (step y) ≡ true → mem z (seen ++ new_) ≡ true
        neighbour y z e h = ground (
          arith,
          mem-append z seen new_,
          mem-fresh z seen (step q),
          ap (λ v. mem z (step v)) ((==_iff y q).0 e),
        )

        still_done :
            (y : ℕ)
            → mem y (seen ++ new_) ≡ true
            → (mem y (queue ++ new_) ≡ true)
              ⊎ ((z : ℕ) → mem z (step y) ≡ true → mem z (seen ++ new_) ≡ true)
        still_done y h = elim (Bool-cases (mem y seen)) [
          | inr no_ ↦ inl (ground (arith, mem-append y seen new_, mem-append y queue new_))
          | inl old ↦ elim (inv.done y old) [
            | inr f ↦ inr (λ z e. grown z (f z e))
            | inl waits ↦ elim (Bool-cases (y == q)) [
              | inl same ↦ inr (λ z e. neighbour y z same e)
              | inr other ↦ inl (ground (arith, mem-append y queue new_))
            ]
          ]
        ]

    walk-Closed :
        (x n : ℕ) (queue seen : List ℕ)
        → Inv table x n queue seen
        → Closed x (walk step n queue seen)
    unfolding walk
    walk-Closed x zero [] seen inv = stopped inv
    walk-Closed x zero (q ∷ queue) seen inv = absurd (
        omega (
          arith,
          inv.fuel,
          length_of_distinct seen table inv.distinct (All-mem seen table inv.known),
        ))
    walk-Closed x (suc n) [] seen inv = stopped inv
    walk-Closed x (suc n) (q ∷ queue) seen inv =
        walk-Closed x n (queue ++ fresh seen (step q)) (seen ++ fresh seen (step q))
          (Inv-next x n q queue seen inv)

    closure-Closed : (x : ℕ) → mem x table ≡ true → Closed x (closure step table x)
    unfolding closure
    closure-Closed x h = walk-Closed x (length table) (x ∷ []) (x ∷ []) record {
      distinct = (refl, tt);
      start = ground (arith, ==_iff x x);
      known = λ z e. ground (arith, ==_iff z x);
      queued = λ z e. e;
      done = λ y e. inl e;
      reached = λ z e. subst (λ v. Trail step x v) (sym ((==_iff z x).0 (ground arith))) here;
      fuel = omega arith;
    }

    along : {x : ℕ} {rows : List ℕ} {z : ℕ} → Closed x rows → Trail step x z → mem z rows ≡ true
    along c here = c.start
    along c (onward {y} {z} p e) = c.closed y z (along c p) e

    -- The query finds a row exactly if a path leads to it.
    pub closure-Trail :
        (x z : ℕ) → mem x table ≡ true → (mem z (closure step table x) ≡ true) ↔ Trail step x z
    closure-Trail x z h = let c = closure-Closed x h in (c.reached z, along c)
