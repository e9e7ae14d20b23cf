-- ===== src/Batcher/Invariant.antt =====
-- What holds of every state of the batcher of neural_pods/adaptive_batcher.py, and of the batches.
use ptr_research.Common.{
  ℕ, ◌+◌, ◌≤◌, ◌≡◌, refl, ap, sym, subst, false, Option, none, some, List, [], ◌∷◌, arith, ◌==◌,
  ==_iff, length, All, lookup, insert, erase, IsDict, insert-IsDict, erase-IsDict, erase_absent,
  nat_eq, Bool-cases, Option-cases, some-injective, inl, inr, ℤ,
}
use ptr_research.Batcher.{BatchRequest, Batcher, is_cancelled, queue_at}
use ptr_research.Batcher.Select.{
  scan, take_items, put_queue, some_items, take_batch, may_wait, select,
}
use ptr_research.Batcher.Batches.{
  Queues, Kept, Kept-trans, total, Holds, scan-Scanned, scan-IsDict, take_items-Taking,
}

pub All-map {ℓ κ μ} :
    {A : Type ℓ} (P : A → Type κ) (Q : A → Type μ) (xs : List A)
    → ((a : A) → P a → Q a)
    → All P xs
    → All Q xs
All-map P Q [] f h = tt
All-map P Q (x ∷ xs) f h = (f x h.0, All-map P Q xs f h.1)

-- The sizes of the queues, when one of them is replaced.
pub total-erase :
    (key : ℕ) (qs : Queues) → IsDict qs → total qs ≡ length (queue_at key qs) + total (erase key qs)
total-erase key [] d = refl
total-erase key ((k, q) ∷ qs) d = elim (Bool-cases (k == key)) [
  | inl same ↦
      let gone : erase key qs ≡ qs =
        erase_absent key qs (subst (λ j. lookup j qs ≡ none) ((==_iff k key).0 same) d.0) in
      ground (arith, same, ap total gone)
  | inr other ↦ ground (arith, other, total-erase key qs d.1)
]

pub total-insert :
    (key : ℕ) (q : List BatchRequest) (qs : Queues)
    → IsDict qs
    → total (insert key q qs) ≡ length q + total (erase key qs)
total-insert key q [] d = omega arith
total-insert key q ((k, p) ∷ qs) d = elim (Bool-cases (k == key)) [
  | inl same ↦
      let gone : erase key qs ≡ qs =
        erase_absent key qs (subst (λ j. lookup j qs ≡ none) ((==_iff k key).0 same) d.0) in
      ground (arith, same, ap total gone)
  | inr other ↦ ground (arith, other, total-insert key q qs d.1)
]

total-put_queue :
    (key : ℕ) (q : List BatchRequest) (qs : Queues)
    → IsDict qs
    → total (put_queue key q qs) ≡ length q + total (erase key qs)
total-put_queue key [] qs d = omega arith
total-put_queue key (r ∷ rs) qs d = total-insert key (r ∷ rs) qs d

put_queue-IsDict :
    (key : ℕ) (q : List BatchRequest) (qs : Queues) → IsDict qs → IsDict (put_queue key q qs)
put_queue-IsDict key [] qs d = erase-IsDict key qs d
put_queue-IsDict key (r ∷ rs) qs d = insert-IsDict key (r ∷ rs) qs d

module _ (P : ℕ → BatchRequest → Type 0) where
  pub Holds-queue_at : (key : ℕ) (qs : Queues) → Holds P qs → All (P key) (queue_at key qs)
  Holds-queue_at key [] h = tt
  Holds-queue_at key ((k, q) ∷ qs) h = elim (Bool-cases (k == key)) [
    | inl same ↦ rw same (subst (λ j. All (P j) q) ((==_iff k key).0 same) h.0)
    | inr other ↦ rw other (Holds-queue_at key qs h.1)
  ]

  pub Holds-insert :
      (key : ℕ) (q : List BatchRequest) (qs : Queues)
      → All (P key) q
      → Holds P qs
      → Holds P (insert key q qs)
  Holds-insert key q [] a h = (a, tt)
  Holds-insert key q ((k, p) ∷ qs) a h = elim (Bool-cases (k == key)) [
    | inl same ↦ rw same (subst (λ j. All (P j) q) (sym ((==_iff k key).0 same)) a, h.1)
    | inr other ↦ rw other (h.0, Holds-insert key q qs a h.1)
  ]

  Holds-erase : (key : ℕ) (qs : Queues) → Holds P qs → Holds P (erase key qs)
  Holds-erase key [] h = tt
  Holds-erase key ((k, p) ∷ qs) h = elim (Bool-cases (k == key)) [
    | inl same ↦ rw same (Holds-erase key qs h.1)
    | inr other ↦ rw other (h.0, Holds-erase key qs h.1)
  ]

  Holds-put_queue :
      (key : ℕ) (q : List BatchRequest) (qs : Queues)
      → All (P key) q
      → Holds P qs
      → Holds P (put_queue key q qs)
  Holds-put_queue key [] qs a h = Holds-erase key qs h
  Holds-put_queue key (r ∷ rs) qs a h = Holds-insert key (r ∷ rs) qs a h

-- `P` holds of every request that waits, and the requests are counted, filed by their key, and no
-- more than may wait.
pub record IsSound (P : BatchRequest → Type 0) (b : Batcher) : Type 0 where
  pub counted : b.queued ≡ total b.queues
  pub bounded : b.queued ≤ b.max_queue
  pub filed : Holds (λ key r. (r.key ≡ key) × P r) b.queues
  pub once : IsDict b.queues

-- A batch: at least one and not too many requests of one key, of which none is cancelled.
pub record IsBatch (P : BatchRequest → Type 0) (b : Batcher) (items : List BatchRequest)
    : Type 0 where
  pub key : ℕ
  pub of_key : All (λ r. (r.key ≡ key) × P r) items
  pub nonempty : 1 ≤ length items
  pub fits : length items ≤ b.max_batch_size
  pub standing : All (λ r. is_cancelled b.futures r.id ≡ false) items

-- What a selection makes of the batcher, and what it selects.
abbrev pub Selection :
    (BatchRequest → Type 0) → Batcher → Option (List BatchRequest) × Batcher → Type 0
Selection P b r =
    IsSound P r.1
    × Kept b r.1
    × ((items : List BatchRequest) → r.0 ≡ some items → IsBatch P r.1 items)

some_items-same :
    (xs items : List BatchRequest) → some_items xs ≡ some items → (xs ≡ items) × (1 ≤ length xs)
some_items-same [] items e = cc
some_items-same (x ∷ xs) items e = (some-injective e, omega arith)

module _ (P : BatchRequest → Type 0) where
  abbrev Filed : ℕ → BatchRequest → Type 0
  Filed key r = (r.key ≡ key) × P r

  take_batch-Selection : (b : Batcher) (key : ℕ) → IsSound P b → Selection P b (take_batch b key)
  unfolding take_batch
  take_batch-Selection b key s =
      let q = queue_at key b.queues in
      let t = take_items-Taking b.max_batch_size b q in
      let k = t.kept in
      let taken = take_items b.max_batch_size b q in
      let count =
        t.counts (total (erase key b.queues))
          (omega (arith, s.counted, total-erase key b.queues s.once)) in
      let (of_key, left) = t.splits (Filed key) (Holds-queue_at Filed key b.queues s.filed) in
      (
        record {
          counted = omega (arith, count, total-put_queue key (taken.2) b.queues s.once);
          bounded = omega (arith, k.falls, k.same_bound, s.bounded);
          filed = Holds-put_queue Filed key (taken.2) b.queues left s.filed;
          once = put_queue-IsDict key (taken.2) b.queues s.once;
        },
        record {
          same_size = k.same_size;
          same_bound = k.same_bound;
          same_next = k.same_next;
          falls = k.falls;
          no_answers = k.no_answers;
        },
        λ items e.
            let (same, some_) = some_items-same (taken.0) items e in
            record {
              key = key;
              of_key = subst (All (Filed key)) same of_key;
              nonempty = omega (arith, some_, ap length same);
              fits = omega (arith, t.fits, ap length same, k.same_size);
              standing = subst (All (λ r. is_cancelled (taken.1).futures r.id ≡ false)) same (
                  subst (λ f. All (λ r. is_cancelled f r.id ≡ false) (taken.0)) (sym t.same_futures)
                    t.standing);
            },
      )

  scanned-Sound :
      (now : ℤ) (b : Batcher)
      → IsSound P b
      → IsSound P (record ((scan now b b.queues none).0) { queues = (scan now b b.queues none).1 })
  scanned-Sound now b s =
      let x = scan-Scanned now b b.queues none in
      let k = x.kept in
      record {
        counted = omega (arith, x.counts 0 (omega (arith, s.counted)));
        bounded = omega (arith, k.falls, k.same_bound, s.bounded);
        filed = x.holds Filed s.filed;
        once = scan-IsDict now b b.queues none s.once;
      }

  scanned-Kept :
      (now : ℤ) (b : Batcher)
      → Kept b (record ((scan now b b.queues none).0) { queues = (scan now b b.queues none).1 })
  scanned-Kept now b =
      let x = scan-Scanned now b b.queues none in
      let k = x.kept in
      record {
        same_size = k.same_size;
        same_bound = k.same_bound;
        same_next = k.same_next;
        falls = k.falls;
        no_answers = k.no_answers;
      }

  -- Whenever the worker selects, the counts and the files stay right, no future gets a result, and
  -- what is selected is a batch: at least one and at most `max_batch_size` requests, all of one
  -- key, of which none is cancelled.
  pub select-Selection : (now : ℤ) (b : Batcher) → IsSound P b → Selection P b (select now b)
  unfolding select
  select-Selection now b s =
      let scanned = scan now b b.queues none in
      let b' = record (scanned.0) { queues = scanned.1 } in
      let s' = scanned-Sound now b s in
      let k = scanned-Kept now b in
      elim (Option-cases (scanned.2)) [
        | inl none_ ↦ rw (none_, select) (s', k, λ items e. cc)
        | inr (c, chosen) ↦
            rw (chosen, select)
              (elim (Bool-cases (may_wait b' now c.1 (queue_at c.0 b'.queues))) [
                | inl wait ↦ rw wait (s', k, λ items e. cc)
                | inr go ↦ rw go (
                    let (s2, k2, batch) = take_batch-Selection b' c.0 s' in
                    (s2, Kept-trans k k2, batch))
              ])
      ]
