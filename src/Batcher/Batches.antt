-- ===== src/Batcher/Batches.antt =====
-- What the loops of `_select` of neural_pods/adaptive_batcher.py keep and count.
use ptr_research.Common.{
  ℕ, ◌+◌, ◌-◌, ◌≤◌, ◌≡◌, refl, ◌∙◌, Bool, true, false, ◌||◌, none, some, List, [], ◌∷◌, arith, ◌==◌,
  length, All, Dict, lookup, insert, IsDict, nat_eq, lookup-insert, Bool-cases, inl, inr, ℤ, ltb_ℤ,
}
use ptr_research.Batcher.{
  BatchRequest, Status, Reason, Batcher, finished, failed, expired, is_cancelled, is_done,
  set_future,
}
use ptr_research.Batcher.Select.{is_late, dropped, prune, Chosen, better, scan, popped, take_items}

abbrev pub Queues : Type 0
Queues = Dict ℕ (List BatchRequest)

-- The limits stay, and no future gets a result.
pub record Kept (b b' : Batcher) : Type 0 where
  pub same_size : b'.max_batch_size ≡ b.max_batch_size
  pub same_bound : b'.max_queue ≡ b.max_queue
  pub same_next : b'.next_id ≡ b.next_id
  pub falls : b'.queued ≤ b.queued
  pub no_answers :
      (i v : ℕ) → lookup i b'.futures ≡ some (finished v) → lookup i b.futures ≡ some (finished v)

pub Kept-refl : (b : Batcher) → Kept b b
Kept-refl b = record {
  same_size = refl;
  same_bound = refl;
  same_next = refl;
  falls = omega arith;
  no_answers = λ i v e. e;
}

pub Kept-trans : {a b c : Batcher} → Kept a b → Kept b c → Kept a c
Kept-trans x y = record {
  same_size = y.same_size ∙ x.same_size;
  same_bound = y.same_bound ∙ x.same_bound;
  same_next = y.same_next ∙ x.same_next;
  falls = omega (arith, x.falls, y.falls);
  no_answers = λ i v e. x.no_answers i v (y.no_answers i v e);
}

pub set_future-no_answer :
    (futures : Dict ℕ Status) (j i v : ℕ) (reason : Reason)
    → lookup i (set_future futures j (failed reason)) ≡ some (finished v)
    → lookup i futures ≡ some (finished v)
unfolding set_future
set_future-no_answer futures j i v reason e = elim (Bool-cases (is_done futures j)) [
  | inl done ↦ rw done at e
  | inr open_ ↦
      let e' : lookup i (insert j (failed reason) futures) ≡ some (finished v) = rw open_ at e in
      ground (arith, lookup-insert j i (failed reason) futures, e')
]

dropped-Kept : (b : Batcher) (r : BatchRequest) → Kept b (dropped b r)
unfolding dropped
dropped-Kept b r = elim (Bool-cases (is_cancelled b.futures r.id)) [
  | inl gone ↦ rw gone (record {
    same_size = refl;
    same_bound = refl;
    same_next = refl;
    falls = omega arith;
    no_answers = λ i v e. e;
  })
  | inr there ↦ rw there (record {
    same_size = refl;
    same_bound = refl;
    same_next = refl;
    falls = omega arith;
    no_answers = λ i v e. set_future-no_answer b.futures r.id i v expired e;
  })
]

dropped-queued : (b : Batcher) (r : BatchRequest) → (dropped b r).queued ≡ b.queued - 1
unfolding dropped
dropped-queued b r = ground arith

-- What a loop over a queue does: it keeps the batcher, the count falls by what leaves the queue,
-- and what stays had stood there.
pub record Loop (b b' : Batcher) (q q' : List BatchRequest) : Type 1 where
  pub kept : Kept b b'
  pub counts : (n : ℕ) → b.queued ≡ n + length q → b'.queued ≡ n + length q'
  pub stays : (P : BatchRequest → Type 0) → All P q → All P q'

pub prune-Loop :
    (now : ℤ) (b : Batcher) (q : List BatchRequest) → Loop b (prune now b q).0 q (prune now b q).1
unfolding prune
prune-Loop now b [] = record { kept = Kept-refl b; counts = λ n e. e; stays = λ P a. a }
prune-Loop now b (r ∷ rs) = elim (Bool-cases (is_cancelled b.futures r.id || is_late now r)) [
  | inr ready ↦ rw ready (record { kept = Kept-refl b; counts = λ n e. e; stays = λ P a. a })
  | inl gone ↦
      let rest = prune-Loop now (dropped b r) rs in
      rw gone (record {
        kept = Kept-trans (dropped-Kept b r) rest.kept;
        counts = λ n e. rest.counts n (omega (arith, dropped-queued b r, e));
        stays = λ P a. rest.stays P a.1;
      })
]

abbrev pub total : Queues → ℕ
total [] = 0
total ((key, q) ∷ qs) = length q + total qs

-- What holds of each request, by the key of its queue.
abbrev pub Holds : (ℕ → BatchRequest → Type 0) → Queues → Type 0
Holds P = All (λ e. All (P e.0) e.1)

-- The first request of each queue is not older than that.
abbrev pub NotOlder : BatchRequest → List BatchRequest → Type 0
NotOlder c [] = Unit
NotOlder c (r ∷ rs) = ltb_ℤ r.submitted_at c.submitted_at ≡ false

pub record Scanned (b b' : Batcher) (qs qs' : Queues) : Type 1 where
  pub kept : Kept b b'
  pub counts : (n : ℕ) → b.queued ≡ n + total qs → b'.queued ≡ n + total qs'
  pub holds : (P : ℕ → BatchRequest → Type 0) → Holds P qs → Holds P qs'
  pub lookups : (k : ℕ) → lookup k qs ≡ none → lookup k qs' ≡ none

pub scan-Scanned :
    (now : ℤ) (b : Batcher) (qs : Queues) (chosen : Chosen)
    → Scanned b (scan now b qs chosen).0 qs (scan now b qs chosen).1
unfolding scan
scan-Scanned now b [] chosen = record {
  kept = Kept-refl b;
  counts = λ n e. e;
  holds = λ P h. h;
  lookups = λ k e. e;
}
scan-Scanned now b ((key, q) ∷ qs) chosen =
    let first = prune-Loop now b q in
    let b' = (prune now b q).0 in
    let q' = (prune now b q).1 in
    let rest = scan-Scanned now b' qs (better chosen key q') in
    record {
      kept = Kept-trans first.kept rest.kept;
      counts = λ n e.
          let e1 = first.counts (n + total qs) (omega (arith, e)) in
          let e2 = rest.counts (n + length q') (omega (arith, e1)) in omega (arith, e2);
      holds = λ P h. (first.stays (P key) h.0, rest.holds P h.1);
      lookups = λ k e. elim (Bool-cases (key == k)) [
        | inl same ↦ absurd (ground (arith, same, e))
        | inr other ↦ rw other (rest.lookups k (rw other at e))
      ];
    }

pub scan-IsDict :
    (now : ℤ) (b : Batcher) (qs : Queues) (chosen : Chosen)
    → IsDict qs
    → IsDict (scan now b qs chosen).1
unfolding scan
scan-IsDict now b [] chosen d = tt
scan-IsDict now b ((key, q) ∷ qs) chosen d =
    let b' = (prune now b q).0 in
    let chosen' = better chosen key (prune now b q).1 in
    ((scan-Scanned now b' qs chosen').lookups key d.0, scan-IsDict now b' qs chosen' d.1)

-- What the loop that takes the batch does.
pub record Taking (places : ℕ) (b b' : Batcher) (q items rest : List BatchRequest) : Type 1 where
  pub kept : Kept b b'
  pub same_futures : b'.futures ≡ b.futures
  pub counts : (n : ℕ) → b.queued ≡ n + length q → b'.queued ≡ n + length rest
  pub splits : (P : BatchRequest → Type 0) → All P q → All P items × All P rest
  pub fits : length items ≤ places
  pub standing : All (λ r. is_cancelled b.futures r.id ≡ false) items

popped-Kept : (b : Batcher) (gone : Bool) → Kept b (popped b gone)
popped-Kept b true = record {
  same_size = refl;
  same_bound = refl;
  same_next = refl;
  falls = omega arith;
  no_answers = λ i v e. e;
}
popped-Kept b false = record {
  same_size = refl;
  same_bound = refl;
  same_next = refl;
  falls = omega arith;
  no_answers = λ i v e. e;
}

popped-rest :
    (b : Batcher) (gone : Bool)
    → ((popped b gone).queued ≡ b.queued - 1) × ((popped b gone).futures ≡ b.futures)
popped-rest b true = (refl, refl)
popped-rest b false = (refl, refl)

pub take_items-Taking :
    (places : ℕ) (b : Batcher) (q : List BatchRequest)
    → Taking places b
        (take_items places b q).1
        q
        (take_items places b q).0
        (take_items places b q).2
unfolding take_items
take_items-Taking places b [] = record {
  kept = Kept-refl b;
  same_futures = refl;
  counts = λ n e. e;
  splits = λ P a. (tt, tt);
  fits = omega arith;
  standing = tt;
}
take_items-Taking places b (r ∷ rs) = elim (Bool-cases (places == 0)) [
  | inl full ↦ rw full (record {
    kept = Kept-refl b;
    same_futures = refl;
    counts = λ n e. e;
    splits = λ P a. (tt, a);
    fits = omega arith;
    standing = tt;
  })
  | inr room ↦ elim (Bool-cases (is_cancelled b.futures r.id)) [
    | inl gone ↦
        let rest = take_items-Taking places (popped b true) rs in
        rw (room, gone)
          (record {
            kept = Kept-trans (popped-Kept b true) rest.kept;
            same_futures = rest.same_futures;
            counts = λ n e. rest.counts n (omega (arith, e));
            splits = λ P a. rest.splits P a.1;
            fits = rest.fits;
            standing = rest.standing;
          })
    | inr there ↦
        let rest = take_items-Taking (places - 1) (popped b false) rs in
        rw (room, there)
          (record {
            kept = Kept-trans (popped-Kept b false) rest.kept;
            same_futures = rest.same_futures;
            counts = λ n e. rest.counts n (omega (arith, e));
            splits = λ P a. let (x, y) = rest.splits P a.1 in ((a.0, x), y);
            fits = ground (arith, room, rest.fits);
            standing = (there, rest.standing);
          })
  ]
]

-- The head of each queue that is passed is compared: the choice is never newer than one of them.
abbrev pub Covers : Chosen → List BatchRequest → Type 0
Covers none q = q ≡ []
Covers (some (key, c)) q = NotOlder c q

better-Covers : (chosen : Chosen) (key : ℕ) (q : List BatchRequest) → Covers (better chosen key q) q
better-Covers none key [] = refl
better-Covers (some (k, c)) key [] = tt
better-Covers none key (r ∷ rs) = ground arith
better-Covers (some (k, c)) key (r ∷ rs) = elim (Bool-cases (ltb_ℤ r.submitted_at c.submitted_at)) [
  | inl older ↦ rw older (ground arith)
  | inr newer ↦ rw newer newer
]

better-keeps :
    (chosen : Chosen) (key : ℕ) (q p : List BatchRequest)
    → Covers chosen p
    → Covers (better chosen key q) p
better-keeps chosen key [] p h = h
better-keeps none key (r ∷ rs) [] h = tt
better-keeps none key (r ∷ rs) (x ∷ xs) h = cc
better-keeps (some (k, c)) key (r ∷ rs) [] h =
    elim (Bool-cases (ltb_ℤ r.submitted_at c.submitted_at)) [
      | inl older ↦ rw older tt
      | inr newer ↦ rw newer tt
    ]
better-keeps (some (k, c)) key (r ∷ rs) (x ∷ xs) h =
    elim (Bool-cases (ltb_ℤ r.submitted_at c.submitted_at)) [
      | inl older ↦ rw older (ground (arith, older, h))
      | inr newer ↦ rw newer h
    ]

scan-keeps :
    (now : ℤ) (b : Batcher) (qs : Queues) (chosen : Chosen) (p : List BatchRequest)
    → Covers chosen p
    → Covers (scan now b qs chosen).2 p
unfolding scan
scan-keeps now b [] chosen p h = h
scan-keeps now b ((key, q) ∷ qs) chosen p h =
    let pruned = prune now b q in
    scan-keeps now (pruned.0) qs (better chosen key (pruned.1)) p
      (better-keeps chosen key (pruned.1) p h)

-- After the scan, whatever was chosen before it: where nothing is chosen all queues are empty, and
-- where a request is, no queue has an older one at its front.
pub scan-Covers :
    (now : ℤ) (b : Batcher) (qs : Queues) (chosen : Chosen)
    → All (λ e. Covers (scan now b qs chosen).2 e.1) (scan now b qs chosen).1
unfolding scan
scan-Covers now b [] chosen = tt
scan-Covers now b ((key, q) ∷ qs) chosen =
    let pruned = prune now b q in
    let chosen' = better chosen key (pruned.1) in
    (
      scan-keeps now (pruned.0) qs chosen' (pruned.1) (better-Covers chosen key (pruned.1)),
      scan-Covers now (pruned.0) qs chosen',
    )
