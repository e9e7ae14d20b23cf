-- ===== src/Common/Lists.antt =====
-- Lists measured by native numbers, membership tests and predicates on all elements.
use Prim.Native.Nat.{ℕ, zero, suc, ◌+◌, ◌≤◌}
use mathlib.Core.Path.{◌≡◌, refl, ap, ◌∙◌}
use mathlib.Core.Bool.{Bool, true, false, ◌&&◌, ◌||◌}
use mathlib.Core.List.{List, [], ◌∷◌, ◌++◌}
use native.Mathlib.Omega.{arith}
use ptr_research.Common.Tests.{ltb, ◌==◌, if◌then◌else◌}

module _ {ℓ} {A : Type ℓ} where
  abbrev pub length : List A → ℕ
  length [] = 0
  length (x ∷ xs) = suc (length xs)

  abbrev pub take : ℕ → List A → List A
  take zero xs = []
  take (suc n) [] = []
  take (suc n) (x ∷ xs) = x ∷ take n xs

  abbrev pub drop : ℕ → List A → List A
  drop zero xs = xs
  drop (suc n) [] = []
  drop (suc n) (x ∷ xs) = drop n xs

  abbrev pub filter : (A → Bool) → List A → List A
  filter p [] = []
  filter p (x ∷ xs) = if p x then x ∷ filter p xs else filter p xs

  abbrev pub all : (A → Bool) → List A → Bool
  all p [] = true
  all p (x ∷ xs) = p x && all p xs

  abbrev pub All {κ} : (A → Type κ) → List A → Type κ
  All P [] = Unit
  All P (x ∷ xs) = P x × All P xs

  pub length-append : (xs ys : List A) → length (xs ++ ys) ≡ length xs + length ys
  length-append [] ys = omega arith
  length-append (x ∷ xs) ys = omega (arith, length-append xs ys)

module _ {ℓ κ} {A : Type ℓ} (P : A → Type κ) where
  pub All-append : (xs ys : List A) → All P xs → All P ys → All P (xs ++ ys)
  All-append [] ys hx hy = hy
  All-append (x ∷ xs) ys hx hy = (hx.0, All-append xs ys hx.1 hy)

  -- Removing one element from the middle.
  pub All-remove :
      (xs : List A) (y : A) (ys : List A) → All P (xs ++ y ∷ ys) → P y × All P (xs ++ ys)
  All-remove [] y ys h = h
  All-remove (x ∷ xs) y ys h = let (hy, rest) = All-remove xs y ys h.1 in (hy, (h.0, rest))

-- `x in xs` on identifiers.
abbrev pub mem : ℕ → List ℕ → Bool
mem k [] = false
mem k (x ∷ xs) = k == x || mem k xs

pub mem-append : (k : ℕ) (xs ys : List ℕ) → mem k (xs ++ ys) ≡ (mem k xs || mem k ys)
mem-append k [] ys = refl
mem-append k (x ∷ xs) ys = ground (arith, mem-append k xs ys)

-- No identifier is listed twice.
abbrev pub IsDistinct : List ℕ → Type 0
IsDistinct [] = Unit
IsDistinct (x ∷ xs) = (mem x xs ≡ false) × IsDistinct xs

-- No more distinct numbers than a list has places, if all of them stand in it.
without : ℕ → List ℕ → List ℕ
without x [] = []
without x (y ∷ ys) = if x == y then ys else y ∷ without x ys

length-without : (x : ℕ) (ys : List ℕ) → mem x ys ≡ true → length ys ≡ suc (length (without x ys))
unfolding without
length-without x [] h = cc
length-without x (y ∷ ys) h = ground (arith, length-without x ys)

mem-without :
    (k x : ℕ) (ys : List ℕ) → (k == x) ≡ false → mem k ys ≡ true → mem k (without x ys) ≡ true
unfolding without
mem-without k x [] other h = h
mem-without k x (y ∷ ys) other h = ground (arith, mem-without k x ys other)

All-without :
    (x : ℕ) (xs ys : List ℕ)
    → mem x xs ≡ false
    → All (λ k. mem k ys ≡ true) xs
    → All (λ k. mem k (without x ys) ≡ true) xs
All-without x [] ys new_ h = tt
All-without x (k ∷ xs) ys new_ h =
    (mem-without k x ys (ground (arith, new_)) h.0, All-without x xs ys (ground (arith, new_)) h.1)

pub length_of_distinct :
    (xs ys : List ℕ) → IsDistinct xs → All (λ x. mem x ys ≡ true) xs → length xs ≤ length ys
length_of_distinct [] ys u h = omega arith
length_of_distinct (x ∷ xs) ys u h = omega (
  arith,
  length-without x ys h.0,
  length_of_distinct xs (without x ys) u.1 (All-without x xs ys u.0 h.1),
)

abbrev pub is_empty {ℓ} : {A : Type ℓ} → List A → Bool
is_empty [] = true
is_empty (x ∷ xs) = false

abbrev pub insert_sorted : ℕ → List ℕ → List ℕ
insert_sorted x [] = x ∷ []
insert_sorted x (y ∷ ys) =
    let rest = insert_sorted x ys in
    if x == y then y ∷ ys else if ltb x y then x ∷ y ∷ ys else y ∷ rest

-- `sorted(set(xs))`
abbrev pub sorted_set : List ℕ → List ℕ
sorted_set [] = []
sorted_set (x ∷ xs) = insert_sorted x (sorted_set xs)

mem-insert_sorted : (z x : ℕ) (ys : List ℕ) → mem z (insert_sorted x ys) ≡ (z == x || mem z ys)
mem-insert_sorted z x [] = refl
mem-insert_sorted z x (y ∷ ys) = ground (arith, mem-insert_sorted z x ys)

pub mem-sorted_set : (z : ℕ) (xs : List ℕ) → mem z (sorted_set xs) ≡ mem z xs
mem-sorted_set z [] = refl
mem-sorted_set z (x ∷ xs) =
    mem-insert_sorted z x (sorted_set xs) ∙ ap (λ b. z == x || b) (mem-sorted_set z xs)
