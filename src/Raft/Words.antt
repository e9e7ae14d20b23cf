-- ===== src/Raft/Words.antt =====
-- Numbers in network order: what neural_pods/raft_transport.py packs it unpacks.
use ptr_research.Common.{
  ℕ, zero, suc, ◌+◌, ◌*◌, ◌/◌, ◌%◌, ◌<◌, ◌≡◌, refl, ap, sym, ◌∙◌, true, [], ◌∷◌, ◌++◌, arith,
  length, length-append, ◌↔◌, ==_iff, All,
}
use ptr_research.Raft.{Bytes, to_be, from_be, same}

-- The numbers that fit in `k` bytes are those below this.
abbrev pub room : ℕ → ℕ
room zero = 1
room (suc k) = room k * 256

from_be-append :
    (acc : ℕ) (bs : Bytes) (b : ℕ) → from_be acc (bs ++ b ∷ []) ≡ from_be acc bs * 256 + b
unfolding from_be
from_be-append acc [] b = refl
from_be-append acc (c ∷ bs) b = from_be-append (acc * 256 + c) bs b

pub length-to_be : (k n : ℕ) → length (to_be k n) ≡ k
unfolding to_be
length-to_be zero n = refl
length-to_be (suc k) n =
    omega (arith, length-append (to_be k (n / 256)) ((n % 256) ∷ []), length-to_be k (n / 256))

pub from_be-to_be : (k n : ℕ) → n < room k → from_be 0 (to_be k n) ≡ n
unfolding to_be from_be
from_be-to_be zero n h = omega (arith, h)
from_be-to_be (suc k) n h = omega (
  arith,
  from_be-append 0 (to_be k (n / 256)) (n % 256),
  from_be-to_be k (n / 256) (omega (arith, h)),
)

abbrev pub AreBytes : Bytes → Type 0
AreBytes = All (λ b. b < 256)

-- The last byte apart.
last_of :
    (k : ℕ) (bs : Bytes)
    → length bs ≡ suc k
    → (init : Bytes) × (b : ℕ) × (bs ≡ init ++ b ∷ [])
      × (length init ≡ k)
      × (AreBytes bs → AreBytes init × (b < 256))
last_of k [] h = absurd (omega (arith, h))
last_of zero (b ∷ []) h = ([], b, refl, refl, λ a. (tt, a.0))
last_of zero (b ∷ c ∷ bs) h = absurd (omega (arith, h))
last_of (suc k) (b ∷ []) h = absurd (omega (arith, h))
last_of (suc k) (b ∷ c ∷ bs) h =
    let (init, d, e, l, f) = last_of k (c ∷ bs) (omega (arith, h)) in
    (b ∷ init, d, ap (◌∷◌ b) e, ap suc l, λ a. ((a.0, (f a.1).0), (f a.1).1))

pub to_be-from_be :
    (k : ℕ) (bs : Bytes)
    → length bs ≡ k
    → AreBytes bs
    → (to_be k (from_be 0 bs) ≡ bs) × (from_be 0 bs < room k)
unfolding to_be from_be
to_be-from_be zero [] h a = (refl, omega arith)
to_be-from_be zero (b ∷ bs) h a = absurd (omega (arith, h))
to_be-from_be (suc k) bs h a =
    let (init, b, e, l, f) = last_of k bs h in
    let (same_, fits) = to_be-from_be k init l (f a).0 in
    let small : b < 256 = (f a).1 in
    let value : from_be 0 bs ≡ from_be 0 init * 256 + b =
      ap (from_be 0) e ∙ from_be-append 0 init b in
    let high : from_be 0 bs / 256 ≡ from_be 0 init = omega (arith, value, small) in
    let low : from_be 0 bs % 256 ≡ b = omega (arith, value, small) in
    (rw (high, low) (rw same_ (sym e)), omega (arith, value, small, fits))

pub same_iff : (xs ys : Bytes) → (same xs ys ≡ true) ↔ (xs ≡ ys)
same_iff [] [] = (λ h. refl, λ h. refl)
same_iff [] (y ∷ ys) = (λ h. cc, λ h. cc)
same_iff (x ∷ xs) [] = (λ h. cc, λ h. cc)
same_iff (x ∷ xs) (y ∷ ys) = ground (arith, ==_iff x y, same_iff xs ys)
