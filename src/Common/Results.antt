-- ===== src/Common/Results.antt =====
-- A call that may raise: a value or the exception, and the chain of such calls.
use mathlib.Core.Path.{◌≡◌, refl, subst}
use mathlib.Core.Logic.{◌⊎◌, ◌↔◌, inl, inr}
use mathlib.Core.Bool.{Bool, true, false}
use mathlib.Core.List.{List, [], ◌∷◌}
use mathlib.Core.Option.{Option, none, some}

pub data Result {ℓ κ} (E : Type ℓ) (A : Type κ) : Type (ℓ ⊔ κ) where
  ok : A → Result E A
  err : E → Result E A

infixl 5 ◌>>=◌ ◌>>◌
abbrev pub ◌>>=◌ {ℓ κ μ} :
    {E : Type ℓ} {A : Type κ} {B : Type μ} → Result E A → (A → Result E B) → Result E B
err e >>= rest = err e
ok x >>= rest = rest x

-- `if c: raise e`
abbrev pub raise_if {ℓ} : {E : Type ℓ} → Bool → E → Result E (Unit {0})
raise_if true e = err e
raise_if false e = ok tt

-- A call for its effect, and what follows it.
abbrev pub ◌>>◌ {ℓ κ} : {E : Type ℓ} {A : Type κ} → Result E (Unit {0}) → Result E A → Result E A
first >> rest = first >>= λ done. rest

-- `d[k]`, where a missing key raises.
abbrev pub or_raise {ℓ κ} : {E : Type ℓ} {A : Type κ} → Option A → E → Result E A
or_raise none e = err e
or_raise (some a) e = ok a

pub ok-injective {ℓ κ} :
    {E : Type ℓ} {A : Type κ} {a b : A} → ◌≡◌ {A = Result E A} (ok a) (ok b) → a ≡ b
ok-injective h = cc

-- What holds of the value, if the call returns one.
abbrev pub OnOk {ℓ κ μ} : {E : Type ℓ} {A : Type κ} → (A → Type μ) → Result E A → Type μ
OnOk P (ok a) = P a
OnOk P (err e) = Unit

pub Result-cases {ℓ κ} :
    {E : Type ℓ} {A : Type κ} (m : Result E A) → ((a : A) × (m ≡ ok a)) ⊎ ((e : E) × (m ≡ err e))
Result-cases (ok a) = inl (a, refl)
Result-cases (err e) = inr (e, refl)

pub OnOk-eq_ok {ℓ κ μ} :
    {E : Type ℓ} {A : Type κ} (P : A → Type μ) {m : Result E A} {a : A} → m ≡ ok a → OnOk P m → P a
OnOk-eq_ok P e h = subst (OnOk P) e h

pub OnOk-map {ℓ κ μ ν} :
    {E : Type ℓ} {A : Type κ} (P : A → Type μ) (Q : A → Type ν) (m : Result E A)
    → ((a : A) → P a → Q a)
    → OnOk P m
    → OnOk Q m
OnOk-map P Q (ok a) f h = f a h
OnOk-map P Q (err e) f h = tt

-- A row of guards `if c: raise e`, of which the first that holds raises.
abbrev pub raise_first {ℓ} : {E : Type ℓ} → List (Bool × E) → Result E (Unit {0})
raise_first [] = ok tt
raise_first ((true, e) ∷ gs) = err e
raise_first ((false, e) ∷ gs) = raise_first gs

abbrev pub NoneHolds {ℓ} : {E : Type ℓ} → List (Bool × E) → Type 0
NoneHolds [] = Unit
NoneHolds ((c, e) ∷ gs) = (c ≡ false) × NoneHolds gs

passed_guards {ℓ} : {E : Type ℓ} (gs : List (Bool × E)) → raise_first gs ≡ ok tt → NoneHolds gs
passed_guards [] h = tt
passed_guards ((true, e) ∷ gs) h = cc
passed_guards ((false, e) ∷ gs) h = (refl, passed_guards gs h)

pass_guards {ℓ} : {E : Type ℓ} (gs : List (Bool × E)) → NoneHolds gs → raise_first gs ≡ ok tt
pass_guards [] h = refl
pass_guards ((true, e) ∷ gs) h = cc
pass_guards ((false, e) ∷ gs) h = pass_guards gs h.1

pub raise_first-NoneHolds {ℓ} :
    {E : Type ℓ} (gs : List (Bool × E)) → (raise_first gs ≡ ok tt) ↔ NoneHolds gs
raise_first-NoneHolds gs = (passed_guards gs, pass_guards gs)

pub after_guards {ℓ κ} :
    {E : Type ℓ} {A : Type κ} (gs : List (Bool × E)) (k : Result E A) {a : A}
    → (raise_first gs >> k) ≡ ok a
    → NoneHolds gs × (k ≡ ok a)
after_guards [] k h = (tt, h)
after_guards ((true, e) ∷ gs) k h = cc
after_guards ((false, e) ∷ gs) k h =
    let (rest, returns) = after_guards gs k h in ((refl, rest), returns)

-- A chain returns exactly if each of its parts does.
pub both-ok {ℓ κ} :
    {E : Type ℓ} {A : Type κ} (m : Result E (Unit {0})) (k : Result E A) {a : A}
    → (◌≡◌ {A = Result E A} (m >> k) (ok a)) ↔ ((m ≡ ok tt) × (k ≡ ok a))
both-ok (ok tt) k = (λ h. (refl, h), λ h. h.1)
both-ok (err e) k = (λ h. cc, λ h. cc)

pub raise_if-ok {ℓ} : {E : Type ℓ} (c : Bool) (e : E) → (raise_if c e ≡ ok tt) ↔ (c ≡ false)
raise_if-ok true e = (λ h. cc, λ h. cc)
raise_if-ok false e = (λ h. refl, λ h. refl)

pub bind-ok {ℓ κ μ} :
    {E : Type ℓ} {A : Type κ} {B : Type μ} (m : Result E A) (f : A → Result E B) {b : B}
    → (m >>= f) ≡ ok b
    → (a : A) × (m ≡ ok a) × (f a ≡ ok b)
bind-ok (ok a) f h = (a, refl, h)
bind-ok (err e) f h = cc
