-- ===== src/Mesh/Envelope.antt =====
-- Envelopes of neural_pods/mesh.py and `envelope_refusal`, the decision that bounds a message.
-- Ids, texts and bodies are numbers that are only compared; times are whole milliseconds.
use ptr_research.Common.{
  ℕ, Bool, ◌&&◌, Option, none, some, List, Result, ok, err, if◌then◌else◌, mem, ℤ, pos, ◌+ℤ◌, ◌-ℤ◌,
  ltb_ℤ, leb_ℤ, false, not,
}

-- A field off the wire, by what `int()` or `float()` makes of it: not there, a number, a value
-- that they refuse (TypeError, ValueError), an integer too large for `float()`, or an infinite
-- float, positive if the flag is true, which `float()` takes and `int()` does not (OverflowError).
-- Of the budget, which only `int()` reads, the integers are all `number`.
pub data Wire : Type 0 where
  absent refused overflows : Wire
  infinite : Bool → Wire
  number : ℤ → Wire

-- The field `visited`: absent or empty, a list of pod ids, a value of another type that Python
-- can iterate over (a text, an object), or one that it cannot (a number).
pub data Visited : Type 0 where
  pods : List ℕ → Visited
  not_a_list not_iterable : Visited

pub record Envelope : Type 0 where
  pub body : ℕ
  pub hop_budget : Wire
  pub visited : Visited
  pub deadline_ms : Wire
  pub ts_ms : Wire
  pub trace_id : Option ℕ
  pub principal : Option ℕ
  pub manifest_hash : Option ℕ
  pub protocol_version : Option ℕ
  pub sig : Option ℕ

pub data Refusal : Type 0 where
  malformed expired unbounded cycle hop_exhausted : Refusal

-- An exception that leaves `envelope_refusal`.
pub data Overflow : Type 0 where
  overflow : Overflow

-- `try: int(x)`, where a refused value is "malformed".
abbrev pub as_int : Wire → (ℤ → Result Overflow (Option Refusal)) → Result Overflow (Option Refusal)
as_int absent f = ok (some malformed)
as_int refused f = ok (some malformed)
as_int overflows f = err overflow
as_int (infinite positive) f = err overflow
as_int (number n) f = f n

-- `try: float(x)`, before what follows.
abbrev pub as_float : Wire → Result Overflow (Option Refusal) → Result Overflow (Option Refusal)
as_float absent rest = ok (some malformed)
as_float refused rest = ok (some malformed)
as_float overflows rest = err overflow
as_float (infinite positive) rest = rest
as_float (number n) rest = rest

-- `float(started) + float(deadline) < now`; two infinities of different signs have no sum, and what
-- is not a number is not less.
abbrev pub is_late : ℤ → Wire → Wire → Bool
is_late now (number s) (number d) = ltb_ℤ (s +ℤ d) now
is_late now (number s) (infinite positive) = not positive
is_late now (infinite positive) (number d) = not positive
is_late now (infinite p) (infinite q) = not p && not q
is_late now _ _ = false

-- Both halves of the deadline are needed; one alone is not checked.
unfoldable pub deadline_refusal : ℤ → Wire → Wire → Result Overflow (Option Refusal)
deadline_refusal now absent started = ok none
deadline_refusal now deadline absent = ok none
deadline_refusal now deadline started =
    as_float started
      (as_float deadline (ok (if is_late now started deadline then some expired else none)))

abbrev budget_left : Bool → ℤ → ℤ
budget_left forwarding n = if forwarding then n -ℤ pos 1 else n

unfoldable pub budget_refusal : ℕ → Bool → List ℕ → Wire → Result Overflow (Option Refusal)
budget_refusal pod_id forwarding seen absent = ok (if forwarding then some unbounded else none)
budget_refusal pod_id forwarding seen budget = as_int budget λ n. ok (
    if forwarding && mem pod_id seen
    then some cycle
    else if leb_ℤ (budget_left forwarding n) (pos 0)
    then some hop_exhausted
    else none)

-- `return` of a refusal, or the rest of the function.
abbrev pub or_refuse :
    Result Overflow (Option Refusal)
    → Result Overflow (Option Refusal)
    → Result Overflow (Option Refusal)
or_refuse (ok none) rest = rest
or_refuse (ok (some r)) rest = ok (some r)
or_refuse (err e) rest = err e

abbrev refusal_of_visited : ℕ → ℤ → Bool → Envelope → Visited → Result Overflow (Option Refusal)
refusal_of_visited pod_id now forwarding e not_a_list = ok (some malformed)
refusal_of_visited pod_id now forwarding e not_iterable = ok (some malformed)
refusal_of_visited pod_id now forwarding e (pods seen) =
    or_refuse (deadline_refusal now e.deadline_ms e.ts_ms)
      (budget_refusal pod_id forwarding seen e.hop_budget)

unfoldable pub envelope_refusal : ℕ → ℤ → Bool → Envelope → Result Overflow (Option Refusal)
unfolding deadline_refusal budget_refusal
envelope_refusal pod_id now forwarding e = refusal_of_visited pod_id now forwarding e e.visited
