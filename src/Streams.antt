-- ===== src/Streams.antt =====
-- Branches and duplex sessions of neural_pods/pod_streams.py. Ids, keys, texts and reasons are
-- numbers, 0 being the empty text; confidence is in millionths and latency in microseconds.
pub mod Merge
pub mod Order
pub mod Duplex
mod Tests
use ptr_research.Common.{
  ℕ, suc, ◌+◌, Bool, true, false, ◌||◌, ◌&&◌, Option, none, some, List, [], ◌∷◌, ◌++◌, length, drop,
  if◌then◌else◌, ◌==◌, not, ltb, Result, ok, err, ◌>>=◌, ◌>>◌, raise_if, ℤ, pos, negsuc, ltb_ℤ,
  leb_ℤ,
}

pub record HypothesisBranch : Type 0 where
  pub branch_id : ℕ
  pub pod_id : ℕ
  pub generation : ℕ
  pub evidence : List ℕ
  pub answer : Option ℕ
  pub confidence : ℤ
  pub latency : ℤ
  pub verified : Bool

pub data Error : Type 0 where
  branch_identity_required confidence_out_of_range latency_negative : Error
  empty_branch_set no_verified_branches : Error
  session_id_required session_closed invalid_resume_cursor : Error

abbrev pub one : ℤ
one = pos 1000000

-- `__post_init__`
unfoldable pub checked_branch : HypothesisBranch → Result Error HypothesisBranch
checked_branch b = do
  raise_if (b.branch_id == 0 || (b.pod_id == 0 || b.generation == 0)) branch_identity_required
  raise_if (not (leb_ℤ (pos 0) b.confidence && leb_ℤ b.confidence one)) confidence_out_of_range
  raise_if (ltb_ℤ b.latency (pos 0)) latency_negative
  ok b

-- What an event carries besides the session's id and epoch.
pub data Body : Type 0 where
  other : ℕ → Body
  turn_commit : ℕ → Body
  response_interrupted : ℕ → Body
  session_closed_ : Body

pub record PodEvent : Type 0 where
  pub body : Body
  pub sequence : ℕ
  pub session_id : ℕ
  pub epoch : ℕ

pub record DuplexSession : Type 0 where
  pub session_id : ℕ
  pub capabilities : List ℕ
  pub epoch : ℕ
  pub turn_id : ℕ
  pub sequence : ℕ
  pub events : List PodEvent
  pub closed : Bool

unfoldable pub new_session : ℕ → List ℕ → Result Error DuplexSession
new_session session_id capabilities =
    if session_id == 0
    then err session_id_required
    else ok (record {
      session_id = session_id;
      capabilities = capabilities;
      epoch = 0;
      turn_id = 0;
      sequence = 0;
      events = [];
      closed = false;
    })

abbrev pub event_of : DuplexSession → Body → PodEvent
event_of s body = record {
  body = body;
  sequence = s.sequence + 1;
  session_id = s.session_id;
  epoch = s.epoch;
}

abbrev pub emit_if : Bool → DuplexSession → Body → Result Error PodEvent × DuplexSession
emit_if true s body = (err session_closed, s)
emit_if false s body = (
  ok (event_of s body),
  record s { sequence = s.sequence + 1; events = s.events ++ event_of s body ∷ [] },
)

-- An operation gives its event or raises, and leaves a session either way.
unfoldable pub emit : DuplexSession → Body → Result Error PodEvent × DuplexSession
emit s body = emit_if s.closed s body

-- The turn is counted before the event is refused or written.
unfoldable pub commit_turn : DuplexSession → Result Error PodEvent × DuplexSession
unfolding emit
commit_turn s = emit (record s { turn_id = s.turn_id + 1 }) (turn_commit (s.turn_id + 1))

unfoldable pub interrupt : DuplexSession → ℕ → Result Error PodEvent × DuplexSession
unfolding emit
interrupt s reason = emit (record s { epoch = s.epoch + 1 }) (response_interrupted reason)

abbrev pub closing : Result Error PodEvent × DuplexSession → Result Error PodEvent × DuplexSession
closing (err e, s) = (err e, s)
closing (ok event, s) = (ok event, record s { closed = true })

unfoldable pub close : DuplexSession → Result Error PodEvent × DuplexSession
unfolding emit
close s = closing (emit s session_closed_)

unfoldable pub resume : DuplexSession → ℤ → Result Error (List PodEvent)
resume s (negsuc n) = err invalid_resume_cursor
resume s (pos n) = if ltb s.sequence n then err invalid_resume_cursor else ok (drop n s.events)
