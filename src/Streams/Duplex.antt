-- ===== src/Streams/Duplex.antt =====
-- The log of a duplex session of neural_pods/pod_streams.py, and a client that comes back to it.
use ptr_research.Common.{
  ℕ, suc, ◌+◌, ◌≡◌, refl, sym, ap, ◌∙◌, subst, Bool, true, false, List, [], ◌∷◌, ◌++◌, length, drop,
  arith, ltb, Result, ok, err, pos, drop-append, append_assoc, append-nil, length-append,
}
use ptr_research.Streams.{
  Body, PodEvent, DuplexSession, Error, new_session, event_of, emit_if, emit, commit_turn, closing,
  interrupt, close, resume,
}

-- Any call that changes the session, whether it returns or raises.
pub data Step (s : DuplexSession) : DuplexSession → Type 0 where
  emits : (body : Body) → Step s (emit s body).1
  commits : Step s (commit_turn s).1
  interrupts : (reason : ℕ) → Step s (interrupt s reason).1
  closes : Step s (close s).1

pub data Later (s : DuplexSession) : DuplexSession → Type 0 where
  now_ : Later s s
  after : {s' s'' : DuplexSession} → Later s s' → Step s' s'' → Later s s''

-- The events are numbered on from `n` without a gap.
abbrev pub IsNumbered : ℕ → List PodEvent → Type 0
IsNumbered n [] = Unit
IsNumbered n (e ∷ es) = (e.sequence ≡ suc n) × IsNumbered (suc n) es

IsNumbered-append :
    (n : ℕ) (xs ys : List PodEvent)
    → IsNumbered n xs
    → IsNumbered (n + length xs) ys
    → IsNumbered n (xs ++ ys)
IsNumbered-append n [] ys h k = subst (λ m. IsNumbered m ys) (omega arith) k
IsNumbered-append n (x ∷ xs) ys h k =
    (h.0, IsNumbered-append (suc n) xs ys h.1 (subst (λ m. IsNumbered m ys) (omega arith) k))

-- What later calls add to the log.
record Grows (s s' : DuplexSession) : Type 0 where
  added : List PodEvent
  log : s'.events ≡ s.events ++ added
  counted : s'.sequence ≡ s.sequence + length added
  numbered : IsNumbered s.sequence added

unchanged : (s s' : DuplexSession) → s'.events ≡ s.events → s'.sequence ≡ s.sequence → Grows s s'
unchanged s s' e n = record {
  added = [];
  log = e ∙ sym (append-nil s.events);
  counted = omega (arith, n);
  numbered = tt;
}

emit_if-Grows : (c : Bool) (s : DuplexSession) (body : Body) → Grows s (emit_if c s body).1
emit_if-Grows true s body = unchanged s s refl refl
emit_if-Grows false s body = record {
  added = event_of s body ∷ [];
  log = refl;
  counted = omega arith;
  numbered = (omega arith, tt);
}

emit-Grows : (s : DuplexSession) (body : Body) → Grows s (emit s body).1
unfolding emit
emit-Grows s body = emit_if-Grows s.closed s body

closing-Grows :
    (s : DuplexSession) (o : Result Error PodEvent × DuplexSession)
    → Grows s o.1
    → Grows s (closing o).1
closing-Grows s (err e, s') g = g
closing-Grows s (ok event, s') g = record {
  added = g.added;
  log = g.log;
  counted = g.counted;
  numbered = g.numbered;
}

close-Grows : (s : DuplexSession) → Grows s (close s).1
unfolding close
close-Grows s = closing-Grows s (emit s Body.session_closed_) (emit-Grows s Body.session_closed_)

Step-Grows : {s s' : DuplexSession} → Step s s' → Grows s s'
unfolding commit_turn interrupt
Step-Grows {s} (emits body) = emit-Grows s body
Step-Grows {s} commits =
    let g = emit-Grows (record s { turn_id = s.turn_id + 1 }) (Body.turn_commit (s.turn_id + 1)) in
    record { added = g.added; log = g.log; counted = g.counted; numbered = g.numbered }
Step-Grows {s} (interrupts reason) =
    let g = emit-Grows (record s { epoch = s.epoch + 1 }) (Body.response_interrupted reason) in
    record { added = g.added; log = g.log; counted = g.counted; numbered = g.numbered }
Step-Grows {s} closes = close-Grows s

Later-Grows : {s s' : DuplexSession} → Later s s' → Grows s s'
Later-Grows {s} now_ = unchanged s s refl refl
Later-Grows {s} (after {s'} {s''} l step) =
    let f = Later-Grows l in
    let g = Step-Grows step in
    record {
      added = f.added ++ g.added;
      log = g.log ∙ ap (λ es. es ++ g.added) f.log ∙ append_assoc s.events f.added g.added;
      counted = omega (arith, f.counted, g.counted, length-append f.added g.added);
      numbered =
          IsNumbered-append s.sequence f.added g.added f.numbered
            (subst (λ n. IsNumbered n g.added) f.counted g.numbered);
    }

starts_empty :
    (session_id : ℕ) (capabilities : List ℕ) (s : DuplexSession)
    → new_session session_id capabilities ≡ ok s
    → (s.events ≡ []) × (s.sequence ≡ 0)
unfolding new_session
starts_empty session_id capabilities s e = ground (arith, e)

resumed :
    (s s' : DuplexSession) (missed : List PodEvent)
    → s.sequence ≡ length s.events
    → s'.events ≡ s.events ++ missed
    → s'.sequence ≡ s.sequence + length missed
    → resume s' (pos s.sequence) ≡ ok missed
unfolding resume
resumed s s' missed n log counted =
    let within : ltb s'.sequence s.sequence ≡ false = ground (arith, counted) in
    rw within (
      ap (λ es. ok es)
        (ap (λ m. drop m s'.events) n
          ∙ ap (drop (length s.events)) log
          ∙ drop-append s.events missed))

-- Whatever calls came after a client's last event, in a session at any time after its start: when
-- it resumes with that event's number, it gets exactly the events that it lacks, numbered on from
-- there without a gap.
pub resume-Later :
    (session_id : ℕ) (capabilities : List ℕ) (s0 s s' : DuplexSession)
    → new_session session_id capabilities ≡ ok s0
    → Later s0 s
    → Later s s'
    → (missed : List PodEvent) × (resume s' (pos s.sequence) ≡ ok missed)
      × (s'.events ≡ s.events ++ missed)
      × IsNumbered s.sequence missed
resume-Later session_id capabilities s0 s s' e first later =
    let f = Later-Grows first in
    let g = Later-Grows later in
    let (empty, zero_) = starts_empty session_id capabilities s0 e in
    let bare = f.log ∙ ap (λ es. es ++ f.added) empty in
    let total : s.sequence ≡ length s.events = omega (arith, f.counted, zero_, ap length bare) in
    (g.added, resumed s s' g.added total g.log g.counted, g.log, g.numbered)
