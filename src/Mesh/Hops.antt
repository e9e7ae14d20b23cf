-- ===== src/Mesh/Hops.antt =====
-- One forward through neural_pods/mesh.py, as what it reads and what the broker accepts.
use ptr_research.Common.{
  ℕ, ◌≡◌, refl, sym, ap, subst, ◌∙◌, Bool, true, Option, none, some, List, [], ◌∷◌, ◌++◌, inl, inr,
  arith, Result, ok, err, Bool-cases, Option-cases, length, ℤ, pos, ◌-ℤ◌,
}
use ptr_research.Mesh.Topic.{topic_allowed}
use ptr_research.Mesh.Envelope.{
  Wire, number, Visited, pods, not_a_list, not_iterable, Envelope, envelope_refusal, Refusal,
  Overflow,
}
use ptr_research.Mesh.Bounds.{WithinBounds, envelope_refusal-WithinBounds}
use ptr_research.Mesh.Endpoint.{
  MeshError, default_to, default_time, Topic, Endpoint, accepted, stamp, publish_raw, onward,
  forward, forward_by, forward_visited, send_on,
}

cons-ne_self {ℓ} : {A : Type ℓ} (x : A) (xs : List A) → ¬ (xs ≡ x ∷ xs)
cons-ne_self x xs e = omega (arith, ap length e)

head-eq {ℓ} : {A : Type ℓ} {x y : A} {xs ys : List A} → x ∷ xs ≡ y ∷ ys → x ≡ y
head-eq e = cc

not_a_list_refused :
    (pod_id : ℕ) (now : ℤ) (forwarding : Bool) (e : Envelope)
    → e.visited ≡ not_a_list
    → envelope_refusal pod_id now forwarding e ≡ ok (some Refusal.malformed)
unfolding envelope_refusal
not_a_list_refused pod_id now forwarding e ev = rw (ev, envelope_refusal)

-- One hop: what a forward by the pod `p` has read from the envelope and put on the wire.
pub record Hop (now : ℤ) (p : Endpoint) (topic : Topic) (e e' : Envelope) : Type 0 where
  pub seen : List ℕ
  pub budget : ℤ
  pub was_visited : e.visited ≡ pods seen
  pub had_budget : e.hop_budget ≡ number budget
  pub bounds : WithinBounds p.pod_id now true e (pods seen)
  pub allowed : topic_allowed p.allowed_topics topic ≡ true
  pub new_budget : e'.hop_budget ≡ number (budget -ℤ pos 1)
  pub new_visited : e'.visited ≡ pods (seen ++ p.pod_id ∷ [])
  pub same_deadline : e'.deadline_ms ≡ e.deadline_ms
  pub same_trace : e'.trace_id ≡ e.trace_id
  pub same_start : e'.ts_ms ≡ default_time e.ts_ms now
  pub stamped : (e'.principal ≡ some p.principal) × (e'.manifest_hash ≡ some p.manifest_hash)

module _ (mac : ℕ → Envelope → ℕ) (broker : ℕ → Bool) where
  stamp_keeps :
      (p : Endpoint) (now : ℤ) (e : Envelope)
      → ((stamp mac p now e).hop_budget ≡ e.hop_budget)
        × ((stamp mac p now e).visited ≡ e.visited)
        × ((stamp mac p now e).deadline_ms ≡ e.deadline_ms)
        × ((stamp mac p now e).trace_id ≡ e.trace_id)
        × ((stamp mac p now e).ts_ms ≡ default_time e.ts_ms now)
        × ((stamp mac p now e).principal ≡ default_to e.principal p.principal)
        × ((stamp mac p now e).manifest_hash ≡ default_to e.manifest_hash p.manifest_hash)
  unfolding stamp
  stamp_keeps p now e = elim (Option-cases p.secret) [
    | inl none_ ↦ rw (none_, stamp) (refl, refl, refl, refl, refl, refl, refl)
    | inr (k, key) ↦ rw (key, stamp) (refl, refl, refl, refl, refl, refl, refl)
  ]

  -- What the broker has accepted is the stamped envelope.
  published-sent :
      (now : ℤ) (p : Endpoint) (topic : Topic) (e e' : Envelope)
      → (publish_raw mac broker now p topic e).sent ≡ (topic, e') ∷ p.sent
      → e' ≡ stamp mac p now e
  unfolding publish_raw
  published-sent now p topic e e' h = elim (Bool-cases (accepted broker 0 15)) [
    | inl yes_ ↦ ap (λ (x : Topic × Envelope). x.1) (sym (head-eq (rw (yes_, publish_raw) at h)))
    | inr no_ ↦ absurd (cons-ne_self _ _ (rw (no_, publish_raw) at h))
  ]

  onward-Hop :
      (now : ℤ) (p : Endpoint) (topic : Topic) (e e' : Envelope) (body : Option ℕ) (seen : List ℕ)
      (n : ℤ)
      → e.visited ≡ pods seen
      → e.hop_budget ≡ number n
      → WithinBounds p.pod_id now true e (pods seen)
      → topic_allowed p.allowed_topics topic ≡ true
      → e' ≡ stamp mac p now (onward p e seen n body)
      → Hop now p topic e e'
  onward-Hop now p topic e e' body seen n ev eb bounds ok_ eq =
      let (b, v, d, t, s, pr, m) = stamp_keeps p now (onward p e seen n body) in
      record {
        seen = seen;
        budget = n;
        was_visited = ev;
        had_budget = eb;
        bounds = bounds;
        allowed = ok_;
        new_budget = rw eq b;
        new_visited = rw eq v;
        same_deadline = rw eq d;
        same_trace = rw eq t;
        same_start = rw eq s;
        stamped = (rw eq pr, rw eq m);
      }

  send_on-Hop :
      (now : ℤ) (p q : Endpoint) (topic : Topic) (e e' : Envelope) (body : Option ℕ) (seen : List ℕ)
      (b : Wire)
      → e.visited ≡ pods seen
      → e.hop_budget ≡ b
      → WithinBounds p.pod_id now true e (pods seen)
      → send_on mac broker now p topic e body seen b ≡ (ok true, q)
      → q.sent ≡ (topic, e') ∷ p.sent
      → Hop now p topic e e'
  send_on-Hop now p q topic e e' body seen (number n) ev eb bounds h sent =
      elim (Bool-cases (topic_allowed p.allowed_topics topic)) [
        | inl yes_ ↦
            let q' = publish_raw mac broker now p topic (onward p e seen n body) in
            let eq : q'.sent ≡ q.sent =
              ap (λ (x : Result MeshError Bool × Endpoint). x.1.sent) (rw yes_ at h) in
            onward-Hop now p topic e e' body seen n ev eb bounds yes_
              (published-sent now p topic (onward p e seen n body) e' (eq ∙ sent))
        | inr no_ ↦ absurd (ground arith)
      ]
  send_on-Hop now p q topic e e' body seen b ev eb bounds h sent = absurd (ground arith)

  forward_by-Hop :
      (now : ℤ) (p q : Endpoint) (topic : Topic) (e e' : Envelope) (body : Option ℕ) (seen : List ℕ)
      (r : Result Overflow (Option Refusal))
      → e.visited ≡ pods seen
      → envelope_refusal p.pod_id now true e ≡ r
      → forward_by mac r broker now p topic e body seen ≡ (ok true, q)
      → q.sent ≡ (topic, e') ∷ p.sent
      → Hop now p topic e e'
  forward_by-Hop now p q topic e e' body seen (ok none) ev er h sent =
      let bounds = (envelope_refusal-WithinBounds p.pod_id now true e).0 er in
      send_on-Hop now p q topic e e' body seen e.hop_budget ev refl
        (subst (WithinBounds p.pod_id now true e) ev bounds) h sent
  forward_by-Hop now p q topic e e' body seen (ok (some Refusal.malformed)) ev er h sent =
      absurd (ground arith)
  forward_by-Hop now p q topic e e' body seen (ok (some r)) ev er h sent = absurd (ground arith)
  forward_by-Hop now p q topic e e' body seen (err x) ev er h sent = absurd (ground arith)

  forward_visited-Hop :
      (now : ℤ) (p q : Endpoint) (topic : Topic) (e e' : Envelope) (body : Option ℕ) (v : Visited)
      → e.visited ≡ v
      → forward_visited mac v broker now p topic e body ≡ (ok true, q)
      → q.sent ≡ (topic, e') ∷ p.sent
      → Hop now p topic e e'
  forward_visited-Hop now p q topic e e' body (pods seen) ev h sent =
      forward_by-Hop now p q topic e e' body seen (envelope_refusal p.pod_id now true e) ev refl h
        sent
  forward_visited-Hop now p q topic e e' body not_a_list ev h sent =
      absurd (ground (arith, not_a_list_refused p.pod_id now true e ev))
  forward_visited-Hop now p q topic e e' body not_iterable ev h sent = absurd (ground arith)

  -- A forward that returns `True`, and whose message the broker has accepted, spends one hop and
  -- keeps the deadline, the trace and the original time.
  pub forward-Hop :
      (now : ℤ) (p q : Endpoint) (topic : Topic) (e e' : Envelope) (body : Option ℕ)
      → forward mac broker now p topic e body ≡ (ok true, q)
      → q.sent ≡ (topic, e') ∷ p.sent
      → Hop now p topic e e'
  unfolding forward
  forward-Hop now p q topic e e' body h sent =
      forward_visited-Hop now p q topic e e' body e.visited refl h sent
