-- ===== src/Mesh/Accounts.antt =====
-- Arrival of messages at an endpoint of neural_pods/mesh.py: every message is counted once, and
-- what is sent is what the receiving side accepts.
use ptr_research.Common.{
  ℕ, ◌+◌, ◌≡◌, ◌≢◌, refl, ap, ◌↔◌, true, false, Option, none, some, List, [], inl, inr, arith,
  Result, ok, err, none-ne-some, sym, ◌∙◌, ◌⊎◌, Bool-cases, Option-cases, ℤ,
}
use ptr_research.Mesh.Envelope.{number, Envelope, envelope_refusal, Refusal, Overflow}
use ptr_research.Mesh.Bounds.{InTime, HasHops, WithinBounds, envelope_refusal-WithinBounds}
use ptr_research.Mesh.Endpoint.{
  Topic, Endpoint, protocol, unsigned, matching, stamp, signature_ok, well_formed, received_by,
  on_message, over_wire,
}
use ptr_research.Mesh.Publish.{LinkBounds, link_visited, outgoing}

abbrev pub counted : Endpoint → ℕ
counted p = p.received + p.bad_envelopes + p.expired_envelopes + p.hop_exhausted

same-ne-next : {n : ℕ} → ¬ (n ≡ n + 1)
same-ne-next e = omega arith

-- The protocol version is this one, and the manifest hash and the principal are there.
abbrev pub HasFields : Envelope → Type 0
HasFields e = (e.protocol_version ≡ some protocol) × (e.manifest_hash ≢ none) × (e.principal ≢ none)

well_formed-HasFields : (e : Envelope) → (well_formed e ≡ true) ↔ HasFields e
well_formed-HasFields e = ground arith

module _ (mac : ℕ → Envelope → ℕ) where
  received_by-counted :
      (r : Result Overflow (Option Refusal)) (p : Endpoint) (topic : Topic)
      → (counted (received_by r p topic).0 ≡ counted p + 1)
        × ((received_by r p topic).0.received ≡ p.received → (received_by r p topic).1 ≡ [])
        × ((received_by r p topic).0.sent ≡ p.sent)
  received_by-counted (ok none) p topic = (omega arith, λ same. absurd (omega arith), refl)
  received_by-counted (ok (some Refusal.malformed)) p topic = (omega arith, λ _. refl, refl)
  received_by-counted (ok (some Refusal.expired)) p topic = (omega arith, λ _. refl, refl)
  received_by-counted (ok (some r)) p topic = (omega arith, λ _. refl, refl)
  received_by-counted (err e) p topic = (omega arith, λ _. refl, refl)

  -- Every message on arrival moves exactly one of the counters `received`, `bad_envelopes`,
  -- `expired_envelopes` and `hop_exhausted`, by one, and calls handlers only when that counter is
  -- `received`; nothing is sent in answer.
  pub on_message-counted :
      (now : ℤ) (p : Endpoint) (topic : Topic) (m : Option Envelope)
      → (counted (on_message mac now p topic m).0 ≡ counted p + 1)
        × ((on_message mac now p topic m).0.received ≡ p.received
            → (on_message mac now p topic m).1 ≡ [])
        × ((on_message mac now p topic m).0.sent ≡ p.sent)
  unfolding on_message
  on_message-counted now p topic none = (omega arith, λ _. refl, refl)
  on_message-counted now p topic (some e) = elim (Bool-cases (well_formed e)) [
    | inr ill ↦ rw (ill, on_message) (omega arith, λ _. refl, refl)
    | inl well ↦
        rw (well, on_message)
          (elim (Bool-cases (signature_ok mac p.secret e)) [
            | inr wrong ↦ rw wrong (omega arith, λ _. refl, refl)
            | inl signed ↦
                rw signed (received_by-counted (envelope_refusal p.pod_id now false e) p topic)
          ])
  ]

  -- With a key, the signature is the digest of everything else.
  abbrev pub IsSigned : Option ℕ → Envelope → Type 0
  IsSigned none e = Unit
  IsSigned (some key) e = e.sig ≡ some (mac key (unsigned e))

  signature_ok-IsSigned :
      (key : Option ℕ) (e : Envelope) → (signature_ok mac key e ≡ true) ↔ IsSigned key e
  unfolding signature_ok
  signature_ok-IsSigned none e = ground arith
  signature_ok-IsSigned (some key) e = ground arith

  -- What an endpoint asks of a message before any handler sees it.
  abbrev pub Acceptable : ℤ → Endpoint → Option Envelope → Type 0
  Acceptable now p none = ⊥
  Acceptable now p (some e) =
      HasFields e × IsSigned p.secret e × WithinBounds p.pod_id now false e e.visited

  received_by-received :
      (r : Result Overflow (Option Refusal)) (p : Endpoint) (topic : Topic)
      → (received_by r p topic).0.received ≡ p.received + 1
      → r ≡ ok none
  received_by-received (ok none) p topic h = refl
  received_by-received (ok (some Refusal.malformed)) p topic h = absurd (omega arith)
  received_by-received (ok (some Refusal.expired)) p topic h = absurd (omega arith)
  received_by-received (ok (some r)) p topic h = absurd (omega arith)
  received_by-received (err e) p topic h = absurd (omega arith)

  received-Acceptable :
      (now : ℤ) (p : Endpoint) (topic : Topic) (m : Option Envelope)
      → (on_message mac now p topic m).0.received ≡ p.received + 1
      → Acceptable now p m
  unfolding on_message
  received-Acceptable now p topic none h = absurd (omega arith)
  received-Acceptable now p topic (some e) h = elim (Bool-cases (well_formed e)) [
    | inr ill ↦ absurd (same-ne-next (rw (ill, on_message) at h))
    | inl well ↦ elim (Bool-cases (signature_ok mac p.secret e)) [
      | inr wrong ↦ absurd (same-ne-next (rw (well, wrong, on_message) at h))
      | inl signed ↦ (
        (well_formed-HasFields e).0 well,
        (signature_ok-IsSigned p.secret e).0 signed,
        (envelope_refusal-WithinBounds p.pod_id now false e).0 (
            received_by-received (envelope_refusal p.pod_id now false e) p topic
              (rw (well, signed, on_message) at h)),
      )
    ]
  ]

  Acceptable-received :
      (now : ℤ) (p : Endpoint) (topic : Topic) (m : Option Envelope)
      → Acceptable now p m
      → on_message mac now p topic m
        ≡ (record p { received = p.received + 1 }, matching topic p.handlers)
  unfolding on_message
  Acceptable-received now p topic none a = elim a [ ]
  Acceptable-received now p topic (some e) (well, signed, bounds) =
      rw ((well_formed-HasFields e).1 well, on_message)
        (rw (
          (signature_ok-IsSigned p.secret e).1 signed,
          (envelope_refusal-WithinBounds p.pod_id now false e).1 bounds,
        ))

  -- A message counts as received exactly when its fields are there and of this protocol version,
  -- its signature is right for the endpoint's key, and its bounds hold; then the handlers called
  -- are those of the filters that match the topic.
  pub on_message-Acceptable :
      (now : ℤ) (p : Endpoint) (topic : Topic) (m : Option Envelope)
      → (((on_message mac now p topic m).0.received ≡ p.received + 1) ↔ Acceptable now p m)
        × (Acceptable now p m → (on_message mac now p topic m).1 ≡ matching topic p.handlers)
  on_message-Acceptable now p topic m = (
    (
      received-Acceptable now p topic m,
      λ a. ap (λ (r : Endpoint × List ℕ). r.0.received) (Acceptable-received now p topic m a),
    ),
    λ a. ap (λ (r : Endpoint × List ℕ). r.1) (Acceptable-received now p topic m a),
  )

  -- A message that `publish` builds, after its trip over the wire, is received by every endpoint with
  -- the same key, if it arrives before its deadline and has a hop left, and if there is no key or the
  -- body is one that JSON gives back as it was; the digest can be any function.
  pub publish-received :
      (reload : ℕ → ℕ) (now now' : ℤ) (p q : Endpoint) (topic : Topic) (body : ℕ)
      (link : Option LinkBounds) (hops deadline : Option ℤ) (trace : Option ℕ)
      → q.secret ≡ p.secret
      → (q.secret ≡ none) ⊎ (reload body ≡ body)
      → InTime now' (outgoing body link hops deadline trace).deadline_ms (number now)
      → HasHops q.pod_id false
          (link_visited link)
          (outgoing body link hops deadline trace).hop_budget
      → (on_message mac now' q topic (
          some (
            over_wire reload
              (stamp mac p now (outgoing body link hops deadline trace))))).0.received
        ≡ q.received + 1
  unfolding outgoing stamp
  publish-received reload now now' p q topic body link hops deadline trace same plain time room =
      (on_message-Acceptable now' q topic _).0.1 (elim (Option-cases p.secret) [
        | inl none_ ↦ rw (same, none_, stamp) ((refl, λ h. cc, λ h. cc), tt, (time, room))
        | inr (k, key) ↦ elim plain [
          | inl open_ ↦ absurd (none-ne-some (sym open_ ∙ (same ∙ key)))
          | inr kept ↦ rw (same, key, kept, stamp) ((refl, λ h. cc, λ h. cc), refl, (time, room))
        ]
      ])
