-- ===== src/Mesh/Tests.antt =====
-- Runs of the mesh endpoint, and its theorems at concrete envelopes.
use ptr_research.Common.{
  ℕ, ◌+◌, ◌≡◌, refl, ◌↔◌, Bool, true, false, none, some, [], ◌∷◌, arith, ok, err, IsDistinct, pos,
  ◌+ℤ◌, ◌-ℤ◌, ◌≤ℤ◌, if◌then◌else◌, ◌==◌, inr,
}
use ptr_research.Mesh.Topic.{Part, topic_allowed, topic_matches}
use ptr_research.Mesh.Filters.{Matches, Allowed, topic_matches-Matches, topic_allowed-Allowed}
use ptr_research.Mesh.Envelope.{
  Wire, number, pods, not_iterable, Envelope, Refusal, deadline_refusal, budget_refusal,
  envelope_refusal,
}
use ptr_research.Mesh.Bounds.{WithinBounds, envelope_refusal-WithinBounds}
use ptr_research.Mesh.Endpoint.{
  Topic, Endpoint, MeshError, accepted, matching, signature_ok, stamp, publish_raw, forward,
  on_message, over_wire,
}
use ptr_research.Mesh.Publish.{np, outgoing}
use ptr_research.Mesh.Chain.{Chain, hops_bounded}
use ptr_research.Mesh.Accounts.{Acceptable, on_message-Acceptable, publish-received}

program : Unit {0}
unfolding topic_allowed topic_matches deadline_refusal budget_refusal envelope_refusal accepted
    matching signature_ok stamp publish_raw forward on_message outgoing ◌+ℤ◌ ◌-ℤ◌
program = tt

-- A digest that adds the key and the body.
abbrev mac : ℕ → Envelope → ℕ
mac key e = key + e.body

abbrev broker : ℕ → Bool
broker attempt = true

abbrev down : ℕ → Bool
down attempt = false

abbrev pod : ℕ → Endpoint
pod id = record {
  pod_id = id;
  principal = 5;
  manifest_hash = 6;
  allowed_topics = (np ∷ Part.hash ∷ []) ∷ [];
  secret = some 9;
  bad_envelopes = 0;
  unsigned_rejected = 0;
  published = 0;
  received = 0;
  hop_exhausted = 0;
  expired_envelopes = 0;
  forwarded = 0;
  handlers = ((np ∷ Part.plus ∷ []), 1) ∷ ((np ∷ Part.word 8 ∷ []), 2) ∷ [];
  sent = [];
}

abbrev topic : Topic
topic = np ∷ Part.word 8 ∷ []

abbrev first : Envelope
first = outgoing 40 none (some (pos 3)) (some (pos 100)) none

abbrev sent_first : Envelope
sent_first = record {
  body = 40;
  hop_budget = number (pos 3);
  visited = pods [];
  deadline_ms = number (pos 100);
  ts_ms = number (pos 1000);
  trace_id = none;
  principal = some 5;
  manifest_hash = some 6;
  protocol_version = some 1;
  sig = some 49;
}

stamp-first : stamp mac (pod 1) (pos 1000) first ≡ sent_first
unfolding program
stamp-first = refl

-- Both handlers see it, in order; one millisecond past its deadline nobody does.
receive_first :
    on_message mac (pos 1100) (pod 2) topic (some sent_first)
    ≡ (record (pod 2) { received = 1 }, 1 ∷ 2 ∷ [])
unfolding program
receive_first = refl

receive_late :
    on_message mac (pos 1101) (pod 2) topic (some sent_first)
    ≡ (record (pod 2) { expired_envelopes = 1 }, [])
unfolding program
receive_late = refl

receive_tampered :
    on_message mac (pos 1100) (pod 2) topic (some (record sent_first { body = 41 }))
    ≡ (record (pod 2) { bad_envelopes = 1; unsigned_rejected = 1 }, [])
unfolding program
receive_tampered = refl

-- The count of published messages goes up although the broker never took the message.
publish_down :
    publish_raw mac down (pos 1000) (pod 1) topic first ≡ record (pod 1) { published = 1 }
unfolding program
publish_down = refl

-- `visited: 5` and an infinite hop budget leave `forward` by an exception, uncounted.
forward_raises :
    ((forward mac broker
        (pos 1000)
        (pod 2)
        topic
        (record sent_first { visited = not_iterable })
        none)
      ≡ (err MeshError.type_error, pod 2))
    × ((forward mac broker
          (pos 1000)
          (pod 2)
          topic
          (record sent_first { hop_budget = Wire.infinite true })
          none)
        ≡ (err MeshError.overflow_error, pod 2))
unfolding program
forward_raises = (refl, refl)

abbrev sent_second : Envelope
sent_second = record sent_first { hop_budget = number (pos 2); visited = pods (2 ∷ []) }

abbrev after_forward : Endpoint
after_forward = record (pod 2) { published = 1; forwarded = 1; sent = (topic, sent_second) ∷ [] }

forward_first :
    forward mac broker (pos 1050) (pod 2) topic sent_first none ≡ (ok true, after_forward)
unfolding program
forward_first = refl

chain : Chain mac broker sent_first (2 ∷ []) sent_second
chain = Chain.hop (pos 1050) (pod 2) after_forward topic none Chain.here forward_first refl

hops_bounded_example :
    (pos 2 ≤ℤ pos 3)
    × IsDistinct (2 ∷ [])
    × (sent_second.hop_budget ≡ number (pos 3 -ℤ pos 1))
    × (sent_second.deadline_ms ≡ sent_first.deadline_ms)
hops_bounded_example = hops_bounded mac broker [] refl refl (omega arith) chain

topic_matches-Matches_example :
    (topic_matches (np ∷ Part.plus ∷ []) topic ≡ true) ↔ Matches (np ∷ Part.plus ∷ []) topic
topic_matches-Matches_example = topic_matches-Matches (np ∷ Part.plus ∷ []) topic

topic_allowed-Allowed_example :
    (topic_allowed ((np ∷ Part.hash ∷ []) ∷ []) topic ≡ true)
    ↔ Allowed ((np ∷ Part.hash ∷ []) ∷ []) topic
topic_allowed-Allowed_example = topic_allowed-Allowed ((np ∷ Part.hash ∷ []) ∷ []) topic

envelope_refusal-WithinBounds_example :
    (envelope_refusal 2 (pos 1050) true sent_first ≡ ok none)
    ↔ WithinBounds 2 (pos 1050) true sent_first sent_first.visited
envelope_refusal-WithinBounds_example = envelope_refusal-WithinBounds 2 (pos 1050) true sent_first

on_message-Acceptable_example :
    (((on_message mac (pos 1100) (pod 2) topic (some sent_first)).0.received ≡ (pod 2).received + 1)
      ↔ Acceptable mac (pos 1100) (pod 2) (some sent_first))
    × (Acceptable mac (pos 1100) (pod 2) (some sent_first)
        → (on_message mac (pos 1100) (pod 2) topic (some sent_first)).1
          ≡ matching topic (pod 2).handlers)
on_message-Acceptable_example = on_message-Acceptable mac (pos 1100) (pod 2) topic (some sent_first)

-- JSON gives bodies back as they were, but for body 99, an object with numbers as keys.
abbrev reload : ℕ → ℕ
reload body = if body == 99 then 98 else body

publish-received_example :
    (on_message mac
      (pos 1100)
      (pod 2)
      topic
      (some (over_wire reload (stamp mac (pod 1) (pos 1000) first)))).0.received
    ≡ (pod 2).received + 1
unfolding program
publish-received_example =
    publish-received mac reload (pos 1000) (pos 1100) (pod 1) (pod 2) topic 40 none (some (pos 3))
      (some (pos 100)) none refl (inr refl) (omega arith) (omega arith)

-- A body that comes back otherwise is refused where there is a key, since its digest is another one.
reloaded_refused :
    (on_message mac (pos 1100) (pod 2) topic (
      some (
        over_wire reload
          (stamp mac (pod 1) (pos 1000) (record first { body = 99 }))))).0.unsigned_rejected
    ≡ (pod 2).unsigned_rejected + 1
unfolding program
reloaded_refused = refl

-- An infinite deadline never passes; infinite halves of different signs have no sum.
infinite_deadlines :
    (deadline_refusal (pos 5) (Wire.infinite true) (number (pos 0)) ≡ ok none)
    × (deadline_refusal (pos 5) (Wire.infinite false) (number (pos 0)) ≡ ok (some Refusal.expired))
    × (deadline_refusal (pos 5) (Wire.infinite false) (Wire.infinite true) ≡ ok none)
unfolding program
infinite_deadlines = (refl, refl, refl)
