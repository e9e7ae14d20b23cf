-- ===== src/Mesh/Endpoint.antt =====
-- `MeshEndpoint` of neural_pods/mesh.py: publishing, forwarding, subscribing and receiving. The
-- keyed digest `mac`, what JSON makes of a body and the broker's answers are parameters; times are
-- arguments. `sent` has the envelopes whose text the broker has accepted, newest first; bodies are
-- such that `json.dumps` takes them.
use ptr_research.Common.{
  ℕ, zero, suc, ◌+◌, Bool, true, false, ◌||◌, ◌&&◌, Option, none, some, List, [], ◌∷◌, ◌++◌, Result,
  ok, err, if◌then◌else◌, not, ◌==◌, ℤ, pos, ◌-ℤ◌,
}
use ptr_research.Mesh.Topic.{Part, part_beq, topic_allowed, topic_matches}
use ptr_research.Mesh.Envelope.{
  Wire, absent, number, Visited, pods, not_a_list, not_iterable, Envelope, Refusal, malformed,
  expired, unbounded, Overflow, envelope_refusal,
}

abbrev pub protocol : ℕ
protocol = 1

abbrev pub Topic : Type 0
Topic = List Part

pub record Endpoint : Type 0 where
  pub pod_id : ℕ
  pub principal : ℕ
  pub manifest_hash : ℕ
  pub allowed_topics : List Topic
  pub secret : Option ℕ
  pub bad_envelopes : ℕ
  pub unsigned_rejected : ℕ
  pub published : ℕ
  pub received : ℕ
  pub hop_exhausted : ℕ
  pub expired_envelopes : ℕ
  pub forwarded : ℕ
  pub handlers : List (Topic × ℕ)
  pub sent : List (Topic × Envelope)

pub data MeshError : Type 0 where
  acl unbounded_forward overflow_error type_error : MeshError

-- `envelope.setdefault(field, value)`.
abbrev pub default_to : Option ℕ → ℕ → Option ℕ
default_to none v = some v
default_to (some w) v = some w

abbrev pub default_time : Wire → ℤ → Wire
default_time absent now = number now
default_time w now = w

-- `{k: v for k, v in envelope.items() if k != "sig"}`.
abbrev pub unsigned : Envelope → Envelope
unsigned e = record e { sig = none }

-- `json.loads(json.dumps(envelope))`. Texts, numbers and lists of texts come back as they were; what a
-- body comes back as is a parameter, since JSON turns tuples into lists and keys into texts.
abbrev pub over_wire : (ℕ → ℕ) → Envelope → Envelope
over_wire reload e = record e { body = reload e.body }

-- Up to `rounds` attempts, until the broker accepts one.
unfoldable pub accepted : (ℕ → Bool) → ℕ → ℕ → Bool
accepted broker attempt zero = false
accepted broker attempt (suc rounds) = broker attempt || accepted broker (attempt + 1) rounds

-- The key that a handler is filed under.
abbrev pub topic_beq : Topic → Topic → Bool
topic_beq [] [] = true
topic_beq (p ∷ ps) (t ∷ ts) = part_beq p t && topic_beq ps ts
topic_beq _ _ = false

abbrev pub set_handler : Topic → ℕ → List (Topic × ℕ) → List (Topic × ℕ)
set_handler f h [] = (f, h) ∷ []
set_handler f h ((g, k) ∷ hs) = if topic_beq g f then (g, h) ∷ hs else (g, k) ∷ set_handler f h hs

unfoldable pub subscribe : Endpoint → Topic → ℕ → Result MeshError Endpoint
subscribe p filter handler =
    if topic_allowed p.allowed_topics filter
    then ok (record p { handlers = set_handler filter handler p.handlers })
    else err acl

-- The handlers whose filter matches, in the order of their subscription.
unfoldable pub matching : Topic → List (Topic × ℕ) → List ℕ
matching topic [] = []
matching topic ((f, h) ∷ hs) =
    if topic_matches f topic then h ∷ matching topic hs else matching topic hs

-- The fields that `forward` sets before it publishes.
abbrev pub onward : Endpoint → Envelope → List ℕ → ℤ → Option ℕ → Envelope
onward p e seen budget body = record e {
  sig = none;
  hop_budget = number (budget -ℤ pos 1);
  visited = pods (seen ++ p.pod_id ∷ []);
  body = elim body [ none ↦ e.body | some b ↦ b ];
  principal = some p.principal;
  manifest_hash = some p.manifest_hash;
}

abbrev pub passed_on : Endpoint → Result MeshError Bool × Endpoint
passed_on q = (ok true, record q { forwarded = q.forwarded + 1 })

-- The counter for a refusal on arrival; an exception counts as a bad envelope.
abbrev pub received_by : Result Overflow (Option Refusal) → Endpoint → Topic → Endpoint × List ℕ
received_by (err _) p topic = (record p { bad_envelopes = p.bad_envelopes + 1 }, [])
received_by (ok (some malformed)) p topic = (record p { bad_envelopes = p.bad_envelopes + 1 }, [])
received_by (ok (some expired)) p topic =
    (record p { expired_envelopes = p.expired_envelopes + 1 }, [])
received_by (ok (some _)) p topic = (record p { hop_exhausted = p.hop_exhausted + 1 }, [])
received_by (ok none) p topic = (record p { received = p.received + 1 }, matching topic p.handlers)

abbrev pub is_some : Option ℕ → Bool
is_some none = false
is_some (some _) = true

abbrev pub speaks : Option ℕ → Bool
speaks none = false
speaks (some v) = v == protocol

abbrev pub well_formed : Envelope → Bool
well_formed e = speaks e.protocol_version && (is_some e.manifest_hash && is_some e.principal)

module _ (mac : ℕ → Envelope → ℕ) where
  -- `_sign`.
  abbrev pub sign : Option ℕ → Envelope → Envelope
  sign none e = e
  sign (some key) e = record e { sig = some (mac key (unsigned e)) }

  abbrev pub same_sig : Option ℕ → ℕ → Bool
  same_sig none m = false
  same_sig (some s) m = s == m

  -- `_signature_ok`.
  unfoldable pub signature_ok : Option ℕ → Envelope → Bool
  signature_ok none e = true
  signature_ok (some key) e = same_sig e.sig (mac key (unsigned e))

  -- The envelope as `_publish_raw` completes and signs it.
  unfoldable pub stamp : Endpoint → ℤ → Envelope → Envelope
  stamp p now e = sign p.secret (record e {
    manifest_hash = default_to e.manifest_hash p.manifest_hash;
    principal = default_to e.principal p.principal;
    protocol_version = default_to e.protocol_version protocol;
    ts_ms = default_time e.ts_ms now;
  })

  -- `_publish_raw`: the count goes up also when the broker has refused all fifteen attempts.
  unfoldable pub publish_raw : (ℕ → Bool) → ℤ → Endpoint → Topic → Envelope → Endpoint
  unfolding stamp
  publish_raw broker now p topic e =
      let sent = (if accepted broker 0 15 then (topic, stamp p now e) ∷ p.sent else p.sent) in
      record p { published = p.published + 1; sent = sent }

  abbrev pub send_on :
      (ℕ → Bool)
      → ℤ
      → Endpoint
      → Topic
      → Envelope
      → Option ℕ
      → List ℕ
      → Wire
      → Result MeshError Bool × Endpoint
  send_on broker now p topic e body seen (number budget) =
      if topic_allowed p.allowed_topics topic
      then passed_on (publish_raw broker now p topic (onward p e seen budget body))
      else (err acl, p)
  send_on broker now p topic e body seen _ = (err type_error, p)

  abbrev pub forward_by :
      Result Overflow (Option Refusal)
      → (ℕ → Bool)
      → ℤ
      → Endpoint
      → Topic
      → Envelope
      → Option ℕ
      → List ℕ
      → Result MeshError Bool × Endpoint
  forward_by (err _) broker now p topic e body seen = (err overflow_error, p)
  forward_by (ok (some unbounded)) broker now p topic e body seen = (err unbounded_forward, p)
  forward_by (ok (some malformed)) broker now p topic e body seen =
      (ok false, record p { bad_envelopes = p.bad_envelopes + 1 })
  forward_by (ok (some expired)) broker now p topic e body seen =
      (ok false, record p { expired_envelopes = p.expired_envelopes + 1 })
  forward_by (ok (some _)) broker now p topic e body seen =
      (ok false, record p { hop_exhausted = p.hop_exhausted + 1 })
  forward_by (ok none) broker now p topic e body seen =
      send_on broker now p topic e body seen e.hop_budget

  -- `list(envelope.get("visited") or ())` comes first, and raises for what cannot be iterated.
  abbrev pub forward_visited :
      Visited
      → (ℕ → Bool)
      → ℤ
      → Endpoint
      → Topic
      → Envelope
      → Option ℕ
      → Result MeshError Bool × Endpoint
  forward_visited not_iterable broker now p topic e body = (err type_error, p)
  forward_visited not_a_list broker now p topic e body =
      forward_by (envelope_refusal p.pod_id now true e) broker now p topic e body []
  forward_visited (pods seen) broker now p topic e body =
      forward_by (envelope_refusal p.pod_id now true e) broker now p topic e body seen

  unfoldable pub forward :
      (ℕ → Bool) → ℤ → Endpoint → Topic → Envelope → Option ℕ → Result MeshError Bool × Endpoint
  forward broker now p topic e body = forward_visited e.visited broker now p topic e body

  -- `_on_message` on the envelope that `json.loads` gives: `none` is a payload that is no JSON object. The handlers that are called, in
  -- order, come back with the new state.
  unfoldable pub on_message : ℤ → Endpoint → Topic → Option Envelope → Endpoint × List ℕ
  on_message now p topic none = (record p { bad_envelopes = p.bad_envelopes + 1 }, [])
  on_message now p topic (some e) =
      if not (well_formed e)
      then (record p { bad_envelopes = p.bad_envelopes + 1 }, [])
      else if not (signature_ok p.secret e)
      then (
        record p {
          bad_envelopes = p.bad_envelopes + 1;
          unsigned_rejected = p.unsigned_rejected + 1;
        },
        [],
      )
      else received_by (envelope_refusal p.pod_id now false e) p topic
