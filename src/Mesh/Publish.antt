-- ===== src/Mesh/Publish.antt =====
-- `publish` of neural_pods/mesh.py, with and without a link contract.
use ptr_research.Common.{
  ℕ, Bool, Option, none, some, List, [], ◌∷◌, Result, ok, err, if◌then◌else◌, ℤ,
}
use ptr_research.Mesh.Topic.{Part, topic_allowed}
use ptr_research.Mesh.Envelope.{Wire, absent, number, pods, Envelope}
use ptr_research.Mesh.Endpoint.{Topic, Endpoint, MeshError, acl, publish_raw}

-- The attributes of a `PodLink` that `publish` reads.
pub record LinkBounds : Type 0 where
  pub hop_budget : ℤ
  pub deadline_ms : ℤ
  pub trace_id : Option ℕ
  pub visited : List ℕ

-- The word "np" at the head of every topic.
abbrev pub np : Part
np = Part.word 0

-- `np/{target_pod or self.pod_id}/{channel}`.
abbrev pub channel_topic : Endpoint → Option ℕ → List Part → Topic
channel_topic p none channel = np ∷ Part.word p.pod_id ∷ channel
channel_topic p (some target) channel = np ∷ Part.word target ∷ channel

abbrev pub given_or : Option ℤ → Option LinkBounds → (LinkBounds → ℤ) → Wire
given_or (some n) link field = number n
given_or none (some l) field = number (field l)
given_or none none field = absent

abbrev pub trace_or : Option ℕ → Option LinkBounds → Option ℕ
trace_or (some t) link = some t
trace_or none none = none
trace_or none (some l) = l.trace_id

abbrev pub link_visited : Option LinkBounds → List ℕ
link_visited none = []
link_visited (some l) = l.visited

unfoldable pub outgoing : ℕ → Option LinkBounds → Option ℤ → Option ℤ → Option ℕ → Envelope
outgoing body link hop_budget deadline_ms trace_id = record {
  body = body;
  hop_budget = given_or hop_budget link (λ l. l.hop_budget);
  visited = pods (link_visited link);
  deadline_ms = given_or deadline_ms link (λ l. l.deadline_ms);
  ts_ms = absent;
  trace_id = trace_or trace_id link;
  principal = none;
  manifest_hash = none;
  protocol_version = none;
  sig = none;
}

module _ (mac : ℕ → Envelope → ℕ) (broker : ℕ → Bool) where
  unfoldable pub publish :
      ℤ → Endpoint → List Part → Option ℕ → Envelope → Result MeshError Endpoint
  publish now p channel target e =
      if topic_allowed p.allowed_topics (channel_topic p target channel)
      then ok (publish_raw mac broker now p (channel_topic p target channel) e)
      else err acl
