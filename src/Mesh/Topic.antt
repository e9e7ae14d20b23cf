-- ===== src/Mesh/Topic.antt =====
-- Topics and topic filters of neural_pods/mesh.py, split at their slashes.
use ptr_research.Common.{ℕ, ◌+◌, Bool, true, false, ◌||◌, List, [], ◌∷◌, ◌==◌, if◌then◌else◌}

-- One level: the wildcards `#` and `+`, or any other word.
pub data Part : Type 0 where
  hash plus : Part
  word : ℕ → Part

abbrev pub part_beq : Part → Part → Bool
part_beq Part.hash Part.hash = true
part_beq Part.plus Part.plus = true
part_beq (Part.word a) (Part.word b) = a == b
part_beq _ _ = false

-- The loop of `_topic_allowed` over one pattern: its parts from the current one on, the topic's
-- parts from the same place on, and by how much the pattern has passed the end of the topic. A `+`
-- goes on without looking whether the topic has a part there; the `else` of the loop compares the
-- lengths.
unfoldable pub pattern_allows : List Part → List Part → ℕ → Bool
pattern_allows [] [] over = over == 0
pattern_allows [] (t ∷ ts) over = false
pattern_allows (Part.hash ∷ ps) ts over = true
pattern_allows (Part.plus ∷ ps) [] over = pattern_allows ps [] (over + 1)
pattern_allows (Part.plus ∷ ps) (t ∷ ts) over = pattern_allows ps ts over
pattern_allows (Part.word w ∷ ps) [] over = false
pattern_allows (Part.word w ∷ ps) (t ∷ ts) over =
    if part_beq t (Part.word w) then pattern_allows ps ts over else false

-- `_topic_allowed`.
unfoldable pub topic_allowed : List (List Part) → List Part → Bool
unfolding pattern_allows
topic_allowed [] topic = false
topic_allowed (p ∷ ps) topic = pattern_allows p topic 0 || topic_allowed ps topic

-- `_topic_matches`.
unfoldable pub topic_matches : List Part → List Part → Bool
topic_matches [] [] = true
topic_matches [] (t ∷ ts) = false
topic_matches (Part.hash ∷ ps) ts = true
topic_matches (p ∷ ps) [] = false
topic_matches (Part.plus ∷ ps) (t ∷ ts) = topic_matches ps ts
topic_matches (Part.word w ∷ ps) (t ∷ ts) =
    if part_beq t (Part.word w) then topic_matches ps ts else false
