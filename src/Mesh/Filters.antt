-- ===== src/Mesh/Filters.antt =====
-- What the two filter loops of neural_pods/mesh.py decide: filters level by level, and where the
-- access check and the dispatch of messages part.
use ptr_research.Common.{
  ℕ, ◌+◌, ◌<◌, ◌≡◌, refl, ◌↔◌, true, false, List, [], ◌∷◌, arith, inl, inr, ◌⊎◌, Bool-cases, ◌==◌,
}
use ptr_research.Mesh.Topic.{Part, pattern_allows, topic_allowed, topic_matches}

-- A filter level by level: `+` stands for any one level, `#`, wherever it is, for all levels from
-- there on, and a word for itself.
pub data Matches : List Part → List Part → Type 0 where
  end : Matches [] []
  any : {ps ts : List Part} → Matches (Part.hash ∷ ps) ts
  one : {ps ts : List Part} {t : Part} → Matches ps ts → Matches (Part.plus ∷ ps) (t ∷ ts)
  same : {ps ts : List Part} {w : ℕ} → Matches ps ts → Matches (Part.word w ∷ ps) (Part.word w ∷ ts)

matches_sound : (ps ts : List Part) → topic_matches ps ts ≡ true → Matches ps ts
unfolding topic_matches
matches_sound [] [] e = end
matches_sound [] (t ∷ ts) e = cc
matches_sound (Part.hash ∷ ps) ts e = any
matches_sound (Part.plus ∷ ps) [] e = cc
matches_sound (Part.plus ∷ ps) (t ∷ ts) e = one (matches_sound ps ts e)
matches_sound (Part.word w ∷ ps) [] e = cc
matches_sound (Part.word w ∷ ps) (Part.hash ∷ ts) e = cc
matches_sound (Part.word w ∷ ps) (Part.plus ∷ ts) e = cc
matches_sound (Part.word w ∷ ps) (Part.word v ∷ ts) e =
    let eq : v ≡ w = ground arith in rw eq (same (matches_sound ps ts (ground arith)))

matches_complete : {ps ts : List Part} → Matches ps ts → topic_matches ps ts ≡ true
unfolding topic_matches
matches_complete end = refl
matches_complete any = refl
matches_complete (one m) = matches_complete m
matches_complete (same m) = ground (arith, matches_complete m)

-- The dispatch takes exactly the filters that match the topic level by level: `+` matches any one
-- level, `#`, wherever it stands, all levels from there on, also none, and a word only itself.
pub topic_matches-Matches : (ps ts : List Part) → (topic_matches ps ts ≡ true) ↔ Matches ps ts
topic_matches-Matches ps ts = (matches_sound ps ts, matches_complete)

allows_of_matches : (ps ts : List Part) → topic_matches ps ts ≡ true → pattern_allows ps ts 0 ≡ true
unfolding topic_matches pattern_allows
allows_of_matches [] [] e = refl
allows_of_matches [] (t ∷ ts) e = cc
allows_of_matches (Part.hash ∷ ps) ts e = refl
allows_of_matches (Part.plus ∷ ps) [] e = cc
allows_of_matches (Part.plus ∷ ps) (t ∷ ts) e = allows_of_matches ps ts e
allows_of_matches (Part.word w ∷ ps) [] e = cc
allows_of_matches (Part.word w ∷ ps) (t ∷ ts) e = ground (arith, allows_of_matches ps ts)

-- The rest of a filter that goes on by `+` levels only, up to a `#`.
abbrev pub EndsInHash : List Part → Type 0
EndsInHash (Part.hash ∷ ps) = Unit
EndsInHash (Part.plus ∷ ps) = EndsInHash ps
EndsInHash _ = ⊥

-- The topic ends at a `+` of the filter, with a `#` further on.
abbrev pub EndsBelow : List Part → List Part → Type 0
EndsBelow (Part.plus ∷ ps) [] = EndsInHash ps
EndsBelow (Part.plus ∷ ps) (t ∷ ts) = EndsBelow ps ts
EndsBelow (Part.word w ∷ ps) (t ∷ ts) = (t ≡ Part.word w) × EndsBelow ps ts
EndsBelow _ _ = ⊥

past_end :
    (ps : List Part) (over : ℕ) → 0 < over → (pattern_allows ps [] over ≡ true) ↔ EndsInHash ps
unfolding pattern_allows
past_end [] over h = ground arith
past_end (Part.hash ∷ ps) over h = ground arith
past_end (Part.plus ∷ ps) over h = past_end ps (over + 1) (omega arith)
past_end (Part.word w ∷ ps) over h = ground arith

allows_cases :
    (ps ts : List Part)
    → pattern_allows ps ts 0 ≡ true
    → (topic_matches ps ts ≡ true) ⊎ EndsBelow ps ts
unfolding topic_matches pattern_allows
allows_cases [] [] e = inl refl
allows_cases [] (t ∷ ts) e = cc
allows_cases (Part.hash ∷ ps) ts e = inl refl
allows_cases (Part.plus ∷ ps) [] e = inr ((past_end ps (0 + 1) (omega arith)).0 e)
allows_cases (Part.plus ∷ ps) (t ∷ ts) e = allows_cases ps ts e
allows_cases (Part.word w ∷ ps) [] e = cc
allows_cases (Part.word w ∷ ps) (Part.hash ∷ ts) e = cc
allows_cases (Part.word w ∷ ps) (Part.plus ∷ ts) e = cc
allows_cases (Part.word w ∷ ps) (Part.word v ∷ ts) e = elim (Bool-cases (v == w)) [
  | inl eq ↦ elim (allows_cases ps ts (ground arith)) [
    | inl m ↦ inl (ground arith)
    | inr b ↦ inr (ground arith, b)
  ]
  | inr ne ↦ absurd (ground arith)
]

allows_below : (ps ts : List Part) → EndsBelow ps ts → pattern_allows ps ts 0 ≡ true
unfolding pattern_allows
allows_below [] ts b = elim b [ ]
allows_below (Part.hash ∷ ps) ts b = elim b [ ]
allows_below (Part.plus ∷ ps) [] b = (past_end ps (0 + 1) (omega arith)).1 b
allows_below (Part.plus ∷ ps) (t ∷ ts) b = allows_below ps ts b
allows_below (Part.word w ∷ ps) [] b = elim b [ ]
allows_below (Part.word w ∷ ps) (t ∷ ts) b = ground (arith, allows_below ps ts b.1)

-- Some allowed filter matches the topic, or goes on below its end.
abbrev pub Allowed : List (List Part) → List Part → Type 0
Allowed [] ts = ⊥
Allowed (p ∷ ps) ts = Matches p ts ⊎ EndsBelow p ts ⊎ Allowed ps ts

topic_allowed_sound :
    (ps : List (List Part)) (ts : List Part) → topic_allowed ps ts ≡ true → Allowed ps ts
unfolding topic_allowed
topic_allowed_sound [] ts e = cc
topic_allowed_sound (p ∷ ps) ts e = elim (Bool-cases (pattern_allows p ts 0)) [
  | inl ok ↦ elim (allows_cases p ts ok) [
    | inl m ↦ inl (matches_sound p ts m)
    | inr b ↦ inr (inl b)
  ]
  | inr no_ ↦ inr (inr (topic_allowed_sound ps ts (ground arith)))
]

topic_allowed_complete :
    (ps : List (List Part)) (ts : List Part) → Allowed ps ts → topic_allowed ps ts ≡ true
unfolding topic_allowed
topic_allowed_complete [] ts b = elim b [ ]
topic_allowed_complete (p ∷ ps) ts (inl m) =
    ground (arith, allows_of_matches p ts (matches_complete m))
topic_allowed_complete (p ∷ ps) ts (inr (inl b)) = ground (arith, allows_below p ts b)
topic_allowed_complete (p ∷ ps) ts (inr (inr r)) = ground (arith, topic_allowed_complete ps ts r)

-- The access check allows exactly the topics that some allowed filter matches, and besides them
-- the topics that end where such a filter goes on by `+` levels and then a `#`.
pub topic_allowed-Allowed :
    (ps : List (List Part)) (ts : List Part) → (topic_allowed ps ts ≡ true) ↔ Allowed ps ts
topic_allowed-Allowed ps ts = (topic_allowed_sound ps ts, topic_allowed_complete ps ts)

below_not_matched : (p ts : List Part) → EndsBelow p ts → topic_matches p ts ≡ false
unfolding topic_matches
below_not_matched [] ts b = elim b [ ]
below_not_matched (Part.hash ∷ ps) ts b = elim b [ ]
below_not_matched (Part.plus ∷ ps) [] b = refl
below_not_matched (Part.plus ∷ ps) (t ∷ ts) b = below_not_matched ps ts b
below_not_matched (Part.word w ∷ ps) [] b = elim b [ ]
below_not_matched (Part.word w ∷ ps) (t ∷ ts) b = ground (arith, below_not_matched ps ts b.1)

-- On a topic that ends where a filter goes on by `+` levels and then a `#`, the access check and the
-- dispatch disagree: the check allows the topic and the filter does not match it.
pub allows_more :
    (p ts : List Part)
    → EndsBelow p ts
    → (topic_allowed (p ∷ []) ts ≡ true) × (topic_matches p ts ≡ false)
allows_more p ts b = (topic_allowed_complete (p ∷ []) ts (inr (inl b)), below_not_matched p ts b)
