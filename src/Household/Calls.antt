-- ===== src/Household/Calls.antt =====
-- The calls of neural_pods/household.py with a key, join, approve and release, and the token cache.
-- The digest of a key is a parameter.
use ptr_research.Common.{
  sorted_set, ℕ, Bool, true, false, Option, none, some, List, [], ◌∷◌, ◌++◌, if◌then◌else◌, ◌==◌,
  not, filter, mem, nat_eq, pair_eq, lookup, insert, erase, Result, ok, ◌>>=◌, ◌>>◌, raise_if,
  or_raise, ℤ, ◌+◌,
}
use ptr_research.Household.{
  tier_eq, Offer, Status, Request, Placement, allocation_approved, allocation_released, TokenEntry,
  Household, Error, key_mismatch, unknown_request, not_a_donor, not_started, pods, same_set, free,
}

-- The reservation of a request, which is empty if there is none.
abbrev pub plan_of : ℕ → Household → List Placement
plan_of request_id h = elim (lookup request_id h.reservations) [ none ↦ [] | some plan ↦ plan ]

abbrev pub works_for : ℕ → Option Offer → Bool
works_for request_id none = false
works_for request_id (some o) = elim o.busy_with [ none ↦ false | some r ↦ r == request_id ]

abbrev pub to_free : ℕ → Household → List ℕ
to_free request_id h =
    sorted_set
      (filter (λ p. works_for request_id (lookup p h.offers)) (pods (plan_of request_id h)))

abbrev pub released_of : Household → ℕ → Request → List ℕ → Household
released_of h request_id q free_pods = record h {
  offers = free free_pods h.offers;
  reservations = erase request_id h.reservations;
  requests = insert request_id (record q { status = Status.released }) h.requests;
  log = allocation_released request_id free_pods ∷ h.log;
}

-- The state after a new approval.
abbrev pub approval : Request → ℕ → Request
approval q pod_id = record q {
  approvals = q.approvals ++ pod_id ∷ [];
  status = if same_set (q.approvals ++ pod_id ∷ []) q.donors then Status.approved else q.status;
}

abbrev pub approved_by : Household → ℕ → Request → ℕ → Household
approved_by h request_id q pod_id = record h {
  requests = insert request_id (approval q pod_id) h.requests;
  log = allocation_approved request_id pod_id q.plan_hash ∷ h.log;
}

abbrev pub is_started : Status → Bool
is_started Status.started = true
is_started _ = false

module _ (digest : ℕ → ℕ) where
  -- A pod that joins again gets a fresh offer in place of its old one.
  unfoldable pub join : Household → ℕ → ℕ → ℤ → ℤ → Result Error (Offer × Household)
  join h pod_id key ram_bytes vram_bytes = do
    raise_if (not (digest key == h.key_hash)) key_mismatch
    let offer : Offer = record {
      pod_id = pod_id;
      ram_bytes = ram_bytes;
      vram_bytes = vram_bytes;
      busy = false;
      busy_with = none;
    }
    ok (offer, record h { offers = insert pod_id offer h.offers })

  unfoldable pub approve : Household → ℕ → ℕ → ℕ → Result Error (Status × Household)
  approve h request_id pod_id key = do
    raise_if (not (digest key == h.key_hash)) key_mismatch
    q ← or_raise (lookup request_id h.requests) unknown_request
    raise_if (not (mem pod_id q.donors)) not_a_donor
    if mem pod_id q.approvals
        then ok (q.status, h)
        else ok ((approval q pod_id).status, approved_by h request_id q pod_id)

  unfoldable pub release : Household → ℕ → ℕ → Result Error (List ℕ × Household)
  release h request_id key = do
    raise_if (not (digest key == h.key_hash)) key_mismatch
    q ← or_raise (lookup request_id h.requests) unknown_request
    raise_if (not (is_started q.status)) not_started
    ok (to_free request_id h, released_of h request_id q (to_free request_id h))

-- `token_cache_lookup` and `token_cache_store`.
abbrev pub saved_by : Option TokenEntry → ℕ
saved_by none = 0
saved_by (some e) = e.token_count

unfoldable pub token_cache_lookup : Household → ℕ → ℕ → Option TokenEntry × Household
token_cache_lookup h session_id prefix_hash =
    let entry = lookup (session_id, prefix_hash) h.token_cache in
    (entry, record h { saved_tokens = h.saved_tokens + saved_by entry })

unfoldable pub token_cache_store : Household → ℕ → ℕ → ℕ → ℕ → TokenEntry × Household
token_cache_store h session_id prefix_hash token_count replica =
    let entry : TokenEntry = record { token_count = token_count; replica = replica } in
    (entry, record h { token_cache = insert (session_id, prefix_hash) entry h.token_cache })
