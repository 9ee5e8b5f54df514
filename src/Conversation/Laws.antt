-- ===== src/Conversation/Laws.antt =====
-- Which events the conversation view shows, and what it says of their content.
use ai_engineering_productiv.Prelude.{
  ℕ, String, ◌≡◌, ◌≢◌, refl, ◌⊎◌, inl, inr, true, false, Option, none, some, List, [], ◌∷◌, ◌==◌,
  map, arith, eq_iff, keep, Bool-cases, Option-cases, All, Has,
}
use ai_engineering_productiv.Canonical.{Fields, find_field, get_field, as_text, Event}
use ai_engineering_productiv.Conversation.{
  Record, ContentAvailability, available, provider_redacted, length_only, body_reference,
  unavailable, length_availability, provider_redacted_text, content_value, content_of,
  is_conversation_event, content_shape, make_record, project_event, project,
}

module _ (fold : ℕ → ℕ) where
  project_event-id :
      (event : Event)
      → ((is_conversation_event event ≡ false) × (project_event fold event ≡ none))
        ⊎ ((is_conversation_event event ≡ true)
            × ((r : Record) × (project_event fold event ≡ some r) × (r.event_id ≡ event.event_id)))
  unfolding project_event make_record
  project_event-id event = elim (Bool-cases (is_conversation_event event)) [
    | inr n ↦ ground arith
    | inl y ↦ elim (Option-cases (content_shape event)) [
      | inl o ↦ ground arith
      | inr (shape, o) ↦ ground arith
    ]
  ]

  project-none :
      (event : Event) (events : List Event)
      → project_event fold event ≡ none
      → project fold (event ∷ events) ≡ project fold events
  unfolding project
  project-none event events e = rw (e, project) refl

  project-some :
      (event : Event) (events : List Event) (r : Record)
      → project_event fold event ≡ some r
      → project fold (event ∷ events) ≡ r ∷ project fold events
  unfolding project
  project-some event events r e = rw (e, project) refl

  -- The records of the projection are the conversation events, one for each, in the order of the
  -- events: what the availability signal counts is what the projection shows.
  pub project_lem :
      (events : List Event)
      → map (λ r. r.event_id) (project fold events)
        ≡ map (λ e. e.event_id) (keep is_conversation_event events)
  unfolding project
  project_lem [] = refl
  project_lem (event ∷ events) = elim (project_event-id event) [
    | inl (n, e) ↦ rw (project-none event events e) (ground (arith, n, project_lem events))
    | inr (y, (r, e, i)) ↦
        rw (project-some event events r e) (ground (arith, y, i, project_lem events))
  ]

-- What an availability says of the retained text, the reference to a body and the lengths.
abbrev pub Says :
    (ℕ → ℕ)
    → Option String
    → Option String
    → Fields
    → String
    → List String
    → ContentAvailability
    → Type 0
Says fold t body echo key length_keys provider_redacted =
    (s : String) × (t ≡ some s) × (provider_redacted_text fold s ≡ true)
Says fold t body echo key length_keys available =
    (s : String) × (t ≡ some s) × (provider_redacted_text fold s ≡ false)
Says fold t body echo key length_keys body_reference = (t ≡ none) × (body ≢ none) × (key ≡ "body")
Says fold t body echo key length_keys length_only =
    (t ≡ none)
    × ¬ ((body ≢ none) × (key ≡ "body"))
    × Has (λ k. find_field echo k ≢ none) length_keys
Says fold t body echo key length_keys unavailable =
    (t ≡ none)
    × ¬ ((body ≢ none) × (key ≡ "body"))
    × All (λ k. find_field echo k ≡ none) length_keys

length_availability-cases :
    (echo : Fields) (keys : List String)
    → ((length_availability echo keys ≡ length_only) × Has (λ k. find_field echo k ≢ none) keys)
      ⊎ ((length_availability echo keys ≡ unavailable) × All (λ k. find_field echo k ≡ none) keys)
unfolding length_availability
length_availability-cases echo [] = inr (refl, tt)
length_availability-cases echo (key ∷ keys) = elim (Option-cases (find_field echo key)) [
  | inl n ↦ ground (arith, length_availability-cases echo keys)
  | inr (v, s) ↦ ground arith
]

module _ (fold : ℕ → ℕ) (echo : Fields) (key : String) (length_keys : List String) where
  length_availability-Says :
      (body : Option String)
      → ¬ ((body ≢ none) × (key ≡ "body"))
      → Says fold none body echo key length_keys (length_availability echo length_keys)
  length_availability-Says body h = elim (length_availability-cases echo length_keys) [
    | inl (e, k) ↦ rw e (refl, h, k)
    | inr (e, k) ↦ rw e (refl, h, k)
  ]

  content_of-Says :
      (t body : Option String)
      → Says fold t body echo key length_keys (content_of fold t body echo key length_keys).1
  unfolding content_of
  content_of-Says (some s) body = elim (Bool-cases (provider_redacted_text fold s)) [
    | inl e ↦ rw e (s, refl, e)
    | inr e ↦ rw e (s, refl, e)
  ]
  content_of-Says none none = length_availability-Says none (λ (h, k). h refl)
  content_of-Says none (some b) = elim (Bool-cases (key == "body")) [
    | inl e ↦ rw e (refl, (λ h. cc), (eq_iff key "body").0 e)
    | inr e ↦
        rw e
          (length_availability-Says (some b) (λ (h, k). absurd (cc (e, (eq_iff key "body").1 k))))
  ]

  content_of-text : (t body : Option String) → (content_of fold t body echo key length_keys).0 ≡ t
  unfolding content_of
  content_of-text (some s) body = refl
  content_of-text none none = refl
  content_of-text none (some b) = ground arith

  -- The text is the retained one, unchanged, and it is missing exactly where none is retained. The
  -- availability is true of the evidence: the text is the provider's redaction mark; there is
  -- another text; there is none and a body is referred to; there is neither and some length key is
  -- there; there is nothing of these.
  pub content_value_lem :
      ((content_value fold echo key length_keys).0 ≡ as_text (get_field echo key))
      × Says fold
          (as_text (get_field echo key))
          (as_text (get_field echo "body_ref"))
          echo
          key
          length_keys
          (content_value fold echo key length_keys).1
  unfolding content_value
  content_value_lem =
      let t = as_text (get_field echo key) in
      let body = as_text (get_field echo "body_ref") in
      (content_of-text t body, content_of-Says t body)
