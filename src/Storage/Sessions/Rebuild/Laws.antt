-- ===== src/Storage/Sessions/Rebuild/Laws.antt =====
-- The state of a session is that of its last lifecycle event.
use ai_engineering_productiv.Prelude.{
  ℕ, zero, suc, String, ◌≡◌, ◌≢◌, ◌⊎◌, refl, ap, ◌∙◌, inl, inr, Bool, true, false, Option, none,
  some, List, [], ◌∷◌, ◌++◌, ◌==◌, if◌then◌else◌, Bool-cases, All, eq_iff, length,
}
use ai_engineering_productiv.Canonical.{Fields, Event, Session, as_object, get_field, text_or_empty}
use ai_engineering_productiv.Storage.Sessions.Identity.{session_string, codex_session_id_source}
use ai_engineering_productiv.Storage.Sessions.Environment.{
  observe_session_attribute, observe_session_resource, observe_session_correlation,
  session_entrypoint, session_resource_attributes, attach_service_name, attach_service_version,
  attach_attribute, attach_transcript, attach_correlation, attach_session_environment,
  is_unobserved,
}
use ai_engineering_productiv.Storage.Sessions.Rebuild.{
  lifecycle, terminal, observe_model, enter_state, observe_event, observe_events, attach_links,
  session_links, count_conversation_events, counted, initial_session, reconstruct_session,
}

-- Neither the state nor the completion differs.
abbrev Agree : Session → Session → Type 0
Agree s t = (s.state ≡ t.state) × (s.completed_at ≡ t.completed_at)

Agree-trans : (s t u : Session) → Agree s t → Agree t u → Agree s u
Agree-trans s t u (a, b) (c, d) = (a ∙ c, b ∙ d)

observe_session_attribute-Agree :
    (s : Session) (k v : String) → Agree (observe_session_attribute s k v) s
unfolding observe_session_attribute
observe_session_attribute-Agree s k v = elim (Bool-cases (is_unobserved v)) [
  | inl e ↦ rw e (refl, refl)
  | inr e ↦ rw e (refl, refl)
]

observe_session_resource-Agree :
    (s : Session) (k v : String) → Agree (observe_session_resource s k v) s
unfolding observe_session_resource
observe_session_resource-Agree s k v = elim (Bool-cases (is_unobserved v)) [
  | inl e ↦ rw e (refl, refl)
  | inr e ↦ rw e (refl, refl)
]

if-Agree : (b : Bool) (s t u : Session) → Agree s u → Agree t u → Agree (if b then s else t) u
if-Agree true s t u h k = h
if-Agree false s t u h k = k

attach_attribute-Agree : (s : Session) (k v : String) → Agree (attach_attribute s k v) s
unfolding attach_attribute
attach_attribute-Agree s k v =
    if-Agree (v == "") s (observe_session_attribute s k v) s (refl, refl)
      (observe_session_attribute-Agree s k v)

-- An attribute and a resource are observed.
both-Agree :
    (s : Session) (k l v : String)
    → Agree (observe_session_resource (observe_session_attribute s k v) l v) s
both-Agree s k l v =
    let inner = observe_session_attribute s k v in
    Agree-trans (observe_session_resource inner l v) inner s
      (observe_session_resource-Agree inner l v) (observe_session_attribute-Agree s k v)

attach_service_version-Agree : (s : Session) (v : String) → Agree (attach_service_version s v) s
unfolding attach_service_version
attach_service_version-Agree s v =
    if-Agree (v == "") s
      (observe_session_resource (observe_session_attribute s "service_version" v) "service.version"
        v)
      s (refl, refl) (both-Agree s "service_version" "service.version" v)

attach_service_name-Agree :
    (s : Session) (event : Event) (v : String) → Agree (attach_service_name s event v) s
unfolding attach_service_name
attach_service_name-Agree s event v =
    let named =
      observe_session_resource (observe_session_attribute s "service_name" v) "service.name" v in
    let same = both-Agree s "service_name" "service.name" v in
    let entrypoint = session_entrypoint event.tool v in
    let entered = observe_session_attribute named "entrypoint" entrypoint in
    if-Agree (v == "") s (if entrypoint == "" then named else entered) s (refl, refl)
      (if-Agree (entrypoint == "") named entered s same (
        Agree-trans entered named s (observe_session_attribute-Agree named "entrypoint" entrypoint)
          same))

attach_transcript-Agree : (s : Session) (o : Option Fields) → Agree (attach_transcript s o) s
unfolding attach_transcript
attach_transcript-Agree s none = (refl, refl)
attach_transcript-Agree s (some transcript) =
    let inner =
      attach_attribute s "entrypoint" (session_string (get_field transcript "entrypoint")) in
    let branch = session_string (get_field transcript "git_branch") in
    Agree-trans (attach_attribute inner "git_branch" branch) inner s
      (attach_attribute-Agree inner "git_branch" branch)
      (attach_attribute-Agree s "entrypoint" (session_string (get_field transcript "entrypoint")))

attach_correlation-Agree :
    (s : Session) (event : Event) (o : Option String) → Agree (attach_correlation s event o) s
unfolding attach_correlation observe_session_correlation
attach_correlation-Agree s event none = (refl, refl)
attach_correlation-Agree s event (some source) = (refl, refl)

attach_session_environment-Agree :
    (s : Session) (event : Event) → Agree (attach_session_environment s event) s
unfolding attach_session_environment
attach_session_environment-Agree s event =
    let resource = session_resource_attributes event in
    let name = session_string (get_field resource "service.name") in
    let version = session_string (get_field resource "service.version") in
    let entry = session_string (get_field event.attributes "entrypoint") in
    let transcript = as_object (get_field event.provider_extensions "transcript") in
    let a = attach_service_name s event name in
    let b = attach_service_version a version in
    let c = attach_attribute b "entrypoint" entry in
    let d = attach_transcript c transcript in
    Agree-trans (attach_correlation d event (codex_session_id_source event)) d s
      (attach_correlation-Agree d event (codex_session_id_source event))
      (Agree-trans d c s (attach_transcript-Agree c transcript) (
        Agree-trans c b s (attach_attribute-Agree b "entrypoint" entry) (
          Agree-trans b a s (attach_service_version-Agree a version)
            (attach_service_name-Agree s event name))))

observe_model-Agree : (s : Session) (event : Event) → Agree (observe_model s event) s
unfolding observe_model
observe_model-Agree s event =
    elim (Bool-cases (text_or_empty (get_field event.attributes "model") == "")) [
      | inl e ↦ rw e (refl, refl)
      | inr e ↦ rw e (refl, refl)
    ]

-- What an event of no lifecycle, and one of a lifecycle, make of the state.
observe_event-skips :
    (s : Session) (e : Event) → lifecycle e.event_type ≡ "" → Agree (observe_event s e) s
unfolding observe_event enter_state
observe_event-skips s e h =
    let modelled = observe_model s e in
    let attached = attach_session_environment modelled e in
    rw h (
      Agree-trans attached modelled s (attach_session_environment-Agree modelled e)
        (observe_model-Agree s e))

abbrev completion : Event → Option ℕ
completion e = if terminal (lifecycle e.event_type) then some e.occurred_at else none

observe_event-enters :
    (s : Session) (e : Event)
    → (lifecycle e.event_type == "") ≡ false
    → ((observe_event s e).state ≡ lifecycle e.event_type)
      × ((observe_event s e).completed_at ≡ completion e)
unfolding observe_event enter_state
observe_event-enters s e h = rw h (refl, refl)

-- The last lifecycle event of the list decides.
abbrev pub IsDecidedBy : Session → List Event → Event → Type 0
IsDecidedBy s events e =
    (pre : List Event) × (post : List Event) × (events ≡ pre ++ e ∷ post)
    × (lifecycle e.event_type ≢ "")
    × All (λ x. lifecycle x.event_type ≡ "") post
    × (s.state ≡ lifecycle e.event_type)
    × (s.completed_at ≡ (if terminal (lifecycle e.event_type) then some e.occurred_at else none))

observe_events-state :
    (s : Session) (events : List Event)
    → (All (λ x. lifecycle x.event_type ≡ "") events × Agree (observe_events s events) s)
      ⊎ ((e : Event) × IsDecidedBy (observe_events s events) events e)
unfolding observe_events
observe_events-state s [] = inl (tt, (refl, refl))
observe_events-state s (e ∷ es) = elim (observe_events-state (observe_event s e) es) [
  | inr (x, (pre, post, q, named, none_later, state, completed)) ↦
      inr (x, (e ∷ pre, post, ap (λ z. e ∷ z) q, named, none_later, state, completed))
  | inl (h, (a, b)) ↦ elim (Bool-cases (lifecycle e.event_type == "")) [
    | inl k ↦
        let (c, d) = observe_event-skips s e ((eq_iff (lifecycle e.event_type) "").0 k) in
        inl (((eq_iff (lifecycle e.event_type) "").0 k, h), (a ∙ c, b ∙ d))
    | inr k ↦
        let (c, d) = observe_event-enters s e k in
        inr (
          e,
          ([], es, refl, (λ q. cc ((eq_iff (lifecycle e.event_type) "").1 q, k)), h, a ∙ c, b ∙ d),
        )
  ]
]

attach_links-Agree : (s : Session) (links : List String) → Agree (attach_links s links) s
unfolding attach_links
attach_links-Agree s [] = (refl, refl)
attach_links-Agree s (l ∷ []) = (refl, refl)
attach_links-Agree s (l ∷ m ∷ ls) = (refl, refl)

counted-Agree : (s : Session) (n : ℕ) → Agree (counted s n) s
counted-Agree s zero = (refl, refl)
counted-Agree s (suc n) = (refl, refl)

-- The reconstructed session has the state of the last event that is of a lifecycle, and is completed
-- at its time exactly where that state is terminal; where no event is of a lifecycle, the state is
-- unknown and the session is not completed.
pub reconstruct_session-state :
    (id : String) (first : Event) (rest : List Event)
    → (All (λ x. lifecycle x.event_type ≡ "") (first ∷ rest)
        × ((reconstruct_session id first rest).state ≡ "unknown")
        × ((reconstruct_session id first rest).completed_at ≡ none))
      ⊎ ((e : Event) × IsDecidedBy (reconstruct_session id first rest) (first ∷ rest) e)
unfolding reconstruct_session
reconstruct_session-state id first rest =
    let events = first ∷ rest in
    let s = observe_events (initial_session id first (length events)) events in
    let c = counted s (count_conversation_events events) in
    let (a, b) =
      Agree-trans (attach_links c (session_links [] events)) c s
        (attach_links-Agree c (session_links [] events))
        (counted-Agree s (count_conversation_events events)) in
    elim (observe_events-state (initial_session id first (length events)) events) [
      | inl (h, (x, y)) ↦ inl (h, a ∙ x, b ∙ y)
      | inr (e, (pre, post, q, named, later, state, completed)) ↦
          inr (e, (pre, post, q, named, later, a ∙ state, b ∙ completed))
    ]
