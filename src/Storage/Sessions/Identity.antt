-- ===== src/Storage/Sessions/Identity.antt =====
-- internal/storage/sqlite/sqlite.go: sessionIdentity and what it tests.
use ai_engineering_productiv.Prelude.{
  ℕ, String, Bool, not, ◌&&◌, ◌||◌, Option, none, some, List, [], ◌∷◌, ◌==◌, if◌then◌else◌, codes,
  codes_eq, has_prefix, trim_space,
}
use ai_engineering_productiv.Canonical.{
  Value, as_text, as_object, text_or_empty, Fields, get_field, put_field, text, Event, Session,
}

-- strings.HasPrefix and strings.HasSuffix
abbrev pub starts_with : String → String → Bool
starts_with s t = has_prefix (codes s) (codes t)

unfoldable pub has_suffix : List ℕ → List ℕ → Bool
unfolding codes_eq
has_suffix [] t = codes_eq [] t
has_suffix (x ∷ xs) t = codes_eq (x ∷ xs) t || has_suffix xs t

abbrev pub ends_with : String → String → Bool
ends_with s t = has_suffix (codes s) (codes t)

-- sessionString
unfoldable pub session_string : Value → String
unfolding text_or_empty trim_space
session_string v = trim_space (text_or_empty v)

abbrev is_given : String → Bool
is_given s = not (s == "")

abbrev or_source : String → Option String
or_source source =
    if source == "conversation.id" || source == "thread.id" then some source else none

-- codexSessionIDSource; `none` is a result that is not ok.
unfoldable pub codex_session_id_source : Event → Option String
unfolding has_prefix session_string as_object text_or_empty get_field
codex_session_id_source event =
    if not (event.tool == "codex") || not (starts_with event.session_id "codex:")
    then none
    else elim (as_object (get_field event.provider_extensions "log_attributes")) [
      | some attributes ↦
          if is_given (session_string (get_field attributes "conversation.id"))
          then some "conversation.id"
          else if is_given (session_string (get_field attributes "thread.id"))
          then some "thread.id"
          else some "conversation.id"
      | none ↦ elim (as_object (get_field event.provider_extensions "correlation")) [
        | none ↦ none
        | some correlation ↦ or_source (text_or_empty (get_field correlation "session_id_source"))
      ]
    ]

abbrev is_content_derived : String → Bool
is_content_derived id =
    starts_with id "codex-log:"
    || starts_with id "codex:token:"
    || starts_with id "codex:performance:"
    || starts_with id "codex:skill:"
    || starts_with id "codex:skill-turn:"
    || starts_with id "codex:integration:"
    || starts_with id "cursor:token:"

-- observationIdentity
unfoldable pub observation_identity : String → Option (String × String)
unfolding has_prefix has_suffix
observation_identity id =
    if is_content_derived id
    then some ("observation", "content-derived")
    else if starts_with id "codex:trace:"
    then some ("observation", "trace.id")
    else if starts_with id "claude-code:trace:"
    then some ("observation", "trace.id")
    else if ends_with id ":unknown"
    then some ("observation", "provider-id-absent")
    else none

-- The switch of sessionIdentity on the first event.
unfoldable pub provider_identity : Event → String × String
unfolding codex_session_id_source has_prefix
provider_identity first =
    if first.tool == "codex"
    then elim (codex_session_id_source first) [
      | some source ↦ ("provider", source)
      | none ↦ ("unknown", "unproven")
    ]
    else if first.tool == "claude-code" && starts_with first.session_id "claude-code:"
    then ("provider", "session.id")
    else if first.tool == "cursor-agent" && starts_with first.session_id "cursor-agent:"
    then ("provider", "session_id")
    else if first.tool == "cursor" && starts_with first.session_id "cursor:"
    then ("provider", "cursor.conversation.id")
    else ("unknown", "unproven")

unfoldable pub session_identity : List Event → String × String
unfolding observation_identity provider_identity
session_identity [] = ("unknown", "unproven")
session_identity (first ∷ events) = elim (observation_identity first.session_id) [
  | some identity ↦ identity
  | none ↦ provider_identity first
]

abbrev or_put : Fields → String → String → Fields
or_put attributes key value = elim (as_text (get_field attributes key)) [
  | some s ↦ attributes
  | none ↦ put_field attributes key (text value)
]

abbrev or_unproven : Option (String × String) → String × String
or_unproven none = ("unknown", "unproven")
or_unproven (some identity) = identity

-- ensureSessionIdentity
unfoldable pub ensure_session_identity : Session → Session
unfolding as_text get_field put_field observation_identity
ensure_session_identity s =
    let identity = or_unproven (observation_identity s.session_id) in
    record s {
      attributes =
          or_put (or_put s.attributes "identity_scope" identity.0) "identity_source" identity.1;
    }
