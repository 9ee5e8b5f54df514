-- ===== src/Conversation.antt =====
-- internal/conversation/projection.go: the events that carry retained content, and their view.
-- strings.EqualFold compares runes by their case orbits: an argument takes a rune to its orbit's
-- representative.
pub mod Laws
pub mod Page
use ai_engineering_productiv.Prelude.{
  ℕ, String, Bool, true, false, ◌&&◌, ◌||◌, not, Option, none, some, List, [], ◌∷◌, ◌==◌,
  if◌then◌else◌, map, codes, codes_eq, trim_space,
}
use ai_engineering_productiv.Canonical.{
  Value, Fields, find_field, get_field, as_text, as_object, object_or_empty, Event,
}

pub data Role : Type 0 where
  user assistant unknown : Role

pub data ContentAvailability : Type 0 where
  available provider_redacted length_only body_reference unavailable : ContentAvailability

pub record Record : Type 0 where
  pub event_id : String
  pub event_type : String
  pub occurred_at : ℕ
  pub provider : String
  pub tool : String
  pub source_version : String
  pub role : Role
  pub text : Option String
  pub content_availability : ContentAvailability
  pub thinking : Option String

pub record ContentLocation : Type 0 where
  pub namespace : String
  pub key : String
  pub role : Role
  pub length_keys : List String
  pub thinking_key : String

unfoldable pub is_claude_code : String → String → Bool
is_claude_code provider tool = provider == "anthropic" && tool == "claude-code"

unfoldable pub is_conversation_provider : String → String → Bool
unfolding is_claude_code
is_conversation_provider provider tool =
    is_claude_code provider tool || (provider == "openai" && tool == "codex")

abbrev pub location : String → String → Role → List String → String → ContentLocation
location namespace key role length_keys thinking_key = record {
  namespace = namespace;
  key = key;
  role = role;
  length_keys = length_keys;
  thinking_key = thinking_key;
}

-- The second `switch`, on the transcript records.
unfoldable pub transcript_shape : String → Option ContentLocation
transcript_shape t =
    if t == "user_message"
    then some (location "transcript" "prompt_content" user [] "")
    else if t == "assistant_message"
    then some (location "transcript" "response_content" assistant [] "thinking")
    else none

unfoldable pub content_shape : Event → Option ContentLocation
unfolding is_claude_code transcript_shape
content_shape event =
    if event.event_type == "user_prompt"
    then some (location "event" "prompt" user ("prompt_length" ∷ []) "")
    else if event.event_type == "assistant_response"
    then some (location "event" "response" assistant ("response_length" ∷ []) "")
    else if event.event_type == "api_request_body" || event.event_type == "api_response_body"
    then some (location "event" "body" unknown ("body_length" ∷ []) "")
    else if not (is_claude_code event.provider event.tool)
    then none
    else transcript_shape event.event_type

abbrev pub has_words : Option String → Bool
has_words none = false
has_words (some s) = not (trim_space s == "")

unfoldable pub non_empty_string : Fields → String → Bool
unfolding get_field as_text
non_empty_string values key =
    if key == "" then false else has_words (as_text (get_field values key))

-- `extension, _ := event.ProviderExtensions[namespace].(map[string]any)`
unfoldable pub extension_of : Event → String → Fields
unfolding get_field object_or_empty
extension_of event namespace = object_or_empty (get_field event.provider_extensions namespace)

-- IsConversationEvent, once there is a shape.
unfoldable pub carries_content : Event → ContentLocation → Bool
unfolding extension_of non_empty_string
carries_content event shape =
    if not (shape.namespace == "transcript")
    then true
    else non_empty_string (extension_of event "transcript") shape.key
      || non_empty_string (extension_of event "transcript") shape.thinking_key

unfoldable pub is_conversation_event : Event → Bool
unfolding is_conversation_provider content_shape carries_content
is_conversation_event event =
    if not (is_conversation_provider event.provider event.tool)
    then false
    else elim (content_shape event) [ none ↦ false | some shape ↦ carries_content event shape ]

unfoldable pub thinking_value : Event → ContentLocation → Option String
unfolding extension_of non_empty_string get_field as_text
thinking_value event shape =
    if shape.thinking_key == ""
    then none
    else if not (non_empty_string (extension_of event shape.namespace) shape.thinking_key)
    then none
    else as_text (get_field (extension_of event shape.namespace) shape.thinking_key)

abbrev pub is_present {ℓ} : {A : Type ℓ} → Option A → Bool
is_present none = false
is_present (some x) = true

-- The loop over the length keys.
unfoldable pub length_availability : Fields → List String → ContentAvailability
unfolding find_field
length_availability echo [] = unavailable
length_availability echo (key ∷ keys) =
    let rest = length_availability echo keys in
    if is_present (find_field echo key) then length_only else rest

module _ (fold : ℕ → ℕ) where
  -- strings.EqualFold(strings.TrimSpace(text), "<redacted>")
  unfoldable pub provider_redacted_text : String → Bool
  provider_redacted_text text =
      codes_eq (map fold (codes (trim_space text))) (map fold (codes "<redacted>"))

  -- contentValue, with the retained text and the reference to a body as they were read.
  unfoldable pub content_of :
      Option String
      → Option String
      → Fields
      → String
      → List String
      → Option String × ContentAvailability
  unfolding provider_redacted_text length_availability
  content_of (some text) body echo key length_keys =
      (some text, if provider_redacted_text text then provider_redacted else available)
  content_of none body echo key length_keys =
      if is_present body && key == "body"
      then (none, body_reference)
      else (none, length_availability echo length_keys)

  unfoldable pub content_value : Fields → String → List String → Option String × ContentAvailability
  unfolding content_of get_field as_text
  content_value echo key length_keys =
      content_of (as_text (get_field echo key)) (as_text (get_field echo "body_ref")) echo key
        length_keys

  unfoldable pub make_record : Event → ContentLocation → Record
  unfolding content_value extension_of thinking_value
  make_record event shape =
      let content =
        content_value (extension_of event shape.namespace) shape.key shape.length_keys in
      record {
        event_id = event.event_id;
        event_type = event.event_type;
        occurred_at = event.occurred_at;
        provider = event.provider;
        tool = event.tool;
        source_version = event.source_version;
        role = shape.role;
        text = content.0;
        content_availability = content.1;
        thinking = thinking_value event shape;
      }

  -- projectEvent: its second call of contentShape ignores a failure, which the first one excludes.
  unfoldable pub project_event : Event → Option Record
  unfolding is_conversation_event content_shape make_record
  project_event event =
      if not (is_conversation_event event) then none else elim (content_shape event) [
        | none ↦ some (make_record event (location "" "" unknown [] ""))
        | some shape ↦ some (make_record event shape)
      ]

  -- Project
  unfoldable pub project : List Event → List Record
  unfolding project_event
  project [] = []
  project (event ∷ events) =
      let rest = project events in elim (project_event event) [ none ↦ rest | some r ↦ r ∷ rest ]
