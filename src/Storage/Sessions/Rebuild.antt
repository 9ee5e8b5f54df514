-- ===== src/Storage/Sessions/Rebuild.antt =====
-- internal/storage/sqlite/sqlite.go: reconstructSession, rebuildSession and lastEventAt. Instants count
-- from Go's zero time.
pub mod Laws
use ai_engineering_productiv.Prelude.{
  ℕ, zero, suc, String, Bool, true, false, not, ◌&&◌, ◌||◌, Option, none, some, List, [], ◌∷◌, ◌++◌,
  ◌==◌, if◌then◌else◌, ltb, length, contains, keep,
}
use ai_engineering_productiv.Prelude.Int.{pos}
use ai_engineering_productiv.Canonical.{
  Value, text, texts, array, integer, Values, nil, cons, Fields, end, field, find_field, get_field,
  put_field, as_text, text_or_empty, Event, Session,
}
use ai_engineering_productiv.Conversation.{is_conversation_event}
use ai_engineering_productiv.Storage.Sessions.Identity.{ends_with, has_suffix, session_identity}
use ai_engineering_productiv.Storage.Sessions.Environment.{put_new, attach_session_environment}

-- lifecycle, "" where the type is of no lifecycle
unfoldable pub lifecycle : String → String
unfolding has_suffix
lifecycle t =
    if ends_with t ".created"
    then "created"
    else if ends_with t ".active" || ends_with t ".started"
    then "active"
    else if ends_with t ".completed"
    then "completed"
    else if ends_with t ".failed"
    then "failed"
    else if ends_with t ".cancelled"
    then "cancelled"
    else if ends_with t ".abandoned"
    then "abandoned"
    else ""

unfoldable pub terminal : String → Bool
terminal s = s == "completed" || s == "failed" || s == "cancelled" || s == "abandoned"

-- The model of the first event that has one.
unfoldable pub observe_model : Session → Event → Session
unfolding put_new text_or_empty get_field
observe_model s e =
    let model = text_or_empty (get_field e.attributes "model") in
    if model == "" then s else record s { attributes = put_new s.attributes "model" (text model) }

-- The state that an event of a lifecycle sets.
unfoldable pub enter_state : Session → Event → Session
unfolding lifecycle terminal
enter_state s e =
    let state = lifecycle e.event_type in
    if state == "" then s else record s {
      state = state;
      completed_at = if terminal state then some e.occurred_at else none;
    }

unfoldable pub observe_event : Session → Event → Session
unfolding observe_model attach_session_environment enter_state
observe_event s e = enter_state (attach_session_environment (observe_model s e) e) e

unfoldable pub observe_events : Session → List Event → Session
unfolding observe_event
observe_events s [] = s
observe_events s (e ∷ es) = observe_events (observe_event s e) es

-- stringSliceAttribute
abbrev or_skip : Value → List String → List String
or_skip (text s) rest = if s == "" then rest else s ∷ rest
or_skip _ rest = rest

unfoldable slice_texts : Values → List String
slice_texts nil = []
slice_texts (cons v vs) = or_skip v (slice_texts vs)

unfoldable pub string_slice_attribute : Value → List String
unfolding slice_texts
string_slice_attribute (texts ts) = ts
string_slice_attribute (array vs) = slice_texts vs
string_slice_attribute _ = []

unfoldable pub add_links : List String → List String → List String
add_links links [] = links
add_links links (l ∷ ls) = add_links (if contains links l then links else links ++ l ∷ []) ls

unfoldable pub session_links : List String → List Event → List String
unfolding add_links string_slice_attribute get_field
session_links links [] = links
session_links links (e ∷ es) =
    session_links
      (add_links links (string_slice_attribute (get_field e.attributes "pr_link_candidates"))) es

-- attachSessionPRLink, on the distinct links
unfoldable pub attach_links : Session → List String → Session
unfolding put_field
attach_links s [] = s
attach_links s (link ∷ []) = record s { attributes = put_field s.attributes "pr_link" (text link) }
attach_links s (link ∷ other ∷ links) = record s {
  attributes =
      put_field s.attributes "pr_link_candidate_count" (integer (pos (suc (suc (length links)))));
}

-- countConversationEvents
unfoldable pub count_conversation_events : List Event → ℕ
unfolding is_conversation_event
count_conversation_events events = length (keep is_conversation_event events)

abbrev pub counted : Session → ℕ → Session
counted s zero = s
counted s (suc n) = record s {
  attributes = put_field s.attributes "conversation_event_count" (integer (pos (suc n)));
}

abbrev pub identified : Session → String × String → Session
identified s (scope, source) = record s {
  attributes =
      put_field (put_field s.attributes "identity_scope" (text scope)) "identity_source"
        (text source);
}

abbrev pub initial_session : String → Event → ℕ → Session
initial_session id first count = record {
  schema_version = first.schema_version;
  session_id = id;
  provider = first.provider;
  tool = first.tool;
  state = "unknown";
  started_at = first.occurred_at;
  completed_at = none;
  attributes = field "event_count" (integer (pos count)) end;
  provider_extensions = end;
}

-- reconstructSession, on the first event and the others
unfoldable pub reconstruct_session : String → Event → List Event → Session
unfolding observe_events count_conversation_events attach_links session_links session_identity
    put_field
reconstruct_session id first rest =
    let events = first ∷ rest in
    let observed = observe_events (initial_session id first (length events)) events in
    identified
      (attach_links (counted observed (count_conversation_events events)) (session_links [] events))
      (session_identity events)

-- lastEventAt
unfoldable pub last_event_from : ℕ → List Event → ℕ
last_event_from latest [] = latest
last_event_from zero (e ∷ es) = last_event_from e.occurred_at es
last_event_from (suc n) (e ∷ es) =
    last_event_from (if ltb (suc n) e.occurred_at then e.occurred_at else suc n) es

unfoldable pub last_event_at : List Event → ℕ
unfolding last_event_from
last_event_at events = last_event_from 0 events

abbrev with_last : (ℕ → String) → Session → ℕ → Session
with_last stamp s zero = s
with_last stamp s (suc n) = record s {
  attributes = put_field s.attributes "last_event_at" (text (stamp (suc n)));
}

-- rebuildSession: the session that is upserted, `none` where there is no event.
unfoldable pub rebuild_session : (ℕ → String) → String → List Event → Option Session
unfolding reconstruct_session last_event_at put_field
rebuild_session stamp id [] = none
rebuild_session stamp id (first ∷ rest) =
    some (with_last stamp (reconstruct_session id first rest) (last_event_at (first ∷ rest)))
