-- ===== src/Storage/Sessions/Environment.antt =====
-- internal/storage/sqlite/sqlite.go: attachSessionEnvironment and the observe functions. What was
-- observed first stays.
use Prim.Native.Char.{code}
use ai_engineering_productiv.Prelude.{
  String, Bool, not, ◌||◌, Option, none, some, ◌==◌, if◌then◌else◌, nat_eq,
}
use ai_engineering_productiv.Canonical.{
  Value, text, object, as_object, object_or_empty, Fields, end, field, find_field, get_field,
  put_field, Event, Session,
}
use ai_engineering_productiv.Storage.Sessions.Identity.{session_string, codex_session_id_source}

-- strings.TrimPrefix
unfoldable cut_prefix : String → String → Option String
cut_prefix s String.[] = some s
cut_prefix String.[] (String.◌∷◌ d t) = none
cut_prefix (String.◌∷◌ c s) (String.◌∷◌ d t) =
    let rest = cut_prefix s t in if nat_eq (code c) (code d) then rest else none

abbrev or_text : Option String → String → String
or_text none s = s
or_text (some t) s = t

unfoldable trim_prefix : String → String → String
unfolding cut_prefix
trim_prefix s t = or_text (cut_prefix s t) s

abbrev pub is_unobserved : String → Bool
is_unobserved value = value == "" || value == "unavailable"

-- `if _, exists := m[key]; !exists { m[key] = value }`
unfoldable pub put_new : Fields → String → Value → Fields
unfolding find_field put_field
put_new fs key value = elim (find_field fs key) [ none ↦ put_field fs key value | some old ↦ fs ]

-- observeSessionAttribute
unfoldable pub observe_session_attribute : Session → String → String → Session
unfolding put_new
observe_session_attribute s key value =
    if is_unobserved value
    then s
    else record s { attributes = put_new s.attributes key (text value) }

-- observeSessionResource
unfoldable pub observe_session_resource : Session → String → String → Session
unfolding put_new put_field object_or_empty get_field
observe_session_resource s key value =
    let resource = object_or_empty (get_field s.provider_extensions "resource_attributes") in
    if is_unobserved value then s else record s {
      provider_extensions =
          put_field s.provider_extensions "resource_attributes"
            (object (put_new resource key (text value)));
    }

unfoldable put_all : Fields → Fields → Fields
unfolding put_new
put_all fs end = fs
put_all fs (field key value rest) = put_all (put_new fs key value) rest

-- observeSessionCorrelation
unfoldable pub observe_session_correlation : Session → Fields → Session
unfolding put_all put_field object_or_empty get_field
observe_session_correlation s values =
    let correlation = object_or_empty (get_field s.provider_extensions "correlation") in
    record s {
      provider_extensions =
          put_field s.provider_extensions "correlation" (object (put_all correlation values));
    }

-- sessionEntrypoint
unfoldable pub session_entrypoint : String → String → String
session_entrypoint tool service =
    if not (tool == "codex")
    then ""
    else if service == "codex_cli_rs"
    then "interactive"
    else if service == "codex_exec"
    then "codex exec"
    else service

-- sessionResourceAttributes; a nil map is the empty one.
unfoldable pub session_resource_attributes : Event → Fields
unfolding as_object get_field
session_resource_attributes event =
    elim (as_object (get_field event.provider_extensions "resource_attributes")) [
      | some resource ↦ resource
      | none ↦ elim (as_object (get_field event.provider_extensions "resource")) [
        | some resource ↦ resource
        | none ↦ end
      ]
    ]

-- The service's name, and the entrypoint that it stands for.
unfoldable pub attach_service_name : Session → Event → String → Session
unfolding observe_session_attribute observe_session_resource session_entrypoint
attach_service_name s event service =
    let named =
      observe_session_resource (observe_session_attribute s "service_name" service) "service.name"
        service in
    let entrypoint = session_entrypoint event.tool service in
    if service == ""
    then s
    else if entrypoint == ""
    then named
    else observe_session_attribute named "entrypoint" entrypoint

unfoldable pub attach_service_version : Session → String → Session
unfolding observe_session_attribute observe_session_resource
attach_service_version s version =
    if version == ""
    then s
    else observe_session_resource (observe_session_attribute s "service_version" version)
        "service.version" version

-- `if value != "" { observeSessionAttribute(session, key, value) }`
unfoldable pub attach_attribute : Session → String → String → Session
unfolding observe_session_attribute
attach_attribute s key value = if value == "" then s else observe_session_attribute s key value

unfoldable pub attach_transcript : Session → Option Fields → Session
unfolding attach_attribute session_string get_field
attach_transcript s none = s
attach_transcript s (some transcript) =
    attach_attribute
      (attach_attribute s "entrypoint" (session_string (get_field transcript "entrypoint")))
      "git_branch" (session_string (get_field transcript "git_branch"))

unfoldable pub attach_correlation : Session → Event → Option String → Session
unfolding observe_session_correlation trim_prefix
attach_correlation s event none = s
attach_correlation s event (some source) = observe_session_correlation s (
    field "session_id_source" (text source) (
      field "provider_prefix" (text "codex:")
        (field "provider_session_id" (text (trim_prefix event.session_id "codex:")) end)))

-- attachSessionEnvironment
unfoldable pub attach_session_environment : Session → Event → Session
unfolding session_resource_attributes session_string get_field as_object attach_service_name
    attach_service_version attach_attribute attach_transcript attach_correlation
    codex_session_id_source
attach_session_environment s event =
    let resource = session_resource_attributes event in
    let named = attach_service_name s event (session_string (get_field resource "service.name")) in
    let versioned =
      attach_service_version named (session_string (get_field resource "service.version")) in
    let entered =
      attach_attribute versioned "entrypoint"
        (session_string (get_field event.attributes "entrypoint")) in
    let transcribed =
      attach_transcript entered (as_object (get_field event.provider_extensions "transcript")) in
    attach_correlation transcribed event (codex_session_id_source event)
