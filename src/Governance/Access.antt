-- ===== src/Governance/Access.antt =====
-- internal/governance/risky_access.go: the raw paths and commands that an event holds under known
-- keys, and the thin events that are kept for them.
pub mod Thin
pub mod Orders
use Prim.Native.String
use ai_engineering_productiv.Prelude.{
  ℕ, zero, suc, ◌+◌, ◌/◌, ◌%◌, String, Bool, true, false, Option, none, some, List, [], ◌∷◌, ◌++◌,
  ◌==◌, if◌then◌else◌, nat_eq, contains, trim_space,
}
use ai_engineering_productiv.Canonical.{
  Value, object, array, text, Values, nil, cons, Fields, end, field, Event,
}

pub data AccessMethod : Type 0 where
  filesystem_read shell_command : AccessMethod

-- Both `access` and `AccessObservation`.
pub record AccessObservation : Type 0 where
  pub method : AccessMethod
  pub value : String

abbrev pub path_field_keys : List String
path_field_keys = "file_path" ∷ "path" ∷ "file" ∷ "filename" ∷ []

abbrev pub command_field_keys : List String
command_field_keys = "command" ∷ "command_line" ∷ "cmd" ∷ "full_command" ∷ []

-- leafAccess, on the string of the field
unfoldable pub leaf_text : String → String → Option AccessObservation
leaf_text key s =
    if trim_space s == ""
    then none
    else if contains path_field_keys key
    then some (record { method = filesystem_read; value = s })
    else if contains command_field_keys key
    then some (record { method = shell_command; value = s })
    else none

unfoldable pub leaf_access : String → Value → Option AccessObservation
unfolding leaf_text
leaf_access key (text s) = leaf_text key s
leaf_access key _ = none

abbrev pub or_walk : Option AccessObservation → List AccessObservation → List AccessObservation
or_walk none walked = walked
or_walk (some a) walked = a ∷ []

-- walkAccesses
unfoldable mutual
  unfolding leaf_access

  pub walk_accesses : Value → List AccessObservation
  walk_accesses (object fs) = walk_fields fs
  walk_accesses (array vs) = walk_values vs
  walk_accesses _ = []

  pub walk_values : Values → List AccessObservation
  walk_values nil = []
  walk_values (cons v vs) = walk_accesses v ++ walk_values vs

  pub walk_fields : Fields → List AccessObservation
  walk_fields end = []
  walk_fields (field key v fs) = or_walk (leaf_access key v) (walk_accesses v) ++ walk_fields fs

-- collectAccesses and AccessObservations
unfoldable pub collect_accesses : Event → List AccessObservation
unfolding walk_accesses
collect_accesses event = walk_fields event.attributes ++ walk_fields event.provider_extensions

-- Every access of a list of events, in order.
unfoldable pub all_accesses : List Event → List AccessObservation
unfolding collect_accesses
all_accesses [] = []
all_accesses (event ∷ events) = collect_accesses event ++ all_accesses events

-- strconv's decimal notation; the fuel bounds the digits.
abbrev digit_names : List String
digit_names = "0" ∷ "1" ∷ "2" ∷ "3" ∷ "4" ∷ "5" ∷ "6" ∷ "7" ∷ "8" ∷ "9" ∷ []

unfoldable pub digit : ℕ → List String → String
digit d [] = ""
digit zero (s ∷ rest) = s
digit (suc d) (s ∷ rest) = digit d rest

unfoldable pub decimal_from : ℕ → ℕ → String → String
unfolding digit
decimal_from zero n acc = acc
decimal_from (suc fuel) n acc =
    let more = decimal_from fuel (n / 10) (String.◌++◌ (digit (n % 10) digit_names) acc) in
    if nat_eq (n / 10) 0 then String.◌++◌ (digit n digit_names) acc else more

unfoldable pub decimal : ℕ → String
unfolding decimal_from
decimal n = decimal_from (suc n) n ""

unfoldable pub thin_attributes : Event → AccessObservation → Fields
thin_attributes event observation =
    field "source_event_id" (text event.event_id) (elim observation.method [
      | filesystem_read ↦ field "file_path" (text observation.value) end
      | shell_command ↦ field "command" (text observation.value) end
    ])

-- ThinAccessEvent
unfoldable pub thin_access_event : Event → AccessObservation → ℕ → Event
unfolding thin_attributes decimal
thin_access_event event observation index = record {
  event_id = String.◌++◌ event.event_id (String.◌++◌ ":access:" (decimal index));
  event_type = event.event_type;
  occurred_at = event.occurred_at;
  received_at = event.received_at;
  provider = event.provider;
  tool = event.tool;
  source_version = "";
  session_id = event.session_id;
  schema_version = event.schema_version;
  source_schema = "";
  privacy_level = event.privacy_level;
  attributes = thin_attributes event observation;
  provider_extensions = end;
}

-- The two loops of ThinAccessEvents: the events of one event's observations, and the next index.
unfoldable pub thin_observations : Event → List AccessObservation → ℕ → List Event
unfolding thin_access_event
thin_observations event [] index = []
thin_observations event (o ∷ rest) index =
    thin_access_event event o index ∷ thin_observations event rest (index + 1)

unfoldable pub after_observations : List AccessObservation → ℕ → ℕ
after_observations [] index = index
after_observations (o ∷ rest) index = after_observations rest (index + 1)

unfoldable pub thin_from : List Event → ℕ → List Event
unfolding thin_observations after_observations collect_accesses
thin_from [] index = []
thin_from (event ∷ events) index =
    thin_observations event (collect_accesses event) index
    ++ thin_from events (after_observations (collect_accesses event) index)

-- ThinAccessEvents
unfoldable pub thin_access_events : List Event → List Event
unfolding thin_from
thin_access_events events = thin_from events 0
