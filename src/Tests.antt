-- ===== src/Tests.antt =====
-- Data for the examples: a few events, spans, configurations and price records.
mod Policies
mod Settings
mod Traces
mod Costs
mod Agents
mod Stored
mod Prompts
mod Dashboard
use ai_engineering_productiv.Prelude.{ℕ, String, Bool, true, Option, none, some, List, [], ◌∷◌}
use ai_engineering_productiv.Prelude.Int.{ℤ, pos}
use ai_engineering_productiv.Canonical.{Value, text, object, integer, Fields, end, field, Event}

-- Arguments that stand for the code of other packages.
abbrev pub same_rune : ℕ → ℕ
same_rune c = c

abbrev pub some_time : ℕ → String
some_time n = "2026-01-01T00:00:00Z"

abbrev pub parsed_time : String → Option ℕ
parsed_time s = some 63902822400000000000

abbrev pub no_integer : String → Option ℤ
no_integer s = none

abbrev pub always_compiles : String → Bool
always_compiles s = true

abbrev pub event_with : String → Fields → Fields → Event
event_with id attributes extensions = record {
  event_id = id;
  event_type = "api_request";
  occurred_at = 63902822400000000000;
  received_at = 63902822400000000000;
  provider = "anthropic";
  tool = "claude-code";
  source_version = "1.0";
  session_id = "s1";
  schema_version = "0.1.0";
  source_schema = "otlp";
  privacy_level = "operational";
  attributes = attributes;
  provider_extensions = extensions;
}

-- A read of a file, and a command on another one.
abbrev pub read_event : Event
read_event = event_with "e1" (field "file_path" (text "src/.env") end) end

abbrev pub command_event : Event
command_event =
    event_with "e2" end
      (field "tool_input" (object (field "command" (text "cat notes.txt") end)) end)

abbrev pub session : List Event
session = read_event ∷ command_event ∷ []

-- An event with a span, and the event of its child.
abbrev pub span_fields : String → String → Fields
span_fields span parent =
    field "span"
      (object (
        field "trace_id" (text "t1")
          (field "span_id" (text span) (field "parent_span_id" (text parent) end))))
      end

abbrev pub parent_event : Event
parent_event = event_with "e3" end (span_fields "a" "")

abbrev pub child_event : Event
child_event = event_with "e4" end (span_fields "b" "a")

abbrev pub trace : List Event
trace = parent_event ∷ child_event ∷ parent_event ∷ []
