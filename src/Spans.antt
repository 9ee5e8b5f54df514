-- ===== src/Spans.antt =====
-- internal/spans: the flat, paged view of the retained spans (projection.go, cursor.go).
-- RFC3339Nano formatting and parsing and strconv.ParseInt are arguments.
pub mod Page
pub mod Project
pub mod Walk
use Prim.Native.String
use ai_engineering_productiv.Prelude.{
  ℕ, ◌+◌, ◌-◌, ◌*◌, ◌/◌, ◌^◌, String, Bool, true, false, ◌||◌, Option, none, some, List, [], ◌∷◌,
  ◌==◌, if◌then◌else◌, ltb, trim_space,
}
use ai_engineering_productiv.Prelude.Int.{ℤ, pos, negsuc}
use ai_engineering_productiv.Canonical.{
  Value, null, boolean, integer, float, json_number, text, texts, array, object, objects, Fields,
  get_field, text_or_empty, as_object, object_or_empty, Event,
}

pub data ParentAvailability : Type 0 where
  unset : ParentAvailability
  root : ParentAvailability
  loaded : ParentAvailability
  not_loaded : ParentAvailability
  absent : ParentAvailability

pub data IntervalAvailability : Type 0 where
  available : IntervalAvailability
  missing : IntervalAvailability
  invalid : IntervalAvailability

pub record Record : Type 0 where
  pub trace_id : String
  pub span_id : String
  pub parent_span_id : Option String
  pub parent_availability : ParentAvailability
  pub name : Option String
  pub start_at : Option String
  pub end_at : Option String
  pub duration_ms : Option ℕ
  pub interval_availability : IntervalAvailability
  pub status_code : Option ℤ
  pub provider : String
  pub tool : String
  pub source_version : String
  pub source_event_ids : List String
  pub operation_ids : List String

-- `trace + "\x00" + id`, the key of the maps.
unfoldable pub identity_key : String → String → String
identity_key trace id = String.◌++◌ trace (String.◌++◌ "\0" id)

-- `a == "" ? b : a`
abbrev pub or_else : String → String → String
or_else a b = if a == "" then b else a

unfoldable pub text_value : Value → String
unfolding text_or_empty
text_value v = trim_space (text_or_empty v)

-- nil for the empty text
abbrev pub non_empty : String → Option String
non_empty s = if s == "" then none else some s

unfoldable pub operation_ids_of : Fields → List String
unfolding text_value get_field
operation_ids_of attributes =
    let value = text_value (get_field attributes "operation_id") in
    if value == "" then [] else value ∷ []

-- time.Unix(0, 0), counted as instants are.
abbrev pub unix_epoch : ℕ
unix_epoch = 62135596800 * 1000000000

-- An identity, read from the envelope under either spelling and then from the correlation.
unfoldable pub identity_field : Fields → Fields → String → String → String
unfolding text_value get_field
identity_field envelope correlation key camel_key =
    or_else
      (or_else (text_value (get_field envelope key)) (text_value (get_field envelope camel_key)))
      (text_value (get_field correlation key))

module _ (parse_int : String → Option ℤ) (format_time : ℕ → String)
    (parse_time : String → Option ℕ) where
  unfoldable pub int64_value : Value → Option ℤ
  int64_value (integer n) = some n
  int64_value (float n) = n
  int64_value (text s) = parse_int (trim_space s)
  int64_value _ = none

  -- The loop over the keys: the first positive number of nanoseconds.
  unfoldable pub span_time : Fields → List String → Option String
  unfolding int64_value get_field
  span_time envelope [] = none
  span_time envelope (key ∷ keys) =
      let rest = span_time envelope keys in
      elim (int64_value (get_field envelope key)) [
        | none ↦ rest
        | some (pos n) ↦ if ltb 0 n then some (format_time (unix_epoch + n)) else rest
        | some (negsuc n) ↦ rest
      ]

  -- Time.Sub saturates at the largest duration.
  abbrev pub max_duration : ℕ
  max_duration = 2 ^ 63 - 1

  unfoldable pub span_duration : Option String → Option String → Option ℕ × IntervalAvailability
  span_duration none end_at = (none, missing)
  span_duration (some s) none = (none, missing)
  span_duration (some s) (some e) = elim (parse_time s) [
    | none ↦ (none, invalid)
    | some a ↦ elim (parse_time e) [
      | none ↦ (none, invalid)
      | some b ↦ if ltb b a then (none, invalid) else (
        some ((if ltb max_duration (b - a) then max_duration else b - a) / 1000000),
        available,
      )
    ]
  ]

  unfoldable pub span_status_code : Fields → Option ℤ
  unfolding int64_value get_field as_object
  span_status_code envelope = elim (int64_value (get_field envelope "status_code")) [
    | some n ↦ some n
    | none ↦ elim (as_object (get_field envelope "status")) [
      | none ↦ none
      | some status ↦ int64_value (get_field status "code")
    ]
  ]

  -- Without a start in the envelope, the time of the event, unless that is Go's zero time.
  abbrev start_or_occurred : Option String → ℕ → Option String
  start_or_occurred (some s) occurred = some s
  start_or_occurred none occurred = if ltb 0 occurred then some (format_time occurred) else none

  -- The record, once the envelope and both identities are there.
  unfoldable pub make_record : Event → Fields → Fields → String → String → Record
  unfolding text_value get_field identity_field span_time span_duration span_status_code
      operation_ids_of
  make_record event envelope correlation trace span =
      let start =
        start_or_occurred (span_time envelope ("start_unix_nano" ∷ "startTimeUnixNano" ∷ []))
          event.occurred_at in
      let finish = span_time envelope ("end_unix_nano" ∷ "endTimeUnixNano" ∷ []) in
      let interval = span_duration start finish in
      record {
        trace_id = trace;
        span_id = span;
        parent_span_id =
            non_empty (identity_field envelope correlation "parent_span_id" "parentSpanId");
        parent_availability = unset;
        name = non_empty (or_else (text_value (get_field envelope "name")) event.event_type);
        start_at = start;
        end_at = finish;
        duration_ms = interval.0;
        interval_availability = interval.1;
        status_code = span_status_code envelope;
        provider = event.provider;
        tool = event.tool;
        source_version = event.source_version;
        source_event_ids = event.event_id ∷ [];
        operation_ids = operation_ids_of event.attributes;
      }

  unfoldable pub record_from_event : Event → Option Record
  unfolding get_field as_object object_or_empty identity_field make_record
  record_from_event event = elim (as_object (get_field event.provider_extensions "span")) [
    | none ↦ none
    | some envelope ↦
        let correlation = object_or_empty (get_field event.provider_extensions "correlation") in
        let trace = identity_field envelope correlation "trace_id" "traceId" in
        let span = identity_field envelope correlation "span_id" "spanId" in
        if trace == "" || span == ""
        then none
        else some (make_record event envelope correlation trace span)
  ]
