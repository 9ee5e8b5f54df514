-- ===== src/Spans/Project.antt =====
-- internal/spans/projection.go Project: one record for each span.
pub mod Laws
use ai_engineering_productiv.Prelude.{
  ℕ, String, Bool, true, false, ◌&&◌, ◌||◌, not, Option, none, some, List, [], ◌∷◌, ◌++◌, map, ◌==◌,
  if◌then◌else◌, ltb, nat_eq, any, contains, text_lt, sort_by,
}
use ai_engineering_productiv.Prelude.Int.{ℤ}
use ai_engineering_productiv.Canonical.{Event}
use ai_engineering_productiv.Spans.{Record, identity_key, record_from_event}

-- appendUnique: the set `seen` is that of the values.
unfoldable pub append_unique : List String → List String → List String
append_unique values [] = values
append_unique values (a ∷ additions) =
    let skipped = append_unique values additions in
    let taken = append_unique (values ++ a ∷ []) additions in
    if a == "" || contains values a then skipped else taken

unfoldable pub sorted_unique : List String → List String
unfolding append_unique
sorted_unique values = sort_by text_lt (append_unique [] values)

unfoldable pub record_less : Record → Record → Bool
record_less left right =
    let by_identity =
      if left.trace_id == right.trace_id
      then text_lt left.span_id right.span_id
      else text_lt left.trace_id right.trace_id in
    elim (left.start_at) [
      | none ↦ elim (right.start_at) [ none ↦ by_identity | some t ↦ false ]
      | some s ↦ elim (right.start_at) [
        | none ↦ true
        | some t ↦ if s == t then by_identity else text_lt s t
      ]
    ]

unfoldable pub occurred_before : Event → Event → Bool
occurred_before a b =
    if nat_eq a.occurred_at b.occurred_at
    then text_lt a.event_id b.event_id
    else ltb a.occurred_at b.occurred_at

abbrev pub key_of : Record → String
key_of r = identity_key r.trace_id r.span_id

unfoldable pub absorb : Record → Record → Record
unfolding append_unique
absorb existing new = record existing {
  source_event_ids = append_unique existing.source_event_ids new.source_event_ids;
  operation_ids = append_unique existing.operation_ids new.operation_ids;
}

-- The step of the loop on the map, kept as the list of its records in order of insertion.
unfoldable pub add_record : List Record → Record → List Record
unfolding absorb
add_record [] new = new ∷ []
add_record (r ∷ rs) new =
    let rest = add_record rs new in if key_of r == key_of new then absorb r new ∷ rs else r ∷ rest

unfoldable pub finish_record : Record → Record
unfolding sorted_unique
finish_record r = record r {
  source_event_ids = sorted_unique r.source_event_ids;
  operation_ids = sorted_unique r.operation_ids;
}

module _ (parse_int : String → Option ℤ) (format_time : ℕ → String)
    (parse_time : String → Option ℕ) where
  unfoldable pub collect : List Record → List Event → List Record
  unfolding add_record
  collect records [] = records
  collect records (event ∷ events) =
      elim (record_from_event parse_int format_time parse_time event) [
        | none ↦ collect records events
        | some new ↦ collect (add_record records new) events
      ]

  -- Project
  unfoldable pub project : List Event → List Record
  unfolding collect finish_record
  project events =
      sort_by record_less (map finish_record (collect [] (sort_by occurred_before events)))
