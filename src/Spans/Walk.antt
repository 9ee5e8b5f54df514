-- ===== src/Spans/Walk.antt =====
-- Project and Page together: paging through the projection of any events.
use ai_engineering_productiv.Prelude.{
  ℕ, suc, ◌≤◌, String, ◌≡◌, ◌≢◌, refl, inl, inr, if◌then◌else◌, Option, none, some, List, [], ◌∷◌,
  map, ◌==◌, ◌||◌, eq_iff, arith, length, All, All-map, sort_by, sort_by-All, Apart-imp, Bool-cases,
  Option-cases,
}
use ai_engineering_productiv.Prelude.Int.{ℤ}
use ai_engineering_productiv.Canonical.{Event, as_object, get_field, object_or_empty}
use ai_engineering_productiv.Spans.{Record, record_from_event, make_record, identity_field}
use ai_engineering_productiv.Spans.Project.{
  key_of, absorb, add_record, finish_record, record_less, occurred_before, collect, project,
}
use ai_engineering_productiv.Spans.Project.Laws.{project-Distinct}
use ai_engineering_productiv.Spans.Page.Laws.{Separate, forget, walk, walk_pages}

abbrev Named : Record → Type 0
Named r = r.trace_id ≢ ""

add_record-Named :
    (rs : List Record) (new : Record) → All Named rs → Named new → All Named (add_record rs new)
unfolding add_record absorb
add_record-Named [] new h p = (p, tt)
add_record-Named (r ∷ rs) new (q, h) p = elim (Bool-cases (key_of r == key_of new)) [
  | inl e ↦ rw e (q, h)
  | inr e ↦ rw e (q, add_record-Named rs new h p)
]

distinct_keys : (a b : Record) → key_of a ≢ key_of b → Separate a b
distinct_keys a b h (t, s) = h (cc (t, s))

accepted-Named :
    (trace span : String) (made r : Record)
    → made.trace_id ≡ trace
    → (if trace == "" || span == "" then none else some made) ≡ some r
    → Named r
accepted-Named trace span made r t h = ground (arith, eq_iff trace "")

module _ (parse_int : String → Option ℤ) (format_time : ℕ → String)
    (parse_time : String → Option ℕ) where
  record_from_event-Named :
      (event : Event) (r : Record)
      → record_from_event parse_int format_time parse_time event ≡ some r
      → Named r
  unfolding record_from_event make_record
  record_from_event-Named event r h =
      elim (Option-cases (as_object (get_field event.provider_extensions "span"))) [
        | inl o ↦ absurd (cc (rw (o, record_from_event) at h))
        | inr (envelope, o) ↦
            let correlation = object_or_empty (get_field event.provider_extensions "correlation") in
            accepted-Named (identity_field envelope correlation "trace_id" "traceId")
              (identity_field envelope correlation "span_id" "spanId") _ r refl
              (rw (o, record_from_event) at h)
      ]

  collect-Named :
      (rs : List Record) (events : List Event)
      → All Named rs
      → All Named (collect parse_int format_time parse_time rs events)
  unfolding collect
  collect-Named rs [] h = h
  collect-Named rs (event ∷ events) h =
      elim (Option-cases (record_from_event parse_int format_time parse_time event)) [
        | inl n ↦ rw (n, collect) (collect-Named rs events h)
        | inr (r, s) ↦
            rw (s, collect)
              (collect-Named (add_record rs r) events
                (add_record-Named rs r h (record_from_event-Named event r s)))
      ]

  project-Named :
      (events : List Event) → All Named (project parse_int format_time parse_time events)
  unfolding project finish_record
  project-Named events =
      sort_by-All record_less Named _
        (All-map finish_record Named _ (collect-Named [] (sort_by occurred_before events) tt))

  -- Whatever the events and whatever the positive limit: a client that starts without a cursor and
  -- follows the cursors reads every span of the projection once, in the projection's order.
  pub walk-project :
      (events : List Event) (limit : ℕ)
      → 1 ≤ limit
      → map forget (
          walk
            (suc (length (project parse_int format_time parse_time events)))
            (project parse_int format_time parse_time events)
            limit
            ""
            "")
        ≡ map forget (project parse_int format_time parse_time events)
  walk-project events limit positive =
      let records = project parse_int format_time parse_time events in
      walk_pages records limit positive
        (Apart-imp (λ a b. key_of a ≢ key_of b) Separate distinct_keys records
          (project-Distinct parse_int format_time parse_time events))
        (project-Named events) (length records) (omega arith)
