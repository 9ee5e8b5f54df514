-- ===== src/Spans/Project/Laws.antt =====
-- Project keeps one record for each span, with the evidence of all its events.
use ai_engineering_productiv.Prelude.{
  ℕ, String, ◌≡◌, ◌≢◌, refl, sym, ◌↔◌, ◌⊎◌, inl, inr, Option, none, some, List, [], ◌∷◌, ◌++◌, ◌==◌,
  map, arith, eq_iff, Bool-cases, Option-cases, All, Has, Has-append, Has-iff, Has-map, Apart-map,
  contains_iff, text_lt, sort_by, sort_by-Has, sort_by-Apart, Apart,
}
use ai_engineering_productiv.Prelude.Int.{ℤ}
use ai_engineering_productiv.Canonical.{Event}
use ai_engineering_productiv.Spans.{Record, record_from_event, make_record}
use ai_engineering_productiv.Spans.Project.{
  append_unique, sorted_unique, record_less, occurred_before, key_of, absorb, add_record,
  finish_record, collect, project,
}

module _ (e : String) (given : e ≢ "") where
  abbrev ListsIt : List String → Type 0
  ListsIt = Has (λ i. i ≡ e)

  append_unique-Has :
      (values additions : List String)
      → ListsIt (append_unique values additions) ↔ (ListsIt values ⊎ ListsIt additions)
  unfolding append_unique
  append_unique-Has values [] = (λ h. inl h, λ h. elim h [ inl k ↦ k | inr k ↦ absurd k ])
  append_unique-Has values (a ∷ additions) = ground (
    arith,
    append_unique-Has values additions,
    append_unique-Has (values ++ a ∷ []) additions,
    Has-append (λ i. i ≡ e) values (a ∷ []),
    contains_iff values a,
    contains_iff values e,
    eq_iff a "",
  )

  sorted_unique-Has : (values : List String) → ListsIt (sorted_unique values) ↔ ListsIt values
  unfolding sorted_unique
  sorted_unique-Has values = ground (
    arith,
    sort_by-Has text_lt (λ i. i ≡ e) (append_unique [] values),
    append_unique-Has [] values,
  )

  abbrev Evidence : String → Record → Type 0
  Evidence key r = (key_of r ≡ key) × ListsIt r.source_event_ids

  add_record-Has :
      (key : String) (rs : List Record) (new : Record)
      → Has (Evidence key) (add_record rs new) ↔ (Has (Evidence key) rs ⊎ Evidence key new)
  unfolding add_record absorb
  add_record-Has key [] new = ground arith
  add_record-Has key (r ∷ rs) new = ground (
    arith,
    add_record-Has key rs new,
    eq_iff (key_of r) (key_of new),
    append_unique-Has r.source_event_ids new.source_event_ids,
  )

  finish_record-Evidence :
      (key : String) (r : Record) → Evidence key (finish_record r) ↔ Evidence key r
  unfolding finish_record
  finish_record-Evidence key r = ground (arith, sorted_unique-Has r.source_event_ids)

absorb-key_of : (r new : Record) → key_of (absorb r new) ≡ key_of r
unfolding absorb
absorb-key_of r new = refl

add_record-All :
    (P : String → Type 0) (rs : List Record) (new : Record)
    → All (λ r. P (key_of r)) rs
    → P (key_of new)
    → All (λ r. P (key_of r)) (add_record rs new)
unfolding add_record absorb
add_record-All P [] new h p = (p, tt)
add_record-All P (r ∷ rs) new (q, h) p = elim (Bool-cases (key_of r == key_of new)) [
  | inl e ↦ rw e (q, h)
  | inr e ↦ rw e (q, add_record-All P rs new h p)
]

abbrev Distinct : List Record → Type 0
Distinct = Apart (λ a b. key_of a ≢ key_of b)

add_record-Distinct : (rs : List Record) (new : Record) → Distinct rs → Distinct (add_record rs new)
unfolding add_record absorb
add_record-Distinct [] new h = (tt, tt)
add_record-Distinct (r ∷ rs) new (q, h) = elim (Bool-cases (key_of r == key_of new)) [
  | inl e ↦ rw e (q, h)
  | inr e ↦ rw e (
    add_record-All (λ k. key_of r ≢ k) rs new q (ground (arith, eq_iff (key_of r) (key_of new))),
    add_record-Distinct rs new h,
  )
]

module _ (parse_int : String → Option ℤ) (format_time : ℕ → String)
    (parse_time : String → Option ℕ) where
  abbrev pub record_of : Event → Option Record
  record_of = record_from_event parse_int format_time parse_time

  -- The event carries a span with the key, and has the id.
  abbrev pub Observes : String → String → Event → Type 0
  Observes key e event =
      (r : Record) × ((record_of event ≡ some r) × (key_of r ≡ key) × (event.event_id ≡ e))

  record_of-ids :
      (event : Event) (r : Record)
      → record_of event ≡ some r
      → r.source_event_ids ≡ event.event_id ∷ []
  unfolding record_from_event make_record
  record_of-ids event r h = ground arith

  Observes-iff :
      (e : String) (given : e ≢ "") (key : String) (event : Event) (r : Record)
      → record_of event ≡ some r
      → Evidence e given key r ↔ Observes key e event
  Observes-iff e given key event r s =
      let ids = record_of-ids event r s in
      (
        λ (k, listed). (r, (s, k, elim (rw ids at listed) [ inl q ↦ q | inr q ↦ absurd q ])),
        λ (r2, (s2, k, q)). ground (arith, record_of-ids event r s),
      )

  abbrev collected : List Record → List Event → List Record
  collected = collect parse_int format_time parse_time

  collect-skips :
      (rs : List Record) (event : Event) (events : List Event)
      → record_of event ≡ none
      → collected rs (event ∷ events) ≡ collected rs events
  unfolding collect
  collect-skips rs event events n = rw (n, collect) refl

  collect-adds :
      (rs : List Record) (event : Event) (events : List Event) (r : Record)
      → record_of event ≡ some r
      → collected rs (event ∷ events) ≡ collected (add_record rs r) events
  unfolding collect
  collect-adds rs event events r s = rw (s, collect) refl

  collect-Distinct :
      (rs : List Record) (events : List Event) → Distinct rs → Distinct (collected rs events)
  unfolding collect
  collect-Distinct rs [] h = h
  collect-Distinct rs (event ∷ events) h = elim (Option-cases (record_of event)) [
    | inl n ↦ rw (collect-skips rs event events n) (collect-Distinct rs events h)
    | inr (r, s) ↦
        rw (collect-adds rs event events r s)
          (collect-Distinct (add_record rs r) events (add_record-Distinct rs r h))
  ]

  collect-Has :
      (e : String) (given : e ≢ "") (key : String) (rs : List Record) (events : List Event)
      → Has (Evidence e given key) (collected rs events)
        ↔ (Has (Evidence e given key) rs ⊎ Has (Observes key e) events)
  unfolding collect
  collect-Has e given key rs [] = (λ h. inl h, λ h. elim h [ inl k ↦ k | inr k ↦ absurd k ])
  collect-Has e given key rs (event ∷ events) = elim (Option-cases (record_of event)) [
    | inl n ↦ rw (collect-skips rs event events n) (
        let i = collect-Has e given key rs events in
        (
          λ h. elim (i.0 h) [ inl k ↦ inl k | inr k ↦ inr (inr k) ],
          λ h. elim h [
            | inl k ↦ i.1 (inl k)
            | inr (inl (r, o)) ↦ absurd (cc (n, o.0))
            | inr (inr k) ↦ i.1 (inr k)
          ],
        ))
    | inr (r, s) ↦ rw (collect-adds rs event events r s) (
        ground (
          arith,
          collect-Has e given key (add_record rs r) events,
          add_record-Has e given key rs r,
          Observes-iff e given key event r s,
        ))
  ]

  -- Whatever the events, no two projected records have one key.
  pub project-Distinct :
      (events : List Event) → Distinct (project parse_int format_time parse_time events)
  unfolding project finish_record
  project-Distinct events =
      sort_by-Apart record_less (λ a b. key_of a ≢ key_of b) (λ a b h e. h (sym e)) _
        (Apart-map finish_record _ _ (collect-Distinct [] (sort_by occurred_before events) tt))

  -- For an event id that is not empty: a projected record with the key lists the id as a source
  -- exactly when some event with this id carries a span with the key.
  pub project_evidence :
      (events : List Event) (key e : String)
      → e ≢ ""
      → Has
          (λ r. (key_of r ≡ key) × Has (λ i. i ≡ e) r.source_event_ids)
          (project parse_int format_time parse_time events)
        ↔ Has (Observes key e) events
  unfolding project
  project_evidence events key e given =
      let ordered = sort_by occurred_before events in
      let records = collected [] ordered in
      ground (
        arith,
        sort_by-Has record_less (Evidence e given key) (map finish_record records),
        Has-map finish_record (Evidence e given key) records,
        Has-iff (λ r. Evidence e given key (finish_record r)) (Evidence e given key)
            (finish_record-Evidence e given key) records,
        collect-Has e given key [] ordered,
        sort_by-Has occurred_before (Observes key e) events,
      )
