-- ===== src/Storage/Events/Pages.antt =====
-- Following the cursors of the pages through a session's timeline.
use mathlib.Core.Path.{subst}
use ai_engineering_productiv.Prelude.{
  ℕ, zero, suc, ◌≤◌, ◌<◌, String, ◌≡◌, ◌≢◌, ◌⊎◌, refl, sym, ap, ◌∙◌, inl, inr, arith, true, false,
  Option, none, some, List, [], ◌∷◌, ◌++◌, ◌==◌, ltb, leb, Bool-cases, length, keep, take, keep-All,
  keep-Apart, sort_by, sort_by-keep, sort_by-IsSorted, sort_by-All, All, Apart, Apart-imp,
}
use ai_engineering_productiv.Canonical.{Event}
use ai_engineering_productiv.Storage.Tables.{EventRow, row_before}
use ai_engineering_productiv.Storage.Events.{
  EventCursor, EventFilter, Result, failed, done, event_row, is_listed, is_after, select_events,
  list_events, cursor_of, event_page,
}
use ai_engineering_productiv.Storage.Events.Laws.{
  row_before_trans, row_before_irrefl, row_before_total, IsTable, is_after-row_before,
}
use ai_engineering_productiv.Storage.Events.Cuts.{
  keep-keep, All-middle, keep-true, keep-cong, end-append, append-append, moved, keep-behind,
  events_of, events_of-append, take-page, event_page-whole, event_page-cut,
}

abbrev pub prepend : List Event → Result (List Event) → Result (List Event)
prepend page (failed m) = failed m
prepend page (done rest) = done (page ++ rest)

abbrev pub go_on :
    (Option EventCursor → Result (List Event))
    → List Event × Option EventCursor
    → Result (List Event)
go_on again (page, none) = done page
go_on again (page, some c) = prepend page (again (some c))

unfoldable pub turn :
    ℕ → (Option EventCursor → Result (List Event)) → Result (List Event) → Result (List Event)
unfolding event_page
turn limit again (failed m) = failed m
turn limit again (done events) = go_on again (event_page events limit)

module _ (stamp : ℕ → String) (rows : List EventRow) (session : String) (types : List String)
    (limit : ℕ) where
  abbrev pub filter_from : Option EventCursor → EventFilter
  filter_from cursor = record {
    session_id = session;
    event_types = types;
    cursor = cursor;
    limit = limit;
  }

  -- A client that asks for a page after the other, as long as there is a cursor.
  unfoldable pub follow : ℕ → Option EventCursor → Result (List Event)
  unfolding list_events
  follow zero cursor = done []
  follow (suc fuel) cursor = turn limit (follow fuel) (list_events stamp rows (filter_from cursor))

  -- The session's rows of the given types, in the order of the table.
  abbrev pub timeline : List EventRow
  timeline = sort_by row_before (keep (is_listed stamp session types) rows)

module _ (stamp : ℕ → String) (rows : List EventRow) (session : String) (types : List String)
    (limit : ℕ) (table : IsTable stamp rows) where
  comparable :
      Apart
        (λ a b. (row_before a b ≡ true) ⊎ (row_before b a ≡ true))
        (keep (is_listed stamp session types) rows)
  comparable =
      keep-Apart (λ a b. (row_before a b ≡ true) ⊎ (row_before b a ≡ true))
        (is_listed stamp session types) rows
        (Apart-imp (λ a b. a.event_id ≢ b.event_id)
          (λ a b. (row_before a b ≡ true) ⊎ (row_before b a ≡ true)) row_before_total rows
          table.keys)

  timeline-IsSorted : Apart (λ a b. row_before a b ≡ true) (timeline stamp rows session types limit)
  timeline-IsSorted =
      sort_by-IsSorted row_before row_before_trans row_before_irrefl
        (keep (is_listed stamp session types) rows) comparable

  timeline-columns :
      All (λ r. r ≡ event_row stamp r.event) (timeline stamp rows session types limit)
  timeline-columns =
      sort_by-All row_before (λ r. r ≡ event_row stamp r.event)
        (keep (is_listed stamp session types) rows)
        (keep-All (is_listed stamp session types) (λ r. r ≡ event_row stamp r.event) rows
          table.columns)

  -- The cursor is the one that stands between the two parts of the timeline.
  abbrev IsBetween : Option EventCursor → List EventRow → Type 0
  IsBetween cursor pre =
      ((cursor ≡ none) × (pre ≡ []))
      ⊎ ((p : List EventRow) × (m : EventRow) × (pre ≡ p ++ m ∷ [])
          × (cursor ≡ some (cursor_of m.event)))

  behind :
      (cursor : Option EventCursor) (pre rest : List EventRow)
      → timeline stamp rows session types limit ≡ pre ++ rest
      → IsBetween cursor pre
      → keep (is_after stamp cursor) (timeline stamp rows session types limit) ≡ rest
  behind cursor pre rest e (inl (c, n)) =
      rw c (keep-true (timeline stamp rows session types limit) ∙ e ∙ ap (λ z. z ++ rest) n)
  behind cursor pre rest e (inr (p, m, q, c)) =
      let whole : timeline stamp rows session types limit ≡ p ++ m ∷ rest =
        e ∙ ap (λ z. z ++ rest) q ∙ end-append p m rest in
      let column : m ≡ event_row stamp m.event =
        All-middle (λ r. r ≡ event_row stamp r.event) p m rest
          (subst (All (λ r. r ≡ event_row stamp r.event)) whole timeline-columns) in
      let sorted : Apart (λ a b. row_before a b ≡ true) (p ++ m ∷ rest) =
        subst (Apart (λ a b. row_before a b ≡ true)) whole timeline-IsSorted in
      rw c (
        keep-cong (is_after stamp (some (cursor_of m.event))) (row_before m)
          (λ b. is_after-row_before stamp m b column) (timeline stamp rows session types limit)
        ∙ ap (keep (row_before m)) whole
        ∙ keep-behind p m rest sorted)

  select_events-page :
      (cursor : Option EventCursor) (pre rest : List EventRow)
      → timeline stamp rows session types limit ≡ pre ++ rest
      → IsBetween cursor pre
      → select_events stamp rows (filter_from stamp rows session types limit cursor)
        ≡ take (suc limit) rest
  unfolding select_events
  select_events-page cursor pre rest e h = ap (take (suc limit)) (
      ap (sort_by row_before)
        (keep-keep (is_listed stamp session types) (is_after stamp cursor) rows)
      ∙ sort_by-keep row_before row_before_trans row_before_irrefl (is_after stamp cursor)
          (keep (is_listed stamp session types) rows) comparable
      ∙ behind cursor pre rest e h)

  listed :
      (cursor : Option EventCursor) (pre rest : List EventRow)
      → (session == "") ≡ false
      → 1 ≤ limit
      → timeline stamp rows session types limit ≡ pre ++ rest
      → IsBetween cursor pre
      → list_events stamp rows (filter_from stamp rows session types limit cursor)
        ≡ done (events_of (take (suc limit) rest))
  unfolding list_events
  listed cursor pre rest named positive e h =
      let some_limit : ltb limit 1 ≡ false = ground arith in
      rw (named, some_limit) (ap (λ z. done (events_of z)) (select_events-page cursor pre rest e h))

  follow-rest :
      (fuel : ℕ) (cursor : Option EventCursor) (pre rest : List EventRow)
      → (session == "") ≡ false
      → 1 ≤ limit
      → timeline stamp rows session types limit ≡ pre ++ rest
      → IsBetween cursor pre
      → length rest < fuel
      → follow stamp rows session types limit fuel cursor ≡ done (events_of rest)
  unfolding follow turn
  follow-rest zero cursor pre rest named positive e h enough = absurd (omega arith)
  follow-rest (suc fuel) cursor pre rest named positive e h enough =
      let again = follow stamp rows session types limit fuel in
      ap (turn limit again) (listed cursor pre rest named positive e h)
      ∙ elim (Bool-cases (leb (length rest) limit)) [
        | inl k ↦ ap (go_on again) (event_page-whole rest limit (ground arith))
        | inr k ↦
            let (a, m, b, q, t, l) = take-page limit rest positive (ground arith) in
            ap (go_on again) (event_page-cut rest a m limit (ground arith) t)
            ∙ ap (prepend (events_of (a ++ m ∷ []))) (
                follow-rest fuel (some (cursor_of m.event)) (pre ++ (a ++ m ∷ [])) b named positive
                  (e ∙ ap (λ z. pre ++ z) q ∙ moved pre a m b)
                  (inr (pre ++ a, m, append-append pre a (m ∷ []), refl)) (omega arith))
            ∙ ap done (events_of-append a m b ∙ ap events_of (sym q))
      ]

  -- With a limit of one or more, and for a named session: the pages that a client gets by following
  -- the cursors from the start are together the session's events of the wanted types, each of them
  -- once and in the order of the table, after no more requests than there are rows, and one.
  pub follow-timeline :
      (fuel : ℕ)
      → (session == "") ≡ false
      → 1 ≤ limit
      → length (timeline stamp rows session types limit) < fuel
      → follow stamp rows session types limit fuel none
        ≡ done (events_of (timeline stamp rows session types limit))
  follow-timeline fuel named positive enough =
      follow-rest fuel none [] (timeline stamp rows session types limit) named positive refl
        (inl (refl, refl)) enough
