-- ===== src/Storage/Events.antt =====
-- internal/storage/sqlite/events.go, the insertion of saveEventTx, and the pages that
-- internal/api/events.go makes of the listing. A cursor is kept as what its text decodes to.
pub mod Laws
pub mod Lookup
pub mod Cuts
pub mod Pages
use ai_engineering_productiv.Prelude.{
  ℕ, zero, suc, String, Bool, true, false, ◌&&◌, ◌||◌, Option, none, some, List, [], ◌∷◌, ◌++◌,
  ◌==◌, if◌then◌else◌, ltb, leb, length, map, keep, take, text_lt, sort_by, contains,
}
use ai_engineering_productiv.Canonical.{Event}
use ai_engineering_productiv.Storage.Tables.{EventRow, row_before}

pub record EventCursor : Type 0 where
  pub occurred_at : ℕ
  pub event_id : String

pub record EventFilter : Type 0 where
  pub session_id : String
  pub event_types : List String
  pub cursor : Option EventCursor
  pub limit : ℕ

-- An error, or a result.
pub data Result {ℓ} (A : Type ℓ) : Type ℓ where
  failed : String → Result A
  done : A → Result A

-- `stamp` is the UTC text of an instant in the format of the column.
module _ (stamp : ℕ → String) where
  abbrev pub event_row : Event → EventRow
  event_row e = record {
    event_id = e.event_id;
    session_id = e.session_id;
    occurred_at = stamp e.occurred_at;
    event_type = e.event_type;
    event = e;
  }

  -- INSERT OR IGNORE, and whether a row was inserted.
  unfoldable pub save_event : List EventRow → Event → List EventRow × Bool
  save_event [] e = (event_row e ∷ [], true)
  save_event (row ∷ rows) e =
      let (rest, inserted) = save_event rows e in
      if row.event_id == e.event_id then (row ∷ rows, false) else (row ∷ rest, inserted)

  -- GetEvent
  unfoldable pub find_event : List EventRow → String → String → Option Event
  find_event [] session id = none
  find_event (row ∷ rows) session id =
      let rest = find_event rows session id in
      if row.session_id == session && row.event_id == id then some row.event else rest

  unfoldable pub get_event : List EventRow → String → String → Result (Option Event)
  unfolding find_event
  get_event rows session id =
      if session == ""
      then failed "event session ID is required"
      else if id == ""
      then failed "event ID is required"
      else done (find_event rows session id)

  abbrev pub is_after : Option EventCursor → EventRow → Bool
  is_after none row = true
  is_after (some c) row =
      text_lt (stamp c.occurred_at) row.occurred_at
      || (row.occurred_at == stamp c.occurred_at && text_lt c.event_id row.event_id)

  abbrev pub has_type : List String → EventRow → Bool
  has_type [] row = true
  has_type (t ∷ ts) row = contains (t ∷ ts) row.event_type

  abbrev pub is_listed : String → List String → EventRow → Bool
  is_listed session types row = row.session_id == session && has_type types row

  -- eventListQuery, and the rows it returns.
  unfoldable pub select_events : List EventRow → EventFilter → List EventRow
  select_events rows f = take (suc f.limit) (
      sort_by row_before
        (keep (λ r. is_listed f.session_id f.event_types r && is_after f.cursor r) rows))

  -- ListEvents
  unfoldable pub list_events : List EventRow → EventFilter → Result (List Event)
  unfolding select_events
  list_events rows f =
      if f.session_id == ""
      then failed "event session ID is required"
      else if ltb f.limit 1
      then failed "event query limit must be positive"
      else done (map (λ r. r.event) (select_events rows f))

abbrev pub cursor_of : Event → EventCursor
cursor_of e = record { occurred_at = e.occurred_at; event_id = e.event_id }

-- `page[len(page)-1]`
unfoldable pub last_of {ℓ} : {A : Type ℓ} → List A → Option A
last_of [] = none
last_of (x ∷ []) = some x
last_of (x ∷ y ∷ ys) = last_of (y ∷ ys)

abbrev pub next_cursor : Option Event → Option EventCursor
next_cursor none = none
next_cursor (some e) = some (cursor_of e)

-- eventPage
unfoldable pub event_page : List Event → ℕ → List Event × Option EventCursor
unfolding last_of
event_page events limit =
    if leb (length events) limit
    then (events, none)
    else (take limit events, next_cursor (last_of (take limit events)))
