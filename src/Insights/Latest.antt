-- ===== src/Insights/Latest.antt =====
-- internal/insights/observed_states.go: the latest state for each key. The map from keys is the list
-- of its states; what is returned is sorted.
pub mod Laws
use ai_engineering_productiv.Prelude.{
  ℕ, String, Bool, true, false, ◌&&◌, ◌||◌, List, [], ◌∷◌, ◌++◌, ◌==◌, if◌then◌else◌, ltb, nat_eq,
  text_lt, sort_by,
}
use ai_engineering_productiv.Canonical.{Event}

module _ {A : Type 0} (key : A → String) (observed_at : A → ℕ) (source_event_id : A → String) where
  -- stateIsLater
  unfoldable pub state_is_later : A → A → Bool
  state_is_later state current =
      ltb (observed_at current) (observed_at state)
      || (nat_eq (observed_at state) (observed_at current)
          && text_lt (source_event_id current) (source_event_id state))

  -- One pass of the inner loop.
  unfoldable pub put_latest : List A → A → List A
  unfolding state_is_later
  put_latest [] state = state ∷ []
  put_latest (current ∷ others) state =
      let rest = put_latest others state in
      if key current == key state
      then (if state_is_later state current then state else current) ∷ others
      else current ∷ rest

  unfoldable pub put_all_latest : List A → List A → List A
  unfolding put_latest
  put_all_latest latest [] = latest
  put_all_latest latest (state ∷ states) = put_all_latest (put_latest latest state) states

  abbrev pub shown_before : A → A → Bool
  shown_before a b =
      if nat_eq (observed_at a) (observed_at b)
      then text_lt (key a) (key b)
      else ltb (observed_at b) (observed_at a)

  unfoldable pub states_of : (Event → List A) → List Event → List A
  states_of states_from_event [] = []
  states_of states_from_event (e ∷ es) = states_from_event e ++ states_of states_from_event es

  -- latestObservedStates
  unfoldable pub latest_observed_states : (Event → List A) → List Event → List A
  unfolding put_all_latest states_of
  latest_observed_states states_from_event events =
      sort_by shown_before (put_all_latest [] (states_of states_from_event events))
