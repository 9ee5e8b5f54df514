-- ===== src/Tests/Dashboard.antt =====
-- The theorem of Insights.Latest at an example.
use ai_engineering_productiv.Prelude.{◌≡◌, ◌≢◌, List, [], ◌∷◌, All, Has, Apart}
use ai_engineering_productiv.Canonical.{field, end, text, Event}
use ai_engineering_productiv.Insights.Latest.{states_of, latest_observed_states}
use ai_engineering_productiv.Insights.Latest.Laws.{IsLatest, latest_observed_states_lem}
use ai_engineering_productiv.Insights.States.{governance_states_from_event, governance_state_key}
use ai_engineering_productiv.Tests.{event_with}

-- The same mode, observed twice.
abbrev observations : List Event
observations =
    event_with "e6" (field "auth_mode" (text "api_key") end) end
    ∷ event_with "e7" (field "auth_mode" (text "api_key") end) end
    ∷ []

latest_observed_states_lem_example :
    All
      (IsLatest governance_state_key
        (λ s. s.observed_at)
        (λ s. s.source_event_id)
        (states_of governance_state_key
          (λ s. s.observed_at)
          (λ s. s.source_event_id)
          governance_states_from_event
          observations))
      (latest_observed_states governance_state_key
        (λ s. s.observed_at)
        (λ s. s.source_event_id)
        governance_states_from_event
        observations)
    × All
        (λ u.
          Has
            (λ r. governance_state_key r ≡ governance_state_key u)
            (latest_observed_states governance_state_key
              (λ s. s.observed_at)
              (λ s. s.source_event_id)
              governance_states_from_event
              observations))
        (states_of governance_state_key
          (λ s. s.observed_at)
          (λ s. s.source_event_id)
          governance_states_from_event
          observations)
    × Apart
        (λ a b. governance_state_key a ≢ governance_state_key b)
        (latest_observed_states governance_state_key
          (λ s. s.observed_at)
          (λ s. s.source_event_id)
          governance_states_from_event
          observations)
latest_observed_states_lem_example =
    latest_observed_states_lem governance_state_key (λ s. s.observed_at) (λ s. s.source_event_id)
      governance_states_from_event observations
