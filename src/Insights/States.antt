-- ===== src/Insights/States.antt =====
-- internal/insights/governance_states.go and integrations.go: the states that an event shows.
use Prim.Native.String
use ai_engineering_productiv.Prelude.{
  ℕ, String, Bool, false, Option, none, some, List, [], ◌∷◌, ◌++◌, ◌==◌, if◌then◌else◌, trim_space,
}
use ai_engineering_productiv.Canonical.{as_object, text_or_empty, Fields, get_field, Event}
use ai_engineering_productiv.Insights.Latest.{latest_observed_states}

pub record GovernanceState : Type 0 where
  pub provider : String
  pub tool : String
  pub session_id : String
  pub kind : String
  pub value : String
  pub phase : Option String
  pub provenance : String
  pub source_event_id : String
  pub observed_at : ℕ

pub record IntegrationState : Type 0 where
  pub provider : String
  pub tool : String
  pub kind : String
  pub name : Option String
  pub state : String
  pub provenance : String
  pub source_event_id : String
  pub observed_at : ℕ

abbrev given : String → Option String
given s = if s == "" then none else some s

-- observedAttribute
unfoldable pub observed_attribute : Fields → String → Option String
unfolding text_or_empty get_field trim_space
observed_attribute attributes key = given (trim_space (text_or_empty (get_field attributes key)))

unfoldable pub new_governance_state : Event → String → String → String → GovernanceState
unfolding trim_space
new_governance_state event kind value phase = record {
  provider = event.provider;
  tool = event.tool;
  session_id = event.session_id;
  kind = kind;
  value = value;
  phase = given (trim_space phase);
  provenance = "observed";
  source_event_id = event.event_id;
  observed_at = event.occurred_at;
}

unfoldable pub attribute_states : Event → List String → List GovernanceState
unfolding observed_attribute new_governance_state
attribute_states event [] = []
attribute_states event (kind ∷ kinds) =
    let rest = attribute_states event kinds in
    elim (observed_attribute event.attributes kind) [
      | none ↦ rest
      | some value ↦ new_governance_state event kind value "" ∷ rest
    ]

abbrev or_empty : Option String → String
or_empty none = ""
or_empty (some s) = s

abbrev is_recovery : Option String → Bool
is_recovery none = false
is_recovery (some kind) = kind == "auth_recovery"

unfoldable pub recovery_states : Event → List GovernanceState
unfolding observed_attribute new_governance_state
recovery_states event =
    if is_recovery (observed_attribute event.attributes "lifecycle_kind")
    then elim (observed_attribute event.attributes "lifecycle_status") [
      | none ↦ []
      | some status ↦
          new_governance_state event "auth_recovery" status
            (or_empty (observed_attribute event.attributes "lifecycle_phase"))
          ∷ []
    ]
    else []

-- governanceStatesFromEvent
unfoldable pub governance_states_from_event : Event → List GovernanceState
unfolding attribute_states recovery_states
governance_states_from_event event =
    attribute_states event ("approval_policy" ∷ "sandbox_policy" ∷ "auth_mode" ∷ [])
    ++ recovery_states event

-- strings.Join with a NUL
unfoldable pub join_key : List String → String
join_key [] = ""
join_key (s ∷ []) = s
join_key (s ∷ t ∷ ts) = String.◌++◌ s (String.◌++◌ "\0" (join_key (t ∷ ts)))

unfoldable pub governance_state_key : GovernanceState → String
unfolding join_key
governance_state_key s =
    join_key (s.provider ∷ s.tool ∷ s.session_id ∷ s.kind ∷ s.value ∷ or_empty s.phase ∷ [])

-- GovernanceStatesFromEvents
unfoldable pub governance_states_from_events : List Event → List GovernanceState
unfolding latest_observed_states governance_states_from_event governance_state_key
governance_states_from_events events =
    latest_observed_states governance_state_key (λ s. s.observed_at) (λ s. s.source_event_id)
      governance_states_from_event events

unfoldable pub new_integration_state : Event → String → String → String → IntegrationState
unfolding trim_space
new_integration_state event kind name state = record {
  provider = event.provider;
  tool = event.tool;
  kind = kind;
  name = given (trim_space name);
  state = state;
  provenance = "observed";
  source_event_id = event.event_id;
  observed_at = event.occurred_at;
}

abbrev both : Option String → Option String → Option (String × String)
both (some a) (some b) = some (a, b)
both _ _ = none

-- integrationStateFromEvent
unfoldable pub integration_state_from_event : Event → Option IntegrationState
unfolding observed_attribute new_integration_state as_object text_or_empty get_field trim_space
integration_state_from_event event =
    let name = or_empty (observed_attribute event.attributes "integration_name") in
    elim (both (observed_attribute event.attributes "integration_kind")
      (observed_attribute event.attributes "integration_state")) [
        | some (kind, state) ↦ some (new_integration_state event kind name state)
        | none ↦ elim (as_object (get_field event.provider_extensions "mcp_call")) [
          | none ↦ none
          | some mcp ↦ some (
              new_integration_state event "mcp"
                (trim_space (text_or_empty (get_field mcp "server_name"))) "used")
        ]
      ]

unfoldable pub integration_states_from_event : Event → List IntegrationState
unfolding integration_state_from_event
integration_states_from_event event = elim (integration_state_from_event event) [
  | none ↦ []
  | some s ↦ s ∷ []
]

unfoldable pub integration_state_key : IntegrationState → String
unfolding join_key
integration_state_key s = join_key (s.provider ∷ s.tool ∷ s.kind ∷ or_empty s.name ∷ s.state ∷ [])

-- IntegrationStatesFromEvents
unfoldable pub integration_states_from_events : List Event → List IntegrationState
unfolding latest_observed_states integration_states_from_event integration_state_key
integration_states_from_events events =
    latest_observed_states integration_state_key (λ s. s.observed_at) (λ s. s.source_event_id)
      integration_states_from_event events
