-- ===== src/AgentTree.antt =====
-- internal/agenttree/tree.go: a session's sub-agent relations as trees. The index -1 of a missing
-- parent is `none`, and a map from keys is searched in the list it was built from.
pub mod Cycles
pub mod Nest
use Prim.Native.String
use ai_engineering_productiv.Prelude.{
  ℕ, suc, ◌+◌, String, Bool, true, false, ◌||◌, ◌&&◌, not, Option, none, some, List, [], ◌∷◌, ◌++◌,
  ◌==◌, if◌then◌else◌, ltb, length, contains,
}
use ai_engineering_productiv.Canonical.{
  Value, text, texts, array, object, objects, Values, nil, cons, Fields, Objects, no_more, one_more,
  get_field, text_or_empty, as_object, object_or_empty, Event, AgentRelation,
}

pub data ParentState : Type 0 where
  parent_agent_observed parent_agent_not_retained parent_conflict cycle : ParentState
  main_session_observed unknown : ParentState

pub record Evidence : Type 0 where
  pub span_id : Option String
  pub event_id : Option String
  pub session_id : Option String
  pub kind : String

-- A Node without its children, which only `nest` fills.
pub record Node : Type 0 where
  pub relation : AgentRelation
  pub parent_state : ParentState
  pub parent_candidates : List String
  pub evidence : List Evidence

-- `traceID + "\x00" + id`
unfoldable pub relation_key : String → String → String
relation_key trace id = String.◌++◌ trace (String.◌++◌ "\0" id)

abbrev pub or_skip : Value → List String → List String
or_skip (text s) rest = if s == "" then rest else s ∷ rest
or_skip _ rest = rest

-- stringList; of an []any only the texts that are not empty.
unfoldable pub texts_of : Values → List String
texts_of nil = []
texts_of (cons v vs) = or_skip v (texts_of vs)

unfoldable pub string_list : Value → List String
unfolding texts_of
string_list (texts ts) = ts
string_list (array vs) = texts_of vs
string_list _ = []

abbrev pub or_skip_object : Value → List Fields → List Fields
or_skip_object (object fs) rest = fs ∷ rest
or_skip_object _ rest = rest

unfoldable pub objects_of : Values → List Fields
objects_of nil = []
objects_of (cons v vs) = or_skip_object v (objects_of vs)

unfoldable pub all_objects : Objects → List Fields
all_objects no_more = []
all_objects (one_more fs rest) = fs ∷ all_objects rest

-- mapList
unfoldable pub map_list : Value → List Fields
unfolding objects_of all_objects
map_list (objects os) = all_objects os
map_list (array vs) = objects_of vs
map_list _ = []

unfoldable pub with_candidate : List String → String → List String
with_candidate candidates spawner =
    if spawner == "" || contains candidates spawner then candidates else candidates ++ spawner ∷ []

-- `byKey[key]`: the last index at which a relation has the key.
unfoldable pub index_of : List AgentRelation → ℕ → String → Option ℕ
index_of [] i key = none
index_of (r ∷ rs) i key = elim (index_of rs (suc i) key) [
  | some j ↦ some j
  | none ↦ if relation_key r.trace_id r.agent_id == key then some i else none
]

-- What classify sets, and the index it returns.
pub record Placement : Type 0 where
  pub state : ParentState
  pub candidates : List String
  pub parent : Option ℕ

abbrev pub placed : ParentState → List String → Option ℕ → Placement
placed state candidates parent = record { state = state; candidates = candidates; parent = parent }

-- The branch without a parent id: whether there is a span that spawned the agent, and its owner.
unfoldable pub classify_orphan : Bool → String → Placement
classify_orphan has_spawn spawner =
    if has_spawn && spawner == ""
    then placed main_session_observed [] none
    else if has_spawn
    then placed unknown (spawner ∷ []) none
    else placed unknown [] none

unfoldable pub classify_child : List AgentRelation → String → String → String → Placement
unfolding index_of relation_key
classify_child relations trace parent spawner =
    if not (spawner == "") && not (spawner == parent)
    then placed parent_conflict (parent ∷ spawner ∷ []) none
    else elim (index_of relations 0 (relation_key trace parent)) [
      | none ↦ placed parent_agent_not_retained [] none
      | some i ↦ placed parent_agent_observed [] (some i)
    ]

abbrev pub is_some {ℓ} : {A : Type ℓ} → Option A → Bool
is_some none = false
is_some (some x) = true

unfoldable pub classify : List AgentRelation → AgentRelation → Placement
unfolding string_list with_candidate classify_orphan classify_child get_field text_or_empty
    as_object object_or_empty
classify relations r =
    let spawn = get_field r.provider_extensions "spawn" in
    let spawner = text_or_empty (get_field (object_or_empty spawn) "agent_id") in
    let candidates = string_list (get_field r.provider_extensions "parent_agent_ids") in
    if ltb 1 (length candidates)
    then placed parent_conflict (with_candidate candidates spawner) none
    else elim (r.parent_agent_id) [
      | none ↦ classify_orphan (is_some (as_object spawn)) spawner
      | some parent ↦ classify_child relations r.trace_id parent spawner
    ]

-- spanEventIndex, as the search in it: the first event whose span has the key.
unfoldable pub span_event : List Event → String → Option String
unfolding get_field as_object text_or_empty relation_key
span_event [] key = none
span_event (event ∷ events) key =
    let rest = span_event events key in
    elim (as_object (get_field event.provider_extensions "span")) [
      | none ↦ rest
      | some span ↦
          let trace = text_or_empty (get_field span "trace_id") in
          let id = text_or_empty (get_field span "span_id") in
          if trace == "" || id == ""
          then rest
          else if relation_key trace id == key
          then some event.event_id
          else rest
    ]

unfoldable pub span_evidence : List Event → String → List String → List Evidence
unfolding span_event relation_key
span_evidence events trace [] = []
span_evidence events trace (id ∷ ids) =
    record {
      span_id = some id;
      event_id = span_event events (relation_key trace id);
      session_id = none;
      kind = "span";
    }
    ∷ span_evidence events trace ids

abbrev pub given_text : String → Option String
given_text s = if s == "" then none else some s

unfoldable pub event_evidence : List Fields → List Evidence
unfolding get_field text_or_empty
event_evidence [] = []
event_evidence (raw ∷ raws) =
    let rest = event_evidence raws in
    let id = text_or_empty (get_field raw "event_id") in
    let item : Evidence = record {
      span_id = none;
      event_id = some id;
      session_id = given_text (text_or_empty (get_field raw "session_id"));
      kind = "event";
    } in
    if id == "" then rest else item ∷ rest

unfoldable pub evidence_for : List Event → AgentRelation → List Evidence
unfolding span_evidence event_evidence string_list map_list get_field
evidence_for events r =
    span_evidence events r.trace_id (string_list (get_field r.provider_extensions "span_ids"))
    ++ event_evidence (map_list (get_field r.provider_extensions "evidence_events"))
