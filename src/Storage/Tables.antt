-- ===== src/Storage/Tables.antt =====
-- internal/storage/sqlite: the tables, and what deletes from them (retention.go, delete_all.go,
-- DeleteSession). A deleted session takes its rows of every table along.
pub mod Laws
pub mod Retention
use ai_engineering_productiv.Prelude.{
  ℕ, suc, ◌+◌, String, Bool, true, false, not, ◌&&◌, Option, none, some, List, [], ◌∷◌, ◌++◌, ◌==◌,
  if◌then◌else◌, ltb, length, map, keep, text_lt, sort_by,
}
use ai_engineering_productiv.Canonical.{Event, Operation, AgentRelation}

-- A row of the events table; what it has more is that of the event.
pub record EventRow : Type 0 where
  pub event_id : String
  pub session_id : String
  pub occurred_at : String
  pub event_type : String
  pub event : Event

-- The columns of a session; an old row may have no start.
pub record SessionRow : Type 0 where
  pub session_id : String
  pub started_at : Option String

pub record RelationRow : Type 0 where
  pub session_id : String
  pub relation : AgentRelation

pub record CostRow : Type 0 where
  pub event_id : String
  pub session_id : String

pub record SignalRow : Type 0 where
  pub signal_id : String
  pub session_id : String
  pub event : Event

pub record Database : Type 0 where
  pub events : List EventRow
  pub sessions : List SessionRow
  pub operations : List Operation
  pub agent_relations : List RelationRow
  pub cost_records : List CostRow
  pub insight_signals : List SignalRow

-- The rows that stay where the sessions of a test are deleted.
unfoldable pub delete_where : (String → Bool) → Database → Database
delete_where gone db = record {
  events = keep (λ r. not (gone r.session_id)) db.events;
  sessions = keep (λ r. not (gone r.session_id)) db.sessions;
  operations = keep (λ r. not (gone r.session_id)) db.operations;
  agent_relations = keep (λ r. not (gone r.session_id)) db.agent_relations;
  cost_records = keep (λ r. not (gone r.session_id)) db.cost_records;
  insight_signals = keep (λ r. not (gone r.session_id)) db.insight_signals;
}

-- deleteSessionRows
unfoldable pub delete_session_rows : String → Database → Database
unfolding delete_where
delete_session_rows id db = delete_where (λ s. s == id) db

abbrev pub is_rollout : EventRow → Bool
is_rollout r = r.event.tool == "codex" && r.event.source_schema == "codex_rollout_jsonl"

abbrev pub row_before : EventRow → EventRow → Bool
row_before a b =
    if a.occurred_at == b.occurred_at
    then text_lt a.event_id b.event_id
    else text_lt a.occurred_at b.occurred_at

abbrev pub insert_relation : AgentRelation → RelationRow
insert_relation r = record { session_id = r.session_id; relation = r }

unfoldable pub delete_each : List String → Database → Database
unfolding delete_session_rows
delete_each [] db = db
delete_each (id ∷ ids) db = delete_each ids (delete_session_rows id db)

abbrev pub is_expired : String → SessionRow → Bool
is_expired cutoff r = elim (r.started_at) [ none ↦ false | some at ↦ text_lt at cutoff ]

unfoldable pub list_expired_session_ids : String → List SessionRow → List String
list_expired_session_ids cutoff rows = map (λ r. r.session_id) (keep (is_expired cutoff) rows)

module _ (reconstruct : List Event → List AgentRelation) where
  -- rebuildCodexAgentRelations
  unfoldable pub rebuild_codex_agent_relations : Database → Database
  rebuild_codex_agent_relations db =
      let rollout = map (λ r. r.event) (sort_by row_before (keep is_rollout db.events)) in
      record db {
        agent_relations =
            keep (λ r. not (r.relation.tool == "codex")) db.agent_relations
            ++ map insert_relation (reconstruct rollout);
      }

  -- DeleteSession
  unfoldable pub delete_session : String → Database → Database
  unfolding delete_session_rows rebuild_codex_agent_relations
  delete_session id db = rebuild_codex_agent_relations (delete_session_rows id db)

  -- ApplyRetention, given the text of the instant so many days ago: the database and the number of
  -- deleted sessions, `none` where it refuses.
  unfoldable pub apply_retention : (ℕ → String) → ℕ → Database → Option (Database × ℕ)
  unfolding list_expired_session_ids delete_each rebuild_codex_agent_relations
  apply_retention cutoff_of days db =
      let ids = list_expired_session_ids (cutoff_of days) db.sessions in
      if ltb days 1
      then none
      else some (rebuild_codex_agent_relations (delete_each ids db), length ids)

-- DeleteAllSessions
unfoldable pub delete_all_sessions : Database → Database
delete_all_sessions db = record {
  events = [];
  sessions = [];
  operations = [];
  agent_relations = [];
  cost_records = [];
  insight_signals = [];
}
