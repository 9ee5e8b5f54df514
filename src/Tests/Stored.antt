-- ===== src/Tests/Stored.antt =====
-- The theorems of Storage at examples.
use Prim.Native.String.{◌∷◌ as ◌cons◌}
use ai_engineering_productiv.Prelude.{
  zero, suc, true, inl, inr, text_lt-tail, text_lt-nil_cons, ℕ, String, ◌≡◌, ◌≢◌, ◌≤◌, ◌<◌, ◌↔◌,
  ◌⊎◌, refl, false, ◌&&◌, none, some, List, [], ◌∷◌, ◌==◌, if◌then◌else◌, length, arith, All, Has,
  sort_by, text_lt, eq_iff,
}
use ai_engineering_productiv.Canonical.{
  text, object, Fields, end, field, find_field, Event, Operation, AgentRelation,
}
use ai_engineering_productiv.Canonical.Assign.{IsMap}
use ai_engineering_productiv.Storage.Merge.{
  deep_merge_maps, merge_operation_evidence, provenance_rank, is_unset, save_operation,
}
use ai_engineering_productiv.Storage.Merge.Laws.{
  leaf_at, is_free, leaf_at-deep_merge_maps, merge_operation_evidence_lem,
}
use ai_engineering_productiv.Storage.Merge.Again.{save_operation-again}
use ai_engineering_productiv.Storage.Tables.{EventRow, SessionRow, Database, apply_retention}
use ai_engineering_productiv.Storage.Tables.Retention.{
  second_of, IsDated, StartedBefore, apply_retention_lem,
}
use ai_engineering_productiv.Storage.Events.{done, event_row}
use ai_engineering_productiv.Storage.Events.Laws.{IsTable}
use ai_engineering_productiv.Storage.Events.Cuts.{events_of}
use ai_engineering_productiv.Storage.Events.Pages.{timeline, follow, follow-timeline}
use ai_engineering_productiv.Storage.Sessions.Rebuild.{lifecycle, reconstruct_session}
use ai_engineering_productiv.Storage.Sessions.Rebuild.Laws.{IsDecidedBy, reconstruct_session-state}
use ai_engineering_productiv.Tests.{some_time, read_event, command_event, parent_event}

-- The same call, seen by two routes.
abbrev timing : Fields
timing = field "mcp_call" (object (field "duration" (text "12") end)) end

abbrev arguments : Fields
arguments = field "mcp_call" (object (field "arguments" (text "x") end)) end

arguments-IsMap : IsMap arguments
unfolding find_field
arguments-IsMap = (refl, (refl, tt, tt), tt)

leaf_at-deep_merge_maps_example :
    leaf_at (deep_merge_maps timing arguments) "mcp_call" ("arguments" ∷ []) ≡ (
      if is_free timing "mcp_call" ("arguments" ∷ [])
      then leaf_at arguments "mcp_call" ("arguments" ∷ [])
      else leaf_at timing "mcp_call" ("arguments" ∷ []))
leaf_at-deep_merge_maps_example =
    leaf_at-deep_merge_maps timing arguments "mcp_call" ("arguments" ∷ []) arguments-IsMap

abbrev operation_with : String → Fields → Operation
operation_with outcome extensions = record {
  schema_version = "0.1.0";
  operation_id = "o1";
  session_id = "s1";
  provider = "anthropic";
  tool = "claude-code";
  category = "unknown";
  outcome = outcome;
  provenance = "inferred";
  provider_extensions = extensions;
}

merge_operation_evidence_lem_example :
    ((leaf_at timing "mcp_call" ("duration" ∷ []) ≡ none)
      ⊎ (leaf_at
            (merge_operation_evidence
              (operation_with "unknown" timing)
              (operation_with "success" arguments)).provider_extensions
            "mcp_call"
            ("duration" ∷ [])
          ≡ leaf_at timing "mcp_call" ("duration" ∷ [])))
    × (provenance_rank "inferred"
        ≤ provenance_rank
            (merge_operation_evidence
              (operation_with "unknown" timing)
              (operation_with "success" arguments)).provenance)
    × (provenance_rank "inferred"
        ≤ provenance_rank
            (merge_operation_evidence
              (operation_with "unknown" timing)
              (operation_with "success" arguments)).provenance)
    × (is_unset
          (merge_operation_evidence
            (operation_with "unknown" timing)
            (operation_with "success" arguments)).outcome
        ≡ (is_unset "unknown" && is_unset "success"))
    × (is_unset
          (merge_operation_evidence
            (operation_with "unknown" timing)
            (operation_with "success" arguments)).category
        ≡ (is_unset "unknown" && is_unset "unknown"))
merge_operation_evidence_lem_example =
    merge_operation_evidence_lem (operation_with "unknown" timing)
      (operation_with "success" arguments) "mcp_call" ("duration" ∷ []) arguments-IsMap

save_operation-again_example :
    save_operation
      (save_operation (operation_with "unknown" timing ∷ []) (operation_with "success" arguments))
      (operation_with "success" arguments)
    ≡ save_operation (operation_with "unknown" timing ∷ []) (operation_with "success" arguments)
save_operation-again_example =
    save_operation-again (operation_with "unknown" timing ∷ []) (operation_with "success" arguments)
      arguments-IsMap

-- A table of three events.
abbrev rows : List EventRow
rows =
    event_row some_time read_event
    ∷ event_row some_time command_event
    ∷ event_row some_time parent_event
    ∷ []

differ : (a b : String) → (a == b) ≡ false → a ≢ b
differ a b h q = cc ((eq_iff a b).1 q, h)

rows-IsTable : IsTable some_time rows
rows-IsTable = record {
  keys = (
    (differ "e1" "e2" refl, (differ "e1" "e3" refl, tt)),
    ((differ "e2" "e3" refl, tt), (tt, tt)),
  );
  columns = (refl, (refl, (refl, tt)));
}

rows_count : length (timeline some_time rows "s1" [] 1) < 4
unfolding sort_by text_lt
rows_count = omega arith

follow-timeline_example :
    follow some_time rows "s1" [] 1 4 none ≡ done (events_of (timeline some_time rows "s1" [] 1))
follow-timeline_example =
    follow-timeline some_time rows "s1" [] 1 rows-IsTable 4 refl (omega arith) rows_count

-- A text of one mark for each second.
abbrev marks : ℕ → String
marks zero = ""
marks (suc n) = "x" cons marks n

abbrev second_marks : ℕ → String
second_marks t = marks (second_of t)

marks-in_order : (a b : ℕ) → a < b → text_lt (marks a) (marks b) ≡ true
marks-in_order zero zero h = absurd (omega arith)
marks-in_order zero (suc b) h = text_lt-nil_cons "x" (marks b)
marks-in_order (suc a) zero h = absurd (omega arith)
marks-in_order (suc a) (suc b) h =
    text_lt-tail "x" (marks a) (marks b) (marks-in_order a b (omega arith))

abbrev old_session : SessionRow
old_session = record { session_id = "s1"; started_at = some (second_marks 1999999999) }

abbrev ageless_session : SessionRow
ageless_session = record { session_id = "s2"; started_at = none }

abbrev database : Database
database = record {
  events = rows;
  sessions = old_session ∷ ageless_session ∷ [];
  operations = [];
  agent_relations = [];
  cost_records = [];
  insight_signals = [];
}

abbrev retained : Database
retained = record {
  events = [];
  sessions = ageless_session ∷ [];
  operations = [];
  agent_relations = [];
  cost_records = [];
  insight_signals = [];
}

abbrev no_relations : List Event → List AgentRelation
no_relations events = []

abbrev cutoff_of : ℕ → ℕ
cutoff_of days = 2000000005

database-IsDated : All (IsDated second_marks 2000000005) database.sessions
database-IsDated = (inr (inl (1999999999, refl, omega arith)), (inl refl, tt))

retention_run :
    apply_retention no_relations (λ d. second_marks (cutoff_of d)) 30 database ≡ some (retained, 1)
unfolding apply_retention text_lt
retention_run = refl

apply_retention_lem_example :
    (Has (λ r. r ≡ event_row some_time read_event) retained.events ↔ (
      Has (λ r. r ≡ event_row some_time read_event) database.events
      × ¬ (
          Has
            (λ r. (r.session_id ≡ "s1") × StartedBefore second_marks 2000000005 r)
            database.sessions)))
    × (Has (λ r. r ≡ ageless_session) retained.sessions ↔ (
        Has (λ r. r ≡ ageless_session) database.sessions
        × ¬ (
            Has
              (λ r. (r.session_id ≡ "s2") × StartedBefore second_marks 2000000005 r)
              database.sessions)))
apply_retention_lem_example =
    apply_retention_lem no_relations second_marks cutoff_of 30 database retained 1
      (event_row some_time read_event) ageless_session
      (λ a b h k. marks-in_order (second_of a) (second_of b) h) (omega arith) database-IsDated
      retention_run

reconstruct_session-state_example :
    (All (λ x. lifecycle x.event_type ≡ "") (read_event ∷ command_event ∷ [])
      × ((reconstruct_session "s1" read_event (command_event ∷ [])).state ≡ "unknown")
      × ((reconstruct_session "s1" read_event (command_event ∷ [])).completed_at ≡ none))
    ⊎ ((e : Event) × IsDecidedBy
          (reconstruct_session "s1" read_event (command_event ∷ []))
          (read_event ∷ command_event ∷ [])
          e)
reconstruct_session-state_example = reconstruct_session-state "s1" read_event (command_event ∷ [])
