-- ===== src/Tests/Traces.antt =====
-- The theorems of Spans and Conversation at examples.
use ai_engineering_productiv.Prelude.{
  suc, String, ◌≡◌, ◌≢◌, ◌↔◌, refl, Option, none, some, take, List, [], ◌∷◌, map, keep, All, Has,
  Apart, length, arith,
}
use ai_engineering_productiv.Spans.{Record, identity_key, unset, not_loaded, absent, available}
use ai_engineering_productiv.Spans.Page.{
  page, page_from, start_of, position_after, set_parent_availability, parent_availability_of,
}
use ai_engineering_productiv.Spans.Page.Laws.{forget, walk}
use ai_engineering_productiv.Spans.Page.Parents.{Describes, page_parents}
use ai_engineering_productiv.Spans.Project.{key_of, project}
use ai_engineering_productiv.Spans.Project.Laws.{Observes, project_evidence, project-Distinct}
use ai_engineering_productiv.Spans.Walk.{walk-project}
use ai_engineering_productiv.Prelude.Int.{pos}
use ai_engineering_productiv.Canonical.{Fields, field, end, integer, as_text, get_field}
use ai_engineering_productiv.Conversation
use ai_engineering_productiv.Conversation.{is_conversation_event, content_value}
use ai_engineering_productiv.Conversation.Page
use ai_engineering_productiv.Conversation.Page.{page_lem, last_unless_end}
use ai_engineering_productiv.Conversation.Laws.{Says, project_lem, content_value_lem}
use ai_engineering_productiv.Tests.{same_rune, no_integer, some_time, parsed_time, trace}

walk-project_example :
    map forget (
      walk
        (suc (length (project no_integer some_time parsed_time trace)))
        (project no_integer some_time parsed_time trace)
        1
        ""
        "")
    ≡ map forget (project no_integer some_time parsed_time trace)
walk-project_example = walk-project no_integer some_time parsed_time trace 1 (omega arith)

project_evidence_example :
    Has
      (λ r. (key_of r ≡ identity_key "t1" "b") × Has (λ i. i ≡ "e4") r.source_event_ids)
      (project no_integer some_time parsed_time trace)
    ↔ Has (Observes no_integer some_time parsed_time (identity_key "t1" "b") "e4") trace
project_evidence_example =
    project_evidence no_integer some_time parsed_time trace (identity_key "t1" "b") "e4" (λ h. cc)

project-Distinct_example :
    Apart (λ a b. key_of a ≢ key_of b) (project no_integer some_time parsed_time trace)
project-Distinct_example = project-Distinct no_integer some_time parsed_time trace

abbrev span_with : String → Option String → Record
span_with id parent = record {
  trace_id = "t1";
  span_id = id;
  parent_span_id = parent;
  parent_availability = unset;
  name = none;
  start_at = none;
  end_at = none;
  duration_ms = none;
  interval_availability = available;
  status_code = none;
  provider = "anthropic";
  tool = "claude-code";
  source_version = "1.0";
  source_event_ids = "e1" ∷ [];
  operation_ids = [];
}

abbrev spans : List Record
spans = span_with "a" none ∷ span_with "b" (some "a") ∷ span_with "c" (some "z") ∷ []

abbrev last_page : List Record
last_page =
    record (span_with "b" (some "a")) { parent_availability = not_loaded }
    ∷ record (span_with "c" (some "z")) { parent_availability = absent }
    ∷ []

page_parents_example : All (Describes last_page spans) last_page
unfolding page page_from start_of position_after set_parent_availability parent_availability_of
    identity_key
page_parents_example = page_parents spans 2 "t1" "a" last_page none refl

project_lem_example :
    map (λ r. r.event_id) (Conversation.project same_rune trace)
    ≡ map (λ e. e.event_id) (keep is_conversation_event trace)
project_lem_example = project_lem same_rune trace

abbrev prompt : Fields
prompt = field "prompt_length" (integer (pos 12)) end

content_value_lem_example :
    ((content_value same_rune prompt "prompt" ("prompt_length" ∷ [])).0
      ≡ as_text (get_field prompt "prompt"))
    × Says same_rune
        (as_text (get_field prompt "prompt"))
        (as_text (get_field prompt "body_ref"))
        prompt
        "prompt"
        ("prompt_length" ∷ [])
        (content_value same_rune prompt "prompt" ("prompt_length" ∷ [])).1
content_value_lem_example = content_value_lem same_rune prompt "prompt" ("prompt_length" ∷ [])

abbrev content_record : String → Conversation.Record
content_record id = record {
  event_id = id;
  event_type = "user_prompt";
  occurred_at = 1;
  provider = "anthropic";
  tool = "claude-code";
  source_version = "1.0";
  role = Conversation.user;
  text = some "hello";
  content_availability = Conversation.available;
  thinking = none;
}

abbrev talk : List Conversation.Record
talk = content_record "e1" ∷ content_record "e2" ∷ content_record "e3" ∷ []

page_lem_example :
    (Conversation.Page.page some_time talk 1 "" ""
      ≡ some (take 1 talk, last_unless_end some_time talk 1))
    × (Conversation.Page.page some_time talk 1 (some_time 1) "e1"
        ≡ some (
          take 1 (content_record "e2" ∷ content_record "e3" ∷ []),
          last_unless_end some_time (content_record "e2" ∷ content_record "e3" ∷ []) 1,
        ))
page_lem_example =
    page_lem some_time [] (content_record "e2" ∷ content_record "e3" ∷ []) (content_record "e1") 1
      (omega arith) (λ h. cc) tt
