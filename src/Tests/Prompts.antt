-- ===== src/Tests/Prompts.antt =====
-- The theorem of Governance.Prompts at an example.
use ai_engineering_productiv.Prelude.{
  String, Bool, ◌≡◌, ◌↔◌, refl, true, Option, none, some, [], ◌∷◌, Has,
}
use ai_engineering_productiv.Canonical.{field, end, text, object, Event}
use ai_engineering_productiv.Config.{PromptKeyword}
use ai_engineering_productiv.Conversation
use ai_engineering_productiv.Governance.{violation}
use ai_engineering_productiv.Governance.Prompts.{
  CompiledKeyword, PromptSource, compile_prompt_keywords, prompt_keywords_from_events, is_user,
  source_of,
}
use ai_engineering_productiv.Governance.Prompts.Laws.{IsMatched, prompts_violation}
use ai_engineering_productiv.Tests.{same_rune, event_with}

-- A prompt, and a rule for it.
abbrev prompt_event : Event
prompt_event =
    record (event_with "e5" end
      (field "event" (object (field "prompt" (text "drop the table") end)) end)) {
        event_type = "user_prompt";
      }

abbrev literal_rule : PromptKeyword
literal_rule = record {
  id = "r1";
  label = "Tables";
  group = "sql";
  enabled = true;
  kind = "literal";
  value = "table";
}

abbrev no_regex : String → Option (String → Bool)
no_regex s = none

abbrev compiled_rule : CompiledKeyword
compiled_rule = record {
  id = "r1";
  label = "Tables";
  group = "sql";
  kind = "literal";
  value = "table";
  pattern = none;
}

compiled_rules : compile_prompt_keywords no_regex (literal_rule ∷ []) ≡ compiled_rule ∷ []
unfolding compile_prompt_keywords
compiled_rules = refl

prompts_violation_example :
    ((prompt_keywords_from_events same_rune no_regex
        (prompt_event ∷ [])
        (literal_rule ∷ [])).outcome
      ≡ violation)
    ↔ Has
        (λ r.
          (is_user r.role ≡ true)
          × ((s : PromptSource) × (source_of r ≡ some s) × IsMatched (compiled_rule ∷ []) s))
        (Conversation.project same_rune (prompt_event ∷ []))
prompts_violation_example =
    prompts_violation same_rune no_regex (prompt_event ∷ []) (literal_rule ∷ []) compiled_rule []
      compiled_rules
