-- ===== src/Tests/Policies.antt =====
-- The theorems of Privacy and Governance at examples.
use mathlib.Core.List.{Perm}
use ai_engineering_productiv.Prelude.{
  String, List, ◌≡◌, ◌≢◌, ◌↔◌, refl, true, false, [], ◌∷◌, map, All, Has, keep, any, codes,
  trim_space,
}
use ai_engineering_productiv.Config.{PathRules}
use ai_engineering_productiv.Privacy.{classify_path, credential_access, classify_command_access}
use ai_engineering_productiv.Privacy.Laws.{forward_slash, ascii_lower, classify_path_insensitive}
use ai_engineering_productiv.Privacy.Commands.{HasToken, classify_command_access_iff, IsSecret}
use ai_engineering_productiv.Governance.{violation, not_violation, indeterminate}
use ai_engineering_productiv.Governance.Access.{
  all_accesses, AccessObservation, shell_command, collect_accesses, thin_access_event,
  thin_access_events,
}
use ai_engineering_productiv.Governance.Access.Thin.{collect_accesses-thin_access_event}
use ai_engineering_productiv.Governance.Glob.{path_glob_match}
use ai_engineering_productiv.Governance.Glob.Meaning.{tokens, Describes}
use ai_engineering_productiv.Governance.Glob.Correct.{path_glob_match_iff}
use ai_engineering_productiv.Governance.RiskyAccess.{risky_access_from_events}
use ai_engineering_productiv.Governance.RiskyAccess.Laws.{is_risky, risky_outcome, risky_findings}
use ai_engineering_productiv.Governance.Access.Orders.{swapped, no_field}
use ai_engineering_productiv.Governance.RiskyAccess.Orders.{
  SameReport, risky-thin_access_events-Same,
}
use ai_engineering_productiv.Governance.PathRules.{path_rule_decision, path_rules_from_events}
use ai_engineering_productiv.Governance.PathRules.Laws.{
  Covers, IsFlagged, Verdict, is_flagged_read, path_rule_decision_iff, path_rules_outcome,
  path_rules_findings,
}
use ai_engineering_productiv.Canonical.{Fields, field, end, text, object, Event}
use ai_engineering_productiv.Governance.Skills.{
  unapproved_skills_from_events, saw_explicit, saw_incomplete,
}
use ai_engineering_productiv.Governance.Skills.Keys.{NoNul}
use ai_engineering_productiv.Governance.Skills.Laws.{
  IsPlain, Reports, Unapproved, IsUnapproved, skills_evidence, skills_outcome,
}
use ai_engineering_productiv.Tests.{event_with, same_rune, some_time, read_event, session}

path_glob_match_iff_example :
    (path_glob_match "src/**/a?.go" "src/x/ab.go" ≡ true)
    ↔ Describes (tokens (codes "src/**/a?.go")) (codes "src/x/ab.go")
path_glob_match_iff_example = path_glob_match_iff "src/**/a?.go" "src/x/ab.go"

risky_outcome_example :
    (((risky_access_from_events same_rune some_time session).outcome ≡ violation)
      ↔ Has (λ a. is_risky same_rune some_time a ≡ true) (all_accesses session))
    × (((risky_access_from_events same_rune some_time session).outcome ≡ not_violation) ↔ (
        (all_accesses session ≢ [])
        × All (λ a. is_risky same_rune some_time a ≡ false) (all_accesses session)))
    × (((risky_access_from_events same_rune some_time session).outcome ≡ indeterminate)
        ↔ (all_accesses session ≡ []))
risky_outcome_example = risky_outcome same_rune some_time session

risky_findings_example :
    map (λ f. f.reference) (risky_access_from_events same_rune some_time session).findings
    ≡ map (λ a. a.value) (keep (is_risky same_rune some_time) (all_accesses session))
risky_findings_example = risky_findings same_rune some_time session

-- The fields of an event, in two orders.
abbrev read_fields : Fields → Fields
read_fields rest = field "file_path" (text "/home/u/.ssh/id_rsa") rest

abbrev run_fields : Fields → Fields
run_fields rest = field "command" (text "cat .env") rest

risky-thin_access_events-Same_example :
    SameReport same_rune some_time
      (risky_access_from_events same_rune some_time
        (thin_access_events (event_with "e1" (read_fields (run_fields end)) end ∷ [])))
      (risky_access_from_events same_rune some_time
        (event_with "e1" (run_fields (read_fields end)) end ∷ []))
risky-thin_access_events-Same_example =
    risky-thin_access_events-Same same_rune some_time
      (event_with "e1" (read_fields (run_fields end)) end ∷ [])
      (event_with "e1" (run_fields (read_fields end)) end ∷ [])
      ((refl, refl, swapped "file_path" "command" _ _ end, no_field), tt)

abbrev secret_command : AccessObservation
secret_command = record { method = shell_command; value = "cat ~/.ssh/id_rsa" }

collect_accesses-thin_access_event_example :
    collect_accesses (thin_access_event read_event secret_command 0) ≡ secret_command ∷ []
unfolding trim_space
collect_accesses-thin_access_event_example =
    collect_accesses-thin_access_event read_event secret_command 0 refl

abbrev rules : PathRules
rules = record {
  mode = "approved_only";
  allowed = record { kind = "glob"; value = "src/*.go" } ∷ [];
  blocked = record { kind = "exact"; value = "src/main.go" } ∷ [];
}

path_rule_decision_iff_example :
    (((path_rule_decision "src/main.go" rules).1 ≡ true) ↔ IsFlagged rules "src/main.go")
    × (((path_rule_decision "src/main.go" rules).0 ≡ "blocked_match")
        ↔ Has (Covers "src/main.go") rules.blocked)
path_rule_decision_iff_example = path_rule_decision_iff "src/main.go" rules

path_rules_outcome_example :
    Verdict rules (path_rules_from_events session rules) (all_accesses session)
path_rules_outcome_example = path_rules_outcome rules session (λ h. cc)

path_rules_findings_example :
    Perm
      (map (λ f. f.path) (path_rules_from_events session rules).findings)
      (map (λ a. a.value) (keep (is_flagged_read rules) (all_accesses session)))
path_rules_findings_example = path_rules_findings rules session (λ h. cc)

classify_path_insensitive_example :
    (classify_path same_rune (map forward_slash (codes "C:\\App\\.ENV"))
      ≡ classify_path same_rune (codes "C:\\App\\.ENV"))
    × (classify_path same_rune (map ascii_lower (codes "C:\\App\\.ENV"))
        ≡ classify_path same_rune (codes "C:\\App\\.ENV"))
classify_path_insensitive_example = classify_path_insensitive same_rune (codes "C:\\App\\.ENV")

classify_command_access_iff_example :
    ((classify_command_access same_rune (codes "cat ~/.ssh/id_rsa")).0 ≡ credential_access)
    ↔ HasToken (IsSecret same_rune) (codes "cat ~/.ssh/id_rsa")
classify_command_access_iff_example =
    classify_command_access_iff same_rune (codes "cat ~/.ssh/id_rsa")

abbrev skill_fields : String → Fields
skill_fields name =
    field "skill_detection" (text "explicit")
      (field "skill" (object (field "name" (text name) end)) end)

abbrev skill_session : List Event
skill_session =
    event_with "e5" end (skill_fields "review") ∷ event_with "e6" end (skill_fields "deploy") ∷ []

abbrev allowed_skills : List String
allowed_skills = "review" ∷ []

plain_provider : NoNul "anthropic"
plain_provider = (
  (λ h. cc),
  (
    (λ h. cc),
    ((λ h. cc), ((λ h. cc), ((λ h. cc), ((λ h. cc), ((λ h. cc), ((λ h. cc), ((λ h. cc), tt))))))),
  ),
)

plain_tool : NoNul "claude-code"
plain_tool = (
  (λ h. cc),
  (
    (λ h. cc),
    (
      (λ h. cc),
      (
        (λ h. cc),
        (
          (λ h. cc),
          ((λ h. cc), ((λ h. cc), ((λ h. cc), ((λ h. cc), ((λ h. cc), ((λ h. cc), tt)))))),
        ),
      ),
    ),
  ),
)

skill_session-IsPlain : All IsPlain skill_session
skill_session-IsPlain = ((plain_provider, plain_tool), ((plain_provider, plain_tool), tt))

skills_evidence_example :
    Has
      (Reports allowed_skills "anthropic" "claude-code" "deploy" "e6")
      ((unapproved_skills_from_events skill_session allowed_skills).findings)
    ↔ Has (Unapproved allowed_skills "anthropic" "claude-code" "deploy" "e6") skill_session
skills_evidence_example =
    skills_evidence allowed_skills skill_session "anthropic" "claude-code" "deploy" "e6" (λ h. cc)
      skill_session-IsPlain

skills_outcome_example :
    (((unapproved_skills_from_events skill_session allowed_skills).outcome ≡ violation)
      ↔ Has (IsUnapproved allowed_skills) skill_session)
    × (((unapproved_skills_from_events skill_session allowed_skills).outcome ≡ not_violation) ↔ (
        ¬ (Has (IsUnapproved allowed_skills) skill_session)
        × (any saw_explicit skill_session ≡ true)
        × (any saw_incomplete skill_session ≡ false)))
skills_outcome_example = skills_outcome allowed_skills skill_session (λ h. cc)
