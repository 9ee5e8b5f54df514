-- ===== src/Governance/PathRules.antt =====
-- internal/governance/path_rules.go: the configured policy over filesystem-read paths.
pub mod Laws
use Prim.Native.String
use ai_engineering_productiv.Prelude.{
  String, Bool, true, false, ◌&&◌, ◌||◌, not, List, [], ◌∷◌, ◌++◌, map, ◌==◌, if◌then◌else◌,
  trim_space, text_lt, sort_by,
}
use ai_engineering_productiv.Canonical.{Event, Value, text, get_field}
use ai_engineering_productiv.Config.{PathRulePattern, PathRules}
use ai_engineering_productiv.Governance.{
  Outcome, violation, not_violation, indeterminate, Visibility, unavailable, observed,
  policy_unconfigured, PolicyEvidence, PolicyDecision, policy_schema_version,
}
use ai_engineering_productiv.Governance.Access.{
  filesystem_read, shell_command, AccessObservation, collect_accesses,
}
use ai_engineering_productiv.Governance.Glob.{path_glob_match}

pub record PathFinding : Type 0 where
  pub rule_id : String
  pub path : String
  pub mode : String
  pub reason : String
  pub source_event_id : String
  pub session_id : String
  pub policy_version : String
  pub detector_version : String

pub record PathReport : Type 0 where
  pub findings : List PathFinding
  pub outcome : Outcome
  pub visibility : Visibility

-- matchesPathPatterns
unfoldable pub pattern_matches : String → PathRulePattern → Bool
pattern_matches path p =
    (p.kind == "exact" && path == p.value) || (p.kind == "glob" && path_glob_match p.value path)

unfoldable pub matches_path_patterns : String → List PathRulePattern → Bool
matches_path_patterns path [] = false
matches_path_patterns path (p ∷ rest) =
    if pattern_matches path p then true else matches_path_patterns path rest

-- pathRuleDecision: the reason, and whether the path is flagged.
unfoldable pub path_rule_decision : String → PathRules → String × Bool
path_rule_decision path rules =
    if matches_path_patterns path rules.blocked
    then ("blocked_match", true)
    else if rules.mode == "approved_only"
    then ("not_allowed", not (matches_path_patterns path rules.allowed))
    else if rules.mode == "flag_all"
    then ("flag_all", true)
    else ("", false)

abbrev or_event_id : Event → Value → String
or_event_id event (text s) = if trim_space s == "" then event.event_id else s
or_event_id event _ = event.event_id

-- pathRuleSourceEventID
unfoldable pub path_rule_source_event_id : Event → String
path_rule_source_event_id event = or_event_id event (get_field event.attributes "source_event_id")

unfoldable pub path_finding : PathRules → Event → String → String → PathFinding
path_finding rules event path reason = record {
  rule_id = "governance.path_rules";
  path = path;
  mode = rules.mode;
  reason = reason;
  source_event_id = path_rule_source_event_id event;
  session_id = trim_space event.session_id;
  policy_version = "0.1.0";
  detector_version = "0.1.0";
}

-- The inner loop of PathRulesFromEvents, over the observations of one event.
unfoldable pub scan_observations :
    PathRules → Event → List AccessObservation → List PathFinding → Bool → List PathFinding × Bool
scan_observations rules event [] findings saw_path = (findings, saw_path)
scan_observations rules event (o ∷ rest) findings saw_path =
    let (reason, flagged) = path_rule_decision o.value rules in
    elim o.method [
      | shell_command ↦ scan_observations rules event rest findings saw_path
      | filesystem_read ↦
          scan_observations rules event rest
            (if flagged then findings ++ path_finding rules event o.value reason ∷ [] else findings)
            true
    ]

unfoldable pub scan_events :
    PathRules → List Event → List PathFinding → Bool → List PathFinding × Bool
scan_events rules [] findings saw_path = (findings, saw_path)
scan_events rules (event ∷ events) findings saw_path =
    let (findings', saw_path') =
      scan_observations rules event (collect_accesses event) findings saw_path in
    scan_events rules events findings' saw_path'

abbrev pub sort_key : PathFinding → String
sort_key f = String.◌++◌ f.source_event_id (String.◌++◌ "\0" f.path)

unfoldable pub sort_findings : List PathFinding → List PathFinding
sort_findings = sort_by (λ f g. text_lt (sort_key f) (sort_key g))

-- What follows the loops.
unfoldable pub conclude : List PathFinding → Bool → PathReport
conclude fs false = record { findings = fs; outcome = indeterminate; visibility = unavailable }
conclude [] true = record {
  findings = sort_findings [];
  outcome = not_violation;
  visibility = observed;
}
conclude (f ∷ fs) true = record {
  findings = sort_findings (f ∷ fs);
  outcome = violation;
  visibility = observed;
}

-- PathRulesFromEvents
unfoldable pub path_rules_from_events : List Event → PathRules → PathReport
path_rules_from_events events rules =
    if rules.mode == ""
    then record { findings = []; outcome = indeterminate; visibility = policy_unconfigured }
    else (let (findings, saw_path) = scan_events rules events [] false in
        conclude findings saw_path)

infixr 65 ◌&◌
abbrev ◌&◌ : String → String → String
a & b = String.◌++◌ a b

unfoldable pub finding_evidence : PathFinding → PolicyEvidence
finding_evidence f = record {
  kind = "path";
  reference = "path:" & f.path & ";reason:" & f.reason & ";event:" & f.source_event_id;
}

abbrev visibility_marker : PathReport → String
visibility_marker p = elim p.visibility [
  | policy_unconfigured ↦ "path_rules_not_configured"
  | _ ↦ elim p.outcome [
    | not_violation ↦ "no_path_rule_findings"
    | _ ↦ "filesystem_path_unavailable"
  ]
]

abbrev or_marker : PathReport → List PolicyEvidence → List PolicyEvidence
or_marker p [] = record { kind = "visibility"; reference = visibility_marker p } ∷ []
or_marker p (e ∷ es) = e ∷ es

-- PathRules.Decision
unfoldable pub decision : PathReport → PolicyDecision
unfolding finding_evidence
decision p = record {
  schema_version = policy_schema_version;
  policy_id = "governance.path_rules";
  policy_version = "0.1.0";
  outcome = p.outcome;
  evidence = or_marker p (map finding_evidence p.findings);
}
