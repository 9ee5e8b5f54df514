-- ===== src/Governance/RiskyAccess.antt =====
-- internal/governance/risky_access.go: credential and secret files that a session reached.
pub mod Laws
pub mod Orders
use Prim.Native.String
use ai_engineering_productiv.Prelude.{
  ℕ, String, Bool, true, false, ◌||◌, Option, none, some, List, [], ◌∷◌, ◌++◌, map, codes,
  trim_space,
}
use ai_engineering_productiv.Canonical.{Event}
use ai_engineering_productiv.Privacy.{
  PathClass, dotenv, ssh_key, cert, credentials_file, project_relative, non_project, PathBoundary,
  project, external, CommandAccessClass, credential_access, no_access, is_secret_class,
  classify_path, classify_command_access,
}
use ai_engineering_productiv.Privacy
use ai_engineering_productiv.Governance.{
  Outcome, violation, not_violation, indeterminate, Visibility, unavailable, observed,
  PolicyEvidence, PolicyDecision, policy_schema_version,
}
use ai_engineering_productiv.Governance.Access.{
  AccessMethod, filesystem_read, shell_command, AccessObservation, collect_accesses,
}

pub record Finding : Type 0 where
  pub rule_id : String
  pub access_method : AccessMethod
  pub class : String
  pub boundary : String
  pub confidence : String
  pub reference : String
  pub observed_at : String
  pub session_id : String

pub record RiskyAccess : Type 0 where
  pub findings : List Finding
  pub outcome : Outcome
  pub visibility : Visibility

-- The string values of the constants.
unfoldable pub path_class_name : PathClass → String
path_class_name dotenv = "dotenv"
path_class_name ssh_key = "ssh_key"
path_class_name cert = "cert"
path_class_name credentials_file = "credentials_file"
path_class_name project_relative = "project_relative"
path_class_name non_project = "non_project"

unfoldable pub boundary_name : PathBoundary → String
boundary_name project = "project"
boundary_name external = "external"
boundary_name PathBoundary.indeterminate = "indeterminate"

unfoldable pub access_method_name : AccessMethod → String
access_method_name filesystem_read = "filesystem_read"
access_method_name shell_command = "shell_command"

abbrev pub risky_access_rule_id : String
risky_access_rule_id = "risky_credential_file_access"

abbrev pub append_finding : List Finding → Option Finding → List Finding
append_finding findings none = findings
append_finding findings (some f) = findings ++ f ∷ []

-- The `switch` at the end.
unfoldable pub conclude : List Finding → Bool → RiskyAccess
conclude (f ∷ fs) seen = record { findings = f ∷ fs; outcome = violation; visibility = observed }
conclude [] true = record { findings = []; outcome = not_violation; visibility = observed }
conclude [] false = record { findings = []; outcome = indeterminate; visibility = unavailable }

-- unicode.ToLower outside ASCII, and the time layout of the report, are arguments.
module _ (unicode_lower : ℕ → ℕ) (format_time : ℕ → String) where
  -- The finding of classifyAccess, by the method of the access.
  unfoldable pub path_finding : String → String → String → Option Finding
  path_finding value observed_at session_id =
      let (class, boundary) = classify_path unicode_lower (codes value) in
      elim (is_secret_class class) [
        | true ↦ some (record {
          rule_id = risky_access_rule_id;
          access_method = filesystem_read;
          class = path_class_name class;
          boundary = boundary_name boundary;
          confidence = "high";
          reference = value;
          observed_at = observed_at;
          session_id = trim_space session_id;
        })
        | false ↦ none
      ]

  unfoldable pub command_finding : String → String → String → Option Finding
  command_finding value observed_at session_id =
      let (class, boundary) = classify_command_access unicode_lower (codes value) in
      elim class [
        | credential_access ↦ some (record {
          rule_id = risky_access_rule_id;
          access_method = shell_command;
          class = "credential_access";
          boundary = boundary_name boundary;
          confidence = "medium";
          reference = value;
          observed_at = observed_at;
          session_id = trim_space session_id;
        })
        | no_access ↦ none
      ]

  -- classifyAccess: the finding, and whether an access was observed at all.
  unfoldable pub classify_access : AccessObservation → String → String → Option Finding × Bool
  unfolding path_finding command_finding
  classify_access access observed_at session_id = elim access.method [
    | filesystem_read ↦ (path_finding access.value observed_at session_id, true)
    | shell_command ↦ (command_finding access.value observed_at session_id, true)
  ]

  -- The inner loop of RiskyAccessFromEvents, over the accesses of one event.
  unfoldable pub scan_accesses :
      String → String → List AccessObservation → List Finding → Bool → List Finding × Bool
  scan_accesses observed_at session_id [] findings seen = (findings, seen)
  scan_accesses observed_at session_id (a ∷ rest) findings seen =
      let (finding, was_observed) = classify_access a observed_at session_id in
      scan_accesses observed_at session_id rest (append_finding findings finding)
        (was_observed || seen)

  unfoldable pub scan_events : List Event → List Finding → Bool → List Finding × Bool
  scan_events [] findings seen = (findings, seen)
  scan_events (event ∷ events) findings seen =
      let (findings', seen') =
        scan_accesses (format_time event.occurred_at) event.session_id (collect_accesses event)
          findings seen in
      scan_events events findings' seen'

  -- RiskyAccessFromEvents
  unfoldable pub risky_access_from_events : List Event → RiskyAccess
  risky_access_from_events events =
      let (findings, seen) = scan_events events [] false in conclude findings seen

infixr 65 ◌&◌
abbrev ◌&◌ : String → String → String
a & b = String.◌++◌ a b

unfoldable pub finding_evidence : Finding → PolicyEvidence
unfolding access_method_name
finding_evidence f = record {
  kind = "credential_access";
  reference =
      access_method_name f.access_method
      & ";class:"
      & f.class
      & ";boundary:"
      & f.boundary
      & ";confidence:"
      & f.confidence
      & ";path:"
      & f.reference;
}

abbrev visibility_marker : Outcome → String
visibility_marker not_violation = "no_credential_file_access_observed"
visibility_marker _ = "file_and_command_access_unavailable"

abbrev or_marker : Outcome → List PolicyEvidence → List PolicyEvidence
or_marker outcome [] = record { kind = "visibility"; reference = visibility_marker outcome } ∷ []
or_marker outcome (e ∷ es) = e ∷ es

-- RiskyAccess.Decision
unfoldable pub decision : RiskyAccess → PolicyDecision
unfolding finding_evidence
decision r = record {
  schema_version = policy_schema_version;
  policy_id = "governance.risky_access";
  policy_version = "0.1.0";
  outcome = r.outcome;
  evidence = or_marker r.outcome (map finding_evidence r.findings);
}
