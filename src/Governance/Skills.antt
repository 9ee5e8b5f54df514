-- ===== src/Governance/Skills.antt =====
-- internal/governance/unapproved_skills.go: explicit skills outside the saved allowlist.
pub mod Keys
pub mod Laws
use Prim.Native.String
use ai_engineering_productiv.Prelude.{
  String, Bool, true, false, ◌&&◌, ◌||◌, not, Option, none, some, List, [], ◌∷◌, ◌++◌, ◌==◌,
  if◌then◌else◌, contains, map, text_lt, sort_by,
}
use ai_engineering_productiv.Canonical.{Value, find_field, get_field, as_text, as_object, Event}
use ai_engineering_productiv.Governance.{
  Outcome, violation, not_violation, indeterminate, Visibility, unavailable, observed, partial,
  policy_unconfigured, PolicyEvidence, PolicyDecision, policy_schema_version,
}

pub record SkillFinding : Type 0 where
  pub rule_id : String
  pub skill_name : String
  pub provider : String
  pub tool : String
  pub source_event_ids : List String
  pub policy_version : String
  pub detector_version : String

pub record UnapprovedSkills : Type 0 where
  pub findings : List SkillFinding
  pub outcome : Outcome
  pub visibility : Visibility

-- `v == "explicit"` on an `any`
abbrev pub is_explicit : Option String → Bool
is_explicit none = false
is_explicit (some s) = s == "explicit"

unfoldable pub says_explicit : Event → Bool
unfolding as_text get_field
says_explicit event = is_explicit (as_text (get_field event.provider_extensions "skill_detection"))

abbrev pub is_there {ℓ} : {A : Type ℓ} → Option A → Bool
is_there none = false
is_there (some x) = true

unfoldable pub skill_signal_present : Event → Bool
unfolding says_explicit find_field
skill_signal_present event =
    if event.event_type == "skill_coverage" && says_explicit event
    then false
    else is_there (find_field event.provider_extensions "skill_detection")

abbrev pub given : Option String → Option String
given none = none
given (some s) = if s == "" then none else some s

unfoldable pub explicit_skill_name : Event → Option String
unfolding says_explicit as_text as_object get_field
explicit_skill_name event =
    if not (says_explicit event)
    then none
    else elim (as_object (get_field event.provider_extensions "skill")) [
      | none ↦ none
      | some skill ↦ given (as_text (get_field skill "name"))
    ]

-- `provider + "\x00" + tool + "\x00" + name`
unfoldable pub skill_key : String → String → String → String
skill_key provider tool name =
    String.◌++◌ provider (String.◌++◌ "\0" (String.◌++◌ tool (String.◌++◌ "\0" name)))

abbrev pub finding_key : SkillFinding → String
finding_key f = skill_key f.provider f.tool f.skill_name

unfoldable pub new_skill_finding : Event → String → SkillFinding
new_skill_finding event name = record {
  rule_id = "unapproved_skill";
  skill_name = name;
  provider = event.provider;
  tool = event.tool;
  source_event_ids = event.event_id ∷ [];
  policy_version = "0.1.0";
  detector_version = "0.1.0";
}

-- The finding under the key, made where it is missing, takes the event's id. The map is the list
-- of its findings in order of insertion.
unfoldable pub add_finding : List SkillFinding → Event → String → List SkillFinding
unfolding new_skill_finding
add_finding [] event name = new_skill_finding event name ∷ []
add_finding (f ∷ fs) event name =
    let rest = add_finding fs event name in
    if finding_key f == skill_key event.provider event.tool name
    then record f { source_event_ids = f.source_event_ids ++ event.event_id ∷ [] } ∷ fs
    else f ∷ rest

-- skillPolicyEvidence on the findings: an explicit skill outside the allowlist adds to them.
unfoldable pub skill_evidence : List String → List SkillFinding → Event → List SkillFinding
unfolding explicit_skill_name add_finding
skill_evidence allowlist findings event = elim (explicit_skill_name event) [
  | none ↦ findings
  | some name ↦ if contains allowlist name then findings else add_finding findings event name
]

-- The two flags that it returns.
unfoldable pub saw_explicit : Event → Bool
saw_explicit event = is_there (explicit_skill_name event)

unfoldable pub saw_incomplete : Event → Bool
unfolding saw_explicit skill_signal_present
saw_incomplete event = not (saw_explicit event) && skill_signal_present event

pub record Scan : Type 0 where
  pub findings : List SkillFinding
  pub explicit : Bool
  pub incomplete : Bool

abbrev pub no_scan : Scan
no_scan = record { findings = []; explicit = false; incomplete = false }

-- The loop over the events.
unfoldable pub scan_skills : List String → Scan → List Event → Scan
unfolding skill_evidence saw_explicit saw_incomplete
scan_skills allowlist s [] = s
scan_skills allowlist s (event ∷ events) =
    scan_skills allowlist
      (record {
        findings = skill_evidence allowlist s.findings event;
        explicit = s.explicit || saw_explicit event;
        incomplete = s.incomplete || saw_incomplete event;
      })
      events

abbrev pub sort_ids : SkillFinding → SkillFinding
sort_ids f = record f { source_event_ids = sort_by text_lt f.source_event_ids }

unfoldable pub sorted_skill_findings : List SkillFinding → List SkillFinding
sorted_skill_findings findings =
    sort_by (λ a b. text_lt (finding_key a) (finding_key b)) (map sort_ids findings)

-- The `switch` of applySkillOutcome, on whether there are findings and on the two flags.
unfoldable pub skill_outcome : List SkillFinding → Bool → Bool → Outcome × Visibility
skill_outcome (f ∷ fs) explicit incomplete = (violation, observed)
skill_outcome [] false false = (indeterminate, unavailable)
skill_outcome [] false true = (indeterminate, partial)
skill_outcome [] true true = (indeterminate, partial)
skill_outcome [] true false = (not_violation, observed)

unfoldable pub apply_skill_outcome : Scan → UnapprovedSkills
unfolding skill_outcome sorted_skill_findings
apply_skill_outcome s =
    let result = skill_outcome s.findings s.explicit s.incomplete in
    record {
      findings = sorted_skill_findings s.findings;
      outcome = result.0;
      visibility = result.1;
    }

-- UnapprovedSkillsFromEvents
unfoldable pub unapproved_skills_from_events : List Event → List String → UnapprovedSkills
unfolding scan_skills apply_skill_outcome
unapproved_skills_from_events events [] = record {
  findings = [];
  outcome = indeterminate;
  visibility = policy_unconfigured;
}
unapproved_skills_from_events events (name ∷ names) =
    apply_skill_outcome (scan_skills (name ∷ names) no_scan events)

infixr 65 ◌&◌
abbrev ◌&◌ : String → String → String
a & b = String.◌++◌ a b

unfoldable pub event_evidence : SkillFinding → List String → List PolicyEvidence
event_evidence f [] = []
event_evidence f (id ∷ ids) =
    record {
      kind = "skill";
      reference =
          "skill:" & f.skill_name & ";provider:" & f.provider & ";tool:" & f.tool & ";event:" & id;
    }
    ∷ event_evidence f ids

unfoldable pub skill_findings_evidence : List SkillFinding → List PolicyEvidence
unfolding event_evidence
skill_findings_evidence [] = []
skill_findings_evidence (f ∷ fs) = event_evidence f f.source_event_ids ++ skill_findings_evidence fs

-- The reference where there is no evidence.
unfoldable pub skill_visibility_marker : Visibility → Outcome → String
skill_visibility_marker policy_unconfigured outcome = "skills_allowlist_not_configured"
skill_visibility_marker partial outcome = "skill_identity_indeterminate"
skill_visibility_marker _ not_violation = "all_explicit_skills_allowlisted"
skill_visibility_marker _ _ = "no_explicit_skills_observed"

abbrev pub or_skill_marker : UnapprovedSkills → List PolicyEvidence → List PolicyEvidence
unfolding skill_visibility_marker
or_skill_marker u [] =
    record { kind = "visibility"; reference = skill_visibility_marker u.visibility u.outcome } ∷ []
or_skill_marker u (e ∷ es) = e ∷ es

-- UnapprovedSkills.Decision
unfoldable pub skill_decision : UnapprovedSkills → PolicyDecision
unfolding skill_findings_evidence or_skill_marker
skill_decision u = record {
  schema_version = policy_schema_version;
  policy_id = "governance.unapproved_skills";
  policy_version = "0.1.0";
  outcome = u.outcome;
  evidence = or_skill_marker u (skill_findings_evidence u.findings);
}
