-- ===== src/Governance/Prompts.antt =====
-- internal/governance/prompt_keywords.go: enabled rules matched against the retained user prompts. A
-- compiled expression is the test that its MatchString makes.
pub mod Laws
use Prim.Native.String
use ai_engineering_productiv.Prelude.{
  ℕ, String, Bool, true, false, ◌&&◌, ◌||◌, not, Option, none, some, List, [], ◌∷◌, ◌++◌, ◌==◌,
  if◌then◌else◌, map, keep, codes, has_prefix, text_lt, sort_by, trim_space,
}
use ai_engineering_productiv.Canonical.{text_or_empty, object_or_empty, get_field, end, Event}
use ai_engineering_productiv.Config.{PromptKeyword}
use ai_engineering_productiv.Conversation
use ai_engineering_productiv.Conversation.{
  Role, user, assistant, unknown, ContentAvailability, available, Record, project,
}
use ai_engineering_productiv.Governance.{
  Outcome, violation, not_violation, indeterminate, Visibility, unavailable, observed, partial,
  policy_unconfigured, PolicyEvidence, PolicyDecision, policy_schema_version,
}

pub record PromptFinding : Type 0 where
  pub rule_id : String
  pub label : String
  pub group : String
  pub kind : String
  pub source_event_id : String
  pub corroborating_event_ids : List String
  pub session_id : String
  pub policy_version : String
  pub detector_version : String

pub record PromptReport : Type 0 where
  pub findings : List PromptFinding
  pub outcome : Outcome
  pub visibility : Visibility

pub record CompiledKeyword : Type 0 where
  pub id : String
  pub label : String
  pub group : String
  pub kind : String
  pub value : String
  pub pattern : Option (String → Bool)

pub record PromptSource : Type 0 where
  pub event_id : String
  pub event_type : String
  pub text : String

pub record PromptIdentity : Type 0 where
  pub key : String
  pub session_id : String
  pub available : Bool
  pub sources : List PromptSource

-- strings.Contains, on runes
unfoldable pub holds : List ℕ → List ℕ → Bool
unfolding has_prefix
holds [] part = has_prefix [] part
holds (x ∷ xs) part = has_prefix (x ∷ xs) part || holds xs part

abbrev run_pattern : Option (String → Bool) → String → Bool
run_pattern none s = false
run_pattern (some p) s = p s

-- matchPromptKeyword
unfoldable pub match_prompt_keyword : CompiledKeyword → String → Bool
unfolding holds
match_prompt_keyword rule s =
    if rule.kind == "literal"
    then holds (codes s) (codes rule.value)
    else if rule.kind == "regex"
    then run_pattern rule.pattern s
    else false

abbrev compiled_with : PromptKeyword → Option (String → Bool) → CompiledKeyword
compiled_with rule pattern = record {
  id = rule.id;
  label = rule.label;
  group = rule.group;
  kind = rule.kind;
  value = rule.value;
  pattern = pattern;
}

abbrev joined : String → String → String
joined a b = String.◌++◌ a (String.◌++◌ "\0" b)

abbrev uuid_key : String → Option String
uuid_key t =
    if t == "user_prompt"
    then some "message_uuid"
    else if t == "user_message"
    then some "uuid"
    else none

-- promptIdentityKey
unfoldable pub claude_key : Event → String → String
unfolding trim_space text_or_empty object_or_empty get_field
claude_key event key =
    let correlation = object_or_empty (get_field event.provider_extensions "correlation") in
    let uuid = trim_space (text_or_empty (get_field correlation key)) in
    let session = trim_space event.session_id in
    if session == "" || uuid == ""
    then joined "event" event.event_id
    else joined "claude" (joined session uuid)

unfoldable pub prompt_identity_key : Event → String
unfolding claude_key
prompt_identity_key event =
    if not (event.provider == "anthropic") || not (event.tool == "claude-code")
    then joined "event" event.event_id
    else elim (uuid_key event.event_type) [
      | none ↦ joined "event" event.event_id
      | some key ↦ claude_key event key
    ]

abbrev no_event : Event
no_event = record {
  event_id = "";
  event_type = "";
  occurred_at = 0;
  received_at = 0;
  provider = "";
  tool = "";
  source_version = "";
  session_id = "";
  schema_version = "";
  source_schema = "";
  privacy_level = "";
  attributes = end;
  provider_extensions = end;
}

-- `byID[id]`: the last event with the id.
unfoldable pub event_by_id : Event → List Event → String → Event
event_by_id found [] id = found
event_by_id found (e ∷ es) id = event_by_id (if e.event_id == id then e else found) es id

abbrev pub is_user : Role → Bool
is_user user = true
is_user _ = false

abbrev pub is_available : ContentAvailability → Bool
is_available available = true
is_available _ = false

-- The source that a record adds to its prompt.
unfoldable pub source_of : Record → Option PromptSource
source_of r = elim (r.text) [
  | none ↦ none
  | some t ↦
      if is_available r.content_availability
      then some (record { event_id = r.event_id; event_type = r.event_type; text = t })
      else none
]

abbrev pub with_source : Option PromptSource → PromptIdentity → PromptIdentity
with_source none p = p
with_source (some s) p = record p { available = true; sources = p.sources ++ s ∷ [] }

-- The prompt with the key, a new one at the end where there is none.
unfoldable pub add_to_prompt :
    List PromptIdentity → String → String → Option PromptSource → List PromptIdentity
add_to_prompt [] key session s =
    with_source s (record { key = key; session_id = session; available = false; sources = [] }) ∷ []
add_to_prompt (p ∷ ps) key session s =
    let rest = add_to_prompt ps key session s in
    if p.key == key then with_source s p ∷ ps else p ∷ rest

unfoldable pub group_records : List Event → List PromptIdentity → List Record → List PromptIdentity
unfolding event_by_id prompt_identity_key source_of add_to_prompt trim_space
group_records events prompts [] = prompts
group_records events prompts (r ∷ rs) =
    let event = event_by_id no_event events r.event_id in
    group_records events
      (if is_user r.role
        then add_to_prompt prompts (prompt_identity_key event) (trim_space event.session_id)
            (source_of r)
        else prompts)
      rs

-- The order of the matched sources: the OTLP prompt first, then by event id.
abbrev is_otlp : PromptSource → Bool
is_otlp s = s.event_type == "user_prompt"

abbrev pub source_before : PromptSource → PromptSource → Bool
source_before a b =
    if is_otlp a && not (is_otlp b)
    then true
    else if is_otlp b && not (is_otlp a)
    then false
    else text_lt a.event_id b.event_id

abbrev pub finding_from :
    PromptIdentity → CompiledKeyword → List PromptSource → Option PromptFinding
finding_from p rule [] = none
finding_from p rule (first ∷ others) = some (record {
  rule_id = rule.id;
  label = rule.label;
  group = rule.group;
  kind = rule.kind;
  source_event_id = first.event_id;
  corroborating_event_ids = map (λ s. s.event_id) others;
  session_id = p.session_id;
  policy_version = "0.2.0";
  detector_version = "0.2.0";
})

-- promptIdentity.finding
unfoldable pub prompt_finding : PromptIdentity → CompiledKeyword → Option PromptFinding
unfolding match_prompt_keyword
prompt_finding p rule =
    finding_from p rule
      (sort_by source_before (keep (λ s. match_prompt_keyword rule s.text) p.sources))

unfoldable pub rule_findings : PromptIdentity → List CompiledKeyword → List PromptFinding
unfolding prompt_finding
rule_findings p [] = []
rule_findings p (rule ∷ rules) =
    let rest = rule_findings p rules in
    elim (prompt_finding p rule) [ none ↦ rest | some f ↦ f ∷ rest ]

unfoldable pub scan_prompts : List CompiledKeyword → List PromptIdentity → List PromptFinding
unfolding rule_findings
scan_prompts rules [] = []
scan_prompts rules (p ∷ ps) =
    let rest = scan_prompts rules ps in if p.available then rule_findings p rules ++ rest else rest

abbrev pub finding_before : PromptFinding → PromptFinding → Bool
finding_before a b =
    text_lt (joined a.source_event_id a.rule_id) (joined b.source_event_id b.rule_id)

abbrev pub report_with : List PromptFinding → Outcome → Visibility → PromptReport
report_with findings outcome visibility = record {
  findings = findings;
  outcome = outcome;
  visibility = visibility;
}

-- applyPromptKeywordOutcome
unfoldable pub apply_prompt_keyword_outcome : List PromptFinding → Bool → Bool → PromptReport
apply_prompt_keyword_outcome (f ∷ fs) saw_available saw_incomplete =
    report_with (f ∷ fs) violation observed
apply_prompt_keyword_outcome [] saw_available saw_incomplete =
    if saw_available && saw_incomplete
    then report_with [] indeterminate partial
    else if saw_available
    then report_with [] not_violation observed
    else report_with [] indeterminate unavailable

abbrev pub any_prompt : (PromptIdentity → Bool) → List PromptIdentity → Bool
any_prompt test [] = false
any_prompt test (p ∷ ps) = test p || any_prompt test ps

abbrev pub conclude : List CompiledKeyword → List PromptIdentity → PromptReport
conclude rules prompts =
    apply_prompt_keyword_outcome (sort_by finding_before (scan_prompts rules prompts))
      (any_prompt (λ p. p.available) prompts) (any_prompt (λ p. not p.available) prompts)

abbrev or_compiled : Option CompiledKeyword → List CompiledKeyword → List CompiledKeyword
or_compiled none rest = rest
or_compiled (some c) rest = c ∷ rest

module _ (regex : String → Option (String → Bool)) where
  -- One pass of the loop of compilePromptKeywords; `regex` is regexp.Compile.
  unfoldable pub compile_rule : PromptKeyword → Option CompiledKeyword
  compile_rule rule =
      if not rule.enabled
      then none
      else if rule.kind == "regex"
      then elim (regex rule.value) [ none ↦ none | some p ↦ some (compiled_with rule (some p)) ]
      else some (compiled_with rule none)

  unfoldable pub compile_prompt_keywords : List PromptKeyword → List CompiledKeyword
  unfolding compile_rule
  compile_prompt_keywords [] = []
  compile_prompt_keywords (rule ∷ rules) =
      or_compiled (compile_rule rule) (compile_prompt_keywords rules)

-- groupPromptIdentities
unfoldable pub group_prompt_identities : (ℕ → ℕ) → List Event → List PromptIdentity
unfolding group_records project
group_prompt_identities fold events = group_records events [] (project fold events)

-- PromptKeywordsFromEvents
unfoldable pub prompt_keywords_from_events :
    (ℕ → ℕ) → (String → Option (String → Bool)) → List Event → List PromptKeyword → PromptReport
unfolding compile_prompt_keywords group_prompt_identities scan_prompts apply_prompt_keyword_outcome
prompt_keywords_from_events fold regex events rules = elim (compile_prompt_keywords regex rules) [
  | [] ↦ report_with [] indeterminate policy_unconfigured
  | rule ∷ compiled ↦ conclude (rule ∷ compiled) (group_prompt_identities fold events)
]

unfoldable join_ids : List String → String
join_ids [] = ""
join_ids (id ∷ []) = id
join_ids (id ∷ other ∷ ids) = String.◌++◌ id (String.◌++◌ "," (join_ids (other ∷ ids)))

unfoldable pub prompt_reference : PromptFinding → String
unfolding join_ids
prompt_reference f =
    let reference =
      String.◌++◌ "rule:" (String.◌++◌ f.rule_id (String.◌++◌ ";event:" f.source_event_id)) in
    elim (f.corroborating_event_ids) [
      | [] ↦ reference
      | id ∷ ids ↦ String.◌++◌ reference (String.◌++◌ ";corroborated_by:" (join_ids (id ∷ ids)))
    ]

abbrev is_clean : Outcome → Bool
is_clean not_violation = true
is_clean _ = false

unfoldable pub prompt_visibility_marker : Visibility → Outcome → String
prompt_visibility_marker policy_unconfigured outcome = "prompt_keywords_not_configured"
prompt_visibility_marker partial outcome = "prompt_coverage_incomplete"
prompt_visibility_marker visibility outcome =
    if is_clean outcome then "no_prompt_keyword_findings" else "user_prompt_unavailable"

abbrev or_prompt_marker : PromptReport → List PolicyEvidence → List PolicyEvidence
or_prompt_marker report (e ∷ es) = e ∷ es
or_prompt_marker report [] =
    record {
      kind = "visibility";
      reference = prompt_visibility_marker report.visibility report.outcome;
    }
    ∷ []

-- PromptKeywordReport.Decision
unfoldable pub prompt_decision : PromptReport → PolicyDecision
unfolding prompt_reference prompt_visibility_marker
prompt_decision report = record {
  schema_version = policy_schema_version;
  policy_id = "governance.prompt_keywords";
  policy_version = "0.2.0";
  outcome = report.outcome;
  evidence = or_prompt_marker report (
      map (λ f. record { kind = "prompt_keyword"; reference = prompt_reference f })
        report.findings);
}
