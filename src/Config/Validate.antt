-- ===== src/Config/Validate.antt =====
-- internal/config/config.go, Validate and what it calls. An error is `some`, with its message
-- reduced to which check failed, and at which index.
use Prim.Native.String.{len}
use ai_engineering_productiv.Prelude.{
  ℕ, ◌+◌, String, Bool, true, false, not, ◌&&◌, ◌||◌, Option, none, some, List, [], ◌∷◌, ◌==◌,
  if◌then◌else◌, leb, ltb, nat_eq, length, any, codes, trim_space, contains,
}
use ai_engineering_productiv.Prelude.Int.{ℤ, pos, negsuc}
use ai_engineering_productiv.Prelude.Float.{float, float_lt}
use ai_engineering_productiv.Config.{
  Config, Collection, Storage, Sharing, ContextWaste, Governance, PathRules, PathRulePattern,
  PromptKeyword,
}

pub data RuleList : Type 0 where
  allowed_list blocked_list : RuleList

pub data PatternError : Type 0 where
  bad_kind blank_value long_value unsupported_glob : PatternError

pub data KeywordError : Type 0 where
  bad_id blank_label long_label bad_group bad_keyword_kind blank_keyword long_keyword : KeywordError
  bad_regex duplicate_id : KeywordError

pub data ConfigError : Type 0 where
  bad_schema_version bad_mode bad_level collects_prompts collects_responses : ConfigError
  collects_source_code bad_destination bad_retention shares_diagnostics : ConfigError
  shares_analytics bad_research_sessions bad_ratio bad_growth : ConfigError
  blank_mcp : ℕ → ConfigError
  many_skills : ConfigError
  blank_skill long_skill : ℕ → ConfigError
  bad_rules_mode many_path_rules : ConfigError
  bad_pattern : RuleList → ℕ → PatternError → ConfigError
  many_keywords : ConfigError
  bad_keyword : ℕ → KeywordError → ConfigError
  relative_override : ConfigError

-- `if err := …; err != nil { return err }`, then the rest.
infixr 20 ◌then_check◌
abbrev pub ◌then_check◌ {ℓ} : {E : Type ℓ} → Option E → Option E → Option E
none then_check rest = rest
some e then_check rest = some e

-- `if failed { return error }`
abbrev pub fail_if {ℓ} : {E : Type ℓ} → Bool → E → Option E
fail_if true e = some e
fail_if false e = none

abbrev pub is_blank : String → Bool
is_blank s = trim_space s == ""

-- utf8.RuneCountInString
abbrev pub rune_count : String → ℕ
rune_count s = length (codes s)

unfoldable pub validate_version_and_mode : Config → Option ConfigError
validate_version_and_mode c =
    fail_if (not (c.schema_version == "0.1.0")) bad_schema_version
    then_check fail_if (not (c.mode == "local-only")) bad_mode

unfoldable pub validate_collection : Collection → Option ConfigError
validate_collection c =
    fail_if (not (c.level == "aggregate") && not (c.level == "operational")) bad_level
    then_check fail_if c.prompts collects_prompts
    then_check fail_if c.responses collects_responses
    then_check fail_if c.source_code collects_source_code

abbrev pub below_one : ℤ → Bool
below_one (pos n) = ltb n 1
below_one (negsuc n) = true

unfoldable pub validate_storage : Storage → Option ConfigError
validate_storage s =
    fail_if (not (s.destination == "local")) bad_destination
    then_check fail_if (below_one s.retention_days) bad_retention

unfoldable pub validate_sharing : Sharing → Option ConfigError
validate_sharing s =
    fail_if s.diagnostics shares_diagnostics
    then_check fail_if s.anonymous_analytics shares_analytics
    then_check fail_if (not (s.research_sessions == "explicit-only")) bad_research_sessions

unfoldable pub validate_insights : ContextWaste → Option ConfigError
validate_insights w =
    fail_if
      (float_lt w.cached_context_ratio_threshold (float 0)
        || float_lt (float 1) w.cached_context_ratio_threshold)
      bad_ratio
    then_check fail_if (float_lt w.input_token_growth_threshold (float 1)) bad_growth

unfoldable pub validate_mcp_allowlist : ℕ → List String → Option ConfigError
validate_mcp_allowlist i [] = none
validate_mcp_allowlist i (name ∷ names) =
    fail_if (is_blank name) (blank_mcp i) then_check validate_mcp_allowlist (i + 1) names

unfoldable pub validate_skill_names : ℕ → List String → Option ConfigError
validate_skill_names i [] = none
validate_skill_names i (name ∷ names) =
    fail_if (is_blank name) (blank_skill i)
    then_check fail_if (ltb 1024 (rune_count name)) (long_skill i)
    then_check validate_skill_names (i + 1) names

-- strings.ContainsAny(value, "[]{}")
unfoldable pub has_unsupported_glob_character : String → Bool
has_unsupported_glob_character value =
    any (λ c. nat_eq c b'[' || nat_eq c b']' || nat_eq c b'{' || nat_eq c b'}') (codes value)

unfoldable pub validate_path_rule_pattern : PathRulePattern → Option PatternError
validate_path_rule_pattern p =
    fail_if (not (p.kind == "exact") && not (p.kind == "glob")) bad_kind
    then_check fail_if (is_blank p.value) blank_value
    then_check fail_if (ltb 1024 (rune_count p.value)) long_value
    then_check fail_if (p.kind == "glob" && has_unsupported_glob_character p.value) unsupported_glob

abbrev at_index : RuleList → ℕ → Option PatternError → Option ConfigError
at_index list i none = none
at_index list i (some e) = some (bad_pattern list i e)

unfoldable pub validate_path_rule_list : RuleList → ℕ → List PathRulePattern → Option ConfigError
validate_path_rule_list list i [] = none
validate_path_rule_list list i (p ∷ ps) =
    at_index list i (validate_path_rule_pattern p)
    then_check validate_path_rule_list list (i + 1) ps

abbrev pub is_empty {ℓ} : {A : Type ℓ} → List A → Bool
is_empty [] = true
is_empty (x ∷ xs) = false

unfoldable pub validate_path_rules : PathRules → Option ConfigError
validate_path_rules r =
    if r.mode == "" && is_empty r.allowed && is_empty r.blocked
    then none
    else fail_if
        (not (r.mode == "monitor") && not (r.mode == "approved_only") && not (r.mode == "flag_all"))
        bad_rules_mode
      then_check fail_if (ltb 100 (length r.allowed) || ltb 100 (length r.blocked)) many_path_rules
      then_check validate_path_rule_list allowed_list 0 r.allowed
      then_check validate_path_rule_list blocked_list 0 r.blocked

-- ^[A-Za-z0-9_-]{1,64}$
abbrev is_id_rune : ℕ → Bool
is_id_rune c =
    leb b'A' c && leb c b'Z'
    || leb b'a' c && leb c b'z'
    || leb b'0' c && leb c b'9'
    || nat_eq c b'_'
    || nat_eq c b'-'

unfoldable pub is_prompt_keyword_id : String → Bool
is_prompt_keyword_id id =
    leb 1 (rune_count id)
    && leb (rune_count id) 64
    && not (any (λ c. not (is_id_rune c)) (codes id))

abbrev at_keyword : ℕ → Option KeywordError → Option ConfigError
at_keyword i none = none
at_keyword i (some e) = some (bad_keyword i e)

-- filepath.IsAbs on a Unix host
abbrev pub is_abs : String → Bool
is_abs path = elim (codes path) [ [] ↦ false | c ∷ cs ↦ nat_eq c b'/' ]

unfoldable pub validate_pricing : String → Option ConfigError
validate_pricing override_path =
    fail_if (not (override_path == "") && not (is_abs override_path)) relative_override

-- Whether a text is an RE2 pattern (regexp.Compile) is an argument.
module _ (compiles : String → Bool) where
  unfoldable pub validate_prompt_keyword : PromptKeyword → Option KeywordError
  validate_prompt_keyword r =
      fail_if (not (is_prompt_keyword_id r.id)) bad_id
      then_check fail_if (is_blank r.label) blank_label
      then_check fail_if (ltb 120 (len r.label)) long_label
      then_check fail_if
          (not (r.group == "credentials")
            && not (r.group == "customer_data")
            && not (r.group == "custom"))
          bad_group
      then_check fail_if (not (r.kind == "literal") && not (r.kind == "regex")) bad_keyword_kind
      then_check fail_if (is_blank r.value) blank_keyword
      then_check fail_if (ltb 1024 (rune_count r.value)) long_keyword
      then_check fail_if (r.kind == "regex" && not (compiles r.value)) bad_regex

  -- The loop of ValidatePromptKeywords; `seen` are the ids so far.
  unfoldable pub validate_keyword_list : ℕ → List String → List PromptKeyword → Option ConfigError
  validate_keyword_list i seen [] = none
  validate_keyword_list i seen (r ∷ rs) =
      at_keyword i (validate_prompt_keyword r)
      then_check fail_if (contains seen r.id) (bad_keyword i duplicate_id)
      then_check validate_keyword_list (i + 1) (r.id ∷ seen) rs

  unfoldable pub validate_prompt_keywords : List PromptKeyword → Option ConfigError
  validate_prompt_keywords rules =
      fail_if (ltb 100 (length rules)) many_keywords then_check validate_keyword_list 0 [] rules

  unfoldable pub validate_governance : Governance → Option ConfigError
  validate_governance g =
      validate_mcp_allowlist 0 g.mcp_allowlist
      then_check fail_if (ltb 100 (length g.skills_allowlist)) many_skills
      then_check validate_skill_names 0 g.skills_allowlist
      then_check validate_path_rules g.path_rules
      then_check validate_prompt_keywords g.prompt_keywords

  -- Config.Validate
  unfoldable pub validate : Config → Option ConfigError
  validate c =
      validate_version_and_mode c
      then_check validate_collection c.collection
      then_check validate_storage c.storage
      then_check validate_sharing c.sharing
      then_check validate_insights c.context_waste
      then_check validate_governance c.governance
      then_check validate_pricing c.override_path
